-- ===== src/Gui/Tests.antt =====
-- Frames of the windows.
use device_tester.Prelude.{ℕ, ◌≡◌, true, false, Option, some, none, List, [], ◌∷◌}
use device_tester.Gui.ConnectionManager
use device_tester.Gui.ConnectionManager.{
  Kind, udp, coap, ConnectionWin, IsListed, run-create-IsListed,
}
use device_tester.RingBuffer.Listed.{listed}
use device_tester.Asio.SerialPort.{simulated}
use device_tester.Serial
use device_tester.Serial.Line.{Options, Parity, FlowControl, one}
use device_tester.Gui.SerialSettings
use device_tester.Gui.SerialSettings.{SerialWin, settings, details, run-opts}

abbrev udp_item : Kind → Option ℕ
udp_item udp = some 8
udp_item _ = none

abbrev no_item : Kind → Option ℕ
no_item k = none

abbrev lamp : ConnectionWin
lamp = record { address = 4; kind = coap }

abbrev use_manager : List ConnectionManager.Event
use_manager =
    ConnectionManager.registers lamp
    ∷ ConnectionManager.frame (record { menu = udp_item; clicked = λ a. false; trash = false })
    ∷ ConnectionManager.frame (record { menu = no_item; clicked = λ a. true; trash = false })
    ∷ []

run-create-IsListed_example :
    let s = ConnectionManager.run ConnectionManager.create use_manager in
    IsListed s.connections s.current
run-create-IsListed_example = run-create-IsListed use_manager

abbrev line : Options
line = record {
  port = "COM1";
  baud_rate = 115200;
  character_size = 8;
  parity = Parity.none;
  flow_control = FlowControl.none;
  stop_bits = one;
}

abbrev edited : SerialSettings.Frame
edited = record {
  name = none;
  port = "COM7";
  baud_rate = 9600;
  character_size = 7;
  parity_clicked = λ p. true;
  stop_bits_clicked = λ b. false;
  flow_control_clicked = λ c. false;
  button = true;
}

abbrev serial_win : SerialWin
serial_win = SerialSettings.create (Serial.create line) []

run-opts_example :
    (SerialSettings.run serial_win (settings edited ∷ details 5 ∷ [])).connection.opts
    ≡ serial_win.connection.opts
run-opts_example = run-opts serial_win (settings edited ∷ details 5 ∷ [])
