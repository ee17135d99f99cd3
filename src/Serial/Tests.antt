-- ===== src/Serial/Tests.antt =====
-- Runs of a serial port.
use device_tester.Prelude.{◌≡◌, true, List, [], ◌∷◌}
use device_tester.RingBuffer.Listed.{listed}
use device_tester.Asio.{arrived}
use device_tester.Asio.SerialPort.{simulated}
use device_tester.Serial.Line.{Options, odd, even, FlowControl, one}
use device_tester.Serial.{Serial, create, open_serial, close, do_open, set_options, post}
use device_tester.Serial.Calls.{Call, opens, works, reads, run, drain}
use device_tester.Serial.Opening.{Keeps, run-create-Keeps}
use device_tester.Serial.Closing.{ClosedOr, port_of, with_parity, drain-close, do_open-parity}

abbrev line : Options
line = record {
  port = "COM1";
  baud_rate = 9600;
  character_size = 8;
  parity = odd;
  flow_control = FlowControl.none;
  stop_bits = one;
}

abbrev calls : List Call
calls = opens ∷ works ∷ works ∷ reads (arrived (7 ∷ [])) ∷ works ∷ []

run-create-Keeps_example : Keeps (run (create line) calls)
run-create-Keeps_example = run-create-Keeps line calls

-- An open that the strand has not run yet.
abbrev asked : Serial
asked = open_serial (create line)

drain-close_example : ClosedOr true (drain 2 (close asked))
unfolding open_serial post create
drain-close_example = drain-close asked

do_open-parity_example :
    port_of (do_open (set_options (create line) (with_parity line odd)))
    ≡ port_of (do_open (set_options (create line) (with_parity line even)))
do_open-parity_example = do_open-parity (create line) line
