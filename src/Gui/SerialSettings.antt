-- ===== src/Gui/SerialSettings.antt =====
-- libs/gui-libcon/src/serial_win.cpp: the window of a serial port.
use device_tester.Prelude.{
  ℕ, ◌≡◌, refl, ◌∙◌, Bool, not, if◌then◌else◌, Option, some, none, List, [], ◌∷◌, String, Bytes,
  arith,
}
use device_tester.RingBuffer.Container.{CircularBuffer}
use device_tester.Asio.SerialPort.{SerialApi}
use device_tester.Connection.{set_readable_name, connect_on_receive}
use device_tester.Gui.Elements
use device_tester.Gui.Elements.{choose}
use device_tester.TcpServer.{insert, erase}
use device_tester.Serial.{Serial, open_serial, close, is_open, post}
use device_tester.Serial.Line.{
  Options, Parity, odd, even, FlowControl, software, hardware, StopBits, one, onepointfive, two,
}

-- What the user does in the settings: the texts and numbers that the inputs hold, the entries of the
-- lists that are clicked, and whether the button is.
pub record Frame : Type 0 where
  pub name : Option String
  pub port : String
  pub baud_rate : ℕ
  pub character_size : ℕ
  pub parity_clicked : Parity → Bool
  pub stop_bits_clicked : StopBits → Bool
  pub flow_control_clicked : FlowControl → Bool
  pub button : Bool

unfoldable pub edit : Options → Frame → Options
unfolding choose
edit opts f = record {
  port = f.port;
  baud_rate = f.baud_rate;
  character_size = f.character_size;
  parity = choose f.parity_clicked (Parity.none ∷ odd ∷ even ∷ []) opts.parity;
  flow_control =
      choose f.flow_control_clicked (FlowControl.none ∷ software ∷ hardware ∷ []) opts.flow_control;
  stop_bits = choose f.stop_bits_clicked (one ∷ onepointfive ∷ two ∷ []) opts.stop_bits;
}

module _ ⦃box : CircularBuffer Bytes⦄ ⦃api : SerialApi⦄ where
  -- `windows` is the set of the window manager, the lowest address first, and a console is its address.
  pub record SerialWin : Type 0 where
    pub connection : Serial
    pub raw_win : Option ℕ
    pub opts : Options
    pub windows : List ℕ

  unfoldable pub create : Serial → List ℕ → SerialWin
  create connection windows = record {
    connection = connection;
    raw_win = none;
    opts = connection.opts;
    windows = windows;
  }

  unfoldable title : SerialWin → String
  title s = Elements.title "[NEW] Serial" s.connection.base.readable_name

  unfoldable pub rename : Serial → Option String → Serial
  rename c none = c
  rename c (some name) = record c { base = set_readable_name c.base name }

  unfoldable pub press : Serial → Serial
  unfolding is_open open_serial close
  press c = if not (is_open c) then open_serial c else close c

  unfoldable pub draw_tab_settings : SerialWin → Frame → SerialWin
  unfolding rename edit press
  draw_tab_settings s f =
      let c = rename s.connection f.name in
      record s { opts = edit s.opts f; connection = if f.button then press c else c }

  -- The check box was clicked; a new console is at `address`.
  unfoldable pub draw_tab_details : SerialWin → ℕ → SerialWin
  draw_tab_details s address = elim s.raw_win [
    | none ↦ record s {
      raw_win = some address;
      connection = record s.connection {
        receiver = connect_on_receive s.connection.receiver address;
      };
      windows = insert address s.windows;
    }
    | some old ↦ record s { raw_win = none; windows = erase old s.windows }
  ]

  pub data Event : Type 0 where
    settings : Frame → Event
    details : ℕ → Event

  unfoldable pub run : SerialWin → List Event → SerialWin
  unfolding draw_tab_settings draw_tab_details
  run s [] = s
  run s (settings f ∷ es) = run (draw_tab_settings s f) es
  run s (details address ∷ es) = run (draw_tab_details s address) es

  press-opts : (c : Serial) → (press c).opts ≡ c.opts
  unfolding press open_serial close post
  press-opts c = ground arith

  rename-opts : (c : Serial) (name : Option String) → (rename c name).opts ≡ c.opts
  unfolding rename
  rename-opts c none = refl
  rename-opts c (some name) = refl

  settings-opts :
      (s : SerialWin) (f : Frame) → (draw_tab_settings s f).connection.opts ≡ s.connection.opts
  unfolding draw_tab_settings
  settings-opts s f =
      ground (arith, press-opts (rename s.connection f.name), rename-opts s.connection f.name)

  details-opts :
      (s : SerialWin) (address : ℕ)
      → (draw_tab_details s address).connection.opts ≡ s.connection.opts
  unfolding draw_tab_details
  details-opts s address = ground arith

  -- Whatever the user sets in the window of a serial port, and however often the port is opened from it,
  -- the options of the port stay what they were.
  pub run-opts : (s : SerialWin) (es : List Event) → (run s es).connection.opts ≡ s.connection.opts
  unfolding run
  run-opts s [] = refl
  run-opts s (settings f ∷ es) = run-opts (draw_tab_settings s f) es ∙ settings-opts s f
  run-opts s (details address ∷ es) =
      run-opts (draw_tab_details s address) es ∙ details-opts s address
