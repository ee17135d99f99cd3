-- ===== src/Gui/TcpClientWin.antt =====
-- libs/gui-libcon/src/tcp_client_win.cpp: the window of a TCP client.
use device_tester.Prelude.{ℕ, Bool, if◌then◌else◌, Option, some, none, String, Bytes}
use device_tester.RingBuffer.Container.{CircularBuffer}
use device_tester.Asio.{SocketApi}
use device_tester.Connection.{set_readable_name, connect_on_receive}
use device_tester.TcpClient.{Options, Client, set_options, is_connected, connect, disconnect}
use device_tester.Gui.Elements
use device_tester.Gui.Windows.{WindowManager, register_window, unregister_window}

-- What the user does in the settings: the texts that the inputs hold, and the buttons.
pub record Frame : Type 0 where
  pub name : Option String
  pub server : String
  pub service : String
  pub apply : Bool
  pub disconnect_clicked : Bool
  pub connect_clicked : Bool
  pub reset : Bool

unfoldable pub edit : Frame → Options
edit f = record { server = f.server; service = f.service }

module _ ⦃box : CircularBuffer Bytes⦄ ⦃net : SocketApi⦄ where
  pub record TcpClientWin : Type 0 where
    pub client : Client
    pub raw_win : Option ℕ
    pub opts : Options
    pub win_manager : WindowManager

  unfoldable pub create : Client → WindowManager → TcpClientWin
  create client windows = record {
    client = client;
    raw_win = none;
    opts = client.opts;
    win_manager = windows;
  }

  unfoldable pub title : TcpClientWin → String
  title s = Elements.title "[NEW] TCP" s.client.base.readable_name

  unfoldable pub rename : Client → Option String → Client
  rename c none = c
  rename c (some name) = record c { base = set_readable_name c.base name }

  -- The buttons but Reset: one of Disconnect and Connect is drawn.
  unfoldable pub press : Client → Frame → Options → Client
  unfolding is_connected disconnect connect set_options
  press c f edited =
      let applied : Client = if f.apply then set_options c edited else c in
      if is_connected applied
      then (if f.disconnect_clicked then disconnect applied else applied)
      else if f.connect_clicked
      then connect (set_options applied edited)
      else applied

  unfoldable pub draw_tab_settings : TcpClientWin → Frame → TcpClientWin
  unfolding rename edit press
  draw_tab_settings s f =
      let client : Client = press (rename s.client f.name) f (edit f) in
      record s { client = client; opts = if f.reset then client.opts else edit f }

  -- The check box was clicked; a new console is at `address`.
  unfoldable pub draw_tab_details : TcpClientWin → ℕ → TcpClientWin
  unfolding register_window unregister_window
  draw_tab_details s address = elim s.raw_win [
    | none ↦ record s {
      raw_win = some address;
      client = record s.client { receiver = connect_on_receive s.client.receiver address };
      win_manager = register_window s.win_manager address;
    }
    | some old ↦ record s { raw_win = none; win_manager = unregister_window s.win_manager old }
  ]
