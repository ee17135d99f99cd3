-- ===== src/Gui/UdpConWin.antt =====
-- libs/gui-libcon/src/udp_con_win.cpp: the window of a UDP connection.
use device_tester.Prelude.{ℕ, Bool, not, if◌then◌else◌, Option, some, none, String, Bytes}
use device_tester.RingBuffer.Container.{CircularBuffer}
use device_tester.Asio.{SocketApi}
use device_tester.Connection.{IpProtocol, connect_on_receive}
use device_tester.UdpConnection.{Options, Udp, set_options, set_receiving, is_receiving}
use device_tester.Gui.Elements.{draw_ip_protocol_selection}
use device_tester.Gui.Elements
use device_tester.Gui.Windows.{WindowManager, register_window, unregister_window}

-- What the user does in the settings: what the inputs hold, the entries of the list that are clicked, and
-- the buttons.
pub record Frame : Type 0 where
  pub write_address : String
  pub write_port : ℕ
  pub listen_port : ℕ
  pub protocol_clicked : IpProtocol → Bool
  pub receiving_clicked : Bool
  pub reset : Bool
  pub apply : Bool

unfoldable pub edit : Options → Frame → Options
unfolding draw_ip_protocol_selection
edit opts f = record {
  write_address = f.write_address;
  write_port = f.write_port;
  listen_protocol = draw_ip_protocol_selection f.protocol_clicked opts.listen_protocol;
  listen_port = f.listen_port;
}

module _ ⦃box : CircularBuffer Bytes⦄ ⦃net : SocketApi⦄ where
  pub record UdpConWin : Type 0 where
    pub connection : Udp
    pub raw_win : Option ℕ
    pub opts : Options
    pub win_manager : WindowManager

  -- The window's options are not initialised; `opts` says what they are.
  unfoldable pub create : Udp → Options → WindowManager → UdpConWin
  create connection opts windows = record {
    connection = connection;
    raw_win = none;
    opts = opts;
    win_manager = windows;
  }

  unfoldable pub title : UdpConWin → String
  title s = Elements.title "[NEW] UDP" s.connection.base.readable_name

  -- The button that starts and stops to receive.
  unfoldable pub press : Udp → Bool → Udp
  unfolding set_receiving is_receiving
  press c clicked = if clicked then set_receiving c (not (is_receiving c)) else c

  unfoldable pub draw_tab_settings : UdpConWin → Frame → UdpConWin
  unfolding press edit set_options
  draw_tab_settings s f =
      let c : Udp = press s.connection f.receiving_clicked in
      let opts : Options = if f.reset then c.opts else edit s.opts f in
      record s { connection = if f.apply then set_options c opts else c; opts = opts }

  -- The check box was clicked; a new console is at `address`.
  unfoldable pub draw_tab_details : UdpConWin → ℕ → UdpConWin
  unfolding register_window unregister_window
  draw_tab_details s address = elim s.raw_win [
    | none ↦ record s {
      raw_win = some address;
      connection = record s.connection {
        receiver = connect_on_receive s.connection.receiver address;
      };
      win_manager = register_window s.win_manager address;
    }
    | some old ↦ record s { raw_win = none; win_manager = unregister_window s.win_manager old }
  ]
