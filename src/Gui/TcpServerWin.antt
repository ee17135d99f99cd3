-- ===== src/Gui/TcpServerWin.antt =====
-- libs/gui-libcon/src/tcp_server_win.cpp: the window of a TCP server, with a console for each client that
-- the user asks one for. A console is its address, and a client is named by its own.
pub mod Consoles
mod Tests
use device_tester.Prelude.{
  ◌&&◌, ℕ, Bool, true, false, ◌==◌, if◌then◌else◌, Option, some, none, List, [], ◌∷◌, String, Bytes,
  length, drop,
}
use text.Mathlib.Text.{◌==◌ as str_eq}
use device_tester.RingBuffer.Container.{CircularBuffer}
use device_tester.Asio.{SocketApi}
use device_tester.Connection.{IpProtocol, set_readable_name}
use device_tester.Connection
use device_tester.TcpServer.{
  Options, Server, ClientState, connected, disconnected, set_options, is_running, start, stop,
  change, number_of_connected_clients,
}
use device_tester.TcpServer.Session.{TcpServerClient}
use device_tester.TcpServer.Calls.{Call, step}
use device_tester.Gui.Elements.{draw_ip_protocol_selection}
use device_tester.Gui.Elements
use device_tester.Gui.Windows.{WindowManager, register_window, unregister_window}

-- What the user does in the settings.
pub record Frame : Type 0 where
  pub name : Option String
  pub protocol_clicked : IpProtocol → Bool
  pub port : ℕ
  pub apply : Bool
  pub stop_clicked : Bool
  pub start_clicked : Bool
  pub reset : Bool

-- In the tab of the clients: which of them are unfolded, and whose check box is clicked. `names` has what
-- `generateReadableName` makes of the remote end.
pub record ClientsFrame : Type 0 where
  pub names : ℕ → String
  pub unfolded : ℕ → Bool
  pub console_clicked : ℕ → Bool

-- `std::map` from a client to its console.
unfoldable pub find : List (ℕ × ℕ) → ℕ → Option ℕ
find [] p = none
find ((q, console) ∷ ws) p = if q == p then some console else find ws p

unfoldable pub erase_console : List (ℕ × ℕ) → ℕ → List (ℕ × ℕ)
erase_console [] p = []
erase_console ((q, console) ∷ ws) p =
    let rest = erase_console ws p in if q == p then ws else (q, console) ∷ rest

module _ ⦃box : CircularBuffer Bytes⦄ ⦃net : SocketApi⦄ where
  pub record TcpServerWin : Type 0 where
    pub server : Server
    pub opts : Options
    pub client_wins : List (ℕ × ℕ)
    pub win_manager : WindowManager

  unfoldable pub create : Server → WindowManager → TcpServerWin
  create server windows = record {
    server = server;
    opts = server.opts;
    client_wins = [];
    win_manager = windows;
  }

  unfoldable pub title : TcpServerWin → String
  title s = Elements.title "[NEW] TCP-Server" s.server.base.readable_name

  unfoldable pub close_console : TcpServerWin → ℕ → ℕ → TcpServerWin
  unfolding unregister_window erase_console
  close_console s p console = record s {
    win_manager = unregister_window s.win_manager console;
    client_wins = erase_console s.client_wins p;
  }

  -- The slot that the window connects to the state of the clients.
  unfoldable pub on_client_state : TcpServerWin → ClientState × ℕ → TcpServerWin
  unfolding close_console find
  on_client_state s (connected, p) = s
  on_client_state s (disconnected, p) = elim (find s.client_wins p) [
    | none ↦ s
    | some console ↦ close_console s p console
  ]

  unfoldable pub deliver : TcpServerWin → List (ClientState × ℕ) → TcpServerWin
  unfolding on_client_state
  deliver s [] = s
  deliver s (signal ∷ signals) = deliver (on_client_state s signal) signals

  -- A call of the server, by the program or by asio, with the signals that it gives.
  unfoldable pub server_call : TcpServerWin → Call → TcpServerWin
  unfolding deliver step
  server_call s c =
      let server = step s.server c in
      deliver (record s { server = server }) (drop (length s.server.signals) server.signals)

  unfoldable pub rename : Server → Option String → Server
  rename server none = server
  rename server (some name) = record server { base = set_readable_name server.base name }

  -- The buttons; to stop the server signals nothing.
  unfoldable pub press : Server → Frame → Options → Server
  unfolding set_options is_running start stop
  press server f edited =
      let applied : Server = if f.apply then set_options server edited else server in
      if is_running applied
      then (if f.stop_clicked then stop applied else applied)
      else if f.start_clicked
      then start (set_options applied edited)
      else applied

  unfoldable pub draw_tab_settings : TcpServerWin → Frame → TcpServerWin
  unfolding rename press draw_ip_protocol_selection
  draw_tab_settings s f =
      let edited : Options = record {
        protocol = draw_ip_protocol_selection f.protocol_clicked s.opts.protocol;
        port = f.port;
      } in
      let server : Server = press (rename s.server f.name) f edited in
      record s { server = server; opts = if f.reset then server.opts else edited }

  -- The number that the details show.
  unfoldable pub draw_tab_details : TcpServerWin → ℕ
  draw_tab_details s = number_of_connected_clients s.server

  unfoldable pub name_client : String → TcpServerClient → TcpServerClient
  name_client generated c =
      if str_eq c.base.readable_name ""
      then record c { base = set_readable_name c.base generated }
      else c

  unfoldable pub connect_console : ℕ → TcpServerClient → TcpServerClient
  connect_console console c = record c {
    receiver = Connection.connect_on_receive c.receiver console;
  }

  -- `allocate` makes a window at an address that none of those that float has.
  module _ (allocate : List ℕ → ℕ) where
    unfoldable pub open_console : TcpServerWin → ℕ → TcpServerWin
    unfolding register_window change connect_console
    open_console s p =
        let console : ℕ = allocate s.win_manager.windows in
        let server : Server = record s.server {
          heap = change s.server.heap p (connect_console console);
        } in
        record s {
          server = server;
          client_wins = (p, console) ∷ s.client_wins;
          win_manager = register_window s.win_manager console;
        }

    -- The check box was clicked.
    unfoldable pub toggle_console : TcpServerWin → ℕ → TcpServerWin
    unfolding open_console close_console find
    toggle_console s p = elim (find s.client_wins p) [
      | none ↦ open_console s p
      | some console ↦ close_console s p console
    ]

    unfoldable pub draw_client : TcpServerWin → ClientsFrame → ℕ → TcpServerWin
    unfolding toggle_console change name_client
    draw_client s f p =
        let named : Server = record s.server {
          heap = change s.server.heap p (name_client (f.names p));
        } in
        let s' : TcpServerWin = record s { server = named } in
        if f.unfolded p && f.console_clicked p then toggle_console s' p else s'

    -- The loop of `eachClient`.
    unfoldable pub draw_clients : TcpServerWin → ClientsFrame → List ℕ → TcpServerWin
    unfolding draw_client
    draw_clients s f [] = s
    draw_clients s f (p ∷ ps) = draw_clients (draw_client s f p) f ps

    unfoldable pub draw_custom_tabs : TcpServerWin → ClientsFrame → TcpServerWin
    unfolding draw_clients
    draw_custom_tabs s f = draw_clients s f s.server.connections

    pub data Event : Type 0 where
      calls : Call → Event
      settings : Frame → Event
      clients : ClientsFrame → Event

    unfoldable pub run : TcpServerWin → List Event → TcpServerWin
    unfolding server_call draw_tab_settings draw_custom_tabs
    run s [] = s
    run s (calls c ∷ es) = run (server_call s c) es
    run s (settings f ∷ es) = run (draw_tab_settings s f) es
    run s (clients f ∷ es) = run (draw_custom_tabs s f) es
