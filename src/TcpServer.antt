-- ===== src/TcpServer.antt =====
-- libs/libcon/src/tcp_server.cpp and include/libcon/tcp_server.hpp: the acceptor, the set of connected
-- clients and the state signal. The clients themselves are in TcpServer/Session.antt.
-- A client is named by its address in memory. It outlives its place in the set, because the handlers
-- of its operations hold it: `heap` has every client that was made.
pub mod Session
pub mod Clients
pub mod Frame
pub mod Calls
pub mod Invariant
pub mod Signals
pub mod Stopping
pub mod Accepting
mod Tests
use device_tester.Prelude.{
  ℕ, ◌+◌, ◌-◌, Bool, true, false, ltb, ◌==◌, if◌then◌else◌, Option, some, none, List, [], ◌∷◌, ◌++◌,
  length, String, Bytes, Attempt, done, blocked, out_of_range, ◌>>=◌,
}
use device_tester.RingBuffer.Container.{CircularBuffer}
use device_tester.Writer.{Completion}
use device_tester.Connection.{
  IpProtocol, ipv4, ipv6, Text, literal, format, text, number, BaseConnection, unnamed,
}
use device_tester.Asio.{Arrival, aborted, broken, arrived, SocketApi}
use Session.{TcpServerClient}

-- The port is an `unsigned short`.
pub record Options : Type 0 where
  pub protocol : IpProtocol
  pub port : ℕ

pub data ClientState : Type 0 where
  connected disconnected : ClientState

-- `std::set<TcpServerClientPtr>`: addresses, the lowest first.
unfoldable pub insert : ℕ → List ℕ → List ℕ
insert p [] = p ∷ []
insert p (x ∷ xs) =
    let rest = insert p xs in if ltb p x then p ∷ x ∷ xs else if p == x then x ∷ xs else x ∷ rest

unfoldable pub erase : ℕ → List ℕ → List ℕ
erase p [] = []
erase p (x ∷ xs) = let rest = erase p xs in if p == x then xs else x ∷ rest

module _ ⦃box : CircularBuffer Bytes⦄ ⦃net : SocketApi⦄ where
  -- `signals` are the calls of `client_state_sig_`, oldest first; `accepting` counts the accepts that
  -- asio has not completed.
  pub record Server : Type 0 where
    pub base : BaseConnection
    pub opts : Options
    pub heap : ℕ → Option TcpServerClient
    pub connections : List ℕ
    pub signals : List (ClientState × ℕ)
    pub acceptor : net.Socket
    pub accepting : ℕ

  unfoldable pub create : Options → Server
  create opts = record {
    base = unnamed;
    opts = opts;
    heap = λ p. none;
    connections = [];
    signals = [];
    acceptor = net.fresh;
    accepting = 0;
  }

  -- A write to the client at `p`.
  unfoldable pub put :
      (ℕ → Option TcpServerClient) → ℕ → TcpServerClient → ℕ → Option TcpServerClient
  put heap p session q = if p == q then some session else heap q

  -- A call of a method that changes the client at `p`.
  unfoldable pub change :
      (ℕ → Option TcpServerClient)
      → ℕ
      → (TcpServerClient → TcpServerClient)
      → ℕ
      → Option TcpServerClient
  unfolding put
  change heap p f = elim (heap p) [ none ↦ heap | some session ↦ put heap p (f session) ]

  -- `TcpServerManager::start`.
  unfoldable pub manager_start : Server → ℕ → TcpServerClient → Server
  manager_start s p session = record s {
    connections = insert p s.connections;
    heap = put s.heap p (Session.start session);
    signals = s.signals ++ (connected, p) ∷ [];
  }

  -- `TcpServerManager::stop`.
  unfoldable pub manager_stop : Server → ℕ → Server
  manager_stop s p = record s {
    heap = change s.heap p Session.stop;
    signals = s.signals ++ (disconnected, p) ∷ [];
    connections = erase p s.connections;
  }

  unfoldable pub stop_each : (ℕ → Option TcpServerClient) → List ℕ → ℕ → Option TcpServerClient
  stop_each heap [] = heap
  stop_each heap (p ∷ ps) = stop_each (change heap p Session.stop) ps

  -- `TcpServerManager::stopAll`.
  unfoldable pub stop_all : Server → Server
  stop_all s = record s { heap = stop_each s.heap s.connections; connections = [] }

  unfoldable pub is_running : Server → Bool
  is_running s = net.is_open s.acceptor

  unfoldable pub stop : Server → Server
  stop s = stop_all (
      if net.is_open s.acceptor
      then record s { acceptor = net.close (net.cancel s.acceptor) }
      else s)

  unfoldable pub start_accept : Server → Server
  start_accept s = record s { accepting = s.accepting + 1 }

  -- `start` after `stop`. An `open` or a `listen` that fails throws out of `start`; a `bind` that fails is
  -- logged.
  unfoldable pub listen : Server → IpProtocol → Server
  unfolding start_accept
  listen s version = elim (net.open_socket s.acceptor version) [
    | none ↦ s
    | some opened ↦ elim (net.bind opened version s.opts.port) [
      | none ↦ record s { acceptor = opened }
      | some bound ↦ elim (net.listening bound) [
        | none ↦ record s { acceptor = bound }
        | some ready ↦ start_accept (record s { acceptor = ready })
      ]
    ]
  ]

  unfoldable pub listen_on : Server → IpProtocol → Server
  listen_on s IpProtocol.none = s
  listen_on s ipv4 = listen s ipv4
  listen_on s ipv6 = listen s ipv6

  unfoldable pub start : Server → Server
  start s = let s' = stop s in listen_on s' s'.opts.protocol

  -- `setOptions` after the assignment of `opts_`.
  unfoldable pub restart : Server → Server
  restart s = if is_running s then start s else s

  unfoldable pub set_options : Server → Options → Server
  set_options s opts = restart (record s { opts = opts })

  -- The handler that `startAccept` gives to `async_accept`: an error is `none`, and a client is made at
  -- the address `p` for a socket.
  unfoldable pub handle_accept : Server → Option (ℕ × net.Socket) → Server
  unfolding start_accept
  handle_accept s none = record s { accepting = s.accepting - 1 }
  handle_accept s (some (p, socket)) =
      let s' = record s { accepting = s.accepting - 1 } in
      if net.is_open s'.acceptor
      then start_accept (manager_start s' p (Session.make socket))
      else s'

  -- The handler of a client's receive. Only an error other than `operation_aborted` on a client that
  -- runs takes it out of the set.
  unfoldable pub handle_read : Server → ℕ → Arrival → Server
  handle_read s p (arrived bytes) = record s {
    heap = change s.heap p (λ session. Session.receive session bytes);
  }
  handle_read s p aborted = record s { heap = change s.heap p Session.unread }
  handle_read s p broken =
      let s' = record s { heap = change s.heap p Session.unread } in
      elim (s.heap p) [
        | none ↦ s'
        | some session ↦ if session.do_run then manager_stop s' p else s'
      ]

  unfoldable pub send : Server → ℕ → Bytes → Attempt Server
  send s p bytes = elim (s.heap p) [
    | none ↦ done s
    | some session ↦
        Session.send session bytes >>= λ session'. done (record s { heap = put s.heap p session' })
  ]

  unfoldable pub send_to : Server → List ℕ → Bytes → Attempt Server
  send_to s [] bytes = done s
  send_to s (p ∷ ps) bytes = do s' ← send s p bytes; send_to s' ps bytes

  unfoldable pub send_to_all : Server → Bytes → Attempt Server
  unfolding send_to
  send_to_all s bytes = send_to s s.connections bytes

  unfoldable pub handle_sent : Server → ℕ → Completion → Attempt Server
  handle_sent s p c = elim (s.heap p) [
    | none ↦ done s
    | some session ↦ Session.handle_sent session c >>= λ session'.
        done (record s { heap = put s.heap p session' })
  ]

  unfoldable pub number_of_connected_clients : Server → ℕ
  number_of_connected_clients s = length s.connections

  unfoldable pub destroy : Server → Server
  destroy s = stop_all (stop s)

unfoldable pub version_name : IpProtocol → String
version_name ipv4 = "ipv4"
version_name _ = "ipv6"

unfoldable pub listening_name : IpProtocol → ℕ → Text
unfolding version_name
listening_name protocol port =
    format "[tcp-server] {}::{}" (text (version_name protocol) ∷ number port ∷ [])

unfoldable pub protocol_name : IpProtocol → ℕ → Text
unfolding listening_name
protocol_name IpProtocol.none port = literal "[tcp-server] none"
protocol_name ipv4 port = listening_name ipv4 port
protocol_name ipv6 port = listening_name ipv6 port

unfoldable pub generate_readable_name : Options → Text
unfolding protocol_name
generate_readable_name opts = protocol_name opts.protocol opts.port
