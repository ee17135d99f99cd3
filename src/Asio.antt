-- ===== src/Asio.antt =====
-- What the connections rely on in asio, which the repository does not contain: sockets, acceptors and
-- ports that are open or closed, and the errors of opening and binding. `Option.none` is an error.
pub mod Loopback
pub mod SerialPort
use device_tester.Prelude.{ℕ, ◌≡◌, Bool, true, false, Option, some, none, String, Bytes}
use device_tester.Connection.{IpProtocol}

-- How a receive completes: with an error, or with the bytes in the buffer.
pub data Arrival : Type 0 where
  aborted : Arrival
  broken : Arrival
  arrived : Bytes → Arrival

pub record SocketApi : Type 1 where
  pub Address : Type 0
  pub make_address : String → Option Address
  pub to_string : Address → String
  pub Socket : Type 0
  pub fresh : Socket
  pub is_open : Socket → Bool
  pub open_socket : Socket → IpProtocol → Option Socket
  pub bind : Socket → IpProtocol → ℕ → Option Socket
  -- `listen` of an acceptor.
  pub listening : Socket → Option Socket
  pub connected : Socket → Address → ℕ → Socket
  pub cancel : Socket → Socket
  pub close : Socket → Socket
  -- `shutdown` of both directions; an error of it changes nothing.
  pub shutdown : Socket → Socket
  pub is_open-fresh : is_open fresh ≡ false
  -- An open socket cannot be opened again (`asio::error::already_open`).
  pub open_twice : (s : Socket) (p : IpProtocol) → is_open s ≡ true → open_socket s p ≡ none
  pub is_open-open_socket :
      (s t : Socket) (p : IpProtocol) → open_socket s p ≡ some t → is_open t ≡ true
  pub is_open-bind :
      (s t : Socket) (p : IpProtocol) (port : ℕ) → bind s p port ≡ some t → is_open t ≡ is_open s
  pub is_open-listening : (s t : Socket) → listening s ≡ some t → is_open t ≡ is_open s
  pub is_open-connected :
      (s : Socket) (a : Address) (port : ℕ) → is_open (connected s a port) ≡ true
  pub is_open-cancel : (s : Socket) → is_open (cancel s) ≡ is_open s
  pub is_open-shutdown : (s : Socket) → is_open (shutdown s) ≡ is_open s
  pub is_open-close : (s : Socket) → is_open (close s) ≡ false
