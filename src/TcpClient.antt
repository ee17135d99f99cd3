-- ===== src/TcpClient.antt =====
-- libs/libcon/src/tcp_client.cpp and include/libcon/tcp_client.hpp. The private `Impl` and the class
-- around it are one record; a call that the class only passes on is the call of `Impl`.
-- The operations that asio has not completed are kept, oldest first, with what they were given; a
-- handler takes its own off.
pub mod Calls
pub mod Reading
pub mod Reconnect
mod Tests
use device_tester.Prelude.{
  ℕ, ◌+◌, ◌-◌, Bool, true, false, not, if◌then◌else◌, List, [], ◌∷◌, ◌++◌, drop, String, Bytes,
  Attempt, done, ◌>>=◌,
}
use device_tester.RingBuffer.Container.{CircularBuffer}
use device_tester.Writer.{Pump, Completion, idle, enqueue, start_write, on_sent}
use device_tester.Connection.{
  Text, literal, format, text, number, BaseConnection, unnamed, Receiver, no_slots, on_receive,
}
use device_tester.Asio.{Arrival, aborted, broken, arrived, SocketApi}

pub record Options : Type 0 where
  pub server : String
  pub service : String

module _ ⦃net : SocketApi⦄ where
  -- What `async_resolve` and `async_connect` complete with.
  pub data Resolution : Type 0 where
    unresolved : Resolution
    resolved : List (net.Address × ℕ) → Resolution

  pub data Handshake : Type 0 where
    refused : Handshake
    accepted : net.Address → ℕ → Handshake

module _ ⦃box : CircularBuffer Bytes⦄ ⦃net : SocketApi⦄ where
  pub record Client : Type 0 where
    pub base : BaseConnection
    pub pump : Pump
    pub receiver : Receiver
    pub opts : Options
    pub connection_str : Text
    pub socket : net.Socket
    pub should_run : Bool
    pub resolving : List Options
    pub connecting : List (List (net.Address × ℕ))
    pub reading : ℕ

  unfoldable pub create : Client
  create = record {
    base = unnamed;
    pump = idle;
    receiver = no_slots;
    opts = record { server = ""; service = "" };
    connection_str = literal "";
    socket = net.fresh;
    should_run = true;
    resolving = [];
    connecting = [];
    reading = 0;
  }

  unfoldable pub is_connected : Client → Bool
  is_connected s = net.is_open s.socket

  unfoldable pub connect : Client → Client
  connect s = record s { resolving = s.resolving ++ s.opts ∷ [] }

  unfoldable pub disconnect : Client → Client
  disconnect s = record s { should_run = false; socket = net.close s.socket }

  -- The handler that `connect` gives to `async_resolve`.
  unfoldable pub handle_resolve : Client → Resolution → Client
  unfolding disconnect
  handle_resolve s (resolved endpoints) = record s {
    resolving = drop 1 s.resolving;
    connecting = s.connecting ++ endpoints ∷ [];
  }
  handle_resolve s unresolved = disconnect (record s { resolving = drop 1 s.resolving })

  unfoldable pub start_read : Client → Client
  start_read s = record s { reading = s.reading + 1 }

  unfoldable pub handle_connect : Client → Handshake → Client
  unfolding disconnect start_read
  handle_connect s (accepted address port) = start_read (record s {
    connecting = drop 1 s.connecting;
    socket = net.connected s.socket address port;
    connection_str = format "[tcp-client] {}:{}" (text (net.to_string address) ∷ number port ∷ []);
  })
  handle_connect s refused = disconnect (record s { connecting = drop 1 s.connecting })

  unfoldable pub handle_read : Client → Arrival → Client
  unfolding disconnect start_read
  handle_read s (arrived bytes) =
      let s' = record s { receiver = on_receive s.receiver bytes; reading = s.reading - 1 } in
      if s'.should_run then start_read s' else s'
  handle_read s aborted = disconnect (record s { reading = s.reading - 1 })
  handle_read s broken = disconnect (record s { reading = s.reading - 1 })

  unfoldable pub do_write : Client → Attempt Client
  do_write s =
      if not s.should_run
      then done s
      else (do pump ← start_write s.pump; done (record s { pump = pump }))

  -- `TcpClient::send`, which is `Writer::write`.
  unfoldable pub send : Client → Bytes → Attempt Client
  unfolding do_write
  send s bytes = do pump ← enqueue s.pump bytes; do_write (record s { pump = pump })

  unfoldable pub handle_sent : Client → Completion → Attempt Client
  handle_sent s c = do pump ← on_sent s.pump c; done (record s { pump = pump })

  -- `TcpClient::setOptions`.
  unfoldable pub set_options : Client → Options → Client
  unfolding is_connected connect disconnect
  set_options s opts =
      let s' = record s { opts = opts } in if is_connected s' then connect (disconnect s') else s'

  unfoldable pub destroy : Client → Client
  unfolding disconnect
  destroy s = disconnect s

  unfoldable pub generate_readable_name : Client → Text
  generate_readable_name s = s.connection_str
