-- ===== src/TcpServer/Calls.antt =====
-- A TCP server over time: what the program calls and what asio calls, in any order.
use device_tester.Prelude.{ℕ, ◌==◌, if◌then◌else◌, Option, some, none, List, [], ◌∷◌, Bytes, after}
use device_tester.RingBuffer.Container.{CircularBuffer}
use device_tester.Writer.{Completion}
use device_tester.Asio.{Arrival, SocketApi}
use device_tester.TcpServer.{
  Options, Server, set_options, start, stop, handle_accept, handle_read, send, send_to_all,
  handle_sent,
}

module _ ⦃net : SocketApi⦄ where
  pub data Call : Type 0 where
    sets : Options → Call
    starts : Call
    stops : Call
    accepts : Option (ℕ × net.Socket) → Call
    reads : ℕ → Arrival → Call
    sends : ℕ → Bytes → Call
    sends_all : Bytes → Call
    completes : ℕ → Completion → Call

module _ ⦃box : CircularBuffer Bytes⦄ ⦃net : SocketApi⦄ where
  -- A new client is made at an address where none is.
  unfoldable pub accept : Server → Option (ℕ × net.Socket) → Server
  accept s none = handle_accept s none
  accept s (some (p, socket)) = elim (s.heap p) [
    | none ↦ handle_accept s (some (p, socket))
    | some other ↦ s
  ]

  -- Asio completes an accept only if one was started.
  unfoldable pub step : Server → Call → Server
  unfolding accept
  step s (sets opts) = set_options s opts
  step s starts = start s
  step s stops = stop s
  step s (accepts result) = if s.accepting == 0 then s else accept s result
  step s (reads p arrival) = handle_read s p arrival
  step s (sends p bytes) = after s (send s p bytes)
  step s (sends_all bytes) = after s (send_to_all s bytes)
  step s (completes p c) = after s (handle_sent s p c)

  unfoldable pub run : Server → List Call → Server
  run s [] = s
  run s (c ∷ cs) = run (step s c) cs
