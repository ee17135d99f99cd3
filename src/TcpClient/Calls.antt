-- ===== src/TcpClient/Calls.antt =====
-- A TCP client over time: what the program calls and what asio calls, in any order.
use device_tester.Prelude.{ℕ, List, [], ◌∷◌, Bytes, after}
use device_tester.RingBuffer.Container.{CircularBuffer}
use device_tester.Writer.{Completion}
use device_tester.Connection.{connect_on_receive}
use device_tester.Asio.{Arrival, SocketApi}
use device_tester.TcpClient.{
  Options, Resolution, Handshake, Client, connect, disconnect, handle_resolve, handle_connect,
  handle_read, send, handle_sent, set_options,
}

module _ ⦃net : SocketApi⦄ where
  pub data Call : Type 0 where
    sets : Options → Call
    connects : Call
    disconnects : Call
    resolves : Resolution → Call
    greets : Handshake → Call
    reads : Arrival → Call
    sends : Bytes → Call
    completes : Completion → Call
    subscribes : ℕ → Call

module _ ⦃box : CircularBuffer Bytes⦄ ⦃net : SocketApi⦄ where
  unfoldable pub step : Client → Call → Client
  step s (sets opts) = set_options s opts
  step s connects = connect s
  step s disconnects = disconnect s
  step s (resolves result) = handle_resolve s result
  step s (greets result) = handle_connect s result
  step s (reads arrival) = handle_read s arrival
  step s (sends bytes) = after s (send s bytes)
  step s (completes c) = after s (handle_sent s c)
  step s (subscribes slot) = record s { receiver = connect_on_receive s.receiver slot }

  unfoldable pub run : Client → List Call → Client
  run s [] = s
  run s (c ∷ cs) = run (step s c) cs
