-- ===== src/UdpConnection/Calls.antt =====
-- A UDP connection over time: what the program calls and what asio calls, in any order.
use device_tester.Prelude.{ℕ, Bool, List, [], ◌∷◌, Bytes, after}
use device_tester.RingBuffer.Container.{CircularBuffer}
use device_tester.Writer.{Completion}
use device_tester.Connection.{connect_on_receive}
use device_tester.Asio.{Arrival, SocketApi}
use device_tester.UdpConnection.{
  Options, Udp, set_options, set_receiving, handle_read, send, handle_sent,
}

pub data Call : Type 0 where
  sets : Options → Call
  receives : Bool → Call
  reads : Arrival → Call
  sends : Bytes → Call
  completes : Completion → Call
  subscribes : ℕ → Call

module _ ⦃box : CircularBuffer Bytes⦄ ⦃net : SocketApi⦄ where
  unfoldable pub step : Udp → Call → Udp
  step s (sets opts) = set_options s opts
  step s (receives wanted) = set_receiving s wanted
  step s (reads arrival) = handle_read s arrival
  step s (sends bytes) = after s (send s bytes)
  step s (completes c) = after s (handle_sent s c)
  step s (subscribes slot) = record s { receiver = connect_on_receive s.receiver slot }

  unfoldable pub run : Udp → List Call → Udp
  run s [] = s
  run s (c ∷ cs) = run (step s c) cs
