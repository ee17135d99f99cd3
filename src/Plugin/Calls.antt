-- ===== src/Plugin/Calls.antt =====
-- A plugin over time: what its connections receive, what the script and the window call, and what the
-- strand runs.
use device_tester.Prelude.{ℕ, Bool, Option, some, List, [], ◌∷◌, String, Bytes}
use device_tester.RingBuffer.Container.{CircularBuffer}
use device_tester.Asio.{SocketApi}
use device_tester.Asio.SerialPort.{SerialApi}
use device_tester.CoapClient.Library.{CoapApi}
use device_tester.Plugin.{Task, LuaPlugin, ◌>>=◌}
use device_tester.Plugin.Strand.{on_receive, on_receive_coap, put, perform, draw_gui}

pub data Call : Type 0 where
  receives : ℕ → Bytes → Call
  receives_coap : ℕ → ℕ → Bytes → Call
  asks : ℕ → ℕ → String → Option Bytes → Call
  draws : ℕ → Call
  works : Bool → Call

module _ ⦃box : CircularBuffer Bytes⦄ ⦃net : SocketApi⦄ ⦃api : SerialApi⦄ ⦃coap : CoapApi⦄ where
  -- The strand takes its oldest task.
  unfoldable pub work : LuaPlugin → Bool → List Task → Option LuaPlugin
  unfolding perform
  work s allocated [] = some s
  work s allocated (task ∷ tasks) = perform (record s { strand = tasks }) allocated task

  unfoldable pub step : LuaPlugin → Call → Option LuaPlugin
  unfolding on_receive on_receive_coap put draw_gui work
  step s (receives place bytes) = some (on_receive s place bytes)
  step s (receives_coap place id bytes) = some (on_receive_coap s place id bytes)
  step s (asks place id path bytes) = some (put s place id path bytes)
  step s (draws f) = some (draw_gui s f)
  step s (works allocated) = work s allocated s.strand

  unfoldable pub run : LuaPlugin → List Call → Option LuaPlugin
  unfolding step
  run s [] = some s
  run s (c ∷ cs) = do s' ← step s c; run s' cs
