-- ===== src/Writer/Traffic.antt =====
-- A pump over time: writes by the program and completions by asio, in any order.
use device_tester.Prelude.{
  List, [], ◌∷◌, ◌++◌, take, Bytes, Attempt, done, blocked, out_of_range, ◌>>=◌,
}
use device_tester.RingBuffer.Container.{CircularBuffer}
use device_tester.Writer.{Pump, Completion, failed, moved, idle, enqueue, start_write, on_sent}

pub data Event : Type 0 where
  writes : Bytes → Event
  completes : Completion → Event

-- The bytes of a send that have gone out when it completes.
abbrev pub gone : Completion → Bytes → Bytes
gone failed b = []
gone (moved n) b = take n b

module _ ⦃box : CircularBuffer Bytes⦄ where
  -- The pump, the bytes that have gone out, and the messages that it took.
  pub record Traffic : Type 0 where
    pub pump : Pump
    pub wire : Bytes
    pub accepted : List Bytes

  unfoldable pub quiet : Traffic
  quiet = record { pump = idle; wire = []; accepted = [] }

  -- A write that waits for room changes nothing and is not taken: if its thread comes to it once there
  -- is room, that is a write of its own. So a run goes on past a write that waits.
  unfoldable pub admit : Traffic → Bytes → Attempt Pump → Attempt Traffic
  admit t b (done p) = do
    p' ← start_write p
    done (record { pump = p'; wire = t.wire; accepted = t.accepted ++ b ∷ [] })
  admit t b blocked = done t
  admit t b out_of_range = out_of_range

  -- Asio completes nothing while no send is under way.
  unfoldable pub deliver : Traffic → Completion → List Bytes → Attempt Traffic
  deliver t c [] = done t
  deliver t c (b ∷ bs) = do
    p ← on_sent t.pump c
    done (record { pump = p; wire = t.wire ++ gone c b; accepted = t.accepted })

  unfoldable pub step : Traffic → Event → Attempt Traffic
  unfolding admit deliver
  step t (writes b) = admit t b (enqueue t.pump b)
  step t (completes c) = deliver t c t.pump.sending

  unfoldable pub run : Traffic → List Event → Attempt Traffic
  unfolding step
  run t [] = done t
  run t (e ∷ es) = do t' ← step t e; run t' es
