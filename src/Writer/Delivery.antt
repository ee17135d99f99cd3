-- ===== src/Writer/Delivery.antt =====
-- What the pump does deliver: messages that are written one at a time.
use device_tester.Prelude.{
  concat, append-nil, append_assoc, ◌∙◌, inl, ◌≡◌, refl, List, [], ◌∷◌, ◌++◌, length, take_all,
  Bytes, done, arith,
}
use device_tester.RingBuffer.Container.{CircularBuffer}
use device_tester.Writer.{idle, moved, launch}
use device_tester.Writer.Invariant.{
  idle-Inv, Inv, IsResting, loaded, loaded-Inv, taken, launch-Inv, enqueue_room, start_write_next,
}
use device_tester.Writer.Handler.{freed, on_sent_last}
use device_tester.Writer.Traffic.{run, quiet, Event, writes, completes, Traffic, deliver, step}

-- Each message is written after the one before it has gone out whole.
abbrev pub one_at_a_time : List Bytes → List Event
one_at_a_time [] = []
one_at_a_time (m ∷ ms) = writes m ∷ completes (moved (length m)) ∷ one_at_a_time ms

module _ ⦃box : CircularBuffer Bytes⦄ where
  abbrev sending_one : Traffic → Bytes → Traffic
  sending_one t m = record {
    pump = launch (taken (loaded t.pump m) m);
    wire = t.wire;
    accepted = t.accepted ++ m ∷ [];
  }

  write_resting :
      (t : Traffic) (m : Bytes)
      → Inv [] t.pump
      → IsResting [] t.pump
      → step t (writes m) ≡ done (sending_one t m)
  unfolding step
  write_resting t m v r =
      rw
        (
          enqueue_room t.pump [] m v (omega arith),
          start_write_next (loaded t.pump m) [] m (loaded-Inv t.pump [] m v (omega arith)) r.0 r.2,
        )
        refl

  one_sent : Traffic → Bytes → Traffic
  one_sent t m = record {
    pump = record (freed (sending_one t m).pump) { tx_current = [] };
    wire = t.wire ++ m;
    accepted = t.accepted ++ m ∷ [];
  }

  sent_resting :
      (t : Traffic) (m : Bytes)
      → Inv [] t.pump
      → IsResting [] t.pump
      → step (sending_one t m) (completes (moved (length m))) ≡ done (one_sent t m)
  unfolding step one_sent launch
  sent_resting t m v r =
      rw
        (
          r.1,
          deliver,
          on_sent_last (sending_one t m).pump (length m) v' (omega arith),
          take_all (length m) m (omega arith),
        )
        (rw r.1 refl)
    where
      v' : Inv [] (sending_one t m).pump
      v' = launch-Inv (loaded t.pump m) [] m (loaded-Inv t.pump [] m v (omega arith)) r.0

  one_sent-Inv :
      (t : Traffic) (m : Bytes)
      → Inv [] t.pump
      → IsResting [] t.pump
      → Inv [] (one_sent t m).pump × IsResting [] (one_sent t m).pump
  unfolding one_sent launch
  one_sent-Inv t m v r = (
    record { queued = v'.queued; bound = v'.bound; flight = inl (rw r.1 refl) },
    (refl, rw r.1 refl, refl, refl),
  )
    where
      v' : Inv [] (sending_one t m).pump
      v' = launch-Inv (loaded t.pump m) [] m (loaded-Inv t.pump [] m v (omega arith)) r.0

  run-one_at_a_time :
      (ms : List Bytes) (t : Traffic)
      → Inv [] t.pump
      → IsResting [] t.pump
      → (t' : Traffic) × (run t (one_at_a_time ms) ≡ done t')
        × (t'.wire ≡ t.wire ++ concat ms)
        × IsResting [] t'.pump
  unfolding run
  run-one_at_a_time [] t v r = (t, refl, rw append-nil refl, r)
  run-one_at_a_time (m ∷ ms) t v r =
      let (v', r') = one_sent-Inv t m v r in
      let (t', returns, wire, rests) = run-one_at_a_time ms (one_sent t m) v' r' in
      rw (write_resting t m v r, sent_resting t m v r)
        (t', returns, wire ∙ unfold one_sent in append_assoc t.wire m (concat ms), rests)

  -- Messages that are written to a new pump one at a time, each after the one before it has gone out
  -- whole, go out whole and in order, for any number of them, and leave the pump at rest.
  pub one_at_a_time_delivers :
      (ms : List Bytes)
      → (t : Traffic) × (run quiet (one_at_a_time ms) ≡ done t)
        × (t.wire ≡ concat ms)
        × IsResting [] t.pump
  unfolding quiet idle
  one_at_a_time_delivers ms = run-one_at_a_time ms quiet idle-Inv (refl, refl, refl, refl)
