-- ===== src/Writer/Tests.antt =====
-- Runs of the sending loop.
use device_tester.Prelude.{
  false, ◌+◌, ◌≤◌, ◌≡◌, refl, inl, inr, List, [], ◌∷◌, ◌++◌, length, take, concat, Bytes, done,
  true, arith,
}
use device_tester.RingBuffer.Listed.{listed}
use device_tester.RingBuffer.{push_front, pop_back}
use device_tester.Writer.{enqueue, start_write, on_sent, idle, failed, moved, tx_capacity}
use device_tester.Writer.Invariant.{IsStuck, IsResting}
use device_tester.Writer.Traffic.{Event, writes, completes, Traffic, quiet, step, run}
use device_tester.Writer.Order.{Accounts, TakesOrWaits, run-quiet}
use device_tester.Writer.Stall.{IsStuck-forever, completion_stalls}
use device_tester.Writer.Delivery.{one_at_a_time, one_at_a_time_delivers}

abbrev hello : Bytes
hello = 1 ∷ 2 ∷ 3 ∷ []

abbrev world : Bytes
world = 4 ∷ 5 ∷ []

abbrev events : List Event
events = writes hello ∷ writes world ∷ completes (moved 2) ∷ completes failed ∷ []

run-quiet_example :
    (t : Traffic) × (q : List Bytes) × (run quiet events ≡ done t)
    × Accounts q t
    × TakesOrWaits q t hello
run-quiet_example = run-quiet events hello

one_at_a_time_delivers_example :
    (t : Traffic) × (run quiet (one_at_a_time (hello ∷ world ∷ [])) ≡ done t)
    × (t.wire ≡ concat (hello ∷ world ∷ []))
    × IsResting [] t.pump
one_at_a_time_delivers_example = one_at_a_time_delivers (hello ∷ world ∷ [])

-- Two messages were written, and the first is sent.
abbrev two_written : Traffic
two_written = record {
  pump = record {
    tx_queue = record {
      unread = 1;
      container = record { cap = tx_capacity; items = world ∷ hello ∷ [] };
    };
    tx_current = hello;
    write_in_progress = true;
    sending = hello ∷ [];
  };
  wire = [];
  accepted = hello ∷ world ∷ [];
}

two_written_reached : run quiet (writes hello ∷ writes world ∷ []) ≡ done two_written
unfolding run quiet idle enqueue push_front start_write pop_back
two_written_reached = refl

two_written-Accounts : Accounts (world ∷ []) two_written
two_written-Accounts = record {
  inv = record {
    queued = record {
      counted = refl;
      bounded = omega arith;
      fits = omega arith;
      held = (refl, tt);
    };
    bound = refl;
    flight = inr (refl, refl);
  };
  phase = inr (inl (refl, refl));
  conserved = refl;
}

completion_stalls_example :
    (t' : Traffic) × (run two_written
        (completes (moved 3) ∷ writes hello ∷ completes (moved 1) ∷ [])
      ≡ done t')
    × (t'.wire ≡ [] ++ take 3 hello)
    × IsStuck t'.pump
completion_stalls_example =
    completion_stalls two_written (world ∷ []) 3 (writes hello ∷ completes (moved 1) ∷ [])
      two_written-Accounts (refl, refl) (inr (omega arith, (world, [], refl, λ e. cc)))

-- The first message went out whole; the second is in hand, and is not sent.
abbrev stalled : Traffic
stalled = record {
  pump = record {
    tx_queue = record {
      unread = 0;
      container = record { cap = tx_capacity; items = world ∷ hello ∷ [] };
    };
    tx_current = world;
    write_in_progress = false;
    sending = [];
  };
  wire = hello;
  accepted = hello ∷ world ∷ [];
}

stalled_reached : step two_written (completes (moved 3)) ≡ done stalled
unfolding step on_sent pop_back
stalled_reached = refl

stalled-Accounts : Accounts [] stalled
stalled-Accounts = record {
  inv = record {
    queued = record { counted = refl; bounded = omega arith; fits = omega arith; held = tt };
    bound = refl;
    flight = inl refl;
  };
  phase = inr (inr (refl, inr (λ e. cc)));
  conserved = refl;
}

IsStuck-forever_example :
    (t' : Traffic) × (run stalled (writes hello ∷ completes (moved 2) ∷ []) ≡ done t')
    × (t'.wire ≡ hello)
    × IsStuck t'.pump
    × (length t'.accepted + 0 ≤ 2 + tx_capacity)
IsStuck-forever_example =
    IsStuck-forever stalled [] (writes hello ∷ completes (moved 2) ∷ []) stalled-Accounts
      (refl, inr (λ e. cc))
