-- ===== src/Writer/Threads/Tests.antt =====
-- A thread that sends, and two that do so at once, since the first message has no bytes.
use device_tester.Prelude.{◌≤◌, ◌⊎◌, length, ℕ, ◌≡◌, refl, true, false, List, [], ◌∷◌, ◌++◌, arith}
use device_tester.Writer.Threads.{
  Thread, idle, locking, unlocking, Shared, start, test, create, idle_threads, Moves, writes, runs,
  starts, locks, tests, loads, raises, launches, unlocks, moves, Reach, begins, goes,
}
use device_tester.Writer.Threads.Counts.{total}
use device_tester.Writer.Threads.Popping.{pops, Reach-sending}

via :
    {n : ℕ} {s t : Shared} {r q : Thread} (us vs : List Thread)
    → s.threads ≡ us ++ r ∷ vs
    → Moves s r t q
    → Reach n s
    → Reach n (record t { threads = us ++ q ∷ vs })
via us vs e k h = goes _ _ h (moves us vs _ _ _ e k)

abbrev sent : Shared
sent = record {
  queue = [];
  current = 7 ∷ [];
  flag = true;
  locked = true;
  sending = 1;
  written = (7 ∷ []) ∷ [];
  threads = unlocking ∷ [];
}

sent-Reach : Reach 1 sent
unfolding create idle_threads start test
sent-Reach = via [] [] refl launches (
    via [] [] refl raises (
      via [] [] refl (loads (7 ∷ []) [] refl) (
        via [] [] refl tests (
          via [] [] refl (locks refl) (
            via [] [] refl starts
              (via [] [] refl runs (via [] [] refl (writes (7 ∷ []) (omega arith)) begins)))))))

abbrev let_go : Shared
let_go = record sent { locked = false; threads = idle ∷ [] }

Reach-sending_example :
    (sent.sending ≤ 1)
    × ((sent.sending ≡ 0) ⊎ (let_go.current ≡ sent.current))
    × (total pops sent.threads ≤ length sent.queue)
Reach-sending_example =
    Reach-sending 1 sent let_go sent-Reach (omega arith, tt)
      (moves [] [] unlocking idle (record sent { locked = false }) refl unlocks)

-- The first message has no bytes: both threads have seen the flag before either sends.
abbrev both_wait : Shared
both_wait = record {
  queue = [] ∷ (1 ∷ []) ∷ [];
  current = [];
  flag = false;
  locked = false;
  sending = 0;
  written = (1 ∷ []) ∷ [] ∷ [];
  threads = locking ∷ locking ∷ [];
}

both_wait-Reach : Reach 2 both_wait
unfolding create idle_threads start
both_wait-Reach = via (locking ∷ []) [] refl starts (
    via (locking ∷ []) [] refl runs (
      via (locking ∷ []) [] refl (writes (1 ∷ []) (omega arith)) (
        via [] (idle ∷ []) refl starts (
          via [] (idle ∷ []) refl runs
            (via [] (idle ∷ []) refl (writes [] (omega arith)) begins)))))

abbrev one_sends : Shared
one_sends = record both_wait {
  queue = (1 ∷ []) ∷ [];
  flag = true;
  sending = 1;
  threads = idle ∷ locking ∷ [];
}

one_sends-Reach : Reach 2 one_sends
unfolding test
one_sends-Reach = via [] (locking ∷ []) refl unlocks (
    via [] (locking ∷ []) refl launches (
      via [] (locking ∷ []) refl raises (
        via [] (locking ∷ []) refl (loads [] ((1 ∷ []) ∷ []) refl) (
          via [] (locking ∷ []) refl tests
            (via [] (locking ∷ []) refl (locks refl) both_wait-Reach)))))

abbrev both_send : Shared
both_send = record one_sends {
  queue = [];
  current = 1 ∷ [];
  locked = true;
  sending = 2;
  threads = idle ∷ unlocking ∷ [];
}

both_send-Reach : Reach 2 both_send
unfolding test
both_send-Reach = via (idle ∷ []) [] refl launches (
    via (idle ∷ []) [] refl raises (
      via (idle ∷ []) [] refl (loads (1 ∷ []) [] refl)
        (via (idle ∷ []) [] refl tests (via (idle ∷ []) [] refl (locks refl) one_sends-Reach))))
