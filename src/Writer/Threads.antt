-- ===== src/Writer/Threads.antt =====
-- The sending loop of libs/libcon/src/tcp_client.cpp under several threads: `write_in_progress_` is read
-- outside `write_lock_`, and the handler of a send holds no lock. A step is what one thread does between
-- two points where another may come in. The queue is the list of its messages, the oldest first.
pub mod Counts
pub mod Moving
pub mod OneSend
pub mod Popping
mod Tests
use device_tester.Prelude.{
  ℕ, ◌==◌, ltb, ◌<◌, ◌≡◌, zero, suc, Bool, true, false, not, ◌&&◌, if◌then◌else◌, List, [], ◌∷◌,
  ◌++◌, length, drop, Bytes,
}
use device_tester.Writer.{tx_capacity}

-- Where a thread is. `idle` can call `write` or run a handler; then come `doWrite`, and of `startWrite`
-- the test of the flag, the lock, the test under it, the assignment from the queue, the flag, the send
-- and the unlock; and of the handler of a send, with the number of bytes written, the test of the size,
-- the assignment from the queue or the clear, and the flag.
pub data Thread : Type 0 where
  idle asking starting locking testing loading raising launching unlocking : Thread
  handling : ℕ → Thread
  fetching clearing lowering : Thread

-- `sending` counts the sends that asio has not completed; `written` has what was given to `write`,
-- newest first.
pub record Shared : Type 0 where
  pub queue : List Bytes
  pub current : Bytes
  pub flag : Bool
  pub locked : Bool
  pub sending : ℕ
  pub written : List Bytes
  pub threads : List Thread

unfoldable pub idle_threads : ℕ → List Thread
idle_threads zero = []
idle_threads (suc n) = idle ∷ idle_threads n

unfoldable pub create : ℕ → Shared
create n = record {
  queue = [];
  current = [];
  flag = false;
  locked = false;
  sending = 0;
  written = [];
  threads = idle_threads n;
}

abbrev pub is_empty : List Bytes → Bool
is_empty [] = true
is_empty (b ∷ bs) = false

-- The test of the flag.
unfoldable pub start : Bool → Thread
start flag = if flag then idle else locking

-- The test under the lock.
unfoldable pub test : Bytes → List Bytes → Thread
test current queue = if (length current == 0) && not (is_empty queue) then loading else unlocking

-- The tests of the handler, with what is in hand after them.
unfoldable pub compare_size : ℕ → Bytes → List Bytes → Bytes × Thread
compare_size moved current queue =
    if ltb moved (length current)
    then (drop moved current, lowering)
    else if not (is_empty queue)
    then (current, fetching)
    else (current, clearing)

-- A step of the thread between `us` and `vs`, with what it changes.
pub data Moves (s : Shared) : Thread → Shared → Thread → Type 0 where
  writes :
      (b : Bytes)
      → length s.queue < 100
      → Moves s idle (record s { queue = s.queue ++ b ∷ []; written = b ∷ s.written }) asking
  stops : Moves s asking s idle
  runs : Moves s asking s starting
  starts : Moves s starting s (start s.flag)
  locks : s.locked ≡ false → Moves s locking (record s { locked = true }) testing
  tests : Moves s testing s (test s.current s.queue)
  loads :
      (b : Bytes) (bs : List Bytes)
      → s.queue ≡ b ∷ bs
      → Moves s loading (record s { queue = bs; current = b }) raising
  raises : Moves s raising (record s { flag = true }) launching
  launches : Moves s launching (record s { sending = suc s.sending }) unlocking
  unlocks : Moves s unlocking (record s { locked = false }) idle
  completes :
      (n moved : ℕ) → s.sending ≡ suc n → Moves s idle (record s { sending = n }) (handling moved)
  fails : (n : ℕ) → s.sending ≡ suc n → Moves s idle (record s { sending = n }) idle
  compares :
      (moved : ℕ)
      → Moves s
          (handling moved)
          (record s { current = (compare_size moved s.current s.queue).0 })
          (compare_size moved s.current s.queue).1
  fetches :
      (b : Bytes) (bs : List Bytes)
      → s.queue ≡ b ∷ bs
      → Moves s fetching (record s { queue = bs; current = b }) lowering
  clears : Moves s clearing (record s { current = [] }) lowering
  lowers : Moves s lowering (record s { flag = false }) starting

pub data Step (s : Shared) : Shared → Type 0 where
  moves :
      (us vs : List Thread) (r q : Thread) (t : Shared)
      → s.threads ≡ us ++ r ∷ vs
      → Moves s r t q
      → Step s (record t { threads = us ++ q ∷ vs })

-- From that many threads.
pub data Reach (n : ℕ) : Shared → Type 0 where
  begins : Reach n (create n)
  goes : (s t : Shared) → Reach n s → Step s t → Reach n t
