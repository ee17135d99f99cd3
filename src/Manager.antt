-- ===== src/Manager.antt =====
-- libs/libcon/src/manager_impl.cpp: the threads that run asio. `work` is the loop of one of them, of which
-- any may go on at any time; asio's `run` comes back only when nothing keeps it and nothing is left to do.
pub mod Runners
pub mod Progress
mod Tests
use device_tester.Prelude.{
  ℕ, ◌+◌, ◌≡◌, zero, suc, Bool, true, false, if◌then◌else◌, List, [], ◌∷◌, ◌++◌, length,
}

-- Where a thread is, with the number of its calls of `io_.run`: before the test of the loop, in the call,
-- or after the loop.
pub data Runner : Type 0 where
  looping inside finished : ℕ → Runner

-- Where the destructor is: not called, after `run_ = false`, before the join of a thread, or done.
pub data Stage : Type 0 where
  living clearing gone : Stage
  joining : ℕ → Stage

-- `work_left` counts the handlers that asio is to call.
pub record ManagerImpl : Type 0 where
  pub run : Bool
  pub guarded : Bool
  pub runners : List Runner
  pub stage : Stage
  pub work_left : ℕ

unfoldable pub start_runners : ℕ → List Runner
start_runners zero = []
start_runners (suc n) = looping 0 ∷ start_runners n

unfoldable pub create : ManagerImpl
unfolding start_runners
create = record {
  run = true;
  guarded = true;
  runners = start_runners 10;
  stage = living;
  work_left = 0;
}

-- The test of the loop.
unfoldable pub test : Bool → ℕ → Runner
test run calls = if run then inside (suc calls) else finished calls

pub data Step (s : ManagerImpl) : ManagerImpl → Type 0 where
  tests :
      (us vs : List Runner) (calls : ℕ)
      → s.runners ≡ us ++ looping calls ∷ vs
      → Step s (record s { runners = us ++ test s.run calls ∷ vs })
  returns :
      (us vs : List Runner) (calls : ℕ)
      → s.runners ≡ us ++ inside calls ∷ vs
      → s.guarded ≡ false
      → s.work_left ≡ 0
      → Step s (record s { runners = us ++ looping calls ∷ vs })
  handles :
      (us vs : List Runner) (calls n : ℕ)
      → s.runners ≡ us ++ inside calls ∷ vs
      → s.work_left ≡ suc n
      → Step s (record s { work_left = n })
  posts : Step s (record s { work_left = s.work_left + 1 })
  clears : s.stage ≡ living → Step s (record s { run = false; stage = clearing })
  resets : s.stage ≡ clearing → Step s (record s { guarded = false; stage = joining 0 })
  joins :
      (us vs : List Runner) (calls : ℕ)
      → s.stage ≡ joining (length us)
      → s.runners ≡ us ++ finished calls ∷ vs
      → Step s (record s { stage = joining (suc (length us)) })
  ends : s.stage ≡ joining (length s.runners) → Step s (record s { stage = gone })

pub data Reach : ManagerImpl → Type 0 where
  begins : Reach create
  goes : (s t : ManagerImpl) → Reach s → Step s t → Reach t
