-- ===== src/RingBuffer/Fifo.antt =====
-- The abstract queue that the ring buffer promises: bounded, first in first out, oldest first.
use device_tester.Prelude.{
  ℕ, ltb, if◌then◌else◌, List, [], ◌∷◌, ◌++◌, length, Attempt, done, blocked, out_of_range,
}

pub data Op {ℓ} (A : Type ℓ) : Type ℓ where
  push : A → Op A
  pop : Op A

-- What a thread sees of its call.
pub data Reply {ℓ} (A : Type ℓ) : Type ℓ where
  pushed : Reply A
  popped : A → Reply A
  waits : Reply A
  faults : Reply A

module _ {ℓ} {A : Type ℓ} where
  unfoldable pub push_front : ℕ → List A → A → Attempt (List A)
  push_front cap q item = if ltb (length q) cap then done (q ++ item ∷ []) else blocked

  unfoldable pub pop_back : List A → Attempt (A × List A)
  pop_back [] = blocked
  pop_back (x ∷ q) = done (x, q)

-- A call that waits, or that faults, leaves the state to the next call.
module _ {ℓ} {A S : Type ℓ} where
  abbrev pub after_push : S → Attempt S → Reply A × S
  after_push s (done t) = (pushed, t)
  after_push s blocked = (waits, s)
  after_push s out_of_range = (faults, s)

  abbrev pub after_pop : S → Attempt (A × S) → Reply A × S
  after_pop s (done (x, t)) = (popped x, t)
  after_pop s blocked = (waits, s)
  after_pop s out_of_range = (faults, s)

module _ {ℓ} {A : Type ℓ} where
  unfoldable pub step : ℕ → List A → Op A → Reply A × List A
  unfolding push_front pop_back
  step cap q (push x) = after_push q (push_front cap q x)
  step cap q pop = after_pop q (pop_back q)

  unfoldable pub run : ℕ → List A → List (Op A) → List (Reply A)
  unfolding step
  run cap q [] = []
  run cap q (op ∷ ops) = let (reply, q') = step cap q op in reply ∷ run cap q' ops
