-- ===== src/RingBuffer.antt =====
-- libs/libcon/src/ring_buffer.hpp: the queue between the threads that write and the one that sends.
-- The mutex makes each call atomic, so a call is a function of the state that it finds. A call that
-- would wait on a condition variable is `blocked`, and another thread's call comes before it.
pub mod Container
pub mod Fifo
pub mod Refine
pub mod Runs
pub mod Listed
mod Tests
use device_tester.Prelude.{
  ℕ, ◌≡◌, Bool, Option, none, some, ltb, incr, decr, if◌then◌else◌, List, [], ◌∷◌, Attempt, done,
  blocked, out_of_range, ◌>>=◌,
}
use Container.{CircularBuffer}

module _ {ℓ} {A : Type ℓ} where
  -- `m_container[i]`: an index past the size is outside the contract of the container.
  abbrev pub read_or_fault : Option A → Attempt A
  read_or_fault none = out_of_range
  read_or_fault (some a) = done a

pub record RingBuffer {ℓ} (A : Type ℓ) ⦃box : CircularBuffer A⦄ : Type ℓ where
  pub unread : ℕ
  pub container : box.Buffer

module _ {ℓ} {A : Type ℓ} ⦃box : CircularBuffer A⦄ where
  unfoldable pub init : ℕ → RingBuffer A
  init capacity = record { unread = 0; container = box.with_capacity capacity }

  unfoldable pub is_not_empty : RingBuffer A → Bool
  is_not_empty r = ltb 0 r.unread

  unfoldable pub is_not_full : RingBuffer A → Bool
  is_not_full r = ltb r.unread (box.capacity r.container)

  unfoldable pub push_front : RingBuffer A → A → Attempt (RingBuffer A)
  unfolding is_not_full
  push_front r item =
      if is_not_full r
      then done (record { unread = incr r.unread; container = box.push_front r.container item })
      else blocked

  unfoldable pub pop_back : RingBuffer A → Attempt (A × RingBuffer A)
  unfolding is_not_empty
  pop_back r =
      if is_not_empty r
      then (do
        item ← read_or_fault (box.at r.container (decr r.unread))
        done (item, record { unread = decr r.unread; container = r.container }))
      else blocked
