-- ===== src/RingBuffer/Container.antt =====
-- What ring_buffer.hpp relies on in boost::circular_buffer, which the repository does not contain.
use device_tester.Prelude.{ℕ, suc, ◌<◌, ◌≡◌, Option, some}

pub record CircularBuffer {ℓ} (A : Type ℓ) : Type (ℓ + 1) where
  pub Buffer : Type ℓ
  pub with_capacity : ℕ → Buffer
  pub capacity : Buffer → ℕ
  -- `operator[]`; `none` where the index is not below the size.
  pub at : Buffer → ℕ → Option A
  pub push_front : Buffer → A → Buffer
  pub capacity-with_capacity : (n : ℕ) → capacity (with_capacity n) ≡ n
  pub capacity-push_front : (b : Buffer) (a : A) → capacity (push_front b a) ≡ capacity b
  -- A new item is the first one.
  pub at-push_front_zero : (b : Buffer) (a : A) → 0 < capacity b → at (push_front b a) 0 ≡ some a
  -- The others move up by one, and only the one past the capacity is lost.
  pub at-push_front_suc :
      (b : Buffer) (a : A) (i : ℕ) → suc i < capacity b → at (push_front b a) (suc i) ≡ at b i
