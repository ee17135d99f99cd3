-- ===== src/RingBuffer/Listed.antt =====
-- A circular buffer over a list, newest first: the laws of `CircularBuffer` can be met.
use device_tester.Prelude.{ℕ, zero, suc, ◌<◌, ◌≡◌, refl, List, [], ◌∷◌, take, get_elem?, arith}
use device_tester.RingBuffer.Container.{CircularBuffer}

module _ {ℓ} {A : Type ℓ} where
  pub get_elem?-take :
      (n : ℕ) (xs : List A) (i : ℕ) → i < n → get_elem? (take n xs) i ≡ get_elem? xs i
  get_elem?-take zero xs i h = absurd (omega arith)
  get_elem?-take (suc n) [] i h = refl
  get_elem?-take (suc n) (x ∷ xs) zero h = refl
  get_elem?-take (suc n) (x ∷ xs) (suc i) h = get_elem?-take n xs i (omega arith)

pub record Window {ℓ} (A : Type ℓ) : Type ℓ where
  pub cap : ℕ
  pub items : List A

abbrev pub window_push {ℓ} : {A : Type ℓ} → Window A → A → Window A
window_push w x = record w { items = take w.cap (x ∷ w.items) }

instance abbrev pub listed {ℓ} : {A : Type ℓ} → CircularBuffer A
listed {A} = record {
  Buffer = Window A;
  with_capacity = λ n. record { cap = n; items = [] };
  capacity = λ w. w.cap;
  at = λ w i. get_elem? w.items i;
  push_front = window_push;
  capacity-with_capacity = λ n. refl;
  capacity-push_front = λ w x. refl;
  at-push_front_zero = λ w x h. get_elem?-take w.cap (x ∷ w.items) 0 h;
  at-push_front_suc = λ w x i h. get_elem?-take w.cap (x ∷ w.items) (suc i) h;
}
