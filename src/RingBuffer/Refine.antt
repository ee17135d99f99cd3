-- ===== src/RingBuffer/Refine.antt =====
-- The ring buffer refines the bounded queue: no sequence of calls tells them apart.
use device_tester.Prelude.{
  ℕ, ◌^◌, ◌≤◌, ◌<◌, ◌≡◌, refl, some, true, false, List, [], ◌∷◌, ◌++◌, length, length-append, done,
  blocked, arith, ap, ◌∙◌, incr, decr,
}
use device_tester.RingBuffer.Container.{CircularBuffer}
use device_tester.RingBuffer.{RingBuffer, init, push_front, pop_back, is_not_empty}

module _ {ℓ} {A : Type ℓ} ⦃box : CircularBuffer A⦄ where
  -- The queue's items stand at the indices below its length, the oldest at the highest.
  abbrev pub Holds : box.Buffer → List A → Type ℓ
  Holds b [] = Unit
  Holds b (x ∷ q) = (box.at b (length q) ≡ some x) × Holds b q

  pub record Represents (r : RingBuffer A) (q : List A) : Type ℓ where
    pub counted : r.unread ≡ length q
    pub bounded : length q ≤ box.capacity r.container
    pub fits : box.capacity r.container < 2 ^ 64
    pub held : Holds r.container q

  Holds-push_front :
      (b : box.Buffer) (q : List A) (x : A)
      → length q < box.capacity b
      → Holds b q
      → Holds (box.push_front b x) (q ++ x ∷ [])
  Holds-push_front b [] x h held = (box.at-push_front_zero b x h, tt)
  Holds-push_front b (y ∷ q) x h held = (newer, Holds-push_front b q x (omega arith) held.1)
    where
      newer : box.at (box.push_front b x) (length (q ++ x ∷ [])) ≡ some y
      newer =
          ap (box.at (box.push_front b x)) (omega (arith, length-append q (x ∷ [])))
          ∙ box.at-push_front_suc b x (length q) h
          ∙ held.0

  pub init-Represents : (cap : ℕ) → cap < 2 ^ 64 → Represents (init cap) []
  unfolding init
  init-Represents cap h = record {
    counted = refl;
    bounded = omega arith;
    fits = omega (arith, box.capacity-with_capacity cap);
    held = tt;
  }

  -- The buffer after a push, and after a pop.
  abbrev pub grown : RingBuffer A → A → RingBuffer A
  grown r x = record { unread = incr r.unread; container = box.push_front r.container x }

  abbrev pub shrunk : RingBuffer A → RingBuffer A
  shrunk r = record { unread = decr r.unread; container = r.container }

  pub grown-Represents :
      (r : RingBuffer A) (q : List A) (x : A)
      → Represents r q
      → length q < box.capacity r.container
      → Represents (grown r x) (q ++ x ∷ [])
  grown-Represents r q x v h = record {
    counted = omega (arith, v.counted, v.fits, length-append q (x ∷ []));
    bounded = omega (arith, length-append q (x ∷ []), box.capacity-push_front r.container x);
    fits = omega (arith, v.fits, box.capacity-push_front r.container x);
    held = Holds-push_front r.container q x h v.held;
  }

  pub shrunk-Represents :
      (r : RingBuffer A) (q : List A) (x : A) → Represents r (x ∷ q) → Represents (shrunk r) q
  shrunk-Represents r q x v = record {
    counted = omega (arith, v.counted, v.bounded, v.fits);
    bounded = omega (arith, v.bounded);
    fits = v.fits;
    held = v.held.1;
  }

  pub push_front_room :
      (r : RingBuffer A) (q : List A) (x : A)
      → Represents r q
      → length q < box.capacity r.container
      → push_front r x ≡ done (grown r x)
  unfolding push_front
  push_front_room r q x v h = ground (arith, v.counted)

  pub push_front_full :
      (r : RingBuffer A) (q : List A) (x : A)
      → Represents r q
      → length q ≡ box.capacity r.container
      → push_front r x ≡ blocked
  unfolding push_front
  push_front_full r q x v h = ground (arith, v.counted)

  pub pop_back_empty : (r : RingBuffer A) → Represents r [] → pop_back r ≡ blocked
  unfolding pop_back
  pop_back_empty r v = ground (arith, v.counted)

  newest_index :
      (r : RingBuffer A) (q : List A) (x : A) → Represents r (x ∷ q) → decr r.unread ≡ length q
  newest_index r q x v = omega (arith, v.counted, v.bounded, v.fits)

  pub pop_back_item :
      (r : RingBuffer A) (q : List A) (x : A)
      → Represents r (x ∷ q)
      → pop_back r ≡ done (x, shrunk r)
  unfolding pop_back
  pop_back_item r q x v = ground (arith, v.counted, newest_index r q x v, v.held.0)

  pub is_not_empty_nil : (r : RingBuffer A) → Represents r [] → is_not_empty r ≡ false
  unfolding is_not_empty
  is_not_empty_nil r v = ground (arith, v.counted)

  pub is_not_empty_cons :
      (r : RingBuffer A) (q : List A) (x : A) → Represents r (x ∷ q) → is_not_empty r ≡ true
  unfolding is_not_empty
  is_not_empty_cons r q x v = ground (arith, v.counted)
