-- ===== src/Writer/Threads/Counts.antt =====
-- Which threads own what is in hand, hold the lock, or found that nothing is in hand, and what holds of
-- their numbers.
use device_tester.Prelude.{
  ◌∙◌, sym, ap, subst, ℕ, ◌==◌, ltb, ◌+◌, ◌≤◌, ◌<◌, ◌≡◌, ◌⊎◌, inl, inr, refl, Bool, Bool-cases,
  true, false, not, ◌&&◌, List, [], ◌∷◌, ◌++◌, length, Bytes, arith,
}
use device_tester.Writer.Threads.{
  Thread, testing, loading, raising, launching, unlocking, handling, fetching, clearing, Shared,
  is_empty, start, test, compare_size,
}

-- Whether the bytes in hand are this thread's to send, or to take after the send.
abbrev pub owns : Thread → ℕ
owns raising = 1
owns launching = 1
owns (handling moved) = 1
owns fetching = 1
owns clearing = 1
owns _ = 0

-- Whether a thread has the lock, and whether it has found that nothing is in hand.
abbrev pub holds : Thread → ℕ
holds testing = 1
holds loading = 1
holds raising = 1
holds launching = 1
holds unlocking = 1
holds _ = 0

abbrev pub finds : Thread → ℕ
finds loading = 1
finds _ = 0

abbrev pub total : (Thread → ℕ) → List Thread → ℕ
total f [] = 0
total f (r ∷ rs) = f r + total f rs

pub total-change :
    (f : Thread → ℕ) (us vs : List Thread) (r q : Thread)
    → total f (us ++ q ∷ vs) + f r ≡ total f (us ++ r ∷ vs) + f q
total-change f [] vs r q = omega arith
total-change f (u ∷ us) vs r q = omega (arith, total-change f us vs r q)

pub finds-holds : (r : Thread) → finds r ≤ holds r
finds-holds r = ground arith

pub total-finds : (rs : List Thread) → total finds rs ≤ total holds rs
total-finds [] = omega arith
total-finds (r ∷ rs) = omega (arith, finds-holds r, total-finds rs)

abbrev pub bit : Bool → ℕ
bit true = 1
bit false = 0

abbrev pub AllFull : List Bytes → Type 0
AllFull [] = Unit
AllFull (b ∷ bs) = (0 < length b) × AllFull bs

pub bit_le : (b : Bool) → bit b ≤ 1
bit_le true = omega arith
bit_le false = omega arith

pub AllFull-append :
    (bs : List Bytes) (b : Bytes) → AllFull bs → 0 < length b → AllFull (bs ++ b ∷ [])
AllFull-append [] b h l = (l, tt)
AllFull-append (c ∷ bs) b (k, h) l = (k, AllFull-append bs b h l)

-- The counts of owners, of holders and of finders, for the state that they belong to.
pub record Inv (s : Shared) (owners holders finders : ℕ) : Type 0 where
  pub one : s.sending + owners ≤ 1
  pub in_hand : s.sending + owners ≤ length s.current
  pub empty : 0 < finders → length s.current ≡ 0
  pub lock : holders ≡ bit s.locked
  pub full : AllFull s.queue

-- A step that leaves the bytes in hand and the queue.
pub still :
    (s t : Shared) {o h f o' h' f' : ℕ}
    → Inv s o h f
    → t.current ≡ s.current
    → t.queue ≡ s.queue
    → t.sending + o' ≤ s.sending + o
    → h' ≡ bit t.locked
    → f' ≤ f
    → Inv t o' h' f'
still s t i c q e l g = record {
  one = omega (arith, i.one, e);
  in_hand = omega (arith, i.in_hand, e, ap length c);
  empty = λ k. ap length c ∙ i.empty (omega (arith, k, g));
  lock = l;
  full = subst AllFull (sym q) i.full;
}

pub start-counts : (b : Bool) → (owns (start b) ≡ 0) × (holds (start b) ≡ 0) × (finds (start b) ≡ 0)
unfolding start
start-counts true = (refl, refl, refl)
start-counts false = (refl, refl, refl)

pub test-counts :
    (c : Bytes) (q : List Bytes)
    → (owns (test c q) ≡ 0) × (holds (test c q) ≡ 1) × (0 < finds (test c q) → length c ≡ 0)
unfolding test
test-counts c q = elim (Bool-cases ((length c == 0) && not (is_empty q))) [
  | inl e ↦ rw e (refl, refl, λ k. ground (arith, e))
  | inr e ↦ rw e (refl, refl, λ k. absurd (omega (arith, k)))
]

-- The handler leaves what is in hand, or has nothing more to do with it.
pub compared :
    (n : ℕ) (c : Bytes) (q : List Bytes)
    → (holds (compare_size n c q).1 ≡ 0)
      × (finds (compare_size n c q).1 ≡ 0)
      × ((((compare_size n c q).0 ≡ c) × (owns (compare_size n c q).1 ≡ 1))
          ⊎ (owns (compare_size n c q).1 ≡ 0))
unfolding compare_size
compared n c q = elim (Bool-cases (ltb n (length c))) [
  | inl e ↦ rw e (refl, refl, inr refl)
  | inr e ↦ elim (Bool-cases (not (is_empty q))) [
    | inl f ↦ rw (e, f) (refl, refl, inl (refl, refl))
    | inr f ↦ rw (e, f) (refl, refl, inl (refl, refl))
  ]
]

-- A thread that owned what is in hand puts other bytes there, and owns them no more.
pub handed_on :
    (s t : Shared) {a h f o h' f' : ℕ}
    → Inv s a h f
    → o < a
    → t.sending ≡ s.sending
    → h' ≡ bit t.locked
    → f' ≤ f
    → AllFull t.queue
    → Inv t o h' f'
handed_on s t i d e l g q = record {
  one = omega (arith, i.one, d, e);
  in_hand = omega (arith, i.one, d, e);
  empty = λ k. absurd (omega (arith, d, i.in_hand, i.empty (omega (arith, k, g))));
  lock = l;
  full = q;
}
