-- ===== src/Writer/Threads/Popping.antt =====
-- No thread waits for a message in `pop_back`.
use device_tester.Prelude.{
  ltb, Bool, length-append, Bool-cases, not, length, Bytes, true, false, inl, inr, ◌≤◌, ◌⊎◌, ◌==◌,
  ap, ℕ, ◌+◌, ◌<◌, ◌≡◌, refl, zero, suc, List, [], ◌∷◌, ◌++◌, arith,
}
use device_tester.Writer.Threads.{
  Thread, loading, fetching, Shared, create, idle_threads, is_empty, start, test, compare_size,
  Moves, writes, stops, runs, starts, locks, tests, loads, raises, launches, unlocks, completes,
  fails, compares, fetches, clears, lowers, Step, moves, Reach, begins, goes,
}
use device_tester.Writer.Threads.Counts.{
  bit_le, AllFull, Inv, finds, holds, owns, total, total-finds,
}
use device_tester.Writer.Threads.OneSend.{
  one_send, kept, Fine, total-at, Reach-Fine, step-written, apart,
}

-- Whether a thread is about to take a message.
abbrev pub pops : Thread → ℕ
pops loading = 1
pops fetching = 1
pops _ = 0

pops-counts : (r : Thread) → pops r ≤ owns r + finds r
pops-counts r = ground arith

total-pops : (rs : List Thread) → total pops rs ≤ total owns rs + total finds rs
total-pops [] = omega arith
total-pops (r ∷ rs) = omega (arith, pops-counts r, total-pops rs)

start-pops : (b : Bool) → pops (start b) ≡ 0
unfolding start
start-pops true = refl
start-pops false = refl

is_empty-lem : (q : List Bytes) → not (is_empty q) ≡ true → 0 < length q
is_empty-lem [] e = absurd cc
is_empty-lem (b ∷ bs) e = omega arith

-- The test under the lock finds a message, and nothing in hand.
test-pops :
    (c : Bytes) (q : List Bytes)
    → (pops (test c q) ≡ 0) ⊎ ((pops (test c q) ≡ 1) × (length c ≡ 0) × (0 < length q))
unfolding test
test-pops c q = elim (Bool-cases (length c == 0)) [
  | inl e ↦ elim (Bool-cases (not (is_empty q))) [
    | inl f ↦ rw (e, f) (inr (refl, ground (arith, e), is_empty-lem q f))
    | inr f ↦ rw (e, f) (inl refl)
  ]
  | inr e ↦ rw e (inl refl)
]

compare-pops :
    (n : ℕ) (c : Bytes) (q : List Bytes)
    → (pops (compare_size n c q).1 ≡ 0) ⊎ ((pops (compare_size n c q).1 ≡ 1) × (0 < length q))
unfolding compare_size
compare-pops n c q = elim (Bool-cases (ltb n (length c))) [
  | inl e ↦ rw e (inl refl)
  | inr e ↦ elim (Bool-cases (not (is_empty q))) [
    | inl f ↦ rw (e, f) (inr (refl, is_empty-lem q f))
    | inr f ↦ rw (e, f) (inl refl)
  ]
]

-- Nobody finds nothing in hand while a thread owns what is there.
no_finder : (s : Shared) (o h f : ℕ) → Inv s (o + 1) h f → f ≡ 0
no_finder s o h zero i = refl
no_finder s o h (suc f) i = absurd (omega (arith, i.in_hand, i.empty (omega arith)))

-- `p` counts the others that are about to take a message.
move-pops :
    (s t : Shared) (r q : Thread) (o h f p : ℕ)
    → Moves s r t q
    → f ≤ h
    → p ≤ o + f
    → Inv s (o + owns r) (h + holds r) (f + finds r)
    → p + pops r ≤ length s.queue
    → p + pops q ≤ length t.queue
move-pops s t _ _ o h f p (writes b l) g k i e = omega (arith, e, length-append s.queue (b ∷ []))
move-pops s t _ _ o h f p stops g k i e = e
move-pops s t _ _ o h f p runs g k i e = e
move-pops s t _ _ o h f p starts g k i e = omega (arith, e, start-pops s.flag)
move-pops s t _ _ o h f p (locks c) g k i e = e
move-pops s t _ _ o h f p tests g k i e = elim (test-pops s.current s.queue) [
  | inl c ↦ omega (arith, e, c)
  | inr (c, n, l) ↦ omega (arith, c, n, l, i.in_hand, i.lock, bit_le s.locked, g, k)
]
move-pops s t _ _ o h f p (loads b bs c) g k i e = omega (arith, e, ap length c)
move-pops s t _ _ o h f p raises g k i e = e
move-pops s t _ _ o h f p launches g k i e = e
move-pops s t _ _ o h f p unlocks g k i e = e
move-pops s t _ _ o h f p (completes n m c) g k i e = e
move-pops s t _ _ o h f p (fails n c) g k i e = e
move-pops s t _ _ o h f p (compares m) g k i e = elim (compare-pops m s.current s.queue) [
  | inl c ↦ omega (arith, e, c)
  | inr (c, l) ↦ omega (arith, c, l, i.one, k, no_finder s o (h + 0) (f + 0) i)
]
move-pops s t _ _ o h f p (fetches b bs c) g k i e = omega (arith, e, ap length c)
move-pops s t _ _ o h f p clears g k i e = e
move-pops s t _ _ o h f p lowers g k i e = e

step-pops :
    (s t : Shared)
    → Step s t
    → Fine s
    → total pops s.threads ≤ length s.queue
    → total pops t.threads ≤ length t.queue
step-pops s _ (moves us vs r q t e k) i l =
    let others = us ++ vs in
    let m =
      move-pops s t r q (total owns others) (total holds others) (total finds others)
        (total pops others) k (total-finds others) (total-pops others) (apart s us vs r e i)
        (omega (arith, l, ap (total pops) e, total-at pops us vs r)) in
    omega (arith, m, total-at pops us vs q)

idle-pops : (n : ℕ) → total pops (idle_threads n) ≡ 0
unfolding idle_threads
idle-pops zero = refl
idle-pops (suc n) = omega (arith, idle-pops n)

-- The threads that are about to take a message never outnumber the messages.
Reach-pops :
    (n : ℕ) (s : Shared) → Reach n s → AllFull s.written → total pops s.threads ≤ length s.queue
unfolding create
Reach-pops n _ begins w = omega (arith, idle-pops n)
Reach-pops n _ (goes s t r k) w =
    let v = step-written s t k w in step-pops s t k (Reach-Fine n s r v) (Reach-pops n s r v)

-- However many threads write and handle completions, and however their steps come between each other, if
-- no message is empty: at most one send is not completed; while there is one, no step of a thread changes
-- the bytes that asio was given; and of the threads that have tested that the queue is not empty and are
-- about to take a message there are at most as many as messages, so that none waits in `pop_back`.
pub Reach-sending :
    (n : ℕ) (s t : Shared)
    → Reach n s
    → AllFull s.written
    → Step s t
    → (s.sending ≤ 1)
      × ((s.sending ≡ 0) ⊎ (t.current ≡ s.current))
      × (total pops s.threads ≤ length s.queue)
Reach-sending n s t r w k = (one_send n s r w, kept n s t r w k, Reach-pops n s r w)
