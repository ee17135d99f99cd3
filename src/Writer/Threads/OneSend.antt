-- ===== src/Writer/Threads/OneSend.antt =====
-- Under any threads, one send at a time.
use device_tester.Prelude.{
  lt-or-ge, inl, inr, ◌≤◌, ◌⊎◌, ap, ℕ, ◌+◌, ◌<◌, ◌≡◌, refl, zero, suc, List, [], ◌∷◌, ◌++◌, arith,
}
use device_tester.Writer.Threads.{
  idle_threads, Thread, idle, Shared, create, Moves, writes, stops, runs, starts, locks, tests,
  loads, raises, launches, unlocks, completes, fails, compares, fetches, clears, lowers, Step,
  moves, Reach, begins, goes,
}
use device_tester.Writer.Threads.Counts.{AllFull, Inv, finds, holds, owns, total, total-finds}
use device_tester.Writer.Threads.Moving.{move-Inv}

pub total-at :
    (f : Thread → ℕ) (us vs : List Thread) (r : Thread)
    → total f (us ++ r ∷ vs) ≡ total f (us ++ vs) + f r
total-at f [] vs r = omega arith
total-at f (u ∷ us) vs r = omega (arith, total-at f us vs r)

abbrev pub Fine : Shared → Type 0
Fine s = Inv s (total owns s.threads) (total holds s.threads) (total finds s.threads)

-- The counts with one thread apart.
pub apart :
    (s : Shared) (us vs : List Thread) (r : Thread)
    → s.threads ≡ us ++ r ∷ vs
    → Fine s
    → Inv s
        (total owns (us ++ vs) + owns r)
        (total holds (us ++ vs) + holds r)
        (total finds (us ++ vs) + finds r)
apart s us vs r e i = record {
  one = omega (arith, i.one, ap (total owns) e, total-at owns us vs r);
  in_hand = omega (arith, i.in_hand, ap (total owns) e, total-at owns us vs r);
  empty = λ k. i.empty (omega (arith, k, ap (total finds) e, total-at finds us vs r));
  lock = omega (arith, i.lock, ap (total holds) e, total-at holds us vs r);
  full = i.full;
}

together :
    (t : Shared) (us vs : List Thread) (q : Thread)
    → Inv t
        (total owns (us ++ vs) + owns q)
        (total holds (us ++ vs) + holds q)
        (total finds (us ++ vs) + finds q)
    → Fine (record t { threads = us ++ q ∷ vs })
together t us vs q i = record {
  one = omega (arith, i.one, total-at owns us vs q);
  in_hand = omega (arith, i.in_hand, total-at owns us vs q);
  empty = λ k. i.empty (omega (arith, k, total-at finds us vs q));
  lock = omega (arith, i.lock, total-at holds us vs q);
  full = i.full;
}

step-Fine : (s t : Shared) → Step s t → AllFull t.written → Fine s → Fine t
step-Fine s _ (moves us vs r q t e k) w i = together t us vs q (
    move-Inv s t r q (total owns (us ++ vs)) (total holds (us ++ vs)) (total finds (us ++ vs)) k
      (total-finds (us ++ vs)) w (apart s us vs r e i))

move-written : (s t : Shared) (r q : Thread) → Moves s r t q → AllFull t.written → AllFull s.written
move-written s _ _ _ (writes b l) w = w.1
move-written s _ _ _ stops w = w
move-written s _ _ _ runs w = w
move-written s _ _ _ starts w = w
move-written s _ _ _ (locks e) w = w
move-written s _ _ _ tests w = w
move-written s _ _ _ (loads b bs e) w = w
move-written s _ _ _ raises w = w
move-written s _ _ _ launches w = w
move-written s _ _ _ unlocks w = w
move-written s _ _ _ (completes n m e) w = w
move-written s _ _ _ (fails n e) w = w
move-written s _ _ _ (compares m) w = w
move-written s _ _ _ (fetches b bs e) w = w
move-written s _ _ _ clears w = w
move-written s _ _ _ lowers w = w

pub step-written : (s t : Shared) → Step s t → AllFull t.written → AllFull s.written
step-written s _ (moves us vs r q t e k) w = move-written s t r q k w

idle-total : (f : Thread → ℕ) (n : ℕ) → f idle ≡ 0 → total f (idle_threads n) ≡ 0
unfolding idle_threads
idle-total f zero e = refl
idle-total f (suc n) e = omega (arith, e, idle-total f n e)

create-Fine : (n : ℕ) → Fine (create n)
unfolding create
create-Fine n = record {
  one = omega (arith, idle-total owns n refl);
  in_hand = omega (arith, idle-total owns n refl);
  empty = λ k. refl;
  lock = idle-total holds n refl;
  full = tt;
}

pub Reach-Fine : (n : ℕ) (s : Shared) → Reach n s → AllFull s.written → Fine s
Reach-Fine n _ begins w = create-Fine n
Reach-Fine n _ (goes s t r k) w = step-Fine s t k w (Reach-Fine n s r (step-written s t k w))

-- While a send is not completed, no thread changes what is in hand.
move-current :
    (s t : Shared) (r q : Thread) (o h f : ℕ)
    → Moves s r t q
    → Inv s (o + owns r) (h + holds r) (f + finds r)
    → 0 < s.sending
    → t.current ≡ s.current
move-current s _ _ _ o h f (loads b bs e) i l =
    absurd (omega (arith, l, i.in_hand, i.empty (omega arith)))
move-current s _ _ _ o h f (compares m) i l = absurd (omega (arith, l, i.one))
move-current s _ _ _ o h f (fetches b bs e) i l = absurd (omega (arith, l, i.one))
move-current s _ _ _ o h f clears i l = absurd (omega (arith, l, i.one))
move-current s _ _ _ o h f (writes b l') i l = refl
move-current s _ _ _ o h f stops i l = refl
move-current s _ _ _ o h f runs i l = refl
move-current s _ _ _ o h f starts i l = refl
move-current s _ _ _ o h f (locks e) i l = refl
move-current s _ _ _ o h f tests i l = refl
move-current s _ _ _ o h f raises i l = refl
move-current s _ _ _ o h f launches i l = refl
move-current s _ _ _ o h f unlocks i l = refl
move-current s _ _ _ o h f (completes n m e) i l = refl
move-current s _ _ _ o h f (fails n e) i l = refl
move-current s _ _ _ o h f lowers i l = refl

step-current : (s t : Shared) → Step s t → Fine s → 0 < s.sending → t.current ≡ s.current
step-current s _ (moves us vs r q t e k) i l =
    move-current s t r q (total owns (us ++ vs)) (total holds (us ++ vs)) (total finds (us ++ vs)) k
      (apart s us vs r e i) l

pub one_send : (n : ℕ) (s : Shared) → Reach n s → AllFull s.written → s.sending ≤ 1
one_send n s r w = omega (arith, (Reach-Fine n s r w).one)

-- The bytes in hand are those that asio was given.
pub kept :
    (n : ℕ) (s t : Shared)
    → Reach n s
    → AllFull s.written
    → Step s t
    → (s.sending ≡ 0) ⊎ (t.current ≡ s.current)
kept n s t r w k = elim (lt-or-ge 0 s.sending) [
  | inl l ↦ inr (step-current s t k (Reach-Fine n s r w) l)
  | inr l ↦ inl (omega (arith, l))
]
