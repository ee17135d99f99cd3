-- ===== src/Writer/Threads/Moving.antt =====
-- Each move of a thread keeps what holds of the numbers.
use device_tester.Prelude.{lt-or-ge, ap, subst, ℕ, ◌+◌, ◌≤◌, inl, inr, refl, arith}
use device_tester.Writer.Threads.{
  Thread, Shared, Moves, writes, stops, runs, starts, locks, tests, loads, raises, launches,
  unlocks, completes, fails, compares, fetches, clears, lowers,
}
use device_tester.Writer.Threads.Counts.{
  AllFull, AllFull-append, Inv, bit, bit_le, compared, finds, handed_on, holds, owns, start-counts,
  still, test-counts,
}

-- A move of one thread; `o`, `h` and `f` count the others.
pub move-Inv :
    (s t : Shared) (r q : Thread) (o h f : ℕ)
    → Moves s r t q
    → f ≤ h
    → AllFull t.written
    → Inv s (o + owns r) (h + holds r) (f + finds r)
    → Inv t (o + owns q) (h + holds q) (f + finds q)
move-Inv s t _ _ o h f (writes b l) g w i = record {
  one = i.one;
  in_hand = i.in_hand;
  empty = i.empty;
  lock = i.lock;
  full = AllFull-append s.queue b i.full w.0;
}
move-Inv s t _ _ o h f stops g w i = i
move-Inv s t _ _ o h f runs g w i = i
move-Inv s t _ _ o h f starts g w i =
    let (a, b, c) = start-counts s.flag in
    still s s i refl refl (omega (arith, a)) (omega (arith, b, i.lock)) (omega (arith, c))
move-Inv s t _ _ o h f (locks e) g w i =
    still s _ i refl refl (omega arith) (omega (arith, i.lock, ap bit e)) (omega arith)
move-Inv s t _ _ o h f tests g w i =
    let (a, b, c) = test-counts s.current s.queue in
    record {
      one = omega (arith, i.one, a);
      in_hand = omega (arith, i.in_hand, a);
      empty = λ k. elim (lt-or-ge 0 f) [
        | inl l ↦ i.empty (omega (arith, l))
        | inr l ↦ c (omega (arith, k, l))
      ];
      lock = omega (arith, b, i.lock);
      full = i.full;
    }
move-Inv s t _ _ o h f (loads b bs e) g w i =
    let (l, ls) = subst AllFull e i.full in
    let none_in_hand = i.empty (omega arith) in
    record {
      one = omega (arith, i.in_hand, none_in_hand);
      in_hand = omega (arith, i.in_hand, none_in_hand, l);
      empty = λ k. absurd (omega (arith, k, g, i.lock, bit_le s.locked));
      lock = i.lock;
      full = ls;
    }
move-Inv s t _ _ o h f raises g w i = still s _ i refl refl (omega arith) i.lock (omega arith)
move-Inv s t _ _ o h f launches g w i = still s _ i refl refl (omega arith) i.lock (omega arith)
move-Inv s t _ _ o h f unlocks g w i =
    still s _ i refl refl (omega arith) (omega (arith, i.lock, bit_le s.locked)) (omega arith)
move-Inv s t _ _ o h f (completes n m e) g w i =
    still s _ i refl refl (omega (arith, e)) i.lock (omega arith)
move-Inv s t _ _ o h f (fails n e) g w i =
    still s _ i refl refl (omega (arith, e)) i.lock (omega arith)
move-Inv s t _ _ o h f (compares m) g w i =
    let (a, b, c) = compared m s.current s.queue in
    elim c [
      | inl (d, e) ↦
          still s _ i d refl (omega (arith, e)) (omega (arith, a, i.lock)) (omega (arith, b))
      | inr e ↦
          handed_on s _ i (omega (arith, e)) refl (omega (arith, a, i.lock)) (omega (arith, b))
            i.full
    ]
move-Inv s t _ _ o h f (fetches b bs e) g w i =
    handed_on s _ i (omega arith) refl i.lock (omega arith) (subst AllFull e i.full).1
move-Inv s t _ _ o h f clears g w i = handed_on s _ i (omega arith) refl i.lock (omega arith) i.full
move-Inv s t _ _ o h f lowers g w i = still s _ i refl refl (omega arith) i.lock (omega arith)
