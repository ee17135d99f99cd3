-- ===== src/Plot/Window.antt =====
-- What a plot that scrolls shows.
use device_tester.Prelude.{
  length-drop, out_of_range, zero, ◌⊎◌, subst, ℕ, suc, ◌+◌, ◌%◌, ◌≤◌, ◌<◌, ◌≡◌, refl, ◌∙◌, ap, sym,
  inl, inr, ltb, if◌then◌else◌, List, [], ◌∷◌, ◌++◌, length, drop, take, Attempt, done, lt-or-ge,
  length-append, append_assoc, append-nil, arith,
}
use native.Mathlib.Nat.{mod_self, mod-eq_of_lt}
use device_tester.Plot.{
  ScrollingBuffer, ℤ, pos, negsuc, is_below, remainder, from_first, create, assign, add_point,
  add_points, plotted,
}

-- A size that is 0 or less.
abbrev pub IsNoSize : ℤ → Type 0
IsNoSize (pos n) = n ≡ 0
IsNoSize (negsuc n) = Unit

module _ {ℓ} {A : Type ℓ} where
  -- The last points of a sequence, as it grows.
  abbrev pub window_add : ℕ → List A → A → List A
  window_add bound w x = if ltb (length w) bound then w ++ x ∷ [] else drop 1 (w ++ x ∷ [])

  abbrev pub window : ℕ → List A → List A → List A
  window bound w [] = w
  window bound w (x ∷ xs) = window bound (window_add bound w x) xs

  window_add-some : (bound : ℕ) (w : List A) (x : A) → 0 < bound → 0 < length (window_add bound w x)
  window_add-some bound w x h =
      ground (arith, h, length-append w (x ∷ []), length-drop 1 (w ++ x ∷ []))

  window-some :
      (xs : List A) (bound : ℕ) (w : List A)
      → 0 < bound
      → 0 < length w
      → 0 < length (window bound w xs)
  window-some [] bound w h k = k
  window-some (x ∷ xs) bound w h k =
      window-some xs bound (window_add bound w x) h (window_add-some bound w x h)

  -- The points before the offset, and those from it on.
  record Splits (bound : ℕ) (w : List A) (s : ScrollingBuffer A) (a b : List A) : Type ℓ where
    sized : s.max_size ≡ pos bound
    positive : 0 < bound
    parts : s.points ≡ a ++ b
    at : s.offset ≡ length a
    shown : w ≡ b ++ a
    fits : length a + length b ≤ bound
    room : length a + length b < bound → a ≡ []
    below : length a < bound

  assign-middle :
      (a : List A) (y : A) (b : List A) (x : A)
      → assign (a ++ y ∷ b) (length a) x ≡ done (a ++ x ∷ b)
  unfolding assign
  assign-middle [] y b x = refl
  assign-middle (z ∷ a) y b x = rw (assign, assign-middle a y b x) refl

  drop-length : (a b : List A) → drop (length a) (a ++ b) ≡ b
  drop-length [] b = refl
  drop-length (x ∷ a) b = drop-length a b

  take-length : (a b : List A) → take (length a) (a ++ b) ≡ a
  take-length [] b = refl
  take-length (x ∷ a) b = ap (λ c. x ∷ c) (take-length a b)

  from_first-done :
      (ps : List A) (offset : ℕ)
      → 0 < length ps
      → from_first ps offset ≡ done (drop offset ps ++ take offset ps)
  from_first-done [] offset h = absurd (omega (arith, h))
  from_first-done (p ∷ ps) offset h = refl

  Splits-plotted :
      (bound : ℕ) (w : List A) (s : ScrollingBuffer A) (a b : List A)
      → Splits bound w s a b
      → 0 < length w
      → plotted s ≡ done w
  unfolding plotted
  Splits-plotted bound w s a b v h =
      let some_point : 0 < length s.points =
        rw v.parts (omega (arith, h, ap length v.shown, length-append b a, length-append a b)) in
      from_first-done s.points s.offset some_point
      ∙ ap done (rw (v.parts, v.at, drop-length a b, take-length a b) (sym v.shown))

  add_room :
      (bound : ℕ) (w : List A) (s : ScrollingBuffer A) (b : List A) (x : A)
      → Splits bound w s [] b
      → length b < bound
      → add_point s x ≡ done (record s { points = b ++ x ∷ [] })
  unfolding add_point is_below remainder
  add_room bound w s b x v h = ground (arith, v.parts, v.sized, h)

  room-Splits :
      (bound : ℕ) (w : List A) (s : ScrollingBuffer A) (b : List A) (x : A)
      → Splits bound w s [] b
      → length b < bound
      → Splits bound (window_add bound w x) (record s { points = b ++ x ∷ [] }) [] (b ++ x ∷ [])
  room-Splits bound w s b x v h =
      let same : w ≡ b = v.shown ∙ append-nil b in
      record {
        sized = v.sized;
        positive = v.positive;
        parts = refl;
        at = v.at;
        shown = rw (append-nil (b ++ x ∷ [])) (ground (arith, same, h));
        fits = omega (arith, length-append b (x ∷ []), h);
        room = λ e. refl;
        below = v.positive;
      }

  add_full :
      (bound : ℕ) (w : List A) (s : ScrollingBuffer A) (a b : List A) (y x : A)
      → Splits bound w s a (y ∷ b)
      → bound ≤ length a + suc (length b)
      → add_point s x ≡ done (record s { points = a ++ x ∷ b; offset = (length a + 1) % bound })
  unfolding add_point is_below remainder
  add_full bound w s a b y x v h =
      ground (arith, v.parts, v.at, v.sized, assign-middle a y b x, length-append a (y ∷ b), h)

  window_full :
      (bound : ℕ) (w : List A) (s : ScrollingBuffer A) (a b : List A) (y x : A)
      → Splits bound w s a (y ∷ b)
      → bound ≤ length a + suc (length b)
      → window_add bound w x ≡ b ++ (a ++ x ∷ [])
  window_full bound w s a b y x v h =
      ground (arith, v.shown, length-append (y ∷ b) a, append_assoc b a (x ∷ []), h)

  full-Splits :
      (bound : ℕ) (w : List A) (s : ScrollingBuffer A) (a b : List A) (y x : A)
      → Splits bound w s a (y ∷ b)
      → bound ≤ length a + suc (length b)
      → let t : ScrollingBuffer A = record s {
        points = a ++ x ∷ b;
        offset = (length a + 1) % bound;
      } in
        (a' b' : List A) × Splits bound (window_add bound w x) t a' b'
  full-Splits bound w s a [] y x v h = (
    [],
    a ++ x ∷ [],
    (record {
      sized = v.sized;
      positive = v.positive;
      parts = refl;
      at = ap (λ n. n % bound) (omega (arith, v.fits, h)) ∙ mod_self bound;
      shown = window_full bound w s a [] y x v h ∙ sym (append-nil (a ++ x ∷ []));
      fits = omega (arith, length-append a (x ∷ []), v.fits);
      room = λ e. refl;
      below = v.positive;
    }),
  )
  full-Splits bound w s a (z ∷ b) y x v h = (
    a ++ x ∷ [],
    z ∷ b,
    (record {
      sized = v.sized;
      positive = v.positive;
      parts = sym (append_assoc a (x ∷ []) (z ∷ b));
      at = mod-eq_of_lt (omega (arith, v.fits)) ∙ omega (arith, length-append a (x ∷ []));
      shown = window_full bound w s a (z ∷ b) y x v h;
      fits = omega (arith, length-append a (x ∷ []), v.fits);
      room = λ e. absurd (omega (arith, length-append a (x ∷ []), h));
      below = omega (arith, length-append a (x ∷ []), v.fits);
    }),
  )

  -- A buffer that returned and shows the window.
  abbrev Follows : ℕ → List A → Attempt (ScrollingBuffer A) → Type ℓ
  Follows bound w r = (t : ScrollingBuffer A) × (a b : List A) × (r ≡ done t) × Splits bound w t a b

  add-Follows :
      (bound : ℕ) (w : List A) (s : ScrollingBuffer A) (a b : List A) (x : A)
      → Splits bound w s a b
      → Follows bound (window_add bound w x) (add_point s x)
  add-Follows bound w s a b x v = elim (lt-or-ge (length a + length b) bound) [
    | inl h ↦
        let v' : Splits bound w s [] b = subst (λ c. Splits bound w s c b) (v.room h) v in
        let h' : length b < bound = omega (arith, h) in
        (
          record s { points = b ++ x ∷ [] },
          [],
          b ++ x ∷ [],
          add_room bound w s b x v' h',
          room-Splits bound w s b x v' h',
        )
    | inr h ↦ full b v h
  ]
    where
      full :
          (b : List A)
          → Splits bound w s a b
          → bound ≤ length a + length b
          → Follows bound (window_add bound w x) (add_point s x)
      full [] v h = absurd (omega (arith, v.below, h))
      full (y ∷ b) v h =
          let (a', b', v') = full-Splits bound w s a b y x v h in
          (
            record s { points = a ++ x ∷ b; offset = (length a + 1) % bound },
            a',
            b',
            add_full bound w s a b y x v h,
            v',
          )

  add_points-Follows :
      (xs : List A) (bound : ℕ) (w : List A) (s : ScrollingBuffer A) (a b : List A)
      → Splits bound w s a b
      → Follows bound (window bound w xs) (add_points s xs)
  unfolding add_points
  add_points-Follows [] bound w s a b v = (s, a, b, refl, v)
  add_points-Follows (x ∷ xs) bound w s a b v =
      let (t, a', b', e, v') = add-Follows bound w s a b x v in
      rw e (add_points-Follows xs bound (window_add bound w x) t a' b' v')

  create-Splits : (bound : ℕ) → 0 < bound → Splits bound [] (create (pos bound)) [] []
  unfolding create
  create-Splits bound h = record {
    sized = refl;
    positive = h;
    parts = refl;
    at = refl;
    shown = refl;
    fits = omega arith;
    room = λ e. refl;
    below = h;
  }

  -- A plot of that size that returned shows these points.
  abbrev pub Shows : ℕ → List A → Attempt (ScrollingBuffer A) → Type ℓ
  Shows bound w r = (s : ScrollingBuffer A) × (r ≡ done s) × (plotted s ≡ done w)

  no_size :
      (max_size : ℤ) (x : A) (xs : List A)
      → IsNoSize max_size
      → add_points (create max_size) (x ∷ xs) ≡ out_of_range
  unfolding create add_points add_point is_below
  no_size (pos zero) x xs h = refl
  no_size (pos (suc n)) x xs h = absurd (omega (arith, h))
  no_size (negsuc n) x xs h = refl

  sized_plot :
      (bound : ℕ) (x : A) (xs : List A)
      → 0 < bound
      → Shows bound (window bound [] (x ∷ xs)) (add_points (create (pos bound)) (x ∷ xs))
  sized_plot bound x xs h =
      let (s, a, b, e, v) =
        add_points-Follows (x ∷ xs) bound [] (create (pos bound)) [] [] (create-Splits bound h) in
      (
        s,
        e,
        Splits-plotted bound (window bound [] (x ∷ xs)) s a b v
            (window-some xs bound (window_add bound [] x) h (window_add-some bound [] x h)),
      )

  -- A plot of any size, to which nothing was added, reads out of range when it is plotted. With a size
  -- above 0 it takes any points without reading out of range, and after the first one it plots, without
  -- reading out of range, those that a queue of that size keeps, in the order in which they were added:
  -- each point that is added to a full plot drops the oldest. With a size of 0 or less the first point
  -- already is written out of range.
  pub add_points-create :
      (max_size : ℤ) (x : A) (xs : List A)
      → (plotted {A = A} (create max_size) ≡ out_of_range)
        × (((bound : ℕ) × (max_size ≡ pos bound)
              × (0 < bound)
              × Shows bound (window bound [] (x ∷ xs)) (add_points (create max_size) (x ∷ xs)))
            ⊎ (IsNoSize max_size × (add_points (create max_size) (x ∷ xs) ≡ out_of_range)))
  unfolding plotted create
  add_points-create (negsuc n) x xs = (refl, inr (tt, no_size (negsuc n) x xs tt))
  add_points-create (pos zero) x xs = (refl, inr (refl, no_size (pos 0) x xs refl))
  add_points-create (pos (suc n)) x xs =
      (refl, inl (suc n, refl, omega arith, sized_plot (suc n) x xs (omega arith)))
