-- ===== src/Plot/Rolling.antt =====
-- plugins/lua_base/src/lua_gui_bindings.cpp: `RollingBuffer`, the points of a plot that starts again when
-- its first coordinate, taken modulo the span, wraps around. `fmod` is `fmodf` by the span, and `less` the
-- order of the coordinates.
use device_tester.Prelude.{
  append-nil, ◌≡◌, refl, sym, ◌∙◌, ap, Bool, Bool-cases, false, inl, inr, if◌then◌else◌, Option,
  some, none, List, [], ◌∷◌, ◌++◌, map, append_assoc,
}

module _ {X Y : Type 0} where
  abbrev back : List (X × Y) → Option X
  back [] = none
  back (p ∷ []) = some p.0
  back (p ∷ q ∷ ps) = back (q ∷ ps)

module _ {X Y : Type 0} (less : X → X → Bool) where
  unfoldable wraps : List (X × Y) → X → Bool
  wraps ps x = elim (back ps) [ none ↦ false | some last ↦ less x last ]

  -- No coordinate is less than the one before it.
  abbrev IsRising : List (X × Y) → Type 0
  IsRising [] = Unit
  IsRising (p ∷ []) = Unit
  IsRising (p ∷ q ∷ ps) = (less q.0 p.0 ≡ false) × IsRising (q ∷ ps)

  IsRising-append :
      (ps : List (X × Y)) (q : X × Y) → IsRising ps → wraps ps q.0 ≡ false → IsRising (ps ++ q ∷ [])
  unfolding wraps
  IsRising-append [] q r w = tt
  IsRising-append (p ∷ []) q r w = (w, tt)
  IsRising-append (p ∷ p' ∷ ps) q (l, r) w = (l, IsRising-append (p' ∷ ps) q r w)

module _ {X Y : Type 0} (fmod : X → X) where
  abbrev placed : X × Y → X × Y
  placed (x, y) = (fmod x, y)

module _ {X Y : Type 0} (fmod : X → X) (less : X → X → Bool) where
  unfoldable add_point : List (X × Y) → X × Y → List (X × Y)
  add_point ps (x, y) = (if wraps less ps (fmod x) then [] else ps) ++ (fmod x, y) ∷ []

  unfoldable add_points : List (X × Y) → List (X × Y) → List (X × Y)
  add_points ps [] = ps
  add_points ps (q ∷ qs) = add_points (add_point ps q) qs

  add_point-IsRising :
      (ps : List (X × Y)) (q : X × Y) → IsRising less ps → IsRising less (add_point ps q)
  unfolding add_point
  add_point-IsRising ps (x, y) r = elim (Bool-cases (wraps less ps (fmod x))) [
    | inl e ↦ rw (add_point, e) tt
    | inr e ↦ rw (add_point, e) (IsRising-append less ps (fmod x, y) r e)
  ]

  -- The first are dropped, or none.
  add_point-tail :
      (ps : List (X × Y)) (q : X × Y)
      → (dropped : List (X × Y)) × (ps ++ placed fmod q ∷ [] ≡ dropped ++ add_point ps q)
  unfolding add_point
  add_point-tail ps (x, y) = elim (Bool-cases (wraps less ps (fmod x))) [
    | inl e ↦ (ps, rw (add_point, e) refl)
    | inr e ↦ ([], rw (add_point, e) refl)
  ]

  -- After any points, those that are kept are the last ones of all that there were, and in the order of
  -- their coordinates.
  add_points-IsRising :
      (qs ps : List (X × Y))
      → IsRising less ps
      → (dropped : List (X × Y)) × (ps ++ map (placed fmod) qs ≡ dropped ++ add_points ps qs)
        × IsRising less (add_points ps qs)
  unfolding add_points
  add_points-IsRising [] ps r = ([], append-nil ps, r)
  add_points-IsRising (q ∷ qs) ps r =
      let (now, e) = add_point-tail ps q in
      let (later, f, g) = add_points-IsRising qs (add_point ps q) (add_point-IsRising ps q r) in
      (
        now ++ later,
        sym (append_assoc ps (placed fmod q ∷ []) (map (placed fmod) qs))
            ∙ ap (λ l. l ++ map (placed fmod) qs) e
            ∙ append_assoc now (add_point ps q) (map (placed fmod) qs)
            ∙ ap (λ l. now ++ l) f
            ∙ sym (append_assoc now later (add_points (add_point ps q) qs)),
        g,
      )
