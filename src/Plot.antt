-- ===== src/Plot.antt =====
-- plugins/lua_base/src/lua_gui_bindings.cpp: `ScrollingBuffer`, the points of a plot that scrolls.
pub mod Window
pub mod Rolling
mod Tests
use device_tester.Prelude.{
  subst, ℕ, suc, zero, ◌+◌, ◌-◌, ◌%◌, ◌≤◌, ◌<◌, ◌≡◌, refl, ◌∙◌, ap, sym, inl, inr, Bool, true,
  false, ltb, ◌==◌, if◌then◌else◌, List, [], ◌∷◌, ◌++◌, length, drop, take, Attempt, done,
  out_of_range, ◌>>=◌, lt-or-ge, length-append, append_assoc, append-nil, arith,
}

-- The sizes are an `int`. `negsuc n` is -(n + 1).
pub data ℤ : Type 0 where
  pos : ℕ → ℤ
  negsuc : ℕ → ℤ

-- A number is less than an integer.
unfoldable pub is_below : ℕ → ℤ → Bool
is_below n (pos m) = ltb n m
is_below n (negsuc m) = false

-- `n % m`, which rounds to zero. It is computed of a size that is not 0: see `add_point`.
unfoldable pub remainder : ℕ → ℤ → ℕ
remainder n (pos m) = n % m
remainder n (negsuc m) = n % suc m

pub record ScrollingBuffer {ℓ} (A : Type ℓ) : Type ℓ where
  pub max_size : ℤ
  pub offset : ℕ
  pub points : List A

module _ {ℓ} {A : Type ℓ} where
  -- `reserve` of a size that is negative does nothing.
  unfoldable pub create : ℤ → ScrollingBuffer A
  create max_size = record { max_size = max_size; offset = 0; points = [] }

  -- `Data[i] = x`, where `ImVector` wants `i` in range.
  unfoldable pub assign : List A → ℕ → A → Attempt (List A)
  assign [] i x = out_of_range
  assign (y ∷ ys) zero x = done (x ∷ ys)
  assign (y ∷ ys) (suc i) x = do zs ← assign ys i x; done (y ∷ zs)

  unfoldable pub add_point : ScrollingBuffer A → A → Attempt (ScrollingBuffer A)
  unfolding assign is_below remainder
  add_point s x =
      if is_below (length s.points) s.max_size
      then done (record s { points = s.points ++ x ∷ [] })
      else (do
        points ← assign s.points s.offset x
        done (record s { points = points; offset = remainder (s.offset + 1) s.max_size }))

  unfoldable pub erase : ScrollingBuffer A → ScrollingBuffer A
  erase s = if ltb 0 (length s.points) then record s { points = []; offset = 0 } else s

  -- What is plotted: the points from the offset on, then those before it. `plotLine` takes the address of
  -- `Data[0]`, which is out of range if there is no point.
  abbrev pub from_first : List A → ℕ → Attempt (List A)
  from_first [] offset = out_of_range
  from_first (x ∷ xs) offset = done (drop offset (x ∷ xs) ++ take offset (x ∷ xs))

  unfoldable pub plotted : ScrollingBuffer A → Attempt (List A)
  plotted s = from_first s.points s.offset

  unfoldable pub add_points : ScrollingBuffer A → List A → Attempt (ScrollingBuffer A)
  unfolding add_point
  add_points s [] = done s
  add_points s (x ∷ xs) = do s' ← add_point s x; add_points s' xs
