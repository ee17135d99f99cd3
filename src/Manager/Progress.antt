-- ===== src/Manager/Progress.antt =====
-- That the destructor comes to its end.
use device_tester.Prelude.{
  lt-or-ge, ◌∙◌, sym, ap, ℕ, ◌+◌, ◌-◌, ◌≤◌, ◌<◌, ◌≡◌, ◌≢◌, ◌⊎◌, refl, subst, inl, inr, zero, suc,
  Bool, false, List, [], ◌∷◌, ◌++◌, length, length-append, arith,
}
use device_tester.Manager.{
  Runner, looping, inside, finished, Stage, living, clearing, joining, gone, ManagerImpl, create,
  test, Step, tests, returns, handles, posts, clears, resets, joins, ends, Reach, begins, goes,
}
use device_tester.Manager.Runners.{Inv, Fits, Reach-Inv}

-- While the destructor joins, the guard is reset and the thread that it waits for is one of them, or
-- there are no more.
abbrev After : Stage → Bool → ℕ → Type 0
After (joining n) guarded count = (guarded ≡ false) × (n ≤ count)
After _ guarded count = Unit

length-change : (us vs : List Runner) (r q : Runner) → length (us ++ r ∷ vs) ≡ length (us ++ q ∷ vs)
length-change us vs r q = length-append us (r ∷ vs) ∙ sym (length-append us (q ∷ vs))

length-at : (us vs : List Runner) (r : Runner) → length us < length (us ++ r ∷ vs)
length-at us vs r = omega (arith, length-append us (r ∷ vs))

After-change :
    (s : ManagerImpl) (us vs : List Runner) (r q : Runner)
    → s.runners ≡ us ++ r ∷ vs
    → After s.stage s.guarded (length s.runners)
    → After s.stage s.guarded (length (us ++ q ∷ vs))
After-change s us vs r q e = subst (After s.stage s.guarded) (ap length e ∙ length-change us vs r q)

step-After :
    (s t : ManagerImpl)
    → Step s t
    → After s.stage s.guarded (length s.runners)
    → After t.stage t.guarded (length t.runners)
step-After s _ (tests us vs calls e) a = After-change s us vs (looping calls) (test s.run calls) e a
step-After s _ (returns us vs calls e g w) a =
    After-change s us vs (inside calls) (looping calls) e a
step-After s _ (handles us vs calls n e w) a = a
step-After s _ posts a = a
step-After s _ (clears e) a = tt
step-After s _ (resets e) a = (refl, omega arith)
step-After s _ (joins us vs calls e f) a = (
  (subst (λ stage. After stage s.guarded (length s.runners)) e a).0,
  omega (arith, length-at us vs (finished calls), ap length f),
)
step-After s _ (ends e) a = tt

Reach-After : (s : ManagerImpl) → Reach s → After s.stage s.guarded (length s.runners)
unfolding create
Reach-After _ begins = tt
Reach-After _ (goes s t r k) = step-After s t k (Reach-After s r)

-- How far the threads, the handlers and the destructor have to go.
abbrev weight : Runner → ℕ
weight (looping calls) = 1
weight (inside calls) = 2
weight (finished calls) = 0

abbrev weights : List Runner → ℕ
weights [] = 0
weights (r ∷ rs) = weight r + weights rs

abbrev stage_left : Stage → ℕ → ℕ
stage_left living count = count + 3
stage_left clearing count = count + 2
stage_left (joining n) count = count + 1 - n
stage_left gone count = 0

abbrev pub left : ManagerImpl → ℕ
left s = s.work_left + weights s.runners + stage_left s.stage (length s.runners)

weights-change :
    (us vs : List Runner) (r q : Runner)
    → weight q < weight r
    → weights (us ++ q ∷ vs) < weights (us ++ r ∷ vs)
weights-change [] vs r q l = omega (arith, l)
weights-change (u ∷ us) vs r q l = omega (arith, weights-change us vs r q l)

stopped : (s : ManagerImpl) → Inv s → s.stage ≢ living → s.run ≡ false
stopped s i h = go s.stage i.fits h
  where
    go : (stage : Stage) → Fits stage s.run s.guarded s.runners → stage ≢ living → s.run ≡ false
    go living f h = absurd (h refl)
    go clearing f h = f
    go (joining n) f h = f.0
    go gone f h = f.0

-- Each step but a new handler.
abbrev pub IsQuiet : {s t : ManagerImpl} → Step s t → Type 0
IsQuiet posts = ⊥
IsQuiet _ = Unit

change-left :
    (s : ManagerImpl) (us vs : List Runner) (r q : Runner)
    → s.runners ≡ us ++ r ∷ vs
    → weight q < weight r
    → left (record s { runners = us ++ q ∷ vs }) < left s
change-left s us vs r q e l = omega (
  arith,
  weights-change us vs r q l,
  ap weights e,
  ap (stage_left s.stage) (ap length e ∙ length-change us vs r q),
)

stage-left :
    (s : ManagerImpl) (stage : Stage)
    → s.stage ≡ stage
    → stage_left s.stage (length s.runners) ≡ stage_left stage (length s.runners)
stage-left s stage e = ap (λ stage. stage_left stage (length s.runners)) e

step-left :
    (s t : ManagerImpl) (k : Step s t) → Inv s → s.stage ≢ living → IsQuiet k → left t < left s
unfolding test
step-left s _ (tests us vs calls e) i h q =
    change-left s us vs (looping calls) (test s.run calls) e
      (rw (stopped s i h, test) (omega arith))
step-left s _ (returns us vs calls e g w) i h q =
    change-left s us vs (inside calls) (looping calls) e (omega arith)
step-left s _ (handles us vs calls n e w) i h q = omega (arith, w)
step-left s _ posts i h q = absurd q
step-left s _ (clears e) i h q = absurd (h e)
step-left s _ (resets e) i h q = omega (arith, stage-left s clearing e)
step-left s _ (joins us vs calls e f) i h q =
    omega
      (arith, stage-left s (joining (length us)) e, length-at us vs (finished calls), ap length f)
step-left s _ (ends e) i h q = omega (arith, stage-left s (joining (length s.runners)) e)

-- The thread at a place.
runner_at :
    (n : ℕ) (rs : List Runner)
    → n < length rs
    → (us : List Runner) × (r : Runner) × (vs : List Runner) × (length us ≡ n) × (rs ≡ us ++ r ∷ vs)
runner_at n [] l = absurd (omega (arith, l))
runner_at zero (r ∷ rs) l = ([], r, rs, refl, refl)
runner_at (suc n) (r ∷ rs) l =
    let (us, q, vs, e, f) = runner_at n rs (omega (arith, l)) in
    (r ∷ us, q, vs, ap suc e, ap (◌∷◌ r) f)

-- A step but a new handler can be taken.
abbrev pub CanGo : ManagerImpl → Type 0
CanGo s = (t : ManagerImpl) × (k : Step s t) × IsQuiet k

inside-CanGo :
    (s : ManagerImpl) (us vs : List Runner) (calls : ℕ)
    → s.runners ≡ us ++ inside calls ∷ vs
    → s.guarded ≡ false
    → CanGo s
inside-CanGo s us vs calls e g = go s.work_left refl
  where
    go : (n : ℕ) → s.work_left ≡ n → CanGo s
    go zero w = (_, returns us vs calls e g w, tt)
    go (suc n) w = (_, handles us vs calls n e w, tt)

joining-CanGo :
    (s : ManagerImpl) (n : ℕ)
    → s.stage ≡ joining n
    → After (joining n) s.guarded (length s.runners)
    → CanGo s
joining-CanGo s n e (g, l) = elim (lt-or-ge n (length s.runners)) [
  | inr m ↦ (_, ends (e ∙ ap joining (omega (arith, l, m))), tt)
  | inl m ↦ let (us, r, vs, c, f) = runner_at n s.runners m in go us r vs (e ∙ ap joining (sym c)) f
]
  where
    go :
        (us : List Runner) (r : Runner) (vs : List Runner)
        → s.stage ≡ joining (length us)
        → s.runners ≡ us ++ r ∷ vs
        → CanGo s
    go us (looping calls) vs c f = (_, tests us vs calls f, tt)
    go us (inside calls) vs c f = inside-CanGo s us vs calls f g
    go us (finished calls) vs c f = (_, joins us vs calls c f, tt)

gone-or-CanGo : (s : ManagerImpl) → Reach s → s.stage ≢ living → (s.stage ≡ gone) ⊎ CanGo s
gone-or-CanGo s r h = go s.stage refl (Reach-After s r)
  where
    go :
        (stage : Stage)
        → s.stage ≡ stage
        → After stage s.guarded (length s.runners)
        → (s.stage ≡ gone) ⊎ CanGo s
    go living e a = absurd (h e)
    go clearing e a = inr (_, resets e, tt)
    go (joining n) e a = inr (joining-CanGo s n e a)
    go gone e a = inl e

step-begun : (s t : ManagerImpl) → Step s t → s.stage ≢ living → t.stage ≢ living
step-begun s _ (tests us vs calls e) h = h
step-begun s _ (returns us vs calls e g w) h = h
step-begun s _ (handles us vs calls n e w) h = h
step-begun s _ posts h = h
step-begun s _ (clears e) h = λ f. absurd cc
step-begun s _ (resets e) h = λ f. absurd cc
step-begun s _ (joins us vs calls e f) h = λ f. absurd cc
step-begun s _ (ends e) h = λ f. absurd cc

-- That many steps, none of them a new handler.
pub data Steps : ℕ → ManagerImpl → ManagerImpl → Type 0 where
  rests : (s : ManagerImpl) → Steps 0 s s
  steps :
      (n : ℕ) (s t u : ManagerImpl) → Steps n s t → (k : Step t u) → IsQuiet k → Steps (suc n) s u

Steps-left :
    (n : ℕ) (s t : ManagerImpl)
    → Steps n s t
    → Reach s
    → s.stage ≢ living
    → Reach t × (t.stage ≢ living) × (n + left t ≤ left s)
Steps-left _ s _ (rests _) r h = (r, h, omega arith)
Steps-left _ s _ (steps n _ t u p k q) r h =
    let (r', h', l) = Steps-left n s t p r h in
    (goes t u r' k, step-begun t u k h', omega (arith, l, step-left t u k (Reach-Inv t r') h' q))

-- Once the destructor has begun, let the threads, the handlers that are left and the destructor take
-- steps in any order, without new handlers: from a state that can be reached they take at most a number of
-- steps that this state gives, and as long as the destructor is not done, one of them can go on.
pub Reach-ends :
    (n : ℕ) (s t : ManagerImpl)
    → Reach s
    → s.stage ≢ living
    → Steps n s t
    → (n ≤ left s) × ((t.stage ≡ gone) ⊎ CanGo t)
Reach-ends n s t r h p =
    let (r', h', l) = Steps-left n s t p r h in (omega (arith, l), gone-or-CanGo t r' h')
