-- ===== src/Manager/Runners.antt =====
-- What the threads and the destructor wait for.
use device_tester.Prelude.{
  ◌∙◌, sym, ℕ, ◌≤◌, ◌≡◌, ◌⊎◌, refl, subst, inl, inr, zero, suc, Bool, true, false, List, [], ◌∷◌,
  ◌++◌, length, arith,
}
use mathlib.Core.Bool.{false≢true}
use device_tester.Manager.{
  Runner, looping, inside, finished, Stage, living, clearing, joining, gone, ManagerImpl,
  start_runners, create, test, Step, tests, returns, handles, posts, clears, resets, joins, ends,
  Reach, begins, goes,
}

-- A thread calls `io_.run` once, and is out of the loop only when the destructor has begun.
abbrev pub Ok : Bool → Runner → Type 0
Ok run (looping calls) = (calls ≡ 0) ⊎ ((calls ≡ 1) × (run ≡ false))
Ok run (inside calls) = calls ≡ 1
Ok run (finished calls) = (calls ≤ 1) × (run ≡ false)

abbrev pub AllOk : Bool → List Runner → Type 0
AllOk run [] = Unit
AllOk run (r ∷ rs) = Ok run r × AllOk run rs

-- The first threads are out of their loops, and all of them.
abbrev pub Joined : ℕ → List Runner → Type 0
Joined zero rs = Unit
Joined (suc n) [] = Unit
Joined (suc n) (finished calls ∷ rs) = Joined n rs
Joined (suc n) (_ ∷ rs) = ⊥

abbrev pub AllFinished : List Runner → Type 0
AllFinished [] = Unit
AllFinished (finished calls ∷ rs) = AllFinished rs
AllFinished (_ ∷ rs) = ⊥

-- What the stage of the destructor says of the flag, the guard and the threads.
abbrev pub Fits : Stage → Bool → Bool → List Runner → Type 0
Fits living run guarded rs = guarded ≡ true
Fits clearing run guarded rs = run ≡ false
Fits (joining n) run guarded rs = (run ≡ false) × Joined n rs
Fits gone run guarded rs = (run ≡ false) × AllFinished rs

pub record Inv (s : ManagerImpl) : Type 0 where
  pub ok : AllOk s.run s.runners
  pub fits : Fits s.stage s.run s.guarded s.runners

AllOk-at : (run : Bool) (us vs : List Runner) (r : Runner) → AllOk run (us ++ r ∷ vs) → Ok run r
AllOk-at run [] vs r (o, h) = o
AllOk-at run (u ∷ us) vs r (o, h) = AllOk-at run us vs r h

AllOk-change :
    (run : Bool) (us vs : List Runner) (r q : Runner)
    → AllOk run (us ++ r ∷ vs)
    → Ok run q
    → AllOk run (us ++ q ∷ vs)
AllOk-change run [] vs r q (o, h) k = (k, h)
AllOk-change run (u ∷ us) vs r q (o, h) k = (o, AllOk-change run us vs r q h k)

Ok-false : (run : Bool) (r : Runner) → Ok run r → Ok false r
Ok-false run (looping calls) (inl e) = inl e
Ok-false run (looping calls) (inr (e, f)) = inr (e, refl)
Ok-false run (inside calls) o = o
Ok-false run (finished calls) (l, f) = (l, refl)

AllOk-false : (run : Bool) (rs : List Runner) → AllOk run rs → AllOk false rs
AllOk-false run [] h = tt
AllOk-false run (r ∷ rs) (o, h) = (Ok-false run r o, AllOk-false run rs h)

test-Ok : (run : Bool) (calls : ℕ) → Ok run (looping calls) → Ok run (test run calls)
unfolding test
test-Ok true calls (inl e) = omega (arith, e)
test-Ok true calls (inr (e, f)) = absurd (false≢true (sym f))
test-Ok false calls (inl e) = (omega (arith, e), refl)
test-Ok false calls (inr (e, f)) = (omega (arith, e), refl)

-- A thread that is not out of its loop has not been joined.
Joined-looping :
    (n : ℕ) (us vs : List Runner) (calls : ℕ) (q : Runner)
    → Joined n (us ++ looping calls ∷ vs)
    → Joined n (us ++ q ∷ vs)
Joined-looping zero us vs calls q j = tt
Joined-looping (suc n) [] vs calls q j = absurd j
Joined-looping (suc n) (finished c ∷ us) vs calls q j = Joined-looping n us vs calls q j
Joined-looping (suc n) (looping c ∷ us) vs calls q j = absurd j
Joined-looping (suc n) (inside c ∷ us) vs calls q j = absurd j

Joined-inside :
    (n : ℕ) (us vs : List Runner) (calls : ℕ) (q : Runner)
    → Joined n (us ++ inside calls ∷ vs)
    → Joined n (us ++ q ∷ vs)
Joined-inside zero us vs calls q j = tt
Joined-inside (suc n) [] vs calls q j = absurd j
Joined-inside (suc n) (finished c ∷ us) vs calls q j = Joined-inside n us vs calls q j
Joined-inside (suc n) (looping c ∷ us) vs calls q j = absurd j
Joined-inside (suc n) (inside c ∷ us) vs calls q j = absurd j

AllFinished-at :
    (us vs : List Runner) (r : Runner) → AllFinished (us ++ r ∷ vs) → AllFinished (r ∷ [])
AllFinished-at [] vs (finished c) h = tt
AllFinished-at [] vs (looping c) h = h
AllFinished-at [] vs (inside c) h = h
AllFinished-at (finished c ∷ us) vs r h = AllFinished-at us vs r h
AllFinished-at (looping c ∷ us) vs r h = absurd h
AllFinished-at (inside c ∷ us) vs r h = absurd h

Joined-next :
    (us vs : List Runner) (calls : ℕ)
    → Joined (length us) (us ++ finished calls ∷ vs)
    → Joined (suc (length us)) (us ++ finished calls ∷ vs)
Joined-next [] vs calls j = tt
Joined-next (finished c ∷ us) vs calls j = Joined-next us vs calls j
Joined-next (looping c ∷ us) vs calls j = absurd j
Joined-next (inside c ∷ us) vs calls j = absurd j

Joined-all : (rs : List Runner) → Joined (length rs) rs → AllFinished rs
Joined-all [] j = tt
Joined-all (finished c ∷ rs) j = Joined-all rs j
Joined-all (looping c ∷ rs) j = j
Joined-all (inside c ∷ rs) j = j

-- A change of one thread that was not out of its loop.
Fits-looping :
    (stage : Stage) (run guarded : Bool) (us vs : List Runner) (calls : ℕ) (q : Runner)
    → Fits stage run guarded (us ++ looping calls ∷ vs)
    → Fits stage run guarded (us ++ q ∷ vs)
Fits-looping living run guarded us vs calls q f = f
Fits-looping clearing run guarded us vs calls q f = f
Fits-looping (joining n) run guarded us vs calls q (f, j) = (f, Joined-looping n us vs calls q j)
Fits-looping gone run guarded us vs calls q (f, a) = absurd (AllFinished-at us vs (looping calls) a)

Fits-inside :
    (stage : Stage) (run guarded : Bool) (us vs : List Runner) (calls : ℕ) (q : Runner)
    → Fits stage run guarded (us ++ inside calls ∷ vs)
    → Fits stage run guarded (us ++ q ∷ vs)
Fits-inside living run guarded us vs calls q f = f
Fits-inside clearing run guarded us vs calls q f = f
Fits-inside (joining n) run guarded us vs calls q (f, j) = (f, Joined-inside n us vs calls q j)
Fits-inside gone run guarded us vs calls q (f, a) = absurd (AllFinished-at us vs (inside calls) a)

unguarded :
    (stage : Stage) (run guarded : Bool) (rs : List Runner)
    → Fits stage run guarded rs
    → guarded ≡ false
    → run ≡ false
unguarded living run guarded rs f e = absurd (false≢true (sym e ∙ f))
unguarded clearing run guarded rs f e = f
unguarded (joining n) run guarded rs f e = f.0
unguarded gone run guarded rs f e = f.0

start-AllOk : (n : ℕ) → AllOk true (start_runners n)
unfolding start_runners
start-AllOk zero = tt
start-AllOk (suc n) = (inl refl, start-AllOk n)

step-Inv : (s t : ManagerImpl) → Step s t → Inv s → Inv t
step-Inv s _ (tests us vs calls e) i =
    let h = subst (AllOk s.run) e i.ok in
    record {
      ok =
          AllOk-change s.run us vs (looping calls) (test s.run calls) h
            (test-Ok s.run calls (AllOk-at s.run us vs (looping calls) h));
      fits =
          Fits-looping s.stage s.run s.guarded us vs calls (test s.run calls)
            (subst (Fits s.stage s.run s.guarded) e i.fits);
    }
step-Inv s _ (returns us vs calls e g w) i =
    let h = subst (AllOk s.run) e i.ok in
    record {
      ok = AllOk-change s.run us vs (inside calls) (looping calls) h (
          inr (
            AllOk-at s.run us vs (inside calls) h,
            unguarded s.stage s.run s.guarded s.runners i.fits g,
          ));
      fits =
          Fits-inside s.stage s.run s.guarded us vs calls (looping calls)
            (subst (Fits s.stage s.run s.guarded) e i.fits);
    }
step-Inv s _ (handles us vs calls n e w) i = record { ok = i.ok; fits = i.fits }
step-Inv s _ posts i = record { ok = i.ok; fits = i.fits }
step-Inv s _ (clears e) i = record { ok = AllOk-false s.run s.runners i.ok; fits = refl }
step-Inv s _ (resets e) i = record {
  ok = i.ok;
  fits = (subst (λ stage. Fits stage s.run s.guarded s.runners) e i.fits, tt);
}
step-Inv s _ (joins us vs calls e f) i =
    let (r, j) = subst (λ stage. Fits stage s.run s.guarded s.runners) e i.fits in
    record {
      ok = i.ok;
      fits = (
        r,
        subst (Joined (suc (length us))) (sym f)
            (Joined-next us vs calls (subst (Joined (length us)) f j)),
      );
    }
step-Inv s _ (ends e) i =
    let (r, j) = subst (λ stage. Fits stage s.run s.guarded s.runners) e i.fits in
    record { ok = i.ok; fits = (r, Joined-all s.runners j) }

pub Reach-Inv : (s : ManagerImpl) → Reach s → Inv s
unfolding create
Reach-Inv _ begins = record { ok = start-AllOk 10; fits = refl }
Reach-Inv _ (goes s t r k) = step-Inv s t k (Reach-Inv s r)

abbrev pub IsGone : Stage → List Runner → Type 0
IsGone gone rs = AllFinished rs
IsGone _ rs = Unit

Fits-IsGone :
    (stage : Stage) (run guarded : Bool) (rs : List Runner)
    → Fits stage run guarded rs
    → IsGone stage rs
Fits-IsGone living run guarded rs f = tt
Fits-IsGone clearing run guarded rs f = tt
Fits-IsGone (joining n) run guarded rs f = tt
Fits-IsGone gone run guarded rs f = f.1

-- In every state that the threads and the destructor can reach, in any order of their steps: a thread is
-- out of its loop only when the destructor has begun, none has called `io_.run` twice, so none spins, and
-- when the destructor is done, all threads are out of their loops.
pub Reach-runners : (s : ManagerImpl) → Reach s → AllOk s.run s.runners × IsGone s.stage s.runners
Reach-runners s r =
    let i = Reach-Inv s r in (i.ok, Fits-IsGone s.stage s.run s.guarded s.runners i.fits)
