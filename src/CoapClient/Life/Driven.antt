-- ===== src/CoapClient/Life/Driven.antt =====
-- That `doIO` drives libcoap for as long as the client lives, and that it can outlive it.
use device_tester.Prelude.{
  Bool-cases, ℕ, ◌+◌, ◌≤◌, ◌≡◌, refl, ap, ◌∙◌, Bool, true, false, ◌||◌, ◌⊎◌, inl, inr, arith,
}
use device_tester.CoapClient.Life.{
  Io, resting, waiting, processing, unlocked, Stage, living, locked, cleared, gone, Life, create,
  is_gone, is_held, is_processing, uses, begin, repost, Step, Steps, rests, goes_on, begins, shares,
  unshares, reposts, locks, clears, destroys, Reach, starts, goes, busy, calls,
}

abbrev pub bit : Bool → ℕ
bit true = 1
bit false = 0

-- Whether the destructor has not begun to clear.
abbrev early : Stage → ℕ
early living = 1
early locked = 1
early _ = 0

-- Whether the client is not there for others.
abbrev pub shut : Stage → ℕ
shut living = 0
shut _ = 1

record Inv (s : Life) : Type 0 where
  one : calls s ≤ 1
  driven : bit s.do_work ≤ calls s
  works : early s.stage ≤ bit s.do_work
  safe : bit (is_processing s.io) + shut s.stage ≤ 1 + bit s.dangling
  late : bit s.dangling ≤ bit (is_gone s.stage)

begin-busy : (b : Bool) → (busy (begin b) ≡ bit b) × (is_processing (begin b) ≡ false)
unfolding begin
begin-busy true = (refl, refl)
begin-busy false = (refl, refl)

repost-lem : (b : Bool) (n : ℕ) → repost b n ≡ n + bit b
unfolding repost
repost-lem true n = omega arith
repost-lem false n = omega arith

uses-bit :
    (d : Bool) (stage : Stage)
    → bit d ≤ bit (is_gone stage)
    → bit (d || is_gone stage) ≡ bit (is_gone stage)
uses-bit true gone l = refl
uses-bit true living l = absurd (omega (arith, l))
uses-bit true locked l = absurd (omega (arith, l))
uses-bit true cleared l = absurd (omega (arith, l))
uses-bit false stage l = refl

shut-gone : (stage : Stage) → is_held stage ≡ false → shut stage ≡ bit (is_gone stage)
shut-gone living e = refl
shut-gone gone e = refl
shut-gone locked e = absurd cc
shut-gone cleared e = absurd cc

bit_le : (b : Bool) → bit b ≤ 1
bit_le true = omega arith
bit_le false = omega arith

shut_le : (stage : Stage) → shut stage ≤ 1
shut_le living = omega arith
shut_le locked = omega arith
shut_le cleared = omega arith
shut_le gone = omega arith

step-Inv : (s t : Life) → Step s t → Inv s → Inv t
step-Inv s _ (begins n e f) i =
    let (b, p) = begin-busy s.do_work in
    let u = uses-bit s.dangling s.stage i.late in
    record {
      one = omega (arith, i.one, e, b, ap busy f, bit_le s.do_work);
      driven = omega (arith, b);
      works = i.works;
      safe = omega (arith, ap bit p, shut_le s.stage);
      late = omega (arith, u);
    }
step-Inv s _ (shares e f) i =
    let u = uses-bit s.dangling s.stage i.late in
    record {
      one = omega (arith, i.one, ap busy e);
      driven = omega (arith, i.driven, ap busy e);
      works = i.works;
      safe = omega (arith, u, shut-gone s.stage f);
      late = omega (arith, u);
    }
step-Inv s _ (unshares e) i =
    let u = uses-bit s.dangling s.stage i.late in
    record {
      one = omega (arith, i.one, ap busy e);
      driven = omega (arith, i.driven, ap busy e);
      works = i.works;
      safe = omega (arith, shut_le s.stage);
      late = omega (arith, u);
    }
step-Inv s _ (reposts e) i =
    let u = uses-bit s.dangling s.stage i.late in
    let r = repost-lem s.do_work s.posted in
    record {
      one = omega (arith, i.one, r, ap busy e, bit_le s.do_work);
      driven = omega (arith, r);
      works = i.works;
      safe = omega (arith, shut_le s.stage);
      late = omega (arith, u);
    }
step-Inv s _ (locks e f) i = record {
  one = i.one;
  driven = i.driven;
  works = omega (arith, i.works, ap early e);
  safe = omega (arith, ap bit f);
  late = omega (arith, i.late, ap (λ g. bit (is_gone g)) e);
}
step-Inv s _ (clears e) i = record {
  one = i.one;
  driven = omega arith;
  works = omega arith;
  safe = omega (arith, i.safe, ap shut e);
  late = omega (arith, i.late, ap (λ g. bit (is_gone g)) e);
}
step-Inv s _ (destroys e) i = record {
  one = i.one;
  driven = i.driven;
  works = omega arith;
  safe = omega (arith, i.safe, ap shut e);
  late = omega (arith, i.late, bit_le s.dangling);
}

Reach-Inv : (s : Life) → Reach s → Inv s
unfolding create
Reach-Inv _ starts = record {
  one = omega arith;
  driven = omega arith;
  works = omega arith;
  safe = omega arith;
  late = omega arith;
}
Reach-Inv _ (goes s t r k) = step-Inv s t k (Reach-Inv s r)

or_true : (b : Bool) → (b || true) ≡ true
or_true true = refl
or_true false = refl

-- A `doIO` that is left when the destructor is done uses what is gone.
gone-dangling :
    (s t : Life) (io : Io)
    → Steps s t
    → t.io ≡ io
    → t.stage ≡ gone
    → calls t ≡ 1
    → is_processing io ≡ false
    → (u : Life) × Steps s u × (u.dangling ≡ true)
gone-dangling s t resting r e g c p =
    (_, goes_on t _ r (begins 0 (omega (arith, c, ap busy e)) e), used)
  where
    used : uses t ≡ true
    used = ap (λ stage. t.dangling || is_gone stage) g ∙ or_true t.dangling
gone-dangling s t waiting r e g c p = (
  _,
  goes_on t _ r (shares e (ap is_held g)),
  ap (λ stage. t.dangling || is_gone stage) g ∙ or_true t.dangling,
)
gone-dangling s t unlocked r e g c p =
    (_, goes_on t _ r (reposts e), ap (λ stage. t.dangling || is_gone stage) g ∙ or_true t.dangling)
gone-dangling s t processing r e g c p = absurd cc

-- The destructor runs from here to its end.
destroyed :
    (s : Life)
    → s.stage ≡ living
    → is_processing s.io ≡ false
    → Steps s (record s { do_work = false; stage = gone })
destroyed s e p =
    let a : Life = record s { stage = locked } in
    let b : Life = record s { stage = cleared; do_work = false } in
    goes_on b _ (goes_on a b (goes_on s a rests (locks e p)) (clears refl)) (destroys refl)

-- The destructor has begun, or the client is in libcoap, or the two can go on from here so that `doIO`
-- has used a client that is gone.
abbrev pub CanDangle : Life → Type 0
CanDangle s =
    (shut s.stage ≡ 1)
    ⊎ ((is_processing s.io ≡ true) ⊎ ((t : Life) × Steps s t × (t.dangling ≡ true)))

living-CanDangle : (s : Life) → Reach s → s.stage ≡ living → CanDangle s
living-CanDangle s r e = elim (Bool-cases (is_processing s.io)) [
  | inl p ↦ inr (inl p)
  | inr p ↦
      let i = Reach-Inv s r in
      inr (
        inr (
          gone-dangling s (record s { do_work = false; stage = gone }) s.io (destroyed s e p) refl
            refl (omega (arith, i.one, i.driven, i.works, ap early e)) p))
]

Reach-CanDangle : (s : Life) → Reach s → CanDangle s
Reach-CanDangle s r = go s.stage refl
  where
    go : (stage : Stage) → s.stage ≡ stage → CanDangle s
    go living e = living-CanDangle s r e
    go locked e = inl (ap shut e)
    go cleared e = inl (ap shut e)
    go gone e = inl (ap shut e)

-- In every state that the strand and the destructor can reach: at most one call of `doIO` is posted or
-- begun, and one is while `do_work_` holds, so that libcoap is driven; libcoap does not run once the
-- destructor has the lock, unless `doIO` has used the client after its end. And from every such state in
-- which the destructor has not begun and the strand is not in libcoap, there are steps of the two that
-- lead to a state in which `doIO` has used the client after its end.
pub Reach-Driven :
    (s : Life)
    → Reach s
    → (calls s ≤ 1)
      × (bit s.do_work ≤ calls s)
      × (bit (is_processing s.io) + shut s.stage ≤ 1 + bit s.dangling)
      × CanDangle s
Reach-Driven s r = let i = Reach-Inv s r in (i.one, i.driven, i.safe, Reach-CanDangle s r)
