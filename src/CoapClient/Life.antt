-- ===== src/CoapClient/Life.antt =====
-- libs/libcon/src/coap_client.cpp: `doIO`, which posts itself to the strand, and the destructor, which a
-- thread of the program runs meanwhile. A step is what one of the two does between two points where the
-- other may come in. The strand runs one task at a time.
pub mod Driven
mod Tests
use device_tester.Prelude.{
  ℕ, ◌+◌, ◌≤◌, ◌≡◌, refl, sym, ap, ◌∙◌, subst, zero, suc, Bool, true, false, not, ◌&&◌, ◌||◌,
  if◌then◌else◌, ◌⊎◌, inl, inr, arith,
}

-- Where the strand is in `doIO`: in none, before the lock, in `coap_io_process`, after the lock.
pub data Io : Type 0 where
  resting waiting processing unlocked : Io

-- Where the destructor is: not called, with the lock, after `do_work_ = false`, done.
pub data Stage : Type 0 where
  living locked cleared gone : Stage

-- `posted` counts the calls of `doIO` that the strand has not begun. `dangling` is whether `doIO` has
-- used the client after the destructor was done; what it reads then is what was there.
pub record Life : Type 0 where
  pub do_work : Bool
  pub posted : ℕ
  pub io : Io
  pub stage : Stage
  pub dangling : Bool

unfoldable pub create : Life
create = record { do_work = true; posted = 1; io = resting; stage = living; dangling = false }

abbrev pub is_gone : Stage → Bool
is_gone gone = true
is_gone _ = false

abbrev pub is_held : Stage → Bool
is_held locked = true
is_held cleared = true
is_held _ = false

abbrev pub is_processing : Io → Bool
is_processing processing = true
is_processing _ = false

-- `doIO` uses the client.
abbrev pub uses : Life → Bool
uses s = s.dangling || is_gone s.stage

unfoldable pub begin : Bool → Io
begin do_work = if do_work then waiting else resting

unfoldable pub repost : Bool → ℕ → ℕ
repost do_work posted = if do_work then suc posted else posted

pub data Step (s : Life) : Life → Type 0 where
  begins :
      (n : ℕ)
      → s.posted ≡ suc n
      → s.io ≡ resting
      → Step s (record s { posted = n; io = begin s.do_work; dangling = uses s })
  shares :
      s.io ≡ waiting
      → is_held s.stage ≡ false
      → Step s (record s { io = processing; dangling = uses s })
  unshares : s.io ≡ processing → Step s (record s { io = unlocked; dangling = uses s })
  reposts :
      s.io ≡ unlocked
      → Step s (record s { io = resting; posted = repost s.do_work s.posted; dangling = uses s })
  locks : s.stage ≡ living → is_processing s.io ≡ false → Step s (record s { stage = locked })
  clears : s.stage ≡ locked → Step s (record s { do_work = false; stage = cleared })
  destroys : s.stage ≡ cleared → Step s (record s { stage = gone })

pub data Reach : Life → Type 0 where
  starts : Reach create
  goes : (s t : Life) → Reach s → Step s t → Reach t

-- How the two go on from a state.
pub data Steps (s : Life) : Life → Type 0 where
  rests : Steps s s
  goes_on : (t u : Life) → Steps s t → Step t u → Steps s u

abbrev pub busy : Io → ℕ
busy resting = 0
busy _ = 1

-- The calls of `doIO`, posted or begun.
abbrev pub calls : Life → ℕ
calls s = s.posted + busy s.io
