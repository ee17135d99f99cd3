-- ===== src/Gui/Editing.antt =====
-- What the settings of a window promise: the options that it shows and those of its connection.
pub mod Clients
pub mod Server
mod Tests
use device_tester.Prelude.{◌≡◌, refl, sym, Bool, true, false, ◌||◌, if◌then◌else◌}
use mathlib.Core.Bool.{false≢true}

-- Drawing the settings of a window, which shows options, leaves the connection with options. `edited` are
-- what the inputs hold; `starts` is a button that sets them as well.
pub record IsEditor {State Frame Opts : Type 0} (draw : State → Frame → State)
    (shown current : State → Opts) (edited : State → Frame → Opts)
    (apply reset starts : Frame → Bool) : Type 0 where
  pub agrees :
      (s : State) (f : Frame) → (apply f || reset f) ≡ true → shown (draw s f) ≡ current (draw s f)
  pub shows : (s : State) (f : Frame) → reset f ≡ false → shown (draw s f) ≡ edited s f
  pub keeps :
      (s : State) (f : Frame) → apply f ≡ false → starts f ≡ false → current (draw s f) ≡ current s

-- What both branches of a test have.
pub if_both :
    {A B : Type 0} (of : A → B) (b : Bool) (x y : A) (z : B)
    → of x ≡ z
    → of y ≡ z
    → of (if b then x else y) ≡ z
if_both of true x y z e f = e
if_both of false x y z e f = f

pub if_yes :
    {A B : Type 0} (of : A → B) (b : Bool) (x y : A) → b ≡ true → of (if b then x else y) ≡ of x
if_yes of b x y h = rw h refl

pub if_no :
    {A B : Type 0} (of : A → B) (b : Bool) (x y : A) → b ≡ false → of (if b then x else y) ≡ of y
if_no of b x y h = rw h refl

-- If the options are set first and then read back, or else edited, then both sides have the same.
pub set_then_reset :
    {A : Type 0} (apply reset : Bool) (current edited : A)
    → (apply || reset) ≡ true
    → (apply ≡ true → current ≡ edited)
    → (if reset then current else edited) ≡ current
set_then_reset apply true current edited h e = refl
set_then_reset true false current edited h e = sym (e refl)
set_then_reset false false current edited h e = absurd (false≢true h)
