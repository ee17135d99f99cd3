-- ===== src/Gui/Console/Drawing.antt =====
-- What a frame of a console and what happens to its connection come to.
use device_tester.Prelude.{
  drop_all, ℕ, ltb, ◌≡◌, ◌⊎◌, inl, inr, Bool-cases, refl, ap, ◌∙◌, Bool, false, ◌&&◌, if◌then◌else◌,
  Option, some, none, List, [], ◌∷◌, ◌++◌, length, drop, concat, Bytes, arith,
}
use device_tester.Gui.RawData.{RawDataWin, Frame, update_content, frame-sent}
use device_tester.Gui.Console.{
  Device, Event, toggles, happens, draws, returned, ◌>>=◌, news, happen, send_all, signal, draw,
}
use device_tester.Gui.Console.Invariant.{AllBelow, grown, hear_all-lem, with_console}

pub drop-append {ℓ} : {A : Type ℓ} (xs ys : List A) → drop (length xs) (xs ++ ys) ≡ ys
drop-append [] ys = refl
drop-append (x ∷ xs) ys = drop-append xs ys

pub bind-return : {A : Type 0} (o : Option A) → (o >>= λ a. some a) ≡ o
bind-return none = refl
bind-return (some a) = refl

pub bind-cong :
    {A B : Type 0} (o : Option A) (k l : A → Option B)
    → ((a : A) → k a ≡ l a)
    → (o >>= k) ≡ (o >>= l)
bind-cong none k l h = refl
bind-cong (some a) k l h = h a

pub bind-map :
    {A B C : Type 0} (o : Option A) (v : A → B) (k : B → Option C)
    → (o >>= λ a. k (v a)) ≡ ((o >>= λ a. some (v a)) >>= k)
bind-map none v k = refl
bind-map (some a) v k = refl

abbrev pub is_typed : Frame → Bool
is_typed f = f.send && ltb 0 (length f.text)

pub frame-drop :
    (w : RawDataWin) (f : Frame)
    → drop (length w.sent) (update_content w f).sent ≡ (if is_typed f then f.text ∷ [] else [])
frame-drop w f = elim (Bool-cases (is_typed f)) [
  | inl e ↦ rw (frame-sent w f, e) (drop-append w.sent (f.text ∷ []))
  | inr e ↦ rw (frame-sent w f, e) (drop_all (length w.sent) w.sent (omega arith))
]

module _ (device : Device) where
  -- What is done to the connection: a text is sent, or something else happens to it.
  unfoldable pub drive : device.State → List (Bytes ⊎ device.Call) → Option device.State
  drive c [] = some c
  drive c (inl text ∷ os) = do t ← returned (device.send c text); drive t os
  drive c (inr e ∷ os) = do t ← device.step c e; drive t os

  -- While a console is there and nothing of it is cleared, the texts that were to be sent and were not
  -- empty, and what else happens.
  abbrev pub done_to : List (Event device) → List (Bytes ⊎ device.Call)
  done_to [] = []
  done_to (toggles ∷ es) = done_to es
  done_to (happens c ∷ es) = inr c ∷ done_to es
  done_to (draws f ∷ es) = if is_typed f then inl f.text ∷ done_to es else done_to es

  abbrev pub AllKeep : List (Event device) → Type 0
  AllKeep [] = Unit
  AllKeep (toggles ∷ es) = ⊥
  AllKeep (happens c ∷ es) = AllKeep es
  AllKeep (draws f ∷ es) = ((f.popup && f.clear) ≡ false) × AllKeep es

  pub signal-lem :
      (texts : List Bytes) (c : device.State)
      → signal device (0 ∷ []) texts c ≡ send_all device texts c
  unfolding signal
  signal-lem texts c = bind-return (send_all device texts c)

  pub send-text :
      (text : Bytes) (c : device.State)
      → send_all device (text ∷ []) c ≡ returned (device.send c text)
  unfolding send_all
  send-text text c = bind-return (returned (device.send c text))

  pub send-none : (c : device.State) → send_all device [] c ≡ some c
  unfolding send_all
  send-none c = refl

  -- What a frame does to the connection.
  abbrev pub drawn_on : Frame → device.State → Option device.State
  drawn_on f c = if is_typed f then returned (device.send c f.text) else some c

  pub send_all-lem :
      (f : Frame) (c : device.State)
      → send_all device (if is_typed f then f.text ∷ [] else []) c ≡ drawn_on f c
  send_all-lem f c = elim (Bool-cases (is_typed f)) [
    | inl h ↦ rw h (send-text f.text c)
    | inr h ↦ rw h (send-none c)
  ]

  pub frame-draw :
      (c : device.State) (w : RawDataWin) (number : ℕ) (olds : List ℕ) (f : Frame)
      → w.slots ≡ 0 ∷ []
      → draw device (with_console device c w number olds) f
        ≡ (drawn_on f c >>= λ t. some (with_console device t (update_content w f) number olds))
  unfolding draw
  frame-draw c w number olds f e =
      ap (λ o. o >>= λ t. some (with_console device t (update_content w f) number olds))
        (ap (λ slots. signal device slots (drop (length w.sent) (update_content w f).sent) c) e
          ∙ ap (λ texts. signal device (0 ∷ []) texts c) (frame-drop w f)
          ∙ signal-lem (if is_typed f then f.text ∷ [] else []) c
          ∙ send_all-lem f c)

  pub happen-lem :
      (c : device.State) (w : RawDataWin) (number : ℕ) (olds : List ℕ) (e : device.Call)
      → AllBelow number olds
      → happen device (with_console device c w number olds) e ≡ (
          device.step c e >>= λ t.
          some (with_console device t (grown w (concat (news device c t))) number olds))
  unfolding happen
  happen-lem c w number olds e h = bind-cong (device.step c e) _ _ (λ t.
      ap (λ v. some (with_console device t v number olds))
        (hear_all-lem number olds w (news device c t) h))

  pub drive-frame :
      (c : device.State) (f : Frame) (es : List (Event device))
      → drive c (done_to (draws f ∷ es)) ≡ (drawn_on f c >>= λ t. drive t (done_to es))
  unfolding drive
  drive-frame c f es = elim (Bool-cases (is_typed f)) [
    | inl h ↦ rw (h, drive) refl
    | inr h ↦ rw (h, drive) refl
  ]
