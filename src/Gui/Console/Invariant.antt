-- ===== src/Gui/Console/Invariant.antt =====
-- Each console hears each call of the signal once: the slots of the consoles before it are gone.
use device_tester.Prelude.{
  ℕ, ◌<◌, suc, ◌≡◌, refl, ap, sym, subst, ◌∙◌, Option, some, none, List, [], ◌∷◌, ◌++◌, concat,
  append_assoc, append-nil, Bytes, arith,
}
use device_tester.Gui.RawData.{
  connect_send, RawDataWin, Frame, add_data, update_content, options_popup, input_line,
}
use device_tester.Gui.RawData
use mathlib.Core.Option.{none-ne-some}
use device_tester.Gui.Console.{
  Grows, ◌>>=◌, toggles, draws, happens, signal, Event, draw, draw_tab_details, happen, Device,
  Console, create, connect, hear, hear_all, step, run, news,
}

abbrev pub AllBelow : ℕ → List ℕ → Type 0
AllBelow n [] = Unit
AllBelow n (k ∷ ks) = (k < n) × AllBelow n ks

AllBelow-weaken : (n : ℕ) (ks : List ℕ) → AllBelow n ks → AllBelow (suc n) (ks ++ n ∷ [])
AllBelow-weaken n [] h = (omega arith, tt)
AllBelow-weaken n (k ∷ ks) (l, h) = (omega (arith, l), AllBelow-weaken n ks h)

abbrev pub grown : RawDataWin → Bytes → RawDataWin
grown w bytes = record w { data_bytes = w.data_bytes ++ bytes }

hear-lem :
    (number : ℕ) (olds : List ℕ) (w : RawDataWin) (bytes : Bytes)
    → AllBelow number olds
    → hear number (olds ++ number ∷ []) w bytes ≡ grown w bytes
unfolding hear add_data
hear-lem number [] w bytes h = ground arith
hear-lem number (k ∷ ks) w bytes (l, h) = ground (arith, l, hear-lem number ks w bytes h)

grown-concat :
    (w : RawDataWin) (bytes : Bytes) (more : List Bytes)
    → grown (grown w bytes) (concat more) ≡ grown w (bytes ++ concat more)
grown-concat w bytes more =
    ap (λ b. record w { data_bytes = b }) (append_assoc w.data_bytes bytes (concat more))

pub hear_all-lem :
    (number : ℕ) (olds : List ℕ) (w : RawDataWin) (chunks : List Bytes)
    → AllBelow number olds
    → hear_all number (olds ++ number ∷ []) w chunks ≡ grown w (concat chunks)
unfolding hear_all
hear_all-lem number olds w [] h =
    ap (λ b. record w { data_bytes = b }) (sym (append-nil w.data_bytes))
hear_all-lem number olds w (bytes ∷ more) h =
    ap (λ v. hear_all number (olds ++ number ∷ []) v more) (hear-lem number olds w bytes h)
    ∙ hear_all-lem number olds (grown w bytes) more h
    ∙ grown-concat w bytes more

pub unchanged : (old now : List Bytes) → now ≡ old → Grows old now
unchanged old now e = ([], e ∙ sym (append-nil old))

pub frame-slots : (w : RawDataWin) (f : Frame) → (update_content w f).slots ≡ w.slots
unfolding update_content options_popup input_line
frame-slots w f = ground arith

pub some-inj {ℓ} : {A : Type ℓ} (a b : A) → some a ≡ some b → a ≡ b
some-inj a b e = cc

pub bind-some :
    {A B : Type 0} (o : Option A) (k : A → Option B) (b : B)
    → (o >>= k) ≡ some b
    → (a : A) × (o ≡ some a) × (k a ≡ some b)
bind-some none k b e = absurd (none-ne-some b e)
bind-some (some a) k b e = (a, refl, e)

module _ (device : Device) where
  abbrev pub without_console : device.State → ℕ → List ℕ → Console device
  without_console c number slots = record {
    connection = c;
    raw_win = none;
    number = number;
    slots = slots;
  }

  abbrev pub with_console : device.State → RawDataWin → ℕ → List ℕ → Console device
  with_console c w number olds = record {
    connection = c;
    raw_win = some w;
    number = number;
    slots = olds ++ number ∷ [];
  }

  -- A console that is there has the last of the slots, and all before it are of older ones; what it sends
  -- goes to the connection once.
  pub data Inv : Console device → Type 0 where
    closed :
        (c : device.State) (number : ℕ) (slots : List ℕ)
        → AllBelow (suc number) slots
        → Inv (without_console c number slots)
    opened :
        (c : device.State) (w : RawDataWin) (number : ℕ) (olds : List ℕ)
        → AllBelow number olds
        → w.slots ≡ 0 ∷ []
        → Inv (with_console c w number olds)

  some-Inv : (s t : Console device) → Inv s → some s ≡ some t → Inv t
  some-Inv s t i e = subst Inv (some-inj s t e) i

  toggle-Inv : (s : Console device) → Inv s → Inv (draw_tab_details device s)
  unfolding draw_tab_details connect connect_send RawData.create
  toggle-Inv _ (closed c number slots h) = opened c connect (suc number) slots h refl
  toggle-Inv _ (opened c w number olds h e) =
      closed c number (olds ++ number ∷ []) (AllBelow-weaken number olds h)

  happen-Inv : (s t : Console device) (e : device.Call) → Inv s → happen device s e ≡ some t → Inv t
  unfolding happen
  happen-Inv _ t e (closed c number slots h) f =
      let (d, g, k) = bind-some (device.step c e) _ t f in some-Inv _ t (closed d number slots h) k
  happen-Inv _ t e (opened c w number olds h l) f =
      let (d, g, k) = bind-some (device.step c e) _ t f in
      some-Inv _ t
        (opened d (hear_all number (olds ++ number ∷ []) w (news device c d)) number olds h
          (ap (λ v. v.slots) (hear_all-lem number olds w (news device c d) h) ∙ l))
        k

  draw-Inv : (s t : Console device) (f : Frame) → Inv s → draw device s f ≡ some t → Inv t
  unfolding draw
  draw-Inv _ t f (closed c number slots h) e = some-Inv _ t (closed c number slots h) e
  draw-Inv _ t f (opened c w number olds h l) e =
      let (d, g, k) = bind-some (signal device w.slots _ c) _ t e in
      some-Inv _ t (opened d (update_content w f) number olds h (frame-slots w f ∙ l)) k

  step-Inv : (s t : Console device) (e : Event device) → Inv s → step device s e ≡ some t → Inv t
  unfolding step
  step-Inv s t toggles i e = some-Inv _ t (toggle-Inv s i) e
  step-Inv s t (happens c) i e = happen-Inv s t c i e
  step-Inv s t (draws f) i e = draw-Inv s t f i e

  pub run-Inv :
      (es : List (Event device)) (s t : Console device) → Inv s → run device s es ≡ some t → Inv t
  unfolding run
  run-Inv [] s t i e = some-Inv s t i e
  run-Inv (e ∷ es) s t i f =
      let (u, g, k) = bind-some (step device s e) _ t f in run-Inv es u t (step-Inv s u e i g) k

  pub create-Inv : (c : device.State) → Inv (create device c)
  unfolding create
  create-Inv c = closed c 0 [] tt
