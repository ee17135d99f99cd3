-- ===== src/Gui/Console/Shown.antt =====
-- What a console shows of its connection, and what it sends over it.
use device_tester.Prelude.{
  done, blocked, out_of_range, ℕ, ◌≡◌, inl, inr, Bool-cases, refl, ap, sym, subst, ◌∙◌, true, false,
  ◌&&◌, Option, some, none, List, [], ◌∷◌, ◌++◌, length, drop, concat, concat-append, append_assoc,
  append-nil, Bytes,
}
use device_tester.Gui.RawData.{RawDataWin, Frame, update_content, frame-data}
use mathlib.Core.Option.{none-ne-some}
use device_tester.Gui.Console.{
  Attempt, Device, Console, Event, toggles, happens, draws, create, returned, ◌>>=◌, news, step,
  run,
}
use device_tester.Gui.Console.Invariant.{
  some-inj, AllBelow, grown, frame-slots, bind-some, with_console, Inv, closed, opened, run-Inv,
  create-Inv,
}
use device_tester.Gui.Console.Drawing.{
  drop-append, bind-map, frame-draw, happen-lem, drive-frame, is_typed, drive, done_to, AllKeep,
  drawn_on,
}

module _ (device : Device) where
  abbrev connection_of : Option (Console device) → Option device.State
  connection_of o = o >>= λ t. some t.connection

  through :
      (o : Option device.State) (v : device.State → Console device)
      (rest : device.State → Option device.State) (es : List (Event device))
      → ((t : device.State) → connection_of (run device (v t) es) ≡ rest t)
      → connection_of ((o >>= λ t. some (v t)) >>= λ u. run device u es) ≡ (o >>= rest)
  through none v rest es h = refl
  through (some t) v rest es h = h t

  -- Over the events, the connection goes where these take it, and does not come back when it does not.
  run-drive :
      (es : List (Event device)) (c : device.State) (w : RawDataWin) (number : ℕ) (olds : List ℕ)
      → AllBelow number olds
      → w.slots ≡ 0 ∷ []
      → AllKeep device es
      → connection_of (run device (with_console device c w number olds) es)
        ≡ drive device c (done_to device es)
  unfolding run step drive
  run-drive [] c w number olds h e k = refl
  run-drive (toggles ∷ es) c w number olds h e k = absurd k
  run-drive (happens x ∷ es) c w number olds h e k =
      ap (λ o. connection_of (o >>= λ u. run device u es)) (happen-lem device c w number olds x h)
      ∙ through (device.step c x) _ _ es
          (λ t. run-drive es t (grown w (concat (news device c t))) number olds h e k)
  run-drive (draws f ∷ es) c w number olds h e (q, k) =
      ap (λ o. connection_of (o >>= λ u. run device u es)) (frame-draw device c w number olds f e)
      ∙ through (drawn_on device f c) _ _ es
          (λ t. run-drive es t (update_content w f) number olds h (frame-slots w f ∙ e) k)
      ∙ sym (drive-frame device c f es)

  -- The console shows what it did and what was received since.
  abbrev Grown : device.State → RawDataWin → Console device → Type 0
  Grown c w t =
      (v : RawDataWin) × (new : List Bytes) × (t.raw_win ≡ some v)
      × (device.received t.connection ≡ device.received c ++ new)
      × (v.data_bytes ≡ w.data_bytes ++ concat new)

  Grown-after :
      (c d : device.State) (w x : RawDataWin) (t : Console device) (old : List Bytes)
      → device.received d ≡ device.received c ++ old
      → x.data_bytes ≡ w.data_bytes ++ concat old
      → Grown d x t
      → Grown c w t
  Grown-after c d w x t old r b (v, new, e, s, f) = (
    v,
    old ++ new,
    e,
    s ∙ ap (λ l. l ++ new) r ∙ append_assoc (device.received c) old new,
    f
        ∙ ap (λ l. l ++ concat new) b
        ∙ append_assoc w.data_bytes (concat old) (concat new)
        ∙ ap (λ l. w.data_bytes ++ l) (sym (concat-append old new)),
  )

  returned-done : (o : Attempt device.State) (d : device.State) → returned o ≡ some d → o ≡ done d
  returned-done (done a) d e = cc
  returned-done blocked d e = absurd (none-ne-some d e)
  returned-done out_of_range d e = absurd (none-ne-some d e)

  drawn-typed :
      (f : Frame) (c : device.State)
      → is_typed f ≡ true
      → drawn_on device f c ≡ returned (device.send c f.text)
  drawn-typed f c h = rw h refl

  drawn-quiet : (f : Frame) (c : device.State) → is_typed f ≡ false → drawn_on device f c ≡ some c
  drawn-quiet f c h = rw h refl

  received-drawn :
      (f : Frame) (c d : device.State)
      → drawn_on device f c ≡ some d
      → device.received d ≡ device.received c ++ []
  received-drawn f c d e = elim (Bool-cases (is_typed f)) [
    | inl h ↦
        device.received-send c d f.text
          (returned-done (device.send c f.text) d (sym (drawn-typed f c h) ∙ e))
        ∙ sym (append-nil (device.received c))
    | inr h ↦
        ap device.received (sym (some-inj c d (sym (drawn-quiet f c h) ∙ e)))
        ∙ sym (append-nil (device.received c))
  ]

  happened-data :
      (c d : device.State) (w : RawDataWin) (new : List Bytes)
      → device.received d ≡ device.received c ++ new
      → (grown w (concat (news device c d))).data_bytes ≡ w.data_bytes ++ concat new
  happened-data c d w new r =
      ap (λ l. w.data_bytes ++ concat l)
        (ap (λ l. drop (length (device.received c)) l) r ∙ drop-append (device.received c) new)

  drawn-data :
      (w : RawDataWin) (f : Frame)
      → (f.popup && f.clear) ≡ false
      → (update_content w f).data_bytes ≡ w.data_bytes ++ []
  drawn-data w f k = rw (frame-data w f, k) (sym (append-nil w.data_bytes))

  run-Grown :
      (es : List (Event device)) (c : device.State) (w : RawDataWin) (number : ℕ) (olds : List ℕ)
      (t : Console device)
      → AllBelow number olds
      → w.slots ≡ 0 ∷ []
      → AllKeep device es
      → run device (with_console device c w number olds) es ≡ some t
      → Grown c w t
  unfolding run step
  run-Grown [] c w number olds t h e k r =
      subst (Grown c w) (some-inj _ t r)
        (w, [], refl, sym (append-nil (device.received c)), sym (append-nil w.data_bytes))
  run-Grown (toggles ∷ es) c w number olds t h e k r = absurd k
  run-Grown (happens x ∷ es) c w number olds t h e k r =
      let (d, g, r') =
        bind-some (device.step c x)
          (λ d.
            run device (with_console device d (grown w (concat (news device c d))) number olds) es)
          t
          (bind-map (device.step c x) _ (λ u. run device u es)
            ∙ sym (ap (λ o. o >>= λ u. run device u es) (happen-lem device c w number olds x h))
            ∙ r) in
      let (new, n) = device.received-step c d x g in
      Grown-after c d w (grown w (concat (news device c d))) t new n (happened-data c d w new n)
        (run-Grown es d (grown w (concat (news device c d))) number olds t h e k r')
  run-Grown (draws f ∷ es) c w number olds t h e (q, k) r =
      let (d, g, r') =
        bind-some (drawn_on device f c)
          (λ d. run device (with_console device d (update_content w f) number olds) es) t
          (bind-map (drawn_on device f c) _ (λ u. run device u es)
            ∙ sym (ap (λ o. o >>= λ u. run device u es) (frame-draw device c w number olds f e))
            ∙ r) in
      Grown-after c d w (update_content w f) t [] (received-drawn f c d g) (drawn-data w f q)
        (run-Grown es d (update_content w f) number olds t h (frame-slots w f ∙ e) k r')

  abbrev Shows : List (Event device) → Console device → RawDataWin → Console device → Type 0
  Shows fs s w t =
      (drive device s.connection (done_to device fs) ≡ some t.connection)
      × (v : RawDataWin) × (t.raw_win ≡ some v)
      × (v.data_bytes ≡ w.data_bytes ++ concat (news device s.connection t.connection))

  shows :
      (fs : List (Event device)) (s t : Console device) (w : RawDataWin)
      → Inv device s
      → s.raw_win ≡ some w
      → AllKeep device fs
      → run device s fs ≡ some t
      → Shows fs s w t
  shows fs _ t w (closed c number slots h) e k r = absurd (none-ne-some w e)
  shows fs _ t w (opened c x number olds h l) e k r =
      let (v, new, g, n, d) = run-Grown fs c x number olds t h l k r in
      (
        sym (run-drive fs c x number olds h l k) ∙ ap connection_of r,
        v,
        g,
        d
            ∙ ap (λ b. b.data_bytes ++ concat new) (some-inj x w e)
            ∙ ap (λ l. w.data_bytes ++ concat l)
                (sym (
                  ap (λ l. drop (length (device.received c)) l) n
                  ∙ drop-append (device.received c) new)),
      )

  -- After any events from the start, over which a console came to be there, let more follow that neither
  -- close nor clear it, and let the window come back from them: the connection went through exactly the
  -- texts that were to be sent and were not empty, each once, and what else happened to it, in order,
  -- and the console shows what it did before and then exactly the bytes that the connection received
  -- since, in order and once, however often a console was opened before.
  pub run-Shows :
      (c : device.State) (es fs : List (Event device)) (s t : Console device) (w : RawDataWin)
      → run device (create device c) es ≡ some s
      → s.raw_win ≡ some w
      → AllKeep device fs
      → run device s fs ≡ some t
      → (drive device s.connection (done_to device fs) ≡ some t.connection)
        × (v : RawDataWin) × (t.raw_win ≡ some v)
        × (v.data_bytes ≡ w.data_bytes ++ concat (news device s.connection t.connection))
  run-Shows c es fs s t w r e k q =
      shows fs s t w (run-Inv device es (create device c) s (create-Inv device c) r) e k q
