-- ===== src/App/Presented.antt =====
-- What the render loop presents.
use device_tester.Prelude.{
  ℕ, ◌+◌, ◌≡◌, ◌⊎◌, refl, zero, suc, Bool, true, false, not, if◌then◌else◌, Option, some, none,
  List, [], ◌∷◌, ◌++◌, Bytes, Bool-cases, inl, inr, subst, append_assoc, append-nil,
}
use mathlib.Core.Option.{none-ne-some}
use device_tester.RingBuffer.Container.{CircularBuffer}
use device_tester.Asio.{SocketApi}
use device_tester.Asio.SerialPort.{SerialApi}
use device_tester.CoapClient.Library.{CoapApi}
use device_tester.Gui.PluginManager.{Drawn, drawn, threw, out_of_range}
use device_tester.App.Application.{Application, should_run, render_imgui}
use device_tester.App.Vulkan.{
  VkResult, success, suboptimal, out_of_date, other_status, other_error, check_vk_result,
  needs_rebuild, Swapchain, Screen, Turn, poll, Command, acquires, waits_for_fence, resets_fence,
  resets_pool, begins_buffer, records, ends_buffer, submits, presents, updates_platform_windows,
  renders_platform_windows, Rendered, checked, draw_image, frame_render, frame_present, follow,
  Ending, ended, aborted, failed, undefined_behaviour, goes_on, before, turned, resize,
  present_with_others, render_and_present, render_loop, run,
}

-- Each image of the main window that is presented, with a pair of semaphores, was submitted with them by
-- the last command before, but for those for the other windows.
abbrev pub Presented : Option (ℕ × ℕ) → List Command → Type 0
Presented last [] = Unit
Presented last (presents i k ∷ cs) = (last ≡ some (i, k)) × Presented none cs
Presented last (submits i k ∷ cs) = Presented (some (i, k)) cs
Presented last (updates_platform_windows ∷ cs) = Presented last cs
Presented last (renders_platform_windows ∷ cs) = Presented last cs
Presented last (acquires k ∷ cs) = Presented none cs
Presented last (waits_for_fence i ∷ cs) = Presented none cs
Presented last (resets_fence i ∷ cs) = Presented none cs
Presented last (resets_pool i ∷ cs) = Presented none cs
Presented last (begins_buffer i ∷ cs) = Presented none cs
Presented last (records i ∷ cs) = Presented none cs
Presented last (ends_buffer i ∷ cs) = Presented none cs

Presented-after :
    (last : Option (ℕ × ℕ)) (cs : List Command) → Presented none cs → Presented last cs
Presented-after last [] h = tt
Presented-after last (presents i k ∷ cs) (e, h) = absurd (none-ne-some (i, k) e)
Presented-after last (submits i k ∷ cs) h = h
Presented-after last (updates_platform_windows ∷ cs) h = Presented-after last cs h
Presented-after last (renders_platform_windows ∷ cs) h = Presented-after last cs h
Presented-after last (acquires k ∷ cs) h = h
Presented-after last (waits_for_fence i ∷ cs) h = h
Presented-after last (resets_fence i ∷ cs) h = h
Presented-after last (resets_pool i ∷ cs) h = h
Presented-after last (begins_buffer i ∷ cs) h = h
Presented-after last (records i ∷ cs) h = h
Presented-after last (ends_buffer i ∷ cs) h = h

-- Commands after which the last submission is `last`, whatever follows.
abbrev Leads : Option (ℕ × ℕ) → Option (ℕ × ℕ) → List Command → Type 0
Leads last next cs = (ds : List Command) → Presented next ds → Presented last (cs ++ ds)

-- The image of this screen was submitted last, or its swap chain is to be made again.
abbrev IsReady : Option (ℕ × ℕ) → Screen → Type 0
IsReady last s = (s.rebuild ≡ true) ⊎ (last ≡ some (s.wd.frame_index, s.wd.semaphore_index))

abbrev Submits : Rendered → Type 0
Submits (none, cs) = Leads none none cs
Submits (some s, cs) = (last : Option (ℕ × ℕ)) × Leads none last cs × IsReady last s

checked-Submits :
    (cs : List Command) (r : VkResult) (x : Rendered)
    → Leads none none cs
    → Submits x
    → Submits (checked cs r x)
unfolding checked
checked-Submits cs r (none, ds) c h = elim (Bool-cases (check_vk_result r)) [
  | inl e ↦ rw (e, checked) (λ es p. rw (append_assoc cs ds es) (c (ds ++ es) (h es p)))
  | inr e ↦ rw (e, checked) c
]
checked-Submits cs r (some s, ds) c (last, h, ready) = elim (Bool-cases (check_vk_result r)) [
  | inl e ↦
      rw (e, checked) (last, (λ es p. rw (append_assoc cs ds es) (c (ds ++ es) (h es p))), ready)
  | inr e ↦ rw (e, checked) c
]

submitted-Submits :
    (s : Screen) (r : VkResult)
    → Submits (checked (submits s.wd.frame_index s.wd.semaphore_index ∷ []) r (some s, []))
unfolding checked
submitted-Submits s r =
    let last = some (s.wd.frame_index, s.wd.semaphore_index) in
    elim (Bool-cases (check_vk_result r)) [
      | inl e ↦ rw (e, checked) (last, (λ ds h. h), inr refl)
      | inr e ↦ rw (e, checked) (λ ds h. Presented-after last ds h)
    ]

draw_image-Submits :
    (s : Screen) (t : Turn) → Submits (draw_image s.wd.frame_index s.wd.semaphore_index t s)
unfolding draw_image
draw_image-Submits s t =
    let i = s.wd.frame_index in
    checked-Submits (waits_for_fence i ∷ []) t.fence_waited _ (λ ds h. h)
      (checked-Submits (resets_fence i ∷ []) t.fence_reset _ (λ ds h. h)
        (checked-Submits (resets_pool i ∷ []) t.pool_reset _ (λ ds h. h)
          (checked-Submits (begins_buffer i ∷ []) t.begun _ (λ ds h. h)
            (checked-Submits (records i ∷ ends_buffer i ∷ []) t.ended_buffer _ (λ ds h. h)
              (submitted-Submits s t.submitted)))))

-- An image is acquired, and then rendered.
acquired-Submits :
    (s : Screen) (t : Turn) (r : VkResult) (k : ℕ)
    → s.wd.semaphore_index ≡ k
    → Submits (checked (acquires k ∷ []) r (draw_image s.wd.frame_index k t s))
acquired-Submits s t r k e =
    checked-Submits (acquires k ∷ []) r _ (λ ds h. h)
      (subst (λ j. Submits (draw_image s.wd.frame_index j t s)) e (draw_image-Submits s t))

frame_render-Submits :
    (s : Screen) (t : Turn) (r : VkResult) → t.acquired ≡ r → Submits (frame_render s t)
unfolding frame_render needs_rebuild
frame_render-Submits s t suboptimal e = rw (e, frame_render) (none, (λ ds h. h), inl refl)
frame_render-Submits s t out_of_date e = rw (e, frame_render) (none, (λ ds h. h), inl refl)
frame_render-Submits s t other_error e =
    rw (e, frame_render)
      (acquired-Submits (record s { wd = record s.wd { frame_index = t.image } }) _ other_error _
        refl)
frame_render-Submits s t success e =
    rw (e, frame_render)
      (acquired-Submits (record s { wd = record s.wd { frame_index = t.image } }) _ success _ refl)
frame_render-Submits s t other_status e =
    rw (e, frame_render)
      (acquired-Submits (record s { wd = record s.wd { frame_index = t.image } }) _ other_status _
        refl)

checked-Leads :
    (last : Option (ℕ × ℕ)) (cs : List Command) (r : VkResult) (x : Rendered)
    → Leads last last cs
    → Leads last none x.1
    → Leads last none (checked cs r x).1
unfolding checked
checked-Leads last cs r (o, ds) c h = elim (Bool-cases (check_vk_result r)) [
  | inl e ↦ rw (e, checked) (λ es p. rw (append_assoc cs ds es) (c (ds ++ es) (h es p)))
  | inr e ↦ rw (e, checked) (λ es p. c es (Presented-after last es p))
]

frame_present-Leads :
    (last : Option (ℕ × ℕ)) (s : Screen) (t : Turn)
    → IsReady last s
    → Leads last none (frame_present s t).1
unfolding frame_present checked
frame_present-Leads last s t ready = elim (Bool-cases s.rebuild) [
  | inl e ↦ rw (e, frame_present) (λ ds h. Presented-after last ds h)
  | inr e ↦
      let submitted : last ≡ some (s.wd.frame_index, s.wd.semaphore_index) = elim ready [
        | inl f ↦ absurd cc
        | inr f ↦ f
      ] in
      elim (Bool-cases (needs_rebuild t.presented)) [
        | inl n ↦ rw (e, frame_present, n) (λ ds h. (submitted, h))
        | inr n ↦ elim (Bool-cases (check_vk_result t.presented)) [
          | inl c ↦ rw (e, frame_present, n, checked, c) (λ ds h. (submitted, h))
          | inr c ↦ rw (e, frame_present, n, checked, c) (λ ds h. (submitted, h))
        ]
      ]
]

follow-Leads :
    (x : Rendered) (f : Screen → Rendered)
    → Submits x
    → ((last : Option (ℕ × ℕ)) (s : Screen) → IsReady last s → Leads last none (f s).1)
    → Leads none none (follow x f).1
follow-Leads (none, cs) f h k = h
follow-Leads (some s, cs) f (last, h, ready) k =
    λ ds p. rw (append_assoc cs (f s).1 ds) (h ((f s).1 ++ ds) (k last s ready ds p))

if-Leads :
    (b : Bool) (last : Option (ℕ × ℕ)) (x y : Rendered)
    → Leads last none x.1
    → Leads last none y.1
    → Leads last none (if b then x else y).1
if-Leads true last x y h k = h
if-Leads false last x y h k = k

others-Leads :
    (last : Option (ℕ × ℕ)) (t : Turn) (x : Rendered)
    → Leads last none x.1
    → Leads last none
        (if t.viewports
          then checked (updates_platform_windows ∷ renders_platform_windows ∷ []) t.others x
          else x).1
others-Leads last t x h =
    if-Leads t.viewports last
      (checked (updates_platform_windows ∷ renders_platform_windows ∷ []) t.others x) x
      (checked-Leads last (updates_platform_windows ∷ renders_platform_windows ∷ []) t.others x
        (λ ds p. p) h)
      h

present_with_others-Leads :
    (last : Option (ℕ × ℕ)) (s : Screen) (t : Turn)
    → (t.minimized ≡ true) ⊎ IsReady last s
    → Leads last none (present_with_others t s).1
unfolding present_with_others
present_with_others-Leads last s t h = others-Leads last t _ (shown t.minimized refl)
  where
    shown :
        (b : Bool)
        → t.minimized ≡ b
        → Leads last none (if b then (some s, []) else frame_present s t).1
    shown true e = λ ds p. Presented-after last ds p
    shown false e = elim h [ inl f ↦ absurd cc | inr ready ↦ frame_present-Leads last s t ready ]

render_and_present-Leads : (s : Screen) (t : Turn) → Leads none none (render_and_present s t).1
unfolding render_and_present
render_and_present-Leads s t = rendered t.minimized refl
  where
    rendered :
        (b : Bool)
        → t.minimized ≡ b
        → Leads none none
            (follow (if b then (some s, []) else frame_render s t) (present_with_others t)).1
    rendered true e = present_with_others-Leads none s t (inl e)
    rendered false e =
        follow-Leads (frame_render s t) (present_with_others t)
          (frame_render-Submits s t t.acquired refl)
          (λ last s' ready. present_with_others-Leads last s' t (inr ready))

module _ ⦃box : CircularBuffer Bytes⦄ ⦃net : SocketApi⦄ ⦃api : SerialApi⦄ ⦃coap : CoapApi⦄ where
  -- The commands of an ending.
  abbrev pub commands : Ending → List Command
  commands (ended a cs) = cs
  commands (aborted cs) = cs
  commands (failed cs) = cs
  commands (undefined_behaviour cs) = cs
  commands (goes_on cs) = cs

  commands-before : (cs : List Command) (e : Ending) → commands (before cs e) ≡ cs ++ commands e
  commands-before cs (ended a ds) = refl
  commands-before cs (aborted ds) = refl
  commands-before cs (failed ds) = refl
  commands-before cs (undefined_behaviour ds) = refl
  commands-before cs (goes_on ds) = refl

  turned-Presented :
      (d : Drawn Application) (x : Rendered) (k : Application → Screen → Ending)
      → Leads none none x.1
      → ((a : Application) (s : Screen) → Presented none (commands (k a s)))
      → Presented none (commands (turned d x k))
  turned-Presented threw x k g h = tt
  turned-Presented out_of_range x k g h = tt
  turned-Presented (drawn a) (none, cs) k g h = subst (Presented none) (append-nil cs) (g [] tt)
  turned-Presented (drawn a) (some s, cs) k g h =
      rw (commands-before cs (k a s)) (g (commands (k a s)) (h a s))

  if-Presented :
      (b : Bool) (a : Application) (e : Ending)
      → Presented none (commands e)
      → Presented none (commands (if b then ended a [] else e))
  if-Presented true a e h = tt
  if-Presented false a e h = h

  module _ (create_or_resize : Swapchain → ℕ → ℕ → Swapchain) where
    loop-Presented :
        (fuel main i : ℕ) (turns : ℕ → Turn) (a : Application) (s : Screen)
        → Presented none (commands (render_loop create_or_resize fuel main i turns a s))
    unfolding render_loop
    loop-Presented zero main i turns a s = tt
    loop-Presented (suc fuel) main i turns a s = if-Presented (not (should_run a)) a _ (
        turned-Presented (render_imgui (poll main (turns i).events a) (turns i).ui)
          (render_and_present (resize create_or_resize s (turns i)) (turns i))
          (render_loop create_or_resize fuel main (i + 1) turns)
          (render_and_present-Leads (resize create_or_resize s (turns i)) (turns i))
          (λ a' s'. loop-Presented fuel main (i + 1) turns a' s'))

    -- However the program runs, also if it is aborted in the middle of a turn: every image of the main
    -- window that `FramePresent` asks Vulkan to present was submitted for rendering, with the same pair
    -- of semaphores, and between the two there is nothing but ImGui's update and rendering of its other
    -- windows.
    pub run-Presented :
        (fuel main : ℕ) (turns : ℕ → Turn) (a : Application) (s : Screen) (set_up : Option Bool)
        → Presented none (commands (run create_or_resize fuel main turns a s set_up))
    unfolding run
    run-Presented fuel main turns a s none = tt
    run-Presented fuel main turns a s (some b) =
        loop-Presented fuel main 0 turns (record a { run_render_loop = true }) s
