-- ===== src/App/Lifetime.antt =====
-- What the setup makes, and that the cleanup destroys it.
use device_tester.Prelude.{
  Bool-cases, ap, ◌∙◌, sym, arith, ℕ, Bool, true, false, ◌≡◌, ◌⊎◌, refl, inl, inr, if◌then◌else◌,
  some, none, List, [], ◌∷◌, Bytes,
}
use mathlib.Core.Bool.{false≢true}
use device_tester.App.Machine.{
  make, when, follow, Machine, sdl, window, vk_instance, debug_report, device, descriptor_pool,
  surface, vulkan_window, imgui_context, sdl_backend, vulkan_backend, font_upload, plot_context,
  Call, makes, destroys, Result, returned, refused, died, undefined, checked,
}
use device_tester.App.Resources.{remaining}
use device_tester.App.Posts.{
  Post, Leaves, set_up, follow-Post, returned_step, refuse_step, when-Post, setup_vulkan-Post,
  window-Post, upload-Post,
}
use device_tester.RingBuffer.Container.{CircularBuffer}
use device_tester.Asio.{SocketApi}
use device_tester.Asio.SerialPort.{SerialApi}
use device_tester.CoapClient.Library.{CoapApi}
use device_tester.App.Application.{Application}
use device_tester.App.Vulkan.{
  Swapchain, Screen, Turn, Ending, ended, aborted, failed, undefined_behaviour, goes_on,
}
use device_tester.App.Setup.{
  early_return, close, after_setup, destroy_all, cleanup_vulkan, exited, cleanup_vulkan_window,
  exits, setup_vulkan, setup_vulkan_window, upload_fonts, prepare, setup, cleanup, program,
}

-- The calls before the surface, with a window or without, and those of a setup that comes to its end.
abbrev begun : Bool → Bool → List Call
begun debug windowed =
    let cs = makes sdl ∷ [] in set_up debug (if windowed then makes window ∷ cs else cs)

abbrev made : Bool → Bool → List Call
made debug windowed =
    destroys font_upload
    ∷ makes font_upload
    ∷ makes vulkan_backend
    ∷ makes sdl_backend
    ∷ makes imgui_context
    ∷ makes vulkan_window
    ∷ makes surface
    ∷ begun debug windowed

abbrev Refused : Machine → List Call → Type 0
Refused m cs = (cs ≡ []) ⊎ (cs ≡ begun m.debug m.create_window)

abbrev Made : Machine → Bool → List Call → Type 0
Made m b cs =
    (b ≡ true) × (m.create_surface m.create_window ≡ true) × (cs ≡ made m.debug m.create_window)

made-Post :
    (m : Machine)
    → m.create_surface m.create_window ≡ true
    → Post (Made m) (Refused m) (returned true, made m.debug m.create_window)
unfolding Post
made-Post m e = (refl, e, refl)

prepare-Post : (m : Machine) → Post (Made m) (Refused m) (prepare m [])
unfolding prepare
prepare-Post m = refuse_step _ _ _ m.sdl_init [] (inl refl) (λ on. returned_step _ _ _ tt _ (
    follow-Post _ _ _ _ (when m.create_window (make window) _)
      (when-Post _ m.create_window window _)
      (λ u. follow-Post _ _ _ _ (setup_vulkan m _) (setup_vulkan-Post m _ _) (λ chosen.
        refuse_step _ _ _ (m.create_surface m.create_window) _ (inr refl) (λ surfaced.
          returned_step _ _ _ tt _ (
            follow-Post _ _ _ _ (setup_vulkan_window m _ _ _) (window-Post m _ _ _ _) (λ u.
              returned_step _ _ _ tt _ (
                returned_step _ _ _ tt _ (
                  returned_step _ _ _ tt _ (
                    follow-Post _ _ _ _ (upload_fonts m _) (upload-Post m _ _)
                      (λ u. made-Post m surfaced)))))))))))

abbrev cleaned : Bool → List Call → List Call
cleaned debug cs =
    let ds =
      destroys descriptor_pool
      ∷ destroys surface
      ∷ destroys vulkan_window
      ∷ destroys imgui_context
      ∷ destroys sdl_backend
      ∷ destroys vulkan_backend
      ∷ cs in
    destroys sdl
    ∷ destroys window
    ∷ destroys vk_instance
    ∷ destroys device
    ∷ (if debug then destroys debug_report ∷ ds else ds)

cleanup-Post :
    (m : Machine) (cs : List Call)
    → m.destroy_window ≡ vulkan_window ∷ surface ∷ []
    → Post (Leaves (cleaned m.debug cs)) (λ ds. ⊥) (cleanup m cs)
unfolding cleanup checked cleanup_vulkan_window cleanup_vulkan destroy_all Post follow
cleanup-Post m cs e = ground (arith, e)

exits-lem :
    (ds es : List Call) (rc : Result Unit × List Call)
    → Post (Leaves ds) (λ ds. ⊥) rc
    → exits rc ≡ exited es
    → es ≡ ds
unfolding Post
exits-lem ds es (returned u, cs) h e = cc
exits-lem ds es (refused, cs) h e = absurd h
exits-lem ds es (died, cs) h e = absurd cc
exits-lem ds es (undefined, cs) h e = absurd cc

-- What is left of a program that was set up, and of one that was not.
remaining-made :
    (debug : Bool)
    → remaining (cleaned debug (makes plot_context ∷ made debug true)) ≡ some (plot_context ∷ [])
remaining-made true = refl
remaining-made false = refl

remaining-begun :
    (debug windowed : Bool)
    → remaining (cleaned debug (makes plot_context ∷ begun debug windowed)) ≡ none
remaining-begun true true = refl
remaining-begun true false = refl
remaining-begun false true = refl
remaining-begun false false = refl

remaining-nothing : (debug : Bool) → remaining (cleaned debug (makes plot_context ∷ [])) ≡ none
remaining-nothing true = refl
remaining-nothing false = refl

-- How the setup ended, and what is left after all calls.
abbrev pub Outcome : Machine → List Call → Type 0
Outcome m cs =
    (((setup m []).0 ≡ returned true) × (remaining cs ≡ some (plot_context ∷ [])))
    ⊎ (((setup m []).0 ≡ returned false) × (remaining cs ≡ none))

windowed :
    (m : Machine)
    → m.create_surface false ≡ false
    → m.create_surface m.create_window ≡ true
    → m.create_window ≡ true
windowed m h e = elim (Bool-cases m.create_window) [
  | inl w ↦ w
  | inr w ↦ absurd (false≢true (sym h ∙ ap m.create_surface (sym w) ∙ e))
]

-- After a `return false` the cleanup destroys what was never made.
Refused-remaining :
    (m : Machine) (cs es : List Call)
    → Refused m cs
    → es ≡ cleaned m.debug (makes plot_context ∷ cs)
    → remaining es ≡ none
Refused-remaining m cs es (inl e) h =
    ap remaining (h ∙ ap (λ ds. cleaned m.debug (makes plot_context ∷ ds)) e)
    ∙ remaining-nothing m.debug
Refused-remaining m cs es (inr e) h =
    ap remaining (h ∙ ap (λ ds. cleaned m.debug (makes plot_context ∷ ds)) e)
    ∙ remaining-begun m.debug m.create_window

Made-remaining :
    (m : Machine) (cs es : List Call)
    → m.create_window ≡ true
    → cs ≡ made m.debug m.create_window
    → es ≡ cleaned m.debug (makes plot_context ∷ cs)
    → remaining es ≡ some (plot_context ∷ [])
Made-remaining m cs es w e h =
    ap remaining
      (h ∙ ap (λ ds. cleaned m.debug (makes plot_context ∷ ds)) (e ∙ ap (made m.debug) w))
    ∙ remaining-made m.debug

module _ ⦃box : CircularBuffer Bytes⦄ ⦃net : SocketApi⦄ ⦃api : SerialApi⦄ ⦃coap : CoapApi⦄ where
  -- Only a loop that has ended is cleaned up after.
  close-lem :
      (m : Machine) (cs es : List Call) (looped : Ending)
      → m.destroy_window ≡ vulkan_window ∷ surface ∷ []
      → close m cs looped ≡ exited es
      → es ≡ cleaned m.debug cs
  unfolding close
  close-lem m cs es (ended a ds) d e = exits-lem _ es (cleanup m cs) (cleanup-Post m cs d) e
  close-lem m cs es (aborted ds) d e = absurd cc
  close-lem m cs es (failed ds) d e = absurd cc
  close-lem m cs es (undefined_behaviour ds) d e = absurd cc
  close-lem m cs es (goes_on ds) d e = absurd cc

  abbrev Said : Result Bool × List Call → List Call → Type 0
  Said rc es =
      ((rc.0 ≡ returned true) × (remaining es ≡ some (plot_context ∷ [])))
      ⊎ ((rc.0 ≡ returned false) × (remaining es ≡ none))

  after_setup-lem :
      (m : Machine) (looped : Bool → Ending) (es : List Call) (rc : Result Bool × List Call)
      → m.create_surface false ≡ false
      → m.destroy_window ≡ vulkan_window ∷ surface ∷ []
      → Post (Made m) (Refused m) rc
      → after_setup m looped (early_return rc) ≡ exited es
      → Said (early_return rc) es
  unfolding Post
  after_setup-lem m looped es (returned b, cs) w d (r, s, c) e =
      inl
        (ap returned r, Made-remaining m cs es (windowed m w s) c (close-lem m _ es (looped b) d e))
  after_setup-lem m looped es (refused, cs) w d p e =
      inr (refl, Refused-remaining m cs es p (close-lem m _ es (looped false) d e))
  after_setup-lem m looped es (died, cs) w d p e = absurd cc
  after_setup-lem m looped es (undefined, cs) w d p e = absurd cc

  -- For a program that comes to its end, where no surface is made without a window and the drawing library
  -- destroys its window before the surface that it was given: if the setup returned true, then every
  -- object was made once and from objects that were there, each was destroyed while it was there and
  -- before those that it was made from, and of all of them only the context of the plots is left. If the
  -- setup returned false, the calls break these rules. There is no third case.
  pub program-Outcome :
      (create_or_resize : Swapchain → ℕ → ℕ → Swapchain) (m : Machine) (fuel main : ℕ)
      (turns : ℕ → Turn) (a : Application) (s : Screen) (es : List Call)
      → m.create_surface false ≡ false
      → m.destroy_window ≡ vulkan_window ∷ surface ∷ []
      → program create_or_resize m fuel main turns a s ≡ exited es
      → Outcome m es
  unfolding program setup
  program-Outcome create_or_resize m fuel main turns a s es w d e =
      after_setup-lem m _ es (prepare m []) w d (prepare-Post m) e
