-- ===== src/App/Stopping.antt =====
-- When the render loop ends.
use device_tester.Prelude.{
  subst, ℕ, ◌+◌, ◌≤◌, ◌≡◌, ◌∙◌, refl, ap, zero, suc, Bool, true, false, not, ◌&&◌, ◌||◌, ◌==◌,
  if◌then◌else◌, Option, some, none, List, [], ◌∷◌, Bytes, arith,
}
use device_tester.RingBuffer.Container.{CircularBuffer}
use device_tester.Asio.{SocketApi}
use device_tester.Asio.SerialPort.{SerialApi}
use device_tester.CoapClient.Library.{CoapApi}
use device_tester.Gui.Windows.{update}
use device_tester.Gui.PluginManager
use device_tester.Gui.PluginManager.{PluginManagerWin, Drawn, drawn, threw, out_of_range, ◌>>=◌}
use device_tester.App.Application.{
  Application, app_exit, should_run, render_imgui, update_plugins, update_connections, menu_bar,
  about_modal, draw_windows, toggle,
}
use device_tester.App.Application
use device_tester.App.Vulkan.{
  Swapchain, Screen, Turn, SdlEvent, quit, window_close, other_event, poll, Command, Ending, ended,
  aborted, failed, undefined_behaviour, goes_on, before, turned, resize, Rendered,
  render_and_present, render_loop, run,
}

module _ ⦃box : CircularBuffer Bytes⦄ ⦃net : SocketApi⦄ ⦃api : SerialApi⦄ ⦃coap : CoapApi⦄ where
  and_not : (a b c : Bool) → ((a && not b) && not c) ≡ (a && not (b || c))
  and_not true true c = refl
  and_not true false c = refl
  and_not false b c = refl

  and_true : (b : Bool) → (b && not true) ≡ false
  and_true true = refl
  and_true false = refl

  -- The items of a turn that end the loop.
  abbrev closes : ℕ → List SdlEvent → Bool
  closes main [] = false
  closes main (quit ∷ es) = true
  closes main (window_close w ∷ es) = (w == main) || closes main es
  closes main (other_event ∷ es) = closes main es

  abbrev pub wants_exit : ℕ → Turn → Bool
  wants_exit main t = closes main t.events || t.ui.exit_item

  exit-run :
      (b : Bool) (a : Application)
      → (if b then app_exit a else a).run_render_loop ≡ (a.run_render_loop && not b)
  unfolding app_exit
  exit-run true a = ground arith
  exit-run false a = ground arith

  if-run :
      {b : Bool} (c : Bool) (x y : Application)
      → x.run_render_loop ≡ b
      → y.run_render_loop ≡ b
      → (if c then x else y).run_render_loop ≡ b
  if-run true x y e f = e
  if-run false x y e f = f

  poll-lem :
      (main : ℕ) (es : List SdlEvent) (a : Application)
      → (poll main es a).run_render_loop ≡ (a.run_render_loop && not (closes main es))
  unfolding poll app_exit
  poll-lem main [] a = ground arith
  poll-lem main (quit ∷ es) a = ground (arith, poll-lem main es (app_exit a))
  poll-lem main (window_close w ∷ es) a =
      poll-lem main es (if w == main then app_exit a else a)
      ∙ ap (λ b. b && not (closes main es)) (exit-run (w == main) a)
      ∙ and_not a.run_render_loop (w == main) (closes main es)
  poll-lem main (other_event ∷ es) a = poll-lem main es a

  -- The flag of the loop after drawing.
  abbrev Runs : Bool → Drawn Application → Type 0
  Runs b (drawn a) = a.run_render_loop ≡ b
  Runs b _ = Unit

  menu_bar-run :
      (a : Application) (f : Application.Frame)
      → (menu_bar a f).run_render_loop ≡ (a.run_render_loop && not f.exit_item)
  unfolding menu_bar app_exit
  menu_bar-run a f = exit-run f.exit_item _

  about_modal-run :
      (a : Application) (f : Application.Frame)
      → (about_modal a f).run_render_loop ≡ a.run_render_loop
  unfolding about_modal
  about_modal-run a f = if-run (not a.show_about_modal) _ _ refl refl

  update_connections-run :
      (a : Application) (f : Application.Frame)
      → (update_connections a f).run_render_loop ≡ a.run_render_loop
  unfolding update_connections
  update_connections-run a f =
      if-run (update a.connection_manager f.connections_begin).1 _ _ refl refl

  content-Runs :
      (a b : Application) (c : Bool) (d : Drawn PluginManagerWin)
      → b.run_render_loop ≡ a.run_render_loop
      → Runs a.run_render_loop
          (if c then d >>= (λ plugins. drawn (record b { plugins = plugins })) else drawn b)
  content-Runs a b true (drawn plugins) e = e
  content-Runs a b true threw e = tt
  content-Runs a b true out_of_range e = tt
  content-Runs a b false d e = e

  update_plugins-Runs :
      (a : Application) (f : Application.Frame) → Runs a.run_render_loop (update_plugins a f)
  unfolding update_plugins
  update_plugins-Runs a f =
      content-Runs a (record a { plugin_manager = (update a.plugin_manager f.plugins_begin).0 })
        (update a.plugin_manager f.plugins_begin).1
        (PluginManager.update_content a.plugins f.plugins) refl

  bind-Runs :
      (b : Bool) (d : Drawn Application) (f : Application.Frame)
      → Runs b d
      → Runs b (d >>= λ a. drawn (draw_windows a f))
  unfolding draw_windows
  bind-Runs b (drawn a) f h = h
  bind-Runs b threw f h = tt
  bind-Runs b out_of_range f h = tt

  render_imgui-Runs :
      (a : Application) (f : Application.Frame)
      → Runs (a.run_render_loop && not f.exit_item) (render_imgui a f)
  unfolding render_imgui
  render_imgui-Runs a f =
      let m = menu_bar (about_modal a f) f in
      let u = update_connections m f in
      bind-Runs (a.run_render_loop && not f.exit_item) (update_plugins u f) f (
        subst (λ b. Runs b (update_plugins u f))
          (update_connections-run m f
            ∙ menu_bar-run (about_modal a f) f
            ∙ ap (λ b. b && not f.exit_item) (about_modal-run a f))
          (update_plugins-Runs u f))

  abbrev pub Stops : Ending → Type 0
  Stops (goes_on cs) = ⊥
  Stops _ = Unit

  before-Stops : (cs : List Command) (e : Ending) → Stops e → Stops (before cs e)
  before-Stops cs (ended a ds) h = tt
  before-Stops cs (aborted ds) h = tt
  before-Stops cs (failed ds) h = tt
  before-Stops cs (undefined_behaviour ds) h = tt
  before-Stops cs (goes_on ds) h = h

  turned-Stops :
      (b : Bool) (d : Drawn Application) (o : Rendered) (k : Application → Screen → Ending)
      → Runs b d
      → ((a : Application) (s : Screen) → a.run_render_loop ≡ b → Stops (k a s))
      → Stops (turned d o k)
  turned-Stops b threw o k g h = tt
  turned-Stops b out_of_range o k g h = tt
  turned-Stops b (drawn a) (none, cs) k g h = tt
  turned-Stops b (drawn a) (some s, cs) k g h = before-Stops cs (k a s) (h a s g)

  if-Stops :
      (b : Bool) (a : Application) (e : Ending) → Stops e → Stops (if b then ended a [] else e)
  if-Stops true a e h = tt
  if-Stops false a e h = h

  if-off :
      (b : Bool) (a : Application) (e : Ending)
      → b ≡ false
      → Stops (if not b then ended a [] else e)
  if-off b a e h = rw h tt

  module _ (create_or_resize : Swapchain → ℕ → ℕ → Swapchain) where
    off-Stops :
        (fuel main i : ℕ) (turns : ℕ → Turn) (a : Application) (s : Screen)
        → a.run_render_loop ≡ false
        → Stops (render_loop create_or_resize (suc fuel) main i turns a s)
    unfolding render_loop should_run
    off-Stops fuel main i turns a s e = if-off (a.run_render_loop) a _ e

    turn-Runs :
        (main : ℕ) (t : Turn) (a : Application)
        → Runs
            (a.run_render_loop && not (wants_exit main t))
            (render_imgui (poll main t.events a) t.ui)
    turn-Runs main t a =
        subst (λ b. Runs b (render_imgui (poll main t.events a) t.ui))
          (ap (λ b. b && not t.ui.exit_item) (poll-lem main t.events a)
            ∙ and_not a.run_render_loop (closes main t.events) t.ui.exit_item)
          (render_imgui-Runs (poll main t.events a) t.ui)

    loop-Stops :
        (fuel n main i : ℕ) (turns : ℕ → Turn) (a : Application) (s : Screen)
        → n + 2 ≤ fuel
        → wants_exit main (turns (i + n)) ≡ true
        → Stops (render_loop create_or_resize fuel main i turns a s)
    unfolding render_loop
    loop-Stops zero n main i turns a s l w = absurd (omega (arith, l))
    loop-Stops (suc zero) n main i turns a s l w = absurd (omega (arith, l))
    loop-Stops (suc (suc fuel)) zero main i turns a s l w = if-Stops (not (should_run a)) a _ (
        turned-Stops false (render_imgui (poll main (turns i).events a) (turns i).ui)
          (render_and_present (resize create_or_resize s (turns i)) (turns i))
          (render_loop create_or_resize (suc fuel) main (i + 1) turns)
          (subst (λ b. Runs b (render_imgui (poll main (turns i).events a) (turns i).ui))
            (ap (λ b. a.run_render_loop && not b)
                (subst (λ j. wants_exit main (turns j) ≡ true) (omega arith) w)
              ∙ and_true a.run_render_loop)
            (turn-Runs main (turns i) a))
          (λ a' s' e. off-Stops fuel main (i + 1) turns a' s' e))
    loop-Stops (suc (suc fuel)) (suc n) main i turns a s l w = if-Stops (not (should_run a)) a _ (
        turned-Stops _ (render_imgui (poll main (turns i).events a) (turns i).ui)
          (render_and_present (resize create_or_resize s (turns i)) (turns i))
          (render_loop create_or_resize (suc fuel) main (i + 1) turns) (turn-Runs main (turns i) a)
          (λ a' s' e.
            loop-Stops (suc fuel) n main (i + 1) turns a' s' (omega (arith, l))
              (subst (λ j. wants_exit main (turns j) ≡ true) (omega arith) w)))

    -- If the user asks for the end in some turn, by the menu, by closing the main window or by a quit of
    -- the system, the program ends: fuel for that turn and the look at the flag after it is enough.
    pub run-Stops :
        (fuel n main : ℕ) (turns : ℕ → Turn) (a : Application) (s : Screen) (set_up : Option Bool)
        → n + 2 ≤ fuel
        → wants_exit main (turns n) ≡ true
        → Stops (run create_or_resize fuel main turns a s set_up)
    unfolding run
    run-Stops fuel n main turns a s none l w = tt
    run-Stops fuel n main turns a s (some b) l w =
        loop-Stops fuel n main 0 turns (record a { run_render_loop = true }) s l
          (subst (λ j. wants_exit main (turns j) ≡ true) (omega arith) w)
