-- ===== src/App/Vulkan.antt =====
-- app/src/application_vulkan.cpp: the render loop. Vulkan's and SDL's results in a frame are a record,
-- and what is asked of Vulkan is a list of commands. A result below zero aborts the program.
use device_tester.Prelude.{
  ℕ, ◌+◌, ◌%◌, zero, suc, Bool, true, false, not, ◌&&◌, ◌==◌, if◌then◌else◌, Option, some, none,
  List, [], ◌∷◌, ◌++◌, Bytes,
}
use device_tester.RingBuffer.Container.{CircularBuffer}
use device_tester.Asio.{SocketApi}
use device_tester.Asio.SerialPort.{SerialApi}
use device_tester.CoapClient.Library.{CoapApi}
use device_tester.Gui.PluginManager.{Drawn, drawn, threw, out_of_range}
use device_tester.App.Application.{Application, app_exit, should_run, render_imgui}
use device_tester.App.Application

-- `VkResult`: the two that the loop asks for, and the others by their sign.
pub data VkResult : Type 0 where
  success suboptimal out_of_date other_status other_error : VkResult

-- Whether the program goes on.
unfoldable pub check_vk_result : VkResult → Bool
check_vk_result out_of_date = false
check_vk_result other_error = false
check_vk_result _ = true

unfoldable pub needs_rebuild : VkResult → Bool
needs_rebuild out_of_date = true
needs_rebuild suboptimal = true
needs_rebuild _ = false

-- The images and the pairs of semaphores are named by their places.
pub record Swapchain : Type 0 where
  pub image_count : ℕ
  pub frame_index : ℕ
  pub semaphore_index : ℕ

-- The calls, for the main window, of Vulkan, and the two by which ImGui handles its other windows, whose
-- images are not looked at.
pub data Command : Type 0 where
  acquires : ℕ → Command
  waits_for_fence resets_fence resets_pool begins_buffer records ends_buffer : ℕ → Command
  submits : ℕ → ℕ → Command
  presents : ℕ → ℕ → Command
  updates_platform_windows renders_platform_windows : Command

pub data SdlEvent : Type 0 where
  quit : SdlEvent
  window_close : ℕ → SdlEvent
  other_event : SdlEvent

-- What a turn of the loop meets. `acquired` to `presented` are the results of the calls for the main
-- window, in their order. ImGui checks the results that it gets for its other windows in the same way:
-- `others` is one that aborts the program, if there is one.
pub record Turn : Type 0 where
  pub events : List SdlEvent
  pub width : ℕ
  pub height : ℕ
  pub ui : Application.Frame
  pub minimized : Bool
  pub acquired : VkResult
  pub image : ℕ
  pub fence_waited : VkResult
  pub fence_reset : VkResult
  pub pool_reset : VkResult
  pub begun : VkResult
  pub ended_buffer : VkResult
  pub submitted : VkResult
  pub viewports : Bool
  pub others : VkResult
  pub presented : VkResult

-- `g_SwapChainRebuild` and `g_MainWindowData`.
pub record Screen : Type 0 where
  pub rebuild : Bool
  pub wd : Swapchain

-- The screen after calls, or `none` if the program was aborted, and the commands that were given.
abbrev pub Rendered : Type 0
Rendered = Option Screen × List Command

-- Commands whose result is checked, and what comes then.
unfoldable pub checked : List Command → VkResult → Rendered → Rendered
unfolding check_vk_result
checked cs r (o, ds) = if check_vk_result r then (o, cs ++ ds) else (none, cs)

-- `FrameRender`, once the image `i` is acquired with the semaphores `k`.
unfoldable pub draw_image : ℕ → ℕ → Turn → Screen → Rendered
draw_image i k t s = checked (waits_for_fence i ∷ []) t.fence_waited (
    checked (resets_fence i ∷ []) t.fence_reset (
      checked (resets_pool i ∷ []) t.pool_reset (
        checked (begins_buffer i ∷ []) t.begun (
          checked (records i ∷ ends_buffer i ∷ []) t.ended_buffer
            (checked (submits i k ∷ []) t.submitted (some s, []))))))

-- `FrameRender`. An image that is acquired is the current one, also when the swap chain does not fit any
-- more.
unfoldable pub frame_render : Screen → Turn → Rendered
unfolding needs_rebuild
frame_render s t =
    let k : ℕ = s.wd.semaphore_index in
    let wd : Swapchain = elim t.acquired [
      | out_of_date ↦ s.wd
      | _ ↦ record s.wd { frame_index = t.image }
    ] in
    if needs_rebuild t.acquired
    then (some (record { rebuild = true; wd = wd }), acquires k ∷ [])
    else checked (acquires k ∷ []) t.acquired (draw_image wd.frame_index k t (record s { wd = wd }))

-- `FramePresent`.
unfoldable pub frame_present : Screen → Turn → Rendered
unfolding needs_rebuild
frame_present s t =
    let shown : List Command = presents s.wd.frame_index s.wd.semaphore_index ∷ [] in
    let next : Swapchain = record s.wd {
      semaphore_index = (s.wd.semaphore_index + 1) % s.wd.image_count;
    } in
    if s.rebuild
    then (some s, [])
    else if needs_rebuild t.presented
    then (some (record s { rebuild = true }), shown)
    else checked shown t.presented (some (record s { wd = next }), [])

-- What comes next, if the program goes on.
abbrev pub follow : Rendered → (Screen → Rendered) → Rendered
follow (none, cs) f = (none, cs)
follow (some s, cs) f = let (o, ds) = f s in (o, cs ++ ds)

-- ImGui updates and renders its other windows, and then the main one is presented.
unfoldable pub present_with_others : Turn → Screen → Rendered
present_with_others t s =
    let present : Rendered = if t.minimized then (some s, []) else frame_present s t in
    if t.viewports
    then checked (updates_platform_windows ∷ renders_platform_windows ∷ []) t.others present
    else present

-- A turn after its windows are drawn. A main window that is minimized is not rendered.
unfoldable pub render_and_present : Screen → Turn → Rendered
render_and_present s t =
    follow (if t.minimized then (some s, []) else frame_render s t) (present_with_others t)

module _ ⦃box : CircularBuffer Bytes⦄ ⦃net : SocketApi⦄ ⦃api : SerialApi⦄ ⦃coap : CoapApi⦄ where
  -- What the loop comes to in the fuel that it has: it ends; Vulkan aborts the program, or an exception
  -- or a read past the end of a vector leaves it; or it goes on. With the commands that were given.
  pub data Ending : Type 0 where
    ended : Application → List Command → Ending
    aborted : List Command → Ending
    failed : List Command → Ending
    undefined_behaviour : List Command → Ending
    goes_on : List Command → Ending

  -- The inner loop over the events; `main` is the main window.
  unfoldable pub poll : ℕ → List SdlEvent → Application → Application
  unfolding app_exit
  poll main [] a = a
  poll main (quit ∷ es) a = poll main es (app_exit a)
  poll main (window_close w ∷ es) a = poll main es (if w == main then app_exit a else a)
  poll main (other_event ∷ es) a = poll main es a

  abbrev pub before : List Command → Ending → Ending
  before cs (ended a ds) = ended a (cs ++ ds)
  before cs (aborted ds) = aborted (cs ++ ds)
  before cs (failed ds) = failed (cs ++ ds)
  before cs (undefined_behaviour ds) = undefined_behaviour (cs ++ ds)
  before cs (goes_on ds) = goes_on (cs ++ ds)

  -- The rest of a turn, with what its windows and its image come to.
  abbrev pub turned : Drawn Application → Rendered → (Application → Screen → Ending) → Ending
  turned threw o k = failed []
  turned out_of_range o k = undefined_behaviour []
  turned (drawn a) (none, cs) k = aborted cs
  turned (drawn a) (some s, cs) k = before cs (k a s)

  -- `create_or_resize` makes a swap chain of a size from the old one.
  module _ (create_or_resize : Swapchain → ℕ → ℕ → Swapchain) where
    unfoldable pub resize : Screen → Turn → Screen
    resize s t =
        if s.rebuild && (not (t.width == 0) && not (t.height == 0))
        then record {
          rebuild = false;
          wd = record (create_or_resize s.wd t.width t.height) { frame_index = 0 };
        }
        else s

    -- `renderLoop`, from the `i`-th turn on.
    unfoldable pub render_loop : ℕ → ℕ → ℕ → (ℕ → Turn) → Application → Screen → Ending
    render_loop zero main i turns a s = goes_on []
    render_loop (suc fuel) main i turns a s =
        if not (should_run a)
        then ended a []
        else turned (render_imgui (poll main (turns i).events a) (turns i).ui)
            (render_and_present (resize s (turns i)) (turns i))
            (render_loop fuel main (i + 1) turns)

    -- `Application::run`, in application.cpp: what `setup` returns is not looked at, and if it throws,
    -- there is nothing to draw.
    unfoldable pub run : ℕ → ℕ → (ℕ → Turn) → Application → Screen → Option Bool → Ending
    run fuel main turns a s none = ended a []
    run fuel main turns a s (some set_up) =
        render_loop fuel main 0 turns (record a { run_render_loop = true }) s
