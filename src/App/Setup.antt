-- ===== src/App/Setup.antt =====
-- app/src/application_vulkan.cpp: `setup` and what it calls, and the cleanup at the end of the render loop.
-- Left out are the calls that make nothing which lasts: the icon, the dark title bar, the style and the
-- fonts.
use device_tester.Prelude.{ℕ, ◌==◌, ltb, Bool, true, false, not, some, List, [], ◌∷◌, length, Bytes}
use device_tester.RingBuffer.Container.{CircularBuffer}
use device_tester.Asio.{SocketApi}
use device_tester.Asio.SerialPort.{SerialApi}
use device_tester.CoapClient.Library.{CoapApi}
use device_tester.App.Application.{Application}
use device_tester.App.Vulkan.{
  Swapchain, Screen, Turn, Ending, ended, aborted, failed, undefined_behaviour, goes_on, run,
}
use device_tester.App.Devices.{select_gpu, select_queue_family, no_family}
use device_tester.App.Machine.{
  Machine, Resource, sdl, window, vk_instance, debug_report, device, descriptor_pool, surface,
  vulkan_window, imgui_context, sdl_backend, vulkan_backend, font_upload, plot_context, Call, makes,
  Result, returned, refused, died, undefined, Action, pure, ◌>>=◌, ◌>>◌, make, destroy,
  refuse_unless, die_unless, defined_when, when, im_assert, checked,
}

unfoldable pub create_debug_report : Machine → Action Unit
unfolding im_assert checked
create_debug_report m = do
  im_assert m m.debug_function
  defined_when m.debug_function
  checked m.create_debug_report
  make debug_report

unfoldable pub create_instance : Machine → Action Unit
unfolding checked create_debug_report
create_instance m = do
  checked m.create_instance
  make vk_instance
  when m.debug (create_debug_report m)

-- `g_PhysicalDevice`, by its place; `gpus[0]` of no device is past the end.
unfoldable pub physical_device : Machine → Action ℕ
unfolding checked im_assert select_gpu
physical_device m = do
  checked m.count_gpus
  im_assert m (ltb 0 (length m.gpus))
  checked m.list_gpus
  defined_when (ltb (select_gpu m.gpus) (length m.gpus))
  pure (select_gpu m.gpus)

unfoldable pub queue_family : Machine → ℕ → Action ℕ
unfolding im_assert select_queue_family
queue_family m gpu = do
  im_assert m (not (select_queue_family (m.queues gpu) == no_family))
  pure (select_queue_family (m.queues gpu))

-- The device, which is given `gpu` and `family`, and the pool; the two are what was chosen.
unfoldable pub create_device : Machine → ℕ → ℕ → Action (ℕ × ℕ)
unfolding checked
create_device m gpu family = do
  checked m.create_device
  make device
  checked m.create_pool
  make descriptor_pool
  pure (gpu, family)

-- `SetupVulkan`, with the device and the family that it chose.
unfoldable pub setup_vulkan : Machine → Action (ℕ × ℕ)
unfolding create_instance physical_device queue_family create_device
setup_vulkan m = do
  create_instance m
  gpu ← physical_device m
  family ← queue_family m gpu
  create_device m gpu family

-- `SetupVulkanWindow`; `g_MinImageCount` is 2.
unfoldable pub setup_vulkan_window : Machine → ℕ → ℕ → Action Unit
unfolding im_assert
setup_vulkan_window m gpu family = do
  die_unless (m.surface_support gpu family)
  im_assert m (not (ltb 2 2))
  make vulkan_window

-- The last block of `setup`.
unfoldable pub upload_fonts : Machine → Action Unit
unfolding checked
upload_fonts m = do
  checked m.reset_pool
  checked m.begin_buffer
  make font_upload
  checked m.end_buffer
  checked m.submit
  checked m.upload_done
  destroy font_upload

unfoldable pub prepare : Machine → Action Bool
unfolding setup_vulkan setup_vulkan_window upload_fonts
prepare m = do
  refuse_unless m.sdl_init
  make sdl
  when m.create_window (make window)
  chosen ← setup_vulkan m
  refuse_unless (m.create_surface m.create_window)
  make surface
  setup_vulkan_window m chosen.0 chosen.1
  make imgui_context
  make sdl_backend
  make vulkan_backend
  upload_fonts m
  pure true

abbrev pub early_return : Result Bool × List Call → Result Bool × List Call
early_return (returned b, cs) = (returned b, cs)
early_return (refused, cs) = (returned false, cs)
early_return (died, cs) = (died, cs)
early_return (undefined, cs) = (undefined, cs)

-- `ApplicationVulkan::setup`.
unfoldable pub setup : Machine → Action Bool
unfolding prepare
setup m cs = early_return (prepare m cs)

unfoldable pub destroy_all : List Resource → Action Unit
destroy_all [] = pure tt
destroy_all (r ∷ rs) = do destroy r; destroy_all rs

unfoldable pub cleanup_vulkan_window : Machine → Action Unit
unfolding destroy_all
cleanup_vulkan_window m = destroy_all m.destroy_window

unfoldable pub cleanup_vulkan : Machine → Action Unit
cleanup_vulkan m = do
  destroy descriptor_pool
  when m.debug (defined_when m.debug_function >> destroy debug_report)
  destroy device
  destroy vk_instance

-- The end of `renderLoop`.
unfoldable pub cleanup : Machine → Action Unit
unfolding checked cleanup_vulkan_window cleanup_vulkan
cleanup m = do
  checked m.device_idle
  destroy vulkan_backend
  destroy sdl_backend
  destroy imgui_context
  cleanup_vulkan_window m
  cleanup_vulkan m
  destroy window
  destroy sdl

-- How the program comes to its end, or that it does not in the fuel that the loop has, with the calls.
pub data Finish : Type 0 where
  exited : List Call → Finish
  cut_short : List Call → Finish
  still_runs : List Call → Finish

abbrev pub exits : Result Unit × List Call → Finish
exits (returned u, cs) = exited cs
exits (refused, cs) = cut_short cs
exits (died, cs) = cut_short cs
exits (undefined, cs) = cut_short cs

module _ ⦃box : CircularBuffer Bytes⦄ ⦃net : SocketApi⦄ ⦃api : SerialApi⦄ ⦃coap : CoapApi⦄ where
  unfoldable pub close : Machine → List Call → Ending → Finish
  unfolding cleanup
  close m cs (ended a ds) = exits (cleanup m cs)
  close m cs (aborted ds) = cut_short cs
  close m cs (failed ds) = cut_short cs
  close m cs (undefined_behaviour ds) = cut_short cs
  close m cs (goes_on ds) = still_runs cs

  -- What comes after the setup; `looped` is the end of the loop.
  abbrev pub after_setup : Machine → (Bool → Ending) → Result Bool × List Call → Finish
  after_setup m looped (returned b, cs) = close m (makes plot_context ∷ cs) (looped b)
  after_setup m looped (refused, cs) = cut_short cs
  after_setup m looped (died, cs) = cut_short cs
  after_setup m looped (undefined, cs) = cut_short cs

  -- `Application::run`: the setup, the context of the plots, the loop and the cleanup.
  unfoldable pub program :
      (Swapchain → ℕ → ℕ → Swapchain) → Machine → ℕ → ℕ → (ℕ → Turn) → Application → Screen → Finish
  unfolding setup run
  program create_or_resize m fuel main turns a s =
      after_setup m (λ b. run create_or_resize fuel main turns a s (some b)) (setup m [])
