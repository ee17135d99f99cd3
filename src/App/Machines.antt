-- ===== src/App/Machines.antt =====
-- A program that is set up, quits in its first turn and is cleaned up.
use device_tester.Prelude.{ℕ, ◌==◌, ◌≡◌, refl, true, false, none, List, [], ◌∷◌}
use device_tester.RingBuffer.Listed.{listed}
use device_tester.Asio.Loopback.{loopback}
use device_tester.Asio.SerialPort.{simulated}
use device_tester.CoapClient.Echo.{echo}
use device_tester.Gui.Windows.{Window, Begin, make_window, update, draw_all, draw_each}
use device_tester.App.Application.{
  create, should_run, app_exit, render_imgui, menu_bar, about_modal, update_connections,
  update_plugins, draw_windows,
}
use device_tester.App.Vulkan
use device_tester.App.Vulkan.{
  Swapchain, Screen, Turn, success, quit, run, render_loop, poll, resize, render_and_present,
  check_vk_result,
}
use device_tester.App.Devices.{
  integrated_gpu, discrete_gpu, select_gpu, first_index, is_discrete, select_queue_family,
}
use device_tester.App.Machine.{
  Machine, sdl, window, vk_instance, debug_report, device, descriptor_pool, surface, vulkan_window,
  imgui_context, sdl_backend, vulkan_backend, font_upload, plot_context, Call, makes, destroys,
  follow, checked, im_assert,
}
use device_tester.App.Setup.{
  program, setup, exited, close, cleanup, cleanup_vulkan_window, cleanup_vulkan, destroy_all,
}
use device_tester.App.Lifetime.{Outcome, program-Outcome}

-- Of two devices the second is a discrete one, whose second family has graphics.
abbrev machine : Machine
machine = record {
  debug = true;
  asserts = true;
  sdl_init = true;
  create_window = true;
  create_instance = success;
  debug_function = true;
  create_debug_report = success;
  count_gpus = success;
  list_gpus = success;
  gpus = integrated_gpu ∷ discrete_gpu ∷ [];
  queues = λ gpu. false ∷ true ∷ [];
  create_device = success;
  create_pool = success;
  create_surface = λ windowed. windowed;
  surface_support = λ gpu family. gpu == 1;
  reset_pool = success;
  begin_buffer = success;
  end_buffer = success;
  submit = success;
  upload_done = success;
  device_idle = success;
  destroy_window = vulkan_window ∷ surface ∷ [];
}

abbrev calls : List Call
calls =
    destroys sdl
    ∷ destroys window
    ∷ destroys vk_instance
    ∷ destroys device
    ∷ destroys debug_report
    ∷ destroys descriptor_pool
    ∷ destroys surface
    ∷ destroys vulkan_window
    ∷ destroys imgui_context
    ∷ destroys sdl_backend
    ∷ destroys vulkan_backend
    ∷ makes plot_context
    ∷ destroys font_upload
    ∷ makes font_upload
    ∷ makes vulkan_backend
    ∷ makes sdl_backend
    ∷ makes imgui_context
    ∷ makes vulkan_window
    ∷ makes surface
    ∷ makes descriptor_pool
    ∷ makes device
    ∷ makes debug_report
    ∷ makes vk_instance
    ∷ makes window
    ∷ makes sdl
    ∷ []

abbrev three_images : Swapchain → ℕ → ℕ → Swapchain
three_images old width height = record { image_count = 3; frame_index = 0; semaphore_index = 0 }

abbrev screen : Screen
screen = record {
  rebuild = false;
  wd = record { image_count = 3; frame_index = 0; semaphore_index = 0 };
}

abbrev hidden : Begin
hidden = record { drawn = false; kept = false }

abbrev quits : ℕ → Turn
quits i = record {
  events = quit ∷ [];
  width = 640;
  height = 480;
  ui = record {
    connections_item = false;
    plugins_item = false;
    exit_item = false;
    about_item = false;
    about_begin = hidden;
    connections_begin = hidden;
    plugins_begin = hidden;
    connections = record { menu = λ k. none; clicked = λ a. false; trash = false };
    plugins = record { dialog = none; addresses = λ i. i; clicked = λ i. false };
    begins = λ p. hidden;
  };
  minimized = true;
  acquired = success;
  image = 1;
  fence_waited = success;
  fence_reset = success;
  pool_reset = success;
  begun = success;
  ended_buffer = success;
  submitted = success;
  viewports = true;
  others = success;
  presented = success;
}

abbrev no_window : ℕ → Window
no_window p = make_window "" 0

machine_exits : program three_images machine 2 0 quits (create 1024 no_window) screen ≡ exited calls
unfolding program setup follow run render_loop should_run poll app_exit render_imgui menu_bar
    about_modal update_connections update_plugins draw_windows update draw_all draw_each resize
    render_and_present Vulkan.present_with_others Vulkan.checked create make_window select_gpu
    first_index is_discrete select_queue_family close cleanup cleanup_vulkan_window cleanup_vulkan
    destroy_all checked im_assert check_vk_result
machine_exits = refl

program-Outcome_example : Outcome machine calls
program-Outcome_example =
    program-Outcome three_images machine 2 0 quits (create 1024 no_window) screen calls refl refl
      machine_exits
