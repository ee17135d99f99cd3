-- ===== src/App/Tests.antt =====
-- Turns of the program.
use device_tester.Prelude.{
  ℕ, ◌+◌, refl, Bool, true, false, Option, some, none, List, [], ◌∷◌, arith, ◌==◌, if◌then◌else◌,
}
use device_tester.RingBuffer.Listed.{listed}
use device_tester.Asio.Loopback.{loopback}
use device_tester.Asio.SerialPort.{simulated}
use device_tester.CoapClient.Echo.{echo}
use device_tester.Serial.Line.{Parity, FlowControl, one}
use device_tester.Plugin.{Script}
use device_tester.Gui.Windows.{Window, Begin, make_window}
use device_tester.Gui.PluginManager.{File}
use device_tester.App.Application
use device_tester.App.Application.{create}
use device_tester.App.Vulkan.{Swapchain, Screen, Turn, success, quit, other_event, run}
use device_tester.App.Devices.{
  DeviceType, integrated_gpu, discrete_gpu, select_gpu, select_queue_family, IsGpu, IsFamily,
  select-lem,
}
use device_tester.App.Presented.{Presented, commands, run-Presented}
use device_tester.App.Stopping.{Stops, run-Stops}

abbrev gpus : List DeviceType
gpus = integrated_gpu ∷ discrete_gpu ∷ discrete_gpu ∷ []

abbrev queues : List Bool
queues = false ∷ true ∷ []

select-lem_example : IsGpu gpus (select_gpu gpus) × IsFamily queues (select_queue_family queues)
select-lem_example = select-lem gpus queues (omega arith)

-- A swap chain of three images, whatever the size.
abbrev three_images : Swapchain → ℕ → ℕ → Swapchain
three_images old width height = record { image_count = 3; frame_index = 0; semaphore_index = 0 }

abbrev screen : Screen
screen = record {
  rebuild = true;
  wd = three_images (record { image_count = 0; frame_index = 0; semaphore_index = 0 }) 1 1;
}

abbrev no_window : ℕ → Window
no_window p = make_window "" 0

abbrev script : Script
script = record {
  name = some "Lamps";
  description = some "";
  connections = [];
  actions = some 1 ∷ [];
  setup = some 2;
}

abbrev file : File
file = record {
  regular = true;
  extension = ".lua";
  script = script;
  mcast = false;
  line = record {
    port = "";
    baud_rate = 9600;
    character_size = 7;
    parity = Parity.none;
    flow_control = FlowControl.none;
    stop_bits = one;
  };
}

abbrev shown : Begin
shown = record { drawn = true; kept = true }

abbrev ui : Option File → Application.Frame
ui dialog = record {
  connections_item = false;
  plugins_item = false;
  exit_item = false;
  about_item = false;
  about_begin = shown;
  connections_begin = shown;
  plugins_begin = shown;
  connections = record { menu = λ k. none; clicked = λ a. false; trash = false };
  plugins = record { dialog = dialog; addresses = λ i. i + 40; clicked = λ i. true };
  begins = λ p. shown;
}

abbrev turn : Option File → Turn
turn dialog = record {
  events = other_event ∷ [];
  width = 640;
  height = 480;
  ui = ui dialog;
  minimized = false;
  acquired = success;
  image = 1;
  fence_waited = success;
  fence_reset = success;
  pool_reset = success;
  begun = success;
  ended_buffer = success;
  submitted = success;
  viewports = true;
  others = success;
  presented = success;
}

-- A plugin is loaded in the first turn, and the system quits in the third.
abbrev turns : ℕ → Turn
turns i =
    if i == 0
    then turn (some file)
    else if i == 2
    then record (turn none) { events = quit ∷ [] }
    else turn none

run-Presented_example :
    Presented none
      (commands (run three_images 5 0 turns (create 1024 no_window) screen (some true)))
run-Presented_example =
    run-Presented three_images 5 0 turns (create 1024 no_window) screen (some true)

run-Stops_example : Stops (run three_images 5 0 turns (create 1024 no_window) screen (some true))
run-Stops_example =
    run-Stops three_images 5 2 0 turns (create 1024 no_window) screen (some true) (omega arith) refl
