-- ===== src/Gui/PluginManager/Tests.antt =====
-- A plugin with a serial port.
use device_tester.Prelude.{◌+◌, ◌≡◌, refl, true, false, some, none, [], ◌∷◌, ◌++◌}
use device_tester.RingBuffer.Listed.{listed}
use device_tester.Asio.Loopback.{loopback}
use device_tester.Asio.SerialPort.{simulated}
use device_tester.CoapClient.Echo.{echo}
use device_tester.Serial.Line.{Parity, FlowControl, one}
use device_tester.Plugin.{Entry, LuaPlugin, load}
use device_tester.Gui.ConnectionManager
use device_tester.Gui.PluginManager.{File, PluginManagerWin, create, load_file, drawn}
use device_tester.Gui.PluginManager.Loading.{windows, AllContained, load_file-contains}

abbrev meter : Entry
meter = record {
  var_name = "meter";
  type = some "serial";
  name = some "Meter";
  ip = none;
  port_number = none;
  port_name = some "COM7";
  baud_rate = some 9600;
  on_receive = some 4;
}

abbrev file : File
file = record {
  regular = true;
  extension = ".lua";
  script = record {
    name = some "Meters";
    description = some "";
    connections = meter ∷ [];
    actions = some 1 ∷ [];
    setup = some 2;
  };
  mcast = false;
  line = record {
    port = "";
    baud_rate = 9600;
    character_size = 7;
    parity = Parity.none;
    flow_control = FlowControl.none;
    stop_bits = one;
  };
}

abbrev bare : LuaPlugin
bare = record {
  name = "";
  description = "";
  connections = [];
  wrappers = [];
  actions = [];
  strand = [];
  calls = [];
}

abbrev plugin : LuaPlugin
plugin = elim (load file.mcast file.line file.script) [ none ↦ bare | some p ↦ p ]

abbrev no_plugins : PluginManagerWin
no_plugins = create ConnectionManager.create

load_file-contains_example :
    (t : PluginManagerWin) × (load_file no_plugins (λ i. i + 40) file ≡ drawn t)
    × (t.loaded_plugins ≡ no_plugins.loaded_plugins ++ plugin ∷ [])
    × AllContained t.connection_manager_win.connections (windows (λ i. i + 40) 0 plugin.connections)
unfolding load
load_file-contains_example = load_file-contains no_plugins (λ i. i + 40) file plugin refl
