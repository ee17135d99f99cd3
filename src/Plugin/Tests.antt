-- ===== src/Plugin/Tests.antt =====
-- A script with two connections and an entry of another type.
use device_tester.Prelude.{◌≡◌, refl, true, some, none, List, [], ◌∷◌, ◌++◌}
use mathlib.Core.Option.{map as map_option}
use device_tester.RingBuffer.Listed.{listed}
use device_tester.Asio.Loopback.{loopback}
use device_tester.Asio.SerialPort.{simulated}
use device_tester.CoapClient.Echo.{echo}
use device_tester.Serial.Line.{Options, Parity, FlowControl, one}
use device_tester.Plugin.{Entry, LuaPlugin, calls_back, calls_back_coap, received}
use device_tester.Plugin.Calls.{Call, receives, receives_coap, works, run}
use device_tester.Plugin.Ordering.{heard, waiting, due, run-order}

abbrev line : Options
line = record {
  port = "";
  baud_rate = 9600;
  character_size = 7;
  parity = Parity.none;
  flow_control = FlowControl.none;
  stop_bits = one;
}

abbrev lamp : Entry
lamp = record {
  var_name = "lamp";
  type = some "coap-client";
  name = some "Lamp";
  ip = some "::1";
  port_number = some 5683;
  port_name = none;
  baud_rate = none;
  on_receive = some 4;
}

abbrev meter : Entry
meter = record lamp {
  var_name = "meter";
  type = some "serial";
  port_name = some "COM7";
  baud_rate = some 115200;
  on_receive = none;
}

abbrev tables : List Entry
tables = lamp ∷ record lamp { type = some "udp" } ∷ meter ∷ []

abbrev bare : LuaPlugin
bare = record {
  name = "p";
  description = "";
  connections = [];
  wrappers =
      record { var_name = "a"; callback = some 1 }
      ∷ record { var_name = "b"; callback = none }
      ∷ [];
  actions = [];
  strand = calls_back 1 (8 ∷ []) ∷ [];
  calls = [];
}

abbrev story : List Call
story =
    receives 0 (1 ∷ [])
    ∷ works true
    ∷ receives 1 (2 ∷ [])
    ∷ receives_coap 0 3 (3 ∷ [])
    ∷ works true
    ∷ []

abbrev after : LuaPlugin
after = record bare {
  strand = calls_back_coap 1 3 (3 ∷ []) ∷ [];
  calls = received 1 (8 ∷ []) ∷ received 1 (1 ∷ []) ∷ [];
}

run-order_example :
    heard after.calls ++ waiting after.strand
    ≡ (heard bare.calls ++ waiting bare.strand) ++ due bare.wrappers story
unfolding run
run-order_example = run-order bare after story refl
