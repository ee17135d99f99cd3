-- ===== src/Plugin.antt =====
-- plugins/lua_base/src/lua_plugin.cpp and include/libplglua/lua_plugin.hpp: a plugin whose connections
-- and actions a lua script describes. The script is not code of the repository: what the plugin reads of
-- its tables is a record, a function of the script is a number, and the calls that the plugin makes of
-- those functions are kept in order. A value that is missing or of another type makes the reading throw,
-- which is `none`. An error while the file is run is only logged; errors that the script's functions raise
-- are left out.
pub mod Calls
pub mod Strand
pub mod Described
pub mod Made
pub mod Setup
pub mod Ordering
mod Tests
use device_tester.Prelude.{
  zero, suc, ℕ, ◌+◌, Bool, true, false, if◌then◌else◌, Option, some, none, List, [], ◌∷◌, ◌++◌,
  length, String, Bytes, get_elem?,
}
use text.Mathlib.Text.{◌==◌ as str_eq}
use device_tester.RingBuffer.Container.{CircularBuffer}
use device_tester.Asio.{SocketApi}
use device_tester.Asio.SerialPort.{SerialApi}
use device_tester.Connection.{set_readable_name}
use device_tester.Connection
use device_tester.CoapClient.Library.{CoapApi}
use device_tester.CoapClient.{m_put, make_request}
use device_tester.CoapClient
use device_tester.Serial.Line.{Parity, FlowControl, one}
use device_tester.Serial.Line
use device_tester.Serial.{Serial}
use device_tester.Serial
use device_tester.TcpClient
use device_tester.TcpServer
use device_tester.UdpConnection

-- An entry of the table `connections`: what each read of a field gives. The field `port` is a number for a
-- CoAP client and a name for a serial port.
pub record Entry : Type 0 where
  pub var_name : String
  pub type : Option String
  pub name : Option String
  pub ip : Option String
  pub port_number : Option ℕ
  pub port_name : Option String
  pub baud_rate : Option ℕ
  pub on_receive : Option ℕ

pub record Script : Type 0 where
  pub name : Option String
  pub description : Option String
  pub connections : List Entry
  pub actions : List (Option ℕ)
  pub setup : Option ℕ

-- The calls of the script's functions.
pub data LuaCall : Type 0 where
  setup : ℕ → LuaCall
  gui : ℕ → LuaCall
  received : ℕ → Bytes → LuaCall
  coap_received : ℕ → ℕ → Bytes → LuaCall

-- What is posted to the strand of the plugin. The connection of a `put` is named by its place.
pub data Task : Type 0 where
  calls_back : ℕ → Bytes → Task
  calls_back_coap : ℕ → ℕ → Bytes → Task
  puts : ℕ → ℕ → String → Bytes → Task

-- `ConnectionWrapper` and `CoapClientConnectionWrapper`: the variable of the script, and the callback.
pub record Wrapper : Type 0 where
  pub var_name : String
  pub callback : Option ℕ

infixl 5 ◌>>=◌
abbrev pub ◌>>=◌ : {A B : Type 0} → Option A → (A → Option B) → Option B
none >>= f = none
some a >>= f = f a

unfoldable pub callback_at : List Wrapper → ℕ → Option ℕ
callback_at ws i = elim (get_elem? ws i) [ none ↦ none | some w ↦ w.callback ]

unfoldable pub replace {ℓ} : {A : Type ℓ} → ℕ → A → List A → List A
replace i a [] = []
replace zero a (x ∷ xs) = a ∷ xs
replace (suc i) a (x ∷ xs) = x ∷ replace i a xs

module _ ⦃box : CircularBuffer Bytes⦄ ⦃net : SocketApi⦄ ⦃api : SerialApi⦄ ⦃coap : CoapApi⦄ where
  pub data ConnDescriptor : Type 0 where
    coap_client : CoapClient.Client → ConnDescriptor
    serial : Serial → ConnDescriptor
    tcp_client : TcpClient.Client → ConnDescriptor
    tcp_server : TcpServer.Server → ConnDescriptor
    udp_connection : UdpConnection.Udp → ConnDescriptor

  -- A wrapper and its connection stand at the same place.
  pub record LuaPlugin : Type 0 where
    pub name : String
    pub description : String
    pub connections : List ConnDescriptor
    pub wrappers : List Wrapper
    pub actions : List ℕ
    pub strand : List Task
    pub calls : List LuaCall

  -- The slots of a connection that a wrapper connects itself to are named by the wrapper's place.
  unfoldable pub coap_connection : Bool → ℕ → String → String → ℕ → CoapClient.Client
  coap_connection mcast place name ip port =
      let client : CoapClient.Client = CoapClient.create mcast in
      let named : CoapClient.Client = record client { base = set_readable_name client.base name } in
      CoapClient.connect_on_receive
        (CoapClient.set_options named (record { server_uri = ip; server_port = port })) place

  unfoldable pub serial_options : String → ℕ → Serial.Line.Options
  serial_options port baud_rate = record {
    port = port;
    baud_rate = baud_rate;
    character_size = 8;
    parity = Parity.none;
    flow_control = FlowControl.none;
    stop_bits = one;
  }

  unfoldable pub serial_connection : Serial.Line.Options → ℕ → String → String → ℕ → Serial
  unfolding serial_options
  serial_connection line place name port baud_rate =
      let conn : Serial = Serial.create line in
      let named : Serial = record conn { base = set_readable_name conn.base name } in
      let c : Serial = Serial.set_options named (serial_options port baud_rate) in
      record c { receiver = Connection.connect_on_receive c.receiver place }

  unfoldable pub add_connection : LuaPlugin → String → Option ℕ → ConnDescriptor → LuaPlugin
  add_connection s var_name callback connection = record s {
    connections = s.connections ++ connection ∷ [];
    wrappers = s.wrappers ++ record { var_name = var_name; callback = callback } ∷ [];
  }

  unfoldable pub setup_coap : Bool → LuaPlugin → Entry → String → Option LuaPlugin
  unfolding coap_connection add_connection
  setup_coap mcast s e name = do
    ip ← e.ip
    port ← e.port_number
    some (
        add_connection s e.var_name e.on_receive
          (coap_client (coap_connection mcast (length s.wrappers) name ip port)))

  unfoldable pub setup_serial : Serial.Line.Options → LuaPlugin → Entry → String → Option LuaPlugin
  unfolding serial_connection add_connection
  setup_serial line s e name = do
    port ← e.port_name
    baud_rate ← e.baud_rate
    some (
        add_connection s e.var_name e.on_receive
          (serial (serial_connection line (length s.wrappers) name port baud_rate)))

  -- The branches on the type. `mcast` and `line` stand for what is not initialised.
  unfoldable pub setup_typed :
      Bool → Serial.Line.Options → LuaPlugin → Entry → String → String → Option LuaPlugin
  unfolding setup_coap setup_serial
  setup_typed mcast line s e type name =
      if str_eq type "coap-client"
      then setup_coap mcast s e name
      else if str_eq type "serial"
      then setup_serial line s e name
      else some s

  -- One round of the loop.
  unfoldable pub setup_connection :
      Bool → Serial.Line.Options → LuaPlugin → Entry → Option LuaPlugin
  unfolding setup_typed
  setup_connection mcast line s e = do
    type ← e.type
    name ← e.name
    setup_typed mcast line s e type name

  unfoldable pub setup_connections :
      Bool → Serial.Line.Options → List Entry → LuaPlugin → Option LuaPlugin
  unfolding setup_connection
  setup_connections mcast line [] s = some s
  setup_connections mcast line (e ∷ es) s = do
    s' ← setup_connection mcast line s e
    setup_connections mcast line es s'

  unfoldable pub setup_actions : List (Option ℕ) → LuaPlugin → Option LuaPlugin
  setup_actions [] s = some s
  setup_actions (action ∷ actions) s = do
    f ← action
    setup_actions actions (record s { actions = s.actions ++ f ∷ [] })

  unfoldable pub call_lua : LuaPlugin → LuaCall → LuaPlugin
  call_lua s call = record s { calls = s.calls ++ call ∷ [] }

  -- The constructor.
  unfoldable pub load : Bool → Serial.Line.Options → Script → Option LuaPlugin
  unfolding setup_connections setup_actions call_lua
  load mcast line script = do
    name ← script.name
    description ← script.description
    s ← setup_connections mcast line script.connections (record {
      name = name;
      description = description;
      connections = [];
      wrappers = [];
      actions = [];
      strand = [];
      calls = [];
    })
    s' ← setup_actions script.actions s
    f ← script.setup
    some (call_lua s' (setup f))
