-- ===== src/Gui/PluginManager.antt =====
-- libs/libplg/src/plugin_manager.cpp and libs/gui-plugins/src/plugin_manager_win.cpp: the plugins that
-- are loaded, and the window that loads, lists and shows them. A plugin that the window shows is named by
-- its place among the loaded ones.
pub mod Loading
pub mod Ready
mod Tests
use device_tester.Prelude.{
  ℕ, ◌+◌, zero, suc, Bool, true, false, ◌&&◌, if◌then◌else◌, Option, some, none, List, [], ◌∷◌,
  ◌++◌, String, Bytes, get_elem?,
}
use text.Mathlib.Text.{◌==◌ as str_eq}
use device_tester.RingBuffer.Container.{CircularBuffer}
use device_tester.Asio.{SocketApi}
use device_tester.Asio.SerialPort.{SerialApi}
use device_tester.CoapClient.Library.{CoapApi}
use device_tester.Serial.Line
use device_tester.Plugin.{
  Script, LuaPlugin, ConnDescriptor, coap_client, serial, tcp_client, tcp_server, udp_connection,
  load, replace,
}
use device_tester.Plugin.Strand.{draw_gui}
use device_tester.Gui.ConnectionManager.{
  ConnectionManagerWin, ConnectionWin, Kind, register_connection,
}
use device_tester.Gui.ConnectionManager

-- What drawing comes to: it returns, an exception leaves it, or it reads past the end of a vector.
pub data Drawn {ℓ} (A : Type ℓ) : Type ℓ where
  drawn : A → Drawn A
  threw : Drawn A
  out_of_range : Drawn A

infixl 5 ◌>>=◌
abbrev pub ◌>>=◌ {ℓ κ} : {A : Type ℓ} {B : Type κ} → Drawn A → (A → Drawn B) → Drawn B
drawn a >>= f = f a
threw >>= f = threw
out_of_range >>= f = out_of_range

-- A file that the dialog names. `mcast` and `line` stand for what its connections do not initialise.
pub record File : Type 0 where
  pub regular : Bool
  pub extension : String
  pub script : Script
  pub mcast : Bool
  pub line : Line.Options

-- What the user does in a frame: the file, if one is asked for and chosen; the plugins that are clicked.
-- `addresses` is where the windows of new connections are made, in their order.
pub record Frame : Type 0 where
  pub dialog : Option File
  pub addresses : ℕ → ℕ
  pub clicked : ℕ → Bool

module _ ⦃box : CircularBuffer Bytes⦄ ⦃net : SocketApi⦄ ⦃api : SerialApi⦄ ⦃coap : CoapApi⦄ where
  -- With the window of the connections, which it changes.
  pub record PluginManagerWin : Type 0 where
    pub loaded_plugins : List LuaPlugin
    pub current : Option ℕ
    pub connection_manager_win : ConnectionManagerWin

  unfoldable pub kind_of : ConnDescriptor → Kind
  kind_of (coap_client c) = Kind.coap
  kind_of (serial c) = Kind.serial
  kind_of (tcp_client c) = Kind.tcp_client
  kind_of (tcp_server c) = Kind.tcp_server
  kind_of (udp_connection c) = Kind.udp

  unfoldable pub register_all :
      (ℕ → ℕ) → ℕ → List ConnDescriptor → ConnectionManagerWin → ConnectionManagerWin
  unfolding register_connection kind_of
  register_all addresses i [] w = w
  register_all addresses i (c ∷ cs) w =
      register_all addresses (i + 1) cs
        (register_connection w (record { address = addresses i; kind = kind_of c }))

  unfoldable pub load_lua_plugin : PluginManagerWin → File → Drawn (PluginManagerWin × LuaPlugin)
  unfolding load
  load_lua_plugin s file = elim (load file.mcast file.line file.script) [
    | none ↦ threw
    | some plugin ↦ drawn (record s { loaded_plugins = s.loaded_plugins ++ plugin ∷ [] }, plugin)
  ]

  unfoldable pub load_file : PluginManagerWin → (ℕ → ℕ) → File → Drawn PluginManagerWin
  unfolding load_lua_plugin register_all
  load_file s addresses file = do
    (s', plugin) ← load_lua_plugin s file
    drawn (record s' {
      connection_manager_win =
          register_all addresses 0 plugin.connections s'.connection_manager_win;
    })

  unfoldable pub menu_bar : PluginManagerWin → Frame → Drawn PluginManagerWin
  unfolding load_file
  menu_bar s f = elim f.dialog [
    | none ↦ drawn s
    | some file ↦
        if file.regular && str_eq file.extension ".lua"
        then load_file s f.addresses file
        else drawn s
  ]

  -- The loop over the plugins from the place `i` on.
  unfoldable pub select : (ℕ → Bool) → ℕ → List LuaPlugin → Option ℕ → Option ℕ
  select clicked i [] current = current
  select clicked i (plugin ∷ plugins) current =
      select clicked (i + 1) plugins (if clicked i then some i else current)

  unfoldable pub left_pane : PluginManagerWin → Frame → PluginManagerWin
  unfolding select
  left_pane s f = record s { current = select f.clicked 0 s.loaded_plugins s.current }

  -- The first action of the plugin draws itself.
  unfoldable pub draw_action : PluginManagerWin → ℕ → LuaPlugin → List ℕ → Drawn PluginManagerWin
  unfolding draw_gui replace
  draw_action s i plugin [] = out_of_range
  draw_action s i plugin (action ∷ actions) =
      drawn (record s { loaded_plugins = replace i (draw_gui plugin action) s.loaded_plugins })

  unfoldable pub item_view : PluginManagerWin → Drawn PluginManagerWin
  unfolding draw_action
  item_view s = elim s.current [
    | none ↦ drawn s
    | some i ↦ elim (get_elem? s.loaded_plugins i) [
      | none ↦ out_of_range
      | some plugin ↦ draw_action s i plugin plugin.actions
    ]
  ]

  unfoldable pub update_content : PluginManagerWin → Frame → Drawn PluginManagerWin
  unfolding menu_bar left_pane item_view
  update_content s f = do s' ← menu_bar s f; item_view (left_pane s' f)

  unfoldable pub create : ConnectionManagerWin → PluginManagerWin
  create w = record { loaded_plugins = []; current = none; connection_manager_win = w }
