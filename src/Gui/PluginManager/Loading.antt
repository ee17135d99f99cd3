-- ===== src/Gui/PluginManager/Loading.antt =====
-- What loading a plugin lists.
use device_tester.Prelude.{ℕ, ◌+◌, ◌≡◌, refl, true, Option, some, List, [], ◌∷◌, ◌++◌, Bytes}
use device_tester.RingBuffer.Container.{CircularBuffer}
use device_tester.Asio.{SocketApi}
use device_tester.Asio.SerialPort.{SerialApi}
use device_tester.CoapClient.Library.{CoapApi}
use device_tester.Plugin.{
  LuaPlugin, ConnDescriptor, coap_client, serial, tcp_client, tcp_server, udp_connection, load,
}
use device_tester.Gui.ConnectionManager.{
  ConnectionManagerWin, ConnectionWin, Kind, register_connection, contains, IsListed,
  emplace-IsListed, emplace-new, emplace,
}
use device_tester.Gui.PluginManager.{
  File, PluginManagerWin, drawn, kind_of, register_all, load_lua_plugin, load_file,
}

module _ ⦃box : CircularBuffer Bytes⦄ ⦃net : SocketApi⦄ ⦃api : SerialApi⦄ ⦃coap : CoapApi⦄ where
  -- The windows of the CoAP clients and the serial ports among connections.
  abbrev pub windows : (ℕ → ℕ) → ℕ → List ConnDescriptor → List ConnectionWin
  windows addresses i [] = []
  windows addresses i (coap_client c ∷ cs) =
      record { address = addresses i; kind = Kind.coap } ∷ windows addresses (i + 1) cs
  windows addresses i (serial c ∷ cs) =
      record { address = addresses i; kind = Kind.serial } ∷ windows addresses (i + 1) cs
  windows addresses i (tcp_client c ∷ cs) = windows addresses (i + 1) cs
  windows addresses i (tcp_server c ∷ cs) = windows addresses (i + 1) cs
  windows addresses i (udp_connection c ∷ cs) = windows addresses (i + 1) cs

  abbrev pub AllContained : List ConnectionWin → List ConnectionWin → Type 0
  AllContained vs [] = Unit
  AllContained vs (w ∷ ws) = (contains vs w ≡ true) × AllContained vs ws

  pub register_all-IsListed :
      (addresses : ℕ → ℕ) (i : ℕ) (cs : List ConnDescriptor) (w : ConnectionManagerWin)
      (o : Option ConnectionWin)
      → IsListed w.connections o
      → IsListed (register_all addresses i cs w).connections o
  unfolding register_all register_connection kind_of
  register_all-IsListed addresses i [] w o h = h
  register_all-IsListed addresses i (coap_client c ∷ cs) w o h =
      let v : ConnectionWin = record { address = addresses i; kind = Kind.coap } in
      register_all-IsListed addresses (i + 1) cs
        (record w { connections = emplace w.connections v }) o
        (emplace-IsListed w.connections v o h)
  register_all-IsListed addresses i (serial c ∷ cs) w o h =
      let v : ConnectionWin = record { address = addresses i; kind = Kind.serial } in
      register_all-IsListed addresses (i + 1) cs
        (record w { connections = emplace w.connections v }) o
        (emplace-IsListed w.connections v o h)
  register_all-IsListed addresses i (tcp_client c ∷ cs) w o h =
      register_all-IsListed addresses (i + 1) cs w o h
  register_all-IsListed addresses i (tcp_server c ∷ cs) w o h =
      register_all-IsListed addresses (i + 1) cs w o h
  register_all-IsListed addresses i (udp_connection c ∷ cs) w o h =
      register_all-IsListed addresses (i + 1) cs w o h

  register_all-contains :
      (addresses : ℕ → ℕ) (i : ℕ) (cs : List ConnDescriptor) (w : ConnectionManagerWin)
      → AllContained (register_all addresses i cs w).connections (windows addresses i cs)
  unfolding register_all register_connection kind_of
  register_all-contains addresses i [] w = tt
  register_all-contains addresses i (coap_client c ∷ cs) w =
      let v : ConnectionWin = record { address = addresses i; kind = Kind.coap } in
      let w' : ConnectionManagerWin = record w { connections = emplace w.connections v } in
      (
        register_all-IsListed addresses (i + 1) cs w' (some v) (emplace-new w.connections v),
        register_all-contains addresses (i + 1) cs w',
      )
  register_all-contains addresses i (serial c ∷ cs) w =
      let v : ConnectionWin = record { address = addresses i; kind = Kind.serial } in
      let w' : ConnectionManagerWin = record w { connections = emplace w.connections v } in
      (
        register_all-IsListed addresses (i + 1) cs w' (some v) (emplace-new w.connections v),
        register_all-contains addresses (i + 1) cs w',
      )
  register_all-contains addresses i (tcp_client c ∷ cs) w =
      register_all-contains addresses (i + 1) cs w
  register_all-contains addresses i (tcp_server c ∷ cs) w =
      register_all-contains addresses (i + 1) cs w
  register_all-contains addresses i (udp_connection c ∷ cs) w =
      register_all-contains addresses (i + 1) cs w

  pub register_all-current :
      (addresses : ℕ → ℕ) (i : ℕ) (cs : List ConnDescriptor) (w : ConnectionManagerWin)
      → (register_all addresses i cs w).current ≡ w.current
  unfolding register_all register_connection kind_of
  register_all-current addresses i [] w = refl
  register_all-current addresses i (coap_client c ∷ cs) w =
      register_all-current addresses (i + 1) cs _
  register_all-current addresses i (serial c ∷ cs) w = register_all-current addresses (i + 1) cs _
  register_all-current addresses i (tcp_client c ∷ cs) w =
      register_all-current addresses (i + 1) cs w
  register_all-current addresses i (tcp_server c ∷ cs) w =
      register_all-current addresses (i + 1) cs w
  register_all-current addresses i (udp_connection c ∷ cs) w =
      register_all-current addresses (i + 1) cs w

  -- A file that is loaded adds the plugin of its script at the end, and every CoAP client and serial port
  -- of that plugin has its window in the list of the connections.
  pub load_file-contains :
      (s : PluginManagerWin) (addresses : ℕ → ℕ) (file : File) (plugin : LuaPlugin)
      → load file.mcast file.line file.script ≡ some plugin
      → (t : PluginManagerWin) × (load_file s addresses file ≡ drawn t)
        × (t.loaded_plugins ≡ s.loaded_plugins ++ plugin ∷ [])
        × AllContained t.connection_manager_win.connections (windows addresses 0 plugin.connections)
  unfolding load_file load_lua_plugin
  load_file-contains s addresses file plugin e =
      rw (e, load_file, load_lua_plugin)
        (
          _,
          refl,
          refl,
          register_all-contains addresses 0 plugin.connections s.connection_manager_win,
        )
