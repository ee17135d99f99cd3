-- ===== src/App/Application.antt =====
-- app/src/application.cpp: the menu, the box about the program, and the windows that a frame draws. The
-- tabs of a connection, which the window of the connections draws, are left out.
use device_tester.Prelude.{[], ◌∷◌, String, ℕ, Bool, false, not, if◌then◌else◌, Bytes}
use device_tester.Connection.{Text, format, text}
use device_tester.RingBuffer.Container.{CircularBuffer}
use device_tester.Asio.{SocketApi}
use device_tester.Asio.SerialPort.{SerialApi}
use device_tester.CoapClient.Library.{CoapApi}
use device_tester.Gui.Windows.{
  Window, Begin, WindowManager, make_window, update, draw_all, no_windows,
}
use device_tester.Gui.ConnectionManager
use device_tester.Gui.PluginManager.{PluginManagerWin, Drawn, drawn, threw, out_of_range, ◌>>=◌}
use device_tester.Gui.PluginManager

-- The items of the menus that are clicked, what `ImGui::Begin` reports of the windows, and what the user
-- does in those of the connections and the plugins.
pub record Frame : Type 0 where
  pub connections_item : Bool
  pub plugins_item : Bool
  pub exit_item : Bool
  pub about_item : Bool
  pub about_begin : Begin
  pub connections_begin : Begin
  pub plugins_begin : Begin
  pub connections : ConnectionManager.Frame
  pub plugins : PluginManager.Frame
  pub begins : ℕ → Begin

-- The title of the program's window, from the version and the commit.
unfoldable pub get_title : String → String → Text
get_title version git_ref = format "DuT-App {} - {}" (text version ∷ text git_ref ∷ [])

module _ ⦃box : CircularBuffer Bytes⦄ ⦃net : SocketApi⦄ ⦃api : SerialApi⦄ ⦃coap : CoapApi⦄ where
  -- The base of a window and its own part are apart; the window of the plugins has the other's part.
  pub record Application : Type 0 where
    pub run_render_loop : Bool
    pub show_about_modal : Bool
    pub connection_manager : Window
    pub plugin_manager : Window
    pub plugins : PluginManagerWin
    pub win_manager : WindowManager
    pub memory : ℕ → Window

  unfoldable pub create : ℕ → (ℕ → Window) → Application
  create menu_bar_flag memory = record {
    run_render_loop = false;
    show_about_modal = false;
    connection_manager = make_window "Connection Manager" menu_bar_flag;
    plugin_manager = make_window "Plugin Manager" menu_bar_flag;
    plugins = PluginManager.create ConnectionManager.create;
    win_manager = no_windows;
    memory = memory;
  }

  unfoldable pub app_exit : Application → Application
  app_exit s = record s { run_render_loop = false }

  unfoldable pub should_run : Application → Bool
  should_run s = s.run_render_loop

  -- An item of a menu that is clicked turns its flag over.
  unfoldable pub toggle : Bool → Bool → Bool
  toggle clicked flag = if clicked then not flag else flag

  unfoldable pub menu_bar : Application → Frame → Application
  unfolding toggle app_exit
  menu_bar s f =
      let c : Window = record s.connection_manager {
        visible = toggle f.connections_item s.connection_manager.visible;
      } in
      let p : Window = record s.plugin_manager {
        visible = toggle f.plugins_item s.plugin_manager.visible;
      } in
      let s' : Application = record s { connection_manager = c; plugin_manager = p } in
      let s'' : Application = if f.exit_item then app_exit s' else s' in
      record s'' { show_about_modal = toggle f.about_item s''.show_about_modal }

  unfoldable pub about_modal : Application → Frame → Application
  about_modal s f =
      if not s.show_about_modal then s else record s { show_about_modal = f.about_begin.kept }

  unfoldable pub update_connections : Application → Frame → Application
  unfolding update
  update_connections s f =
      let (w, content) = update s.connection_manager f.connections_begin in
      let s' : Application = record s { connection_manager = w } in
      let shown : PluginManagerWin = record s.plugins {
        connection_manager_win =
            ConnectionManager.update_content f.connections s.plugins.connection_manager_win;
      } in
      if content then record s' { plugins = shown } else s'

  unfoldable pub update_plugins : Application → Frame → Drawn Application
  unfolding update
  update_plugins s f =
      let (w, content) = update s.plugin_manager f.plugins_begin in
      let s' : Application = record s { plugin_manager = w } in
      if content
      then (do
        plugins ← PluginManager.update_content s'.plugins f.plugins
        drawn (record s' { plugins = plugins }))
      else drawn s'

  unfoldable pub draw_windows : Application → Frame → Application
  unfolding draw_all
  draw_windows s f =
      let (memory, contents) = draw_all s.win_manager f.begins s.memory in
      record s { memory = memory }

  unfoldable pub render_imgui : Application → Frame → Drawn Application
  render_imgui s f = do
    s' ← update_plugins (update_connections (menu_bar (about_modal s f) f) f) f
    drawn (draw_windows s' f)
