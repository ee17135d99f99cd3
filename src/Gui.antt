-- ===== src/Gui.antt =====
-- The windows of libs/gui-common, libs/gui-libcon and libs/gui-plugins. What the user does in a frame, which the drawing
-- library reports as the results of its calls, is a record of those results.
pub mod ConnectionManager
pub mod Windows
pub mod RawData
pub mod Console
pub mod Elements
pub mod TcpServerWin
pub mod TcpClientWin
pub mod UdpConWin
pub mod CoapClientWin
pub mod Editing
pub mod PluginManager
pub mod SerialSettings
mod Tests
