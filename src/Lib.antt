-- ===== src/Lib.antt =====
-- device-tester is a desktop program that talks to devices over TCP, UDP, serial lines and CoAP. Its
-- library libs/libcon has the connections, libs/gui-libcon, libs/gui-common and libs/gui-plugins the
-- windows that drive them, libs/libplg and plugins/lua_base the scripts, and app the program.
--
-- The parts and their files:
-- - Prelude: shared names; Boolean tests on numbers, and `++` and `--` on a `size_t` (Prelude/Tests);
--   lists (Prelude/Lists); what a call on a monitor comes to: it returns, waits on a condition variable,
--   or reads out of range (Prelude/Outcome).
-- - RingBuffer: libs/libcon/src/ring_buffer.hpp, over an interface for boost::circular_buffer
--   (RingBuffer/Container, with an instance in RingBuffer/Listed) and against the bounded queue of
--   RingBuffer/Fifo.
-- - Writer: libs/libcon/src/writer.cpp, with the loop `doWrite` / `startWrite` / handler that
--   tcp_client.cpp, udp_connection.cpp, tcp_server.cpp and serial.cpp repeat. `start_write` is
--   `startWrite`, `on_sent` is the handler of the send. Writer/Traffic interleaves writes and
--   completions in any order; its wire has the bytes that asio said it wrote. Writer/Threads has the same
--   loop as the steps of several threads, with the flag and the lock, and the queue as a list.
-- - Connection: connection.cpp, receiver.cpp and include/libcon/connection.hpp.
-- - Asio: an interface for sockets (with an instance in Asio/Loopback) and for serial ports
--   (Asio/SerialPort), which gives what the code relies on as laws.
-- - TcpClient, UdpConnection, TcpServer and Serial: the files of libs/libcon/src with these names. A
--   function `fooBar` of the source is `foo_bar` here, a lambda given to asio is `handle_...`. The public
--   class and its `Impl` are one record, which holds the operations that asio has not completed.
--   TcpServer/Session is the class TcpServerClient; Serial/Line the options of a line. The tasks that
--   serial.cpp posts to its strand are a queue, from which `perform` runs the oldest.
-- - CoapClient: coap_client.cpp. libcoap is an interface (CoapClient/Library, with an instance in
--   CoapClient/Echo); the tracked tokens are in CoapClient/Tokens, the payloads in CoapClient/Store.
--   CoapClient/Life has `doIO` and the destructor, as steps of the strand and of the thread that destroys.
-- - Gui: connection_manager_win.cpp (Gui/ConnectionManager), raw_data_win.cpp (Gui/RawData) and
--   serial_win.cpp (Gui/SerialSettings), gui_elements.cpp (Gui/Elements), and the files of the same
--   names for Gui/TcpServerWin, Gui/TcpClientWin, Gui/UdpConWin and Gui/CoapClientWin, all of
--   libs/gui-libcon, with what their settings have in common in Gui/Editing; window.cpp and
--   window_manager.cpp of libs/gui-common (Gui/Windows); libs/libplg/src/plugin_manager.cpp and
--   plugin_manager_win.cpp of libs/gui-plugins (Gui/PluginManager). What ImGui reports in a frame is a
--   record.
-- - Gui/Console: the check box Console of the windows of a TCP client, a UDP connection and a serial port,
--   as one window over an interface for the class Connection, which these three fill.
-- - Manager: manager_impl.cpp, as a step relation of ten threads and the destructor.
-- - Plugin: plugins/lua_base/src/lua_plugin.cpp. A script is a record of what its tables hold, and the
--   calls of its functions are kept in order; what is posted to its strand is in Plugin/Strand.
-- - App: app/src/application.cpp (App/Application), and of app/src/application_vulkan.cpp the render loop
--   (App/Vulkan), the choice of the device (App/Devices), and the setup and the cleanup (App/Setup, in the
--   monad of App/Machine). What SDL and Vulkan report is a record. App/Resources says in which order
--   their objects may be made and destroyed.
-- - Plot: `ScrollingBuffer` of plugins/lua_base/src/lua_gui_bindings.cpp, and `RollingBuffer` (Plot/Rolling).
-- The modules Calls have, for each connection, the calls of the program and of asio as a data type, and
-- `run` makes a list of them in order. The modules Tests have runs on concrete inputs.
--
-- How the parts interact: each connection has a pump (Writer), which uses the ring buffer; asio's handlers
-- change the connection and start the next operation; the server's handlers take clients in and out of
-- its set and signal each; a window calls its connection; a plugin makes connections and hears them; the
-- window of the plugins registers them with that of the connections; the program draws both in a turn of
-- its loop.
--
-- Bounds and fuel: the pump's queue has room for 100 messages, as in writer.cpp; counters of type size_t
-- are taken modulo 2^64. Every function is by structural recursion. The render loop has fuel for a
-- number of turns; two more than the place of the turn that asks for the end are enough.
--
-- Not modelled: what two threads do at once to one connection outside its sending loop, since elsewhere its
-- calls and handlers come in any order but one by one; failures of libcoap to make a session or a message;
-- the address of a client that is used again after the client is gone; what a lua script computes, and
-- the errors that its functions raise; the tabs of the connections inside a turn of the program; what
-- Vulkan's objects are made with, the fonts, drawing, and what ImGui asks of Vulkan for the windows beside
-- the main one, which are two commands here.
pub mod Prelude
pub mod RingBuffer
pub mod Writer
pub mod Connection
pub mod App
pub mod Asio
pub mod UdpConnection
pub mod Gui
pub mod Plot
pub mod Manager
pub mod Plugin
pub mod Serial
pub mod CoapClient
pub mod TcpClient
pub mod TcpServer
