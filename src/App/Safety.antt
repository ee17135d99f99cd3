-- ===== src/App/Safety.antt =====
-- What the windows of the program keep, turn after turn.
use device_tester.Prelude.{Bytes}
use device_tester.RingBuffer.Container.{CircularBuffer}
use device_tester.Asio.{SocketApi}
use device_tester.Asio.SerialPort.{SerialApi}
use device_tester.CoapClient.Library.{CoapApi}
use device_tester.Gui.ConnectionManager.{IsListed}
use device_tester.Gui.ConnectionManager
use device_tester.Gui.PluginManager
use device_tester.Gui.PluginManager.{Drawn, drawn, threw, out_of_range}
use device_tester.Gui.PluginManager.Ready.{Ready}
use device_tester.App.Application.{Application}
use device_tester.App.Application
use device_tester.App.Vulkan.{Ending, ended, undefined_behaviour}

module _ ⦃box : CircularBuffer Bytes⦄ ⦃net : SocketApi⦄ ⦃api : SerialApi⦄ ⦃coap : CoapApi⦄ where
  abbrev Keeps : Drawn Application → Type 0
  Keeps (drawn a) = Ready a.plugins
  Keeps threw = Unit
  Keeps out_of_range = ⊥

  -- An end that no read past the end of a vector made; the window of a connection that is shown when the
  -- loop ends is in the list.
  abbrev pub IsSound : Ending → Type 0
  IsSound (ended a cs) =
      IsListed a.plugins.connection_manager_win.connections a.plugins.connection_manager_win.current
  IsSound (undefined_behaviour cs) = ⊥
  IsSound _ = Unit
