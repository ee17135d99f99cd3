-- ===== src/Gui/Editing/Tests.antt =====
-- A click on Apply in the window of a UDP connection whose options were never set.
use device_tester.Prelude.{◌≡◌, refl, true, false, []}
use device_tester.RingBuffer.Listed.{listed}
use device_tester.Asio.Loopback.{loopback}
use device_tester.CoapClient.Echo.{echo}
use device_tester.Connection.{IpProtocol, ipv4, ipv6}
use device_tester.UdpConnection
use device_tester.UdpConnection.{Options}
use device_tester.Gui.UdpConWin
use device_tester.Gui.UdpConWin.{UdpConWin, Frame, draw_tab_settings}
use device_tester.Gui.Editing.{IsEditor}
use device_tester.Gui.Editing.Server.{windows-edit}

abbrev never_set : Options
never_set = record {
  write_address = "";
  write_port = 0;
  listen_protocol = IpProtocol.none;
  listen_port = 0;
}

abbrev win : UdpConWin
win = UdpConWin.create (UdpConnection.create never_set) never_set (record { windows = [] })

abbrev listen_on_7000 : Frame
listen_on_7000 = record {
  write_address = "::1";
  write_port = 7001;
  listen_port = 7000;
  protocol_clicked = λ p. elim p [ IpProtocol.none ↦ false | ipv4 ↦ false | ipv6 ↦ true ];
  receiving_clicked = true;
  reset = false;
  apply = true;
}

windows-edit_example :
    (draw_tab_settings win listen_on_7000).opts
    ≡ (draw_tab_settings win listen_on_7000).connection.opts
windows-edit_example =
    IsEditor.agrees (windows-edit ⦃box = listed⦄ ⦃net = loopback⦄ ⦃coap = echo⦄).2 win
      listen_on_7000 refl
