-- ===== src/Gui/Editing/Server.antt =====
-- The settings of TCP servers, and of all of them.
use device_tester.Prelude.{
  String, ◌≡◌, refl, ◌∙◌, true, false, if◌then◌else◌, Option, some, none, Bytes, Option-cases, inl,
  inr,
}
use device_tester.RingBuffer.Container.{CircularBuffer}
use device_tester.Asio.{SocketApi}
use device_tester.Connection.{IpProtocol, ipv4, ipv6}
use device_tester.CoapClient.Library.{CoapApi}
use device_tester.TcpServer
use device_tester.Gui.Elements.{draw_ip_protocol_selection}
use device_tester.Gui.CoapClientWin
use device_tester.Gui.TcpClientWin
use device_tester.Gui.TcpServerWin
use device_tester.Gui.UdpConWin
use device_tester.Gui.Editing.{IsEditor, if_both, if_yes, if_no, set_then_reset}
use device_tester.Gui.Editing.Clients.{udp-IsEditor, tcp-IsEditor, coap-IsEditor}

module _ ⦃box : CircularBuffer Bytes⦄ ⦃net : SocketApi⦄ where
  stop-opts : (c : TcpServer.Server) → TcpServer.Server.opts (TcpServer.stop c) ≡ c.opts
  unfolding TcpServer.stop TcpServer.stop_all
  stop-opts c = if_both TcpServer.Server.opts (net.is_open c.acceptor) _ _ c.opts refl refl

  listen-opts :
      (c : TcpServer.Server) (version : IpProtocol)
      → TcpServer.Server.opts (TcpServer.listen c version) ≡ c.opts
  unfolding TcpServer.listen TcpServer.start_accept
  listen-opts c version = elim (Option-cases (net.open_socket c.acceptor version)) [
    | inl e ↦ rw (e, TcpServer.listen) refl
    | inr (opened, e) ↦ elim (Option-cases (net.bind opened version c.opts.port)) [
      | inl b ↦ rw (e, b, TcpServer.listen) refl
      | inr (bound, b) ↦ elim (Option-cases (net.listening bound)) [
        | inl l ↦ rw (e, b, l, TcpServer.listen) refl
        | inr (ready, l) ↦ rw (e, b, l, TcpServer.listen) refl
      ]
    ]
  ]

  listen_on-opts :
      (c : TcpServer.Server) (version : IpProtocol)
      → TcpServer.Server.opts (TcpServer.listen_on c version) ≡ c.opts
  unfolding TcpServer.listen_on
  listen_on-opts c IpProtocol.none = refl
  listen_on-opts c ipv4 = listen-opts c ipv4
  listen_on-opts c ipv6 = listen-opts c ipv6

  start-opts : (c : TcpServer.Server) → TcpServer.Server.opts (TcpServer.start c) ≡ c.opts
  unfolding TcpServer.start
  start-opts c = listen_on-opts (TcpServer.stop c) _ ∙ stop-opts c

  set_options-opts :
      (c : TcpServer.Server) (opts : TcpServer.Options)
      → TcpServer.Server.opts (TcpServer.set_options c opts) ≡ opts
  unfolding TcpServer.set_options TcpServer.restart
  set_options-opts c opts =
      let c' : TcpServer.Server = record c { opts = opts } in
      if_both TcpServer.Server.opts (TcpServer.is_running c') _ _ opts (start-opts c') refl

  rename-opts :
      (c : TcpServer.Server) (name : Option String)
      → TcpServer.Server.opts (TcpServerWin.rename c name) ≡ c.opts
  unfolding TcpServerWin.rename
  rename-opts c none = refl
  rename-opts c (some name) = refl

  press-applies :
      (c : TcpServer.Server) (f : TcpServerWin.Frame) (edited : TcpServer.Options)
      → f.apply ≡ true
      → TcpServer.Server.opts (TcpServerWin.press c f edited) ≡ edited
  unfolding TcpServerWin.press
  press-applies c f edited h =
      let applied : TcpServer.Server = if f.apply then TcpServer.set_options c edited else c in
      let e : applied.opts ≡ edited =
        if_yes TcpServer.Server.opts f.apply _ c h ∙ set_options-opts c edited in
      if_both TcpServer.Server.opts (TcpServer.is_running applied) _ _ edited
        (if_both TcpServer.Server.opts f.stop_clicked _ _ edited (stop-opts applied ∙ e) e)
        (if_both TcpServer.Server.opts f.start_clicked _ _ edited
          (start-opts (TcpServer.set_options applied edited) ∙ set_options-opts applied edited) e)

  press-keeps :
      (c : TcpServer.Server) (f : TcpServerWin.Frame) (edited : TcpServer.Options)
      → f.apply ≡ false
      → f.start_clicked ≡ false
      → TcpServer.Server.opts (TcpServerWin.press c f edited) ≡ c.opts
  unfolding TcpServerWin.press
  press-keeps c f edited h g =
      let applied : TcpServer.Server = if f.apply then TcpServer.set_options c edited else c in
      let e : applied.opts ≡ c.opts = if_no TcpServer.Server.opts f.apply _ c h in
      if_both TcpServer.Server.opts (TcpServer.is_running applied) _ _ c.opts
        (if_both TcpServer.Server.opts f.stop_clicked _ _ c.opts (stop-opts applied ∙ e) e)
        (if_no TcpServer.Server.opts f.start_clicked _ applied g ∙ e)

  -- What the inputs of the settings of a server hold.
  abbrev pub server_edit : TcpServerWin.TcpServerWin → TcpServerWin.Frame → TcpServer.Options
  server_edit s f = record {
    protocol = draw_ip_protocol_selection f.protocol_clicked s.opts.protocol;
    port = f.port;
  }

  server-IsEditor :
      IsEditor TcpServerWin.draw_tab_settings TcpServerWin.TcpServerWin.opts
        (λ s. s.server.opts)
        server_edit
        TcpServerWin.Frame.apply
        TcpServerWin.Frame.reset
        TcpServerWin.Frame.start_clicked
  unfolding TcpServerWin.draw_tab_settings
  server-IsEditor = record {
    agrees = λ s f h.
        set_then_reset f.apply f.reset _ (server_edit s f) h
          (press-applies (TcpServerWin.rename s.server f.name) f (server_edit s f));
    shows = λ s f h. if_no (λ o. o) f.reset _ _ h;
    keeps = λ s f h g.
        press-keeps (TcpServerWin.rename s.server f.name) f (server_edit s f) h g
        ∙ rename-opts s.server f.name;
  }

  -- The settings of all four windows.
  abbrev pub WindowsEdit : ⦃coap : CoapApi⦄ → Type 0
  WindowsEdit =
      IsEditor TcpServerWin.draw_tab_settings TcpServerWin.TcpServerWin.opts (λ s. s.server.opts)
        server_edit TcpServerWin.Frame.apply TcpServerWin.Frame.reset
        TcpServerWin.Frame.start_clicked
      × IsEditor TcpClientWin.draw_tab_settings TcpClientWin.TcpClientWin.opts (λ s. s.client.opts)
          (λ s f. TcpClientWin.edit f) TcpClientWin.Frame.apply TcpClientWin.Frame.reset
          TcpClientWin.Frame.connect_clicked
      × IsEditor UdpConWin.draw_tab_settings UdpConWin.UdpConWin.opts (λ s. s.connection.opts)
          (λ s f. UdpConWin.edit s.opts f) UdpConWin.Frame.apply UdpConWin.Frame.reset (λ f. false)
      × IsEditor CoapClientWin.draw_tab_settings CoapClientWin.CoapClientWin.opts
          (λ s. s.client.opts) (λ s f. CoapClientWin.edit f) CoapClientWin.Frame.apply
          CoapClientWin.Frame.reset (λ f. false)

  -- In the settings of a TCP server, a TCP client, a UDP connection and a CoAP client alike: after Apply
  -- or Reset the window shows the options that the connection has, in whatever state that is; without
  -- Reset it shows what was typed; and without Apply, nor a click that opens the connection, the
  -- connection keeps its options.
  pub windows-edit : ⦃coap : CoapApi⦄ → WindowsEdit
  windows-edit = (server-IsEditor, tcp-IsEditor, udp-IsEditor, coap-IsEditor)
