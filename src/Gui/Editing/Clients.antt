-- ===== src/Gui/Editing/Clients.antt =====
-- The settings of UDP connections, TCP clients and CoAP clients.
use device_tester.Prelude.{
  String, ◌≡◌, refl, sym, ◌∙◌, Bool, true, false, not, ◌||◌, if◌then◌else◌, Option, some, none,
  List, [], ◌∷◌, Bytes, Option-cases, inl, inr,
}
use mathlib.Core.Bool.{false≢true}
use device_tester.RingBuffer.Container.{CircularBuffer}
use device_tester.Asio.{SocketApi}
use device_tester.Connection.{IpProtocol, ipv4, ipv6}
use device_tester.CoapClient.Library.{CoapApi}
use device_tester.CoapClient
use device_tester.TcpClient
use device_tester.UdpConnection
use device_tester.Gui.CoapClientWin
use device_tester.Gui.TcpClientWin
use device_tester.Gui.UdpConWin
use device_tester.Gui.Editing.{IsEditor, if_both, if_yes, if_no, set_then_reset}

module _ ⦃box : CircularBuffer Bytes⦄ ⦃net : SocketApi⦄ where
  udp_listen-opts :
      (c : UdpConnection.Udp) (version : IpProtocol)
      → UdpConnection.Udp.opts (UdpConnection.listen c version) ≡ c.opts
  unfolding UdpConnection.listen UdpConnection.give_up UdpConnection.start_read
  udp_listen-opts c version = elim (Option-cases (net.open_socket c.socket version)) [
    | inl e ↦ rw (e, UdpConnection.listen) refl
    | inr (opened, e) ↦ elim (Option-cases (net.bind opened version c.opts.listen_port)) [
      | inl b ↦ rw (e, b, UdpConnection.listen) refl
      | inr (bound, b) ↦ rw (e, b, UdpConnection.listen) refl
    ]
  ]

  udp_listen_on-opts :
      (c : UdpConnection.Udp) (version : IpProtocol)
      → UdpConnection.Udp.opts (UdpConnection.listen_on c version) ≡ c.opts
  unfolding UdpConnection.listen_on
  udp_listen_on-opts c IpProtocol.none = refl
  udp_listen_on-opts c ipv4 = udp_listen-opts _ ipv4
  udp_listen_on-opts c ipv6 = udp_listen-opts _ ipv6

  udp_endpoint-opts :
      (c : UdpConnection.Udp) → UdpConnection.Udp.opts (UdpConnection.set_write_endpoint c) ≡ c.opts
  unfolding UdpConnection.set_write_endpoint
  udp_endpoint-opts c = elim (Option-cases (net.make_address c.opts.write_address)) [
    | inl e ↦ rw (e, UdpConnection.set_write_endpoint) refl
    | inr (a, e) ↦ rw (e, UdpConnection.set_write_endpoint) refl
  ]

  udp_set_options-opts :
      (c : UdpConnection.Udp) (opts : UdpConnection.Options)
      → UdpConnection.Udp.opts (UdpConnection.set_options c opts) ≡ opts
  unfolding UdpConnection.set_options UdpConnection.set_write_endpoint UdpConnection.restart
      UdpConnection.start_receive UdpConnection.disconnect
  udp_set_options-opts c opts =
      let r = UdpConnection.restart (record c { opts = opts }) in
      udp_endpoint-opts r
      ∙ if_both UdpConnection.Udp.opts (UdpConnection.is_receiving (record c { opts = opts })) _ _
          opts (udp_listen_on-opts _ _) refl

  udp_press-opts :
      (c : UdpConnection.Udp) (clicked : Bool)
      → UdpConnection.Udp.opts (UdpConWin.press c clicked) ≡ c.opts
  unfolding UdpConWin.press UdpConnection.set_receiving UdpConnection.start_receive
      UdpConnection.disconnect
  udp_press-opts c clicked =
      if_both UdpConnection.Udp.opts clicked _ _ c.opts
        (if_both UdpConnection.Udp.opts (not (UdpConnection.is_receiving c)) _ _ c.opts
          (udp_listen_on-opts c _) refl)
        refl

  tcp_set_options-opts :
      (c : TcpClient.Client) (opts : TcpClient.Options)
      → TcpClient.Client.opts (TcpClient.set_options c opts) ≡ opts
  unfolding TcpClient.set_options TcpClient.connect TcpClient.disconnect
  tcp_set_options-opts c opts =
      if_both TcpClient.Client.opts (TcpClient.is_connected (record c { opts = opts })) _ _ opts
        refl refl

  udp_agrees :
      (apply reset : Bool) (c : UdpConnection.Udp) (edited : UdpConnection.Options)
      → (apply || reset) ≡ true
      → let opts : UdpConnection.Options = if reset then c.opts else edited in
        opts ≡ UdpConnection.Udp.opts (if apply then UdpConnection.set_options c opts else c)
  udp_agrees true reset c edited h = sym (udp_set_options-opts c _)
  udp_agrees false true c edited h = refl
  udp_agrees false false c edited h = absurd (false≢true h)

  pub udp-IsEditor :
      IsEditor UdpConWin.draw_tab_settings UdpConWin.UdpConWin.opts
        (λ s. s.connection.opts)
        (λ s f. UdpConWin.edit s.opts f)
        UdpConWin.Frame.apply
        UdpConWin.Frame.reset
        (λ f. false)
  unfolding UdpConWin.draw_tab_settings
  udp-IsEditor = record {
    agrees = λ s f h.
        udp_agrees f.apply f.reset (UdpConWin.press s.connection f.receiving_clicked)
          (UdpConWin.edit s.opts f) h;
    shows = λ s f h. if_no (λ o. o) f.reset _ _ h;
    keeps = λ s f h g.
        if_no UdpConnection.Udp.opts f.apply _ (UdpConWin.press s.connection f.receiving_clicked) h
        ∙ udp_press-opts s.connection f.receiving_clicked;
  }

  tcp_rename-opts :
      (c : TcpClient.Client) (name : Option String)
      → TcpClient.Client.opts (TcpClientWin.rename c name) ≡ c.opts
  unfolding TcpClientWin.rename
  tcp_rename-opts c none = refl
  tcp_rename-opts c (some name) = refl

  tcp_press-applies :
      (c : TcpClient.Client) (f : TcpClientWin.Frame) (edited : TcpClient.Options)
      → f.apply ≡ true
      → TcpClient.Client.opts (TcpClientWin.press c f edited) ≡ edited
  unfolding TcpClientWin.press TcpClient.connect TcpClient.disconnect
  tcp_press-applies c f edited h =
      let applied : TcpClient.Client = if f.apply then TcpClient.set_options c edited else c in
      let e : applied.opts ≡ edited =
        if_yes TcpClient.Client.opts f.apply _ c h ∙ tcp_set_options-opts c edited in
      if_both TcpClient.Client.opts (TcpClient.is_connected applied) _ _ edited
        (if_both TcpClient.Client.opts f.disconnect_clicked _ _ edited e e)
        (if_both TcpClient.Client.opts f.connect_clicked _ _ edited
          (tcp_set_options-opts applied edited) e)

  tcp_press-keeps :
      (c : TcpClient.Client) (f : TcpClientWin.Frame) (edited : TcpClient.Options)
      → f.apply ≡ false
      → f.connect_clicked ≡ false
      → TcpClient.Client.opts (TcpClientWin.press c f edited) ≡ c.opts
  unfolding TcpClientWin.press TcpClient.connect TcpClient.disconnect
  tcp_press-keeps c f edited h g =
      let applied : TcpClient.Client = if f.apply then TcpClient.set_options c edited else c in
      let e : applied.opts ≡ c.opts = if_no TcpClient.Client.opts f.apply _ c h in
      if_both TcpClient.Client.opts (TcpClient.is_connected applied) _ _ c.opts
        (if_both TcpClient.Client.opts f.disconnect_clicked _ _ c.opts e e)
        (if_no TcpClient.Client.opts f.connect_clicked _ applied g ∙ e)

  pub tcp-IsEditor :
      IsEditor TcpClientWin.draw_tab_settings TcpClientWin.TcpClientWin.opts
        (λ s. s.client.opts)
        (λ s f. TcpClientWin.edit f)
        TcpClientWin.Frame.apply
        TcpClientWin.Frame.reset
        TcpClientWin.Frame.connect_clicked
  unfolding TcpClientWin.draw_tab_settings
  tcp-IsEditor = record {
    agrees = λ s f h.
        set_then_reset f.apply f.reset _ (TcpClientWin.edit f) h
          (tcp_press-applies (TcpClientWin.rename s.client f.name) f (TcpClientWin.edit f));
    shows = λ s f h. if_no (λ o. o) f.reset _ _ h;
    keeps = λ s f h g.
        tcp_press-keeps (TcpClientWin.rename s.client f.name) f (TcpClientWin.edit f) h g
        ∙ tcp_rename-opts s.client f.name;
  }

module _ ⦃coap : CoapApi⦄ where
  coap_connect_to-opts :
      (c : CoapClient.Client) (endpoints : List coap.Endpoint)
      → CoapClient.Client.opts (CoapClient.connect_to c endpoints) ≡ c.opts
  unfolding CoapClient.connect_to
  coap_connect_to-opts c [] = refl
  coap_connect_to-opts c (e ∷ es) = refl

  coap_set_options-opts :
      (c : CoapClient.Client) (opts : CoapClient.Options)
      → CoapClient.Client.opts (CoapClient.set_options c opts) ≡ opts
  unfolding CoapClient.set_options CoapClient.create_session
  coap_set_options-opts c opts = coap_connect_to-opts (record c { opts = opts }) _

  coap_rename-opts :
      (c : CoapClient.Client) (name : Option String)
      → CoapClient.Client.opts (CoapClientWin.rename c name) ≡ c.opts
  unfolding CoapClientWin.rename
  coap_rename-opts c none = refl
  coap_rename-opts c (some name) = refl

  pub coap-IsEditor :
      IsEditor CoapClientWin.draw_tab_settings CoapClientWin.CoapClientWin.opts
        (λ s. s.client.opts)
        (λ s f. CoapClientWin.edit f)
        CoapClientWin.Frame.apply
        CoapClientWin.Frame.reset
        (λ f. false)
  unfolding CoapClientWin.draw_tab_settings
  coap-IsEditor = record {
    agrees = λ s f h.
        let c = CoapClientWin.rename s.client f.name in
        set_then_reset f.apply f.reset _ (CoapClientWin.edit f) h (λ a.
          if_yes CoapClient.Client.opts f.apply _ c a
          ∙ coap_set_options-opts c (CoapClientWin.edit f));
    shows = λ s f h. if_no (λ o. o) f.reset _ _ h;
    keeps = λ s f h g.
        let c = CoapClientWin.rename s.client f.name in
        if_no CoapClient.Client.opts f.apply _ c h ∙ coap_rename-opts s.client f.name;
  }
