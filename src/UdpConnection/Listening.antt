-- ===== src/UdpConnection/Listening.antt =====
-- When a UDP connection listens.
use device_tester.Prelude.{
  Option-cases, ◌<◌, ◌≡◌, refl, inl, inr, true, false, List, [], ◌∷◌, Bytes, after, arith, ◌∙◌,
}
use device_tester.RingBuffer.Container.{CircularBuffer}
use device_tester.Connection.{IpProtocol, ipv4, ipv6}
use device_tester.Asio.{aborted, broken, arrived, SocketApi}
use device_tester.UdpConnection.{
  restart, create, Options, Udp, is_receiving, disconnect, give_up, listen, listen_on,
  start_receive, set_write_endpoint, set_options, set_receiving, handle_read, send, handle_sent,
}
use device_tester.UdpConnection.Calls.{
  Call, sets, receives, reads, sends, completes, subscribes, step, run,
}

module _ ⦃box : CircularBuffer Bytes⦄ ⦃net : SocketApi⦄ where
  -- A connection that receives has an open socket and a receive that asio has not completed.
  pub record IsArmed (s : Udp) : Type 0 where
    pub opened : s.should_receive ≡ true → net.is_open s.socket ≡ true
    pub waiting : s.should_receive ≡ true → 0 < s.reading

  listen-IsArmed : (s : Udp) (p : IpProtocol) → IsArmed (listen s p)
  unfolding listen
  listen-IsArmed s p = elim (Option-cases (net.open_socket s.socket p)) [
    | inl e ↦ rw (e, listen) (record { opened = λ h. cc; waiting = λ h. cc })
    | inr (opened, e) ↦ elim (Option-cases (net.bind opened p s.opts.listen_port)) [
      | inl e' ↦ rw (e, listen, e') (record { opened = λ h. cc; waiting = λ h. cc })
      | inr (bound, e') ↦
          rw (e, listen, e')
            (record {
              opened = λ h.
                  net.is_open-bind opened bound p s.opts.listen_port e'
                  ∙ net.is_open-open_socket s.socket opened p e;
              waiting = λ h. omega arith;
            })
    ]
  ]

  start_receive-IsArmed : (s : Udp) → IsArmed s → IsArmed (start_receive s)
  unfolding start_receive
  start_receive-IsArmed s v = go s.opts.listen_protocol
    where
      go : (p : IpProtocol) → IsArmed (listen_on s p)
      go IpProtocol.none = v
      go ipv4 = listen-IsArmed _ ipv4
      go ipv6 = listen-IsArmed _ ipv6

  disconnect-IsArmed : (s : Udp) → IsArmed (disconnect s)
  unfolding disconnect
  disconnect-IsArmed s = record { opened = λ e. cc; waiting = λ e. cc }

  set_write_endpoint-IsArmed : (s : Udp) → IsArmed s → IsArmed (set_write_endpoint s)
  unfolding set_write_endpoint
  set_write_endpoint-IsArmed s v = ground arith

  restart-IsArmed : (s : Udp) → IsArmed s → IsArmed (restart s)
  unfolding restart
  restart-IsArmed s v = ground (arith, start_receive-IsArmed (disconnect s) (disconnect-IsArmed s))

  abbrev with_options : Udp → Options → Udp
  with_options s opts = record s { opts = opts }

  set_options-IsArmed : (s : Udp) (opts : Options) → IsArmed s → IsArmed (set_options s opts)
  unfolding set_options
  set_options-IsArmed s opts v =
      set_write_endpoint-IsArmed (restart (with_options s opts))
        (restart-IsArmed (with_options s opts) (record { opened = v.opened; waiting = v.waiting }))

  sends-IsArmed : (s : Udp) (bytes : Bytes) → IsArmed s → IsArmed (after s (send s bytes))
  unfolding send
  sends-IsArmed s bytes v = ground arith

  -- Every call keeps it so.
  step-IsArmed : (s : Udp) (c : Call) → IsArmed s → IsArmed (step s c)
  unfolding step set_receiving handle_read handle_sent
  step-IsArmed s (sets opts) v = set_options-IsArmed s opts v
  step-IsArmed s (receives true) v = start_receive-IsArmed s v
  step-IsArmed s (receives false) v = disconnect-IsArmed s
  step-IsArmed s (reads (arrived bytes)) v = ground arith
  step-IsArmed s (reads aborted) v = record { opened = λ e. cc; waiting = λ e. cc }
  step-IsArmed s (reads broken) v = record { opened = λ e. cc; waiting = λ e. cc }
  step-IsArmed s (sends bytes) v = sends-IsArmed s bytes v
  step-IsArmed s (completes c) v = ground arith
  step-IsArmed s (subscribes slot) v = record { opened = v.opened; waiting = v.waiting }

  create-IsArmed : (opts : Options) → IsArmed (create opts)
  unfolding create
  create-IsArmed opts = record { opened = λ e. cc; waiting = λ e. cc }

  run-IsArmed : (cs : List Call) (s : Udp) → IsArmed s → IsArmed (run s cs)
  unfolding run
  run-IsArmed [] s v = v
  run-IsArmed (c ∷ cs) s v = run-IsArmed cs (step s c) (step-IsArmed s c v)

  -- After any calls of the program and of asio on a new connection, if it says that it receives, then
  -- its socket is open and asio holds a receive that will call it back.
  pub run-create-IsArmed :
      (opts : Options) (cs : List Call)
      → is_receiving (run (create opts) cs) ≡ true
      → let s = run (create opts) cs in (net.is_open s.socket ≡ true) × (0 < s.reading)
  unfolding is_receiving
  run-create-IsArmed opts cs h =
      let v = run-IsArmed cs (create opts) (create-IsArmed opts) in (v.opened h, v.waiting h)

  -- The socket stays as it is, or is open: nothing but the end of the connection closes one.
  listen-open : (s : Udp) (p : IpProtocol) → net.is_open s.socket ≡ true → listen s p ≡ give_up s
  unfolding listen
  listen-open s p o = rw (net.open_twice s.socket p o, listen)

  -- A connection whose socket is open and that does not receive.
  record IsDeaf (s : Udp) : Type 0 where
    opened : net.is_open s.socket ≡ true
    silent : s.should_receive ≡ false

  deafened : (s : Udp) (version : IpProtocol) → IsDeaf s → IsDeaf (listen_on s version)
  unfolding listen_on
  deafened s IpProtocol.none d = d
  deafened s ipv4 d = ground (arith, net.open_twice s.socket ipv4 d.opened)
  deafened s ipv6 d = ground (arith, net.open_twice s.socket ipv6 d.opened)

  start_receive-IsDeaf : (s : Udp) → IsDeaf s → IsDeaf (start_receive s)
  unfolding start_receive
  start_receive-IsDeaf s d = deafened s s.opts.listen_protocol d

  disconnect-IsDeaf : (s : Udp) → net.is_open s.socket ≡ true → IsDeaf (disconnect s)
  unfolding disconnect
  disconnect-IsDeaf s o = record { opened = net.is_open-cancel s.socket ∙ o; silent = refl }

  set_write_endpoint-IsDeaf : (s : Udp) → IsDeaf s → IsDeaf (set_write_endpoint s)
  unfolding set_write_endpoint
  set_write_endpoint-IsDeaf s d = ground arith

  -- On an open socket, applying options leaves the connection deaf, whether it received before or not.
  restart-IsDeaf : (s : Udp) → net.is_open s.socket ≡ true → IsDeaf (restart s)
  unfolding restart is_receiving
  restart-IsDeaf s o = ground (arith, start_receive-IsDeaf (disconnect s) (disconnect-IsDeaf s o))

  set_options-IsDeaf :
      (s : Udp) (opts : Options) → net.is_open s.socket ≡ true → IsDeaf (set_options s opts)
  unfolding set_options
  set_options-IsDeaf s opts o =
      set_write_endpoint-IsDeaf (restart (with_options s opts))
        (restart-IsDeaf (with_options s opts) o)

  sends-IsDeaf : (s : Udp) (bytes : Bytes) → IsDeaf s → IsDeaf (after s (send s bytes))
  unfolding send
  sends-IsDeaf s bytes v = ground arith

  step-IsDeaf : (s : Udp) (c : Call) → IsDeaf s → IsDeaf (step s c)
  unfolding step set_receiving handle_read handle_sent
  step-IsDeaf s (sets opts) d = set_options-IsDeaf s opts d.opened
  step-IsDeaf s (receives true) d = start_receive-IsDeaf s d
  step-IsDeaf s (receives false) d = disconnect-IsDeaf s d.opened
  step-IsDeaf s (reads (arrived bytes)) d = ground arith
  step-IsDeaf s (reads aborted) d = record {
    opened = net.is_open-cancel s.socket ∙ d.opened;
    silent = refl;
  }
  step-IsDeaf s (reads broken) d = record {
    opened = net.is_open-cancel s.socket ∙ d.opened;
    silent = refl;
  }
  step-IsDeaf s (sends bytes) d = sends-IsDeaf s bytes d
  step-IsDeaf s (completes c) d = ground arith
  step-IsDeaf s (subscribes slot) d = record { opened = d.opened; silent = d.silent }

  run-IsDeaf : (cs : List Call) (s : Udp) → IsDeaf s → IsDeaf (run s cs)
  unfolding run
  run-IsDeaf [] s d = d
  run-IsDeaf (c ∷ cs) s d = run-IsDeaf cs (step s c) (step-IsDeaf s c d)

  -- While the socket is open, options that are applied and a reception that is switched off both end the
  -- reception for good: the connection does not receive then, nor after any later calls, a call of
  -- `setReceiving(true)` among them.
  pub silent_for_good :
      (s : Udp) (opts : Options) (cs : List Call)
      → net.is_open s.socket ≡ true
      → (is_receiving (run (set_options s opts) cs) ≡ false)
        × (is_receiving (run (set_receiving s false) cs) ≡ false)
  unfolding is_receiving set_receiving
  silent_for_good s opts cs o = (
    (run-IsDeaf cs (set_options s opts) (set_options-IsDeaf s opts o)).silent,
    (run-IsDeaf cs (disconnect s) (disconnect-IsDeaf s o)).silent,
  )
