-- ===== src/Gui/Console/UdpDevice.antt =====
-- The UDP connection as a connection that has a console.
use device_tester.Prelude.{
  Bool, true, false, ◌≡◌, refl, subst, some, [], ◌∷◌, Bytes, done, after, arith,
}
use device_tester.RingBuffer.Container.{CircularBuffer}
use device_tester.Asio.{Arrival, aborted, broken, arrived, SocketApi}
use device_tester.Connection.{IpProtocol, ipv4, ipv6, on_receive, connect_on_receive}
use device_tester.Gui.Console.{Device, Grows}
use device_tester.Gui.Console.Invariant.{some-inj, unchanged}
use device_tester.UdpConnection.{
  Options, Udp, send, do_write, set_options, restart, start_receive, listen_on, listen, give_up,
  set_write_endpoint, set_receiving, disconnect, handle_read, handle_sent, start_read,
}
use device_tester.UdpConnection.Calls.{
  Call, sets, receives, reads, sends, completes, subscribes, step,
}

module _ ⦃box : CircularBuffer Bytes⦄ ⦃net : SocketApi⦄ where
  sent-received :
      (s t : Udp) (bytes : Bytes)
      → send s bytes ≡ done t
      → t.receiver.received ≡ s.receiver.received
  unfolding send do_write
  sent-received s t bytes e = ground arith

  after-received :
      (s : Udp) (bytes : Bytes) → (after s (send s bytes)).receiver.received ≡ s.receiver.received
  unfolding send do_write
  after-received s bytes = ground arith

  read-Grows :
      (s : Udp) (a : Arrival) → Grows s.receiver.received (handle_read s a).receiver.received
  unfolding handle_read on_receive disconnect start_read
  read-Grows s (arrived bytes) = (bytes ∷ [], ground arith)
  read-Grows s aborted = unchanged _ _ refl
  read-Grows s broken = unchanged _ _ refl

  listen_on-received :
      (s : Udp) (version : IpProtocol)
      → (listen_on s version).receiver.received ≡ s.receiver.received
  unfolding listen_on listen give_up start_read
  listen_on-received s IpProtocol.none = refl
  listen_on-received s ipv4 = ground arith
  listen_on-received s ipv6 = ground arith

  start_receive-received : (s : Udp) → (start_receive s).receiver.received ≡ s.receiver.received
  unfolding start_receive
  start_receive-received s = listen_on-received s s.opts.listen_protocol

  restart-received : (s : Udp) → (restart s).receiver.received ≡ s.receiver.received
  unfolding restart disconnect
  restart-received s = ground (arith, start_receive-received (disconnect s))

  set_options-received :
      (s : Udp) (opts : Options) → (set_options s opts).receiver.received ≡ s.receiver.received
  unfolding set_options set_write_endpoint
  set_options-received s opts = ground (arith, restart-received (record s { opts = opts }))

  set_receiving-received :
      (s : Udp) (wanted : Bool) → (set_receiving s wanted).receiver.received ≡ s.receiver.received
  unfolding set_receiving disconnect
  set_receiving-received s true = start_receive-received s
  set_receiving-received s false = refl

  step-Grows : (s : Udp) (c : Call) → Grows s.receiver.received (step s c).receiver.received
  unfolding step handle_sent connect_on_receive
  step-Grows s (sets opts) = unchanged _ _ (set_options-received s opts)
  step-Grows s (receives wanted) = unchanged _ _ (set_receiving-received s wanted)
  step-Grows s (reads arrival) = read-Grows s arrival
  step-Grows s (sends bytes) = unchanged _ _ (after-received s bytes)
  step-Grows s (completes c) = unchanged _ _ (ground arith)
  step-Grows s (subscribes slot) = unchanged _ _ refl

  abbrev udp : Device
  udp = record {
    State = Udp;
    Call = Call;
    received = λ s. s.receiver.received;
    send = send;
    step = λ s c. some (step s c);
    received-send = sent-received;
    received-step = λ s t c e.
        subst (λ t. Grows s.receiver.received t.receiver.received) (some-inj (step s c) t e)
          (step-Grows s c);
  }
