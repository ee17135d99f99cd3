-- ===== src/Gui/Console/TcpDevice.antt =====
-- The TCP client as a connection that has a console.
use device_tester.Prelude.{◌≡◌, refl, subst, some, [], ◌∷◌, Bytes, done, after, arith}
use device_tester.RingBuffer.Container.{CircularBuffer}
use device_tester.Asio.{Arrival, aborted, broken, arrived, SocketApi}
use device_tester.Connection.{on_receive, connect_on_receive}
use device_tester.Gui.Console.{Device, Grows}
use device_tester.Gui.Console.Invariant.{some-inj, unchanged}
use device_tester.TcpClient.{
  refused, unresolved, resolved, accepted, Resolution, Handshake, Client, send, do_write,
  set_options, connect, disconnect, handle_resolve, handle_connect, handle_read, handle_sent,
  start_read,
}
use device_tester.TcpClient.Calls.{
  Call, sets, connects, disconnects, resolves, greets, reads, sends, completes, subscribes, step,
}

module _ ⦃box : CircularBuffer Bytes⦄ ⦃net : SocketApi⦄ where
  pub sent-received :
      (s t : Client) (bytes : Bytes)
      → send s bytes ≡ done t
      → t.receiver.received ≡ s.receiver.received
  unfolding send do_write
  sent-received s t bytes e = ground arith

  after-received :
      (s : Client) (bytes : Bytes)
      → (after s (send s bytes)).receiver.received ≡ s.receiver.received
  unfolding send do_write
  after-received s bytes = ground arith

  read-Grows :
      (s : Client) (a : Arrival) → Grows s.receiver.received (handle_read s a).receiver.received
  unfolding handle_read on_receive disconnect start_read
  read-Grows s (arrived bytes) = (bytes ∷ [], ground arith)
  read-Grows s aborted = unchanged _ _ refl
  read-Grows s broken = unchanged _ _ refl

  greet-Grows :
      (s : Client) (result : Handshake)
      → Grows s.receiver.received (handle_connect s result).receiver.received
  unfolding handle_connect disconnect start_read
  greet-Grows s refused = unchanged _ _ refl
  greet-Grows s (accepted address port) = unchanged _ _ refl

  resolve-Grows :
      (s : Client) (result : Resolution)
      → Grows s.receiver.received (handle_resolve s result).receiver.received
  unfolding handle_resolve disconnect
  resolve-Grows s unresolved = unchanged _ _ refl
  resolve-Grows s (resolved endpoints) = unchanged _ _ refl

  pub step-Grows : (s : Client) (c : Call) → Grows s.receiver.received (step s c).receiver.received
  unfolding step set_options connect disconnect handle_sent connect_on_receive
  step-Grows s (sets opts) = unchanged _ _ (ground arith)
  step-Grows s connects = unchanged _ _ refl
  step-Grows s disconnects = unchanged _ _ refl
  step-Grows s (resolves result) = resolve-Grows s result
  step-Grows s (greets result) = greet-Grows s result
  step-Grows s (reads arrival) = read-Grows s arrival
  step-Grows s (sends bytes) = unchanged _ _ (after-received s bytes)
  step-Grows s (completes c) = unchanged _ _ (ground arith)
  step-Grows s (subscribes slot) = unchanged _ _ refl

  abbrev pub tcp : Device
  tcp = record {
    State = Client;
    Call = Call;
    received = λ s. s.receiver.received;
    send = send;
    step = λ s c. some (step s c);
    received-send = sent-received;
    received-step = λ s t c e.
        subst (λ t. Grows s.receiver.received t.receiver.received) (some-inj (step s c) t e)
          (step-Grows s c);
  }
