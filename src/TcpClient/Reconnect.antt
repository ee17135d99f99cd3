-- ===== src/TcpClient/Reconnect.antt =====
-- What a disconnect leaves behind. `should_run_` is set when the client is made and never again, so a
-- client that has been disconnected once is never the same after it connects again.
use device_tester.Prelude.{
  ◌-◌, ◌≡◌, refl, true, false, List, [], ◌∷◌, ◌++◌, Bytes, done, ◌>>=◌, after, arith,
}
use device_tester.RingBuffer.Container.{CircularBuffer}
use device_tester.Writer.{enqueue}
use device_tester.Connection.{on_receive}
use device_tester.Asio.{aborted, broken, arrived, SocketApi}
use device_tester.TcpClient.{
  Options, resolved, unresolved, accepted, refused, Client, is_connected, connect, disconnect,
  handle_resolve, handle_connect, handle_read, send, handle_sent, set_options,
}
use device_tester.TcpClient.Calls.{
  Call, sets, connects, disconnects, resolves, greets, reads, sends, completes, subscribes, step,
  run,
}

module _ ⦃box : CircularBuffer Bytes⦄ ⦃net : SocketApi⦄ where
  sends_stopped :
      (s : Client) (bytes : Bytes)
      → s.should_run ≡ false
      → (after s (send s bytes)).should_run ≡ false
  unfolding send
  sends_stopped s bytes h = ground arith

  step_stopped : (s : Client) (c : Call) → s.should_run ≡ false → (step s c).should_run ≡ false
  unfolding step set_options connect disconnect handle_resolve handle_connect handle_read
      handle_sent
  step_stopped s (sets opts) h = ground arith
  step_stopped s connects h = h
  step_stopped s disconnects h = refl
  step_stopped s (resolves (resolved endpoints)) h = h
  step_stopped s (resolves unresolved) h = refl
  step_stopped s (greets (accepted address port)) h = h
  step_stopped s (greets refused) h = refl
  step_stopped s (reads (arrived bytes)) h = ground arith
  step_stopped s (reads aborted) h = refl
  step_stopped s (reads broken) h = refl
  step_stopped s (sends bytes) h = sends_stopped s bytes h
  step_stopped s (completes c) h = ground arith
  step_stopped s (subscribes slot) h = h

  run_stopped : (cs : List Call) (s : Client) → s.should_run ≡ false → (run s cs).should_run ≡ false
  unfolding run
  run_stopped [] s h = h
  run_stopped (c ∷ cs) s h = run_stopped cs (step s c) (step_stopped s c h)

  disconnected : (s : Client) (cs : List Call) → (run (disconnect s) cs).should_run ≡ false
  unfolding disconnect
  disconnected s cs = run_stopped cs _ refl

  send_stopped :
      (s : Client) (bytes : Bytes)
      → s.should_run ≡ false
      → send s bytes ≡ (enqueue s.pump bytes >>= λ pump. done (record s { pump = pump }))
  unfolding send
  send_stopped s bytes h = ground arith

  read_stopped :
      (s : Client) (bytes : Bytes)
      → s.should_run ≡ false
      → let s' = handle_read s (arrived bytes) in
        (s'.reading ≡ s.reading - 1) × (s'.receiver.received ≡ s.receiver.received ++ bytes ∷ [])
  unfolding handle_read on_receive
  read_stopped s bytes h = ground arith

  -- After a disconnect, and whatever comes later, a new connection among it: a message that the program
  -- sends only joins the queue, so that the call starts no send, or it waits if the queue is full; and
  -- bytes that arrive are handed on, but asio is not asked for more.
  pub run-disconnect :
      (s : Client) (cs : List Call) (bytes : Bytes)
      → let s' = run (disconnect s) cs in
        let s'' = handle_read s' (arrived bytes) in
        (send s' bytes ≡ (enqueue s'.pump bytes >>= λ pump. done (record s' { pump = pump })))
        × (s''.reading ≡ s'.reading - 1)
        × (s''.receiver.received ≡ s'.receiver.received ++ bytes ∷ [])
  run-disconnect s cs bytes =
      let s' = run (disconnect s) cs in
      let stopped = disconnected s cs in
      let (asks, hands) = read_stopped s' bytes stopped in
      (send_stopped s' bytes stopped, asks, hands)

  -- Options that are set while the client is connected close the socket and look up the new server, and
  -- leave the client as a disconnect does: whatever comes later, a message that is sent only joins the
  -- queue, or waits.
  pub send-set_options :
      (s : Client) (opts : Options) (cs : List Call) (bytes : Bytes)
      → is_connected s ≡ true
      → let s' = set_options s opts in
        let s'' = run s' cs in
        (is_connected s' ≡ false)
        × (s'.resolving ≡ s.resolving ++ opts ∷ [])
        × (send s'' bytes ≡ (enqueue s''.pump bytes >>= λ pump. done (record s'' { pump = pump })))
  unfolding set_options
  send-set_options s opts cs bytes o =
      rw (o, set_options)
        (net.is_open-close s.socket, refl, send_stopped (run _ cs) bytes (run_stopped cs _ refl))
