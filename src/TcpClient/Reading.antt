-- ===== src/TcpClient/Reading.antt =====
-- How a TCP client connects and receives.
use device_tester.Prelude.{
  Bool, ℕ, ◌≡◌, ◌<◌, refl, ◌∙◌, true, false, List, [], ◌∷◌, ◌++◌, Bytes, append_assoc, append-nil,
  arith,
}
use device_tester.RingBuffer.Container.{CircularBuffer}
use device_tester.Connection.{on_receive, no_slots, format, text, number}
use device_tester.Asio.{aborted, broken, arrived, SocketApi}
use device_tester.TcpClient.{
  Options, resolved, unresolved, accepted, refused, Client, create, is_connected, connect,
  handle_resolve, handle_connect, handle_read, set_options, generate_readable_name,
}
use device_tester.TcpClient.Calls.{Call, sets, connects, resolves, greets, reads, step, run}

module _ ⦃net : SocketApi⦄ where
  -- The calls of asio for bytes that arrive in these portions.
  abbrev pub arrivals : List Bytes → List Call
  arrivals [] = []
  arrivals (b ∷ bs) = reads (arrived b) ∷ arrivals bs

  -- The calls for options, `connect`, a name that is found and a server that accepts.
  abbrev pub opening : Options → List (net.Address × ℕ) → net.Address → ℕ → List Call → List Call
  opening opts endpoints address port calls =
      sets opts ∷ connects ∷ resolves (resolved endpoints) ∷ greets (accepted address port) ∷ calls

module _ ⦃box : CircularBuffer Bytes⦄ ⦃net : SocketApi⦄ where
  abbrev after_arrival : Client → Bytes → Client
  after_arrival s b = record s { receiver = on_receive s.receiver b }

  arrival_keeps_reading :
      (s : Client) (b : Bytes)
      → s.should_run ≡ true
      → 0 < s.reading
      → step s (reads (arrived b)) ≡ after_arrival s b
  unfolding step handle_read
  arrival_keeps_reading s b h r = ground arith

  run-arrivals :
      (bs : List Bytes) (s : Client)
      → s.should_run ≡ true
      → 0 < s.reading
      → let s' = run s (arrivals bs) in
        (s'.receiver.received ≡ s.receiver.received ++ bs)
        × (s'.reading ≡ s.reading)
        × (is_connected s' ≡ is_connected s)
        × (generate_readable_name s' ≡ generate_readable_name s)
  unfolding run is_connected generate_readable_name
  run-arrivals [] s h r = (rw append-nil refl, refl, refl, refl)
  run-arrivals (b ∷ bs) s h r =
      let (received, reading, open_still, named) = run-arrivals bs (after_arrival s b) h r in
      rw (run, arrival_keeps_reading s b h r)
        (
          received ∙ unfold on_receive in append_assoc s.receiver.received (b ∷ []) bs,
          reading,
          open_still,
          named,
        )

  -- The client once the server has accepted.
  abbrev greeted : Options → net.Address → ℕ → Client
  greeted opts address port = record create {
    opts = opts;
    connection_str = format "[tcp-client] {}:{}" (text (net.to_string address) ∷ number port ∷ []);
    socket = net.connected net.fresh address port;
    reading = 1;
  }

  set_options-create : (opts : Options) → set_options create opts ≡ record create { opts = opts }
  unfolding set_options create
  set_options-create opts = ground (arith, net.is_open-fresh)

  run-opening_calls :
      (opts : Options) (endpoints : List (net.Address × ℕ)) (address : net.Address) (port : ℕ)
      (calls : List Call)
      → run create (opening opts endpoints address port calls)
        ≡ run (greeted opts address port) calls
  unfolding run step
  run-opening_calls opts endpoints address port calls =
      rw (run, set_options-create opts)
        (unfold connect handle_resolve handle_connect create in refl)

  -- A new client that is given options and connects, whose name is found and whose server accepts, is
  -- connected and is named after the server's address and port; it hands on every portion of bytes that
  -- arrives, in order, and after each one asio holds one receive again.
  pub run-opening :
      (opts : Options) (endpoints : List (net.Address × ℕ)) (address : net.Address) (port : ℕ)
      (bs : List Bytes)
      → let s = run create (opening opts endpoints address port (arrivals bs)) in
        (is_connected s ≡ true)
        × (generate_readable_name s
            ≡ format "[tcp-client] {}:{}" (text (net.to_string address) ∷ number port ∷ []))
        × (s.receiver.received ≡ bs)
        × (s.reading ≡ 1)
  run-opening opts endpoints address port bs =
      let s = greeted opts address port in
      let (received, reading, open_still, named) =
        run-arrivals bs s (unfold create in refl) (omega arith) in
      rw (run-opening_calls opts endpoints address port (arrivals bs)) (
        open_still ∙ unfold is_connected in net.is_open-connected net.fresh address port,
        named ∙ unfold generate_readable_name in refl,
        received ∙ unfold create no_slots in refl,
        reading,
      )

  -- The calls by which asio reports an error to the client.
  abbrev pub is_failure : Call → Bool
  is_failure (resolves unresolved) = true
  is_failure (greets refused) = true
  is_failure (reads aborted) = true
  is_failure (reads broken) = true
  is_failure _ = false

  -- Every error that asio reports while the client resolves, connects or reads closes the socket and
  -- clears `should_run_`.
  failure_closes :
      (s : Client) (c : Call)
      → is_failure c ≡ true
      → (is_connected (step s c) ≡ false) × ((step s c).should_run ≡ false)
  unfolding step is_connected handle_resolve handle_connect handle_read
  failure_closes s c h = ground (arith, net.is_open-close s.socket)
