-- ===== src/TcpServer/Accepting.antt =====
-- A server that says it runs and takes no client.
use device_tester.Prelude.{
  ap, inl, inr, ◌⊎◌, ◌≢◌, ℕ, ◌≡◌, ◌∙◌, Bool, true, false, some, none, List, [], ◌∷◌, Bytes, arith,
}
use device_tester.RingBuffer.Container.{CircularBuffer}
use device_tester.Connection.{IpProtocol}
use device_tester.Asio.{Arrival, aborted, broken, arrived, SocketApi}
use device_tester.TcpServer.{
  Server, stop_all, stop, is_running, listen, listen_on, start, handle_read, manager_stop,
}
use device_tester.TcpServer.Clients.{status, status-change_at, do_run-receive}
use device_tester.TcpServer.Frame.{
  Keeps, sends-Keeps, sends_all-Keeps, completes-Keeps, change-Keeps, failed_at, failed_at-Keeps,
  broken_cases,
}
use device_tester.TcpServer.Stopping.{status-stop}
use device_tester.TcpServer.Session
use device_tester.TcpServer.Calls.{
  Call, sets, starts, stops, accepts, reads, sends, sends_all, completes, step, run,
}

module _ ⦃net : SocketApi⦄ where
  -- No call in the list starts the server again.
  abbrev pub no_start : List Call → Bool
  no_start [] = true
  no_start (sets opts ∷ cs) = false
  no_start (starts ∷ cs) = false
  no_start (stops ∷ cs) = no_start cs
  no_start (accepts result ∷ cs) = no_start cs
  no_start (reads p a ∷ cs) = no_start cs
  no_start (sends p bytes ∷ cs) = no_start cs
  no_start (sends_all bytes ∷ cs) = no_start cs
  no_start (completes p x ∷ cs) = no_start cs

module _ ⦃box : CircularBuffer Bytes⦄ ⦃net : SocketApi⦄ where
  accepting-stop : (s : Server) → (stop s).accepting ≡ s.accepting
  unfolding stop stop_all
  accepting-stop s = ground arith

  accepting-read : (s : Server) (p : ℕ) (a : Arrival) → (handle_read s p a).accepting ≡ s.accepting
  unfolding handle_read manager_stop
  accepting-read s p a = ground arith

  -- Nothing is accepted, and no client is at `p`.
  record IsDeaf (p : ℕ) (s : Server) : Type 0 where
    waiting : s.accepting ≡ 0
    nobody : status (s.heap p) ≡ none

  Keeps-IsDeaf : (p : ℕ) (s t : Server) → Keeps s t → IsDeaf p s → IsDeaf p t
  Keeps-IsDeaf p s t k d = record {
    waiting = k.accepting ∙ d.waiting;
    nobody = k.statuses p ∙ d.nobody;
  }

  stop-IsDeaf : (p : ℕ) (s : Server) → IsDeaf p s → IsDeaf p (stop s)
  stop-IsDeaf p s d = record {
    waiting = accepting-stop s ∙ d.waiting;
    nobody = ground (arith, status-stop s p, d.nobody);
  }

  leave-IsDeaf : (p : ℕ) (s : Server) (q : ℕ) → IsDeaf p s → IsDeaf p (manager_stop s q)
  unfolding manager_stop
  leave-IsDeaf p s q d = record {
    waiting = d.waiting;
    nobody = ground (arith, status-change_at s.heap q p, d.nobody);
  }

  read-IsDeaf :
      (p : ℕ) (s : Server) (q : ℕ) (a : Arrival) → IsDeaf p s → IsDeaf p (handle_read s q a)
  unfolding handle_read
  read-IsDeaf p s q (arrived bytes) d =
      Keeps-IsDeaf p s _ (change-Keeps s q (λ c. Session.receive c bytes) (do_run-receive bytes)) d
  read-IsDeaf p s q aborted d = Keeps-IsDeaf p s (failed_at s q) (failed_at-Keeps s q) d
  read-IsDeaf p s q broken d =
      let d' = Keeps-IsDeaf p s (failed_at s q) (failed_at-Keeps s q) d in
      broken_cases (IsDeaf p) s q d' (λ _. leave-IsDeaf p (failed_at s q) q d')

  run-IsDeaf :
      (cs : List Call) (p : ℕ) (s : Server) → no_start cs ≡ true → IsDeaf p s → IsDeaf p (run s cs)
  unfolding run step
  run-IsDeaf [] p s n d = d
  run-IsDeaf (sets opts ∷ cs) p s n d = cc
  run-IsDeaf (starts ∷ cs) p s n d = cc
  run-IsDeaf (stops ∷ cs) p s n d = run-IsDeaf cs p (stop s) n (stop-IsDeaf p s d)
  run-IsDeaf (accepts result ∷ cs) p s n d =
      run-IsDeaf cs p (step s (accepts result)) n (ground (arith, d.waiting))
  run-IsDeaf (reads q a ∷ cs) p s n d =
      run-IsDeaf cs p (handle_read s q a) n (read-IsDeaf p s q a d)
  run-IsDeaf (sends q bytes ∷ cs) p s n d =
      run-IsDeaf cs p _ n (Keeps-IsDeaf p s _ (sends-Keeps s q bytes) d)
  run-IsDeaf (sends_all bytes ∷ cs) p s n d =
      run-IsDeaf cs p _ n (Keeps-IsDeaf p s _ (sends_all-Keeps s bytes) d)
  run-IsDeaf (completes q x ∷ cs) p s n d =
      run-IsDeaf cs p _ n (Keeps-IsDeaf p s _ (completes-Keeps s q x) d)

  -- The socket that was opened cannot be bound, or not be listened on; `left` is the one that is left.
  abbrev pub Fails : net.Socket → IpProtocol → ℕ → net.Socket → Type 0
  Fails opened version port left =
      ((net.bind opened version port ≡ none) × (left ≡ opened))
      ⊎ ((net.bind opened version port ≡ some left) × (net.listening left ≡ none))

  start-left :
      (s : Server) (version : IpProtocol) (opened left : net.Socket)
      → (stop s).opts.protocol ≡ version
      → version ≢ IpProtocol.none
      → net.open_socket (stop s).acceptor version ≡ some opened
      → Fails opened version (stop s).opts.port left
      → start s ≡ record (stop s) { acceptor = left }
  unfolding start listen_on listen
  start-left s version opened left protocol ne opens (inl (unbound, e)) = ground arith
  start-left s version opened left protocol ne opens (inr (bound, deaf)) = ground arith

  left-open :
      (opened left : net.Socket) (version : IpProtocol) (port : ℕ)
      → net.is_open opened ≡ true
      → Fails opened version port left
      → net.is_open left ≡ true
  left-open opened left version port o (inl (unbound, e)) = ap net.is_open e ∙ o
  left-open opened left version port o (inr (bound, deaf)) =
      net.is_open-bind opened left version port bound ∙ o

  -- If the address of a server that waits for no client cannot be bound, or not be listened on, then the
  -- server says that it runs, and takes no client until it is started again: no client is ever made at
  -- any address.
  pub bind_failure :
      (s : Server) (version : IpProtocol) (opened left : net.Socket) (cs : List Call) (p : ℕ)
      → s.accepting ≡ 0
      → (stop s).opts.protocol ≡ version
      → version ≢ IpProtocol.none
      → net.open_socket (stop s).acceptor version ≡ some opened
      → Fails opened version (stop s).opts.port left
      → no_start cs ≡ true
      → status (s.heap p) ≡ none
      → (is_running (start s) ≡ true) × (status ((run (start s) cs).heap p) ≡ none)
  bind_failure s version opened left cs p waits protocol ne opens fails n nobody =
      let d = stop-IsDeaf p s (record { waiting = waits; nobody = nobody }) in
      let deaf_server : Server = record (stop s) { acceptor = left } in
      let opened_one = net.is_open-open_socket (stop s).acceptor opened version opens in
      rw (start-left s version opened left protocol ne opens fails) (
        unfold is_running in left-open opened left version (stop s).opts.port opened_one fails,
        (run-IsDeaf cs p deaf_server n (record { waiting = d.waiting; nobody = d.nobody })).nobody,
      )
