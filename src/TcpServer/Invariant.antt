-- ===== src/TcpServer/Invariant.antt =====
-- The set of clients is in order, and holds exactly the clients that run.
use device_tester.TcpServer.Frame.{
  Keeps, sends-Keeps, sends_all-Keeps, completes-Keeps, change-Keeps, failed_at, failed_at-Keeps,
  broken_cases,
}
use device_tester.TcpServer.Calls.{
  Call, sets, starts, stops, accepts, reads, sends, sends_all, completes, accept, step, run,
}
use device_tester.TcpServer.Clients.{runs_of_status, do_run-receive}
use device_tester.Connection.{IpProtocol, ipv4, ipv6}
use device_tester.Prelude.{
  [], none, ◌-◌, ◌∷◌, Option-cases, inr, inl, sym, Bool-cases, some, ◌∙◌, ap, subst, ℕ, ◌≡◌, refl,
  Option, List, Bytes, arith,
}
use device_tester.RingBuffer.Container.{CircularBuffer}
use device_tester.Asio.{aborted, broken, arrived, Arrival, SocketApi}
use device_tester.TcpServer.{
  is_running, restart, start_accept, handle_accept, stop, listen_on, set_options, handle_read,
  listen, start, Options, Server, create, manager_start, manager_stop, stop_all,
}
use device_tester.TcpServer.Session.{TcpServerClient}
use device_tester.TcpServer.Session
use device_tester.TcpServer.Clients.{
  contains, Rising, contains-insert, contains-erase, insert-Rising, erase-Rising, runs,
  runs_of_status, do_run-receive, runs-put, runs-change-stop, runs-stop_each,
}

module _ ⦃box : CircularBuffer Bytes⦄ ⦃net : SocketApi⦄ where
  abbrev pub Holds : (ℕ → Option TcpServerClient) → List ℕ → Type 0
  Holds heap connections = (p : ℕ) → contains connections p ≡ runs (heap p)

  pub record Inv (s : Server) : Type 0 where
    pub exact : Holds s.heap s.connections
    pub rising : Rising 0 s.connections

  create-Inv : (opts : Options) → Inv (create opts)
  unfolding create
  create-Inv opts = record { exact = λ p. refl; rising = tt }

  manager_start-Inv : (s : Server) (p : ℕ) (c : TcpServerClient) → Inv s → Inv (manager_start s p c)
  unfolding manager_start Session.start
  manager_start-Inv s p c v = record {
    exact = λ q. ground (
      arith,
      contains-insert p s.connections q,
      runs-put s.heap p (Session.start c) q,
      v.exact q,
    );
    rising = insert-Rising 0 p s.connections (omega arith) v.rising;
  }

  manager_stop-Inv : (s : Server) (p : ℕ) → Inv s → Inv (manager_stop s p)
  unfolding manager_stop
  manager_stop-Inv s p v = record {
    exact = λ q. ground (
      arith,
      contains-erase p 0 s.connections q v.rising,
      runs-change-stop s.heap p q,
      v.exact q,
    );
    rising = erase-Rising 0 p s.connections v.rising;
  }

  stop_all-Inv : (s : Server) → Inv s → Inv (stop_all s)
  unfolding stop_all
  stop_all-Inv s v = record {
    exact = λ q. ground (arith, runs-stop_each s.connections s.heap q, v.exact q);
    rising = tt;
  }

  Keeps-Inv : (s t : Server) → Keeps s t → Inv s → Inv t
  Keeps-Inv s t k v = record {
    exact = λ q.
        ap (λ ps. contains ps q) k.connections
        ∙ v.exact q
        ∙ sym (runs_of_status (t.heap q) (s.heap q) (k.statuses q));
    rising = subst (Rising 0) (sym k.connections) v.rising;
  }

  pub stop-Inv : (s : Server) → Inv s → Inv (stop s)
  unfolding stop
  stop-Inv s v = elim (Bool-cases (net.is_open s.acceptor)) [
    | inl o ↦ rw o (stop_all-Inv _ (record { exact = v.exact; rising = v.rising }))
    | inr o ↦ rw o (stop_all-Inv s v)
  ]

  listen-Inv : (s : Server) (version : IpProtocol) → Inv s → Inv (listen s version)
  unfolding listen
  listen-Inv s version v = elim (Option-cases (net.open_socket s.acceptor version)) [
    | inl e ↦ rw (e, listen) v
    | inr (opened, e) ↦ elim (Option-cases (net.bind opened version s.opts.port)) [
      | inl e' ↦ rw (e, listen, e') (record { exact = v.exact; rising = v.rising })
      | inr (bound, e') ↦ elim (Option-cases (net.listening bound)) [
        | inl f ↦ rw (e, listen, e', f) (record { exact = v.exact; rising = v.rising })
        | inr (ready, f) ↦ rw (e, listen, e', f) (record { exact = v.exact; rising = v.rising })
      ]
    ]
  ]

  listen_on-Inv : (s : Server) (version : IpProtocol) → Inv s → Inv (listen_on s version)
  unfolding listen_on
  listen_on-Inv s IpProtocol.none v = v
  listen_on-Inv s ipv4 v = listen-Inv s ipv4 v
  listen_on-Inv s ipv6 v = listen-Inv s ipv6 v

  start-Inv : (s : Server) → Inv s → Inv (start s)
  unfolding start
  start-Inv s v = listen_on-Inv (stop s) (stop s).opts.protocol (stop-Inv s v)

  restart-Inv : (s : Server) → Inv s → Inv (restart s)
  unfolding restart
  restart-Inv s v = elim (Bool-cases (is_running s)) [
    | inl h ↦ rw (h, restart) (start-Inv s v)
    | inr h ↦ rw (h, restart) v
  ]

  set_options-Inv : (s : Server) (opts : Options) → Inv s → Inv (set_options s opts)
  unfolding set_options
  set_options-Inv s opts v =
      restart-Inv (record s { opts = opts }) (record { exact = v.exact; rising = v.rising })

  -- The server once a client is in, and asio has been asked for the next one.
  abbrev pub admitted : Server → ℕ → net.Socket → Server
  admitted s p socket =
      let s' = record s { accepting = s.accepting - 1 } in
      start_accept (manager_start s' p (Session.make socket))

  admitted-Inv : (s : Server) (p : ℕ) (socket : net.Socket) → Inv s → Inv (admitted s p socket)
  unfolding start_accept
  admitted-Inv s p socket v =
      let s' : Server = record s { accepting = s.accepting - 1 } in
      let v' =
        manager_start-Inv s' p (Session.make socket)
          (record { exact = v.exact; rising = v.rising }) in
      record { exact = v'.exact; rising = v'.rising }

  accept-Inv : (s : Server) (result : Option (ℕ × net.Socket)) → Inv s → Inv (accept s result)
  unfolding accept handle_accept
  accept-Inv s none v = record { exact = v.exact; rising = v.rising }
  accept-Inv s (some (p, socket)) v = elim (Option-cases (s.heap p)) [
    | inr (other, e) ↦ rw (e, accept) v
    | inl e ↦
        rw (e, accept)
          (elim (Bool-cases (net.is_open s.acceptor)) [
            | inl o ↦ rw o (admitted-Inv s p socket v)
            | inr o ↦ rw o (record { exact = v.exact; rising = v.rising })
          ])
  ]

  read-Inv : (s : Server) (p : ℕ) (a : Arrival) → Inv s → Inv (handle_read s p a)
  unfolding handle_read Session.unread
  read-Inv s p (arrived bytes) v =
      Keeps-Inv s _ (change-Keeps s p (λ c. Session.receive c bytes) (do_run-receive bytes)) v
  read-Inv s p aborted v = Keeps-Inv s (failed_at s p) (failed_at-Keeps s p) v
  read-Inv s p broken v =
      broken_cases Inv s p (Keeps-Inv s (failed_at s p) (failed_at-Keeps s p) v) (λ _.
        manager_stop-Inv (failed_at s p) p (Keeps-Inv s (failed_at s p) (failed_at-Keeps s p) v))

  -- Every call keeps it so.
  step-Inv : (s : Server) (c : Call) → Inv s → Inv (step s c)
  unfolding step
  step-Inv s (sets opts) v = set_options-Inv s opts v
  step-Inv s starts v = start-Inv s v
  step-Inv s stops v = stop-Inv s v
  step-Inv s (accepts result) v = ground (arith, accept-Inv s result v)
  step-Inv s (reads p a) v = read-Inv s p a v
  step-Inv s (sends p bytes) v = Keeps-Inv s _ (sends-Keeps s p bytes) v
  step-Inv s (sends_all bytes) v = Keeps-Inv s _ (sends_all-Keeps s bytes) v
  step-Inv s (completes p x) v = Keeps-Inv s _ (completes-Keeps s p x) v

  pub run-Inv : (cs : List Call) (s : Server) → Inv s → Inv (run s cs)
  unfolding run
  run-Inv [] s v = v
  run-Inv (c ∷ cs) s v = run-Inv cs (step s c) (step-Inv s c v)

  -- After any calls of the program and of asio on a new server, the set of connected clients is in the
  -- order of their addresses and holds exactly the clients that run.
  pub run-create-Inv : (opts : Options) (cs : List Call) → Inv (run (create opts) cs)
  run-create-Inv opts cs = run-Inv cs (create opts) (create-Inv opts)
