-- ===== src/TcpServer/Frame.antt =====
-- Bytes that come and go leave the set of clients alone.
use device_tester.Prelude.{
  Bool-cases, ℕ, ◌≡◌, refl, ◌∙◌, inl, inr, Bool, true, false, if◌then◌else◌, Option-cases, some,
  List, [], ◌∷◌, Bytes, Attempt, done, blocked, out_of_range, ◌>>=◌, after, arith,
}
use device_tester.RingBuffer.Container.{CircularBuffer}
use device_tester.Writer.{Pump, Completion, enqueue, start_write, on_sent}
use device_tester.Asio.{SocketApi, broken}
use device_tester.TcpServer.{
  manager_stop, handle_read, Server, put, change, send, send_to, send_to_all, handle_sent,
}
use device_tester.TcpServer.Session.{TcpServerClient}
use device_tester.TcpServer.Session
use device_tester.TcpServer.Clients.{runs, status, status-put, status-change}

module _ ⦃box : CircularBuffer Bytes⦄ ⦃net : SocketApi⦄ where
  -- `t` has the clients of `s`, each running or not as it did, and all else but their buffers.
  pub record Keeps (s t : Server) : Type 0 where
    pub statuses : (q : ℕ) → status (t.heap q) ≡ status (s.heap q)
    pub connections : t.connections ≡ s.connections
    pub signals : t.signals ≡ s.signals
    pub acceptor : t.acceptor ≡ s.acceptor
    pub accepting : t.accepting ≡ s.accepting

  pub Keeps-refl : (s : Server) → Keeps s s
  Keeps-refl s = record {
    statuses = λ q. refl;
    connections = refl;
    signals = refl;
    acceptor = refl;
    accepting = refl;
  }

  Keeps-trans : (s t u : Server) → Keeps s t → Keeps t u → Keeps s u
  Keeps-trans s t u h k = record {
    statuses = λ q. k.statuses q ∙ h.statuses q;
    connections = k.connections ∙ h.connections;
    signals = k.signals ∙ h.signals;
    acceptor = k.acceptor ∙ h.acceptor;
    accepting = k.accepting ∙ h.accepting;
  }

  put-Keeps :
      (s : Server) (p : ℕ) (c c' : TcpServerClient)
      → s.heap p ≡ some c
      → c'.do_run ≡ c.do_run
      → Keeps s (record s { heap = put s.heap p c' })
  put-Keeps s p c c' e same = record {
    statuses = λ q. ground (arith, status-put s.heap p c' q);
    connections = refl;
    signals = refl;
    acceptor = refl;
    accepting = refl;
  }

  -- What a call that may wait does to the running of a client.
  abbrev KeepsRun : TcpServerClient → Attempt TcpServerClient → Type 0
  KeepsRun c (done c') = c'.do_run ≡ c.do_run
  KeepsRun c _ = Unit {0}

  pumped :
      (c : TcpServerClient) (r : Attempt Pump)
      → KeepsRun c (r >>= λ pump. done (record c { pump = pump }))
  pumped c (done pump) = refl
  pumped c blocked = tt
  pumped c out_of_range = tt

  pumped_unless :
      (c : TcpServerClient) (busy : Bool) (r : Attempt Pump)
      → KeepsRun c (if busy then done c else (r >>= λ pump. done (record c { pump = pump })))
  pumped_unless c true r = refl
  pumped_unless c false r = pumped c r

  queued :
      (c : TcpServerClient) (r : Attempt Pump)
      → KeepsRun c (r >>= λ pump. Session.do_write (record c { pump = pump }))
  unfolding Session.do_write
  queued c (done pump) =
      pumped_unless (record c { pump = pump }) pump.write_in_progress (start_write pump)
  queued c blocked = tt
  queued c out_of_range = tt

  send-KeepsRun : (c : TcpServerClient) (bytes : Bytes) → KeepsRun c (Session.send c bytes)
  unfolding Session.send
  send-KeepsRun c bytes = queued c (enqueue c.pump bytes)

  sent-KeepsRun : (c : TcpServerClient) (x : Completion) → KeepsRun c (Session.handle_sent c x)
  unfolding Session.handle_sent
  sent-KeepsRun c x = pumped c (on_sent c.pump x)

  -- The same of the server.
  abbrev pub Returned : Server → Attempt Server → Type 0
  Returned s (done t) = Keeps s t
  Returned s _ = Unit {0}

  put_back :
      (s : Server) (p : ℕ) (c : TcpServerClient) (r : Attempt TcpServerClient)
      → s.heap p ≡ some c
      → KeepsRun c r
      → Returned s (r >>= λ c'. done (record s { heap = put s.heap p c' }))
  put_back s p c (done c') e k = put-Keeps s p c c' e k
  put_back s p c blocked e k = tt
  put_back s p c out_of_range e k = tt

  send-Returned : (s : Server) (p : ℕ) (bytes : Bytes) → Returned s (send s p bytes)
  unfolding send
  send-Returned s p bytes = elim (Option-cases (s.heap p)) [
    | inl e ↦ rw (e, send) (Keeps-refl s)
    | inr (c, e) ↦ rw (e, send) (put_back s p c (Session.send c bytes) e (send-KeepsRun c bytes))
  ]

  sent-Returned : (s : Server) (p : ℕ) (x : Completion) → Returned s (handle_sent s p x)
  unfolding handle_sent
  sent-Returned s p x = elim (Option-cases (s.heap p)) [
    | inl e ↦ rw (e, handle_sent) (Keeps-refl s)
    | inr (c, e) ↦
        rw (e, handle_sent) (put_back s p c (Session.handle_sent c x) e (sent-KeepsRun c x))
  ]

  Returned-trans : (s t : Server) (r : Attempt Server) → Keeps s t → Returned t r → Returned s r
  Returned-trans s t (done u) h k = Keeps-trans s t u h k
  Returned-trans s t blocked h k = tt
  Returned-trans s t out_of_range h k = tt

  send_to-Returned : (ps : List ℕ) (s : Server) (bytes : Bytes) → Returned s (send_to s ps bytes)
  unfolding send_to
  send_to-Returned [] s bytes = Keeps-refl s
  send_to-Returned (p ∷ ps) s bytes =
      go (send s p bytes) (send-Returned s p bytes) (send_to-Returned ps)
    where
      go :
          (r : Attempt Server)
          → Returned s r
          → ((t : Server) (b : Bytes) → Returned t (send_to t ps b))
          → Returned s (r >>= λ t. send_to t ps bytes)
      go (done t) h rest = Returned-trans s t (send_to t ps bytes) h (rest t bytes)
      go blocked h rest = tt
      go out_of_range h rest = tt

  after-Keeps : (s : Server) (r : Attempt Server) → Returned s r → Keeps s (after s r)
  after-Keeps s (done t) h = h
  after-Keeps s blocked h = Keeps-refl s
  after-Keeps s out_of_range h = Keeps-refl s

  -- The three calls that send.
  pub sends-Keeps : (s : Server) (p : ℕ) (bytes : Bytes) → Keeps s (after s (send s p bytes))
  sends-Keeps s p bytes = after-Keeps s (send s p bytes) (send-Returned s p bytes)

  pub sends_all-Keeps : (s : Server) (bytes : Bytes) → Keeps s (after s (send_to_all s bytes))
  unfolding send_to_all
  sends_all-Keeps s bytes =
      after-Keeps s (send_to s s.connections bytes) (send_to-Returned s.connections s bytes)

  pub completes-Keeps :
      (s : Server) (p : ℕ) (x : Completion) → Keeps s (after s (handle_sent s p x))
  completes-Keeps s p x = after-Keeps s (handle_sent s p x) (sent-Returned s p x)

  -- And a receive that does not take a client out of the set.
  pub change-Keeps :
      (s : Server) (p : ℕ) (f : TcpServerClient → TcpServerClient)
      → ((c : TcpServerClient) → (f c).do_run ≡ c.do_run)
      → Keeps s (record s { heap = change s.heap p f })
  change-Keeps s p f same = record {
    statuses = λ q. status-change s.heap p f q same;
    connections = refl;
    signals = refl;
    acceptor = refl;
    accepting = refl;
  }

  -- The server after a receive of the client at `p` has failed, before the client is looked at.
  abbrev pub failed_at : Server → ℕ → Server
  failed_at s p = record s { heap = change s.heap p Session.unread }

  pub failed_at-Keeps : (s : Server) (p : ℕ) → Keeps s (failed_at s p)
  unfolding Session.unread
  failed_at-Keeps s p = change-Keeps s p Session.unread (λ c. refl)

  -- The handler of a failed receive takes out a client that runs, and no other.
  pub broken_cases {ℓ} :
      (P : Server → Type ℓ) (s : Server) (p : ℕ)
      → P (failed_at s p)
      → (runs (s.heap p) ≡ true → P (manager_stop (failed_at s p) p))
      → P (handle_read s p broken)
  unfolding handle_read
  broken_cases P s p left out = elim (Option-cases (s.heap p)) [
    | inl e ↦ rw (e, handle_read) left
    | inr (c, e) ↦ elim (Bool-cases c.do_run) [
      | inl h ↦ rw (e, handle_read, h) (out (ground arith))
      | inr h ↦ rw (e, handle_read, h) left
    ]
  ]
