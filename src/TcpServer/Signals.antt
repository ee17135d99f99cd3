-- ===== src/TcpServer/Signals.antt =====
-- The life of one client, as the slots of the state signal hear of it.
use device_tester.Prelude.{
  ℕ, ◌≡◌, refl, sym, ◌∙◌, ap, ◌⊎◌, inl, inr, Bool, true, false, ◌==◌, if◌then◌else◌, Bool-cases,
  Option, Option-cases, some, none, List, [], ◌∷◌, ◌++◌, Bytes, arith,
}
use device_tester.RingBuffer.Container.{CircularBuffer}
use device_tester.Connection.{IpProtocol, ipv4, ipv6}
use device_tester.Asio.{Arrival, aborted, broken, arrived, SocketApi}
use device_tester.TcpServer.{
  Options, ClientState, connected, disconnected, Server, create, manager_start, manager_stop,
  stop_all, stop, restart, listen, listen_on, start, set_options, handle_accept, handle_read,
  is_running,
}
use device_tester.TcpServer.Session.{TcpServerClient}
use device_tester.TcpServer.Session
use device_tester.TcpServer.Clients.{
  contains, status, status-put, status-change_at, status-stop_each, stopped, runs_of_status,
  do_run-receive, runs,
}
use device_tester.TcpServer.Frame.{
  Keeps, sends-Keeps, sends_all-Keeps, completes-Keeps, change-Keeps, failed_at, failed_at-Keeps,
  broken_cases,
}
use device_tester.TcpServer.Calls.{
  Call, sets, starts, stops, accepts, reads, sends, sends_all, completes, accept, step, run,
}

-- The signals about the client at `p`.
abbrev pub announced : ℕ → List (ClientState × ℕ) → List ClientState
announced p [] = []
announced p ((x, q) ∷ xs) = let rest = announced p xs in if q == p then x ∷ rest else rest

announced-append :
    (p : ℕ) (xs : List (ClientState × ℕ)) (x : ClientState) (q : ℕ)
    → announced p (xs ++ (x, q) ∷ [])
      ≡ (if q == p then announced p xs ++ x ∷ [] else announced p xs)
announced-append p [] x q = ground arith
announced-append p ((y, r) ∷ xs) x q = ground (arith, announced-append p xs x q)

-- A client as its observers see it: whether it was made and runs, and what was signalled.
pub record View : Type 0 where
  pub state : Option Bool
  pub log : List ClientState

-- What one call may do to a client: nothing; it joins, with a signal; it leaves, with a signal; or it is
-- stopped with no signal.
pub data Life (v w : View) : Type 0 where
  same : w.state ≡ v.state → w.log ≡ v.log → Life v w
  joins : v.state ≡ none → w.state ≡ some true → w.log ≡ v.log ++ connected ∷ [] → Life v w
  leaves :
      v.state ≡ some true → w.state ≡ some false → w.log ≡ v.log ++ disconnected ∷ [] → Life v w
  silenced : (b : Bool) → v.state ≡ some b → w.state ≡ some false → w.log ≡ v.log → Life v w

module _ ⦃box : CircularBuffer Bytes⦄ ⦃net : SocketApi⦄ where
  abbrev pub view : Server → ℕ → View
  view s p = record { state = status (s.heap p); log = announced p s.signals }

  Life-from : (v v' w : View) → v'.state ≡ v.state → v'.log ≡ v.log → Life v' w → Life v w
  Life-from v v' w e l (same a b) = same (a ∙ e) (b ∙ l)
  Life-from v v' w e l (joins a b c) = joins (ground arith) b (ground arith)
  Life-from v v' w e l (leaves a b c) = leaves (ground arith) b (ground arith)
  Life-from v v' w e l (silenced x a b c) = silenced x (sym e ∙ a) b (c ∙ l)

  Keeps-Life : (s t : Server) (p : ℕ) → Keeps s t → Life (view s p) (view t p)
  Keeps-Life s t p k = same (k.statuses p) (ap (announced p) k.signals)

  start-Life :
      (s : Server) (q : ℕ) (c : TcpServerClient) (p : ℕ)
      → s.heap q ≡ none
      → Life (view s p) (view (manager_start s q c) p)
  unfolding manager_start Session.start
  start-Life s q c p fresh =
      let told = announced-append p s.signals connected q in
      let placed = status-put s.heap q (Session.start c) p in
      elim (Bool-cases (q == p)) [
        | inl e ↦ joins (ground arith) (ground (arith, placed)) (ground (arith, told))
        | inr e ↦ same (ground (arith, placed)) (ground (arith, told))
      ]

  stop-Life :
      (s : Server) (q p : ℕ) → runs (s.heap q) ≡ true → Life (view s p) (view (manager_stop s q) p)
  unfolding manager_stop
  stop-Life s q p h =
      let told = announced-append p s.signals disconnected q in
      let halted = status-change_at s.heap q p in
      elim (Bool-cases (q == p)) [
        | inl e ↦ leaves (ground arith) (ground (arith, halted)) (ground (arith, told))
        | inr e ↦ same (ground (arith, halted)) (ground (arith, told))
      ]

  silenced_if :
      (v w : View) (among : Bool)
      → w.state ≡ (if among then stopped v.state else v.state)
      → w.log ≡ v.log
      → Life v w
  silenced_if v w false e l = same e l
  silenced_if v w true e l = elim (Option-cases v.state) [
    | inl h ↦ same (ground arith) l
    | inr (b, h) ↦ silenced b h (ground arith) l
  ]

  stop_all-Life : (s : Server) (p : ℕ) → Life (view s p) (view (stop_all s) p)
  unfolding stop_all
  stop_all-Life s p =
      silenced_if (view s p) _ (contains s.connections p) (status-stop_each s.connections s.heap p)
        refl

  halt-Life : (s : Server) (p : ℕ) → Life (view s p) (view (stop s) p)
  unfolding stop
  halt-Life s p = elim (Bool-cases (net.is_open s.acceptor)) [
    | inl o ↦ rw o (stop_all-Life (record s { acceptor = net.close (net.cancel s.acceptor) }) p)
    | inr o ↦ rw o (stop_all-Life s p)
  ]

  -- Listening is not about clients.
  heap-listen : (s : Server) (version : IpProtocol) → (listen s version).heap ≡ s.heap
  unfolding listen
  heap-listen s version = ground arith

  signals-listen : (s : Server) (version : IpProtocol) → (listen s version).signals ≡ s.signals
  unfolding listen
  signals-listen s version = ground arith

  listen_on-view :
      (s : Server) (version : IpProtocol) (p : ℕ) → view (listen_on s version) p ≡ view s p
  unfolding listen_on
  listen_on-view s IpProtocol.none p = refl
  listen_on-view s ipv4 p = rw (heap-listen s ipv4, signals-listen s ipv4) refl
  listen_on-view s ipv6 p = rw (heap-listen s ipv6, signals-listen s ipv6) refl

  begin-Life : (s : Server) (p : ℕ) → Life (view s p) (view (start s) p)
  unfolding start
  begin-Life s p = rw (listen_on-view (stop s) (stop s).opts.protocol p) (halt-Life s p)

  restart-Life : (s : Server) (p : ℕ) → Life (view s p) (view (restart s) p)
  unfolding restart
  restart-Life s p = elim (Bool-cases (is_running s)) [
    | inl h ↦ rw (h, restart) (begin-Life s p)
    | inr h ↦ rw (h, restart) (same refl refl)
  ]

  accept-Life :
      (s : Server) (result : Option (ℕ × net.Socket)) (p : ℕ)
      → Life (view s p) (view (accept s result) p)
  unfolding accept handle_accept manager_start
  accept-Life s none p = same refl refl
  accept-Life s (some (q, socket)) p = elim (Option-cases (s.heap q)) [
    | inr (other, e) ↦ rw (e, accept) (same refl refl)
    | inl e ↦
        rw (e, accept)
          (elim (Bool-cases (net.is_open s.acceptor)) [
            | inl o ↦ rw o (start-Life s q (Session.make socket) p e)
            | inr o ↦ rw o (same refl refl)
          ])
  ]

  read-Life :
      (s : Server) (q : ℕ) (a : Arrival) (p : ℕ) → Life (view s p) (view (handle_read s q a) p)
  unfolding handle_read
  read-Life s q (arrived bytes) p =
      Keeps-Life s _ p (change-Keeps s q (λ c. Session.receive c bytes) (do_run-receive bytes))
  read-Life s q aborted p = Keeps-Life s (failed_at s q) p (failed_at-Keeps s q)
  read-Life s q broken p =
      broken_cases (λ t. Life (view s p) (view t p)) s q
        (Keeps-Life s (failed_at s q) p (failed_at-Keeps s q))
        λ h.
          let k = failed_at-Keeps s q in
          let still = runs_of_status ((failed_at s q).heap q) (s.heap q) (k.statuses q) in
          Life-from (view s p) (view (failed_at s q) p) _ (k.statuses p)
            (ap (announced p) k.signals) (stop-Life (failed_at s q) q p (still ∙ h))

  -- Each call of the program or of asio moves each client along its life by one step at most: a client
  -- joins under a `connected` signal, leaves under a `disconnected` signal, or is stopped with no signal.
  pub step-Life : (s : Server) (c : Call) (p : ℕ) → Life (view s p) (view (step s c) p)
  unfolding step set_options
  step-Life s (sets opts) p = restart-Life (record s { opts = opts }) p
  step-Life s starts p = begin-Life s p
  step-Life s stops p = halt-Life s p
  step-Life s (accepts result) p = elim (Bool-cases (s.accepting == 0)) [
    | inl h ↦ rw h (same refl refl)
    | inr h ↦ rw h (accept-Life s result p)
  ]
  step-Life s (reads q a) p = read-Life s q a p
  step-Life s (sends q bytes) p = Keeps-Life s _ p (sends-Keeps s q bytes)
  step-Life s (sends_all bytes) p = Keeps-Life s _ p (sends_all-Keeps s bytes)
  step-Life s (completes q x) p = Keeps-Life s _ p (completes-Keeps s q x)

  -- What has been signalled about a client, by its state.
  abbrev pub Story : Option Bool → List ClientState → Type 0
  Story none log = log ≡ []
  Story (some true) log = log ≡ connected ∷ []
  Story (some false) log = (log ≡ connected ∷ []) ⊎ (log ≡ connected ∷ disconnected ∷ [])

  Life-Story : (v w : View) → Life v w → Story v.state v.log → Story w.state w.log
  Life-Story v w (same e l) h = rw (e, l) h
  Life-Story v w (joins a b l) h = ground arith
  Life-Story v w (leaves a b l) h = ground arith
  Life-Story v w (silenced true a b l) h = ground arith
  Life-Story v w (silenced false a b l) h = ground arith

  run-Story :
      (cs : List Call) (s : Server) (p : ℕ)
      → Story (status (s.heap p)) (announced p s.signals)
      → Story (status ((run s cs).heap p)) (announced p (run s cs).signals)
  unfolding run
  run-Story [] s p h = h
  run-Story (c ∷ cs) s p h =
      run-Story cs (step s c) p (Life-Story (view s p) (view (step s c) p) (step-Life s c p) h)

  -- After any calls on a new server, nothing was signalled about an address where no client was made;
  -- about a client that runs, `connected` once and nothing else; and about one that does not run,
  -- `connected` once and then `disconnected` at most once.
  pub run-create-Story :
      (opts : Options) (cs : List Call) (p : ℕ)
      → let s = run (create opts) cs in Story (status (s.heap p)) (announced p s.signals)
  unfolding create
  run-create-Story opts cs p = run-Story cs (create opts) p refl
