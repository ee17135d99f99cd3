-- ===== src/TcpServer/Stopping.antt =====
-- What stopping a TCP server does to its clients, and does not tell of them.
use device_tester.Prelude.{
  if◌then◌else◌, subst, ap, ℕ, ◌≡◌, refl, ◌∙◌, true, false, some, List, [], ◌∷◌, Bytes, arith,
}
use device_tester.RingBuffer.Container.{CircularBuffer}
use device_tester.Asio.{SocketApi}
use device_tester.TcpServer.{
  Options, connected, Server, create, stop_all, stop, is_running, number_of_connected_clients,
}
use device_tester.TcpServer.Clients.{contains, status, stopped, status-stop_each, runs}
use device_tester.TcpServer.Invariant.{run-create-Inv, stop-Inv}
use device_tester.TcpServer.Signals.{
  View, view, Life, same, joins, leaves, silenced, step-Life, announced, Story, run-create-Story,
}
use device_tester.TcpServer.Calls.{Call, step, run}

module _ ⦃box : CircularBuffer Bytes⦄ ⦃net : SocketApi⦄ where
  is_running-stop : (s : Server) → is_running (stop s) ≡ false
  unfolding is_running stop stop_all
  is_running-stop s = ground (arith, net.is_open-close (net.cancel s.acceptor))

  connections-stop : (s : Server) → (stop s).connections ≡ []
  unfolding stop stop_all
  connections-stop s = refl

  signals-stop : (s : Server) → (stop s).signals ≡ s.signals
  unfolding stop stop_all
  signals-stop s = ground arith

  pub status-stop :
      (s : Server) (p : ℕ)
      → status ((stop s).heap p)
        ≡ (if contains s.connections p then stopped (status (s.heap p)) else status (s.heap p))
  unfolding stop stop_all
  status-stop s p = ground (arith, status-stop_each s.connections s.heap p)

  -- A stopped server is not running, has no connected client, and none of the clients that it ever made
  -- runs; this after any calls on a new server.
  pub stop_lem :
      (opts : Options) (cs : List Call) (p : ℕ)
      → let s = stop (run (create opts) cs) in
        (is_running s ≡ false) × (number_of_connected_clients s ≡ 0) × (runs (s.heap p) ≡ false)
  unfolding number_of_connected_clients
  stop_lem opts cs p =
      let s = run (create opts) cs in
      let none_left = connections-stop s in
      (
        is_running-stop s,
        rw none_left refl,
        ground (arith, (stop-Inv s (run-create-Inv opts cs)).exact p, none_left),
      )

  Life-stopped :
      (v w : View) → Life v w → v.state ≡ some false → (w.state ≡ some false) × (w.log ≡ v.log)
  Life-stopped v w (same e l) h = (e ∙ h, l)
  Life-stopped v w (joins a b l) h = cc
  Life-stopped v w (leaves a b l) h = ground arith
  Life-stopped v w (silenced b a e l) h = (e, l)

  run_stopped :
      (cs : List Call) (s : Server) (p : ℕ)
      → status (s.heap p) ≡ some false
      → announced p (run s cs).signals ≡ announced p s.signals
  unfolding run
  run_stopped [] s p h = refl
  run_stopped (c ∷ cs) s p h =
      let (still, unsaid) = Life-stopped (view s p) (view (step s c) p) (step-Life s c p) h in
      run_stopped cs (step s c) p still ∙ unsaid

  -- The clients that are connected when a server is stopped are never signalled as disconnected: not by
  -- the stop, and not by anything that comes later.
  pub stop_tells_nobody :
      (opts : Options) (cs later : List Call) (p : ℕ)
      → contains (run (create opts) cs).connections p ≡ true
      → announced p (run (stop (run (create opts) cs)) later).signals ≡ connected ∷ []
  stop_tells_nobody opts cs later p h =
      let s = run (create opts) cs in
      let running : status (s.heap p) ≡ some true =
        ground (arith, (run-create-Inv opts cs).exact p) in
      let halted : status ((stop s).heap p) ≡ some false = ground (arith, status-stop s p) in
      run_stopped later (stop s) p halted
      ∙ ap (announced p) (signals-stop s)
      ∙ subst (λ o. Story o (announced p s.signals)) running (run-create-Story opts cs p)
