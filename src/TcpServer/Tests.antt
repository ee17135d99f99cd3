-- ===== src/TcpServer/Tests.antt =====
-- A TCP server that takes two clients and is stopped.
use device_tester.Prelude.{inl, ◌≡◌, refl, true, false, some, none, List, [], ◌∷◌}
use device_tester.RingBuffer.Listed.{listed}
use device_tester.Asio.Loopback.{loopback, taken_port}
use device_tester.Asio.{broken}
use device_tester.Connection.{ipv4}
use device_tester.TcpServer.{
  insert, Options, connected, create, start, stop, listen_on, stop_all, listen, stop_each,
  handle_accept, manager_start, put, is_running, number_of_connected_clients,
}
use device_tester.TcpServer.Clients.{contains, runs, status}
use device_tester.TcpServer.Invariant.{Inv, run-create-Inv}
use device_tester.TcpServer.Signals.{announced, Story, run-create-Story}
use device_tester.TcpServer.Stopping.{stop_lem, stop_tells_nobody}
use device_tester.TcpServer.Accepting.{bind_failure}
use device_tester.TcpServer.Calls.{Call, starts, accepts, reads, step, run}

abbrev on_7 : Options
on_7 = record { protocol = ipv4; port = 7 }

abbrev two_clients : List Call
two_clients = starts ∷ accepts (some (20, true)) ∷ accepts (some (10, true)) ∷ []

in_order : (run (create on_7) two_clients).connections ≡ 10 ∷ 20 ∷ []
unfolding run step create start stop listen_on stop_all listen stop_each handle_accept manager_start
    put insert
in_order = refl

run-create-Inv_example : Inv (run (create on_7) two_clients)
run-create-Inv_example = run-create-Inv on_7 two_clients

run-create-Story_example :
    let s = run (create on_7) two_clients in Story (status (s.heap 20)) (announced 20 s.signals)
run-create-Story_example = run-create-Story on_7 two_clients 20

stop_lem_example :
    let s = stop (run (create on_7) two_clients) in
    (is_running s ≡ false) × (number_of_connected_clients s ≡ 0) × (runs (s.heap 20) ≡ false)
stop_lem_example = stop_lem on_7 two_clients 20

is_connected_at : contains (run (create on_7) two_clients).connections 20 ≡ true
unfolding run step create start stop listen_on stop_all listen stop_each handle_accept manager_start
    put insert
is_connected_at = refl

stop_tells_nobody_example :
    announced 20 (run (stop (run (create on_7) two_clients)) (reads 20 broken ∷ [])).signals
    ≡ connected ∷ []
stop_tells_nobody_example =
    stop_tells_nobody on_7 two_clients (reads 20 broken ∷ []) 20 is_connected_at

abbrev on_taken : Options
on_taken = record { protocol = ipv4; port = taken_port }

bind_failure_example :
    (is_running (start (create on_taken)) ≡ true)
    × (status ((run (start (create on_taken)) (accepts (some (10, true)) ∷ [])).heap 10) ≡ none)
unfolding create stop stop_all
bind_failure_example =
    bind_failure (create on_taken) ipv4 true true (accepts (some (10, true)) ∷ []) 10 refl refl
      (λ e. cc) refl (inl (refl, refl)) refl refl
