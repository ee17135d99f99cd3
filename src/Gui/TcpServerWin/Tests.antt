-- ===== src/Gui/TcpServerWin/Tests.antt =====
-- A server with two clients, the console of one opened, and the client gone.
use device_tester.Prelude.{
  ℕ, ◌+◌, ◌≤◌, ◌≡◌, refl, true, false, ◌&&◌, ◌||◌, ◌==◌, some, List, [], ◌∷◌, arith, suc,
}
use device_tester.RingBuffer.Listed.{listed}
use device_tester.Asio.Loopback.{loopback}
use device_tester.Asio.{broken}
use device_tester.Connection.{ipv4}
use device_tester.TcpServer.{Server, insert}
use device_tester.TcpServer
use device_tester.TcpServer.Calls.{starts, accepts, reads}
use device_tester.TcpServer.Clients.{contains}
use device_tester.Gui.Windows.{WindowManager}
use device_tester.Gui.TcpServerWin.{create, ClientsFrame, Event, calls, clients, run}
use device_tester.Gui.TcpServerWin.Consoles.{held, run-create-exact}

-- An address that is above those of a list.
abbrev above : List ℕ → ℕ
above [] = 1
above (x ∷ xs) = suc x + above xs

not_above : (xs : List ℕ) (n : ℕ) → above xs ≤ n → contains xs n ≡ false
not_above [] n h = refl
not_above (x ∷ xs) n h = grind (arith, h, not_above xs n)

above_new : (xs : List ℕ) → contains xs (above xs) ≡ false
above_new xs = not_above xs (above xs) (omega arith)

abbrev server : Server
server = TcpServer.create (record { protocol = ipv4; port = 7000 })

abbrev windows : WindowManager
windows = record { windows = 5 ∷ [] }

abbrev ask_for_console : ClientsFrame
ask_for_console = record {
  names = λ p. "client";
  unfolded = λ p. true;
  console_clicked = λ p. p == 40;
}

abbrev use_consoles : List (Event above)
use_consoles =
    calls starts
    ∷ calls (accepts (some (40, loopback.fresh)))
    ∷ calls (accepts (some (30, loopback.fresh)))
    ∷ clients ask_for_console
    ∷ calls (reads 40 broken)
    ∷ []

run-create-exact_example :
    let s = run above (create server windows) use_consoles in
    (contains s.win_manager.windows 7 ≡ (contains windows.windows 7 || held s.client_wins 7))
    × ((contains windows.windows 7 && held s.client_wins 7) ≡ false)
run-create-exact_example =
    run-create-exact above above_new server windows use_consoles 7 (omega arith, tt)
