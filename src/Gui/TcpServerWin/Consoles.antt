-- ===== src/Gui/TcpServerWin/Consoles.antt =====
-- The consoles of the clients and the windows that float.
use device_tester.Prelude.{
  length, drop, ℕ, ◌≡◌, Bool, true, false, not, ◌&&◌, ◌||◌, ◌==◌, if◌then◌else◌, some, List, [],
  ◌∷◌, Bytes, Option-cases, Bool-cases, inl, inr, arith,
}
use mathlib.Core.Option.{none-ne-some}
use device_tester.RingBuffer.Container.{CircularBuffer}
use device_tester.Asio.{SocketApi}
use device_tester.TcpServer.{Server, ClientState, connected, disconnected, change}
use device_tester.TcpServer.Calls.{step}
use device_tester.TcpServer.Clients.{
  contains, Rising, contains-insert, contains-erase, insert-Rising, erase-Rising,
}
use device_tester.Gui.Windows.{WindowManager, register_window, unregister_window}
use device_tester.Gui.TcpServerWin.{
  name_client, ClientsFrame, find, erase_console, TcpServerWin, create, close_console,
  on_client_state, deliver, server_call, draw_tab_settings, open_console, toggle_console,
  draw_client, draw_clients, draw_custom_tabs, Event, calls, settings, clients, run,
}

-- Is a window one of the consoles?
abbrev pub held : List (ℕ × ℕ) → ℕ → Bool
held [] w = false
held ((p, console) ∷ ws) w = (console == w) || held ws w

abbrev Distinct : List (ℕ × ℕ) → Type 0
Distinct [] = Unit
Distinct ((p, console) ∷ ws) = (held ws console ≡ false) × Distinct ws

held-find : (ws : List (ℕ × ℕ)) (p console : ℕ) → find ws p ≡ some console → held ws console ≡ true
unfolding find
held-find [] p console e = absurd (none-ne-some console e)
held-find ((q, c) ∷ ws) p console e = grind (arith, e, held-find ws p console)

erase_absent :
    (ws : List (ℕ × ℕ)) (p w : ℕ) → held ws w ≡ false → held (erase_console ws p) w ≡ false
unfolding erase_console
erase_absent [] p w h = h
erase_absent ((q, c) ∷ ws) p w h = grind (arith, h, erase_absent ws p w)

held-erase :
    (ws : List (ℕ × ℕ)) (p console w : ℕ)
    → find ws p ≡ some console
    → Distinct ws
    → held (erase_console ws p) w ≡ (not (console == w) && held ws w)
unfolding find erase_console
held-erase [] p console w e d = absurd (none-ne-some console e)
held-erase ((q, c) ∷ ws) p console w e (n, d) =
    grind (arith, e, n, held-erase ws p console w, held-find ws p console)

erase-Distinct : (ws : List (ℕ × ℕ)) (p : ℕ) → Distinct ws → Distinct (erase_console ws p)
unfolding erase_console
erase-Distinct [] p d = tt
erase-Distinct ((q, c) ∷ ws) p (n, d) = elim (Bool-cases (q == p)) [
  | inl h ↦ rw (h, erase_console) d
  | inr h ↦ rw (h, erase_console) (erase_absent ws p c n, erase-Distinct ws p d)
]

module _ ⦃box : CircularBuffer Bytes⦄ ⦃net : SocketApi⦄ where
  -- The windows that float are those of others and the consoles, each console once.
  pub record Exact (others : List ℕ) (s : TcpServerWin) : Type 0 where
    pub rising : Rising 0 s.win_manager.windows
    pub exact :
        (w : ℕ) → contains s.win_manager.windows w ≡ (contains others w || held s.client_wins w)
    pub apart : (w : ℕ) → (contains others w && held s.client_wins w) ≡ false
    pub distinct : Distinct s.client_wins

  close_console-Exact :
      (others : List ℕ) (s : TcpServerWin) (p console : ℕ)
      → find s.client_wins p ≡ some console
      → Exact others s
      → Exact others (close_console s p console)
  unfolding close_console unregister_window
  close_console-Exact others s p console e x = record {
    rising = erase-Rising 0 console s.win_manager.windows x.rising;
    exact = λ w. grind (
      arith,
      contains-erase console 0 s.win_manager.windows w x.rising,
      x.exact w,
      held-erase s.client_wins p console w e x.distinct,
      held-find s.client_wins p console e,
      x.apart console,
    );
    apart = λ w. grind (arith, held-erase s.client_wins p console w e x.distinct, x.apart w);
    distinct = erase-Distinct s.client_wins p x.distinct;
  }

  on_client_state-Exact :
      (others : List ℕ) (s : TcpServerWin) (signal : ClientState × ℕ)
      → Exact others s
      → Exact others (on_client_state s signal)
  unfolding on_client_state
  on_client_state-Exact others s (connected, p) x = x
  on_client_state-Exact others s (disconnected, p) x = elim (Option-cases (find s.client_wins p)) [
    | inl e ↦ rw (e, on_client_state) x
    | inr (console, e) ↦ rw (e, on_client_state) (close_console-Exact others s p console e x)
  ]

  deliver-Exact :
      (others : List ℕ) (signals : List (ClientState × ℕ)) (s : TcpServerWin)
      → Exact others s
      → Exact others (deliver s signals)
  unfolding deliver
  deliver-Exact others [] s x = x
  deliver-Exact others (signal ∷ signals) s x =
      deliver-Exact others signals (on_client_state s signal)
        (on_client_state-Exact others s signal x)

  -- A change of the server alone.
  served :
      (others : List ℕ) (s : TcpServerWin) (server : Server)
      → Exact others s
      → Exact others (record s { server = server })
  served others s server x = record {
    rising = x.rising;
    exact = x.exact;
    apart = x.apart;
    distinct = x.distinct;
  }

  module _ (allocate : List ℕ → ℕ)
      (is_new : (ws : List ℕ) → contains ws (allocate ws) ≡ false) where
    open_console-Exact :
        (others : List ℕ) (s : TcpServerWin) (p : ℕ)
        → Exact others s
        → Exact others (open_console allocate s p)
    unfolding open_console register_window
    open_console-Exact others s p x =
        let new = allocate s.win_manager.windows in
        record {
          rising = insert-Rising 0 new s.win_manager.windows (omega arith) x.rising;
          exact = λ w. grind (arith, contains-insert new s.win_manager.windows w, x.exact w);
          apart =
              λ w. grind (arith, is_new s.win_manager.windows, x.exact w, x.exact new, x.apart w);
          distinct = (grind (arith, is_new s.win_manager.windows, x.exact new), x.distinct);
        }

    toggle_console-Exact :
        (others : List ℕ) (s : TcpServerWin) (p : ℕ)
        → Exact others s
        → Exact others (toggle_console allocate s p)
    unfolding toggle_console
    toggle_console-Exact others s p x = elim (Option-cases (find s.client_wins p)) [
      | inl e ↦ rw (e, toggle_console) (open_console-Exact others s p x)
      | inr (console, e) ↦ rw (e, toggle_console) (close_console-Exact others s p console e x)
    ]

    if-Exact :
        (others : List ℕ) (b : Bool) (s t : TcpServerWin)
        → Exact others s
        → Exact others t
        → Exact others (if b then s else t)
    if-Exact others true s t x y = x
    if-Exact others false s t x y = y

    draw_client-Exact :
        (others : List ℕ) (s : TcpServerWin) (f : ClientsFrame) (p : ℕ)
        → Exact others s
        → Exact others (draw_client allocate s f p)
    unfolding draw_client
    draw_client-Exact others s f p x =
        let named : Server = record s.server {
          heap = change s.server.heap p (name_client (f.names p));
        } in
        if-Exact others (f.unfolded p && f.console_clicked p)
          (toggle_console allocate (record s { server = named }) p) (record s { server = named })
          (toggle_console-Exact others (record s { server = named }) p (served others s named x))
          (served others s named x)

    draw_clients-Exact :
        (others : List ℕ) (f : ClientsFrame) (ps : List ℕ) (s : TcpServerWin)
        → Exact others s
        → Exact others (draw_clients allocate s f ps)
    unfolding draw_clients
    draw_clients-Exact others f [] s x = x
    draw_clients-Exact others f (p ∷ ps) s x =
        draw_clients-Exact others f ps (draw_client allocate s f p)
          (draw_client-Exact others s f p x)

    run-Exact :
        (others : List ℕ) (es : List (Event allocate)) (s : TcpServerWin)
        → Exact others s
        → Exact others (run allocate s es)
    unfolding run server_call draw_tab_settings draw_custom_tabs
    run-Exact others [] s x = x
    run-Exact others (calls c ∷ es) s x = run-Exact others es (server_call s c) (
        deliver-Exact others (drop (length s.server.signals) (step s.server c).signals)
          (record s { server = step s.server c }) (served others s (step s.server c) x))
    run-Exact others (settings f ∷ es) s x =
        run-Exact others es (draw_tab_settings s f)
          (record { rising = x.rising; exact = x.exact; apart = x.apart; distinct = x.distinct })
    run-Exact others (clients f ∷ es) s x =
        run-Exact others es (draw_custom_tabs allocate s f)
          (draw_clients-Exact others f s.server.connections s x)

    -- Whatever the server does, however its clients come and go, and whichever consoles the user opens and
    -- closes: if a new window is at an address that no floating window has, the floating windows are
    -- those there were before and the consoles in the map, no more and no less, and no window is both.
    pub run-create-exact :
        (server : Server) (windows : WindowManager) (es : List (Event allocate)) (w : ℕ)
        → Rising 0 windows.windows
        → let s = run allocate (create server windows) es in
          (contains s.win_manager.windows w ≡ (contains windows.windows w || held s.client_wins w))
          × ((contains windows.windows w && held s.client_wins w) ≡ false)
    unfolding create
    run-create-exact server windows es w r =
        let x = run-Exact windows.windows es (create server windows) (record {
          rising = r;
          exact = λ v. grind arith;
          apart = λ v. grind arith;
          distinct = tt;
        }) in
        (x.exact w, x.apart w)
