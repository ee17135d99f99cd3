-- ===== src/Gui/Windows.antt =====
-- libs/gui-common/src/window.cpp and window_manager.cpp: what every window has, and the windows that
-- float.
use device_tester.Prelude.{ℕ, Bool, true, false, not, ◌==◌, if◌then◌else◌, List, [], ◌∷◌, String}
use device_tester.TcpServer.{insert, erase}

pub record Window : Type 0 where
  pub title : String
  pub flags : ℕ
  pub visible : Bool

unfoldable pub make_window : String → ℕ → Window
make_window title flags = record { title = title; flags = flags; visible = true }

-- What `ImGui::Begin` reports: whether the content is to be drawn, and what it makes of the flag, which
-- the cross in the title bar clears.
pub record Begin : Type 0 where
  pub drawn : Bool
  pub kept : Bool

-- The window, and whether `updateContent` is called.
unfoldable pub update : Window → Begin → Window × Bool
update w b =
    if not w.visible
    then (w, false)
    else (let w' = record w { visible = b.kept } in if not b.drawn then (w', false) else (w', true))

-- The set of windows, the lowest address first. The windows themselves are in memory.
pub record WindowManager : Type 0 where
  pub windows : List ℕ

abbrev pub no_windows : WindowManager
no_windows = record { windows = [] }

unfoldable pub register_window : WindowManager → ℕ → WindowManager
register_window m win = record m { windows = insert win m.windows }

unfoldable pub unregister_window : WindowManager → ℕ → WindowManager
unregister_window m win = record m { windows = erase win m.windows }

unfoldable pub write_window : (ℕ → Window) → ℕ → Window → ℕ → Window
write_window memory p w q = if p == q then w else memory q

-- The loop over the windows: the memory after it, and whose `updateContent` was called.
unfoldable pub draw_each : (ℕ → Begin) → List ℕ → (ℕ → Window) → (ℕ → Window) × List ℕ
unfolding update write_window
draw_each begins [] memory = (memory, [])
draw_each begins (p ∷ ps) memory =
    let (w, content) = update (memory p) (begins p) in
    let (memory', drawn) = draw_each begins ps (write_window memory p w) in
    (memory', if content then p ∷ drawn else drawn)

unfoldable pub draw_all : WindowManager → (ℕ → Begin) → (ℕ → Window) → (ℕ → Window) × List ℕ
unfolding draw_each
draw_all m begins memory = draw_each begins m.windows memory
