-- ===== src/Gui/ConnectionManager.antt =====
-- libs/gui-libcon/src/connection_manager_win.cpp: the list of the connections' windows, and the one that
-- is shown.
use device_tester.Prelude.{
  append_assoc, subst, Option-cases, ℕ, ◌≡◌, inl, inr, Bool, true, false, ◌||◌, ◌==◌, if◌then◌else◌,
  Option, some, none, List, [], ◌∷◌, ◌++◌, Bool-cases, arith,
}

pub data Kind : Type 0 where
  serial tcp_client tcp_server udp coap : Kind

-- A window in memory: its address, and what it is of.
pub record ConnectionWin : Type 0 where
  pub address : ℕ
  pub kind : Kind

-- The set of windows is a list of them, each address once.
pub record ConnectionManagerWin : Type 0 where
  pub connections : List ConnectionWin
  pub current : Option ConnectionWin

unfoldable pub create : ConnectionManagerWin
create = record { connections = []; current = none }

unfoldable pub contains : List ConnectionWin → ConnectionWin → Bool
contains [] w = false
contains (v ∷ vs) w = (v.address == w.address) || contains vs w

unfoldable pub emplace : List ConnectionWin → ConnectionWin → List ConnectionWin
unfolding contains
emplace vs w = if contains vs w then vs else vs ++ w ∷ []

unfoldable pub erase : List ConnectionWin → ConnectionWin → List ConnectionWin
erase [] w = []
erase (v ∷ vs) w = let rest = erase vs w in if v.address == w.address then vs else v ∷ rest

-- `registerConnection`: the windows of CoAP clients and serial ports are listed, the others are not.
unfoldable pub register_connection : ConnectionManagerWin → ConnectionWin → ConnectionManagerWin
register_connection s w = elim w.kind [
  | coap ↦ record s { connections = emplace s.connections w }
  | serial ↦ record s { connections = emplace s.connections w }
  | _ ↦ s
]

-- What the user does in a frame: which item of the menu makes a window, and at which address; which
-- windows of the list are clicked; whether the trash is.
pub record Frame : Type 0 where
  pub menu : Kind → Option ℕ
  pub clicked : ℕ → Bool
  pub trash : Bool

unfoldable pub menu_item : Frame → Kind → ConnectionManagerWin → ConnectionManagerWin
menu_item f kind s = elim (f.menu kind) [
  | none ↦ s
  | some address ↦
      let w : ConnectionWin = record { address = address; kind = kind } in
      record { connections = emplace s.connections w; current = some w }
]

unfoldable pub menu_bar : Frame → ConnectionManagerWin → ConnectionManagerWin
unfolding menu_item
menu_bar f s =
    menu_item f coap
      (menu_item f udp (menu_item f tcp_server (menu_item f tcp_client (menu_item f serial s))))

unfoldable pub select : Frame → List ConnectionWin → Option ConnectionWin → Option ConnectionWin
select f [] current = current
select f (v ∷ vs) current = select f vs (if f.clicked v.address then some v else current)

unfoldable pub left_pane : Frame → ConnectionManagerWin → ConnectionManagerWin
unfolding select
left_pane f s = record s { current = select f s.connections s.current }

unfoldable pub item_view : Frame → ConnectionManagerWin → ConnectionManagerWin
item_view f s = elim s.current [
  | none ↦ s
  | some w ↦ if f.trash then record { connections = erase s.connections w; current = none } else s
]

-- The tabs, which the window that is shown draws itself, are left out.
unfoldable pub update_content : Frame → ConnectionManagerWin → ConnectionManagerWin
unfolding menu_bar left_pane item_view
update_content f s = item_view f (left_pane f (menu_bar f s))

pub data Event : Type 0 where
  registers : ConnectionWin → Event
  frame : Frame → Event

unfoldable pub run : ConnectionManagerWin → List Event → ConnectionManagerWin
unfolding register_connection update_content
run s [] = s
run s (registers w ∷ es) = run (register_connection s w) es
run s (frame f ∷ es) = run (update_content f s) es

-- The window that is shown is one of the list.
abbrev pub IsListed : List ConnectionWin → Option ConnectionWin → Type 0
IsListed vs none = Unit
IsListed vs (some w) = contains vs w ≡ true

pub contains-append :
    (vs : List ConnectionWin) (v w : ConnectionWin)
    → contains (vs ++ v ∷ []) w ≡ (contains vs w || (v.address == w.address))
unfolding contains
contains-append [] v w = ground arith
contains-append (u ∷ vs) v w = ground (arith, contains-append vs v w)

pub emplace-IsListed :
    (vs : List ConnectionWin) (v : ConnectionWin) (o : Option ConnectionWin)
    → IsListed vs o
    → IsListed (emplace vs v) o
unfolding emplace
emplace-IsListed vs v none h = tt
emplace-IsListed vs v (some w) h = ground (arith, h, contains-append vs v w)

pub emplace-new : (vs : List ConnectionWin) (v : ConnectionWin) → contains (emplace vs v) v ≡ true
unfolding emplace
emplace-new vs v = ground (arith, contains-append vs v v)

menu_item-IsListed :
    (f : Frame) (kind : Kind) (s : ConnectionManagerWin)
    → IsListed s.connections s.current
    → let s' = menu_item f kind s in IsListed s'.connections s'.current
unfolding menu_item
menu_item-IsListed f kind s h = elim (Option-cases (f.menu kind)) [
  | inl e ↦ rw (e, menu_item) h
  | inr (a, e) ↦ rw (e, menu_item) (emplace-new s.connections (record { address = a; kind = kind }))
]

menu_bar-IsListed :
    (f : Frame) (s : ConnectionManagerWin)
    → IsListed s.connections s.current
    → let s' = menu_bar f s in IsListed s'.connections s'.current
unfolding menu_bar
menu_bar-IsListed f s h = menu_item-IsListed f coap _ (
    menu_item-IsListed f udp _ (
      menu_item-IsListed f tcp_server _
        (menu_item-IsListed f tcp_client _ (menu_item-IsListed f serial s h))))

-- A window is among those that come first, or after.
contains-middle :
    (us vs : List ConnectionWin) (v : ConnectionWin) → contains (us ++ v ∷ vs) v ≡ true
unfolding contains
contains-middle [] vs v = ground arith
contains-middle (u ∷ us) vs v = ground (arith, contains-middle us vs v)

select-IsListed :
    (f : Frame) (us vs : List ConnectionWin) (o : Option ConnectionWin)
    → IsListed (us ++ vs) o
    → IsListed (us ++ vs) (select f vs o)
unfolding select
select-IsListed f us [] o h = h
select-IsListed f us (v ∷ vs) o h =
    subst (λ ws. IsListed ws (select f vs (if f.clicked v.address then some v else o)))
      (append_assoc us (v ∷ []) vs)
      (select-IsListed f (us ++ v ∷ []) vs (if f.clicked v.address then some v else o) (
        rw (append_assoc us (v ∷ []) vs) (elim (Bool-cases (f.clicked v.address)) [
          | inl e ↦ rw e (contains-middle us vs v)
          | inr e ↦ rw e h
        ])))

item_view-IsListed :
    (f : Frame) (s : ConnectionManagerWin)
    → IsListed s.connections s.current
    → let s' = item_view f s in IsListed s'.connections s'.current
unfolding item_view
item_view-IsListed f s h = elim (Option-cases s.current) [
  | inl e ↦ rw (item_view, e) h
  | inr (w, e) ↦ elim (Bool-cases f.trash) [
    | inl t ↦ rw (item_view, e, t) tt
    | inr t ↦ rw (item_view, e, t) h
  ]
]

pub register-IsListed :
    (s : ConnectionManagerWin) (w : ConnectionWin) (kind : Kind)
    → IsListed s.connections s.current
    → let s' = register_connection s (record w { kind = kind }) in
      IsListed s'.connections s'.current
unfolding register_connection
register-IsListed s w serial h =
    emplace-IsListed s.connections (record w { kind = serial }) s.current h
register-IsListed s w tcp_client h = h
register-IsListed s w tcp_server h = h
register-IsListed s w udp h = h
register-IsListed s w coap h = emplace-IsListed s.connections (record w { kind = coap }) s.current h

pub update_content-IsListed :
    (f : Frame) (s : ConnectionManagerWin)
    → IsListed s.connections s.current
    → let s' = update_content f s in IsListed s'.connections s'.current
unfolding update_content left_pane
update_content-IsListed f s h =
    let t : ConnectionManagerWin = menu_bar f s in
    item_view-IsListed f (left_pane f t)
      (select-IsListed f [] t.connections t.current (menu_bar-IsListed f s h))

run-IsListed :
    (es : List Event) (s : ConnectionManagerWin)
    → IsListed s.connections s.current
    → let s' = run s es in IsListed s'.connections s'.current
unfolding run
run-IsListed [] s h = h
run-IsListed (registers w ∷ es) s h =
    run-IsListed es (register_connection s w) (register-IsListed s w w.kind h)
run-IsListed (frame f ∷ es) s h =
    run-IsListed es (update_content f s) (update_content-IsListed f s h)

-- After any registrations and frames of a new connection manager, whatever was made, clicked and thrown
-- away, the window that is shown, if there is one, is in the list.
pub run-create-IsListed :
    (es : List Event) → let s = run create es in IsListed s.connections s.current
unfolding create
run-create-IsListed es = run-IsListed es create tt
