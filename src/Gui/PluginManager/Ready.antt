-- ===== src/Gui/PluginManager/Ready.antt =====
-- The window of the plugins never reads past the end of a vector, if every script has an action.
use device_tester.Prelude.{
  ℕ, ◌+◌, ◌<◌, ◌≤◌, ◌≡◌, refl, sym, ap, subst, zero, suc, Bool, ◌&&◌, if◌then◌else◌, Option, some,
  none, List, [], ◌∷◌, ◌++◌, Bytes, length, length-append, get_elem?, Option-cases, Bool-cases, inl,
  inr, arith,
}
use text.Mathlib.Text.{◌==◌ as str_eq}
use device_tester.RingBuffer.Container.{CircularBuffer}
use device_tester.Asio.{SocketApi}
use device_tester.Asio.SerialPort.{SerialApi}
use device_tester.CoapClient.Library.{CoapApi}
use device_tester.Plugin.{
  LuaPlugin, ◌>>=◌, load, setup_actions, setup_connections, call_lua, replace,
}
use device_tester.Plugin.Strand.{draw_gui}
use device_tester.Gui.ConnectionManager.{ConnectionManagerWin, IsListed}
use device_tester.Gui.PluginManager.{
  ◌>>=◌ as and_then, File, Frame, PluginManagerWin, Drawn, drawn, threw, out_of_range,
  load_lua_plugin, load_file, menu_bar, select, left_pane, draw_action, item_view, update_content,
  create,
}
use device_tester.Gui.PluginManager.Loading.{register_all-IsListed, register_all-current}

abbrev InRange : Option ℕ → ℕ → Type 0
InRange none n = Unit
InRange (some i) n = i < n

module _ ⦃box : CircularBuffer Bytes⦄ ⦃net : SocketApi⦄ ⦃api : SerialApi⦄ ⦃coap : CoapApi⦄ where
  abbrev AllActive : List LuaPlugin → Type 0
  AllActive [] = Unit
  AllActive (p ∷ ps) = (0 < length p.actions) × AllActive ps

  pub record Ready (s : PluginManagerWin) : Type 0 where
    pub listed : IsListed s.connection_manager_win.connections s.connection_manager_win.current
    pub in_range : InRange s.current (length s.loaded_plugins)
    pub active : AllActive s.loaded_plugins

  -- Drawing may throw, but it does not read out of range, and it leaves the window ready.
  abbrev pub Safe : Drawn PluginManagerWin → Type 0
  Safe (drawn t) = Ready t
  Safe threw = Unit
  Safe out_of_range = ⊥

  -- The scripts that the user may choose have an action.
  abbrev pub HasAction : Option File → Type 0
  HasAction none = Unit
  HasAction (some file) = 0 < length file.script.actions

  AllActive-append :
      (ps : List LuaPlugin) (p : LuaPlugin)
      → AllActive ps
      → 0 < length p.actions
      → AllActive (ps ++ p ∷ [])
  AllActive-append [] p h a = (a, tt)
  AllActive-append (q ∷ qs) p (b, h) a = (b, AllActive-append qs p h a)

  AllActive-replace :
      (i : ℕ) (p : LuaPlugin) (ps : List LuaPlugin)
      → AllActive ps
      → 0 < length p.actions
      → AllActive (replace i p ps)
  unfolding replace
  AllActive-replace i p [] h a = tt
  AllActive-replace zero p (q ∷ qs) (b, h) a = (a, h)
  AllActive-replace (suc i) p (q ∷ qs) (b, h) a = (b, AllActive-replace i p qs h a)

  length-replace :
      (i : ℕ) (p : LuaPlugin) (ps : List LuaPlugin) → length (replace i p ps) ≡ length ps
  unfolding replace
  length-replace i p [] = refl
  length-replace zero p (q ∷ qs) = refl
  length-replace (suc i) p (q ∷ qs) = ap suc (length-replace i p qs)

  abbrev HasActions : ℕ → Option LuaPlugin → Type 0
  HasActions n none = Unit
  HasActions n (some t) = n ≤ length t.actions

  setup_actions-HasActions :
      (actions : List (Option ℕ)) (s : LuaPlugin)
      → HasActions (length s.actions + length actions) (setup_actions actions s)
  unfolding setup_actions
  setup_actions-HasActions [] s = omega arith
  setup_actions-HasActions (none ∷ as') s = tt
  setup_actions-HasActions (some f ∷ as') s =
      subst (λ n. HasActions n (setup_actions as' (record s { actions = s.actions ++ f ∷ [] })))
        (omega (arith, length-append s.actions (f ∷ [])))
        (setup_actions-HasActions as' (record s { actions = s.actions ++ f ∷ [] }))

  bind-HasActions :
      {A : Type 0} (n : ℕ) (o : Option A) (k : A → Option LuaPlugin)
      → ((a : A) → HasActions n (k a))
      → HasActions n (o >>= k)
  bind-HasActions n none k h = tt
  bind-HasActions n (some a) k h = h a

  then-HasActions :
      (m n : ℕ) (o : Option LuaPlugin) (k : LuaPlugin → Option LuaPlugin)
      → HasActions m o
      → ((t : LuaPlugin) → m ≤ length t.actions → HasActions n (k t))
      → HasActions n (o >>= k)
  then-HasActions m n none k h g = tt
  then-HasActions m n (some t) k h g = g t h

  load-HasActions :
      (file : File)
      → HasActions (length file.script.actions) (load file.mcast file.line file.script)
  unfolding load call_lua
  load-HasActions file =
      let n = length file.script.actions in
      bind-HasActions n file.script.name _ (λ name.
        bind-HasActions n file.script.description _ (λ description.
          bind-HasActions n (setup_connections file.mcast file.line file.script.connections _) _
            (λ s.
              then-HasActions (length s.actions + n) n (setup_actions file.script.actions s) _
                (setup_actions-HasActions file.script.actions s)
                (λ t l. bind-HasActions n file.script.setup _ (λ f. omega (arith, l))))))

  select-InRange :
      (clicked : ℕ → Bool) (i : ℕ) (ps : List LuaPlugin) (o : Option ℕ) (n : ℕ)
      → i + length ps ≡ n
      → InRange o n
      → InRange (select clicked i ps o) n
  unfolding select
  select-InRange clicked i [] o n e h = h
  select-InRange clicked i (p ∷ ps) o n e h =
      select-InRange clicked (i + 1) ps (if clicked i then some i else o) n (omega (arith, e))
        (elim (Bool-cases (clicked i)) [ inl c ↦ rw c (omega (arith, e)) | inr c ↦ rw c h ])

  active_at :
      (ps : List LuaPlugin) (i : ℕ)
      → AllActive ps
      → i < length ps
      → (p : LuaPlugin) × (get_elem? ps i ≡ some p) × (0 < length p.actions)
  active_at [] i h l = absurd (omega (arith, l))
  active_at (p ∷ ps) zero (a, h) l = (p, refl, a)
  active_at (p ∷ ps) (suc i) (a, h) l = active_at ps i h (omega (arith, l))

  draw_action-Safe :
      (s : PluginManagerWin) (i : ℕ) (p : LuaPlugin) (actions : List ℕ)
      → Ready s
      → p.actions ≡ actions
      → 0 < length actions
      → Safe (draw_action s i p actions)
  unfolding draw_action draw_gui call_lua
  draw_action-Safe s i p [] r e l = absurd (omega (arith, l))
  draw_action-Safe s i p (action ∷ actions) r e l = record {
    listed = r.listed;
    in_range = subst (InRange s.current) (sym (length-replace i _ s.loaded_plugins)) r.in_range;
    active = AllActive-replace i _ s.loaded_plugins r.active (rw e l);
  }

  view_at-Safe :
      (s : PluginManagerWin) (o : Option ℕ)
      → s.current ≡ o
      → Ready s
      → InRange o (length s.loaded_plugins)
      → Safe (item_view s)
  unfolding item_view
  view_at-Safe s none e r h = rw (e, item_view) r
  view_at-Safe s (some i) e r h =
      let (p, g, a) = active_at s.loaded_plugins i r.active h in
      rw (e, item_view, g) (draw_action-Safe s i p p.actions r refl a)

  left_pane-Ready : (s : PluginManagerWin) (f : Frame) → Ready s → Ready (left_pane s f)
  unfolding left_pane
  left_pane-Ready s f r = record {
    listed = r.listed;
    in_range =
        select-InRange f.clicked 0 s.loaded_plugins s.current (length s.loaded_plugins)
          (omega arith) r.in_range;
    active = r.active;
  }

  InRange-more : (o : Option ℕ) (m n : ℕ) → m ≤ n → InRange o m → InRange o n
  InRange-more none m n l h = tt
  InRange-more (some i) m n l h = omega (arith, l, h)

  load_file-Safe :
      (s : PluginManagerWin) (addresses : ℕ → ℕ) (file : File)
      → Ready s
      → 0 < length file.script.actions
      → Safe (load_file s addresses file)
  unfolding load_file load_lua_plugin
  load_file-Safe s addresses file r a =
      elim (Option-cases (load file.mcast file.line file.script)) [
        | inl e ↦ rw (e, load_file, load_lua_plugin) tt
        | inr (p, e) ↦
            let w = s.connection_manager_win in
            let k : length file.script.actions ≤ length p.actions =
              subst (HasActions (length file.script.actions)) e (load-HasActions file) in
            rw (e, load_file, load_lua_plugin)
              (record {
                listed =
                    rw (register_all-current addresses 0 p.connections w)
                      (register_all-IsListed addresses 0 p.connections w w.current r.listed);
                in_range =
                    InRange-more s.current (length s.loaded_plugins)
                      (length (s.loaded_plugins ++ p ∷ []))
                      (omega (arith, length-append s.loaded_plugins (p ∷ []))) r.in_range;
                active = AllActive-append s.loaded_plugins p r.active (omega (arith, a, k));
              })
      ]

  menu_bar-Safe :
      (s : PluginManagerWin) (f : Frame) (o : Option File)
      → f.dialog ≡ o
      → Ready s
      → HasAction o
      → Safe (menu_bar s f)
  unfolding menu_bar
  menu_bar-Safe s f none e r a = rw (e, menu_bar) r
  menu_bar-Safe s f (some file) e r a =
      elim (Bool-cases (file.regular && str_eq file.extension ".lua")) [
        | inl c ↦ rw (e, menu_bar, c) (load_file-Safe s f.addresses file r a)
        | inr c ↦ rw (e, menu_bar, c) r
      ]

  bind-Safe :
      (d : Drawn PluginManagerWin) (k : PluginManagerWin → Drawn PluginManagerWin)
      → Safe d
      → ((t : PluginManagerWin) → Ready t → Safe (k t))
      → Safe (and_then d k)
  bind-Safe (drawn t) k h g = g t h
  bind-Safe threw k h g = tt
  bind-Safe out_of_range k h g = h

  pub update_content-Safe :
      (s : PluginManagerWin) (f : Frame) → Ready s → HasAction f.dialog → Safe (update_content s f)
  unfolding update_content
  update_content-Safe s f r a =
      bind-Safe (menu_bar s f) _ (menu_bar-Safe s f f.dialog refl r a) (λ t q.
        let l = left_pane-Ready t f q in
        view_at-Safe (left_pane t f) (left_pane t f).current refl l l.in_range)

  pub create-Ready :
      (w : ConnectionManagerWin) → IsListed w.connections w.current → Ready (create w)
  unfolding create
  create-Ready w h = record { listed = h; in_range = tt; active = tt }
