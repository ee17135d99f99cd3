-- ===== src/Plugin/Ordering.antt =====
-- What the script hears of its connections, and when.
use device_tester.Prelude.{
  ℕ, ◌≡◌, refl, sym, ap, ◌∙◌, Bool, Option, some, none, List, [], ◌∷◌, ◌++◌, String, Bytes,
  append_assoc, append-nil, Option-cases, inl, inr, get_elem?, subst,
}
use device_tester.RingBuffer.Container.{CircularBuffer}
use device_tester.Asio.{SocketApi}
use device_tester.Asio.SerialPort.{SerialApi}
use device_tester.CoapClient.Library.{CoapApi}
use device_tester.CoapClient.{make_request, m_put}
use device_tester.Plugin.{
  tcp_server, udp_connection, tcp_client, serial, replace, Task, calls_back, calls_back_coap, puts,
  LuaCall, received, coap_received, setup, gui, Wrapper, LuaPlugin, coap_client, callback_at,
  call_lua,
}
use device_tester.Plugin.Strand.{
  on_receive, on_receive_coap, put, post, perform, make_put, draw_gui,
}
use device_tester.Plugin.Calls.{Call, receives, receives_coap, asks, draws, works, work, step, run}

-- The callbacks among calls of the script, and among tasks.
abbrev pub heard : List LuaCall → List LuaCall
heard [] = []
heard (received f bytes ∷ cs) = received f bytes ∷ heard cs
heard (coap_received f id bytes ∷ cs) = coap_received f id bytes ∷ heard cs
heard (setup f ∷ cs) = heard cs
heard (gui f ∷ cs) = heard cs

abbrev pub waiting : List Task → List LuaCall
waiting [] = []
waiting (calls_back f bytes ∷ ts) = received f bytes ∷ waiting ts
waiting (calls_back_coap f id bytes ∷ ts) = coap_received f id bytes ∷ waiting ts
waiting (puts place id path bytes ∷ ts) = waiting ts

-- The callbacks that these calls are to lead to, with the wrappers of the plugin.
abbrev pub one_due : List Wrapper → Call → List LuaCall
one_due ws (receives place bytes) = elim (callback_at ws place) [
  | none ↦ []
  | some f ↦ received f bytes ∷ []
]
one_due ws (receives_coap place id bytes) = elim (callback_at ws place) [
  | none ↦ []
  | some f ↦ coap_received f id bytes ∷ []
]
one_due ws (asks place id path bytes) = []
one_due ws (draws f) = []
one_due ws (works allocated) = []

abbrev pub due : List Wrapper → List Call → List LuaCall
due ws [] = []
due ws (c ∷ cs) = one_due ws c ++ due ws cs

heard-append : (cs ds : List LuaCall) → heard (cs ++ ds) ≡ heard cs ++ heard ds
heard-append [] ds = refl
heard-append (received f bytes ∷ cs) ds = ap (λ xs. received f bytes ∷ xs) (heard-append cs ds)
heard-append (coap_received f id bytes ∷ cs) ds =
    ap (λ xs. coap_received f id bytes ∷ xs) (heard-append cs ds)
heard-append (setup f ∷ cs) ds = heard-append cs ds
heard-append (gui f ∷ cs) ds = heard-append cs ds

waiting-append : (ts us : List Task) → waiting (ts ++ us) ≡ waiting ts ++ waiting us
waiting-append [] us = refl
waiting-append (calls_back f bytes ∷ ts) us =
    ap (λ xs. received f bytes ∷ xs) (waiting-append ts us)
waiting-append (calls_back_coap f id bytes ∷ ts) us =
    ap (λ xs. coap_received f id bytes ∷ xs) (waiting-append ts us)
waiting-append (puts place id path bytes ∷ ts) us = waiting-append ts us

module _ ⦃box : CircularBuffer Bytes⦄ ⦃net : SocketApi⦄ ⦃api : SerialApi⦄ ⦃coap : CoapApi⦄ where
  -- What the script heard and what it will hear.
  abbrev pub owed : LuaPlugin → List LuaCall
  owed s = heard s.calls ++ waiting s.strand

  record Follows (s t : LuaPlugin) (more : List LuaCall) : Type 0 where
    wrappers : t.wrappers ≡ s.wrappers
    story : owed t ≡ owed s ++ more

  abbrev Keeps : LuaPlugin → List LuaCall → Option LuaPlugin → Type 0
  Keeps s more none = Unit
  Keeps s more (some t) = Follows s t more

  post-Follows :
      (s : LuaPlugin) (t : Task) (more : List LuaCall)
      → waiting (t ∷ []) ≡ more
      → Follows s (post s t) more
  unfolding post
  post-Follows s t more e = record {
    wrappers = refl;
    story =
        rw (waiting-append s.strand (t ∷ []), e)
          (sym (append_assoc (heard s.calls) (waiting s.strand) more));
  }

  same-Follows : (s t : LuaPlugin) → t.wrappers ≡ s.wrappers → owed t ≡ owed s → Follows s t []
  same-Follows s t w e = record { wrappers = w; story = e ∙ sym (append-nil (owed s)) }

  call-Follows :
      (s : LuaPlugin) (ts : List Task) (c : LuaCall)
      → waiting s.strand ≡ heard (c ∷ []) ++ waiting ts
      → Follows s (call_lua (record s { strand = ts }) c) []
  unfolding call_lua
  call-Follows s ts c e = same-Follows s (call_lua (record s { strand = ts }) c) refl (
      rw (heard-append s.calls (c ∷ []), e)
        (append_assoc (heard s.calls) (heard (c ∷ [])) (waiting ts)))

  make_put-Keeps :
      (s : LuaPlugin) (allocated : Bool) (place id : ℕ) (path : String) (bytes : Bytes)
      → Keeps s [] (make_put s allocated place id path bytes)
  unfolding make_put
  make_put-Keeps s allocated place id path bytes =
      elim (Option-cases (get_elem? s.connections place)) [
        | inl e ↦ rw (e, make_put) (same-Follows s s refl refl)
        | inr (coap_client client, e) ↦
            elim (Option-cases (make_request client allocated m_put path id bytes)) [
              | inl f ↦ rw (e, make_put, f) tt
              | inr (client', f) ↦
                  rw (e, make_put, f)
                    (same-Follows s
                      (record s { connections = replace place (coap_client client') s.connections })
                      refl refl)
            ]
        | inr (serial c, e) ↦ rw (e, make_put) (same-Follows s s refl refl)
        | inr (tcp_client c, e) ↦ rw (e, make_put) (same-Follows s s refl refl)
        | inr (tcp_server c, e) ↦ rw (e, make_put) (same-Follows s s refl refl)
        | inr (udp_connection c, e) ↦ rw (e, make_put) (same-Follows s s refl refl)
      ]

  Keeps-taken :
      (s : LuaPlugin) (ts : List Task) (o : Option LuaPlugin)
      → waiting s.strand ≡ waiting ts
      → Keeps (record s { strand = ts }) [] o
      → Keeps s [] o
  Keeps-taken s ts none e k = k
  Keeps-taken s ts (some t) e k = record {
    wrappers = k.wrappers;
    story = k.story ∙ ap (λ ws. (heard s.calls ++ ws) ++ []) (sym e);
  }

  work-Keeps :
      (s : LuaPlugin) (allocated : Bool) (ts : List Task)
      → s.strand ≡ ts
      → Keeps s [] (work s allocated ts)
  unfolding work perform
  work-Keeps s allocated [] e = same-Follows s s refl refl
  work-Keeps s allocated (calls_back f bytes ∷ ts) e =
      call-Follows s ts (received f bytes) (ap waiting e)
  work-Keeps s allocated (calls_back_coap f id bytes ∷ ts) e =
      call-Follows s ts (coap_received f id bytes) (ap waiting e)
  work-Keeps s allocated (puts place id path bytes ∷ ts) e =
      Keeps-taken s ts (make_put (record s { strand = ts }) allocated place id path bytes)
        (ap waiting e) (make_put-Keeps (record s { strand = ts }) allocated place id path bytes)

  draws-Follows : (s : LuaPlugin) (f : ℕ) → Follows s (call_lua s (gui f)) []
  unfolding call_lua
  draws-Follows s f = same-Follows s (call_lua s (gui f)) refl (
      ap (λ cs. cs ++ waiting s.strand)
        (heard-append s.calls (gui f ∷ []) ∙ append-nil (heard s.calls)))

  on_receive-Follows :
      (s : LuaPlugin) (place : ℕ) (bytes : Bytes)
      → Follows s (on_receive s place bytes) (one_due s.wrappers (receives place bytes))
  unfolding on_receive
  on_receive-Follows s place bytes = elim (Option-cases (callback_at s.wrappers place)) [
    | inl e ↦ rw (e, on_receive, one_due) (same-Follows s s refl refl)
    | inr (f, e) ↦
        rw (e, on_receive, one_due)
          (post-Follows s (calls_back f bytes) (received f bytes ∷ []) refl)
  ]

  on_receive_coap-Follows :
      (s : LuaPlugin) (place id : ℕ) (bytes : Bytes)
      → Follows s
          (on_receive_coap s place id bytes)
          (one_due s.wrappers (receives_coap place id bytes))
  unfolding on_receive_coap
  on_receive_coap-Follows s place id bytes = elim (Option-cases (callback_at s.wrappers place)) [
    | inl e ↦ rw (e, on_receive_coap, one_due) (same-Follows s s refl refl)
    | inr (f, e) ↦
        rw (e, on_receive_coap, one_due)
          (post-Follows s (calls_back_coap f id bytes) (coap_received f id bytes ∷ []) refl)
  ]

  step-Keeps : (s : LuaPlugin) (c : Call) → Keeps s (one_due s.wrappers c) (step s c)
  unfolding step put draw_gui
  step-Keeps s (receives place bytes) = on_receive-Follows s place bytes
  step-Keeps s (receives_coap place id bytes) = on_receive_coap-Follows s place id bytes
  step-Keeps s (asks place id path none) = same-Follows s s refl refl
  step-Keeps s (asks place id path (some bytes)) = post-Follows s (puts place id path bytes) [] refl
  step-Keeps s (draws f) = draws-Follows s f
  step-Keeps s (works allocated) = work-Keeps s allocated s.strand refl

  kept :
      (s : LuaPlugin) (more : List LuaCall) (t : LuaPlugin) (o : Option LuaPlugin)
      → o ≡ some t
      → Keeps s more o
      → Follows s t more
  kept s more t o e k = subst (Keeps s more) e k

  Keeps-then :
      (s t : LuaPlugin) (more rest : List LuaCall) (o : Option LuaPlugin)
      → Follows s t more
      → Keeps t rest o
      → Keeps s (more ++ rest) o
  Keeps-then s t more rest none k l = tt
  Keeps-then s t more rest (some u) k l = record {
    wrappers = l.wrappers ∙ k.wrappers;
    story = l.story ∙ ap (λ xs. xs ++ rest) k.story ∙ append_assoc (owed s) more rest;
  }

  run-Keeps : (s : LuaPlugin) (cs : List Call) → Keeps s (due s.wrappers cs) (run s cs)
  unfolding run
  run-Keeps s [] = same-Follows s s refl refl
  run-Keeps s (c ∷ cs) = elim (Option-cases (step s c)) [
    | inl e ↦ rw (e, run) tt
    | inr (s', e) ↦
        let first = kept s (one_due s.wrappers c) s' (step s c) e (step-Keeps s c) in
        rw (e, run)
          (Keeps-then s s' (one_due s.wrappers c) (due s.wrappers cs) (run s' cs) first
            (subst (λ ws. Keeps s' (due ws cs) (run s' cs)) first.wrappers (run-Keeps s' cs)))
  ]

  -- Whatever the connections receive, the script asks for, the window draws and the strand runs, in any
  -- order: if no task throws, the callbacks that the script heard followed by those that wait on the
  -- strand are those there were before and then, in the order of arrival, one for each reception of a
  -- connection with a callback. None is lost, made up, doubled or overtaken.
  pub run-order :
      (s t : LuaPlugin) (cs : List Call)
      → run s cs ≡ some t
      → heard t.calls ++ waiting t.strand ≡ (heard s.calls ++ waiting s.strand) ++ due s.wrappers cs
  run-order s t cs e = Follows.story (kept s (due s.wrappers cs) t (run s cs) e (run-Keeps s cs))
