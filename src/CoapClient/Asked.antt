-- ===== src/CoapClient/Asked.antt =====
-- Nothing is handed on but answers to requests.
use device_tester.Prelude.{
  not, ◌&&◌, if◌then◌else◌, ◌==◌, ℕ, ◌≡◌, subst, inl, inr, Bool, true, false, Option, some, none,
  List, [], ◌∷◌, ◌++◌, String, Bytes, Bool-cases, Option-cases, arith,
}
use device_tester.CoapClient.Library.{CoapApi, Response, ok, fail}
use device_tester.CoapClient.Tokens.{
  TrackToken, track_new_token, track_check_token, track_flush_token,
}
use device_tester.CoapClient.{
  empty, Method, Message, Client, create, create_session, connect_to, set_options, send_request,
  message_callback, answer, after_block, flush, flush_unless_mcast, signal, release,
  connect_on_receive, track, transmit, add_payload, is_reset, get_well_known, make_request,
  request_id_well_known, data_or_empty, is_con_or_non,
}
use device_tester.CoapClient.Calls.{
  Call, sets, discovers, makes, receives, releases, subscribes, step, run,
}

-- The identifiers of the requests among these calls.
abbrev pub asked : List Call → List ℕ
asked [] = []
asked (discovers allocated path ∷ cs) = request_id_well_known ∷ asked cs
asked (makes allocated method path id bytes ∷ cs) = id ∷ asked cs
asked (_ ∷ cs) = asked cs

module _ (P : ℕ → Type 0) where
  abbrev pub Every : List ℕ → Type 0
  Every [] = Unit
  Every (x ∷ xs) = P x × Every xs

  abbrev pub EveryToken : List TrackToken → Type 0
  EveryToken [] = Unit
  EveryToken (t ∷ ts) = P t.id × EveryToken ts

  abbrev pub EveryAnswer : List (ℕ × Bytes) → Type 0
  EveryAnswer [] = Unit
  EveryAnswer ((id, b) ∷ rs) = P id × EveryAnswer rs

  token_added :
      (ts : List TrackToken) (t : TrackToken) → P t.id → EveryToken ts → EveryToken (ts ++ t ∷ [])
  token_added [] t p e = (p, tt)
  token_added (u ∷ ts) t p e = (e.0, token_added ts t p e.1)

  answer_added :
      (rs : List (ℕ × Bytes)) (id : ℕ) (b : Bytes)
      → P id
      → EveryAnswer rs
      → EveryAnswer (rs ++ (id, b) ∷ [])
  answer_added [] id b p e = (p, tt)
  answer_added ((k, v) ∷ rs) id b p e = (e.0, answer_added rs id b p e.1)

  module _ ⦃api : CoapApi⦄ where
    flush-EveryToken :
        (token : Bytes) (obs : ℕ) (ts : List TrackToken)
        → EveryToken ts
        → EveryToken (track_flush_token token obs ts)
    unfolding track_flush_token
    flush-EveryToken token obs [] e = tt
    flush-EveryToken token obs (t ∷ ts) e =
        ground (arith, flush-EveryToken token obs ts e.1, e.0, e.1)

    check_tail :
        (token : Bytes) (t : TrackToken) (ts : List TrackToken)
        → api.binary_equal token t.token ≡ false
        → (track_check_token token (t ∷ ts)).0 ≡ true
        → (track_check_token token ts).0 ≡ true
    unfolding track_check_token
    check_tail token t ts b h = ground (arith, b, h)

    check-EveryToken :
        (token : Bytes) (ts : List TrackToken)
        → EveryToken ts
        → (track_check_token token ts).0 ≡ true
        → P (track_check_token token ts).1
    unfolding track_check_token
    check-EveryToken token [] e h = absurd cc
    check-EveryToken token (t ∷ ts) e h = elim (Bool-cases (api.binary_equal token t.token)) [
      | inl b ↦ rw (b, track_check_token) e.0
      | inr b ↦
          rw (b, track_check_token) (check-EveryToken token ts e.1 (check_tail token t ts b h))
    ]

    injected : (s t : Client) → some s ≡ some t → s ≡ t
    injected s t e = cc

    pub record IsAsked (s : Client) : Type 0 where
      pub tracked : EveryToken s.tracked_tokens
      pub handed_on : EveryAnswer s.received

    create_session-IsAsked : (s : Client) → IsAsked s → IsAsked (create_session s)
    unfolding create_session connect_to
    create_session-IsAsked s v = go (api.resolve s.opts.server_uri s.opts.server_port)
      where
        go : (es : List api.Endpoint) → IsAsked (connect_to s es)
        go [] = v
        go (e ∷ es) = record { tracked = v.tracked; handed_on = v.handed_on }

    flush-IsAsked : (s : Client) (token : Bytes) → IsAsked s → IsAsked (flush s token)
    unfolding flush
    flush-IsAsked s token v = record {
      tracked = flush-EveryToken token s.obs_started s.tracked_tokens v.tracked;
      handed_on = v.handed_on;
    }

    either : (b : Bool) (s t : Client) → IsAsked s → IsAsked t → IsAsked (if b then s else t)
    either true s t v w = v
    either false s t v w = w

    replied :
        (b : Bool) (x y : Response × Client)
        → IsAsked x.1
        → IsAsked y.1
        → IsAsked (if b then x else y).1
    replied true x y v w = v
    replied false x y v w = w

    flush_unless_mcast-IsAsked :
        (s : Client) (token : Bytes) → IsAsked s → IsAsked (flush_unless_mcast s token)
    unfolding flush_unless_mcast
    flush_unless_mcast-IsAsked s token v =
        either (not s.is_mcast) (flush s token) s (flush-IsAsked s token v) v

    after_block-IsAsked :
        (s : Client) (token : Bytes) (o : Option Bool) → IsAsked s → IsAsked (after_block s token o)
    unfolding after_block
    after_block-IsAsked s token none v = flush_unless_mcast-IsAsked s token v
    after_block-IsAsked s token (some true) v = v
    after_block-IsAsked s token (some false) v = flush-IsAsked s token v

    answer-IsAsked :
        (s : Client) (id : ℕ) (m : Message) → P id → IsAsked s → IsAsked (answer s id m)
    unfolding answer signal
    answer-IsAsked s id m p v = elim (Bool-cases (m.code_class == 2)) [
      | inl h ↦
          rw (h, answer)
            (after_block-IsAsked (signal s id (data_or_empty m.data_large)) m.token m.block2
              (record {
                tracked = v.tracked;
                handed_on = answer_added s.received id (data_or_empty m.data_large) p v.handed_on;
              }))
      | inr h ↦ rw (h, answer) (flush_unless_mcast-IsAsked s m.token v)
    ]

    message_callback-IsAsked :
        (s : Client) (sent : Bool) (m : Message) → IsAsked s → IsAsked (message_callback s sent m).1
    unfolding message_callback
    message_callback-IsAsked s sent m v =
        elim (Bool-cases (track_check_token m.token s.tracked_tokens).0) [
          | inl h ↦
              let p : P (track_check_token m.token s.tracked_tokens).1 =
                check-EveryToken m.token s.tracked_tokens v.tracked h in
              rw (h, message_callback)
                (replied (is_reset m.type) (ok, s)
                  (ok, answer s (track_check_token m.token s.tracked_tokens).1 m) v
                  (answer-IsAsked s (track_check_token m.token s.tracked_tokens).1 m p v))
          | inr h ↦
              rw (h, message_callback)
                (replied (not sent && is_con_or_non m.type) (fail, s) (ok, s) v v)
        ]

    track-IsAsked :
        (s : Client) (allocated : Bool) (token : Bytes) (id : ℕ)
        → P id
        → IsAsked s
        → IsAsked (track s allocated token id)
    unfolding track track_new_token
    track-IsAsked s true token id p v = record {
      tracked = token_added s.tracked_tokens _ p v.tracked;
      handed_on = v.handed_on;
    }
    track-IsAsked s false token id p v = record { tracked = v.tracked; handed_on = v.handed_on }

    payload-IsAsked : (s : Client) (bytes : Bytes) → IsAsked s → IsAsked (add_payload s bytes).0
    unfolding add_payload
    payload-IsAsked s [] v = v
    payload-IsAsked s (b ∷ bs) v = record { tracked = v.tracked; handed_on = v.handed_on }

    -- A client that was made keeps it so, and the call may throw.
    abbrev pub Keeps : Option Client → Type 0
    Keeps none = Unit
    Keeps (some s) = IsAsked s

    send_request-Keeps :
        (s : Client) (allocated : Bool) (path : String) (method : Method) (id : ℕ) (bytes : Bytes)
        → P id
        → IsAsked s
        → Keeps (send_request s allocated path method id bytes)
    unfolding send_request transmit
    send_request-Keeps s allocated path method id bytes p v = go s.session
      where
        go :
            (o : Option api.Session)
            → Keeps (send_request (record s { session = o }) allocated path method id bytes)
        go none = tt
        go (some session) =
            let (token, session') = api.session_new_token session in
            let s₀ : Client = record s { session = some session' } in
            let w = payload-IsAsked (track s₀ allocated token id) bytes (
              track-IsAsked s₀ allocated token id p
                (record { tracked = v.tracked; handed_on = v.handed_on })) in
            record { tracked = w.tracked; handed_on = w.handed_on }

    step-Keeps : (s : Client) (c : Call) → Every (asked (c ∷ [])) → IsAsked s → Keeps (step s c)
    unfolding step set_options get_well_known make_request release connect_on_receive
    step-Keeps s (sets opts) e v =
        create_session-IsAsked (record s { opts = opts })
          (record { tracked = v.tracked; handed_on = v.handed_on })
    step-Keeps s (discovers allocated path) e v = send_request-Keeps s allocated path _ _ [] e.0 v
    step-Keeps s (makes allocated method path id bytes) e v =
        send_request-Keeps s allocated path method id bytes e.0 v
    step-Keeps s (receives sent m) e v = message_callback-IsAsked s sent m v
    step-Keeps s (releases id) e v = record { tracked = v.tracked; handed_on = v.handed_on }
    step-Keeps s (subscribes slot) e v = record { tracked = v.tracked; handed_on = v.handed_on }

    asked_first :
        (c : Call) (cs : List Call)
        → Every (asked (c ∷ cs))
        → Every (asked (c ∷ [])) × Every (asked cs)
    asked_first (sets opts) cs e = (tt, e)
    asked_first (discovers allocated path) cs e = ((e.0, tt), e.1)
    asked_first (makes allocated method path id bytes) cs e = ((e.0, tt), e.1)
    asked_first (receives sent m) cs e = (tt, e)
    asked_first (releases id) cs e = (tt, e)
    asked_first (subscribes slot) cs e = (tt, e)

    kept : (o : Option Client) (s : Client) → o ≡ some s → Keeps o → IsAsked s
    kept none s e k = cc
    kept (some s') s e k = subst IsAsked (injected s' s e) k

    run-Keeps : (cs : List Call) (s : Client) → Every (asked cs) → IsAsked s → Keeps (run s cs)
    unfolding run
    run-Keeps [] s e v = v
    run-Keeps (c ∷ cs) s e v =
        let (first, others) = asked_first c cs e in
        elim (Option-cases (step s c)) [
          | inl h ↦ rw (h, run) tt
          | inr (s', h) ↦
              rw (h, run) (run-Keeps cs s' others (kept (step s c) s' h (step-Keeps s c first v)))
        ]

    -- Whatever is called on a new client, by the program or by libcoap: if a property holds of the
    -- identifier of each request that was made, then it holds of the identifier of each answer that is
    -- handed on and of each token that is tracked. So no answer is handed on under an identifier that no
    -- request had.
    pub run-create-Asked :
        (mcast : Bool) (cs : List Call) → Every (asked cs) → Keeps (run (create mcast) cs)
    unfolding create
    run-create-Asked mcast cs e =
        run-Keeps cs (create mcast) e
          (create_session-IsAsked (empty mcast) (record { tracked = tt; handed_on = tt }))
