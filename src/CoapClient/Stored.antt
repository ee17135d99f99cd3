-- ===== src/CoapClient/Stored.antt =====
-- A client's payloads over time.
use device_tester.Prelude.{
  ℕ, suc, ◌+◌, ◌^◌, ◌≤◌, ◌<◌, ◌≡◌, refl, subst, inl, inr, Bool, Option, some, none, List, [], ◌∷◌,
  length, String, Bytes, Option-cases, arith,
}
use device_tester.CoapClient.Library.{CoapApi}
use device_tester.CoapClient.Store.{LargeData, find, keep, free_large_data}
use device_tester.CoapClient.{
  empty, Method, Message, RequestCode, Client, create, create_session, connect_to, set_options,
  send_request, message_callback, answer, after_block, flush, flush_unless_mcast, signal, release,
  connect_on_receive, track, transmit, add_payload, get_well_known, make_request, request_code,
}
use device_tester.CoapClient.Calls.{
  Call, sets, discovers, makes, receives, releases, subscribes, step, run,
}
use device_tester.CoapClient.Payloads.{
  Below, Below-suc, Below-erase, Held, AllHeld, AllHeld-append, AllHeld-keep, AllHeld-free,
  emplace-counter,
}

module _ ⦃api : CoapApi⦄ where
  -- After at most `n` requests, and releases of these keys.
  pub record IsStored (n : ℕ) (rel : List ℕ) (s : Client) : Type 0 where
    pub counted : s.large_data.id_counter ≤ n
    pub below : Below s.large_data.id_counter s.large_data.buffer
    pub held : AllHeld rel s.large_data s.requests

  -- What the payloads do not see.
  same_store :
      (n : ℕ) (rel : List ℕ) (s t : Client)
      → t.large_data ≡ s.large_data
      → t.requests ≡ s.requests
      → IsStored n rel s
      → IsStored (suc n) rel t
  same_store n rel s t e f v = record {
    counted = rw e (omega (arith, v.counted));
    below = rw e v.below;
    held = rw (e, f) v.held;
  }

  create_session-store :
      (s : Client)
      → ((create_session s).large_data ≡ s.large_data) × ((create_session s).requests ≡ s.requests)
  unfolding create_session connect_to
  create_session-store s = go (api.resolve s.opts.server_uri s.opts.server_port)
    where
      go :
          (es : List api.Endpoint)
          → ((connect_to s es).large_data ≡ s.large_data)
            × ((connect_to s es).requests ≡ s.requests)
      go [] = (refl, refl)
      go (e ∷ es) = (refl, refl)

  message_callback-store :
      (s : Client) (sent : Bool) (m : Message)
      → let s' = (message_callback s sent m).1 in
        (s'.large_data ≡ s.large_data) × (s'.requests ≡ s.requests)
  unfolding message_callback answer after_block flush_unless_mcast flush signal
  message_callback-store s sent m = ground arith

  counter_next :
      (d : LargeData) (b : Bytes)
      → suc d.id_counter < 2 ^ 64
      → (keep d b).id_counter ≡ suc d.id_counter
  unfolding keep
  counter_next d b h = omega (arith, h)

  Below-keep :
      (d : LargeData) (b : Bytes)
      → Below d.id_counter d.buffer
      → suc d.id_counter < 2 ^ 64
      → Below (keep d b).id_counter (keep d b).buffer
  Below-keep d b w h =
      rw (counter_next d b h)
        (unfold keep in rw (emplace-counter d b w) (omega arith, Below-suc d.id_counter d.buffer w))

  Held-new :
      (rel : List ℕ) (d : LargeData) (b : Bytes)
      → Below d.id_counter d.buffer
      → suc d.id_counter < 2 ^ 64
      → Held rel (keep d b) (some (d.id_counter, b))
  unfolding keep find
  Held-new rel d b w h = (omega (arith, h), rw (emplace-counter d b w) (inl (ground arith)))

  payload-IsStored :
      (n : ℕ) (rel : List ℕ) (s : Client) (bytes : Bytes)
      → suc n < 2 ^ 64
      → IsStored n rel s
      → let (s', p) = add_payload s bytes in IsStored (suc n) rel s' × Held rel s'.large_data p
  unfolding add_payload
  payload-IsStored n rel s [] h v = (same_store n rel s s refl refl v, tt)
  payload-IsStored n rel s (b ∷ bs) h v =
      let room : suc s.large_data.id_counter < 2 ^ 64 = omega (arith, v.counted) in
      (
        record {
          counted = rw (counter_next s.large_data (b ∷ bs) room) (omega (arith, v.counted));
          below = Below-keep s.large_data (b ∷ bs) v.below room;
          held = AllHeld-keep rel s.large_data (b ∷ bs) s.requests v.below room v.held;
        },
        Held-new rel s.large_data (b ∷ bs) v.below room,
      )

  transmit-IsStored :
      (n : ℕ) (rel : List ℕ) (s : Client) (code : RequestCode) (token : Bytes) (path : List Bytes)
      (p : Option (ℕ × Bytes))
      → IsStored n rel s
      → Held rel s.large_data p
      → IsStored n rel (transmit s code token path p)
  unfolding transmit
  transmit-IsStored n rel s code token path p v h = record {
    counted = v.counted;
    below = v.below;
    held = AllHeld-append rel s.large_data s.requests _ v.held h;
  }

  -- The keys that calls release, the last one first, before those released already.
  abbrev pub note : Call → List ℕ → List ℕ
  note (releases id) rel = id ∷ rel
  note (sets opts) rel = rel
  note (discovers allocated path) rel = rel
  note (makes allocated method path id bytes) rel = rel
  note (receives sent m) rel = rel
  note (subscribes slot) rel = rel

  abbrev pub released : List Call → List ℕ → List ℕ
  released [] rel = rel
  released (c ∷ cs) rel = released cs (note c rel)

  abbrev pub Keeps : ℕ → List ℕ → Option Client → Type 0
  Keeps n rel none = Unit
  Keeps n rel (some s) = IsStored n rel s

  send_request-Keeps :
      (n : ℕ) (rel : List ℕ) (s : Client) (allocated : Bool) (path : String) (method : Method)
      (id : ℕ) (bytes : Bytes)
      → suc n < 2 ^ 64
      → IsStored n rel s
      → Keeps (suc n) rel (send_request s allocated path method id bytes)
  unfolding send_request track
  send_request-Keeps n rel s allocated path method id bytes h v = go s.session
    where
      go :
          (o : Option api.Session)
          → Keeps
              (suc n)
              rel
              (send_request (record s { session = o }) allocated path method id bytes)
      go none = tt
      go (some session) =
          let (token, session') = api.session_new_token session in
          let s₀ : Client = track (record s { session = some session' }) allocated token id in
          let (w, held) =
            payload-IsStored n rel s₀ bytes h
              (record { counted = v.counted; below = v.below; held = v.held }) in
          transmit-IsStored (suc n) rel (add_payload s₀ bytes).0 (request_code method) token
            (api.split_path path) (add_payload s₀ bytes).1 w held

  step-Keeps :
      (n : ℕ) (rel : List ℕ) (s : Client) (c : Call)
      → suc n < 2 ^ 64
      → IsStored n rel s
      → Keeps (suc n) (note c rel) (step s c)
  unfolding step set_options get_well_known make_request release connect_on_receive
  step-Keeps n rel s (sets opts) h v =
      let s' : Client = record s { opts = opts } in
      let (e, f) = create_session-store s' in
      same_store n rel s' (create_session s') e f
        (record { counted = v.counted; below = v.below; held = v.held })
  step-Keeps n rel s (discovers allocated path) h v =
      send_request-Keeps n rel s allocated path _ _ [] h v
  step-Keeps n rel s (makes allocated method path id bytes) h v =
      send_request-Keeps n rel s allocated path method id bytes h v
  step-Keeps n rel s (receives sent m) h v =
      let (e, f) = message_callback-store s sent m in
      same_store n rel s (message_callback s sent m).1 e f v
  step-Keeps n rel s (releases id) h v = record {
    counted = unfold free_large_data in omega (arith, v.counted);
    below =
        unfold free_large_data in
        Below-erase s.large_data.id_counter id s.large_data.buffer v.below;
    held = AllHeld-free rel s.large_data id s.requests v.held;
  }
  step-Keeps n rel s (subscribes slot) h v =
      same_store n rel s (connect_on_receive s slot) refl refl v

  injected : (s t : Client) → some s ≡ some t → s ≡ t
  injected s t e = cc

  kept :
      (n : ℕ) (rel : List ℕ) (o : Option Client) (s : Client)
      → o ≡ some s
      → Keeps n rel o
      → IsStored n rel s
  kept n rel none s e k = cc
  kept n rel (some s') s e k = subst (IsStored n rel) (injected s' s e) k

  nothing_more : (n : ℕ) → n ≡ n + 0
  nothing_more n = omega arith

  none_before : (n : ℕ) → 0 + n ≡ n
  none_before n = omega arith

  one_more : (n k : ℕ) → suc n + k ≡ n + suc k
  one_more n k = omega arith

  run-Keeps :
      (cs : List Call) (n : ℕ) (rel : List ℕ) (s : Client)
      → n + length cs < 2 ^ 64
      → IsStored n rel s
      → Keeps (n + length cs) (released cs rel) (run s cs)
  unfolding run
  run-Keeps [] n rel s h v = subst (λ k. IsStored k rel s) (nothing_more n) v
  run-Keeps (c ∷ cs) n rel s h v = elim (Option-cases (step s c)) [
    | inl e ↦ rw (e, run) tt
    | inr (s', e) ↦
        rw (e, run)
          (subst (λ k. Keeps k (released (c ∷ cs) rel) (run s' cs)) (one_more n (length cs))
            (run-Keeps cs (suc n) (note c rel) s' (omega arith)
              (kept (suc n) (note c rel) (step s c) s' e (step-Keeps n rel s c (omega arith) v))))
  ]

  -- After any fewer than 2^64 calls on a new client, by the program or by libcoap: the keys of the
  -- payloads in memory are below the counter, and the bytes that a request pointed libcoap to are in
  -- memory under the request's key, as they were given, unless one of the calls is libcoap's release of
  -- that key.
  pub run-create-Stored :
      (mcast : Bool) (cs : List Call)
      → length cs < 2 ^ 64
      → Keeps (length cs) (released cs []) (run (create mcast) cs)
  unfolding create
  run-create-Stored mcast cs h =
      let s : Client = empty mcast in
      let (e, f) = create_session-store s in
      subst (λ k. Keeps k (released cs []) (run (create_session s) cs)) (none_before (length cs))
        (run-Keeps cs 0 [] (create_session s) (omega arith)
          (record { counted = rw e (omega arith); below = rw e tt; held = rw (e, f) tt }))
