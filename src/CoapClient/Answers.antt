-- ===== src/CoapClient/Answers.antt =====
-- What the callback hands on.
use device_tester.Prelude.{
  ℕ, ◌≡◌, ◌≢◌, refl, sym, subst, ◌⊎◌, inl, inr, Bool, true, false, not, ◌&&◌, if◌then◌else◌, some,
  none, List, [], ◌∷◌, ◌++◌, String, Bytes, Bool-cases, arith, ap, ◌∙◌,
}
use device_tester.CoapClient.Library.{CoapApi, ok, fail, MessageType}
use device_tester.CoapClient.Tokens.{
  TrackToken, track_new_token, track_check_token, track_flush_token,
}
use device_tester.CoapClient.{
  Method, Message, Client, is_con_or_non, is_reset, data_or_empty, send_request, message_callback,
  answer, after_block, flush, flush_unless_mcast, signal, track, transmit, add_payload,
  request_code,
}
use device_tester.CoapClient.Tracking.{IsFresh, entry, check-new, flush-new}

-- A message of class 2 that is the last of its blocks, or has none.
pub record IsLast (m : Message) (token : Bytes) : Type 0 where
  pub success : m.code_class ≡ 2
  pub same : m.token ≡ token
  pub type : is_reset m.type ≡ false
  pub last : m.block2 ≢ some true

module _ ⦃api : CoapApi⦄ where
  -- A message whose token is not tracked changes nothing.
  pub refused :
      (s : Client) (sent : Bool) (m : Message)
      → IsFresh m.token s.tracked_tokens
      → message_callback s sent m
        ≡ (if not sent && is_con_or_non m.type then (fail, s) else (ok, s))
  unfolding message_callback
  refused s sent m f = rw f refl

  -- A client that tracks its last token for a request under way.
  abbrev waiting : Client → List TrackToken → Bytes → ℕ → Client
  waiting s ts token id = record s { tracked_tokens = ts ++ entry id token s.doing_observe ∷ [] }

  abbrev answered : Client → List TrackToken → ℕ → Bytes → Client
  answered s ts id bytes = record s {
    tracked_tokens = ts;
    received = s.received ++ (id, bytes) ∷ [];
  }

  waiting-answered :
      (s : Client) (ts : List TrackToken) (token : Bytes) (id : ℕ) (sent : Bool) (m : Message)
      → IsFresh token ts
      → s.obs_started ≡ 0
      → s.is_mcast ≡ false
      → IsLast m token
      → message_callback (waiting s ts token id) sent m
        ≡ (ok, answered s ts id (data_or_empty m.data_large))
  unfolding message_callback answer after_block flush_unless_mcast flush signal
  waiting-answered s ts token id sent m f o u l =
      let found : track_check_token m.token (ts ++ entry id token s.doing_observe ∷ [])
          ≡ (true, id) =
        rw l.same (check-new ts token id s.doing_observe f) in
      let flushed : track_flush_token m.token s.obs_started
            (ts ++ entry id token s.doing_observe ∷ [])
          ≡ ts =
        rw (l.same, o) (flush-new ts token id s.doing_observe f) in
      ground (arith, found, flushed, l.type, l.success, l.last, u)

  -- The client while its request is under way, but for the tokens.
  abbrev asking : Client → api.Session → String → Method → Bytes → Client
  asking s session path method bytes =
      let (token, session') = api.session_new_token session in
      let (s', payload) = add_payload (record s { session = some session' }) bytes in
      transmit s' (request_code method) token (api.split_path path) payload

  send_request-waiting :
      (s : Client) (session : api.Session) (path : String) (method : Method) (id : ℕ)
      (bytes : Bytes)
      → s.session ≡ some session
      → send_request s true path method id bytes
        ≡ some (
            waiting
              (asking s session path method bytes)
              s.tracked_tokens
              (api.session_new_token session).0
              id)
  unfolding send_request track track_new_token add_payload transmit
  send_request-waiting s session path method id [] e = rw (send_request, e) refl
  send_request-waiting s session path method id (b ∷ bs) e = rw (send_request, e) refl

  asking_kept :
      (s : Client) (session : api.Session) (path : String) (method : Method) (bytes : Bytes)
      → let s' = asking s session path method bytes in
        (s'.obs_started ≡ s.obs_started) × (s'.is_mcast ≡ s.is_mcast) × (s'.received ≡ s.received)
  unfolding add_payload transmit
  asking_kept s session path method [] = (refl, refl, refl)
  asking_kept s session path method (b ∷ bs) = (refl, refl, refl)

  asking_observe :
      (s : Client) (session : api.Session) (path : String) (method : Method) (bytes : Bytes)
      → (asking s session path method bytes).doing_observe ≡ s.doing_observe
  unfolding add_payload transmit
  asking_observe s session path method [] = refl
  asking_observe s session path method (b ∷ bs) = refl

  rejected :
      (s : Client) (m : Message) (token : Bytes)
      → m.token ≡ token
      → IsFresh token s.tracked_tokens
      → message_callback s false m ≡ (if is_con_or_non m.type then fail else ok, s)
  rejected s m token e f =
      refused s false m (rw e f)
      ∙ elim (Bool-cases (is_con_or_non m.type)) [ inl h ↦ rw h refl | inr h ↦ rw h refl ]

  -- libcoap calls back with messages that answer no request it holds.
  abbrev pub callbacks : Client → List Message → Client
  callbacks s [] = s
  callbacks s (m ∷ ms) = callbacks (message_callback s false m).1 ms

  -- Messages under tokens that are not tracked, and resets.
  abbrev pub AllPassed : List TrackToken → List Message → Type 0
  AllPassed ts [] = Unit
  AllPassed ts (m ∷ ms) = (IsFresh m.token ts ⊎ (is_reset m.type ≡ true)) × AllPassed ts ms

  passed_over :
      (s : Client) (m : Message)
      → IsFresh m.token s.tracked_tokens ⊎ (is_reset m.type ≡ true)
      → (message_callback s false m).1 ≡ s
  unfolding message_callback
  passed_over s m (inl f) = ground (arith, f)
  passed_over s m (inr h) = ground (arith, h)

  each_passed_over :
      (s : Client) (ms : List Message) → AllPassed s.tracked_tokens ms → callbacks s ms ≡ s
  each_passed_over s [] p = refl
  each_passed_over s (m ∷ ms) p = rw (passed_over s m p.0) (each_passed_over s ms p.1)

  -- A request on a client with a session, not to a multicast address, under a token that is not in use
  -- and that there is memory for, while `obs_started` is 0, which nothing changes. First come any
  -- messages that answer no request libcoap holds, each under a token that the client does not track or
  -- a reset: they change nothing. Then a message comes under the token of the request that is of class
  -- 2, no reset, and the last of its blocks or without blocks: it is handed on once, with the request's
  -- identifier, and the tracked tokens are then what they were before the request. A copy of it that
  -- comes then and answers no request libcoap holds changes nothing, and the response to it is a
  -- failure if its type is confirmable or non-confirmable.
  pub request_answered :
      (s : Client) (session : api.Session) (path : String) (method : Method) (id : ℕ)
      (bytes : Bytes) (ms : List Message) (sent : Bool) (m : Message)
      → s.session ≡ some session
      → IsFresh (api.session_new_token session).0 s.tracked_tokens
      → s.obs_started ≡ 0
      → s.is_mcast ≡ false
      → AllPassed
          (s.tracked_tokens ++ entry id (api.session_new_token session).0 s.doing_observe ∷ [])
          ms
      → IsLast m (api.session_new_token session).0
      → (s' s'' : Client) × (send_request s true path method id bytes ≡ some s')
        × (callbacks s' ms ≡ s')
        × (message_callback (callbacks s' ms) sent m ≡ (ok, s''))
        × (s''.received ≡ s.received ++ (id, data_or_empty m.data_large) ∷ [])
        × (s''.tracked_tokens ≡ s.tracked_tokens)
        × (message_callback s'' false m ≡ (if is_con_or_non m.type then fail else ok, s''))
  request_answered s session path method id bytes ms sent m e f o u p l =
      let token = (api.session_new_token session).0 in
      let s₀ : Client = asking s session path method bytes in
      let (obs, mcast, received) = asking_kept s session path method bytes in
      let same : callbacks (waiting s₀ s.tracked_tokens token id) ms
          ≡ waiting s₀ s.tracked_tokens token id =
        each_passed_over (waiting s₀ s.tracked_tokens token id) ms (
          subst (λ d. AllPassed (s.tracked_tokens ++ entry id token d ∷ []) ms)
            (sym (asking_observe s session path method bytes)) p) in
      (
        waiting s₀ s.tracked_tokens token id,
        answered s₀ s.tracked_tokens id (data_or_empty m.data_large),
        send_request-waiting s session path method id bytes e,
        same,
        ap (λ c. message_callback c sent m) same
            ∙ waiting-answered s₀ s.tracked_tokens token id sent m f (obs ∙ o) (mcast ∙ u) l,
        ap (λ r. r ++ (id, data_or_empty m.data_large) ∷ []) received,
        refl,
        rejected (answered s₀ s.tracked_tokens id (data_or_empty m.data_large)) m token l.same f,
      )

  -- The messages of class 2, without blocks, that bring these data under a token.
  abbrev pub replies : Bytes → MessageType → List Bytes → List Message
  replies token type [] = []
  replies token type (b ∷ bs) =
      record { code_class = 2; type = type; token = token; data_large = some b; block2 = none }
      ∷ replies token type bs

  abbrev pub labelled : ℕ → List Bytes → List (ℕ × Bytes)
  labelled id [] = []
  labelled id (b ∷ bs) = (id, b) ∷ labelled id bs
