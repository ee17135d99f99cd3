-- ===== src/CoapClient/Tracking.antt =====
-- The tracked tokens as a map from tokens to identifiers.
use device_tester.Prelude.{
  ℕ, ◌≡◌, refl, inl, inr, true, false, List, [], ◌∷◌, ◌++◌, Bytes, Bool-cases, arith, ap,
}
use device_tester.CoapClient.Library.{CoapApi}
use device_tester.CoapClient.Tokens.{TrackToken, track_check_token, track_flush_token}

module _ ⦃api : CoapApi⦄ where
  -- The token is tracked by none of these.
  abbrev pub IsFresh : Bytes → List TrackToken → Type 0
  IsFresh token ts = track_check_token token ts ≡ (false, 0)

  abbrev pub entry : ℕ → Bytes → ℕ → TrackToken
  entry id token observe = record { id = id; token = token; observe = observe }

  IsFresh-tail :
      (token : Bytes) (t : TrackToken) (ts : List TrackToken)
      → api.binary_equal token t.token ≡ false
      → IsFresh token (t ∷ ts)
      → IsFresh token ts
  unfolding track_check_token
  IsFresh-tail token t ts h f = ground (arith, f, h)

  -- A token that was just tracked is found under its identifier.
  pub check-new :
      (ts : List TrackToken) (token : Bytes) (id observe : ℕ)
      → IsFresh token ts
      → track_check_token token (ts ++ entry id token observe ∷ []) ≡ (true, id)
  unfolding track_check_token
  check-new [] token id observe f = rw (api.binary_equal_refl token) refl
  check-new (t ∷ ts) token id observe f = elim (Bool-cases (api.binary_equal token t.token)) [
    | inl h ↦ absurd (cc)
    | inr h ↦
        rw (h, track_check_token) (check-new ts token id observe (IsFresh-tail token t ts h f))
  ]

  -- The flush of a token that was just tracked takes that one out.
  pub flush-new :
      (ts : List TrackToken) (token : Bytes) (id observe : ℕ)
      → IsFresh token ts
      → track_flush_token token 0 (ts ++ entry id token observe ∷ []) ≡ ts
  unfolding track_check_token track_flush_token
  flush-new [] token id observe f = ground (arith, api.binary_equal_refl token)
  flush-new (t ∷ ts) token id observe f = elim (Bool-cases (api.binary_equal token t.token)) [
    | inl h ↦ absurd (cc)
    | inr h ↦
        rw (h, track_flush_token)
          (ap (λ us. t ∷ us) (flush-new ts token id observe (IsFresh-tail token t ts h f)))
  ]
