-- ===== src/CoapClient/Tokens.antt =====
-- The tokens that libs/libcon/src/coap_client.cpp tracks: `track_new_token`, `track_check_token` and
-- `track_flush_token`. The array is a list.
use device_tester.Prelude.{
  ℕ, Bool, true, false, ◌||◌, ◌==◌, if◌then◌else◌, List, [], ◌∷◌, ◌++◌, Bytes,
}
use device_tester.CoapClient.Library.{CoapApi}

pub record TrackToken : Type 0 where
  pub id : ℕ
  pub token : Bytes
  pub observe : ℕ

-- `allocated` says whether there was memory for the array and the token.
unfoldable pub track_new_token : Bool → Bytes → ℕ → ℕ → List TrackToken → List TrackToken
track_new_token allocated token id doing_observe tokens =
    if allocated
    then tokens ++ record { id = id; token = token; observe = doing_observe } ∷ []
    else tokens

module _ ⦃api : CoapApi⦄ where
  unfoldable pub track_check_token : Bytes → List TrackToken → Bool × ℕ
  track_check_token token [] = (false, 0)
  track_check_token token (t ∷ ts) =
      let rest = track_check_token token ts in
      if api.binary_equal token t.token then (true, t.id) else rest

  unfoldable pub track_flush_token : Bytes → ℕ → List TrackToken → List TrackToken
  track_flush_token token obs_started [] = []
  track_flush_token token obs_started (t ∷ ts) =
      let rest = track_flush_token token obs_started ts in
      if api.binary_equal token t.token
      then (if (t.observe == 0) || (obs_started == 0) then ts else t ∷ ts)
      else t ∷ rest
