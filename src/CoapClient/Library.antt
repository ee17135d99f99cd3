-- ===== src/CoapClient/Library.antt =====
-- What coap_client.cpp relies on in libcoap and in asio's resolver, which the repository does not
-- contain: sessions, their tokens, the split of a path, and the comparison of binary strings.
use device_tester.Prelude.{ℕ, ◌≡◌, Bool, true, List, String, Bytes}

-- The type of a message.
pub data MessageType : Type 0 where
  confirmable non_confirmable acknowledgement reset : MessageType

-- What the callback answers.
pub data Response : Type 0 where
  ok fail : Response

pub record CoapApi : Type 1 where
  pub Endpoint : Type 0
  pub resolve : String → ℕ → List Endpoint
  pub is_multicast : Endpoint → Bool
  pub Session : Type 0
  pub new_client_session : Endpoint → Session
  -- The token, and the session after it.
  pub session_new_token : Session → Bytes × Session
  -- Whether `coap_add_token` takes the token.
  pub add_token : Bytes → Bool
  pub split_path : String → List Bytes
  pub binary_equal : Bytes → Bytes → Bool
  pub binary_equal_refl : (a : Bytes) → binary_equal a a ≡ true
  pub binary_equal_sound : (a b : Bytes) → binary_equal a b ≡ true → a ≡ b
