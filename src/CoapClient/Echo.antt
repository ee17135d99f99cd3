-- ===== src/CoapClient/Echo.antt =====
-- A server at every name that ends nowhere, whose sessions count their tokens: the laws of `CoapApi` can
-- be met.
use device_tester.Prelude.{ℕ, ◌+◌, ◌≡◌, refl, Bool, true, false, ◌&&◌, ◌==◌, [], ◌∷◌, Bytes, arith}
use device_tester.CoapClient.Library.{CoapApi}

abbrev pub same_bytes : Bytes → Bytes → Bool
same_bytes [] [] = true
same_bytes [] (b ∷ ys) = false
same_bytes (a ∷ xs) [] = false
same_bytes (a ∷ xs) (b ∷ ys) = (a == b) && same_bytes xs ys

pub same_bytes_refl : (a : Bytes) → same_bytes a a ≡ true
same_bytes_refl [] = refl
same_bytes_refl (a ∷ xs) = ground (arith, same_bytes_refl xs)

pub same_bytes_sound : (a b : Bytes) → same_bytes a b ≡ true → a ≡ b
same_bytes_sound [] [] e = refl
same_bytes_sound [] (b ∷ ys) e = cc
same_bytes_sound (a ∷ xs) [] e = cc
same_bytes_sound (a ∷ xs) (b ∷ ys) e = ground (arith, same_bytes_sound xs ys)

-- An endpoint says whether it is multicast.
instance abbrev pub echo : CoapApi
echo = record {
  Endpoint = Bool;
  resolve = λ uri port. (port == 5683) ∷ [];
  is_multicast = λ e. e;
  Session = ℕ;
  new_client_session = λ e. 0;
  session_new_token = λ s. (s ∷ [], s + 1);
  add_token = λ t. true;
  split_path = λ path. [];
  binary_equal = same_bytes;
  binary_equal_refl = same_bytes_refl;
  binary_equal_sound = same_bytes_sound;
}
