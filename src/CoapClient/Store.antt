-- ===== src/CoapClient/Store.antt =====
-- The payloads that libs/libcon/src/coap_client.cpp keeps until libcoap releases them. The map is a list
-- of keys and values.
use device_tester.Prelude.{ℕ, ◌==◌, if◌then◌else◌, Option, some, none, List, [], ◌∷◌, Bytes, incr}

pub record LargeData : Type 0 where
  pub id_counter : ℕ
  pub buffer : List (ℕ × Bytes)

unfoldable pub find : ℕ → List (ℕ × Bytes) → Option Bytes
find id [] = none
find id ((k, v) ∷ kvs) = let rest = find id kvs in if id == k then some v else rest

-- `std::map::emplace`, which keeps the value of a key that is there.
unfoldable pub emplace : ℕ → Bytes → List (ℕ × Bytes) → List (ℕ × Bytes)
emplace id bytes kvs = elim (find id kvs) [ none ↦ (id, bytes) ∷ kvs | some old ↦ kvs ]

unfoldable pub erase : ℕ → List (ℕ × Bytes) → List (ℕ × Bytes)
erase id [] = []
erase id ((k, v) ∷ kvs) = let rest = erase id kvs in if id == k then rest else (k, v) ∷ rest

unfoldable pub keep : LargeData → Bytes → LargeData
keep d bytes = record {
  id_counter = incr d.id_counter;
  buffer = emplace d.id_counter bytes d.buffer;
}

unfoldable pub free_large_data : LargeData → ℕ → LargeData
free_large_data d id = record d { buffer = erase id d.buffer }
