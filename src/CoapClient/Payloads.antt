-- ===== src/CoapClient/Payloads.antt =====
-- The payloads of the requests stay in memory, as they were, until libcoap releases them.
use device_tester.Prelude.{
  ℕ, suc, ◌^◌, ◌≤◌, ◌<◌, ◌≡◌, refl, ◌⊎◌, inl, inr, ◌==◌, if◌then◌else◌, Bool, true, false, Option,
  some, none, List, [], ◌∷◌, ◌++◌, Bytes, arith,
}
use device_tester.CoapClient.Store.{LargeData, find, emplace, erase, keep, free_large_data}
use device_tester.CoapClient.{Request}

-- The keys are below the counter.
abbrev pub Below : ℕ → List (ℕ × Bytes) → Type 0
Below c [] = Unit
Below c ((k, v) ∷ kvs) = (k < c) × Below c kvs

find-Below : (c id : ℕ) (kvs : List (ℕ × Bytes)) → Below c kvs → c ≤ id → find id kvs ≡ none
unfolding find
find-Below c id [] b h = refl
find-Below c id ((k, v) ∷ kvs) b h = ground (arith, b.0, find-Below c id kvs b.1 h)

pub Below-suc : (c : ℕ) (kvs : List (ℕ × Bytes)) → Below c kvs → Below (suc c) kvs
Below-suc c [] b = tt
Below-suc c ((k, v) ∷ kvs) b = (omega (arith, b.0), Below-suc c kvs b.1)

pub Below-erase : (c id : ℕ) (kvs : List (ℕ × Bytes)) → Below c kvs → Below c (erase id kvs)
unfolding erase
Below-erase c id [] b = tt
Below-erase c id ((k, v) ∷ kvs) b = ground (arith, b.0, b.1, Below-erase c id kvs b.1)

find-erase :
    (id k : ℕ) (kvs : List (ℕ × Bytes))
    → find k (erase id kvs) ≡ (if id == k then none else find k kvs)
unfolding find erase
find-erase id k [] = ground arith
find-erase id k ((j, v) ∷ kvs) = ground (arith, find-erase id k kvs)

unfoldable pub is_in : ℕ → List ℕ → Bool
is_in k [] = false
is_in k (j ∷ js) = if j == k then true else is_in k js

-- The bytes that a request points to are in memory under its key, or the key is among those released.
abbrev pub Held : List ℕ → LargeData → Option (ℕ × Bytes) → Type 0
Held rel d none = Unit
Held rel d (some (k, b)) = (k < d.id_counter) × ((find k d.buffer ≡ some b) ⊎ (is_in k rel ≡ true))

abbrev pub AllHeld : List ℕ → LargeData → List Request → Type 0
AllHeld rel d [] = Unit
AllHeld rel d (r ∷ rs) = Held rel d r.payload × AllHeld rel d rs

pub AllHeld-append :
    (rel : List ℕ) (d : LargeData) (rs : List Request) (r : Request)
    → AllHeld rel d rs
    → Held rel d r.payload
    → AllHeld rel d (rs ++ r ∷ [])
AllHeld-append rel d [] r a h = (h, tt)
AllHeld-append rel d (q ∷ rs) r a h = (a.0, AllHeld-append rel d rs r a.1 h)

pub emplace-counter :
    (d : LargeData) (b : Bytes)
    → Below d.id_counter d.buffer
    → emplace d.id_counter b d.buffer ≡ (d.id_counter, b) ∷ d.buffer
unfolding emplace
emplace-counter d b w =
    rw (emplace, find-Below d.id_counter d.id_counter d.buffer w (omega arith)) refl

unmoved :
    (c k : ℕ) (b v : Bytes) (kvs : List (ℕ × Bytes))
    → k < c
    → find k kvs ≡ some v
    → find k ((c, b) ∷ kvs) ≡ some v
unfolding find
unmoved c k b v kvs h e = ground (arith, h, e)

Held-keep :
    (rel : List ℕ) (d : LargeData) (b : Bytes) (p : Option (ℕ × Bytes))
    → Below d.id_counter d.buffer
    → suc d.id_counter < 2 ^ 64
    → Held rel d p
    → Held rel (keep d b) p
unfolding find keep
Held-keep rel d b none w c h = tt
Held-keep rel d b (some (k, v)) w c h = (
  omega (arith, h.0, c),
  elim h.1 [
    | inl e ↦ rw (emplace-counter d b w) (inl (unmoved d.id_counter k b v d.buffer h.0 e))
    | inr e ↦ inr e
  ],
)

pub AllHeld-keep :
    (rel : List ℕ) (d : LargeData) (b : Bytes) (rs : List Request)
    → Below d.id_counter d.buffer
    → suc d.id_counter < 2 ^ 64
    → AllHeld rel d rs
    → AllHeld rel (keep d b) rs
AllHeld-keep rel d b [] w c h = tt
AllHeld-keep rel d b (r ∷ rs) w c h =
    (Held-keep rel d b r.payload w c h.0, AllHeld-keep rel d b rs w c h.1)

Held-free :
    (rel : List ℕ) (d : LargeData) (id : ℕ) (p : Option (ℕ × Bytes))
    → Held rel d p
    → Held (id ∷ rel) (free_large_data d id) p
unfolding free_large_data is_in
Held-free rel d id none h = tt
Held-free rel d id (some (k, v)) h = ground (arith, h.0, h.1, find-erase id k d.buffer)

pub AllHeld-free :
    (rel : List ℕ) (d : LargeData) (id : ℕ) (rs : List Request)
    → AllHeld rel d rs
    → AllHeld (id ∷ rel) (free_large_data d id) rs
AllHeld-free rel d id [] h = tt
AllHeld-free rel d id (r ∷ rs) h = (Held-free rel d id r.payload h.0, AllHeld-free rel d id rs h.1)
