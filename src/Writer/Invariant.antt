-- ===== src/Writer/Invariant.antt =====
-- What holds of a pump between two calls, and what a write and `startWrite` do to one.
use device_tester.Prelude.{
  List-cases, ◌<◌, ◌≡◌, refl, true, false, ◌⊎◌, inl, inr, List, [], ◌∷◌, ◌++◌, length, Bytes,
  Attempt, done, blocked, arith, ◌∙◌, concat, Bool-cases, ◌≢◌,
}
use device_tester.RingBuffer.Container.{CircularBuffer}
use device_tester.RingBuffer.Refine.{
  Represents, grown, shrunk, grown-Represents, shrunk-Represents, push_front_room, push_front_full,
  pop_back_item, init-Represents, is_not_empty_nil, is_not_empty_cons,
}
use device_tester.Writer.{Pump, tx_capacity, idle, enqueue, take_next, launch, start_write}

module _ ⦃box : CircularBuffer Bytes⦄ where
  -- The pump's queue holds `q`, and asio sends nothing but `tx_current`, and only while the flag is set.
  pub record Inv (q : List Bytes) (p : Pump) : Type 0 where
    pub queued : Represents p.tx_queue q
    pub bound : box.capacity p.tx_queue.container ≡ tx_capacity
    pub flight : (p.sending ≡ []) ⊎ ((p.write_in_progress ≡ true) × (p.sending ≡ p.tx_current ∷ []))

  pub idle-Inv : Inv [] idle
  unfolding idle
  idle-Inv = record {
    queued = init-Represents tx_capacity (omega arith);
    bound = box.capacity-with_capacity tx_capacity;
    flight = inl refl;
  }

  -- The pump with an item more, and with the oldest item taken out.
  abbrev pub loaded : Pump → Bytes → Pump
  loaded p bytes = record p { tx_queue = grown p.tx_queue bytes }

  abbrev pub taken : Pump → Bytes → Pump
  taken p next = record p { tx_queue = shrunk p.tx_queue; tx_current = next }

  pub enqueue_room :
      (p : Pump) (q : List Bytes) (bytes : Bytes)
      → Inv q p
      → length q < tx_capacity
      → enqueue p bytes ≡ done (loaded p bytes)
  unfolding enqueue
  enqueue_room p q bytes v h =
      rw (push_front_room p.tx_queue q bytes v.queued (omega (arith, v.bound)))

  pub enqueue_full :
      (p : Pump) (q : List Bytes) (bytes : Bytes)
      → Inv q p
      → length q ≡ tx_capacity
      → enqueue p bytes ≡ blocked
  unfolding enqueue
  enqueue_full p q bytes v h =
      rw (push_front_full p.tx_queue q bytes v.queued (omega (arith, v.bound)))

  pub loaded-Inv :
      (p : Pump) (q : List Bytes) (bytes : Bytes)
      → Inv q p
      → length q < tx_capacity
      → Inv (q ++ bytes ∷ []) (loaded p bytes)
  loaded-Inv p q bytes v h = record {
    queued = grown-Represents p.tx_queue q bytes v.queued (omega (arith, v.bound));
    bound = box.capacity-push_front p.tx_queue.container bytes ∙ v.bound;
    flight = v.flight;
  }

  pub take_next_item :
      (p : Pump) (q : List Bytes) (next : Bytes)
      → Inv (next ∷ q) p
      → take_next p ≡ done (taken p next)
  unfolding take_next
  take_next_item p q next v = rw (pop_back_item p.tx_queue q next v.queued)

  -- The four ways that `startWrite` can go.
  pub start_write_busy : (p : Pump) → p.write_in_progress ≡ true → start_write p ≡ done p
  unfolding start_write
  start_write_busy p h = ground arith

  pub start_write_current : (p : Pump) → p.tx_current ≢ [] → start_write p ≡ done p
  unfolding start_write
  start_write_current p h = ground arith

  pub start_write_empty : (p : Pump) → Inv [] p → start_write p ≡ done p
  unfolding start_write
  start_write_empty p v = ground (arith, is_not_empty_nil p.tx_queue v.queued)

  pub start_write_next :
      (p : Pump) (q : List Bytes) (next : Bytes)
      → Inv (next ∷ q) p
      → p.write_in_progress ≡ false
      → p.tx_current ≡ []
      → start_write p ≡ done (launch (taken p next))
  unfolding start_write
  start_write_next p q next v idles empty =
      ground (arith, is_not_empty_cons p.tx_queue q next v.queued, take_next_item p q next v)

  -- A call that returns, keeps the invariant, and leaves `bytes` still to be sent.
  abbrev pub Returns : Attempt Pump → Bytes → Type 0
  Returns r bytes =
      (p : Pump) × (q : List Bytes) × (r ≡ done p) × Inv q p × (p.tx_current ++ concat q ≡ bytes)

  -- Nothing is under way and nothing is left to send.
  abbrev pub IsResting : List Bytes → Pump → Type 0
  IsResting q p = (p.write_in_progress ≡ false) × (p.sending ≡ []) × (p.tx_current ≡ []) × (q ≡ [])

  -- Asio sends what is in hand.
  abbrev pub IsActive : Pump → Type 0
  IsActive p = (p.write_in_progress ≡ true) × (p.sending ≡ p.tx_current ∷ [])

  -- Nothing is under way, and the flag or the bytes in hand keep `startWrite` from sending.
  abbrev pub IsStuck : Pump → Type 0
  IsStuck p = (p.sending ≡ []) × ((p.write_in_progress ≡ true) ⊎ (p.tx_current ≢ []))

  abbrev pub Phase : List Bytes → Pump → Type 0
  Phase q p = IsResting q p ⊎ (IsActive p ⊎ IsStuck p)

  -- A call that also ends in one of the three phases.
  abbrev pub Starts : Attempt Pump → Bytes → Type 0
  Starts r bytes =
      (p : Pump) × (q : List Bytes) × (r ≡ done p)
      × Inv q p
      × (p.tx_current ++ concat q ≡ bytes)
      × Phase q p

  pub launch-Inv :
      (p : Pump) (q : List Bytes) (next : Bytes)
      → Inv (next ∷ q) p
      → p.write_in_progress ≡ false
      → Inv q (launch (taken p next))
  unfolding launch
  launch-Inv p q next v idles = record {
    queued = shrunk-Represents p.tx_queue q next v.queued;
    bound = v.bound;
    flight = inr (refl, ground (arith, v.flight));
  }

  no_flight : (p : Pump) (q : List Bytes) → Inv q p → p.write_in_progress ≡ false → p.sending ≡ []
  no_flight p q v idles = ground (arith, v.flight)

  busy-Phase : (p : Pump) (q : List Bytes) → Inv q p → p.write_in_progress ≡ true → Phase q p
  busy-Phase p q v busy = elim v.flight [
    | inl none_sent ↦ inr (inr (none_sent, inl busy))
    | inr active ↦ inr (inl active)
  ]

  start_write_idle :
      (p : Pump) (q : List Bytes)
      → Inv q p
      → p.write_in_progress ≡ false
      → p.tx_current ≡ []
      → Starts (start_write p) (p.tx_current ++ concat q)
  unfolding launch
  start_write_idle p [] v idles empty =
      (p, [], start_write_empty p v, v, refl, inl (idles, no_flight p [] v idles, empty, refl))
  start_write_idle p (next ∷ q) v idles empty = (
    launch (taken p next),
    q,
    start_write_next p q next v idles empty,
    launch-Inv p q next v idles,
    rw empty refl,
    inr (inl (refl, rw (no_flight p _ v idles) refl)),
  )

  -- `startWrite` never waits and never reads outside of the queue, and loses no byte.
  pub start_write-Starts :
      (p : Pump) (q : List Bytes) → Inv q p → Starts (start_write p) (p.tx_current ++ concat q)
  start_write-Starts p q v = elim (Bool-cases p.write_in_progress) [
    | inl busy ↦ (p, q, start_write_busy p busy, v, refl, busy-Phase p q v busy)
    | inr idles ↦ elim (List-cases p.tx_current) [
      | inl empty ↦ start_write_idle p q v idles empty
      | inr (x, r, e) ↦
          let in_hand : p.tx_current ≢ [] = λ e'. cc in
          (
            p,
            q,
            start_write_current p in_hand,
            v,
            refl,
            inr (inr (no_flight p q v idles, inr in_hand)),
          )
    ]
  ]
