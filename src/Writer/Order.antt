-- ===== src/Writer/Order.antt =====
-- No byte is lost, made up or moved before another between a write and the wire.
use device_tester.Prelude.{
  blocked, ℕ, ◌<◌, ◌≡◌, refl, ◌⊎◌, inl, inr, List, [], ◌∷◌, ◌++◌, length, take, drop, concat,
  concat-append, take-append-drop, append_assoc, append-nil, Bytes, Attempt, done, arith,
}
use device_tester.RingBuffer.Container.{CircularBuffer}
use device_tester.Writer.{enqueue, Pump, Completion, failed, moved, tx_capacity, idle}
use device_tester.Writer.Invariant.{
  Inv, Phase, idle-Inv, loaded, loaded-Inv, enqueue_room, enqueue_full, start_write-Starts,
}
use device_tester.Writer.Handler.{on_sent-Starts, on_sent_failed}
use device_tester.Writer.Traffic.{Event, writes, completes, Traffic, quiet, deliver, step, run}

append_message :
    (wire x current : Bytes) (q accepted : List Bytes) (b : Bytes)
    → wire ++ (current ++ concat q) ≡ concat accepted
    → x ≡ current ++ concat (q ++ b ∷ [])
    → wire ++ x ≡ concat (accepted ++ b ∷ [])
append_message wire x current q accepted b h e =
    rw (e, concat-append accepted (b ∷ []), ← h) (simp (concat-append, append_assoc, append-nil))

move_bytes :
    (wire x current rest total : Bytes) (n : ℕ)
    → wire ++ (current ++ rest) ≡ total
    → x ≡ drop n current ++ rest
    → (wire ++ take n current) ++ x ≡ total
move_bytes wire x current rest total n h e =
    rw
      (
        e,
        append_assoc wire (take n current) (drop n current ++ rest),
        ← append_assoc (take n current) (drop n current) rest,
        take-append-drop n current,
      )
      h

module _ ⦃box : CircularBuffer Bytes⦄ where
  -- What has gone out, what is in hand and what waits make up what was taken, in order.
  pub record Accounts (q : List Bytes) (t : Traffic) : Type 0 where
    pub inv : Inv q t.pump
    pub phase : Phase q t.pump
    pub conserved : t.wire ++ (t.pump.tx_current ++ concat q) ≡ concat t.accepted

  quiet-Accounts : Accounts [] quiet
  unfolding quiet idle
  quiet-Accounts = record { inv = idle-Inv; phase = inl (refl, refl, refl, refl); conserved = refl }

  -- A call that returns, with accounts that add up.
  abbrev pub Balances : Attempt Traffic → Type 0
  Balances r = (t : Traffic) × (q : List Bytes) × (r ≡ done t) × Accounts q t

  pub room-or-full :
      (p : Pump) (q : List Bytes) → Inv q p → (length q < tx_capacity) ⊎ (length q ≡ tx_capacity)
  room-or-full p q v = grind (arith, v.queued.bounded, v.bound)

  write-Balances :
      (t : Traffic) (q : List Bytes) (b : Bytes) → Accounts q t → Balances (step t (writes b))
  unfolding step
  write-Balances t q b a = elim (room-or-full t.pump q a.inv) [
    | inl h ↦
        let (p, q', e, v, same, phase) =
          start_write-Starts (loaded t.pump b) (q ++ b ∷ []) (loaded-Inv t.pump q b a.inv h) in
        rw (enqueue_room t.pump q b a.inv h, e)
          (
            _,
            q',
            refl,
            (record {
              inv = v;
              phase = phase;
              conserved = append_message t.wire _ t.pump.tx_current q t.accepted b a.conserved same;
            }),
          )
    | inr h ↦ rw (enqueue_full t.pump q b a.inv h) (t, q, refl, a)
  ]

  sent-Balances :
      (t : Traffic) (q : List Bytes) (c : Completion) (sending : List Bytes)
      → t.pump.sending ≡ sending
      → Accounts q t
      → Balances (deliver t c sending)
  unfolding deliver
  sent-Balances t q c [] e a = (t, q, refl, a)
  sent-Balances t q failed (b ∷ bs) e a =
      let (p, q', e', v, same, phase) = on_sent_failed t.pump q a.inv (λ e'. cc) in
      rw e' (
        _,
        q',
        refl,
        record { inv = v; phase = phase; conserved = rw (append-nil, same) a.conserved },
      )
  sent-Balances t q (moved n) (b ∷ bs) e a =
      let (p, q', e', v, same, phase) = on_sent-Starts t.pump q n a.inv in
      let current : b ≡ t.pump.tx_current = ground (arith, a.inv.flight) in
      rw (e', current)
        (
          _,
          q',
          refl,
          record {
            inv = v;
            phase = phase;
            conserved = move_bytes t.wire _ t.pump.tx_current (concat q) _ n a.conserved same;
          },
        )

  pub step-Balances :
      (t : Traffic) (q : List Bytes) (e : Event) → Accounts q t → Balances (step t e)
  step-Balances t q (writes b) a = write-Balances t q b a
  step-Balances t q (completes c) a = unfold step in sent-Balances t q c t.pump.sending refl a

  run-Balances :
      (es : List Event) (t : Traffic) (q : List Bytes) → Accounts q t → Balances (run t es)
  unfolding run
  run-Balances [] t q a = (t, q, refl, a)
  run-Balances (e ∷ es) t q a =
      let (t', q', returns, a') = step-Balances t q e a in rw returns (run-Balances es t' q' a')

  -- What becomes of the next write: with room in the queue it is taken, else it waits.
  abbrev pub TakesOrWaits : List Bytes → Traffic → Bytes → Type 0
  TakesOrWaits q t b =
      ((length q < tx_capacity)
        × ((t' : Traffic) × (step t (writes b) ≡ done t') × (t'.accepted ≡ t.accepted ++ b ∷ [])))
      ⊎ ((length q ≡ tx_capacity) × (enqueue t.pump b ≡ blocked))

  next_write : (t : Traffic) (q : List Bytes) (b : Bytes) → Accounts q t → TakesOrWaits q t b
  unfolding step
  next_write t q b a = elim (room-or-full t.pump q a.inv) [
    | inl h ↦
        let (p, q', e, v, same, phase) =
          start_write-Starts (loaded t.pump b) (q ++ b ∷ []) (loaded-Inv t.pump q b a.inv h) in
        inl (h, rw (enqueue_room t.pump q b a.inv h, e) (_, refl, refl))
    | inr h ↦ inr (h, enqueue_full t.pump q b a.inv h)
  ]

  -- Whatever is written to a new pump and however asio completes its sends: no call reads outside of the
  -- queue, no handler waits, and the bytes that have gone out, then those in hand, then those that wait,
  -- are exactly the bytes of the messages taken, in the order in which they were taken. The pump then
  -- rests with nothing left to send, or asio sends exactly what is in hand, or the pump is stuck. The
  -- next write is taken, and does not wait, if the queue has room; if the queue is full, it waits.
  pub run-quiet :
      (es : List Event) (b : Bytes)
      → (t : Traffic) × (q : List Bytes) × (run quiet es ≡ done t)
        × Accounts q t
        × TakesOrWaits q t b
  run-quiet es b =
      let (t, q, returns, a) = run-Balances es quiet [] quiet-Accounts in
      (t, q, returns, a, next_write t q b a)
