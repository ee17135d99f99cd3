-- ===== src/Writer/Handler.antt =====
-- What the handler of a completed send does to a pump.
use device_tester.Prelude.{
  length-drop, ◌≢◌, ap, sym, drop_all, lt-or-ge, ℕ, ◌≤◌, ◌<◌, ◌≡◌, refl, false, inl, inr, List, [],
  ◌∷◌, ◌++◌, length, drop, Bytes, done, arith, ◌∙◌, concat,
}
use device_tester.RingBuffer.Container.{CircularBuffer}
use device_tester.RingBuffer.Refine.{shrunk-Represents, is_not_empty_nil, is_not_empty_cons}
use device_tester.Writer.{Pump, advance, settle, off, on_sent, moved, failed}
use device_tester.Writer.Invariant.{
  Starts, Inv, taken, take_next_item, Returns, start_write-Starts, start_write_current,
  start_write_empty,
}

module _ ⦃box : CircularBuffer Bytes⦄ where
  advance_part :
      (p : Pump) (written : ℕ)
      → written < length p.tx_current
      → advance p written ≡ done (record p { tx_current = drop written p.tx_current })
  unfolding advance
  advance_part p written h = ground arith

  advance_empty :
      (p : Pump) (written : ℕ)
      → Inv [] p
      → length p.tx_current ≤ written
      → advance p written ≡ done (record p { tx_current = [] })
  unfolding advance
  advance_empty p written v h = ground (arith, is_not_empty_nil p.tx_queue v.queued)

  advance_next :
      (p : Pump) (q : List Bytes) (next : Bytes) (written : ℕ)
      → Inv (next ∷ q) p
      → length p.tx_current ≤ written
      → advance p written ≡ done (taken p next)
  unfolding advance
  advance_next p q next written v h =
      ground (arith, is_not_empty_cons p.tx_queue q next v.queued, take_next_item p q next v)

  -- The pump after its send is over, with what it sends next in hand.
  abbrev pub freed : Pump → Pump
  freed p = record (off p) { write_in_progress = false }

  off-Inv : (p : Pump) (q : List Bytes) → Inv q p → Inv q (off p)
  off-Inv p q v = record {
    queued = v.queued;
    bound = v.bound;
    flight = inl (ground (arith, v.flight));
  }

  settle_full :
      (p : Pump) (q : List Bytes) (written : ℕ)
      → Inv q p
      → length p.tx_current ≤ written
      → Returns (settle (off p) written) (concat q)
  unfolding settle
  settle_full p [] written v h =
      let w = off-Inv p [] v in
      rw (advance_empty (off p) written w h) (
        record (freed p) { tx_current = [] },
        [],
        refl,
        record { queued = v.queued; bound = v.bound; flight = inl (ground (arith, v.flight)) },
        refl,
      )
  settle_full p (next ∷ q) written v h =
      rw (advance_next (off p) q next written (off-Inv p _ v) h) (
        record (taken (off p) next) { write_in_progress = false },
        q,
        refl,
        record {
          queued = shrunk-Represents p.tx_queue q next v.queued;
          bound = v.bound;
          flight = inl (ground (arith, v.flight));
        },
        refl,
      )

  -- The handler takes the bytes that were written off what is still to be sent.
  pub settle-Returns :
      (p : Pump) (q : List Bytes) (written : ℕ)
      → Inv q p
      → Returns (settle (off p) written) (drop written p.tx_current ++ concat q)
  unfolding settle
  settle-Returns p q written v = elim (lt-or-ge written (length p.tx_current)) [
    | inl h ↦ rw (advance_part (off p) written h) (
      record (freed p) { tx_current = drop written p.tx_current },
      q,
      refl,
      record { queued = v.queued; bound = v.bound; flight = inl (ground (arith, v.flight)) },
      refl,
    )
    | inr h ↦
        let (p', q', e, v', same) = settle_full p q written v h in
        let none_left = drop_all written p.tx_current h in
        (p', q', e, v', same ∙ sym (ap (λ bytes. bytes ++ concat q) none_left))
  ]

  -- So does the whole handler, which then starts the next send if nothing is in hand.
  pub on_sent-Starts :
      (p : Pump) (q : List Bytes) (written : ℕ)
      → Inv q p
      → Starts (on_sent p (moved written)) (drop written p.tx_current ++ concat q)
  unfolding on_sent
  on_sent-Starts p q written v =
      let (p₁, q₁, e₁, v₁, s₁) = settle-Returns p q written v in
      let (p₂, q₂, e₂, v₂, s₂, phase) = start_write-Starts p₁ q₁ v₁ in
      (p₂, q₂, rw e₁ e₂, v₂, s₂ ∙ s₁, phase)

  -- An error only takes the send off, so the flag stays up.
  pub on_sent_failed :
      (p : Pump) (q : List Bytes)
      → Inv q p
      → p.sending ≢ []
      → Starts (on_sent p failed) (p.tx_current ++ concat q)
  unfolding on_sent
  on_sent_failed p q v h = (
    off p,
    q,
    refl,
    off-Inv p q v,
    refl,
    inr (inr (ground (arith, v.flight), inl (ground (arith, v.flight)))),
  )

  -- The three ways that the handler of a send can go.
  pub on_sent_part :
      (p : Pump) (written : ℕ)
      → written < length p.tx_current
      → on_sent p (moved written)
        ≡ done (record (freed p) { tx_current = drop written p.tx_current })
  unfolding on_sent settle
  on_sent_part p written h = rw (advance_part (off p) written h) (start_write_current _ left)
    where
      left : drop written p.tx_current ≢ []
      left e = absurd (omega (arith, length-drop written p.tx_current, ap length e))

  pub on_sent_last :
      (p : Pump) (written : ℕ)
      → Inv [] p
      → length p.tx_current ≤ written
      → on_sent p (moved written) ≡ done (record (freed p) { tx_current = [] })
  unfolding on_sent settle
  on_sent_last p written v h = rw (advance_empty (off p) written (off-Inv p [] v) h) (
      start_write_empty (record (freed p) { tx_current = [] })
        (record { queued = v.queued; bound = v.bound; flight = inl (ground (arith, v.flight)) }))

  pub on_sent_next :
      (p : Pump) (q : List Bytes) (next : Bytes) (written : ℕ)
      → Inv (next ∷ q) p
      → length p.tx_current ≤ written
      → next ≢ []
      → on_sent p (moved written) ≡ done (record (taken (off p) next) { write_in_progress = false })
  unfolding on_sent settle
  on_sent_next p q next written v h full =
      rw (advance_next (off p) q next written (off-Inv p _ v) h) (start_write_current _ full)
