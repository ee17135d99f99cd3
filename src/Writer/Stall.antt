-- ===== src/Writer/Stall.antt =====
-- How the pump stops for good: the handler of a send puts the next bytes in hand and then calls
-- `startWrite`, which sends only when nothing is in hand.
use device_tester.Prelude.{
  sym, ◌∙◌, subst, drop, length-drop, ℕ, ◌+◌, ◌≤◌, ◌<◌, ◌≡◌, refl, ap, ◌⊎◌, ◌≢◌, inl, inr, List, [],
  ◌∷◌, ◌++◌, length, length-append, take, Bytes, done, arith,
}
use device_tester.RingBuffer.Container.{CircularBuffer}
use device_tester.Writer.{Pump, moved, tx_capacity, start_write}
use device_tester.Writer.Invariant.{
  Inv, IsActive, IsStuck, loaded, loaded-Inv, enqueue_room, enqueue_full, start_write_busy,
  start_write_current,
}
use device_tester.Writer.Handler.{on_sent_part, on_sent_next}
use device_tester.Writer.Traffic.{Event, writes, completes, Traffic, deliver, step, run}
use device_tester.Writer.Order.{Accounts, room-or-full, step-Balances}

module _ ⦃box : CircularBuffer Bytes⦄ where
  start_write_stuck :
      (p : Pump) (b : Bytes) → IsStuck p → start_write (loaded p b) ≡ done (loaded p b)
  start_write_stuck p b (none_sent, inl busy) = start_write_busy (loaded p b) busy
  start_write_stuck p b (none_sent, inr in_hand) = start_write_current (loaded p b) in_hand

  -- A traffic that has come from `t`, whose queue held `q`, with no byte more on the wire.
  record Halted (t : Traffic) (q : List Bytes) (t' : Traffic) (q' : List Bytes) : Type 0 where
    inv : Inv q' t'.pump
    stuck : IsStuck t'.pump
    silent : t'.wire ≡ t.wire
    kept : length t'.accepted + length q ≡ length t.accepted + length q'

  step-Halted :
      (t : Traffic) (q : List Bytes) (t₁ : Traffic) (q₁ : List Bytes) (e : Event)
      → Halted t q t₁ q₁
      → (t₂ : Traffic) × (q₂ : List Bytes) × (step t₁ e ≡ done t₂) × Halted t q t₂ q₂
  unfolding step
  step-Halted t q t₁ q₁ (completes c) h = rw (h.stuck.0, deliver) (t₁, q₁, refl, h)
  step-Halted t q t₁ q₁ (writes b) h = elim (room-or-full t₁.pump q₁ h.inv) [
    | inr full ↦ rw (enqueue_full t₁.pump q₁ b h.inv full) (t₁, q₁, refl, h)
    | inl room ↦
        rw (enqueue_room t₁.pump q₁ b h.inv room, start_write_stuck t₁.pump b h.stuck)
          (
            _,
            q₁ ++ b ∷ [],
            refl,
            record {
              inv = loaded-Inv t₁.pump q₁ b h.inv room;
              stuck = h.stuck;
              silent = h.silent;
              kept =
                  omega
                    (arith, h.kept, length-append t₁.accepted (b ∷ []), length-append q₁ (b ∷ []));
            },
          )
  ]

  run-Halted :
      (es : List Event) (t : Traffic) (q : List Bytes) (t₁ : Traffic) (q₁ : List Bytes)
      → Halted t q t₁ q₁
      → (t₂ : Traffic) × (q₂ : List Bytes) × (run t₁ es ≡ done t₂) × Halted t q t₂ q₂
  unfolding run
  run-Halted [] t q t₁ q₁ h = (t₁, q₁, refl, h)
  run-Halted (e ∷ es) t q t₁ q₁ h =
      let (t₂, q₂, returns, h₂) = step-Halted t q t₁ q₁ e h in
      rw returns (run-Halted es t q t₂ q₂ h₂)

  -- Once the pump is stuck no byte goes out any more, whatever is written and whatever completes, it
  -- stays stuck, and it takes at most as many messages more as the queue has room for.
  pub IsStuck-forever :
      (t : Traffic) (q : List Bytes) (es : List Event)
      → Accounts q t
      → IsStuck t.pump
      → (t' : Traffic) × (run t es ≡ done t')
        × (t'.wire ≡ t.wire)
        × IsStuck t'.pump
        × (length t'.accepted + length q ≤ length t.accepted + tx_capacity)
  IsStuck-forever t q es a stuck =
      let (t', q', returns, h) =
        run-Halted es t q t q (record { inv = a.inv; stuck = stuck; silent = refl; kept = refl }) in
      (
        t',
        returns,
        h.silent,
        h.stuck,
        omega (arith, h.kept, h.inv.queued.counted, h.inv.queued.bounded, h.inv.bound),
      )

  -- More is to be sent than the send that completes has moved: bytes of its own message, or a next
  -- message of the queue that is not empty. (After an empty one the pump goes on to the one behind it.)
  abbrev pub HasMore : List Bytes → Pump → ℕ → Type 0
  HasMore q p n =
      (n < length p.tx_current)
      ⊎ ((length p.tx_current ≤ n)
          × ((next : Bytes) × (q' : List Bytes) × (q ≡ next ∷ q') × (next ≢ [])))

  completion_sticks :
      (t : Traffic) (q : List Bytes) (n : ℕ)
      → Accounts q t
      → IsActive t.pump
      → HasMore q t.pump n
      → (t' : Traffic) × (step t (completes (moved n)) ≡ done t')
        × (t'.wire ≡ t.wire ++ take n t.pump.tx_current)
        × IsStuck t'.pump
  unfolding step
  completion_sticks t q n a active (inl part) =
      rw (active.1, deliver, on_sent_part t.pump n part)
        (_, refl, refl, (rw active.1 refl, inr left))
    where
      left : drop n t.pump.tx_current ≢ []
      left e = absurd (omega (arith, length-drop n t.pump.tx_current, ap length e))
  completion_sticks t q n a active (inr (whole, (next, q', e, full))) =
      rw
        (
          active.1,
          deliver,
          on_sent_next t.pump q' next n (subst (λ q. Inv q t.pump) e a.inv) whole full,
        )
        (_, refl, refl, (rw active.1 refl, inr full))

  done_once : (t u : Traffic) → done t ≡ done u → t ≡ u
  done_once t u e = cc

  -- In a traffic whose accounts add up, as in each that a run from a new pump comes to: when the send
  -- of what is in hand completes while bytes of it are left, or, all of it gone, while the next message
  -- of the queue is not empty, the pump is stuck. Whatever is written and whatever completes after
  -- that, no call reads outside of the queue, the bytes of that send are the last that have gone out,
  -- and the pump is stuck.
  pub completion_stalls :
      (t : Traffic) (q : List Bytes) (n : ℕ) (es : List Event)
      → Accounts q t
      → IsActive t.pump
      → HasMore q t.pump n
      → (t' : Traffic) × (run t (completes (moved n) ∷ es) ≡ done t')
        × (t'.wire ≡ t.wire ++ take n t.pump.tx_current)
        × IsStuck t'.pump
  unfolding run
  completion_stalls t q n es a active more =
      let (t₁, returns, wire, stuck) = completion_sticks t q n a active more in
      let (t₂, q₂, returns₂, a₂) = step-Balances t q (completes (moved n)) a in
      let same : t₁ ≡ t₂ = done_once t₁ t₂ (sym returns ∙ returns₂) in
      let (t', runs, silent, stays, _) =
        IsStuck-forever t₂ q₂ es a₂ (subst (λ t. IsStuck t.pump) same stuck) in
      rw returns₂ (t', runs, silent ∙ (ap (λ u. u.wire) (sym same) ∙ wire), stays)
