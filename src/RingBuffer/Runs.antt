-- ===== src/RingBuffer/Runs.antt =====
-- Sequences of calls on a ring buffer, made by any threads in any order, against the queue's.
use device_tester.Prelude.{
  ℕ, ◌^◌, ◌<◌, ◌≡◌, refl, ap, ◌∙◌, List, [], ◌∷◌, ◌++◌, length, inl, inr, ◌⊎◌, arith, done, blocked,
}
use device_tester.RingBuffer.Container.{CircularBuffer}
use device_tester.RingBuffer.{RingBuffer, init, push_front, pop_back}
use device_tester.RingBuffer.Fifo
use device_tester.RingBuffer.Fifo.{
  Op, push, pop, Reply, pushed, popped, waits, faults, after_push, after_pop,
}
use device_tester.RingBuffer.Refine.{
  Represents, grown-Represents, shrunk-Represents, push_front_room, push_front_full, pop_back_empty,
  pop_back_item, init-Represents,
}

module _ {ℓ} {A : Type ℓ} ⦃box : CircularBuffer A⦄ where
  unfoldable pub step : RingBuffer A → Op A → Reply A × RingBuffer A
  unfolding push_front pop_back
  step r (push x) = after_push r (push_front r x)
  step r pop = after_pop r (pop_back r)

  unfoldable pub run : RingBuffer A → List (Op A) → List (Reply A)
  unfolding step
  run r [] = []
  run r (op ∷ ops) = let (reply, r') = step r op in reply ∷ run r' ops

  -- One call: the reply of the queue, and a buffer that represents the queue's next state.
  abbrev Follows : RingBuffer A → List A → Op A → Type ℓ
  Follows r q op =
      let (reply, r') = step r op in
      let (expected, q') = Fifo.step (box.capacity r.container) q op in
      (reply ≡ expected) × Represents r' q' × (box.capacity r'.container ≡ box.capacity r.container)

  room-or-full :
      (r : RingBuffer A) (q : List A)
      → Represents r q
      → (length q < box.capacity r.container) ⊎ (length q ≡ box.capacity r.container)
  room-or-full r q v = grind (arith, v.bounded)

  Fifo_room :
      (bound : ℕ) (q : List A) (x : A)
      → length q < bound
      → Fifo.push_front bound q x ≡ done (q ++ x ∷ [])
  unfolding Fifo.push_front
  Fifo_room bound q x h = ground arith

  Fifo_full :
      (bound : ℕ) (q : List A) (x : A) → length q ≡ bound → Fifo.push_front bound q x ≡ blocked
  unfolding Fifo.push_front
  Fifo_full bound q x h = ground arith

  step-Follows : (r : RingBuffer A) (q : List A) (op : Op A) → Represents r q → Follows r q op
  unfolding step Fifo.step
  step-Follows r q (push x) v = elim (room-or-full r q v) [
    | inl h ↦
        rw (push_front_room r q x v h, Fifo_room _ q x h)
          (refl, grown-Represents r q x v h, box.capacity-push_front r.container x)
    | inr h ↦ rw (push_front_full r q x v h, Fifo_full _ q x h) (refl, v, refl)
  ]
  step-Follows r [] pop v = rw (pop_back_empty r v) (refl, v, refl)
  step-Follows r (x ∷ q) pop v = rw (pop_back_item r q x v) (refl, shrunk-Represents r q x v, refl)

  run-Represents :
      (ops : List (Op A)) (r : RingBuffer A) (q : List A)
      → Represents r q
      → run r ops ≡ Fifo.run (box.capacity r.container) q ops
  unfolding run Fifo.run
  run-Represents [] r q v = refl
  run-Represents (op ∷ ops) r q v =
      let (same, after, keeps) = step-Follows r q op v in
      rw (same, run-Represents ops (step r op).1 _ after, keeps) refl

  -- Started empty with a capacity of which a `size_t` can count one more, a ring buffer gives, to
  -- any sequence of pushes and pops, the replies of the bounded queue of that capacity: items come
  -- out in the order in which they went in, a push waits exactly when the queue is full and a pop
  -- exactly when it is empty, and no call reads outside of the container.
  pub run-init :
      (bound : ℕ) (ops : List (Op A))
      → bound < 2 ^ 64
      → run (init bound) ops ≡ Fifo.run bound [] ops
  unfolding init
  run-init bound ops h =
      run-Represents ops (init bound) [] (init-Represents bound h)
      ∙ ap (λ n. Fifo.run n [] ops) (box.capacity-with_capacity bound)
