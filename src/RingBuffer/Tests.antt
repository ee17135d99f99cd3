-- ===== src/RingBuffer/Tests.antt =====
-- Runs of the ring buffer.
use device_tester.Prelude.{ℕ, ◌≡◌, refl, List, [], ◌∷◌, arith}
use device_tester.RingBuffer.{init}
use device_tester.RingBuffer.Listed.{listed}
use device_tester.RingBuffer.Fifo
use device_tester.RingBuffer.Fifo.{Op, push, pop, Reply, pushed, popped, waits}
use device_tester.RingBuffer.Runs.{run, run-init}

abbrev calls : List (Op ℕ)
calls = push 5 ∷ push 6 ∷ push 7 ∷ pop ∷ push 8 ∷ pop ∷ pop ∷ pop ∷ []

replies :
    run (init 2) calls
    ≡ pushed ∷ pushed ∷ waits ∷ popped 5 ∷ pushed ∷ popped 6 ∷ popped 8 ∷ waits ∷ []
unfolding run init
replies = refl

run-init_example : run (init 2) calls ≡ Fifo.run 2 [] calls
run-init_example = run-init 2 calls (omega arith)
