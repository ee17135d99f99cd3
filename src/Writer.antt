-- ===== src/Writer.antt =====
-- libs/libcon/src/writer.hpp and writer.cpp, with the sending loop over them that tcp_client.cpp,
-- tcp_server.cpp, serial.cpp and udp_connection.cpp each spell out, word for word but for the call of
-- asio that sends.
-- A call of asio that sends is kept as the buffer it was given, in `sending`, until it completes. What
-- it completes with (an error, or the number of bytes written) is an argument of the handler.
pub mod Invariant
pub mod Handler
pub mod Traffic
pub mod Order
pub mod Stall
pub mod Delivery
pub mod Threads
mod Tests
use device_tester.Prelude.{
  ℕ, ◌+◌, Bool, true, false, ◌&&◌, ltb, ◌==◌, if◌then◌else◌, List, [], ◌∷◌, ◌++◌, length, drop,
  Bytes, Attempt, done, ◌>>=◌,
}
use device_tester.RingBuffer.Container.{CircularBuffer}
use device_tester.RingBuffer.{RingBuffer, init, push_front, pop_back, is_not_empty}

-- What asio tells a handler: an error, or how many bytes were moved.
pub data Completion : Type 0 where
  failed : Completion
  moved : ℕ → Completion

module _ ⦃box : CircularBuffer Bytes⦄ where
  -- `Writer`, with the flag that its heirs add and the sends that asio has not completed.
  pub record Pump : Type 0 where
    pub tx_queue : RingBuffer Bytes
    pub tx_current : Bytes
    pub write_in_progress : Bool
    pub sending : List Bytes

  abbrev pub tx_capacity : ℕ
  tx_capacity = 100

  unfoldable pub idle : Pump
  unfolding init
  idle = record {
    tx_queue = init tx_capacity;
    tx_current = [];
    write_in_progress = false;
    sending = [];
  }

  -- The first half of `Writer::write`; the second is the heir's `doWrite`.
  unfoldable pub enqueue : Pump → Bytes → Attempt Pump
  enqueue p bytes = do q ← push_front p.tx_queue bytes; done (record p { tx_queue = q })

  -- The assignment from the queue.
  unfoldable pub take_next : Pump → Attempt Pump
  take_next p = do
    (next, q) ← pop_back p.tx_queue
    done (record p { tx_queue = q; tx_current = next })

  unfoldable pub launch : Pump → Pump
  launch p = record p { write_in_progress = true; sending = p.sending ++ p.tx_current ∷ [] }

  unfoldable pub start_write : Pump → Attempt Pump
  unfolding is_not_empty take_next launch
  start_write p =
      if p.write_in_progress
      then done p
      else if (length p.tx_current == 0) && is_not_empty p.tx_queue
      then (do p' ← take_next p; done (launch p'))
      else done p

  -- What the handler does with the bytes that were written.
  unfoldable pub advance : Pump → ℕ → Attempt Pump
  unfolding is_not_empty take_next
  advance p written =
      if ltb written (length p.tx_current)
      then done (record p { tx_current = drop written p.tx_current })
      else if is_not_empty p.tx_queue
      then take_next p
      else done (record p { tx_current = [] })

  -- The handler up to its last line, which starts the next send, here or through the strand.
  unfoldable pub settle : Pump → ℕ → Attempt Pump
  unfolding advance
  settle p written = do p' ← advance p written; done (record p' { write_in_progress = false })

  -- Asio takes the oldest send off when it completes.
  abbrev pub off : Pump → Pump
  off p = record p { sending = drop 1 p.sending }

  -- The handler that `startWrite` gives to `async_send`.
  unfoldable pub on_sent : Pump → Completion → Attempt Pump
  unfolding settle start_write
  on_sent p failed = done (off p)
  on_sent p (moved written) = do p' ← settle (off p) written; start_write p'
