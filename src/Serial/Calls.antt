-- ===== src/Serial/Calls.antt =====
-- A serial port over time: what the program calls, what asio calls and what the strand runs.
use device_tester.Prelude.{
  ℕ, zero, suc, ◌==◌, if◌then◌else◌, Option, some, none, List, [], ◌∷◌, Bytes, after,
}
use device_tester.RingBuffer.Container.{CircularBuffer}
use device_tester.Writer.{Completion}
use device_tester.Connection.{connect_on_receive}
use device_tester.Asio.{Arrival}
use device_tester.Asio.SerialPort.{SerialApi}
use device_tester.Serial.Line.{Options}
use device_tester.Serial.{
  Task, Serial, set_options, open_serial, close, handle_read, send, handle_sent, perform,
}

pub data Call : Type 0 where
  sets : Options → Call
  opens : Call
  closes : Call
  works : Call
  reads : Arrival → Call
  sends : Bytes → Call
  completes : Completion → Call
  subscribes : ℕ → Call

module _ ⦃box : CircularBuffer Bytes⦄ ⦃api : SerialApi⦄ where
  -- The strand takes its oldest task.
  unfoldable pub work : Serial → List Task → Option Serial
  work s [] = some s
  work s (task ∷ tasks) = perform (record s { posted = tasks }) task

  -- Asio completes a read only if one was started.
  unfoldable pub step : Serial → Call → Option Serial
  unfolding work
  step s (sets opts) = some (set_options s opts)
  step s opens = some (open_serial s)
  step s closes = some (close s)
  step s works = work s s.posted
  step s (reads arrival) = some (if s.reading == 0 then s else handle_read s arrival)
  step s (sends bytes) = some (after s (send s bytes))
  step s (completes c) = some (after s (handle_sent s c))
  step s (subscribes slot) = some (record s { receiver = connect_on_receive s.receiver slot })

  unfoldable pub run : Serial → List Call → Option Serial
  run s [] = some s
  run s (c ∷ cs) = elim (step s c) [ none ↦ none | some s' ↦ run s' cs ]

  -- The strand runs that many tasks.
  unfoldable pub drain : ℕ → Serial → Option Serial
  drain zero s = some s
  drain (suc n) s = elim (work s s.posted) [ none ↦ none | some s' ↦ drain n s' ]
