-- ===== src/Gui/Console/SerialDevice.antt =====
-- The serial port as a connection that has a console.
use device_tester.Prelude.{
  ◌==◌, ◌≡◌, refl, subst, Bool, true, false, ◌-◌, if◌then◌else◌, Option, some, none, Option-cases,
  inl, inr, List, [], ◌∷◌, Bytes, done, after, arith,
}
use device_tester.RingBuffer.Container.{CircularBuffer}
use device_tester.Asio.{Arrival, aborted, broken, arrived}
use device_tester.Asio.SerialPort.{SerialApi}
use device_tester.Connection.{on_receive, connect_on_receive}
use device_tester.Serial.{
  Task, opening, closing, reading_on, writing_on, Serial, send, do_write, post, set_options,
  open_serial, close, handle_read, handle_sent, perform, do_close, do_open, open_line, started,
  configure, do_read, do_start_write, is_open,
}
use device_tester.Serial.Line.{line_options}
use device_tester.Serial.Calls.{
  Call, sets, opens, closes, works, reads, sends, completes, subscribes, work, step,
}
use device_tester.Gui.Console.{Device, Grows}
use device_tester.Gui.Console.Invariant.{unchanged}

module _ ⦃box : CircularBuffer Bytes⦄ ⦃api : SerialApi⦄ where
  -- If the port still runs, what it received has grown.
  abbrev GrowsIn : Serial → Option Serial → Type 0
  GrowsIn s none = Unit
  GrowsIn s (some t) = Grows s.receiver.received t.receiver.received

  sent-received :
      (s t : Serial) (bytes : Bytes)
      → send s bytes ≡ done t
      → t.receiver.received ≡ s.receiver.received
  unfolding send do_write post
  sent-received s t bytes e = ground arith

  after-received :
      (s : Serial) (bytes : Bytes)
      → (after s (send s bytes)).receiver.received ≡ s.receiver.received
  unfolding send do_write post
  after-received s bytes = ground arith

  do_close-received : (s : Serial) → (do_close s).receiver.received ≡ s.receiver.received
  unfolding do_close is_open
  do_close-received s = ground arith

  open_line-GrowsIn : (s : Serial) → GrowsIn s (open_line s)
  unfolding open_line started post
  open_line-GrowsIn s = elim (Option-cases (api.open_port s.port s.opts.port)) [
    | inl e ↦ rw (GrowsIn, open_line, e) tt
    | inr (p, e) ↦ elim (Option-cases (configure p (line_options s.opts))) [
      | inl f ↦ rw (GrowsIn, open_line, e, f) tt
      | inr (q, f) ↦ rw (GrowsIn, open_line, e, f) (unchanged _ _ refl)
    ]
  ]

  perform-GrowsIn : (s : Serial) (task : Task) → GrowsIn s (perform s task)
  unfolding perform do_open do_read do_start_write
  perform-GrowsIn s opening =
      subst
        (λ l. elim (open_line (do_close s)) [ none ↦ Unit | some t ↦ Grows l t.receiver.received ])
        (do_close-received s) (open_line-GrowsIn (do_close s))
  perform-GrowsIn s closing = unchanged _ _ (do_close-received s)
  perform-GrowsIn s reading_on = unchanged _ _ refl
  perform-GrowsIn s writing_on = unchanged _ _ (ground arith)

  read-Grows :
      (s : Serial) (a : Arrival) → Grows s.receiver.received (handle_read s a).receiver.received
  unfolding handle_read on_receive post
  read-Grows s (arrived bytes) = (bytes ∷ [], ground arith)
  read-Grows s aborted = unchanged _ _ (do_close-received (record s { reading = s.reading - 1 }))
  read-Grows s broken = unchanged _ _ (do_close-received (record s { reading = s.reading - 1 }))

  asked-Grows :
      (b : Bool) (s t : Serial)
      → Grows s.receiver.received t.receiver.received
      → Grows s.receiver.received (if b then s else t).receiver.received
  asked-Grows true s t g = unchanged _ _ refl
  asked-Grows false s t g = g

  work-GrowsIn : (s : Serial) (tasks : List Task) → GrowsIn s (work s tasks)
  unfolding work
  work-GrowsIn s [] = unchanged _ _ refl
  work-GrowsIn s (task ∷ tasks) = perform-GrowsIn (record s { posted = tasks }) task

  step-GrowsIn : (s : Serial) (c : Call) → GrowsIn s (step s c)
  unfolding step set_options open_serial close post handle_sent connect_on_receive
  step-GrowsIn s (sets opts) = unchanged _ _ refl
  step-GrowsIn s opens = unchanged _ _ refl
  step-GrowsIn s closes = unchanged _ _ refl
  step-GrowsIn s works = work-GrowsIn s s.posted
  step-GrowsIn s (reads arrival) =
      asked-Grows (s.reading == 0) s (handle_read s arrival) (read-Grows s arrival)
  step-GrowsIn s (sends bytes) = unchanged _ _ (after-received s bytes)
  step-GrowsIn s (completes c) = unchanged _ _ (ground arith)
  step-GrowsIn s (subscribes slot) = unchanged _ _ refl

  step-Grows :
      (s t : Serial) (c : Call) → step s c ≡ some t → Grows s.receiver.received t.receiver.received
  step-Grows s t c e = subst (GrowsIn s) e (step-GrowsIn s c)

  abbrev serial : Device
  serial = record {
    State = Serial;
    Call = Call;
    received = λ s. s.receiver.received;
    send = send;
    step = step;
    received-send = sent-received;
    received-step = step-Grows;
  }
