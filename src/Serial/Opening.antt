-- ===== src/Serial/Opening.antt =====
-- How a serial port opens and closes.
use device_tester.Prelude.{
  ◌==◌, ◌-◌, ℕ, suc, ◌+◌, ◌<◌, ◌≡◌, refl, sym, subst, ap, ◌∙◌, inl, inr, true, false, Option-cases,
  Bool-cases, Option, some, none, List, [], ◌∷◌, ◌++◌, Bytes, after, arith,
}
use device_tester.RingBuffer.Container.{CircularBuffer}
use device_tester.Asio.{Arrival, aborted, broken, arrived}
use device_tester.Asio.SerialPort.{SerialApi, PortOption}
use device_tester.Serial.Line.{Options, line_options}
use device_tester.Writer.{Completion, failed, moved}
use device_tester.Serial.{
  Task, opening, closing, reading_on, writing_on, Serial, create, post, set_options, open_serial,
  close, is_open, do_close, configure, started, open_line, do_open, do_read, handle_read, do_write,
  send, do_start_write, handle_sent, perform,
}
use device_tester.Serial.Calls.{
  Call, sets, opens, closes, works, reads, sends, completes, subscribes, work, step, run,
}

-- How many of these tasks read.
abbrev pub readers : List Task → ℕ
readers [] = 0
readers (reading_on ∷ ts) = suc (readers ts)
readers (_ ∷ ts) = readers ts

readers-append : (ts us : List Task) → readers (ts ++ us) ≡ readers ts + readers us
readers-append [] us = omega arith
readers-append (opening ∷ ts) us = readers-append ts us
readers-append (closing ∷ ts) us = readers-append ts us
readers-append (reading_on ∷ ts) us = omega (arith, readers-append ts us)
readers-append (writing_on ∷ ts) us = readers-append ts us

module _ ⦃box : CircularBuffer Bytes⦄ ⦃api : SerialApi⦄ where
  -- `is_open_` tells whether the port is open, and a port that is to run is open and is read from, or
  -- will be.
  pub record IsServed (s : Serial) : Type 0 where
    pub flagged : s.is_open_flag ≡ api.is_open s.port
    pub opened : s.should_run ≡ true → s.is_open_flag ≡ true
    pub served : s.should_run ≡ true → 0 < s.reading + readers s.posted

  injected : (s t : Serial) → some s ≡ some t → s ≡ t
  injected s t e = cc

  abbrev pub Keeps : Option Serial → Type 0
  Keeps none = Unit
  Keeps (some s) = IsServed s

  -- Closing, whatever `reading` is set to.
  do_close-IsServed : (s : Serial) → IsServed (do_close s)
  unfolding do_close is_open
  do_close-IsServed s = elim (Bool-cases (api.is_open s.port)) [
    | inl h ↦
        rw (h, do_close)
          (record {
            flagged = rw (api.is_open-close (api.cancel s.port)) refl;
            opened = λ e. cc;
            served = λ e. cc;
          })
    | inr h ↦ rw (h, do_close) (record { flagged = rw h refl; opened = λ e. cc; served = λ e. cc })
  ]

  KeepsOpen : Option api.Port → api.Port → Type 0
  KeepsOpen none p = Unit
  KeepsOpen (some q) p = api.is_open q ≡ api.is_open p

  KeepsOpen-from :
      (o : Option api.Port) (p q : api.Port)
      → api.is_open p ≡ api.is_open q
      → KeepsOpen o p
      → KeepsOpen o q
  unfolding KeepsOpen
  KeepsOpen-from none p q e h = tt
  KeepsOpen-from (some r) p q e h = h ∙ e

  rewritten :
      (o : Option api.Port) (q p : api.Port)
      → o ≡ some q
      → KeepsOpen o p
      → api.is_open q ≡ api.is_open p
  unfolding KeepsOpen
  rewritten none q p e h = cc
  rewritten (some r) q p e h = cc

  configure-open : (os : List PortOption) (p : api.Port) → KeepsOpen (configure p os) p
  unfolding configure KeepsOpen
  configure-open [] p = refl
  configure-open (o ∷ os) p = elim (Option-cases (api.set_option p o)) [
    | inl h ↦ rw (h, configure) tt
    | inr (r, h) ↦
        rw (h, configure)
          (KeepsOpen-from (configure r os) r p (api.is_open-set_option p r o h)
            (configure-open os r))
  ]

  started-IsServed : (s : Serial) (p : api.Port) → api.is_open p ≡ true → IsServed (started s p)
  unfolding started
  started-IsServed s p h = record {
    flagged = sym h;
    opened = λ e. refl;
    served = λ e. omega (arith, readers-append s.posted (reading_on ∷ []));
  }

  open_line-Keeps : (s : Serial) → Keeps (open_line s)
  unfolding open_line
  open_line-Keeps s = elim (Option-cases (api.open_port s.port s.opts.port)) [
    | inl h ↦ rw (h, open_line) tt
    | inr (p, h) ↦ elim (Option-cases (configure p (line_options s.opts))) [
      | inl h' ↦ rw (h, open_line, h') tt
      | inr (q, h') ↦
          let still : KeepsOpen (configure p (line_options s.opts)) p =
            configure-open (line_options s.opts) p in
          let opened : api.is_open q ≡ true =
            (rewritten (configure p (line_options s.opts)) q p h' still)
            ∙ api.is_open-open_port s.port p s.opts.port h in
          rw (h, open_line, h') (started-IsServed s q opened)
    ]
  ]

  read-IsServed : (s : Serial) (a : Arrival) → IsServed s → IsServed (handle_read s a)
  unfolding handle_read
  read-IsServed s (arrived bytes) v = elim (Bool-cases s.should_run) [
    | inl h ↦
        rw (h, handle_read)
          (record {
            flagged = v.flagged;
            opened = λ e. v.opened h;
            served = λ e. omega (arith, readers-append s.posted (reading_on ∷ []));
          })
    | inr h ↦
        rw (h, handle_read) (record { flagged = v.flagged; opened = λ e. cc; served = λ e. cc })
  ]
  read-IsServed s aborted v = do_close-IsServed (record s { reading = s.reading - 1 })
  read-IsServed s broken v = do_close-IsServed (record s { reading = s.reading - 1 })

  after-send-IsServed :
      (s : Serial) (bytes : Bytes) → IsServed s → IsServed (after s (send s bytes))
  unfolding send do_write post
  after-send-IsServed s bytes v = ground (arith, readers-append s.posted (writing_on ∷ []))

  after-handle_sent-IsServed :
      (s : Serial) (c : Completion) → IsServed s → IsServed (after s (handle_sent s c))
  unfolding handle_sent post
  after-handle_sent-IsServed s failed v = record {
    flagged = v.flagged;
    opened = v.opened;
    served = v.served;
  }
  after-handle_sent-IsServed s (moved n) v =
      ground (arith, readers-append s.posted (writing_on ∷ []))

  after-do_start_write-IsServed : (s : Serial) → IsServed s → IsServed (after s (do_start_write s))
  unfolding do_start_write
  after-do_start_write-IsServed s v = ground arith

  post-IsServed : (s : Serial) (t : Task) → IsServed s → IsServed (post s t)
  unfolding post
  post-IsServed s t v = record {
    flagged = v.flagged;
    opened = v.opened;
    served = λ e. omega (arith, v.served e, readers-append s.posted (t ∷ []));
  }

  close-IsServed : (s : Serial) → IsServed s → IsServed (close s)
  unfolding close
  close-IsServed s v =
      post-IsServed (record s { should_run = false }) closing
        (record { flagged = v.flagged; opened = λ e. cc; served = λ e. cc })

  work-Keeps : (s : Serial) (ts : List Task) → s.posted ≡ ts → IsServed s → Keeps (work s ts)
  unfolding work perform do_open do_read
  work-Keeps s [] e v = v
  work-Keeps s (opening ∷ ts) e v = open_line-Keeps (do_close (record s { posted = ts }))
  work-Keeps s (closing ∷ ts) e v = do_close-IsServed (record s { posted = ts })
  work-Keeps s (reading_on ∷ ts) e v = record {
    flagged = v.flagged;
    opened = v.opened;
    served = λ h. omega arith;
  }
  work-Keeps s (writing_on ∷ ts) e v =
      after-do_start_write-IsServed (record s { posted = ts })
        (record {
          flagged = v.flagged;
          opened = v.opened;
          served = λ h. omega (arith, v.served h, ap readers e);
        })

  step-Keeps : (s : Serial) (c : Call) → IsServed s → Keeps (step s c)
  unfolding step set_options open_serial
  step-Keeps s (sets opts) v = record { flagged = v.flagged; opened = v.opened; served = v.served }
  step-Keeps s opens v = post-IsServed s opening v
  step-Keeps s closes v = close-IsServed s v
  step-Keeps s works v = work-Keeps s s.posted refl v
  step-Keeps s (reads arrival) v = elim (Bool-cases (s.reading == 0)) [
    | inl h ↦ rw h v
    | inr h ↦ rw h (read-IsServed s arrival v)
  ]
  step-Keeps s (sends bytes) v = after-send-IsServed s bytes v
  step-Keeps s (completes c) v = after-handle_sent-IsServed s c v
  step-Keeps s (subscribes slot) v = record {
    flagged = v.flagged;
    opened = v.opened;
    served = v.served;
  }

  pub kept : (o : Option Serial) (s : Serial) → o ≡ some s → Keeps o → IsServed s
  kept none s e k = cc
  kept (some s') s e k = subst IsServed (injected s' s e) k

  run-Keeps : (cs : List Call) (s : Serial) → IsServed s → Keeps (run s cs)
  unfolding run
  run-Keeps [] s v = v
  run-Keeps (c ∷ cs) s v = elim (Option-cases (step s c)) [
    | inl h ↦ rw (h, run) tt
    | inr (s', h) ↦ rw (h, run) (run-Keeps cs s' (kept (step s c) s' h (step-Keeps s c v)))
  ]

  create-IsServed : (line : Options) → IsServed (create line)
  unfolding create
  create-IsServed line = record {
    flagged = sym api.is_open-fresh;
    opened = λ e. cc;
    served = λ e. cc;
  }

  -- After any calls on a new serial port, made by the program, by asio or by the strand, unless one of
  -- them threw: `is_open_` tells whether the port is open, a port that is to run is open, and asio holds
  -- a read for it, or the strand has one to start.
  pub run-create-Keeps : (line : Options) (cs : List Call) → Keeps (run (create line) cs)
  run-create-Keeps line cs = run-Keeps cs (create line) (create-IsServed line)
