-- ===== src/Serial/Closing.antt =====
-- What closes a serial port, and what its line is set to.
use device_tester.Prelude.{
  String, append_assoc, ℕ, suc, ◌≡◌, refl, ap, ◌∙◌, inl, inr, Bool, true, false, Option-cases,
  Bool-cases, Option, some, none, List, [], ◌∷◌, ◌++◌, length, Bytes, after, arith,
}
use device_tester.RingBuffer.Container.{CircularBuffer}
use device_tester.Asio.SerialPort.{PortOption, SerialApi}
use device_tester.Serial.Line.{Options, Parity, odd, even, line_options, parity_type}
use device_tester.Serial.{
  configure, Task, opening, closing, reading_on, writing_on, Serial, post, close, is_open, do_close,
  open_line, do_open, do_read, do_start_write, started, perform, set_options,
}
use device_tester.Serial.Calls.{work, drain}

-- Whether a task opens the port.
abbrev pub opens_port : List Task → Bool
opens_port [] = false
opens_port (opening ∷ ts) = true
opens_port (_ ∷ ts) = opens_port ts

abbrev pub with_parity : Options → Parity → Options
with_parity opts p = record opts { parity = p }

module _ ⦃box : CircularBuffer Bytes⦄ ⦃api : SerialApi⦄ where
  do_close-closed : (s : Serial) → is_open (do_close s) ≡ false
  unfolding do_close is_open
  do_close-closed s = ground (arith, api.is_open-close (api.cancel s.port))

  -- The port is closed, or the program ended, which only an `opening` does.
  abbrev pub ClosedOr : Bool → Option Serial → Type 0
  ClosedOr may_throw none = may_throw ≡ true
  ClosedOr may_throw (some s) = (is_open s ≡ false) × (s.should_run ≡ false)

  may_throw : (b : Bool) (o : Option Serial) → ClosedOr b o → ClosedOr true o
  may_throw b none h = refl
  may_throw b (some s) h = h

  do_close-stopped : (s : Serial) → (do_close s).should_run ≡ false
  unfolding do_close
  do_close-stopped s = ground arith

  do_close-posted : (s : Serial) → (do_close s).posted ≡ s.posted
  unfolding do_close
  do_close-posted s = ground arith

  written-posted : (s : Serial) → (after s (do_start_write s)).posted ≡ s.posted
  unfolding do_start_write
  written-posted s = ground arith

  open_line-posted :
      (s s' : Serial) → open_line s ≡ some s' → s'.posted ≡ s.posted ++ reading_on ∷ []
  unfolding open_line started post
  open_line-posted s s' e = ground (arith, e)

  abbrev before : Serial → List Task → Serial
  before s ts = record s { posted = ts }

  work_next :
      (s : Serial) (t : Task) (ts : List Task)
      → s.posted ≡ t ∷ ts
      → work s s.posted ≡ perform (before s ts) t
  unfolding work
  work_next s t ts e = ap (work s) e

  -- The oldest task is the next.
  drain_next :
      (n : ℕ) (s : Serial) (t : Task) (ts : List Task) (s' : Serial)
      → s.posted ≡ t ∷ ts
      → perform (before s ts) t ≡ some s'
      → drain (suc n) s ≡ drain n s'
  unfolding drain
  drain_next n s t ts s' e p = rw (drain, work_next s t ts e, p) refl

  drain_throws :
      (n : ℕ) (s : Serial) (t : Task) (ts : List Task)
      → s.posted ≡ t ∷ ts
      → perform (before s ts) t ≡ none
      → drain (suc n) s ≡ none
  unfolding drain
  drain_throws n s t ts e p = rw (drain, work_next s t ts e, p) refl

  drain_close :
      (ts us : List Task) (s : Serial)
      → s.posted ≡ ts ++ closing ∷ us
      → ClosedOr (opens_port ts) (drain (suc (length ts)) s)
  unfolding perform do_open do_read drain
  drain_close [] us s e =
      rw (drain_next 0 s closing us (do_close (before s us)) e refl, drain)
        (do_close-closed (before s us), do_close-stopped (before s us))
  drain_close (opening ∷ ts) us s e =
      let s' = before s (ts ++ closing ∷ us) in
      let later = us ++ reading_on ∷ [] in
      let moved_back : (t : Serial)
          → open_line (do_close s') ≡ some t
          → t.posted ≡ ts ++ closing ∷ later =
        λ t h.
          open_line-posted (do_close s') t h
          ∙ ap (λ ps. ps ++ reading_on ∷ []) (do_close-posted s')
          ∙ append_assoc ts (closing ∷ us) (reading_on ∷ []) in
      elim (Option-cases (do_open s')) [
        | inl h ↦ rw (drain_throws (suc (length ts)) s opening (ts ++ closing ∷ us) e h) refl
        | inr (s'', h) ↦
            rw (drain_next (suc (length ts)) s opening (ts ++ closing ∷ us) s'' e h)
              (may_throw (opens_port ts) _ (drain_close ts later s'' (moved_back s'' h)))
      ]
  drain_close (closing ∷ ts) us s e =
      let s' = before s (ts ++ closing ∷ us) in
      rw (drain_next (suc (length ts)) s closing (ts ++ closing ∷ us) (do_close s') e refl)
        (drain_close ts us (do_close s') (do_close-posted s'))
  drain_close (reading_on ∷ ts) us s e =
      let s' = before s (ts ++ closing ∷ us) in
      rw (drain_next (suc (length ts)) s reading_on (ts ++ closing ∷ us) (do_read s') e refl)
        (drain_close ts us (do_read s') refl)
  drain_close (writing_on ∷ ts) us s e =
      let s' = before s (ts ++ closing ∷ us) in
      let t : Serial = after s' (do_start_write s') in
      rw (drain_next (suc (length ts)) s writing_on (ts ++ closing ∷ us) t e refl)
        (drain_close ts us t (written-posted s'))

  -- Once the strand has run what was posted before a `close`, and the close, the port is closed and is
  -- not to run; what was posted before may open the port, and only then can the program end instead.
  pub drain-close :
      (s : Serial) → ClosedOr (opens_port s.posted) (drain (suc (length s.posted)) (close s))
  unfolding close post
  drain-close s = drain_close s.posted [] (close s) refl

  abbrev pub port_of : Option Serial → Option api.Port
  port_of none = none
  port_of (some s) = some s.port

  -- What `open_line` makes of a port depends on the name and the options of the line only.
  line_of : api.Port → String → List PortOption → Option api.Port
  line_of p name os = elim (api.open_port p name) [ none ↦ none | some q ↦ configure q os ]

  open_line-port :
      (s : Serial) → port_of (open_line s) ≡ line_of s.port s.opts.port (line_options s.opts)
  unfolding open_line started post line_of
  open_line-port s = elim (Option-cases (api.open_port s.port s.opts.port)) [
    | inl h ↦ rw (h, open_line, line_of) refl
    | inr (p, h) ↦ elim (Option-cases (configure p (line_options s.opts))) [
      | inl h' ↦ rw (h, open_line, line_of, h') refl
      | inr (q, h') ↦ rw (h, open_line, line_of, h') refl
    ]
  ]

  abbrev reset : Serial → Options → Parity → Serial
  reset s opts p = set_options s (with_parity opts p)

  -- A port whose options ask for odd parity is opened, or fails to open, exactly as one whose options
  -- ask for even parity and are the same otherwise.
  pub do_open-parity :
      (s : Serial) (opts : Options)
      → port_of (do_open (set_options s (with_parity opts odd)))
        ≡ port_of (do_open (set_options s (with_parity opts even)))
  unfolding do_open do_close is_open line_options parity_type set_options
  do_open-parity s opts = elim (Bool-cases (api.is_open s.port)) [
    | inl h ↦
        rw
          (
            open_line-port (do_close (reset s opts odd)),
            open_line-port (do_close (reset s opts even)),
            h,
          )
          refl
    | inr h ↦
        rw
          (
            open_line-port (do_close (reset s opts odd)),
            open_line-port (do_close (reset s opts even)),
            h,
          )
          refl
  ]
