-- ===== src/Serial.antt =====
-- libs/libcon/src/serial.cpp and include/libcon/serial.hpp. The private `Impl` and the class around it
-- are one record; a call that the class only passes on is the call of `Impl`.
-- `posted` has the tasks that were posted to the strand, oldest first, and `reading` counts the reads
-- that asio has not completed. A task that throws is `none`: the exception leaves `ManagerImpl::work`,
-- and with it the program ends.
pub mod Line
pub mod Calls
pub mod Opening
pub mod Closing
mod Tests
use device_tester.Prelude.{
  ℕ, ◌+◌, ◌-◌, Bool, true, false, not, if◌then◌else◌, Option, some, none, List, [], ◌∷◌, ◌++◌,
  String, Bytes, Attempt, done, ◌>>=◌, after,
}
use device_tester.RingBuffer.Container.{CircularBuffer}
use device_tester.Writer.{Pump, Completion, failed, moved, idle, enqueue, start_write, settle, off}
use device_tester.Connection.{
  Text, literal, format, text, number, BaseConnection, unnamed, Receiver, no_slots, on_receive,
}
use device_tester.Asio.{Arrival, aborted, broken, arrived}
use device_tester.Asio.SerialPort.{SerialApi, PortOption}
use Line.{Options, line_options}

-- The tasks that the strand runs.
pub data Task : Type 0 where
  opening closing reading_on writing_on : Task

module _ ⦃box : CircularBuffer Bytes⦄ ⦃api : SerialApi⦄ where
  pub record Serial : Type 0 where
    pub base : BaseConnection
    pub pump : Pump
    pub receiver : Receiver
    pub opts : Options
    pub port : api.Port
    pub connection_str : Text
    pub should_run : Bool
    pub is_open_flag : Bool
    pub reading : ℕ
    pub posted : List Task

  -- The other options are not initialised; `line` says what they are.
  unfoldable pub create : Options → Serial
  create line = record {
    base = unnamed;
    pump = idle;
    receiver = no_slots;
    opts = record line { port = "COM3"; character_size = 8; baud_rate = 115200 };
    port = api.fresh;
    connection_str = literal "";
    should_run = false;
    is_open_flag = false;
    reading = 0;
    posted = [];
  }

  unfoldable pub post : Serial → Task → Serial
  post s task = record s { posted = s.posted ++ task ∷ [] }

  unfoldable pub set_options : Serial → Options → Serial
  set_options s opts = record s { opts = opts }

  unfoldable pub open_serial : Serial → Serial
  open_serial s = post s opening

  unfoldable pub close : Serial → Serial
  close s = post (record s { should_run = false }) closing

  unfoldable pub is_open : Serial → Bool
  is_open s = api.is_open s.port

  unfoldable pub do_close : Serial → Serial
  unfolding is_open
  do_close s =
      let s' = record s { is_open_flag = false; should_run = false } in
      if is_open s then record s' { port = api.close (api.cancel s.port) } else s'

  -- The calls of `set_option`.
  unfoldable pub configure : api.Port → List PortOption → Option api.Port
  configure p [] = some p
  configure p (o ∷ os) = elim (api.set_option p o) [ none ↦ none | some q ↦ configure q os ]

  unfoldable pub started : Serial → api.Port → Serial
  unfolding post
  started s p =
      post
        (record s {
          port = p;
          should_run = true;
          is_open_flag = true;
          connection_str =
              format "serial://{}@{}" (text s.opts.port ∷ number s.opts.baud_rate ∷ []);
        })
        reading_on

  -- `doOpen` after `doClose`.
  unfoldable pub open_line : Serial → Option Serial
  open_line s = elim (api.open_port s.port s.opts.port) [
    | none ↦ none
    | some p ↦ elim (configure p (line_options s.opts)) [
      | none ↦ none
      | some q ↦ some (started s q)
    ]
  ]

  unfoldable pub do_open : Serial → Option Serial
  do_open s = open_line (do_close s)

  unfoldable pub do_read : Serial → Serial
  do_read s = record s { reading = s.reading + 1 }

  unfoldable pub handle_read : Serial → Arrival → Serial
  unfolding do_close post
  handle_read s (arrived bytes) =
      let s' = record s { receiver = on_receive s.receiver bytes; reading = s.reading - 1 } in
      if s'.should_run then post s' reading_on else s'
  handle_read s aborted = do_close (record s { reading = s.reading - 1 })
  handle_read s broken = do_close (record s { reading = s.reading - 1 })

  unfoldable pub do_write : Serial → Serial
  unfolding post
  do_write s = if not s.should_run then s else post s writing_on

  unfoldable pub send : Serial → Bytes → Attempt Serial
  unfolding do_write
  send s bytes = do pump ← enqueue s.pump bytes; done (do_write (record s { pump = pump }))

  unfoldable pub do_start_write : Serial → Attempt Serial
  do_start_write s = do pump ← start_write s.pump; done (record s { pump = pump })

  unfoldable pub handle_sent : Serial → Completion → Attempt Serial
  unfolding post
  handle_sent s failed = done (record s { pump = off s.pump })
  handle_sent s (moved written) = do
    pump ← settle (off s.pump) written
    done (post (record s { pump = pump }) writing_on)

  -- The strand runs a task.
  unfoldable pub perform : Serial → Task → Option Serial
  perform s opening = do_open s
  perform s closing = some (do_close s)
  perform s reading_on = some (do_read s)
  perform s writing_on = some (after s (do_start_write s))

  unfoldable pub generate_readable_name : Serial → Text
  generate_readable_name s = s.connection_str
