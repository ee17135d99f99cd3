-- ===== src/TcpServer/Session.antt =====
-- `TcpServerClient` of libs/libcon/src/tcp_server.cpp: one client of the server.
use device_tester.Prelude.{
  ℕ, [], ◌∷◌, ◌+◌, ◌-◌, Bool, true, false, if◌then◌else◌, Bytes, Attempt, done, ◌>>=◌,
}
use device_tester.RingBuffer.Container.{CircularBuffer}
use device_tester.Writer.{Pump, Completion, idle, enqueue, start_write, on_sent}
use device_tester.Connection.{
  Text, format, text, number, BaseConnection, unnamed, Receiver, no_slots, on_receive,
}
use device_tester.Asio.{SocketApi}

module _ ⦃box : CircularBuffer Bytes⦄ ⦃net : SocketApi⦄ where
  -- `reading` counts the receives that asio has not completed.
  pub record TcpServerClient : Type 0 where
    pub base : BaseConnection
    pub pump : Pump
    pub receiver : Receiver
    pub do_run : Bool
    pub socket : net.Socket
    pub reading : ℕ

  unfoldable pub make : net.Socket → TcpServerClient
  make socket = record {
    base = unnamed;
    pump = idle;
    receiver = no_slots;
    do_run = true;
    socket = socket;
    reading = 0;
  }

  unfoldable pub start_read : TcpServerClient → TcpServerClient
  start_read c = record c { reading = c.reading + 1 }

  unfoldable pub start : TcpServerClient → TcpServerClient
  unfolding start_read
  start c = start_read (record c { do_run = true })

  unfoldable pub stop : TcpServerClient → TcpServerClient
  stop c = record c { do_run = false; socket = net.close c.socket }

  unfoldable shutdown : TcpServerClient → TcpServerClient
  shutdown c = record c { socket = net.shutdown c.socket }

  -- A receive that completed with an error is taken off.
  unfoldable pub unread : TcpServerClient → TcpServerClient
  unread c = record c { reading = c.reading - 1 }

  -- The handler of a receive that brought bytes.
  unfoldable pub receive : TcpServerClient → Bytes → TcpServerClient
  unfolding start_read unread
  receive c bytes =
      let c' = unread (record c { receiver = on_receive c.receiver bytes }) in
      if c'.do_run then start_read c' else c'

  unfoldable pub do_write : TcpServerClient → Attempt TcpServerClient
  do_write c =
      if c.pump.write_in_progress
      then done c
      else (do pump ← start_write c.pump; done (record c { pump = pump }))

  unfoldable pub send : TcpServerClient → Bytes → Attempt TcpServerClient
  unfolding do_write
  send c bytes = do pump ← enqueue c.pump bytes; do_write (record c { pump = pump })

  unfoldable pub handle_sent : TcpServerClient → Completion → Attempt TcpServerClient
  handle_sent c completion = do pump ← on_sent c.pump completion; done (record c { pump = pump })

  -- From what `remote_endpoint` says of the socket.
  unfoldable pub generate_readable_name : (net.Socket → net.Address × ℕ) → TcpServerClient → Text
  generate_readable_name remote_endpoint c =
      let (address, port) = remote_endpoint c.socket in
      format "{}:{}" (text (net.to_string address) ∷ number port ∷ [])
