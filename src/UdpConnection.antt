-- ===== src/UdpConnection.antt =====
-- libs/libcon/src/udp_connection.cpp and include/libcon/udp_connection.hpp. The private `Impl` and the
-- class around it are one record; a call that the class only passes on is the call of `Impl`.
pub mod Calls
pub mod Listening
mod Tests
use device_tester.Prelude.{
  ℕ, ◌+◌, ◌-◌, Bool, true, false, not, if◌then◌else◌, Option, some, none, [], ◌∷◌, String, Bytes,
  Attempt, done, ◌>>=◌,
}
use device_tester.RingBuffer.Container.{CircularBuffer}
use device_tester.Writer.{Pump, Completion, idle, enqueue, start_write, on_sent}
use device_tester.Connection.{
  IpProtocol, ipv4, ipv6, Text, format, text, BaseConnection, unnamed, Receiver, no_slots,
  on_receive,
}
use device_tester.Asio.{Arrival, aborted, broken, arrived, SocketApi}

-- The ports are `unsigned short`.
pub record Options : Type 0 where
  pub write_address : String
  pub write_port : ℕ
  pub listen_protocol : IpProtocol
  pub listen_port : ℕ

module _ ⦃box : CircularBuffer Bytes⦄ ⦃net : SocketApi⦄ where
  -- `reading` counts the receives that asio has not completed. An endpoint is `none` until it is set.
  pub record Udp : Type 0 where
    pub base : BaseConnection
    pub pump : Pump
    pub receiver : Receiver
    pub opts : Options
    pub socket : net.Socket
    pub listen_endpoint : Option (IpProtocol × ℕ)
    pub write_endpoint : Option (net.Address × ℕ)
    pub should_run : Bool
    pub should_receive : Bool
    pub reading : ℕ

  unfoldable pub create : Options → Udp
  create opts = record {
    base = unnamed;
    pump = idle;
    receiver = no_slots;
    opts = opts;
    socket = net.fresh;
    listen_endpoint = none;
    write_endpoint = none;
    should_run = true;
    should_receive = false;
    reading = 0;
  }

  unfoldable pub is_receiving : Udp → Bool
  is_receiving s = s.should_receive

  unfoldable pub start_read : Udp → Udp
  start_read s = record s { reading = s.reading + 1 }

  unfoldable pub disconnect : Udp → Udp
  disconnect s = record s { should_receive = false; socket = net.cancel s.socket }

  -- The `catch` of `startReceive`, which keeps what was done to the socket before the exception.
  unfoldable pub give_up : Udp → Udp
  give_up s = record s { should_receive = false }

  -- The `try` of `startReceive`: open, bind, read.
  unfoldable pub listen : Udp → IpProtocol → Udp
  unfolding start_read give_up
  listen s version = elim (net.open_socket s.socket version) [
    | none ↦ give_up s
    | some opened ↦ elim (net.bind opened version s.opts.listen_port) [
      | none ↦ give_up (record s { socket = opened })
      | some bound ↦ start_read (record s { socket = bound })
    ]
  ]

  -- The version of the address that is listened on: `protocol == ipv4 ? v4() : v6()`.
  unfoldable pub listen_on : Udp → IpProtocol → Udp
  unfolding listen
  listen_on s IpProtocol.none = s
  listen_on s ipv4 =
      listen (record s { should_receive = true; listen_endpoint = some (ipv4, s.opts.listen_port) })
        ipv4
  listen_on s ipv6 =
      listen (record s { should_receive = true; listen_endpoint = some (ipv6, s.opts.listen_port) })
        ipv6

  unfoldable pub start_receive : Udp → Udp
  unfolding listen_on
  start_receive s = listen_on s s.opts.listen_protocol

  -- The last part of `setOptions`: an address that is not valid leaves the endpoint as it was.
  unfoldable pub set_write_endpoint : Udp → Udp
  set_write_endpoint s = elim (net.make_address s.opts.write_address) [
    | none ↦ s
    | some address ↦ record s { write_endpoint = some (address, s.opts.write_port) }
  ]

  -- The first part of `setOptions`, after the assignment of `opts_`.
  unfoldable pub restart : Udp → Udp
  restart s = if is_receiving s then start_receive (disconnect s) else s

  unfoldable pub set_options : Udp → Options → Udp
  set_options s opts = set_write_endpoint (restart (record s { opts = opts }))

  unfoldable pub set_receiving : Udp → Bool → Udp
  set_receiving s wanted = if wanted then start_receive s else disconnect s

  -- Asio takes a receive off when it completes.
  unfoldable pub handle_read : Udp → Arrival → Udp
  unfolding start_read disconnect
  handle_read s (arrived bytes) =
      let s' = record s { receiver = on_receive s.receiver bytes; reading = s.reading - 1 } in
      if s'.should_receive then start_read s' else s'
  handle_read s aborted = disconnect (record s { reading = s.reading - 1 })
  handle_read s broken = disconnect (record s { reading = s.reading - 1 })

  unfoldable pub do_write : Udp → Attempt Udp
  do_write s =
      if not s.should_run
      then done s
      else (do pump ← start_write s.pump; done (record s { pump = pump }))

  unfoldable pub send : Udp → Bytes → Attempt Udp
  unfolding do_write
  send s bytes = do pump ← enqueue s.pump bytes; do_write (record s { pump = pump })

  unfoldable pub handle_sent : Udp → Completion → Attempt Udp
  handle_sent s c = do pump ← on_sent s.pump c; done (record s { pump = pump })

  unfoldable pub destroy : Udp → Udp
  unfolding disconnect
  destroy s = disconnect (record s { should_run = false })

  unfoldable pub generate_readable_name : Udp → Text
  generate_readable_name s = format "[UDP] {}" (text s.opts.write_address ∷ [])
