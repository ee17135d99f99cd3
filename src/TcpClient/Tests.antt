-- ===== src/TcpClient/Tests.antt =====
-- A TCP client that connects, reads, and connects again.
use device_tester.Prelude.{◌-◌, ◌≡◌, refl, true, false, List, [], ◌∷◌, ◌++◌, Bytes, done, ◌>>=◌}
use device_tester.RingBuffer.Listed.{listed}
use device_tester.Asio.Loopback.{loopback}
use device_tester.Asio.{arrived}
use device_tester.Connection.{format, text, number}
use device_tester.Writer.{enqueue}
use device_tester.TcpClient.{
  Options, Client, resolved, accepted, create, is_connected, disconnect, send, handle_read,
  set_options, generate_readable_name,
}
use device_tester.TcpClient.Calls.{Call, connects, resolves, greets, run}
use device_tester.TcpClient.Reading.{opening, arrivals, run-opening}
use device_tester.TcpClient.Reconnect.{run-disconnect, send-set_options}

abbrev local : Options
local = record { server = "localhost"; service = "7" }

abbrev hello : Bytes
hello = 1 ∷ 2 ∷ 3 ∷ []

abbrev chunks : List Bytes
chunks = hello ∷ (4 ∷ []) ∷ []

run-opening_example :
    let s = run create (opening local [] "127.0.0.1" 7 (arrivals chunks)) in
    (is_connected s ≡ true)
    × (generate_readable_name s ≡ format "[tcp-client] {}:{}" (text "127.0.0.1" ∷ number 7 ∷ []))
    × (s.receiver.received ≡ chunks)
    × (s.reading ≡ 1)
run-opening_example = run-opening local [] "127.0.0.1" 7 chunks

abbrev again : List Call
again = connects ∷ resolves (resolved []) ∷ greets (accepted "127.0.0.1" 7) ∷ []

run-disconnect_example :
    let s = run (disconnect create) again in
    let s' = handle_read s (arrived hello) in
    (send s hello ≡ (enqueue s.pump hello >>= λ pump. done (record s { pump = pump })))
    × (s'.reading ≡ s.reading - 1)
    × (s'.receiver.received ≡ s.receiver.received ++ hello ∷ [])
run-disconnect_example = run-disconnect create again hello

abbrev online : Client
online = record create { socket = true }

send-set_options_example :
    let s = set_options online local in
    let s' = run s again in
    (is_connected s ≡ false)
    × (s.resolving ≡ online.resolving ++ local ∷ [])
    × (send s' hello ≡ (enqueue s'.pump hello >>= λ pump. done (record s' { pump = pump })))
unfolding is_connected
send-set_options_example = send-set_options online local again hello refl
