-- ===== src/UdpConnection/Tests.antt =====
-- A UDP connection that listens, and is then given new options.
use device_tester.Prelude.{◌<◌, ◌≡◌, refl, true, false, List, [], ◌∷◌}
use device_tester.RingBuffer.Listed.{listed}
use device_tester.Asio.Loopback.{loopback}
use device_tester.Asio.{arrived}
use device_tester.Connection.{ipv4}
use device_tester.UdpConnection.{
  start_receive, handle_read, Options, create, is_receiving, set_receiving, set_options,
}
use device_tester.UdpConnection.Calls.{Call, receives, reads, step, run}
use device_tester.UdpConnection.Listening.{run-create-IsArmed, silent_for_good}

abbrev on_4000 : Options
on_4000 = record {
  write_address = "127.0.0.1";
  write_port = 4001;
  listen_protocol = ipv4;
  listen_port = 4000;
}

abbrev listening : List Call
listening = receives true ∷ reads (arrived (7 ∷ [])) ∷ []

listening_receives : is_receiving (run (create on_4000) listening) ≡ true
unfolding is_receiving run step create set_receiving handle_read start_receive
listening_receives = refl

run-create-IsArmed_example :
    let s = run (create on_4000) listening in (loopback.is_open s.socket ≡ true) × (0 < s.reading)
run-create-IsArmed_example = run-create-IsArmed on_4000 listening listening_receives

socket_open : loopback.is_open (run (create on_4000) listening).socket ≡ true
unfolding run step create set_receiving handle_read start_receive
socket_open = refl

silent_for_good_example :
    let s = run (create on_4000) listening in
    (is_receiving (run (set_options s on_4000) (receives true ∷ [])) ≡ false)
    × (is_receiving (run (set_receiving s false) (receives true ∷ [])) ≡ false)
silent_for_good_example =
    silent_for_good (run (create on_4000) listening) on_4000 (receives true ∷ []) socket_open
