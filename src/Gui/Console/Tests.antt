-- ===== src/Gui/Console/Tests.antt =====
-- The console of a TCP client that was closed and opened again.
use device_tester.Prelude.{◌≡◌, refl, true, false, Option, some, none, List, [], ◌∷◌, ◌++◌, concat}
use device_tester.RingBuffer.Listed.{listed}
use device_tester.Asio.Loopback.{loopback}
use device_tester.Asio.{arrived}
use device_tester.TcpClient
use device_tester.TcpClient.{Client, send, do_write, handle_read}
use device_tester.TcpClient.Calls.{Call, reads}
use device_tester.TcpClient.Calls
use device_tester.RingBuffer.{push_front, pop_back}
use device_tester.Writer.{enqueue, start_write, idle}
use device_tester.Connection.{on_receive, no_slots}
use device_tester.Gui.RawData
use device_tester.Gui.RawData.{
  RawDataWin, Frame, connect_send, add_data, update_content, options_popup, input_line,
}
use device_tester.Gui.Console.{
  Console, Event, toggles, happens, draws, create, connect, run, step, draw, happen,
  draw_tab_details, hear, hear_all, signal, send_all, news,
}
use device_tester.Gui.Console.Drawing.{drive, done_to}
use device_tester.Gui.Console.Shown.{run-Shows}
use device_tester.Gui.Console.TcpDevice.{tcp}

abbrev or_else {ℓ} : {A : Type ℓ} → Option A → A → A
or_else none a = a
or_else (some b) a = b

abbrev reopened : List (Event tcp)
reopened = toggles ∷ toggles ∷ toggles ∷ []

abbrev typing : Frame
typing = record {
  popup = false;
  clear = false;
  auto_scroll = true;
  use_mem_editor = true;
  text = 7 ∷ 8 ∷ [];
  send = true;
}

abbrev talk : List (Event tcp)
talk =
    happens (reads (arrived (1 ∷ 2 ∷ []))) ∷ draws typing ∷ happens (reads (arrived (3 ∷ []))) ∷ []

abbrev start : Console tcp
start = create tcp TcpClient.create

abbrev console : Console tcp
console = or_else (run tcp start reopened) start

abbrev later : Console tcp
later = or_else (run tcp console talk) console

abbrev shown : RawDataWin
shown = or_else console.raw_win connect

reopened_runs : run tcp start reopened ≡ some console
unfolding run step draw_tab_details create
reopened_runs = refl

console_is_there : console.raw_win ≡ some shown
unfolding run step draw_tab_details create
console_is_there = refl

talk_runs : run tcp console talk ≡ some later
unfolding run step draw_tab_details create happen draw hear hear_all connect connect_send
    RawData.create add_data update_content options_popup input_line signal send_all Calls.step
    handle_read on_receive send do_write enqueue start_write push_front pop_back idle
    TcpClient.create no_slots
talk_runs = refl

run-Shows_example :
    (drive tcp console.connection (done_to tcp talk) ≡ some later.connection)
    × (v : RawDataWin) × (later.raw_win ≡ some v)
    × (v.data_bytes ≡ shown.data_bytes ++ concat (news tcp console.connection later.connection))
run-Shows_example =
    run-Shows tcp TcpClient.create reopened talk console later shown reopened_runs console_is_there
      (refl, tt) talk_runs
