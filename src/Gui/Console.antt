-- ===== src/Gui/Console.antt =====
-- A connection with its console: `drawTabDetails` of libs/gui-libcon/src/tcp_client_win.cpp,
-- udp_con_win.cpp and serial_win.cpp, over the class Connection of libs/libcon/include/libcon/connection.hpp.
pub mod Invariant
pub mod Drawing
pub mod Shown
mod TcpDevice
mod UdpDevice
mod SerialDevice
mod Tests
use device_tester.Prelude.{
  ℕ, ◌==◌, zero, suc, ◌≡◌, if◌then◌else◌, Option, some, none, List, [], ◌∷◌, ◌++◌, length, drop,
  Bytes, Attempt, done, blocked, out_of_range,
}
use device_tester.Gui.RawData.{RawDataWin, Frame, add_data, connect_send, update_content}
use device_tester.Gui.RawData

-- What was received only grows.
abbrev pub Grows : List Bytes → List Bytes → Type 0
Grows old now = (new : List Bytes) × (now ≡ old ++ new)

-- A `Connection`. `step` is what else the program and asio do to it, `none` if it ends the program;
-- `received` has the calls of its signal, oldest first.
pub record Device : Type 1 where
  pub State : Type 0
  pub Call : Type 0
  pub received : State → List Bytes
  pub send : State → Bytes → Attempt State
  pub step : State → Call → Option State
  pub received-send :
      (s t : State) (bytes : Bytes) → send s bytes ≡ done t → received t ≡ received s
  pub received-step : (s t : State) (c : Call) → step s c ≡ some t → Grows (received s) (received t)

-- A call that waits or that reads out of range does not come back.
abbrev pub returned : {A : Type 0} → Attempt A → Option A
returned (done a) = some a
returned blocked = none
returned out_of_range = none

infixl 5 ◌>>=◌
abbrev pub ◌>>=◌ : {A B : Type 0} → Option A → (A → Option B) → Option B
none >>= k = none
some a >>= k = k a

unfoldable pub connect : RawDataWin
connect = connect_send RawData.create 0

-- A call of the signal: the slots whose console is gone are passed over.
unfoldable pub hear : ℕ → List ℕ → RawDataWin → Bytes → RawDataWin
hear number [] w bytes = w
hear number (slot ∷ slots) w bytes =
    hear number slots (if slot == number then add_data w bytes else w) bytes

unfoldable pub hear_all : ℕ → List ℕ → RawDataWin → List Bytes → RawDataWin
hear_all number slots w [] = w
hear_all number slots w (bytes ∷ more) = hear_all number slots (hear number slots w bytes) more

module _ (device : Device) where
  -- `number` counts the consoles that were made, and the newest has that number; `slots` has those
  -- connected to the signal, each by the console that it is tracked with.
  pub record Console : Type 0 where
    pub connection : device.State
    pub raw_win : Option RawDataWin
    pub number : ℕ
    pub slots : List ℕ

  unfoldable pub create : device.State → Console
  create c = record { connection = c; raw_win = none; number = 0; slots = [] }

  -- The check box was clicked.
  unfoldable pub draw_tab_details : Console → Console
  draw_tab_details s = elim s.raw_win [
    | none ↦ record s {
      raw_win = some connect;
      number = suc s.number;
      slots = s.slots ++ suc s.number ∷ [];
    }
    | some w ↦ record s { raw_win = none }
  ]

  abbrev pub news : device.State → device.State → List Bytes
  news before now = drop (length (device.received before)) (device.received now)

  -- Something else happens to the connection.
  unfoldable pub happen : Console → device.Call → Option Console
  happen s c = do
    t ← device.step s.connection c
    some (record s {
      connection = t;
      raw_win = elim s.raw_win [
        | none ↦ none
        | some w ↦ some (hear_all s.number s.slots w (news s.connection t))
      ];
    })

  -- The texts that the console hands to `send_sig_`, for each slot of it.
  unfoldable pub send_all : List Bytes → device.State → Option device.State
  send_all [] c = some c
  send_all (text ∷ texts) c = do t ← returned (device.send c text); send_all texts t

  unfoldable pub signal : List ℕ → List Bytes → device.State → Option device.State
  signal [] texts c = some c
  signal (slot ∷ slots) texts c = do t ← send_all texts c; signal slots texts t

  -- The console, if there is one, draws a frame.
  unfoldable pub draw : Console → Frame → Option Console
  draw s f = elim s.raw_win [
    | none ↦ some s
    | some w ↦
        let w' : RawDataWin = update_content w f in
        (do
          t ← signal w.slots (drop (length w.sent) w'.sent) s.connection
          some (record s { connection = t; raw_win = some w' }))
  ]

  pub data Event : Type 0 where
    toggles : Event
    happens : device.Call → Event
    draws : Frame → Event

  unfoldable pub step : Console → Event → Option Console
  step s toggles = some (draw_tab_details s)
  step s (happens c) = happen s c
  step s (draws f) = draw s f

  unfoldable pub run : Console → List Event → Option Console
  run s [] = some s
  run s (e ∷ es) = do t ← step s e; run t es
