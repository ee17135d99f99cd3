-- ===== src/Gui/RawData.antt =====
-- libs/gui-libcon/src/raw_data_win.hpp and raw_data_win.cpp: the console of a connection.
use device_tester.Prelude.{
  ℕ, ltb, ◌≡◌, refl, ◌∙◌, sym, Bool, true, false, ◌||◌, ◌&&◌, if◌then◌else◌, List, [], ◌∷◌, ◌++◌,
  length, Bytes, append_assoc, append-nil, arith,
}

-- `sent` has the calls of `send_sig_`, oldest first.
pub record RawDataWin : Type 0 where
  pub data_bytes : Bytes
  pub input_buf : Bytes
  pub auto_scroll : Bool
  pub use_mem_editor : Bool
  pub slots : List ℕ
  pub sent : List Bytes

unfoldable pub create : RawDataWin
create = record {
  data_bytes = [];
  input_buf = [];
  auto_scroll = true;
  use_mem_editor = true;
  slots = [];
  sent = [];
}

unfoldable pub add_data : RawDataWin → Bytes → RawDataWin
add_data s bytes = record s { data_bytes = s.data_bytes ++ bytes }

unfoldable pub connect_send : RawDataWin → ℕ → RawDataWin
connect_send s slot = record s { slots = s.slots ++ slot ∷ [] }

-- What the user does in a frame: whether the popup is open, what is set in it, the text in the input,
-- and whether it is to be sent.
pub record Frame : Type 0 where
  pub popup : Bool
  pub clear : Bool
  pub auto_scroll : Bool
  pub use_mem_editor : Bool
  pub text : Bytes
  pub send : Bool

unfoldable pub options_popup : RawDataWin → Frame → RawDataWin
options_popup s f =
    let s' = record s { auto_scroll = f.auto_scroll; use_mem_editor = f.use_mem_editor } in
    if f.popup then (if f.clear then record s' { data_bytes = [] } else s') else s

unfoldable pub input_line : RawDataWin → Frame → RawDataWin
input_line s f =
    let s' = record s { input_buf = f.text } in
    if f.send && ltb 0 (length s'.input_buf)
    then record s' { sent = s'.sent ++ s'.input_buf ∷ []; input_buf = [] }
    else s'

unfoldable pub update_content : RawDataWin → Frame → RawDataWin
unfolding options_popup input_line
update_content s f = input_line (options_popup s f) f

pub data Event : Type 0 where
  arrives : Bytes → Event
  frame : Frame → Event

unfoldable pub run : RawDataWin → List Event → RawDataWin
unfolding add_data update_content
run s [] = s
run s (arrives bytes ∷ es) = run (add_data s bytes) es
run s (frame f ∷ es) = run (update_content s f) es

-- Whether the data are cleared by this.
abbrev pub clears : Event → Bool
clears (arrives bytes) = false
clears (frame f) = f.popup && f.clear

abbrev pub any_clears : List Event → Bool
any_clears [] = false
any_clears (e ∷ es) = clears e || any_clears es

-- The events after the last one that clears.
abbrev pub since_clear : List Event → List Event
since_clear [] = []
since_clear (e ∷ es) = if any_clears es then since_clear es else if clears e then es else e ∷ es

abbrev pub arrived_bytes : List Event → Bytes
arrived_bytes [] = []
arrived_bytes (arrives bytes ∷ es) = bytes ++ arrived_bytes es
arrived_bytes (frame f ∷ es) = arrived_bytes es

-- The texts that were to be sent and were not empty.
abbrev pub typed : List Event → List Bytes
typed [] = []
typed (arrives bytes ∷ es) = typed es
typed (frame f ∷ es) = if f.send && ltb 0 (length f.text) then f.text ∷ typed es else typed es

pub frame-data :
    (s : RawDataWin) (f : Frame)
    → (update_content s f).data_bytes ≡ (if clears (frame f) then [] else s.data_bytes)
unfolding update_content options_popup input_line
frame-data s f = ground arith

pub frame-sent :
    (s : RawDataWin) (f : Frame)
    → (update_content s f).sent
      ≡ (if f.send && ltb 0 (length f.text) then s.sent ++ f.text ∷ [] else s.sent)
unfolding update_content options_popup input_line
frame-sent s f = ground arith

-- Without a clear, all of them count.
uncleared :
    (es : List Event)
    → (if any_clears es then arrived_bytes (since_clear es) else arrived_bytes es)
      ≡ arrived_bytes (since_clear es)
uncleared [] = refl
uncleared (arrives bytes ∷ es) = ground (arith, uncleared es)
uncleared (frame f ∷ es) = ground (arith, uncleared es)

run-data :
    (es : List Event) (s : RawDataWin)
    → (run s es).data_bytes
      ≡ (if any_clears es then arrived_bytes (since_clear es) else s.data_bytes ++ arrived_bytes es)
unfolding run add_data
run-data [] s = sym (append-nil s.data_bytes)
run-data (arrives bytes ∷ es) s =
    ground
      (arith, run-data es (add_data s bytes), append_assoc s.data_bytes bytes (arrived_bytes es))
run-data (frame f ∷ es) s = ground (arith, run-data es (update_content s f), frame-data s f)

run-sent : (es : List Event) (s : RawDataWin) → (run s es).sent ≡ s.sent ++ typed es
unfolding run add_data
run-sent [] s = sym (append-nil s.sent)
run-sent (arrives bytes ∷ es) s = run-sent es (record s { data_bytes = s.data_bytes ++ bytes })
run-sent (frame f ∷ es) s = ground (
  arith,
  run-sent es (update_content s f),
  frame-sent s f,
  append_assoc s.sent (f.text ∷ []) (typed es),
)

-- After any arrivals and frames a new console shows exactly the bytes that arrived since the last frame
-- that cleared it, in order, and has sent exactly the texts that were to be sent and were not empty.
run-create :
    (es : List Event)
    → ((run create es).data_bytes ≡ arrived_bytes (since_clear es))
      × ((run create es).sent ≡ typed es)
unfolding create
run-create es = (run-data es create ∙ uncleared es, run-sent es create)
