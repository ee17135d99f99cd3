-- ===== src/Plugin/Described.antt =====
-- What the tables of a script describe.
use device_tester.Prelude.{
  ℕ, ◌+◌, Bool, true, false, if◌then◌else◌, ◌&&◌, Option, some, none, List, [], ◌∷◌, ◌++◌, String,
  length,
}
use text.Mathlib.Text.{◌==◌ as str_eq}
use device_tester.Serial.Line
use device_tester.Serial.Line.{Parity, FlowControl, one}
use device_tester.Plugin.{Entry, Wrapper}

-- What the user sees of a connection that a plugin made, and the wrappers that hear it.
pub data Seen : Type 0 where
  coap_seen : String → String → ℕ → List ℕ → Seen
  serial_seen : String → Line.Options → List ℕ → Seen
  no_plugin : Seen

abbrev pub text_of : Option String → String
text_of none = ""
text_of (some s) = s

abbrev pub number_of : Option ℕ → ℕ
number_of none = 0
number_of (some n) = n

abbrev pub has {ℓ} : {A : Type ℓ} → Option A → Bool
has none = false
has (some a) = true

-- What the table says: the fields that a type needs, and the connection and wrapper that it describes.
unfoldable pub complete_typed : Entry → String → Bool
complete_typed e type =
    if str_eq type "coap-client"
    then has e.ip && has e.port_number
    else if str_eq type "serial"
    then has e.port_name && has e.baud_rate
    else true

unfoldable pub complete : Entry → Bool
unfolding complete_typed
complete e = has e.type && has e.name && complete_typed e (text_of e.type)

abbrev pub all_complete : List Entry → Bool
all_complete [] = true
all_complete (e ∷ es) = complete e && all_complete es

unfoldable pub described : Entry → String → String → ℕ → List Seen
described e type name place =
    if str_eq type "coap-client"
    then coap_seen name (text_of e.ip) (number_of e.port_number) (place ∷ []) ∷ []
    else if str_eq type "serial"
    then serial_seen name
        (record {
          port = text_of e.port_name;
          baud_rate = number_of e.baud_rate;
          character_size = 8;
          parity = Parity.none;
          flow_control = FlowControl.none;
          stop_bits = one;
        })
        (place ∷ [])
      ∷ []
    else []

unfoldable pub wrapped : Entry → String → List Wrapper
wrapped e type =
    if str_eq type "coap-client"
    then record { var_name = e.var_name; callback = e.on_receive } ∷ []
    else if str_eq type "serial"
    then record { var_name = e.var_name; callback = e.on_receive } ∷ []
    else []

abbrev pub all_described : ℕ → List Entry → List Seen
all_described place [] = []
all_described place (e ∷ es) =
    described e (text_of e.type) (text_of e.name) place
    ++ all_described (place + length (wrapped e (text_of e.type))) es

abbrev pub all_wrapped : List Entry → List Wrapper
all_wrapped [] = []
all_wrapped (e ∷ es) = wrapped e (text_of e.type) ++ all_wrapped es
