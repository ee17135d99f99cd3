-- ===== src/Connection.antt =====
-- libs/libcon/include/libcon/connection.hpp and types.hpp, libs/libcon/src/connection.cpp,
-- receiver.hpp and receiver.cpp: what every connection has.
use device_tester.Prelude.{ℕ, String, List, [], ◌∷◌, ◌++◌, Bytes}

pub data IpProtocol : Type 0 where
  none ipv4 ipv6 : IpProtocol

-- A text that the program makes: its own words, or a call of fmt::format, which is not computed.
pub data Arg : Type 0 where
  text : String → Arg
  number : ℕ → Arg

pub data Text : Type 0 where
  literal : String → Text
  format : String → List Arg → Text

-- `BaseConnection`, which keeps the name that the user gave.
pub record BaseConnection : Type 0 where
  pub readable_name : String

unfoldable pub unnamed : BaseConnection
unnamed = record { readable_name = "" }

unfoldable pub set_readable_name : BaseConnection → String → BaseConnection
set_readable_name c name = record c { readable_name = name }

-- `Receiver`: the slots connected to `resv_sig_`, and the calls made of that signal, oldest first. The
-- signal hands each call to the slots.
pub record Receiver : Type 0 where
  pub slots : List ℕ
  pub received : List Bytes

unfoldable pub no_slots : Receiver
no_slots = record { slots = []; received = [] }

unfoldable pub on_receive : Receiver → Bytes → Receiver
on_receive r bytes = record r { received = r.received ++ bytes ∷ [] }

unfoldable pub connect_on_receive : Receiver → ℕ → Receiver
connect_on_receive r slot = record r { slots = r.slots ++ slot ∷ [] }
