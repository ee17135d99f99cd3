-- ===== src/Asio/SerialPort.antt =====
-- What serial.cpp relies on in asio's serial ports, which the repository does not contain.
use device_tester.Prelude.{refl, ℕ, ◌≡◌, Bool, true, false, Option, some, none, String}

-- The enumerations `type` of asio's parity, stop_bits and flow_control.
pub data ParityType : Type 0 where
  no_parity odd_parity even_parity : ParityType

pub data StopBitsType : Type 0 where
  one_bit one_and_a_half_bits two_bits : StopBitsType

pub data FlowControlType : Type 0 where
  no_control software_control hardware_control : FlowControlType

-- What `set_option` takes.
pub data PortOption : Type 0 where
  baud_rate_option : ℕ → PortOption
  character_size_option : ℕ → PortOption
  parity_option : ParityType → PortOption
  stop_bits_option : StopBitsType → PortOption
  flow_control_option : FlowControlType → PortOption

-- `none` is an exception.
pub record SerialApi : Type 1 where
  pub Port : Type 0
  pub fresh : Port
  pub is_open : Port → Bool
  pub open_port : Port → String → Option Port
  pub set_option : Port → PortOption → Option Port
  pub cancel : Port → Port
  pub close : Port → Port
  pub is_open-fresh : is_open fresh ≡ false
  pub is_open-open_port :
      (p q : Port) (name : String) → open_port p name ≡ some q → is_open q ≡ true
  pub is_open-set_option :
      (p q : Port) (o : PortOption) → set_option p o ≡ some q → is_open q ≡ is_open p
  pub is_open-close : (p : Port) → is_open (close p) ≡ false

-- A port that is no more than open or closed: the laws can be met.
abbrev pub opened : Bool → Option Bool
opened true = none
opened false = some true

pub opened_open : (s t : Bool) → opened s ≡ some t → t ≡ true
opened_open true t e = cc
opened_open false t e = cc

pub set_same : (s t : Bool) → some s ≡ some t → t ≡ s
set_same s t e = cc

instance abbrev pub simulated : SerialApi
simulated = record {
  Port = Bool;
  fresh = false;
  is_open = λ s. s;
  open_port = λ s name. opened s;
  set_option = λ s o. some s;
  cancel = λ s. s;
  close = λ s. false;
  is_open-fresh = refl;
  is_open-open_port = λ p q name. opened_open p q;
  is_open-set_option = λ p q o. set_same p q;
  is_open-close = λ s. refl;
}
