-- ===== src/Serial/Line.antt =====
-- The line of a serial port: the options of libs/libcon/include/libcon/serial.hpp, and what
-- libs/libcon/src/serial.cpp sets for them.
use device_tester.Prelude.{ℕ, List, [], ◌∷◌, String}
use device_tester.Asio.SerialPort.{
  PortOption, ParityType, no_parity, even_parity, StopBitsType, one_bit, one_and_a_half_bits,
  two_bits, FlowControlType, no_control, software_control, hardware_control, baud_rate_option,
  character_size_option, parity_option, stop_bits_option, flow_control_option,
}

pub data Parity : Type 0 where
  none odd even : Parity

pub data FlowControl : Type 0 where
  none software hardware : FlowControl

pub data StopBits : Type 0 where
  one onepointfive two : StopBits

pub record Options : Type 0 where
  pub port : String
  pub baud_rate : ℕ
  pub character_size : ℕ
  pub parity : Parity
  pub flow_control : FlowControl
  pub stop_bits : StopBits

unfoldable pub parity_type : Parity → ParityType
parity_type Parity.none = no_parity
parity_type odd = even_parity
parity_type even = even_parity

unfoldable pub stop_bits_type : StopBits → StopBitsType
stop_bits_type one = one_bit
stop_bits_type onepointfive = one_and_a_half_bits
stop_bits_type two = two_bits

unfoldable pub flow_control_type : FlowControl → FlowControlType
flow_control_type FlowControl.none = no_control
flow_control_type software = software_control
flow_control_type hardware = hardware_control

-- The options of the line, in the order in which they are set.
unfoldable pub line_options : Options → List PortOption
line_options opts =
    baud_rate_option opts.baud_rate
    ∷ character_size_option opts.character_size
    ∷ parity_option (parity_type opts.parity)
    ∷ stop_bits_option (stop_bits_type opts.stop_bits)
    ∷ flow_control_option (flow_control_type opts.flow_control)
    ∷ []
