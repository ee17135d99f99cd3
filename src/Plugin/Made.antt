-- ===== src/Plugin/Made.antt =====
-- What a plugin makes of one table.
use device_tester.Prelude.{ℕ, ◌≡◌, refl, ap, ◌∙◌, Bool, List, [], ◌∷◌, ◌++◌, String, Bytes}
use device_tester.RingBuffer.Container.{CircularBuffer}
use device_tester.Asio.{SocketApi}
use device_tester.Asio.SerialPort.{SerialApi}
use device_tester.CoapClient.Library.{CoapApi}
use device_tester.Connection.{set_readable_name, no_slots}
use device_tester.Connection
use device_tester.CoapClient
use device_tester.Serial
use device_tester.Serial.Line
use device_tester.Serial.Line.{Parity, FlowControl, one}
use device_tester.Plugin.{
  set_readable_name, coap_connection, serial_connection, serial_options, ConnDescriptor,
  coap_client, serial,
}
use device_tester.Plugin.Described.{Seen, coap_seen, serial_seen, no_plugin}

module _ ⦃box : CircularBuffer Bytes⦄ ⦃net : SocketApi⦄ ⦃api : SerialApi⦄ ⦃coap : CoapApi⦄ where
  abbrev pub seen : ConnDescriptor → Seen
  seen (coap_client c) = coap_seen c.base.readable_name c.opts.server_uri c.opts.server_port c.slots
  seen (serial c) = serial_seen c.base.readable_name c.opts c.receiver.slots
  seen _ = no_plugin

  connect_to-lem :
      (c : CoapClient.Client) (endpoints : List coap.Endpoint)
      → seen (coap_client (CoapClient.connect_to c endpoints)) ≡ seen (coap_client c)
  unfolding CoapClient.connect_to
  connect_to-lem c [] = refl
  connect_to-lem c (endpoint ∷ endpoints) = refl

  slotted : Seen → ℕ → Seen
  slotted (coap_seen name ip port slots) place = coap_seen name ip port (slots ++ place ∷ [])
  slotted (serial_seen name line slots) place = serial_seen name line (slots ++ place ∷ [])
  slotted no_plugin place = no_plugin

  connect_on_receive-lem :
      (c d : CoapClient.Client) (place : ℕ)
      → seen (coap_client c) ≡ seen (coap_client d)
      → seen (coap_client (CoapClient.connect_on_receive c place))
        ≡ slotted (seen (coap_client d)) place
  unfolding CoapClient.connect_on_receive slotted
  connect_on_receive-lem c d place e = ap (λ x. slotted x place) e

  slots_of : Seen → List ℕ
  slots_of (coap_seen name ip port slots) = slots
  slots_of (serial_seen name line slots) = slots
  slots_of no_plugin = []

  slots-create : (mcast : Bool) → CoapClient.Client.slots (CoapClient.create mcast) ≡ []
  unfolding CoapClient.create CoapClient.create_session slots_of
  slots-create mcast = ap slots_of (
      connect_to-lem (CoapClient.empty mcast)
        (coap.resolve "fe80::7ae3:6dff:fe09:8188" (CoapClient.empty mcast).opts.server_port))

  pub coap_connection-lem :
      (mcast : Bool) (place : ℕ) (name ip : String) (port : ℕ)
      → seen (coap_client (coap_connection mcast place name ip port))
        ≡ coap_seen name ip port (place ∷ [])
  unfolding coap_connection CoapClient.set_options CoapClient.create_session slotted
      set_readable_name
  coap_connection-lem mcast place name ip port =
      let client = CoapClient.create mcast in
      let d = record client {
        base = record { readable_name = name };
        opts = record { server_uri = ip; server_port = port };
      } in
      connect_on_receive-lem (CoapClient.create_session d) d place
        (connect_to-lem d (coap.resolve ip port))
      ∙ ap (λ slots. coap_seen name ip port (slots ++ place ∷ [])) (slots-create mcast)

  pub serial_connection-lem :
      (line : Line.Options) (place : ℕ) (name port : String) (baud_rate : ℕ)
      → seen (serial (serial_connection line place name port baud_rate))
        ≡ serial_seen name (serial_options port baud_rate) (place ∷ [])
  unfolding serial_connection Serial.create Serial.set_options set_readable_name no_slots
      Connection.connect_on_receive
  serial_connection-lem line place name port baud_rate = refl
