-- ===== src/CoapClient/Calls.antt =====
-- A CoAP client over time: what the program calls and what libcoap calls, in any order.
use device_tester.Prelude.{ℕ, Bool, Option, some, none, List, [], ◌∷◌, String, Bytes}
use device_tester.CoapClient.Library.{CoapApi}
use device_tester.CoapClient.{
  Options, Method, Message, Client, set_options, get_well_known, make_request, message_callback,
  release, connect_on_receive,
}

-- A Boolean says whether there was memory for a token, or whether a message answers a request that
-- libcoap holds.
pub data Call : Type 0 where
  sets : Options → Call
  discovers : Bool → String → Call
  makes : Bool → Method → String → ℕ → Bytes → Call
  receives : Bool → Message → Call
  releases : ℕ → Call
  subscribes : ℕ → Call

module _ ⦃api : CoapApi⦄ where
  unfoldable pub step : Client → Call → Option Client
  unfolding get_well_known make_request
  step s (sets opts) = some (set_options s opts)
  step s (discovers allocated path) = get_well_known s allocated path
  step s (makes allocated method path id bytes) = make_request s allocated method path id bytes
  step s (receives sent message) = some (message_callback s sent message).1
  step s (releases id) = some (release s id)
  step s (subscribes slot) = some (connect_on_receive s slot)

  unfoldable pub run : Client → List Call → Option Client
  run s [] = some s
  run s (c ∷ cs) = elim (step s c) [ none ↦ none | some s' ↦ run s' cs ]
