-- ===== src/CoapClient/Tests.antt =====
-- Requests of a CoAP client.
use device_tester.Prelude.{
  inl, ℕ, ◌≡◌, ◌++◌, refl, true, false, some, none, List, [], ◌∷◌, if◌then◌else◌, arith,
}
use device_tester.CoapClient.Library.{ok, fail, acknowledgement, non_confirmable}
use device_tester.CoapClient.Echo.{echo}
use device_tester.CoapClient.Tokens.{track_check_token}
use device_tester.CoapClient.{
  Client, Message, m_put, create, send_request, message_callback, data_or_empty, is_con_or_non,
  is_reset,
}
use device_tester.CoapClient.Calls.{Call, sets, makes, receives, releases, run}
use device_tester.CoapClient.Tracking.{entry}
use device_tester.CoapClient.Answers.{IsLast, AllPassed, request_answered, callbacks}
use device_tester.CoapClient.Asked.{asked, Every, run-create-Asked}
use device_tester.CoapClient.Asked
use device_tester.CoapClient.Stored.{run-create-Stored}
use device_tester.CoapClient.Stored

-- A client of one server, and one of all of them.
abbrev client : Client
client = record {
  base = record { readable_name = "lamp" };
  opts = record { server_uri = "lamp"; server_port = 7000 };
  session = some 3;
  large_data = record { id_counter = 0; buffer = [] };
  tracked_tokens = entry 50 (2 ∷ []) 0 ∷ [];
  obs_started = 0;
  doing_observe = 0;
  is_mcast = false;
  slots = [];
  received = [];
  requests = [];
}

abbrev to_all : Client
to_all = record client { is_mcast = true }

abbrev reply : Message
reply = record {
  code_class = 2;
  type = acknowledgement;
  token = 3 ∷ [];
  data_large = some (9 ∷ []);
  block2 = none;
}

reply-IsLast : IsLast reply (3 ∷ [])
unfolding is_reset
reply-IsLast = record { success = refl; same = refl; type = refl; last = λ e. cc }

fresh : track_check_token (3 ∷ []) client.tracked_tokens ≡ (false, 0)
unfolding track_check_token
fresh = refl

passed : Message
passed = record reply { type = non_confirmable; token = 7 ∷ [] }

passed-AllPassed : AllPassed (client.tracked_tokens ++ entry 51 (3 ∷ []) 0 ∷ []) (passed ∷ [])
unfolding passed track_check_token
passed-AllPassed = (inl refl, tt)

request_answered_example :
    (s' s'' : Client) × (send_request client true "on" m_put 51 (1 ∷ []) ≡ some s')
    × (callbacks s' (passed ∷ []) ≡ s')
    × (message_callback (callbacks s' (passed ∷ [])) true reply ≡ (ok, s''))
    × (s''.received ≡ client.received ++ (51, data_or_empty reply.data_large) ∷ [])
    × (s''.tracked_tokens ≡ client.tracked_tokens)
    × (message_callback s'' false reply ≡ (if is_con_or_non reply.type then fail else ok, s''))
request_answered_example =
    request_answered client 3 "on" m_put 51 (1 ∷ []) (passed ∷ []) true reply refl fresh refl refl
      passed-AllPassed reply-IsLast

abbrev calls : List Call
calls =
    sets (record { server_uri = "lamp"; server_port = 7000 })
    ∷ makes true m_put "on" 51 (1 ∷ [])
    ∷ receives true (record reply { token = 0 ∷ [] })
    ∷ releases 0
    ∷ makes true m_put "on" 51 (2 ∷ [])
    ∷ []

abbrev Is51 : ℕ → Type 0
Is51 n = n ≡ 51

run-create-Asked_example : Asked.Keeps Is51 (run (create false) calls)
run-create-Asked_example = run-create-Asked Is51 false calls (refl, (refl, tt))

run-create-Stored_example : Stored.Keeps 5 (Stored.released calls []) (run (create false) calls)
run-create-Stored_example = run-create-Stored false calls (omega arith)
