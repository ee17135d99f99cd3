-- ===== src/CoapClient.antt =====
-- libs/libcon/src/coap_client.cpp and include/libcon/coap_client.hpp. The private `Impl` and the class
-- around it are one record; a call that the class only passes on is the call of `Impl`.
-- `requests` has the messages given to `coap_send`, oldest first. What libcoap calls back with is an
-- argument of the callback.
pub mod Library
pub mod Echo
pub mod Tokens
pub mod Store
pub mod Calls
pub mod Tracking
pub mod Answers
pub mod Asked
pub mod Payloads
pub mod Stored
pub mod Life
mod Tests
use device_tester.Prelude.{
  ℕ, ◌==◌, leb, Bool, true, false, not, ◌&&◌, ◌||◌, if◌then◌else◌, Option, some, none, List, [],
  ◌∷◌, ◌++◌, String, Bytes,
}
use device_tester.Connection.{Text, format, text, BaseConnection, unnamed}
use Library.{
  CoapApi, MessageType, confirmable, non_confirmable, acknowledgement, reset, Response, ok, fail,
}
use Tokens.{TrackToken, track_new_token, track_check_token, track_flush_token}
use Store.{LargeData, keep, free_large_data}

-- The port is an `unsigned short`.
pub record Options : Type 0 where
  pub server_uri : String
  pub server_port : ℕ

pub data Method : Type 0 where
  m_get m_post m_put m_delete : Method

pub data RequestCode : Type 0 where
  get_code post_code put_code delete_code : RequestCode

-- `kRequestIdWellKnown`, the largest `uint32_t`.
abbrev pub request_id_well_known : ℕ
request_id_well_known = 4294967295

abbrev pub default_port : ℕ
default_port = 5683

unfoldable pub request_code : Method → RequestCode
request_code m_get = get_code
request_code m_post = post_code
request_code m_put = put_code
request_code m_delete = delete_code

-- What `coap_send` is given. `payload` is the key of the data and the data.
pub record Request : Type 0 where
  pub code : RequestCode
  pub token : Bytes
  pub path : List Bytes
  pub payload : Option (ℕ × Bytes)

-- What the callback reads of a message: the class of its code, its data if there is any, and, if it
-- has a Block2 option, whether more blocks follow.
pub record Message : Type 0 where
  pub code_class : ℕ
  pub type : MessageType
  pub token : Bytes
  pub data_large : Option Bytes
  pub block2 : Option Bool

unfoldable pub is_con_or_non : MessageType → Bool
is_con_or_non confirmable = true
is_con_or_non non_confirmable = true
is_con_or_non acknowledgement = false
is_con_or_non reset = false

unfoldable pub is_reset : MessageType → Bool
is_reset reset = true
is_reset _ = false

unfoldable pub data_or_empty : Option Bytes → Bytes
data_or_empty none = []
data_or_empty (some bytes) = bytes

module _ ⦃api : CoapApi⦄ where
  pub record Client : Type 0 where
    pub base : BaseConnection
    pub opts : Options
    pub session : Option api.Session
    pub large_data : LargeData
    pub tracked_tokens : List TrackToken
    pub obs_started : ℕ
    pub doing_observe : ℕ
    pub is_mcast : Bool
    pub slots : List ℕ
    pub received : List (ℕ × Bytes)
    pub requests : List Request

  unfoldable pub connect_to : Client → List api.Endpoint → Client
  connect_to s [] = s
  connect_to s (endpoint ∷ endpoints) = record s {
    is_mcast = api.is_multicast endpoint;
    session = some (api.new_client_session endpoint);
  }

  unfoldable pub create_session : Client → Client
  unfolding connect_to
  create_session s = connect_to s (api.resolve s.opts.server_uri s.opts.server_port)

  -- `is_mcast_` is not initialised; `mcast` says what it is.
  abbrev pub empty : Bool → Client
  empty mcast = record {
    base = unnamed;
    opts = record { server_uri = "fe80::7ae3:6dff:fe09:8188"; server_port = default_port };
    session = none;
    large_data = record { id_counter = 0; buffer = [] };
    tracked_tokens = [];
    obs_started = 0;
    doing_observe = 0;
    is_mcast = mcast;
    slots = [];
    received = [];
    requests = [];
  }

  unfoldable pub create : Bool → Client
  unfolding create_session
  create mcast = create_session (empty mcast)

  unfoldable pub set_options : Client → Options → Client
  unfolding create_session
  set_options s opts = create_session (record s { opts = opts })

  -- The part of `sendRequest` that adds the data, if there is any.
  unfoldable pub add_payload : Client → Bytes → Client × Option (ℕ × Bytes)
  add_payload s [] = (s, none)
  add_payload s (b ∷ bs) =
      (record s { large_data = keep s.large_data (b ∷ bs) }, some (s.large_data.id_counter, b ∷ bs))

  unfoldable pub track : Client → Bool → Bytes → ℕ → Client
  track s allocated token id = record s {
    tracked_tokens = track_new_token allocated token id s.doing_observe s.tracked_tokens;
  }

  unfoldable pub transmit : Client → RequestCode → Bytes → List Bytes → Option (ℕ × Bytes) → Client
  transmit s code token path payload = record s {
    requests =
        s.requests
        ++ record {
          code = code;
          token = if api.add_token token then token else [];
          path = path;
          payload = payload;
        }
          ∷ [];
  }

  -- `sendRequest` on a session; a session that is null is not in the contract of libcoap, and is `none`.
  unfoldable pub send_request : Client → Bool → String → Method → ℕ → Bytes → Option Client
  unfolding add_payload track transmit
  send_request s allocated path method id bytes = elim s.session [
    | none ↦ none
    | some session ↦
        let (token, session') = api.session_new_token session in
        let s' = track (record s { session = some session' }) allocated token id in
        let (s'', payload) = add_payload s' bytes in
        some (transmit s'' (request_code method) token (api.split_path path) payload)
  ]

  unfoldable pub flush : Client → Bytes → Client
  flush s token = record s {
    tracked_tokens = track_flush_token token s.obs_started s.tracked_tokens;
  }

  unfoldable pub flush_unless_mcast : Client → Bytes → Client
  unfolding flush
  flush_unless_mcast s token = if not s.is_mcast then flush s token else s

  unfoldable pub signal : Client → ℕ → Bytes → Client
  signal s id bytes = record s { received = s.received ++ (id, bytes) ∷ [] }

  -- The end of the branch of class 2: the Block2 option, or the end of the callback.
  unfoldable pub after_block : Client → Bytes → Option Bool → Client
  unfolding flush flush_unless_mcast
  after_block s token none = flush_unless_mcast s token
  after_block s token (some true) = s
  after_block s token (some false) = flush s token

  -- `messageCallback` for a message whose token is tracked.
  unfoldable pub answer : Client → ℕ → Message → Client
  unfolding signal after_block flush_unless_mcast
  answer s id received =
      if received.code_class == 2
      then after_block (signal s id (data_or_empty received.data_large)) received.token
          received.block2
      else flush_unless_mcast s received.token

  -- `sent` says whether the message answers a request that libcoap holds.
  unfoldable pub message_callback : Client → Bool → Message → Response × Client
  unfolding answer
  message_callback s sent received =
      let (same_token, req_id) = track_check_token received.token s.tracked_tokens in
      if not same_token
      then (if not sent && is_con_or_non received.type then (fail, s) else (ok, s))
      else if is_reset received.type
      then (ok, s)
      else (ok, answer s req_id received)

  unfoldable pub release : Client → ℕ → Client
  release s id = record s { large_data = free_large_data s.large_data id }

  unfoldable pub get_well_known : Client → Bool → String → Option Client
  unfolding send_request
  get_well_known s allocated path = send_request s allocated path m_get request_id_well_known []

  unfoldable pub make_request : Client → Bool → Method → String → ℕ → Bytes → Option Client
  unfolding send_request
  make_request s allocated method path id bytes = send_request s allocated path method id bytes

  unfoldable pub connect_on_receive : Client → ℕ → Client
  connect_on_receive s slot = record s { slots = s.slots ++ slot ∷ [] }

  unfoldable pub generate_readable_name : Client → Text
  generate_readable_name s = format "[COAP-Client] {}" (text s.opts.server_uri ∷ [])

  -- `DiscoverServers`, until it waits: the client asks all servers at an address, and `slot` logs what
  -- they answer.
  unfoldable pub discover_servers : Bool → Bool → String → ℕ → ℕ → Option Client
  unfolding create set_options connect_on_receive get_well_known
  discover_servers mcast allocated multicast_ip port slot =
      let c : Client =
        set_options (create mcast) (record { server_uri = multicast_ip; server_port = port }) in
      get_well_known (connect_on_receive c slot) allocated ".well-known/core"
