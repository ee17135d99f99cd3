-- ===== src/Plugin/Strand.antt =====
-- What a plugin posts to its strand, and what the strand runs: the rest of lua_plugin.cpp.
use device_tester.Prelude.{ℕ, Bool, Option, some, none, [], ◌∷◌, ◌++◌, String, Bytes, get_elem?}
use device_tester.RingBuffer.Container.{CircularBuffer}
use device_tester.Asio.{SocketApi}
use device_tester.Asio.SerialPort.{SerialApi}
use device_tester.CoapClient.Library.{CoapApi}
use device_tester.CoapClient.{m_put, make_request}
use device_tester.Plugin.{
  Task, calls_back, calls_back_coap, puts, received, coap_received, gui, LuaPlugin, coap_client,
  callback_at, replace, call_lua, ◌>>=◌,
}

module _ ⦃box : CircularBuffer Bytes⦄ ⦃net : SocketApi⦄ ⦃api : SerialApi⦄ ⦃coap : CoapApi⦄ where
  unfoldable pub post : LuaPlugin → Task → LuaPlugin
  post s task = record s { strand = s.strand ++ task ∷ [] }

  -- `ConnectionWrapper::onReceive` of the wrapper at a place.
  unfoldable pub on_receive : LuaPlugin → ℕ → Bytes → LuaPlugin
  unfolding callback_at post
  on_receive s place bytes = elim (callback_at s.wrappers place) [
    | none ↦ s
    | some f ↦ post s (calls_back f bytes)
  ]

  -- `CoapClientConnectionWrapper::onReceive`.
  unfoldable pub on_receive_coap : LuaPlugin → ℕ → ℕ → Bytes → LuaPlugin
  unfolding callback_at post
  on_receive_coap s place id bytes = elim (callback_at s.wrappers place) [
    | none ↦ s
    | some f ↦ post s (calls_back_coap f id bytes)
  ]

  -- `CoapClientConnectionWrapper::put`; the bytes are `none` if the argument is no string.
  unfoldable pub put : LuaPlugin → ℕ → ℕ → String → Option Bytes → LuaPlugin
  unfolding post
  put s place id path none = s
  put s place id path (some bytes) = post s (puts place id path bytes)

  unfoldable pub make_put : LuaPlugin → Bool → ℕ → ℕ → String → Bytes → Option LuaPlugin
  unfolding replace
  make_put s allocated place id path bytes = elim (get_elem? s.connections place) [
    | some (coap_client client) ↦ do
      client' ← make_request client allocated m_put path id bytes
      some (record s { connections = replace place (coap_client client') s.connections })
    | _ ↦ some s
  ]

  -- The strand runs a task. `allocated` says whether there is memory for a token.
  unfoldable pub perform : LuaPlugin → Bool → Task → Option LuaPlugin
  unfolding call_lua make_put
  perform s allocated (calls_back f bytes) = some (call_lua s (received f bytes))
  perform s allocated (calls_back_coap f id bytes) = some (call_lua s (coap_received f id bytes))
  perform s allocated (puts place id path bytes) = make_put s allocated place id path bytes

  -- `LuaActionItem::drawGui`.
  unfoldable pub draw_gui : LuaPlugin → ℕ → LuaPlugin
  unfolding call_lua
  draw_gui s f = call_lua s (gui f)
