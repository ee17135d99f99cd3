-- ===== src/Gui/CoapClientWin.antt =====
-- libs/gui-libcon/src/coap_client_win.cpp: the window of a CoAP client.
use device_tester.Prelude.{ℕ, Bool, if◌then◌else◌, Option, some, none, [], String}
use device_tester.Connection.{set_readable_name}
use device_tester.Plugin.{◌>>=◌}
use device_tester.CoapClient.Library.{CoapApi}
use device_tester.CoapClient.{Options, Client, m_put, set_options, get_well_known, make_request}
use device_tester.Gui.Elements

-- What the user does in the settings.
pub record Frame : Type 0 where
  pub name : Option String
  pub server_uri : String
  pub server_port : ℕ
  pub apply : Bool
  pub reset : Bool

-- In the details. `allocated` says whether there is memory for a token.
pub record DetailsFrame : Type 0 where
  pub well_known : Bool
  pub test : Bool
  pub allocated : Bool

unfoldable pub edit : Frame → Options
edit f = record { server_uri = f.server_uri; server_port = f.server_port }

module _ ⦃coap : CoapApi⦄ where
  pub record CoapClientWin : Type 0 where
    pub client : Client
    pub opts : Options

  unfoldable pub create : Client → CoapClientWin
  create client = record { client = client; opts = client.opts }

  unfoldable pub title : CoapClientWin → String
  title s = Elements.title "[NEW] COAP Client" s.client.base.readable_name

  unfoldable pub rename : Client → Option String → Client
  rename c none = c
  rename c (some name) = record c { base = set_readable_name c.base name }

  unfoldable pub draw_tab_settings : CoapClientWin → Frame → CoapClientWin
  unfolding rename edit set_options
  draw_tab_settings s f =
      let c : Client = rename s.client f.name in
      let client : Client = if f.apply then set_options c (edit f) else c in
      record s { client = client; opts = if f.reset then client.opts else edit f }

  -- `path` is what `getWellKnown` asks for. A request that throws is `none`.
  unfoldable pub ask_well_known : Client → DetailsFrame → String → Option Client
  unfolding get_well_known
  ask_well_known c f path = if f.well_known then get_well_known c f.allocated path else some c

  unfoldable pub ask_test : Client → DetailsFrame → Option Client
  unfolding make_request
  ask_test c f = if f.test then make_request c f.allocated m_put "test" 0 [] else some c

  unfoldable pub draw_tab_details : CoapClientWin → DetailsFrame → Option CoapClientWin
  unfolding ask_well_known ask_test
  draw_tab_details s f = do
    c ← ask_well_known s.client f ".well-known/core"
    c' ← ask_test c f
    some (record s { client = c' })
