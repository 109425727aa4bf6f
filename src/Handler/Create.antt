-- ===== src/Handler/Create.antt =====
-- `handleInit` and `handlePCCreate` of go/internal/pionserver/handler.go.
use flutter_pion_bridge.Prelude.{
  ℕ, ℤ, pos, suc, String, ◌==◌, true, false, Option, none, some, List, [], ◌∷◌, if◌then◌else◌,
}
use flutter_pion_bridge.Types.{
  Value, str, arr, obj, Values, nil, cons, Fields, field, end, at, as_bool, as_map, as_string,
  as_list, string_or_empty, Message, error_response, ack_response,
}
use flutter_pion_bridge.Convert.{to_int, to_uint64}
use flutter_pion_bridge.Result.{Result, failed, ok}
use flutter_pion_bridge.Trace.{PionTrace}
use flutter_pion_bridge.DcSend.{DcConfig}
use flutter_pion_bridge.Registry.{peer_connection, register}
use flutter_pion_bridge.Pion.{
  IceServer, BundlePolicy, bundle_policy_unset, bundle_policy_balanced, bundle_policy_max_compat,
  bundle_policy_max_bundle, RtcpMuxPolicy, rtcp_mux_policy_unset, rtcp_mux_policy_negotiate,
  rtcp_mux_policy_require, IceTransportPolicy, ice_transport_policy_all, ice_transport_policy_relay,
  Configuration,
}
use flutter_pion_bridge.Handler.{
  Draw, Env, World, Handler, ApiProfile, ProfileError, profile_error_code, build_profile,
  profile_for, set_pc_profile, or_false,
}

unfoldable pub set_depth : Option ℤ → DcConfig → DcConfig
set_depth (some (pos (suc n))) c = record c { send_queue_depth = suc n }
set_depth _ c = c

unfoldable pub set_threshold : Option ℕ → DcConfig → DcConfig
set_threshold (some v) c = record c { buffered_amount_low_threshold = v }
set_threshold none c = c

-- `StartTracing` up to its goroutine.
unfoldable pub start_tracing : Option Fields → PionTrace → PionTrace
start_tracing none t = t
start_tracing (some cfg) t =
    if or_false (as_bool (at cfg "enable_tracing")) then record t { enabled = true } else t

abbrev or_nothing : Option Fields → Fields
or_nothing none = end
or_nothing (some cfg) = cfg

unfoldable pub strings_of : Values → List String
strings_of nil = []
strings_of (cons (str s) vs) = s ∷ strings_of vs
strings_of (cons v vs) = strings_of vs

unfoldable pub urls_of : Value → List String
urls_of (arr vs) = strings_of vs
urls_of (str url) = url ∷ []
urls_of v = []

unfoldable pub ice_servers_of : Values → List IceServer
ice_servers_of nil = []
ice_servers_of (cons (obj srv) vs) =
    record {
      urls = urls_of (at srv "urls");
      username = string_or_empty (at srv "username");
      credential = as_string (at srv "credential");
    }
    ∷ ice_servers_of vs
ice_servers_of (cons v vs) = ice_servers_of vs

abbrev server_list : Option Values → List IceServer
server_list none = []
server_list (some vs) = ice_servers_of vs

unfoldable pub bundle_policy_of : Option String → BundlePolicy
bundle_policy_of none = bundle_policy_unset
bundle_policy_of (some bp) =
    if bp == "balanced"
    then bundle_policy_balanced
    else if bp == "max-compat"
    then bundle_policy_max_compat
    else if bp == "max-bundle"
    then bundle_policy_max_bundle
    else bundle_policy_unset

unfoldable pub rtcp_mux_policy_of : Option String → RtcpMuxPolicy
rtcp_mux_policy_of none = rtcp_mux_policy_unset
rtcp_mux_policy_of (some rmp) =
    if rmp == "negotiate"
    then rtcp_mux_policy_negotiate
    else if rmp == "require"
    then rtcp_mux_policy_require
    else rtcp_mux_policy_unset

unfoldable pub ice_transport_policy_of : Option String → IceTransportPolicy
ice_transport_policy_of none = ice_transport_policy_all
ice_transport_policy_of (some itp) =
    if itp == "relay" then ice_transport_policy_relay else ice_transport_policy_all

unfoldable pub configuration : Fields → Configuration
configuration fields = record {
  ice_servers = server_list (as_list (at fields "ice_servers"));
  bundle_policy = bundle_policy_of (as_string (at fields "bundle_policy"));
  rtcp_mux_policy = rtcp_mux_policy_of (as_string (at fields "rtcp_mux_policy"));
  ice_transport_policy = ice_transport_policy_of (as_string (at fields "ice_transport_policy"));
}

abbrev pub or_else : Option Fields → Option Fields → Option Fields
or_else none d = d
or_else (some cfg) d = some cfg

module _ {S Api : Type 0} (env : Env S Api) where
  unfoldable pub configure : Fields → World S Api → World S Api
  configure fields w =
      let dc = or_nothing (as_map (at fields "dc_config")) in
      record w {
        trace = start_tracing (as_map (at fields "settings_engine")) w.trace;
        handler = record w.handler {
          dc_config = set_depth (to_int env.floats (at dc "send_queue_depth")) (
              set_threshold (to_uint64 env.floats (at dc "buffered_amount_low_threshold"))
                w.handler.dc_config);
        };
      }

  unfoldable pub finish_init :
      Message
      → Option Fields
      → Option Fields
      → World S Api
      → Result ProfileError (ApiProfile Api)
      → Message × World S Api
  finish_init msg se me w (failed e) =
      (error_response msg.id (profile_error_code e) (env.profile_error_text e) false "", w)
  finish_init msg se me w (ok profile) = (
    ack_response "init" msg.id "" (some (field "version" (str "1.0.0") end)),
    record w {
      handler = record w.handler { default_profile = profile; default_se = se; default_me = me };
    },
  )

  unfoldable pub handle_init : Message → World S Api → Message × World S Api
  handle_init msg w =
      let se = as_map (at msg.fields "settings_engine") in
      let me = as_map (at msg.fields "media_engine") in
      finish_init msg se me (configure msg.fields w) (build_profile env se me)

  -- The profile of a new PeerConnection: the default, or one for what the request overrides.
  unfoldable pub choose_profile :
      Option Fields
      → Option Fields
      → Handler Api
      → Result ProfileError (ApiProfile Api) × Handler Api
  choose_profile none none h = (ok h.default_profile, h)
  choose_profile se me h = profile_for env (or_else se h.default_se) (or_else me h.default_me) h

  unfoldable pub open_connection :
      Draw → Message → ApiProfile Api → World S Api → Result String ℕ × S → Message × World S Api
  open_connection draw msg profile w (failed e, s) =
      (error_response msg.id "INTERNAL_ERROR" e false "", record w { pion = s })
  open_connection draw msg profile w (ok pc, s) = (
    ack_response "pc:create" msg.id draw.uuid
        (some (field "handle" (str draw.uuid) (field "state" (str "new") end))),
    record w {
      pion = s;
      registry = register draw.now draw.uuid (peer_connection pc) w.registry;
      handler = set_pc_profile env draw.uuid profile w.handler;
    },
  )

  unfoldable pub create_with :
      Draw → Message → World S Api → Result ProfileError (ApiProfile Api) → Message × World S Api
  create_with draw msg w (failed e) =
      (error_response msg.id (profile_error_code e) (env.profile_error_text e) false "", w)
  create_with draw msg w (ok profile) =
      open_connection draw msg profile w
        (env.pion.new_peer_connection profile.api (configuration msg.fields) w.pion)

  unfoldable pub handle_pc_create : Draw → Message → World S Api → Message × World S Api
  handle_pc_create draw msg w =
      let chosen =
        choose_profile (as_map (at msg.fields "settings_engine"))
          (as_map (at msg.fields "media_engine")) w.handler in
      create_with draw msg (record w { handler = chosen.1 }) chosen.0
