-- ===== src/Handler.antt =====
-- go/internal/pionserver/handler.go: the state of a session's handler with what it shares with the
-- other sessions, its profiles, and the helpers of its requests. hooks.go: the closed notification.
pub mod Create
pub mod Negotiate
pub mod Channels
pub mod Dispatch
mod Profiles
pub mod Notices
mod Replies
pub mod Refusals
mod Answers
pub mod Events
pub mod Detached
mod Reading
mod Serving
mod Kept
mod Consistency
mod Frames
pub mod Life
pub mod Pool
mod Activity
mod Tests
use flutter_pion_bridge.Prelude.{
  ℕ, ℤ, pos, String, ◌+++◌, ◌==◌, Bool, true, false, Option, none, some, List, [], ◌∷◌, ◌++◌, Map,
  empty, get, put, delete, length, elem, if◌then◌else◌,
}
use flutter_pion_bridge.Types.{Value, Fields, at, as_bool, Message, error_response}
use flutter_pion_bridge.Convert.{Floats, to_int}
use flutter_pion_bridge.Result.{Result, failed, ok}
use flutter_pion_bridge.Settings.{Setting, SettingsError, Engine, apply_settings_engine}
use flutter_pion_bridge.Media.{Codec, MediaError, MediaPion, build_media_engine}
use flutter_pion_bridge.Trace.{PionTrace, release_dc}
use flutter_pion_bridge.DcSend.{DcConfig, DcSendState, DcSendWork, new_dc_send_state}
use flutter_pion_bridge.Registry.{
  Resource, peer_connection, data_channel, Registry, lookup, register_dc_send_state,
  remove_dc_send_state,
}
use flutter_pion_bridge.Pion.{Pion}

pub record ApiProfile (Api : Type 0) : Type 0 where
  pub api : Api
  pub detach : Bool
  pub max_message_size : ℤ

pub record Handler (Api : Type 0) : Type 0 where
  pub dc_config : DcConfig
  pub default_profile : ApiProfile Api
  pub default_se : Option Fields
  pub default_me : Option Fields
  pub profiles : Map (ApiProfile Api)
  pub pc_profiles : Map (ApiProfile Api)

-- The handler of a session and the state of the process. A send state is a pointer: its place in
-- `send_states`. `work` has what `dc:send` handed to the queues, `closed_states` the calls of `closeState`,
-- `closed_once` the handles of hooks.go's map, and `notified` the calls of the embedder's hook. `hooked_tracks`
-- and `drained_tracks` have the handles whose tracks went to the hook for tracks, or to `drainTrack`.
pub record World (S Api : Type 0) : Type 0 where
  pub handler : Handler Api
  pub registry : Registry
  pub trace : PionTrace
  pub pion : S
  pub send_states : List DcSendState
  pub work : List (ℕ × DcSendWork)
  pub closed_states : List ℕ
  pub closed_hook : Bool
  pub track_hook : Bool
  pub hooked_tracks : List String
  pub drained_tracks : List String
  pub closed_once : List String
  pub notified : List String
  pub panicked : Option String

pub data ProfileError : Type 0 where
  settings_error : SettingsError → ProfileError
  media_engine_error : MediaError → ProfileError
  marshal_error : String → ProfileError

-- The libraries, and the texts of the errors. `session` is this handler's sink. Go's
-- `make` panics, with a text, for a channel that it takes to be too large.
pub record Env (S Api : Type 0) : Type 0 where
  pub pion : Pion S Api
  pub floats : Floats
  pub engine : Engine
  pub media_pion : MediaPion
  pub marshal : Option Fields → Option Fields → Result String String
  pub sprint : Value → String
  pub profile_error_text : ProfileError → String
  pub session : ℕ
  pub make_panics : ℕ → Option String

-- The clock and the UUID that `generateHandle` draws.
pub record Draw : Type 0 where
  pub now : ℕ
  pub uuid : String

unfoldable pub profile_error_code : ProfileError → String
profile_error_code (media_engine_error e) = "INVALID_MEDIA_ENGINE"
profile_error_code e = "INVALID_REQUEST"

unfoldable pub new_handler : {Api : Type 0} → Api → DcConfig → Handler Api
new_handler api cfg = record {
  dc_config = cfg;
  default_profile = record { api = api; detach = false; max_message_size = pos 0 };
  default_se = none;
  default_me = none;
  profiles = empty;
  pc_profiles = empty;
}

abbrev pub or_zero : Option ℤ → ℤ
or_zero none = pos 0
or_zero (some v) = v

abbrev pub or_false : Option Bool → Bool
or_false none = false
or_false (some b) = b

module _ {S Api : Type 0} (env : Env S Api) where
  unfoldable pub settings : Option Fields → Result SettingsError (List Setting)
  settings none = ok []
  settings (some cfg) = apply_settings_engine env.floats env.engine cfg

  unfoldable pub media_option : Option Fields → Result MediaError (Option (List Codec × Option ℤ))
  media_option none = ok none
  media_option (some cfg) = elim (build_media_engine env.floats env.media_pion cfg) [
    | failed e ↦ failed e
    | ok m ↦ ok (some m)
  ]

  unfoldable pub with_settings : Option Fields → Api → ApiProfile Api
  with_settings none api = record { api = api; detach = false; max_message_size = pos 0 }
  with_settings (some cfg) api = record {
    api = api;
    detach = or_false (as_bool (at cfg "detach_data_channels"));
    max_message_size = or_zero (to_int env.floats (at cfg "sctp_max_message_size"));
  }

  unfoldable pub build_profile :
      Option Fields → Option Fields → Result ProfileError (ApiProfile Api)
  build_profile cfg media = elim (settings cfg) [
    | failed e ↦ failed (settings_error e)
    | ok se ↦ elim (media_option media) [
      | failed e ↦ failed (media_engine_error e)
      | ok m ↦ ok (with_settings cfg (env.pion.new_api se m))
    ]
  ]

  -- The second look under the lock: an API that another call has added meanwhile is kept.
  unfoldable pub add_profile : String → ApiProfile Api → Handler Api → ApiProfile Api × Handler Api
  add_profile key p h = elim (get h.profiles key) [
    | some existing ↦ (existing, h)
    | none ↦ (p, record h { profiles = put h.profiles key p })
  ]

  unfoldable pub keep_built :
      String
      → Result ProfileError (ApiProfile Api)
      → Handler Api
      → Result ProfileError (ApiProfile Api) × Handler Api
  keep_built key (failed e) h = (failed e, h)
  keep_built key (ok p) h = (ok (add_profile key p h).0, (add_profile key p h).1)

  unfoldable pub profile_for :
      Option Fields
      → Option Fields
      → Handler Api
      → Result ProfileError (ApiProfile Api) × Handler Api
  profile_for cfg media h = elim (env.marshal cfg media) [
    | failed e ↦ (failed (marshal_error e), h)
    | ok key ↦ elim (get h.profiles key) [
      | some p ↦ (ok p, h)
      | none ↦ keep_built key (build_profile cfg media) h
    ]
  ]

  unfoldable pub set_pc_profile : String → ApiProfile Api → Handler Api → Handler Api
  set_pc_profile handle p h = record h { pc_profiles = put h.pc_profiles handle p }

  unfoldable pub forget_pc_profile : String → Handler Api → Handler Api
  forget_pc_profile handle h = record h { pc_profiles = delete h.pc_profiles handle }

  unfoldable pub pc_profile : String → Handler Api → ApiProfile Api
  pc_profile handle h = elim (get h.pc_profiles handle) [ some p ↦ p | none ↦ h.default_profile ]

  -- `notifyPCClosed`
  unfoldable pub notify_pc_closed : String → World S Api → World S Api
  notify_pc_closed handle w = if elem handle w.closed_once then w else record w {
    closed_once = handle ∷ w.closed_once;
    notified = if w.closed_hook then w.notified ++ handle ∷ [] else w.notified;
  }

  -- `SetTrackHandler` and `SetPeerConnectionClosedHandler`, with whether a function is given.
  unfoldable pub set_track_handler : Bool → World S Api → World S Api
  set_track_handler given w = record w { track_hook = given }

  unfoldable pub set_peer_connection_closed_handler : Bool → World S Api → World S Api
  set_peer_connection_closed_handler given w = record w { closed_hook = given }

  -- Up to the start of the goroutine. `newDCSendState` comes first, and where its `make` panics nothing
  -- after it is done; callers only build a response or an event then, which `recover` throws away.
  unfoldable pub start_with :
      Option String → ℕ → String → ApiProfile Api → World S Api → World S Api
  start_with (some text) dc dc_handle profile w = record w { panicked = some text }
  start_with none dc dc_handle profile w =
      let state = new_dc_send_state w.handler.dc_config profile.detach in
      let registered = register_dc_send_state dc_handle (length w.send_states) w.registry in
      if registered.0
      then record w {
        registry = registered.1;
        send_states = w.send_states ++ state ∷ [];
        pion = env.pion.set_buffered_amount_low_threshold dc state.threshold w.pion;
      }
      else w

  unfoldable pub start_dc_send_goroutine : ℕ → String → ApiProfile Api → World S Api → World S Api
  start_dc_send_goroutine dc dc_handle profile w =
      start_with (env.make_panics w.handler.dc_config.send_queue_depth) dc dc_handle profile w

  abbrev pub stopped_states : Option ℕ → List ℕ
  stopped_states none = []
  stopped_states (some state) = state ∷ []

  unfoldable pub stop_dc_send_goroutine : String → World S Api → World S Api
  stop_dc_send_goroutine dc_handle w =
      let removed = remove_dc_send_state dc_handle w.registry in
      record w {
        registry = removed.1;
        closed_states = w.closed_states ++ stopped_states removed.0;
        trace = release_dc w.trace dc_handle;
      }

  unfoldable pub invalid : Message → String → Message
  invalid msg text = error_response msg.id "INVALID_REQUEST" text false msg.handle

  unfoldable pub internal : Message → String → Message
  internal msg text = error_response msg.id "INTERNAL_ERROR" text false msg.handle

  abbrev pub as_pc : Message → Option Resource → Result Message ℕ
  as_pc msg none =
      failed
        (error_response msg.id "NOT_FOUND" ("handle not found: " +++ msg.handle) false msg.handle)
  as_pc msg (some (peer_connection pc)) = ok pc
  as_pc msg (some res) = failed (invalid msg "handle is not a PeerConnection")

  abbrev pub as_dc : Message → Option Resource → Result Message ℕ
  as_dc msg none =
      failed
        (error_response msg.id "NOT_FOUND" ("handle not found: " +++ msg.handle) false msg.handle)
  as_dc msg (some (data_channel dc)) = ok dc
  as_dc msg (some res) = failed (invalid msg "handle is not a DataChannel")

  unfoldable pub lookup_pc : Draw → Message → World S Api → Result Message ℕ × World S Api
  lookup_pc draw msg w =
      let found = lookup draw.now msg.handle w.registry in
      if msg.handle == ""
      then (failed (invalid msg "missing handle"), w)
      else (as_pc msg found.0, record w { registry = found.1 })

  unfoldable pub lookup_dc : Draw → Message → World S Api → Result Message ℕ × World S Api
  lookup_dc draw msg w =
      let found = lookup draw.now msg.handle w.registry in
      if msg.handle == ""
      then (failed (invalid msg "missing handle"), w)
      else (as_dc msg found.0, record w { registry = found.1 })

  -- `if !ok { return errMsg }`
  abbrev pub or_return :
      Result Message ℕ × World S Api
      → (ℕ → World S Api → Message × World S Api)
      → Message × World S Api
  or_return (failed m, w) k = (m, w)
  or_return (ok x, w) k = k x w
