-- ===== src/Handler/Events.antt =====
-- The callbacks that go/internal/pionserver/handler.go gives to pion (`setupPCCallbacks`, `setupDCCallbacks`),
-- and `sendEvent` of its constructor. Each returns the messages that it sends to the session.
use flutter_pion_bridge.Prelude.{
  ℕ, zero, suc, pos, String, ◌+++◌, ◌==◌, Bool, true, false, not, Option, none, some, List, [], ◌∷◌,
  ◌++◌, if◌then◌else◌,
}
use flutter_pion_bridge.Types.{Value, int, uint16, str, bin, bool, field, end, Message, event}
use flutter_pion_bridge.Result.{Result, failed, ok}
use flutter_pion_bridge.DcSend.{DcSendState, set_detached}
use flutter_pion_bridge.Registry.{touch, lookup_dc_send_state}
use flutter_pion_bridge.Pion.{IceCandidateInit}
use flutter_pion_bridge.Handler.{Draw, Env, World, ApiProfile, notify_pc_closed}
use flutter_pion_bridge.Handler.Channels.{adopt_channel}

-- `candidate.ToJSON()` with the defaults of the fields that it leaves out.
abbrev mid_of : Option String → Value
mid_of none = str ""
mid_of (some mid) = str mid

abbrev index_of : Option ℕ → Value
index_of none = int (pos 0)
index_of (some index) = uint16 index

unfoldable pub candidate_event : String → Option IceCandidateInit → Message
candidate_event handle none = event "event:iceGatheringComplete" handle (some end)
candidate_event handle (some init) = event "event:iceCandidate" handle (
    some (
      field "type" (str "iceCandidate") (
        field "candidate" (str init.candidate) (
          field "sdp_mid" (mid_of init.sdp_mid)
            (field "sdp_mline_index" (index_of init.sdp_mline_index) end)))))

unfoldable pub state_event : String → String → Message
state_event handle state =
    event "event:connectionStateChange" handle
      (some (field "type" (str "connectionStateChange") (field "state" (str state) end)))

-- `track.Kind()`, `ID`, `StreamID` and the MIME type of its codec.
pub record Track : Type 0 where
  pub kind : String
  pub id : String
  pub stream_id : String
  pub codec : String

unfoldable pub track_event : String → Track → Message
track_event handle track = event "event:track" handle (
    some (
      field "type" (str "track") (
        field "kind" (str track.kind) (
          field "track_id" (str track.id)
            (field "stream_id" (str track.stream_id) (field "codec" (str track.codec) end))))))

unfoldable pub open_event : String → Message
open_event dc_handle =
    event "event:dataChannelOpen" dc_handle (some (field "type" (str "open") end))

unfoldable pub close_event : String → Message
close_event dc_handle =
    event "event:dataChannelClose" dc_handle (some (field "type" (str "close") end))

unfoldable pub detach_error : String → String → Message
detach_error dc_handle err =
    event "event:dc:error" dc_handle (some (field "error" (str ("detach: " +++ err)) end))

-- `text` is the string with these bytes.
unfoldable pub message_event : String → List ℕ → String → Bool → Message
message_event dc_handle bytes text is_string = event "event:dataChannelMessage" dc_handle (
    some (
      field "type" (str "message") (
        field "is_binary" (bool (not is_string))
          (field "data" (if is_string then str text else bin bytes) end))))

unfoldable pub attach : ℕ → ℕ → List DcSendState → List DcSendState
attach n raw [] = []
attach zero raw (s ∷ ss) = set_detached raw s ∷ ss
attach (suc n) raw (s ∷ ss) = s ∷ attach n raw ss

abbrev attach_found : Option ℕ → ℕ → List DcSendState → List DcSendState
attach_found none raw states = states
attach_found (some state) raw states = attach state raw states

module _ {S Api : Type 0} (env : Env S Api) where
  -- The `sendEvent` of a handler: an event counts as activity of its handle.
  unfoldable pub send_event : ℕ → Message → World S Api → Option (List Message × World S Api)
  send_event now m w =
      if m.handle == "" then some (m ∷ [], w) else elim (touch now m.handle w.registry) [
        | none ↦ none
        | some r ↦ some (m ∷ [], record w { registry = r })
      ]

  unfoldable pub on_ice_candidate :
      ℕ → String → Option IceCandidateInit → World S Api → Option (List Message × World S Api)
  on_ice_candidate now handle candidate w = send_event now (candidate_event handle candidate) w

  abbrev notified_if :
      Bool → String → Option (List Message × World S Api) → Option (List Message × World S Api)
  notified_if closed handle none = none
  notified_if closed handle (some (ms, w)) =
      some (ms, (if closed then notify_pc_closed env handle w else w))

  -- `closed` is `state == webrtc.PeerConnectionStateClosed`.
  unfoldable pub on_connection_state_change :
      ℕ → String → String → Bool → World S Api → Option (List Message × World S Api)
  on_connection_state_change now handle state closed w =
      notified_if closed handle (send_event now (state_event handle state) w)

  -- A track goes to the hook of the embedder, or is drained.
  unfoldable pub give_track : String → World S Api → World S Api
  give_track handle w =
      if w.track_hook
      then record w { hooked_tracks = w.hooked_tracks ++ handle ∷ [] }
      else record w { drained_tracks = w.drained_tracks ++ handle ∷ [] }

  unfoldable pub on_track : ℕ → String → Track → World S Api → Option (List Message × World S Api)
  on_track now handle track w = send_event now (track_event handle track) (give_track handle w)

  unfoldable pub data_channel_event :
      Draw → String → ℕ → Option String → World S Api → Option (List Message × World S Api)
  data_channel_event draw handle dc (some text) w = some ([], record w { panicked = none })
  data_channel_event draw handle dc none w =
      send_event draw.now
        (event "event:dataChannel" handle (
          some (
            field "type" (str "dataChannel") (
              field "dc_handle" (str draw.uuid) (
                field "label" (str (env.pion.label dc w.pion))
                  (field "ordered" (bool (env.pion.ordered dc w.pion)) end))))))
        w

  -- Where `newDCSendState` panics, the deferred `recover` ends the callback: the child stays in the
  -- registry, with no send state, no callbacks and no event.
  unfoldable pub on_data_channel :
      Draw → String → ℕ → World S Api → Option (List Message × World S Api)
  on_data_channel draw handle dc w =
      let w' = adopt_channel env draw handle dc (record w { panicked = none }) in
      data_channel_event draw handle dc w'.panicked w'

  -- `emitClose`, with whether it has run before; now it has.
  unfoldable pub emit_close : ℕ → String → Bool → World S Api → Option (List Message × World S Api)
  emit_close now dc_handle true w = some ([], w)
  emit_close now dc_handle false w = send_event now (close_event dc_handle) w

  unfoldable pub open_detached :
      ℕ → String → Result String ℕ → World S Api → Option (List Message × World S Api)
  open_detached now dc_handle (failed e) w = send_event now (detach_error dc_handle e) w
  open_detached now dc_handle (ok stream) w = send_event now (open_event dc_handle) (record w {
    send_states = attach_found (lookup_dc_send_state dc_handle w.registry) stream w.send_states;
  })

  -- `OnOpen`, with what `dc.Detach` returns; the read loop that starts then is Handler/Detached.antt.
  unfoldable pub on_open :
      ℕ
      → String
      → ApiProfile Api
      → Result String ℕ
      → World S Api
      → Option (List Message × World S Api)
  on_open now dc_handle profile raw w =
      if profile.detach
      then open_detached now dc_handle raw w
      else send_event now (open_event dc_handle) w

  unfoldable pub on_message :
      ℕ → String → List ℕ → String → Bool → World S Api → Option (List Message × World S Api)
  on_message now dc_handle bytes text is_string w =
      send_event now (message_event dc_handle bytes text is_string) w
