-- ===== src/Handler/Channels.antt =====
-- `pc:createDc`, the requests on a DataChannel and `resource:delete` of go/internal/pionserver/handler.go.
use flutter_pion_bridge.Prelude.{
  ℕ, String, ◌+++◌, ◌==◌, Bool, true, false, Option, none, some, List, [], ◌∷◌, ◌++◌, if◌then◌else◌,
  suc, zero,
}
use flutter_pion_bridge.Types.{
  Value, str, bin, Fields, field, end, at, as_bool, as_map, string_or_empty, Message, blank,
  error_response, ack_response,
}
use flutter_pion_bridge.Convert.{to_uint16, to_uint64}
use flutter_pion_bridge.Result.{Result, failed, ok}
use flutter_pion_bridge.Trace.{PionTrace, dc_idx}
use flutter_pion_bridge.DcSend.{DcSendState, DcSendWork}
use flutter_pion_bridge.Registry.{
  Resource, peer_connection, data_channel, Collected, register_child, lookup, lookup_dc_send_state,
  Deleted, not_found, out_of_fuel, gone, delete_handle,
}
use flutter_pion_bridge.Pion.{DataChannelInit}
use flutter_pion_bridge.Handler.{
  Draw, Env, World, invalid, internal, lookup_pc, lookup_dc, or_return, notify_pc_closed,
  forget_pc_profile, pc_profile, start_dc_send_goroutine, stop_dc_send_goroutine,
}
use flutter_pion_bridge.Handler.Negotiate.{answer_with}

unfoldable pub set_state_threshold : ℕ → ℕ → List DcSendState → List DcSendState
set_state_threshold n threshold [] = []
set_state_threshold zero threshold (s ∷ ss) = record s { threshold = threshold } ∷ ss
set_state_threshold (suc n) threshold (s ∷ ss) = s ∷ set_state_threshold n threshold ss

abbrev pub or_true : Option Bool → Bool
or_true none = true
or_true (some b) = b

abbrev options_of : Option Fields → Fields
options_of none = end
options_of (some opts) = opts

-- The notification is deferred, so it follows the deletion, for a PeerConnection only.
abbrev pub is_peer_connection : Option Resource → Bool
is_peer_connection (some (peer_connection pc)) = true
is_peer_connection res = false

module _ {S Api : Type 0} (env : Env S Api) where
  unfoldable pub data_channel_init : Fields → DataChannelInit
  data_channel_init opts = record {
    ordered = as_bool (at opts "ordered");
    max_retransmits = to_uint16 env.floats (at opts "max_retransmits");
    max_packet_life_time = to_uint16 env.floats (at opts "max_packet_lifetime_ms");
  }

  -- A new DataChannel of the PeerConnection `parent`, up to its callbacks.
  unfoldable pub adopt_channel : Draw → String → ℕ → World S Api → World S Api
  adopt_channel draw parent dc w =
      start_dc_send_goroutine env dc draw.uuid (pc_profile env parent w.handler) (record w {
        registry = register_child draw.now draw.uuid (data_channel dc) parent w.registry;
      })

  unfoldable pub open_channel :
      Draw → Message → World S Api → Result String ℕ × S → Message × World S Api
  open_channel draw msg w (failed e, s) = (internal env msg e, record w { pion = s })
  open_channel draw msg w (ok dc, s) =
      let w' = adopt_channel draw msg.handle dc (record w { pion = s }) in
      (
        ack_response "pc:createDc" msg.id msg.handle (
            some (
              field "dc_handle" (str draw.uuid) (
                field "label" (str (env.pion.label dc w'.pion))
                  (field "state" (str "connecting") end)))),
        w',
      )

  unfoldable pub handle_pc_create_dc : Draw → Message → World S Api → Message × World S Api
  handle_pc_create_dc draw msg w =
      let label = string_or_empty (at msg.fields "label") in
      let init = data_channel_init (options_of (as_map (at msg.fields "options"))) in
      or_return env (lookup_pc env draw msg w) (λ pc w.
        if label == ""
        then (invalid env msg "missing label", w)
        else open_channel draw msg w (env.pion.create_data_channel pc label init w.pion))

  abbrev pub sent_by : Message → List ℕ → String → Bool → Bool → DcSendWork
  sent_by msg bytes text is_text await_drain = record {
    bytes = bytes;
    text = text;
    is_text = is_text;
    msg_id = msg.id;
    handle = msg.handle;
    await_drain = await_drain;
    send_event = some env.session;
  }

  unfoldable pub work_of : Message → Value → Option DcSendWork
  work_of msg (bin payload) =
      some (sent_by msg payload "" false (or_true (as_bool (at msg.fields "await_drain"))))
  work_of msg (str payload) = some (sent_by msg [] payload true false)
  work_of msg v = none

  -- The slot is drawn where tracing is on.
  unfoldable pub trace_depth : String → PionTrace → PionTrace
  trace_depth handle t = if t.enabled then (dc_idx t handle).1 else t

  unfoldable pub hand_over :
      Message → World S Api → Option ℕ → Option DcSendWork → Message × World S Api
  hand_over msg w none work = (
    error_response msg.id "NOT_FOUND" ("dc:send on unknown handle: " +++ msg.handle) false
        msg.handle,
    w,
  )
  hand_over msg w (some state) none = (invalid env msg "data must be string or binary", w)
  hand_over msg w (some state) (some work) = (
    blank,
    record w { trace = trace_depth msg.handle w.trace; work = w.work ++ (state, work) ∷ [] },
  )

  -- Up to the select on the queue of the channel, which is `issue` of DcSend.
  unfoldable pub handle_dc_send : Message → World S Api → Message × World S Api
  handle_dc_send msg w =
      hand_over msg w (lookup_dc_send_state msg.handle w.registry)
        (work_of msg (at msg.fields "data"))

  abbrev state_thresholds : Option ℕ → ℕ → List DcSendState → List DcSendState
  state_thresholds none threshold states = states
  state_thresholds (some state) threshold states = set_state_threshold state threshold states

  unfoldable pub handle_dc_set_buffered_amount_low_threshold :
      Draw → Message → World S Api → Message × World S Api
  handle_dc_set_buffered_amount_low_threshold draw msg w =
      let value = to_uint64 env.floats (at msg.fields "threshold") in
      or_return env (lookup_dc env draw msg w) (λ dc w. elim value [
        | none ↦ (invalid env msg "missing or invalid threshold", w)
        | some threshold ↦ (
          ack_response "dc:setBufferedAmountLowThreshold" msg.id msg.handle (some end),
          record w {
            pion = env.pion.set_buffered_amount_low_threshold dc threshold w.pion;
            send_states =
                state_thresholds (lookup_dc_send_state msg.handle w.registry) threshold
                  w.send_states;
          },
        )
      ])

  unfoldable pub handle_dc_close : Draw → Message → World S Api → Message × World S Api
  handle_dc_close draw msg w = or_return env (lookup_dc env draw msg w) (λ dc w.
      let w' = stop_dc_send_goroutine env msg.handle w in
      answer_with env (λ s. ack_response "dc:close" msg.id msg.handle (some end)) msg w'
        (env.pion.close (data_channel dc) w'.pion))

  -- `closeCollected`; the errors of `Close` are logged only.
  unfoldable pub close_all : List Resource → S → S
  close_all [] s = s
  close_all (res ∷ rest) s = close_all rest (env.pion.close res s).1

  unfoldable pub close_collected : Collected → World S Api → World S Api
  close_collected c w = record w {
    registry = c.registry;
    trace = c.trace;
    closed_states = w.closed_states ++ c.states;
    pion = close_all c.closers w.pion;
  }

  -- `out_of_fuel` stands for a `Delete` that does not end.
  unfoldable pub finish_delete : Message → World S Api → Deleted → Message × World S Api
  finish_delete msg w not_found =
      (error_response msg.id "NOT_FOUND" ("handle not found: " +++ msg.handle) false msg.handle, w)
  finish_delete msg w out_of_fuel = (blank, w)
  finish_delete msg w (gone c) =
      (ack_response "resource:delete" msg.id msg.handle (some end), close_collected c w)

  unfoldable pub handle_resource_delete : Draw → Message → World S Api → Message × World S Api
  handle_resource_delete draw msg w =
      let found = lookup draw.now msg.handle w.registry in
      let w' = record w {
        registry = found.1;
        handler = forget_pc_profile env msg.handle w.handler;
      } in
      let done = finish_delete msg w' (delete_handle w'.trace msg.handle w'.registry) in
      let out =
        if is_peer_connection found.0
        then (done.0, notify_pc_closed env msg.handle done.1)
        else done in
      if msg.handle == "" then (invalid env msg "missing handle", w) else out
