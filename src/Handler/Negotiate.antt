-- ===== src/Handler/Negotiate.antt =====
-- The requests on a PeerConnection of go/internal/pionserver/handler.go, but for `pc:createDc`.
use flutter_pion_bridge.Prelude.{
  ℕ, ℤ, pos, negsuc, zero, suc, String, ◌==◌, ◌||◌, Option, none, some, if◌then◌else◌, ◌=ℕ◌,
}
use flutter_pion_bridge.Types.{
  int, str, field, end, at, as_string, string_or_empty, Message, ack_response,
}
use flutter_pion_bridge.Convert.{to_uint16}
use flutter_pion_bridge.Result.{Result, failed, ok}
use flutter_pion_bridge.Registry.{peer_connection}
use flutter_pion_bridge.Pion.{
  SdpType, sdp_type_offer, sdp_type_pranswer, sdp_type_answer, sdp_type_rollback,
  SessionDescription, IceCandidateInit,
}
use flutter_pion_bridge.Handler.{
  Draw, Env, World, invalid, internal, lookup_pc, or_return, notify_pc_closed, forget_pc_profile,
}

unfoldable pub parse_sdp_type : String → SdpType
parse_sdp_type t =
    if t == "offer"
    then sdp_type_offer
    else if t == "pranswer"
    then sdp_type_pranswer
    else if t == "answer"
    then sdp_type_answer
    else if t == "rollback"
    then sdp_type_rollback
    else sdp_type_offer

-- `n - 1`
abbrev pub last_index : ℕ → ℤ
last_index zero = negsuc 0
last_index (suc n) = pos n

module _ {S Api : Type 0} (env : Env S Api) where
  -- The end of a handler whose pion call returned a description, or only an error.
  unfoldable pub answer_sdp :
      String → Message → World S Api → Result String String × S → Message × World S Api
  answer_sdp type msg w (failed e, s) = (internal env msg e, record w { pion = s })
  answer_sdp type msg w (ok sdp, s) = (
    ack_response type msg.id msg.handle (some (field "sdp" (str sdp) end)),
    record w { pion = s },
  )

  unfoldable pub answer_with :
      (S → Message) → Message → World S Api → Option String × S → Message × World S Api
  answer_with ack msg w (some e, s) = (internal env msg e, record w { pion = s })
  answer_with ack msg w (none, s) = (ack s, record w { pion = s })

  unfoldable pub handle_pc_offer : Draw → Message → World S Api → Message × World S Api
  handle_pc_offer draw msg w =
      or_return env (lookup_pc env draw msg w)
        (λ pc w. answer_sdp "pc:offer" msg w (env.pion.create_offer pc w.pion))

  unfoldable pub handle_pc_answer : Draw → Message → World S Api → Message × World S Api
  handle_pc_answer draw msg w =
      or_return env (lookup_pc env draw msg w)
        (λ pc w. answer_sdp "pc:answer" msg w (env.pion.create_answer pc w.pion))

  abbrev state_ack : String → Message → ℕ → S → Message
  state_ack type msg pc s =
      ack_response type msg.id msg.handle
        (some (field "state" (str (env.pion.signaling_state pc s)) end))

  -- The shared body of `handlePCSetLocalDesc` and `handlePCSetRemoteDesc`.
  unfoldable pub set_description :
      String
      → (ℕ → SessionDescription → S → Option String × S)
      → Draw
      → Message
      → World S Api
      → Message × World S Api
  set_description type set draw msg w =
      let sdp = string_or_empty (at msg.fields "sdp") in
      let sdp_type = string_or_empty (at msg.fields "type") in
      or_return env (lookup_pc env draw msg w) (λ pc w.
        if sdp == "" || sdp_type == ""
        then (invalid env msg "missing sdp or type", w)
        else answer_with (state_ack type msg pc) msg w
            (set pc (record { sdp = sdp; type = parse_sdp_type sdp_type }) w.pion))

  unfoldable pub handle_pc_set_local_desc : Draw → Message → World S Api → Message × World S Api
  handle_pc_set_local_desc = set_description "pc:setLocalDesc" env.pion.set_local_description

  unfoldable pub handle_pc_set_remote_desc : Draw → Message → World S Api → Message × World S Api
  handle_pc_set_remote_desc = set_description "pc:setRemoteDesc" env.pion.set_remote_description

  unfoldable pub handle_pc_add_ice : Draw → Message → World S Api → Message × World S Api
  handle_pc_add_ice draw msg w =
      let candidate = string_or_empty (at msg.fields "candidate") in
      let init : IceCandidateInit = record {
        candidate = candidate;
        sdp_mid = as_string (at msg.fields "sdp_mid");
        sdp_mline_index = to_uint16 env.floats (at msg.fields "sdp_mline_index");
      } in
      or_return env (lookup_pc env draw msg w) (λ pc w.
        if candidate == ""
        then (invalid env msg "missing candidate", w)
        else answer_with (λ s. ack_response "pc:addIce" msg.id msg.handle (some end)) msg w
            (env.pion.add_ice_candidate pc init w.pion))

  -- The deferred notification runs last.
  unfoldable pub handle_pc_close : Draw → Message → World S Api → Message × World S Api
  handle_pc_close draw msg w = or_return env (lookup_pc env draw msg w) (λ pc w.
      let w' = record w { handler = forget_pc_profile env msg.handle w.handler } in
      let done =
        answer_with (λ s. ack_response "pc:close" msg.id msg.handle (some end)) msg w'
          (env.pion.close (peer_connection pc) w.pion) in
      (done.0, notify_pc_closed env msg.handle done.1))

  unfoldable pub handle_pc_add_transceiver : Draw → Message → World S Api → Message × World S Api
  handle_pc_add_transceiver draw msg w =
      let kind = env.pion.new_rtp_codec_type (env.sprint (at msg.fields "kind")) in
      let direction =
        env.pion.new_rtp_transceiver_direction (env.sprint (at msg.fields "direction")) in
      or_return env (lookup_pc env draw msg w) (λ pc w.
        if kind =ℕ 0
        then (invalid env msg "kind must be video or audio", w)
        else if direction =ℕ 0
        then (invalid env msg "direction must be sendrecv, sendonly, recvonly or inactive", w)
        else answer_with
            (λ s.
              ack_response "pc:addTransceiver" msg.id msg.handle
                (some (field "index" (int (last_index (env.pion.transceivers pc s))) end)))
            msg w (env.pion.add_transceiver_from_kind pc kind direction w.pion))
