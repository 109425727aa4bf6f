-- ===== src/Handler/Consistency.antt =====
-- Every request of go/internal/pionserver/handler.go keeps the registry in order.
use flutter_pion_bridge.Prelude.{
  ℕ, ◌≡◌, refl, ◌∙◌, String, Bool, true, false, Option, some, if◌then◌else◌, ◌=ℕ◌,
}
use flutter_pion_bridge.Types.{Fields, Message, at, ack_response, end, field, int}
use flutter_pion_bridge.Result.{Result, failed, ok}
use flutter_pion_bridge.Registry.Reachable.{IsFresh}
use flutter_pion_bridge.Handler.{
  Draw, Env, World, ApiProfile, ProfileError, lookup_pc, or_return, invalid,
}
use flutter_pion_bridge.Handler.Create.{
  handle_init, handle_pc_create, configure, finish_init, create_with, open_connection,
}
use flutter_pion_bridge.Handler.Negotiate.{
  last_index, handle_pc_offer, handle_pc_answer, set_description, handle_pc_set_local_desc,
  handle_pc_set_remote_desc, handle_pc_add_ice, handle_pc_close, handle_pc_add_transceiver,
}
use flutter_pion_bridge.Handler.Channels.{handle_dc_send}
use flutter_pion_bridge.Handler.Dispatch.{
  Request, init, pc_create, pc_offer, pc_answer, pc_set_local_desc, pc_set_remote_desc, pc_add_ice,
  pc_close, pc_add_transceiver, pc_create_dc, dc_send, dc_set_threshold, dc_close, resource_delete,
  unknown, route, handle, handle_message,
}
use flutter_pion_bridge.Pion.{SessionDescription}
use flutter_pion_bridge.Handler.Serving.{IsServed, register-IsServed}
use flutter_pion_bridge.Handler.Kept.{
  Serves, answer_sdp-registry, answer_with-registry, notify-registry, with_pc, as_before,
}
use flutter_pion_bridge.Handler.Kept.Channels.{
  handle_pc_create_dc-Serves, hand_over-Serves, handle_dc_set-Serves, handle_dc_close-Serves,
  handle_resource_delete-Serves,
}

module _ {S Api : Type 0} (env : Env S Api) where
  finish_init-Serves :
      (msg : Message) (se me : Option Fields) (w : World S Api)
      (r : Result ProfileError (ApiProfile Api))
      → IsServed w.registry
      → Serves env (finish_init env msg se me w r)
  unfolding finish_init
  finish_init-Serves msg se me w (failed x) v = v
  finish_init-Serves msg se me w (ok p) v = v

  handle_init-Serves :
      (msg : Message) (w : World S Api) → IsServed w.registry → Serves env (handle_init env msg w)
  unfolding handle_init configure
  handle_init-Serves msg w v = finish_init-Serves msg _ _ (configure env msg.fields w) _ v

  open_connection-Serves :
      (draw : Draw) (msg : Message) (p : ApiProfile Api) (w : World S Api)
      (out : Result String ℕ × S)
      → IsServed w.registry
      → IsFresh w.registry draw.uuid
      → Serves env (open_connection env draw msg p w out)
  unfolding open_connection
  open_connection-Serves draw msg p w (failed x, s) v fresh = v
  open_connection-Serves draw msg p w (ok pc, s) v fresh =
      register-IsServed draw.now draw.uuid pc w.registry fresh v

  create_with-Serves :
      (draw : Draw) (msg : Message) (w : World S Api) (r : Result ProfileError (ApiProfile Api))
      → IsServed w.registry
      → IsFresh w.registry draw.uuid
      → Serves env (create_with env draw msg w r)
  unfolding create_with
  create_with-Serves draw msg w (failed x) v fresh = v
  create_with-Serves draw msg w (ok p) v fresh = open_connection-Serves draw msg p w _ v fresh

  -- The requests that only ask pion.
  asks :
      (draw : Draw) (msg : Message) (w : World S Api) (k : ℕ → World S Api → Message × World S Api)
      → IsServed w.registry
      → ((pc : ℕ) (v : World S Api) → (k pc v).1.registry ≡ v.registry)
      → Serves env (or_return env (lookup_pc env draw msg w) k)
  asks draw msg w k v h = with_pc env draw msg w k v (λ pc u e s here. as_before env (h pc u) s)

  guarded_same :
      (b : Bool) (m : Message) (w : World S Api) (out : Message × World S Api)
      → out.1.registry ≡ w.registry
      → (if b then (m, w) else out).1.registry ≡ w.registry
  guarded_same true m w out h = refl
  guarded_same false m w out h = h

  handle_pc_close-Serves :
      (draw : Draw) (msg : Message) (w : World S Api)
      → IsServed w.registry
      → Serves env (handle_pc_close env draw msg w)
  unfolding handle_pc_close
  handle_pc_close-Serves draw msg w v = asks draw msg w _ v (λ pc u.
      notify-registry env msg.handle _
      ∙ answer_with-registry env (λ s. ack_response "pc:close" msg.id msg.handle (some end)) msg _
          _)

  set_description-Serves :
      (type : String) (set : ℕ → SessionDescription → S → Option String × S) (draw : Draw)
      (msg : Message) (w : World S Api)
      → IsServed w.registry
      → Serves env (set_description env type set draw msg w)
  unfolding set_description
  set_description-Serves type set draw msg w v =
      asks draw msg w _ v (λ pc u. guarded_same _ _ u _ (answer_with-registry env _ msg u _))

  handle_pc_add_transceiver-Serves :
      (draw : Draw) (msg : Message) (w : World S Api)
      → IsServed w.registry
      → Serves env (handle_pc_add_transceiver env draw msg w)
  unfolding handle_pc_add_transceiver
  handle_pc_add_transceiver-Serves draw msg w v = asks draw msg w _ v (λ pc u.
      guarded_same (kind =ℕ 0) (invalid env msg "kind must be video or audio") u _ (
        guarded_same (direction =ℕ 0)
          (invalid env msg "direction must be sendrecv, sendonly, recvonly or inactive") u _
          (answer_with-registry env
            (λ s.
              ack_response "pc:addTransceiver" msg.id msg.handle
                (some (field "index" (int (last_index (env.pion.transceivers pc s))) end)))
            msg u (env.pion.add_transceiver_from_kind pc kind direction u.pion))))
    where
      kind : ℕ
      kind = env.pion.new_rtp_codec_type (env.sprint (at msg.fields "kind"))

      direction : ℕ
      direction = env.pion.new_rtp_transceiver_direction (env.sprint (at msg.fields "direction"))

  handle-Serves :
      (q : Request) (draw : Draw) (msg : Message) (w : World S Api)
      → IsFresh w.registry draw.uuid
      → IsServed w.registry
      → Serves env (handle env q draw msg w)
  unfolding handle handle_pc_create handle_pc_offer handle_pc_answer handle_pc_set_local_desc
      handle_pc_set_remote_desc handle_pc_add_ice handle_dc_send
  handle-Serves init draw msg w fresh v = handle_init-Serves msg w v
  handle-Serves pc_create draw msg w fresh v = create_with-Serves draw msg _ _ v fresh
  handle-Serves pc_offer draw msg w fresh v =
      asks draw msg w _ v (λ pc u. answer_sdp-registry env "pc:offer" msg u _)
  handle-Serves pc_answer draw msg w fresh v =
      asks draw msg w _ v (λ pc u. answer_sdp-registry env "pc:answer" msg u _)
  handle-Serves pc_set_local_desc draw msg w fresh v = set_description-Serves _ _ draw msg w v
  handle-Serves pc_set_remote_desc draw msg w fresh v = set_description-Serves _ _ draw msg w v
  handle-Serves pc_add_ice draw msg w fresh v =
      asks draw msg w _ v (λ pc u. guarded_same _ _ u _ (answer_with-registry env _ msg u _))
  handle-Serves pc_close draw msg w fresh v = handle_pc_close-Serves draw msg w v
  handle-Serves pc_add_transceiver draw msg w fresh v =
      handle_pc_add_transceiver-Serves draw msg w v
  handle-Serves pc_create_dc draw msg w fresh v = handle_pc_create_dc-Serves env draw msg w fresh v
  handle-Serves dc_send draw msg w fresh v = hand_over-Serves env msg w _ _ v
  handle-Serves dc_set_threshold draw msg w fresh v = handle_dc_set-Serves env draw msg w v
  handle-Serves dc_close draw msg w fresh v = handle_dc_close-Serves env draw msg w v
  handle-Serves resource_delete draw msg w fresh v = handle_resource_delete-Serves env draw msg w v
  handle-Serves unknown draw msg w fresh v = v

  -- Where the registry is one that its operations reach and every child in it is a DataChannel, both still
  -- hold after any message, whatever pion does, if the registry does not have the UUID that is drawn.
  pub handle_message-IsServed :
      (draw : Draw) (msg : Message) (w : World S Api)
      → IsFresh w.registry draw.uuid
      → IsServed w.registry
      → IsServed (handle_message env draw msg w).1.registry
  unfolding handle_message
  handle_message-IsServed draw msg w fresh v = handle-Serves (route msg.type) draw msg w fresh v
