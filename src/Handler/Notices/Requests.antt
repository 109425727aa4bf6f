-- ===== src/Handler/Notices/Requests.antt =====
-- What the requests of go/internal/pionserver/handler.go do to the record of the closed notifications: they report a
-- closed connection through `notifyPCClosed`, and touch the record in no other way.
use flutter_pion_bridge.Prelude.{
  ℕ, ◌≡◌, refl, subst, length, String, ◌==◌, Option, none, some, List, arith, Bool-cases,
  Option-cases, inl, inr, ◌=ℕ◌,
}
use flutter_pion_bridge.Types.{Fields, Message, at}
use flutter_pion_bridge.Convert.{to_uint64}
use flutter_pion_bridge.Result.{Result, failed, ok}
use flutter_pion_bridge.DcSend.{DcSendWork}
use flutter_pion_bridge.Registry.{
  register_dc_send_state, Deleted, not_found, out_of_fuel, gone, lookup, Registry, touch,
}
use flutter_pion_bridge.Pion.{SessionDescription}
use flutter_pion_bridge.Handler.{
  Draw, Env, World, ApiProfile, ProfileError, notify_pc_closed, start_dc_send_goroutine, start_with,
  stop_dc_send_goroutine,
}
use flutter_pion_bridge.Handler.Create.{
  handle_init, handle_pc_create, configure, finish_init, create_with, open_connection,
}
use flutter_pion_bridge.Handler.Negotiate.{
  handle_pc_offer, handle_pc_answer, set_description, handle_pc_set_local_desc,
  handle_pc_set_remote_desc, handle_pc_add_ice, handle_pc_close, handle_pc_add_transceiver,
}
use flutter_pion_bridge.Handler.Channels.{
  adopt_channel, open_channel, handle_pc_create_dc, hand_over, handle_dc_send,
  handle_dc_set_buffered_amount_low_threshold, handle_dc_close, close_collected, finish_delete,
  handle_resource_delete, is_peer_connection,
}
use flutter_pion_bridge.Handler.Dispatch.{
  Request, init, pc_create, pc_offer, pc_answer, pc_set_local_desc, pc_set_remote_desc, pc_add_ice,
  pc_close, pc_add_transceiver, pc_create_dc, dc_send, dc_set_threshold, dc_close, resource_delete,
  unknown, route, handle, handle_message, answer_queued, recover_frame, answer_touched,
  process_frame,
}
use flutter_pion_bridge.Handler.Notices.Answers.{
  Noted, moved, guarded, with_pc, with_dc, answer_sdp-Noted, answer_with-Noted,
}

-- `Holds` is kept by a notification.
module _ {S Api : Type 0} (env : Env S Api) (Holds : List String → List String → Type 0)
    (kept : (h : String) (w : World S Api)
      → Noted Holds w
      → Noted Holds (notify_pc_closed env h w)) where
  finish_init-Noted :
      (msg : Message) (se me : Option Fields) (w : World S Api)
      (r : Result ProfileError (ApiProfile Api))
      → Noted Holds w
      → Noted Holds (finish_init env msg se me w r).1
  unfolding Noted finish_init
  finish_init-Noted msg se me w (failed x) v = v
  finish_init-Noted msg se me w (ok p) v = v

  open_connection-Noted :
      (draw : Draw) (msg : Message) (p : ApiProfile Api) (w : World S Api)
      (out : Result String ℕ × S)
      → Noted Holds w
      → Noted Holds (open_connection env draw msg p w out).1
  unfolding Noted open_connection
  open_connection-Noted draw msg p w (failed x, s) v = v
  open_connection-Noted draw msg p w (ok pc, s) v = v

  create_with-Noted :
      (draw : Draw) (msg : Message) (w : World S Api) (r : Result ProfileError (ApiProfile Api))
      → Noted Holds w
      → Noted Holds (create_with env draw msg w r).1
  unfolding create_with
  create_with-Noted draw msg w (failed x) v = v
  create_with-Noted draw msg w (ok p) v = open_connection-Noted draw msg p w _ v

  set_description-Noted :
      (type : String) (set : ℕ → SessionDescription → S → Option String × S) (draw : Draw)
      (msg : Message) (w : World S Api)
      → Noted Holds w
      → Noted Holds (set_description env type set draw msg w).1
  unfolding set_description
  set_description-Noted type set draw msg w v =
      with_pc env Holds kept draw msg w _ v
        (λ pc u s. guarded env Holds kept _ _ u _ s (answer_with-Noted env Holds kept _ msg u _ s))

  start_with-Noted :
      (o : Option String) (dc : ℕ) (dc_handle : String) (profile : ApiProfile Api) (w : World S Api)
      → Noted Holds w
      → Noted Holds (start_with env o dc dc_handle profile w)
  unfolding start_with
  start_with-Noted (some text) dc dc_handle profile w v = moved env Holds kept w _ v refl refl
  start_with-Noted none dc dc_handle profile w v =
      elim (Bool-cases (register_dc_send_state dc_handle (length w.send_states) w.registry).0) [
        | inl e ↦ rw e (moved env Holds kept w _ v refl refl)
        | inr e ↦ rw e v
      ]

  pub adopt_channel-Noted :
      (draw : Draw) (parent : String) (dc : ℕ) (w : World S Api)
      → Noted Holds w
      → Noted Holds (adopt_channel env draw parent dc w)
  unfolding adopt_channel start_dc_send_goroutine
  adopt_channel-Noted draw parent dc w v =
      start_with-Noted _ dc draw.uuid _ _ (moved env Holds kept w _ v refl refl)

  open_channel-Noted :
      (draw : Draw) (msg : Message) (w : World S Api) (out : Result String ℕ × S)
      → Noted Holds w
      → Noted Holds (open_channel env draw msg w out).1
  unfolding open_channel
  open_channel-Noted draw msg w (failed x, s) v = moved env Holds kept w _ v refl refl
  open_channel-Noted draw msg w (ok dc, s) v =
      adopt_channel-Noted draw msg.handle dc _ (moved env Holds kept w _ v refl refl)

  hand_over-Noted :
      (msg : Message) (w : World S Api) (o : Option ℕ) (work : Option DcSendWork)
      → Noted Holds w
      → Noted Holds (hand_over env msg w o work).1
  unfolding Noted hand_over
  hand_over-Noted msg w none work v = v
  hand_over-Noted msg w (some s) none v = v
  hand_over-Noted msg w (some s) (some work) v = v

  handle_dc_set-Noted :
      (draw : Draw) (msg : Message) (w : World S Api)
      → Noted Holds w
      → Noted Holds (handle_dc_set_buffered_amount_low_threshold env draw msg w).1
  unfolding handle_dc_set_buffered_amount_low_threshold
  handle_dc_set-Noted draw msg w v = with_dc env Holds kept draw msg w _ v (λ dc u s.
      elim (Option-cases (to_uint64 env.floats (at msg.fields "threshold"))) [
        | inl q ↦ rw q s
        | inr (t, q) ↦ rw q (moved env Holds kept u _ s refl refl)
      ])

  finish_delete-Noted :
      (msg : Message) (w : World S Api) (d : Deleted)
      → Noted Holds w
      → Noted Holds (finish_delete env msg w d).1
  unfolding Noted finish_delete close_collected
  finish_delete-Noted msg w not_found v = v
  finish_delete-Noted msg w out_of_fuel v = v
  finish_delete-Noted msg w (gone c) v = v

  handle_resource_delete-Noted :
      (draw : Draw) (msg : Message) (w : World S Api)
      → Noted Holds w
      → Noted Holds (handle_resource_delete env draw msg w).1
  unfolding handle_resource_delete
  handle_resource_delete-Noted draw msg w v =
      guarded env Holds kept (msg.handle == "") _ w _ v
        (elim (Bool-cases (is_peer_connection (lookup draw.now msg.handle w.registry).0)) [
          | inl q ↦ rw q (
              kept msg.handle _
                (finish_delete-Noted msg _ _ (moved env Holds kept w _ v refl refl)))
          | inr q ↦ rw q (finish_delete-Noted msg _ _ (moved env Holds kept w _ v refl refl))
        ])

  handle_pc_add_transceiver-Noted :
      (draw : Draw) (msg : Message) (w : World S Api)
      → Noted Holds w
      → Noted Holds (handle_pc_add_transceiver env draw msg w).1
  unfolding handle_pc_add_transceiver
  handle_pc_add_transceiver-Noted draw msg w v = with_pc env Holds kept draw msg w _ v (λ pc u s.
      guarded env Holds kept (kind =ℕ 0) _ u _ s (
        guarded env Holds kept (direction =ℕ 0) _ u _ s (
          answer_with-Noted env Holds kept _ msg u
            (env.pion.add_transceiver_from_kind pc kind direction u.pion) s)))
    where
      kind : ℕ
      kind = env.pion.new_rtp_codec_type (env.sprint (at msg.fields "kind"))

      direction : ℕ
      direction = env.pion.new_rtp_transceiver_direction (env.sprint (at msg.fields "direction"))

  handle-Noted :
      (q : Request) (draw : Draw) (msg : Message) (w : World S Api)
      → Noted Holds w
      → Noted Holds (handle env q draw msg w).1
  unfolding handle handle_init configure handle_pc_create handle_pc_offer handle_pc_answer
      handle_pc_set_local_desc handle_pc_set_remote_desc handle_pc_add_ice handle_pc_close
      handle_pc_create_dc handle_dc_send handle_dc_close stop_dc_send_goroutine
  handle-Noted init draw msg w v =
      finish_init-Noted msg _ _ _ _ (moved env Holds kept w _ v refl refl)
  handle-Noted pc_create draw msg w v =
      create_with-Noted draw msg _ _ (moved env Holds kept w _ v refl refl)
  handle-Noted pc_offer draw msg w v =
      with_pc env Holds kept draw msg w _ v
        (λ pc u s. answer_sdp-Noted env Holds kept "pc:offer" msg u _ s)
  handle-Noted pc_answer draw msg w v =
      with_pc env Holds kept draw msg w _ v
        (λ pc u s. answer_sdp-Noted env Holds kept "pc:answer" msg u _ s)
  handle-Noted pc_set_local_desc draw msg w v = set_description-Noted _ _ draw msg w v
  handle-Noted pc_set_remote_desc draw msg w v = set_description-Noted _ _ draw msg w v
  handle-Noted pc_add_ice draw msg w v =
      with_pc env Holds kept draw msg w _ v
        (λ pc u s. guarded env Holds kept _ _ u _ s (answer_with-Noted env Holds kept _ msg u _ s))
  handle-Noted pc_close draw msg w v = with_pc env Holds kept draw msg w _ v (λ pc u s.
      kept msg.handle _
        (answer_with-Noted env Holds kept _ msg _ _ (moved env Holds kept u _ s refl refl)))
  handle-Noted pc_add_transceiver draw msg w v = handle_pc_add_transceiver-Noted draw msg w v
  handle-Noted pc_create_dc draw msg w v =
      with_pc env Holds kept draw msg w _ v
        (λ pc u s. guarded env Holds kept _ _ u _ s (open_channel-Noted draw msg u _ s))
  handle-Noted dc_send draw msg w v = hand_over-Noted msg w _ _ v
  handle-Noted dc_set_threshold draw msg w v = handle_dc_set-Noted draw msg w v
  handle-Noted dc_close draw msg w v =
      with_dc env Holds kept draw msg w _ v (λ dc u s.
        answer_with-Noted env Holds kept _ msg _ _ (moved env Holds kept u _ s refl refl))
  handle-Noted resource_delete draw msg w v = handle_resource_delete-Noted draw msg w v
  handle-Noted unknown draw msg w v = v

  recover_frame-Noted :
      (o : Option String) (out : Message × World S Api)
      → Noted Holds out.1
      → Noted Holds (recover_frame env o out).1
  unfolding recover_frame
  recover_frame-Noted none out v = v
  recover_frame-Noted (some text) out v = moved env Holds kept out.1 _ v refl refl

  answer_queued-Noted :
      (draw : Draw) (msg : Message) (w : World S Api) (out : List Message × World S Api)
      → answer_queued env draw msg w ≡ some out
      → Noted Holds w
      → Noted Holds out.1
  unfolding answer_queued handle_message
  answer_queued-Noted draw msg w out e v =
      let done = handle env (route msg.type) draw msg (record w { panicked = none }) in
      let same : (recover_frame env done.1.panicked done).1 ≡ out.1 = ground arith in
      subst (Noted Holds) same (
        recover_frame-Noted done.1.panicked done
          (handle-Noted (route msg.type) draw msg _ (moved env Holds kept w _ v refl refl)))

  answer_touched-Noted :
      (draw : Draw) (msg : Message) (w : World S Api) (r : Option Registry)
      (out : List Message × World S Api)
      → answer_touched env draw msg w r ≡ some out
      → Noted Holds w
      → Noted Holds out.1
  unfolding answer_touched
  answer_touched-Noted draw msg w none out e v = absurd (ground arith)
  answer_touched-Noted draw msg w (some r) out e v =
      answer_queued-Noted draw msg _ out e (moved env Holds kept w _ v refl refl)

  pub process_frame-Noted :
      (draw : Draw) (decoded : Result String Message) (w : World S Api)
      (out : List Message × World S Api)
      → process_frame env draw decoded w ≡ some out
      → Noted Holds w
      → Noted Holds out.1
  unfolding process_frame
  process_frame-Noted draw (failed x) w out e v =
      let same : w ≡ out.1 = ground arith in subst (Noted Holds) same v
  process_frame-Noted draw (ok msg) w out e v = elim (Bool-cases (msg.handle == "")) [
    | inl q ↦ answer_queued-Noted draw msg w out (ground (arith, q, e)) v
    | inr q ↦
        answer_touched-Noted draw msg w (touch draw.now msg.handle w.registry) out
          (ground (arith, q, e)) v
  ]
