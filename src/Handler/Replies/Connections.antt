-- ===== src/Handler/Replies/Connections.antt =====
-- What the requests of handler.go that set up and negotiate a PeerConnection are answered with.
use flutter_pion_bridge.Prelude.{ap, ℕ, ◌≡◌, refl, String, false, Option, some, inl, inr}
use flutter_pion_bridge.Types.{Fields, Message, error_response, ack_response, field, str, end}
use flutter_pion_bridge.Result.{Result, failed, ok}
use flutter_pion_bridge.Handler.{Draw, Env, World, ApiProfile, ProfileError}
use flutter_pion_bridge.Handler.Create.{
  handle_init, handle_pc_create, configure, open_connection, finish_init, create_with,
}
use flutter_pion_bridge.Handler.Negotiate.{
  handle_pc_offer, handle_pc_answer, set_description, handle_pc_set_local_desc,
  handle_pc_set_remote_desc, handle_pc_add_ice,
}
use flutter_pion_bridge.Handler.Replies.{
  mark, Replied, error-Replied, ack-Replied, with_pc, answer_sdp-Replied, answer_with-Replied,
  guard-Replied,
}

module _ {S Api : Type 0} (env : Env S Api) where
  finish_init-Replied :
      (msg : Message) (se me : Option Fields) (w v : World S Api)
      (r : Result ProfileError (ApiProfile Api))
      → mark v ≡ mark w
      → Replied env "init" msg w (finish_init env msg se me v r)
  unfolding finish_init
  finish_init-Replied msg se me w v (failed x) e = error-Replied env "init" msg w v _ _ "" false e
  finish_init-Replied msg se me w v (ok p) e =
      ack-Replied env "init" msg w
        (record v {
          handler = record v.handler { default_profile = p; default_se = se; default_me = me };
        })
        _ "" e

  pub handle_init-Replied :
      (msg : Message) (w : World S Api) → Replied env "init" msg w (handle_init env msg w)
  unfolding handle_init configure
  handle_init-Replied msg w = finish_init-Replied msg _ _ w (configure env msg.fields w) _ refl

  open_connection-Replied :
      (draw : Draw) (msg : Message) (p : ApiProfile Api) (w v : World S Api)
      (out : Result String ℕ × S)
      → mark v ≡ mark w
      → Replied env "pc:create" msg w (open_connection env draw msg p v out)
  unfolding open_connection error_response ack_response
  open_connection-Replied draw msg p w v (failed x, s) e = record {
    id = refl;
    type_of = inr refl;
    work = ap (λ m. m.0) e;
    calm = inl (ap (λ m. m.1) e);
  }
  open_connection-Replied draw msg p w v (ok pc, s) e = record {
    id = refl;
    type_of = inl refl;
    work = ap (λ m. m.0) e;
    calm = inl (ap (λ m. m.1) e);
  }

  create_with-Replied :
      (draw : Draw) (msg : Message) (w v : World S Api) (r : Result ProfileError (ApiProfile Api))
      → mark v ≡ mark w
      → Replied env "pc:create" msg w (create_with env draw msg v r)
  unfolding create_with
  create_with-Replied draw msg w v (failed x) e =
      error-Replied env "pc:create" msg w v _ _ "" false e
  create_with-Replied draw msg w v (ok p) e = open_connection-Replied draw msg p w v _ e

  pub handle_pc_create-Replied :
      (draw : Draw) (msg : Message) (w : World S Api)
      → Replied env "pc:create" msg w (handle_pc_create env draw msg w)
  unfolding handle_pc_create
  handle_pc_create-Replied draw msg w = create_with-Replied draw msg w _ _ refl

  pub handle_pc_offer-Replied :
      (draw : Draw) (msg : Message) (w : World S Api)
      → Replied env "pc:offer" msg w (handle_pc_offer env draw msg w)
  unfolding handle_pc_offer
  handle_pc_offer-Replied draw msg w =
      with_pc env "pc:offer" draw msg w _
        (λ pc v e h. answer_sdp-Replied env "pc:offer" msg w v (env.pion.create_offer pc v.pion) e)

  pub handle_pc_answer-Replied :
      (draw : Draw) (msg : Message) (w : World S Api)
      → Replied env "pc:answer" msg w (handle_pc_answer env draw msg w)
  unfolding handle_pc_answer
  handle_pc_answer-Replied draw msg w =
      with_pc env "pc:answer" draw msg w _ (λ pc v e h.
        answer_sdp-Replied env "pc:answer" msg w v (env.pion.create_answer pc v.pion) e)

  pub handle_pc_set_local_desc-Replied :
      (draw : Draw) (msg : Message) (w : World S Api)
      → Replied env "pc:setLocalDesc" msg w (handle_pc_set_local_desc env draw msg w)
  unfolding handle_pc_set_local_desc set_description
  handle_pc_set_local_desc-Replied draw msg w =
      with_pc env "pc:setLocalDesc" draw msg w _ (λ pc v e h.
        guard-Replied env "pc:setLocalDesc" _ msg w v _ _ e (
          answer_with-Replied env "pc:setLocalDesc"
            (λ s. some (field "state" (str (env.pion.signaling_state pc s)) end)) msg w v _ e))

  pub handle_pc_set_remote_desc-Replied :
      (draw : Draw) (msg : Message) (w : World S Api)
      → Replied env "pc:setRemoteDesc" msg w (handle_pc_set_remote_desc env draw msg w)
  unfolding handle_pc_set_remote_desc set_description
  handle_pc_set_remote_desc-Replied draw msg w =
      with_pc env "pc:setRemoteDesc" draw msg w _ (λ pc v e h.
        guard-Replied env "pc:setRemoteDesc" _ msg w v _ _ e (
          answer_with-Replied env "pc:setRemoteDesc"
            (λ s. some (field "state" (str (env.pion.signaling_state pc s)) end)) msg w v _ e))

  pub handle_pc_add_ice-Replied :
      (draw : Draw) (msg : Message) (w : World S Api)
      → Replied env "pc:addIce" msg w (handle_pc_add_ice env draw msg w)
  unfolding handle_pc_add_ice
  handle_pc_add_ice-Replied draw msg w = with_pc env "pc:addIce" draw msg w _ (λ pc v e h.
      guard-Replied env "pc:addIce" _ msg w v _ _ e
        (answer_with-Replied env "pc:addIce" (λ s. some end) msg w v _ e))
