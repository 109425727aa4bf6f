-- ===== src/Handler/Replies/Resources.antt =====
-- What the requests of handler.go that close, delete or add something are answered with.
use flutter_pion_bridge.Prelude.{
  none, Option, ap, sym, inl, inr, Option-cases, some, ◌⊎◌, ℕ, ◌≡◌, ◌≢◌, refl, ◌∙◌, String, ◌==◌,
  false, some, arith, Bool-cases, Option-cases, inl, inr, ◌=ℕ◌,
}
use flutter_pion_bridge.Types.{ack_response, at, Message, int, field, end}
use flutter_pion_bridge.Result.{Result, failed, ok}
use flutter_pion_bridge.Convert.{to_uint64}
use flutter_pion_bridge.Trace.{PionTrace}
use flutter_pion_bridge.Registry.{
  Registry, lookup, delete_handle, Deleted, not_found, out_of_fuel, gone,
}
use flutter_pion_bridge.Registry.Termination.{delete_handle_total}
use flutter_pion_bridge.Handler.{
  ApiProfile, Handler, Draw, Env, World, internal, start_dc_send_goroutine, start_with,
  stop_dc_send_goroutine,
}
use flutter_pion_bridge.Handler.Negotiate.{last_index, handle_pc_close, handle_pc_add_transceiver}
use flutter_pion_bridge.Handler.Channels.{
  adopt_channel, open_channel, handle_pc_create_dc, handle_dc_set_buffered_amount_low_threshold,
  handle_dc_close, close_collected, finish_delete, handle_resource_delete, is_peer_connection,
}
use flutter_pion_bridge.Handler.Replies.{
  mark, Replied, error-Replied, ack-Replied, invalid-Replied, with_pc, with_dc, answer_with-Replied,
  notify-Replied, guard-Replied,
}

module _ {S Api : Type 0} (env : Env S Api) where
  pub handle_pc_close-Replied :
      (draw : Draw) (msg : Message) (w : World S Api)
      → Replied env "pc:close" msg w (handle_pc_close env draw msg w)
  unfolding handle_pc_close
  handle_pc_close-Replied draw msg w = with_pc env "pc:close" draw msg w _ (λ pc v e h.
      notify-Replied env "pc:close" msg w _
        (answer_with-Replied env "pc:close" (λ s. some end) msg w _ _ e))

  pub handle_pc_add_transceiver-Replied :
      (draw : Draw) (msg : Message) (w : World S Api)
      → Replied env "pc:addTransceiver" msg w (handle_pc_add_transceiver env draw msg w)
  unfolding handle_pc_add_transceiver
  handle_pc_add_transceiver-Replied draw msg w =
      with_pc env "pc:addTransceiver" draw msg w _ (λ pc v e h.
        guard-Replied env "pc:addTransceiver" "kind must be video or audio" msg w v (kind =ℕ 0) _ e
          (guard-Replied env "pc:addTransceiver"
            "direction must be sendrecv, sendonly, recvonly or inactive" msg w v (direction =ℕ 0) _
            e
            (answer_with-Replied env "pc:addTransceiver"
              (λ s. some (field "index" (int (last_index (env.pion.transceivers pc s))) end)) msg w
              v (env.pion.add_transceiver_from_kind pc kind direction v.pion) e)))
    where
      kind : ℕ
      kind = env.pion.new_rtp_codec_type (env.sprint (at msg.fields "kind"))

      direction : ℕ
      direction = env.pion.new_rtp_transceiver_direction (env.sprint (at msg.fields "direction"))

  start_with-work :
      (o : Option String) (dc : ℕ) (dc_handle : String) (profile : ApiProfile Api) (w : World S Api)
      → ((start_with env o dc dc_handle profile w).work ≡ w.work)
        × (((start_with env o dc dc_handle profile w).panicked ≡ w.panicked)
            ⊎ ((text : String) × (o ≡ some text)
                × ((start_with env o dc dc_handle profile w).panicked ≡ some text)))
  unfolding start_with
  start_with-work (some text) dc dc_handle profile w = (refl, inr (text, refl, refl))
  start_with-work none dc dc_handle profile w = (ground arith, inl (ground arith))

  adopt_channel-work :
      (draw : Draw) (parent : String) (dc : ℕ) (w : World S Api)
      → ((adopt_channel env draw parent dc w).work ≡ w.work)
        × (((adopt_channel env draw parent dc w).panicked ≡ w.panicked)
            ⊎ ((text : String) × (env.make_panics w.handler.dc_config.send_queue_depth ≡ some text)
                × ((adopt_channel env draw parent dc w).panicked ≡ some text)))
  unfolding adopt_channel start_dc_send_goroutine
  adopt_channel-work draw parent dc w = start_with-work _ dc draw.uuid _ _

  open_channel-Replied :
      (draw : Draw) (msg : Message) (w v : World S Api) (out : Result String ℕ × S)
      → mark v ≡ mark w
      → v.handler ≡ w.handler
      → Replied env "pc:createDc" msg w (open_channel env draw msg v out)
  unfolding open_channel internal ack_response
  open_channel-Replied draw msg w v (failed x, s) e h =
      error-Replied env "pc:createDc" msg w (record v { pion = s }) _ x msg.handle false e
  open_channel-Replied draw msg w v (ok dc, s) e h = record {
    id = refl;
    type_of = inl refl;
    work = (adopt_channel-work draw msg.handle dc (record v { pion = s })).0 ∙ ap (λ m. m.0) e;
    calm = elim (adopt_channel-work draw msg.handle dc (record v { pion = s })).1 [
      | inl same ↦ inl (same ∙ ap (λ m. m.1) e)
      | inr (text, bad, left) ↦ inr (
        refl,
        (
          text,
          ap (λ (x : Handler Api). env.make_panics x.dc_config.send_queue_depth) (sym h) ∙ bad,
          left,
        ),
      )
    ];
  }

  pub handle_pc_create_dc-Replied :
      (draw : Draw) (msg : Message) (w : World S Api)
      → Replied env "pc:createDc" msg w (handle_pc_create_dc env draw msg w)
  unfolding handle_pc_create_dc
  handle_pc_create_dc-Replied draw msg w = with_pc env "pc:createDc" draw msg w _ (λ pc v e h.
      guard-Replied env "pc:createDc" _ msg w v _ _ e (open_channel-Replied draw msg w v _ e h))

  pub handle_dc_set-Replied :
      (draw : Draw) (msg : Message) (w : World S Api)
      → Replied env "dc:setBufferedAmountLowThreshold" msg w
          (handle_dc_set_buffered_amount_low_threshold env draw msg w)
  unfolding handle_dc_set_buffered_amount_low_threshold
  handle_dc_set-Replied draw msg w =
      with_dc env "dc:setBufferedAmountLowThreshold" draw msg w _ (λ dc v e.
        elim (Option-cases (to_uint64 env.floats (at msg.fields "threshold"))) [
          | inl q ↦ rw q (invalid-Replied env _ "missing or invalid threshold" msg w v e)
          | inr (t, q) ↦
              rw q
                (ack-Replied env "dc:setBufferedAmountLowThreshold" msg w _ (some end) msg.handle e)
        ])

  pub handle_dc_close-Replied :
      (draw : Draw) (msg : Message) (w : World S Api)
      → Replied env "dc:close" msg w (handle_dc_close env draw msg w)
  unfolding handle_dc_close stop_dc_send_goroutine
  handle_dc_close-Replied draw msg w =
      with_dc env "dc:close" draw msg w _
        (λ dc v e. answer_with-Replied env "dc:close" (λ s. some end) msg w _ _ e)

  finish_delete-Replied :
      (msg : Message) (w v : World S Api) (d : Deleted)
      → d ≢ out_of_fuel
      → mark v ≡ mark w
      → Replied env "resource:delete" msg w (finish_delete env msg v d)
  unfolding finish_delete close_collected
  finish_delete-Replied msg w v not_found n e =
      error-Replied env "resource:delete" msg w v _ _ msg.handle false e
  finish_delete-Replied msg w v out_of_fuel n e = absurd (n refl)
  finish_delete-Replied msg w v (gone c) n e =
      ack-Replied env "resource:delete" msg w _ _ msg.handle e

  pub handle_resource_delete-Replied :
      (draw : Draw) (msg : Message) (w : World S Api)
      → Replied env "resource:delete" msg w (handle_resource_delete env draw msg w)
  unfolding handle_resource_delete
  handle_resource_delete-Replied draw msg w =
      guard-Replied env "resource:delete" "missing handle" msg w w (msg.handle == "") _ refl
        (elim (Bool-cases (is_peer_connection (lookup draw.now msg.handle w.registry).0)) [
          | inl q ↦ rw q (notify-Replied env "resource:delete" msg w _ (done _ refl))
          | inr q ↦ rw q (done _ refl)
        ])
    where
      returns : (t : PionTrace) (r : Registry) → delete_handle t msg.handle r ≢ out_of_fuel
      returns t r e = ground (arith, delete_handle_total t msg.handle r)

      done :
          (v : World S Api)
          → mark v ≡ mark w
          → Replied env "resource:delete" msg w
              (finish_delete env msg v (delete_handle v.trace msg.handle v.registry))
      done v e =
          finish_delete-Replied msg w v (delete_handle v.trace msg.handle v.registry)
            (returns v.trace v.registry) e
