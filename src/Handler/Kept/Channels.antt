-- ===== src/Handler/Kept/Channels.antt =====
-- What the requests of handler.go about channels and the deletion of resources leave of the registry.
use flutter_pion_bridge.Prelude.{
  ℕ, ◌≡◌, refl, sym, ap, ◌∙◌, subst, String, ◌==◌, Option, none, some, get, Bool-cases,
  Option-cases, inl, inr, length,
}
use flutter_pion_bridge.Types.{Message, at, ack_response, end}
use flutter_pion_bridge.Convert.{to_uint64}
use flutter_pion_bridge.Result.{Result, failed, ok}
use flutter_pion_bridge.DcSend.{DcSendWork}
use flutter_pion_bridge.Registry.{
  peer_connection, data_channel, lookup, register_dc_send_state, register_child, Deleted, not_found,
  out_of_fuel, gone, delete_handle,
}
use flutter_pion_bridge.Registry.Reachable.{IsFresh}
use flutter_pion_bridge.Handler.{
  Draw, Env, World, start_dc_send_goroutine, start_with, ApiProfile, stop_dc_send_goroutine,
}
use flutter_pion_bridge.Handler.Channels.{
  adopt_channel, open_channel, handle_pc_create_dc, hand_over,
  handle_dc_set_buffered_amount_low_threshold, handle_dc_close, close_collected, finish_delete,
  handle_resource_delete, is_peer_connection,
}
use flutter_pion_bridge.Handler.Serving.{
  IsServed, lookup-resources, lookup-IsServed, lookup-IsFresh, adopt-IsServed, send-IsServed,
  stop-IsServed, delete-IsServed,
}
use flutter_pion_bridge.Handler.Kept.{
  Serves, answer_with-registry, notify-registry, with_pc, with_dc, guarded, as_before,
}

module _ {S Api : Type 0} (env : Env S Api) where
  start_with-IsServed :
      (o : Option String) (dc : ℕ) (dc_handle : String) (profile : ApiProfile Api) (w : World S Api)
      → IsServed w.registry
      → IsServed (start_with env o dc dc_handle profile w).registry
  unfolding start_with
  start_with-IsServed (some text) dc dc_handle profile w v = v
  start_with-IsServed none dc dc_handle profile w v =
      elim (Bool-cases (register_dc_send_state dc_handle (length w.send_states) w.registry).0) [
        | inl e ↦ rw e (send-IsServed dc_handle (length w.send_states) w.registry v)
        | inr e ↦ rw e v
      ]

  pub adopt_channel-Serves :
      (draw : Draw) (parent : String) (dc : ℕ) (w : World S Api)
      → IsServed (register_child draw.now draw.uuid (data_channel dc) parent w.registry)
      → IsServed (adopt_channel env draw parent dc w).registry
  unfolding adopt_channel start_dc_send_goroutine
  adopt_channel-Serves draw parent dc w adopted = start_with-IsServed _ dc draw.uuid _ _ adopted

  open_channel-Serves :
      (draw : Draw) (msg : Message) (pc : ℕ) (w : World S Api) (out : Result String ℕ × S)
      → IsFresh w.registry draw.uuid
      → get w.registry.resources msg.handle ≡ some (peer_connection pc)
      → IsServed w.registry
      → Serves env (open_channel env draw msg w out)
  unfolding open_channel
  open_channel-Serves draw msg pc w (failed x, s) fresh here v = v
  open_channel-Serves draw msg pc w (ok dc, s) fresh here v =
      adopt_channel-Serves draw msg.handle dc (record w { pion = s })
        (adopt-IsServed draw.now draw.uuid dc pc msg.handle w.registry fresh here v)

  pub handle_pc_create_dc-Serves :
      (draw : Draw) (msg : Message) (w : World S Api)
      → IsFresh w.registry draw.uuid
      → IsServed w.registry
      → Serves env (handle_pc_create_dc env draw msg w)
  unfolding handle_pc_create_dc
  handle_pc_create_dc-Serves draw msg w fresh v = with_pc env draw msg w _ v (λ pc u e s here.
      guarded env _ _ u _ s (
        open_channel-Serves draw msg pc u _
          (subst (λ r. IsFresh r draw.uuid) (sym e)
            (lookup-IsFresh draw.now msg.handle draw.uuid w.registry fresh))
          (ap (λ r. get r.resources msg.handle) e
            ∙ (ap (λ m. get m msg.handle) (lookup-resources draw.now msg.handle w.registry) ∙ here))
          s))

  pub hand_over-Serves :
      (msg : Message) (w : World S Api) (o : Option ℕ) (work : Option DcSendWork)
      → IsServed w.registry
      → Serves env (hand_over env msg w o work)
  unfolding hand_over
  hand_over-Serves msg w none work v = v
  hand_over-Serves msg w (some s) none v = v
  hand_over-Serves msg w (some s) (some work) v = v

  pub handle_dc_set-Serves :
      (draw : Draw) (msg : Message) (w : World S Api)
      → IsServed w.registry
      → Serves env (handle_dc_set_buffered_amount_low_threshold env draw msg w)
  unfolding handle_dc_set_buffered_amount_low_threshold
  handle_dc_set-Serves draw msg w v = with_dc env draw msg w _ v (λ dc u s.
      elim (Option-cases (to_uint64 env.floats (at msg.fields "threshold"))) [
        | inl q ↦ rw q s
        | inr (t, q) ↦ rw q s
      ])

  pub handle_dc_close-Serves :
      (draw : Draw) (msg : Message) (w : World S Api)
      → IsServed w.registry
      → Serves env (handle_dc_close env draw msg w)
  unfolding handle_dc_close stop_dc_send_goroutine
  handle_dc_close-Serves draw msg w v = with_dc env draw msg w _ v (λ dc u s.
      as_before env
        (answer_with-registry env (λ s. ack_response "dc:close" msg.id msg.handle (some end)) msg _
          _)
        (stop-IsServed msg.handle u.registry s))

  finish_delete-Serves :
      (msg : Message) (w : World S Api) (d : Deleted)
      → delete_handle w.trace msg.handle w.registry ≡ d
      → IsServed w.registry
      → Serves env (finish_delete env msg w d)
  unfolding finish_delete close_collected
  finish_delete-Serves msg w not_found e v = v
  finish_delete-Serves msg w out_of_fuel e v = v
  finish_delete-Serves msg w (gone c) e v = delete-IsServed w.trace msg.handle w.registry c e v

  pub handle_resource_delete-Serves :
      (draw : Draw) (msg : Message) (w : World S Api)
      → IsServed w.registry
      → Serves env (handle_resource_delete env draw msg w)
  unfolding handle_resource_delete
  handle_resource_delete-Serves draw msg w v =
      guarded env (msg.handle == "") _ w _ v
        (elim (Bool-cases (is_peer_connection (lookup draw.now msg.handle w.registry).0)) [
          | inl q ↦ rw q (
              as_before env (notify-registry env msg.handle _)
                (finish_delete-Serves msg _ _ refl served))
          | inr q ↦ rw q (finish_delete-Serves msg _ _ refl served)
        ])
    where
      served : IsServed (lookup draw.now msg.handle w.registry).1
      served = lookup-IsServed draw.now msg.handle w.registry v
