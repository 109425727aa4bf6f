-- ===== src/Handler/Refusals/Requests.antt =====
-- The requests of go/internal/pionserver/handler.go that are refused.
use flutter_pion_bridge.Prelude.{
  delete, ℕ, ◌≡◌, ◌≢◌, refl, sym, String, ◌==◌, true, Option, none, some, get, arith, Bool-cases,
  Option-cases, inl, inr, ◌⊎◌, subst,
}
use flutter_pion_bridge.Types.{at, end, Fields, Message, error_response}
use flutter_pion_bridge.Convert.{to_uint64}
use flutter_pion_bridge.Result.{Result, Result-cases, failed, ok}
use flutter_pion_bridge.DcSend.{DcSendWork}
use flutter_pion_bridge.Trace.{PionTrace}
use flutter_pion_bridge.Registry.{
  Registry, lookup, delete_handle, Deleted, not_found, out_of_fuel, gone,
}
use flutter_pion_bridge.Registry.Termination.{delete_handle_total}
use flutter_pion_bridge.Handler.{
  Draw, Env, World, Handler, ApiProfile, ProfileError, build_profile, profile_for, keep_built,
  add_profile, notify_pc_closed, forget_pc_profile,
}
use flutter_pion_bridge.Handler.Create.{
  handle_init, handle_pc_create, configure, open_connection, finish_init, create_with,
  choose_profile,
}
use flutter_pion_bridge.Handler.Channels.{
  open_channel, hand_over, handle_dc_set_buffered_amount_low_threshold, finish_delete,
  handle_resource_delete, is_peer_connection,
}
use flutter_pion_bridge.Handler.Serving.{lookup-get, lookup-resources}
use flutter_pion_bridge.Handler.Refusals.{
  set_up, forgot, handed, failed_in_pion, IsUntouched, Spared, acked, refused, IsUntouched-refl,
  lookup-OnlyStamps, with_dc, failed_inside, guard-Spared,
}

module _ {S Api : Type 0} (env : Env S Api) where
  finish_init-Spared :
      (msg : Message) (se me : Option Fields) (w : World S Api)
      (r : Result ProfileError (ApiProfile Api))
      → Spared "init" w (finish_init env msg se me (configure env msg.fields w) r)
  unfolding finish_init configure
  finish_init-Spared msg se me w (failed x) = set_up _ _ refl refl
  finish_init-Spared msg se me w (ok p) = acked "init" msg w _ _ ""

  pub handle_init-Spared :
      (msg : Message) (w : World S Api) → Spared "init" w (handle_init env msg w)
  unfolding handle_init
  handle_init-Spared msg w = finish_init-Spared msg _ _ w _

  -- No profile, or no change.
  Kept : Result ProfileError (ApiProfile Api) × Handler Api → Handler Api → Type 0
  Kept out h = (out.1 ≡ h) ⊎ ((p : ApiProfile Api) × (out.0 ≡ ok p))

  keep_built-Kept :
      (key : String) (r : Result ProfileError (ApiProfile Api)) (h : Handler Api)
      → Kept (keep_built env key r h) h
  unfolding keep_built Kept
  keep_built-Kept key (failed x) h = inl refl
  keep_built-Kept key (ok p) h = inr ((add_profile env key p h).0, refl)

  profile_for-Kept : (se me : Option Fields) (h : Handler Api) → Kept (profile_for env se me h) h
  unfolding profile_for
  profile_for-Kept se me h = elim (Result-cases (env.marshal se me)) [
    | inl (x, e) ↦ rw (e, profile_for) (unfold Kept in inl refl)
    | inr (key, e) ↦ elim (Option-cases (get h.profiles key)) [
      | inl q ↦ rw (e, q, profile_for) (keep_built-Kept key (build_profile env se me) h)
      | inr (p, q) ↦ rw (e, q, profile_for) (unfold Kept in inr (p, refl))
    ]
  ]

  profile_for-failed :
      (se me : Option Fields) (h : Handler Api) (e : ProfileError)
      → (profile_for env se me h).0 ≡ failed e
      → (profile_for env se me h).1 ≡ h
  unfolding Kept
  profile_for-failed se me h e q = elim (profile_for-Kept se me h) [
    | inl same ↦ same
    | inr (p, r) ↦ absurd (ground arith)
  ]

  choose_profile-failed :
      (se me : Option Fields) (h : Handler Api) (e : ProfileError)
      → (choose_profile env se me h).0 ≡ failed e
      → (choose_profile env se me h).1 ≡ h
  unfolding choose_profile
  choose_profile-failed none none h e q = refl
  choose_profile-failed none (some m) h e q = profile_for-failed _ _ h e q
  choose_profile-failed (some s) me h e q = profile_for-failed _ _ h e q

  open_connection-Spared :
      (draw : Draw) (msg : Message) (p : ApiProfile Api) (w v : World S Api)
      (out : Result String ℕ × S)
      → Spared "pc:create" w (open_connection env draw msg p v out)
  unfolding open_connection error_response at
  open_connection-Spared draw msg p w v (failed x, s) = failed_in_pion refl
  open_connection-Spared draw msg p w v (ok pc, s) = acked "pc:create" msg w _ _ draw.uuid

  create_with-Spared :
      (draw : Draw) (msg : Message) (w : World S Api) (h : Handler Api)
      (r : Result ProfileError (ApiProfile Api))
      → ((e : ProfileError) → r ≡ failed e → h ≡ w.handler)
      → Spared "pc:create" w (create_with env draw msg (record w { handler = h }) r)
  unfolding create_with
  create_with-Spared draw msg w h (failed x) same =
      refused "pc:create" w (record w { handler = h }) _
        (subst (λ g. IsUntouched w (record w { handler = g })) (sym (same x refl))
          (IsUntouched-refl w))
  create_with-Spared draw msg w h (ok p) same = open_connection-Spared draw msg p w _ _

  pub handle_pc_create-Spared :
      (draw : Draw) (msg : Message) (w : World S Api)
      → Spared "pc:create" w (handle_pc_create env draw msg w)
  unfolding handle_pc_create
  handle_pc_create-Spared draw msg w =
      create_with-Spared draw msg w _ _ (choose_profile-failed _ _ w.handler)

  pub open_channel-Spared :
      (draw : Draw) (msg : Message) (w v : World S Api) (out : Result String ℕ × S)
      → Spared "pc:createDc" w (open_channel env draw msg v out)
  unfolding open_channel
  open_channel-Spared draw msg w v (failed x, s) = failed_inside env "pc:createDc" msg x w _
  open_channel-Spared draw msg w v (ok dc, s) = acked "pc:createDc" msg w _ _ msg.handle

  pub hand_over-Spared :
      (msg : Message) (w : World S Api) (o : Option ℕ) (work : Option DcSendWork)
      → Spared "dc:send" w (hand_over env msg w o work)
  unfolding hand_over
  hand_over-Spared msg w none work = refused "dc:send" w w _ (IsUntouched-refl w)
  hand_over-Spared msg w (some state) none = refused "dc:send" w w _ (IsUntouched-refl w)
  hand_over-Spared msg w (some state) (some work) = handed refl

  pub handle_dc_set-Spared :
      (draw : Draw) (msg : Message) (w : World S Api)
      → Spared "dc:setBufferedAmountLowThreshold" w
          (handle_dc_set_buffered_amount_low_threshold env draw msg w)
  unfolding handle_dc_set_buffered_amount_low_threshold
  handle_dc_set-Spared draw msg w =
      with_dc env "dc:setBufferedAmountLowThreshold" draw msg w _ (λ dc v u.
        elim (Option-cases (to_uint64 env.floats (at msg.fields "threshold"))) [
          | inl q ↦ rw q (refused "dc:setBufferedAmountLowThreshold" w v _ u)
          | inr (t, q) ↦
              rw q (acked "dc:setBufferedAmountLowThreshold" msg w _ (some end) msg.handle)
        ])

  finish_delete-Spared :
      (msg : Message) (w v : World S Api) (d : Deleted) (h : String)
      → IsUntouched
          (record w { handler = record w.handler { pc_profiles = delete w.handler.pc_profiles h } })
          v
      → Spared "resource:delete" w (finish_delete env msg v d)
  unfolding finish_delete
  finish_delete-Spared msg w v not_found h u = forgot h refl u
  finish_delete-Spared msg w v out_of_fuel h u = handed refl
  finish_delete-Spared msg w v (gone c) h u = acked "resource:delete" msg w _ (some end) msg.handle

  notified-Spared :
      (msg : Message) (w v : World S Api) (d : Deleted)
      → d ≢ not_found
      → Spared "resource:delete" w (
        (finish_delete env msg v d).0,
        notify_pc_closed env msg.handle (finish_delete env msg v d).1,
      )
  unfolding finish_delete
  notified-Spared msg w v not_found n = absurd (n refl)
  notified-Spared msg w v out_of_fuel n = handed refl
  notified-Spared msg w v (gone c) n = acked "resource:delete" msg w _ (some end) msg.handle

  forgot-IsUntouched :
      (now : ℕ) (h : String) (w : World S Api)
      → IsUntouched
          (record w { handler = record w.handler { pc_profiles = delete w.handler.pc_profiles h } })
          (record w {
            registry = (lookup now h w.registry).1;
            handler = forget_pc_profile env h w.handler;
          })
  unfolding forget_pc_profile
  forgot-IsUntouched now h w = record { same = refl; registry = lookup-OnlyStamps now h w.registry }

  -- A PeerConnection that was found is there to be deleted.
  found-there :
      (now : ℕ) (t : PionTrace) (h : String) (r : Registry)
      → is_peer_connection (lookup now h r).0 ≡ true
      → delete_handle t h (lookup now h r).1 ≢ not_found
  found-there now t h r e q = ground (
    arith,
    delete_handle_total t h (lookup now h r).1,
    lookup-get now h r,
    lookup-resources now h r,
  )

  -- A deletion is refused only where the handle has no resource.
  pub handle_resource_delete-Spared :
      (draw : Draw) (msg : Message) (w : World S Api)
      → Spared "resource:delete" w (handle_resource_delete env draw msg w)
  unfolding handle_resource_delete
  handle_resource_delete-Spared draw msg w =
      let u = forgot-IsUntouched draw.now msg.handle w in
      guard-Spared env "resource:delete" "missing handle" msg w w (msg.handle == "") _
        (IsUntouched-refl w)
        (elim (Bool-cases (is_peer_connection (lookup draw.now msg.handle w.registry).0)) [
          | inl q ↦
              rw q
                (notified-Spared msg w _ _ (found-there draw.now w.trace msg.handle w.registry q))
          | inr q ↦ rw q (finish_delete-Spared msg w _ _ msg.handle u)
        ])
