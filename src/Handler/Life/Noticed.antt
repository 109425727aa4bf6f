-- ===== src/Handler/Life/Noticed.antt =====
-- What the embedder's hook for closed PeerConnections, go/internal/pionserver/hooks.go, is called with over the life of a
-- server.
use flutter_pion_bridge.Prelude.{
  none, Option, if◌then◌else◌, ◌⊎◌, ℕ, ◌≡◌, refl, sym, subst, String, ◌==◌, Bool, true, false, some,
  List, elem, IsDistinct, arith, Bool-cases, Option-cases, inl, inr,
}
use flutter_pion_bridge.Types.{Message}
use flutter_pion_bridge.Result.{Result, failed, ok}
use flutter_pion_bridge.Registry.{touch}
use flutter_pion_bridge.Handler.{
  Draw, set_track_handler, set_peer_connection_closed_handler, Env, World, ApiProfile,
  notify_pc_closed,
}
use flutter_pion_bridge.Handler.Events.{
  track_event, give_track, on_track, state_event, open_event, send_event,
  on_connection_state_change, on_data_channel, data_channel_event, on_open, open_detached,
  emit_close,
}
use flutter_pion_bridge.Handler.Notices.{IsNoticed, IsRecorded, notify-IsNoticed, notify-IsRecorded}
use flutter_pion_bridge.Handler.Notices.Requests.{adopt_channel-Noted, process_frame-Noted}
use flutter_pion_bridge.Handler.Notices.Answers.{Noted, moved}
use flutter_pion_bridge.Handler.Life.{
  Happens, Life, frame, event, state_changes, track_arrives, channel_arrives, channel_opens,
  channel_closes, sweep_reaps, sweep_closes, sweep_touches, embedder_hooks, pion_moves,
  other_session, begins, lives,
}

module _ {S Api : Type 0} (env : Env S Api) (Holds : List String → List String → Type 0)
    (kept : (h : String) (w : World S Api)
      → Noted Holds w
      → Noted Holds (notify_pc_closed env h w)) where
  send_event-Noted :
      (now : ℕ) (m : Message) (w : World S Api) (out : List Message × World S Api)
      → send_event env now m w ≡ some out
      → Noted Holds w
      → Noted Holds out.1
  unfolding send_event
  send_event-Noted now m w out e v = elim (Bool-cases (m.handle == "")) [
    | inl blank ↦ let same : w ≡ out.1 = ground arith in subst (Noted Holds) same v
    | inr named ↦ elim (Option-cases (touch now m.handle w.registry)) [
      | inl stuck ↦ absurd (ground arith)
      | inr (r, t) ↦
          let same : record w { registry = r } ≡ out.1 = ground arith in
          subst (Noted Holds) same (moved env Holds kept w _ v refl refl)
    ]
  ]

  notified-Noted :
      (closed : Bool) (handle : String) (w : World S Api)
      → Noted Holds w
      → Noted Holds (if closed then notify_pc_closed env handle w else w)
  notified-Noted true handle w v = kept handle w v
  notified-Noted false handle w v = v

  state_changes-Noted :
      (now : ℕ) (handle state : String) (closed : Bool) (w : World S Api)
      (out : List Message × World S Api)
      → on_connection_state_change env now handle state closed w ≡ some out
      → Noted Holds w
      → Noted Holds out.1
  unfolding on_connection_state_change
  state_changes-Noted now handle state closed w out e v =
      elim (Option-cases (send_event env now (state_event handle state) w)) [
        | inl stuck ↦ absurd (ground arith)
        | inr ((ms, u), sent) ↦
            let same : (if closed then notify_pc_closed env handle u else u) ≡ out.1 =
              ground arith in
            subst (Noted Holds) same (
              notified-Noted closed handle u
                (send_event-Noted now (state_event handle state) w (ms, u) sent v))
      ]

  give_track-Noted :
      (handle : String) (w : World S Api) → Noted Holds w → Noted Holds (give_track env handle w)
  unfolding give_track
  give_track-Noted handle w v = elim (Bool-cases w.track_hook) [
    | inl given ↦ rw given (moved env Holds kept w _ v refl refl)
    | inr none_given ↦ rw none_given (moved env Holds kept w _ v refl refl)
  ]

  open_detached-Noted :
      (now : ℕ) (dc_handle : String) (raw : Result String ℕ) (w : World S Api)
      (out : List Message × World S Api)
      → open_detached env now dc_handle raw w ≡ some out
      → Noted Holds w
      → Noted Holds out.1
  unfolding open_detached
  open_detached-Noted now dc_handle (failed x) w out e v = send_event-Noted now _ w out e v
  open_detached-Noted now dc_handle (ok raw) w out e v =
      send_event-Noted now _ _ out e (moved env Holds kept w _ v refl refl)

  channel_opens-Noted :
      (now : ℕ) (dc_handle : String) (profile : ApiProfile Api) (raw : Result String ℕ)
      (w : World S Api) (out : List Message × World S Api)
      → on_open env now dc_handle profile raw w ≡ some out
      → Noted Holds w
      → Noted Holds out.1
  unfolding on_open
  channel_opens-Noted now dc_handle profile raw w out e v = elim (Bool-cases profile.detach) [
    | inl detached ↦ open_detached-Noted now dc_handle raw w out (ground (arith, detached, e)) v
    | inr plain ↦ send_event-Noted now (open_event dc_handle) w out (ground (arith, plain, e)) v
  ]

  channel_closes-Noted :
      (now : ℕ) (dc_handle : String) (before : Bool) (w : World S Api)
      (out : List Message × World S Api)
      → emit_close env now dc_handle before w ≡ some out
      → Noted Holds w
      → Noted Holds out.1
  unfolding emit_close
  channel_closes-Noted now dc_handle true w out e v =
      let same : w ≡ out.1 = ground arith in subst (Noted Holds) same v
  channel_closes-Noted now dc_handle false w out e v = send_event-Noted now _ w out e v

  data_channel_event-Noted :
      (draw : Draw) (handle : String) (dc : ℕ) (o : Option String) (w : World S Api)
      (out : List Message × World S Api)
      → data_channel_event env draw handle dc o w ≡ some out
      → Noted Holds w
      → Noted Holds out.1
  unfolding data_channel_event
  data_channel_event-Noted draw handle dc (some text) w out e v =
      let same : record w { panicked = none } ≡ out.1 = ground arith in
      subst (Noted Holds) same (moved env Holds kept w _ v refl refl)
  data_channel_event-Noted draw handle dc none w out e v = send_event-Noted draw.now _ w out e v

module _ {S Api : Type 0} (Holds : List String → List String → Type 0)
    (kept : (env : Env S Api) (h : String) (w : World S Api)
      → Noted Holds w
      → Noted Holds (notify_pc_closed env h w)) where
  Happens-Noted : {w v : World S Api} → Happens w v → Noted Holds w → Noted Holds v
  unfolding on_track on_data_channel set_peer_connection_closed_handler set_track_handler
  Happens-Noted {w} (frame env draw decoded out fresh e) v =
      process_frame-Noted env Holds (kept env) draw decoded w out e v
  Happens-Noted {w} (event env now m out e) v =
      send_event-Noted env Holds (kept env) now m w out e v
  Happens-Noted {w} (state_changes env now handle state closed out e) v =
      state_changes-Noted env Holds (kept env) now handle state closed w out e v
  Happens-Noted {w} (track_arrives env now handle track out e) v =
      send_event-Noted env Holds (kept env) now (track_event handle track) _ out e
        (give_track-Noted env Holds (kept env) handle w v)
  Happens-Noted {w} (channel_arrives env draw handle dc out fresh root other e) v =
      data_channel_event-Noted env Holds (kept env) draw handle dc _ _ out e (
        adopt_channel-Noted env Holds (kept env) draw handle dc _
          (moved env Holds (kept env) w _ v refl refl))
  Happens-Noted {w} (channel_opens env now dc_handle profile raw out e) v =
      channel_opens-Noted env Holds (kept env) now dc_handle profile raw w out e v
  Happens-Noted {w} (channel_closes env now dc_handle before out e) v =
      channel_closes-Noted env Holds (kept env) now dc_handle before w out e v
  Happens-Noted {w} (sweep_reaps found c e) v = unfold Noted in v
  Happens-Noted {w} (sweep_closes env c) v = unfold Noted in v
  Happens-Noted {w} (sweep_touches now handle r e) v = unfold Noted in v
  Happens-Noted {w} (embedder_hooks env tracks closed) v =
      moved env Holds (kept env) w _ v refl refl
  Happens-Noted {w} (pion_moves s) v = unfold Noted in v
  Happens-Noted {w} (other_session h) v = unfold Noted in v

module _ {S Api : Type 0} where
  step-IsNoticed :
      {w v : World S Api}
      → Happens w v
      → IsNoticed w.notified w.closed_once
      → IsNoticed v.notified v.closed_once
  unfolding Noted
  step-IsNoticed h v = Happens-Noted IsNoticed (λ env. notify-IsNoticed env) h v

  Life-IsNoticed : {w : World S Api} → Life w → IsNoticed w.notified w.closed_once
  unfolding elem
  Life-IsNoticed (begins w e n c) =
      subst (λ l. IsNoticed l w.closed_once) (sym n)
        (record { once = tt; noted = λ k q. absurd (ground arith) })
  Life-IsNoticed (lives l h) = step-IsNoticed h (Life-IsNoticed l)

  -- In the life of a server, whatever reports a closed connection and however often, the hook never gets a handle
  -- twice; and with any step, a handle that was recorded as reported before stays recorded, and the hook
  -- does not get it any more, while one that was not recorded has not been given to the hook.
  pub hook_called_once :
      (k : String) {w v : World S Api}
      → Life w
      → Happens w v
      → IsDistinct v.notified
        × (((elem k w.closed_once ≡ false) × (elem k w.notified ≡ false))
            ⊎ ((elem k v.closed_once ≡ true) × (elem k v.notified ≡ elem k w.notified)))
  hook_called_once k {w} {v} l h = (
    (Life-IsNoticed (lives l h)).once,
    elim (Bool-cases (elem k w.closed_once)) [
      | inl old ↦ inr (stays old)
      | inr new ↦ inl (new, ground (arith, new, (Life-IsNoticed l).noted k))
    ],
  )
    where
      stays :
          elem k w.closed_once ≡ true
          → (elem k v.closed_once ≡ true) × (elem k v.notified ≡ elem k w.notified)
      stays old =
          let r : IsRecorded k (elem k w.notified) v.notified v.closed_once =
            unfold Noted in
            Happens-Noted (IsRecorded k (elem k w.notified))
              (λ env. notify-IsRecorded env k (elem k w.notified)) h
              (record { here = old; same = refl }) in
          (r.here, r.same)
