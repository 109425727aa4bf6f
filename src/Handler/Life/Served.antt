-- ===== src/Handler/Life/Served.antt =====
-- What every happening of a server keeps: the registry stays one that the handlers are answered on.
use flutter_pion_bridge.Prelude.{
  Option, ℕ, ◌≡◌, sym, subst, String, ◌==◌, Bool, true, false, none, some, List, get, arith,
  Bool-cases, Option-cases, inl, inr,
}
use flutter_pion_bridge.Types.{Message}
use flutter_pion_bridge.Result.{Result, failed, ok}
use flutter_pion_bridge.Registry.Cascade.{IsConsistent}
use flutter_pion_bridge.Registry.Reachable.{IsFresh, Reach-IsConsistent}
use flutter_pion_bridge.Registry.Cleanup.Walk.{touch_total}
use flutter_pion_bridge.Handler.{
  set_track_handler, set_peer_connection_closed_handler, Draw, Env, World, ApiProfile,
}
use flutter_pion_bridge.Handler.Dispatch.{process_frame}
use flutter_pion_bridge.Handler.Events.{
  Track, track_event, give_track, on_track, state_event, open_event, send_event,
  on_connection_state_change, on_data_channel, data_channel_event, on_open, open_detached,
  emit_close,
}
use flutter_pion_bridge.Handler.Serving.{IsServed, adopt_root-IsServed, touched-IsServed}
use flutter_pion_bridge.Handler.Kept.{notify-registry}
use flutter_pion_bridge.Handler.Kept.Channels.{adopt_channel-Serves}
use flutter_pion_bridge.Handler.Frames.{IsAnswered, id_of, process_frame_answers}
use flutter_pion_bridge.Handler.Life.{
  reap-IsServed, new-IsServed, Happens, Life, frame, event, state_changes, track_arrives,
  channel_arrives, channel_opens, channel_closes, sweep_reaps, sweep_closes, sweep_touches,
  embedder_hooks, pion_moves, other_session, begins, lives,
}

module _ {S Api : Type 0} where
  module _ (env : Env S Api) where
    send_event-IsServed :
        (now : ℕ) (m : Message) (w : World S Api) (out : List Message × World S Api)
        → send_event env now m w ≡ some out
        → IsServed w.registry
        → IsServed out.1.registry
    unfolding send_event
    send_event-IsServed now m w out e v = elim (Bool-cases (m.handle == "")) [
      | inl blank ↦ let same : w.registry ≡ out.1.registry = ground arith in subst IsServed same v
      | inr named ↦
          let (r, t, o) = touch_total now m.handle w.registry (Reach-IsConsistent v.reach) in
          let same : r ≡ out.1.registry = ground (arith, t, e) in
          subst IsServed same (touched-IsServed now m.handle w.registry r t o v)
    ]

    state_changes-IsServed :
        (now : ℕ) (handle state : String) (closed : Bool) (w : World S Api)
        (out : List Message × World S Api)
        → on_connection_state_change env now handle state closed w ≡ some out
        → IsServed w.registry
        → IsServed out.1.registry
    unfolding on_connection_state_change
    state_changes-IsServed now handle state closed w out e v =
        elim (Option-cases (send_event env now (state_event handle state) w)) [
          | inl stuck ↦ absurd (ground arith)
          | inr ((ms, u), sent) ↦
              let same : u.registry ≡ out.1.registry =
                ground (arith, notify-registry env handle u) in
              subst IsServed same
                (send_event-IsServed now (state_event handle state) w (ms, u) sent v)
        ]

    track_arrives-IsServed :
        (now : ℕ) (handle : String) (track : Track) (w : World S Api)
        (out : List Message × World S Api)
        → on_track env now handle track w ≡ some out
        → IsServed w.registry
        → IsServed out.1.registry
    unfolding on_track give_track
    track_arrives-IsServed now handle track w out e v =
        let same : w.registry ≡ (give_track env handle w).registry = ground arith in
        send_event-IsServed now (track_event handle track) (give_track env handle w) out e
          (subst IsServed same v)

    data_channel_event-IsServed :
        (draw : Draw) (handle : String) (dc : ℕ) (o : Option String) (w : World S Api)
        (out : List Message × World S Api)
        → data_channel_event env draw handle dc o w ≡ some out
        → IsServed w.registry
        → IsServed out.1.registry
    unfolding data_channel_event
    data_channel_event-IsServed draw handle dc (some text) w out e v =
        let same : w.registry ≡ out.1.registry = ground arith in subst IsServed same v
    data_channel_event-IsServed draw handle dc none w out e v =
        send_event-IsServed draw.now _ w out e v

    channel_arrives-IsServed :
        (draw : Draw) (handle : String) (dc : ℕ) (w : World S Api)
        (out : List Message × World S Api)
        → IsFresh w.registry draw.uuid
        → get w.registry.parent handle ≡ none
        → (draw.uuid == handle) ≡ false
        → on_data_channel env draw handle dc w ≡ some out
        → IsServed w.registry
        → IsServed out.1.registry
    unfolding on_data_channel
    channel_arrives-IsServed draw handle dc w out fresh root other e v =
        data_channel_event-IsServed draw handle dc _ _ out e (
          adopt_channel-Serves env draw handle dc (record w { panicked = none })
            (adopt_root-IsServed draw.now draw.uuid dc handle w.registry fresh root other v))

    open_detached-IsServed :
        (now : ℕ) (dc_handle : String) (raw : Result String ℕ) (w : World S Api)
        (out : List Message × World S Api)
        → open_detached env now dc_handle raw w ≡ some out
        → IsServed w.registry
        → IsServed out.1.registry
    unfolding open_detached
    open_detached-IsServed now dc_handle (failed x) w out e v = send_event-IsServed now _ w out e v
    open_detached-IsServed now dc_handle (ok raw) w out e v = send_event-IsServed now _ _ out e v

    channel_opens-IsServed :
        (now : ℕ) (dc_handle : String) (profile : ApiProfile Api) (raw : Result String ℕ)
        (w : World S Api) (out : List Message × World S Api)
        → on_open env now dc_handle profile raw w ≡ some out
        → IsServed w.registry
        → IsServed out.1.registry
    unfolding on_open
    channel_opens-IsServed now dc_handle profile raw w out e v = elim (Bool-cases profile.detach) [
      | inl detached ↦
          open_detached-IsServed now dc_handle raw w out (ground (arith, detached, e)) v
      | inr plain ↦
          send_event-IsServed now (open_event dc_handle) w out (ground (arith, plain, e)) v
    ]

    channel_closes-IsServed :
        (now : ℕ) (dc_handle : String) (before : Bool) (w : World S Api)
        (out : List Message × World S Api)
        → emit_close env now dc_handle before w ≡ some out
        → IsServed w.registry
        → IsServed out.1.registry
    unfolding emit_close
    channel_closes-IsServed now dc_handle true w out e v =
        let same : w.registry ≡ out.1.registry = ground arith in subst IsServed same v
    channel_closes-IsServed now dc_handle false w out e v = send_event-IsServed now _ w out e v

    frame-IsServed :
        (draw : Draw) (decoded : Result String Message) (w : World S Api)
        (out : List Message × World S Api)
        → IsFresh w.registry draw.uuid
        → process_frame env draw decoded w ≡ some out
        → IsServed w.registry
        → IsServed out.1.registry
    frame-IsServed draw decoded w out fresh e v =
        let (done, e', _, served) = process_frame_answers env draw decoded w fresh v in
        let same : done.1.registry ≡ out.1.registry = ground (arith, e, e') in
        subst IsServed same served

  Happens-IsServed : {w v : World S Api} → Happens w v → IsServed w.registry → IsServed v.registry
  Happens-IsServed {w} (frame env draw decoded out fresh e) v =
      frame-IsServed env draw decoded w out fresh e v
  Happens-IsServed {w} (event env now m out e) v = send_event-IsServed env now m w out e v
  Happens-IsServed {w} (state_changes env now handle state closed out e) v =
      state_changes-IsServed env now handle state closed w out e v
  Happens-IsServed {w} (track_arrives env now handle track out e) v =
      track_arrives-IsServed env now handle track w out e v
  Happens-IsServed {w} (channel_arrives env draw handle dc out fresh root other e) v =
      channel_arrives-IsServed env draw handle dc w out fresh root other e v
  Happens-IsServed {w} (channel_opens env now dc_handle profile raw out e) v =
      channel_opens-IsServed env now dc_handle profile raw w out e v
  Happens-IsServed {w} (channel_closes env now dc_handle before out e) v =
      channel_closes-IsServed env now dc_handle before w out e v
  Happens-IsServed {w} (sweep_reaps found c e) v = reap-IsServed w.trace found w.registry c e v
  Happens-IsServed {w} (sweep_closes env c) v = v
  Happens-IsServed {w} (sweep_touches now handle r e) v =
      let (r', t, o) = touch_total now handle w.registry (Reach-IsConsistent v.reach) in
      let same : r' ≡ r = ground (arith, t, e) in
      subst IsServed same (touched-IsServed now handle w.registry r' t o v)
  Happens-IsServed {w} (embedder_hooks env tracks closed) v =
      unfold set_peer_connection_closed_handler set_track_handler in v
  Happens-IsServed {w} (pion_moves s) v = v
  Happens-IsServed {w} (other_session h) v = v

  pub Life-IsServed : {w : World S Api} → Life w → IsServed w.registry
  Life-IsServed (begins w e n c) = subst IsServed (sym e) new-IsServed
  Life-IsServed (lives l h) = Happens-IsServed h (Life-IsServed l)

  -- Between the frames and callbacks of any sessions, each of them one step, and the critical sections of
  -- sweeps, whatever came before, the registry is one that its operations reach, its maps agree and every child in it
  -- is a DataChannel; and a frame whose handler does not panic inside pion, given a UUID that is not in use,
  -- has a result: one response with its id; or the work of a `dc:send` with that id handed over; or, where
  -- Go cannot make a queue of the configured depth, the error of the panic with an id of 0.
  pub no_frame_is_lost :
      (env : Env S Api) (draw : Draw) (decoded : Result String Message) {w : World S Api}
      → Life w
      → IsFresh w.registry draw.uuid
      → IsConsistent w.registry
        × IsServed w.registry
        × ((out : List Message × World S Api) × (process_frame env draw decoded w ≡ some out)
            × IsAnswered env (id_of decoded) w out
            × Life out.1)
  no_frame_is_lost env draw decoded {w} l fresh =
      let v = Life-IsServed l in
      let (out, e, answered, _) = process_frame_answers env draw decoded w fresh v in
      (
        Reach-IsConsistent v.reach,
        v,
        (out, e, answered, lives l (frame env draw decoded out fresh e)),
      )
