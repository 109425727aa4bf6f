-- ===== src/Handler/Life.antt =====
-- The life of the server of go/internal/pionserver: the frames of all sessions, pion's callbacks and the sweeps of
-- registry.go, in any order. A frame and a callback are one step each, so the handlers of two sessions do not
-- interleave; a sweep is as many as it has critical sections, with anything in between. Handlers of other
-- sessions share all but the handler itself.
pub mod Served
pub mod Noticed
use flutter_pion_bridge.Prelude.{
  ◌++◌, length, elem, ℕ, ◌≡◌, sym, ap, ◌∙◌, subst, String, ◌==◌, Bool, true, false, none, some,
  List, [], ◌∷◌, get, arith, Bool-cases, Option-cases, inl, inr,
}
use flutter_pion_bridge.Types.{Message}
use flutter_pion_bridge.Result.{Result, failed, ok}
use flutter_pion_bridge.Trace.{PionTrace}
use flutter_pion_bridge.Registry.{collect, Registry, new_registry, data_channel, touch, Collected}
use flutter_pion_bridge.Registry.Cascade.{IsConsistent}
use flutter_pion_bridge.Registry.Reachable.{
  IsFresh, touches, reaps, Reach, start, next, Reach-IsConsistent,
}
use flutter_pion_bridge.Registry.Cleanup.{scan, select, reap, touch_each, cleanup}
use flutter_pion_bridge.Registry.Links.{Removes}
use flutter_pion_bridge.Registry.Cleanup.Sweep.{collect_list, falls}
use flutter_pion_bridge.Registry.Cleanup.Walk.{touch_total}
use flutter_pion_bridge.Registry.Cleanup.Verdict.{cleanup-removes}
use flutter_pion_bridge.Handler.{
  set_track_handler, set_peer_connection_closed_handler, Draw, Env, World, Handler, ApiProfile,
}
use flutter_pion_bridge.Handler.Channels.{adopt_channel, close_collected, close_all}
use flutter_pion_bridge.Handler.Dispatch.{process_frame}
use flutter_pion_bridge.Handler.Events.{
  Track, track_event, give_track, on_track, state_event, open_event, send_event,
  on_connection_state_change, on_data_channel, on_open, open_detached, emit_close,
}
use flutter_pion_bridge.Handler.Serving.{IsServed, adopt_root-IsServed, touched-IsServed}
use flutter_pion_bridge.Handler.Kept.{notify-registry}
use flutter_pion_bridge.Handler.Kept.Channels.{adopt_channel-Serves}
use flutter_pion_bridge.Handler.Frames.{IsAnswered, id_of, process_frame_answers}

-- A sweep takes handles out that it found earlier, whatever has happened to them since.
pub reap-IsServed :
    (t : PionTrace) (hs : List String) (r : Registry) (c : Collected)
    → reap t r hs ≡ some c
    → IsServed r
    → IsServed c.registry
unfolding reap
reap-IsServed t hs r c e v =
    let (d, e', m, _) =
      collect_list (length r.children) hs (collect t r) (omega arith)
        (Reach-IsConsistent v.reach) in
    let same : d ≡ c = ground (arith, e, e') in
    let left = subst (λ (x : Collected). Removes (falls r (λ j. elem j hs)) r x.registry) same m in
    record {
      reach = next v.reach (reaps t hs c (unfold reap in e));
      typed = λ k p q.
          let found = v.typed k p (ground (arith, left.parent k, q)) in
          (found.0, ground (arith, left.parent k, left.resources k, found.1, q));
    }

pub new-IsServed : IsServed new_registry
new-IsServed = record { reach = start; typed = λ k p e. unfold get in absurd (ground arith) }

module _ {S Api : Type 0} where
  -- `frame` is one of any session, `event` any message that a callback sends; pion changes by itself, and
  -- the next step may be that of another session's handler. A channel arrives for a handle that is
  -- no DataChannel's, whether or not its PeerConnection is still registered.
  pub data Happens (w : World S Api) : World S Api → Type 0 where
    frame :
        (env : Env S Api) (draw : Draw) (decoded : Result String Message)
        (out : List Message × World S Api)
        → IsFresh w.registry draw.uuid
        → process_frame env draw decoded w ≡ some out
        → Happens w out.1
    event :
        (env : Env S Api) (now : ℕ) (m : Message) (out : List Message × World S Api)
        → send_event env now m w ≡ some out
        → Happens w out.1
    state_changes :
        (env : Env S Api) (now : ℕ) (handle state : String) (closed : Bool)
        (out : List Message × World S Api)
        → on_connection_state_change env now handle state closed w ≡ some out
        → Happens w out.1
    track_arrives :
        (env : Env S Api) (now : ℕ) (handle : String) (track : Track)
        (out : List Message × World S Api)
        → on_track env now handle track w ≡ some out
        → Happens w out.1
    channel_arrives :
        (env : Env S Api) (draw : Draw) (handle : String) (dc : ℕ)
        (out : List Message × World S Api)
        → IsFresh w.registry draw.uuid
        → get w.registry.parent handle ≡ none
        → (draw.uuid == handle) ≡ false
        → on_data_channel env draw handle dc w ≡ some out
        → Happens w out.1
    channel_opens :
        (env : Env S Api) (now : ℕ) (dc_handle : String) (profile : ApiProfile Api)
        (raw : Result String ℕ) (out : List Message × World S Api)
        → on_open env now dc_handle profile raw w ≡ some out
        → Happens w out.1
    channel_closes :
        (env : Env S Api) (now : ℕ) (dc_handle : String) (before : Bool)
        (out : List Message × World S Api)
        → emit_close env now dc_handle before w ≡ some out
        → Happens w out.1
    sweep_reaps :
        (found : List String) (c : Collected)
        → reap w.trace w.registry found ≡ some c
        → Happens w (record w { registry = c.registry; trace = c.trace })
    sweep_closes :
        (env : Env S Api) (c : Collected)
        → Happens w (record w {
          closed_states = w.closed_states ++ c.states;
          pion = close_all env c.closers w.pion;
        })
    sweep_touches :
        (now : ℕ) (handle : String) (r : Registry)
        → touch now handle w.registry ≡ some r
        → Happens w (record w { registry = r })
    embedder_hooks :
        (env : Env S Api) (tracks closed : Bool)
        → Happens w (set_peer_connection_closed_handler env closed (set_track_handler env tracks w))
    pion_moves : (s : S) → Happens w (record w { pion = s })
    other_session : (h : Handler Api) → Happens w (record w { handler = h })

  pub data Life : World S Api → Type 0 where
    begins :
        (w : World S Api)
        → w.registry ≡ new_registry
        → w.notified ≡ []
        → w.closed_once ≡ []
        → Life w
    lives : {w v : World S Api} → Life w → Happens w v → Life v
