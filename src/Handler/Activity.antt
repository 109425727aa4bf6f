-- ===== src/Handler/Activity.antt =====
-- Events as activity: the `sendEvent` that `NewHandlerWithConfig` of go/internal/pionserver/handler.go installs,
-- and the sweep of registry.go.
use flutter_pion_bridge.Prelude.{
  ℕ, ◌+◌, ◌≤◌, ◌≡◌, ◌≢◌, ap, ◌∙◌, subst, String, ◌==◌, Bool, false, none, some, [], ◌∷◌, get, arith,
  Option-cases, inl, inr,
}
use flutter_pion_bridge.Types.{Message}
use flutter_pion_bridge.Trace.{PionTrace}
use flutter_pion_bridge.Registry.{Registry, Collected, second, touch}
use flutter_pion_bridge.Registry.Cascade.{IsConsistent}
use flutter_pion_bridge.Registry.Cleanup.{is_expired, cleanup}
use flutter_pion_bridge.Registry.Cleanup.Walk.{
  OnlyStamps, OnlyStamps-IsConsistent, touch_total, owner,
}
use flutter_pion_bridge.Registry.Cleanup.Sweep.{falls}
use flutter_pion_bridge.Registry.Cleanup.Verdict.{doomed, cleanup-removes}
use flutter_pion_bridge.Registry.Cleanup.Alive.{touch_keeps_alive}
use flutter_pion_bridge.Handler.{Env, World}
use flutter_pion_bridge.Handler.Events.{send_event}

fresh_stays :
    (connected : ℕ → Bool) (now max_age : ℕ) (r : Registry) (k : String)
    → is_expired now max_age r k ≡ false
    → is_expired now max_age r (owner r k) ≡ false
    → falls r (doomed connected now max_age r) k ≡ false
fresh_stays connected now max_age r k self up = elim (Option-cases (get r.parent k)) [
  | inl e ↦ ground arith
  | inr (p, e) ↦ ground arith
]

-- After `Touch` nothing that it has touched falls to a sweep in time.
touched_stays :
    (connected : ℕ → Bool) (now later max_age : ℕ) (h : String) (r : Registry)
    → IsConsistent r
    → get r.last_seen h ≢ none
    → later + second ≤ now + max_age
    → (r' : Registry) × (touch now h r ≡ some r')
      × OnlyStamps r r'
      × (falls r' (doomed connected later max_age r') h ≡ false)
touched_stays connected now later max_age h r v here soon =
    let (r', e, o) = touch_total now h r v in
    let (q, e', self, up) = touch_keeps_alive now later max_age h r v here soon in
    (
      r',
      e,
      o,
      fresh_stays connected later max_age r' h (moved e e' h self) (
          ap (λ m. is_expired later max_age r' (elim (get m h) [ none ↦ h | some p ↦ p ])) o.parent
          ∙ moved e e' (owner r h) up),
    )
  where
    moved :
        {r' q : Registry}
        → touch now h r ≡ some r'
        → touch now h r ≡ some q
        → (k : String) → is_expired later max_age q k ≡ false
        → is_expired later max_age r' k ≡ false
    moved {r'} {q} e e' k x =
        subst (λ (z : Registry). is_expired later max_age z k ≡ false) (ground (arith, e, e')) x

module _ {S Api : Type 0} (env : Env S Api) where
  -- A DataChannel or PeerConnection that only sends events is kept: the event is sent and refreshes its handle,
  -- and a sweep that reads the clock at most the maximal age, less one second, after the event
  -- leaves the resource, whatever the states of the connections are.
  pub event_keeps :
      (connected : ℕ → Bool) (now later late max_age : ℕ) (t : PionTrace) (m : Message)
      (w : World S Api)
      → IsConsistent w.registry
      → (m.handle == "") ≡ false
      → get w.registry.last_seen m.handle ≢ none
      → later + second ≤ now + max_age
      → (w' : World S Api) × (send_event env now m w ≡ some (m ∷ [], w'))
        × ((c : Collected) × (cleanup connected later late max_age t w'.registry ≡ some c)
            × (get c.registry.resources m.handle ≡ get w.registry.resources m.handle))
  unfolding send_event
  event_keeps connected now later late max_age t m w v named here soon =
      let (r, e, o, stays) =
        touched_stays connected now later max_age m.handle w.registry v here soon in
      let (c, done, left, _) =
        cleanup-removes connected later late max_age t r (OnlyStamps-IsConsistent o v) in
      (
        record w { registry = r },
        ground (arith, e, named),
        (c, done, ground (arith, (left m.handle).0, stays) ∙ ap (λ z. get z m.handle) o.resources),
      )
