-- ===== src/Registry/Cleanup/Verdict.antt =====
-- The outcome of `Cleanup` in registry.go, handle by handle.
use mathlib.Core.Path.{fun_ext}
use flutter_pion_bridge.Prelude.{
  ℕ, ◌≡◌, ◌≢◌, refl, ap, ◌∙◌, subst, String, Bool, true, false, not, ◌&&◌, Option, none, some, List,
  [], ◌∷◌, Map, get, keys, length, elem, if◌then◌else◌, arith, eq_iff, Option-cases, inl, inr,
}
use flutter_pion_bridge.Trace.{PionTrace}
use flutter_pion_bridge.Registry.{Resource, peer_connection, Registry, Collected, collect}
use flutter_pion_bridge.Registry.Links.{Removes}
use flutter_pion_bridge.Registry.Cascade.{IsConsistent}
use flutter_pion_bridge.Registry.Cleanup.{
  is_expired, scan_keys, scan, is_live_peer_connection, select, reap, cleanup, cleanup_among,
}
use flutter_pion_bridge.Registry.Cleanup.Walk.{
  owner, root-owner, OnlyStamps-IsConsistent, touch_each_total,
}
use flutter_pion_bridge.Registry.Cleanup.Sweep.{falls, collect_list}

-- Expired, and its root is no connected PeerConnection.
abbrev pub doomed : (ℕ → Bool) → ℕ → ℕ → Registry → String → Bool
doomed connected now max_age r h =
    is_expired now max_age r h
    && not (is_live_peer_connection connected (get r.resources (owner r h)))

unfoldable pub found : ℕ → ℕ → Registry → List String → List (String × Option Resource)
found now max_age r [] = []
found now max_age r (h ∷ hs) =
    if is_expired now max_age r h
    then (h, get r.resources (owner r h)) ∷ found now max_age r hs
    else found now max_age r hs

pub scan_keys-found :
    (now max_age : ℕ) (r : Registry)
    → IsConsistent r
    → (hs : List String) → scan_keys now max_age r hs ≡ some (found now max_age r hs)
unfolding scan_keys found
scan_keys-found now max_age r v [] = refl
scan_keys-found now max_age r v (h ∷ hs) =
    rw (root-owner r v h, scan_keys-found now max_age r v hs) (ground arith)

elem-select :
    (connected : ℕ → Bool) (now max_age : ℕ) (r : Registry) (j : String) (hs : List String)
    → elem j (select connected false (found now max_age r hs))
      ≡ (elem j hs && doomed connected now max_age r j)
unfolding select found elem
elem-select connected now max_age r j [] = refl
elem-select connected now max_age r j (h ∷ hs) =
    ground (arith, elem-select connected now max_age r j hs, eq_iff h j)

pub elem-keys {ℓ} : {V : Type ℓ} (m : Map V) (k : String) → get m k ≢ none → elem k (keys m) ≡ true
unfolding get keys elem
elem-keys [] k h = absurd (h refl)
elem-keys ((j, v) ∷ m) k h = ground (arith, elem-keys m k)

pub unstamped :
    (now max_age : ℕ) (r : Registry) (j : String)
    → get r.last_seen j ≡ none
    → is_expired now max_age r j ≡ false
unfolding is_expired
unstamped now max_age r j e = rw (e, is_expired)

pub doomed-elem :
    (connected : ℕ → Bool) (now max_age : ℕ) (r : Registry) (j : String)
    → elem j (select connected false (found now max_age r (keys r.last_seen)))
      ≡ doomed connected now max_age r j
doomed-elem connected now max_age r j = elim (Option-cases (get r.last_seen j)) [
  | inl e ↦
      ground (
        arith,
        elem-select connected now max_age r j (keys r.last_seen),
        unstamped now max_age r j e,
      )
  | inr (st, e) ↦
      elem-select connected now max_age r j (keys r.last_seen)
      ∙ ap (λ b. b && doomed connected now max_age r j) (elem-keys r.last_seen j (λ q. cc))
]

pub falls-doomed :
    (connected : ℕ → Bool) (now max_age : ℕ) (r : Registry)
    → falls r (λ j. elem j (select connected false (found now max_age r (keys r.last_seen))))
      ≡ falls r (doomed connected now max_age r)
falls-doomed connected now max_age r = ap (falls r) (fun_ext (doomed-elem connected now max_age r))

-- From consistent maps a run of `Cleanup` returns. It removes exactly the handles that are expired
-- and whose root is no connected PeerConnection, and the children of such handles: every other
-- resource, link and send state stays, and the maps stay consistent.
pub cleanup-removes :
    (connected : ℕ → Bool) (now later max_age : ℕ) (t : PionTrace) (r : Registry)
    → IsConsistent r
    → (c : Collected) × (cleanup connected now later max_age t r ≡ some c)
      × ((k : String)
          → (get c.registry.resources k
              ≡ (if falls r (doomed connected now max_age r) k then none else get r.resources k))
            × (get c.registry.parent k
                ≡ (if falls r (doomed connected now max_age r) k then none else get r.parent k))
            × (get c.registry.dc_send_states k ≡ (
                if falls r (doomed connected now max_age r) k
                then none
                else get r.dc_send_states k)))
      × IsConsistent c.registry
unfolding cleanup cleanup_among scan reap
cleanup-removes connected now later max_age t r v =
    let all = found now max_age r (keys r.last_seen) in
    let (c, e, m, v') =
      collect_list (length r.children) (select connected false all) (collect t r) (omega arith) v in
    let (r', e', o) = touch_each_total later (select connected true all) c.registry v' in
    let m' = subst (λ g. Removes g r c.registry) (falls-doomed connected now max_age r) m in
    (
      record c { registry = r' },
      rw (scan_keys-found now max_age r v (keys r.last_seen)) (rw e (rw e')),
      λ k. (
        ap (λ z. get z k) o.resources ∙ m'.resources k,
        ap (λ z. get z k) o.parent ∙ m'.parent k,
        ap (λ z. get z k) o.states ∙ m'.states k,
      ),
      OnlyStamps-IsConsistent o v',
    )

stays_up :
    (connected : ℕ → Bool) (now max_age : ℕ) (r : Registry) (k : String) (pc : ℕ)
    → IsConsistent r
    → get r.resources (owner r k) ≡ some (peer_connection pc)
    → connected pc ≡ true
    → falls r (doomed connected now max_age r) k ≡ false
unfolding is_live_peer_connection
stays_up connected now max_age r k pc v top live = elim (Option-cases (get r.parent k)) [
  | inl e ↦ ground arith
  | inr (p, e) ↦ ground (arith, v.flat k p)
]

-- However long it has been quiet, a connected PeerConnection survives a run of `Cleanup`, and so do
-- the DataChannels registered under it.
pub cleanup_spares_connected :
    (connected : ℕ → Bool) (now later max_age : ℕ) (t : PionTrace) (r : Registry) (k : String)
    (pc : ℕ)
    → IsConsistent r
    → get r.resources (owner r k) ≡ some (peer_connection pc)
    → connected pc ≡ true
    → (c : Collected) × (cleanup connected now later max_age t r ≡ some c)
      × (get c.registry.resources k ≡ get r.resources k)
      × (get c.registry.dc_send_states k ≡ get r.dc_send_states k)
cleanup_spares_connected connected now later max_age t r k pc v top live =
    let (c, e, m, _) = cleanup-removes connected now later max_age t r v in
    let stays = stays_up connected now max_age r k pc v top live in
    (c, e, ground (arith, m k), ground (arith, m k))
