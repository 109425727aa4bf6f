-- ===== src/Registry/Cleanup/Same.antt =====
-- `Cleanup` of registry.go ranges over its maps, an order that Go leaves open: the same handles are left.
use flutter_pion_bridge.Prelude.{
  ap, ◌∙◌, ℕ, ◌≡◌, String, Bool, some, get, arith, Option-cases, inl, inr,
}
use flutter_pion_bridge.Trace.{PionTrace}
use flutter_pion_bridge.Registry.{Registry, Collected}
use flutter_pion_bridge.Registry.Cascade.{IsConsistent}
use flutter_pion_bridge.Registry.Cleanup.{is_live_peer_connection, cleanup, is_expired}
use flutter_pion_bridge.Registry.Cleanup.Walk.{owner}
use flutter_pion_bridge.Registry.Cleanup.Sweep.{falls}
use flutter_pion_bridge.Registry.Cleanup.Verdict.{doomed, cleanup-removes}

-- The same entries, in whatever order.
pub record IsReordered (r s : Registry) : Type 0 where
  pub resources : (k : String) → get r.resources k ≡ get s.resources k
  pub parent : (k : String) → get r.parent k ≡ get s.parent k
  pub states : (k : String) → get r.dc_send_states k ≡ get s.dc_send_states k
  pub last_seen : (k : String) → get r.last_seen k ≡ get s.last_seen k

module _ {r s : Registry} (o : IsReordered r s) where
  owner-IsReordered : (k : String) → owner r k ≡ owner s k
  owner-IsReordered k = ground (arith, o.parent k)

  is_expired-IsReordered :
      (now max_age : ℕ) (k : String) → is_expired now max_age r k ≡ is_expired now max_age s k
  unfolding is_expired
  is_expired-IsReordered now max_age k = ground (arith, o.last_seen k)

  doomed-IsReordered :
      (connected : ℕ → Bool) (now max_age : ℕ) (k : String)
      → doomed connected now max_age r k ≡ doomed connected now max_age s k
  doomed-IsReordered connected now max_age k =
      let top = o.resources (owner r k) ∙ ap (get s.resources) (owner-IsReordered k) in
      let live = ap (is_live_peer_connection connected) top in
      cc (live, is_expired-IsReordered now max_age k)

  falls-IsReordered :
      (connected : ℕ → Bool) (now max_age : ℕ) (k : String)
      → falls r (doomed connected now max_age r) k ≡ falls s (doomed connected now max_age s) k
  falls-IsReordered connected now max_age k = elim (Option-cases (get s.parent k)) [
    | inl e ↦ ground (arith, o.parent k, o.resources k, doomed-IsReordered connected now max_age k)
    | inr (p, e) ↦ ground (
      arith,
      o.parent k,
      o.resources k,
      o.resources p,
      doomed-IsReordered connected now max_age k,
      doomed-IsReordered connected now max_age p,
    )
  ]

-- Two runs of `Cleanup` at the same time, from consistent registries with the same entries in
-- different orders, return and leave every handle with the same resource, parent and send state. The
-- order in which closers are called and trace slots are freed may differ.
pub cleanup_same :
    (connected : ℕ → Bool) (now later max_age : ℕ) (t : PionTrace) (r s : Registry)
    → IsConsistent r
    → IsConsistent s
    → IsReordered r s
    → (c : Collected) × (d : Collected) × (cleanup connected now later max_age t r ≡ some c)
      × (cleanup connected now later max_age t s ≡ some d)
      × ((k : String)
          → (get c.registry.resources k ≡ get d.registry.resources k)
            × (get c.registry.parent k ≡ get d.registry.parent k)
            × (get c.registry.dc_send_states k ≡ get d.registry.dc_send_states k))
cleanup_same connected now later max_age t r s v w o =
    let (c, e, m, _) = cleanup-removes connected now later max_age t r v in
    let (d, e', n, _) = cleanup-removes connected now later max_age t s w in
    (
      c,
      d,
      e,
      e',
      λ k. (
        ground (arith, m k, n k, falls-IsReordered o connected now max_age k, o.resources k),
        ground (arith, m k, n k, falls-IsReordered o connected now max_age k, o.parent k),
        ground (arith, m k, n k, falls-IsReordered o connected now max_age k, o.states k),
      ),
    )
