-- ===== src/Registry/Cleanup/Tests.antt =====
-- The model of `Cleanup` on two PeerConnections, registered in either order.
use flutter_pion_bridge.Prelude.{
  Bool-cases, inl, inr, subst, if◌then◌else◌, Map, get-put, false, ◌==◌, ℕ, ◌*◌, ◌≡◌, refl, String,
  false, some, get, put, ◌=ℕ◌, eq_iff,
}
use flutter_pion_bridge.Trace.Slots.{start as no_slots}
use flutter_pion_bridge.Registry.{
  peer_connection, Registry, new_registry, second, register, Collected,
}
use flutter_pion_bridge.Registry.Cascade.{IsConsistent}
use flutter_pion_bridge.Registry.Reachable.{registers, start, next, Reach-IsConsistent}
use flutter_pion_bridge.Registry.Cleanup.{cleanup, Meanwhile}
use flutter_pion_bridge.Registry.Cleanup.Same.{IsReordered, cleanup_same}

abbrev minute : ℕ
minute = 60 * second

abbrev xy : Registry
xy = register minute "y" (peer_connection 2) (register 0 "x" (peer_connection 1) new_registry)

abbrev yx : Registry
yx = register 0 "x" (peer_connection 1) (register minute "y" (peer_connection 2) new_registry)

xy-IsConsistent : IsConsistent xy
unfolding get put register
xy-IsConsistent = Reach-IsConsistent (
    next
      (next start (
        registers 0 "x" (peer_connection 1)
          (record { unregistered = refl; unparented = refl; childless = refl })))
      (registers minute "y" (peer_connection 2)
        (record { unregistered = refl; unparented = refl; childless = refl })))

yx-IsConsistent : IsConsistent yx
unfolding get put register
yx-IsConsistent = Reach-IsConsistent (
    next
      (next start (
        registers minute "y" (peer_connection 2)
          (record { unregistered = refl; unparented = refl; childless = refl })))
      (registers 0 "x" (peer_connection 1)
        (record { unregistered = refl; unparented = refl; childless = refl })))

-- Two keys are put in either order.
swapped :
    {V : Type 0} (m : Map V) (v w : V) (k : String)
    → get (put (put m "x" v) "y" w) k ≡ get (put (put m "y" w) "x" v) k
swapped {V} m v w k =
    rw
      (
        get-put (put m "x" v) "y" k w,
        get-put m "x" k v,
        get-put (put m "y" w) "x" k v,
        get-put m "y" k w,
      )
      (elim (Bool-cases ("x" == k)) [
        | inl e ↦ subst Fits ((eq_iff "x" k).0 e) refl
        | inr e ↦ rw e refl
      ])
  where
    Fits : String → Type 0
    Fits j =
        (if "y" == j then some w else if "x" == j then some v else get m j)
        ≡ (if "x" == j then some v else if "y" == j then some w else get m j)

xy-IsReordered : IsReordered xy yx
unfolding register
xy-IsReordered = record {
  resources = swapped new_registry.resources (peer_connection 1) (peer_connection 2);
  parent = λ k. refl;
  states = λ k. refl;
  last_seen = swapped new_registry.last_seen 0 minute;
}

cleanup_same_example :
    (c : Collected) × (d : Collected) × (cleanup
        (λ pc. pc =ℕ 2)
        (9 * minute)
        (9 * minute)
        (5 * minute)
        (no_slots false)
        xy
      ≡ some c)
    × (cleanup (λ pc. pc =ℕ 2) (9 * minute) (9 * minute) (5 * minute) (no_slots false) yx ≡ some d)
    × ((k : String)
        → (get c.registry.resources k ≡ get d.registry.resources k)
          × (get c.registry.parent k ≡ get d.registry.parent k)
          × (get c.registry.dc_send_states k ≡ get d.registry.dc_send_states k))
cleanup_same_example =
    cleanup_same (λ pc. pc =ℕ 2) (9 * minute) (9 * minute) (5 * minute) (no_slots false) xy yx
      xy-IsConsistent yx-IsConsistent xy-IsReordered

-- Another session creates PeerConnections all the time.
abbrev busy : Meanwhile
busy = record {
  before_reap = register (9 * minute) "z" (peer_connection 3);
  before_touch = λ h. register (9 * minute) "w" (peer_connection 4);
}
