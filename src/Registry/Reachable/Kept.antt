-- ===== src/Registry/Reachable/Kept.antt =====
-- The operations of registry.go that look, stop or delete keep its maps in agreement.
use flutter_pion_bridge.Prelude.{
  ℕ, ◌≡◌, subst, String, some, List, Map, get, put, delete, length, arith, Option-cases, inl, inr,
}
use flutter_pion_bridge.Trace.{PionTrace}
use flutter_pion_bridge.Registry.{
  Registry, register_dc_send_state, remove_dc_send_state, lookup, Collected, collect, gone,
  delete_handle,
}
use flutter_pion_bridge.Registry.Cascade.{IsConsistent}
use flutter_pion_bridge.Registry.Removed.{delete_handle-Removes}
use flutter_pion_bridge.Registry.Cleanup.{reap}
use flutter_pion_bridge.Registry.Cleanup.Walk.{OnlyStamps-IsConsistent, touch_stamp-OnlyStamps}
use flutter_pion_bridge.Registry.Cleanup.Sweep.{collect_list}

pub restate-IsConsistent :
    (r : Registry) (m : Map ℕ) → IsConsistent r → IsConsistent (record r { dc_send_states = m })
restate-IsConsistent r m v = record {
  linked = record { sound = v.linked.sound; once = v.linked.once };
  stamped = v.stamped;
  present = v.present;
  flat = v.flat;
}

pub send-IsConsistent :
    (h : String) (s : ℕ) (r : Registry)
    → IsConsistent r
    → IsConsistent (register_dc_send_state h s r).1
unfolding register_dc_send_state
send-IsConsistent h s r v = elim (Option-cases (get r.dc_send_states h)) [
  | inl e ↦ rw (e, register_dc_send_state) (restate-IsConsistent r (put r.dc_send_states h s) v)
  | inr (old, e) ↦ rw (e, register_dc_send_state) v
]

pub stop-IsConsistent :
    (h : String) (r : Registry) → IsConsistent r → IsConsistent (remove_dc_send_state h r).1
unfolding remove_dc_send_state
stop-IsConsistent h r v = elim (Option-cases (get r.dc_send_states h)) [
  | inl e ↦ rw (e, remove_dc_send_state) v
  | inr (old, e) ↦
      rw (e, remove_dc_send_state) (restate-IsConsistent r (delete r.dc_send_states h) v)
]

pub look-IsConsistent :
    (now : ℕ) (h : String) (r : Registry) → IsConsistent r → IsConsistent (lookup now h r).1
unfolding lookup
look-IsConsistent now h r v = elim (Option-cases (get r.resources h)) [
  | inl e ↦ rw (e, lookup) v
  | inr (res, e) ↦ rw (e, lookup) (OnlyStamps-IsConsistent (touch_stamp-OnlyStamps now h r) v)
]

pub delete-IsConsistent :
    (t : PionTrace) (h : String) (r : Registry) (c : Collected)
    → delete_handle t h r ≡ gone c
    → IsConsistent r
    → IsConsistent c.registry
unfolding delete_handle
delete-IsConsistent t h r c e v = elim (Option-cases (get r.resources h)) [
  | inl out ↦ absurd (ground arith)
  | inr (res, here) ↦
      let (d, e', _, kept, _, _, _) = delete_handle-Removes t h r v (λ q. cc) in
      let same : d ≡ c = cc in subst (λ x. IsConsistent x.registry) same kept
]

pub reap-IsConsistent :
    (t : PionTrace) (hs : List String) (r : Registry) (c : Collected)
    → reap t r hs ≡ some c
    → IsConsistent r
    → IsConsistent c.registry
unfolding reap
reap-IsConsistent t hs r c e v =
    let (d, e', _, kept) = collect_list (length r.children) hs (collect t r) (omega arith) v in
    let same : d ≡ c = cc in subst (λ x. IsConsistent x.registry) same kept
