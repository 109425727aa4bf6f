-- ===== src/Registry/Orphans.antt =====
-- A send state registered for a handle that is already gone: `startDCSendGoroutine` of handler.go runs
-- after `RegisterChild`, and another session's `Delete` or the sweeper may take the channel between.
use flutter_pion_bridge.Prelude.{
  ℕ, ◌≡◌, refl, String, true, none, some, List, get, put, length, arith, eq_iff, get-put,
}
use flutter_pion_bridge.Trace.{PionTrace}
use flutter_pion_bridge.Registry.{
  Registry, register_dc_send_state, lookup_dc_send_state, Collected, collect, not_found,
  delete_handle,
}
use flutter_pion_bridge.Registry.Cascade.{IsConsistent}
use flutter_pion_bridge.Registry.Reachable.Kept.{restate-IsConsistent}
use flutter_pion_bridge.Registry.Cleanup.{reap}
use flutter_pion_bridge.Registry.Cleanup.Sweep.{collect_list}

module _ (t : PionTrace) (h : String) (s : ℕ) (r : Registry) (v : IsConsistent r)
    (out : get r.resources h ≡ none) where
  abbrev orphaned : Registry
  orphaned = record r { dc_send_states = put r.dc_send_states h s }

  held : get orphaned.dc_send_states h ≡ some s
  held = ground (arith, get-put r.dc_send_states h h s, eq_iff h h)

  refused : delete_handle t h orphaned ≡ not_found
  unfolding delete_handle
  refused = rw (out, delete_handle)

  kept :
      (hs : List String)
      → (c : Collected) × (reap t orphaned hs ≡ some c) × (get c.registry.dc_send_states h ≡ some s)
  unfolding reap
  kept hs =
      let w = restate-IsConsistent r (put r.dc_send_states h s) v in
      let (c, e, m, _) = collect_list (length r.children) hs (collect t orphaned) (omega arith) w in
      (c, e, ground (arith, m.states h, held))

-- A send state that is registered for a handle without a resource is accepted and found by
-- `dc:send`, but `Delete` refuses the handle and no sweep over any list of handles removes the
-- state or hands it over to be closed.
pub orphan_state_stays :
    (t : PionTrace) (h : String) (s : ℕ) (r : Registry)
    → IsConsistent r
    → get r.resources h ≡ none
    → get r.dc_send_states h ≡ none
    → let r' = (register_dc_send_state h s r).1 in
      ((register_dc_send_state h s r).0 ≡ true)
      × (lookup_dc_send_state h r' ≡ some s)
      × (delete_handle t h r' ≡ not_found)
      × ((hs : List String)
          → (c : Collected) × (reap t r' hs ≡ some c) × (get c.registry.dc_send_states h ≡ some s))
unfolding register_dc_send_state lookup_dc_send_state
orphan_state_stays t h s r v out free =
    rw (free, register_dc_send_state)
      (refl, held t h s r v out, refused t h s r v out, kept t h s r v out)
