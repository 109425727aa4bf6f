-- ===== src/Registry/Tests.antt =====
-- The model of registry.go on a PeerConnection with two DataChannels.
use flutter_pion_bridge.Prelude.{
  ℕ, ◌*◌, ◌≡◌, ◌≢◌, refl, String, true, false, none, some, List, [], ◌∷◌, ◌++◌, get, put, ◌=ℕ◌,
  if◌then◌else◌, arith, ◌⊎◌,
}
use flutter_pion_bridge.Trace.{PionTrace}
use flutter_pion_bridge.Trace.Slots.{start as no_slots}
use flutter_pion_bridge.Registry.{
  peer_connection, data_channel, Registry, new_registry, kids, second, register_dc_send_state,
  lookup_dc_send_state, register, register_child, Collected, not_found, gone, delete_handle,
}
use flutter_pion_bridge.Registry.Links.{Removes}
use flutter_pion_bridge.Registry.Removal.{closers_of, states_of, release_all}
use flutter_pion_bridge.Registry.Cascade.{IsConsistent}
use flutter_pion_bridge.Registry.Removed.{falls_with, delete_handle-Removes}
use flutter_pion_bridge.Registry.Termination.{delete_handle_total}
use flutter_pion_bridge.Registry.Reachable.{
  registers, adopts, sends, Reach, start, next, Reach-IsConsistent,
}
use flutter_pion_bridge.Registry.Cleanup.{cleanup, reap}
use flutter_pion_bridge.Registry.Cleanup.Walk.{owner}
use flutter_pion_bridge.Registry.Cleanup.Sweep.{falls}
use flutter_pion_bridge.Registry.Cleanup.Verdict.{doomed, cleanup-removes, cleanup_spares_connected}
use flutter_pion_bridge.Registry.Reachable.{deletes}
use flutter_pion_bridge.Registry.Abstract.{view, to_delete, call_of, perform}
use flutter_pion_bridge.Registry.Abstract.Histories.{view-Step}
use flutter_pion_bridge.Registry.Orphans.{orphan_state_stays}

abbrev minute : ℕ
minute = 60 * second

abbrev one_pc : Registry
one_pc = register minute "pc" (peer_connection 1) new_registry

abbrev one_dc : Registry
one_dc = register_child minute "a" (data_channel 2) "pc" one_pc

abbrev sending_dc : Registry
sending_dc = (register_dc_send_state "a" 70 one_dc).1

abbrev two_dcs : Registry
two_dcs = register_child minute "b" (data_channel 3) "pc" sending_dc

abbrev trace : PionTrace
trace = no_slots false

reach_one_pc : Reach one_pc
unfolding get
reach_one_pc = next start (
    registers minute "pc" (peer_connection 1)
      (record { unregistered = refl; unparented = refl; childless = refl }))

reach_one_dc : Reach one_dc
unfolding get put register
reach_one_dc = next reach_one_pc (
    adopts minute "a" (data_channel 2) "pc"
      (record { unregistered = refl; unparented = refl; childless = refl }) refl refl)

reach_two_dcs : Reach two_dcs
unfolding get put register register_child register_dc_send_state
reach_two_dcs = next (next reach_one_dc (sends "a" 70)) (
    adopts minute "b" (data_channel 3) "pc"
      (record { unregistered = refl; unparented = refl; childless = refl }) refl refl)

two_dcs-IsConsistent : IsConsistent two_dcs
two_dcs-IsConsistent = Reach-IsConsistent reach_two_dcs

Reach-IsConsistent_example : IsConsistent two_dcs
Reach-IsConsistent_example = Reach-IsConsistent reach_two_dcs

delete_handle_total_example :
    ((get two_dcs.resources "pc" ≡ none) × (delete_handle trace "pc" two_dcs ≡ not_found))
    ⊎ ((c : Collected) × (get two_dcs.resources "pc" ≢ none)
        × (delete_handle trace "pc" two_dcs ≡ gone c))
delete_handle_total_example = delete_handle_total trace "pc" two_dcs

pc_present : get two_dcs.resources "pc" ≢ none
unfolding get put register register_child register_dc_send_state
pc_present e = ground arith

delete_handle-Removes_example :
    (c : Collected) × (delete_handle trace "pc" two_dcs ≡ gone c)
    × Removes (falls_with two_dcs "pc") two_dcs c.registry
    × IsConsistent c.registry
    × (c.closers ≡ closers_of two_dcs (kids two_dcs "pc" ++ "pc" ∷ []))
    × (c.states ≡ states_of two_dcs (kids two_dcs "pc" ++ "pc" ∷ []))
    × (c.trace ≡ release_all trace (kids two_dcs "pc" ++ "pc" ∷ []))
delete_handle-Removes_example =
    delete_handle-Removes trace "pc" two_dcs two_dcs-IsConsistent pc_present

abbrev late : ℕ
late = 10 * minute

cleanup-removes_example :
    (c : Collected) × (cleanup (λ _. false) late late (5 * minute) trace two_dcs ≡ some c)
    × ((k : String)
        → (get c.registry.resources k ≡ (
            if falls two_dcs (doomed (λ _. false) late (5 * minute) two_dcs) k
            then none
            else get two_dcs.resources k))
          × (get c.registry.parent k ≡ (
              if falls two_dcs (doomed (λ _. false) late (5 * minute) two_dcs) k
              then none
              else get two_dcs.parent k))
          × (get c.registry.dc_send_states k ≡ (
              if falls two_dcs (doomed (λ _. false) late (5 * minute) two_dcs) k
              then none
              else get two_dcs.dc_send_states k)))
    × IsConsistent c.registry
cleanup-removes_example =
    cleanup-removes (λ _. false) late late (5 * minute) trace two_dcs two_dcs-IsConsistent

cleanup_spares_connected_example :
    (c : Collected) × (cleanup (λ pc. pc =ℕ 1) late late (5 * minute) trace two_dcs ≡ some c)
    × (get c.registry.resources "a" ≡ get two_dcs.resources "a")
    × (get c.registry.dc_send_states "a" ≡ get two_dcs.dc_send_states "a")
cleanup_spares_connected_example =
    cleanup_spares_connected (λ pc. pc =ℕ 1) late late (5 * minute) trace two_dcs "a" 1
      two_dcs-IsConsistent top refl
  where
    top : get two_dcs.resources (owner two_dcs "a") ≡ some (peer_connection 1)
    top = unfold get put register register_child register_dc_send_state in refl

orphan_state_stays_example :
    let r' = (register_dc_send_state "x" 71 two_dcs).1 in
    ((register_dc_send_state "x" 71 two_dcs).0 ≡ true)
    × (lookup_dc_send_state "x" r' ≡ some 71)
    × (delete_handle trace "x" r' ≡ not_found)
    × ((hs : List String)
        → (c : Collected) × (reap trace r' hs ≡ some c)
          × (get c.registry.dc_send_states "x" ≡ some 71))
unfolding get put register register_child register_dc_send_state
orphan_state_stays_example = orphan_state_stays trace "x" 71 two_dcs two_dcs-IsConsistent refl refl

abbrev after_delete : Collected
after_delete = (delete_handle-Removes trace "pc" two_dcs two_dcs-IsConsistent pc_present).0

after_delete_gone : delete_handle trace "pc" two_dcs ≡ gone after_delete
after_delete_gone = (delete_handle-Removes trace "pc" two_dcs two_dcs-IsConsistent pc_present).1

view-Step_example : view after_delete.registry ≡ perform (to_delete "pc") (view two_dcs)
unfolding call_of
view-Step_example =
    view-Step (deletes trace "pc" after_delete after_delete_gone) two_dcs-IsConsistent
