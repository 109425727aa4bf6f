-- ===== src/Registry/Abstract/View.antt =====
-- The calls of registry.go one by one, seen through the table of their specification.
use mathlib.Core.Path.{fun_ext}
use flutter_pion_bridge.Prelude.{
  ℕ, ◌≡◌, ◌≢◌, refl, ap, ◌∙◌, subst, String, ◌==◌, Bool, none, some, List, get, length, elem, arith,
  eq_iff, get-put, get-delete, Option-cases, inl, inr,
}
use flutter_pion_bridge.Trace.{PionTrace}
use flutter_pion_bridge.Registry.{
  Resource, Registry, register_dc_send_state, remove_dc_send_state, register, register_child,
  lookup, Collected, collect, gone, delete_handle,
}
use flutter_pion_bridge.Registry.Links.{Removes}
use flutter_pion_bridge.Registry.Cascade.{IsConsistent}
use flutter_pion_bridge.Registry.Removed.{falls_with, delete_handle-Removes}
use flutter_pion_bridge.Registry.Cleanup.{reap}
use flutter_pion_bridge.Registry.Cleanup.Sweep.{falls, collect_list}
use flutter_pion_bridge.Registry.Cleanup.Walk.{OnlyStamps, touch_stamp-OnlyStamps}
use flutter_pion_bridge.Registry.Abstract.{
  Table, view, at_handle, but, drop, sweep, to_register, to_register_child, to_send, to_stop,
  to_delete, to_reap, perform,
}

Table-ext :
    (t u : Table)
    → ((k : String) → t.resource k ≡ u.resource k)
    → ((k : String) → t.owner_of k ≡ u.owner_of k)
    → ((k : String) → t.state k ≡ u.state k)
    → t ≡ u
Table-ext t u a b c =
    ap (λ f. record t { resource = f }) (fun_ext a)
    ∙ ap (λ f. record t { resource = u.resource; owner_of = f }) (fun_ext b)
    ∙ ap (λ f. record u { state = f }) (fun_ext c)

module _ (r : Registry) where
  pub view-register :
      (now : ℕ) (h : String) (res : Resource)
      → view (register now h res r) ≡ perform (to_register h res) (view r)
  unfolding view perform register at_handle
  view-register now h res = Table-ext _ _ (λ k. get-put r.resources h k res) (λ k. refl) (λ k. refl)

  pub view-register_child :
      (now : ℕ) (h : String) (res : Resource) (p : String)
      → view (register_child now h res p r) ≡ perform (to_register_child h res p) (view r)
  unfolding view perform register_child at_handle
  view-register_child now h res p =
      Table-ext _ _ (λ k. get-put r.resources h k res) (λ k. get-put r.parent h k p) (λ k. refl)

  pub view-send :
      (h : String) (s : ℕ) → view (register_dc_send_state h s r).1 ≡ perform (to_send h s) (view r)
  unfolding view perform register_dc_send_state at_handle
  view-send h s =
      Table-ext _ _ (λ k. ground arith) (λ k. ground arith)
        (λ k. ground (arith, get-put r.dc_send_states h k s, eq_iff h k))

  pub view-stop : (h : String) → view (remove_dc_send_state h r).1 ≡ perform (to_stop h) (view r)
  unfolding view perform remove_dc_send_state at_handle
  view-stop h =
      Table-ext _ _ (λ k. ground arith) (λ k. ground arith)
        (λ k. ground (arith, get-delete r.dc_send_states h k, eq_iff h k))

  pub view-Removes :
      {r' : Registry} {lost : String → Bool} → Removes lost r r' → view r' ≡ drop lost (view r)
  unfolding view but
  view-Removes m = Table-ext _ _ m.resources m.parent m.states

  pub view-OnlyStamps : {r' : Registry} → OnlyStamps r r' → view r' ≡ view r
  unfolding view
  view-OnlyStamps o =
      Table-ext _ _ (λ k. ap (λ m. get m k) o.resources) (λ k. ap (λ m. get m k) o.parent)
        (λ k. ap (λ m. get m k) o.states)

  pub view-look : (now : ℕ) (h : String) → view (lookup now h r).1 ≡ view r
  unfolding lookup
  view-look now h = elim (Option-cases (get r.resources h)) [
    | inl e ↦ rw (e, lookup)
    | inr (res, e) ↦ rw (e, lookup) (view-OnlyStamps (touch_stamp-OnlyStamps now h r))
  ]

  sweep-falls : (named : String → Bool) → falls r named ≡ sweep (view r) named
  unfolding sweep view
  sweep-falls named = fun_ext (λ k. elim (Option-cases (get r.parent k)) [
    | inl e ↦ rw e (ground arith)
    | inr (p, e) ↦ rw e (ground arith)
  ])

  sweep-falls_with :
      (h : String)
      → IsConsistent r
      → get r.resources h ≢ none
      → falls_with r h ≡ sweep (view r) (λ j. h == j)
  unfolding sweep view
  sweep-falls_with h v here = fun_ext (λ k. elim (Option-cases (get r.parent k)) [
    | inl e ↦ rw e (ground (arith, eq_iff h k))
    | inr (p, e) ↦ rw e (ground (arith, eq_iff h k, eq_iff h p, v.present k p e))
  ])

  pub view-delete :
      (t : PionTrace) (h : String) (c : Collected)
      → delete_handle t h r ≡ gone c
      → IsConsistent r
      → view c.registry ≡ perform (to_delete h) (view r)
  unfolding delete_handle perform
  view-delete t h c e v = elim (Option-cases (get r.resources h)) [
    | inl out ↦ absurd (ground arith)
    | inr (res, e0) ↦
        let here : get r.resources h ≢ none = λ q. cc in
        let (d, e', m, _, _, _, _) = delete_handle-Removes t h r v here in
        let same : d ≡ c = cc in
        subst (λ x. view x.registry ≡ drop (sweep (view r) (λ j. h == j)) (view r)) same
          (view-Removes (subst (λ g. Removes g r d.registry) (sweep-falls_with h v here) m))
  ]

  pub view-reap :
      (t : PionTrace) (hs : List String) (c : Collected)
      → reap t r hs ≡ some c
      → IsConsistent r
      → view c.registry ≡ perform (to_reap hs) (view r)
  unfolding reap perform
  view-reap t hs c e v =
      let (d, e', m, _) = collect_list (length r.children) hs (collect t r) (omega arith) v in
      let same : d ≡ c = cc in
      subst (λ x. view x.registry ≡ drop (sweep (view r) (λ j. elem j hs)) (view r)) same
        (view-Removes (subst (λ g. Removes g r d.registry) (sweep-falls (λ j. elem j hs)) m))
