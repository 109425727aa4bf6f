-- ===== src/Registry/Termination.antt =====
-- `collectLocked` of registry.go ends on every registry, one with a cycle among the children too.
use flutter_pion_bridge.Prelude.{
  ℕ, zero, suc, ◌<◌, ◌≤◌, ◌≡◌, ◌≢◌, refl, subst, String, Option, none, some, List, [], ◌∷◌, Map,
  get, put, length, elem, erase, if◌then◌else◌, arith, length-delete-lt, Option-cases, ◌⊎◌, inl,
  inr,
}
use flutter_pion_bridge.Trace.{PionTrace}
use flutter_pion_bridge.Registry.{
  Resource, Registry, or_nil, ◌>>=◌, remove_dc_send_state, Collected, unlink, detach, collect_all,
  drop_kids, collect_locked, fuel, collect, not_found, gone, delete_handle,
}

-- A call of `collect` that returns leaves no more entries in `children` than it found.
abbrev Shrinks : Collected → Option Collected → Type 0
Shrinks c o =
    (c' : Collected) × (o ≡ some c') × (length c'.registry.children ≤ length c.registry.children)

length-put_old {ℓ} :
    {V : Type ℓ} (m : Map V) (k : String) (v w : V)
    → get m k ≡ some w
    → length (put m k v) ≡ length m
unfolding get put
length-put_old [] k v w h = absurd (ground arith)
length-put_old ((j, u) ∷ m) k v w h = ground (arith, length-put_old m k v w)

children-unlink : (h : String) (r : Registry) → length (unlink h r).children ≤ length r.children
unfolding unlink elem
children-unlink h r = elim (Option-cases (get r.parent h)) [
  | inl e ↦ rw (e, unlink) (omega arith)
  | inr (p, e) ↦ rw (e, unlink) (set_kids p (get r.children p) refl)
]
  where
    set_kids :
        (p : String) (o : Option (List String))
        → get r.children p ≡ o
        → length (if elem h (or_nil o) then put r.children p (erase h (or_nil o)) else r.children)
          ≤ length r.children
    set_kids p none e = omega arith
    set_kids p (some ks) e = ground (arith, length-put_old r.children p (erase h ks) ks e)

children-remove : (h : String) (r : Registry) → (remove_dc_send_state h r).1.children ≡ r.children
unfolding remove_dc_send_state
children-remove h r = ground arith

children-detach :
    (h : String) (res : Resource) (c : Collected)
    → length (detach h res c).registry.children ≤ length c.registry.children
unfolding detach
children-detach h res c =
    subst (λ m. length (unlink h (remove_dc_send_state h c.registry).1).children ≤ length m)
      (children-remove h c.registry) (children-unlink h (remove_dc_send_state h c.registry).1)

collect_all_total :
    (n : ℕ) (collect_one : String → Collected → Option Collected)
    → ((h : String) (c : Collected) → length c.registry.children < n → Shrinks c (collect_one h c))
    → (hs : List String) (c : Collected) → length c.registry.children < n
    → Shrinks c (collect_all collect_one hs c)
unfolding collect_all
collect_all_total n one total [] c room = (c, refl, omega arith)
collect_all_total n one total (h ∷ hs) c room =
    let (c', e, le) = total h c room in
    let (c'', e', le') = collect_all_total n one total hs c' (omega arith) in
    (c'', rw (e, ◌>>=◌) e', omega arith)

-- With more fuel than `children` has entries the cascade returns.
pub collect_locked_total :
    (f : ℕ) (h : String) (c : Collected)
    → length c.registry.children < f
    → (c' : Collected) × (collect_locked f h c ≡ some c')
      × (length c'.registry.children ≤ length c.registry.children)
unfolding collect_locked
collect_locked_total zero h c room = absurd (omega arith)
collect_locked_total (suc f) h c room = elim (Option-cases (get c.registry.resources h)) [
  | inl e ↦ (c, rw (e, collect_locked), omega arith)
  | inr (res, e) ↦ elim (Option-cases (get c.registry.children h)) [
    | inl leaf ↦ (detach h res c, rw (e, leaf, collect_locked), children-detach h res c)
    | inr (ks, has) ↦
        let shorter = length-delete-lt c.registry.children h {v = ks} has in
        let (c', all, le) =
          collect_all_total f (collect_locked f) (collect_locked_total f) ks (drop_kids h c)
            (omega (arith, shorter)) in
        (
          detach h res c',
          rw (e, has, collect_locked) (rw (all, ◌>>=◌)),
          omega (arith, children-detach h res c', shorter),
        )
  ]
]

-- `Delete` always returns: it removes the handle or reports that it is not there, and never runs
-- out of the fuel that the model gives it, whatever the maps hold.
pub delete_handle_total :
    (t : PionTrace) (h : String) (r : Registry)
    → ((get r.resources h ≡ none) × (delete_handle t h r ≡ not_found))
      ⊎ ((c : Collected) × (get r.resources h ≢ none) × (delete_handle t h r ≡ gone c))
unfolding delete_handle
delete_handle_total t h r = elim (Option-cases (get r.resources h)) [
  | inl e ↦ inl (e, rw (e, delete_handle))
  | inr (res, e) ↦
      let (c, done, _) = collect_locked_total (fuel r) h (collect t r) (omega arith) in
      inr (c, λ p. cc, rw (e, delete_handle) (rw done))
]
