-- ===== src/Registry/Cleanup/Sweep.antt =====
-- What one run of `Cleanup` in registry.go removes and what it spares.
use mathlib.Core.Path.{fun_ext}
use flutter_pion_bridge.Prelude.{
  ℕ, suc, ◌≤◌, ◌≡◌, ◌≢◌, refl, subst, String, Bool, true, false, ◌&&◌, ◌||◌, none, some, List, [],
  ◌∷◌, get, length, elem, arith, eq_iff, Bool-cases, Option-cases, inl, inr,
}
use flutter_pion_bridge.Registry.{Registry, ◌>>=◌, Collected, collect_all, collect_locked}
use flutter_pion_bridge.Registry.Termination.{collect_locked_total}
use flutter_pion_bridge.Registry.Links.{Removes}
use flutter_pion_bridge.Registry.Cascade.{IsConsistent}
use flutter_pion_bridge.Registry.Removed.{
  Removes-IsConsistent, collect_present, falls_with, family_Removes,
}

abbrev pub has : Registry → String → Bool
has r k = elim (get r.resources k) [ none ↦ false | some _ ↦ true ]

-- A handle goes when it is reaped, or when the handle that it was registered under is.
abbrev pub falls : Registry → (String → Bool) → String → Bool
falls r doomed k =
    has r k && (doomed k || elim (get r.parent k) [ none ↦ false | some p ↦ doomed p && has r p ])

Removes-trans :
    {g g' : String → Bool} {r s t : Registry}
    → Removes g r s
    → Removes g' s t
    → Removes (λ k. g k || g' k) r t
Removes-trans a b = record {
  resources = λ k. ground (arith, a.resources k, b.resources k);
  last_seen = λ k. ground (arith, a.last_seen k, b.last_seen k);
  states = λ k. ground (arith, a.states k, b.states k);
  parent = λ k. ground (arith, a.parent k, b.parent k);
  listed = λ p k. ground (arith, a.listed p k, b.listed p k);
}

Removes-same : {g : String → Bool} (r : Registry) → ((k : String) → g k ≡ false) → Removes g r r
Removes-same r h = record {
  resources = λ k. ground (arith, h k);
  last_seen = λ k. ground (arith, h k);
  states = λ k. ground (arith, h k);
  parent = λ k. ground (arith, h k);
  listed = λ p k. ground (arith, h k);
}

-- The handles of a list, one after the other.
falls-cons_present :
    (r s : Registry) (h : String) (hs : List String)
    → IsConsistent r
    → get r.resources h ≢ none
    → Removes (falls_with r h) r s
    → (k : String)
    → (falls_with r h k || falls s (λ j. elem j hs) k) ≡ falls r (λ j. elem j (h ∷ hs)) k
unfolding elem
falls-cons_present r s h hs v here m k = elim (Option-cases (get r.parent k)) [
  | inl e ↦ ground (arith, m.resources k, m.parent k, eq_iff h k)
  | inr (p, e) ↦ ground (
    arith,
    m.resources k,
    m.parent k,
    m.resources p,
    v.flat k p,
    v.present k p,
    eq_iff h k,
    eq_iff h p,
  )
]

falls-cons_absent :
    (r : Registry) (h : String) (hs : List String)
    → get r.resources h ≡ none
    → (k : String) → falls r (λ j. elem j hs) k ≡ falls r (λ j. elem j (h ∷ hs)) k
unfolding elem
falls-cons_absent r h hs out k = elim (Option-cases (get r.parent k)) [
  | inl e ↦ ground (arith, eq_iff h k)
  | inr (p, e) ↦ ground (arith, eq_iff h k, eq_iff h p)
]

collect_absent :
    (f : ℕ) (h : String) (c : Collected)
    → get c.registry.resources h ≡ none
    → collect_locked (suc f) h c ≡ some c
unfolding collect_locked
collect_absent f h c e = rw (e, collect_locked)

children_le :
    (f : ℕ) (h : String) (c c' : Collected)
    → length c.registry.children ≤ f
    → collect_locked (suc f) h c ≡ some c'
    → length c'.registry.children ≤ length c.registry.children
children_le f h c c' room e =
    let (c'', e', le) = collect_locked_total (suc f) h c (omega arith) in
    let same : c'' ≡ c' = cc in
    subst (λ d. length d.registry.children ≤ length c.registry.children) same le

-- Reaping any list of handles, present or not, in any order, with the fuel of the first registry.
pub collect_list :
    (f : ℕ) (hs : List String) (c : Collected)
    → length c.registry.children ≤ f
    → IsConsistent c.registry
    → (c' : Collected) × (collect_all (collect_locked (suc f)) hs c ≡ some c')
      × Removes (falls c.registry (λ j. elem j hs)) c.registry c'.registry
      × IsConsistent c'.registry
unfolding collect_all
collect_list f [] c room v =
    (c, refl, Removes-same c.registry (λ k. unfold elem in ground arith), v)
collect_list f (h ∷ hs) c room v = elim (Bool-cases (has c.registry h)) [
  | inl here ↦
      let (c', e, took) = collect_present c v f h room (ground arith) in
      let shrunk = children_le f h c c' room e in
      let kept = Removes-IsConsistent took.removes took.once v in
      let gone_with = family_Removes h v took.removes in
      let (c'', e', m, v') = collect_list f hs c' (omega (arith, shrunk)) kept in
      (
        c'',
        rw (e, ◌>>=◌) e',
        subst (λ g. Removes g c.registry c''.registry)
            (fun_ext (falls-cons_present c.registry c'.registry h hs v (ground arith) gone_with))
            (Removes-trans gone_with m),
        v',
      )
  | inr out ↦
      let none_there : get c.registry.resources h ≡ none = ground arith in
      let (c', e, m, v') = collect_list f hs c room v in
      (
        c',
        rw (collect_absent f h c none_there, ◌>>=◌) e,
        subst (λ g. Removes g c.registry c'.registry)
            (fun_ext (falls-cons_absent c.registry h hs none_there)) m,
        v',
      )
]
