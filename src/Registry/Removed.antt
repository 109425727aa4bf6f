-- ===== src/Registry/Removed.antt =====
-- `Delete` of registry.go: exactly the handle and its children go, and the maps stay consistent.
use flutter_pion_bridge.Prelude.{
  ℕ, zero, suc, ◌≤◌, ◌≡◌, ◌≢◌, subst, String, ◌==◌, Bool, true, false, ◌||◌, none, some, List, [],
  ◌∷◌, ◌++◌, get, length, elem, elem-append, nil_of_no_elem, IsDistinct, arith, eq_iff,
  length-delete-lt, Option-cases, inl, inr, All,
}
use mathlib.Core.Path.{fun_ext}
use flutter_pion_bridge.Trace.{PionTrace}
use flutter_pion_bridge.Registry.{
  Resource, Registry, kids, ◌>>=◌, Collected, detach, drop_kids, collect_locked, collect, gone,
  delete_handle,
}
use flutter_pion_bridge.Registry.Links.{Removes}
use flutter_pion_bridge.Registry.Removal.{
  Took, Took-append, detach-Took, Removes-IsLinked, closers_of, states_of, release_all,
}
use flutter_pion_bridge.Registry.Cascade.{
  IsConsistent, IsLeaf, collect_leaves, drop_kids-IsLinked, drop_kids-Took, kids-drop,
}

pub Removes-IsConsistent :
    {lost : String → Bool} {r r' : Registry}
    → Removes lost r r'
    → ((p : String) → IsDistinct (kids r' p))
    → IsConsistent r
    → IsConsistent r'
Removes-IsConsistent m once v = record {
  linked = Removes-IsLinked m once v.linked;
  stamped = λ k. ground (arith, m.resources k, m.last_seen k, v.stamped k);
  present = λ k p e. ground (arith, m.parent k, m.resources k, m.listed p k, v.present k p);
  flat = λ k p e. ground (arith, m.parent k, m.parent p, v.flat k p);
}

module _ (c : Collected) (v : IsConsistent c.registry) where
  IsLeaf-child :
      (h k : String) → elem k (kids c.registry h) ≡ true → IsLeaf (drop_kids h c).registry k
  IsLeaf-child h k e =
      let up = v.linked.sound h k e in
      (
        (v.present k h up).0,
        nil_of_no_elem (kids (drop_kids h c).registry k)
            λ x. unfold elem in ground (arith, kids-drop h k c, v.linked.sound k x, v.flat x k),
      )

  All-leaves :
      (h : String) (ks : List String)
      → ((k : String) → elem k ks ≡ true → elem k (kids c.registry h) ≡ true)
      → All (IsLeaf (drop_kids h c).registry) ks
  unfolding elem
  All-leaves h [] sub = tt
  All-leaves h (k ∷ ks) sub = (
    IsLeaf-child h k (sub k (ground (arith, eq_iff k k))),
    All-leaves h ks (λ j e. sub j (ground arith)),
  )

  not_own_child : (h : String) → elem h (kids c.registry h) ≡ false
  not_own_child h = ground (arith, v.linked.sound h h, v.flat h h)

  collect_family :
      (f : ℕ) (h : String) (res : Resource) (ks : List String)
      → length c.registry.children ≤ f
      → get c.registry.resources h ≡ some res
      → get c.registry.children h ≡ some ks
      → (c' : Collected) × (collect_locked (suc f) h c ≡ some c')
        × Took (kids c.registry h ++ h ∷ []) c c'
  unfolding collect_locked
  collect_family zero h res ks room e has =
      absurd (omega (arith, length-delete-lt c.registry.children h {v = ks} has))
  collect_family (suc f) h res ks room e has =
      let d = drop_kids-IsLinked h c v.linked in
      let own = not_own_child h in
      let (c', all, t) =
        collect_leaves f ks (drop_kids h c) d (rw has at (v.linked.once h))
          (All-leaves h ks (λ k q. rw has q)) in
      let here : get c'.registry.resources h ≡ some res = ground (arith, t.removes.resources h) in
      let t' = detach-Took h res c' (Removes-IsLinked t.removes t.once d) here in
      (
        detach h res c',
        rw (e, has, collect_locked) (rw (all, ◌>>=◌)),
        rw has (
            drop_kids-Took h c _ (λ x q. unfold elem in ground (arith, elem-append x ks (h ∷ [])))
              (Took-append {ns = ks} {ms = h ∷ []} (rw has at own, tt) t t')),
      )

  -- A handle that is there goes, its children before it.
  pub collect_present :
      (f : ℕ) (h : String)
      → length c.registry.children ≤ f
      → get c.registry.resources h ≢ none
      → (c' : Collected) × (collect_locked (suc f) h c ≡ some c')
        × Took (kids c.registry h ++ h ∷ []) c c'
  unfolding collect_locked
  collect_present f h room here = elim (Option-cases (get c.registry.resources h)) [
    | inl e ↦ absurd (here e)
    | inr (res, e) ↦ elim (Option-cases (get c.registry.children h)) [
      | inl bare ↦
          (detach h res c, rw (e, bare, collect_locked), rw bare (detach-Took h res c v.linked e))
      | inr (ks, has) ↦ collect_family f h res ks room e has
    ]
  ]

-- `h` is the handle itself or a DataChannel that was registered under it.
abbrev pub falls_with : Registry → String → String → Bool
falls_with r h k = h == k || elim (get r.parent k) [ none ↦ false | some p ↦ h == p ]

elem-family :
    (r : Registry)
    → IsConsistent r
    → (h k : String) → elem k (kids r h ++ h ∷ []) ≡ falls_with r h k
unfolding elem
elem-family r v h k = rw (elem-append k (kids r h) (h ∷ [])) (elim (Option-cases (get r.parent k)) [
  | inl root ↦ rw root (ground (arith, v.linked.sound h k))
  | inr (p, e) ↦ rw e (ground (arith, v.linked.sound h k, v.present k p e, eq_iff h p, eq_iff h k))
])

pub family_Removes :
    {r r' : Registry} (h : String)
    → IsConsistent r
    → Removes (λ k. elem k (kids r h ++ h ∷ [])) r r'
    → Removes (falls_with r h) r r'
family_Removes {r} {r'} h v m = subst (λ g. Removes g r r') (fun_ext (elem-family r v h)) m

-- On consistent maps `Delete` of a handle that is there takes out exactly the handle and the
-- DataChannels registered under it: every map loses their entries and keeps all others, the maps
-- stay consistent, and the resources to close and the send states to shut down are theirs, those of
-- the DataChannels before that of the handle, each trace slot released once.
pub delete_handle-Removes :
    (t : PionTrace) (h : String) (r : Registry)
    → IsConsistent r
    → get r.resources h ≢ none
    → (c : Collected) × (delete_handle t h r ≡ gone c)
      × Removes (falls_with r h) r c.registry
      × IsConsistent c.registry
      × (c.closers ≡ closers_of r (kids r h ++ h ∷ []))
      × (c.states ≡ states_of r (kids r h ++ h ∷ []))
      × (c.trace ≡ release_all t (kids r h ++ h ∷ []))
unfolding delete_handle
delete_handle-Removes t h r v here = elim (Option-cases (get r.resources h)) [
  | inl e ↦ absurd (here e)
  | inr (res, e) ↦
      let (c, done, took) =
        collect_present (collect t r) v (length r.children) h (omega arith) here in
      (
        c,
        rw (e, delete_handle) (rw done),
        family_Removes h v took.removes,
        Removes-IsConsistent took.removes took.once v,
        took.closers,
        took.states,
        took.trace,
      )
]
