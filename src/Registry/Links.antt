-- ===== src/Registry/Links.antt =====
-- The two link maps of registry.go, `children` and `parent`, under `detach`.
use flutter_pion_bridge.Prelude.{
  ◌≡◌, ◌≢◌, sym, ap, ◌∙◌, subst, String, ◌==◌, Bool, true, false, none, some, get, put, elem, erase,
  elem-erase_ne, elem-erase_self, erase_none, erase-IsDistinct, IsDistinct, if◌then◌else◌, arith,
  eq_iff, get-put, get-delete, Bool-cases, Option-cases, ◌⊎◌, inl, inr,
}
use flutter_pion_bridge.Registry.{
  Resource, Registry, or_nil, kids, remove_dc_send_state, Collected, unlink, detach,
}

-- Every entry of a `children` list is backed by a `parent` entry, and stands there once.
pub record IsLinked (r : Registry) : Type 0 where
  pub sound : (p k : String) → elem k (kids r p) ≡ true → get r.parent k ≡ some p
  pub once : (p : String) → IsDistinct (kids r p)

-- `r'` is `r` without the handles that pass the test.
pub record Removes (gone : String → Bool) (r r' : Registry) : Type 0 where
  pub resources : (k : String) → get r'.resources k ≡ (if gone k then none else get r.resources k)
  pub last_seen : (k : String) → get r'.last_seen k ≡ (if gone k then none else get r.last_seen k)
  pub states :
      (k : String) → get r'.dc_send_states k ≡ (if gone k then none else get r.dc_send_states k)
  pub parent : (k : String) → get r'.parent k ≡ (if gone k then none else get r.parent k)
  pub listed : (p k : String) → elem k (kids r' p) ≡ (if gone k then false else elem k (kids r p))

-- The lists of the parents, once `handle` is unlinked.
kids-unlink :
    (h : String) (r : Registry) (q p : String)
    → get r.parent h ≡ some q
    → kids (unlink h r) p ≡ (if q == p then erase h (kids r p) else kids r p)
unfolding unlink
kids-unlink h r q p e = rw (e, unlink) (go (Bool-cases (elem h (kids r q))))
  where
    go :
        ((elem h (kids r q) ≡ true) ⊎ (elem h (kids r q) ≡ false))
        → or_nil (
            get (if elem h (kids r q) then put r.children q (erase h (kids r q)) else r.children) p)
          ≡ (if q == p then erase h (kids r p) else kids r p)
    go (inl listed) =
        rw listed (ground (arith, get-put r.children q p (erase h (kids r q)), eq_iff q p))
    go (inr absent) = rw absent (ground (arith, erase_none h (kids r q) absent, eq_iff q p))

kids-unlink_root : (h : String) (r : Registry) → get r.parent h ≡ none → unlink h r ≡ r
unfolding unlink
kids-unlink_root h r e = rw (e, unlink)

module _ (h : String) (r : Registry) (l : IsLinked r) where
  not_listed : (p : String) → get r.parent h ≢ some p → elem h (kids r p) ≡ false
  not_listed p other = elim (Bool-cases (elem h (kids r p))) [
    | inl e ↦ absurd (other (l.sound p h e))
    | inr e ↦ e
  ]

  listed-unlink :
      (p k : String) → elem k (kids (unlink h r) p) ≡ (if h == k then false else elem k (kids r p))
  listed-unlink p k = elim (Option-cases (get r.parent h)) [
    | inl root ↦ rw (kids-unlink_root h r root) (ground (arith, eq_iff h k, not_listed p (λ e. cc)))
    | inr (q, e) ↦ rw (kids-unlink h r q p e) (elim (Bool-cases (q == p)) [
      | inl same ↦ rw same (elim (Bool-cases (h == k)) [
        | inl self ↦ rw self (
            subst (λ x. elem x (erase h (kids r p)) ≡ false) ((eq_iff h k).0 self)
              (elem-erase_self h (kids r p) (l.once p)))
        | inr ne ↦ rw ne (elem-erase_ne h k (kids r p) ne)
      ])
      | inr other ↦
          rw other
            (ground (arith, eq_iff h k, eq_iff q p, not_listed p (λ f. ground (arith, eq_iff q p))))
    ])
  ]

  once-unlink : (p : String) → IsDistinct (kids (unlink h r) p)
  once-unlink p = elim (Option-cases (get r.parent h)) [
    | inl root ↦ rw (kids-unlink_root h r root) (l.once p)
    | inr (q, e) ↦ rw (kids-unlink h r q p e) (elim (Bool-cases (q == p)) [
      | inl same ↦ rw same (erase-IsDistinct h (kids r p) (l.once p))
      | inr other ↦ rw other (l.once p)
    ])
  ]

  parent-unlink :
      (k : String) → get (unlink h r).parent k ≡ (if h == k then none else get r.parent k)
  unfolding unlink
  parent-unlink k = ground (arith, get-delete r.parent h k, eq_iff h k)

unlink_frame :
    (h : String) (r : Registry)
    → ((unlink h r).resources ≡ r.resources)
      × ((unlink h r).last_seen ≡ r.last_seen)
      × ((unlink h r).dc_send_states ≡ r.dc_send_states)
unfolding unlink
unlink_frame h r = ground arith

remove_frame :
    (h : String) (r : Registry)
    → let r' = (remove_dc_send_state h r).1 in
      (r'.resources ≡ r.resources)
      × (r'.last_seen ≡ r.last_seen)
      × (r'.parent ≡ r.parent)
      × (r'.children ≡ r.children)
unfolding remove_dc_send_state
remove_frame h r = ground arith

states-remove :
    (h : String) (r : Registry) (k : String)
    → get (remove_dc_send_state h r).1.dc_send_states k
      ≡ (if h == k then none else get r.dc_send_states k)
unfolding remove_dc_send_state
states-remove h r k = ground (arith, get-delete r.dc_send_states h k, eq_iff h k)

-- `detach` takes out its handle and nothing else.
module _ (h : String) (res : Resource) (c : Collected) (l : IsLinked c.registry) where
  abbrev r₀ : Registry
  r₀ = (remove_dc_send_state h c.registry).1

  remove-IsLinked : IsLinked r₀
  remove-IsLinked = record {
    sound = λ p k e. ground (arith, l.sound p k, remove_frame h c.registry);
    once = λ p.
        subst (λ m. IsDistinct (or_nil (get m p))) (sym (remove_frame h c.registry).3) (l.once p);
  }

  pub detach-Removes : Removes (λ k. h == k) c.registry (detach h res c).registry
  unfolding detach
  detach-Removes = record {
    resources = λ k. ground (
      arith,
      get-delete (unlink h r₀).resources h k,
      unlink_frame h r₀,
      remove_frame h c.registry,
    );
    last_seen = λ k. ground (
      arith,
      get-delete (unlink h r₀).last_seen h k,
      unlink_frame h r₀,
      remove_frame h c.registry,
    );
    states = λ k. ground (arith, states-remove h c.registry k, unlink_frame h r₀);
    parent = λ k. ground (arith, parent-unlink h r₀ remove-IsLinked k, remove_frame h c.registry);
    listed = λ p k.
        listed-unlink h r₀ remove-IsLinked p k
        ∙ ap (λ m. if h == k then false else elem k (or_nil (get m p)))
            (remove_frame h c.registry).3;
  }

  pub detach-once : (p : String) → IsDistinct (kids (detach h res c).registry p)
  unfolding detach
  detach-once p = once-unlink h r₀ remove-IsLinked p
