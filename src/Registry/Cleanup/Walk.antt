-- ===== src/Registry/Cleanup/Walk.antt =====
-- The walks up the parents in `Cleanup` and `Touch` of registry.go, on consistent maps.
use flutter_pion_bridge.Prelude.{
  ℕ, zero, suc, ◌<◌, ◌≡◌, refl, sym, ◌∙◌, subst, String, none, some, List, [], ◌∷◌, Map, get,
  length, IsDistinct, arith, eq_iff, get-put, Option-cases, inl, inr, ◌↔◌,
}
use flutter_pion_bridge.Registry.{Registry, or_nil, ◌>>=◌, touch_stamp, chain, touch_all, touch}
use flutter_pion_bridge.Registry.Cascade.{IsConsistent}
use flutter_pion_bridge.Registry.Cleanup.{root, touch_each, Meanwhile, undisturbed}

-- The owner of a DataChannel, or the handle itself.
abbrev pub owner : Registry → String → String
owner r h = elim (get r.parent h) [ none ↦ h | some p ↦ p ]

length_pos {ℓ} : {V : Type ℓ} (m : Map V) (k : String) (v : V) → get m k ≡ some v → 0 < length m
unfolding get
length_pos [] k v e = absurd (ground arith)
length_pos (x ∷ m) k v e = omega arith

root_top : (f : ℕ) (m : Map String) (h : String) → 0 < f → get m h ≡ none → root f m h ≡ some h
unfolding root
root_top zero m h pos e = absurd (omega arith)
root_top (suc f) m h pos e = rw (e, root)

pub root-owner :
    (r : Registry)
    → IsConsistent r
    → (h : String) → root (suc (length r.parent)) r.parent h ≡ some (owner r h)
unfolding root
root-owner r v h = elim (Option-cases (get r.parent h)) [
  | inl e ↦ rw (e, root) (rw (e, owner))
  | inr (p, e) ↦
      rw (e, root)
        (rw (e, owner)
          (root_top (length r.parent) r.parent p (length_pos r.parent h p e) (v.flat h p e)))
]

chain_top :
    (f : ℕ) (m : Map String) (h : String) → 0 < f → get m h ≡ none → chain f m h ≡ some (h ∷ [])
unfolding chain
chain_top zero m h pos e = absurd (omega arith)
chain_top (suc f) m h pos e = rw (e, chain)

abbrev pub line : Registry → String → List String
line r h = elim (get r.parent h) [ none ↦ h ∷ [] | some p ↦ h ∷ p ∷ [] ]

pub chain-line :
    (r : Registry)
    → IsConsistent r
    → (h : String) → chain (suc (length r.parent)) r.parent h ≡ some (line r h)
unfolding chain
chain-line r v h = elim (Option-cases (get r.parent h)) [
  | inl e ↦ rw (e, chain) (rw (e, line))
  | inr (p, e) ↦
      rw (e, chain)
        (rw (e, line)
          (rw (chain_top (length r.parent) r.parent p (length_pos r.parent h p e) (v.flat h p e))))
]

-- `Touch` changes stamps and nothing else, and never makes one up.
pub record OnlyStamps (r r' : Registry) : Type 0 where
  pub resources : r'.resources ≡ r.resources
  pub parent : r'.parent ≡ r.parent
  pub children : r'.children ≡ r.children
  pub states : r'.dc_send_states ≡ r.dc_send_states
  pub stamps : (k : String) → (get r'.last_seen k ≡ none) ↔ (get r.last_seen k ≡ none)

pub OnlyStamps-refl : (r : Registry) → OnlyStamps r r
OnlyStamps-refl r = record {
  resources = refl;
  parent = refl;
  children = refl;
  states = refl;
  stamps = λ k. (λ e. e, λ e. e);
}

OnlyStamps-trans : {r s t : Registry} → OnlyStamps r s → OnlyStamps s t → OnlyStamps r t
OnlyStamps-trans a b = record {
  resources = b.resources ∙ a.resources;
  parent = b.parent ∙ a.parent;
  children = b.children ∙ a.children;
  states = b.states ∙ a.states;
  stamps = λ k. (λ e. (a.stamps k).0 ((b.stamps k).0 e), λ e. (b.stamps k).1 ((a.stamps k).1 e));
}

pub touch_stamp-OnlyStamps :
    (now : ℕ) (h : String) (r : Registry) → OnlyStamps r (touch_stamp now h r)
unfolding touch_stamp
touch_stamp-OnlyStamps now h r = record {
  resources = ground arith;
  parent = ground arith;
  children = ground arith;
  states = ground arith;
  stamps = λ k. ground (arith, get-put r.last_seen h k now, eq_iff h k);
}

touch_all-OnlyStamps :
    (now : ℕ) (hs : List String) (r : Registry) → OnlyStamps r (touch_all now hs r)
unfolding touch_all
touch_all-OnlyStamps now [] r = OnlyStamps-refl r
touch_all-OnlyStamps now (h ∷ hs) r =
    OnlyStamps-trans (touch_stamp-OnlyStamps now h r)
      (touch_all-OnlyStamps now hs (touch_stamp now h r))

pub OnlyStamps-IsConsistent : {r r' : Registry} → OnlyStamps r r' → IsConsistent r → IsConsistent r'
OnlyStamps-IsConsistent o v = record {
  linked = record {
    sound = λ p k e. ground (arith, o.parent, o.children, v.linked.sound p k);
    once = λ p. subst (λ m. IsDistinct (or_nil (get m p))) (sym o.children) (v.linked.once p);
  };
  stamped = λ k. ground (arith, o.stamps k, o.resources, v.stamped k);
  present = λ k p e. ground (arith, o.resources, o.parent, o.children, v.present k p);
  flat = λ k p e. ground (arith, o.parent, v.flat k p);
}

-- On consistent maps `Touch` returns.
pub touch_total :
    (now : ℕ) (h : String) (r : Registry)
    → IsConsistent r
    → (r' : Registry) × (touch now h r ≡ some r') × OnlyStamps r r'
unfolding touch
touch_total now h r v = elim (Option-cases (get r.last_seen h)) [
  | inl e ↦ (r, rw (e, touch), OnlyStamps-refl r)
  | inr (st, e) ↦ (
    touch_all now (line r h) r,
    rw (e, touch) (rw (chain-line r v h)),
    touch_all-OnlyStamps now (line r h) r,
  )
]

pub touch_each_total :
    (now : ℕ) (hs : List String) (r : Registry)
    → IsConsistent r
    → (r' : Registry) × (touch_each undisturbed now hs r ≡ some r') × OnlyStamps r r'
unfolding touch_each
touch_each_total now [] r v = (r, refl, OnlyStamps-refl r)
touch_each_total now (h ∷ hs) r v =
    let (r', e, o) = touch_total now h r v in
    let (r'', e', o') = touch_each_total now hs r' (OnlyStamps-IsConsistent o v) in
    (r'', rw (e, ◌>>=◌) e', OnlyStamps-trans o o')

-- Other calls leave the maps consistent.
pub record KeepsConsistent (other : Meanwhile) : Type 0 where
  pub reaping : (r : Registry) → IsConsistent r → IsConsistent (other.before_reap r)
  pub touching :
      (h : String) (r : Registry) → IsConsistent r → IsConsistent (other.before_touch h r)

pub touch_each_among :
    (other : Meanwhile) (now : ℕ) (hs : List String) (r : Registry)
    → KeepsConsistent other
    → IsConsistent r
    → (r' : Registry) × (touch_each other now hs r ≡ some r') × IsConsistent r'
unfolding touch_each
touch_each_among other now [] r k v = (r, refl, v)
touch_each_among other now (h ∷ hs) r k v =
    let v' = k.touching h r v in
    let (r', e, o) = touch_total now h (other.before_touch h r) v' in
    let (r'', e', v'') = touch_each_among other now hs r' k (OnlyStamps-IsConsistent o v') in
    (r'', rw (e, ◌>>=◌) e', v'')
