-- ===== src/Registry/Cascade.antt =====
-- `collectLocked` of registry.go on a consistent registry: a PeerConnection takes its DataChannels
-- with it, children first.
use flutter_pion_bridge.Prelude.{
  ℕ, suc, ◌≡◌, ◌≢◌, refl, ap, ◌∙◌, String, ◌==◌, true, false, none, some, List, [], ◌∷◌, ◌++◌, Map,
  get, delete, elem, nil_of_no_elem, IsDistinct, if◌then◌else◌, arith, eq_iff, get-delete,
  Bool-cases, Option-cases, inl, inr, ◌↔◌, All,
}
use mathlib.Core.List.{append-nil}
use flutter_pion_bridge.Registry.{
  Registry, kids, ◌>>=◌, Collected, detach, collect_all, drop_kids, collect_locked,
}
use flutter_pion_bridge.Registry.Links.{IsLinked}
use flutter_pion_bridge.Registry.Removal.{
  Took, Apart, Took-append, detach-Took, Removes-IsLinked, closers_of, states_of, release_all,
}

-- What every operation keeps. A DataChannel's parent need not be there: the PeerConnection may go
-- between the lookup of its handle and the registration of the channel.
pub record IsConsistent (r : Registry) : Type 0 where
  pub linked : IsLinked r
  pub stamped : (k : String) → (get r.last_seen k ≡ none) ↔ (get r.resources k ≡ none)
  pub present :
      (k p : String)
      → get r.parent k ≡ some p
      → (get r.resources k ≢ none) × (elem k (kids r p) ≡ true)
  pub flat : (k p : String) → get r.parent k ≡ some p → get r.parent p ≡ none

-- A handle with a resource and without children.
abbrev pub IsLeaf : Registry → String → Type 0
IsLeaf r k = (get r.resources k ≢ none) × (kids r k ≡ [])

pub kids-drop :
    (h p : String) (c : Collected)
    → kids (drop_kids h c).registry p ≡ (if h == p then [] else kids c.registry p)
kids-drop h p c = ground (arith, get-delete c.registry.children h p)

pub drop_kids-IsLinked :
    (h : String) (c : Collected) → IsLinked c.registry → IsLinked (drop_kids h c).registry
unfolding elem
drop_kids-IsLinked h c l = record {
  sound = λ p k e. ground (arith, kids-drop h p c, l.sound p k);
  once = λ p.
      rw (kids-drop h p c)
        (elim (Bool-cases (h == p)) [ inl same ↦ rw same tt | inr other ↦ rw other (l.once p) ]);
}

module _ (r : Registry) (m : Map (List String)) where
  closers_of_frame :
      (ks : List String) → closers_of (record r { children = m }) ks ≡ closers_of r ks
  unfolding closers_of
  closers_of_frame [] = refl
  closers_of_frame (k ∷ ks) = rw (closers_of_frame ks)

  states_of_frame : (ks : List String) → states_of (record r { children = m }) ks ≡ states_of r ks
  unfolding states_of
  states_of_frame [] = refl
  states_of_frame (k ∷ ks) = rw (states_of_frame ks)

-- The children's entry of a handle that goes is of no account.
pub drop_kids-Took :
    {names : List String} (h : String) (c c' : Collected)
    → ((x : String) → elem x (kids c.registry h) ≡ true → elem x names ≡ true)
    → Took names (drop_kids h c) c'
    → Took names c c'
unfolding elem
drop_kids-Took {names} h c c' all t = record {
  removes = record {
    resources = t.removes.resources;
    last_seen = t.removes.last_seen;
    states = t.removes.states;
    parent = t.removes.parent;
    listed = λ p k. ground (arith, t.removes.listed p k, kids-drop h p c, all k, eq_iff h p);
  };
  once = t.once;
  closers =
      t.closers
      ∙ ap (λ z. c.closers ++ z) (closers_of_frame c.registry (delete c.registry.children h) names);
  states =
      t.states
      ∙ ap (λ z. c.states ++ z) (states_of_frame c.registry (delete c.registry.children h) names);
  trace = t.trace;
}

collect_leaf :
    (f : ℕ) (k : String) (c : Collected)
    → IsLinked c.registry
    → IsLeaf c.registry k
    → (c' : Collected) × (collect_locked (suc f) k c ≡ some c') × Took (k ∷ []) c c'
unfolding collect_locked collect_all elem
collect_leaf f k c l leaf = elim (Option-cases (get c.registry.resources k)) [
  | inl e ↦ absurd (leaf.0 e)
  | inr (res, e) ↦ elim (Option-cases (get c.registry.children k)) [
    | inl bare ↦ (detach k res c, rw (e, bare, collect_locked), detach-Took k res c l e)
    | inr (ks, has) ↦
        let nil : ks ≡ [] = ground arith in
        (
          detach k res (drop_kids k c),
          rw (e, has, nil, collect_locked),
          drop_kids-Took k c _ (λ x q. ground (arith, leaf.1))
              (detach-Took k res (drop_kids k c) (drop_kids-IsLinked k c l) e),
        )
  ]
]

Apart-one : (k : String) (ks : List String) → elem k ks ≡ false → Apart (k ∷ []) ks
unfolding elem
Apart-one k [] h = tt
Apart-one k (j ∷ ks) h = (ground (arith, eq_iff k j, eq_iff j k), Apart-one k ks (ground arith))

leaves_left :
    {ns : List String} {c c' : Collected} (ks : List String)
    → Took ns c c'
    → Apart ns ks
    → All (IsLeaf c.registry) ks
    → All (IsLeaf c'.registry) ks
leaves_left [] t a l = tt
leaves_left {ns} {c} {c'} (k ∷ ks) t a l = (
  (
    ground (arith, t.removes.resources k, a.0, l.0),
    nil_of_no_elem (kids c'.registry k)
        (λ x. unfold elem in ground (arith, t.removes.listed k x, l.0)),
  ),
  leaves_left ks t a.1 l.1,
)

pub collect_leaves :
    (f : ℕ) (ks : List String) (c : Collected)
    → IsLinked c.registry
    → IsDistinct ks
    → All (IsLeaf c.registry) ks
    → (c' : Collected) × (collect_all (collect_locked (suc f)) ks c ≡ some c') × Took ks c c'
unfolding collect_all
collect_leaves f [] c l d a = (c, refl, nothing)
  where
    nothing : Took [] c c
    nothing =
        unfold elem closers_of states_of release_all in
        record {
          removes = record {
            resources = λ k. refl;
            last_seen = λ k. refl;
            states = λ k. refl;
            parent = λ k. refl;
            listed = λ p k. refl;
          };
          once = l.once;
          closers = rw append-nil;
          states = rw append-nil;
          trace = refl;
        }
collect_leaves f (k ∷ ks) c l d a =
    let (c', e, t) = collect_leaf f k c l a.0 in
    let apart = Apart-one k ks d.0 in
    let (c'', e', t') =
      collect_leaves f ks c' (Removes-IsLinked t.removes t.once l) d.1
        (leaves_left ks t apart a.1) in
    (c'', rw (e, ◌>>=◌) e', Took-append {ns = k ∷ []} {ms = ks} apart t t')
