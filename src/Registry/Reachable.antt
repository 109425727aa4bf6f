-- ===== src/Registry/Reachable.antt =====
-- Every history of the calls of registry.go, in any order and from any number of sessions.
pub mod Kept
use flutter_pion_bridge.Prelude.{
  ℕ, ◌≡◌, ◌≢◌, refl, ap, subst, String, ◌==◌, false, ◌||◌, none, some, List, [], ◌∷◌, ◌++◌, Map,
  get, put, delete, length, elem, elem-append, IsDistinct, if◌then◌else◌, arith, eq_iff, get-put,
  Bool-cases, Option-cases, inl, inr,
}
use flutter_pion_bridge.Trace.{PionTrace}
use flutter_pion_bridge.Registry.{
  Resource, Registry, new_registry, kids, register_dc_send_state, remove_dc_send_state, register,
  register_child, lookup, touch, Collected, collect, gone, delete_handle,
}
use flutter_pion_bridge.Registry.Cascade.{IsConsistent}
use flutter_pion_bridge.Registry.Removed.{delete_handle-Removes}
use flutter_pion_bridge.Registry.Cleanup.{reap}
use flutter_pion_bridge.Registry.Cleanup.Walk.{
  OnlyStamps-IsConsistent, touch_stamp-OnlyStamps, touch_total,
}
use flutter_pion_bridge.Registry.Cleanup.Sweep.{collect_list}
use flutter_pion_bridge.Registry.Reachable.Kept.{
  send-IsConsistent, stop-IsConsistent, look-IsConsistent, delete-IsConsistent, reap-IsConsistent,
}

-- What the program relies on of a UUID: the handle is nowhere in the maps.
pub record IsFresh (r : Registry) (h : String) : Type 0 where
  pub unregistered : get r.resources h ≡ none
  pub unparented : get r.parent h ≡ none
  pub childless : kids r h ≡ []

-- The critical sections, each under `r.mu`. `Cleanup` is a `reaps` with the handles that it found
-- some time before, and touches.
pub data Step (r : Registry) : Registry → Type 0 where
  registers : (now : ℕ) (h : String) (res : Resource) → IsFresh r h → Step r (register now h res r)
  adopts :
      (now : ℕ) (h : String) (res : Resource) (p : String)
      → IsFresh r h
      → get r.parent p ≡ none
      → (h == p) ≡ false
      → Step r (register_child now h res p r)
  sends : (h : String) (s : ℕ) → Step r (register_dc_send_state h s r).1
  stops : (h : String) → Step r (remove_dc_send_state h r).1
  looks : (now : ℕ) (h : String) → Step r (lookup now h r).1
  touches : (now : ℕ) (h : String) (r' : Registry) → touch now h r ≡ some r' → Step r r'
  deletes :
      (t : PionTrace) (h : String) (c : Collected)
      → delete_handle t h r ≡ gone c
      → Step r c.registry
  reaps :
      (t : PionTrace) (hs : List String) (c : Collected) → reap t r hs ≡ some c → Step r c.registry

pub data Reach : Registry → Type 0 where
  start : Reach new_registry
  next : {r s : Registry} → Reach r → Step r s → Reach s

new-IsConsistent : IsConsistent new_registry
unfolding get elem
new-IsConsistent = record {
  linked = record { sound = λ p k e. ground arith; once = λ p. tt };
  stamped = λ k. ground arith;
  present = λ k p e. ground arith;
  flat = λ k p e. ground arith;
}

pub register-IsConsistent :
    (now : ℕ) (h : String) (res : Resource) (r : Registry)
    → IsConsistent r
    → IsConsistent (register now h res r)
unfolding register
register-IsConsistent now h res r v = record {
  linked = record { sound = v.linked.sound; once = v.linked.once };
  stamped =
      λ k. ground (arith, get-put r.resources h k res, get-put r.last_seen h k now, v.stamped k);
  present = λ k p e. ground (arith, get-put r.resources h k res, v.present k p);
  flat = v.flat;
}

pub IsDistinct-snoc :
    (h : String) (xs : List String) → elem h xs ≡ false → IsDistinct xs → IsDistinct (xs ++ h ∷ [])
unfolding elem
IsDistinct-snoc h [] e d = (refl, tt)
IsDistinct-snoc h (x ∷ xs) e d = (
  ground (arith, elem-append x xs (h ∷ []), eq_iff x h, eq_iff h x),
  IsDistinct-snoc h xs (ground arith) d.1,
)

elem_none : (k : String) → elem k [] ≡ false
unfolding elem
elem_none k = refl

pub elem_one : (k h : String) → elem k (h ∷ []) ≡ (h == k)
unfolding elem
elem_one k h = ground arith

module _ (now : ℕ) (h : String) (res : Resource) (p : String) (r : Registry) (v : IsConsistent r)
    (fresh : IsFresh r h) where
  no_kids : (k : String) → get r.parent k ≢ some h
  no_kids k e = cc (elem_none k, ap (elem k) fresh.childless, (v.present k h e).1)

  kids-register_child :
      (q : String)
      → kids (register_child now h res p r) q ≡ (if p == q then kids r p ++ h ∷ [] else kids r q)
  unfolding register_child
  kids-register_child q = ground (arith, get-put r.children p q (kids r p ++ h ∷ []))

  unlisted : (q : String) → elem h (kids r q) ≡ false
  unlisted q = ground (arith, v.linked.sound q h, fresh.unparented)

  listed-register_child :
      (q k : String)
      → elem k (kids (register_child now h res p r) q)
        ≡ (if p == q then elem k (kids r p) || h == k else elem k (kids r q))
  listed-register_child q k =
      rw (kids-register_child q) (ground (arith, elem-append k (kids r p) (h ∷ []), elem_one k h))

  once-register_child : (q : String) → IsDistinct (kids (register_child now h res p r) q)
  once-register_child q = rw (kids-register_child q) (elim (Bool-cases (p == q)) [
    | inl same ↦ rw same (IsDistinct-snoc h (kids r p) (unlisted p) (v.linked.once p))
    | inr ne ↦ rw ne (v.linked.once q)
  ])

  register_child-IsConsistent :
      get r.parent p ≡ none → (h == p) ≡ false → IsConsistent (register_child now h res p r)
  unfolding register_child
  register_child-IsConsistent root other = record {
    linked = record {
      sound = λ q k e. ground (
        arith,
        listed-register_child q k,
        get-put r.parent h k p,
        v.linked.sound q k,
        eq_iff p q,
        eq_iff h k,
        unlisted q,
      );
      once = once-register_child;
    };
    stamped =
        λ k. ground (arith, get-put r.resources h k res, get-put r.last_seen h k now, v.stamped k);
    present = λ k q e. ground (
      arith,
      listed-register_child q k,
      get-put r.parent h k p,
      get-put r.resources h k res,
      v.present k q,
      eq_iff p q,
      eq_iff h k,
    );
    flat = λ k q e. ground (
      arith,
      get-put r.parent h k p,
      get-put r.parent h q p,
      v.flat k q,
      v.present k q,
      no_kids k,
      eq_iff h k,
      eq_iff h q,
      eq_iff h p,
    );
  }

Step-IsConsistent : {r s : Registry} → Step r s → IsConsistent r → IsConsistent s
Step-IsConsistent {r} (registers now h res fresh) v = register-IsConsistent now h res r v
Step-IsConsistent {r} (adopts now h res p fresh root other) v =
    register_child-IsConsistent now h res p r v fresh root other
Step-IsConsistent {r} (sends h s) v = send-IsConsistent h s r v
Step-IsConsistent {r} (stops h) v = stop-IsConsistent h r v
Step-IsConsistent {r} (looks now h) v = look-IsConsistent now h r v
Step-IsConsistent {r} (touches now h r' e) v =
    let (s, e', o) = touch_total now h r v in
    let same : s ≡ r' = cc in subst IsConsistent same (OnlyStamps-IsConsistent o v)
Step-IsConsistent {r} (deletes t h c e) v = delete-IsConsistent t h r c e v
Step-IsConsistent {r} (reaps t hs c e) v = reap-IsConsistent t hs r c e v

-- In every reachable state the maps agree: a handle has a stamp exactly when it has a resource, a
-- handle with a parent has a resource and stands once in that parent's list, every handle in a list
-- has that parent, and a parent has none itself.
pub Reach-IsConsistent : {r : Registry} → Reach r → IsConsistent r
Reach-IsConsistent start = new-IsConsistent
Reach-IsConsistent (next path s) = Step-IsConsistent s (Reach-IsConsistent path)
