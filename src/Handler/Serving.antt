-- ===== src/Handler/Serving.antt =====
-- How the handlers of go/internal/pionserver/handler.go use the registry: within its history, and so that
-- every child is a DataChannel.
use flutter_pion_bridge.Prelude.{
  false, ℕ, ◌≡◌, sym, ap, ◌∙◌, subst, String, ◌==◌, none, some, get, arith, eq_iff, get-put,
  Bool-cases, Option-cases, inl, inr,
}
use flutter_pion_bridge.Trace.{PionTrace}
use flutter_pion_bridge.Registry.{
  touch, peer_connection, data_channel, Registry, register, register_child, lookup, touch_stamp,
  register_dc_send_state, remove_dc_send_state, Collected, gone, delete_handle,
}
use flutter_pion_bridge.Registry.Links.{Removes}
use flutter_pion_bridge.Registry.Removed.{delete_handle-Removes, falls_with}
use flutter_pion_bridge.Registry.Termination.{delete_handle_total}
use flutter_pion_bridge.Registry.Cleanup.Walk.{OnlyStamps}
use flutter_pion_bridge.Registry.Reachable.{
  touches, IsFresh, registers, adopts, sends, stops, looks, deletes, Reach, next,
  Reach-IsConsistent,
}

pub record IsServed (r : Registry) : Type 0 where
  pub reach : Reach r
  pub typed :
      (k p : String)
      → get r.parent k ≡ some p
      → (dc : ℕ) × (get r.resources k ≡ some (data_channel dc))

pub lookup-resources :
    (now : ℕ) (h : String) (r : Registry) → (lookup now h r).1.resources ≡ r.resources
unfolding lookup touch_stamp
lookup-resources now h r = ground arith

pub lookup-parent : (now : ℕ) (h : String) (r : Registry) → (lookup now h r).1.parent ≡ r.parent
unfolding lookup touch_stamp
lookup-parent now h r = ground arith

pub lookup-children :
    (now : ℕ) (h : String) (r : Registry) → (lookup now h r).1.children ≡ r.children
unfolding lookup touch_stamp
lookup-children now h r = ground arith

pub lookup-get : (now : ℕ) (h : String) (r : Registry) → (lookup now h r).0 ≡ get r.resources h
unfolding lookup
lookup-get now h r = ground arith

pub lookup-IsServed :
    (now : ℕ) (h : String) (r : Registry) → IsServed r → IsServed (lookup now h r).1
lookup-IsServed now h r v = record {
  reach = next v.reach (looks now h);
  typed = λ k p e.
      let found = v.typed k p (ap (λ m. get m k) (sym (lookup-parent now h r)) ∙ e) in
      (found.0, ap (λ m. get m k) (lookup-resources now h r) ∙ found.1);
}

pub lookup-IsFresh :
    (now : ℕ) (h u : String) (r : Registry) → IsFresh r u → IsFresh (lookup now h r).1 u
lookup-IsFresh now h u r v = record {
  unregistered = ground (arith, lookup-resources now h r, v.unregistered);
  unparented = ground (arith, lookup-parent now h r, v.unparented);
  childless = ground (arith, lookup-children now h r, v.childless);
}

pub register-IsServed :
    (now : ℕ) (u : String) (pc : ℕ) (r : Registry)
    → IsFresh r u
    → IsServed r
    → IsServed (register now u (peer_connection pc) r)
unfolding register
register-IsServed now u pc r fresh v = record {
  reach = next v.reach (registers now u (peer_connection pc) fresh);
  typed = λ k p e.
      let found = v.typed k p e in
      (
        found.0,
        ground (
          arith,
          found.1,
          fresh.unparented,
          get-put r.resources u k (peer_connection pc),
          eq_iff u k,
        ),
      );
}

-- A DataChannel is adopted under a handle that is no DataChannel's, also where that handle is gone.
pub adopt_root-IsServed :
    (now : ℕ) (u : String) (dc : ℕ) (p : String) (r : Registry)
    → IsFresh r u
    → get r.parent p ≡ none
    → (u == p) ≡ false
    → IsServed r
    → IsServed (register_child now u (data_channel dc) p r)
unfolding register_child
adopt_root-IsServed now u dc p r fresh root other v = record {
  reach = next v.reach (adopts now u (data_channel dc) p fresh root other);
  typed = λ k q e. elim (Bool-cases (u == k)) [
    | inl same ↦ (dc, ground (arith, get-put r.resources u k (data_channel dc)))
    | inr ne ↦
        let found = v.typed k q (ground (arith, get-put r.parent u k p)) in
        (found.0, ground (arith, found.1, get-put r.resources u k (data_channel dc)))
  ];
}

pub adopt-IsServed :
    (now : ℕ) (u : String) (dc pc : ℕ) (p : String) (r : Registry)
    → IsFresh r u
    → get r.resources p ≡ some (peer_connection pc)
    → IsServed r
    → IsServed (register_child now u (data_channel dc) p r)
adopt-IsServed now u dc pc p r fresh here v =
    adopt_root-IsServed now u dc p r fresh root (ground (arith, fresh.unregistered, eq_iff u p)) v
  where
    root : get r.parent p ≡ none
    root = elim (Option-cases (get r.parent p)) [
      | inl e ↦ e
      | inr (q, e) ↦ absurd (ground (arith, (v.typed p q e).1))
    ]

pub send-IsServed :
    (h : String) (s : ℕ) (r : Registry) → IsServed r → IsServed (register_dc_send_state h s r).1
send-IsServed h s r v = record {
  reach = next v.reach (sends h s);
  typed = λ k p e. unfold register_dc_send_state in ground (arith, v.typed k p);
}

pub stop-IsServed : (h : String) (r : Registry) → IsServed r → IsServed (remove_dc_send_state h r).1
stop-IsServed h r v = record {
  reach = next v.reach (stops h);
  typed = λ k p e. unfold remove_dc_send_state in ground (arith, v.typed k p);
}

-- What a deletion leaves of a registry.
removed :
    (t : PionTrace) (h : String) (r : Registry) (c : Collected)
    → delete_handle t h r ≡ gone c
    → IsServed r
    → Removes (falls_with r h) r c.registry
removed t h r c e v = elim (delete_handle_total t h r) [
  | inl (absent, missing) ↦ absurd (ground arith)
  | inr (c', here, _) ↦
      let done = delete_handle-Removes t h r (Reach-IsConsistent v.reach) here in
      subst (λ (x : Collected). Removes (falls_with r h) r x.registry) (same done.0 done.1) done.2
]
  where
    same : (c' : Collected) → delete_handle t h r ≡ gone c' → c' ≡ c
    same c' q = ground (arith, e)

pub delete-IsServed :
    (t : PionTrace) (h : String) (r : Registry) (c : Collected)
    → delete_handle t h r ≡ gone c
    → IsServed r
    → IsServed c.registry
delete-IsServed t h r c e v = record {
  reach = next v.reach (deletes t h c e);
  typed = λ k p q.
      let m = removed t h r c e v in
      let found = v.typed k p (ground (arith, m.parent k, q)) in
      (found.0, ground (arith, m.parent k, m.resources k, found.1, q));
}

pub touched-IsServed :
    (now : ℕ) (h : String) (r r' : Registry)
    → touch now h r ≡ some r'
    → OnlyStamps r r'
    → IsServed r
    → IsServed r'
touched-IsServed now h r r' e o v = record {
  reach = next v.reach (touches now h r' e);
  typed = λ k p q.
      let found = v.typed k p (ap (λ m. get m k) (sym o.parent) ∙ q) in
      (found.0, ap (λ m. get m k) o.resources ∙ found.1);
}
