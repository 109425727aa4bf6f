-- ===== src/Handler/Notices.antt =====
-- The closed notifications of go/internal/pionserver/hooks.go.
pub mod Answers
pub mod Requests
use flutter_pion_bridge.Prelude.{
  ◌≡◌, String, ◌==◌, Bool, true, false, ◌||◌, List, [], ◌∷◌, ◌++◌, elem, IsDistinct, elem-append,
  arith, eq_iff, Bool-cases, inl, inr, if◌then◌else◌,
}
use flutter_pion_bridge.Registry.Reachable.{IsDistinct-snoc, elem_one}
use flutter_pion_bridge.Handler.{Env, World, notify_pc_closed}

-- Every call of the hook is recorded in `closedOnce`, and no handle is given to it twice.
pub record IsNoticed (notified closed_once : List String) : Type 0 where
  pub once : IsDistinct notified
  pub noted : (k : String) → elem k notified ≡ true → elem k closed_once ≡ true

-- A handle that is recorded, and whether the hook has got it.
pub record IsRecorded (k : String) (got : Bool) (notified closed_once : List String) : Type 0 where
  pub here : elem k closed_once ≡ true
  pub same : elem k notified ≡ got

elem_cons : (k h : String) (l : List String) → elem k (h ∷ l) ≡ ((h == k) || elem k l)
unfolding elem
elem_cons k h l = ground arith

module _ {S Api : Type 0} (env : Env S Api) where
  shape :
      (b : Bool) (P : List String → Type 0) (w : World S Api) (h : String)
      → P w.notified
      → P (w.notified ++ h ∷ [])
      → P (if b then w.notified ++ h ∷ [] else w.notified)
  shape true P w h p q = q
  shape false P w h p q = p

  pub notify-IsNoticed :
      (h : String) (w : World S Api)
      → IsNoticed w.notified w.closed_once
      → IsNoticed (notify_pc_closed env h w).notified (notify_pc_closed env h w).closed_once
  unfolding notify_pc_closed
  notify-IsNoticed h w v = elim (Bool-cases (elem h w.closed_once)) [
    | inl e ↦ rw e v
    | inr e ↦ rw e (record {
      once =
          shape w.closed_hook (λ l. IsDistinct l) w h v.once
            (IsDistinct-snoc h w.notified (ground (arith, v.noted h)) v.once);
      noted = λ k q. ground (
        arith,
        eq_iff k h,
        eq_iff h k,
        v.noted k,
        elem-append k w.notified (h ∷ []),
        elem_one k h,
        elem_cons k h w.closed_once,
      );
    })
  ]

  pub notify-IsRecorded :
      (k : String) (got : Bool) (h : String) (w : World S Api)
      → IsRecorded k got w.notified w.closed_once
      → IsRecorded k got (notify_pc_closed env h w).notified (notify_pc_closed env h w).closed_once
  unfolding notify_pc_closed
  notify-IsRecorded k got h w v = elim (Bool-cases (elem h w.closed_once)) [
    | inl e ↦ rw e v
    | inr e ↦ rw e (record {
      here = ground (arith, v.here, elem_cons k h w.closed_once);
      same =
          shape w.closed_hook (λ l. elem k l ≡ got) w h v.same
            (ground (
              arith,
              e,
              v.here,
              v.same,
              eq_iff k h,
              eq_iff h k,
              elem-append k w.notified (h ∷ []),
              elem_one k h,
            ));
    })
  ]
