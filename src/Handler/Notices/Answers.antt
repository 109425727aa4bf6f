-- ===== src/Handler/Notices/Answers.antt =====
-- How the answers of go/internal/pionserver/handler.go leave the record of the closed notifications.
use flutter_pion_bridge.Prelude.{
  ℕ, ◌≡◌, refl, sym, subst, String, ◌==◌, Bool, true, false, Option, none, some, List,
  if◌then◌else◌, Bool-cases, inl, inr,
}
use flutter_pion_bridge.Types.{Message}
use flutter_pion_bridge.Result.{Result, failed, ok}
use flutter_pion_bridge.Registry.{lookup}
use flutter_pion_bridge.Handler.{
  Draw, Env, World, lookup_pc, lookup_dc, or_return, notify_pc_closed,
}
use flutter_pion_bridge.Handler.Negotiate.{answer_sdp, answer_with}

-- What holds of the handles that the hook got and of those recorded.
unfoldable pub Noted :
    {S Api : Type 0} → (List String → List String → Type 0) → World S Api → Type 0
Noted Holds w = Holds w.notified w.closed_once

-- `Holds` is kept by a notification.
module _ {S Api : Type 0} (env : Env S Api) (Holds : List String → List String → Type 0)
    (kept : (h : String) (w : World S Api)
      → Noted Holds w
      → Noted Holds (notify_pc_closed env h w)) where
  pub moved :
      (w u : World S Api)
      → Noted Holds w
      → u.notified ≡ w.notified
      → u.closed_once ≡ w.closed_once
      → Noted Holds u
  unfolding Noted
  moved w u v n c =
      subst (λ l. Holds l u.closed_once) (sym n) (subst (λ l. Holds w.notified l) (sym c) v)

  pub guarded :
      (b : Bool) (m : Message) (w : World S Api) (out : Message × World S Api)
      → Noted Holds w
      → Noted Holds out.1
      → Noted Holds (if b then (m, w) else out).1
  guarded true m w out v h = v
  guarded false m w out v h = h

  returned :
      (r : Result Message ℕ) (w : World S Api) (k : ℕ → World S Api → Message × World S Api)
      → Noted Holds w
      → ((x : ℕ) → Noted Holds (k x w).1)
      → Noted Holds (or_return env (r, w) k).1
  returned (failed m) w k v h = v
  returned (ok x) w k v h = h x

  pub with_pc :
      (draw : Draw) (msg : Message) (w : World S Api) (k : ℕ → World S Api → Message × World S Api)
      → Noted Holds w
      → ((x : ℕ) (u : World S Api) → Noted Holds u → Noted Holds (k x u).1)
      → Noted Holds (or_return env (lookup_pc env draw msg w) k).1
  unfolding lookup_pc
  with_pc draw msg w k v h = elim (Bool-cases (msg.handle == "")) [
    | inl e ↦ rw e v
    | inr e ↦ rw e (
        let u = record w { registry = (lookup draw.now msg.handle w.registry).1 } in
        returned _ u k (moved w _ v refl refl) (λ x. h x u (moved w _ v refl refl)))
  ]

  pub with_dc :
      (draw : Draw) (msg : Message) (w : World S Api) (k : ℕ → World S Api → Message × World S Api)
      → Noted Holds w
      → ((x : ℕ) (u : World S Api) → Noted Holds u → Noted Holds (k x u).1)
      → Noted Holds (or_return env (lookup_dc env draw msg w) k).1
  unfolding lookup_dc
  with_dc draw msg w k v h = elim (Bool-cases (msg.handle == "")) [
    | inl e ↦ rw e v
    | inr e ↦ rw e (
        let u = record w { registry = (lookup draw.now msg.handle w.registry).1 } in
        returned _ u k (moved w _ v refl refl) (λ x. h x u (moved w _ v refl refl)))
  ]

  pub answer_sdp-Noted :
      (type : String) (msg : Message) (w : World S Api) (out : Result String String × S)
      → Noted Holds w
      → Noted Holds (answer_sdp env type msg w out).1
  unfolding Noted answer_sdp
  answer_sdp-Noted type msg w (failed x, s) v = v
  answer_sdp-Noted type msg w (ok x, s) v = v

  pub answer_with-Noted :
      (ack : S → Message) (msg : Message) (w : World S Api) (out : Option String × S)
      → Noted Holds w
      → Noted Holds (answer_with env ack msg w out).1
  unfolding Noted answer_with
  answer_with-Noted ack msg w (some x, s) v = v
  answer_with-Noted ack msg w (none, s) v = v
