-- ===== src/Handler/Kept.antt =====
-- What the helpers of the handlers of go/internal/pionserver/handler.go do to the registry.
pub mod Channels
use flutter_pion_bridge.Prelude.{
  ℕ, ◌≡◌, refl, sym, ◌∙◌, subst, String, ◌==◌, Bool, true, false, Option, none, some, get,
  if◌then◌else◌, arith, Bool-cases, inl, inr,
}
use flutter_pion_bridge.Types.{Message}
use flutter_pion_bridge.Result.{Result, failed, ok}
use flutter_pion_bridge.Registry.{Resource, peer_connection, data_channel, Registry, lookup}
use flutter_pion_bridge.Handler.{
  Draw, Env, World, lookup_pc, lookup_dc, or_return, as_pc, as_dc, notify_pc_closed,
}
use flutter_pion_bridge.Handler.Negotiate.{answer_sdp, answer_with}
use flutter_pion_bridge.Handler.Serving.{IsServed, lookup-get, lookup-IsServed}

module _ {S Api : Type 0} (env : Env S Api) where
  abbrev pub Serves : Message × World S Api → Type 0
  Serves out = IsServed out.1.registry

  pub answer_sdp-registry :
      (type : String) (msg : Message) (w : World S Api) (out : Result String String × S)
      → (answer_sdp env type msg w out).1.registry ≡ w.registry
  unfolding answer_sdp
  answer_sdp-registry type msg w (failed x, s) = refl
  answer_sdp-registry type msg w (ok x, s) = refl

  pub answer_with-registry :
      (ack : S → Message) (msg : Message) (w : World S Api) (out : Option String × S)
      → (answer_with env ack msg w out).1.registry ≡ w.registry
  unfolding answer_with
  answer_with-registry ack msg w (some x, s) = refl
  answer_with-registry ack msg w (none, s) = refl

  pub notify-registry :
      (h : String) (w : World S Api) → (notify_pc_closed env h w).registry ≡ w.registry
  unfolding notify_pc_closed
  notify-registry h w = ground arith

  -- A handler goes on with the registry that `Lookup` left, and the object found under the handle.
  returned :
      (res : ℕ → Resource) (o : Option Resource) (r : Result Message ℕ) (w : World S Api)
      (k : ℕ → World S Api → Message × World S Api)
      → ((x : ℕ) → r ≡ ok x → o ≡ some (res x))
      → IsServed w.registry
      → ((x : ℕ) → o ≡ some (res x) → Serves (k x w))
      → Serves (or_return env (r, w) k)
  returned res o (failed m) w k f v h = v
  returned res o (ok x) w k f v h = h x (f x refl)

  as_pc_ok :
      (msg : Message) (o : Option Resource) (x : ℕ)
      → as_pc env msg o ≡ ok x
      → o ≡ some (peer_connection x)
  as_pc_ok msg none x e = absurd (ground arith)
  as_pc_ok msg (some (peer_connection n)) x e = ground arith
  as_pc_ok msg (some _) x e = absurd (ground arith)

  as_dc_ok :
      (msg : Message) (o : Option Resource) (x : ℕ)
      → as_dc env msg o ≡ ok x
      → o ≡ some (data_channel x)
  as_dc_ok msg none x e = absurd (ground arith)
  as_dc_ok msg (some (data_channel n)) x e = ground arith
  as_dc_ok msg (some _) x e = absurd (ground arith)

  pub with_pc :
      (draw : Draw) (msg : Message) (w : World S Api) (k : ℕ → World S Api → Message × World S Api)
      → IsServed w.registry
      → ((pc : ℕ) (v : World S Api)
          → v.registry ≡ (lookup draw.now msg.handle w.registry).1
          → IsServed v.registry
          → get w.registry.resources msg.handle ≡ some (peer_connection pc)
          → Serves (k pc v))
      → Serves (or_return env (lookup_pc env draw msg w) k)
  unfolding lookup_pc
  with_pc draw msg w k v h = elim (Bool-cases (msg.handle == "")) [
    | inl e ↦ rw e v
    | inr e ↦ rw e (
        let found = lookup draw.now msg.handle w.registry in
        let u = record w { registry = found.1 } in
        let served = lookup-IsServed draw.now msg.handle w.registry v in
        returned peer_connection found.0 (as_pc env msg found.0) u k (as_pc_ok msg found.0) served
          (λ x q. h x u refl served (sym (lookup-get draw.now msg.handle w.registry) ∙ q)))
  ]

  pub with_dc :
      (draw : Draw) (msg : Message) (w : World S Api) (k : ℕ → World S Api → Message × World S Api)
      → IsServed w.registry
      → ((dc : ℕ) (v : World S Api) → IsServed v.registry → Serves (k dc v))
      → Serves (or_return env (lookup_dc env draw msg w) k)
  unfolding lookup_dc
  with_dc draw msg w k v h = elim (Bool-cases (msg.handle == "")) [
    | inl e ↦ rw e v
    | inr e ↦ rw e (
        let found = lookup draw.now msg.handle w.registry in
        let u = record w { registry = found.1 } in
        let served = lookup-IsServed draw.now msg.handle w.registry v in
        returned data_channel found.0 (as_dc env msg found.0) u k (as_dc_ok msg found.0) served
          (λ x q. h x u served))
  ]

  pub guarded :
      (b : Bool) (m : Message) (w : World S Api) (out : Message × World S Api)
      → IsServed w.registry
      → Serves out
      → Serves (if b then (m, w) else out)
  guarded true m w out v h = v
  guarded false m w out v h = h

  pub as_before : {r s : Registry} → s ≡ r → IsServed r → IsServed s
  as_before e v = subst IsServed (sym e) v
