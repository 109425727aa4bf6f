-- ===== src/Handler/Refusals.antt =====
-- The error paths of go/internal/pionserver/handler.go: what a request that is refused leaves alone.
pub mod Requests
pub mod Routes
use flutter_pion_bridge.Prelude.{
  delete, get, ℕ, ◌≡◌, refl, String, ◌+++◌, ◌==◌, Bool, true, false, Option, none, some, List, ◌∷◌,
  [], arith, if◌then◌else◌, Bool-cases, Option-cases, inl, inr, ◌⊎◌,
}
use flutter_pion_bridge.Types.{
  at, string_or_empty, Fields, Message, blank, error_response, ack_response,
}
use flutter_pion_bridge.Result.{Result, failed, ok}
use flutter_pion_bridge.DcSend.{DcConfig, DcSendState, DcSendWork}
use flutter_pion_bridge.Registry.{Registry, Resource, lookup, touch_stamp}
use flutter_pion_bridge.Registry.Cleanup.Walk.{OnlyStamps, OnlyStamps-refl, touch_stamp-OnlyStamps}
use flutter_pion_bridge.Handler.{
  Draw, Env, World, lookup_pc, lookup_dc, or_return, as_pc, as_dc, invalid, internal,
}
use flutter_pion_bridge.Handler.Create.{start_tracing}
use flutter_pion_bridge.Handler.Negotiate.{answer_sdp, answer_with}

-- Nothing at all has changed but that the registry may have fresher stamps.
pub record IsUntouched {S Api : Type 0} (w v : World S Api) : Type 0 where
  pub same : v ≡ record w { registry = v.registry }
  pub registry : OnlyStamps w.registry v.registry

abbrev pub error_code : Message → String
error_code m = string_or_empty (at m.fields "code")

-- The request is acknowledged, handed to a queue, failed by pion, or refused without a trace. An `init` that
-- is refused has set the depth and the threshold of new channels before, and may have started tracing; a
-- deletion without a resource has dropped the profile of the handle.
pub data Spared {S Api : Type 0} (type : String) (w : World S Api) (out : Message × World S Api)
    : Type 0 where
  acknowledged : out.0.type ≡ type +++ ":ack" → Spared type w out
  handed : out.0 ≡ blank → Spared type w out
  failed_in_pion : error_code out.0 ≡ "INTERNAL_ERROR" → Spared type w out
  untouched : IsUntouched w out.1 → Spared type w out
  set_up :
      (cfg : Option Fields) (c : DcConfig)
      → type ≡ "init"
      → out.1 ≡ record w {
        trace = start_tracing cfg w.trace;
        handler = record w.handler { dc_config = c };
      }
      → Spared type w out
  forgot :
      (h : String)
      → type ≡ "resource:delete"
      → IsUntouched
          (record w { handler = record w.handler { pc_profiles = delete w.handler.pc_profiles h } })
          out.1
      → Spared type w out

pub lookup-OnlyStamps : (now : ℕ) (h : String) (r : Registry) → OnlyStamps r (lookup now h r).1
unfolding lookup
lookup-OnlyStamps now h r = elim (Option-cases (get r.resources h)) [
  | inl e ↦ rw (e, lookup) (OnlyStamps-refl r)
  | inr (res, e) ↦ rw (e, lookup) (touch_stamp-OnlyStamps now h r)
]

module _ {S Api : Type 0} where
  pub acked :
      (type : String) (msg : Message) (w v : World S Api) (fields : Option Fields) (handle : String)
      → Spared type w (ack_response type msg.id handle fields, v)
  unfolding ack_response
  acked type msg w v fields handle = acknowledged refl

  pub refused :
      (type : String) (w v : World S Api) (m : Message) → IsUntouched w v → Spared type w (m, v)
  refused type w v m u = untouched u

  pub IsUntouched-refl : (w : World S Api) → IsUntouched w w
  IsUntouched-refl w = record { same = refl; registry = OnlyStamps-refl w.registry }

  pub looked-IsUntouched :
      (now : ℕ) (h : String) (w : World S Api)
      → IsUntouched w (record w { registry = (lookup now h w.registry).1 })
  looked-IsUntouched now h w = record { same = refl; registry = lookup-OnlyStamps now h w.registry }

  module _ (env : Env S Api) where
    pub or_return-Spared :
        (type : String) (w v : World S Api) (r : Result Message ℕ)
        (k : ℕ → World S Api → Message × World S Api)
        → IsUntouched w v
        → ((x : ℕ) → Spared type w (k x v))
        → Spared type w (or_return env (r, v) k)
    or_return-Spared type w v (failed m) k u h = refused type w v m u
    or_return-Spared type w v (ok x) k u h = h x

    pub with_pc :
        (type : String) (draw : Draw) (msg : Message) (w : World S Api)
        (k : ℕ → World S Api → Message × World S Api)
        → ((pc : ℕ) (v : World S Api) → IsUntouched w v → Spared type w (k pc v))
        → Spared type w (or_return env (lookup_pc env draw msg w) k)
    unfolding lookup_pc
    with_pc type draw msg w k h = elim (Bool-cases (msg.handle == "")) [
      | inl e ↦ rw e (refused type w w _ (IsUntouched-refl w))
      | inr e ↦ rw e (
          let u = looked-IsUntouched draw.now msg.handle w in
          or_return-Spared type w _ (as_pc env msg (lookup draw.now msg.handle w.registry).0) k u
            (λ x. h x _ u))
    ]

    pub with_dc :
        (type : String) (draw : Draw) (msg : Message) (w : World S Api)
        (k : ℕ → World S Api → Message × World S Api)
        → ((dc : ℕ) (v : World S Api) → IsUntouched w v → Spared type w (k dc v))
        → Spared type w (or_return env (lookup_dc env draw msg w) k)
    unfolding lookup_dc
    with_dc type draw msg w k h = elim (Bool-cases (msg.handle == "")) [
      | inl e ↦ rw e (refused type w w _ (IsUntouched-refl w))
      | inr e ↦ rw e (
          let u = looked-IsUntouched draw.now msg.handle w in
          or_return-Spared type w _ (as_dc env msg (lookup draw.now msg.handle w.registry).0) k u
            (λ x. h x _ u))
    ]

    pub internal-code :
        (msg : Message) (e : String) → error_code (internal env msg e) ≡ "INTERNAL_ERROR"
    unfolding internal error_response at
    internal-code msg e = elim (Bool-cases (msg.handle == "")) [
      | inl q ↦ rw q refl
      | inr q ↦ rw q refl
    ]

    pub failed_inside :
        (type : String) (msg : Message) (e : String) (w v : World S Api)
        → Spared type w (internal env msg e, v)
    failed_inside type msg e w v = failed_in_pion (internal-code msg e)

    pub answer_sdp-Spared :
        (type : String) (msg : Message) (w v : World S Api) (out : Result String String × S)
        → Spared type w (answer_sdp env type msg v out)
    unfolding answer_sdp
    answer_sdp-Spared type msg w v (failed x, s) = failed_inside type msg x w _
    answer_sdp-Spared type msg w v (ok sdp, s) = acked type msg w _ _ msg.handle

    pub answer_with-Spared :
        (type : String) (ack : S → Option Fields) (msg : Message) (w v : World S Api)
        (out : Option String × S)
        → Spared type w
            (answer_with env (λ s. ack_response type msg.id msg.handle (ack s)) msg v out)
    unfolding answer_with
    answer_with-Spared type ack msg w v (some x, s) = failed_inside type msg x w _
    answer_with-Spared type ack msg w v (none, s) = acked type msg w _ (ack s) msg.handle

    -- The early return on a bad field.
    pub guard-Spared :
        (type text : String) (msg : Message) (w v : World S Api) (b : Bool)
        (out : Message × World S Api)
        → IsUntouched w v
        → Spared type w out
        → Spared type w (if b then (invalid env msg text, v) else out)
    guard-Spared type text msg w v true out u r = refused type w v _ u
    guard-Spared type text msg w v false out u r = r
