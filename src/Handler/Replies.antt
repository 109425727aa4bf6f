-- ===== src/Handler/Replies.antt =====
-- Replies of the handlers of go/internal/pionserver/handler.go: their form, and those that `init` and most requests on
-- a PeerConnection give.
pub mod Connections
pub mod Resources
use flutter_pion_bridge.Prelude.{
  ap, List, elem, ℕ, ◌≡◌, refl, String, ◌+++◌, ◌==◌, Bool, true, false, Option, none, some, arith,
  if◌then◌else◌, Bool-cases, inl, inr, ◌⊎◌,
}
use flutter_pion_bridge.Types.{Fields, Message, error_response, ack_response, field, str, end}
use flutter_pion_bridge.Result.{Result, failed, ok}
use flutter_pion_bridge.Registry.{Resource, peer_connection, data_channel, lookup}
use flutter_pion_bridge.DcSend.{DcSendWork}
use flutter_pion_bridge.Handler.{
  Draw, Env, World, ApiProfile, ProfileError, lookup_pc, lookup_dc, or_return, as_pc, as_dc,
  invalid, internal, notify_pc_closed,
}
use flutter_pion_bridge.Handler.Create.{
  handle_init, handle_pc_create, configure, open_connection, finish_init, create_with,
}
use flutter_pion_bridge.Handler.Negotiate.{
  answer_sdp, answer_with, handle_pc_offer, handle_pc_answer, set_description,
  handle_pc_set_local_desc, handle_pc_set_remote_desc, handle_pc_add_ice,
}
use flutter_pion_bridge.Handler.Dispatch.{handle}

-- What a request that is answered does not change, where its handler does not panic.
abbrev pub mark : {S Api : Type 0} → World S Api → List (ℕ × DcSendWork) × Option String
mark w = (w.work, w.panicked)

module _ {S Api : Type 0} (env : Env S Api) where
  -- A response to the request, of its type or an error, and nothing handed to a queue. It is not sent where
  -- the handler panics, which only `pc:createDc` does, for a depth that `make` refuses.
  pub record Replied (type : String) (msg : Message) (w : World S Api) (out : Message × World S Api)
      : Type 0 where
    pub id : out.0.id ≡ msg.id
    pub type_of : (out.0.type ≡ type +++ ":ack") ⊎ (out.0.type ≡ "error")
    pub work : out.1.work ≡ w.work
    pub calm :
        (out.1.panicked ≡ w.panicked)
        ⊎ ((type ≡ "pc:createDc")
            × ((text : String) × (env.make_panics w.handler.dc_config.send_queue_depth ≡ some text)
                × (out.1.panicked ≡ some text)))

  pub error-Replied :
      (type : String) (msg : Message) (w w' : World S Api) (code text handle : String)
      (fatal : Bool)
      → mark w' ≡ mark w
      → Replied type msg w (error_response msg.id code text fatal handle, w')
  unfolding error_response
  error-Replied type msg w w' code text handle fatal e = record {
    id = refl;
    type_of = inr refl;
    work = ap (λ m. m.0) e;
    calm = inl (ap (λ m. m.1) e);
  }

  pub ack-Replied :
      (type : String) (msg : Message) (w w' : World S Api) (fields : Option Fields)
      (handle : String)
      → mark w' ≡ mark w
      → Replied type msg w (ack_response type msg.id handle fields, w')
  unfolding ack_response
  ack-Replied type msg w w' fields handle e = record {
    id = refl;
    type_of = inl refl;
    work = ap (λ m. m.0) e;
    calm = inl (ap (λ m. m.1) e);
  }

  pub invalid-Replied :
      (type text : String) (msg : Message) (w v : World S Api)
      → mark v ≡ mark w
      → Replied type msg w (invalid env msg text, v)
  unfolding invalid
  invalid-Replied type text msg w v e = error-Replied type msg w v _ text msg.handle false e

  IsRefusal : Message → Result Message ℕ → Type 0
  IsRefusal msg (failed m) = (m.id ≡ msg.id) × (m.type ≡ "error")
  IsRefusal msg (ok x) = msg.id ≡ msg.id

  or_return-Replied :
      (type : String) (msg : Message) (w : World S Api) (r : Result Message ℕ) (w' : World S Api)
      (k : ℕ → World S Api → Message × World S Api)
      → IsRefusal msg r
      → mark w' ≡ mark w
      → w'.handler ≡ w.handler
      → ((pc : ℕ) (v : World S Api)
          → mark v ≡ mark w
          → v.handler ≡ w.handler
          → Replied type msg w (k pc v))
      → Replied type msg w (or_return env (r, w') k)
  unfolding IsRefusal
  or_return-Replied type msg w (failed m) w' k q e same h = record {
    id = q.0;
    type_of = inr q.1;
    work = ap (λ m. m.0) e;
    calm = inl (ap (λ m. m.1) e);
  }
  or_return-Replied type msg w (ok x) w' k q e same h = h x w' e same

  as_pc-IsRefusal : (msg : Message) (o : Option Resource) → IsRefusal msg (as_pc env msg o)
  unfolding IsRefusal invalid error_response
  as_pc-IsRefusal msg none = (refl, refl)
  as_pc-IsRefusal msg (some (peer_connection n)) = refl
  as_pc-IsRefusal msg (some _) = (refl, refl)

  as_dc-IsRefusal : (msg : Message) (o : Option Resource) → IsRefusal msg (as_dc env msg o)
  unfolding IsRefusal invalid error_response
  as_dc-IsRefusal msg none = (refl, refl)
  as_dc-IsRefusal msg (some (data_channel n)) = refl
  as_dc-IsRefusal msg (some _) = (refl, refl)

  pub with_pc :
      (type : String) (draw : Draw) (msg : Message) (w : World S Api)
      (k : ℕ → World S Api → Message × World S Api)
      → ((pc : ℕ) (v : World S Api)
          → mark v ≡ mark w
          → v.handler ≡ w.handler
          → Replied type msg w (k pc v))
      → Replied type msg w (or_return env (lookup_pc env draw msg w) k)
  unfolding lookup_pc
  with_pc type draw msg w k h = elim (Bool-cases (msg.handle == "")) [
    | inl e ↦ rw e (invalid-Replied type "missing handle" msg w w refl)
    | inr e ↦ rw e (
        or_return-Replied type msg w (as_pc env msg (lookup draw.now msg.handle w.registry).0)
          (record w { registry = (lookup draw.now msg.handle w.registry).1 }) k
          (as_pc-IsRefusal msg (lookup draw.now msg.handle w.registry).0) refl refl h)
  ]

  pub with_dc :
      (type : String) (draw : Draw) (msg : Message) (w : World S Api)
      (k : ℕ → World S Api → Message × World S Api)
      → ((dc : ℕ) (v : World S Api) → mark v ≡ mark w → Replied type msg w (k dc v))
      → Replied type msg w (or_return env (lookup_dc env draw msg w) k)
  unfolding lookup_dc
  with_dc type draw msg w k h = elim (Bool-cases (msg.handle == "")) [
    | inl e ↦ rw e (invalid-Replied type "missing handle" msg w w refl)
    | inr e ↦ rw e (
        or_return-Replied type msg w (as_dc env msg (lookup draw.now msg.handle w.registry).0)
          (record w { registry = (lookup draw.now msg.handle w.registry).1 }) k
          (as_dc-IsRefusal msg (lookup draw.now msg.handle w.registry).0) refl refl
          (λ x v e q. h x v e))
  ]

  pub answer_sdp-Replied :
      (type : String) (msg : Message) (w v : World S Api) (out : Result String String × S)
      → mark v ≡ mark w
      → Replied type msg w (answer_sdp env type msg v out)
  unfolding answer_sdp internal
  answer_sdp-Replied type msg w v (failed x, s) e =
      error-Replied type msg w (record v { pion = s }) _ x msg.handle false e
  answer_sdp-Replied type msg w v (ok sdp, s) e =
      ack-Replied type msg w (record v { pion = s }) _ msg.handle e

  pub answer_with-Replied :
      (type : String) (ack : S → Option Fields) (msg : Message) (w v : World S Api)
      (out : Option String × S)
      → mark v ≡ mark w
      → Replied type msg w
          (answer_with env (λ s. ack_response type msg.id msg.handle (ack s)) msg v out)
  unfolding answer_with internal
  answer_with-Replied type ack msg w v (some x, s) e =
      error-Replied type msg w (record v { pion = s }) _ x msg.handle false e
  answer_with-Replied type ack msg w v (none, s) e =
      ack-Replied type msg w (record v { pion = s }) (ack s) msg.handle e

  pub notify-Replied :
      (type : String) (msg : Message) (w : World S Api) (out : Message × World S Api)
      → Replied type msg w out
      → Replied type msg w (out.0, notify_pc_closed env msg.handle out.1)
  unfolding notify_pc_closed
  notify-Replied type msg w out r = record {
    id = r.id;
    type_of = r.type_of;
    work = ground (arith, r.work);
    calm = elim (Bool-cases (elem msg.handle out.1.closed_once)) [
      | inl q ↦ rw q r.calm
      | inr q ↦ rw q r.calm
    ];
  }

  -- The early return on a bad field.
  pub guard-Replied :
      (type text : String) (msg : Message) (w v : World S Api) (b : Bool)
      (out : Message × World S Api)
      → mark v ≡ mark w
      → Replied type msg w out
      → Replied type msg w (if b then (invalid env msg text, v) else out)
  guard-Replied type text msg w v true out e r = invalid-Replied type text msg w v e
  guard-Replied type text msg w v false out e r = r
