-- ===== src/Handler/Answers.antt =====
-- What a request of go/internal/pionserver/handler.go is answered with.
use flutter_pion_bridge.Prelude.{
  ◌∙◌, true, ap, sym, ℕ, ◌≡◌, refl, String, ◌+++◌, ◌==◌, false, Option, none, some, [], ◌∷◌, ◌++◌,
  arith, if◌then◌else◌, inl, inr, ◌⊎◌, eq_iff, subst,
}
use flutter_pion_bridge.Types.{as_bool, Value, at, Message, blank, str, bin}
use flutter_pion_bridge.DcSend.{DcSendWork}
use flutter_pion_bridge.Registry.{lookup_dc_send_state}
use flutter_pion_bridge.Handler.{Draw, Env, World}
use flutter_pion_bridge.Handler.Channels.{or_true, sent_by, work_of, hand_over, handle_dc_send}
use flutter_pion_bridge.Handler.Dispatch.{
  Request, init, pc_create, pc_offer, pc_answer, pc_set_local_desc, pc_set_remote_desc, pc_add_ice,
  pc_close, pc_add_transceiver, pc_create_dc, dc_send, dc_set_threshold, dc_close, resource_delete,
  unknown, route, handle, handle_message,
}
use flutter_pion_bridge.Handler.Replies.{Replied, error-Replied, invalid-Replied}
use flutter_pion_bridge.Handler.Replies.Connections.{
  handle_init-Replied, handle_pc_create-Replied, handle_pc_offer-Replied, handle_pc_answer-Replied,
  handle_pc_set_local_desc-Replied, handle_pc_set_remote_desc-Replied, handle_pc_add_ice-Replied,
}
use flutter_pion_bridge.Handler.Replies.Resources.{
  handle_pc_close-Replied, handle_pc_add_transceiver-Replied, handle_pc_create_dc-Replied,
  handle_dc_set-Replied, handle_dc_close-Replied, handle_resource_delete-Replied,
}

module _ {S Api : Type 0} (env : Env S Api) where
  -- The payload of the message: bytes, or a string, for which nobody waits for the buffer to drain.
  unfoldable pub Carries : Message → DcSendWork → Type 0
  Carries msg work =
      ((at msg.fields "data" ≡ bin work.bytes)
        × (work.is_text ≡ false)
        × (work.await_drain ≡ or_true (as_bool (at msg.fields "await_drain"))))
      ⊎ ((at msg.fields "data" ≡ str work.text)
          × (work.is_text ≡ true)
          × (work.await_drain ≡ false))

  -- What a `dc:send` leaves on a queue, with its payload and with this session to answer.
  unfoldable pub Handed : String → Message → World S Api → Message × World S Api → Type 0
  Handed type msg w out =
      (type ≡ "dc:send")
      × (out.0 ≡ blank)
      × (out.1.panicked ≡ w.panicked)
      × ((state : ℕ) × (work : DcSendWork) × (lookup_dc_send_state msg.handle w.registry
            ≡ some state)
          × (out.1.work ≡ w.work ++ (state, work) ∷ [])
          × Carries msg work
          × (work.msg_id ≡ msg.id)
          × (work.handle ≡ msg.handle)
          × (work.send_event ≡ some env.session))

  work_of-id :
      (msg : Message) (v : Value) (work : DcSendWork)
      → at msg.fields "data" ≡ v
      → work_of env msg v ≡ some work
      → Carries msg work
        × (work.msg_id ≡ msg.id)
        × (work.handle ≡ msg.handle)
        × (work.send_event ≡ some env.session)
  unfolding work_of Carries
  work_of-id msg (bin payload) work v e =
      let same : sent_by env msg payload "" false (or_true (as_bool (at msg.fields "await_drain")))
          ≡ work =
        ground arith in
      (
        inl (
          v ∙ ap (λ x. bin x.bytes) same,
          sym (ap (λ x. x.is_text) same),
          sym (ap (λ x. x.await_drain) same),
        ),
        sym (ap (λ x. x.msg_id) same),
        sym (ap (λ x. x.handle) same),
        sym (ap (λ x. x.send_event) same),
      )
  work_of-id msg (str payload) work v e =
      let same : sent_by env msg [] payload true false ≡ work = ground arith in
      (
        inr (
          v ∙ ap (λ x. str x.text) same,
          sym (ap (λ x. x.is_text) same),
          sym (ap (λ x. x.await_drain) same),
        ),
        sym (ap (λ x. x.msg_id) same),
        sym (ap (λ x. x.handle) same),
        sym (ap (λ x. x.send_event) same),
      )
  work_of-id msg _ work v e = absurd (ground arith)

  hand_over-Replied :
      (msg : Message) (w : World S Api) (o : Option ℕ) (work : Option DcSendWork)
      → lookup_dc_send_state msg.handle w.registry ≡ o
      → work_of env msg (at msg.fields "data") ≡ work
      → Replied env "dc:send" msg w (hand_over env msg w o work)
        ⊎ Handed "dc:send" msg w (hand_over env msg w o work)
  unfolding hand_over Handed
  hand_over-Replied msg w none work e q =
      inl (error-Replied env "dc:send" msg w w "NOT_FOUND" _ msg.handle false refl)
  hand_over-Replied msg w (some state) none e q = inl (invalid-Replied env "dc:send" _ msg w w refl)
  hand_over-Replied msg w (some state) (some work) e q =
      let facts = work_of-id msg (at msg.fields "data") work refl q in
      inr (refl, refl, refl, (state, work, e, refl, facts.0, facts.1, facts.2, facts.3))

  handle_dc_send-Replied :
      (msg : Message) (w : World S Api)
      → Replied env "dc:send" msg w (handle_dc_send env msg w)
        ⊎ Handed "dc:send" msg w (handle_dc_send env msg w)
  unfolding handle_dc_send
  handle_dc_send-Replied msg w = hand_over-Replied msg w _ _ refl refl

  -- The name of a request on the wire.
  unfoldable pub name_of : Request → String
  name_of init = "init"
  name_of pc_create = "pc:create"
  name_of pc_offer = "pc:offer"
  name_of pc_answer = "pc:answer"
  name_of pc_set_local_desc = "pc:setLocalDesc"
  name_of pc_set_remote_desc = "pc:setRemoteDesc"
  name_of pc_add_ice = "pc:addIce"
  name_of pc_close = "pc:close"
  name_of pc_add_transceiver = "pc:addTransceiver"
  name_of pc_create_dc = "pc:createDc"
  name_of dc_send = "dc:send"
  name_of dc_set_threshold = "dc:setBufferedAmountLowThreshold"
  name_of dc_close = "dc:close"
  name_of resource_delete = "resource:delete"
  name_of unknown = "unknown"

  handle-Replied :
      (q : Request) (draw : Draw) (msg : Message) (w : World S Api)
      → Replied env (name_of q) msg w (handle env q draw msg w)
        ⊎ Handed (name_of q) msg w (handle env q draw msg w)
  unfolding handle name_of
  handle-Replied init draw msg w = inl (handle_init-Replied env msg w)
  handle-Replied pc_create draw msg w = inl (handle_pc_create-Replied env draw msg w)
  handle-Replied pc_offer draw msg w = inl (handle_pc_offer-Replied env draw msg w)
  handle-Replied pc_answer draw msg w = inl (handle_pc_answer-Replied env draw msg w)
  handle-Replied pc_set_local_desc draw msg w =
      inl (handle_pc_set_local_desc-Replied env draw msg w)
  handle-Replied pc_set_remote_desc draw msg w =
      inl (handle_pc_set_remote_desc-Replied env draw msg w)
  handle-Replied pc_add_ice draw msg w = inl (handle_pc_add_ice-Replied env draw msg w)
  handle-Replied pc_close draw msg w = inl (handle_pc_close-Replied env draw msg w)
  handle-Replied pc_add_transceiver draw msg w =
      inl (handle_pc_add_transceiver-Replied env draw msg w)
  handle-Replied pc_create_dc draw msg w = inl (handle_pc_create_dc-Replied env draw msg w)
  handle-Replied dc_send draw msg w = handle_dc_send-Replied msg w
  handle-Replied dc_set_threshold draw msg w = inl (handle_dc_set-Replied env draw msg w)
  handle-Replied dc_close draw msg w = inl (handle_dc_close-Replied env draw msg w)
  handle-Replied resource_delete draw msg w = inl (handle_resource_delete-Replied env draw msg w)
  handle-Replied unknown draw msg w = inl (
      error-Replied env "unknown" msg w w "INVALID_REQUEST" ("unknown message type: " +++ msg.type)
        "" false refl)

  case_of :
      (t n : String) (q rest : Request)
      → name_of q ≡ n
      → (name_of rest ≡ t) ⊎ (rest ≡ unknown)
      → (name_of (if t == n then q else rest) ≡ t) ⊎ ((if t == n then q else rest) ≡ unknown)
  case_of t n q rest e r = ground (arith, eq_iff t n)

  pub name_of-route : (t : String) → (name_of (route t) ≡ t) ⊎ (route t ≡ unknown)
  unfolding name_of route
  name_of-route t = case_of t "init" init _ refl (
      case_of t "pc:create" pc_create _ refl (
        case_of t "pc:offer" pc_offer _ refl (
          case_of t "pc:answer" pc_answer _ refl (
            case_of t "pc:setLocalDesc" pc_set_local_desc _ refl (
              case_of t "pc:setRemoteDesc" pc_set_remote_desc _ refl (
                case_of t "pc:addIce" pc_add_ice _ refl (
                  case_of t "pc:close" pc_close _ refl (
                    case_of t "pc:addTransceiver" pc_add_transceiver _ refl (
                      case_of t "pc:createDc" pc_create_dc _ refl (
                        case_of t "dc:send" dc_send _ refl (
                          case_of t "dc:setBufferedAmountLowThreshold" dc_set_threshold _ refl (
                            case_of t "dc:close" dc_close _ refl (
                              case_of t "resource:delete" resource_delete _ refl
                                (inr refl))))))))))))))

  -- Whatever pion returns, a message is answered at once by one response that has its id and is the
  -- acknowledgement of its type or an error, and nothing is handed to a queue; or it is a `dc:send` whose
  -- payload is handed to the queue of the channel, with the id, the handle and the session that the later
  -- answer needs, and there is no response now. The handler does not panic, except that `pc:createDc` may
  -- where Go's `make` does for the configured depth of a queue, and then the response is not sent.
  pub handle_message-Replied :
      (draw : Draw) (msg : Message) (w : World S Api)
      → Replied env msg.type msg w (handle_message env draw msg w)
        ⊎ Handed msg.type msg w (handle_message env draw msg w)
  unfolding handle_message
  handle_message-Replied draw msg w = elim (name_of-route msg.type) [
    | inl e ↦
        subst
          (λ n.
            Replied env n msg w (handle env (route msg.type) draw msg w)
            ⊎ Handed n msg w (handle env (route msg.type) draw msg w))
          e (handle-Replied (route msg.type) draw msg w)
    | inr e ↦ rw e (
        unfold handle in
        inl (
          error-Replied env msg.type msg w w "INVALID_REQUEST"
            ("unknown message type: " +++ msg.type) "" false refl))
  ]
