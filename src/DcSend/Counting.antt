-- ===== src/DcSend/Counting.antt =====
-- Counting the work items and the responses of one session and request id, for dcsend.go.
use flutter_pion_bridge.Prelude.{
  ℕ, zero, suc, ◌+◌, ◌≡◌, refl, ◌∙◌, String, ◌==◌, Bool, true, false, ◌&&◌, ◌||◌, none, some, List,
  [], ◌∷◌, ◌++◌, ◌=ℕ◌, arith, Option-cases, inl, inr, ℤ, ◌=ℤ◌,
}
use flutter_pion_bridge.Types.{Message, error_response, ack_response, event}
use flutter_pion_bridge.DcSend.{
  DcSendWork, emit, closed_before, closed_during, send_error, error_event, sent_ack, pick,
}

abbrev one_if : Bool → ℕ
one_if true = 1
one_if false = 0

-- Asked for by the session under the id.
abbrev pub is_own : ℕ → ℤ → DcSendWork → Bool
is_own session id w = elim w.send_event [ none ↦ false | some s ↦ s =ℕ session && w.msg_id =ℤ id ]

-- The two types of message that settle a request; events are no responses.
abbrev pub is_response : Message → Bool
is_response m = m.type == "error" || m.type == "dc:send:ack"

abbrev pub is_answer : ℕ → ℤ → ℕ × Message → Bool
is_answer session id (s, m) = is_response m && (s =ℕ session && m.id =ℤ id)

module _ (session : ℕ) (id : ℤ) where
  unfoldable pub asked : List DcSendWork → ℕ
  asked [] = 0
  asked (w ∷ ws) = one_if (is_own session id w) + asked ws

  unfoldable pub answered : List (ℕ × Message) → ℕ
  answered [] = 0
  answered (m ∷ ms) = one_if (is_answer session id m) + answered ms

  pub asked-append : (ws vs : List DcSendWork) → asked (ws ++ vs) ≡ asked ws + asked vs
  unfolding asked
  asked-append [] vs = omega arith
  asked-append (w ∷ ws) vs = omega (arith, asked-append ws vs)

  answered-append : (ms ns : List (ℕ × Message)) → answered (ms ++ ns) ≡ answered ms + answered ns
  unfolding answered
  answered-append [] ns = omega arith
  answered-append (m ∷ ms) ns = omega (arith, answered-append ms ns)

  pub asked-one : (w : DcSendWork) → asked (w ∷ []) ≡ one_if (is_own session id w)
  unfolding asked
  asked-one w = omega arith

  pub asked-pick :
      (n : ℕ) (ws : List DcSendWork) (w : DcSendWork) (rest : List DcSendWork)
      → pick n ws ≡ some (w, rest)
      → asked ws ≡ asked (w ∷ []) + asked rest
  unfolding pick asked
  asked-pick n [] w rest e = absurd (ground arith)
  asked-pick zero (v ∷ ws) w rest e = ground arith
  asked-pick (suc n) (v ∷ ws) w rest e = elim (Option-cases (pick n ws)) [
    | inl out ↦ absurd (ground arith)
    | inr (found, q) ↦ ground (arith, asked-pick n ws found.0 found.1 q)
  ]

  -- A response under the id of the item that it answers.
  emit_response :
      (w : DcSendWork) (m : Message) (log : List (ℕ × Message))
      → is_response m ≡ true
      → m.id ≡ w.msg_id
      → answered (emit w m log) ≡ answered log + asked (w ∷ [])
  unfolding emit asked answered
  emit_response w m log r e = elim (Option-cases w.send_event) [
    | inl out ↦ ground arith
    | inr (to, q) ↦ ground (arith, answered-append log ((to, m) ∷ []))
  ]

  emit_event :
      (w : DcSendWork) (m : Message) (log : List (ℕ × Message))
      → is_response m ≡ false
      → answered (emit w m log) ≡ answered log
  unfolding emit answered
  emit_event w m log r = elim (Option-cases w.send_event) [
    | inl out ↦ ground arith
    | inr (to, q) ↦ ground (arith, answered-append log ((to, m) ∷ []))
  ]

  pub emit-closed_before :
      (w : DcSendWork) (log : List (ℕ × Message))
      → answered (emit w (closed_before w) log) ≡ answered log + asked (w ∷ [])
  unfolding closed_before error_response
  emit-closed_before w log = emit_response w _ log refl refl

  pub emit-closed_during :
      (w : DcSendWork) (log : List (ℕ × Message))
      → answered (emit w (closed_during w) log) ≡ answered log + asked (w ∷ [])
  unfolding closed_during error_response
  emit-closed_during w log = emit_response w _ log refl refl

  pub emit-sent_ack :
      (w : DcSendWork) (log : List (ℕ × Message))
      → answered (emit w (sent_ack w) log) ≡ answered log + asked (w ∷ [])
  unfolding sent_ack ack_response
  emit-sent_ack w log = emit_response w _ log refl refl

  pub emit-send_error :
      (w : DcSendWork) (err : String) (log : List (ℕ × Message))
      → answered (emit w (error_event w err) (emit w (send_error w err) log))
        ≡ answered log + asked (w ∷ [])
  unfolding send_error error_event error_response event
  emit-send_error w err log =
      emit_event w _ (emit w (send_error w err) log) refl ∙ emit_response w _ log refl refl
