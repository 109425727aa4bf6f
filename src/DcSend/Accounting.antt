-- ===== src/DcSend/Accounting.antt =====
-- Every `dc:send` of dcsend.go that was issued is waiting, held by the sender or answered, once.
use flutter_pion_bridge.Prelude.{
  ℕ, zero, suc, ◌+◌, ◌≡◌, refl, String, some, List, [], ◌∷◌, arith, Option-cases, inl, inr, ℤ,
}
use flutter_pion_bridge.DcSend.{
  DcSendWork, DcSendState, Sender, idle, exited, sending, waiting, parked, Closer, not_started,
  closing, draining, System, pick, fail_head, wake, Action, issue, enqueue, refuse, recheck, take,
  exit, send_fails, send_returns, check, signal_low, set_threshold, close_done, broadcast, drain,
  enqueue_step, refuse_step, reclaim, recheck_step, take_step, exit_step, send_fails_step,
  send_returns_step, check_step, set_threshold_step, close_done_step, broadcast_step, drain_step,
  step, Reach, start, next,
}
use flutter_pion_bridge.DcSend.Counting.{
  asked, answered, asked-append, asked-pick, emit-closed_before, emit-closed_during, emit-sent_ack,
  emit-send_error,
}

-- The item that the sender works on.
abbrev pub in_hand : Sender → List DcSendWork
in_hand idle = []
in_hand exited = []
in_hand (sending w) = w ∷ []
in_hand (waiting w) = w ∷ []
in_hand (parked w) = w ∷ []

module _ (session : ℕ) (id : ℤ) where
  abbrev open_items : System → ℕ
  open_items s =
      asked session id s.pending
      + asked session id s.state.work
      + asked session id (in_hand s.sender)

  abbrev IsAccounted : System → Type 0
  IsAccounted s = asked session id s.issued ≡ open_items s + answered session id s.log

  asked-nil : asked session id [] ≡ 0
  unfolding asked
  asked-nil = refl

  asked-cons :
      (w : DcSendWork) (ws : List DcSendWork)
      → asked session id (w ∷ ws) ≡ asked session id (w ∷ []) + asked session id ws
  unfolding asked
  asked-cons w ws = omega arith

  fail_head-IsAccounted :
      (w : DcSendWork) (ws : List DcSendWork) (s : System)
      → s.state.work ≡ w ∷ ws
      → IsAccounted s
      → IsAccounted (fail_head w ws s)
  fail_head-IsAccounted w ws s e v =
      ground (arith, emit-closed_before session id w s.log, asked-cons w ws)

  enqueue-IsAccounted :
      (n : ℕ) (s t : System) → enqueue_step n s ≡ some t → IsAccounted s → IsAccounted t
  unfolding enqueue_step
  enqueue-IsAccounted n s t e v = elim (Option-cases (pick n s.pending)) [
    | inl out ↦ absurd (ground arith)
    | inr (found, q) ↦ ground (
      arith,
      asked-pick session id n s.pending found.0 found.1 q,
      asked-append session id s.state.work (found.0 ∷ []),
    )
  ]

  refuse-IsAccounted :
      (n : ℕ) (s t : System) → refuse_step n s ≡ some t → IsAccounted s → IsAccounted t
  unfolding refuse_step
  refuse-IsAccounted n s t e v = elim (Option-cases (pick n s.pending)) [
    | inl out ↦ absurd (ground arith)
    | inr (found, q) ↦ ground (
      arith,
      asked-pick session id n s.pending found.0 found.1 q,
      emit-closed_before session id found.0 s.log,
    )
  ]

  reclaim-IsAccounted :
      (ws : List DcSendWork) (s : System)
      → s.state.work ≡ ws
      → IsAccounted s
      → IsAccounted (reclaim ws s)
  unfolding reclaim
  reclaim-IsAccounted [] s e v = v
  reclaim-IsAccounted (w ∷ ws) s e v = fail_head-IsAccounted w ws s e v

  recheck-IsAccounted :
      (n : ℕ) (s t : System) → recheck_step n s ≡ some t → IsAccounted s → IsAccounted t
  unfolding recheck_step
  recheck-IsAccounted zero s t e v = absurd (ground arith)
  recheck-IsAccounted (suc n) s t e v =
      ground (arith, reclaim-IsAccounted s.state.work (record s { rechecking = n }) refl v)

  take-IsAccounted :
      (x : Sender) (ws : List DcSendWork) (s t : System)
      → s.sender ≡ x
      → s.state.work ≡ ws
      → take_step x ws s ≡ some t
      → IsAccounted s
      → IsAccounted t
  unfolding take_step
  take-IsAccounted idle (w ∷ ws) s t x q e v = ground (arith, asked-cons w ws, asked-nil)
  take-IsAccounted _ _ s t x q e v = absurd (ground arith)

  exit-IsAccounted :
      (x : Sender) (s t : System)
      → s.sender ≡ x
      → exit_step x s ≡ some t
      → IsAccounted s
      → IsAccounted t
  unfolding exit_step
  exit-IsAccounted idle s t x e v = ground arith
  exit-IsAccounted _ s t x e v = absurd (ground arith)

  send_fails-IsAccounted :
      (err : String) (x : Sender) (s t : System)
      → s.sender ≡ x
      → send_fails_step err x s ≡ some t
      → IsAccounted s
      → IsAccounted t
  unfolding send_fails_step
  send_fails-IsAccounted err (sending w) s t x e v =
      ground (arith, emit-send_error session id w err s.log, asked-nil)
  send_fails-IsAccounted err _ s t x e v = absurd (ground arith)

  send_returns-IsAccounted :
      (x : Sender) (s t : System)
      → s.sender ≡ x
      → send_returns_step x s ≡ some t
      → IsAccounted s
      → IsAccounted t
  unfolding send_returns_step
  send_returns-IsAccounted (sending w) s t x e v =
      ground (arith, emit-sent_ack session id w s.log, asked-nil)
  send_returns-IsAccounted _ s t x e v = absurd (ground arith)

  check-IsAccounted :
      (b : ℕ) (x : Sender) (s t : System)
      → s.sender ≡ x
      → check_step b x s ≡ some t
      → IsAccounted s
      → IsAccounted t
  unfolding check_step
  check-IsAccounted b (waiting w) s t x e v =
      ground
        (arith, emit-sent_ack session id w s.log, emit-closed_during session id w s.log, asked-nil)
  check-IsAccounted b _ s t x e v = absurd (ground arith)

  in_hand-wake : (x : Sender) → in_hand (wake x) ≡ in_hand x
  in_hand-wake x = ground arith

  wake-IsAccounted :
      (s t : System)
      → t.issued ≡ s.issued
      → t.pending ≡ s.pending
      → t.state.work ≡ s.state.work
      → t.sender ≡ wake s.sender
      → t.log ≡ s.log
      → IsAccounted s
      → IsAccounted t
  wake-IsAccounted s t a b c d e v = ground (arith, in_hand-wake s.sender)

  close_done-IsAccounted :
      (x : Closer) (s t : System) → close_done_step x s ≡ some t → IsAccounted s → IsAccounted t
  unfolding close_done_step
  close_done-IsAccounted not_started s t e v = ground arith
  close_done-IsAccounted _ s t e v = absurd (ground arith)

  broadcast-IsAccounted :
      (x : Closer) (s t : System) → broadcast_step x s ≡ some t → IsAccounted s → IsAccounted t
  unfolding broadcast_step
  broadcast-IsAccounted closing s t e v = ground (arith, in_hand-wake s.sender)
  broadcast-IsAccounted _ s t e v = absurd (ground arith)

  drain-IsAccounted :
      (x : Closer) (ws : List DcSendWork) (s t : System)
      → s.state.work ≡ ws
      → drain_step x ws s ≡ some t
      → IsAccounted s
      → IsAccounted t
  unfolding drain_step
  drain-IsAccounted draining (w ∷ ws) s t q e v = ground (arith, fail_head-IsAccounted w ws s q v)
  drain-IsAccounted draining [] s t q e v = ground arith
  drain-IsAccounted _ _ s t q e v = absurd (ground arith)

  step-IsAccounted : (a : Action) (s t : System) → step a s ≡ some t → IsAccounted s → IsAccounted t
  unfolding step set_threshold_step
  step-IsAccounted (issue w) s t e v =
      ground (
        arith,
        asked-append session id s.pending (w ∷ []),
        asked-append session id s.issued (w ∷ []),
      )
  step-IsAccounted (enqueue n) s t e v = enqueue-IsAccounted n s t e v
  step-IsAccounted (refuse n) s t e v = refuse-IsAccounted n s t e v
  step-IsAccounted recheck s t e v = recheck-IsAccounted s.rechecking s t e v
  step-IsAccounted take s t e v = take-IsAccounted s.sender s.state.work s t refl refl e v
  step-IsAccounted exit s t e v = exit-IsAccounted s.sender s t refl e v
  step-IsAccounted (send_fails err) s t e v = send_fails-IsAccounted err s.sender s t refl e v
  step-IsAccounted send_returns s t e v = send_returns-IsAccounted s.sender s t refl e v
  step-IsAccounted (check b) s t e v = check-IsAccounted b s.sender s t refl e v
  step-IsAccounted signal_low s t e v = ground (arith, in_hand-wake s.sender)
  step-IsAccounted (set_threshold n) s t e v = ground (arith, in_hand-wake s.sender)
  step-IsAccounted close_done s t e v = close_done-IsAccounted s.closer s t e v
  step-IsAccounted broadcast s t e v = broadcast-IsAccounted s.closer s t e v
  step-IsAccounted drain s t e v = drain-IsAccounted s.closer s.state.work s t refl e v

-- In every interleaving, for every session and request id: the requests that were issued are as
-- many as those not enqueued yet, in the channel, or in the sender's hands, and the responses sent
-- to that session under that id. No request is answered twice and none is dropped unanswered.
pub Reach-accounted :
    (s₀ : DcSendState) {s : System} (session : ℕ) (id : ℤ)
    → s₀.work ≡ []
    → Reach s₀ s
    → asked session id s.issued
      ≡ asked session id s.pending
        + asked session id s.state.work
        + asked session id (in_hand s.sender)
        + answered session id s.log
unfolding asked answered
Reach-accounted s₀ session id new start = ground arith
Reach-accounted s₀ session id new (next {s = s} {t = t} a r e) =
    step-IsAccounted session id a s t e (Reach-accounted s₀ session id new r)
