-- ===== src/DcSend/Settling.antt =====
-- After `close(done)` in dcsend.go the queue comes to rest, and then nobody waits for a response.
pub mod Progress
use flutter_pion_bridge.Prelude.{
  ℕ, zero, suc, ◌+◌, ◌*◌, ◌<◌, ◌≤◌, ◌≡◌, ◌≢◌, refl, String, Bool, true, false, none, some, List, [],
  ◌∷◌, length, length-append, arith, Option-cases, ◌⊎◌, inl, inr, All, ℤ,
}
use flutter_pion_bridge.DcSend.{
  DcSendWork, DcSendState, Sender, idle, exited, sending, waiting, parked, Closer, not_started,
  closing, draining, finished, System, pick, wake, Action, issue, enqueue, refuse, recheck, take,
  exit, send_fails, send_returns, check, signal_low, set_threshold, close_done, broadcast, drain,
  enqueue_step, refuse_step, reclaim, recheck_step, take_step, exit_step, send_fails_step,
  send_returns_step, check_step, close_done_step, broadcast_step, drain_step, step, Reach, run,
}
use flutter_pion_bridge.DcSend.Counting.{asked, answered}
use flutter_pion_bridge.DcSend.Accounting.{in_hand, Reach-accounted}
use flutter_pion_bridge.DcSend.Shutdown.{IsOrderly, Reach-IsOrderly, step-IsOrderly}

-- `closeState` has returned, no `handleDCSend` is under way and the sender holds no item.
pub record IsSettled (s : System) : Type 0 where
  pub closed : s.closer ≡ finished
  pub none_pending : s.pending ≡ []
  pub none_rechecking : s.rechecking ≡ 0
  pub none_in_hand : in_hand s.sender ≡ []

-- Once the queue has come to rest the channel is empty, and every session has got exactly one
-- response for each request that it issued under each id.
pub settled_answered :
    (s₀ : DcSendState) {s : System} (session : ℕ) (id : ℤ)
    → s₀.work ≡ []
    → s₀.done ≡ false
    → Reach s₀ s
    → IsSettled s
    → (s.state.work ≡ []) × (answered session id s.log ≡ asked session id s.issued)
unfolding asked
settled_answered s₀ {s} session id new live r v =
    let w = Reach-IsOrderly s₀ live r in
    let empty_work =
      nil_of_length s.state.work (omega (arith, w.covered (ground arith), v.none_rechecking)) in
    (empty_work, ground (arith, Reach-accounted s₀ session id new r))
  where
    nil_of_length : (ws : List DcSendWork) → length ws ≤ 0 → ws ≡ []
    nil_of_length [] h = refl
    nil_of_length (w ∷ ws) h = absurd (omega arith)

abbrev sender_weight : Sender → ℕ
sender_weight exited = 0
sender_weight idle = 1
sender_weight (waiting w) = 2
sender_weight (parked w) = 3
sender_weight (sending w) = 4

abbrev closer_weight : Closer → ℕ
closer_weight finished = 0
closer_weight draining = 1
closer_weight closing = 2
closer_weight not_started = 3

abbrev pub weight : System → ℕ
weight s =
    7 * length s.pending
    + 4 * length s.state.work
    + 2 * s.rechecking
    + sender_weight s.sender
    + closer_weight s.closer

-- The actions that the code owes, as against new requests and pion's and the client's signals.
abbrev pub is_internal : Action → Bool
is_internal (issue w) = false
is_internal signal_low = false
is_internal (set_threshold n) = false
is_internal _ = true

-- A step closer to rest, with `done` closed as before.
abbrev Shrinks : System → System → Type 0
Shrinks s t = (t.state.done ≡ true) × (weight t < weight s)

length-pick :
    (n : ℕ) (ws : List DcSendWork) (w : DcSendWork) (rest : List DcSendWork)
    → pick n ws ≡ some (w, rest)
    → length ws ≡ suc (length rest)
unfolding pick
length-pick n [] w rest e = absurd (ground arith)
length-pick zero (v ∷ ws) w rest e = ground arith
length-pick (suc n) (v ∷ ws) w rest e = elim (Option-cases (pick n ws)) [
  | inl out ↦ absurd (ground arith)
  | inr (found, q) ↦ ground (arith, length-pick n ws found.0 found.1 q)
]

module _ (s t : System) (v : IsOrderly s) (over : s.state.done ≡ true) where
  enqueue-lt : (n : ℕ) → enqueue_step n s ≡ some t → Shrinks s t
  unfolding enqueue_step
  enqueue-lt n e = elim (Option-cases (pick n s.pending)) [
    | inl out ↦ absurd (ground arith)
    | inr (found, q) ↦ ground (
      arith,
      length-pick n s.pending found.0 found.1 q,
      length-append s.state.work (found.0 ∷ []),
    )
  ]

  refuse-lt : (n : ℕ) → refuse_step n s ≡ some t → Shrinks s t
  unfolding refuse_step
  refuse-lt n e = elim (Option-cases (pick n s.pending)) [
    | inl out ↦ absurd (ground arith)
    | inr (found, q) ↦ ground (arith, length-pick n s.pending found.0 found.1 q)
  ]

  recheck-lt :
      (n : ℕ) (ws : List DcSendWork)
      → s.rechecking ≡ n
      → s.state.work ≡ ws
      → recheck_step n s ≡ some t
      → Shrinks s t
  unfolding recheck_step reclaim
  recheck-lt zero ws p q e = absurd (ground arith)
  recheck-lt (suc n) [] p q e = ground arith
  recheck-lt (suc n) (w ∷ ws) p q e = ground arith

  take-lt :
      (x : Sender) (ws : List DcSendWork)
      → s.sender ≡ x
      → s.state.work ≡ ws
      → take_step x ws s ≡ some t
      → Shrinks s t
  unfolding take_step
  take-lt idle (w ∷ ws) x q e = ground arith
  take-lt _ _ x q e = absurd (ground arith)

  exit-lt : (x : Sender) → s.sender ≡ x → exit_step x s ≡ some t → Shrinks s t
  unfolding exit_step
  exit-lt idle x e = ground arith
  exit-lt _ x e = absurd (ground arith)

  send_fails-lt :
      (err : String) (x : Sender) → s.sender ≡ x → send_fails_step err x s ≡ some t → Shrinks s t
  unfolding send_fails_step
  send_fails-lt err (sending w) x e = ground arith
  send_fails-lt err _ x e = absurd (ground arith)

  send_returns-lt : (x : Sender) → s.sender ≡ x → send_returns_step x s ≡ some t → Shrinks s t
  unfolding send_returns_step
  send_returns-lt (sending w) x e = ground arith
  send_returns-lt _ x e = absurd (ground arith)

  check-lt : (b : ℕ) (x : Sender) → s.sender ≡ x → check_step b x s ≡ some t → Shrinks s t
  unfolding check_step
  check-lt b (waiting w) x e = ground arith
  check-lt b _ x e = absurd (ground arith)

  close_done-lt : (x : Closer) → s.closer ≡ x → close_done_step x s ≡ some t → Shrinks s t
  unfolding close_done_step
  close_done-lt not_started x e = ground arith
  close_done-lt _ x e = absurd (ground arith)

  broadcast-lt : (x : Closer) → s.closer ≡ x → broadcast_step x s ≡ some t → Shrinks s t
  unfolding broadcast_step
  broadcast-lt closing x e = ground (arith, wake-le s.sender)
    where
      wake-le : (x : Sender) → sender_weight (wake x) ≤ sender_weight x
      wake-le x = ground arith
  broadcast-lt _ x e = absurd (ground arith)

  drain-lt :
      (x : Closer) (ws : List DcSendWork)
      → s.closer ≡ x
      → s.state.work ≡ ws
      → drain_step x ws s ≡ some t
      → Shrinks s t
  unfolding drain_step
  drain-lt draining (w ∷ ws) x q e = ground arith
  drain-lt draining [] x q e = ground arith
  drain-lt _ _ x q e = absurd (ground arith)

  step-lt : (a : Action) → is_internal a ≡ true → step a s ≡ some t → Shrinks s t
  unfolding step
  step-lt (issue w) i e = absurd (ground arith)
  step-lt (enqueue n) i e = enqueue-lt n e
  step-lt (refuse n) i e = refuse-lt n e
  step-lt recheck i e = recheck-lt s.rechecking s.state.work refl refl e
  step-lt take i e = take-lt s.sender s.state.work refl refl e
  step-lt exit i e = exit-lt s.sender refl e
  step-lt (send_fails err) i e = send_fails-lt err s.sender refl e
  step-lt send_returns i e = send_returns-lt s.sender refl e
  step-lt (check b) i e = check-lt b s.sender refl e
  step-lt signal_low i e = absurd (ground arith)
  step-lt (set_threshold n) i e = absurd (ground arith)
  step-lt close_done i e = close_done-lt s.closer refl e
  step-lt broadcast i e = broadcast-lt s.closer refl e
  step-lt drain i e = drain-lt s.closer s.state.work refl refl e

run-le :
    (acts : List Action) (s t : System)
    → IsOrderly s
    → s.state.done ≡ true
    → All (λ a. is_internal a ≡ true) acts
    → run acts s ≡ some t
    → length acts + weight t ≤ weight s
unfolding run
run-le [] s t v over i e = ground arith
run-le (a ∷ acts) s t v over i e = elim (Option-cases (step a s)) [
  | inl stuck ↦ absurd (ground arith)
  | inr (u, q) ↦
      let (over', less) = step-lt s u v over a i.0 q in
      let rest = run-le acts u t (step-IsOrderly a s u q v) over' i.1 (ground arith) in omega arith
]

-- From any reachable state with `done` closed, every run of steps that the code owes is at most as
-- long as the weight of the state, whatever else is under way: the shutdown cannot go on for ever.
pub shutdown_bounded :
    (s₀ : DcSendState) {s : System} (acts : List Action) (t : System)
    → s₀.done ≡ false
    → Reach s₀ s
    → s.state.done ≡ true
    → All (λ a. is_internal a ≡ true) acts
    → run acts s ≡ some t
    → length acts + weight t ≤ weight s
shutdown_bounded s₀ {s} acts t live r over i e =
    run-le acts s t (Reach-IsOrderly s₀ live r) over i e
