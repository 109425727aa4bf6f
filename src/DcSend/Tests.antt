-- ===== src/DcSend/Tests.antt =====
-- Runs of the model of dcsend.go on concrete channels.
use flutter_pion_bridge.Prelude.{
  ℕ, ◌+◌, ◌≤◌, ◌≡◌, refl, subst, true, false, none, some, List, [], ◌∷◌, ◌++◌, length, arith,
  Option-cases, ◌⊎◌, inl, inr, pos,
}
use flutter_pion_bridge.Types.{error_response}
use flutter_pion_bridge.DcSend.{
  DcSendWork, DcSendState, System, init, emit, closed_before, closed_during, pick, Action, issue,
  enqueue, recheck, take, exit, send_returns, check, close_done, broadcast, drain, enqueue_step,
  reclaim, recheck_step, take_step, exit_step, send_returns_step, check_step, close_done_step,
  broadcast_step, drain_step, step, Reach, start, next, run,
}
use flutter_pion_bridge.DcSend.Counting.{asked, answered}
use flutter_pion_bridge.DcSend.Accounting.{in_hand, Reach-accounted}
use flutter_pion_bridge.DcSend.Settling.{IsSettled, settled_answered, weight, shutdown_bounded}
use flutter_pion_bridge.DcSend.Settling.Progress.{CanGo, shutdown_progress}
use flutter_pion_bridge.DcSend.Ordering.{sends_in_order}
use flutter_pion_bridge.DcSend.Ordering.Sublists.{Within}

abbrev chunk : ℕ → ℕ → DcSendWork
chunk session id = record {
  bytes = 1 ∷ 2 ∷ 3 ∷ [];
  text = "";
  is_text = false;
  msg_id = pos id;
  handle = "c1";
  await_drain = true;
  send_event = some session;
}

abbrev fresh_state : DcSendState
fresh_state = record {
  work = [];
  capacity = 32;
  done = false;
  threshold = 100;
  detach = false;
  raw = none;
}

-- Session 1 sends two chunks and session 2 one; the first is parked when the channel is closed, the
-- second is queued, and the third comes late.
abbrev before_close : List Action
before_close =
    issue (chunk 1 7)
    ∷ enqueue 0
    ∷ recheck
    ∷ take
    ∷ send_returns
    ∷ check 500
    ∷ issue (chunk 1 8)
    ∷ enqueue 0
    ∷ issue (chunk 2 7)
    ∷ close_done
    ∷ []

abbrev shutdown : List Action
shutdown = recheck ∷ enqueue 0 ∷ broadcast ∷ drain ∷ drain ∷ check 500 ∷ recheck ∷ exit ∷ []

abbrev after : List Action → System → System
after acts s = elim (run acts s) [ none ↦ s | some t ↦ t ]

abbrev closed_system : System
closed_system = after before_close (init fresh_state)

abbrev settled_system : System
settled_system = after shutdown closed_system

run-Reach :
    (s₀ : DcSendState) (acts : List Action) (s t : System)
    → Reach s₀ s
    → run acts s ≡ some t
    → Reach s₀ t
unfolding run
run-Reach s₀ [] s t r e = subst (Reach s₀) (ground arith) r
run-Reach s₀ (a ∷ acts) s t r e = elim (Option-cases (step a s)) [
  | inl stuck ↦ absurd (ground arith)
  | inr (u, q) ↦ run-Reach s₀ acts u t (next a r q) (ground arith)
]

reach_closed : Reach fresh_state closed_system
unfolding run step enqueue_step recheck_step take_step send_returns_step check_step close_done_step
    pick reclaim
reach_closed = run-Reach fresh_state before_close (init fresh_state) closed_system start refl

run-shutdown : run shutdown closed_system ≡ some settled_system
unfolding run step enqueue_step recheck_step take_step send_returns_step check_step close_done_step
    pick reclaim broadcast_step drain_step exit_step
run-shutdown = refl

reach_settled : Reach fresh_state settled_system
reach_settled =
    run-Reach fresh_state shutdown closed_system settled_system reach_closed run-shutdown

settled_answered_example :
    (settled_system.state.work ≡ [])
    × (answered 1 (pos 8) settled_system.log ≡ asked 1 (pos 8) settled_system.issued)
unfolding run step enqueue_step recheck_step take_step send_returns_step check_step close_done_step
    pick reclaim broadcast_step drain_step exit_step
settled_answered_example =
    settled_answered fresh_state 1 (pos 8) refl refl reach_settled
      (record { closed = refl; none_pending = refl; none_rechecking = refl; none_in_hand = refl })

Reach-accounted_example :
    asked 1 (pos 7) closed_system.issued
    ≡ asked 1 (pos 7) closed_system.pending
      + asked 1 (pos 7) closed_system.state.work
      + asked 1 (pos 7) (in_hand closed_system.sender)
      + answered 1 (pos 7) closed_system.log
Reach-accounted_example = Reach-accounted fresh_state 1 (pos 7) refl reach_closed

shutdown_bounded_example : length shutdown + weight settled_system ≤ weight closed_system
unfolding run step enqueue_step recheck_step take_step send_returns_step check_step close_done_step
    pick reclaim
shutdown_bounded_example =
    shutdown_bounded fresh_state shutdown settled_system refl reach_closed refl
      (refl, (refl, (refl, (refl, (refl, (refl, (refl, (refl, tt)))))))) run-shutdown

shutdown_progress_example : IsSettled closed_system ⊎ CanGo closed_system
unfolding run step enqueue_step recheck_step take_step send_returns_step check_step close_done_step
    pick reclaim
shutdown_progress_example = shutdown_progress fresh_state refl reach_closed refl

sends_in_order_example :
    Within closed_system.sent closed_system.accepted
    × (closed_system.state.done ≡ false
        → closed_system.accepted ≡ closed_system.sent ++ closed_system.state.work)
    × (length closed_system.state.work ≤ closed_system.state.capacity)
sends_in_order_example = sends_in_order fresh_state refl refl reach_closed

-- The parked chunk and the queued ones are failed, each on the session that sent it.
responses :
    settled_system.log
    ≡ (1, error_response (pos 8) "DC_CLOSED" "data channel closed before send" false "c1")
      ∷ (2, error_response (pos 7) "DC_CLOSED" "data channel closed before send" false "c1")
      ∷ (1, error_response (pos 7) "DC_CLOSED" "data channel closed during send" false "c1")
      ∷ []
unfolding run step enqueue_step recheck_step take_step send_returns_step check_step close_done_step
    pick reclaim broadcast_step drain_step exit_step emit closed_before closed_during
responses = refl
