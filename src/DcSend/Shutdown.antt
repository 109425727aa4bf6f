-- ===== src/DcSend/Shutdown.antt =====
-- The shutdown of a channel's queue in dcsend.go: what `done`, the broadcast and the drain establish.
use flutter_pion_bridge.Prelude.{
  ℕ, zero, suc, ◌≤◌, ◌≡◌, refl, String, Bool, true, false, some, List, [], ◌∷◌, length,
  length-append, arith, Option-cases, inl, inr,
}
use flutter_pion_bridge.DcSend.{
  DcSendWork, DcSendState, Sender, idle, sending, waiting, parked, Closer, not_started, closing,
  draining, finished, System, pick, wake, Action, issue, enqueue, refuse, recheck, take, exit,
  send_fails, send_returns, check, signal_low, set_threshold, close_done, broadcast, drain,
  enqueue_step, refuse_step, reclaim, recheck_step, take_step, exit_step, send_fails_step,
  send_returns_step, check_step, set_threshold_step, close_done_step, broadcast_step, drain_step,
  step, Reach, start, next,
}

abbrev pub has_closed : Closer → Bool
has_closed not_started = false
has_closed _ = true

abbrev pub has_woken : Closer → Bool
has_woken draining = true
has_woken finished = true
has_woken _ = false

abbrev pub has_drained : Closer → Bool
has_drained finished = true
has_drained _ = false

abbrev pub is_parked : Sender → Bool
is_parked (parked w) = true
is_parked _ = false

pub record IsOrderly (s : System) : Type 0 where
  pub marked : s.state.done ≡ has_closed s.closer
  pub awake : has_woken s.closer ≡ true → is_parked s.sender ≡ false
  pub covered : has_drained s.closer ≡ true → length s.state.work ≤ s.rechecking

enqueue-IsOrderly : (n : ℕ) (s t : System) → enqueue_step n s ≡ some t → IsOrderly s → IsOrderly t
unfolding enqueue_step
enqueue-IsOrderly n s t e v = elim (Option-cases (pick n s.pending)) [
  | inl out ↦ absurd (ground arith)
  | inr (found, q) ↦ ground (arith, length-append s.state.work (found.0 ∷ []), v.covered)
]

refuse-IsOrderly : (n : ℕ) (s t : System) → refuse_step n s ≡ some t → IsOrderly s → IsOrderly t
unfolding refuse_step
refuse-IsOrderly n s t e v = elim (Option-cases (pick n s.pending)) [
  | inl out ↦ absurd (ground arith)
  | inr (found, q) ↦ ground arith
]

recheck-IsOrderly :
    (n : ℕ) (ws : List DcSendWork) (s t : System)
    → s.rechecking ≡ n
    → s.state.work ≡ ws
    → recheck_step n s ≡ some t
    → IsOrderly s
    → IsOrderly t
unfolding recheck_step reclaim
recheck-IsOrderly zero ws s t p q e v = absurd (ground arith)
recheck-IsOrderly (suc n) [] s t p q e v = ground arith
recheck-IsOrderly (suc n) (w ∷ ws) s t p q e v = ground arith

take-IsOrderly :
    (x : Sender) (ws : List DcSendWork) (s t : System)
    → s.sender ≡ x
    → s.state.work ≡ ws
    → take_step x ws s ≡ some t
    → IsOrderly s
    → IsOrderly t
unfolding take_step
take-IsOrderly idle (w ∷ ws) s t x q e v = ground arith
take-IsOrderly _ _ s t x q e v = absurd (ground arith)

exit-IsOrderly : (x : Sender) (s t : System) → exit_step x s ≡ some t → IsOrderly s → IsOrderly t
unfolding exit_step
exit-IsOrderly idle s t e v = ground arith
exit-IsOrderly _ s t e v = absurd (ground arith)

send_fails-IsOrderly :
    (err : String) (x : Sender) (s t : System)
    → send_fails_step err x s ≡ some t
    → IsOrderly s
    → IsOrderly t
unfolding send_fails_step
send_fails-IsOrderly err (sending w) s t e v = ground arith
send_fails-IsOrderly err _ s t e v = absurd (ground arith)

send_returns-IsOrderly :
    (x : Sender) (s t : System) → send_returns_step x s ≡ some t → IsOrderly s → IsOrderly t
unfolding send_returns_step
send_returns-IsOrderly (sending w) s t e v = ground arith
send_returns-IsOrderly _ s t e v = absurd (ground arith)

check-IsOrderly :
    (b : ℕ) (x : Sender) (s t : System) → check_step b x s ≡ some t → IsOrderly s → IsOrderly t
unfolding check_step
check-IsOrderly b (waiting w) s t e v = ground arith
check-IsOrderly b _ s t e v = absurd (ground arith)

wake-awake : (x : Sender) → is_parked (wake x) ≡ false
wake-awake x = ground arith

close_done-IsOrderly :
    (x : Closer) (s t : System)
    → s.closer ≡ x
    → close_done_step x s ≡ some t
    → IsOrderly s
    → IsOrderly t
unfolding close_done_step
close_done-IsOrderly not_started s t x e v = ground arith
close_done-IsOrderly _ s t x e v = absurd (ground arith)

broadcast-IsOrderly :
    (x : Closer) (s t : System)
    → s.closer ≡ x
    → broadcast_step x s ≡ some t
    → IsOrderly s
    → IsOrderly t
unfolding broadcast_step
broadcast-IsOrderly closing s t x e v = ground (arith, wake-awake s.sender)
broadcast-IsOrderly _ s t x e v = absurd (ground arith)

drain-IsOrderly :
    (x : Closer) (ws : List DcSendWork) (s t : System)
    → s.closer ≡ x
    → s.state.work ≡ ws
    → drain_step x ws s ≡ some t
    → IsOrderly s
    → IsOrderly t
unfolding drain_step
drain-IsOrderly draining (w ∷ ws) s t x q e v = ground arith
drain-IsOrderly draining [] s t x q e v = ground arith
drain-IsOrderly _ _ s t x q e v = absurd (ground arith)

pub step-IsOrderly : (a : Action) (s t : System) → step a s ≡ some t → IsOrderly s → IsOrderly t
unfolding step set_threshold_step
step-IsOrderly (issue w) s t e v = ground arith
step-IsOrderly (enqueue n) s t e v = enqueue-IsOrderly n s t e v
step-IsOrderly (refuse n) s t e v = refuse-IsOrderly n s t e v
step-IsOrderly recheck s t e v = recheck-IsOrderly s.rechecking s.state.work s t refl refl e v
step-IsOrderly take s t e v = take-IsOrderly s.sender s.state.work s t refl refl e v
step-IsOrderly exit s t e v = exit-IsOrderly s.sender s t e v
step-IsOrderly (send_fails err) s t e v = send_fails-IsOrderly err s.sender s t e v
step-IsOrderly send_returns s t e v = send_returns-IsOrderly s.sender s t e v
step-IsOrderly (check b) s t e v = check-IsOrderly b s.sender s t e v
step-IsOrderly signal_low s t e v = ground (arith, wake-awake s.sender)
step-IsOrderly (set_threshold n) s t e v = ground (arith, wake-awake s.sender)
step-IsOrderly close_done s t e v = close_done-IsOrderly s.closer s t refl e v
step-IsOrderly broadcast s t e v = broadcast-IsOrderly s.closer s t refl e v
step-IsOrderly drain s t e v = drain-IsOrderly s.closer s.state.work s t refl refl e v

pub Reach-IsOrderly : (s₀ : DcSendState) {s : System} → s₀.done ≡ false → Reach s₀ s → IsOrderly s
Reach-IsOrderly s₀ new start = ground arith
Reach-IsOrderly s₀ new (next {s = s} {t = t} a r e) =
    step-IsOrderly a s t e (Reach-IsOrderly s₀ new r)
