-- ===== src/DcSend/Ordering.antt =====
-- The order in which the goroutine of dcsend.go sends: that of the calls that enqueued.
pub mod Sublists
use mathlib.Core.List.{append_assoc}
use flutter_pion_bridge.Prelude.{
  ℕ, zero, suc, ◌≤◌, ◌≡◌, refl, sym, ap, ◌∙◌, subst, String, true, false, some, List, [], ◌∷◌, ◌++◌,
  length, length-append, ltb, arith, Bool-cases, Option-cases, inl, inr,
}
use flutter_pion_bridge.DcSend.{
  DcSendWork, DcSendState, Sender, idle, sending, waiting, Closer, not_started, closing, draining,
  System, pick, fail_head, Action, issue, enqueue, refuse, recheck, take, exit, send_fails,
  send_returns, check, signal_low, set_threshold, close_done, broadcast, drain, enqueue_step,
  refuse_step, reclaim, recheck_step, take_step, exit_step, send_fails_step, send_returns_step,
  check_step, set_threshold_step, close_done_step, broadcast_step, drain_step, step, Reach, start,
  next,
}
use flutter_pion_bridge.DcSend.Shutdown.{IsOrderly, Reach-IsOrderly}
use flutter_pion_bridge.DcSend.Ordering.Sublists.{Within, nil, keep_last, skip_last, Within-append}

pub record IsOrdered (s : System) : Type 0 where
  pub queue : s.accepted ≡ s.left ++ s.state.work
  pub live : s.state.done ≡ false → s.sent ≡ s.left
  pub within : Within s.sent s.left
  pub room : length s.state.work ≤ s.state.capacity

-- The system moved, with these parts as they were.
record Same (s t : System) : Type 0 where
  accepted : t.accepted ≡ s.accepted
  left : t.left ≡ s.left
  sent : t.sent ≡ s.sent
  work : t.state.work ≡ s.state.work
  capacity : t.state.capacity ≡ s.state.capacity
  done : t.state.done ≡ false → s.state.done ≡ false

Same-IsOrdered : {s t : System} → Same s t → IsOrdered s → IsOrdered t
Same-IsOrdered {s} {t} m v = record {
  queue = ground (arith, m.accepted, m.left, m.work, v.queue);
  live = λ e. m.sent ∙ v.live (m.done e) ∙ sym m.left;
  within = subst (Within t.sent) (sym m.left) (subst (λ l. Within l s.left) (sym m.sent) v.within);
  room = ground (arith, m.work, m.capacity, v.room);
}

fail_head-IsOrdered :
    (w : DcSendWork) (ws : List DcSendWork) (s : System)
    → s.state.work ≡ w ∷ ws
    → s.state.done ≡ true
    → IsOrdered s
    → IsOrdered (fail_head w ws s)
fail_head-IsOrdered w ws s e over v = record {
  queue = ground (arith, v.queue, append_assoc s.left (w ∷ []) ws);
  live = λ q. absurd (ground arith);
  within = skip_last w v.within;
  room = ground (arith, v.room);
}

enqueue-IsOrdered : (n : ℕ) (s t : System) → enqueue_step n s ≡ some t → IsOrdered s → IsOrdered t
unfolding enqueue_step
enqueue-IsOrdered n s t e v = elim (Option-cases (pick n s.pending)) [
  | inl out ↦ absurd (ground arith)
  | inr (found, q) ↦ subst IsOrdered (ground arith) (accept found.0 found.1 (ground arith))
]
  where
    accept :
        (w : DcSendWork) (rest : List DcSendWork)
        → ltb (length s.state.work) s.state.capacity ≡ true
        → IsOrdered (record s {
          state = record s.state { work = s.state.work ++ w ∷ [] };
          pending = rest;
          rechecking = suc s.rechecking;
          accepted = s.accepted ++ w ∷ [];
        })
    accept w rest lt = record {
      queue = ground (arith, v.queue, append_assoc s.left s.state.work (w ∷ []));
      live = v.live;
      within = v.within;
      room = ground (arith, length-append s.state.work (w ∷ []));
    }

refuse-Same : (n : ℕ) (s t : System) → refuse_step n s ≡ some t → Same s t
unfolding refuse_step
refuse-Same n s t e = elim (Option-cases (pick n s.pending)) [
  | inl out ↦ absurd (ground arith)
  | inr (found, q) ↦ ground arith
]

recheck-IsOrdered :
    (n : ℕ) (ws : List DcSendWork) (s t : System)
    → s.state.work ≡ ws
    → recheck_step n s ≡ some t
    → IsOrdered s
    → IsOrdered t
unfolding recheck_step reclaim
recheck-IsOrdered zero ws s t q e v = absurd (ground arith)
recheck-IsOrdered (suc n) [] s t q e v = Same-IsOrdered (ground arith) v
recheck-IsOrdered (suc n) (w ∷ ws) s t q e v = elim (Bool-cases s.state.done) [
  | inl over ↦
      let s' = record s { rechecking = n } in
      let v' : IsOrdered s' = record {
        queue = v.queue;
        live = v.live;
        within = v.within;
        room = v.room;
      } in
      subst IsOrdered (ground arith) (fail_head-IsOrdered w ws s' q over v')
  | inr live ↦ Same-IsOrdered (ground arith) v
]

take-IsOrdered :
    (x : Sender) (ws : List DcSendWork) (s t : System)
    → s.state.work ≡ ws
    → take_step x ws s ≡ some t
    → IsOrdered s
    → IsOrdered t
unfolding take_step
take-IsOrdered idle (w ∷ ws) s t q e v = subst IsOrdered (ground arith) taken
  where
    taken : IsOrdered (record s {
      state = record s.state { work = ws };
      sender = sending w;
      left = s.left ++ w ∷ [];
      sent = s.sent ++ w ∷ [];
    })
    taken = record {
      queue = ground (arith, v.queue, append_assoc s.left (w ∷ []) ws);
      live = λ d. ap (λ l. l ++ w ∷ []) (v.live d);
      within = keep_last w v.within;
      room = ground (arith, v.room);
    }
take-IsOrdered _ _ s t q e v = absurd (ground arith)

exit-Same : (x : Sender) (s t : System) → exit_step x s ≡ some t → Same s t
unfolding exit_step
exit-Same idle s t e = ground arith
exit-Same _ s t e = absurd (ground arith)

send_fails-Same :
    (err : String) (x : Sender) (s t : System) → send_fails_step err x s ≡ some t → Same s t
unfolding send_fails_step
send_fails-Same err (sending w) s t e = ground arith
send_fails-Same err _ s t e = absurd (ground arith)

send_returns-Same : (x : Sender) (s t : System) → send_returns_step x s ≡ some t → Same s t
unfolding send_returns_step
send_returns-Same (sending w) s t e = ground arith
send_returns-Same _ s t e = absurd (ground arith)

check-Same : (b : ℕ) (x : Sender) (s t : System) → check_step b x s ≡ some t → Same s t
unfolding check_step
check-Same b (waiting w) s t e = ground arith
check-Same b _ s t e = absurd (ground arith)

close_done-Same : (x : Closer) (s t : System) → close_done_step x s ≡ some t → Same s t
unfolding close_done_step
close_done-Same not_started s t e = ground arith
close_done-Same _ s t e = absurd (ground arith)

broadcast-Same : (x : Closer) (s t : System) → broadcast_step x s ≡ some t → Same s t
unfolding broadcast_step
broadcast-Same closing s t e = ground arith
broadcast-Same _ s t e = absurd (ground arith)

drain-IsOrdered :
    (x : Closer) (ws : List DcSendWork) (s t : System)
    → s.closer ≡ x
    → s.state.work ≡ ws
    → IsOrderly s
    → drain_step x ws s ≡ some t
    → IsOrdered s
    → IsOrdered t
unfolding drain_step
drain-IsOrdered draining (w ∷ ws) s t x q o e v =
    subst IsOrdered (ground arith) (fail_head-IsOrdered w ws s q (ground (arith, o.marked)) v)
drain-IsOrdered draining [] s t x q o e v = Same-IsOrdered (ground arith) v
drain-IsOrdered _ _ s t x q o e v = absurd (ground arith)

step-IsOrdered :
    (a : Action) (s t : System) → step a s ≡ some t → IsOrderly s → IsOrdered s → IsOrdered t
unfolding step set_threshold_step
step-IsOrdered (issue w) s t e o v = Same-IsOrdered (ground arith) v
step-IsOrdered (enqueue n) s t e o v = enqueue-IsOrdered n s t e v
step-IsOrdered (refuse n) s t e o v = Same-IsOrdered (refuse-Same n s t e) v
step-IsOrdered recheck s t e o v = recheck-IsOrdered s.rechecking s.state.work s t refl e v
step-IsOrdered take s t e o v = take-IsOrdered s.sender s.state.work s t refl e v
step-IsOrdered exit s t e o v = Same-IsOrdered (exit-Same s.sender s t e) v
step-IsOrdered (send_fails err) s t e o v = Same-IsOrdered (send_fails-Same err s.sender s t e) v
step-IsOrdered send_returns s t e o v = Same-IsOrdered (send_returns-Same s.sender s t e) v
step-IsOrdered (check b) s t e o v = Same-IsOrdered (check-Same b s.sender s t e) v
step-IsOrdered signal_low s t e o v = Same-IsOrdered (ground arith) v
step-IsOrdered (set_threshold n) s t e o v = Same-IsOrdered (ground arith) v
step-IsOrdered close_done s t e o v = Same-IsOrdered (close_done-Same s.closer s t e) v
step-IsOrdered broadcast s t e o v = Same-IsOrdered (broadcast-Same s.closer s t e) v
step-IsOrdered drain s t e o v = drain-IsOrdered s.closer s.state.work s t refl refl o e v

Reach-IsOrdered :
    (s₀ : DcSendState) {s : System} → s₀.work ≡ [] → s₀.done ≡ false → Reach s₀ s → IsOrdered s
Reach-IsOrdered s₀ new live start = record {
  queue = sym new;
  live = λ e. refl;
  within = nil;
  room = rw new (omega arith);
}
Reach-IsOrdered s₀ new live (next {s = s} {t = t} a r e) =
    step-IsOrdered a s t e (Reach-IsOrderly s₀ live r) (Reach-IsOrdered s₀ new live r)

-- In every interleaving the sender receives items in the order in which they were enqueued: what it
-- has received lies, in order, within what was accepted; while the channel is open it is exactly
-- what was accepted less what is queued; and the queue never exceeds its capacity.
pub sends_in_order :
    (s₀ : DcSendState) {s : System}
    → s₀.work ≡ []
    → s₀.done ≡ false
    → Reach s₀ s
    → Within s.sent s.accepted
      × (s.state.done ≡ false → s.accepted ≡ s.sent ++ s.state.work)
      × (length s.state.work ≤ s.state.capacity)
sends_in_order s₀ {s} new live r =
    let v = Reach-IsOrdered s₀ new live r in
    (
      subst (Within s.sent) (sym v.queue) (Within-append s.state.work v.within),
      λ d. v.queue ∙ ap (λ l. l ++ s.state.work) (sym (v.live d)),
      v.room,
    )
