-- ===== src/Session/Tests.antt =====
-- A run of a session with two outbound frames and one inbound, closed while the first is delivered.
use flutter_pion_bridge.Prelude.{
  ◌+◌, ◌≤◌, ◌⊎◌, ℕ, ◌≡◌, refl, subst, true, none, some, List, [], ◌∷◌, ◌++◌, arith, Option-cases,
  inl, inr,
}
use flutter_pion_bridge.Session.{
  new_conn_writer, close_writer, FrameSession, new_frame_session, pick, Action, push, enqueue,
  push_sends, enqueue_sends, writer_takes, writer_rechecks, deliver_returns, reader_takes,
  frame_returns, reader_stops, close_begins, close_writes, close_returns, push_step, enqueue_step,
  push_sends_step, enqueue_sends_step, writer_takes_step, writer_rechecks_step,
  deliver_returns_step, reader_takes_step, frame_returns_step, reader_stops_step, close_begins_step,
  close_writes_step, close_returns_step, step, run, Reach, start, next,
}
use flutter_pion_bridge.Session.{returned}
use flutter_pion_bridge.Session.Finishing.{written, weight, total}
use flutter_pion_bridge.Session.Finishing.Progress.{CanMove, close_bounded, close_progress}
use flutter_pion_bridge.Session.Delivery.{has_stopped}
use flutter_pion_bridge.Session.Delivery.Order.{frames_in_order}
use flutter_pion_bridge.Session.Closed.Return.{silent_after_close}

abbrev traffic : List (Action ℕ)
traffic =
    push 7
    ∷ push_sends 0
    ∷ reader_takes
    ∷ enqueue 1
    ∷ enqueue 2
    ∷ enqueue_sends 1
    ∷ enqueue_sends 0
    ∷ writer_takes
    ∷ writer_rechecks
    ∷ []

abbrev shutdown : List (Action ℕ)
shutdown =
    close_begins ∷ close_writes ∷ deliver_returns ∷ writer_takes ∷ writer_rechecks ∷ close_returns
    ∷ []

-- What a peer tries afterwards: an enqueue is refused, the reader ends.
abbrev late : List (Action ℕ)
late = enqueue 3 ∷ push 8 ∷ frame_returns ∷ reader_stops ∷ []

unfoldable state_after : List (Action ℕ) → FrameSession ℕ → FrameSession ℕ
state_after [] s = s
state_after (a ∷ rest) s = elim (step a s) [ none ↦ s | some t ↦ state_after rest t ]

Reach-run :
    (acts : List (Action ℕ)) (s t : FrameSession ℕ) → Reach s → run acts s ≡ some t → Reach t
unfolding run
Reach-run [] s t r e = subst Reach (ground arith) r
Reach-run (a ∷ rest) s t r e = elim (Option-cases (step a s)) [
  | inl q ↦ absurd (ground arith)
  | inr (u, q) ↦ Reach-run rest u t (next a r q) (ground arith)
]

abbrev busy : FrameSession ℕ
busy = state_after traffic (new_frame_session ℕ)

abbrev closed_session : FrameSession ℕ
closed_session = state_after shutdown busy

busy-Reach : Reach busy
unfolding state_after run step push_step enqueue_step push_sends_step enqueue_sends_step
    writer_takes_step writer_rechecks_step reader_takes_step new_frame_session new_conn_writer pick
busy-Reach = Reach-run traffic (new_frame_session ℕ) busy start refl

closed-Reach : Reach closed_session
unfolding state_after run step push_step enqueue_step push_sends_step enqueue_sends_step
    writer_takes_step writer_rechecks_step reader_takes_step new_frame_session new_conn_writer pick
    close_begins_step close_writes_step close_returns_step deliver_returns_step close_writer
closed-Reach = Reach-run shutdown busy closed_session busy-Reach refl

frames_in_order_example : busy.pushed ≡ busy.processed ++ busy.inbox.ch
frames_in_order_example = (frames_in_order busy-Reach).1

silent_after_close_example :
    (has_stopped (state_after late closed_session).writer ≡ true)
    × ((state_after late closed_session).delivered ≡ closed_session.delivered)
unfolding state_after run step push_step enqueue_step push_sends_step enqueue_sends_step
    writer_takes_step writer_rechecks_step reader_takes_step new_frame_session new_conn_writer pick
    close_begins_step close_writes_step close_returns_step deliver_returns_step close_writer
    frame_returns_step reader_stops_step
silent_after_close_example = silent_after_close late closed-Reach refl refl

-- `Close` has told the writer to stop while it delivers and a frame is queued.
abbrev closing_session : FrameSession ℕ
closing_session = state_after (enqueue 4 ∷ push 9 ∷ close_begins ∷ close_writes ∷ []) busy

closing-Reach : Reach closing_session
unfolding state_after run step push_step enqueue_step push_sends_step enqueue_sends_step
    writer_takes_step writer_rechecks_step reader_takes_step new_frame_session new_conn_writer pick
    close_begins_step close_writes_step close_writer
closing-Reach =
    Reach-run (enqueue 4 ∷ push 9 ∷ close_begins ∷ close_writes ∷ []) busy closing_session
      busy-Reach refl

told : written closing_session.closing ≡ true
unfolding state_after run step push_step enqueue_step push_sends_step enqueue_sends_step
    writer_takes_step writer_rechecks_step reader_takes_step new_frame_session new_conn_writer pick
    close_begins_step close_writes_step close_writer written
told = refl

abbrev ending : List (Action ℕ)
ending = deliver_returns ∷ writer_takes ∷ writer_rechecks ∷ close_returns ∷ []

close_bounded_example :
    let t = state_after ending closing_session in
    (total ending + weight t ≤ weight closing_session) × (weight closing_session ≤ 4)
unfolding state_after run step push_step enqueue_step push_sends_step enqueue_sends_step
    writer_takes_step writer_rechecks_step reader_takes_step new_frame_session new_conn_writer pick
    close_begins_step close_writes_step close_returns_step deliver_returns_step close_writer
close_bounded_example = close_bounded ending closing-Reach told refl

close_progress_example : (closing_session.closing ≡ returned) ⊎ CanMove closing_session
close_progress_example = close_progress closing-Reach told
