-- ===== src/Cshared/Tests.antt =====
-- Two sessions of the shared library, one of them closed.
use flutter_pion_bridge.Prelude.{
  if◌then◌else◌, ◌=ℕ◌, ℕ, negsuc, ◌^◌, ◌<◌, ◌≡◌, refl, subst, false, none, some, List, [], ◌∷◌,
  length, arith, Option-cases, inl, inr,
}
use flutter_pion_bridge.Session.{
  FrameSession, new_frame_session, new_conn_writer, close_writer, pick, Action, push, enqueue,
  push_sends, enqueue_sends, writer_takes, writer_rechecks, writer_stops, deliver_returns,
  close_writes, close_returns, returned, push_step, push_sends_step, enqueue_step,
  enqueue_sends_step, writer_takes_step, writer_rechecks_step, writer_stops_step,
  deliver_returns_step, close_begins_step, close_writes_step, close_returns_step,
}
use flutter_pion_bridge.Session as Session
use flutter_pion_bridge.Cshared.{
  Bridge, new_bridge, find, drop, get_elem?, set_elem, Call, opens, send_looks, send_pushes,
  close_runs, close_looks, session_moves, pion_bridge_open, pion_bridge_send, update,
  send_pushes_step, is_own, session_moves_step, pion_bridge_close, close_runs_step, step, run,
  Reach, start, next,
}
use flutter_pion_bridge.Cshared.Ids.{open_fresh}
use flutter_pion_bridge.Cshared.Spent.{closed_id_is_refused}

unfoldable state_after : List (Call ℕ) → Bridge ℕ → Bridge ℕ
state_after [] b = b
state_after (c ∷ rest) b = elim (step c b) [ none ↦ b | some b' ↦ state_after rest b' ]

Reach-run : (calls : List (Call ℕ)) (b b' : Bridge ℕ) → Reach b → run calls b ≡ some b' → Reach b'
unfolding run
Reach-run [] b b' r e = subst Reach (ground arith) r
Reach-run (c ∷ rest) b b' r e = elim (Option-cases (step c b)) [
  | inl q ↦ absurd (ground arith)
  | inr (m, q) ↦ Reach-run rest m b' (next c r q) (ground arith)
]

abbrev traffic : List (Call ℕ)
traffic =
    opens
    ∷ opens
    ∷ send_looks 1 70
    ∷ send_pushes 0
    ∷ session_moves 0 (push_sends 0)
    ∷ session_moves 0 (enqueue 8)
    ∷ session_moves 0 (enqueue_sends 0)
    ∷ session_moves 0 writer_takes
    ∷ session_moves 0 writer_rechecks
    ∷ []

abbrev busy : Bridge ℕ
busy = state_after traffic (new_bridge ℕ)

busy-Reach : Reach busy
unfolding state_after run step pion_bridge_open pion_bridge_send send_pushes_step session_moves_step
    is_own update find drop get_elem? set_elem pick Session.step push_step push_sends_step
    enqueue_step enqueue_sends_step writer_takes_step writer_rechecks_step new_frame_session
    new_conn_writer
busy-Reach = Reach-run traffic (new_bridge ℕ) busy start refl

abbrev first_session : FrameSession ℕ
first_session = record (new_frame_session ℕ) {
  writer = Session.delivering 8;
  inbox = record { ch = 70 ∷ []; size = 8192; done = false };
  pushed = 70 ∷ [];
  accepted = 8 ∷ [];
  delivered = 8 ∷ [];
}

first_there : get_elem? busy.heap 0 ≡ some first_session
unfolding state_after run step pion_bridge_open pion_bridge_send send_pushes_step session_moves_step
    is_own update find drop get_elem? set_elem pick Session.step push_step push_sends_step
    enqueue_step enqueue_sends_step writer_takes_step writer_rechecks_step new_frame_session
    new_conn_writer
first_there = refl

busy-length : length busy.heap ≡ 2
unfolding state_after run step pion_bridge_open pion_bridge_send send_pushes_step session_moves_step
    is_own update find drop get_elem? set_elem pick Session.step push_step push_sends_step
    enqueue_step enqueue_sends_step writer_takes_step writer_rechecks_step new_frame_session
    new_conn_writer
busy-length = refl

open_fresh_example :
    let out = pion_bridge_open busy in
    (0 < out.0)
    × (out.0 < 2 ^ 63)
    × (find out.0 busy.sessions ≡ none)
    × (get_elem? out.1.heap (length busy.heap) ≡ some (new_frame_session ℕ))
    × ((j : ℕ)
        → find j out.1.sessions
          ≡ (if out.0 =ℕ j then some (length busy.heap) else find j busy.sessions))
open_fresh_example = open_fresh busy-Reach (omega (arith, busy-length))

abbrev reopened : List (Call ℕ)
reopened = close_runs 0 ∷ opens ∷ opens ∷ []

closed_id_is_refused_example :
    let b = state_after reopened (pion_bridge_close 1 busy) in
    pion_bridge_send 1 71 b ≡ (some (negsuc 0), b)
unfolding state_after run step pion_bridge_open pion_bridge_send send_pushes_step session_moves_step
    is_own update find drop get_elem? set_elem pick Session.step push_step push_sends_step
    enqueue_step enqueue_sends_step writer_takes_step writer_rechecks_step new_frame_session
    new_conn_writer pion_bridge_close close_runs_step close_begins_step close_writes_step
    close_returns_step close_writer deliver_returns_step writer_stops_step
closed_id_is_refused_example =
    closed_id_is_refused reopened 1 71 busy-Reach (omega arith) (omega (arith, busy-length)) refl
      (omega arith)

-- A second `PionBridgeClose` during the first returns at once, and the callback still runs.
second_close :
    let b = state_after (close_looks 1 ∷ close_looks 1 ∷ []) busy in
    (find 1 b.sessions ≡ none) × (b.closing ≡ 0 ∷ []) × (get_elem? b.heap 0 ≡ some first_session)
unfolding state_after run step pion_bridge_open pion_bridge_send send_pushes_step session_moves_step
    is_own update find drop get_elem? set_elem pick Session.step push_step push_sends_step
    enqueue_step enqueue_sends_step writer_takes_step writer_rechecks_step new_frame_session
    new_conn_writer pion_bridge_close close_runs_step close_begins_step close_writes_step
    close_returns_step close_writer deliver_returns_step writer_stops_step
second_close = (refl, refl, refl)
