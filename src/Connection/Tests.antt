-- ===== src/Connection/Tests.antt =====
-- A WebSocket connection whose peer stops reading.
use flutter_pion_bridge.Prelude.{
  ℕ, ◌+◌, ◌≤◌, ◌≡◌, refl, subst, true, none, some, List, [], ◌∷◌, ◌++◌, length, arith, Option-cases,
  ◌⊎◌, inl, inr,
}
use flutter_pion_bridge.Session.{new_conn_writer, close_writer, pick}
use flutter_pion_bridge.Connection.{
  answer, replies, reply_sends, replies_step, reply_sends_step, binary, other, Connection,
  new_connection, Action, enqueue, enqueue_sends, writer_takes, write_succeeds, write_fails,
  writer_closes_conn, writer_closes_writer, reads, read_fails, frame_returns, reader_closes_writer,
  reader_closes_conn, pinger_stops, enqueue_step, enqueue_sends_step, writer_takes_step,
  write_succeeds_step, write_fails_step, writer_closes_conn_step, writer_closes_writer_step,
  read_message, reads_step, read_fails_step, frame_returns_step, reader_closes_writer_step,
  reader_closes_conn_step, pinger_stops_step, step, run, Reach, start, next,
}
use flutter_pion_bridge.Connection.Order.{has_left, in_hand, written_in_order}
use flutter_pion_bridge.Connection.Teardown.{weight, total, credits}
use flutter_pion_bridge.Connection.Ending.{
  IsOver, CanEnd, IsHandling, teardown_bounded, teardown_progress,
}

-- The error frame is 99.
unfoldable state_after : List (Action ℕ ℕ) → Connection ℕ ℕ → Connection ℕ ℕ
state_after [] c = c
state_after (a ∷ rest) c = elim (step 99 a c) [ none ↦ c | some c' ↦ state_after rest c' ]

Reach-run :
    (acts : List (Action ℕ ℕ)) (c c' : Connection ℕ ℕ)
    → Reach 99 c
    → run 99 acts c ≡ some c'
    → Reach 99 c'
unfolding run
Reach-run [] c c' r e = subst (Reach 99) (ground arith) r
Reach-run (a ∷ rest) c c' r e = elim (Option-cases (step 99 a c)) [
  | inl q ↦ absurd (ground arith)
  | inr (m, q) ↦ Reach-run rest m c' (next a r q) (ground arith)
]

-- A text message is answered with the error, which is written; a second frame fails.
abbrev traffic : List (Action ℕ ℕ)
traffic =
    reads (binary 5)
    ∷ frame_returns
    ∷ reads (other 6)
    ∷ enqueue 7
    ∷ reply_sends
    ∷ enqueue_sends 0
    ∷ writer_takes
    ∷ write_succeeds
    ∷ writer_takes
    ∷ write_fails
    ∷ []

abbrev broken : Connection ℕ ℕ
broken = state_after traffic (new_connection ℕ ℕ)

broken-Reach : Reach 99 broken
unfolding state_after run step pick new_connection new_conn_writer close_writer enqueue_step
    enqueue_sends_step writer_takes_step write_succeeds_step write_fails_step read_message answer
    replies_step reply_sends_step reads_step read_fails_step frame_returns_step
    writer_closes_conn_step writer_closes_writer_step reader_closes_writer_step
    reader_closes_conn_step pinger_stops_step
broken-Reach = Reach-run traffic (new_connection ℕ ℕ) broken start refl

broken_written : broken.written ≡ 99 ∷ []
unfolding state_after run step pick new_connection new_conn_writer close_writer enqueue_step
    enqueue_sends_step writer_takes_step write_succeeds_step write_fails_step read_message answer
    replies_step reply_sends_step reads_step read_fails_step frame_returns_step
    writer_closes_conn_step writer_closes_writer_step reader_closes_writer_step
    reader_closes_conn_step pinger_stops_step
broken_written = refl

written_in_order_example :
    (length broken.cw.ch ≤ broken.cw.size)
    × ((rest : List ℕ) × (broken.accepted ≡ broken.written ++ rest)
        × ((has_left broken.writer ≡ true) ⊎ (rest ≡ in_hand broken.writer ++ broken.cw.ch)))
written_in_order_example = written_in_order 99 broken-Reach

broken_left : has_left broken.writer ≡ true
unfolding state_after run step pick new_connection new_conn_writer close_writer enqueue_step
    enqueue_sends_step writer_takes_step write_succeeds_step write_fails_step read_message answer
    replies_step reply_sends_step reads_step read_fails_step frame_returns_step
    writer_closes_conn_step writer_closes_writer_step reader_closes_writer_step
    reader_closes_conn_step pinger_stops_step has_left
broken_left = refl

teardown_progress_example : IsOver 99 broken ⊎ (CanEnd 99 broken ⊎ IsHandling 99 broken)
teardown_progress_example = teardown_progress 99 broken-Reach (inl broken_left)

abbrev closed_connection : Connection ℕ ℕ
closed_connection = state_after (writer_closes_conn ∷ writer_closes_writer ∷ []) broken

abbrev ending : List (Action ℕ ℕ)
ending =
    enqueue 3
    ∷ reads (binary 8)
    ∷ replies 9
    ∷ read_fails
    ∷ pinger_stops
    ∷ reader_closes_writer
    ∷ reader_closes_conn
    ∷ []

teardown_bounded_example :
    (total 99 ending + weight 99 (state_after ending closed_connection)
      ≤ credits 99 ending + weight 99 closed_connection)
    × (weight 99 closed_connection ≤ 10)
unfolding state_after run step pick new_connection new_conn_writer close_writer enqueue_step
    enqueue_sends_step writer_takes_step write_succeeds_step write_fails_step read_message answer
    replies_step reply_sends_step reads_step read_fails_step frame_returns_step
    writer_closes_conn_step writer_closes_writer_step reader_closes_writer_step
    reader_closes_conn_step pinger_stops_step
teardown_bounded_example =
    teardown_bounded 99 ending closed_connection (state_after ending closed_connection) refl refl
      refl
