-- ===== src/Connection/Ending.antt =====
-- How a WebSocket connection of go/internal/pionserver/server.go ends: who may still move, and how long it takes.
use flutter_pion_bridge.Prelude.{
  ◌+◌, ◌≤◌, ◌≡◌, refl, ap, Bool, true, false, some, List, [], ◌∷◌, arith, Bool-cases, Option-cases,
  ◌⊎◌, inl, inr,
}
use flutter_pion_bridge.Session.{close_writer}
use flutter_pion_bridge.Connection.{
  replying, reply_refused, reply_refused_step, Writer, selecting, closing_conn, closing_writer,
  gone, writing, Reader, reading, closes_writer, closes_conn, returned, processing, Connection,
  new_connection, Action, writer_takes, writer_stops, write_fails, writer_closes_conn,
  writer_closes_writer, read_fails, reader_closes_writer, reader_closes_conn, pinger_stops,
  writer_stops_step, write_fails_step, writer_closes_conn_step, writer_closes_writer_step,
  read_fails_step, reader_closes_writer_step, reader_closes_conn_step, pinger_stops_step, step, run,
  Reach, start, next,
}
use flutter_pion_bridge.Connection.Order.{has_left}
use flutter_pion_bridge.Connection.Teardown.{
  has_ended, weight, total, credits, IsMarked, step-Moves,
}
use flutter_pion_bridge.Connection.Teardown.Weights.{
  writer_weight, reader_weight, writer_weight-le, reader_weight-le, pinger_weight-le,
}

module _ {F I : Type 0} (reply : F) where
  Reach-IsMarked : {c : Connection F I} → Reach reply c → IsMarked reply c
  Reach-IsMarked start =
      unfold new_connection writer_weight reader_weight in
      record {
        writer_conn = λ h. absurd (omega (arith, h));
        writer_queue = λ h. absurd (omega (arith, h));
        reader_queue = λ h. absurd (omega (arith, h));
        reader_conn = λ h. absurd (omega (arith, h));
      }
  Reach-IsMarked (next {c} {c'} a r e) = (step-Moves reply a c c' e).marks (Reach-IsMarked r)

  run-falls :
      (acts : List (Action F I)) (c c' : Connection F I)
      → c.conn_closed ≡ true
      → c.cw.done ≡ true
      → run reply acts c ≡ some c'
      → total reply acts + weight reply c' ≤ credits reply acts + weight reply c
  unfolding run total credits
  run-falls [] c c' x d e =
      let same : c ≡ c' = ground arith in omega (arith, ap (λ y. weight reply y) same)
  run-falls (a ∷ rest) c c' x d e = elim (Option-cases (step reply a c)) [
    | inl stuck ↦ absurd (ground arith)
    | inr (m, first) ↦
        let mv = step-Moves reply a c m first in
        let later = run-falls rest m c' (mv.conn x) (mv.queue d) (ground arith) in
        omega (arith, later, mv.falls x d)
  ]

  -- From the moment the connection and its queue are closed, every schedule contains at most ten more steps of
  -- the writer, the handler and the pinger, and three for each frame that the library still returns from
  -- its buffer, however many frames are queued or still enqueued.
  pub teardown_bounded :
      (acts : List (Action F I)) (c c' : Connection F I)
      → c.conn_closed ≡ true
      → c.cw.done ≡ true
      → run reply acts c ≡ some c'
      → (total reply acts + weight reply c' ≤ credits reply acts + weight reply c)
        × (weight reply c ≤ 10)
  teardown_bounded acts c c' x d e = (
    run-falls acts c c' x d e,
    omega (arith, writer_weight-le c.writer, reader_weight-le c.reader, pinger_weight-le c.pinging),
  )

  -- The steps that wait for nothing outside: a write counts where the connection is closed, since it fails then,
  -- and so does a read, which then returns at once with a buffered frame or, as here, an error. What
  -- `HandleMessage` waits for is not known, so its return does not count.
  unfoldable pub is_certain : Action F I → Connection F I → Bool
  is_certain writer_takes c = true
  is_certain writer_stops c = true
  is_certain write_fails c = c.conn_closed
  is_certain writer_closes_conn c = true
  is_certain writer_closes_writer c = true
  is_certain read_fails c = c.conn_closed
  is_certain reply_refused c = c.cw.done
  is_certain reader_closes_writer c = true
  is_certain reader_closes_conn c = true
  is_certain pinger_stops c = true
  is_certain _ c = false

  abbrev pub CanEnd : Connection F I → Type 0
  CanEnd c =
      (a : Action F I) × (c' : Connection F I) × (step reply a c ≡ some c')
      × (is_certain a c ≡ true)

  abbrev pub IsOver : Connection F I → Type 0
  IsOver c = (c.writer ≡ gone) × (c.reader ≡ returned) × (c.pinging ≡ false)

  -- The handler is in the decoder or in `HandleMessage`.
  abbrev pub IsHandling : Connection F I → Type 0
  IsHandling c = (f : I) × (c.reader ≡ processing f)

  closes_conn-CanEnd : (c : Connection F I) → c.writer ≡ closing_conn → CanEnd c
  unfolding step is_certain writer_closes_conn_step
  closes_conn-CanEnd c q = (
    writer_closes_conn,
    record c { conn_closed = true; writer = closing_writer },
    rw (q, writer_closes_conn_step) refl,
    refl,
  )

  closes_writer-CanEnd : (c : Connection F I) → c.writer ≡ closing_writer → CanEnd c
  unfolding step is_certain writer_closes_writer_step close_writer
  closes_writer-CanEnd c q = (
    writer_closes_writer,
    record c { cw = close_writer c.cw; writer = gone },
    rw (q, writer_closes_writer_step) refl,
    refl,
  )

  handler_closes_writer-CanEnd : (c : Connection F I) → c.reader ≡ closes_writer → CanEnd c
  unfolding step is_certain reader_closes_writer_step close_writer
  handler_closes_writer-CanEnd c q = (
    reader_closes_writer,
    record c { cw = close_writer c.cw; reader = closes_conn },
    rw (q, reader_closes_writer_step) refl,
    refl,
  )

  handler_closes_conn-CanEnd : (c : Connection F I) → c.reader ≡ closes_conn → CanEnd c
  unfolding step is_certain reader_closes_conn_step
  handler_closes_conn-CanEnd c q = (
    reader_closes_conn,
    record c { conn_closed = true; reader = returned },
    rw (q, reader_closes_conn_step) refl,
    refl,
  )

  writer_ends :
      (w : Writer F) (c : Connection F I)
      → c.writer ≡ w
      → c.conn_closed ≡ true
      → c.cw.done ≡ true
      → (c.writer ≡ gone) ⊎ CanEnd c
  unfolding step is_certain writer_stops_step write_fails_step
  writer_ends selecting c q x d = inr (
    writer_stops,
    record c { writer = closing_conn },
    rw (q, writer_stops_step) (rw d refl),
    refl,
  )
  writer_ends (writing f) c q x d =
      inr (write_fails, record c { writer = closing_conn }, rw (q, write_fails_step) refl, x)
  writer_ends closing_conn c q x d = inr (closes_conn-CanEnd c q)
  writer_ends closing_writer c q x d = inr (closes_writer-CanEnd c q)
  writer_ends gone c q x d = inl q

  reader_ends :
      (r : Reader F I) (c : Connection F I)
      → c.reader ≡ r
      → c.conn_closed ≡ true
      → c.cw.done ≡ true
      → (c.reader ≡ returned) ⊎ (CanEnd c ⊎ IsHandling c)
  unfolding step is_certain read_fails_step reply_refused_step
  reader_ends reading c q x d =
      inr (inl (read_fails, record c { reader = closes_writer }, rw (q, read_fails_step) refl, x))
  reader_ends (processing f) c q x d = inr (inr (f, q))
  reader_ends (replying f) c q x d = inr (
      inl (reply_refused, record c { reader = reading }, rw (q, reply_refused_step) (rw d refl), d))
  reader_ends closes_writer c q x d = inr (inl (handler_closes_writer-CanEnd c q))
  reader_ends closes_conn c q x d = inr (inl (handler_closes_conn-CanEnd c q))
  reader_ends returned c q x d = inl q

  pinger_ends : (c : Connection F I) → c.cw.done ≡ true → (c.pinging ≡ false) ⊎ CanEnd c
  unfolding step is_certain pinger_stops_step
  pinger_ends c d = elim (Bool-cases c.pinging) [
    | inl p ↦
        inr
          (pinger_stops, record c { pinging = false }, rw (p, pinger_stops_step) (rw d refl), refl)
    | inr p ↦ inl p
  ]

  -- With the connection and the queue closed, somebody may move or all are gone.
  closed_ends :
      (c : Connection F I)
      → c.conn_closed ≡ true
      → c.cw.done ≡ true
      → IsOver c ⊎ (CanEnd c ⊎ IsHandling c)
  closed_ends c x d = elim (writer_ends c.writer c refl x d) [
    | inr m ↦ inr (inl m)
    | inl w ↦ elim (reader_ends c.reader c refl x d) [
      | inr m ↦ inr m
      | inl r ↦ elim (pinger_ends c d) [ inr m ↦ inr (inl m) | inl p ↦ inl (w, r, p) ]
    ]
  ]

  -- Who has left its loop has closed everything, or is about to.
  writer_left :
      (w : Writer F) (c : Connection F I)
      → c.writer ≡ w
      → has_left w ≡ true
      → IsMarked reply c
      → IsOver c ⊎ (CanEnd c ⊎ IsHandling c)
  unfolding has_left writer_weight
  writer_left gone c q l v =
      closed_ends c (v.writer_conn (omega (arith, ap writer_weight q)))
        (v.writer_queue (omega (arith, ap writer_weight q)))
  writer_left closing_conn c q l v = inr (inl (closes_conn-CanEnd c q))
  writer_left closing_writer c q l v = inr (inl (closes_writer-CanEnd c q))
  writer_left selecting c q l v = absurd (ground arith)
  writer_left (writing f) c q l v = absurd (ground arith)

  reader_left :
      (r : Reader F I) (c : Connection F I)
      → c.reader ≡ r
      → has_ended r ≡ true
      → IsMarked reply c
      → IsOver c ⊎ (CanEnd c ⊎ IsHandling c)
  unfolding has_ended reader_weight
  reader_left returned c q l v =
      closed_ends c (v.reader_conn (omega (arith, ap reader_weight q)))
        (v.reader_queue (omega (arith, ap reader_weight q)))
  reader_left closes_writer c q l v = inr (inl (handler_closes_writer-CanEnd c q))
  reader_left closes_conn c q l v = inr (inl (handler_closes_conn-CanEnd c q))
  reader_left reading c q l v = absurd (ground arith)
  reader_left (processing f) c q l v = absurd (ground arith)
  reader_left (replying f) c q l v = absurd (ground arith)

  -- Once the writer or the handler has left its loop, on whatever error, all goroutines of the connection
  -- are gone, or one of them has a step that waits for nothing outside, or the handler is inside
  -- `HandleMessage`: a dead writer cannot leave the read loop waiting to queue an answer, nor the handler
  -- the writer.
  pub teardown_progress :
      {c : Connection F I}
      → Reach reply c
      → (has_left c.writer ≡ true) ⊎ (has_ended c.reader ≡ true)
      → IsOver c ⊎ (CanEnd c ⊎ IsHandling c)
  teardown_progress {c} r (inl w) = writer_left c.writer c refl w (Reach-IsMarked r)
  teardown_progress {c} r (inr e) = reader_left c.reader c refl e (Reach-IsMarked r)
