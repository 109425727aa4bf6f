-- ===== src/Connection/Order/Untouched.antt =====
-- The steps of a WebSocket connection, go/internal/pionserver/server.go, that leave its queue and its writer alone.
use flutter_pion_bridge.Prelude.{ℕ, ◌≡◌, some, arith, ◌⊎◌}
use flutter_pion_bridge.Session.{close_writer}
use flutter_pion_bridge.Connection.{
  Inbound, binary, other, Reader, reading, closes_writer, closes_conn, returned, processing,
  Connection, enqueue_step, enqueue_refused_step, read_message, reads_step, read_fails_step,
  frame_returns_step, answer, replies_step, reply_refused_step, replying, reader_closes_writer_step,
  reader_closes_conn_step, ping_fails_step, pinger_stops_step,
}

module _ {F I : Type 0} (reply : F) where
  -- Neither the queue nor the writer has anything to do with it.
  abbrev pub Same : Connection F I → Connection F I → Type 0
  Same c c' =
      (c'.accepted ≡ c.accepted)
      × (c'.written ≡ c.written)
      × (c'.writer ≡ c.writer)
      × (c'.cw.ch ≡ c.cw.ch)
      × (c'.cw.size ≡ c.cw.size)

  pub enqueue-Same : (f : F) (c : Connection F I) → Same c (enqueue_step reply f c)
  unfolding enqueue_step
  enqueue-Same f c = ground arith

  pub refused-Same :
      (n : ℕ) (c c' : Connection F I) → enqueue_refused_step reply n c ≡ some c' → Same c c'
  unfolding enqueue_refused_step
  refused-Same n c c' e = ground arith

  read_message-Same : (m : Inbound I) (c : Connection F I) → Same c (read_message reply m c)
  unfolding read_message answer
  read_message-Same (binary f) c = ground arith
  read_message-Same (other f) c = ground arith

  pub reads-Same :
      (r : Reader F I) (m : Inbound I) (c c' : Connection F I)
      → reads_step reply r m c ≡ some c'
      → Same c c'
  unfolding reads_step
  reads-Same reading m c c' e = ground (arith, read_message-Same m c)
  reads-Same _ m c c' e = absurd (ground arith)

  pub reader-Same :
      (r : Reader F I) (c c' : Connection F I)
      → (read_fails_step reply r c ≡ some c')
        ⊎ (frame_returns_step reply r c ≡ some c')
        ⊎ ((f : F) × (replies_step reply r f c ≡ some c'))
        ⊎ (reply_refused_step reply r c ≡ some c')
        ⊎ (reader_closes_writer_step reply r c ≡ some c')
        ⊎ (reader_closes_conn_step reply r c ≡ some c')
      → Same c c'
  unfolding read_fails_step frame_returns_step reader_closes_writer_step reader_closes_conn_step
      close_writer replies_step reply_refused_step answer
  reader-Same reading c c' e = ground arith
  reader-Same closes_writer c c' e = ground arith
  reader-Same closes_conn c c' e = ground arith
  reader-Same returned c c' e = ground arith
  reader-Same (processing f) c c' e = ground arith
  reader-Same (replying f) c c' e = ground arith

  pub pinger-Same :
      (c c' : Connection F I)
      → (ping_fails_step reply c ≡ some c') ⊎ (pinger_stops_step reply c ≡ some c')
      → Same c c'
  unfolding ping_fails_step pinger_stops_step
  pinger-Same c c' e = ground arith
