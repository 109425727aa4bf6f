-- ===== src/Connection/Teardown/Weights.antt =====
-- How much each goroutine of a WebSocket connection, go/internal/pionserver/server.go, still has to do, and what its
-- steps change.
use flutter_pion_bridge.Prelude.{
  ◌+◌, ℕ, suc, ◌≤◌, ◌≡◌, subst, Bool, true, false, some, List, [], ◌∷◌, arith, Bool-cases, ◌⊎◌, inl,
  inr,
}
use flutter_pion_bridge.Session.{close_writer}
use flutter_pion_bridge.Connection.{
  replying, answer, replies_step, reply_sends_step, reply_refused_step, Inbound, binary, other,
  Writer, selecting, closing_conn, closing_writer, gone, writing, Reader, reading, closes_writer,
  closes_conn, returned, processing, Connection, writer_takes_step, writer_stops_step,
  write_succeeds_step, write_fails_step, writer_closes_conn_step, writer_closes_writer_step,
  read_message, reads_step, read_fails_step, frame_returns_step, reader_closes_writer_step,
  reader_closes_conn_step,
}

-- Steps left to the writer and to the handler once both the connection and its queue are closed.
unfoldable pub writer_weight : {F : Type 0} → Writer F → ℕ
writer_weight selecting = 4
writer_weight (writing f) = 3
writer_weight closing_conn = 2
writer_weight closing_writer = 1
writer_weight gone = 0

unfoldable pub reader_weight : {F I : Type 0} → Reader F I → ℕ
reader_weight (processing f) = 5
reader_weight (replying f) = 4
reader_weight reading = 3
reader_weight closes_writer = 2
reader_weight closes_conn = 1
reader_weight returned = 0

unfoldable pub pinger_weight : Bool → ℕ
pinger_weight true = 1
pinger_weight false = 0

pub writer_weight-le : {F : Type 0} (w : Writer F) → writer_weight w ≤ 4
unfolding writer_weight
writer_weight-le selecting = omega arith
writer_weight-le (writing f) = omega arith
writer_weight-le _ = omega arith

pub reader_weight-le : {F I : Type 0} (r : Reader F I) → reader_weight r ≤ 5
unfolding reader_weight
reader_weight-le reading = omega arith
reader_weight-le (processing f) = omega arith
reader_weight-le (replying f) = omega arith
reader_weight-le _ = omega arith

pub pinger_weight-le : (b : Bool) → pinger_weight b ≤ 1
unfolding pinger_weight
pinger_weight-le true = omega arith
pinger_weight-le false = omega arith

module _ {F I : Type 0} (reply : F) where
  -- A step of the writer.
  abbrev pub Writes : Writer F → List F → Connection F I → Connection F I → Type 0
  Writes w fs c c' =
      (writer_takes_step reply w fs c ≡ some c')
      ⊎ (writer_stops_step reply w c ≡ some c')
      ⊎ (write_succeeds_step reply w c ≡ some c')
      ⊎ (write_fails_step reply w c ≡ some c')
      ⊎ (writer_closes_conn_step reply w c ≡ some c')
      ⊎ (writer_closes_writer_step reply w c ≡ some c')

  -- What the writer's steps do to the rest.
  abbrev Written : Writer F → Connection F I → Connection F I → Type 0
  Written w c c' =
      (c'.reader ≡ c.reader)
      × (c'.pinging ≡ c.pinging)
      × (c.conn_closed ≡ true → c'.conn_closed ≡ true)
      × (c.cw.done ≡ true → c'.cw.done ≡ true)
      × (writer_weight c'.writer ≤ 1 → (writer_weight w ≤ 1) ⊎ (c'.conn_closed ≡ true))
      × (writer_weight c'.writer ≤ 0 → (writer_weight w ≤ 0) ⊎ (c'.cw.done ≡ true))
      × (c.conn_closed ≡ true → suc (writer_weight c'.writer) ≤ writer_weight w)

  pub Writes-Written :
      (w : Writer F) (fs : List F) (c c' : Connection F I) → Writes w fs c c' → Written w c c'
  unfolding writer_takes_step writer_stops_step write_succeeds_step write_fails_step
      writer_closes_conn_step writer_closes_writer_step close_writer writer_weight
  Writes-Written selecting [] c c' e = ground arith
  Writes-Written selecting (f ∷ fs) c c' e = ground arith
  Writes-Written closing_conn fs c c' e = ground arith
  Writes-Written closing_writer fs c c' e = ground arith
  Writes-Written gone fs c c' e = absurd (ground arith)
  Writes-Written (writing f) fs c c' e = ground arith

  -- A step of the handler but for a read.
  abbrev pub Reads : Reader F I → Connection F I → Connection F I → Type 0
  Reads r c c' =
      (read_fails_step reply r c ≡ some c')
      ⊎ (frame_returns_step reply r c ≡ some c')
      ⊎ ((f : F) × (replies_step reply r f c ≡ some c'))
      ⊎ (reply_sends_step reply r c ≡ some c')
      ⊎ (reply_refused_step reply r c ≡ some c')
      ⊎ (reader_closes_writer_step reply r c ≡ some c')
      ⊎ (reader_closes_conn_step reply r c ≡ some c')

  -- `k` is what a read gives back.
  abbrev pub Read : ℕ → Reader F I → Connection F I → Connection F I → Type 0
  Read k r c c' =
      (c'.writer ≡ c.writer)
      × (c'.pinging ≡ c.pinging)
      × (c.conn_closed ≡ true → c'.conn_closed ≡ true)
      × (c.cw.done ≡ true → c'.cw.done ≡ true)
      × (reader_weight c'.reader ≤ 1 → (reader_weight r ≤ 1) ⊎ (c'.cw.done ≡ true))
      × (reader_weight c'.reader ≤ 0 → (reader_weight r ≤ 0) ⊎ (c'.conn_closed ≡ true))
      × (c.cw.done ≡ true → suc (reader_weight c'.reader) ≤ k + reader_weight r)

  message-Read : (m : Inbound I) (c : Connection F I) → Read 3 reading c (read_message reply m c)
  unfolding read_message answer reader_weight
  message-Read (binary f) c = ground arith
  message-Read (other f) c = elim (Bool-cases c.cw.done) [
    | inl e ↦ rw e (ground arith)
    | inr e ↦ rw e (ground arith)
  ]

  pub reads-Read :
      (r : Reader F I) (m : Inbound I) (c c' : Connection F I)
      → reads_step reply r m c ≡ some c'
      → Read 3 r c c'
  unfolding reads_step
  reads-Read reading m c c' e =
      let same : read_message reply m c ≡ c' = ground arith in
      subst (Read 3 reading c) same (message-Read m c)
  reads-Read _ m c c' e = absurd (ground arith)

  pub Reads-Read : (r : Reader F I) (c c' : Connection F I) → Reads r c c' → Read 0 r c c'
  unfolding read_fails_step frame_returns_step replies_step reply_sends_step reply_refused_step
      answer reader_closes_writer_step reader_closes_conn_step close_writer reader_weight
  Reads-Read reading c c' e = ground arith
  Reads-Read closes_writer c c' e = ground arith
  Reads-Read closes_conn c c' e = ground arith
  Reads-Read returned c c' e = absurd (ground arith)
  Reads-Read (processing f) c c' e = ground arith
  Reads-Read (replying f) c c' e = ground arith
