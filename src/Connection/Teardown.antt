-- ===== src/Connection/Teardown.antt =====
-- The end of a WebSocket connection of go/internal/pionserver/server.go: its goroutines bring each other down.
pub mod Weights
use flutter_pion_bridge.Prelude.{
  ℕ, suc, ◌+◌, ◌≤◌, ◌≡◌, ap, ◌∙◌, subst, Bool, true, false, some, List, [], ◌∷◌, arith, Bool-cases,
  ◌⊎◌, inl, inr,
}
use flutter_pion_bridge.Session.{close_writer}
use flutter_pion_bridge.Connection.{
  replying, replies, reply_sends, reply_refused, Inbound, binary, other, Writer, selecting,
  closing_conn, closing_writer, gone, writing, Reader, reading, closes_writer, closes_conn,
  returned, processing, Connection, Action, enqueue, enqueue_sends, enqueue_refused, writer_takes,
  writer_stops, write_succeeds, write_fails, writer_closes_conn, writer_closes_writer, reads,
  read_fails, frame_returns, reader_closes_writer, reader_closes_conn, ping_fails, pinger_stops,
  enqueue_step, enqueue_sends_step, enqueue_refused_step, writer_takes_step, writer_stops_step,
  write_succeeds_step, write_fails_step, writer_closes_conn_step, writer_closes_writer_step,
  read_message, reads_step, read_fails_step, frame_returns_step, reader_closes_writer_step,
  reader_closes_conn_step, ping_fails_step, pinger_stops_step, step,
}
use flutter_pion_bridge.Connection.Teardown.Weights.{
  writer_weight, reader_weight, pinger_weight, Writes, Writes-Written, Reads, Read, Reads-Read,
  reads-Read,
}

unfoldable pub has_ended : {F I : Type 0} → Reader F I → Bool
has_ended reading = false
has_ended (replying f) = false
has_ended (processing f) = false
has_ended _ = true

module _ {F I : Type 0} (reply : F) where
  abbrev pub weight : Connection F I → ℕ
  weight c = writer_weight c.writer + reader_weight c.reader + pinger_weight c.pinging

  -- One for a step of the writer, the handler or the pinger.
  unfoldable pub cost : Action F I → ℕ
  cost (enqueue f) = 0
  cost (enqueue_sends n) = 0
  cost (enqueue_refused n) = 0
  cost _ = 1

  unfoldable pub total : List (Action F I) → ℕ
  total [] = 0
  total (a ∷ rest) = cost a + total rest

  -- What the reads give back to the handler: a frame is processed and answered.
  unfoldable pub credit : Action F I → ℕ
  credit (reads m) = 3
  credit _ = 0

  unfoldable pub credits : List (Action F I) → ℕ
  credits [] = 0
  credits (a ∷ rest) = credit a + credits rest

  -- Who has gone through its deferred calls has closed the connection and the queue.
  pub record IsMarked (c : Connection F I) : Type 0 where
    pub writer_conn : writer_weight c.writer ≤ 1 → c.conn_closed ≡ true
    pub writer_queue : writer_weight c.writer ≤ 0 → c.cw.done ≡ true
    pub reader_queue : reader_weight c.reader ≤ 1 → c.cw.done ≡ true
    pub reader_conn : reader_weight c.reader ≤ 0 → c.conn_closed ≡ true

  -- What a step leaves alone, and what it brings closer to the end.
  pub record Moves (n k : ℕ) (c c' : Connection F I) : Type 0 where
    pub marks : IsMarked c → IsMarked c'
    pub conn : c.conn_closed ≡ true → c'.conn_closed ≡ true
    pub queue : c.cw.done ≡ true → c'.cw.done ≡ true
    pub falls : c.conn_closed ≡ true → c.cw.done ≡ true → n + weight c' ≤ k + weight c

  abbrev Same : Connection F I → Connection F I → Type 0
  Same c c' =
      (c'.writer ≡ c.writer)
      × (c'.reader ≡ c.reader)
      × (c'.pinging ≡ c.pinging)
      × (c'.conn_closed ≡ c.conn_closed)
      × (c'.cw.done ≡ c.cw.done)

  Same-Moves : (c c' : Connection F I) → Same c c' → Moves 0 0 c c'
  Same-Moves c c' m = record {
    marks = λ v. record {
      writer_conn = λ h. m.3 ∙ v.writer_conn (omega (arith, h, ap writer_weight m.0));
      writer_queue = λ h. m.4 ∙ v.writer_queue (omega (arith, h, ap writer_weight m.0));
      reader_queue = λ h. m.4 ∙ v.reader_queue (omega (arith, h, ap reader_weight m.1));
      reader_conn = λ h. m.3 ∙ v.reader_conn (omega (arith, h, ap reader_weight m.1));
    };
    conn = λ e. m.3 ∙ e;
    queue = λ e. m.4 ∙ e;
    falls = λ e d. omega (arith, ap writer_weight m.0, ap reader_weight m.1, ap pinger_weight m.2);
  }

  enqueue-Same : (f : F) (c : Connection F I) → Same c (enqueue_step reply f c)
  unfolding enqueue_step
  enqueue-Same f c = ground arith

  queue-Same :
      (n : ℕ) (c c' : Connection F I)
      → (enqueue_sends_step reply n c ≡ some c') ⊎ (enqueue_refused_step reply n c ≡ some c')
      → Same c c'
  unfolding enqueue_sends_step enqueue_refused_step
  queue-Same n c c' e = ground arith

  Writes-Moves :
      (fs : List F) (c c' : Connection F I) → Writes reply c.writer fs c c' → Moves 1 0 c c'
  Writes-Moves fs c c' e =
      let m = Writes-Written reply c.writer fs c c' e in
      record {
        marks = λ v. record {
          writer_conn = λ h. elim (m.4 h) [ inl was ↦ m.2 (v.writer_conn was) | inr now ↦ now ];
          writer_queue = λ h. elim (m.5 h) [ inl was ↦ m.3 (v.writer_queue was) | inr now ↦ now ];
          reader_queue = λ h. m.3 (v.reader_queue (omega (arith, h, ap reader_weight m.0)));
          reader_conn = λ h. m.2 (v.reader_conn (omega (arith, h, ap reader_weight m.0)));
        };
        conn = m.2;
        queue = m.3;
        falls = λ x d. omega (arith, m.6 x, ap reader_weight m.0, ap pinger_weight m.1);
      }

  Read-Moves : (k : ℕ) (c c' : Connection F I) → Read reply k c.reader c c' → Moves 1 k c c'
  Read-Moves k c c' m = record {
    marks = λ v. record {
      writer_conn = λ h. m.2 (v.writer_conn (omega (arith, h, ap writer_weight m.0)));
      writer_queue = λ h. m.3 (v.writer_queue (omega (arith, h, ap writer_weight m.0)));
      reader_queue = λ h. elim (m.4 h) [ inl was ↦ m.3 (v.reader_queue was) | inr now ↦ now ];
      reader_conn = λ h. elim (m.5 h) [ inl was ↦ m.2 (v.reader_conn was) | inr now ↦ now ];
    };
    conn = m.2;
    queue = m.3;
    falls = λ x d. omega (arith, m.6 d, ap writer_weight m.0, ap pinger_weight m.1);
  }

  Reads-Moves : (c c' : Connection F I) → Reads reply c.reader c c' → Moves 1 0 c c'
  Reads-Moves c c' e = Read-Moves 0 c c' (Reads-Read reply c.reader c c' e)

  ends-Moves :
      (c c' : Connection F I)
      → (ping_fails_step reply c ≡ some c') ⊎ (pinger_stops_step reply c ≡ some c')
      → Moves 1 0 c c'
  unfolding ping_fails_step pinger_stops_step pinger_weight
  ends-Moves c c' e =
      let m : (c'.writer ≡ c.writer)
          × (c'.reader ≡ c.reader)
          × (c'.conn_closed ≡ c.conn_closed)
          × (c'.cw.done ≡ c.cw.done)
          × (suc (pinger_weight c'.pinging) ≤ pinger_weight c.pinging) =
        ground arith in
      record {
        marks = λ v. record {
          writer_conn = λ h. m.2 ∙ v.writer_conn (omega (arith, h, ap writer_weight m.0));
          writer_queue = λ h. m.3 ∙ v.writer_queue (omega (arith, h, ap writer_weight m.0));
          reader_queue = λ h. m.3 ∙ v.reader_queue (omega (arith, h, ap reader_weight m.1));
          reader_conn = λ h. m.2 ∙ v.reader_conn (omega (arith, h, ap reader_weight m.1));
        };
        conn = λ x. m.2 ∙ x;
        queue = λ x. m.3 ∙ x;
        falls = λ x d. omega (arith, m.4, ap writer_weight m.0, ap reader_weight m.1);
      }

  pub step-Moves :
      (a : Action F I) (c c' : Connection F I)
      → step reply a c ≡ some c'
      → Moves (cost a) (credit a) c c'
  unfolding step cost credit
  step-Moves (enqueue f) c c' e = Same-Moves c c' (ground (arith, enqueue-Same f c))
  step-Moves (enqueue_sends n) c c' e = Same-Moves c c' (queue-Same n c c' (inl e))
  step-Moves (enqueue_refused n) c c' e = Same-Moves c c' (queue-Same n c c' (inr e))
  step-Moves writer_takes c c' e = Writes-Moves c.cw.ch c c' (inl e)
  step-Moves writer_stops c c' e = Writes-Moves [] c c' (inr (inl e))
  step-Moves write_succeeds c c' e = Writes-Moves [] c c' (inr (inr (inl e)))
  step-Moves write_fails c c' e = Writes-Moves [] c c' (inr (inr (inr (inl e))))
  step-Moves writer_closes_conn c c' e = Writes-Moves [] c c' (inr (inr (inr (inr (inl e)))))
  step-Moves writer_closes_writer c c' e = Writes-Moves [] c c' (inr (inr (inr (inr (inr e)))))
  step-Moves (reads m) c c' e = Read-Moves 3 c c' (reads-Read reply c.reader m c c' e)
  step-Moves read_fails c c' e = Reads-Moves c c' (inl e)
  step-Moves frame_returns c c' e = Reads-Moves c c' (inr (inl e))
  step-Moves (replies f) c c' e = Reads-Moves c c' (inr (inr (inl (f, e))))
  step-Moves reply_sends c c' e = Reads-Moves c c' (inr (inr (inr (inl e))))
  step-Moves reply_refused c c' e = Reads-Moves c c' (inr (inr (inr (inr (inl e)))))
  step-Moves reader_closes_writer c c' e = Reads-Moves c c' (inr (inr (inr (inr (inr (inl e))))))
  step-Moves reader_closes_conn c c' e = Reads-Moves c c' (inr (inr (inr (inr (inr (inr e))))))
  step-Moves ping_fails c c' e = ends-Moves c c' (inl e)
  step-Moves pinger_stops c c' e = ends-Moves c c' (inr e)
