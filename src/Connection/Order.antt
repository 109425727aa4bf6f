-- ===== src/Connection/Order.antt =====
-- The frames of a WebSocket connection of go/internal/pionserver/server.go are written in the order in which
-- they entered its queue.
pub mod Untouched
use mathlib.Core.List.{append_assoc}
use flutter_pion_bridge.Prelude.{
  ◌<◌, ℕ, ◌≤◌, ◌≡◌, refl, sym, ap, ◌∙◌, subst, Bool, true, false, some, List, [], ◌∷◌, ◌++◌, length,
  length-append, ltb, arith, Bool-cases, Option-cases, ◌⊎◌, inl, inr,
}
use flutter_pion_bridge.Session.{close_writer, pick, new_conn_writer}
use flutter_pion_bridge.Connection.{
  replies, reply_sends, reply_refused, Reader, replying, reply_sends_step, Inbound, binary, other,
  Writer, selecting, closing_conn, closing_writer, gone, writing, Reader, reading, closes_writer,
  closes_conn, returned, processing, Connection, new_connection, Action, enqueue, enqueue_sends,
  enqueue_refused, writer_takes, writer_stops, write_succeeds, write_fails, writer_closes_conn,
  writer_closes_writer, reads, read_fails, frame_returns, reader_closes_writer, reader_closes_conn,
  ping_fails, pinger_stops, enqueue_step, enqueue_sends_step, enqueue_refused_step,
  writer_takes_step, writer_stops_step, write_succeeds_step, write_fails_step,
  writer_closes_conn_step, writer_closes_writer_step, read_message, reads_step, read_fails_step,
  frame_returns_step, reader_closes_writer_step, reader_closes_conn_step, ping_fails_step,
  pinger_stops_step, step, Reach, start, next,
}
use flutter_pion_bridge.Connection.Order.Untouched.{
  Same, enqueue-Same, refused-Same, reads-Same, reader-Same, pinger-Same,
}

-- What the writer has taken and not written.
unfoldable pub in_hand : {F : Type 0} → Writer F → List F
in_hand (writing f) = f ∷ []
in_hand _ = []

unfoldable pub has_left : {F : Type 0} → Writer F → Bool
has_left selecting = false
has_left (writing f) = false
has_left _ = true

module _ {F I : Type 0} (reply : F) where
  pub record IsOrdered (c : Connection F I) : Type 0 where
    pub rest : List F
    pub order : c.accepted ≡ c.written ++ rest
    pub live : has_left c.writer ≡ false → rest ≡ in_hand c.writer ++ c.cw.ch
    pub room : length c.cw.ch ≤ c.cw.size

  -- A frame enters the queue.
  grows-IsOrdered :
      (f : F) (c c' : Connection F I)
      → c'.accepted ≡ c.accepted ++ f ∷ []
      → c'.written ≡ c.written
      → c'.writer ≡ c.writer
      → c'.cw.ch ≡ c.cw.ch ++ f ∷ []
      → c'.cw.size ≡ c.cw.size
      → length c.cw.ch < c.cw.size
      → IsOrdered c
      → IsOrdered c'
  grows-IsOrdered f c c' accepted written writer queue size fits v = record {
    rest = v.rest ++ f ∷ [];
    order =
        accepted
        ∙ ap (λ xs. xs ++ f ∷ []) v.order
        ∙ append_assoc c.written v.rest (f ∷ [])
        ∙ ap (λ xs. xs ++ (v.rest ++ f ∷ [])) (sym written);
    live = λ l.
        let was = v.live (ap has_left (sym writer) ∙ l) in
        ap (λ xs. xs ++ f ∷ []) was
        ∙ append_assoc (in_hand c.writer) c.cw.ch (f ∷ [])
        ∙ ap (λ xs. in_hand c.writer ++ xs) (sym queue)
        ∙ ap (λ w. in_hand w ++ c'.cw.ch) (sym writer);
    room = ground (arith, queue, size, fits, length-append c.cw.ch (f ∷ []));
  }

  enqueue_sends-IsOrdered :
      (n : ℕ) (c c' : Connection F I)
      → enqueue_sends_step reply n c ≡ some c'
      → IsOrdered c
      → IsOrdered c'
  unfolding enqueue_sends_step
  enqueue_sends-IsOrdered n c c' e v = elim (Option-cases (pick n c.enqueuing)) [
    | inl out ↦ absurd (ground arith)
    | inr ((f, others), found) ↦ elim (Bool-cases (ltb (length c.cw.ch) c.cw.size)) [
      | inl fits ↦
          grows-IsOrdered f c c' (ground arith) (ground arith) (ground arith) (ground arith)
            (ground arith) (ground arith) v
      | inr full ↦ absurd (ground arith)
    ]
  ]

  reply_sends-IsOrdered :
      (r : Reader F I) (c c' : Connection F I)
      → reply_sends_step reply r c ≡ some c'
      → IsOrdered c
      → IsOrdered c'
  unfolding reply_sends_step
  reply_sends-IsOrdered (replying f) c c' e v = elim (Bool-cases (ltb (length c.cw.ch) c.cw.size)) [
    | inl fits ↦
        grows-IsOrdered f c c' (ground arith) (ground arith) (ground arith) (ground arith)
          (ground arith) (ground arith) v
    | inr full ↦ absurd (ground arith)
  ]
  reply_sends-IsOrdered _ c c' e v = absurd (ground arith)

  Same-IsOrdered : (c c' : Connection F I) → Same reply c c' → IsOrdered c → IsOrdered c'
  Same-IsOrdered c c' m v = record {
    rest = v.rest;
    order = ground (arith, m, v.order);
    live = λ e. ground (arith, m, v.live);
    room = ground (arith, m, v.room);
  }

  takes-IsOrdered :
      (w : Writer F) (fs : List F) (c c' : Connection F I)
      → c.writer ≡ w
      → c.cw.ch ≡ fs
      → writer_takes_step reply w fs c ≡ some c'
      → IsOrdered c
      → IsOrdered c'
  unfolding writer_takes_step has_left in_hand
  takes-IsOrdered selecting (f ∷ fs) c c' q h e v =
      let goal : IsOrdered (record c { cw = record c.cw { ch = fs }; writer = writing f }) =
        record {
          rest = v.rest;
          order = v.order;
          live = λ l. v.live (ap has_left q) ∙ ap (λ w. in_hand w ++ c.cw.ch) q ∙ h;
          room = omega (arith, v.room, ap (λ xs. length xs) h);
        } in
      subst IsOrdered (ground arith) goal
  takes-IsOrdered _ _ c c' q h e v = absurd (ground arith)

  succeeds-IsOrdered :
      (w : Writer F) (c c' : Connection F I)
      → c.writer ≡ w
      → write_succeeds_step reply w c ≡ some c'
      → IsOrdered c
      → IsOrdered c'
  unfolding write_succeeds_step has_left in_hand
  succeeds-IsOrdered (writing f) c c' q e v =
      let was = v.live (ap has_left q) ∙ ap (λ w. in_hand w ++ c.cw.ch) q in
      let goal : IsOrdered (record c { writer = selecting; written = c.written ++ f ∷ [] }) =
        record {
          rest = c.cw.ch;
          order =
              v.order
              ∙ ap (λ xs. c.written ++ xs) was
              ∙ sym (append_assoc c.written (f ∷ []) c.cw.ch);
          live = λ l. refl;
          room = v.room;
        } in
      subst IsOrdered (ground arith) goal
  succeeds-IsOrdered _ c c' q e v = absurd (ground arith)

  -- The writer leaves its loop, or has left it.
  Leaves : Connection F I → Connection F I → Type 0
  Leaves c c' =
      (c'.accepted ≡ c.accepted)
      × (c'.written ≡ c.written)
      × (has_left c'.writer ≡ true)
      × (c'.cw.ch ≡ c.cw.ch)
      × (c'.cw.size ≡ c.cw.size)

  writer-Leaves :
      (w : Writer F) (c c' : Connection F I)
      → (writer_stops_step reply w c ≡ some c')
        ⊎ (write_fails_step reply w c ≡ some c')
        ⊎ (writer_closes_conn_step reply w c ≡ some c')
        ⊎ (writer_closes_writer_step reply w c ≡ some c')
      → Leaves c c'
  unfolding writer_stops_step write_fails_step writer_closes_conn_step writer_closes_writer_step
      close_writer Leaves has_left
  writer-Leaves selecting c c' e = ground arith
  writer-Leaves closing_conn c c' e = ground arith
  writer-Leaves closing_writer c c' e = ground arith
  writer-Leaves gone c c' e = absurd (ground arith)
  writer-Leaves (writing f) c c' e = ground arith

  Leaves-IsOrdered : (c c' : Connection F I) → Leaves c c' → IsOrdered c → IsOrdered c'
  unfolding Leaves
  Leaves-IsOrdered c c' m v = record {
    rest = v.rest;
    order = ground (arith, m, v.order);
    live = λ e. absurd (ground (arith, m));
    room = ground (arith, m, v.room);
  }

  step-IsOrdered :
      (a : Action F I) (c c' : Connection F I)
      → step reply a c ≡ some c'
      → IsOrdered c
      → IsOrdered c'
  unfolding step
  step-IsOrdered (enqueue f) c c' e v =
      Same-IsOrdered c c' (ground (arith, enqueue-Same reply f c)) v
  step-IsOrdered (enqueue_sends n) c c' e v = enqueue_sends-IsOrdered n c c' e v
  step-IsOrdered (enqueue_refused n) c c' e v = Same-IsOrdered c c' (refused-Same reply n c c' e) v
  step-IsOrdered writer_takes c c' e v = takes-IsOrdered c.writer c.cw.ch c c' refl refl e v
  step-IsOrdered writer_stops c c' e v =
      Leaves-IsOrdered c c' (writer-Leaves c.writer c c' (inl e)) v
  step-IsOrdered write_succeeds c c' e v = succeeds-IsOrdered c.writer c c' refl e v
  step-IsOrdered write_fails c c' e v =
      Leaves-IsOrdered c c' (writer-Leaves c.writer c c' (inr (inl e))) v
  step-IsOrdered writer_closes_conn c c' e v =
      Leaves-IsOrdered c c' (writer-Leaves c.writer c c' (inr (inr (inl e)))) v
  step-IsOrdered writer_closes_writer c c' e v =
      Leaves-IsOrdered c c' (writer-Leaves c.writer c c' (inr (inr (inr e)))) v
  step-IsOrdered (reads m) c c' e v = Same-IsOrdered c c' (reads-Same reply c.reader m c c' e) v
  step-IsOrdered read_fails c c' e v =
      Same-IsOrdered c c' (reader-Same reply c.reader c c' (inl e)) v
  step-IsOrdered frame_returns c c' e v =
      Same-IsOrdered c c' (reader-Same reply c.reader c c' (inr (inl e))) v
  step-IsOrdered (replies f) c c' e v =
      Same-IsOrdered c c' (reader-Same reply c.reader c c' (inr (inr (inl (f, e))))) v
  step-IsOrdered reply_refused c c' e v =
      Same-IsOrdered c c' (reader-Same reply c.reader c c' (inr (inr (inr (inl e))))) v
  step-IsOrdered reply_sends c c' e v = reply_sends-IsOrdered c.reader c c' e v
  step-IsOrdered reader_closes_writer c c' e v =
      Same-IsOrdered c c' (reader-Same reply c.reader c c' (inr (inr (inr (inr (inl e)))))) v
  step-IsOrdered reader_closes_conn c c' e v =
      Same-IsOrdered c c' (reader-Same reply c.reader c c' (inr (inr (inr (inr (inr e)))))) v
  step-IsOrdered ping_fails c c' e v = Same-IsOrdered c c' (pinger-Same reply c c' (inl e)) v
  step-IsOrdered pinger_stops c c' e v = Same-IsOrdered c c' (pinger-Same reply c c' (inr e)) v

  Reach-IsOrdered : {c : Connection F I} → Reach reply c → IsOrdered c
  unfolding new_connection in_hand
  Reach-IsOrdered start = record {
    rest = [];
    order = refl;
    live = λ e. unfold new_conn_writer in refl;
    room = unfold new_conn_writer in omega arith;
  }
  Reach-IsOrdered (next {c} {c'} a r e) = step-IsOrdered a c c' e (Reach-IsOrdered r)

  -- In every interleaving the written frames are the first of those that entered the queue, in their order,
  -- each at most once, and the queue stays within its size; while the writer is in its loop, the others
  -- are in its hand or in the queue, none lost.
  pub written_in_order :
      {c : Connection F I}
      → Reach reply c
      → (length c.cw.ch ≤ c.cw.size)
        × ((rest : List F) × (c.accepted ≡ c.written ++ rest)
            × ((has_left c.writer ≡ true) ⊎ (rest ≡ in_hand c.writer ++ c.cw.ch)))
  written_in_order {c} r =
      let v = Reach-IsOrdered r in
      (
        v.room,
        (
          v.rest,
          v.order,
          elim (Bool-cases (has_left c.writer)) [
            | inl out ↦ inl out
            | inr there ↦ inr (v.live there)
          ],
        ),
      )
