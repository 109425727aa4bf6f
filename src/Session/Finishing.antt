-- ===== src/Session/Finishing.antt =====
-- `Close` of frame_session.go returns, and unblocks whoever waits for room in a queue.
pub mod Progress
use flutter_pion_bridge.Prelude.{
  ℕ, zero, suc, ◌+◌, ◌≤◌, ◌<◌, ◌≡◌, refl, sym, ap, ◌∙◌, Bool, true, false, some, List, [], ◌∷◌,
  length, arith, Option-cases, ◌⊎◌, inl, inr,
}
use flutter_pion_bridge.Session.{
  Writer, selecting, stopped, holding, delivering, Reader, listening, gone, processing, Closing,
  open_session, done_closed, writer_closed, returned, FrameSession, new_frame_session, Action, push,
  enqueue, push_sends, push_refused, enqueue_sends, enqueue_refused, writer_takes, writer_rechecks,
  deliver_returns, writer_stops, reader_takes, frame_returns, reader_stops, close_begins,
  close_writes, close_returns, push_step, enqueue_step, push_sends_step, push_refused_step,
  enqueue_sends_step, enqueue_refused_step, writer_takes_step, writer_rechecks_step,
  deliver_returns_step, writer_stops_step, reader_takes_step, frame_returns_step, reader_stops_step,
  close_begins_step, close_writes_step, close_returns_step, step, run, Reach, start, next,
}
use flutter_pion_bridge.Session.{pick, close_writer, new_conn_writer}

unfoldable pub begun : Closing → Bool
begun open_session = false
begun _ = true

unfoldable pub written : Closing → Bool
written writer_closed = true
written returned = true
written _ = false

unfoldable pub writer_weight : {F : Type 0} → Writer F → ℕ
writer_weight (delivering f) = 3
writer_weight selecting = 2
writer_weight (holding f) = 1
writer_weight stopped = 0

unfoldable pub closing_weight : Closing → ℕ
closing_weight returned = 0
closing_weight _ = 1

pub closing_weight-le : (c : Closing) → closing_weight c ≤ 1
unfolding closing_weight
closing_weight-le returned = omega arith
closing_weight-le _ = omega arith

module _ {F : Type 0} where
  -- Steps left of the writer and of `Close`.
  abbrev pub weight : FrameSession F → ℕ
  weight s = writer_weight s.writer + closing_weight s.closing

  -- One for a step of the writer or of `Close`.
  unfoldable pub cost : Action F → ℕ
  cost writer_takes = 1
  cost writer_rechecks = 1
  cost deliver_returns = 1
  cost writer_stops = 1
  cost close_returns = 1
  cost _ = 0

  unfoldable pub total : List (Action F) → ℕ
  total [] = 0
  total (a ∷ rest) = cost a + total rest

  -- The writer, `Close` and the marks of both queues are as they were.
  abbrev Same : FrameSession F → FrameSession F → Type 0
  Same s t =
      (t.writer ≡ s.writer)
      × (t.closing ≡ s.closing)
      × (t.cw.done ≡ s.cw.done)
      × (t.inbox.done ≡ s.inbox.done)

  pub record IsMarked (s : FrameSession F) : Type 0 where
    pub inbox : s.inbox.done ≡ begun s.closing
    pub shut : s.cw.done ≡ written s.closing

  -- What a step does to a session whose writer is told to stop.
  pub record Moves (n : ℕ) (s t : FrameSession F) : Type 0 where
    pub marks : IsMarked s → IsMarked t
    pub stays : written s.closing ≡ true → written t.closing ≡ true
    pub falls : written s.closing ≡ true → s.cw.done ≡ true → n + weight t ≤ weight s

  Same-Moves : (s t : FrameSession F) → Same s t → Moves 0 s t
  Same-Moves s t m = record {
    marks = λ v. record {
      inbox = m.3 ∙ v.inbox ∙ ap begun (sym m.1);
      shut = m.2 ∙ v.shut ∙ ap written (sym m.1);
    };
    stays = λ e. ap written m.1 ∙ e;
    falls = λ e d. omega (arith, ap writer_weight m.0, ap closing_weight m.1);
  }

  push-Same : (f : F) (s : FrameSession F) → Same s (push_step f s)
  unfolding push_step
  push-Same f s = ground arith

  enqueue-Same : (f : F) (s : FrameSession F) → Same s (enqueue_step f s)
  unfolding enqueue_step
  enqueue-Same f s = ground arith

  -- The second selects of `Push` and `enqueue`.
  select-Same :
      (n : ℕ) (s t : FrameSession F)
      → (push_sends_step n s ≡ some t)
        ⊎ (push_refused_step n s ≡ some t)
        ⊎ (enqueue_sends_step n s ≡ some t)
        ⊎ (enqueue_refused_step n s ≡ some t)
      → Same s t
  unfolding push_sends_step push_refused_step enqueue_sends_step enqueue_refused_step
  select-Same n s t e = ground arith

  reader-Same :
      (r : Reader F) (fs : List F) (s t : FrameSession F)
      → (reader_takes_step r fs s ≡ some t)
        ⊎ (frame_returns_step r s ≡ some t)
        ⊎ (reader_stops_step r s ≡ some t)
      → Same s t
  unfolding reader_takes_step frame_returns_step reader_stops_step
  reader-Same listening [] s t e = ground arith
  reader-Same listening (f ∷ fs) s t e = ground arith
  reader-Same gone fs s t e = ground arith
  reader-Same (processing f) fs s t e = ground arith

  -- A step of the writer.
  abbrev Works : Writer F → List F → FrameSession F → FrameSession F → Type 0
  Works w fs s t =
      (writer_takes_step w fs s ≡ some t)
      ⊎ (writer_rechecks_step w s ≡ some t)
      ⊎ (deliver_returns_step w s ≡ some t)
      ⊎ (writer_stops_step w s ≡ some t)

  writer-same :
      (w : Writer F) (fs : List F) (s t : FrameSession F)
      → Works w fs s t
      → (t.closing ≡ s.closing) × (t.cw.done ≡ s.cw.done) × (t.inbox.done ≡ s.inbox.done)
  unfolding writer_takes_step writer_rechecks_step deliver_returns_step writer_stops_step
  writer-same selecting [] s t e = ground arith
  writer-same selecting (f ∷ fs) s t e = ground arith
  writer-same stopped fs s t e = absurd (ground arith)
  writer-same (holding f) fs s t e = ground arith
  writer-same (delivering f) fs s t e = ground arith

  writer-falls :
      (w : Writer F) (fs : List F) (s t : FrameSession F)
      → Works w fs s t
      → s.cw.done ≡ true
      → writer_weight t.writer < writer_weight w
  unfolding writer_takes_step writer_rechecks_step deliver_returns_step writer_stops_step
      writer_weight
  writer-falls selecting [] s t e d = ground arith
  writer-falls selecting (f ∷ fs) s t e d = ground arith
  writer-falls stopped fs s t e d = absurd (ground arith)
  writer-falls (holding f) fs s t e d = ground arith
  writer-falls (delivering f) fs s t e d = ground arith

  writer-Moves : (fs : List F) (s t : FrameSession F) → Works s.writer fs s t → Moves 1 s t
  writer-Moves fs s t e =
      let m = writer-same s.writer fs s t e in
      record {
        marks = λ v. record {
          inbox = m.2 ∙ v.inbox ∙ ap begun (sym m.0);
          shut = m.1 ∙ v.shut ∙ ap written (sym m.0);
        };
        stays = λ q. ap written m.0 ∙ q;
        falls = λ q d. omega (arith, writer-falls s.writer fs s t e d, ap closing_weight m.0);
      }

  close_begins-Moves :
      (c : Closing) (s t : FrameSession F)
      → s.closing ≡ c
      → close_begins_step c s ≡ some t
      → Moves 0 s t
  unfolding close_begins_step begun written
  close_begins-Moves open_session s t q e = record {
    marks = λ v. record { inbox = ground arith; shut = ground (arith, v.shut) };
    stays = λ d. absurd (ground arith);
    falls = λ d. absurd (ground arith);
  }
  close_begins-Moves _ s t q e = absurd (ground arith)

  close_writes-Moves :
      (c : Closing) (s t : FrameSession F)
      → s.closing ≡ c
      → close_writes_step c s ≡ some t
      → Moves 0 s t
  unfolding close_writes_step close_writer begun written
  close_writes-Moves done_closed s t q e = record {
    marks = λ v. record { inbox = ground (arith, v.inbox); shut = ground arith };
    stays = λ d. absurd (ground arith);
    falls = λ d. absurd (ground arith);
  }
  close_writes-Moves _ s t q e = absurd (ground arith)

  close_returns-Moves :
      (c : Closing) (w : Writer F) (s t : FrameSession F)
      → s.closing ≡ c
      → close_returns_step c w s ≡ some t
      → Moves 1 s t
  unfolding close_returns_step begun written closing_weight
  close_returns-Moves writer_closed stopped s t q e = record {
    marks = λ v. record { inbox = ground (arith, v.inbox); shut = ground (arith, v.shut) };
    stays = λ d. ground arith;
    falls = λ d x. ground arith;
  }
  close_returns-Moves _ _ s t q e = absurd (ground arith)

  pub step-Moves : (a : Action F) (s t : FrameSession F) → step a s ≡ some t → Moves (cost a) s t
  unfolding step cost
  step-Moves (push f) s t e = Same-Moves s t (ground (arith, push-Same f s))
  step-Moves (enqueue f) s t e = Same-Moves s t (ground (arith, enqueue-Same f s))
  step-Moves (push_sends n) s t e = Same-Moves s t (select-Same n s t (inl e))
  step-Moves (push_refused n) s t e = Same-Moves s t (select-Same n s t (inr (inl e)))
  step-Moves (enqueue_sends n) s t e = Same-Moves s t (select-Same n s t (inr (inr (inl e))))
  step-Moves (enqueue_refused n) s t e = Same-Moves s t (select-Same n s t (inr (inr (inr e))))
  step-Moves writer_takes s t e = writer-Moves s.cw.ch s t (inl e)
  step-Moves writer_rechecks s t e = writer-Moves [] s t (inr (inl e))
  step-Moves deliver_returns s t e = writer-Moves [] s t (inr (inr (inl e)))
  step-Moves writer_stops s t e = writer-Moves [] s t (inr (inr (inr e)))
  step-Moves reader_takes s t e = Same-Moves s t (reader-Same s.reader s.inbox.ch s t (inl e))
  step-Moves frame_returns s t e = Same-Moves s t (reader-Same s.reader [] s t (inr (inl e)))
  step-Moves reader_stops s t e = Same-Moves s t (reader-Same s.reader [] s t (inr (inr e)))
  step-Moves close_begins s t e = close_begins-Moves s.closing s t refl e
  step-Moves close_writes s t e = close_writes-Moves s.closing s t refl e
  step-Moves close_returns s t e = close_returns-Moves s.closing s.writer s t refl e

  pub Reach-IsMarked : {s : FrameSession F} → Reach s → IsMarked s
  Reach-IsMarked start =
      unfold new_frame_session new_conn_writer begun written in record { inbox = refl; shut = refl }
  Reach-IsMarked (next {s} {t} a r e) = (step-Moves a s t e).marks (Reach-IsMarked r)

  pub writer_weight-le : (w : Writer F) → writer_weight w ≤ 3
  unfolding writer_weight
  writer_weight-le selecting = omega arith
  writer_weight-le stopped = omega arith
  writer_weight-le (holding f) = omega arith
  writer_weight-le (delivering f) = omega arith
