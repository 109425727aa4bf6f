-- ===== src/Session/Closed.antt =====
-- `Close` of frame_session.go: it waits for the writer, and nothing is delivered after it returns.
pub mod Return
use flutter_pion_bridge.Prelude.{
  ℕ, ◌≡◌, ◌≢◌, refl, sym, ◌∙◌, true, some, List, [], ◌∷◌, arith, Option-cases, ◌⊎◌, inl, inr,
}
use flutter_pion_bridge.Session.{
  Writer, selecting, stopped, holding, delivering, Reader, listening, gone, processing, Closing,
  open_session, done_closed, writer_closed, returned, FrameSession, new_frame_session, Action, push,
  enqueue, push_sends, push_refused, enqueue_sends, enqueue_refused, writer_takes, writer_rechecks,
  deliver_returns, writer_stops, reader_takes, frame_returns, reader_stops, close_begins,
  close_writes, close_returns, push_step, enqueue_step, push_sends_step, push_refused_step,
  enqueue_sends_step, enqueue_refused_step, writer_takes_step, writer_rechecks_step,
  deliver_returns_step, writer_stops_step, reader_takes_step, frame_returns_step, reader_stops_step,
  close_begins_step, close_writes_step, close_returns_step, step, run, Reach, start, next,
}
use flutter_pion_bridge.Session.Delivery.{has_stopped}

module _ {F : Type 0} where
  -- The writer is gone, and this is what it delivered.
  unfoldable pub Silent : List F → FrameSession F → Type 0
  Silent l s = (has_stopped s.writer ≡ true) × (s.delivered ≡ l)

  pub push_step-same :
      (f : F) (s : FrameSession F)
      → ((push_step f s).closing ≡ s.closing)
        × ((push_step f s).cw ≡ s.cw)
        × ((push_step f s).writer ≡ s.writer)
        × ((push_step f s).delivered ≡ s.delivered)
  unfolding push_step
  push_step-same f s = ground arith

  pub enqueue_step-same :
      (f : F) (s : FrameSession F)
      → ((enqueue_step f s).closing ≡ s.closing)
        × ((enqueue_step f s).cw ≡ s.cw)
        × ((enqueue_step f s).writer ≡ s.writer)
        × ((enqueue_step f s).delivered ≡ s.delivered)
  unfolding enqueue_step
  enqueue_step-same f s = ground arith

  push_sends_step-Silent :
      (n : ℕ) (l : List F) (s t : FrameSession F)
      → push_sends_step n s ≡ some t
      → Silent l s
      → Silent l t
  unfolding push_sends_step Silent
  push_sends_step-Silent n l s t e v = ground arith

  push_refused_step-Silent :
      (n : ℕ) (l : List F) (s t : FrameSession F)
      → push_refused_step n s ≡ some t
      → Silent l s
      → Silent l t
  unfolding push_refused_step Silent
  push_refused_step-Silent n l s t e v = ground arith

  enqueue_sends_step-Silent :
      (n : ℕ) (l : List F) (s t : FrameSession F)
      → enqueue_sends_step n s ≡ some t
      → Silent l s
      → Silent l t
  unfolding enqueue_sends_step Silent
  enqueue_sends_step-Silent n l s t e v = ground arith

  enqueue_refused_step-Silent :
      (n : ℕ) (l : List F) (s t : FrameSession F)
      → enqueue_refused_step n s ≡ some t
      → Silent l s
      → Silent l t
  unfolding enqueue_refused_step Silent
  enqueue_refused_step-Silent n l s t e v = ground arith

  writer-Silent :
      (w : Writer F) (fs : List F) (l : List F) (s t : FrameSession F)
      → s.writer ≡ w
      → (writer_takes_step w fs s ≡ some t)
        ⊎ (writer_rechecks_step w s ≡ some t)
        ⊎ (deliver_returns_step w s ≡ some t)
        ⊎ (writer_stops_step w s ≡ some t)
      → Silent l s
      → Silent l t
  unfolding writer_takes_step writer_rechecks_step deliver_returns_step writer_stops_step Silent
      has_stopped
  writer-Silent stopped fs l s t q e v = absurd (ground arith)
  writer-Silent _ fs l s t q e v = absurd (ground arith)

  reader_takes_step-Silent :
      (r : Reader F) (fs : List F) (l : List F) (s t : FrameSession F)
      → reader_takes_step r fs s ≡ some t
      → Silent l s
      → Silent l t
  unfolding reader_takes_step Silent
  reader_takes_step-Silent listening (f ∷ fs) l s t e v = ground arith
  reader_takes_step-Silent _ _ l s t e v = absurd (ground arith)

  reader-Silent :
      (r : Reader F) (l : List F) (s t : FrameSession F)
      → (frame_returns_step r s ≡ some t) ⊎ (reader_stops_step r s ≡ some t)
      → Silent l s
      → Silent l t
  unfolding frame_returns_step reader_stops_step Silent
  reader-Silent listening l s t e v = ground arith
  reader-Silent gone l s t e v = ground arith
  reader-Silent (processing f) l s t e v = ground arith

  close-Silent :
      (c : Closing) (w : Writer F) (l : List F) (s t : FrameSession F)
      → (close_begins_step c s ≡ some t)
        ⊎ (close_writes_step c s ≡ some t)
        ⊎ (close_returns_step c w s ≡ some t)
      → Silent l s
      → Silent l t
  unfolding close_begins_step close_writes_step close_returns_step Silent
  close-Silent open_session w l s t e v = ground arith
  close-Silent done_closed w l s t e v = ground arith
  close-Silent writer_closed stopped l s t e v = ground arith
  close-Silent writer_closed _ l s t e v = absurd (ground arith)
  close-Silent returned w l s t e v = ground arith

  pub step-Silent :
      (a : Action F) (l : List F) (s t : FrameSession F)
      → step a s ≡ some t
      → Silent l s
      → Silent l t
  unfolding step
  step-Silent (push f) l s t e v = unfold Silent in ground (arith, push_step-same f s)
  step-Silent (enqueue f) l s t e v = unfold Silent in ground (arith, enqueue_step-same f s)
  step-Silent (push_sends n) l s t e v = push_sends_step-Silent n l s t e v
  step-Silent (push_refused n) l s t e v = push_refused_step-Silent n l s t e v
  step-Silent (enqueue_sends n) l s t e v = enqueue_sends_step-Silent n l s t e v
  step-Silent (enqueue_refused n) l s t e v = enqueue_refused_step-Silent n l s t e v
  step-Silent writer_takes l s t e v = writer-Silent s.writer s.cw.ch l s t refl (inl e) v
  step-Silent writer_rechecks l s t e v = writer-Silent s.writer [] l s t refl (inr (inl e)) v
  step-Silent deliver_returns l s t e v = writer-Silent s.writer [] l s t refl (inr (inr (inl e))) v
  step-Silent writer_stops l s t e v = writer-Silent s.writer [] l s t refl (inr (inr (inr e))) v
  step-Silent reader_takes l s t e v = reader_takes_step-Silent s.reader s.inbox.ch l s t e v
  step-Silent frame_returns l s t e v = reader-Silent s.reader l s t (inl e) v
  step-Silent reader_stops l s t e v = reader-Silent s.reader l s t (inr e) v
  step-Silent close_begins l s t e v = close-Silent s.closing s.writer l s t (inl e) v
  step-Silent close_writes l s t e v = close-Silent s.closing s.writer l s t (inr (inl e)) v
  step-Silent close_returns l s t e v = close-Silent s.closing s.writer l s t (inr (inr e)) v

  pub run-Silent :
      (acts : List (Action F)) (l : List F) (s t : FrameSession F)
      → run acts s ≡ some t
      → Silent l s
      → Silent l t
  unfolding run
  run-Silent [] l s t e v = ground arith
  run-Silent (a ∷ rest) l s t e v = elim (Option-cases (step a s)) [
    | inl q ↦ absurd (ground arith)
    | inr (u, q) ↦ run-Silent rest l u t (ground arith) (step-Silent a l s u q v)
  ]
