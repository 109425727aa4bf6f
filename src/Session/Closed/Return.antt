-- ===== src/Session/Closed/Return.antt =====
-- `Close` of frame_session.go returns when the writer is gone.
use flutter_pion_bridge.Prelude.{
  ◌≡◌, ◌≢◌, refl, sym, ◌∙◌, true, some, List, [], ◌∷◌, arith, ◌⊎◌, inl, inr,
}
use flutter_pion_bridge.Session.{
  Writer, selecting, stopped, holding, delivering, Reader, listening, gone, processing, Closing,
  open_session, done_closed, writer_closed, returned, FrameSession, new_frame_session, Action, push,
  enqueue, push_sends, push_refused, enqueue_sends, enqueue_refused, writer_takes, writer_rechecks,
  deliver_returns, writer_stops, reader_takes, frame_returns, reader_stops, close_begins,
  close_writes, close_returns, push_sends_step, push_refused_step, enqueue_sends_step,
  enqueue_refused_step, writer_takes_step, writer_rechecks_step, deliver_returns_step,
  writer_stops_step, reader_takes_step, frame_returns_step, reader_stops_step, close_begins_step,
  close_writes_step, close_returns_step, step, run, Reach, start, next,
}
use flutter_pion_bridge.Session.Delivery.{has_stopped}
use flutter_pion_bridge.Session.Closed.{
  Silent, push_step-same, enqueue_step-same, step-Silent, run-Silent,
}

module _ {F : Type 0} where
  writer-closing :
      (w : Writer F) (fs : List F) (s t : FrameSession F)
      → (writer_takes_step w fs s ≡ some t)
        ⊎ (writer_rechecks_step w s ≡ some t)
        ⊎ (deliver_returns_step w s ≡ some t)
        ⊎ (writer_stops_step w s ≡ some t)
      → t.closing ≡ s.closing
  unfolding writer_takes_step writer_rechecks_step deliver_returns_step writer_stops_step
  writer-closing selecting [] s t e = ground arith
  writer-closing selecting (f ∷ fs) s t e = ground arith
  writer-closing stopped fs s t e = ground arith
  writer-closing (holding f) fs s t e = ground arith
  writer-closing (delivering f) fs s t e = ground arith

  reader-closing :
      (r : Reader F) (fs : List F) (s t : FrameSession F)
      → (reader_takes_step r fs s ≡ some t)
        ⊎ (frame_returns_step r s ≡ some t)
        ⊎ (reader_stops_step r s ≡ some t)
      → t.closing ≡ s.closing
  unfolding reader_takes_step frame_returns_step reader_stops_step
  reader-closing listening [] s t e = ground arith
  reader-closing listening (f ∷ fs) s t e = ground arith
  reader-closing gone fs s t e = ground arith
  reader-closing (processing f) fs s t e = ground arith

  close-returned :
      (c : Closing) (w : Writer F) (s t : FrameSession F)
      → s.writer ≡ w
      → close_returns_step c w s ≡ some t
      → (has_stopped t.writer ≡ true)
  unfolding close_returns_step has_stopped
  close-returned writer_closed stopped s t q e = ground arith
  close-returned _ _ s t q e = absurd (ground arith)

  close-not_returned :
      (c : Closing) (s t : FrameSession F)
      → (close_begins_step c s ≡ some t) ⊎ (close_writes_step c s ≡ some t)
      → t.closing ≢ returned
  unfolding close_begins_step close_writes_step
  close-not_returned open_session s t e = ground arith
  close-not_returned done_closed s t e = ground arith
  close-not_returned writer_closed s t e = ground arith
  close-not_returned returned s t e = ground arith

  HasEnded : FrameSession F → Type 0
  HasEnded s = s.closing ≡ returned → has_stopped s.writer ≡ true

  -- `Silent` is stable, and every step but the last of `Close` leaves `returned` as it was.
  HasEnded-keep :
      (a : Action F) (s t : FrameSession F)
      → step a s ≡ some t
      → t.closing ≡ s.closing
      → HasEnded s
      → HasEnded t
  unfolding HasEnded Silent
  HasEnded-keep a s t e q v = λ r. (step-Silent a s.delivered s t e (v (sym q ∙ r), refl)).0

  step-HasEnded :
      (a : Action F) (s t : FrameSession F) → step a s ≡ some t → HasEnded s → HasEnded t
  unfolding step
  step-HasEnded (push f) s t e = HasEnded-keep (push f) s t e (ground (arith, push_step-same f s))
  step-HasEnded (enqueue f) s t e =
      HasEnded-keep (enqueue f) s t e (ground (arith, enqueue_step-same f s))
  step-HasEnded (push_sends n) s t e =
      HasEnded-keep (push_sends n) s t e (unfold push_sends_step in ground arith)
  step-HasEnded (push_refused n) s t e =
      HasEnded-keep (push_refused n) s t e (unfold push_refused_step in ground arith)
  step-HasEnded (enqueue_sends n) s t e =
      HasEnded-keep (enqueue_sends n) s t e (unfold enqueue_sends_step in ground arith)
  step-HasEnded (enqueue_refused n) s t e =
      HasEnded-keep (enqueue_refused n) s t e (unfold enqueue_refused_step in ground arith)
  step-HasEnded writer_takes s t e =
      HasEnded-keep writer_takes s t e (writer-closing s.writer s.cw.ch s t (inl e))
  step-HasEnded writer_rechecks s t e =
      HasEnded-keep writer_rechecks s t e (writer-closing s.writer [] s t (inr (inl e)))
  step-HasEnded deliver_returns s t e =
      HasEnded-keep deliver_returns s t e (writer-closing s.writer [] s t (inr (inr (inl e))))
  step-HasEnded writer_stops s t e =
      HasEnded-keep writer_stops s t e (writer-closing s.writer [] s t (inr (inr (inr e))))
  step-HasEnded reader_takes s t e =
      HasEnded-keep reader_takes s t e (reader-closing s.reader s.inbox.ch s t (inl e))
  step-HasEnded frame_returns s t e =
      HasEnded-keep frame_returns s t e (reader-closing s.reader [] s t (inr (inl e)))
  step-HasEnded reader_stops s t e =
      HasEnded-keep reader_stops s t e (reader-closing s.reader [] s t (inr (inr e)))
  step-HasEnded close_begins s t e =
      unfold HasEnded in λ v r. absurd (close-not_returned s.closing s t (inl e) r)
  step-HasEnded close_writes s t e =
      unfold HasEnded in λ v r. absurd (close-not_returned s.closing s t (inr e) r)
  step-HasEnded close_returns s t e =
      unfold HasEnded in λ v r. close-returned s.closing s.writer s t refl e

  Reach-HasEnded : {s : FrameSession F} → Reach s → HasEnded s
  unfolding HasEnded
  Reach-HasEnded start = unfold new_frame_session in λ e. absurd (cc e)
  Reach-HasEnded (next {s} {t} a r e) = step-HasEnded a s t e (Reach-HasEnded r)

  -- Once `Close` has returned, the writer is gone and no steps of any party, pushes, enqueues and
  -- frames still queued included, hand another frame to `deliver`.
  pub silent_after_close :
      (acts : List (Action F)) {s t : FrameSession F}
      → Reach s
      → s.closing ≡ returned
      → run acts s ≡ some t
      → (has_stopped t.writer ≡ true) × (t.delivered ≡ s.delivered)
  silent_after_close acts {s} {t} r c e =
      unfold Silent in
      run-Silent acts s.delivered s t e (unfold HasEnded in Reach-HasEnded r c, refl)
