-- ===== src/Session/Delivery/Order.antt =====
-- The steps of frame_session.go that move frames, and the order of the frames.
use mathlib.Core.List.{append_assoc}
use flutter_pion_bridge.Prelude.{
  ℕ, ◌≤◌, ◌≡◌, refl, sym, subst, false, some, List, [], ◌∷◌, ◌++◌, length, length-append,
  if◌then◌else◌, arith, Option-cases, inl, inr,
}
use flutter_pion_bridge.Session.{
  Writer, selecting, holding, Reader, listening, FrameSession, pick, Action, push, enqueue,
  push_sends, push_refused, enqueue_sends, enqueue_refused, writer_takes, writer_rechecks,
  deliver_returns, writer_stops, reader_takes, frame_returns, reader_stops, close_begins,
  close_writes, close_returns, push_sends_step, enqueue_sends_step, writer_takes_step,
  writer_rechecks_step, writer_stops_step, reader_takes_step, step, Reach, start, next,
}
use flutter_pion_bridge.Session.Delivery.{
  has_stopped, held, view, IsFlowing, start-IsFlowing, push-view, enqueue-view, push_refused-view,
  enqueue_refused-view, deliver_returns-view, frame_returns-view, reader_stops-view,
  close_begins-view, close_writes-view, close_returns-view,
}

module _ {F : Type 0} where
  push_sends-IsFlowing :
      (n : ℕ) (s t : FrameSession F)
      → push_sends_step n s ≡ some t
      → IsFlowing (view s)
      → IsFlowing (view t)
  unfolding push_sends_step view
  push_sends-IsFlowing n s t e v = elim (Option-cases (pick n s.pushing)) [
    | inl out ↦ absurd (ground arith)
    | inr (found, q) ↦ record {
      rest = v.rest;
      sent = ground (arith, v.sent);
      live = λ l. ground (arith, v.live);
      read = ground (arith, v.read, append_assoc s.processed s.inbox.ch (found.0 ∷ []));
      room = ground (arith, v.room);
      inbox_room = ground (arith, v.inbox_room, length-append s.inbox.ch (found.0 ∷ []));
    }
  ]

  enqueue_sends-IsFlowing :
      (n : ℕ) (s t : FrameSession F)
      → enqueue_sends_step n s ≡ some t
      → IsFlowing (view s)
      → IsFlowing (view t)
  unfolding enqueue_sends_step view
  enqueue_sends-IsFlowing n s t e v = elim (Option-cases (pick n s.enqueuing)) [
    | inl out ↦ absurd (ground arith)
    | inr (found, q) ↦ record {
      rest = v.rest ++ found.0 ∷ [];
      sent = ground (arith, v.sent, append_assoc s.delivered v.rest (found.0 ∷ []));
      live = λ l. ground (arith, v.live, append_assoc (held s.writer) s.cw.ch (found.0 ∷ []));
      read = ground (arith, v.read);
      room = ground (arith, v.room, length-append s.cw.ch (found.0 ∷ []));
      inbox_room = ground (arith, v.inbox_room);
    }
  ]

  writer_takes-IsFlowing :
      (w : Writer F) (fs : List F) (s t : FrameSession F)
      → s.writer ≡ w
      → s.cw.ch ≡ fs
      → writer_takes_step w fs s ≡ some t
      → IsFlowing (view s)
      → IsFlowing (view t)
  unfolding writer_takes_step view held has_stopped
  writer_takes-IsFlowing selecting (f ∷ fs) s t q c e v = record {
    rest = v.rest;
    sent = ground (arith, v.sent);
    live = λ l. ground (arith, v.live);
    read = ground (arith, v.read);
    room = ground (arith, v.room);
    inbox_room = ground (arith, v.inbox_room);
  }
  writer_takes-IsFlowing _ _ s t q c e v = absurd (ground arith)

  writer_rechecks-IsFlowing :
      (w : Writer F) (s t : FrameSession F)
      → s.writer ≡ w
      → writer_rechecks_step w s ≡ some t
      → IsFlowing (view s)
      → IsFlowing (view t)
  unfolding writer_rechecks_step view held has_stopped
  writer_rechecks-IsFlowing (holding f) s t q e v = record {
    rest = if s.cw.done then v.rest else s.cw.ch;
    sent = ground (arith, v.sent, v.live, append_assoc s.delivered (f ∷ []) s.cw.ch);
    live = λ l. ground (arith, v.live);
    read = ground (arith, v.read);
    room = ground (arith, v.room);
    inbox_room = ground (arith, v.inbox_room);
  }
  writer_rechecks-IsFlowing _ s t q e v = absurd (ground arith)

  writer_stops-IsFlowing :
      (w : Writer F) (s t : FrameSession F)
      → s.writer ≡ w
      → writer_stops_step w s ≡ some t
      → IsFlowing (view s)
      → IsFlowing (view t)
  unfolding writer_stops_step view held has_stopped
  writer_stops-IsFlowing selecting s t q e v = record {
    rest = v.rest;
    sent = ground (arith, v.sent);
    live = λ l. ground (arith, v.live);
    read = ground (arith, v.read);
    room = ground (arith, v.room);
    inbox_room = ground (arith, v.inbox_room);
  }
  writer_stops-IsFlowing _ s t q e v = absurd (ground arith)

  reader_takes-IsFlowing :
      (r : Reader F) (fs : List F) (s t : FrameSession F)
      → s.inbox.ch ≡ fs
      → reader_takes_step r fs s ≡ some t
      → IsFlowing (view s)
      → IsFlowing (view t)
  unfolding reader_takes_step view held has_stopped
  reader_takes-IsFlowing listening (f ∷ fs) s t c e v = record {
    rest = v.rest;
    sent = ground (arith, v.sent);
    live = λ l. ground (arith, v.live);
    read = ground (arith, v.read, append_assoc s.processed (f ∷ []) fs);
    room = ground (arith, v.room);
    inbox_room = ground (arith, v.inbox_room);
  }
  reader_takes-IsFlowing _ _ s t c e v = absurd (ground arith)

  step-IsFlowing :
      (a : Action F) (s t : FrameSession F)
      → step a s ≡ some t
      → IsFlowing (view s)
      → IsFlowing (view t)
  unfolding step
  step-IsFlowing (push f) s t e v = subst IsFlowing (ground (arith, push-view f s)) v
  step-IsFlowing (enqueue f) s t e v = subst IsFlowing (ground (arith, enqueue-view f s)) v
  step-IsFlowing (push_sends n) s t e v = push_sends-IsFlowing n s t e v
  step-IsFlowing (push_refused n) s t e v = subst IsFlowing (sym (push_refused-view n s t e)) v
  step-IsFlowing (enqueue_sends n) s t e v = enqueue_sends-IsFlowing n s t e v
  step-IsFlowing (enqueue_refused n) s t e v =
      subst IsFlowing (sym (enqueue_refused-view n s t e)) v
  step-IsFlowing writer_takes s t e v = writer_takes-IsFlowing s.writer s.cw.ch s t refl refl e v
  step-IsFlowing writer_rechecks s t e v = writer_rechecks-IsFlowing s.writer s t refl e v
  step-IsFlowing deliver_returns s t e v =
      subst IsFlowing (sym (deliver_returns-view s.writer s t refl e)) v
  step-IsFlowing writer_stops s t e v = writer_stops-IsFlowing s.writer s t refl e v
  step-IsFlowing reader_takes s t e v = reader_takes-IsFlowing s.reader s.inbox.ch s t refl e v
  step-IsFlowing frame_returns s t e v = subst IsFlowing (sym (frame_returns-view s.reader s t e)) v
  step-IsFlowing reader_stops s t e v = subst IsFlowing (sym (reader_stops-view s.reader s t e)) v
  step-IsFlowing close_begins s t e v = subst IsFlowing (sym (close_begins-view s.closing s t e)) v
  step-IsFlowing close_writes s t e v = subst IsFlowing (sym (close_writes-view s.closing s t e)) v
  step-IsFlowing close_returns s t e v =
      subst IsFlowing (sym (close_returns-view s.closing s.writer s t e)) v

  Reach-IsFlowing : {s : FrameSession F} → Reach s → IsFlowing (view s)
  Reach-IsFlowing start = start-IsFlowing
  Reach-IsFlowing (next {s} {t} a r e) = step-IsFlowing a s t e (Reach-IsFlowing r)

  -- In every state that a session reaches, the frames handed to `deliver` are the first of those that
  -- entered the outbound queue, in that order; while the writer runs, the others are the frame it
  -- holds and the queue. The frames handed to `processFrame` and those still in the inbound queue
  -- are all that `Push` put there, in that order. Neither queue is over its capacity.
  pub frames_in_order :
      {s : FrameSession F}
      → Reach s
      → ((rest : List F) × (s.accepted ≡ s.delivered ++ rest)
          × (has_stopped s.writer ≡ false → rest ≡ held s.writer ++ s.cw.ch))
        × (s.pushed ≡ s.processed ++ s.inbox.ch)
        × (length s.cw.ch ≤ s.cw.size)
        × (length s.inbox.ch ≤ s.inbox.size)
  unfolding view
  frames_in_order {s} r =
      let v = Reach-IsFlowing r in ((v.rest, v.sent, v.live), v.read, v.room, v.inbox_room)
