-- ===== src/Session/Delivery.antt =====
-- What the writer and the reader of frame_session.go hand on: the frames that entered their queues,
-- in that order.
pub mod Order
use mathlib.Core.List.{append_assoc}
use flutter_pion_bridge.Prelude.{
  ℕ, ◌≤◌, ◌≡◌, refl, sym, subst, Bool, true, false, some, List, [], ◌∷◌, ◌++◌, length,
  length-append, if◌then◌else◌, arith, Option-cases, inl, inr,
}
use flutter_pion_bridge.Session.{
  new_conn_writer, close_writer, Writer, selecting, stopped, holding, delivering, Reader, listening,
  processing, Closing, open_session, done_closed, writer_closed, FrameSession, new_frame_session,
  pick, Action, push, enqueue, push_sends, push_refused, enqueue_sends, enqueue_refused,
  writer_takes, writer_rechecks, deliver_returns, writer_stops, reader_takes, frame_returns,
  reader_stops, close_begins, close_writes, close_returns, push_step, enqueue_step, push_sends_step,
  push_refused_step, enqueue_sends_step, enqueue_refused_step, writer_takes_step,
  writer_rechecks_step, deliver_returns_step, writer_stops_step, reader_takes_step,
  frame_returns_step, reader_stops_step, close_begins_step, close_writes_step, close_returns_step,
  step, Reach, start, next,
}

-- What the flow of frames depends on.
pub record View (F : Type 0) : Type 0 where
  pub accepted : List F
  pub delivered : List F
  pub pushed : List F
  pub processed : List F
  pub queue : List F
  pub size : ℕ
  pub arrived : List F
  pub inbox_size : ℕ
  pub hand : List F
  pub ended : Bool

module _ {F : Type 0} where
  unfoldable pub has_stopped : Writer F → Bool
  has_stopped stopped = true
  has_stopped _ = false

  unfoldable pub held : Writer F → List F
  held (holding f) = f ∷ []
  held _ = []

  unfoldable pub view : FrameSession F → View F
  view s = record {
    accepted = s.accepted;
    delivered = s.delivered;
    pushed = s.pushed;
    processed = s.processed;
    queue = s.cw.ch;
    size = s.cw.size;
    arrived = s.inbox.ch;
    inbox_size = s.inbox.size;
    hand = held s.writer;
    ended = has_stopped s.writer;
  }

  pub record IsFlowing (s : View F) : Type 0 where
    pub rest : List F
    pub sent : s.accepted ≡ s.delivered ++ rest
    pub live : s.ended ≡ false → rest ≡ s.hand ++ s.queue
    pub read : s.pushed ≡ s.processed ++ s.arrived
    pub room : length s.queue ≤ s.size
    pub inbox_room : length s.arrived ≤ s.inbox_size

  pub start-IsFlowing : IsFlowing (view (new_frame_session F))
  unfolding view new_frame_session new_conn_writer has_stopped held
  start-IsFlowing = record {
    rest = [];
    sent = refl;
    live = λ e. refl;
    read = refl;
    room = omega arith;
    inbox_room = omega arith;
  }

  pub push-view : (f : F) (s : FrameSession F) → view (push_step f s) ≡ view s
  unfolding push_step view
  push-view f s = ground arith

  pub enqueue-view : (f : F) (s : FrameSession F) → view (enqueue_step f s) ≡ view s
  unfolding enqueue_step view
  enqueue-view f s = ground arith

  pub push_refused-view :
      (n : ℕ) (s t : FrameSession F) → push_refused_step n s ≡ some t → view t ≡ view s
  unfolding push_refused_step view
  push_refused-view n s t e = ground arith

  pub enqueue_refused-view :
      (n : ℕ) (s t : FrameSession F) → enqueue_refused_step n s ≡ some t → view t ≡ view s
  unfolding enqueue_refused_step view
  enqueue_refused-view n s t e = ground arith

  pub deliver_returns-view :
      (w : Writer F) (s t : FrameSession F)
      → s.writer ≡ w
      → deliver_returns_step w s ≡ some t
      → view t ≡ view s
  unfolding deliver_returns_step view held has_stopped
  deliver_returns-view (delivering f) s t q e = ground arith
  deliver_returns-view _ s t q e = absurd (ground arith)

  pub frame_returns-view :
      (r : Reader F) (s t : FrameSession F) → frame_returns_step r s ≡ some t → view t ≡ view s
  unfolding frame_returns_step view
  frame_returns-view (processing f) s t e = ground arith
  frame_returns-view _ s t e = absurd (ground arith)

  pub reader_stops-view :
      (r : Reader F) (s t : FrameSession F) → reader_stops_step r s ≡ some t → view t ≡ view s
  unfolding reader_stops_step view
  reader_stops-view listening s t e = ground arith
  reader_stops-view _ s t e = absurd (ground arith)

  pub close_begins-view :
      (c : Closing) (s t : FrameSession F) → close_begins_step c s ≡ some t → view t ≡ view s
  unfolding close_begins_step view
  close_begins-view open_session s t e = ground arith
  close_begins-view _ s t e = absurd (ground arith)

  pub close_writes-view :
      (c : Closing) (s t : FrameSession F) → close_writes_step c s ≡ some t → view t ≡ view s
  unfolding close_writes_step close_writer view
  close_writes-view done_closed s t e = ground arith
  close_writes-view _ s t e = absurd (ground arith)

  pub close_returns-view :
      (c : Closing) (w : Writer F) (s t : FrameSession F)
      → close_returns_step c w s ≡ some t
      → view t ≡ view s
  unfolding close_returns_step view
  close_returns-view writer_closed stopped s t e = ground arith
  close_returns-view _ _ s t e = absurd (ground arith)
