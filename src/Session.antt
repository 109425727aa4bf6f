-- ===== src/Session.antt =====
-- go/internal/pionserver/frame_session.go and `connWriter` of server.go: the queues of one session, its
-- writer, its reader and `Close`. One step is one atomic action: a poll or a close of a `done` channel,
-- a send or receive, or the start or end of a callback. Frames are of any type.
pub mod Closed
pub mod Finishing
pub mod Delivery
mod Tests
use flutter_pion_bridge.Prelude.{
  ℕ, zero, suc, ◌+◌, ◌-◌, ◌*◌, ◌<◌, ◌≤◌, ◌≡◌, ◌≢◌, refl, sym, ap, ◌∙◌, subst, String, ◌==◌, Bool,
  true, false, not, ◌&&◌, ◌||◌, Option, none, some, List, [], ◌∷◌, ◌++◌, map, Map, empty, get, put,
  delete, keys, length, length-append, elem, erase, elem-append, elem-erase_ne, elem-erase_self,
  erase_none, elem-erase_none, erase-IsDistinct, nil_of_no_elem, IsDistinct, ltb, leb, ◌=ℕ◌, =ℕ_iff,
  if◌then◌else◌, arith, eq_iff, eq_refl, get-put, get-delete, get-empty, length-delete-le,
  length-delete-lt, map_laws, Bool-cases, Option-cases, ◌⊎◌, inl, inr, ◌↔◌, All, All-append,
}

abbrev pub write_chan_size : ℕ
write_chan_size = 8192

-- A bounded channel with its `done`; the head of `ch` is received next.
pub record ConnWriter (F : Type 0) : Type 0 where
  pub ch : List F
  pub size : ℕ
  pub done : Bool

unfoldable pub new_conn_writer : (F : Type 0) → ℕ → ConnWriter F
new_conn_writer F size = record { ch = []; size = size; done = false }

unfoldable pub close_writer : {F : Type 0} → ConnWriter F → ConnWriter F
close_writer w = record w { done = true }

-- The writer goroutine: at its select, with a frame before the second poll, in `deliver`, or gone.
pub data Writer (F : Type 0) : Type 0 where
  selecting stopped : Writer F
  holding delivering : F → Writer F

-- The reader goroutine: at its select, in `processFrame`, or gone.
pub data Reader (F : Type 0) : Type 0 where
  listening gone : Reader F
  processing : F → Reader F

-- `Close`: before, after `close(fs.done)`, after `cw.close()`, and returned.
pub data Closing : Type 0 where
  open_session done_closed writer_closed returned : Closing

-- `pushing` and `enqueuing` have passed the first poll of their call and stand at its second select.
-- `pushed` and `accepted` record what entered the queues, `processed` and `delivered` what was
-- handed to `processFrame` and to `deliver`.
pub record FrameSession (F : Type 0) : Type 0 where
  pub inbox : ConnWriter F
  pub cw : ConnWriter F
  pub writer : Writer F
  pub reader : Reader F
  pub closing : Closing
  pub pushing : List F
  pub enqueuing : List F
  pub pushed : List F
  pub processed : List F
  pub accepted : List F
  pub delivered : List F

unfoldable pub new_frame_session : (F : Type 0) → FrameSession F
unfolding new_conn_writer
new_frame_session F = record {
  inbox = new_conn_writer F write_chan_size;
  cw = new_conn_writer F write_chan_size;
  writer = selecting;
  reader = listening;
  closing = open_session;
  pushing = [];
  enqueuing = [];
  pushed = [];
  processed = [];
  accepted = [];
  delivered = [];
}

unfoldable pub pick : {F : Type 0} → ℕ → List F → Option (F × List F)
pick n [] = none
pick zero (f ∷ fs) = some (f, fs)
pick (suc n) (f ∷ fs) = elim (pick n fs) [ none ↦ none | some (g, rest) ↦ some (g, f ∷ rest) ]

pub data Action (F : Type 0) : Type 0 where
  push enqueue : F → Action F
  push_sends push_refused enqueue_sends enqueue_refused : ℕ → Action F
  writer_takes writer_rechecks deliver_returns writer_stops : Action F
  reader_takes frame_returns reader_stops : Action F
  close_begins close_writes close_returns : Action F

module _ {F : Type 0} where
  -- The first poll of `Push` and of `connWriter.enqueue`: an error, or on to the second select.
  unfoldable pub push_step : F → FrameSession F → FrameSession F
  push_step f s = if s.inbox.done then s else record s { pushing = s.pushing ++ f ∷ [] }

  unfoldable pub enqueue_step : F → FrameSession F → FrameSession F
  enqueue_step f s = if s.cw.done then s else record s { enqueuing = s.enqueuing ++ f ∷ [] }

  unfoldable pub push_sends_step : ℕ → FrameSession F → Option (FrameSession F)
  push_sends_step n s = elim (pick n s.pushing) [
    | none ↦ none
    | some (f, rest) ↦
        if ltb (length s.inbox.ch) s.inbox.size
        then some (record s {
          inbox = record s.inbox { ch = s.inbox.ch ++ f ∷ [] };
          pushing = rest;
          pushed = s.pushed ++ f ∷ [];
        })
        else none
  ]

  unfoldable pub push_refused_step : ℕ → FrameSession F → Option (FrameSession F)
  push_refused_step n s = elim (pick n s.pushing) [
    | none ↦ none
    | some (f, rest) ↦ if s.inbox.done then some (record s { pushing = rest }) else none
  ]

  unfoldable pub enqueue_sends_step : ℕ → FrameSession F → Option (FrameSession F)
  enqueue_sends_step n s = elim (pick n s.enqueuing) [
    | none ↦ none
    | some (f, rest) ↦
        if ltb (length s.cw.ch) s.cw.size
        then some (record s {
          cw = record s.cw { ch = s.cw.ch ++ f ∷ [] };
          enqueuing = rest;
          accepted = s.accepted ++ f ∷ [];
        })
        else none
  ]

  unfoldable pub enqueue_refused_step : ℕ → FrameSession F → Option (FrameSession F)
  enqueue_refused_step n s = elim (pick n s.enqueuing) [
    | none ↦ none
    | some (f, rest) ↦ if s.cw.done then some (record s { enqueuing = rest }) else none
  ]

  -- `case frame := <-fs.cw.ch`, which may be chosen after `done` is closed too.
  unfoldable pub writer_takes_step : Writer F → List F → FrameSession F → Option (FrameSession F)
  writer_takes_step selecting (f ∷ fs) s =
      some (record s { cw = record s.cw { ch = fs }; writer = holding f })
  writer_takes_step _ _ s = none

  -- The poll before `deliver(frame)`.
  unfoldable pub writer_rechecks_step : Writer F → FrameSession F → Option (FrameSession F)
  writer_rechecks_step (holding f) s = some (
      if s.cw.done
      then record s { writer = stopped }
      else record s { writer = delivering f; delivered = s.delivered ++ f ∷ [] })
  writer_rechecks_step _ s = none

  unfoldable pub deliver_returns_step : Writer F → FrameSession F → Option (FrameSession F)
  deliver_returns_step (delivering f) s = some (record s { writer = selecting })
  deliver_returns_step _ s = none

  unfoldable pub writer_stops_step : Writer F → FrameSession F → Option (FrameSession F)
  writer_stops_step selecting s = if s.cw.done then some (record s { writer = stopped }) else none
  writer_stops_step _ s = none

  unfoldable pub reader_takes_step : Reader F → List F → FrameSession F → Option (FrameSession F)
  reader_takes_step listening (f ∷ fs) s = some (record s {
    inbox = record s.inbox { ch = fs };
    reader = processing f;
    processed = s.processed ++ f ∷ [];
  })
  reader_takes_step _ _ s = none

  unfoldable pub frame_returns_step : Reader F → FrameSession F → Option (FrameSession F)
  frame_returns_step (processing f) s = some (record s { reader = listening })
  frame_returns_step _ s = none

  unfoldable pub reader_stops_step : Reader F → FrameSession F → Option (FrameSession F)
  reader_stops_step listening s = if s.inbox.done then some (record s { reader = gone }) else none
  reader_stops_step _ s = none

  unfoldable pub close_begins_step : Closing → FrameSession F → Option (FrameSession F)
  close_begins_step open_session s =
      some (record s { inbox = record s.inbox { done = true }; closing = done_closed })
  close_begins_step _ s = none

  unfoldable pub close_writes_step : Closing → FrameSession F → Option (FrameSession F)
  unfolding close_writer
  close_writes_step done_closed s =
      some (record s { cw = close_writer s.cw; closing = writer_closed })
  close_writes_step _ s = none

  -- `<-fs.writerDone`
  unfoldable pub close_returns_step : Closing → Writer F → FrameSession F → Option (FrameSession F)
  close_returns_step writer_closed stopped s = some (record s { closing = returned })
  close_returns_step _ _ s = none

  unfoldable pub step : Action F → FrameSession F → Option (FrameSession F)
  step (push f) s = some (push_step f s)
  step (enqueue f) s = some (enqueue_step f s)
  step (push_sends n) s = push_sends_step n s
  step (push_refused n) s = push_refused_step n s
  step (enqueue_sends n) s = enqueue_sends_step n s
  step (enqueue_refused n) s = enqueue_refused_step n s
  step writer_takes s = writer_takes_step s.writer s.cw.ch s
  step writer_rechecks s = writer_rechecks_step s.writer s
  step deliver_returns s = deliver_returns_step s.writer s
  step writer_stops s = writer_stops_step s.writer s
  step reader_takes s = reader_takes_step s.reader s.inbox.ch s
  step frame_returns s = frame_returns_step s.reader s
  step reader_stops s = reader_stops_step s.reader s
  step close_begins s = close_begins_step s.closing s
  step close_writes s = close_writes_step s.closing s
  step close_returns s = close_returns_step s.closing s.writer s

  unfoldable pub run : List (Action F) → FrameSession F → Option (FrameSession F)
  run [] s = some s
  run (a ∷ rest) s = elim (step a s) [ none ↦ none | some t ↦ run rest t ]

-- Every interleaving of a session.
pub data Reach {F : Type 0} : FrameSession F → Type 0 where
  start : Reach (new_frame_session F)
  next : {s t : FrameSession F} (a : Action F) → Reach s → step a s ≡ some t → Reach t
