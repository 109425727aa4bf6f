-- ===== src/Connection.antt =====
-- `handleWebSocket` of go/internal/pionserver/server.go: one WebSocket connection, with its writer, its read
-- loop and its pinger. A step is one atomic action, a call of the network included; whether such a call
-- succeeds is open, but a write fails once `conn.Close()` has been called. A read may still return frames
-- then that are in the buffer of the library.
pub mod Order
pub mod Teardown
pub mod Ending
mod Tests
use flutter_pion_bridge.Prelude.{
  ℕ, String, ◌==◌, Bool, true, false, Option, none, some, List, [], ◌∷◌, ◌++◌, length, ltb,
  if◌then◌else◌, ◌≡◌,
}
use flutter_pion_bridge.Result.{Result, failed, ok}
use flutter_pion_bridge.Session.{ConnWriter, write_chan_size, new_conn_writer, close_writer, pick}

-- The answer to the HTTP request: what the upgrade returns is an argument.
pub data Upgrade : Type 0 where
  unauthorized : Upgrade
  upgrade_failed : String → Upgrade
  connected : Upgrade

unfoldable pub upgraded : Result String Unit → Upgrade
upgraded (failed e) = upgrade_failed e
upgraded (ok _) = connected

unfoldable pub accept : String → String → Result String Unit → Upgrade
accept server_token token outcome = if token == server_token then upgraded outcome else unauthorized

-- A message that `NextReader` and `ReadFrom` return.
pub data Inbound (I : Type 0) : Type 0 where
  binary other : I → Inbound I

-- The writer goroutine: at its select, in `WriteMessage`, in its deferred `conn.Close()` and `cw.close()`,
-- and gone.
pub data Writer (F : Type 0) : Type 0 where
  selecting closing_conn closing_writer gone : Writer F
  writing : F → Writer F

-- The handler of the request: in `NextReader`, in the decoder and `HandleMessage`, in the select of
-- `enqueue` with a frame to answer with, in its deferred `cw.close()` and `conn.Close()`, and returned.
pub data Reader (F I : Type 0) : Type 0 where
  reading closes_writer closes_conn returned : Reader F I
  processing : I → Reader F I
  replying : F → Reader F I

-- `accepted` are the frames that entered the queue, `written` those that `WriteMessage` wrote, `processed`
-- the inbound frames given to `processFrame`.
pub record Connection (F I : Type 0) : Type 0 where
  pub cw : ConnWriter F
  pub conn_closed : Bool
  pub writer : Writer F
  pub reader : Reader F I
  pub pinging : Bool
  pub enqueuing : List F
  pub accepted : List F
  pub written : List F
  pub processed : List I

unfoldable pub new_connection : (F I : Type 0) → Connection F I
new_connection F I = record {
  cw = new_conn_writer F write_chan_size;
  conn_closed = false;
  writer = selecting;
  reader = reading;
  pinging = true;
  enqueuing = [];
  accepted = [];
  written = [];
  processed = [];
}

pub data Action (F I : Type 0) : Type 0 where
  enqueue : F → Action F I
  enqueue_sends enqueue_refused : ℕ → Action F I
  writer_takes writer_stops write_succeeds write_fails writer_closes_conn : Action F I
  writer_closes_writer : Action F I
  reads : Inbound I → Action F I
  replies : F → Action F I
  read_fails frame_returns reply_sends reply_refused : Action F I
  reader_closes_writer reader_closes_conn : Action F I
  ping_fails pinger_stops : Action F I

-- `reply` is the frame of the error that a message of another kind is answered with.
module _ {F I : Type 0} (reply : F) where
  unfoldable pub enqueue_step : F → Connection F I → Connection F I
  enqueue_step f c = if c.cw.done then c else record c { enqueuing = c.enqueuing ++ f ∷ [] }

  unfoldable pub enqueue_sends_step : ℕ → Connection F I → Option (Connection F I)
  enqueue_sends_step n c = elim (pick n c.enqueuing) [
    | none ↦ none
    | some (f, rest) ↦
        if ltb (length c.cw.ch) c.cw.size
        then some (record c {
          cw = record c.cw { ch = c.cw.ch ++ f ∷ [] };
          enqueuing = rest;
          accepted = c.accepted ++ f ∷ [];
        })
        else none
  ]

  unfoldable pub enqueue_refused_step : ℕ → Connection F I → Option (Connection F I)
  enqueue_refused_step n c = elim (pick n c.enqueuing) [
    | none ↦ none
    | some (f, rest) ↦ if c.cw.done then some (record c { enqueuing = rest }) else none
  ]

  unfoldable pub writer_takes_step : Writer F → List F → Connection F I → Option (Connection F I)
  writer_takes_step selecting (f ∷ fs) c =
      some (record c { cw = record c.cw { ch = fs }; writer = writing f })
  writer_takes_step _ _ c = none

  unfoldable pub writer_stops_step : Writer F → Connection F I → Option (Connection F I)
  writer_stops_step selecting c =
      if c.cw.done then some (record c { writer = closing_conn }) else none
  writer_stops_step _ c = none

  unfoldable pub write_succeeds_step : Writer F → Connection F I → Option (Connection F I)
  write_succeeds_step (writing f) c =
      if c.conn_closed
      then none
      else some (record c { writer = selecting; written = c.written ++ f ∷ [] })
  write_succeeds_step _ c = none

  unfoldable pub write_fails_step : Writer F → Connection F I → Option (Connection F I)
  write_fails_step (writing f) c = some (record c { writer = closing_conn })
  write_fails_step _ c = none

  -- The deferred calls, the last one first.
  unfoldable pub writer_closes_conn_step : Writer F → Connection F I → Option (Connection F I)
  writer_closes_conn_step closing_conn c =
      some (record c { conn_closed = true; writer = closing_writer })
  writer_closes_conn_step _ c = none

  unfoldable pub writer_closes_writer_step : Writer F → Connection F I → Option (Connection F I)
  writer_closes_writer_step closing_writer c =
      some (record c { cw = close_writer c.cw; writer = gone })
  writer_closes_writer_step _ c = none

  -- `enqueue` of the read loop: it returns at once where the writer is closed.
  unfoldable pub answer : F → Connection F I → Connection F I
  answer f c = record c { reader = if c.cw.done then reading else replying f }

  -- A message that is not binary is answered and not processed.
  unfoldable pub read_message : Inbound I → Connection F I → Connection F I
  read_message (binary frame) c = record c {
    reader = processing frame;
    processed = c.processed ++ frame ∷ [];
  }
  read_message (other frame) c = answer reply c

  unfoldable pub reads_step : Reader F I → Inbound I → Connection F I → Option (Connection F I)
  reads_step reading m c = some (read_message m c)
  reads_step _ m c = none

  unfoldable pub read_fails_step : Reader F I → Connection F I → Option (Connection F I)
  read_fails_step reading c = some (record c { reader = closes_writer })
  read_fails_step _ c = none

  -- `processFrame` has nothing to answer, or answers with `f`.
  unfoldable pub frame_returns_step : Reader F I → Connection F I → Option (Connection F I)
  frame_returns_step (processing frame) c = some (record c { reader = reading })
  frame_returns_step _ c = none

  unfoldable pub replies_step : Reader F I → F → Connection F I → Option (Connection F I)
  replies_step (processing frame) f c = some (answer f c)
  replies_step _ f c = none

  -- The select of `enqueue` waits for room in the queue or for the end of the writer.
  unfoldable pub reply_sends_step : Reader F I → Connection F I → Option (Connection F I)
  reply_sends_step (replying f) c =
      if ltb (length c.cw.ch) c.cw.size
      then some (record c {
        cw = record c.cw { ch = c.cw.ch ++ f ∷ [] };
        reader = reading;
        accepted = c.accepted ++ f ∷ [];
      })
      else none
  reply_sends_step _ c = none

  unfoldable pub reply_refused_step : Reader F I → Connection F I → Option (Connection F I)
  reply_refused_step (replying f) c =
      if c.cw.done then some (record c { reader = reading }) else none
  reply_refused_step _ c = none

  unfoldable pub reader_closes_writer_step : Reader F I → Connection F I → Option (Connection F I)
  reader_closes_writer_step closes_writer c =
      some (record c { cw = close_writer c.cw; reader = closes_conn })
  reader_closes_writer_step _ c = none

  unfoldable pub reader_closes_conn_step : Reader F I → Connection F I → Option (Connection F I)
  reader_closes_conn_step closes_conn c = some (record c { conn_closed = true; reader = returned })
  reader_closes_conn_step _ c = none

  -- The pinger ends on an error, or once the writer is closed; a ping that is sent changes nothing.
  unfoldable pub ping_fails_step : Connection F I → Option (Connection F I)
  ping_fails_step c = if c.pinging then some (record c { pinging = false }) else none

  unfoldable pub pinger_stops_step : Connection F I → Option (Connection F I)
  pinger_stops_step c =
      if c.pinging then (if c.cw.done then some (record c { pinging = false }) else none) else none

  unfoldable pub step : Action F I → Connection F I → Option (Connection F I)
  step (enqueue f) c = some (enqueue_step f c)
  step (enqueue_sends n) c = enqueue_sends_step n c
  step (enqueue_refused n) c = enqueue_refused_step n c
  step writer_takes c = writer_takes_step c.writer c.cw.ch c
  step writer_stops c = writer_stops_step c.writer c
  step write_succeeds c = write_succeeds_step c.writer c
  step write_fails c = write_fails_step c.writer c
  step writer_closes_conn c = writer_closes_conn_step c.writer c
  step writer_closes_writer c = writer_closes_writer_step c.writer c
  step (reads m) c = reads_step c.reader m c
  step read_fails c = read_fails_step c.reader c
  step frame_returns c = frame_returns_step c.reader c
  step (replies f) c = replies_step c.reader f c
  step reply_sends c = reply_sends_step c.reader c
  step reply_refused c = reply_refused_step c.reader c
  step reader_closes_writer c = reader_closes_writer_step c.reader c
  step reader_closes_conn c = reader_closes_conn_step c.reader c
  step ping_fails c = ping_fails_step c
  step pinger_stops c = pinger_stops_step c

  unfoldable pub run : List (Action F I) → Connection F I → Option (Connection F I)
  run [] c = some c
  run (a ∷ rest) c = elim (step a c) [ none ↦ none | some c' ↦ run rest c' ]

  -- Every interleaving of a connection.
  pub data Reach : Connection F I → Type 0 where
    start : Reach (new_connection F I)
    next : {c c' : Connection F I} (a : Action F I) → Reach c → step a c ≡ some c' → Reach c'
