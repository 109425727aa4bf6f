-- ===== src/DcSend.antt =====
-- go/internal/pionserver/dcsend.go with its users in handler.go: the queue between the read loops that
-- accept `dc:send` and the goroutine that sends, and its shutdown. One step is one atomic action of
-- one of them: a send or receive on the channel `work`, a poll of `done`, or a section under `cond.L`.
mod Counting
mod Accounting
mod Shutdown
mod Settling
mod Ordering
mod Tests
use flutter_pion_bridge.Prelude.{
  ℕ, zero, suc, ◌+◌, ◌-◌, ◌*◌, ◌<◌, ◌≤◌, ◌≡◌, ◌≢◌, refl, sym, ap, ◌∙◌, subst, String, ◌==◌, Bool,
  true, false, not, ◌&&◌, ◌||◌, Option, none, some, List, [], ◌∷◌, ◌++◌, map, Map, empty, get, put,
  delete, keys, length, length-append, elem, erase, elem-append, elem-erase_ne, elem-erase_self,
  erase_none, elem-erase_none, erase-IsDistinct, nil_of_no_elem, IsDistinct, ltb, leb, ◌=ℕ◌, =ℕ_iff,
  if◌then◌else◌, arith, eq_iff, eq_refl, get-put, get-delete, get-empty, length-delete-le,
  length-delete-lt, map_laws, Bool-cases, Option-cases, ◌⊎◌, inl, inr, ◌↔◌, All, All-append, ℤ, pos,
}
use flutter_pion_bridge.Types.{Message, field, str, end, error_response, ack_response, event}

pub record DcConfig : Type 0 where
  pub buffered_amount_low_threshold : ℕ
  pub send_queue_depth : ℕ

abbrev pub default_dc_config : DcConfig
default_dc_config = record { buffered_amount_low_threshold = 512 * 1024; send_queue_depth = 32 }

-- `send_event` is the session whose sink gets the response.
pub record DcSendWork : Type 0 where
  pub bytes : List ℕ
  pub text : String
  pub is_text : Bool
  pub msg_id : ℤ
  pub handle : String
  pub await_drain : Bool
  pub send_event : Option ℕ

-- The head of `work` is the next item to be received. `raw` is a detached stream, by identity.
pub record DcSendState : Type 0 where
  pub work : List DcSendWork
  pub capacity : ℕ
  pub done : Bool
  pub threshold : ℕ
  pub detach : Bool
  pub raw : Option ℕ

-- What `newDCSendState` returns where `make` takes the depth; where it panics there is no state, see
-- `start_with` of Handler.antt, which is its only caller.
unfoldable pub new_dc_send_state : DcConfig → Bool → DcSendState
new_dc_send_state cfg detach = record {
  work = [];
  capacity = cfg.send_queue_depth;
  done = false;
  threshold = cfg.buffered_amount_low_threshold;
  detach = detach;
  raw = none;
}

unfoldable pub set_detached : ℕ → DcSendState → DcSendState
set_detached raw s = record s { raw = some raw }

unfoldable pub detached : DcSendState → Option ℕ
detached s = s.raw

-- Where the goroutine of the channel is: at its select, in `doSend`, before a test of the buffered
-- amount, in `cond.Wait`, or gone.
pub data Sender : Type 0 where
  idle exited : Sender
  sending waiting parked : DcSendWork → Sender

-- The one call of `closeState` that runs: before it, after `close(done)`, after the broadcast, done.
pub data Closer : Type 0 where
  not_started closing draining finished : Closer

-- `pending` are the calls of `handleDCSend` before the select, `rechecking` counts those that have
-- enqueued and not yet polled `done` again. The log has the messages sent, with their session.
-- `issued`, `accepted`, `left` and `sent` record what was asked for, enqueued, received from the
-- channel by anybody, and received by the sender.
pub record System : Type 0 where
  pub state : DcSendState
  pub sender : Sender
  pub closer : Closer
  pub pending : List DcSendWork
  pub rechecking : ℕ
  pub log : List (ℕ × Message)
  pub issued : List DcSendWork
  pub accepted : List DcSendWork
  pub left : List DcSendWork
  pub sent : List DcSendWork

abbrev pub init : DcSendState → System
init s = record {
  state = s;
  sender = idle;
  closer = not_started;
  pending = [];
  rechecking = 0;
  log = [];
  issued = [];
  accepted = [];
  left = [];
  sent = [];
}

-- `if w.sendEvent != nil { w.sendEvent(m) }`
unfoldable pub emit : DcSendWork → Message → List (ℕ × Message) → List (ℕ × Message)
emit w m log = elim w.send_event [ none ↦ log | some session ↦ log ++ (session, m) ∷ [] ]

unfoldable pub closed_before : DcSendWork → Message
closed_before w =
    error_response w.msg_id "DC_CLOSED" "data channel closed before send" false w.handle

unfoldable pub closed_during : DcSendWork → Message
closed_during w =
    error_response w.msg_id "DC_CLOSED" "data channel closed during send" false w.handle

unfoldable pub send_error : DcSendWork → String → Message
send_error w err = error_response w.msg_id "DC_SEND_ERROR" err false w.handle

unfoldable pub error_event : DcSendWork → String → Message
error_event w err = event "event:dc:error" w.handle (some (field "error" (str err) end))

unfoldable pub sent_ack : DcSendWork → Message
sent_ack w = ack_response "dc:send" w.msg_id w.handle none

-- The caller at place `n`, and the others.
unfoldable pub pick : ℕ → List DcSendWork → Option (DcSendWork × List DcSendWork)
pick n [] = none
pick zero (w ∷ ws) = some (w, ws)
pick (suc n) (w ∷ ws) = elim (pick n ws) [ none ↦ none | some (v, rest) ↦ some (v, w ∷ rest) ]

-- Somebody receives the head of the channel and fails it.
abbrev pub fail_head : DcSendWork → List DcSendWork → System → System
fail_head w ws s = record s {
  state = record s.state { work = ws };
  left = s.left ++ w ∷ [];
  log = emit w (closed_before w) s.log;
}

abbrev pub wake : Sender → Sender
wake (parked w) = waiting w
wake x = x

pub data Action : Type 0 where
  issue : DcSendWork → Action
  enqueue refuse : ℕ → Action
  recheck take exit : Action
  send_fails : String → Action
  send_returns : Action
  check : ℕ → Action
  signal_low : Action
  set_threshold : ℕ → Action
  close_done broadcast drain : Action

-- `case state.work <- work`, while the channel has room.
unfoldable pub enqueue_step : ℕ → System → Option System
enqueue_step n s = elim (pick n s.pending) [
  | none ↦ none
  | some (w, rest) ↦
      if ltb (length s.state.work) s.state.capacity
      then some (record s {
        state = record s.state { work = s.state.work ++ w ∷ [] };
        pending = rest;
        rechecking = suc s.rechecking;
        accepted = s.accepted ++ w ∷ [];
      })
      else none
]

-- `case <-state.done`
unfoldable pub refuse_step : ℕ → System → Option System
refuse_step n s = elim (pick n s.pending) [
  | none ↦ none
  | some (w, rest) ↦
      if s.state.done
      then some (record s { pending = rest; log = emit w (closed_before w) s.log })
      else none
]

-- The poll after a successful enqueue: once closed, the caller reclaims one item, if one is there.
unfoldable pub reclaim : List DcSendWork → System → System
reclaim [] s = s
reclaim (w ∷ ws) s = fail_head w ws s

unfoldable pub recheck_step : ℕ → System → Option System
recheck_step zero s = none
recheck_step (suc n) s =
    let s' = record s { rechecking = n } in
    some (if s.state.done then reclaim s.state.work s' else s')

-- `case w := <-state.work` of the goroutine, which may be chosen after `done` is closed too.
unfoldable pub take_step : Sender → List DcSendWork → System → Option System
take_step idle (w ∷ ws) s = some (record s {
  state = record s.state { work = ws };
  sender = sending w;
  left = s.left ++ w ∷ [];
  sent = s.sent ++ w ∷ [];
})
take_step _ _ s = none

unfoldable pub exit_step : Sender → System → Option System
exit_step idle s = if s.state.done then some (record s { sender = exited }) else none
exit_step _ s = none

-- `runDCSend` after `doSend` has returned an error.
unfoldable pub send_fails_step : String → Sender → System → Option System
send_fails_step err (sending w) s =
    some (record s {
      sender = idle;
      log = emit w (error_event w err) (emit w (send_error w err) s.log);
    })
send_fails_step err _ s = none

-- `runDCSend` after `doSend` has returned nil.
unfoldable pub send_returns_step : Sender → System → Option System
send_returns_step (sending w) s = some (
    if w.await_drain
    then record s { sender = waiting w }
    else record s { sender = idle; log = emit w (sent_ack w) s.log })
send_returns_step _ s = none

-- One round of `waitForBuffer`, under `cond.L`, with pion's buffered amount.
unfoldable pub check_step : ℕ → Sender → System → Option System
check_step buffered (waiting w) s = some (
    if ltb s.state.threshold buffered
    then (if s.state.done
        then record s { sender = idle; log = emit w (closed_during w) s.log }
        else record s { sender = parked w })
    else record s { sender = idle; log = emit w (sent_ack w) s.log })
check_step buffered _ s = none

-- `signalLow` and `setThreshold` broadcast under `cond.L`.
unfoldable pub set_threshold_step : ℕ → System → System
set_threshold_step t s = record s {
  state = record s.state { threshold = t };
  sender = wake s.sender;
}

unfoldable pub close_done_step : Closer → System → Option System
close_done_step not_started s =
    some (record s { state = record s.state { done = true }; closer = closing })
close_done_step _ s = none

unfoldable pub broadcast_step : Closer → System → Option System
broadcast_step closing s = some (record s { closer = draining; sender = wake s.sender })
broadcast_step _ s = none

-- The loop of `closeState`: fail what is queued, and stop when the channel is empty.
unfoldable pub drain_step : Closer → List DcSendWork → System → Option System
drain_step draining (w ∷ ws) s = some (fail_head w ws s)
drain_step draining [] s = some (record s { closer = finished })
drain_step _ _ s = none

unfoldable pub step : Action → System → Option System
step (issue w) s = some (record s { pending = s.pending ++ w ∷ []; issued = s.issued ++ w ∷ [] })
step (enqueue n) s = enqueue_step n s
step (refuse n) s = refuse_step n s
step recheck s = recheck_step s.rechecking s
step take s = take_step s.sender s.state.work s
step exit s = exit_step s.sender s
step (send_fails err) s = send_fails_step err s.sender s
step send_returns s = send_returns_step s.sender s
step (check buffered) s = check_step buffered s.sender s
step signal_low s = some (record s { sender = wake s.sender })
step (set_threshold t) s = some (set_threshold_step t s)
step close_done s = close_done_step s.closer s
step broadcast s = broadcast_step s.closer s
step drain s = drain_step s.closer s.state.work s

-- Every interleaving from a new channel.
pub data Reach (s₀ : DcSendState) : System → Type 0 where
  start : Reach s₀ (init s₀)
  next : {s t : System} (a : Action) → Reach s₀ s → step a s ≡ some t → Reach s₀ t

unfoldable pub run : List Action → System → Option System
run [] s = some s
run (a ∷ rest) s = elim (step a s) [ none ↦ none | some t ↦ run rest t ]
