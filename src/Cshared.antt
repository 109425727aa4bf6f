-- ===== src/Cshared.antt =====
-- go/cshared/cshared.go: the table of sessions behind the exported C functions. A session is a pointer, its
-- place in `heap`; one step is a section under `mu`, the first poll of `Push`, or an action of a session.
mod Ids
pub mod Spent
mod Tests
use flutter_pion_bridge.Prelude.{
  ◌≡◌, ℕ, ℤ, pos, negsuc, zero, suc, ◌%◌, ◌^◌, Bool, true, false, Option, none, some, List, [], ◌∷◌,
  ◌++◌, length, ◌=ℕ◌, if◌then◌else◌,
}
use flutter_pion_bridge.Session.{
  FrameSession, new_frame_session, pick, Action, push, push_sends, push_refused, close_begins,
  push_step,
}
use flutter_pion_bridge.Session as Session

-- `int64`, by its bits.
abbrev pub int64 : ℕ → ℕ
int64 n = n % 2 ^ 64

-- `sending` and `closing` have the calls that have looked their session up and not used it yet.
pub record Bridge (F : Type 0) : Type 0 where
  pub server : Bool
  pub next_id : ℕ
  pub sessions : List (ℕ × ℕ)
  pub heap : List (FrameSession F)
  pub sending : List (ℕ × F)
  pub closing : List ℕ

abbrev pub new_bridge : (F : Type 0) → Bridge F
new_bridge F = record {
  server = false;
  next_id = 1;
  sessions = [];
  heap = [];
  sending = [];
  closing = [];
}

unfoldable pub find : ℕ → List (ℕ × ℕ) → Option ℕ
find id [] = none
find id ((j, p) ∷ m) = if j =ℕ id then some p else find id m

unfoldable pub drop : ℕ → List (ℕ × ℕ) → List (ℕ × ℕ)
drop id [] = []
drop id ((j, p) ∷ m) = let rest = drop id m in if j =ℕ id then rest else (j, p) ∷ rest

unfoldable pub get_elem? : {A : Type 0} → List A → ℕ → Option A
get_elem? [] n = none
get_elem? (x ∷ xs) zero = some x
get_elem? (x ∷ xs) (suc n) = get_elem? xs n

unfoldable pub set_elem : {A : Type 0} → ℕ → A → List A → List A
set_elem n y [] = []
set_elem zero y (x ∷ xs) = y ∷ xs
set_elem (suc n) y (x ∷ xs) = x ∷ set_elem n y xs

pub data Call (F : Type 0) : Type 0 where
  opens : Call F
  send_looks : ℕ → F → Call F
  send_pushes close_runs close_looks : ℕ → Call F
  session_moves : ℕ → Action F → Call F

module _ {F : Type 0} where
  -- `PionBridgeOpen`: the id that it returns, and `ensureServer` on the way.
  unfoldable pub pion_bridge_open : Bridge F → ℕ × Bridge F
  pion_bridge_open b = (
    b.next_id,
    record b {
      server = true;
      next_id = int64 (suc b.next_id);
      sessions = (b.next_id, length b.heap) ∷ drop b.next_id b.sessions;
      heap = b.heap ++ new_frame_session F ∷ [];
    },
  )

  -- `PionBridgeSend` up to `Push`, with its result where it returns.
  unfoldable pub pion_bridge_send : ℕ → F → Bridge F → Option ℤ × Bridge F
  pion_bridge_send id frame b = elim (find id b.sessions) [
    | none ↦ (some (negsuc 0), b)
    | some p ↦ (none, record b { sending = b.sending ++ (p, frame) ∷ [] })
  ]

  unfoldable pub update :
      ℕ → (FrameSession F → Option (FrameSession F)) → Bridge F → Option (Bridge F)
  update p f b = elim (get_elem? b.heap p) [
    | none ↦ none
    | some s ↦ elim (f s) [ none ↦ none | some t ↦ some (record b { heap = set_elem p t b.heap }) ]
  ]

  -- `fs.Push`, from its first poll.
  unfoldable pub send_pushes_step : ℕ → Bridge F → Option (Bridge F)
  send_pushes_step n b = elim (pick n b.sending) [
    | none ↦ none
    | some ((p, frame), rest) ↦ update p (Session.step (push frame)) (record b { sending = rest })
  ]

  -- The rest of the call: 0 where the frame is queued, -1 where the session is closed.
  unfoldable pub result_of : Action F → Option ℤ
  result_of (push_sends n) = some (pos 0)
  result_of (push_refused n) = some (negsuc 0)
  result_of a = none

  -- Calls and `Close` start in this file only.
  unfoldable pub is_own : Action F → Bool
  is_own (push frame) = false
  is_own close_begins = false
  is_own a = true

  unfoldable pub session_moves_step : ℕ → Action F → Bridge F → Option (Bridge F)
  session_moves_step p a b = if is_own a then update p (Session.step a) b else none

  -- `PionBridgeClose` up to `Close`; an unknown id returns at once.
  unfoldable pub pion_bridge_close : ℕ → Bridge F → Bridge F
  pion_bridge_close id b = elim (find id b.sessions) [
    | none ↦ record b { sessions = drop id b.sessions }
    | some p ↦ record b { sessions = drop id b.sessions; closing = b.closing ++ p ∷ [] }
  ]

  unfoldable pub close_runs_step : ℕ → Bridge F → Option (Bridge F)
  close_runs_step n b = elim (pick n b.closing) [
    | none ↦ none
    | some (p, rest) ↦ update p (Session.step close_begins) (record b { closing = rest })
  ]

  unfoldable pub step : Call F → Bridge F → Option (Bridge F)
  step opens b = some (pion_bridge_open b).1
  step (send_looks id frame) b = some (pion_bridge_send id frame b).1
  step (send_pushes n) b = send_pushes_step n b
  step (session_moves p a) b = session_moves_step p a b
  step (close_looks id) b = some (pion_bridge_close id b)
  step (close_runs n) b = close_runs_step n b

  unfoldable pub run : List (Call F) → Bridge F → Option (Bridge F)
  run [] b = some b
  run (c ∷ rest) b = elim (step c b) [ none ↦ none | some b' ↦ run rest b' ]

-- Every interleaving of the callers and the sessions.
pub data Reach {F : Type 0} : Bridge F → Type 0 where
  start : Reach (new_bridge F)
  next : {b b' : Bridge F} (c : Call F) → Reach b → step c b ≡ some b' → Reach b'
