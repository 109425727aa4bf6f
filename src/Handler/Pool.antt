-- ===== src/Handler/Pool.antt =====
-- The pool of messages and the recovery from a panic around `processFrame` of go/internal/pionserver/server.go. The
-- decoder writes into the message that it is given; what it does there is an argument, and so is whether
-- a call of `HandleMessage` panics, and with which text and world.
pub mod Blank
use flutter_pion_bridge.Prelude.{
  ℕ, zero, suc, ℤ, pos, String, ◌==◌, Bool, true, false, Option, none, some, List, [], ◌∷◌,
  if◌then◌else◌, ◌≡◌, refl, ap, ◌∙◌, arith, eq_iff, eq_refl, All, Option-cases, inl, inr,
  Bool-cases,
}
use flutter_pion_bridge.Types.{Value, Fields, field, end, Message, blank, error_response}
use flutter_pion_bridge.Result.{Result, failed, ok}
use flutter_pion_bridge.Session.{pick}
use flutter_pion_bridge.Handler.{Draw, Env, World}
use flutter_pion_bridge.Handler.Dispatch.{process_frame}

-- `delete(m.Data, k)`
unfoldable pub without_field : String → Fields → Fields
without_field k end = end
without_field k (field j v fs) =
    let rest = without_field k fs in if j == k then rest else field j v rest

unfoldable pub field_names : Fields → List String
field_names end = []
field_names (field k v fs) = k ∷ field_names fs

unfoldable pub delete_each : List String → Fields → Fields
delete_each [] fs = fs
delete_each (k ∷ ks) fs = delete_each ks (without_field k fs)

-- `putMessage`: the loop deletes every key of the map.
unfoldable pub put_message : Message → List Message → List Message
put_message m pool =
    record {
      type = "";
      id = pos 0;
      handle = "";
      fields = delete_each (field_names m.fields) m.fields;
    }
    ∷ pool

abbrev taken : Option (Message × List Message) → List Message → Message × List Message
taken none pool = (blank, pool)
taken (some found) pool = found

-- `getMessage`: any message of the pool, or a new one.
unfoldable pub get_message : ℕ → List Message → Message × List Message
get_message n pool = taken (pick n pool) pool

-- A frame with the message from the pool that it gets, and what the decoder makes of it.
pub record Arrival : Type 0 where
  pub choice : ℕ
  pub draw : Draw
  pub bytes : List ℕ

module _ {S Api : Type 0} (env : Env S Api) (unmarshal : List ℕ → Message → Option String × Message)
    (panics : Draw → Message → World S Api → Option (String × World S Api)) where
  abbrev decoded : Option String × Message → Result String Message
  decoded (some err, m) = failed err
  decoded (none, m) = ok m

  unfoldable pub recovered :
      Draw
      → Message
      → World S Api
      → Option (String × World S Api)
      → Option (List Message × World S Api)
  recovered draw msg w (some (text, w')) =
      some (error_response (pos 0) "FATAL_PANIC" text true "" ∷ [], w')
  recovered draw msg w none = process_frame env draw (ok msg) w

  -- `processFrame` on the message that it got, with what it leaves in the message.
  unfoldable pub process_into :
      Draw → Option String × Message → World S Api → Option (List Message × World S Api)
  process_into draw (some err, m) w = process_frame env draw (failed err) w
  process_into draw (none, m) w = recovered draw m w (panics draw m w)

  -- The deferred `putMessage` runs on every path, a panic included.
  unfoldable pub process_pooled :
      Arrival → List Message → World S Api → Option (List Message × World S Api) × List Message
  process_pooled a pool w =
      let got = get_message a.choice pool in
      let done = unmarshal a.bytes got.0 in (process_into a.draw done w, put_message done.1 got.1)

  abbrev then_with :
      Option (List Message × World S Api)
      → (World S Api → Option (List (List Message) × World S Api))
      → Option (List (List Message) × World S Api)
  then_with none k = none
  then_with (some (ms, w)) k = elim (k w) [ none ↦ none | some (rest, w') ↦ some (ms ∷ rest, w') ]

  -- Frames one after the other, whichever sessions they are of.
  unfoldable pub serve :
      List Arrival → List Message → World S Api → Option (List (List Message) × World S Api)
  serve [] pool w = some ([], w)
  serve (a ∷ rest) pool w = let out = process_pooled a pool w in then_with out.0 (serve rest out.1)

  -- The same with a new message for each frame.
  unfoldable pub serve_new : List Arrival → World S Api → Option (List (List Message) × World S Api)
  serve_new [] w = some ([], w)
  serve_new (a ∷ rest) w =
      then_with (process_into a.draw (unmarshal a.bytes blank) w) (serve_new rest)
