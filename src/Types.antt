-- ===== src/Types.antt =====
-- go/internal/pionserver/types.go: messages and the three ways to build one. `Data` is a decoded
-- msgpack map; a value keeps the Go type that the decoder gave it, since handlers switch on it.
use flutter_pion_bridge.Prelude.{
  ℕ, ℤ, pos, String, ◌+++◌, ◌==◌, Bool, Option, none, some, List, if◌then◌else◌,
}

mutual
  -- `interface{}`. Floats are their bit patterns; a byte slice is the list of its bytes.
  pub data Value : Type 0 where
    null : Value
    bool : Bool → Value
    int int8 int16 int32 int64 : ℤ → Value
    uint uint8 uint16 uint32 uint64 : ℕ → Value
    float32 float64 : ℕ → Value
    str : String → Value
    bin : List ℕ → Value
    arr : Values → Value
    obj : Fields → Value

  -- `[]interface{}`
  pub data Values : Type 0 where
    nil : Values
    cons : Value → Values → Values

  -- `map[string]interface{}`; a nil map reads as an empty one.
  pub data Fields : Type 0 where
    end : Fields
    field : String → Value → Fields → Fields

-- `data[k]`: a missing key reads as nil.
unfoldable pub at : Fields → String → Value
at end k = null
at (field j v fs) k = if j == k then v else at fs k

-- The comma-ok type assertions of the handlers.
abbrev pub as_string : Value → Option String
as_string (str s) = some s
as_string _ = none

abbrev pub as_bool : Value → Option Bool
as_bool (bool b) = some b
as_bool _ = none

abbrev pub as_map : Value → Option Fields
as_map (obj fs) = some fs
as_map _ = none

abbrev pub as_list : Value → Option Values
as_list (arr vs) = some vs
as_list _ = none

-- `v, _ := x.(string)`: the zero value when the assertion fails.
abbrev pub string_or_empty : Value → String
string_or_empty (str s) = s
string_or_empty _ = ""

pub record Message : Type 0 where
  pub type : String
  pub id : ℤ
  pub handle : String
  pub fields : Fields

-- `Message{}`
abbrev pub blank : Message
blank = record { type = ""; id = pos 0; handle = ""; fields = end }

unfoldable pub error_response : ℤ → String → String → Bool → String → Message
error_response id code message fatal handle =
    let base = λ (rest : Fields).
      field "code" (str code) (field "message" (str message) (field "fatal" (bool fatal) rest)) in
    record {
      type = "error";
      id = id;
      handle = "";
      fields = if handle == "" then base end else base (field "handle" (str handle) end);
    }

abbrev or_empty : Option Fields → Fields
or_empty none = end
or_empty (some fs) = fs

unfoldable pub ack_response : String → ℤ → String → Option Fields → Message
ack_response req_type id handle fields = record {
  type = req_type +++ ":ack";
  id = id;
  handle = handle;
  fields = or_empty fields;
}

unfoldable pub event : String → String → Option Fields → Message
event event_type handle fields = record {
  type = event_type;
  id = pos 0;
  handle = handle;
  fields = or_empty fields;
}
