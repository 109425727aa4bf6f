-- ===== src/Trace/Counters.antt =====
-- The counters of go/internal/pionserver/trace.go and the goroutine of `StartTracing` that reports them. A step is one
-- atomic access, so whoever counts goes on while the goroutine reads.
pub mod Reports
pub mod Ticks
use flutter_pion_bridge.Prelude.{
  ℕ, zero, suc, ◌+◌, ◌-◌, ◌%◌, ◌^◌, Bool, true, false, ◌&&◌, List, [], ◌∷◌, ◌++◌, ◌=ℕ◌, ltb,
  if◌then◌else◌,
}

-- The slots of the per-channel counters are those of `dc_idx`.
pub data Counter : Type 0 where
  read_frames read_bytes write_frames write_bytes write_ns : Counter
  dc_frames dc_bytes dc_ns : ℕ → Counter

unfoldable pub same_counter : Counter → Counter → Bool
same_counter read_frames read_frames = true
same_counter read_bytes read_bytes = true
same_counter write_frames write_frames = true
same_counter write_bytes write_bytes = true
same_counter write_ns write_ns = true
same_counter (dc_frames i) (dc_frames j) = i =ℕ j
same_counter (dc_bytes i) (dc_bytes j) = i =ℕ j
same_counter (dc_ns i) (dc_ns j) = i =ℕ j
same_counter _ _ = false

-- An `int64` by its bits, which is how it is added and subtracted.
unfoldable pub add_int64 : ℕ → ℕ → ℕ
add_int64 a b = (a + b) % 2 ^ 64

unfoldable pub sub_int64 : ℕ → ℕ → ℕ
sub_int64 a b = (a + (2 ^ 64 - b)) % 2 ^ 64

-- The counters, `cur` and `prev` of the goroutine, and the differences of its rounds, of which it prints those
-- of the channels in use.
pub record Tracing : Type 0 where
  pub counts : Counter → ℕ
  pub cur : Counter → ℕ
  pub prev : Counter → ℕ
  pub lines : List (Counter → ℕ)

-- `cur.X - prev.X`
unfoldable pub delta : (Counter → ℕ) → (Counter → ℕ) → Counter → ℕ
delta cur prev c = sub_int64 (cur c) (prev c)

-- `atomic.AddInt64`, a load of `captureSnapshot`, and the end of a round of the loop.
pub data Event : Type 0 where
  adds : Counter → ℕ → Event
  loads : Counter → Event
  prints : Event

unfoldable pub trace_step : Event → Tracing → Tracing
trace_step (adds c n) t = record t {
  counts = λ d. if same_counter c d then add_int64 (t.counts d) n else t.counts d;
}
trace_step (loads c) t = record t { cur = λ d. if same_counter c d then t.counts d else t.cur d }
trace_step prints t = record t { lines = t.lines ++ delta t.cur t.prev ∷ []; prev = t.cur }

unfoldable pub trace_run : List Event → Tracing → Tracing
trace_run [] t = t
trace_run (a ∷ rest) t = trace_run rest (trace_step a t)

-- What a frame that was read, one that was written and a message that was sent add.
unfoldable pub count_read : ℕ → List Event
count_read len = adds read_frames 1 ∷ adds read_bytes len ∷ []

unfoldable pub count_write : ℕ → ℕ → List Event
count_write len ns = adds write_frames 1 ∷ adds write_bytes len ∷ adds write_ns ns ∷ []

unfoldable pub count_send : ℕ → ℕ → ℕ → List Event
count_send idx len ns = adds (dc_frames idx) 1 ∷ adds (dc_bytes idx) len ∷ adds (dc_ns idx) ns ∷ []

-- The loads of `captureSnapshot`, in their order.
unfoldable pub load_slots : ℕ → ℕ → List Event
load_slots i zero = []
load_slots i (suc n) =
    loads (dc_frames i) ∷ loads (dc_bytes i) ∷ loads (dc_ns i) ∷ load_slots (suc i) n

unfoldable pub capture_snapshot : List Event
capture_snapshot =
    loads read_frames ∷ loads read_bytes ∷ load_slots 0 16
    ++ (loads write_frames ∷ loads write_bytes ∷ loads write_ns ∷ [])

-- A round of the loop of `StartTracing`, without the steps that others take meanwhile.
unfoldable pub tick : List Event
tick = capture_snapshot ++ prints ∷ []

-- The slots of a printed line: `i < nDC && i < 16`.
unfoldable pub is_printed : ℕ → ℕ → Bool
is_printed next_idx i = ltb i next_idx && ltb i 16

-- A counter that there is.
unfoldable pub has_slot : Counter → Bool
has_slot (dc_frames i) = ltb i 16
has_slot (dc_bytes i) = ltb i 16
has_slot (dc_ns i) = ltb i 16
has_slot _ = true

-- The goroutine starts with a snapshot of the counters.
unfoldable pub start_goroutine : (Counter → ℕ) → Tracing
start_goroutine counts = record { counts = counts; cur = counts; prev = counts; lines = [] }
