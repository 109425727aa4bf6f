-- ===== src/Trace/Tests.antt =====
-- The model of trace.go on a few handles.
use flutter_pion_bridge.Prelude.{
  ◌⊎◌, ℕ, ◌+◌, ◌%◌, ◌^◌, ◌<◌, ◌≡◌, ◌≢◌, refl, String, true, some, none, List, [], ◌∷◌, get, put,
  delete, arith,
}
use flutter_pion_bridge.Trace.{
  PionTrace, fresh_slot, dc_idx, release_dc, Call, index, release, step, run,
}
use flutter_pion_bridge.Trace.Slots.{start, run-apart}
use flutter_pion_bridge.Trace.Slots.Counting.{mem, DistinctSlots}
use flutter_pion_bridge.Trace.Stable.{dc_idx-release_dc}
use flutter_pion_bridge.Trace.Counters.{
  Counter, dc_bytes, Tracing, Event, adds, loads, prints, trace_step, trace_run, tick, has_slot,
  start_goroutine,
}
use flutter_pion_bridge.Trace.Counters.Reports.{added, told, Earlier, starts, goes}
use flutter_pion_bridge.Trace.Counters.Ticks.{lines_add_up}

abbrev calls : List Call
calls = index "a" ∷ index "b" ∷ release "a" ∷ index "c" ∷ []

abbrev traced : PionTrace
traced = run (start true) calls

slots : (get traced.dc_index "b" ≡ some 1) × (get traced.dc_index "c" ≡ some 0)
unfolding run step dc_idx fresh_slot release_dc get put delete
slots = (refl, refl)

run-apart_example :
    ((h k : String) (i : ℕ)
      → get traced.dc_index h ≡ some i
      → get traced.dc_index k ≡ some i
      → i < 15
      → h ≡ k)
    × ((h : String) (i : ℕ) → mem i traced.free_idx ≡ true → get traced.dc_index h ≢ some i)
    × DistinctSlots traced.free_idx
    × ((i : ℕ)
        → i < 15
        → i < traced.next_idx
        → (mem i traced.free_idx ≡ true) ⊎ ((h : String) × (get traced.dc_index h ≡ some i)))
run-apart_example = run-apart true calls

dc_idx-release_dc_example : (dc_idx (release_dc traced "b") "d").0 ≡ 1
dc_idx-release_dc_example = dc_idx-release_dc traced "b" "d" 1 slots.0 (omega arith) refl free
  where
    free : get traced.dc_index "d" ≡ none
    free = unfold run step dc_idx fresh_slot release_dc get put delete in refl

-- The goroutine of a channel counts one more item after the channel has been deleted.
late-index : get (run traced (release "b" ∷ index "b" ∷ [])).dc_index "b" ≡ some 1
unfolding run step dc_idx fresh_slot release_dc get put delete
late-index = refl

-- A message of seven bytes on channel 1, a report, and one of two bytes.
abbrev no_counts : Counter → ℕ
no_counts c = 0

abbrev reported : Tracing
reported =
    trace_step prints (
      trace_step (loads (dc_bytes 1))
        (trace_step (adds (dc_bytes 1) 7) (start_goroutine no_counts)))

abbrev happened : List Event
happened = adds (dc_bytes 1) 2 ∷ prints ∷ loads (dc_bytes 1) ∷ adds (dc_bytes 1) 7 ∷ []

lines_add_up_example :
    ((old : List Event) × (Earlier happened old)
      × ((0 + told (dc_bytes 1) (trace_step (adds (dc_bytes 1) 2) reported).lines) % 2 ^ 64
          ≡ (0 + added (dc_bytes 1) old) % 2 ^ 64))
    × ((0 + told (dc_bytes 1) (trace_run tick (trace_step (adds (dc_bytes 1) 2) reported)).lines)
          % 2 ^ 64
        ≡ (0 + added (dc_bytes 1) happened) % 2 ^ 64)
lines_add_up_example =
    lines_add_up no_counts (dc_bytes 1) happened (trace_step (adds (dc_bytes 1) 2) reported)
      (omega arith) (unfold has_slot in refl)
      (goes (adds (dc_bytes 1) 2)
        (goes prints (goes (loads (dc_bytes 1)) (goes (adds (dc_bytes 1) 7) starts))))
