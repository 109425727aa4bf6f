-- ===== src/Trace.antt =====
-- go/internal/pionserver/trace.go: the slots of the per-channel counters. `DCIdx` gives a handle one
-- of sixteen slots and `ReleaseDC` takes it back. Both run under `t.mu`.
pub mod Counters
pub mod Slots
pub mod Stable
mod Tests
use flutter_pion_bridge.Prelude.{
  ℕ, suc, ◌+◌, ◌<◌, String, Bool, Option, none, some, List, [], ◌∷◌, Map, empty, get, put, delete,
  leb, ltb, if◌then◌else◌,
}

-- The head of `free_idx` is the end of the slice, where slots are pushed and popped.
pub record PionTrace : Type 0 where
  pub enabled : Bool
  pub dc_index : Map ℕ
  pub next_idx : ℕ
  pub free_idx : List ℕ

-- A slot for a handle that has none.
unfoldable pub fresh_slot : PionTrace → String → List ℕ → ℕ × PionTrace
fresh_slot t handle (idx ∷ rest) =
    (idx, record t { free_idx = rest; dc_index = put t.dc_index handle idx })
fresh_slot t handle [] =
    let idx = if leb 16 t.next_idx then 15 else t.next_idx in
    (idx, record t { next_idx = suc t.next_idx; dc_index = put t.dc_index handle idx })

unfoldable pub dc_idx : PionTrace → String → ℕ × PionTrace
unfolding fresh_slot
dc_idx t handle = elim (get t.dc_index handle) [
  | some idx ↦ (idx, t)
  | none ↦ fresh_slot t handle t.free_idx
]

unfoldable pub release_dc : PionTrace → String → PionTrace
release_dc t handle = elim (get t.dc_index handle) [
  | none ↦ t
  | some idx ↦ record t {
    dc_index = delete t.dc_index handle;
    free_idx = if ltb idx 15 then idx ∷ t.free_idx else t.free_idx;
  }
]

-- The calls that other components make, in the order in which they get the lock.
pub data Call : Type 0 where
  index release : String → Call

unfoldable pub step : PionTrace → Call → PionTrace
step t (index handle) = (dc_idx t handle).1
step t (release handle) = release_dc t handle

unfoldable pub run : PionTrace → List Call → PionTrace
run t [] = t
run t (c ∷ cs) = run (step t c) cs
