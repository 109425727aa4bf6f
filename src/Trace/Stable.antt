-- ===== src/Trace/Stable.antt =====
-- What callers of `DCIdx` and `ReleaseDC` in trace.go may rely on.
use flutter_pion_bridge.Prelude.{
  ℕ, ◌<◌, ◌≡◌, refl, String, ◌==◌, false, none, some, List, [], ◌∷◌, get, if◌then◌else◌, arith,
  eq_iff, get-put, get-delete, Option-cases, inl, inr, All,
}
use flutter_pion_bridge.Trace.{
  PionTrace, fresh_slot, dc_idx, release_dc, Call, index, release, step, run,
}
use flutter_pion_bridge.Trace.Slots.{IsTracked}
use flutter_pion_bridge.Trace.Slots.Counting.{used, mem}

fresh_slot-get :
    (t : PionTrace) (h k : String) (free : List ℕ)
    → get (fresh_slot t h free).1.dc_index k
      ≡ (if h == k then some (fresh_slot t h free).0 else get t.dc_index k)
unfolding fresh_slot
fresh_slot-get t h k [] = get-put t.dc_index h k _
fresh_slot-get t h k (idx ∷ rest) = get-put t.dc_index h k idx

-- After `DCIdx h` the handle `h` holds the slot that was returned, and every other handle holds
-- what it held before.
pub get-dc_idx :
    (t : PionTrace) (h k : String)
    → get (dc_idx t h).1.dc_index k ≡ (if h == k then some (dc_idx t h).0 else get t.dc_index k)
unfolding dc_idx
get-dc_idx t h k = elim (Option-cases (get t.dc_index h)) [
  | inl new ↦ rw (new, dc_idx) (fresh_slot-get t h k t.free_idx)
  | inr (idx, old) ↦ rw (old, dc_idx) (ground (arith, eq_iff h k))
]

get-release_dc :
    (t : PionTrace) (h k : String)
    → get (release_dc t h).dc_index k ≡ (if h == k then none else get t.dc_index k)
unfolding release_dc
get-release_dc t h k = ground (arith, get-delete t.dc_index h k, eq_iff h k)

dc_idx_held :
    (t : PionTrace) (h : String) (idx : ℕ) → get t.dc_index h ≡ some idx → (dc_idx t h).0 ≡ idx
unfolding dc_idx
dc_idx_held t h idx e = rw (e, dc_idx)

abbrev pub Spares : String → Call → Type 0
Spares h (index k) = Unit
Spares h (release k) = (k == h) ≡ false

-- A handle keeps its slot through any calls that do not release it.
pub run_keeps :
    (h : String) (idx : ℕ) (cs : List Call) (t : PionTrace)
    → get t.dc_index h ≡ some idx
    → All (Spares h) cs
    → get (run t cs).dc_index h ≡ some idx
unfolding run step
run_keeps h idx [] t e s = e
run_keeps h idx (index k ∷ cs) t e s =
    run_keeps h idx cs (dc_idx t k).1
      (ground (arith, get-dc_idx t k h, eq_iff k h, dc_idx_held t h idx e)) s.1
run_keeps h idx (release k ∷ cs) t e s =
    run_keeps h idx cs (release_dc t k) (ground (arith, get-release_dc t k h)) s.1

fresh_slot_own :
    (t : PionTrace) (h : String)
    → IsTracked t
    → (free : List ℕ) → t.free_idx ≡ free
    → used t.dc_index < 15
    → (fresh_slot t h free).0 < 15
unfolding fresh_slot mem
fresh_slot_own t h v [] e room = ground (arith, v.conserved)
fresh_slot_own t h v (idx ∷ rest) e room = ground (arith, v.spare idx)

-- While fewer than fifteen slots below 15 are in use, a handle without a slot gets one below 15.
pub dc_idx_own :
    (t : PionTrace) (h : String)
    → IsTracked t
    → get t.dc_index h ≡ none
    → used t.dc_index < 15
    → (dc_idx t h).0 < 15
unfolding dc_idx
dc_idx_own t h v new room = rw (new, dc_idx) (fresh_slot_own t h v t.free_idx refl room)

-- A slot below 15 that is released is the next one to be given to a handle that has none.
pub dc_idx-release_dc :
    (t : PionTrace) (h k : String) (idx : ℕ)
    → get t.dc_index h ≡ some idx
    → idx < 15
    → (h == k) ≡ false
    → get t.dc_index k ≡ none
    → (dc_idx (release_dc t h) k).0 ≡ idx
unfolding dc_idx fresh_slot release_dc
dc_idx-release_dc t h k idx held low other new = ground (arith, get-delete t.dc_index h k)
