-- ===== src/Trace/Slots.antt =====
-- The slot invariant of trace.go: below the shared slot 15 no slot is in use twice, and none is lost.
pub mod Counting
use flutter_pion_bridge.Prelude.{
  Bool-cases, ◌⊎◌, ℕ, ◌+◌, ◌<◌, ◌≤◌, ◌≡◌, ◌≢◌, refl, min, String, ◌==◌, Bool, true, false, ◌||◌,
  none, some, List, [], ◌∷◌, Map, empty, get, put, delete, keys, elem, IsDistinct, length, leb, ltb,
  ◌=ℕ◌, =ℕ_iff, if◌then◌else◌, arith, eq_iff, get-put, get-delete, Option-cases, inl, inr,
}
use flutter_pion_bridge.Trace.{
  PionTrace, fresh_slot, dc_idx, release_dc, Call, index, release, step, run,
}
use flutter_pion_bridge.Trace.Slots.Counting.{
  used, mem, DistinctSlots, keys-put-IsDistinct, keys-delete-IsDistinct, used-put, used-delete,
}

pub record IsTracked (t : PionTrace) : Type 0 where
  pub keyed : IsDistinct (keys t.dc_index)
  pub bounded : (h : String) (i : ℕ) → get t.dc_index h ≡ some i → (i ≤ 15) × (i < t.next_idx)
  pub apart :
      (h k : String) (i : ℕ)
      → get t.dc_index h ≡ some i
      → get t.dc_index k ≡ some i
      → i < 15
      → h ≡ k
  pub spare : (i : ℕ) → mem i t.free_idx ≡ true → (i < 15) × (i < t.next_idx)
  pub unused : (h : String) (i : ℕ) → mem i t.free_idx ≡ true → get t.dc_index h ≢ some i
  pub spares : DistinctSlots t.free_idx
  pub covered :
      (i : ℕ)
      → i < 15
      → i < t.next_idx
      → (mem i t.free_idx ≡ true) ⊎ ((h : String) × (get t.dc_index h ≡ some i))
  pub conserved : used t.dc_index + length t.free_idx ≡ min t.next_idx 15

abbrev pub start : Bool → PionTrace
start on = record { enabled = on; dc_index = empty; next_idx = 0; free_idx = [] }

pub start-IsTracked : (on : Bool) → IsTracked (start on)
unfolding get keys mem used
start-IsTracked on = record {
  keyed = tt;
  bounded = λ h i e. ground arith;
  apart = λ h k i e f l. ground arith;
  spare = λ i e. ground arith;
  unused = λ h i e. ground arith;
  spares = tt;
  covered = λ i l n. absurd (omega (arith, n));
  conserved = omega arith;
}

-- A handle without a slot is given `idx`.
module _ (t : PionTrace) (handle : String) (new : get t.dc_index handle ≡ none)
    (v : IsTracked t) where
  fresh_reuse-IsTracked :
      (idx : ℕ) (rest : List ℕ)
      → t.free_idx ≡ idx ∷ rest
      → IsTracked (fresh_slot t handle (idx ∷ rest)).1
  unfolding fresh_slot mem
  fresh_reuse-IsTracked idx rest e = record {
    keyed = keys-put-IsDistinct t.dc_index handle idx v.keyed;
    bounded = λ h i q. ground (arith, get-put t.dc_index handle h idx, v.bounded h i, v.spare idx);
    apart = λ h k i q r l. ground (
      arith,
      get-put t.dc_index handle h idx,
      get-put t.dc_index handle k idx,
      eq_iff handle h,
      eq_iff handle k,
      v.apart h k i,
      v.unused h i,
      v.unused k i,
    );
    spare = λ i q. ground (arith, v.spare i);
    unused = λ h i q r. ground (arith, get-put t.dc_index handle h idx, v.unused h i, v.spares);
    spares = ground (arith, v.spares);
    covered = λ i l n. elim (Bool-cases (idx =ℕ i)) [
      | inl same ↦ inr (
        handle,
        ground
            (arith, same, =ℕ_iff idx i, get-put t.dc_index handle handle idx, eq_iff handle handle),
      )
      | inr other ↦ elim (v.covered i l n) [
        | inl free ↦ inl (ground (arith, free, e, other))
        | inr (h, held) ↦
            inr (h, ground (arith, held, new, get-put t.dc_index handle h idx, eq_iff handle h))
      ]
    ];
    conserved = ground (arith, used-put t.dc_index handle idx new, v.conserved, v.spare idx);
  }

  fresh_grow-IsTracked : t.free_idx ≡ [] → IsTracked (fresh_slot t handle []).1
  unfolding fresh_slot mem
  fresh_grow-IsTracked e = record {
    keyed = keys-put-IsDistinct t.dc_index handle slot v.keyed;
    bounded = λ h i q. ground (arith, get-put t.dc_index handle h slot, v.bounded h i);
    apart = λ h k i q r l. ground (
      arith,
      get-put t.dc_index handle h slot,
      get-put t.dc_index handle k slot,
      eq_iff handle h,
      eq_iff handle k,
      v.apart h k i,
      v.bounded h i,
      v.bounded k i,
    );
    spare = λ i q. ground arith;
    unused = λ h i q r. ground arith;
    spares = ground arith;
    covered = λ i l n. elim (Bool-cases (t.next_idx =ℕ i)) [
      | inl same ↦ inr (
        handle,
        ground (
          arith,
          l,
          same,
          =ℕ_iff t.next_idx i,
          get-put t.dc_index handle handle slot,
          eq_iff handle handle,
        ),
      )
      | inr other ↦ elim (v.covered i l (ground (arith, n, other, =ℕ_iff t.next_idx i))) [
        | inl free ↦ absurd (ground (arith, free, e))
        | inr (h, held) ↦
            inr (h, ground (arith, held, new, get-put t.dc_index handle h slot, eq_iff handle h))
      ]
    ];
    conserved = ground (arith, used-put t.dc_index handle slot new, v.conserved);
  }
    where
      slot : ℕ
      slot = if leb 16 t.next_idx then 15 else t.next_idx

fresh_slot-IsTracked :
    (t : PionTrace) (handle : String) (free : List ℕ)
    → t.free_idx ≡ free
    → get t.dc_index handle ≡ none
    → IsTracked t
    → IsTracked (fresh_slot t handle free).1
fresh_slot-IsTracked t handle [] e new v = fresh_grow-IsTracked t handle new v e
fresh_slot-IsTracked t handle (idx ∷ rest) e new v = fresh_reuse-IsTracked t handle new v idx rest e

pub dc_idx-IsTracked :
    (t : PionTrace) (handle : String) → IsTracked t → IsTracked (dc_idx t handle).1
unfolding dc_idx
dc_idx-IsTracked t handle v = elim (Option-cases (get t.dc_index handle)) [
  | inl new ↦ rw (new, dc_idx) (fresh_slot-IsTracked t handle t.free_idx refl new v)
  | inr (idx, old) ↦ rw (old, dc_idx) v
]

release_some-IsTracked :
    (t : PionTrace) (handle : String) (idx : ℕ)
    → get t.dc_index handle ≡ some idx
    → IsTracked t
    → IsTracked (release_dc t handle)
unfolding release_dc mem
release_some-IsTracked t handle idx e v =
    rw (e, release_dc)
      (record {
        keyed = keys-delete-IsDistinct t.dc_index handle v.keyed;
        bounded = λ h i q. ground (arith, get-delete t.dc_index handle h, v.bounded h i);
        apart = λ h k i q r l.
            ground (
              arith,
              get-delete t.dc_index handle h,
              get-delete t.dc_index handle k,
              v.apart h k i,
            );
        spare = λ i q. ground (arith, v.spare i, v.bounded handle i, =ℕ_iff idx i);
        unused = λ h i q r. ground (
          arith,
          get-delete t.dc_index handle h,
          v.unused h i,
          v.apart handle h i,
          eq_iff handle h,
          =ℕ_iff idx i,
        );
        spares = ground (arith, v.spares, v.unused handle idx);
        covered = λ i l n. elim (v.covered i l n) [
          | inl free ↦ inl (ground (arith, free))
          | inr (h, held) ↦ elim (Bool-cases (handle == h)) [
            | inl same ↦ inl (ground (arith, l, held, e, same, eq_iff handle h, =ℕ_iff idx i))
            | inr other ↦
                inr
                  (h, ground (arith, held, other, eq_iff handle h, get-delete t.dc_index handle h))
          ]
        ];
        conserved = ground (arith, used-delete t.dc_index handle idx v.keyed e, v.conserved);
      })

pub release_dc-IsTracked :
    (t : PionTrace) (handle : String) → IsTracked t → IsTracked (release_dc t handle)
unfolding release_dc
release_dc-IsTracked t handle v = elim (Option-cases (get t.dc_index handle)) [
  | inl new ↦ rw (new, release_dc) v
  | inr (idx, old) ↦ release_some-IsTracked t handle idx old v
]

pub run-IsTracked : (t : PionTrace) (cs : List Call) → IsTracked t → IsTracked (run t cs)
unfolding run step
run-IsTracked t [] v = v
run-IsTracked t (index h ∷ cs) v = run-IsTracked (dc_idx t h).1 cs (dc_idx-IsTracked t h v)
run-IsTracked t (release h ∷ cs) v = run-IsTracked (release_dc t h) cs (release_dc-IsTracked t h v)

-- After any sequence of `DCIdx` and `ReleaseDC` calls from an empty trace, two handles that hold the
-- same slot below 15 are the same handle, no slot on the free list is held by a handle or stands there
-- twice, and every slot below 15 that was ever given out is held by a handle, which may be one that
-- was deleted and then indexed again, or is on the free list.
pub run-apart :
    (on : Bool) (cs : List Call)
    → ((h k : String) (i : ℕ)
        → get (run (start on) cs).dc_index h ≡ some i
        → get (run (start on) cs).dc_index k ≡ some i
        → i < 15
        → h ≡ k)
      × ((h : String) (i : ℕ)
          → mem i (run (start on) cs).free_idx ≡ true
          → get (run (start on) cs).dc_index h ≢ some i)
      × DistinctSlots (run (start on) cs).free_idx
      × ((i : ℕ)
          → i < 15
          → i < (run (start on) cs).next_idx
          → (mem i (run (start on) cs).free_idx ≡ true)
            ⊎ ((h : String) × (get (run (start on) cs).dc_index h ≡ some i)))
run-apart on cs =
    let v = run-IsTracked (start on) cs (start-IsTracked on) in
    (v.apart, v.unused, v.spares, v.covered)
