-- ===== src/Trace/Counters/Ticks.antt =====
-- A round of the loop of `StartTracing` in go/internal/pionserver/trace.go brings its reports up to date.
use flutter_pion_bridge.Prelude.{
  ℕ, zero, suc, ◌+◌, ◌%◌, ◌^◌, ◌<◌, ◌≤◌, ◌≡◌, refl, sym, ap, ◌∙◌, Bool, true, false, ◌||◌, List, [],
  ◌∷◌, ◌++◌, ◌=ℕ◌, =ℕ_iff, if◌then◌else◌, arith, Bool-cases, inl, inr, ltb, String, get, some,
}
use flutter_pion_bridge.Trace.{PionTrace}
use flutter_pion_bridge.Trace.Slots.{IsTracked}
use flutter_pion_bridge.Trace.Counters.{
  Counter, read_frames, read_bytes, write_frames, write_bytes, write_ns, dc_frames, dc_bytes, dc_ns,
  same_counter, Tracing, Event, adds, loads, prints, trace_step, trace_run, load_slots,
  capture_snapshot, tick, has_slot, is_printed,
}
use flutter_pion_bridge.Trace.Counters.Reports.{
  added, told, Earlier, now, Earlier-trans, Traces, IsReported, prints-IsReported,
  Traces-IsReported,
}

unfoldable loads_in : List Event → Counter → Bool
loads_in [] d = false
loads_in (loads c ∷ rest) d = same_counter c d || loads_in rest d
loads_in (_ ∷ rest) d = loads_in rest d

unfoldable only_loads : List Event → Bool
only_loads [] = true
only_loads (loads c ∷ rest) = only_loads rest
only_loads (_ ∷ rest) = false

-- What loads leave.
record Loaded (es : List Event) (d : Counter) (t u : Tracing) : Type 0 where
  counts : u.counts ≡ t.counts
  lines : u.lines ≡ t.lines
  prev : u.prev ≡ t.prev
  cur : u.cur d ≡ (if loads_in es d then t.counts d else t.cur d)

pick : (a b : Bool) (x y : ℕ) → (if b then x else if a then x else y) ≡ (if a || b then x else y)
pick true true x y = refl
pick true false x y = refl
pick false true x y = refl
pick false false x y = refl

run-Loaded :
    (es : List Event) (d : Counter) (t : Tracing)
    → only_loads es ≡ true
    → Loaded es d t (trace_run es t)
unfolding only_loads trace_run loads_in trace_step
run-Loaded [] d t e = record { counts = refl; lines = refl; prev = refl; cur = refl }
run-Loaded (loads c ∷ rest) d t e =
    let v = run-Loaded rest d (trace_step (loads c) t) e in
    record {
      counts = v.counts;
      lines = v.lines;
      prev = v.prev;
      cur = v.cur ∙ pick (same_counter c d) (loads_in rest d) (t.counts d) (t.cur d);
    }
run-Loaded (adds c n ∷ rest) d t e = absurd (ground arith)
run-Loaded (prints ∷ rest) d t e = absurd (ground arith)

loads_in-append :
    (es fs : List Event) (d : Counter) → loads_in (es ++ fs) d ≡ (loads_in es d || loads_in fs d)
unfolding loads_in
loads_in-append [] fs d = refl
loads_in-append (loads c ∷ es) fs d = ground (arith, loads_in-append es fs d)
loads_in-append (adds c n ∷ es) fs d = loads_in-append es fs d
loads_in-append (prints ∷ es) fs d = loads_in-append es fs d

slots-loads :
    (i s n : ℕ)
    → s ≤ i
    → i < s + n
    → (loads_in (load_slots s n) (dc_frames i) ≡ true)
      × (loads_in (load_slots s n) (dc_bytes i) ≡ true)
      × (loads_in (load_slots s n) (dc_ns i) ≡ true)
unfolding loads_in load_slots same_counter
slots-loads i s zero a b = absurd (omega (arith, a, b))
slots-loads i s (suc n) a b = elim (Bool-cases (s =ℕ i)) [
  | inl e ↦ rw e (refl, refl, refl)
  | inr e ↦ rw e (slots-loads i (suc s) n (ground (arith, e, a, =ℕ_iff s i)) (omega (arith, b)))
]

in_slots :
    (fs : List Event) (d : Counter)
    → loads_in (load_slots 0 16) d ≡ true
    → loads_in (load_slots 0 16 ++ fs) d ≡ true
in_slots fs d e = ground (arith, loads_in-append (load_slots 0 16) fs d, e)

after_slots :
    (fs : List Event) (d : Counter)
    → loads_in fs d ≡ true
    → loads_in (load_slots 0 16 ++ fs) d ≡ true
after_slots fs d e = ground (arith, loads_in-append (load_slots 0 16) fs d, e)

slot_of : (i : ℕ) → ltb i 16 ≡ true → i < 0 + 16
slot_of i h = ground (arith, h)

snapshot-loads : (c : Counter) → has_slot c ≡ true → loads_in capture_snapshot c ≡ true
unfolding has_slot capture_snapshot loads_in same_counter
snapshot-loads (dc_frames i) h =
    in_slots _ (dc_frames i) (slots-loads i 0 16 (omega arith) (slot_of i h)).0
snapshot-loads (dc_bytes i) h =
    in_slots _ (dc_bytes i) (slots-loads i 0 16 (omega arith) (slot_of i h)).1
snapshot-loads (dc_ns i) h = in_slots _ (dc_ns i) (slots-loads i 0 16 (omega arith) (slot_of i h)).2
snapshot-loads read_frames h = refl
snapshot-loads read_bytes h = refl
snapshot-loads write_frames h = after_slots _ write_frames refl
snapshot-loads write_bytes h = after_slots _ write_bytes refl
snapshot-loads write_ns h = after_slots _ write_ns refl

run-append :
    (es fs : List Event) (t : Tracing) → trace_run (es ++ fs) t ≡ trace_run fs (trace_run es t)
unfolding trace_run
run-append [] fs t = refl
run-append (a ∷ es) fs t = run-append es fs (trace_step a t)

module _ (counts : Counter → ℕ) (c : Counter) (past : List Event) (t : Tracing) where
  all_loads-IsReported :
      (u : Tracing)
      → loads_in capture_snapshot c ≡ true
      → Loaded capture_snapshot c t u
      → IsReported counts c past t
      → (IsReported counts c past u) × (u.cur c ≡ (counts c + added c past) % 2 ^ 64)
  all_loads-IsReported u e l v =
      let copy : u.cur c ≡ (counts c + added c past) % 2 ^ 64 =
        l.cur ∙ ap (λ b. if b then t.counts c else t.cur c) e ∙ v.counted in
      (
        record {
          counted = ap (λ f. f c) l.counts ∙ v.counted;
          at_cur = past;
          cur_then = now past;
          cur_copy = copy;
          at_prev = v.at_prev;
          prev_then = Earlier-trans v.cur_then v.prev_then;
          prev_copy = ap (λ f. f c) l.prev ∙ v.prev_copy;
          sums =
              ap (λ ls. (counts c + told c ls) % 2 ^ 64) l.lines
              ∙ v.sums
              ∙ sym (ap (λ f. f c) l.prev);
        },
        copy,
      )

  ticked :
      loads_in capture_snapshot c ≡ true
      → IsReported counts c past t
      → (counts c + told c (trace_run tick t).lines) % 2 ^ 64 ≡ (counts c + added c past) % 2 ^ 64
  unfolding tick trace_run trace_step
  ticked e v =
      let u = trace_run capture_snapshot t in
      let (r, copy) =
        all_loads-IsReported u e
          (run-Loaded capture_snapshot c t (unfold only_loads capture_snapshot load_slots in refl))
          v in
      ap (λ (x : Tracing). (counts c + told c x.lines) % 2 ^ 64)
        (run-append capture_snapshot (prints ∷ []) t)
      ∙ (prints-IsReported counts c past u r).sums
      ∙ copy

  -- For a counter with a slot below sixteen that starts within 64 bits, however the goroutine and those who count
  -- interleave: the value at the start of the goroutine and the differences of its rounds add up, modulo
  -- 2 ^ 64, to that value and all that had been added up to some point of time, so nothing before it is
  -- left out or reported twice. After a further round in which nothing else happens it is all that
  -- has been added.
  pub lines_add_up :
      counts c < 2 ^ 64
      → has_slot c ≡ true
      → Traces counts past t
      → ((old : List Event) × (Earlier past old)
          × ((counts c + told c t.lines) % 2 ^ 64 ≡ (counts c + added c old) % 2 ^ 64))
        × ((counts c + told c (trace_run tick t).lines) % 2 ^ 64
            ≡ (counts c + added c past) % 2 ^ 64)
  lines_add_up small slot r =
      let v = Traces-IsReported counts c past t small r in
      (
        (v.at_prev, Earlier-trans v.cur_then v.prev_then, v.sums ∙ v.prev_copy),
        ticked (snapshot-loads c slot) v,
      )

-- The slot of a channel is among those that a line shows.
slot-is_printed :
    (t : PionTrace) (h : String) (i : ℕ)
    → IsTracked t
    → get t.dc_index h ≡ some i
    → is_printed t.next_idx i ≡ true
unfolding is_printed
slot-is_printed t h i v e = ground (arith, v.bounded h i e)
