-- ===== src/Trace/Counters/Reports.antt =====
-- What the goroutine of `StartTracing` in go/internal/pionserver/trace.go has printed is what was counted.
use flutter_pion_bridge.Prelude.{
  ℕ, ◌+◌, ◌%◌, ◌^◌, ◌<◌, ◌≡◌, refl, sym, ap, ◌∙◌, List, [], ◌∷◌, ◌++◌, if◌then◌else◌, arith,
  Bool-cases, inl, inr,
}
use flutter_pion_bridge.Trace.Counters.{
  Counter, same_counter, add_int64, sub_int64, Tracing, delta, Event, adds, loads, prints,
  trace_step, start_goroutine,
}

-- What the events, the last one first, add to a counter, and what the lines say of it.
unfoldable pub added : Counter → List Event → ℕ
added c [] = 0
added c (adds d n ∷ past) = (if same_counter d c then n else 0) + added c past
added c (_ ∷ past) = added c past

unfoldable pub told : Counter → List (Counter → ℕ) → ℕ
told c [] = 0
told c (line ∷ lines) = line c + told c lines

-- The second list is a part of the first, from some point of time back.
pub data Earlier : List Event → List Event → Type 0 where
  now : (past : List Event) → Earlier past past
  before : {past old : List Event} (a : Event) → Earlier past old → Earlier (a ∷ past) old

pub data Traces (counts : Counter → ℕ) : List Event → Tracing → Type 0 where
  starts : Traces counts [] (start_goroutine counts)
  goes :
      {past : List Event} {t : Tracing} (a : Event)
      → Traces counts past t
      → Traces counts (a ∷ past) (trace_step a t)

pub Earlier-trans : {a b c : List Event} → Earlier a b → Earlier b c → Earlier a c
Earlier-trans (now past) w = w
Earlier-trans (before x v) w = before x (Earlier-trans v w)

told-snoc :
    (c : Counter) (ls : List (Counter → ℕ)) (l : Counter → ℕ)
    → told c (ls ++ l ∷ []) ≡ told c ls + l c
unfolding told
told-snoc c [] l = omega arith
told-snoc c (x ∷ ls) l = omega (arith, told-snoc c ls l)

pub record IsReported (counts : Counter → ℕ) (c : Counter) (past : List Event) (t : Tracing)
    : Type 0 where
  pub counted : t.counts c ≡ (counts c + added c past) % 2 ^ 64
  pub at_cur : List Event
  pub cur_then : Earlier past at_cur
  pub cur_copy : t.cur c ≡ (counts c + added c at_cur) % 2 ^ 64
  pub at_prev : List Event
  pub prev_then : Earlier at_cur at_prev
  pub prev_copy : t.prev c ≡ (counts c + added c at_prev) % 2 ^ 64
  pub sums : (counts c + told c t.lines) % 2 ^ 64 ≡ t.prev c

add_add : (a n : ℕ) → add_int64 (a % 2 ^ 64) n ≡ (a + n) % 2 ^ 64
unfolding add_int64
add_add a n = omega arith

sub_add : (m p x : ℕ) → m % 2 ^ 64 ≡ p → (m + sub_int64 (x % 2 ^ 64) p) % 2 ^ 64 ≡ x % 2 ^ 64
unfolding sub_int64
sub_add m p x e = omega (arith, e)

module _ (counts : Counter → ℕ) (c : Counter) where
  adds-IsReported :
      (d : Counter) (n : ℕ) (past : List Event) (t : Tracing)
      → IsReported counts c past t
      → IsReported counts c (adds d n ∷ past) (trace_step (adds d n) t)
  unfolding trace_step added
  adds-IsReported d n past t v = record {
    counted = elim (Bool-cases (same_counter d c)) [
      | inl e ↦ rw e (
          ap (λ x. add_int64 x n) v.counted
          ∙ add_add (counts c + added c past) n
          ∙ ap (λ x. x % 2 ^ 64) (omega arith))
      | inr e ↦ rw e (v.counted ∙ ap (λ x. x % 2 ^ 64) (omega arith))
    ];
    at_cur = v.at_cur;
    cur_then = before (adds d n) v.cur_then;
    cur_copy = v.cur_copy;
    at_prev = v.at_prev;
    prev_then = v.prev_then;
    prev_copy = v.prev_copy;
    sums = v.sums;
  }

  loads-IsReported :
      (d : Counter) (past : List Event) (t : Tracing)
      → IsReported counts c past t
      → IsReported counts c (loads d ∷ past) (trace_step (loads d) t)
  unfolding trace_step added
  loads-IsReported d past t v = elim (Bool-cases (same_counter d c)) [
    | inl e ↦ record {
      counted = v.counted;
      at_cur = loads d ∷ past;
      cur_then = now (loads d ∷ past);
      cur_copy = rw e v.counted;
      at_prev = v.at_prev;
      prev_then = before (loads d) (Earlier-trans v.cur_then v.prev_then);
      prev_copy = v.prev_copy;
      sums = v.sums;
    }
    | inr e ↦ record {
      counted = v.counted;
      at_cur = v.at_cur;
      cur_then = before (loads d) v.cur_then;
      cur_copy = rw e v.cur_copy;
      at_prev = v.at_prev;
      prev_then = v.prev_then;
      prev_copy = v.prev_copy;
      sums = v.sums;
    }
  ]

  pub prints-IsReported :
      (past : List Event) (t : Tracing)
      → IsReported counts c past t
      → IsReported counts c (prints ∷ past) (trace_step prints t)
  unfolding trace_step added delta
  prints-IsReported past t v = record {
    counted = v.counted;
    at_cur = v.at_cur;
    cur_then = before prints v.cur_then;
    cur_copy = v.cur_copy;
    at_prev = v.at_cur;
    prev_then = now v.at_cur;
    prev_copy = v.cur_copy;
    sums =
        ap (λ x. (counts c + x) % 2 ^ 64) (told-snoc c t.lines (delta t.cur t.prev))
        ∙ grown (told c t.lines) (counts c + added c v.at_cur) v.cur_copy v.sums;
  }
    where
      grown :
          (l x : ℕ)
          → t.cur c ≡ x % 2 ^ 64
          → (counts c + l) % 2 ^ 64 ≡ t.prev c
          → (counts c + (l + delta t.cur t.prev c)) % 2 ^ 64 ≡ t.cur c
      grown l x e s =
          ap (λ y. y % 2 ^ 64) (omega arith)
          ∙ ap (λ y. (counts c + l + sub_int64 y (t.prev c)) % 2 ^ 64) e
          ∙ sub_add (counts c + l) (t.prev c) x s
          ∙ sym e

  still : counts c < 2 ^ 64 → (n : ℕ) → n ≡ 0 → (counts c + n) % 2 ^ 64 ≡ counts c
  still small n z = omega (arith, small, z)

  pub Traces-IsReported :
      (past : List Event) (t : Tracing)
      → counts c < 2 ^ 64
      → Traces counts past t
      → IsReported counts c past t
  unfolding start_goroutine told added
  Traces-IsReported _ _ small starts = record {
    counted = sym (still small 0 refl);
    at_cur = [];
    cur_then = now [];
    cur_copy = sym (still small 0 refl);
    at_prev = [];
    prev_then = now [];
    prev_copy = sym (still small 0 refl);
    sums = still small 0 refl;
  }
  Traces-IsReported _ _ small (goes {past} {t} (adds d n) r) =
      adds-IsReported d n past t (Traces-IsReported past t small r)
  Traces-IsReported _ _ small (goes {past} {t} (loads d) r) =
      loads-IsReported d past t (Traces-IsReported past t small r)
  Traces-IsReported _ _ small (goes {past} {t} prints r) =
      prints-IsReported past t (Traces-IsReported past t small r)
