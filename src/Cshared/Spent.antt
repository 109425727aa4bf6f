-- ===== src/Cshared/Spent.antt =====
-- An id of go/cshared/cshared.go whose session has been closed.
use flutter_pion_bridge.Prelude.{
  ℕ, negsuc, suc, ◌^◌, ◌<◌, ◌≤◌, ◌≡◌, ◌≢◌, refl, ap, ◌∙◌, subst, none, some, List, [], ◌∷◌, length,
  =ℕ_iff, arith, Option-cases, inl, inr,
}
use flutter_pion_bridge.Cshared.{
  Bridge, find, drop, Call, close_looks, pion_bridge_send, pion_bridge_close, step, run, Reach,
  next,
}
use flutter_pion_bridge.Cshared.Ids.{
  find-drop, IsNumbered, Effect, step-Effect, find-open, length-open, Reach-IsNumbered, quiet,
  opening, dropping,
}

module _ {F : Type 0} where
  -- The table does not know `id`, which an earlier call has given out.
  record IsSpent (id : ℕ) (b : Bridge F) : Type 0 where
    pub given : 0 < id
    pub old : id ≤ length b.heap
    pub unknown : find id b.sessions ≡ none

  Effect-length : (b b' : Bridge F) → Effect b b' → length b.heap ≤ length b'.heap
  Effect-length b b' (quiet q) = omega (arith, q.count)
  Effect-length b b' (dropping id n t h) = omega (arith, ap (λ x. length x) h)
  Effect-length b b' (opening o) =
      omega (arith, length-open b, ap (λ (x : Bridge F). length x.heap) o)

  Effect-IsSpent :
      (id : ℕ) (b b' : Bridge F)
      → Effect b b'
      → IsNumbered b
      → length b'.heap < 2 ^ 63
      → IsSpent id b
      → IsSpent id b'
  Effect-IsSpent id b b' (quiet q) v room s = record {
    given = s.given;
    old = omega (arith, s.old, q.count);
    unknown = ap (find id) q.sessions ∙ s.unknown;
  }
  Effect-IsSpent id b b' (dropping j n t h) v room s = record {
    given = s.given;
    old = omega (arith, s.old, ap (λ x. length x) h);
    unknown = ap (find id) t ∙ ground (arith, find-drop j id b.sessions, s.unknown);
  }
  Effect-IsSpent id b b' (opening o) v room s =
      let more : length b'.heap ≡ suc (length b.heap) =
        ap (λ (x : Bridge F). length x.heap) o ∙ length-open b in
      let other : b.next_id ≢ id =
        λ q. absurd (omega (arith, q, v.next, s.old, room, more, s.given)) in
      record {
        given = s.given;
        old = omega (arith, s.old, more);
        unknown =
            ap (λ (x : Bridge F). find id x.sessions) o
            ∙ find-open b id
            ∙ ground (arith, s.unknown, other, =ℕ_iff b.next_id id);
      }

  run-length :
      (calls : List (Call F)) (b b' : Bridge F)
      → run calls b ≡ some b'
      → length b.heap ≤ length b'.heap
  unfolding run
  run-length [] b b' e =
      let same : b ≡ b' = ground arith in omega (arith, ap (λ (x : Bridge F). length x.heap) same)
  run-length (c ∷ rest) b b' e = elim (Option-cases (step c b)) [
    | inl stuck ↦ absurd (ground arith)
    | inr (m, first) ↦
        omega
          (arith, Effect-length b m (step-Effect c b m first), run-length rest m b' (ground arith))
  ]

  run-IsSpent :
      (calls : List (Call F)) (id : ℕ) (b b' : Bridge F)
      → Reach b
      → run calls b ≡ some b'
      → length b'.heap < 2 ^ 63
      → IsSpent id b
      → IsSpent id b'
  unfolding run
  run-IsSpent [] id b b' r e room s = let same : b ≡ b' = ground arith in subst (IsSpent id) same s
  run-IsSpent (c ∷ rest) id b b' r e room s = elim (Option-cases (step c b)) [
    | inl stuck ↦ absurd (ground arith)
    | inr (m, first) ↦
        let later : run rest m ≡ some b' = ground arith in
        let small : length m.heap < 2 ^ 63 = omega (arith, room, run-length rest m b' later) in
        run-IsSpent rest id m b' (next c r first) later room
          (Effect-IsSpent id b m (step-Effect c b m first) (Reach-IsNumbered r) small s)
  ]

  close-heap : (id : ℕ) (b : Bridge F) → b.heap ≡ (pion_bridge_close id b).heap
  unfolding pion_bridge_close
  close-heap id b = ground arith

  dropped : (id : ℕ) (b : Bridge F) → (pion_bridge_close id b).sessions ≡ drop id b.sessions
  unfolding pion_bridge_close
  dropped id b = ground arith

  close-IsSpent :
      (id : ℕ) (b : Bridge F) → 0 < id → id ≤ length b.heap → IsSpent id (pion_bridge_close id b)
  unfolding pion_bridge_close
  close-IsSpent id b given old = record {
    given = given;
    old = omega (arith, old, ap (λ x. length x) (close-heap id b));
    unknown =
        ap (find id) (dropped id b) ∙ ground (arith, find-drop id id b.sessions, =ℕ_iff id id);
  }

  -- An id whose session has been closed is never valid again, while fewer than 2 ^ 63 sessions have been
  -- opened: whatever is called in between, `PionBridgeSend` on it returns -1 and changes nothing.
  pub closed_id_is_refused :
      (calls : List (Call F)) {b b' : Bridge F} (id : ℕ) (frame : F)
      → Reach b
      → 0 < id
      → id ≤ length b.heap
      → run calls (pion_bridge_close id b) ≡ some b'
      → length b'.heap < 2 ^ 63
      → pion_bridge_send id frame b' ≡ (some (negsuc 0), b')
  unfolding pion_bridge_send
  closed_id_is_refused calls {b} {b'} id frame r given old e room =
      let r' : Reach (pion_bridge_close id b) =
        next {b' = pion_bridge_close id b} (close_looks id) r (unfold step in refl) in
      let s =
        run-IsSpent calls id (pion_bridge_close id b) b' r' e room (close-IsSpent id b given old) in
      rw (s.unknown, pion_bridge_send) refl
