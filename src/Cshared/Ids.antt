-- ===== src/Cshared/Ids.antt =====
-- The ids that `PionBridgeOpen` of go/cshared/cshared.go gives out.
use flutter_pion_bridge.Prelude.{
  ℕ, zero, suc, ◌^◌, ◌<◌, ◌≡◌, refl, sym, ap, ◌∙◌, subst, none, some, List, [], ◌∷◌, ◌++◌, length,
  length-append, ◌=ℕ◌, =ℕ_iff, if◌then◌else◌, arith, Bool-cases, Option-cases, inl, inr,
}
use flutter_pion_bridge.Session.{FrameSession, new_frame_session, pick, Action, push, close_begins}
use flutter_pion_bridge.Session as Session
use flutter_pion_bridge.Cshared.{
  Bridge, int64, find, drop, get_elem?, set_elem, Call, opens, send_looks, send_pushes, close_runs,
  close_looks, session_moves, pion_bridge_open, pion_bridge_send, update, send_pushes_step, is_own,
  session_moves_step, pion_bridge_close, close_runs_step, step, Reach, start, next,
}

int64_small : (n : ℕ) → n < 2 ^ 64 → int64 n ≡ n
int64_small n h = omega arith

pub find-drop :
    (id j : ℕ) (m : List (ℕ × ℕ)) → find j (drop id m) ≡ (if id =ℕ j then none else find j m)
unfolding find drop
find-drop id j [] = ground arith
find-drop id j ((k, p) ∷ m) = ground (arith, find-drop id j m, =ℕ_iff k id, =ℕ_iff k j, =ℕ_iff id j)

length-set_elem : {A : Type 0} (n : ℕ) (y : A) (xs : List A) → length (set_elem n y xs) ≡ length xs
unfolding set_elem
length-set_elem n y [] = refl
length-set_elem zero y (x ∷ xs) = refl
length-set_elem (suc n) y (x ∷ xs) = omega (arith, length-set_elem n y xs)

last : {A : Type 0} (xs : List A) (y : A) → get_elem? (xs ++ y ∷ []) (length xs) ≡ some y
unfolding get_elem?
last [] y = refl
last (x ∷ xs) y = last xs y

module _ {F : Type 0} where
  pub record IsNumbered (b : Bridge F) : Type 0 where
    pub next : b.next_id ≡ int64 (suc (length b.heap))
    pub known :
        (id p : ℕ) → find id b.sessions ≡ some p → (id ≡ int64 (suc p)) × (p < length b.heap)

  -- The table and the counter are as they were, and the sessions as many.
  pub record Quiet (b b' : Bridge F) : Type 0 where
    pub next : b'.next_id ≡ b.next_id
    pub sessions : b'.sessions ≡ b.sessions
    pub count : length b'.heap ≡ length b.heap

  update-Quiet :
      (q : ℕ) (a : Action F) (b c b' : Bridge F)
      → c.next_id ≡ b.next_id
      → c.sessions ≡ b.sessions
      → c.heap ≡ b.heap
      → update q (Session.step a) c ≡ some b'
      → Quiet b b'
  unfolding update
  update-Quiet q a b c b' x y h e = elim (Option-cases (get_elem? c.heap q)) [
    | inl out ↦ absurd (ground arith)
    | inr (r, there) ↦ elim (Option-cases (Session.step a r)) [
      | inl stuck ↦ absurd (ground arith)
      | inr (t, moves) ↦ record {
        next = ground arith;
        sessions = ground arith;
        count = ground (arith, length-set_elem q t c.heap);
      }
    ]
  ]

  send_pushes-Quiet : (n : ℕ) (b b' : Bridge F) → send_pushes_step n b ≡ some b' → Quiet b b'
  unfolding send_pushes_step
  send_pushes-Quiet n b b' e = elim (Option-cases (pick n b.sending)) [
    | inl out ↦ absurd (ground arith)
    | inr (((p, f), rest), found) ↦
        update-Quiet p (push f) b (record b { sending = rest }) b' refl refl refl (ground arith)
  ]

  close_runs-Quiet : (n : ℕ) (b b' : Bridge F) → close_runs_step n b ≡ some b' → Quiet b b'
  unfolding close_runs_step
  close_runs-Quiet n b b' e = elim (Option-cases (pick n b.closing)) [
    | inl out ↦ absurd (ground arith)
    | inr ((p, rest), found) ↦
        update-Quiet p close_begins b (record b { closing = rest }) b' refl refl refl (ground arith)
  ]

  session_moves-Quiet :
      (q : ℕ) (a : Action F) (b b' : Bridge F) → session_moves_step q a b ≡ some b' → Quiet b b'
  unfolding session_moves_step
  session_moves-Quiet q a b b' e = elim (Bool-cases (is_own a)) [
    | inl own ↦ update-Quiet q a b b b' refl refl refl (ground arith)
    | inr out ↦ absurd (ground arith)
  ]

  send_looks-Quiet : (id : ℕ) (f : F) (b : Bridge F) → Quiet b (pion_bridge_send id f b).1
  unfolding pion_bridge_send
  send_looks-Quiet id f b = record {
    next = ground arith;
    sessions = ground arith;
    count = ground arith;
  }

  -- What a step does to the table.
  pub data Effect (b b' : Bridge F) : Type 0 where
    quiet : Quiet b b' → Effect b b'
    opening : b' ≡ (pion_bridge_open b).1 → Effect b b'
    dropping :
        (id : ℕ)
        → b'.next_id ≡ b.next_id
        → b'.sessions ≡ drop id b.sessions
        → b'.heap ≡ b.heap
        → Effect b b'

  close_looks-Effect : (id : ℕ) (b : Bridge F) → Effect b (pion_bridge_close id b)
  unfolding pion_bridge_close
  close_looks-Effect id b = dropping id (ground arith) (ground arith) (ground arith)

  pub step-Effect : (c : Call F) (b b' : Bridge F) → step c b ≡ some b' → Effect b b'
  unfolding step
  step-Effect opens b b' e = opening (ground arith)
  step-Effect (send_looks id f) b b' e =
      subst (Effect b) (ground arith) (quiet (send_looks-Quiet id f b))
  step-Effect (send_pushes n) b b' e = quiet (send_pushes-Quiet n b b' e)
  step-Effect (session_moves q a) b b' e = quiet (session_moves-Quiet q a b b' e)
  step-Effect (close_looks id) b b' e = subst (Effect b) (ground arith) (close_looks-Effect id b)
  step-Effect (close_runs n) b b' e = quiet (close_runs-Quiet n b b' e)

  pub find-open :
      (b : Bridge F) (j : ℕ)
      → find j (pion_bridge_open b).1.sessions
        ≡ (if b.next_id =ℕ j then some (length b.heap) else find j b.sessions)
  unfolding pion_bridge_open find
  find-open b j = ground (arith, find-drop b.next_id j b.sessions)

  pub length-open : (b : Bridge F) → length (pion_bridge_open b).1.heap ≡ suc (length b.heap)
  unfolding pion_bridge_open
  length-open b = omega (arith, length-append b.heap (new_frame_session F ∷ []))

  Effect-IsNumbered : (b b' : Bridge F) → Effect b b' → IsNumbered b → IsNumbered b'
  Effect-IsNumbered b b' (quiet q) v = record {
    next = q.next ∙ v.next ∙ ap (λ n. int64 (suc n)) (sym q.count);
    known = λ id p e.
        let (x, y) = v.known id p (ap (find id) (sym q.sessions) ∙ e) in
        (x, omega (arith, y, q.count));
  }
  Effect-IsNumbered b b' (dropping id n t h) v = record {
    next = n ∙ v.next ∙ ap (λ x. int64 (suc (length x))) (sym h);
    known = λ j p e.
        let (x, y) =
          v.known j p (ground (arith, ap (find j) (sym t) ∙ e, find-drop id j b.sessions)) in
        (x, omega (arith, y, ap (λ x. length x) h));
  }
  Effect-IsNumbered b b' (opening o) v = subst IsNumbered (sym o) (record {
    next =
        unfold pion_bridge_open in
        omega (arith, v.next, length-append b.heap (new_frame_session F ∷ []));
    known = λ j p e. elim (Bool-cases (b.next_id =ℕ j)) [
      | inl same ↦
          let last : length b.heap ≡ p = ground (arith, find-open b j, e) in
          (
            sym ((=ℕ_iff b.next_id j).0 same) ∙ v.next ∙ ap (λ n. int64 (suc n)) last,
            omega (arith, last, length-open b),
          )
      | inr other ↦
          let (x, y) = v.known j p (ground (arith, find-open b j, e)) in
          (x, omega (arith, y, length-open b))
    ];
  })

  pub Reach-IsNumbered : {b : Bridge F} → Reach b → IsNumbered b
  Reach-IsNumbered start = record {
    next = refl;
    known = λ id p e. unfold find in absurd (ground arith);
  }
  Reach-IsNumbered (next {b} {b'} c r e) =
      Effect-IsNumbered b b' (step-Effect c b b' e) (Reach-IsNumbered r)

  unnamed :
      (b : Bridge F)
      → IsNumbered b
      → suc (length b.heap) < 2 ^ 63
      → find b.next_id b.sessions ≡ none
  unnamed b v room = elim (Option-cases (find b.next_id b.sessions)) [
    | inl e ↦ e
    | inr (p, e) ↦ let (x, y) = v.known b.next_id p e in absurd (omega (arith, x, y, v.next, room))
  ]

  -- While fewer than 2 ^ 63 sessions have been opened, `PionBridgeOpen` returns a positive id that names no
  -- session, which then names the new one, and every other id names what it named before.
  pub open_fresh :
      {b : Bridge F}
      → Reach b
      → suc (length b.heap) < 2 ^ 63
      → let out = pion_bridge_open b in
        (0 < out.0)
        × (out.0 < 2 ^ 63)
        × (find out.0 b.sessions ≡ none)
        × (get_elem? out.1.heap (length b.heap) ≡ some (new_frame_session F))
        × ((j : ℕ)
            → find j out.1.sessions
              ≡ (if out.0 =ℕ j then some (length b.heap) else find j b.sessions))
  open_fresh {b} r room =
      let v = Reach-IsNumbered r in
      let id : b.next_id ≡ suc (length b.heap) =
        v.next ∙ int64_small (suc (length b.heap)) (omega (arith, room)) in
      (
        unfold pion_bridge_open in omega (arith, id),
        unfold pion_bridge_open in omega (arith, id, room),
        unfold pion_bridge_open in unnamed b v room,
        unfold pion_bridge_open in last b.heap (new_frame_session F),
        λ j. unfold pion_bridge_open in find-open b j,
      )
