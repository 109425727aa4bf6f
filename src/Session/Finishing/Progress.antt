-- ===== src/Session/Finishing/Progress.antt =====
-- `Close` of frame_session.go: its bound, and who may move.
use flutter_pion_bridge.Prelude.{
  ℕ, zero, suc, ◌+◌, ◌≤◌, ◌<◌, ◌≡◌, refl, ap, ◌∙◌, true, some, List, [], ◌∷◌, length, arith,
  Option-cases, ◌⊎◌, inl, inr,
}
use flutter_pion_bridge.Session.{
  Writer, selecting, stopped, holding, delivering, Closing, writer_closed, returned, FrameSession,
  Action, push_refused, enqueue_refused, writer_rechecks, deliver_returns, writer_stops,
  close_returns, push_refused_step, enqueue_refused_step, writer_rechecks_step,
  deliver_returns_step, writer_stops_step, close_returns_step, step, run, Reach,
}
use flutter_pion_bridge.Session.{pick}
use flutter_pion_bridge.Session.Finishing.{
  begun, written, weight, cost, total, IsMarked, step-Moves, Reach-IsMarked, writer_weight-le,
  closing_weight-le,
}

module _ {F : Type 0} where
  run-falls :
      (acts : List (Action F)) (s t : FrameSession F)
      → IsMarked s
      → written s.closing ≡ true
      → run acts s ≡ some t
      → total acts + weight t ≤ weight s
  unfolding run total
  run-falls [] s t v c e = let same : s ≡ t = ground arith in omega (arith, ap (λ x. weight x) same)
  run-falls (a ∷ rest) s t v c e = elim (Option-cases (step a s)) [
    | inl q ↦ absurd (ground arith)
    | inr (u, q) ↦
        let m = step-Moves a s u q in
        let later = run-falls rest u t (m.marks v) (m.stays c) (ground arith) in
        omega (arith, later, m.falls c (v.shut ∙ c))
  ]

  -- From the moment `Close` has told the writer to stop, every schedule contains at most four
  -- more steps of the writer and of `Close`, whatever the other parties do.
  pub close_bounded :
      (acts : List (Action F)) {s t : FrameSession F}
      → Reach s
      → written s.closing ≡ true
      → run acts s ≡ some t
      → (total acts + weight t ≤ weight s) × (weight s ≤ 4)
  close_bounded acts {s} {t} r c e = (
    run-falls acts s t (Reach-IsMarked r) c e,
    omega (arith, writer_weight-le s.writer, closing_weight-le s.closing),
  )

  abbrev pub CanMove : FrameSession F → Type 0
  CanMove s = (a : Action F) × (t : FrameSession F) × (step a s ≡ some t) × (cost a ≡ 1)

  writer_moves :
      (w : Writer F) (s : FrameSession F)
      → s.writer ≡ w
      → s.closing ≡ writer_closed
      → s.cw.done ≡ true
      → CanMove s
  unfolding step cost writer_stops_step writer_rechecks_step deliver_returns_step close_returns_step
  writer_moves selecting s q c d =
      (writer_stops, record s { writer = stopped }, rw (q, writer_stops_step) (rw d refl), refl)
  writer_moves (holding f) s q c d = (
    writer_rechecks,
    record s { writer = stopped },
    rw (q, writer_rechecks_step) (rw d refl),
    refl,
  )
  writer_moves (delivering f) s q c d =
      (deliver_returns, record s { writer = selecting }, rw (q, deliver_returns_step) refl, refl)
  writer_moves stopped s q c d =
      (close_returns, record s { closing = returned }, rw (q, c, close_returns_step) refl, refl)

  closing_moves :
      (c : Closing) (s : FrameSession F)
      → s.closing ≡ c
      → written c ≡ true
      → s.cw.done ≡ true
      → (s.closing ≡ returned) ⊎ CanMove s
  unfolding written
  closing_moves writer_closed s q x d = inr (writer_moves s.writer s refl q d)
  closing_moves returned s q x d = inl q
  closing_moves _ s q x d = absurd (ground arith)

  -- Once `Close` has told the writer to stop, it has returned, or a step of the writer or of `Close` is
  -- possible: `Close` never waits for ever, and frames in the queue do not hold it up.
  pub close_progress :
      {s : FrameSession F} → Reach s → written s.closing ≡ true → (s.closing ≡ returned) ⊎ CanMove s
  close_progress {s} r c = closing_moves s.closing s refl c ((Reach-IsMarked r).shut ∙ c)

  pick_total : (n : ℕ) (fs : List F) → n < length fs → (x : F × List F) × (pick n fs ≡ some x)
  unfolding pick
  pick_total n [] h = absurd (omega arith)
  pick_total zero (f ∷ fs) h = ((f, fs), refl)
  pick_total (suc n) (f ∷ fs) h =
      let (x, e) = pick_total n fs (omega arith) in ((x.0, f ∷ x.1), rw e refl)

  -- Once `Close` has begun, every `Push` that waits for room can return with an error.
  pub push_unblocks :
      {s : FrameSession F}
      → Reach s
      → (n : ℕ) → begun s.closing ≡ true
      → n < length s.pushing
      → (t : FrameSession F) × (step (push_refused n) s ≡ some t)
  unfolding step push_refused_step
  push_unblocks {s} r n c h =
      let (x, e) = pick_total n s.pushing h in
      let d = (Reach-IsMarked r).inbox ∙ c in
      (record s { pushing = x.1 }, rw (e, push_refused_step) (rw d refl))

  -- Once `Close` has told the writer to stop, every `enqueue` of a response or an event that waits for
  -- room can return with an error, so a full queue blocks nobody.
  pub enqueue_unblocks :
      {s : FrameSession F}
      → Reach s
      → (n : ℕ) → written s.closing ≡ true
      → n < length s.enqueuing
      → (t : FrameSession F) × (step (enqueue_refused n) s ≡ some t)
  unfolding step enqueue_refused_step
  enqueue_unblocks {s} r n c h =
      let (x, e) = pick_total n s.enqueuing h in
      let d = (Reach-IsMarked r).shut ∙ c in
      (record s { enqueuing = x.1 }, rw (e, enqueue_refused_step) (rw d refl))
