-- ===== src/DcSend/Settling/Progress.antt =====
-- A channel that shuts down, dcsend.go, always has a step of its own left until it has settled.
use flutter_pion_bridge.Prelude.{
  ℕ, zero, suc, ◌≡◌, ◌≢◌, refl, true, false, none, List, [], ◌∷◌, arith, ◌⊎◌, inl, inr,
}
use flutter_pion_bridge.DcSend.{
  DcSendWork, DcSendState, Sender, idle, exited, sending, waiting, parked, Closer, not_started,
  closing, draining, finished, System, pick, Action, refuse, recheck, send_returns, check,
  broadcast, drain, refuse_step, recheck_step, send_returns_step, check_step, broadcast_step,
  drain_step, step, Reach,
}
use flutter_pion_bridge.DcSend.Accounting.{in_hand}
use flutter_pion_bridge.DcSend.Shutdown.{IsOrderly, Reach-IsOrderly}
use flutter_pion_bridge.DcSend.Settling.{IsSettled, is_internal}

-- Some step that the code owes is enabled.
abbrev pub CanGo : System → Type 0
CanGo s = (a : Action) × (is_internal a ≡ true) × (step a s ≢ none)

module _ (s : System) (v : IsOrderly s) (over : s.state.done ≡ true) where
  sender_goes : (x : Sender) → s.sender ≡ x → in_hand x ≢ [] → CanGo s
  unfolding step send_returns_step check_step broadcast_step
  sender_goes idle e h = absurd (h refl)
  sender_goes exited e h = absurd (h refl)
  sender_goes (sending w) e h = (send_returns, refl, λ q. ground arith)
  sender_goes (waiting w) e h = (check 0, refl, λ q. ground arith)
  sender_goes (parked w) e h = (broadcast, refl, λ q. parked_goes s.closer refl q)
    where
      parked_goes : (c : Closer) → s.closer ≡ c → broadcast_step c s ≡ none → ⊥
      parked_goes closing p q = ground arith
      parked_goes _ p q = ground (arith, v.marked, v.awake)

  closer_goes : (c : Closer) → s.closer ≡ c → c ≢ finished → CanGo s
  unfolding step broadcast_step drain_step
  closer_goes not_started e h = absurd (ground (arith, v.marked))
  closer_goes closing e h = (broadcast, refl, λ q. ground arith)
  closer_goes draining e h = (drain, refl, λ q. drain_goes s.state.work (ground arith))
    where
      drain_goes : (ws : List DcSendWork) → drain_step draining ws s ≢ none
      drain_goes [] q = ground arith
      drain_goes (w ∷ ws) q = ground arith
  closer_goes finished e h = absurd (h refl)

  caller_goes : (n : ℕ) → s.rechecking ≡ n → n ≢ 0 → CanGo s
  unfolding step recheck_step
  caller_goes zero e h = absurd (h refl)
  caller_goes (suc n) e h = (recheck, refl, λ q. ground arith)

  pending_goes : (ws : List DcSendWork) → s.pending ≡ ws → ws ≢ [] → CanGo s
  unfolding step refuse_step pick
  pending_goes [] e h = absurd (h refl)
  pending_goes (w ∷ ws) e h = (refuse 0, refl, λ q. ground arith)

  rest_or_go :
      (c : Closer) (n : ℕ) (ws hand : List DcSendWork)
      → s.closer ≡ c
      → s.rechecking ≡ n
      → s.pending ≡ ws
      → in_hand s.sender ≡ hand
      → IsSettled s ⊎ CanGo s
  rest_or_go finished zero [] [] c n p h =
      inl (record { closed = c; none_pending = p; none_rechecking = n; none_in_hand = h })
  rest_or_go finished zero [] (w ∷ hand) c n p h =
      inr (sender_goes s.sender refl (λ q. ground arith))
  rest_or_go finished zero (w ∷ ws) hand c n p h = inr (pending_goes (w ∷ ws) p (λ q. ground arith))
  rest_or_go finished (suc k) ws hand c n p h = inr (caller_goes (suc k) n (λ q. omega arith))
  rest_or_go not_started k ws hand c n p h = inr (closer_goes not_started c (λ q. ground arith))
  rest_or_go closing k ws hand c n p h = inr (closer_goes closing c (λ q. ground arith))
  rest_or_go draining k ws hand c n p h = inr (closer_goes draining c (λ q. ground arith))

-- From any reachable state with `done` closed, the queue is at rest or some step that the code owes
-- can be taken: nobody is left blocked, the sender in `cond.Wait` included.
pub shutdown_progress :
    (s₀ : DcSendState) {s : System}
    → s₀.done ≡ false
    → Reach s₀ s
    → s.state.done ≡ true
    → IsSettled s ⊎ CanGo s
shutdown_progress s₀ {s} live r over =
    rest_or_go s (Reach-IsOrderly s₀ live r) over s.closer s.rechecking s.pending (in_hand s.sender)
      refl refl refl refl
