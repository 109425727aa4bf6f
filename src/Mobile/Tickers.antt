-- ===== src/Mobile/Tickers.antt =====
-- The cleanup tickers of go/mobile/mobile.go.
use flutter_pion_bridge.Prelude.{
  ℕ, ◌≡◌, String, Option, none, some, List, [], ◌∷◌, arith, inl, inr, ◌⊎◌, =ℕ_iff,
}
use flutter_pion_bridge.Result.{Result, failed, ok}
use flutter_pion_bridge.Mobile.{
  Mobile, halt, halt_given, listen, start, stop, Call, starts, stops, run,
}

-- No server and no ticker, or one of each.
unfoldable pub IsTidy : Mobile → Type 0
IsTidy s =
    ((s.listener ≡ none) × (s.stop_cleanup ≡ none) × (s.tickers ≡ []))
    ⊎ ((l : ℕ) × (n : ℕ) × (s.listener ≡ some l) × (s.stop_cleanup ≡ some n) × (s.tickers ≡ n ∷ []))

halt-one : (n : ℕ) → halt n (n ∷ []) ≡ []
unfolding halt
halt-one n = ground (arith, =ℕ_iff n n)

start-IsTidy : (outcome : Result String ℕ) (s : Mobile) → IsTidy s → IsTidy (start outcome s).1
unfolding IsTidy start listen
start-IsTidy (failed e) s (inl v) =
    inl (ground (arith, v), ground (arith, v), ground (arith, v, halt-one s.next_ticker))
start-IsTidy (ok l) s (inl v) =
    inr (l, s.next_ticker, ground (arith, v), ground (arith, v), ground (arith, v))
start-IsTidy outcome s (inr (l, n, v, u, x)) =
    inr (l, n, ground (arith, v), ground (arith, v, u), ground (arith, v, x))

stop-IsTidy : (closed : Option String) (s : Mobile) → IsTidy s → IsTidy (stop closed s).1
unfolding IsTidy stop halt_given
stop-IsTidy closed s (inl v) = inl (ground (arith, v), ground (arith, v), ground (arith, v))
stop-IsTidy closed s (inr (l, n, v, u, x)) =
    inl (ground (arith, v), ground (arith, v, u), ground (arith, v, u, x, halt-one n))

-- From a state with no server and no ticker, or one of each, any sequence of `Start` and `Stop`, whatever the
-- network answers and however often either is called, ends in such a state: tickers do not pile up.
pub run-IsTidy : (calls : List Call) (s : Mobile) → IsTidy s → IsTidy (run calls s)
unfolding run
run-IsTidy [] s v = v
run-IsTidy (starts outcome ∷ rest) s v =
    run-IsTidy rest (start outcome s).1 (start-IsTidy outcome s v)
run-IsTidy (stops closed ∷ rest) s v = run-IsTidy rest (stop closed s).1 (stop-IsTidy closed s v)
