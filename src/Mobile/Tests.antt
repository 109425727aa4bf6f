-- ===== src/Mobile/Tests.antt =====
-- A server that fails to start once, starts, is started again, and is stopped.
use flutter_pion_bridge.Prelude.{refl, none, List, [], ◌∷◌, inl}
use flutter_pion_bridge.Result.{failed, ok}
use flutter_pion_bridge.Mobile.{not_started, Call, starts, stops, run}
use flutter_pion_bridge.Mobile.Tickers.{IsTidy, run-IsTidy}

abbrev calls : List Call
calls = starts (failed "in use") ∷ starts (ok 4) ∷ starts (ok 5) ∷ stops none ∷ starts (ok 6) ∷ []

run-IsTidy_example : IsTidy (run calls not_started)
run-IsTidy_example = run-IsTidy calls not_started (unfold IsTidy in inl (refl, refl, refl))
