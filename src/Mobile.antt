-- ===== src/Mobile.antt =====
-- go/mobile/mobile.go: starting and stopping the server of the process. The network's listener is an
-- identity, what `ListenAndServe` and `Close` return is an argument; the tickers of `StartCleanup`
-- are numbered as they start. `Start` and `Stop` run under `mu`.
mod Tickers
mod Tests
use flutter_pion_bridge.Prelude.{
  ℕ, suc, String, Bool, Option, none, some, List, [], ◌∷◌, ◌=ℕ◌, if◌then◌else◌,
}
use flutter_pion_bridge.Result.{Result, failed, ok}

-- `tickers` are those that run.
pub record Mobile : Type 0 where
  pub listener : Option ℕ
  pub stop_cleanup : Option ℕ
  pub tickers : List ℕ
  pub next_ticker : ℕ

abbrev pub not_started : Mobile
not_started = record { listener = none; stop_cleanup = none; tickers = []; next_ticker = 0 }

pub data StartError : Type 0 where
  already_running : StartError
  listen_failed : String → StartError

unfoldable pub halt : ℕ → List ℕ → List ℕ
halt n [] = []
halt n (t ∷ ts) = let rest = halt n ts in if n =ℕ t then rest else t ∷ rest

unfoldable pub halt_given : Option ℕ → List ℕ → List ℕ
halt_given none ts = ts
halt_given (some n) ts = halt n ts

-- `Start` once no server runs: the ticker starts first, and is stopped again where there is no listener.
unfoldable pub listen : Result String ℕ → Mobile → Result StartError ℕ × Mobile
listen (failed e) s = (
  failed (listen_failed e),
  record s {
    tickers = halt s.next_ticker (s.next_ticker ∷ s.tickers);
    next_ticker = suc s.next_ticker;
  },
)
listen (ok l) s = (
  ok l,
  record s {
    listener = some l;
    stop_cleanup = some s.next_ticker;
    tickers = s.next_ticker ∷ s.tickers;
    next_ticker = suc s.next_ticker;
  },
)

unfoldable pub start : Result String ℕ → Mobile → Result StartError ℕ × Mobile
start outcome s = elim s.listener [ some l ↦ (failed already_running, s) | none ↦ listen outcome s ]

unfoldable pub stop : Option String → Mobile → Option String × Mobile
stop closed s = elim s.listener [
  | none ↦ (none, s)
  | some l ↦ (
    closed,
    record s {
      listener = none;
      stop_cleanup = none;
      tickers = halt_given s.stop_cleanup s.tickers;
    },
  )
]

pub data Call : Type 0 where
  starts : Result String ℕ → Call
  stops : Option String → Call

unfoldable pub run : List Call → Mobile → Mobile
run [] s = s
run (starts outcome ∷ rest) s = run rest (start outcome s).1
run (stops closed ∷ rest) s = run rest (stop closed s).1
