-- ===== src/Handler/Detached.antt =====
-- `readDetached` of go/internal/pionserver/handler.go: the read loop of a detached channel. `read` is pion's
-- `ReadDataChannel` on a buffer of the given length, over a state of any type.
use flutter_pion_bridge.Prelude.{
  ℕ, zero, suc, ℤ, pos, negsuc, ◌*◌, min, Bool, Option, none, some, List, [], ◌∷◌, ltb,
  if◌then◌else◌,
}

pub data Outcome : Type 0 where
  short_buffer failed_read : Outcome
  message : List ℕ → Bool → Outcome

-- A message, with whether it is a string.
abbrev pub Received : Type 0
Received = List ℕ × Bool

-- `sctp_max_message_size`, or pion's default of 2 ^ 30 - 1.
unfoldable pub limit_of : ℤ → ℕ
limit_of (pos zero) = 1073741823
limit_of (pos (suc n)) = suc n
limit_of (negsuc n) = 1073741823

unfoldable pub first_size : ℕ → ℕ
first_size limit = min limit 65536

module _ {S : Type 0} (read : ℕ → S → Outcome × S) where
  abbrev put_first : Received → Option (List Received) → Option (List Received)
  put_first m none = none
  put_first m (some ms) = some (m ∷ ms)

  -- The messages forwarded until the loop returns, on fuel; `len` is the length of the buffer.
  unfoldable pub read_loop : ℕ → ℕ → ℕ → S → Option (List Received)
  read_loop zero limit len s = none
  read_loop (suc f) limit len s = elim (read len s).0 [
    | short_buffer ↦
        let rest = read_loop f limit (min limit (2 * len)) (read len s).1 in
        if ltb len limit then rest else some []
    | failed_read ↦ some []
    | message bytes is_string ↦ put_first (bytes, is_string) (read_loop f limit len (read len s).1)
  ]

  unfoldable pub read_detached : ℕ → ℤ → S → Option (List Received)
  read_detached f max_message_size s =
      read_loop f (limit_of max_message_size) (first_size (limit_of max_message_size)) s
