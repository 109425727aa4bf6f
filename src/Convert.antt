-- ===== src/Convert.antt =====
-- Numeric conversions of decoded values: `toInt` of settings_engine.go, `toUint64` and `toUint16` of
-- handler.go. What Go leaves open, a float that does not fit, is an argument.
mod Range
mod Tests
use flutter_pion_bridge.Prelude.{
  ℕ, ℤ, pos, negsuc, ◌-◌, ◌^◌, ◌%◌, ◌*◌, Option, none, some, ltb, if◌then◌else◌,
}
use flutter_pion_bridge.Types.{
  Value, int, int8, int16, int32, int64, uint, uint8, uint16, uint32, uint64, float32, float64,
}

-- The conversions of floats, by bit pattern: truncation where the result fits, and a value of the
-- compiler's choice where it does not.
pub record Floats : Type 0 where
  pub f32_int64 : ℕ → ℤ
  pub f64_int64 : ℕ → ℤ
  pub f32_uint64 : ℕ → ℕ
  pub f64_uint64 : ℕ → ℕ
  pub f32_uint16 : ℕ → ℕ
  pub f64_uint16 : ℕ → ℕ

-- Two's complement: an integer kept in `w` bits, and `w` bits read as a signed number.
abbrev pub to_bits : ℕ → ℤ → ℕ
to_bits w (pos n) = n % 2 ^ w
to_bits w (negsuc n) = 2 ^ w - 1 - n % 2 ^ w

abbrev pub from_bits : ℕ → ℕ → ℤ
from_bits w n =
    if ltb (2 * (n % 2 ^ w)) (2 ^ w) then pos (n % 2 ^ w) else negsuc (2 ^ w - 1 - n % 2 ^ w)

unfoldable pub to_int : Floats → Value → Option ℤ
to_int fl (int n) = some n
to_int fl (int8 n) = some n
to_int fl (int16 n) = some n
to_int fl (int32 n) = some n
to_int fl (int64 n) = some n
to_int fl (uint n) = some (from_bits 64 n)
to_int fl (uint8 n) = some (pos n)
to_int fl (uint16 n) = some (pos n)
to_int fl (uint32 n) = some (pos n)
to_int fl (uint64 n) = some (from_bits 64 n)
to_int fl (float32 x) = some (fl.f32_int64 x)
to_int fl (float64 x) = some (fl.f64_int64 x)
to_int fl _ = none

unfoldable pub to_uint64 : Floats → Value → Option ℕ
to_uint64 fl (int n) = some (to_bits 64 n)
to_uint64 fl (int8 n) = some (to_bits 64 n)
to_uint64 fl (int16 n) = some (to_bits 64 n)
to_uint64 fl (int32 n) = some (to_bits 64 n)
to_uint64 fl (int64 n) = some (to_bits 64 n)
to_uint64 fl (uint n) = some n
to_uint64 fl (uint8 n) = some n
to_uint64 fl (uint16 n) = some n
to_uint64 fl (uint32 n) = some n
to_uint64 fl (uint64 n) = some n
to_uint64 fl (float32 x) = some (fl.f32_uint64 x)
to_uint64 fl (float64 x) = some (fl.f64_uint64 x)
to_uint64 fl _ = none

unfoldable pub to_uint16 : Floats → Value → Option ℕ
to_uint16 fl (int n) = some (to_bits 16 n)
to_uint16 fl (int8 n) = some (to_bits 16 n)
to_uint16 fl (int16 n) = some (to_bits 16 n)
to_uint16 fl (int32 n) = some (to_bits 16 n)
to_uint16 fl (int64 n) = some (to_bits 16 n)
to_uint16 fl (uint n) = some (n % 2 ^ 16)
to_uint16 fl (uint8 n) = some n
to_uint16 fl (uint16 n) = some n
to_uint16 fl (uint32 n) = some (n % 2 ^ 16)
to_uint16 fl (uint64 n) = some (n % 2 ^ 16)
to_uint16 fl (float32 x) = some (fl.f32_uint16 x)
to_uint16 fl (float64 x) = some (fl.f64_uint16 x)
to_uint16 fl _ = none
