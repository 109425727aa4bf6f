-- ===== src/Convert/Range.antt =====
-- How the three conversions of convert agree on the integers that a Go value can hold.
use flutter_pion_bridge.Prelude.{
  Bool, true, false, Option, none, ◌⊎◌, inl, inr, ℕ, ℤ, pos, negsuc, ◌-◌, ◌^◌, ◌%◌, ◌<◌, ◌≡◌, refl,
  some, arith,
}
use flutter_pion_bridge.Types.{
  Value, int, int8, int16, int32, int64, uint, uint8, uint16, uint32, uint64, float32, float64,
}
use flutter_pion_bridge.Convert.{Floats, to_bits, from_bits, to_int, to_uint64, to_uint16}

-- The values of a signed Go type of `w` bits.
abbrev pub IsSigned : ℕ → ℤ → Type 0
IsSigned w (pos n) = n < 2 ^ (w - 1)
IsSigned w (negsuc n) = n < 2 ^ (w - 1)

-- A value that its Go type can hold; the bits of a float are not looked at.
abbrev pub IsInRange : Value → Type 0
IsInRange (int n) = IsSigned 64 n
IsInRange (int8 n) = IsSigned 8 n
IsInRange (int16 n) = IsSigned 16 n
IsInRange (int32 n) = IsSigned 32 n
IsInRange (int64 n) = IsSigned 64 n
IsInRange (uint n) = n < 2 ^ 64
IsInRange (uint8 n) = n < 2 ^ 8
IsInRange (uint16 n) = n < 2 ^ 16
IsInRange (uint32 n) = n < 2 ^ 32
IsInRange (uint64 n) = n < 2 ^ 64
IsInRange _ = Unit

abbrev pub is_integer : Value → Bool
is_integer (int n) = true
is_integer (int8 n) = true
is_integer (int16 n) = true
is_integer (int32 n) = true
is_integer (int64 n) = true
is_integer (uint n) = true
is_integer (uint8 n) = true
is_integer (uint16 n) = true
is_integer (uint32 n) = true
is_integer (uint64 n) = true
is_integer _ = false

abbrev pub is_number : Value → Bool
is_number (float32 x) = true
is_number (float64 x) = true
is_number v = is_integer v

abbrev pub accepted : {A : Type 0} → Option A → Bool
accepted none = false
accepted (some a) = true

from_bits_fits : (n : ℕ) → IsSigned 64 (from_bits 64 n)
from_bits_fits n = ground arith

to_bits-from_bits : (n : ℕ) → n < 2 ^ 64 → to_bits 64 (from_bits 64 n) ≡ n
to_bits-from_bits n h = ground arith

to_bits_16 : (n : ℕ) → to_bits 16 (from_bits 64 n) ≡ n % 2 ^ 16
to_bits_16 n = ground arith

uint_agree :
    (n : ℕ)
    → n < 2 ^ 64
    → (to_bits 64 (from_bits 64 n) ≡ n)
      × (to_bits 16 (from_bits 64 n) ≡ n % 2 ^ 16)
      × IsSigned 64 (from_bits 64 n)
uint_agree n h = (to_bits-from_bits n h, to_bits_16 n, from_bits_fits n)

-- Each of the three conversions accepts exactly the numbers, floats included; and every integer that its
-- Go type can hold has one reading as an int64, of which `to_uint64` and `to_uint16` return the value
-- modulo 2 ^ 64 and 2 ^ 16.
pub conversions_agree :
    (fl : Floats) (v : Value)
    → IsInRange v
    → (accepted (to_int fl v) ≡ is_number v)
      × (accepted (to_uint64 fl v) ≡ is_number v)
      × (accepted (to_uint16 fl v) ≡ is_number v)
      × ((is_integer v ≡ false)
          ⊎ ((n : ℤ) × (to_int fl v ≡ some n)
              × (to_uint64 fl v ≡ some (to_bits 64 n))
              × (to_uint16 fl v ≡ some (to_bits 16 n))
              × IsSigned 64 n))
unfolding to_int to_uint64 to_uint16
conversions_agree fl (int n) h = (refl, refl, refl, inr (n, refl, refl, refl, h))
conversions_agree fl (int64 n) h = (refl, refl, refl, inr (n, refl, refl, refl, h))
conversions_agree fl (int8 n) h = (refl, refl, refl, inr (n, refl, refl, refl, ground arith))
conversions_agree fl (int16 n) h = (refl, refl, refl, inr (n, refl, refl, refl, ground arith))
conversions_agree fl (int32 n) h = (refl, refl, refl, inr (n, refl, refl, refl, ground arith))
conversions_agree fl (uint n) h = (
  refl,
  refl,
  refl,
  inr (
    from_bits 64 n,
    refl,
    ground (arith, uint_agree n h),
    ground (arith, uint_agree n h),
    from_bits_fits n,
  ),
)
conversions_agree fl (uint64 n) h = (
  refl,
  refl,
  refl,
  inr (
    from_bits 64 n,
    refl,
    ground (arith, uint_agree n h),
    ground (arith, uint_agree n h),
    from_bits_fits n,
  ),
)
conversions_agree fl (uint8 n) h =
    (refl, refl, refl, inr (pos n, refl, ground arith, ground arith, ground arith))
conversions_agree fl (uint16 n) h =
    (refl, refl, refl, inr (pos n, refl, ground arith, ground arith, ground arith))
conversions_agree fl (uint32 n) h =
    (refl, refl, refl, inr (pos n, refl, ground arith, ground arith, ground arith))
conversions_agree fl _ h = (refl, refl, refl, inl refl)
