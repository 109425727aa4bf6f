-- ===== src/Convert/Tests.antt =====
-- The conversions on concrete values.
use flutter_pion_bridge.Prelude.{◌⊎◌, false, true, ℤ, pos, negsuc, ◌≡◌, refl, some, none, arith}
use flutter_pion_bridge.Types.{Value, int64, uint64, str, int8}
use flutter_pion_bridge.Convert.{Floats, to_bits, to_int, to_uint64, to_uint16}
use flutter_pion_bridge.Convert.Range.{accepted, is_integer, IsSigned, conversions_agree}

abbrev pub zero_floats : Floats
zero_floats = record {
  f32_int64 = λ x. pos 0;
  f64_int64 = λ x. pos 0;
  f32_uint64 = λ x. 0;
  f64_uint64 = λ x. 0;
  f32_uint16 = λ x. 0;
  f64_uint16 = λ x. 0;
}

abbrev minus_one : Value
minus_one = int8 (negsuc 0)

conversions_agree_example :
    (accepted (to_int zero_floats minus_one) ≡ true)
    × (accepted (to_uint64 zero_floats minus_one) ≡ true)
    × (accepted (to_uint16 zero_floats minus_one) ≡ true)
    × ((is_integer minus_one ≡ false)
        ⊎ ((n : ℤ) × (to_int zero_floats minus_one ≡ some n)
            × (to_uint64 zero_floats minus_one ≡ some (to_bits 64 n))
            × (to_uint16 zero_floats minus_one ≡ some (to_bits 16 n))
            × IsSigned 64 n))
conversions_agree_example = conversions_agree zero_floats minus_one (omega arith)

wraps :
    (to_uint64 zero_floats (int64 (negsuc 0)) ≡ some 18446744073709551615)
    × (to_uint16 zero_floats (int64 (pos 65537)) ≡ some 1)
    × (to_int zero_floats (uint64 18446744073709551615) ≡ some (negsuc 0))
    × (to_int zero_floats (str "7") ≡ none)
unfolding to_int to_uint64 to_uint16
wraps = (refl, refl, refl, refl)
