-- ===== src/Settings/Together.antt =====
-- Which payloads `applySettingsEngine` of settings_engine.go accepts.
use flutter_pion_bridge.Prelude.{
  Option-cases, inl, inr, ltb, ℕ, ℤ, ◌≡◌, refl, String, Bool, true, false, not, ◌&&◌, ◌||◌, Option,
  none, some, List, [], ◌∷◌, ◌++◌, arith, if◌then◌else◌,
}
use flutter_pion_bridge.Types.{Values, nil, cons, str, Fields, at, as_list, as_bool}
use flutter_pion_bridge.Convert.{Floats, to_int, to_bits}
use flutter_pion_bridge.Result.{Result, failed, ok, is_ok, ◌then◌}
use flutter_pion_bridge.Settings.{
  Setting, Engine, set_ports, set_timeouts, set_renomination, interval, whitelist, set_whitelist,
  apply_settings_engine, interface_filter,
}

abbrev pub given : {A : Type 0} → Option A → Bool
given none = false
given (some a) = true

-- Pion refuses a port range exactly if it is empty, and what it says of a renomination interval does
-- not depend on the settings made before.
pub record IsPlain (en : Engine) : Type 0 where
  pub ports : (se : List Setting) (lo hi : ℕ) → given (en.port_range_error se lo hi) ≡ ltb hi lo
  pub refuses : Option ℤ → Bool
  pub renomination :
      (se : List Setting) (ms : Option ℤ) → given (en.renomination_error se ms) ≡ refuses ms

-- The values are given together.
abbrev pub all_three : Bool → Bool → Bool → Bool
all_three a b c = (a && (b && c)) || (not a && (not b && not c))

-- Both ports or none, and no empty range.
abbrev pub ports_fit : Option ℤ → Option ℤ → Bool
ports_fit none none = true
ports_fit (some lo) (some hi) = not (ltb (to_bits 16 hi) (to_bits 16 lo))
ports_fit _ _ = false

abbrev pub renomination_fits : (Option ℤ → Bool) → Option Bool → Option ℤ → Bool
renomination_fits refuses (some true) ms = not (refuses (interval ms))
renomination_fits refuses _ ms = true

unfoldable pub all_strings : Values → Bool
all_strings nil = true
all_strings (cons (str name) vs) = all_strings vs
all_strings (cons v vs) = false

abbrev pub names_only : Option Values → Bool
names_only none = true
names_only (some vs) = all_strings vs

is_ok-then :
    {E A B : Type 0} (r : Result E A) (f : A → Result E B) {c b : Bool}
    → is_ok r ≡ c
    → ((a : A) → is_ok (f a) ≡ b)
    → is_ok (r then f) ≡ (c && b)
unfolding is_ok
is_ok-then (failed e) f {c = c} h k = ground arith
is_ok-then (ok a) f {c = c} h k = ground (arith, k a)

is_ok-set_ports :
    (en : Engine) (lo hi : Option ℤ) (se : List Setting)
    → IsPlain en
    → is_ok (set_ports en lo hi se) ≡ ports_fit lo hi
unfolding is_ok set_ports
is_ok-set_ports en none none se v = refl
is_ok-set_ports en none (some hi) se v = refl
is_ok-set_ports en (some lo) none se v = refl
is_ok-set_ports en (some lo) (some hi) se v =
    elim (Option-cases (en.port_range_error se (to_bits 16 lo) (to_bits 16 hi))) [
      | inl e ↦ ground (arith, e, v.ports se (to_bits 16 lo) (to_bits 16 hi))
      | inr (x, e) ↦ ground (arith, e, v.ports se (to_bits 16 lo) (to_bits 16 hi))
    ]

is_ok-set_timeouts :
    (disc fail keep : Option ℤ) (se : List Setting)
    → is_ok (set_timeouts disc fail keep se) ≡ all_three (given disc) (given fail) (given keep)
unfolding is_ok set_timeouts
is_ok-set_timeouts none none none se = refl
is_ok-set_timeouts none none (some k) se = refl
is_ok-set_timeouts none (some f) none se = refl
is_ok-set_timeouts none (some f) (some k) se = refl
is_ok-set_timeouts (some d) none none se = refl
is_ok-set_timeouts (some d) none (some k) se = refl
is_ok-set_timeouts (some d) (some f) none se = refl
is_ok-set_timeouts (some d) (some f) (some k) se = refl

is_ok-set_renomination :
    (en : Engine) (v : Option Bool) (ms : Option ℤ) (se : List Setting)
    → (p : IsPlain en) → is_ok (set_renomination en v ms se) ≡ renomination_fits p.refuses v ms
unfolding is_ok set_renomination
is_ok-set_renomination en none ms se v = refl
is_ok-set_renomination en (some false) ms se v = refl
is_ok-set_renomination en (some true) ms se v =
    elim (Option-cases (en.renomination_error se (interval ms))) [
      | inl e ↦ ground (arith, e, v.renomination se (interval ms))
      | inr (x, e) ↦ ground (arith, e, v.renomination se (interval ms))
    ]

is_ok-whitelist : (vs : Values) → is_ok (whitelist vs) ≡ all_strings vs
unfolding is_ok whitelist all_strings
is_ok-whitelist nil = refl
is_ok-whitelist (cons (str name) vs) = ground (
  arith,
  is_ok-then (whitelist vs) (λ names. ok (name ∷ names)) {b = true} (is_ok-whitelist vs)
      (λ a. refl),
)
is_ok-whitelist (cons v vs) = refl

is_ok-set_whitelist :
    (vs : Option Values) (se : List Setting) → is_ok (set_whitelist vs se) ≡ names_only vs
unfolding set_whitelist
is_ok-set_whitelist none se = unfold is_ok in refl
is_ok-set_whitelist (some vs) se = ground (
  arith,
  is_ok-then (whitelist vs) (λ names. ok (se ++ interface_filter names ∷ [])) {b = true}
      (is_ok-whitelist vs) (λ a. unfold is_ok in refl),
)

-- Where pion refuses exactly the empty port ranges, the settings are accepted exactly if the two ports are
-- given together and their range, as 16-bit numbers, is not empty, the three ICE timeouts are given
-- together, pion takes the renomination interval if renomination is asked for, and a list of
-- interfaces has only strings; no other key, missing or of any type, makes it fail.
pub is_ok-apply_settings_engine :
    (fl : Floats) (en : Engine) (cfg : Fields) (v : IsPlain en)
    → let num = λ (key : String). to_int fl (at cfg key) in
      is_ok (apply_settings_engine fl en cfg) ≡ (
        ports_fit (num "ephemeral_udp_port_min") (num "ephemeral_udp_port_max")
        && (all_three
              (given (num "ice_disconnected_timeout_ms"))
              (given (num "ice_failed_timeout_ms"))
              (given (num "ice_keepalive_ms"))
            && (renomination_fits v.refuses
                  (as_bool (at cfg "ice_renomination"))
                  (num "ice_renomination_interval_ms")
                && names_only (as_list (at cfg "interface_whitelist")))))
unfolding apply_settings_engine
is_ok-apply_settings_engine fl en cfg v = is_ok-then _ _ (is_ok-set_ports en _ _ _ v) (λ _.
    is_ok-then _ _ (is_ok-set_timeouts _ _ _ _)
      (λ _. is_ok-then _ _ (is_ok-set_renomination en _ _ _ v) (λ _. is_ok-set_whitelist _ _)))
