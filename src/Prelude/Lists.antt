-- ===== src/Prelude/Lists.antt =====
-- Lists measured by native numbers, and the predicates on lists that the components share.
use Prim.Native.Nat.{ℕ, suc, ◌+◌}
use Prim.Native.String.{String}
use mathlib.Core.Path.{◌≡◌, refl}
use mathlib.Core.Bool.{Bool, false, ◌||◌}
use mathlib.Core.List.{List, [], ◌∷◌, ◌++◌}
use native.Mathlib.Omega.{arith}
use text.Mathlib.Text.{◌==◌}
use text.Mathlib.TextEquality.{eq_iff}
use flutter_pion_bridge.Prelude.Tests.{if◌then◌else◌}

module _ {ℓ} {A : Type ℓ} where
  abbrev pub length : List A → ℕ
  length [] = 0
  length (x ∷ xs) = suc (length xs)

  pub length-append : (xs ys : List A) → length (xs ++ ys) ≡ length xs + length ys
  length-append [] ys = omega arith
  length-append (x ∷ xs) ys = omega (arith, length-append xs ys)

-- `All P xs` computes to a tuple.
abbrev pub All {ℓ κ} : {A : Type ℓ} → (A → Type κ) → List A → Type κ
All P [] = Unit
All P (x ∷ xs) = P x × All P xs

pub All-append {ℓ κ} :
    {A : Type ℓ} (P : A → Type κ) (xs ys : List A) → All P xs → All P ys → All P (xs ++ ys)
All-append P [] ys hx hy = hy
All-append P (x ∷ xs) ys hx hy = (hx.0, All-append P xs ys hx.1 hy)

-- Membership of a text in a list of texts, as a test.
unfoldable pub elem : String → List String → Bool
elem k [] = false
elem k (x ∷ xs) = x == k || elem k xs

pub elem-append : (k : String) (xs ys : List String) → elem k (xs ++ ys) ≡ (elem k xs || elem k ys)
unfolding elem
elem-append k [] ys = refl
elem-append k (x ∷ xs) ys = ground (arith, elem-append k xs ys)

-- Every occurrence of a text is taken out.
unfoldable pub without : String → List String → List String
without k [] = []
without k (x ∷ xs) = let rest = without k xs in if x == k then rest else x ∷ rest

-- The first occurrence only: `append(kids[:i], kids[i+1:]...)` at the first match.
unfoldable pub erase : String → List String → List String
erase k [] = []
erase k (x ∷ xs) = if x == k then xs else x ∷ erase k xs

pub elem-erase_ne :
    (k j : String) (xs : List String) → (k == j) ≡ false → elem j (erase k xs) ≡ elem j xs
unfolding elem erase
elem-erase_ne k j [] h = refl
elem-erase_ne k j (x ∷ xs) h =
    ground (arith, elem-erase_ne k j xs h, eq_iff k j, eq_iff x j, eq_iff x k)

-- No text stands twice.
abbrev pub IsDistinct : List String → Type 0
IsDistinct [] = Unit
IsDistinct (x ∷ xs) = (elem x xs ≡ false) × IsDistinct xs

pub elem-erase_self : (k : String) (xs : List String) → IsDistinct xs → elem k (erase k xs) ≡ false
unfolding elem erase
elem-erase_self k [] d = refl
elem-erase_self k (x ∷ xs) d = ground (arith, elem-erase_self k xs d.1, eq_iff x k, d.0)

pub elem-erase_none :
    (k j : String) (xs : List String) → elem j xs ≡ false → elem j (erase k xs) ≡ false
unfolding elem erase
elem-erase_none k j [] h = refl
elem-erase_none k j (x ∷ xs) h = ground (arith, elem-erase_none k j xs)

pub erase-IsDistinct : (k : String) (xs : List String) → IsDistinct xs → IsDistinct (erase k xs)
unfolding erase
erase-IsDistinct k [] d = tt
erase-IsDistinct k (x ∷ xs) d =
    ground (arith, erase-IsDistinct k xs d.1, elem-erase_none k x xs d.0)

pub nil_of_no_elem : (xs : List String) → ((k : String) → elem k xs ≡ false) → xs ≡ []
unfolding elem
nil_of_no_elem [] h = refl
nil_of_no_elem (x ∷ xs) h = ground (arith, h x, eq_iff x x)

pub erase_none : (k : String) (xs : List String) → elem k xs ≡ false → erase k xs ≡ xs
unfolding elem erase
erase_none k [] h = refl
erase_none k (x ∷ xs) h = ground (arith, erase_none k xs)
