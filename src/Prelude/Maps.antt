-- ===== src/Prelude/Maps.antt =====
-- Go maps with string keys as association lists: `m[k]`, `m[k] = v`, `delete(m, k)`.
-- The order of a list stands for the iteration order of the map, which Go leaves open.
use Prim.Native.Nat.{◌≤◌, ◌<◌}
use Prim.Native.String.{String}
use mathlib.Core.Path.{◌≡◌, refl}
use mathlib.Core.List.{List, [], ◌∷◌}
use mathlib.Core.Option.{Option, none, some}
use native.Mathlib.Omega.{arith}
use text.Mathlib.Text.{◌==◌}
use text.Mathlib.TextEquality.{eq_iff}
use flutter_pion_bridge.Prelude.Tests.{if◌then◌else◌}
use flutter_pion_bridge.Prelude.Lists.{length}

abbrev pub Map {ℓ} : Type ℓ → Type ℓ
Map V = List (String × V)

module _ {ℓ} {V : Type ℓ} where
  unfoldable pub get : Map V → String → Option V
  get [] k = none
  get ((j, v) ∷ m) k = if j == k then some v else get m k

  unfoldable pub delete : Map V → String → Map V
  delete [] k = []
  delete ((j, v) ∷ m) k = let rest = delete m k in if j == k then rest else (j, v) ∷ rest

  unfoldable pub put : Map V → String → V → Map V
  put [] k v = (k, v) ∷ []
  put ((j, w) ∷ m) k v = if j == k then (k, v) ∷ m else (j, w) ∷ put m k v

  unfoldable pub keys : Map V → List String
  keys [] = []
  keys ((k, v) ∷ m) = k ∷ keys m

  pub get-put :
      (m : Map V) (k j : String) (v : V) → get (put m k v) j ≡ (if k == j then some v else get m j)
  unfolding get put
  get-put [] k j v = refl
  get-put ((i, w) ∷ m) k j v = ground (arith, eq_iff k j, eq_iff i k, eq_iff i j, get-put m k j v)

  pub get-delete :
      (m : Map V) (k j : String) → get (delete m k) j ≡ (if k == j then none else get m j)
  unfolding get delete
  get-delete [] k j = ground arith
  get-delete ((i, w) ∷ m) k j = ground (arith, eq_iff k j, eq_iff i k, eq_iff i j, get-delete m k j)

  abbrev pub empty : Map V
  empty = []

  pub get-empty : (k : String) → get empty k ≡ none
  unfolding get
  get-empty k = refl

  pub length-delete-le : (m : Map V) (k : String) → length (delete m k) ≤ length m
  unfolding delete
  length-delete-le [] k = omega arith
  length-delete-le ((i, w) ∷ m) k = ground (arith, length-delete-le m k)

  -- Deleting a key that is there makes the map smaller.
  pub length-delete-lt :
      (m : Map V) (k : String) {v : V} → get m k ≡ some v → length (delete m k) < length m
  unfolding get delete
  length-delete-lt [] k h = absurd (cc h)
  length-delete-lt ((i, w) ∷ m) k {v} h =
      ground (arith, length-delete-lt m k {v = v}, length-delete-le m k)

pub ruleset map_laws = (get-put, get-delete, get-empty)
