-- ===== src/Trace/Slots/Counting.antt =====
-- How the slots of trace.go are counted, and the keys of its index.
use flutter_pion_bridge.Prelude.{
  ℕ, ◌+◌, ◌≡◌, refl, String, ◌==◌, Bool, false, ◌||◌, none, some, List, [], ◌∷◌, Map, get, put,
  delete, keys, elem, IsDistinct, ltb, ◌=ℕ◌, if◌then◌else◌, arith, eq_iff,
}

-- Slots below 15, which are not shared.
abbrev pub own : ℕ → ℕ
own idx = if ltb idx 15 then 1 else 0

unfoldable pub used : Map ℕ → ℕ
used [] = 0
used ((k, idx) ∷ m) = own idx + used m

unfoldable pub mem : ℕ → List ℕ → Bool
mem i [] = false
mem i (x ∷ xs) = x =ℕ i || mem i xs

abbrev pub DistinctSlots : List ℕ → Type 0
DistinctSlots [] = Unit
DistinctSlots (x ∷ xs) = (mem x xs ≡ false) × DistinctSlots xs

elem-keys-none : (m : Map ℕ) (k : String) → get m k ≡ none → elem k (keys m) ≡ false
unfolding get keys elem
elem-keys-none [] k h = refl
elem-keys-none ((j, v) ∷ m) k h = ground (arith, elem-keys-none m k)

elem-keys-put :
    (m : Map ℕ) (k j : String) (v : ℕ) → elem j (keys (put m k v)) ≡ (k == j || elem j (keys m))
unfolding put keys elem
elem-keys-put [] k j v = refl
elem-keys-put ((i, w) ∷ m) k j v =
    ground (arith, elem-keys-put m k j v, eq_iff i k, eq_iff i j, eq_iff k j)

elem-keys-delete :
    (m : Map ℕ) (k j : String) → elem j (keys m) ≡ false → elem j (keys (delete m k)) ≡ false
unfolding delete keys elem
elem-keys-delete [] k j h = refl
elem-keys-delete ((i, w) ∷ m) k j h = ground (arith, elem-keys-delete m k j)

pub keys-put-IsDistinct :
    (m : Map ℕ) (k : String) (v : ℕ) → IsDistinct (keys m) → IsDistinct (keys (put m k v))
unfolding put keys elem
keys-put-IsDistinct [] k v d = (refl, tt)
keys-put-IsDistinct ((i, w) ∷ m) k v d =
    ground (arith, keys-put-IsDistinct m k v d.1, elem-keys-put m k i v, eq_iff i k, eq_iff k i)

pub keys-delete-IsDistinct :
    (m : Map ℕ) (k : String) → IsDistinct (keys m) → IsDistinct (keys (delete m k))
unfolding delete keys
keys-delete-IsDistinct [] k d = tt
keys-delete-IsDistinct ((i, w) ∷ m) k d =
    ground (arith, keys-delete-IsDistinct m k d.1, elem-keys-delete m k i d.0)

pub used-put : (m : Map ℕ) (k : String) (v : ℕ) → get m k ≡ none → used (put m k v) ≡ own v + used m
unfolding put get used
used-put [] k v h = omega arith
used-put ((i, w) ∷ m) k v h = ground (arith, used-put m k v)

used-delete_none : (m : Map ℕ) (k : String) → elem k (keys m) ≡ false → used (delete m k) ≡ used m
unfolding delete keys elem used
used-delete_none [] k h = refl
used-delete_none ((i, w) ∷ m) k h = ground (arith, used-delete_none m k)

pub used-delete :
    (m : Map ℕ) (k : String) (v : ℕ)
    → IsDistinct (keys m)
    → get m k ≡ some v
    → own v + used (delete m k) ≡ used m
unfolding delete get keys used
used-delete [] k v d h = absurd (ground arith)
used-delete ((i, w) ∷ m) k v d h =
    ground (arith, used-delete m k v d.1, used-delete_none m k, eq_iff i k, d.0)
