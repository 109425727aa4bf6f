-- ===== src/Result.antt =====
-- Results with an error, as Go's `(T, error)`.
use flutter_pion_bridge.Prelude.{
  String, Option, none, some, Bool, true, false, ◌≡◌, refl, arith, ◌⊎◌, inl, inr,
}

pub data Result (E A : Type 0) : Type 0 where
  failed : E → Result E A
  ok : A → Result E A

infixl 5 ◌then◌
-- `if err != nil { return err }`
abbrev pub ◌then◌ : {E A B : Type 0} → Result E A → (A → Result E B) → Result E B
failed e then f = failed e
ok a then f = f a

unfoldable pub is_ok : {E A : Type 0} → Result E A → Bool
is_ok (failed e) = false
is_ok (ok a) = true

-- A call that returns only an error.
abbrev pub checked : {E A : Type 0} → (String → E) → Option String → A → Result E A
checked wrap none a = ok a
checked wrap (some err) a = failed (wrap err)

-- A chain that succeeds has succeeded at each link.
pub then_ok :
    {E A B : Type 0} (r : Result E A) (f : A → Result E B) (b : B)
    → (r then f) ≡ ok b
    → (a : A) × (r ≡ ok a) × (f a ≡ ok b)
then_ok (failed e) f b h = absurd (ground arith)
then_ok (ok a) f b h = (a, refl, h)

pub checked_ok :
    {E A : Type 0} (wrap : String → E) (o : Option String) (a b : A)
    → checked wrap o a ≡ ok b
    → (o ≡ none) × (a ≡ b)
checked_ok wrap none a b h = (refl, ground arith)
checked_ok wrap (some e) a b h = absurd (ground arith)

pub Result-cases :
    {E A : Type 0} (r : Result E A) → ((e : E) × (r ≡ failed e)) ⊎ ((a : A) × (r ≡ ok a))
Result-cases (failed e) = inl (e, refl)
Result-cases (ok a) = inr (a, refl)
