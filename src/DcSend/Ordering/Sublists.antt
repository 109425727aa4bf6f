-- ===== src/DcSend/Ordering/Sublists.antt =====
-- One list inside another, in its order: what of the queue of dcsend.go has been sent.
use flutter_pion_bridge.Prelude.{List, [], ◌∷◌, ◌++◌}

-- The first list, in order, within the second.
pub data Within {ℓ} {A : Type ℓ} : List A → List A → Type ℓ where
  nil : Within [] []
  keep : {xs ys : List A} (x : A) → Within xs ys → Within (x ∷ xs) (x ∷ ys)
  skip : {xs ys : List A} (y : A) → Within xs ys → Within xs (y ∷ ys)

module _ {ℓ} {A : Type ℓ} where
  Within-refl : (xs : List A) → Within xs xs
  Within-refl [] = nil
  Within-refl (x ∷ xs) = keep x (Within-refl xs)

  pub keep_last : {xs ys : List A} (z : A) → Within xs ys → Within (xs ++ z ∷ []) (ys ++ z ∷ [])
  keep_last z nil = keep z nil
  keep_last z (keep x w) = keep x (keep_last z w)
  keep_last z (skip y w) = skip y (keep_last z w)

  pub skip_last : {xs ys : List A} (z : A) → Within xs ys → Within xs (ys ++ z ∷ [])
  skip_last z nil = skip z nil
  skip_last z (keep x w) = keep x (skip_last z w)
  skip_last z (skip y w) = skip y (skip_last z w)

  pub Within-append : {xs ys : List A} (zs : List A) → Within xs ys → Within xs (ys ++ zs)
  Within-append [] nil = nil
  Within-append (z ∷ zs) nil = skip z (Within-append zs nil)
  Within-append zs (keep x w) = keep x (Within-append zs w)
  Within-append zs (skip y w) = skip y (Within-append zs w)
