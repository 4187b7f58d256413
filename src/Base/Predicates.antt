-- ===== src/Base/Predicates.antt =====
-- Predicates on lists by recursion, which the tactics read.
use mathlib.Core.Path.{◌≡◌, sym, subst}
use mathlib.Core.Logic.{◌⊎◌, inl, inr}
use mathlib.Core.List.{List, [], ◌∷◌, ◌++◌}

module _ {ℓ κ} {A : Type ℓ} where
  abbrev pub All : (A → Type κ) → List A → Type κ
  All P [] = Unit
  All P (x ∷ xs) = P x × All P xs

  pub All-append : (P : A → Type κ) (xs ys : List A) → All P xs → All P ys → All P (xs ++ ys)
  All-append P [] ys h k = k
  All-append P (x ∷ xs) ys h k = (h.0, All-append P xs ys h.1 k)

module _ {A : Type 0} where
  abbrev pub In : A → List A → Type 0
  In x [] = ⊥
  In x (y ∷ ys) = (x ≡ y) ⊎ In x ys

  pub All-In {κ} : (P : A → Type κ) (xs : List A) (x : A) → All P xs → In x xs → P x
  All-In P [] x h m = elim m [ ]
  All-In P (y ∷ ys) x h (inl e) = subst P (sym e) h.0
  All-In P (y ∷ ys) x h (inr m) = All-In P ys x h.1 m
