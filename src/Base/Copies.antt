-- ===== src/Base/Copies.antt =====
-- What a copy into an array leaves in it: its own bytes there, the old ones elsewhere.
use Prim.Native.Nat.{ℕ, zero, suc, ◌+◌, ◌≤◌, ◌<◌}
use mathlib.Core.Path.{◌≡◌, refl, ap, subst}
use mathlib.Core.Logic.{◌⊎◌, inl, inr}
use mathlib.Core.Bool.{true}
use mathlib.Core.Option.{none, some}
use mathlib.Core.List.{List, [], ◌∷◌, ◌++◌}
use native.Mathlib.Omega.{arith}
use grage_fat.Base.Tests.{leb, leb→le, Bool-cases}
use grage_fat.Base.Lists.{length, take, drop, length-append, length-take, length-drop}
use grage_fat.Base.Bytes.{copy_into, copy_from, take_append}

pub le→leb : (a b : ℕ) → a ≤ b → leb a b ≡ true
le→leb a b h = ground arith

module _ {ℓ} {A : Type ℓ} where
  drop_past :
      (b : ℕ) (xs ys : List A)
      → length ys ≤ b
      → length ys ≤ length xs
      → drop b (ys ++ drop (length ys) xs) ≡ drop b xs
  drop_past b xs [] h k = refl
  drop_past zero xs (y ∷ ys) h k = absurd (omega arith)
  drop_past (suc b) [] (y ∷ ys) h k = absurd (omega arith)
  drop_past (suc b) (x ∷ xs) (y ∷ ys) h k = drop_past b xs ys (omega arith) (omega arith)

  drop_splice :
      (b at : ℕ) (xs ys : List A)
      → at + length ys ≤ b
      → at + length ys ≤ length xs
      → drop b (take at xs ++ (ys ++ drop (at + length ys) xs)) ≡ drop b xs
  drop_splice b zero xs ys h k =
      let same : 0 + length ys ≡ length ys = omega arith in
      rw same (drop_past b xs ys (omega arith) (omega arith))
  drop_splice zero (suc at) xs ys h k = absurd (omega arith)
  drop_splice (suc b) (suc at) [] ys h k = absurd (omega arith)
  drop_splice (suc b) (suc at) (x ∷ xs) ys h k =
      let next : suc at + length ys ≡ suc (at + length ys) = omega arith in
      rw next (drop_splice b at xs ys (omega arith) (omega arith))

  take_before :
      (n at : ℕ) (xs zs : List A) → n ≤ at → at ≤ length xs → take n (take at xs ++ zs) ≡ take n xs
  take_before zero at xs zs h k = refl
  take_before (suc n) zero xs zs h k = absurd (omega arith)
  take_before (suc n) (suc at) [] zs h k = absurd (omega arith)
  take_before (suc n) (suc at) (x ∷ xs) zs h k =
      ap (◌∷◌ x) (take_before n at xs zs (omega arith) (omega arith))

  take-drop_before :
      (n b at : ℕ) (xs zs : List A)
      → b + n ≤ at
      → at ≤ length xs
      → take n (drop b (take at xs ++ zs)) ≡ take n (drop b xs)
  take-drop_before n zero at xs zs h k = take_before n at xs zs (omega arith) k
  take-drop_before n (suc b) zero xs zs h k = absurd (omega arith)
  take-drop_before n (suc b) (suc at) [] zs h k = absurd (omega arith)
  take-drop_before n (suc b) (suc at) (x ∷ xs) zs h k =
      take-drop_before n b at xs zs (omega arith) (omega arith)

  pub take-drop_at :
      (at : ℕ) (xs ys zs : List A)
      → at ≤ length xs
      → take (length ys) (drop at (take at xs ++ (ys ++ zs))) ≡ ys
  take-drop_at zero xs ys zs h = take_append ys zs
  take-drop_at (suc at) [] ys zs h = absurd (omega arith)
  take-drop_at (suc at) (x ∷ xs) ys zs h = take-drop_at at xs ys zs (omega arith)

  -- When the copy is within the array, what the array holds afterwards.
  pub record IsCopied (xs : List A) (at : ℕ) (ys zs : List A) : Type ℓ where
    pub fits : at + length ys ≤ length xs
    pub same_length : length zs ≡ length xs
    pub copied : copy_from zs at (length ys) ≡ some ys
    pub kept : (b n : ℕ) → (at + length ys ≤ b) ⊎ (b + n ≤ at) → copy_from zs b n ≡ copy_from xs b n

  splice-IsCopied :
      (xs : List A) (at : ℕ) (ys : List A)
      → at + length ys ≤ length xs
      → IsCopied xs at ys (take at xs ++ (ys ++ drop (at + length ys) xs))
  unfolding copy_from
  splice-IsCopied xs at ys h = record {
    fits = h;
    same_length = same;
    copied =
        rw (le→leb (at + length ys) (length zs) (omega (arith, same)))
          (ap some (take-drop_at at xs ys (drop (at + length ys) xs) (omega arith)));
    kept = λ b n c. rw same (ground (arith, same_bytes b n c));
  }
    where
      zs : List A
      zs = take at xs ++ (ys ++ drop (at + length ys) xs)

      same_bytes :
          (b n : ℕ) → (at + length ys ≤ b) ⊎ (b + n ≤ at) → take n (drop b zs) ≡ take n (drop b xs)
      same_bytes b n (inl c) = ap (take n) (drop_splice b at xs ys c h)
      same_bytes b n (inr c) =
          take-drop_before n b at xs (ys ++ drop (at + length ys) xs) c (omega arith)

      same : length zs ≡ length xs
      same = omega (
        arith,
        length-append (take at xs) (ys ++ drop (at + length ys) xs),
        length-append ys (drop (at + length ys) xs),
        length-take at xs,
        length-drop (at + length ys) xs,
      )

  pub copy_into-IsCopied :
      (xs : List A) (at : ℕ) (ys zs : List A) → copy_into xs at ys ≡ some zs → IsCopied xs at ys zs
  unfolding copy_into
  copy_into-IsCopied xs at ys zs e = elim (Bool-cases (leb (at + length ys) (length xs))) [
    | inl f ↦
        subst (IsCopied xs at ys) (some_injective (rw f at e))
          (splice-IsCopied xs at ys (leb→le _ _ f))
    | inr f ↦ absurd (none_lem (rw f at e))
  ]
    where
      none_lem : {x : List A} → none ≡ some x → ⊥
      none_lem n = cc

      some_injective : {x y : List A} → some x ≡ some y → x ≡ y
      some_injective n = cc

  -- A copy within the array is made.
  pub copy_into_fits :
      (xs : List A) (at : ℕ) (ys : List A)
      → at + length ys ≤ length xs
      → (zs : List A) × (copy_into xs at ys ≡ some zs)
  unfolding copy_into
  copy_into_fits xs at ys h = rw (le→leb (at + length ys) (length xs) h) (_, refl)

  pub copy_into_outside :
      (xs : List A) (at : ℕ) (ys : List A) → length xs < at + length ys → copy_into xs at ys ≡ none
  unfolding copy_into
  copy_into_outside xs at ys h = ground arith

  -- What a copy within its bounds reads, and what it leaves.
  pub copy_from-within :
      (xs : List A) (at n : ℕ) → at + n ≤ length xs → copy_from xs at n ≡ some (take n (drop at xs))
  unfolding copy_from
  copy_from-within xs at n h = rw (le→leb (at + n) (length xs) h)

  abbrev pub spliced : List A → ℕ → List A → List A
  spliced xs at ys = take at xs ++ (ys ++ drop (at + length ys) xs)

  pub copy_into-within :
      (xs : List A) (at : ℕ) (ys : List A)
      → at + length ys ≤ length xs
      → copy_into xs at ys ≡ some (spliced xs at ys)
  unfolding copy_into
  copy_into-within xs at ys h = rw (le→leb (at + length ys) (length xs) h)

  pub length-spliced :
      (xs : List A) (at : ℕ) (ys : List A)
      → at + length ys ≤ length xs
      → length (spliced xs at ys) ≡ length xs
  length-spliced xs at ys h = (splice-IsCopied xs at ys h).same_length
