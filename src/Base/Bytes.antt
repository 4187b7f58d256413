-- ===== src/Base/Bytes.antt =====
-- Numbers in memory as a little-endian machine lays them out, and copies into byte arrays.
use Prim.Native.Nat.{ℕ, zero, suc, ◌+◌, ◌*◌, ◌/◌, ◌%◌, ◌^◌, ◌<◌, ◌≤◌}
use mathlib.Core.Path.{◌≡◌, refl, ap}
use mathlib.Core.Option.{Option, none, some}
use mathlib.Core.List.{List, [], ◌∷◌, ◌++◌}
use native.Mathlib.Omega.{arith}
use grage_fat.Base.Tests.{leb, if◌then◌else◌}
use grage_fat.Base.Lists.{length, take, drop}

-- The `n` bytes of a number.
abbrev pub bytes_of : ℕ → ℕ → List ℕ
bytes_of zero x = []
bytes_of (suc n) x = (x % 256) ∷ bytes_of n (x / 256)

abbrev pub value_of : List ℕ → ℕ
value_of [] = 0
value_of (b ∷ bs) = b + 256 * value_of bs

abbrev pub IsBytes : List ℕ → Type 0
IsBytes [] = Unit
IsBytes (b ∷ bs) = (b < 256) × IsBytes bs

pub length-bytes_of : (n x : ℕ) → length (bytes_of n x) ≡ n
length-bytes_of zero x = refl
length-bytes_of (suc n) x = ap suc (length-bytes_of n (x / 256))

pub value_of-bytes_of16 : (x : ℕ) → x < 2 ^ 16 → value_of (bytes_of 2 x) ≡ x
value_of-bytes_of16 x h = omega arith

pub value_of-bytes_of32 : (x : ℕ) → x < 2 ^ 32 → value_of (bytes_of 4 x) ≡ x
value_of-bytes_of32 x h = omega arith

pub bytes_of-value_of : (bs : List ℕ) → IsBytes bs → bytes_of (length bs) (value_of bs) ≡ bs
bytes_of-value_of [] h = refl
bytes_of-value_of (b ∷ bs) h =
    let low : (b + 256 * value_of bs) % 256 ≡ b = omega arith in
    let high : (b + 256 * value_of bs) / 256 ≡ value_of bs = omega arith in
    rw (low, high) (ap (◌∷◌ b) (bytes_of-value_of bs h.1))

module _ {ℓ} {A : Type ℓ} where
  -- `memcpy(xs + at, ys, length ys)`; `none` is a write past the end of the array.
  unfoldable pub copy_into : List A → ℕ → List A → Option (List A)
  copy_into xs at ys =
      if leb (at + length ys) (length xs)
      then some (take at xs ++ (ys ++ drop (at + length ys) xs))
      else none

  -- `memcpy(ys, xs + at, n)`; `none` is a read past the end of the array.
  unfoldable pub copy_from : List A → ℕ → ℕ → Option (List A)
  copy_from xs at n = if leb (at + n) (length xs) then some (take n (drop at xs)) else none

  pub take_append : (xs ys : List A) → take (length xs) (xs ++ ys) ≡ xs
  take_append [] ys = refl
  take_append (x ∷ xs) ys = ap (◌∷◌ x) (take_append xs ys)

  pub drop_append : (xs ys : List A) → drop (length xs) (xs ++ ys) ≡ ys
  drop_append [] ys = refl
  drop_append (x ∷ xs) ys = drop_append xs ys

  pub take_of_length : (n : ℕ) (xs : List A) → length xs ≤ n → take n xs ≡ xs
  take_of_length zero [] h = refl
  take_of_length zero (x ∷ xs) h = absurd (omega arith)
  take_of_length (suc n) [] h = refl
  take_of_length (suc n) (x ∷ xs) h = ap (◌∷◌ x) (take_of_length n xs (omega arith))

  pub drop_of_length : (n : ℕ) (xs : List A) → length xs ≤ n → drop n xs ≡ []
  drop_of_length zero [] h = refl
  drop_of_length zero (x ∷ xs) h = absurd (omega arith)
  drop_of_length (suc n) [] h = refl
  drop_of_length (suc n) (x ∷ xs) h = drop_of_length n xs (omega arith)
