-- ===== src/Base/Lists.antt =====
-- Lists measured and indexed by native numbers, under the library's names.
use Prim.Native.Nat.{ℕ, zero, suc, ◌+◌, ◌-◌, ◌≤◌, min}
use mathlib.Core.Path.{◌≡◌, refl, sym, ap, ◌∙◌}
use mathlib.Core.Bool.{Bool}
use mathlib.Core.List.{List, [], ◌∷◌, ◌++◌}
use mathlib.Core.Option.{Option, none, some}
use native.Mathlib.Omega.{arith}
use grage_fat.Base.Tests.{if◌then◌else◌}

module _ {ℓ} {A : Type ℓ} where
  abbrev pub length : List A → ℕ
  length [] = 0
  length (x ∷ xs) = suc (length xs)

  abbrev pub get_or : List A → ℕ → A → A
  get_or [] i d = d
  get_or (x ∷ xs) zero d = x
  get_or (x ∷ xs) (suc i) d = get_or xs i d

  abbrev pub take : ℕ → List A → List A
  take zero xs = []
  take (suc n) [] = []
  take (suc n) (x ∷ xs) = x ∷ take n xs

  abbrev pub drop : ℕ → List A → List A
  drop zero xs = xs
  drop (suc n) [] = []
  drop (suc n) (x ∷ xs) = drop n xs

  abbrev pub replicate : ℕ → A → List A
  replicate zero a = []
  replicate (suc n) a = a ∷ replicate n a

  -- The first element that passes a test.
  unfoldable pub find : (A → Bool) → List A → Option A
  find p [] = none
  find p (x ∷ xs) = if p x then some x else find p xs

  -- What is left without the first element that passes a test.
  unfoldable pub erase : (A → Bool) → List A → List A
  erase p [] = []
  erase p (x ∷ xs) = if p x then xs else x ∷ erase p xs

  -- The elements that pass a test, in order.
  unfoldable pub select : (A → Bool) → List A → List A
  select p [] = []
  select p (x ∷ xs) = if p x then x ∷ select p xs else select p xs

  pub length-append : (xs ys : List A) → length (xs ++ ys) ≡ length xs + length ys
  length-append [] ys = omega arith
  length-append (x ∷ xs) ys = omega (arith, length-append xs ys)

  pub length-take : (n : ℕ) (xs : List A) → length (take n xs) ≡ min n (length xs)
  length-take zero xs = omega arith
  length-take (suc n) [] = omega arith
  length-take (suc n) (x ∷ xs) = omega (arith, length-take n xs)

  pub length-drop : (n : ℕ) (xs : List A) → length (drop n xs) ≡ length xs - n
  length-drop zero xs = omega arith
  length-drop (suc n) [] = omega arith
  length-drop (suc n) (x ∷ xs) = omega (arith, length-drop n xs)

  pub take-append-drop : (n : ℕ) (xs : List A) → take n xs ++ drop n xs ≡ xs
  take-append-drop zero xs = refl
  take-append-drop (suc n) [] = refl
  take-append-drop (suc n) (x ∷ xs) = ap (◌∷◌ x) (take-append-drop n xs)

  pub select-append :
      (p : A → Bool) (xs ys : List A) → select p (xs ++ ys) ≡ select p xs ++ select p ys
  unfolding select
  select-append p [] ys = refl
  select-append p (x ∷ xs) ys = ground (arith, select-append p xs ys)

  pub nil_of_length : (xs : List A) → length xs ≡ 0 → xs ≡ []
  nil_of_length [] h = refl
  nil_of_length (x ∷ xs) h = absurd (omega arith)

  -- Cutting a list that is two in a row, within the first and beyond it.
  pub take_within : (n : ℕ) (xs ys : List A) → n ≤ length xs → take n (xs ++ ys) ≡ take n xs
  take_within zero xs ys h = refl
  take_within (suc n) [] ys h = absurd (omega arith)
  take_within (suc n) (x ∷ xs) ys h = ap (◌∷◌ x) (take_within n xs ys (omega arith))

  pub take_beyond :
      (n : ℕ) (xs ys : List A) → length xs ≤ n → take n (xs ++ ys) ≡ xs ++ take (n - length xs) ys
  take_beyond n [] ys h = ap (λ k. take k ys) (omega arith)
  take_beyond zero (x ∷ xs) ys h = absurd (omega arith)
  take_beyond (suc n) (x ∷ xs) ys h =
      let less : suc n - length (x ∷ xs) ≡ n - length xs = omega arith in
      ap (◌∷◌ x) (take_beyond n xs ys (omega arith) ∙ ap (λ k. xs ++ take k ys) (sym less))

  pub drop_within : (n : ℕ) (xs ys : List A) → n ≤ length xs → drop n (xs ++ ys) ≡ drop n xs ++ ys
  drop_within zero xs ys h = refl
  drop_within (suc n) [] ys h = absurd (omega arith)
  drop_within (suc n) (x ∷ xs) ys h = drop_within n xs ys (omega arith)

  pub drop_beyond :
      (n : ℕ) (xs ys : List A) → length xs ≤ n → drop n (xs ++ ys) ≡ drop (n - length xs) ys
  drop_beyond n [] ys h = ap (λ k. drop k ys) (omega arith)
  drop_beyond zero (x ∷ xs) ys h = absurd (omega arith)
  drop_beyond (suc n) (x ∷ xs) ys h =
      let less : suc n - length (x ∷ xs) ≡ n - length xs = omega arith in
      drop_beyond n xs ys (omega arith) ∙ ap (λ k. drop k ys) (sym less)

  pub drop-drop : (m n : ℕ) (xs : List A) → drop m (drop n xs) ≡ drop (n + m) xs
  drop-drop m zero xs = ap (λ k. drop k xs) (omega arith)
  drop-drop zero (suc n) [] =
      let same : suc n + 0 ≡ suc n = omega arith in ap (λ k. drop k []) (sym same)
  drop-drop (suc m) (suc n) [] =
      let more : suc n + suc m ≡ suc (n + suc m) = omega arith in ap (λ k. drop k []) (sym more)
  drop-drop m (suc n) (x ∷ xs) =
      let more : suc n + m ≡ suc (n + m) = omega arith in
      drop-drop m n xs ∙ ap (λ k. drop k (x ∷ xs)) (sym more)

  pub drop-take : (m n : ℕ) (xs : List A) → drop m (take n xs) ≡ take (n - m) (drop m xs)
  drop-take zero n xs = ap (λ k. take k xs) (omega arith)
  drop-take (suc m) zero xs =
      let nothing : 0 - suc m ≡ 0 = omega arith in ap (λ k. take k (drop (suc m) xs)) (sym nothing)
  drop-take (suc m) (suc n) [] = sym (take_nil (suc n - suc m))
    where
      take_nil : (k : ℕ) → take k [] ≡ []
      take_nil zero = refl
      take_nil (suc k) = refl
  drop-take (suc m) (suc n) (x ∷ xs) =
      let less : suc n - suc m ≡ n - m = omega arith in
      drop-take m n xs ∙ ap (λ k. take k (drop m xs)) (sym less)

  pub take_less : (m n : ℕ) (xs : List A) → m ≤ n → take m (take n xs) ≡ take m xs
  take_less zero n xs h = refl
  take_less (suc m) zero xs h = absurd (omega arith)
  take_less (suc m) (suc n) [] h = refl
  take_less (suc m) (suc n) (x ∷ xs) h = ap (◌∷◌ x) (take_less m n xs (omega arith))

  pub take_more : (m n : ℕ) (xs : List A) → n ≤ m → take m (take n xs) ≡ take n xs
  take_more zero zero xs h = refl
  take_more (suc m) zero xs h = refl
  take_more zero (suc n) xs h = absurd (omega arith)
  take_more (suc m) (suc n) [] h = refl
  take_more (suc m) (suc n) (x ∷ xs) h = ap (◌∷◌ x) (take_more m n xs (omega arith))
