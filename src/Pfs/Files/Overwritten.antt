-- ===== src/Pfs/Files/Overwritten.antt =====
-- A file's bytes, once one block of it is written.
use grage_fat.Base.{
  ℕ, zero, suc, ◌+◌, ◌-◌, ◌*◌, ◌≤◌, ◌<◌, ◌^◌, ◌%◌, ◌≡◌, ◌≢◌, refl, sym, ap, ap₂, ◌∙◌, List, [], ◌∷◌,
  ◌++◌, leb, leb→le, inl, inr, ◌⊎◌, arith, length, take, drop, All, Bool-cases, spliced,
  length-spliced, take_within, take_beyond, drop_within, drop_beyond, append_assoc, sub32, u32,
  subst,
}
use grage_fat.Pfs.Volume.{Volume, get_first_sector_of_cluster}
use grage_fat.Pfs.Blocks.Reading.{IsCluster, block_of, sectors_from}
use grage_fat.Pfs.Blocks.Writing.{stored, stored-outside, stored-inside}
use grage_fat.Pfs.Files.Content.{chain_bytes, length-block_of}
use grage_fat.Pfs.Release.Chain.{Once}

-- Two runs of eight sectors, one behind the other.
abbrev AreApart : ℕ → ℕ → Type 0
AreApart m n = (m + 8 ≤ n) ⊎ (n + 8 ≤ m)

firsts_apart :
    (j k c : ℕ)
    → j < k
    → k < 2 ^ 28
    → (sub32 j 2 * 8 + c) % 2 ^ 32 + 8 < 2 ^ 32
    → (sub32 k 2 * 8 + c) % 2 ^ 32 + 8 < 2 ^ 32
    → AreApart ((sub32 j 2 * 8 + c) % 2 ^ 32) ((sub32 k 2 * 8 + c) % 2 ^ 32)
firsts_apart j k c lt small a b =
    let x = (sub32 j 2 * 8 + c) % 2 ^ 32 in
    let y = (sub32 k 2 * 8 + c) % 2 ^ 32 in
    elim (Bool-cases (leb (x + 8) y)) [
      | inl e ↦ inl (leb→le (x + 8) y e)
      | inr e ↦
          let less : y < x + 8 = ground (arith, e) in inr (omega (arith, less, lt, small, a, b))
    ]

turn : {m n : ℕ} → AreApart m n → AreApart n m
turn (inl h) = inr h
turn (inr h) = inl h

first_sector :
    (v : Volume) (j : ℕ)
    → v.spc ≡ 8
    → get_first_sector_of_cluster v j ≡ (sub32 j 2 * 8 + v.fds) % 2 ^ 32
unfolding get_first_sector_of_cluster
first_sector v j e = ap (λ x. u32 (sub32 j 2 * x + v.fds)) e

lower_apart :
    (v : Volume) (contents : ℕ → List ℕ) (j k : ℕ)
    → v.spc ≡ 8
    → IsCluster v contents j
    → IsCluster v contents k
    → j < k
    → AreApart (get_first_sector_of_cluster v j) (get_first_sector_of_cluster v k)
lower_apart v contents j k e ij ik lt =
    let fj = first_sector v j e in
    let fk = first_sector v k e in
    rw (fj, fk)
      (firsts_apart j k v.fds lt ik.in_table.0 (omega (arith, ij.no_wrap, fj))
        (omega (arith, ik.no_wrap, fk)))

-- The sectors of two clusters lie apart.
clusters_apart :
    (v : Volume) (contents : ℕ → List ℕ) (j k : ℕ)
    → v.spc ≡ 8
    → IsCluster v contents j
    → IsCluster v contents k
    → j ≢ k
    → AreApart (get_first_sector_of_cluster v j) (get_first_sector_of_cluster v k)
clusters_apart v contents j k e ij ik other = elim (Bool-cases (leb j k)) [
  | inl h ↦ lower_apart v contents j k e ij ik (omega (arith, leb→le j k h, other))
  | inr h ↦ turn (lower_apart v contents k j e ik ij (ground (arith, h)))
]

sectors_from-same :
    (left n : ℕ) (contents contents' : ℕ → List ℕ)
    → ((m : ℕ) → n ≤ m → m < n + left → contents m ≡ contents' m)
    → sectors_from contents n left ≡ sectors_from contents' n left
sectors_from-same zero n contents contents' same = refl
sectors_from-same (suc left) n contents contents' same =
    ap₂ (λ xs ys. xs ++ ys) (same n (omega arith) (omega arith))
      (sectors_from-same left (n + 1) contents contents'
        (λ m low high. same m (omega (arith, low)) (omega (arith, high))))

-- The block of another cluster stays.
pub block_of-stored :
    (v : Volume) (contents : ℕ → List ℕ) (j k : ℕ) (bytes : List ℕ)
    → v.spc ≡ 8
    → IsCluster v contents j
    → IsCluster v contents k
    → j ≢ k
    → block_of v (stored contents (get_first_sector_of_cluster v k) 8 bytes) j
      ≡ block_of v contents j
block_of-stored v contents j k bytes e ij ik other =
    let first = get_first_sector_of_cluster v k in
    sectors_from-same 8 (get_first_sector_of_cluster v j) (stored contents first 8 bytes) contents
      (λ m low high.
        stored-outside 8 contents first bytes m
          (elim (clusters_apart v contents j k e ij ik other) [
            | inl before ↦ inl (omega (arith, before, high))
            | inr behind ↦ inr (omega (arith, behind, low))
          ]))

-- A splice in the first of two lists, and in the second.
spliced-first :
    (xs rest ys : List ℕ) (at : ℕ)
    → at + length ys ≤ length xs
    → spliced (xs ++ rest) at ys ≡ spliced xs at ys ++ rest
spliced-first xs rest ys at h =
    ap₂ (λ us ws. us ++ (ys ++ ws)) (take_within at xs rest (omega (arith, h)))
      (drop_within (at + length ys) xs rest h)
    ∙ ap (λ ws. take at xs ++ ws) (sym (append_assoc ys (drop (at + length ys) xs) rest))
    ∙ sym (append_assoc (take at xs) (ys ++ drop (at + length ys) xs) rest)

spliced-second :
    (xs rest ys : List ℕ) (at : ℕ)
    → spliced (xs ++ rest) (length xs + at) ys ≡ xs ++ spliced rest at ys
spliced-second xs rest ys at =
    let less : length xs + at - length xs ≡ at = omega arith in
    let less' : length xs + at + length ys - length xs ≡ at + length ys = omega arith in
    ap₂ (λ us ws. us ++ (ys ++ ws))
      (take_beyond (length xs + at) xs rest (omega arith) ∙ ap (λ i. xs ++ take i rest) less)
      (drop_beyond (length xs + at + length ys) xs rest (omega arith) ∙ ap (λ i. drop i rest) less')
    ∙ append_assoc xs (take at rest) (ys ++ drop (at + length ys) rest)

pub All-at :
    (P : ℕ → Type 0) (q : ℕ) (ks : List ℕ) (k : ℕ) (ms : List ℕ)
    → drop q ks ≡ k ∷ ms
    → All P ks
    → P k
All-at P zero [] k ms e a = absurd (cc)
All-at P (suc q) [] k ms e a = absurd (cc)
All-at P zero (j ∷ ks) k ms e a = let same : j ≡ k = cc in subst P same a.0
All-at P (suc q) (j ∷ ks) k ms e a = All-at P q ks k ms e a.1

-- The contents after a write that changes one cluster's block only.
module _ (v : Volume) (contents contents' : ℕ → List ℕ) (k' r : ℕ) (bytes : List ℕ)
    (within : r + length bytes ≤ 4096)
    (here : block_of v contents' k' ≡ spliced (block_of v contents k') r bytes)
    (others : (j : ℕ)
      → IsCluster v contents j
      → j ≢ k'
      → block_of v contents' j ≡ block_of v contents j) where
  chain_bytes-others :
      (ks : List ℕ)
      → All (IsCluster v contents) ks
      → All (λ j. j ≢ k') ks
      → chain_bytes v contents' ks ≡ chain_bytes v contents ks
  chain_bytes-others [] is other = refl
  chain_bytes-others (k ∷ ks) is other =
      ap₂ (λ xs ys. xs ++ ys) (others k is.0 other.0) (chain_bytes-others ks is.1 other.1)

  chain_bytes-changed :
      (q : ℕ) (ks ms' : List ℕ)
      → All (IsCluster v contents) ks
      → Once ks
      → drop q ks ≡ k' ∷ ms'
      → chain_bytes v contents' ks ≡ spliced (chain_bytes v contents ks) (q * 4096 + r) bytes
  chain_bytes-changed zero [] ms' is once place = absurd (cc)
  chain_bytes-changed (suc q) [] ms' is once place = absurd (cc)
  chain_bytes-changed zero (k ∷ ks) ms' is once place =
      let whole = length-block_of v contents k is.0 in
      let same : k ≡ k' = cc in
      ap₂ (λ xs ys. xs ++ ys)
        (ap (block_of v contents') same
          ∙ here
          ∙ ap (λ j. spliced (block_of v contents j) r bytes) (sym same))
        (chain_bytes-others ks is.1 (subst (λ x. All (λ j. j ≢ x) ks) same once.0))
      ∙ sym (
          spliced-first (block_of v contents k) (chain_bytes v contents ks) bytes r
            (omega (arith, whole, within)))
      ∙ ap (λ i. spliced (block_of v contents k ++ chain_bytes v contents ks) i bytes) (omega arith)
  chain_bytes-changed (suc q) (k ∷ ks) ms' is once place =
      let whole = length-block_of v contents k is.0 in
      let at : length (block_of v contents k) + (q * 4096 + r) ≡ suc q * 4096 + r =
        omega (arith, whole) in
      let other : k ≢ k' = λ e. All-at (λ j. j ≢ k) q ks k' ms' place once.0 (sym e) in
      ap₂ (λ xs ys. xs ++ ys) (others k is.0 other) (chain_bytes-changed q ks ms' is.1 once.1 place)
      ∙ sym
          (spliced-second (block_of v contents k) (chain_bytes v contents ks) bytes (q * 4096 + r))
      ∙ ap (λ i. spliced (block_of v contents k ++ chain_bytes v contents ks) i bytes) at

-- The bytes of a chain of which the block at `q` gets bytes: those of the file from there on.
pub chain_bytes-stored :
    (v : Volume) (contents : ℕ → List ℕ) (q r k' : ℕ) (ks ms' bytes : List ℕ)
    → v.spc ≡ 8
    → All (IsCluster v contents) ks
    → Once ks
    → drop q ks ≡ k' ∷ ms'
    → r + length bytes ≤ 4096
    → chain_bytes v
        (stored contents
          (get_first_sector_of_cluster v k')
          8
          (spliced (block_of v contents k') r bytes))
        ks
      ≡ spliced (chain_bytes v contents ks) (q * 4096 + r) bytes
chain_bytes-stored v contents q r k' ks ms' bytes e is once place within =
    let first = get_first_sector_of_cluster v k' in
    let xs = block_of v contents k' in
    let ik : IsCluster v contents k' = All-at (IsCluster v contents) q ks k' ms' place is in
    let whole : length xs ≡ 4096 = length-block_of v contents k' ik in
    chain_bytes-changed v contents (stored contents first 8 (spliced xs r bytes)) k' r bytes within
      (stored-inside 8 contents first (spliced xs r bytes)
        (length-spliced xs r bytes (omega (arith, whole, within)) ∙ whole))
      (λ j ij other. block_of-stored v contents j k' (spliced xs r bytes) e ij ik other) q ks ms' is
      once place
