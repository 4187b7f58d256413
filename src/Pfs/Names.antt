-- ===== src/Pfs/Names.antt =====
-- grage-pfs/app/src/core/pfs-fat-utils.c: the name in a long directory entry, thirteen characters of
-- 16 bits in three arrays. `none` is an access past the end of an array.
use grage_fat.Base.{
  bind, ℕ, zero, suc, ◌+◌, ◌-◌, ◌%◌, ◌≤◌, ◌<◌, ◌≡◌, ◌≢◌, refl, sym, ap, ◌∙◌, ◌⊎◌, ◌↔◌, inl, inr,
  Option, none, some, List, [], ◌∷◌, length, get_or, leb, ◌==◌, if◌then◌else◌, u16, arith,
  copy_into, copy_into-IsCopied, copy_into_fits, copy_into_outside, Bool-cases, ==_iff, ==_other,
  copy_from, ltb, ltb→lt,
}

-- The arrays have 5, 6 and 2 characters.
pub record LongDirEntry : Type 0 where
  pub ldir_ord : ℕ
  pub ldir_name1 : List ℕ
  pub ldir_attr : ℕ
  pub ldir_type : ℕ
  pub ldir_chksum : ℕ
  pub ldir_name2 : List ℕ
  pub ldir_fst_clus_lo : ℕ
  pub ldir_name3 : List ℕ

unfoldable pub fetch_char : LongDirEntry → ℕ → ℕ
fetch_char d n =
    let i = n % 13 in
    if leb i 4
    then get_or d.ldir_name1 i 0
    else if leb i 10
    then get_or d.ldir_name2 (i - 5) 0
    else get_or d.ldir_name3 (i - 11) 0

-- The loop of `pfs_fat32_utils_getNameLength` from character `i` on, with `left` more to look at.
unfoldable pub name_length_from : LongDirEntry → ℕ → ℕ → ℕ
name_length_from d i zero = i + 1
name_length_from d i (suc left) =
    let rest = name_length_from d (i + 1) left in if u16 (fetch_char d i) == 0 then i + 1 else rest

unfoldable pub get_name_length : LongDirEntry → ℕ
unfolding name_length_from
get_name_length d = name_length_from d 0 13

abbrev pub store : List ℕ → ℕ → ℕ → Option (List ℕ)
store dest i c = copy_into dest i (c ∷ [])

unfoldable pub copy_chars : LongDirEntry → ℕ → ℕ → List ℕ → Option (List ℕ)
copy_chars d i zero dest = some dest
copy_chars d i (suc left) dest =
    bind (store dest i (u16 (fetch_char d i))) (copy_chars d (i + 1) left)

-- `pfs_fat32_utils_extractName`: the characters before the end, and a 0. A length is not 0.
unfoldable pub extract_name : LongDirEntry → List ℕ → ℕ → Option (List ℕ)
unfolding copy_chars
extract_name d dest len = bind (copy_chars d 0 (len - 1) dest) (λ copied. store copied (len - 1) 0)

store_fits :
    (dest : List ℕ) (i c : ℕ)
    → i < length dest
    → (dest' : List ℕ) × (store dest i c ≡ some dest') × (length dest' ≡ length dest)
store_fits dest i c h =
    let (dest', e) = copy_into_fits dest i (c ∷ []) (omega (arith, h)) in
    let copied = copy_into-IsCopied dest i (c ∷ []) dest' e in (dest', e, copied.same_length)

copy_chars_fits :
    (d : LongDirEntry) (i left : ℕ) (dest : List ℕ)
    → i + left ≤ length dest
    → (dest' : List ℕ) × (copy_chars d i left dest ≡ some dest') × (length dest' ≡ length dest)
unfolding copy_chars
copy_chars_fits d i zero dest h = (dest, refl, refl)
copy_chars_fits d i (suc left) dest h =
    let (one, e, same) = store_fits dest i (u16 (fetch_char d i)) (omega (arith, h)) in
    let (all, f, same') = copy_chars_fits d (i + 1) left one (omega (arith, h, same)) in
    (all, rw (e, f), same' ∙ same)

abbrev Ends : LongDirEntry → ℕ → ℕ → Type 0
Ends d i n = (n ≤ 13) × ((j : ℕ) × (j < 13) × (u16 (fetch_char d j) ≡ 0))

name_length_from-cases :
    (d : LongDirEntry) (i left : ℕ)
    → i + left ≡ 13
    → Ends d i (name_length_from d i left)
      ⊎ ((name_length_from d i left ≡ 14) × ((j : ℕ) → i ≤ j → j < 13 → u16 (fetch_char d j) ≢ 0))
unfolding name_length_from
name_length_from-cases d i zero h =
    inr (omega (arith, h), λ j le lt. absurd (omega (arith, h, le, lt)))
name_length_from-cases d i (suc left) h = elim (Bool-cases (u16 (fetch_char d i) == 0)) [
  | inl e ↦ rw (e) (inl (omega (arith, h), (i, omega (arith, h), (==_iff _ _).0 e)))
  | inr e ↦ rw (e) (elim (name_length_from-cases d (i + 1) left (omega (arith, h))) [
    | inl ends ↦ inl ends
    | inr (fourteen, rest) ↦ inr (fourteen, λ j le lt. ground (arith, rest j))
  ])
]

extract_name_fits :
    (d : LongDirEntry) (dest : List ℕ) (len : ℕ)
    → length dest ≡ 13
    → len ≤ 13
    → (done : List ℕ) × (extract_name d dest len ≡ some done)
unfolding extract_name
extract_name_fits d dest len full short =
    let (copied, c, same) = copy_chars_fits d 0 (len - 1) dest (omega (arith, full, short)) in
    let (done, f, same') = store_fits copied (len - 1) 0 (omega (arith, full, short, same)) in
    (done, rw (c, f))

extract_name_outside :
    (d : LongDirEntry) (dest : List ℕ) → length dest ≡ 13 → extract_name d dest 14 ≡ none
unfolding extract_name
extract_name_outside d dest full =
    let (copied, e, same) = copy_chars_fits d 0 13 dest (omega (arith, full)) in
    rw (e) (copy_into_outside copied 13 (0 ∷ []) (omega (arith, same, full)))

-- A name is taken out of an entry into the 13 characters that its readers have for it. This goes
-- past their end exactly when the entry is full, with no 0 among its 13 characters.
pub extract_name_overruns :
    (d : LongDirEntry) (dest : List ℕ)
    → length dest ≡ 13
    → (extract_name d dest (get_name_length d) ≡ none)
      ↔ ((j : ℕ) → j < 13 → u16 (fetch_char d j) ≢ 0)
unfolding get_name_length
extract_name_overruns d dest full = elim (name_length_from-cases d 0 13 refl) [
  | inl (short, (j, lt, e)) ↦
      let (done, made) = extract_name_fits d dest (name_length_from d 0 13) full short in
      (λ n. absurd (none_some (sym n ∙ made)), λ all. absurd (all j lt e))
  | inr (fourteen, all) ↦
      (λ n j lt. all j (omega arith) lt, λ f. rw (fourteen) (extract_name_outside d dest full))
]
  where
    none_some : {x : List ℕ} → none ≡ some x → ⊥
    none_some n = cc

chars_read :
    (d : LongDirEntry) (i left : ℕ) (dest dest' : List ℕ)
    → i + left ≤ length dest
    → copy_chars d i left dest ≡ some dest'
    → ((j : ℕ) → i ≤ j → j < i + left → copy_from dest' j 1 ≡ some (u16 (fetch_char d j) ∷ []))
      × ((j : ℕ) → j < i → copy_from dest' j 1 ≡ copy_from dest j 1)
unfolding copy_chars
chars_read d i zero dest dest' h e =
    (λ j le lt. absurd (omega (arith, le, lt)), λ j lt. ap (λ x. copy_from x j 1) (same e))
  where
    same : some dest ≡ some dest' → dest' ≡ dest
    same f = cc
chars_read d i (suc left) dest dest' h e =
    let c = u16 (fetch_char d i) in
    let (one, f, same) = store_fits dest i c (omega (arith, h)) in
    let stored = copy_into-IsCopied dest i (c ∷ []) one f in
    let (reads, kept) = chars_read d (i + 1) left one dest' (omega (arith, h, same)) (rw f at e) in
    (
      λ j le lt. elim (Bool-cases (j == i)) [
        | inl here ↦ rw ((==_iff _ _).0 here) (kept i (omega arith) ∙ stored.copied)
        | inr past ↦ reads j (ground (arith, le, past)) (omega (arith, lt))
      ],
      λ j lt. kept j (omega (arith, lt)) ∙ stored.kept j 1 (inr (omega (arith, lt))),
    )

length_to_null :
    (d : LongDirEntry) (k i left : ℕ)
    → i + left ≡ 13
    → i ≤ k
    → k < 13
    → u16 (fetch_char d k) ≡ 0
    → ((j : ℕ) → j < k → u16 (fetch_char d j) ≢ 0)
    → name_length_from d i left ≡ k + 1
unfolding name_length_from
length_to_null d k i zero h le lt null before = absurd (omega (arith, h, le, lt))
length_to_null d k i (suc left) h le lt null before = elim (Bool-cases (ltb i k)) [
  | inl less ↦ rw (==_other (u16 (fetch_char d i)) 0 (before i (ltb→lt i k less))) (
      length_to_null d k (i + 1) left (omega (arith, h)) (omega (arith, ltb→lt i k less)) lt null
        before)
  | inr same ↦ let at : i ≡ k = ground (arith, le, same) in rw (at, null) refl
]

-- A name that ends within its entry, with the 0 at `k`, comes out character by character, and with
-- its 0.
pub extract_name_reads :
    (d : LongDirEntry) (dest : List ℕ) (k : ℕ)
    → length dest ≡ 13
    → k < 13
    → u16 (fetch_char d k) ≡ 0
    → ((j : ℕ) → j < k → u16 (fetch_char d j) ≢ 0)
    → (done : List ℕ) × (extract_name d dest (get_name_length d) ≡ some done)
      × ((j : ℕ) → j < k → copy_from done j 1 ≡ some (u16 (fetch_char d j) ∷ []))
      × (copy_from done k 1 ≡ some (0 ∷ []))
unfolding extract_name get_name_length
extract_name_reads d dest k full lt null before =
    let (copied, c, same) = copy_chars_fits d 0 k dest (omega (arith, full, lt)) in
    let (reads, kept) = chars_read d 0 k dest copied (omega (arith, full, lt)) c in
    let (done, f, same') = store_fits copied k 0 (omega (arith, full, lt, same)) in
    let stored = copy_into-IsCopied copied k (0 ∷ []) done f in
    let len : name_length_from d 0 13 - 1 ≡ k =
      omega (arith, length_to_null d k 0 13 refl (omega arith) lt null before) in
    (
      done,
      rw (len, c, f),
      λ j less.
          stored.kept j 1 (inr (omega (arith, less))) ∙ reads j (omega arith) (omega (arith, less)),
      stored.copied,
    )
