-- ===== src/Pfs/Create/FirstPlace.antt =====
-- Where a new directory entry goes.
use grage_fat.Base.{
  bind, ℕ, zero, suc, ◌+◌, ◌*◌, ◌≤◌, ◌<◌, ◌≡◌, ap, ap₂, ◌∙◌, true, false, Bool, Bool-cases, inl,
  inr, some, List, leb, arith, if◌then◌else◌, length, take, drop, u16, copy_from, copy_from-within,
  ◌==◌, ==_iff,
}
use grage_fat.Pfs.Session.{Session}
use grage_fat.Pfs.Blocks.{Block}
use grage_fat.Pfs.Create.{dirent_is_free, find_place}

-- The entries of a block, by their number.
abbrev pub entry_in : List ℕ → ℕ → List ℕ
entry_in xs i = take 32 (drop (i * 32) xs)

abbrev pub has_free : Block → ℕ → Bool
has_free block i = dirent_is_free (entry_in block.content i)

-- The pair of entries from `p` on is free, and no pair between `i` and `p` is.
pub record IsFirstPair (block : Block) (i p : ℕ) : Type 0 where
  pub behind : i ≤ p
  pub inside : p + 1 < 128
  pub free : has_free block p ≡ true
  pub next_free : has_free block (p + 1) ≡ true
  pub taken : (j : ℕ) → i ≤ j → j < p → has_free block j ≡ true → has_free block (j + 1) ≡ false

find_place-free :
    (fuel number offset : ℕ) (block : Block) (s : Session) (entry second : List ℕ) (both : Bool)
    → copy_from block.content offset 32 ≡ some entry
    → dirent_is_free entry ≡ true
    → copy_from block.content (u16 (offset + 32)) 32 ≡ some second
    → dirent_is_free second ≡ both
    → find_place (suc fuel) block number offset s ≡ (
        if both
        then some ((block, u16 (u16 (offset + 32) + 32)), s)
        else find_place fuel block number (u16 (u16 (offset + 32) + 32)) s)
unfolding find_place
find_place-free fuel number offset block s entry second true got free got' free' =
    rw (got, bind, free, got', free', find_place)
find_place-free fuel number offset block s entry second false got free got' free' =
    rw (got, bind, free, got', free', find_place)

find_place-taken :
    (fuel number offset : ℕ) (block : Block) (s : Session) (entry : List ℕ)
    → copy_from block.content offset 32 ≡ some entry
    → dirent_is_free entry ≡ false
    → leb s.fat.volume.bpc (u16 (offset + 32)) ≡ false
    → find_place (suc fuel) block number offset s
      ≡ find_place fuel block number (u16 (offset + 32)) s
unfolding find_place
find_place-taken fuel number offset block s entry got taken inside =
    rw (got, bind, taken, inside, find_place)

-- The search comes to the first pair of free entries of the block, with as many rounds as it passes
-- entries; it gives the offset behind the pair, and nothing changes.
pub find_place-IsFirstPair :
    (fuel number i p : ℕ) (block : Block) (s : Session)
    → length block.content ≡ 4096
    → s.fat.volume.bpc ≡ 4096
    → IsFirstPair block i p
    → p < i + fuel
    → find_place fuel block number (i * 32) s ≡ some ((block, (p + 2) * 32), s)
find_place-IsFirstPair zero number i p block s whole b first enough =
    absurd (omega (arith, first.behind, enough))
find_place-IsFirstPair (suc fuel) number i p block s whole b first enough =
    let at : i < 127 = omega (arith, first.behind, first.inside) in
    let next : u16 (i * 32 + 32) ≡ (i + 1) * 32 = omega (arith, at) in
    let last : u16 ((i + 1) * 32 + 32) ≡ (i + 2) * 32 = omega (arith, at) in
    let second = ap (λ o. copy_from block.content o 32) next ∙ here (i + 1) (omega (arith, at)) in
    let end : u16 (u16 (i * 32 + 32) + 32) ≡ (i + 2) * 32 = ap (λ o. u16 (o + 32)) next ∙ last in
    elim (Bool-cases (has_free block i)) [
      | inr taken ↦
          let less : i < p = passes i p first.behind taken first.free in
          let inside : leb 4096 ((i + 1) * 32) ≡ false = ground (arith, at) in
          find_place-taken fuel number (i * 32) block s _ (here i (omega (arith, at))) taken
            (ap₂ leb b next ∙ inside)
          ∙ ap (λ o. find_place fuel block number o s) next
          ∙ find_place-IsFirstPair fuel number (i + 1) p block s whole b
              (further (i + 1) p (omega arith) (omega (arith, less)) first) (omega (arith, enough))
      | inl free ↦ elim (Bool-cases (has_free block (i + 1))) [
        | inl free' ↦
            let same : i ≡ p = stops i p first free free' in
            find_place-free fuel number (i * 32) block s _ _ true (here i (omega (arith, at))) free
              second free'
            ∙ ap (λ o. some ((block, o), s)) (end ∙ ap (λ k. (k + 2) * 32) same)
        | inr taken ↦
            find_place-free fuel number (i * 32) block s _ _ false (here i (omega (arith, at))) free
              second taken
            ∙ ap (λ o. find_place fuel block number o s) end
            ∙ find_place-IsFirstPair fuel number (i + 2) p block s whole b
                (further (i + 2) p (omega arith) (passes_two i p first taken) first)
                (omega (arith, enough))
      ]
    ]
  where
    passes : (i p : ℕ) → i ≤ p → has_free block i ≡ false → has_free block p ≡ true → i < p
    passes i p h taken free = elim (Bool-cases (i == p)) [
      | inl e ↦ let same = ap (has_free block) ((==_iff i p).0 e) in absurd (cc)
      | inr e ↦ ground (arith, h, e)
    ]

    here : (j : ℕ) → j < 128 → copy_from block.content (j * 32) 32 ≡ some (entry_in block.content j)
    here j h = copy_from-within block.content (j * 32) 32 (omega (arith, h, whole))

    further : (k p : ℕ) {i : ℕ} → i ≤ k → k ≤ p → IsFirstPair block i p → IsFirstPair block k p
    further k p low high first = record {
      behind = high;
      inside = first.inside;
      free = first.free;
      next_free = first.next_free;
      taken = λ j h. first.taken j (omega (arith, low, h));
    }

    stops :
        (i p : ℕ)
        → IsFirstPair block i p
        → has_free block i ≡ true
        → has_free block (i + 1) ≡ true
        → i ≡ p
    stops i p first free free' = elim (Bool-cases (i == p)) [
      | inl e ↦ (==_iff i p).0 e
      | inr e ↦
          let less : i < p = ground (arith, first.behind, e) in
          let other = first.taken i (omega arith) less free in absurd (cc)
    ]

    passes_two : (i p : ℕ) → IsFirstPair block i p → has_free block (i + 1) ≡ false → i + 2 ≤ p
    passes_two i p first taken = elim (Bool-cases (i == p)) [
      | inl e ↦
          let same = ap (λ k. has_free block (k + 1)) ((==_iff i p).0 e) in
          let free = first.next_free in absurd (cc)
      | inr e ↦
          let less : i + 1 ≤ p = ground (arith, first.behind, e) in
          let more : i + 1 < p = passes (i + 1) p less taken first.free in omega (arith, more)
    ]
