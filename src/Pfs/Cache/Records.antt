-- ===== src/Pfs/Cache/Records.antt =====
-- The records of a cache as a table of contents, and what each change does to it.
use grage_fat.Base.{
  ℕ, ◌≡◌, ◌≢◌, refl, sym, ap, subst, true, false, none, some, List, [], ◌∷◌, map, ◌==◌,
  if◌then◌else◌, Bool-cases, Option-cases, inl, inr, arith, find, All, ==_iff, suc, length,
}
use grage_fat.Nipc.{DiskSector}
use grage_fat.Pfs.Cache.{
  CacheSectorRecord, Device, call_put_sector, overwrite_first, accessed, overwrite, new_record,
}

-- The content that a reader is to see: that of the first record of the sector, or else the device's.
abbrev pub content_in : List CacheSectorRecord → ℕ → List ℕ → List ℕ
content_in [] n other = other
content_in (r ∷ rs) n other =
    if r.sector.sector_number == n then r.sector.sector_content else content_in rs n other

-- No record but the first has the number of a later one.
abbrev pub AreOnce : List CacheSectorRecord → Type 0
AreOnce [] = Unit
AreOnce (r ∷ rs) = All (λ s. s.sector.sector_number ≢ r.sector.sector_number) rs × AreOnce rs

pub content_in-accessed :
    (rs : List CacheSectorRecord) (n : ℕ) (other : List ℕ)
    → content_in (map accessed rs) n other ≡ content_in rs n other
content_in-accessed [] n other = refl
content_in-accessed (r ∷ rs) n other = ground (arith, content_in-accessed rs n other)

All-accessed :
    (k : ℕ) (rs : List CacheSectorRecord)
    → All (λ s. s.sector.sector_number ≢ k) rs
    → All (λ s. s.sector.sector_number ≢ k) (map accessed rs)
All-accessed k [] all = tt
All-accessed k (r ∷ rs) all = (all.0, All-accessed k rs all.1)

pub AreOnce-accessed : (rs : List CacheSectorRecord) → AreOnce rs → AreOnce (map accessed rs)
AreOnce-accessed [] o = tt
AreOnce-accessed (r ∷ rs) o = (All-accessed _ rs o.0, AreOnce-accessed rs o.1)

pub content_in-absent :
    (rs : List CacheSectorRecord) (n : ℕ) (other : List ℕ)
    → All (λ s. s.sector.sector_number ≢ n) rs
    → content_in rs n other ≡ other
content_in-absent [] n other all = refl
content_in-absent (r ∷ rs) n other all = ground (arith, all.0, content_in-absent rs n other all.1)

pub length-accessed : (rs : List CacheSectorRecord) → length (map accessed rs) ≡ length rs
length-accessed [] = refl
length-accessed (r ∷ rs) = ap suc (length-accessed rs)

pub evict :
    (r : CacheSectorRecord) (rs : List CacheSectorRecord) (device : Device) (n : ℕ)
    → All (λ s. s.sector.sector_number ≢ r.sector.sector_number) rs
    → content_in rs n (call_put_sector device r.sector n) ≡ content_in (r ∷ rs) n (device n)
evict r rs device n all = elim (Bool-cases (n == r.sector.sector_number)) [
  | inl e ↦
      let same = (==_iff _ _).0 e in
      let here : (r.sector.sector_number == n) ≡ true = ground (arith, same) in
      rw (e, here)
        (content_in-absent rs n _
          (subst (λ k. All (λ s. s.sector.sector_number ≢ k) rs) (sym same) all))
  | inr e ↦ let not_here : (r.sector.sector_number == n) ≡ false = ground arith in rw (e, not_here)
]

-- A new record hides what the device has of its sector, and nothing else.
pub content_in-new :
    (d : DiskSector) (rs : List CacheSectorRecord) (n : ℕ) (other : List ℕ)
    → content_in (new_record d ∷ rs) n other
      ≡ (if n == d.sector_number then d.sector_content else content_in rs n other)
content_in-new d rs n other = ground arith

-- Overwriting: none if there is no record of the sector, and else one that keeps the numbers.
pub overwrite_first-absent :
    (d : DiskSector) (rs : List CacheSectorRecord)
    → overwrite_first d rs ≡ none
    → All (λ s. s.sector.sector_number ≢ d.sector_number) rs
unfolding overwrite_first
overwrite_first-absent d [] e = tt
overwrite_first-absent d (r ∷ rs) e =
    elim (Bool-cases (r.sector.sector_number == d.sector_number)) [
      | inl f ↦ absurd (cc (rw f at e))
      | inr f ↦ elim (Option-cases (overwrite_first d rs)) [
        | inl g ↦ (ground (arith, f), overwrite_first-absent d rs g)
        | inr (es, g) ↦ absurd (cc (rw (f, g) at e))
      ]
    ]

pub record Overwritten (d : DiskSector) (rs es : List CacheSectorRecord) : Type 0 where
  pub same_length : length es ≡ length rs
  pub same_numbers :
      (k : ℕ) → All (λ s. s.sector.sector_number ≢ k) rs → All (λ s. s.sector.sector_number ≢ k) es
  pub still_once : AreOnce rs → AreOnce es
  pub contents :
      (n : ℕ) (other : List ℕ)
      → content_in es n other
        ≡ (if n == d.sector_number then d.sector_content else content_in rs n other)

overwrite-Overwritten :
    (d : DiskSector) (r : CacheSectorRecord) (rs : List CacheSectorRecord)
    → r.sector.sector_number ≡ d.sector_number
    → Overwritten d (r ∷ rs) (overwrite d r ∷ rs)
overwrite-Overwritten d r rs e = record {
  same_length = refl;
  same_numbers = λ k all. all;
  still_once = λ once. once;
  contents = λ n other. ground (arith, e);
}

later-Overwritten :
    (d : DiskSector) (r : CacheSectorRecord) (rs es : List CacheSectorRecord)
    → r.sector.sector_number ≢ d.sector_number
    → Overwritten d rs es
    → Overwritten d (r ∷ rs) (r ∷ es)
later-Overwritten d r rs es e o = record {
  same_length = ap suc o.same_length;
  same_numbers = λ k all. (all.0, o.same_numbers k all.1);
  still_once = λ once. (o.same_numbers r.sector.sector_number once.0, o.still_once once.1);
  contents = λ n other. let later = o.contents n other in ground (arith, e, later);
}

pub overwrite_first-present :
    (d : DiskSector) (rs es : List CacheSectorRecord)
    → overwrite_first d rs ≡ some es
    → Overwritten d rs es
unfolding overwrite_first
overwrite_first-present d [] es e = absurd cc
overwrite_first-present d (r ∷ rs) es e =
    elim (Bool-cases (r.sector.sector_number == d.sector_number)) [
      | inl f ↦
          subst (Overwritten d (r ∷ rs)) (some_injective (rw f at e))
            (overwrite-Overwritten d r rs ((==_iff _ _).0 f))
      | inr f ↦ elim (Option-cases (overwrite_first d rs)) [
        | inl g ↦ absurd (cc (rw (f, g) at e))
        | inr (later, g) ↦ subst (Overwritten d (r ∷ rs)) (some_injective (rw (f, g) at e)) (
            later-Overwritten d r rs later (ground (arith, f))
              (overwrite_first-present d rs later g))
      ]
    ]
  where
    some_injective : {x y : List CacheSectorRecord} → some x ≡ some y → x ≡ y
    some_injective n = cc

-- What a search in the cache finds.
pub find_absent :
    (rs : List CacheSectorRecord) (n : ℕ)
    → find (λ a. a.sector.sector_number == n) rs ≡ none
    → (other : List ℕ) → content_in rs n other ≡ other
unfolding find
find_absent [] n e other = refl
find_absent (r ∷ rs) n e other = elim (Bool-cases (r.sector.sector_number == n)) [
  | inl f ↦ absurd (cc (rw f at e))
  | inr f ↦ rw f (find_absent rs n (rw f at e) other)
]

pub find_present :
    (rs : List CacheSectorRecord) (n : ℕ) (r : CacheSectorRecord)
    → find (λ a. a.sector.sector_number == n) rs ≡ some r
    → (r.sector.sector_number ≡ n)
      × ((other : List ℕ) → content_in rs n other ≡ r.sector.sector_content)
unfolding find
find_present [] n r e = absurd cc
find_present (s ∷ rs) n r e = elim (Bool-cases (s.sector.sector_number == n)) [
  | inl f ↦
      let g = rw f at e in
      let same : s ≡ r = cc in
      (
        subst (λ q. q.sector.sector_number ≡ n) same ((==_iff _ _).0 f),
        λ other. rw f (ap (λ q. q.sector.sector_content) same),
      )
  | inr f ↦ rw f (find_present rs n r (rw f at e))
]
