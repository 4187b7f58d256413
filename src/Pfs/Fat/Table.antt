-- ===== src/Pfs/Fat/Table.antt =====
-- The FAT as a table of numbers, one for each cluster: what reading and replacing an entry do to it.
use grage_fat.Base.{
  ℕ, ◌+◌, ◌*◌, ◌/◌, ◌%◌, ◌≤◌, ◌<◌, ◌^◌, ◌≡◌, ◌≢◌, refl, sym, ap, ap₂, ◌∙◌, true, some, List, inl,
  inr, ◌⊎◌, arith, length, bytes_of, copy_into, copy_into_fits, copy_into-IsCopied, le→leb, leb,
  Bool-cases, leb→le, ==_iff, ◌==◌,
}
use grage_fat.Nipc.{DiskSector}
use grage_fat.Pfs.Volume.{Volume, get_fat_entry_sector, get_fat_entry_offset}
use grage_fat.Pfs.Cache.{
  Cached, is_fat_sector_reserved, call_get_sector, call_cached_get_sector, call_cached_put_sector,
}
use grage_fat.Pfs.Cache.Coherence.{IsCache, Leaves, view}
use grage_fat.Pfs.Fat.{get_next_cluster_in_chain, get_entry, read_entry}
use grage_fat.Pfs.Fat.Chains.{
  entry_at, read_entry-some, entry_at-copied, entry_at-kept, get_entry-Leaves,
  call_cached_get_sector-Leaves, call_cached_put_sector-Leaves, written, not_written,
}
use grage_fat.Pfs.Session.{Session, with_cached, next_in_chain}
use grage_fat.Pfs.Release.{replace_entry}

-- The entry of a cluster, four bytes each behind the reserved sectors.
abbrev pub fat_entry : ℕ → (ℕ → List ℕ) → ℕ → ℕ
fat_entry rsv contents k = entry_at (contents (rsv + k / 128)) (k % 128 * 4)

-- The FAT lies in whole sectors of 512 bytes, behind a reserved one, and its cache is well formed.
pub record IsFat (v : Volume) (c : Cached) : Type 0 where
  pub is_cache : IsCache c.0
  pub bytes_per_sector : v.bps ≡ 512
  pub reserved : 0 < v.rsv
  pub no_wrap : v.rsv + v.fat_size < 2 ^ 32
  pub whole : (n : ℕ) → n ≤ v.fat_size → length (view c (v.rsv + n)) ≡ 512

abbrev pub InTable : Volume → ℕ → Type 0
InTable v k = (k < 2 ^ 28) × (k / 128 ≤ v.fat_size)

pub entry_place :
    (v : Volume) (c : Cached) (k : ℕ)
    → IsFat v c
    → InTable v k
    → (get_fat_entry_sector v k ≡ v.rsv + k / 128) × (get_fat_entry_offset v k ≡ k % 128 * 4)
unfolding get_fat_entry_sector get_fat_entry_offset
entry_place v c k f t = (
  rw f.bytes_per_sector (omega (arith, t.0, t.1, f.no_wrap)),
  rw f.bytes_per_sector (omega (arith, t.0)),
)

pub entry_reserved :
    (v : Volume) (k : ℕ) → k / 128 ≤ v.fat_size → is_fat_sector_reserved v (v.rsv + k / 128) ≡ true
unfolding is_fat_sector_reserved
entry_reserved v k t = le→leb _ _ (omega (arith, t))

pub IsFat-Leaves : (v : Volume) (c c' : Cached) → IsFat v c → Leaves (view c) c' → IsFat v c'
IsFat-Leaves v c c' f l = record {
  is_cache = l.0;
  bytes_per_sector = f.bytes_per_sector;
  reserved = f.reserved;
  no_wrap = f.no_wrap;
  whole = λ n le. ap length (l.1 (v.rsv + n)) ∙ f.whole n le;
}

-- Two entries are the same one, or lie apart.
entries_apart :
    (rsv j k : ℕ)
    → j ≢ k
    → (rsv + j / 128 ≢ rsv + k / 128)
      ⊎ ((k % 128 * 4 + 4 ≤ j % 128 * 4) ⊎ (j % 128 * 4 + 4 ≤ k % 128 * 4))
entries_apart rsv j k other = elim (Bool-cases (j / 128 == k / 128)) [
  | inl e ↦
      let same = (==_iff _ _).0 e in
      inr (elim (Bool-cases (leb (k % 128 * 4 + 4) (j % 128 * 4))) [
        | inl le ↦ inl (leb→le _ _ le)
        | inr gt ↦ inr (
            let past : j % 128 * 4 < k % 128 * 4 + 4 = ground arith in
            omega (arith, past, same, other))
      ])
  | inr e ↦ inl (λ f.
      let same : j / 128 ≡ k / 128 = omega (arith, f) in
      let equal = (==_iff (j / 128) (k / 128)).1 same in absurd (cc))
]

pub next_in_chain-some :
    (s : Session) (k n o e : ℕ) (c : Cached)
    → get_fat_entry_sector s.fat.volume k ≡ n
    → get_fat_entry_offset s.fat.volume k ≡ o
    → get_entry s.fat.volume s.sizes.fat_max_count n o s.fat.cached ≡ some (e, c)
    → next_in_chain k s ≡ some (e, with_cached s c)
unfolding next_in_chain get_next_cluster_in_chain
next_in_chain-some s k n o e c sector offset got = rw (sector, offset, got, next_in_chain)

replace_entry-some :
    (s : Session) (n o e value : ℕ) (d d' : DiskSector) (content : List ℕ) (c c' : Cached)
    → call_cached_get_sector s.fat.volume s.sizes.fat_max_count n s.fat.cached ≡ some (d, c)
    → read_entry d o ≡ some e
    → copy_into d.sector_content o (bytes_of 4 value) ≡ some content
    → d' ≡ record d { sector_content = content }
    → call_cached_put_sector s.fat.volume s.sizes.fat_max_count d' c ≡ some c'
    → replace_entry n o value s ≡ some (e, with_cached s c')
unfolding replace_entry
replace_entry-some s n o e value d d' content c c' got entry copied same put =
    rw (got, entry, copied, ← same, put, replace_entry)

module _ (s : Session) (room : 0 < s.sizes.fat_max_count)
    (f : IsFat s.fat.volume s.fat.cached) where
  -- A link is read, and nothing changes.
  pub next_in_chain-Leaves :
      (k : ℕ)
      → InTable s.fat.volume k
      → (c : Cached) × (next_in_chain k s
          ≡ some (fat_entry s.fat.volume.rsv (view s.fat.cached) k, with_cached s c))
        × Leaves (view s.fat.cached) c
  next_in_chain-Leaves k t =
      let v = s.fat.volume in
      let (sector, offset) = entry_place v s.fat.cached k f t in
      let whole = f.whole (k / 128) t.1 in
      let (c, got, leaves) =
        get_entry-Leaves v s.sizes.fat_max_count room (v.rsv + k / 128) (k % 128 * 4) s.fat.cached
          f.is_cache (entry_reserved v k t.1) (λ e. omega (arith, f.reserved, e))
          (omega (arith, whole)) in
      (c, next_in_chain-some s k (v.rsv + k / 128) (k % 128 * 4) _ c sector offset got, leaves)

  -- An entry is read and replaced, and no other changes.
  pub replace_entry-Leaves :
      (k value : ℕ)
      → InTable s.fat.volume k
      → value < 2 ^ 32
      → (c : Cached) × (replace_entry
            (get_fat_entry_sector s.fat.volume k)
            (get_fat_entry_offset s.fat.volume k)
            value
            s
          ≡ some (fat_entry s.fat.volume.rsv (view s.fat.cached) k, with_cached s c))
        × IsFat s.fat.volume c
        × (fat_entry s.fat.volume.rsv (view c) k ≡ value)
        × ((j : ℕ)
            → InTable s.fat.volume j
            → j ≢ k
            → fat_entry s.fat.volume.rsv (view c) j
              ≡ fat_entry s.fat.volume.rsv (view s.fat.cached) j)
  replace_entry-Leaves k value t narrow =
      let v = s.fat.volume in
      let n = v.rsv + k / 128 in
      let o = k % 128 * 4 in
      let c0 = s.fat.cached in
      let (sector, offset) = entry_place v c0 k f t in
      let whole : length (view c0 n) ≡ 512 = f.whole (k / 128) t.1 in
      let fits : o + 4 ≤ length (view c0 n) = omega (arith, whole) in
      let (c1, got, l1) =
        call_cached_get_sector-Leaves v s.sizes.fat_max_count room n c0 f.is_cache
          (entry_reserved v k t.1) (λ e. omega (arith, f.reserved, e)) in
      let (content, copied) = copy_into_fits (view c0 n) o (bytes_of 4 value) fits in
      let d : DiskSector = record { sector_number = n; sector_content = content } in
      let is = copy_into-IsCopied (view c0 n) o (bytes_of 4 value) content copied in
      let (c2, put, l2) =
        call_cached_put_sector-Leaves v s.sizes.fat_max_count room d c1 l1.0
          (entry_reserved v k t.1) in
      let here : view c2 n ≡ content = l2.1 n ∙ written (view c1) d in
      let there : (m : ℕ) → m ≢ n → view c2 m ≡ view c0 m =
        λ m other. l2.1 m ∙ not_written (view c1) d m other ∙ l1.1 m in
      (
        c2,
        ap₂ (λ m p. replace_entry m p value s) sector offset
            ∙ replace_entry-some s n o _ value _ d content c1 c2 got
                (read_entry-some (call_get_sector (view c0) n) o fits) copied refl put,
        record {
          is_cache = l2.0;
          bytes_per_sector = f.bytes_per_sector;
          reserved = f.reserved;
          no_wrap = f.no_wrap;
          whole = λ m le. elim (Bool-cases (v.rsv + m == n)) [
            | inl e ↦
                ap (λ x. length (view c2 x)) ((==_iff _ _).0 e)
                ∙ ap length here
                ∙ is.same_length
                ∙ whole
            | inr e ↦ ap length (there (v.rsv + m) (ground (arith, e))) ∙ f.whole m le
          ];
        },
        rw here (
            entry_at-copied content o value (omega (arith, fits, is.same_length)) narrow is.copied),
        λ j u other. elim (entries_apart v.rsv j k other) [
          | inl away ↦ ap (λ xs. entry_at xs (j % 128 * 4)) (there (v.rsv + j / 128) away)
          | inr apart ↦ elim (Bool-cases (v.rsv + j / 128 == n)) [
            | inl e ↦
                let same = (==_iff (v.rsv + j / 128) n).0 e in
                ap (λ x. entry_at (view c2 x) (j % 128 * 4)) same
                ∙ ap (λ xs. entry_at xs (j % 128 * 4)) here
                ∙ entry_at-kept (view c0 n) content (j % 128 * 4) (omega (arith, whole))
                    is.same_length (is.kept (j % 128 * 4) 4 apart)
                ∙ ap (λ x. entry_at (view c0 x) (j % 128 * 4)) (sym same)
            | inr e ↦
                ap (λ xs. entry_at xs (j % 128 * 4)) (there (v.rsv + j / 128) (ground (arith, e)))
          ]
        ],
      )
