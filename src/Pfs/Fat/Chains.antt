-- ===== src/Pfs/Fat/Chains.antt =====
-- What the operations on the FAT write and read back.
use grage_fat.Base.{
  ℕ, ◌+◌, ◌*◌, ◌/◌, ◌%◌, ◌≤◌, ◌<◌, ◌^◌, ◌≡◌, ◌≢◌, refl, sym, ap, subst, ◌∙◌, true, none, some, List,
  inr, arith, length, u16, bytes_of, value_of, copy_from, IsCopied, copy_into_fits,
  copy_into-IsCopied, copy_into_outside, value_of-bytes_of32, take, drop, le→leb,
}
use grage_fat.Nipc.{DiskSector}
use grage_fat.Pfs.Volume.{Volume, get_fat_entry_sector, get_fat_entry_offset}
use grage_fat.Pfs.Cache.{
  Cached, is_fat_sector_reserved, call_get_sector, call_put_sector, call_cached_get_sector,
  call_cached_put_sector,
}
use grage_fat.Pfs.Cache.Coherence.{IsCache, Leaves, view, get_through-Leaves, put_in_cache-Leaves}
use grage_fat.Pfs.Fat.{
  get_entry, put_entry, read_entry, get_next_cluster_in_chain, expand_chain, mark_end_of_chain,
  end_of_chain,
}

pub written :
    (contents : ℕ → List ℕ) (d : DiskSector)
    → call_put_sector contents d d.sector_number ≡ d.sector_content
written contents d = ground arith

pub not_written :
    (contents : ℕ → List ℕ) (d : DiskSector) (k : ℕ)
    → k ≢ d.sector_number
    → call_put_sector contents d k ≡ contents k
not_written contents d k h = ground (arith, h)

-- The entry that four bytes of a sector spell.
abbrev pub entry_at : List ℕ → ℕ → ℕ
entry_at content offset = value_of (take 4 (drop offset content))

pub read_entry-some :
    (d : DiskSector) (offset : ℕ)
    → offset + 4 ≤ length d.sector_content
    → read_entry d offset ≡ some (entry_at d.sector_content offset)
unfolding read_entry copy_from
read_entry-some d offset h = rw (le→leb (offset + 4) (length d.sector_content) h, read_entry) refl

some_injective : {x y : List ℕ} → some x ≡ some y → x ≡ y
some_injective n = cc

copy_from-take :
    (xs : List ℕ) (offset : ℕ)
    → offset + 4 ≤ length xs
    → copy_from xs offset 4 ≡ some (take 4 (drop offset xs))
unfolding copy_from
copy_from-take xs offset fits = rw (le→leb (offset + 4) (length xs) fits) refl

pub entry_at-copied :
    (xs : List ℕ) (offset entry : ℕ)
    → offset + 4 ≤ length xs
    → entry < 2 ^ 32
    → copy_from xs offset 4 ≡ some (bytes_of 4 entry)
    → entry_at xs offset ≡ entry
entry_at-copied xs offset entry fits h e =
    ap value_of (some_injective (sym (copy_from-take xs offset fits) ∙ e))
    ∙ value_of-bytes_of32 entry h

pub entry_at-kept :
    (xs ys : List ℕ) (offset : ℕ)
    → offset + 4 ≤ length xs
    → length ys ≡ length xs
    → copy_from ys offset 4 ≡ copy_from xs offset 4
    → entry_at ys offset ≡ entry_at xs offset
entry_at-kept xs ys offset fits same e = ap value_of (
    some_injective
      (sym (copy_from-take ys offset (omega (arith, same))) ∙ e ∙ copy_from-take xs offset fits))

module _ (v : Volume) (max_count : ℕ) (room : 0 < max_count) where
  pub call_cached_get_sector-Leaves :
      (n : ℕ) (c : Cached)
      → IsCache c.0
      → is_fat_sector_reserved v n ≡ true
      → n ≢ 0
      → (c' : Cached) × (call_cached_get_sector v max_count n c
          ≡ some (call_get_sector (view c) n, c'))
        × Leaves (view c) c'
  unfolding call_cached_get_sector
  call_cached_get_sector-Leaves n c i r z = rw r (get_through-Leaves n max_count c.0 c.1 i room z)

  pub call_cached_put_sector-Leaves :
      (d : DiskSector) (c : Cached)
      → IsCache c.0
      → is_fat_sector_reserved v d.sector_number ≡ true
      → (c' : Cached) × (call_cached_put_sector v max_count d c ≡ some c')
        × Leaves (call_put_sector (view c) d) c'
  unfolding call_cached_put_sector
  call_cached_put_sector-Leaves d c i r = rw r (put_in_cache-Leaves d c.0 max_count c.1 i room)

  -- A number that is written within a sector of the FAT.
  put_entry-Leaves :
      (n offset entry : ℕ) (c : Cached)
      → IsCache c.0
      → is_fat_sector_reserved v n ≡ true
      → n ≢ 0
      → offset + 4 ≤ length (view c n)
      → (c' : Cached) × (put_entry v max_count n offset entry c ≡ some c')
        × IsCache c'.0
        × IsCopied (view c n) offset (bytes_of 4 entry) (view c' n)
        × ((k : ℕ) → k ≢ n → view c' k ≡ view c k)
  unfolding put_entry
  put_entry-Leaves n offset entry c i r z fits =
      let (c1, got, l1) = call_cached_get_sector-Leaves n c i r z in
      let (content, copied) = copy_into_fits (view c n) offset (bytes_of 4 entry) fits in
      let d : DiskSector = record { sector_number = n; sector_content = content } in
      let (c2, put, l2) = call_cached_put_sector-Leaves d c1 l1.0 r in
      (
        c2,
        rw (got, copied, put, put_entry) refl,
        l2.0,
        subst (IsCopied (view c n) offset (bytes_of 4 entry)) (sym (l2.1 n ∙ written (view c1) d))
            (copy_into-IsCopied (view c n) offset (bytes_of 4 entry) content copied),
        λ k other. l2.1 k ∙ not_written (view c1) d k other ∙ l1.1 k,
      )

  pub get_entry-Leaves :
      (n offset : ℕ) (c : Cached)
      → IsCache c.0
      → is_fat_sector_reserved v n ≡ true
      → n ≢ 0
      → offset + 4 ≤ length (view c n)
      → (c' : Cached) × (get_entry v max_count n offset c ≡ some (entry_at (view c n) offset, c'))
        × Leaves (view c) c'
  unfolding get_entry
  get_entry-Leaves n offset c i r z fits =
      let (c1, got, l1) = call_cached_get_sector-Leaves n c i r z in
      (c1, rw (got, read_entry-some (call_get_sector (view c) n) offset fits, get_entry) refl, l1)

-- The sector of the FAT with a cluster's entry is one that the cache takes, and is not the boot
-- sector, and has its 512 bytes.
pub record IsInFat (v : Volume) (c : Cached) (cluster : ℕ) : Type 0 where
  pub is_cache : IsCache c.0
  pub bytes_per_sector : v.bps ≡ 512
  pub reserved : 0 < v.rsv
  pub small : cluster < 2 ^ 28
  pub in_table : cluster / 128 ≤ v.fat_size
  pub no_wrap : v.rsv + v.fat_size < 2 ^ 32
  pub whole : length (view c (get_fat_entry_sector v cluster)) ≡ 512

in_fat :
    (v : Volume) (c : Cached) (cluster : ℕ)
    → IsInFat v c cluster
    → (is_fat_sector_reserved v (get_fat_entry_sector v cluster) ≡ true)
      × (get_fat_entry_sector v cluster ≢ 0)
      × (get_fat_entry_offset v cluster ≡ (cluster % 128) * 4)
unfolding is_fat_sector_reserved get_fat_entry_sector get_fat_entry_offset
in_fat v c cluster f =
    let sector : get_fat_entry_sector v cluster ≡ v.rsv + cluster / 128 =
      rw f.bytes_per_sector (omega (arith, f.small, f.in_table, f.no_wrap)) in
    (
      rw sector (le→leb _ _ (omega (arith, f.in_table))),
      (rw sector (λ e. omega (arith, f.reserved, e))),
      rw f.bytes_per_sector (omega (arith, f.small)),
    )

next_offset :
    (v : Volume) (c : Cached) (cluster : ℕ)
    → IsInFat v c cluster
    → cluster % 128 < 127
    → get_fat_entry_offset v (cluster + 1) ≡ get_fat_entry_offset v cluster + 4
unfolding get_fat_entry_offset
next_offset v c cluster f h = rw f.bytes_per_sector (omega (arith, f.small, h))

next_sector_lem :
    (v : Volume) (c : Cached) (cluster : ℕ)
    → IsInFat v c cluster
    → cluster % 128 < 127
    → get_fat_entry_sector v (cluster + 1) ≡ get_fat_entry_sector v cluster
unfolding get_fat_entry_sector
next_sector_lem v c cluster f h = rw f.bytes_per_sector (omega (arith, f.small, h))

-- A link that is written is read back.
pub get_next_cluster_in_chain-expand_chain :
    (v : Volume) (max_count : ℕ) (c : Cached) (last free : ℕ)
    → 0 < max_count
    → IsInFat v c last
    → free < 2 ^ 32
    → (c' : Cached) × (c'' : Cached) × (expand_chain v max_count last free c ≡ some c')
      × (get_next_cluster_in_chain v max_count last c' ≡ some (free, c''))
unfolding expand_chain get_next_cluster_in_chain
get_next_cluster_in_chain-expand_chain v max_count c last free room f h =
    let (reserved, number, place) = in_fat v c last f in
    let n = get_fat_entry_sector v last in
    let offset = get_fat_entry_offset v last in
    let narrow : u16 offset ≡ offset = omega (arith, place) in
    let fits : offset + 4 ≤ length (view c n) = omega (arith, place, f.whole) in
    let (c1, put, is_cache, copied, others) =
      put_entry-Leaves v max_count room n offset free c f.is_cache reserved number fits in
    let fits1 : offset + 4 ≤ length (view c1 n) = omega (arith, fits, copied.same_length) in
    let (c2, got, leaves) =
      get_entry-Leaves v max_count room n offset c1 is_cache reserved number fits1 in
    (
      c1,
      c2,
      ap (λ o. put_entry v max_count n o free c) narrow ∙ put,
      got ∙ ap (λ e. some (e, c2)) (entry_at-copied (view c1 n) offset free fits1 h copied.copied),
    )

-- Marking the end of a chain leaves the entry of its last cluster as it was and marks that of the
-- cluster after it, if both entries are in one sector.
pub mark_end_of_chain-next :
    (v : Volume) (max_count : ℕ) (c : Cached) (cluster : ℕ)
    → 0 < max_count
    → IsInFat v c cluster
    → cluster % 128 < 127
    → (c' : Cached) × (mark_end_of_chain v max_count cluster c ≡ some c')
      × (entry_at (view c' (get_fat_entry_sector v cluster)) (get_fat_entry_offset v cluster)
          ≡ entry_at (view c (get_fat_entry_sector v cluster)) (get_fat_entry_offset v cluster))
      × (entry_at (view c' (get_fat_entry_sector v cluster)) (get_fat_entry_offset v (cluster + 1))
          ≡ end_of_chain)
      × (get_fat_entry_sector v (cluster + 1) ≡ get_fat_entry_sector v cluster)
unfolding mark_end_of_chain
mark_end_of_chain-next v max_count c cluster room f not_last =
    let (reserved, number, place) = in_fat v c cluster f in
    let n = get_fat_entry_sector v cluster in
    let offset = get_fat_entry_offset v cluster in
    let fits : (offset + 4) + 4 ≤ length (view c n) = omega (arith, place, f.whole, not_last) in
    let (c1, put, is_cache, copied, others) =
      put_entry-Leaves v max_count room n (offset + 4) end_of_chain c f.is_cache reserved number
        fits in
    (
      c1,
      put,
      entry_at-kept (view c n) (view c1 n) offset (omega (arith, fits)) copied.same_length
          (copied.kept offset 4 (inr (omega arith))),
      rw (next_offset v c cluster f not_last) (
          entry_at-copied (view c1 n) (offset + 4) end_of_chain
            (omega (arith, fits, copied.same_length)) (omega arith) copied.copied),
      next_sector_lem v c cluster f not_last,
    )

-- For the cluster whose entry is the last of its sector, marking the end writes past the sector.
pub mark_end_of_chain-fault :
    (v : Volume) (max_count : ℕ) (c : Cached) (cluster : ℕ)
    → 0 < max_count
    → IsInFat v c cluster
    → cluster % 128 ≡ 127
    → mark_end_of_chain v max_count cluster c ≡ none
unfolding mark_end_of_chain put_entry
mark_end_of_chain-fault v max_count c cluster room f last =
    let (reserved, number, place) = in_fat v c cluster f in
    let n = get_fat_entry_sector v cluster in
    let (c1, got, leaves) =
      call_cached_get_sector-Leaves v max_count room n c f.is_cache reserved number in
    let past : length (view c n) < get_fat_entry_offset v cluster + 4 + 4 =
      omega (arith, place, f.whole, last) in
    rw
      (
        got,
        copy_into_outside (view c n) (get_fat_entry_offset v cluster + 4) (bytes_of 4 end_of_chain)
            past,
        mark_end_of_chain,
        put_entry,
      )
      refl
