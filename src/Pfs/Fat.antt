-- ===== src/Pfs/Fat.antt =====
-- grage-pfs/app/src/core/pfs-fat-utils.c: the chains of clusters in the FAT, read and written
-- through its cache. `none` is an access out of an array or through a pointer that was never set.
pub mod Chains
pub mod Table
use grage_fat.Base.{
  bind, ℕ, ◌+◌, ◌-◌, ◌%◌, ◌^◌, Bool, true, false, ◌&&◌, Option, none, some, List, zero, suc, ◌==◌,
  leb, ltb, if◌then◌else◌, u16, u32, sub32, bytes_of, value_of, copy_into, copy_from,
}
use grage_fat.Nipc.{DiskSector}
use grage_fat.Pfs.Volume.{Volume, get_fat_entry_sector, get_fat_entry_offset}
use grage_fat.Pfs.Cache.{Cached, call_cached_get_sector, call_cached_put_sector}

abbrev pub end_of_chain : ℕ
end_of_chain = 268435448

unfoldable pub is_eoc : ℕ → Bool
is_eoc entry = leb end_of_chain (entry % 2 ^ 28)

unfoldable pub is_free : ℕ → Bool
is_free entry = entry % 2 ^ 28 == 0

-- `memcpy` of a `uint32_t` out of a sector.
unfoldable pub read_entry : DiskSector → ℕ → Option ℕ
read_entry d offset = elim (copy_from d.sector_content offset 4) [
  | none ↦ none
  | some bs ↦ some (value_of bs)
]

module _ (v : Volume) (max_count : ℕ) where
  unfoldable pub get_entry : ℕ → ℕ → Cached → Option (ℕ × Cached)
  get_entry sector offset c =
      bind (call_cached_get_sector v max_count sector c)
        (λ (d, c'). bind (read_entry d offset) (λ entry. some (entry, c')))

  -- The end of `markEndOfChain` and of `expandChain`.
  unfoldable pub put_entry : ℕ → ℕ → ℕ → Cached → Option Cached
  put_entry sector offset entry c = bind (call_cached_get_sector v max_count sector c) (λ (d, c').
      bind (copy_into d.sector_content offset (bytes_of 4 entry))
        (λ content. call_cached_put_sector v max_count (record d { sector_content = content }) c'))

  unfoldable pub get_next_cluster_in_chain : ℕ → Cached → Option (ℕ × Cached)
  unfolding get_entry
  get_next_cluster_in_chain cluster c =
      get_entry (get_fat_entry_sector v cluster) (get_fat_entry_offset v cluster) c

  -- It writes past the cluster's own entry.
  unfoldable pub mark_end_of_chain : ℕ → Cached → Option Cached
  unfolding put_entry
  mark_end_of_chain cluster c =
      put_entry (get_fat_entry_sector v cluster) (get_fat_entry_offset v cluster + 4) end_of_chain c

  unfoldable pub expand_chain : ℕ → ℕ → Cached → Option Cached
  unfolding put_entry
  expand_chain last free c =
      put_entry (get_fat_entry_sector v last) (u16 (get_fat_entry_offset v last)) free c

  -- The loop of `findEOC`; a chain that is a circle has no end, and then no fuel is enough.
  unfoldable pub find_eoc : ℕ → ℕ → Cached → Option (ℕ × Cached)
  unfolding get_next_cluster_in_chain
  find_eoc zero cluster c = none
  find_eoc (suc fuel) cluster c = bind (get_next_cluster_in_chain cluster c) (λ (entry, c').
      elim (is_eoc entry) [ true ↦ some (cluster, c') | false ↦ find_eoc fuel entry c' ])

-- Where the search for a free cluster ends: at a cluster, or with the error that keeps the lock.
pub data Found : Type 0 where
  disk_full : Found
  next_free : ℕ → Found

-- What the search carries from round to round.
pub record Search : Type 0 where
  pub next : ℕ
  pub offset : ℕ
  pub flag : Bool
  pub sector : DiskSector

module _ (v : Volume) (max_count current_free sector_id : ℕ) where
  -- The end of a round that has come to the end of a sector: it reads `sector_id` again, whatever
  -- it did to the number of its copy.
  unfoldable pub next_sector : ℕ → Search → Cached → Option (Option Search × Cached)
  next_sector entry s c =
      if ltb s.sector.sector_number (v.fat_start_sector + v.fat_size)
      then (if s.flag && current_free == entry
          then some (none, c)
          else bind (call_cached_get_sector v max_count sector_id c)
              (λ (d, c'). some (some (record s { offset = 0; sector = d }), c')))
      else bind (call_cached_get_sector v max_count sector_id c)
          (λ (d, c'). some (some (record s { offset = 0; flag = true; sector = d }), c'))

  -- The loop of `assignCluster` and of `allocateNewCluster`. As much fuel as there are clusters from
  -- `next` on is enough, since each round takes one.
  unfoldable pub search_free : ℕ → Search → Cached → Option (Found × Cached)
  unfolding next_sector
  search_free zero s c = some (next_free s.next, c)
  search_free (suc fuel) s c =
      if ltb s.next v.clusters
      then bind (read_entry s.sector s.offset) (λ entry.
        let passed = record s { offset = s.offset + 4 } in
        elim (is_free entry) [
          | true ↦ some (next_free s.next, c)
          | false ↦ (elim (leb v.bps passed.offset) [
            | false ↦ search_free fuel (record passed { next = s.next + 1 }) c
            | true ↦ bind (next_sector entry passed c) (λ (r, c'). elim r [
              | none ↦ some (disk_full, c')
              | some s' ↦ search_free fuel (record s' { next = s'.next + 1 }) c'
            ])
          ])
        ])
      else some (next_free s.next, c)

-- The file system as these functions see it; `locked` is `fatLock`.
pub record FatState : Type 0 where
  pub volume : Volume
  pub cached : Cached
  pub locked : Bool

abbrev pub search_from : Volume → ℕ → Cached → Option (Found × Cached)
search_from v max_count c =
    let next = u32 (v.next_free_cluster + 1) in
    let sector_id = get_fat_entry_sector v next in
    bind (call_cached_get_sector v max_count sector_id c) (λ (d, c').
      search_free v max_count v.next_free_cluster sector_id (v.clusters - next)
        (record { next = next; offset = get_fat_entry_offset v next; flag = false; sector = d }) c')

abbrev reserved : Volume → ℕ → Volume
reserved v next = record v {
  next_free_cluster = next;
  free_cluster_count = sub32 v.free_cluster_count 1;
}

-- `pfs_fat32_utils_assignCluster`, when the lock is free: the cluster, or the error as the number
-- that `-EXIT_FAILURE` is.
unfoldable pub assign_cluster : ℕ → FatState → Option (ℕ × FatState)
unfolding search_free mark_end_of_chain
assign_cluster max_count f =
    let v = f.volume in
    bind (search_from v max_count f.cached) (λ (found, c). elim found [
      | disk_full ↦ some (2 ^ 32 - 1, record f { cached = c; locked = true })
      | next_free next ↦
          bind (mark_end_of_chain v max_count v.next_free_cluster c)
            (λ c'. some (v.next_free_cluster, record f { volume = reserved v next; cached = c' }))
    ])

-- `pfs_fat32_utils_allocateNewCluster`.
unfoldable pub allocate_new_cluster : ℕ → ℕ → FatState → Option (ℕ × FatState)
unfolding search_free mark_end_of_chain expand_chain
allocate_new_cluster max_count current_last f =
    let v = f.volume in
    bind (search_from v max_count f.cached) (λ (found, c). elim found [
      | disk_full ↦ some (2 ^ 32 - 1, record f { cached = c; locked = true })
      | next_free next ↦ bind (mark_end_of_chain v max_count v.next_free_cluster c) (λ c'.
          bind (expand_chain v max_count current_last v.next_free_cluster c') (λ c''.
            some (v.next_free_cluster, record f { volume = reserved v next; cached = c'' })))
    ])
