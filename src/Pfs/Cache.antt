-- ===== src/Pfs/Cache.antt =====
-- grage-pfs/app/src/core/pfs-cache.c and pfs-file-cache.c, and of services/pfs-endpoint.c what reads
-- and writes sectors through a cache. A record of a cache is changed in place; a chain is here the
-- list of the records as they are. The device is what the messages of the process see of it: the
-- content of each sector. `none` is an access through a pointer that was never set.
pub mod Records
pub mod Coherence
pub mod Frame
use grage_fat.Base.{
  ℕ, ◌+◌, ◌*◌, ◌/◌, ◌≡◌, Bool, true, false, Option, none, some, List, [], ◌∷◌, map, ◌==◌, leb,
  if◌then◌else◌, u8, u32,
}
use grage_fat.Commons.LinkedList.{
  LinkedList, build_list, order_always_first, add_node, remove_node, get_node_by_criteria,
  contains_node,
}
use grage_fat.Nipc.{DiskSector}
use grage_fat.Pfs.Volume.{Volume}

pub record CacheSectorRecord : Type 0 where
  pub estado : ℕ
  pub modificado : Bool
  pub sector : DiskSector

abbrev pub Device : Type 0
Device = ℕ → List ℕ

abbrev pub call_get_sector : Device → ℕ → DiskSector
call_get_sector device n = record { sector_number = n; sector_content = device n }

abbrev pub call_put_sector : Device → DiskSector → Device
call_put_sector device d n = if n == d.sector_number then d.sector_content else device n

unfoldable pub is_fat_sector_reserved : Volume → ℕ → Bool
is_fat_sector_reserved v sector_number = leb sector_number (v.rsv + v.fat_size)

unfoldable pub same_sector : CacheSectorRecord → CacheSectorRecord → Bool
same_sector p1 p2 = p1.sector.sector_number == p2.sector.sector_number

unfoldable pub sectors_initialize : LinkedList CacheSectorRecord
sectors_initialize = build_list same_sector order_always_first

-- The number of records that `pfs_cache_initialize` allows the cache of the FAT.
unfoldable pub cache_sectors_fat_max_count : Volume → ℕ
cache_sectors_fat_max_count v = v.fat_size * 20 / 100

abbrev pub accessed : CacheSectorRecord → CacheSectorRecord
accessed r = record r { estado = u8 (r.estado + 1) }

unfoldable pub registrar_acceso : LinkedList CacheSectorRecord → LinkedList CacheSectorRecord
registrar_acceso cache = record cache { elements = map accessed cache.elements }

-- `pfs_cache_get_sector`.
unfoldable pub get_sector :
    ℕ → LinkedList CacheSectorRecord → Option CacheSectorRecord × LinkedList CacheSectorRecord
unfolding registrar_acceso
get_sector n cache =
    let cache' = registrar_acceso cache in
    (get_node_by_criteria cache' (λ a. a.sector.sector_number == n), cache')

-- The loop that looks for the record to take out: the new record's state is 0, and the loop ends
-- at the first record whose state is no less, or at the last.
unfoldable pub select_victim : List CacheSectorRecord → Option CacheSectorRecord
select_victim [] = none
select_victim (r ∷ []) = some r
select_victim (r ∷ s ∷ rest) =
    let later = select_victim (s ∷ rest) in if leb 0 r.estado then some r else later

-- A full cache writes a record to the device before it takes it out.
unfoldable pub make_room :
    LinkedList CacheSectorRecord → ℕ → Device → Option (LinkedList CacheSectorRecord × Device)
unfolding select_victim
make_room cache max_count device =
    if leb max_count cache.size
    then (elim (select_victim cache.elements) [
      | none ↦ none
      | some r ↦ some ((remove_node cache r).0, call_put_sector device r.sector)
    ])
    else some (cache, device)

abbrev pub new_record : DiskSector → CacheSectorRecord
new_record d = record { estado = 0; modificado = false; sector = d }

-- `pfs_cache_put_sectors`.
unfoldable pub put_sectors :
    DiskSector
    → LinkedList CacheSectorRecord
    → ℕ
    → Device
    → Option (LinkedList CacheSectorRecord × Device)
unfolding make_room registrar_acceso
put_sectors d cache max_count device = elim (make_room cache max_count device) [
  | none ↦ none
  | some (room, device') ↦ some (registrar_acceso (add_node room (new_record d)), device')
]

abbrev pub overwrite : DiskSector → CacheSectorRecord → CacheSectorRecord
overwrite d r = record r {
  sector = record (r.sector) { sector_content = d.sector_content };
  modificado = true;
}

-- The loop of `putInCache` and of `putInFileCache`: the first record of the sector, if there is
-- one, gets the new content.
unfoldable pub overwrite_first :
    DiskSector → List CacheSectorRecord → Option (List CacheSectorRecord)
overwrite_first d [] = none
overwrite_first d (r ∷ rest) =
    let later = overwrite_first d rest in
    if r.sector.sector_number == d.sector_number
    then some (overwrite d r ∷ rest)
    else (elim later [ none ↦ none | some rest' ↦ some (r ∷ rest') ])

unfoldable pub put_in_cache :
    DiskSector
    → LinkedList CacheSectorRecord
    → ℕ
    → Device
    → Option (LinkedList CacheSectorRecord × Device)
unfolding overwrite_first put_sectors
put_in_cache d cache max_count device = elim (overwrite_first d cache.elements) [
  | none ↦ put_sectors d cache max_count device
  | some elements ↦ some (record cache { elements = elements }, device)
]

-- What a read or a write through a cache leaves: the cache and the device.
abbrev pub Cached : Type 0
Cached = LinkedList CacheSectorRecord × Device

-- `pfs_endpoint_buildDiskSectorFromCacheCluster` and the test of its callers: a record of sector 0
-- counts as none.
unfoldable pub cached_sector : Option CacheSectorRecord → Option DiskSector
cached_sector none = none
cached_sector (some r) = if r.sector.sector_number == 0 then none else some r.sector

-- What a reader gets: the cached sector, or else the device's, which goes into the cache.
unfoldable pub serve : ℕ → ℕ → Cached → Option DiskSector → Option (DiskSector × Cached)
unfolding put_in_cache
serve n max_count c (some d) = some (d, c)
serve n max_count (cache, device) none =
    elim (put_in_cache (call_get_sector device n) cache max_count device) [
      | none ↦ none
      | some c ↦ some (call_get_sector device n, c)
    ]

-- `pfs_endpoint_callCachedGetFileSector`, and with the cache of the FAT the reserved branch of
-- `pfs_endpoint_callCachedGetSector`.
unfoldable pub get_through : ℕ → ℕ → Cached → Option (DiskSector × Cached)
unfolding get_sector cached_sector serve
get_through n max_count (cache, device) =
    let (r, cache') = get_sector n cache in serve n max_count (cache', device) (cached_sector r)

unfoldable pub call_cached_get_sector : Volume → ℕ → ℕ → Cached → Option (DiskSector × Cached)
unfolding get_through
call_cached_get_sector v max_count n (cache, device) =
    if is_fat_sector_reserved v n
    then get_through n max_count (cache, device)
    else some (call_get_sector device n, (cache, device))

unfoldable pub call_cached_put_sector : Volume → ℕ → DiskSector → Cached → Option Cached
call_cached_put_sector v max_count d (cache, device) =
    if is_fat_sector_reserved v d.sector_number
    then put_in_cache d cache max_count device
    else some (cache, call_put_sector device d)
