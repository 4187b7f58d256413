-- ===== src/Pfs/Flush.antt =====
-- The caches go to the disk: pfs_fat32_fatCacheFlush, pfs_fat32_fileCacheFlush and
-- pfs_fat32_updateDiskInformation of grage-pfs/app/src/core/pfs-fat32.c.
pub mod Written
use grage_fat.Base.{false, some, List, [], ◌∷◌, if◌then◌else◌, bind, bytes_of, copy_into, sub32}
use grage_fat.Commons.LinkedList.{LinkedList, remove_node}
use grage_fat.Pfs.Cache.{CacheSectorRecord, Device, Cached, call_put_sector, call_cached_get_sector}
use grage_fat.Pfs.Session.{Action, with_cached}

-- The loop over the cache of the FAT: what was changed is written.
unfoldable pub flush_records : List CacheSectorRecord → Device → List CacheSectorRecord × Device
flush_records [] device = ([], device)
flush_records (r ∷ rs) device =
    let (rs', device') =
      flush_records rs (if r.modificado then call_put_sector device r.sector else device) in
    ((if r.modificado then record r { modificado = false } else r) ∷ rs', device')

unfoldable pub flush_cached : Cached → Cached
unfolding flush_records
flush_cached (cache, device) =
    let (rs, device') = flush_records cache.elements device in
    (record cache { elements = rs }, device')

unfoldable pub fat_cache_flush : Action (Unit {0})
unfolding flush_cached
fat_cache_flush s = some (tt, with_cached s (flush_cached s.fat.cached))

-- The loop over a file's cache writes every record and takes it out; its iterator has gone on before.
unfoldable pub drain :
    List CacheSectorRecord
    → LinkedList CacheSectorRecord
    → Device
    → LinkedList CacheSectorRecord × Device
drain [] cache device = (cache, device)
drain (r ∷ rs) cache device = drain rs (remove_node cache r).0 (call_put_sector device r.sector)

unfoldable pub file_cache_flush : Action (Unit {0})
unfolding drain
file_cache_flush s = bind s.file.cache (λ cache.
    let (cache', device) = drain cache.elements cache s.fat.cached.1 in
    some (
      tt,
      record (with_cached s (s.fat.cached.0, device)) {
        file = record (s.file) { cache = some cache' };
      },
    ))

-- The sector with the volume's counts is read through the cache, and written past it.
unfoldable pub update_disk_information : Action (Unit {0})
update_disk_information s =
    let v = s.fat.volume in
    bind (call_cached_get_sector v s.sizes.fat_max_count 1 s.fat.cached) (λ (d, (cache, device)).
      bind (copy_into d.sector_content 488 (bytes_of 4 v.free_cluster_count)) (λ counted.
        bind (copy_into counted 492 (bytes_of 4 (sub32 v.next_free_cluster 1))) (λ content. some (
          tt,
          with_cached s (cache, call_put_sector device (record d { sector_content = content })),
        ))))
