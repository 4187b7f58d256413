-- ===== src/Pfs/Blocks.antt =====
-- grage-pfs/app/src/core/pfs-fat-utils.c: the blocks of a cluster, eight sectors each, with
-- pfs_blocks_initializeBlock and pfs_endpoint_blocks_callGetBlock. Each pooled connection carries
-- one request and its answer, so that the eight answers are the device's contents.
pub mod Reading
pub mod Writing
pub mod Repeating
use grage_fat.Base.{
  ℕ, zero, suc, ◌+◌, ◌-◌, Bool, true, false, ◌&&◌, not, none, some, List, [], ◌++◌, ◌==◌,
  if◌then◌else◌, u16, u32, bind,
}
use grage_fat.Nipc.{DiskSector, sector_size}
use grage_fat.Pfs.Volume.{get_first_sector_of_cluster}
use grage_fat.Pfs.Cache.{call_put_sector, get_through, put_in_cache}
use grage_fat.Pfs.Session.{Session, Action, pure, ◌>>=◌, ◌>>◌, get_volume, with_cached, load}

pub record Block : Type 0 where
  pub id : ℕ
  pub content : List ℕ

-- What goes to the device, and what comes from it, past all caches.
abbrev pub get_device : ℕ → Action (List ℕ)
get_device n s = some (s.fat.cached.1 n, s)

abbrev pub put_device : DiskSector → Action (Unit {0})
put_device d s = some (tt, with_cached s (s.fat.cached.0, call_put_sector s.fat.cached.1 d))

-- `pfs_endpoint_callCachedGetFileSector` and `pfs_endpoint_utils_putInFileCache` with the file's
-- cache; there is none to look into where it is `NULL`.
unfoldable pub get_file_sector : ℕ → Action (List ℕ)
get_file_sector n s = bind s.file.cache (λ cache.
    bind (get_through n s.sizes.file_max_count (cache, s.fat.cached.1)) (λ (d, (cache', device)).
      some (
        d.sector_content,
        record (with_cached s (s.fat.cached.0, device)) {
          file = record (s.file) { cache = some cache' };
        },
      )))

unfoldable pub put_file_sector : DiskSector → Action (Unit {0})
put_file_sector d s = bind s.file.cache (λ cache.
    bind (put_in_cache d cache s.sizes.file_max_count s.fat.cached.1) (λ (cache', device). some (
      tt,
      record (with_cached s (s.fat.cached.0, device)) {
        file = record (s.file) { cache = some cache' };
      },
    )))

-- The loops over the sectors of a block, with `left` rounds more: the copies of the sectors fill
-- it one behind the other.
unfoldable pub get_sectors : ℕ → ℕ → Action (List ℕ)
unfolding get_file_sector
get_sectors zero n = pure []
get_sectors (suc left) n = do
  content ← get_file_sector n
  rest ← get_sectors left (n + 1)
  pure (content ++ rest)

unfoldable pub get_device_sectors : ℕ → ℕ → Action (List ℕ)
get_device_sectors zero n = pure []
get_device_sectors (suc left) n = do
  content ← get_device (u32 n)
  rest ← get_device_sectors left (n + 1)
  pure (content ++ rest)

-- Through the cache, every sector gets the start of the block.
unfoldable pub put_sectors : ℕ → ℕ → Block → Action (Unit {0})
unfolding put_file_sector
put_sectors zero n block = pure tt
put_sectors (suc left) n block = do
  content ← load block.content 0 sector_size
  put_file_sector (record { sector_number = n; sector_content = content })
  put_sectors left (n + 1) block

unfoldable pub put_device_sectors : ℕ → ℕ → ℕ → Block → Action (Unit {0})
put_device_sectors zero n offset block = pure tt
put_device_sectors (suc left) n offset block = do
  content ← load block.content offset sector_size
  put_device (record { sector_number = n; sector_content = content })
  put_device_sectors left (n + 1) (u16 (offset + sector_size)) block

-- The blocks of the root directory do not go through a cache.
unfoldable pub is_cached : ℕ → Session → Bool
is_cached block_number s = s.sizes.cache_habilitada && not (block_number == s.fat.volume.root)

abbrev pub choose : {A : Type 0} → (Session → Bool) → Action A → Action A → Action A
choose test m n s = elim (test s) [ true ↦ m s | false ↦ n s ]

-- `pfs_fat32_utils_callGetBlock`: the last sector's number may have wrapped, and then the loop
-- over the cache has no round.
unfoldable pub get_block : ℕ → Action Block
unfolding get_sectors get_device_sectors
get_block block_number = do
  v ← get_volume
  let first = get_first_sector_of_cluster v block_number
  content ←
      choose (is_cached block_number) (get_sectors (u32 (first + 8) - first) first)
        (get_device_sectors 8 first)
  pure (record { id = block_number; content = content })

-- `pfs_fat32_utils_callPutBlock` with the file itself.
unfoldable pub put_block : Block → Action (Unit {0})
unfolding put_sectors put_device_sectors
put_block block = do
  v ← get_volume
  let first = get_first_sector_of_cluster v block.id
  choose (is_cached block.id) (put_sectors (u32 (first + 8) - first) first block)
      (put_device_sectors (u32 (first + 8) - first) first 0 block)

-- `pfs_fat32_utils_callPutBlock` with `NULL` for the file, as the operations on directory entries
-- call it: the branch of the cache goes through that pointer, if it has a round.
unfoldable pub put_block_of_none : Block → Action (Unit {0})
unfolding put_device_sectors
put_block_of_none block = do
  v ← get_volume
  let first = get_first_sector_of_cluster v block.id
  choose (is_cached block.id) (λ s. if u32 (first + 8) - first == 0 then some (tt, s) else none)
      (put_device_sectors (u32 (first + 8) - first) first 0 block)
