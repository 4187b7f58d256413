-- ===== src/Pfs/Resize.antt =====
-- The sizes of files: pfs_fat32_truncate of grage-pfs/app/src/core/pfs-fat32.c, and
-- pfs_fat32_utils_extendFileTruncate, extendFileWrite and updateFilesize of pfs-fat-utils.c. A size
-- is not negative. `date` and `time` are what pfs_fat32_utils_fillTime gives for the moment.
use grage_fat.Base.{
  ℕ, zero, suc, ◌+◌, ◌-◌, ◌*◌, ◌/◌, ◌%◌, true, false, none, some, List, ◌==◌, leb, ltb,
  if◌then◌else◌, u32, bind, replicate, bytes_of,
}
use grage_fat.Pfs.Volume.{Volume, get_fat_entry_sector, get_fat_entry_offset}
use grage_fat.Pfs.DirEntry.{DirEntry, set_first_cluster, encode_dir_entry, exit_success}
use grage_fat.Pfs.Fat.{is_eoc, find_eoc, mark_end_of_chain, assign_cluster, allocate_new_cluster}
use grage_fat.Pfs.Session.{
  Action, pure, ◌>>=◌, ◌>>◌, get_file, get_volume, modify_file, with_cached, load, store,
  next_in_chain,
}
use grage_fat.Pfs.Blocks.{Block, get_block, put_block, put_block_of_none}
use grage_fat.Pfs.Release.{dir_entry_size, attr_long_name, replace_entry, count_free}

-- A lock that an earlier call has kept is never had.
unfoldable pub assign : Action ℕ
assign s =
    if s.fat.locked
    then none
    else bind (assign_cluster s.sizes.fat_max_count s.fat)
        (λ (c, fat). some (c, record s { fat = fat }))

unfoldable pub allocate : ℕ → Action ℕ
allocate last s =
    if s.fat.locked
    then none
    else bind (allocate_new_cluster s.sizes.fat_max_count last s.fat)
        (λ (c, fat). some (c, record s { fat = fat }))

unfoldable pub find_end : ℕ → ℕ → Action ℕ
find_end fuel first s =
    bind (find_eoc s.fat.volume s.sizes.fat_max_count fuel first s.fat.cached)
      (λ (c, cached). some (c, with_cached s cached))

unfoldable pub mark_end : ℕ → Action (Unit {0})
mark_end cluster s =
    bind (mark_end_of_chain s.fat.volume s.sizes.fat_max_count cluster s.fat.cached)
      (λ cached. some (tt, with_cached s cached))

abbrev pub first_entry : DirEntry → ℕ → DirEntry
first_entry d cluster = elim ((set_first_cluster (some d) cluster).0) [ none ↦ d | some e ↦ e ]

-- The clusters that a number of bytes takes.
abbrev pub clusters_for : Volume → ℕ → ℕ
clusters_for v size = if size % v.bpc == 0 then size / v.bpc else size / v.bpc + 1

-- An empty file gets its first cluster, which then counts.
unfoldable pub first_reserved : Action ℕ
unfolding assign
first_reserved = do
  f ← get_file
  elim (f.next_cluster) [
    | zero ↦ (do
      last ← assign
      modify_file
          (λ g. record g { short_entry = first_entry g.short_entry last; next_cluster = last })
      pure 1)
    | suc c ↦ pure 0
  ]

-- The last cluster, as it is kept in the file or at the end of the chain.
unfoldable pub last_cluster : ℕ → Action ℕ
unfolding find_end
last_cluster fuel = do
  f ← get_file
  elim (f.eoc) [
    | zero ↦ (do
      last ← find_end fuel f.next_cluster
      modify_file (λ g. record g { eoc = last })
      pure last)
    | suc c ↦ pure (suc c)
  ]

unfoldable pub reserve : ℕ → ℕ → Action (Unit {0})
unfolding allocate
reserve zero last = pure tt
reserve (suc left) last = do
  cluster ← allocate last
  modify_file (λ g. record g { eoc = cluster })
  reserve left cluster

-- Where the file's short entry lies. Without a long entry the block's number is never set: it is
-- `stale_id`.
unfoldable pub short_entry_place : ℕ → Action (ℕ × ℕ)
short_entry_place stale_id = do
  v ← get_volume
  f ← get_file
  block ← get_block f.source
  elim (f.long_entry.ldir_attr == attr_long_name) [
    | false ↦ pure (stale_id, f.source_offset)
    | true ↦ elim (leb v.bpc (f.source_offset + dir_entry_size)) [
      | true ↦ (do id ← next_in_chain f.source; pure (id, 0))
      | false ↦ pure (block.id, f.source_offset + dir_entry_size)
    ]
  ]

unfoldable pub write_short_entry : ℕ → ℕ → Action (Unit {0})
write_short_entry id offset = do
  block ← get_block id
  f ← get_file
  content ← store block.content offset (encode_dir_entry f.short_entry)
  put_block (record block { content = content })

-- Both functions that extend a file: `resize` gives the size that its entry gets.
unfoldable pub extend_file : (ℕ → ℕ) → ℕ → ℕ → ℕ → Action (Unit {0})
unfolding first_reserved last_cluster reserve short_entry_place write_short_entry
extend_file resize stale_id fuel newsize = do
  v ← get_volume
  counted ← first_reserved
  last ← last_cluster fuel
  reserve (u32 (clusters_for v newsize) - counted) last
  modify_file (λ g. record g {
    short_entry = record (g.short_entry) { file_size = u32 (resize g.short_entry.file_size) };
  })
  (id, offset) ← short_entry_place stale_id
  write_short_entry id offset

unfoldable pub extend_file_truncate : ℕ → ℕ → ℕ → Action (Unit {0})
unfolding extend_file
extend_file_truncate stale_id fuel newsize = extend_file (λ old. newsize) stale_id fuel newsize

unfoldable pub extend_file_write : ℕ → ℕ → ℕ → Action (Unit {0})
unfolding extend_file
extend_file_write stale_id fuel newsize = extend_file (λ old. old + newsize) stale_id fuel newsize

-- `pfs_fat32_utils_updateFilesize`.
unfoldable pub update_filesize : ℕ → Action (Unit {0})
unfolding write_short_entry
update_filesize newsize = do
  modify_file (λ g. record g { short_entry = record (g.short_entry) { file_size = newsize } })
  v ← get_volume
  f ← get_file
  elim (f.long_entry.ldir_attr == attr_long_name) [
    | false ↦ write_short_entry f.source f.source_offset
    | true ↦ elim (leb v.bpc (f.source_offset + dir_entry_size)) [
      | true ↦ (do id ← next_in_chain f.source; write_short_entry id 0)
      | false ↦ write_short_entry f.source (f.source_offset + dir_entry_size)
    ]
  ]

-- Where `truncate` writes the size: in a second block it keeps the offset of the first.
unfoldable pub truncate_place : Action (ℕ × ℕ)
truncate_place = do
  v ← get_volume
  f ← get_file
  elim (f.long_entry.ldir_attr == attr_long_name) [
    | false ↦ pure (f.source, f.source_offset)
    | true ↦ elim (leb v.bpc (f.source_offset + dir_entry_size)) [
      | true ↦ (do id ← next_in_chain f.source; pure (id, f.source_offset))
      | false ↦ pure (f.source, f.source_offset + dir_entry_size)
    ]
  ]

-- The new size goes to bytes 28 to 31 of the entry, and the first cluster of an empty file, 0, to
-- bytes 20, 21, 26 and 27.
unfoldable pub shrink_entry : ℕ → List ℕ → Action (List ℕ)
shrink_entry newsize entry = do
  sized ← store entry 28 (bytes_of 4 newsize)
  elim newsize [
    | zero ↦ (do high ← store sized 20 (bytes_of 2 0); store high 26 (bytes_of 2 0))
    | suc n ↦ pure sized
  ]

-- The cluster from which the file is cut. A round takes a cluster's bytes, so that the size is
-- fuel enough.
unfoldable pub cut_cluster : ℕ → ℕ → ℕ → ℕ → Action ℕ
cut_cluster zero count newsize c = do
  v ← get_volume
  elim (ltb (u32 (count * v.bpc)) newsize) [ true ↦ λ s. none | false ↦ pure c ]
cut_cluster (suc fuel) count newsize c = do
  v ← get_volume
  elim (ltb (u32 (count * v.bpc)) newsize) [
    | true ↦ (do next ← next_in_chain c; cut_cluster fuel (count + 1) newsize next)
    | false ↦ pure c
  ]

-- The rest of the cluster is cleared: from the next byte on, but with the length of the rest.
unfoldable pub clear_rest : ℕ → Block → Action (List ℕ)
clear_rest newsize block = do
  v ← get_volume
  elim (newsize % v.bpc) [
    | zero ↦ store block.content 0 (replicate v.bpc 0)
    | suc o ↦ store block.content (suc o + 1) (replicate (v.bpc - suc o) 0)
  ]

-- The loop over the clusters behind; the caller gives its fuel.
unfoldable pub free_rest : ℕ → ℕ → Action (Unit {0})
free_rest zero c = λ s. if is_eoc c then some (tt, s) else none
free_rest (suc fuel) c = elim (is_eoc c) [
  | true ↦ pure tt
  | false ↦ (do
    v ← get_volume
    block ← get_block c
    content ← store block.content 0 (replicate v.bpc 0)
    put_block (record block { content = content })
    next ← replace_entry (get_fat_entry_sector v block.id) (get_fat_entry_offset v c) 0
    count_free
    free_rest fuel next)
]

-- `truncate` to a size that is not larger than the file's.
unfoldable pub shrink : ℕ → ℕ → Action ℕ
unfolding truncate_place shrink_entry cut_cluster clear_rest mark_end free_rest
shrink fuel newsize = do
  v ← get_volume
  first ← get_file
  (id, offset) ← truncate_place
  entry_block ← get_block id
  entry ← load entry_block.content offset dir_entry_size
  shrunk ← shrink_entry newsize entry
  entry_content ← store entry_block.content offset shrunk
  put_block_of_none (record entry_block { content = entry_content })
  current ← cut_cluster newsize 0 newsize first.next_cluster
  block ← get_block current
  content ← clear_rest newsize block
  put_block (record block { content = content })
  elim (newsize % v.bpc) [ zero ↦ count_free | suc o ↦ pure tt ]
  next ← next_in_chain current
  mark_end current
  free_rest fuel next
  pure exit_success

-- `pfs_fat32_truncate`; the root directory gives -1 as an unsigned byte.
unfoldable pub truncate : ℕ → ℕ → ℕ → ℕ → ℕ → Action ℕ
unfolding extend_file_truncate shrink
truncate date time stale_id fuel newsize = do
  v ← get_volume
  f ← get_file
  elim (f.next_cluster == v.root) [
    | true ↦ pure 255
    | false ↦ (do
      modify_file (λ g. record g {
        short_entry = record (g.short_entry) {
          wrt_date = date;
          wrt_time = time;
          lst_acc_date = date;
        };
      })
      elim (ltb f.short_entry.file_size newsize) [
        | true ↦ (do extend_file_truncate stale_id fuel newsize; pure 0)
        | false ↦ shrink fuel newsize
      ])
  ]
