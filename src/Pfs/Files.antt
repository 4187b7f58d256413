-- ===== src/Pfs/Files.antt =====
-- grage-pfs/app/src/core/pfs-fat32.c, pfs_fat32_read and pfs_fat32_write, with the seeks of
-- pfs-fat-utils.c. An offset is not negative, and a size is below 2 ^ 32, as those that the
-- system asks for are.
pub mod Content
pub mod FirstRead
pub mod NextRead
pub mod FirstWrite
pub mod Overwritten
use grage_fat.Base.{
  ℕ, zero, suc, ◌+◌, ◌-◌, ◌/◌, ◌%◌, true, false, none, some, List, [], ◌++◌, ◌==◌, leb, ltb,
  if◌then◌else◌, ◌||◌, u16, u32, length, take, drop,
}
use grage_fat.Pfs.Volume.{Volume}
use grage_fat.Pfs.DirEntry.{get_first_cluster, exit_failure, exit_success}
use grage_fat.Pfs.Fat.{is_eoc}
use grage_fat.Pfs.Session.{
  FatFile, Action, pure, ◌>>=◌, ◌>>◌, get_file, get_volume, modify_file, load, store, next_in_chain,
}
use grage_fat.Pfs.Blocks.{Block, get_block, put_block}

abbrev pub attr_directory : ℕ
attr_directory = 16

abbrev pub seek_to : Volume → ℕ → FatFile → FatFile
seek_to v offset f = record f {
  file_cluster_number = u32 (if offset % v.bpc == 0 then offset / v.bpc else offset / v.bpc + 1);
  file_cluster_offset = u16 (offset % v.bpc);
}

-- `pfs_fat32_utils_seek` and `pfs_fat32_utils_seekWrite`.
unfoldable pub seek : Volume → FatFile → ℕ → ℕ → FatFile × ℕ
seek v f offset fsize =
    if ltb fsize offset || f.short_entry.attr == attr_directory
    then (f, exit_failure)
    else (seek_to v offset f, exit_success)

unfoldable pub seek_write : Volume → FatFile → ℕ → FatFile × ℕ
seek_write v f offset =
    if f.short_entry.attr == attr_directory
    then (f, exit_failure)
    else (seek_to v offset f, exit_success)

-- The loop to the n-th cluster; its counter has 16 bits. `none` is a loop that goes on.
unfoldable pub nth_cluster : ℕ → ℕ → ℕ → ℕ → Action ℕ
nth_cluster zero count n c = λ s. if ltb count n then none else some (c, s)
nth_cluster (suc fuel) count n c = elim (ltb count n) [
  | true ↦ (do next ← next_in_chain c; nth_cluster fuel (u16 (count + 1)) n next)
  | false ↦ pure c
]

-- `pfs_fat32_utils_getBlockFromNthClusterRead`. As much fuel as the cluster's number is enough, if
-- that is one that the counter can reach.
unfoldable pub get_block_from_nth_cluster_read : Action Block
unfolding nth_cluster
get_block_from_nth_cluster_read = do
  f ← get_file
  c ←
      nth_cluster f.file_cluster_number 1 f.file_cluster_number
        (get_first_cluster (some f.short_entry))
  modify_file (λ g. record g { file_absolute_cluster_number_read = c })
  get_block c

unfoldable pub get_block_from_nth_cluster_write : Action Block
unfolding nth_cluster
get_block_from_nth_cluster_write = do
  f ← get_file
  c ←
      nth_cluster f.file_cluster_number 1 f.file_cluster_number
        (get_first_cluster (some f.short_entry))
  modify_file (λ g. record g { file_absolute_cluster_number_write = c })
  get_block c

-- The block that a read starts with; `stale` is what the stack holds, where it is never set.
unfoldable pub block_unless_end : Block → ℕ → Action Block
block_unless_end stale current s = if is_eoc current then some (stale, s) else get_block current s

unfoldable pub next_block_read : Block → ℕ → Action Block
unfolding block_unless_end
next_block_read stale c = do current ← next_in_chain c; block_unless_end stale current

unfoldable pub first_block_read : Block → Action Block
unfolding get_block_from_nth_cluster_read next_block_read
first_block_read stale s =
    if s.file.file_absolute_cluster_number_read == 0
    then get_block_from_nth_cluster_read s
    else next_block_read stale s.file.file_absolute_cluster_number_read s

-- The loop of a read, with `left` bytes to go: what it puts behind those that are read. A round that
-- goes on has read a byte, so that the size is fuel enough.
unfoldable pub read_loop : ℕ → ℕ → ℕ → Action (List ℕ)
read_loop fuel current zero = do
  modify_file (λ g. record g { file_absolute_cluster_number_read = current })
  pure []
read_loop zero current (suc left) = λ s. none
read_loop (suc fuel) current (suc left) = elim (is_eoc current) [
  | true ↦ pure []
  | false ↦ (do
    next ← next_in_chain current
    block ← get_block next
    v ← get_volume
    let n = if leb (suc left) v.bpc then suc left else v.bpc
    bytes ← load block.content 0 n
    rest ← read_loop fuel next (suc left - n)
    pure (bytes ++ rest))
]

-- What a read takes from its first block, and from those behind it.
unfoldable pub read_from : Block → ℕ → Action (List ℕ)
unfolding read_loop
read_from block size s =
    let offset = s.file.file_cluster_offset in
    let bpc = s.fat.volume.bpc in
    if leb (offset + size) bpc
    then load block.content offset size s
    else (do
      bytes ← load block.content offset (bpc - offset)
      rest ← read_loop size s.file.file_absolute_cluster_number_read (size - (bpc - offset))
      pure (bytes ++ rest))
        s

-- `pfs_fat32_read`: the bytes that are put in `buf`, as many as it says it has read.
unfoldable pub read : Block → ℕ → Action (List ℕ)
unfolding first_block_read read_from
read stale size = do block ← first_block_read stale; read_from block size

-- The block that a write starts with, and `current`, which is `stale` until it is set.
unfoldable pub nth_block_write : ℕ → Action (Block × ℕ)
unfolding get_block_from_nth_cluster_write
nth_block_write stale = do block ← get_block_from_nth_cluster_write; pure (block, stale)

unfoldable pub next_block_write : ℕ → Action (Block × ℕ)
next_block_write c = do current ← next_in_chain c; block ← get_block current; pure (block, current)

unfoldable pub first_block_write : ℕ → Action (Block × ℕ)
unfolding nth_block_write next_block_write
first_block_write stale s =
    if s.file.file_absolute_cluster_number_write == 0
    then nth_block_write stale s
    else next_block_write s.file.file_absolute_cluster_number_write s

-- The loop of a write, with the bytes that are left: the block of the first round is the one that
-- was written last.
unfoldable pub write_loop : ℕ → ℕ → Block → List ℕ → Action (Unit {0})
write_loop zero current block bytes = λ s. if 0 == length bytes then some (tt, s) else none
write_loop (suc fuel) current block bytes = elim (length bytes) [
  | zero ↦ pure tt
  | suc left ↦ (do
    v ← get_volume
    let n = if leb (suc left) v.bpc || is_eoc current then suc left else v.bpc
    content ← store block.content 0 (take n bytes)
    put_block (record block { content = content })
    elim (ltb n (suc left)) [
      | false ↦ pure tt
      | true ↦ (do
        next ← next_in_chain block.id
        fresh ← get_block next
        write_loop fuel next fresh (drop n bytes))
    ])
]

-- What a write puts in its first block, and in those behind it.
unfoldable pub write_from : List ℕ → Block × ℕ → Action ℕ
unfolding write_loop
write_from bytes (block, current) s =
    let offset = s.file.file_cluster_offset in
    let bpc = s.fat.volume.bpc in
    if leb (length bytes + offset) bpc
    then (do
      content ← store block.content offset bytes
      put_block (record block { content = content })
      pure (length bytes))
        s
    else (do
      content ← store block.content offset (take (bpc - offset) bytes)
      let written = record block { content = content }
      put_block written
      write_loop (length bytes) current written (drop (bpc - offset) bytes)
      pure (length bytes))
        s

-- `pfs_fat32_write` of `bytes`: how many it says it has written.
unfoldable pub write : ℕ → List ℕ → Action ℕ
unfolding first_block_write write_from
write stale bytes = do start ← first_block_write stale; write_from bytes start
