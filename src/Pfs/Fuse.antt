-- ===== src/Pfs/Fuse.antt =====
-- grage-pfs/app/src/core/pfs-fuse.c: what the system's calls do with a file or directory once it is
-- open; for a new entry, that is the directory it goes to. `stale`,
-- `stale_id` and `fuel` are what the calls in pfs-fat32.c take.
pub mod Reads
pub mod Writes
pub mod WriteRead
use grage_fat.Base.{
  Bool, ℕ, ◌+◌, ◌-◌, ◌*◌, ◌%◌, ◌^◌, true, false, some, bind, List, ◌==◌, leb, ltb, ◌||◌,
  if◌then◌else◌, u32, length,
}
use grage_fat.Pfs.DirEntry.{DirEntry, exit_failure}
use grage_fat.Pfs.Names.{LongDirEntry}
use grage_fat.Pfs.Create.{mknod, mkdir, is_directory_empty}
use grage_fat.Pfs.Session.{FatFile, Action, pure, ◌>>=◌, ◌>>◌, get_file, get_volume, modify_file}
use grage_fat.Pfs.Blocks.{Block, choose}
use grage_fat.Pfs.Files.{attr_directory, seek, seek_write, read, write}
use grage_fat.Pfs.Resize.{clusters_for, extend_file_write, update_filesize, truncate}
use grage_fat.Pfs.Release.{unlink, rmdir}
use grage_fat.Pfs.Flush.{fat_cache_flush, file_cache_flush}

-- What a call gives back: bytes, a count, or a negated error.
pub data Reply : Type 0 where
  bytes : List ℕ → Reply
  count : ℕ → Reply
  error : ℕ → Reply

abbrev pub espipe : ℕ
espipe = 29

abbrev pub enoent : ℕ
enoent = 2

-- The end of a read, once the place is sought.
unfoldable pub read_there : Block → ℕ → FatFile × ℕ → Action Reply
read_there stale size (f, sought) s =
    let there = record s { file = f } in
    if sought == exit_failure
    then some (error espipe, there)
    else bind (read stale size there) (λ (got, s'). some (bytes got, s'))

-- A size that would go past the file's end is cut, in 64 bits.
abbrev pub cut_size : ℕ → ℕ → ℕ → ℕ
cut_size filesize offset size =
    if ltb filesize (offset + size) then (filesize + 2 ^ 64 - offset) % 2 ^ 64 else size

-- `pfs_fuse_read`.
unfoldable pub fuse_read : Block → ℕ → ℕ → Action Reply
unfolding read_there
fuse_read stale offset size s =
    let filesize = s.file.short_entry.file_size in
    let cut = cut_size filesize offset size in
    if offset == filesize || cut == 0
    then some (count 0, s)
    else read_there stale cut (seek s.fat.volume s.file offset filesize) s

-- The file grows, by the whole size of the write, or up to the write's end, or not at all.
unfoldable pub make_place : ℕ → ℕ → ℕ → ℕ → Action (Unit {0})
make_place stale_id fuel size offset s =
    let bpc = s.fat.volume.bpc in
    let filesize = s.file.short_entry.file_size in
    let real_size = u32 (clusters_for s.fat.volume filesize * bpc) in
    if ltb real_size (u32 (offset % bpc) + size) || leb filesize offset
    then extend_file_write stale_id fuel size s
    else if ltb filesize (size + offset)
    then update_filesize (u32 (size + offset)) s
    else some (tt, s)

-- The end of a write, once the place is sought.
unfoldable pub write_there : ℕ → List ℕ → FatFile × ℕ → Action Reply
write_there stale buf (f, sought) s =
    let there = record s { file = f } in
    if sought == exit_failure
    then some (error espipe, there)
    else bind (write stale buf there) (λ (written, s'). some (count written, s'))

unfoldable pub seek_and_write : ℕ → List ℕ → ℕ → Action Reply
unfolding write_there
seek_and_write stale buf offset s = write_there stale buf (seek_write s.fat.volume s.file offset) s

-- `pfs_fuse_write`.
unfoldable pub fuse_write : ℕ → ℕ → ℕ → List ℕ → ℕ → Action Reply
unfolding make_place seek_and_write
fuse_write stale stale_id fuel buf offset s =
    if length buf == 0
    then some (count 0, s)
    else (make_place stale_id fuel (length buf) offset >> seek_and_write stale buf offset) s

-- `pfs_fuse_flush`.
unfoldable pub fuse_flush : Action (Unit {0})
fuse_flush = do fat_cache_flush; choose (λ s. s.sizes.cache_habilitada) file_cache_flush (pure tt)

-- `pfs_fuse_truncate` and `pfs_fuse_unlink`, once the file is open.
unfoldable pub fuse_truncate : ℕ → ℕ → ℕ → ℕ → ℕ → Action Reply
fuse_truncate date time stale_id fuel newsize = do
  res ← truncate date time stale_id fuel newsize
  elim (res == 0) [ true ↦ pure (count 0) | false ↦ pure (error enoent) ]

unfoldable pub fuse_unlink : List ℕ → ℕ → Action Reply
fuse_unlink stale fuel = do unlink stale fuel; pure (count 0)

-- `pfs_fuse_mknod` and `pfs_fuse_mkdir`, once the directory is open. `refused` tells that the name is
-- too long, or that the path exists. In place of a directory, one gives a positive error.
unfoldable pub fuse_mknod : Bool → ℕ → ℕ → ℕ → LongDirEntry → DirEntry → Action Reply
fuse_mknod true date time fuel long short = pure (error exit_failure)
fuse_mknod false date time fuel long short = do
  f ← get_file
  elim (f.dir_type == 0 || f.short_entry.attr == attr_directory) [
    | true ↦ (do mknod date time fuel long short; pure (count 0))
    | false ↦ pure (count exit_failure)
  ]

unfoldable pub fuse_mkdir :
    Bool → ℕ → ℕ → ℕ → DirEntry → DirEntry → LongDirEntry → DirEntry → Action Reply
fuse_mkdir true date time fuel stale_dot stale_dot_dot long short = pure (error exit_failure)
fuse_mkdir false date time fuel stale_dot stale_dot_dot long short = do
  f ← get_file
  elim (f.dir_type == 0 || f.short_entry.attr == attr_directory) [
    | true ↦ (do mkdir date time fuel stale_dot stale_dot_dot long short; pure (count 0))
    | false ↦ pure (error exit_failure)
  ]

-- `pfs_fuse_rmdir`, once the directory is open.
unfoldable pub fuse_rmdir : List ℕ → ℕ → Action Reply
fuse_rmdir stale fuel = do
  f ← get_file
  elim (f.short_entry.attr == attr_directory) [
    | false ↦ pure (error enoent)
    | true ↦ (do
      empty ← is_directory_empty fuel
      elim empty [ true ↦ (do rmdir stale; pure (count 0)) | false ↦ pure (error enoent) ])
  ]
