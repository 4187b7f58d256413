-- ===== src/Pfs/Create.antt =====
-- grage-pfs/app/src/core/pfs-fat32.c: pfs_fat32_mknod, pfs_fat32_mkdir and pfs_fat32_rename, with
-- pfs_fat32_isDirectoryEmpty and the dot entries of pfs-fat-utils.c. The session's file is the
-- directory, or the file that gets a new name. The entries that come with a name, and what stands
-- in the bytes that no one sets, are arguments; `date` and `time` are what pfs_fat32_utils_fillTime
-- gives.
pub mod FirstPlace
use grage_fat.Base.{
  ℕ, zero, suc, ◌+◌, ◌-◌, Bool, true, false, some, none, List, [], ◌∷◌, ◌++◌, ◌==◌, leb,
  if◌then◌else◌, ◌||◌, u16, bytes_of, replicate,
}
use grage_fat.Pfs.DirEntry.{DirEntry, encode_dir_entry, get_first_cluster}
use grage_fat.Pfs.Names.{LongDirEntry}
use grage_fat.Pfs.Fat.{is_eoc}
use grage_fat.Pfs.Session.{
  Action, pure, ◌>>=◌, ◌>>◌, get_file, get_volume, modify_file, load, store, next_in_chain,
}
use grage_fat.Pfs.Blocks.{Block, get_block, put_block, put_block_of_none}
use grage_fat.Pfs.Files.{attr_directory}
use grage_fat.Pfs.Release.{dir_entry_size, free_ent, end_of_dir, attr_long_name, ord_of, is_long}
use grage_fat.Pfs.Resize.{assign, first_entry}

abbrev block_entry_size : ℕ
block_entry_size = 64

unfoldable pub dirent_is_free : List ℕ → Bool
dirent_is_free entry = ord_of entry == free_ent || ord_of entry == end_of_dir

abbrev words : List ℕ → List ℕ
words [] = []
words (c ∷ cs) = bytes_of 2 c ++ words cs

-- The 32 bytes of the packed struct.
unfoldable pub encode_long_dir_entry : LongDirEntry → List ℕ
encode_long_dir_entry l =
    (l.ldir_ord ∷ [])
    ++ words l.ldir_name1
    ++ (l.ldir_attr ∷ l.ldir_type ∷ l.ldir_chksum ∷ [])
    ++ words l.ldir_name2
    ++ bytes_of 2 l.ldir_fst_clus_lo
    ++ words l.ldir_name3

-- The search for two free entries, one behind the other: the block they are in, and the offset
-- behind them. Each round looks at an entry, and where that is free, at the one behind it. At the
-- chain's end the loop goes on behind the block.
unfoldable pub find_place : ℕ → Block → ℕ → ℕ → Action (Block × ℕ)
find_place zero block number offset = λ s. none
find_place (suc fuel) block number offset = do
  v ← get_volume
  entry ← load block.content offset dir_entry_size
  let next = u16 (offset + dir_entry_size)
  elim (dirent_is_free entry) [
    | true ↦ (do
      second ← load block.content next dir_entry_size
      elim (dirent_is_free second) [
        | true ↦ pure (block, u16 (next + dir_entry_size))
        | false ↦ find_place fuel block number (u16 (next + dir_entry_size))
      ])
    | false ↦ elim (leb v.bpc next) [
      | true ↦ (do
        following ← next_in_chain number
        elim (is_eoc following) [
          | true ↦ find_place fuel block following next
          | false ↦ (do fresh ← get_block following; find_place fuel fresh following 0)
        ])
      | false ↦ find_place fuel block number next
    ]
  ]

-- The first block of the directory: the root is where its own entries are.
unfoldable pub directory_block : Action (Block × ℕ)
directory_block = do
  f ← get_file
  let number = if f.dir_type == 0 then f.source else get_first_cluster (some f.short_entry)
  block ← get_block number
  pure (block, number)

-- The two entries go to the places that were found.
unfoldable pub fill_place : LongDirEntry → DirEntry → Block × ℕ → Action Block
fill_place long short (block, offset) = do
  content ← store block.content (offset - block_entry_size) (encode_long_dir_entry long)
  filled ← store content (offset - dir_entry_size) (encode_dir_entry short)
  pure (record block { content = filled })

abbrev dated : ℕ → ℕ → DirEntry → DirEntry
dated date time d = record d {
  wrt_date = date;
  wrt_time = time;
  crt_date = date;
  crt_time = time;
  lst_acc_date = date;
  crt_time_tenth = 0;
}

-- The place of a new entry, filled.
unfoldable pub new_entry : ℕ → LongDirEntry → DirEntry → Action Block
unfolding find_place directory_block fill_place
new_entry fuel long short = do
  (block, number) ← directory_block
  place ← find_place fuel block number 0
  fill_place (record long { ldir_ord = 65; ldir_attr = attr_long_name }) short place

unfoldable pub mknod : ℕ → ℕ → ℕ → LongDirEntry → DirEntry → Action (Unit {0})
unfolding new_entry
mknod date time fuel long short = do
  let made = record (dated date time short) {
    attr = 0;
    file_size = 0;
    fst_clus_hi = 0;
    fst_clus_lo = 0;
  }
  block ← new_entry fuel long made
  put_block_of_none block

abbrev dot_name : ℕ → List ℕ
dot_name dots = replicate dots 46 ++ replicate (11 - dots) 32

-- `pfs_fat32_utils_fillDotEntry`; `stale` is the entry on the stack, of which one field stays.
unfoldable pub fill_dot_entry : DirEntry → DirEntry → DirEntry
fill_dot_entry stale actual = record actual { nt_res = stale.nt_res; name = dot_name 1 }

-- `pfs_fat32_utils_fillDotDotEntry`, of a directory in the root and of another.
unfoldable pub fill_dot_dot_entry : DirEntry → Bool → DirEntry → DirEntry
fill_dot_dot_entry stale true parent = record {
  name = dot_name 2;
  attr = attr_directory;
  nt_res = stale.nt_res;
  crt_time_tenth = 0;
  crt_time = 0;
  crt_date = 0;
  lst_acc_date = 0;
  fst_clus_hi = 0;
  wrt_time = 0;
  wrt_date = 0;
  fst_clus_lo = 0;
  file_size = 0;
}
fill_dot_dot_entry stale false parent = record parent { nt_res = stale.nt_res; name = dot_name 2 }

-- A new directory has `.` and `..`; the rest of its cluster stays as it was.
unfoldable pub mkdir : ℕ → ℕ → ℕ → DirEntry → DirEntry → LongDirEntry → DirEntry → Action (Unit {0})
unfolding new_entry fill_dot_entry fill_dot_dot_entry
mkdir date time fuel stale_dot stale_dot_dot long short = do
  cluster ← assign
  let made = record (first_entry (dated date time short) cluster) {
    attr = attr_directory;
    file_size = 0;
  }
  block ← new_entry fuel long made
  put_block block
  fresh ← get_block cluster
  f ← get_file
  dotted ← store fresh.content 0 (encode_dir_entry (fill_dot_entry stale_dot made))
  content ←
      store dotted dir_entry_size
        (encode_dir_entry (fill_dot_dot_entry stale_dot_dot (f.dir_type == 0) f.short_entry))
  put_block (record fresh { content = content })

-- The loop of `pfs_fat32_isDirectoryEmpty` goes over the entries that are free.
unfoldable pub is_empty_from : ℕ → Block → ℕ → Action Bool
is_empty_from zero block offset = λ s. none
is_empty_from (suc fuel) block offset = do
  v ← get_volume
  entry ← load block.content offset dir_entry_size
  let behind = offset + (if is_long entry then block_entry_size else dir_entry_size)
  elim (ord_of entry == free_ent) [
    | false ↦ pure (ord_of entry == end_of_dir)
    | true ↦ elim (leb v.bpc behind) [
      | true ↦ (do
        next ← next_in_chain block.id
        fresh ← get_block next
        is_empty_from fuel fresh 0)
      | false ↦ is_empty_from fuel block behind
    ]
  ]

-- It starts behind `.` and `..`.
unfoldable pub is_directory_empty : ℕ → Action Bool
unfolding is_empty_from
is_directory_empty fuel = do
  f ← get_file
  block ← get_block f.next_cluster
  is_empty_from fuel block block_entry_size

abbrev named : LongDirEntry → LongDirEntry → LongDirEntry
named new l = record l {
  ldir_name1 = new.ldir_name1;
  ldir_name2 = new.ldir_name2;
  ldir_name3 = new.ldir_name3;
}

-- `pfs_fat32_rename`, with the characters of the new name, in a long entry and in a short one.
unfoldable pub rename : LongDirEntry → List ℕ → Action (Unit {0})
rename new short_name = do
  v ← get_volume
  f ← get_file
  block ← get_block f.source
  let short = record (f.short_entry) { name = short_name }
  modify_file (λ g. record g { short_entry = short })
  elim (f.long_entry.ldir_attr == attr_long_name) [
    | true ↦ (do
      let long = named new f.long_entry
      modify_file (λ g. record g { long_entry = long })
      first ← store block.content f.source_offset (encode_long_dir_entry long)
      elim (leb v.bpc (f.source_offset + dir_entry_size)) [
        | true ↦ (do
          next ← next_in_chain f.source
          second ← get_block next
          content ← store second.content 0 (encode_dir_entry short)
          put_block_of_none (record second { content = content })
          put_block_of_none (record block { content = first }))
        | false ↦ (do
          content ← store first (f.source_offset + dir_entry_size) (encode_dir_entry short)
          put_block_of_none (record block { content = content }))
      ])
    | false ↦ (do
      content ← store block.content f.source_offset (encode_dir_entry short)
      put_block_of_none (record block { content = content }))
  ]
