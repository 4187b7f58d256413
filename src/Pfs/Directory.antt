-- ===== src/Pfs/Directory.antt =====
-- grage-pfs/app/src/core/pfs-fat32.c, pfs_fat32_utils_openRootDirectory and pfs_fat32_readDirectory,
-- with the short names of pfs_fat32_utils_toDirent in pfs-fat-utils.c. The session's file is the
-- directory. Entries are their 32 bytes; the loop over free ones takes its fuel from the caller.
use grage_fat.Base.{
  ℕ, zero, suc, ◌+◌, Bool, true, false, Option, none, some, List, [], ◌∷◌, ◌++◌, ◌==◌, leb,
  if◌then◌else◌, get_or, u32, sub32, take, drop,
}
use grage_fat.Commons.LinkedList.{LinkedList}
use grage_fat.Pfs.Cache.{CacheSectorRecord}
use grage_fat.Pfs.Fat.{is_eoc}
use grage_fat.Pfs.Session.{
  FatFile, Action, pure, ◌>>=◌, ◌>>◌, get_file, get_volume, modify_file, load, next_in_chain,
}
use grage_fat.Pfs.Blocks.{Block, get_block}
use grage_fat.Pfs.Release.{dir_entry_size, free_ent, end_of_dir, ord_of, is_long}

-- The file that is opened in the place of `blank`, which `calloc` has cleared; `empty` is the new
-- cache, where caches are on.
unfoldable pub open_root_directory :
    FatFile → Option (LinkedList CacheSectorRecord) → Action (Unit {0})
open_root_directory blank empty = do
  v ← get_volume
  cluster ← next_in_chain v.root
  modify_file (λ f. record blank {
    cache = empty;
    source = v.root;
    source_offset = 0;
    next_cluster = if is_eoc cluster then 0 else cluster;
    current_sector = v.fds;
    dir_entry_offset = 0;
    dir_type = 0;
  })

-- Where the directory goes on: in the next cluster, once the offset is behind the block.
unfoldable pub next_directory_block : Action Block
next_directory_block = do
  f ← get_file
  next ← next_in_chain f.next_cluster
  modify_file (λ g. record g { next_cluster = next; dir_entry_offset = 0 })
  get_block next

unfoldable pub current_directory_block : Action Block
unfolding next_directory_block
current_directory_block = do
  v ← get_volume
  f ← get_file
  elim (leb v.bpc f.dir_entry_offset) [
    | true ↦ next_directory_block
    | false ↦ get_block (if f.dir_type == 0 then f.source else f.next_cluster)
  ]

-- Behind an entry. At the block's end the cluster is the next one, but the block stays the old one;
-- it gives false at the end of the chain.
unfoldable pub go_on : Action Bool
go_on = do
  v ← get_volume
  f ← get_file
  let offset = u32 (f.dir_entry_offset + dir_entry_size)
  modify_file (λ g. record g { dir_entry_offset = offset })
  elim (leb v.bpc offset) [
    | false ↦ pure true
    | true ↦ elim (is_eoc f.next_cluster) [
      | true ↦ pure false
      | false ↦ (do
        next ← next_in_chain f.next_cluster
        modify_file (λ g. record g { next_cluster = next; dir_entry_offset = 0 })
        pure true)
    ]
  ]

-- The next entry that is not free.
unfoldable pub used_entry : ℕ → Block → Action (Option (List ℕ))
unfolding go_on
used_entry zero block = λ s. none
used_entry (suc fuel) block = do
  f ← get_file
  entry ← load block.content f.dir_entry_offset dir_entry_size
  more ← go_on
  elim more [
    | false ↦ pure none
    | true ↦ elim (ord_of entry == free_ent) [
      | true ↦ used_entry fuel block
      | false ↦ pure (some entry)
    ]
  ]

-- What a call lists: a long entry with its short one, a short one alone, or nothing more.
pub data Listed : Type 0 where
  with_long : (long short : List ℕ) → Listed
  only_short : (short : List ℕ) → Listed
  finished : Listed

unfoldable pub list_entry : Block → List ℕ → Action Listed
list_entry block entry = do
  f ← get_file
  elim (is_long entry) [
    | true ↦ (do
      short ← load block.content f.dir_entry_offset dir_entry_size
      modify_file (λ g. record g { dir_entry_offset = u32 (g.dir_entry_offset + dir_entry_size) })
      pure (with_long entry short))
    | false ↦ elim (ord_of entry == end_of_dir) [
      | true ↦ pure finished
      | false ↦ (do
        short ← load block.content (sub32 f.dir_entry_offset dir_entry_size) dir_entry_size
        pure (only_short short))
    ]
  ]

-- `pfs_fat32_readDirectory`.
unfoldable pub read_directory : ℕ → Action Listed
unfolding current_directory_block used_entry list_entry
read_directory fuel = do
  block ← current_directory_block
  entry ← used_entry fuel block
  elim entry [ some e ↦ list_entry block e | none ↦ pure finished ]

-- The characters before the first space.
abbrev until_space : List ℕ → List ℕ
until_space [] = []
until_space (c ∷ cs) = if c == 32 then [] else c ∷ until_space cs

-- What `pfs_fat32_utils_toDirent` writes of the short name, and whether it closes it with 0: not
-- where a name that starts with a dot has an extension.
unfoldable pub dirent_name : List ℕ → List ℕ × Bool
dirent_name name =
    let base = until_space (take 8 name) in
    if get_or name 8 0 == 32
    then (base, true)
    else if get_or name 0 0 == 46
    then (base ++ (46 ∷ []), false)
    else (base ++ (46 ∷ take 3 (drop 8 name)), true)
