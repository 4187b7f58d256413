-- ===== src/Pfs/Release.antt =====
-- grage-pfs/app/src/core/pfs-fat32.c: pfs_fat32_unlink, pfs_fat32_rmdir and what they call. The loop
-- over the chain takes its fuel from the caller, since a chain that is a ring has no end.
pub mod Chain
use grage_fat.Base.{
  ℕ, zero, suc, ◌+◌, ◌-◌, Bool, true, false, none, some, List, ◌∷◌, ◌==◌, ltb, if◌then◌else◌, u32,
  bind, get_or, bytes_of, copy_into,
}
use grage_fat.Pfs.Volume.{get_fat_entry_sector, get_fat_entry_offset}
use grage_fat.Pfs.Cache.{call_cached_get_sector, call_cached_put_sector}
use grage_fat.Pfs.Fat.{is_eoc, read_entry}
use grage_fat.Pfs.Session.{
  Action, pure, ◌>>=◌, ◌>>◌, get_file, get_volume, modify_file, modify_volume, with_cached, load,
  store, next_in_chain,
}
use grage_fat.Pfs.Blocks.{Block, get_block, put_block_of_none}

abbrev pub dir_entry_size : ℕ
dir_entry_size = 32

abbrev pub free_ent : ℕ
free_ent = 229

abbrev pub end_of_dir : ℕ
end_of_dir = 0

abbrev pub attr_long_name : ℕ
attr_long_name = 15

-- An entry of the FAT that is read and overwritten in one copy of its sector.
unfoldable pub replace_entry : ℕ → ℕ → ℕ → Action ℕ
replace_entry sector offset value s =
    let v = s.fat.volume in
    let max = s.sizes.fat_max_count in
    bind (call_cached_get_sector v max sector s.fat.cached) (λ (d, c).
      bind (read_entry d offset) (λ entry.
        bind (copy_into d.sector_content offset (bytes_of 4 value)) (λ content.
          bind (call_cached_put_sector v max (record d { sector_content = content }) c)
            (λ c'. some (entry, with_cached s c')))))

abbrev pub count_free : Action (Unit {0})
count_free = modify_volume (λ v. record v { free_cluster_count = u32 (v.free_cluster_count + 1) })

-- `pfs_fat32_unlink_FatEntryChain`: whether there is more of the chain.
unfoldable pub unlink_fat_entry_chain : Action Bool
unfolding replace_entry
unlink_fat_entry_chain = do
  v ← get_volume
  f ← get_file
  next ← next_in_chain f.next_cluster
  entry ←
      replace_entry (get_fat_entry_sector v f.next_cluster) (get_fat_entry_offset v f.next_cluster)
        0
  count_free
  elim (is_eoc entry) [
    | true ↦ pure false
    | false ↦ (do modify_file (λ g. record g { next_cluster = next }); pure true)
  ]

-- The loop of `pfs_fat32_unlink`.
unfoldable pub unlink_chain : ℕ → Action (Unit {0})
unlink_chain zero = λ s. none
unlink_chain (suc fuel) = do
  more ← unlink_fat_entry_chain
  elim more [ true ↦ unlink_chain fuel | false ↦ pure tt ]

-- The attribute of an entry, and its first byte.
abbrev pub attr_of : List ℕ → ℕ
attr_of entry = get_or entry 11 0

abbrev pub ord_of : List ℕ → ℕ
ord_of entry = get_or entry 0 0

abbrev pub is_long : List ℕ → Bool
is_long entry = attr_of entry == attr_long_name

-- The block behind a block of a directory.
unfoldable pub following_block : Block → Action Block
following_block block = do next ← next_in_chain block.id; get_block next

-- What the first part of `pfs_fat32_unlink_dirEntry` finds: the entry, the one behind it and its
-- short entry, and the second block, if the two parts of the entry lie in two blocks.
pub data Found : Type 0 where
  one_block : (entry after : List ℕ) → Found
  two_blocks : (after : List ℕ) (second : Block) → Found

unfoldable pub find_entry : Block → Action Found
unfolding following_block
find_entry block = do
  v ← get_volume
  f ← get_file
  let offset = f.source_offset
  entry ← load block.content offset dir_entry_size
  elim (is_long entry) [
    | true ↦ elim (ltb (offset + dir_entry_size) v.bpc) [
      | true ↦ (do
        short ← load block.content (offset + dir_entry_size) dir_entry_size
        elim (ltb (offset + dir_entry_size + dir_entry_size) v.bpc) [
          | true ↦ (do
            after ← load block.content (offset + dir_entry_size + dir_entry_size) dir_entry_size
            pure (one_block entry after))
          | false ↦ (do
            second ← following_block block
            after ← load second.content 0 dir_entry_size
            pure (one_block entry after))
        ])
      | false ↦ (do
        second ← following_block block
        short ← load second.content 0 dir_entry_size
        after ← load second.content dir_entry_size dir_entry_size
        pure (two_blocks after second))
    ]
    | false ↦ (do
      short ← load block.content offset dir_entry_size
      elim (ltb (offset + dir_entry_size) v.bps) [
        | true ↦ (do
          after ← load block.content (offset + dir_entry_size) dir_entry_size
          pure (one_block entry after))
        | false ↦ (do
          second ← following_block block
          after ← load second.content 0 dir_entry_size
          pure (one_block entry after))
      ])
  ]

-- An entry is overwritten with 32 bytes from the address of a variable of one byte: `stale` is what
-- stands behind that.
abbrev pub phantom : List ℕ → ℕ → List ℕ
phantom stale value = value ∷ stale

-- The second part: where nothing follows, the entry becomes the directory's end. Of an entry in two
-- blocks, the first block is then written at an offset by the size of a sector.
unfoldable pub erase_entry : List ℕ → Block → Found → Action (Unit {0})
erase_entry stale block (two_blocks after second) = do
  v ← get_volume
  let is_end = ord_of after == 0
  let bytes = phantom stale (if is_end then end_of_dir else free_ent)
  content ← store block.content ((if is_end then v.bps else v.bpc) - dir_entry_size) bytes
  second_content ← store second.content 0 bytes
  put_block_of_none (record block { content = content })
  put_block_of_none (record second { content = second_content })
erase_entry stale block (one_block entry after) = do
  f ← get_file
  let offset = f.source_offset
  let bytes = phantom stale (if ord_of after == 0 then end_of_dir else free_ent)
  content ← store block.content offset bytes
  erased ← elim (is_long entry) [
    | true ↦ store content (offset + dir_entry_size) bytes
    | false ↦ pure content
  ]
  put_block_of_none (record block { content = erased })

-- `pfs_fat32_unlink_dirEntry`.
unfoldable pub unlink_dir_entry : List ℕ → Block → Action (Unit {0})
unfolding find_entry erase_entry
unlink_dir_entry stale block = do found ← find_entry block; erase_entry stale block found

unfoldable pub unlink : List ℕ → ℕ → Action (Unit {0})
unfolding unlink_dir_entry unlink_chain
unlink stale fuel = do
  f ← get_file
  block ← get_block f.source
  unlink_dir_entry stale block
  unlink_chain fuel

-- `pfs_fat32_rmdir` releases the first cluster of the directory only.
unfoldable pub rmdir : List ℕ → Action (Unit {0})
unfolding unlink_dir_entry unlink_fat_entry_chain
rmdir stale = do
  f ← get_file
  block ← get_block f.source
  unlink_dir_entry stale block
  more ← unlink_fat_entry_chain
  pure tt
