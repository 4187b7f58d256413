-- ===== src/Pfs/Fuse/WriteRead.antt =====
-- What is written to a file is what a read of it gives then.
use grage_fat.Base.{
  ℕ, ◌+◌, ◌-◌, ◌*◌, ◌/◌, ◌%◌, ◌≤◌, ◌<◌, ◌^◌, ◌≡◌, ◌≢◌, refl, sym, ap, ap₂, subst, ◌∙◌, false, some,
  List, [], ◌∷◌, arith, length, take, drop, All, spliced, take-drop_at, drop-take, take_less,
  length-append,
}
use grage_fat.Pfs.Volume.{Volume, get_first_sector_of_cluster}
use grage_fat.Pfs.DirEntry.{get_first_cluster}
use grage_fat.Pfs.Fat.Chains.{entry_at}
use grage_fat.Pfs.Fat.Table.{fat_entry, entry_reserved}
use grage_fat.Pfs.Session.{Session}
use grage_fat.Pfs.Blocks.{Block}
use grage_fat.Pfs.Blocks.Reading.{Sees, IsCluster}
use grage_fat.Pfs.Blocks.Writing.{stored, stored-outside, cluster-IsOutside, IsCluster-stored}
use grage_fat.Pfs.Files.{attr_directory}
use grage_fat.Pfs.Files.Content.{chain_bytes, length-block_of}
use grage_fat.Pfs.Release.Chain.{Chain, Chain-same, Once}
use grage_fat.Pfs.Fuse.{bytes, count, fuse_read, fuse_write}
use grage_fat.Pfs.Fuse.Reads.{IsReachable, fuse_read-content}
use grage_fat.Pfs.Fuse.Writes.{fuse_write-Sees}

-- A block that is stored in a cluster leaves the chain of a file as it is.
module _ (v : Volume) (contents : ℕ → List ℕ) (k' : ℕ) (ik : IsCluster v contents k')
    (block : List ℕ) (whole : length block ≡ 4096) where
  entries-stored :
      (ks : List ℕ)
      → All (IsCluster v contents) ks
      → All
          (λ j.
            fat_entry v.rsv (stored contents (get_first_sector_of_cluster v k') 8 block) j
            ≡ fat_entry v.rsv contents j)
          ks
  entries-stored [] is = tt
  entries-stored (j ∷ ks) is = (
    ap (λ xs. entry_at xs (j % 128 * 4))
        (stored-outside 8 contents (get_first_sector_of_cluster v k') block (v.rsv + j / 128) (
          cluster-IsOutside v contents k' (v.rsv + j / 128) ik
            (entry_reserved v j is.0.in_table.1))),
    entries-stored ks is.1,
  )

  clusters-stored :
      (ks : List ℕ)
      → All (IsCluster v contents) ks
      → All (IsCluster v (stored contents (get_first_sector_of_cluster v k') 8 block)) ks
  clusters-stored [] is = tt
  clusters-stored (j ∷ ks) is = (
    IsCluster-stored v contents (get_first_sector_of_cluster v k') block j whole is.0,
    clusters-stored ks is.1,
  )

length-chain_bytes :
    (v : Volume) (contents : ℕ → List ℕ) (ks : List ℕ)
    → All (IsCluster v contents) ks
    → length (chain_bytes v contents ks) ≡ length ks * 4096
length-chain_bytes v contents [] is = refl
length-chain_bytes v contents (k ∷ ks) is =
    length-append _ _
    ∙ ap₂ (λ m n. m + n) (length-block_of v contents k is.0) (length-chain_bytes v contents ks is.1)
    ∙ omega arith

-- The part that was overwritten is what was written.
overwritten_lem :
    (filesize offset : ℕ) (xs buf : List ℕ)
    → offset + length buf ≤ filesize
    → offset ≤ length xs
    → take (length buf) (drop offset (take filesize (spliced xs offset buf))) ≡ buf
overwritten_lem filesize offset xs buf h inside =
    ap (take (length buf)) (drop-take offset filesize (spliced xs offset buf))
    ∙ take_less (length buf) (filesize - offset) (drop offset (spliced xs offset buf))
        (omega (arith, h))
    ∙ take-drop_at offset xs buf (drop (offset + length buf) xs) inside

-- What the first write to a file puts in it is what the first read from the same place gives: with
-- caches off, within the file's size and within one of its clusters. The file was neither written
-- nor read since it was opened, and is no directory; its clusters have 4096 bytes, none is twice in
-- its chain, and they are enough for its size; the offset is 0 or not at the start of a cluster, and
-- at a cluster that 16 bits count.
pub fuse_read-fuse_write :
    (s : Session) (contents : ℕ → List ℕ) (stale stale_id fuel k : ℕ) (stale_block : Block)
    (ms buf : List ℕ) (offset : ℕ)
    → Sees s contents
    → s.sizes.cache_habilitada ≡ false
    → s.fat.volume.bpc ≡ 4096
    → s.fat.volume.spc ≡ 8
    → s.file.file_absolute_cluster_number_write ≡ 0
    → s.file.file_absolute_cluster_number_read ≡ 0
    → s.file.short_entry.attr ≢ attr_directory
    → get_first_cluster (some s.file.short_entry) ≡ k
    → Chain s.fat.volume.rsv contents k ms
    → All (IsCluster s.fat.volume contents) (k ∷ ms)
    → Once (k ∷ ms)
    → s.file.short_entry.file_size ≤ length (k ∷ ms) * 4096
    → s.file.short_entry.file_size < 2 ^ 32 - 4096
    → 0 < length buf
    → offset + length buf ≤ s.file.short_entry.file_size
    → offset % 4096 + length buf ≤ 4096
    → IsReachable offset
    → offset < 2 ^ 28 - 4096
    → (s' s'' : Session) × (fuse_write stale stale_id fuel buf offset s
        ≡ some (count (length buf), s'))
      × (fuse_read stale_block offset (length buf) s' ≡ some (bytes buf, s''))
fuse_read-fuse_write s contents stale stale_id fuel k stale_block ms buf offset w off b spc fresh
      unread file first ch is once long small some_bytes fits within reachable counted =
    let v = s.fat.volume in
    let (s', k', block, ran, w', whole, kept, changed, ik, away) =
      fuse_write-Sees s contents stale stale_id fuel k ms buf offset w off b spc fresh file first ch
        is once long small some_bytes fits within reachable counted in
    let contents' = stored contents (get_first_sector_of_cluster v k') 8 block in
    let ch' =
      Chain-same v.rsv contents contents' k ms ch
        (entries-stored v contents k' ik block whole (k ∷ ms) is) in
    let is' = clusters-stored v contents k' ik block whole (k ∷ ms) is in
    let size : s'.file.short_entry.file_size ≡ s.file.short_entry.file_size =
      ap (λ d. d.file_size) kept.short_entry in
    let inside = length-chain_bytes v contents (k ∷ ms) is in
    let (s'', got, w'') =
      fuse_read-content s' contents' stale_block k ms offset (length buf) w'
        (ap (λ u. u.bpc) kept.volume ∙ b) (kept.read_cluster ∙ unread)
        (λ e. file (ap (λ d. d.attr) (sym kept.short_entry) ∙ e))
        (ap (λ d. get_first_cluster (some d)) kept.short_entry ∙ first)
        (subst (λ u. Chain u.rsv contents' k ms) (sym kept.volume) ch')
        (subst (λ u. All (IsCluster u contents') (k ∷ ms)) (sym kept.volume) is')
        (omega (arith, size, long)) (omega (arith, size, small))
        (omega (arith, size, fits, some_bytes)) some_bytes reachable counted in
    (
      s',
      s'',
      ran,
      got
          ∙ ap₂
              (λ n u. some (
                bytes (take (length buf) (drop offset (take n (chain_bytes u contents' (k ∷ ms))))),
                s'',
              ))
              size kept.volume
          ∙ ap
              (λ xs. some (
                bytes (take (length buf) (drop offset (take s.file.short_entry.file_size xs))),
                s'',
              ))
              changed
          ∙ ap (λ xs. some (bytes xs, s''))
              (overwritten_lem s.file.short_entry.file_size offset (chain_bytes v contents (k ∷ ms))
                buf fits (omega (arith, inside, long, fits))),
    )
