-- ===== src/Pfs/Files/FirstWrite.antt =====
-- The first write to an open file, within one cluster and with caches off.
use grage_fat.Base.{
  ℕ, ◌+◌, ◌-◌, ◌≤◌, ◌<◌, ◌^◌, ◌≡◌, refl, ap, ◌∙◌, true, false, Option, some, ◌==◌, ==_iff, List,
  ◌∷◌, leb, le→leb, arith, length, drop, All, copy_into, copy_into-within, spliced, length-spliced,
}
use grage_fat.Pfs.Volume.{get_first_sector_of_cluster}
use grage_fat.Pfs.DirEntry.{get_first_cluster}
use grage_fat.Pfs.Session.{Session}
use grage_fat.Pfs.Blocks.{Block, get_block, put_block}
use grage_fat.Pfs.Blocks.Reading.{Sees, IsCluster, block_of, with_caches, get_block-Sees, Sees-file}
use grage_fat.Pfs.Blocks.Writing.{stored, put_block-Sees}
use grage_fat.Pfs.Files.{
  nth_cluster, nth_block_write, get_block_from_nth_cluster_write, first_block_write, write_from,
  write,
}
use grage_fat.Pfs.Files.Content.{length-block_of, nth_cluster-Arrives}
use grage_fat.Pfs.Release.Chain.{Chain}

first_block_write-some :
    (stale k : ℕ) (block : Block) (s s1 s2 : Session)
    → (s.file.file_absolute_cluster_number_write == 0) ≡ true
    → nth_cluster s.file.file_cluster_number 1 s.file.file_cluster_number
        (get_first_cluster (some s.file.short_entry))
        s
      ≡ some (k, s1)
    → get_block k (record s1 { file = record (s1.file) { file_absolute_cluster_number_write = k } })
      ≡ some (block, s2)
    → first_block_write stale s ≡ some ((block, stale), s2)
unfolding first_block_write
first_block_write-some stale k block s s1 s2 first nth got =
    rw (first, nth, got, first_block_write, nth_block_write, get_block_from_nth_cluster_write)

write_from-short :
    (stale : ℕ) (bytes content : List ℕ) (block : Block) (s s' : Session)
    → leb (length bytes + s.file.file_cluster_offset) s.fat.volume.bpc ≡ true
    → copy_into block.content s.file.file_cluster_offset bytes ≡ some content
    → put_block (record block { content = content }) s ≡ some (tt, s')
    → write_from bytes (block, stale) s ≡ some (length bytes, s')
unfolding write_from
write_from-short stale bytes content block s s' within copied put =
    rw (within, copied, put, write_from)

write-some :
    (stale : ℕ) (bytes : List ℕ) (start : Block × ℕ) (s s' : Session) (r : Option (ℕ × Session))
    → first_block_write stale s ≡ some (start, s')
    → write_from bytes start s' ≡ r
    → write stale bytes s ≡ r
unfolding write
write-some stale bytes start s s' r first put = rw (first, write) put

-- What a write lets be.
pub record AreKept (s s' : Session) : Type 0 where
  pub volume : s'.fat.volume ≡ s.fat.volume
  pub short_entry : s'.file.short_entry ≡ s.file.short_entry
  pub read_cluster :
      s'.file.file_absolute_cluster_number_read ≡ s.file.file_absolute_cluster_number_read

-- The first write to a file, wherever the seek has led: the block of that cluster gets the bytes,
-- and nothing else changes in what the process sees.
pub write-Sees :
    (s : Session) (contents : ℕ → List ℕ) (stale k : ℕ) (ms : List ℕ) (bytes : List ℕ)
    → Sees s contents
    → s.sizes.cache_habilitada ≡ false
    → s.fat.volume.bpc ≡ 4096
    → s.file.file_absolute_cluster_number_write ≡ 0
    → get_first_cluster (some s.file.short_entry) ≡ k
    → Chain s.fat.volume.rsv contents k ms
    → All (IsCluster s.fat.volume contents) (k ∷ ms)
    → s.file.file_cluster_number < 2 ^ 16
    → s.file.file_cluster_number ≤ 1 + length ms
    → s.file.file_cluster_offset + length bytes ≤ 4096
    → (s' : Session) × (k' : ℕ) × (ms' : List ℕ) × (drop (s.file.file_cluster_number - 1) (k ∷ ms)
        ≡ k' ∷ ms')
      × IsCluster s.fat.volume contents k'
      × (write stale bytes s ≡ some (length bytes, s'))
      × Sees s' (
          stored contents
            (get_first_sector_of_cluster s.fat.volume k')
            8
            (spliced (block_of s.fat.volume contents k') s.file.file_cluster_offset bytes))
      × AreKept s s'
write-Sees s contents stale k ms bytes w off b fresh first ch is small long within =
    let v = s.fat.volume in
    let n = s.file.file_cluster_number in
    let r = s.file.file_cluster_offset in
    let (c1, k', ms', nth, w1, place, ch', is') =
      nth_cluster-Arrives n 1 n k ms s contents w ch is small long (omega arith) in
    let s1 = with_caches s c1 s.file.cache in
    let f1 = record (s1.file) { file_absolute_cluster_number_write = k' } in
    let (c2, fc2, blk, w2) =
      get_block-Sees (record s1 { file = f1 }) contents k' (Sees-file s1 contents f1 refl w1)
        is'.0 in
    let s2 = with_caches (record s1 { file = f1 }) c2 fc2 in
    let xs = block_of v contents k' in
    let whole : length xs ≡ 4096 = length-block_of v contents k' is'.0 in
    let fits : r + length bytes ≤ length xs = omega (arith, within, whole) in
    let block : Block = record { id = k'; content = spliced xs r bytes } in
    let (c3, put, w3) =
      put_block-Sees s2 contents block w2 off is'.0 (length-spliced xs r bytes fits ∙ whole) in
    (
      _,
      k',
      ms',
      place,
      is'.0,
      write-some stale bytes _ s s2 _
          (first_block_write-some stale k' _ s s1 s2 ((==_iff _ 0).1 fresh)
            (ap (λ x. nth_cluster n 1 n x s) first ∙ nth) blk)
          (write_from-short stale bytes (spliced xs r bytes) _ s2 _
            (ap (leb (length bytes + r)) b ∙ le→leb (length bytes + r) 4096 (omega (arith, within)))
            (copy_into-within xs r bytes fits) put),
      w3,
      record { volume = refl; short_entry = refl; read_cluster = refl },
    )
