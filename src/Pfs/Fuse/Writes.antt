-- ===== src/Pfs/Fuse/Writes.antt =====
-- What `pfs_fuse_write` does to a file whose size it keeps.
use grage_fat.Base.{
  length-spliced, ℕ, ◌+◌, ◌-◌, ◌*◌, ◌%◌, ◌≤◌, ◌<◌, ◌^◌, ◌≡◌, ◌≢◌, refl, ap, ◌∙◌, false, some, List,
  ◌∷◌, ◌==◌, ==_other, ==_iff, leb, ltb, inl, inr, arith, length, All, u32, Bool-cases, spliced,
}
use grage_fat.Pfs.Volume.{Volume, get_first_sector_of_cluster}
use grage_fat.Pfs.DirEntry.{get_first_cluster, exit_success}
use grage_fat.Pfs.Session.{Session, FatFile}
use grage_fat.Pfs.Blocks.Reading.{Sees, IsCluster, block_of, Sees-file}
use grage_fat.Pfs.Files.{seek_write, seek_to, write, attr_directory}
use grage_fat.Pfs.Files.Content.{length-block_of, chain_bytes}
use grage_fat.Pfs.Files.FirstWrite.{AreKept, write-Sees}
use grage_fat.Pfs.Blocks.Writing.{stored}
use grage_fat.Pfs.Files.Overwritten.{chain_bytes-stored, block_of-stored, All-at}
use grage_fat.Pfs.Release.Chain.{Chain, Once}
use grage_fat.Pfs.Resize.{clusters_for}
use grage_fat.Pfs.Fuse.{count, fuse_write, make_place, seek_and_write, write_there}
use grage_fat.Pfs.Fuse.Reads.{IsReachable, seek_number_lem, place_of}

seek_write-some :
    (v : Volume) (f : FatFile) (offset : ℕ)
    → f.short_entry.attr ≢ attr_directory
    → seek_write v f offset ≡ (seek_to v offset f, exit_success)
unfolding seek_write
seek_write-some v f offset other = rw (==_other f.short_entry.attr attr_directory other, seek_write)

-- A file that is not empty has room for a cluster's bytes.
real_size_lem :
    (v : Volume) (size : ℕ)
    → v.bpc ≡ 4096
    → 0 < size
    → size < 2 ^ 32 - 4096
    → 4096 ≤ u32 (clusters_for v size * v.bpc)
real_size_lem v size b some_bytes small = elim (Bool-cases (size % 4096 == 0)) [
  | inl e ↦
      let whole = (==_iff (size % 4096) 0).0 e in
      rw (b, e) (omega (arith, whole, some_bytes, small))
  | inr e ↦ rw (b, e) (omega (arith, some_bytes, small))
]

-- A write within the file and within a cluster lets its size be.
make_place-kept :
    (stale_id fuel size offset : ℕ) (s : Session)
    → s.fat.volume.bpc ≡ 4096
    → offset + size ≤ s.file.short_entry.file_size
    → s.file.short_entry.file_size < 2 ^ 32 - 4096
    → 0 < size
    → offset % 4096 + size ≤ 4096
    → make_place stale_id fuel size offset s ≡ some (tt, s)
unfolding make_place
make_place-kept stale_id fuel size offset s b fits small some_bytes within =
    let filesize = s.file.short_entry.file_size in
    let room = real_size_lem s.fat.volume filesize b (omega (arith, fits, some_bytes)) small in
    let real : ltb (u32 (clusters_for s.fat.volume filesize * s.fat.volume.bpc))
          (u32 (offset % s.fat.volume.bpc) + size)
        ≡ false =
      not_less _ _ (ap (λ x. u32 (offset % x) + size) b) (omega (arith, within)) room in
    let before : leb filesize offset ≡ false = ground (arith, fits, some_bytes) in
    let ends : ltb filesize (size + offset) ≡ false = ground (arith, fits) in
    rw (real, before, ends, make_place)
  where
    not_less : (m n : ℕ) {n' : ℕ} → n ≡ n' → n' ≤ 4096 → 4096 ≤ m → ltb m n ≡ false
    not_less m n e below h = let le : n ≤ m = omega (arith, e, below, h) in ground (arith, le)

write_there-some :
    (stale n : ℕ) (buf : List ℕ) (f : FatFile) (s s' : Session)
    → write stale buf (record s { file = f }) ≡ some (n, s')
    → write_there stale buf (f, exit_success) s ≡ some (count n, s')
unfolding write_there
write_there-some stale n buf f s s' ran = rw (ran, write_there)

fuse_write-some :
    (stale stale_id fuel offset n : ℕ) (buf : List ℕ) (s s' : Session)
    → (length buf == 0) ≡ false
    → make_place stale_id fuel (length buf) offset s ≡ some (tt, s)
    → seek_write s.fat.volume s.file offset ≡ (seek_to s.fat.volume offset s.file, exit_success)
    → write stale buf (record s { file = seek_to s.fat.volume offset s.file }) ≡ some (n, s')
    → fuse_write stale stale_id fuel buf offset s ≡ some (count n, s')
unfolding fuse_write seek_and_write
fuse_write-some stale stale_id fuel offset n buf s s' some_bytes kept sought ran =
    rw (some_bytes, kept, sought, fuse_write, seek_and_write)
      (write_there-some stale n buf (seek_to s.fat.volume offset s.file) s s' ran)

pub fuse_write-Sees :
    (s : Session) (contents : ℕ → List ℕ) (stale stale_id fuel k : ℕ) (ms buf : List ℕ) (offset : ℕ)
    → Sees s contents
    → s.sizes.cache_habilitada ≡ false
    → s.fat.volume.bpc ≡ 4096
    → s.fat.volume.spc ≡ 8
    → s.file.file_absolute_cluster_number_write ≡ 0
    → s.file.short_entry.attr ≢ attr_directory
    → get_first_cluster (some s.file.short_entry) ≡ k
    → Chain s.fat.volume.rsv contents k ms
    → All (IsCluster s.fat.volume contents) (k ∷ ms)
    → Once (k ∷ ms)
    → s.file.short_entry.file_size ≤ length (k ∷ ms) * 4096
    → s.file.short_entry.file_size < 2 ^ 32 - 4096
    → 0 < length buf
    → offset + length buf ≤ s.file.short_entry.file_size
    → offset % 4096 + length buf ≤ 4096
    → IsReachable offset
    → offset < 2 ^ 28 - 4096
    → (s' : Session) × (k' : ℕ) × (block : List ℕ) × (fuse_write stale stale_id fuel buf offset s
        ≡ some (count (length buf), s'))
      × Sees s' (stored contents (get_first_sector_of_cluster s.fat.volume k') 8 block)
      × (length block ≡ 4096)
      × AreKept s s'
      × (chain_bytes s.fat.volume
            (stored contents (get_first_sector_of_cluster s.fat.volume k') 8 block)
            (k ∷ ms)
          ≡ spliced (chain_bytes s.fat.volume contents (k ∷ ms)) offset buf)
      × IsCluster s.fat.volume contents k'
      × ((j : ℕ) → All (λ i. j ≢ i) (k ∷ ms) → j ≢ k')
fuse_write-Sees s contents stale stale_id fuel k ms buf offset w off b spc fresh file first ch is
      once long small some_bytes fits within reachable counted =
    let v = s.fat.volume in
    let f = seek_to v offset s.file in
    let (number, place) = place_of v s.file offset b in
    let (at, narrow, below) = seek_number_lem offset reachable counted in
    let q = f.file_cluster_number - 1 in
    let there : q * 4096 + f.file_cluster_offset ≡ offset = omega (arith, at, place, number) in
    let in_block : f.file_cluster_offset + length buf ≤ 4096 = omega (arith, place, within) in
    let (s', k', ms', spot, ik, ran, w', kept) =
      write-Sees (record s { file = f }) contents stale k ms buf (Sees-file s contents f refl w) off
        b fresh first ch is (omega (arith, narrow, number))
        (omega (arith, there, fits, long, some_bytes, number)) in_block in
    let xs = block_of v contents k' in
    let whole : length xs ≡ 4096 = length-block_of v contents k' ik in
    (
      s',
      k',
      spliced xs f.file_cluster_offset buf,
      fuse_write-some stale stale_id fuel offset (length buf) buf s s'
          (==_other (length buf) 0 (λ e. omega (arith, some_bytes, e)))
          (make_place-kept stale_id fuel (length buf) offset s b fits small some_bytes within)
          (seek_write-some v s.file offset file) ran,
      w',
      length-spliced xs f.file_cluster_offset buf (omega (arith, in_block, whole)) ∙ whole,
      record {
        volume = kept.volume;
        short_entry = kept.short_entry;
        read_cluster = kept.read_cluster;
      },
      chain_bytes-stored v contents q f.file_cluster_offset k' (k ∷ ms) ms' buf spc is once spot
            in_block
          ∙ ap (λ i. spliced (chain_bytes v contents (k ∷ ms)) i buf) there,
      ik,
      λ j away. All-at (λ i. j ≢ i) q (k ∷ ms) k' ms' spot away,
    )

-- The first write to a file since it was opened, with caches off, within the file and within one of
-- its clusters: the file's bytes are replaced from the offset on, all of them are counted, and no
-- cluster that is not the file's changes. The file has clusters of 4096 bytes, none of them twice in its chain, enough for its size; the offset
-- is 0 or not at the start of a cluster, and at a cluster that 16 bits count.
pub fuse_write-content :
    (s : Session) (contents : ℕ → List ℕ) (stale stale_id fuel k : ℕ) (ms buf : List ℕ) (offset : ℕ)
    → Sees s contents
    → s.sizes.cache_habilitada ≡ false
    → s.fat.volume.bpc ≡ 4096
    → s.fat.volume.spc ≡ 8
    → s.file.file_absolute_cluster_number_write ≡ 0
    → s.file.short_entry.attr ≢ attr_directory
    → get_first_cluster (some s.file.short_entry) ≡ k
    → Chain s.fat.volume.rsv contents k ms
    → All (IsCluster s.fat.volume contents) (k ∷ ms)
    → Once (k ∷ ms)
    → s.file.short_entry.file_size ≤ length (k ∷ ms) * 4096
    → s.file.short_entry.file_size < 2 ^ 32 - 4096
    → 0 < length buf
    → offset + length buf ≤ s.file.short_entry.file_size
    → offset % 4096 + length buf ≤ 4096
    → IsReachable offset
    → offset < 2 ^ 28 - 4096
    → (s' : Session) × (contents' : ℕ → List ℕ) × (fuse_write stale stale_id fuel buf offset s
        ≡ some (count (length buf), s'))
      × Sees s' contents'
      × (chain_bytes s.fat.volume contents' (k ∷ ms)
          ≡ spliced (chain_bytes s.fat.volume contents (k ∷ ms)) offset buf)
      × ((j : ℕ)
          → IsCluster s.fat.volume contents j
          → All (λ i. j ≢ i) (k ∷ ms)
          → block_of s.fat.volume contents' j ≡ block_of s.fat.volume contents j)
fuse_write-content s contents stale stale_id fuel k ms buf offset w off b spc fresh file first ch is
      once long small some_bytes fits within reachable counted =
    let v = s.fat.volume in
    let (s', k', block, ran, w', whole, kept, changed, ik, away) =
      fuse_write-Sees s contents stale stale_id fuel k ms buf offset w off b spc fresh file first ch
        is once long small some_bytes fits within reachable counted in
    (
      s',
      stored contents (get_first_sector_of_cluster v k') 8 block,
      ran,
      w',
      changed,
      λ j ij others. block_of-stored v contents j k' block spc ij ik (away j others),
    )
