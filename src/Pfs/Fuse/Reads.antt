-- ===== src/Pfs/Fuse/Reads.antt =====
-- What the system gets of a file that it reads for the first time since it was opened.
use grage_fat.Base.{
  ℕ, ◌+◌, ◌-◌, ◌*◌, ◌/◌, ◌%◌, ◌≤◌, ◌<◌, ◌^◌, ◌≡◌, ◌≢◌, refl, sym, ap, ap₂, ◌∙◌, false, some, List,
  ◌∷◌, ◌==◌, ◌||◌, ltb, ltb→lt, Bool-cases, inl, inr, ◌⊎◌, arith, length, take, drop, All,
  drop-take, take_less, take_more, ==_other, u16, u32, if◌then◌else◌,
}
use grage_fat.Pfs.DirEntry.{get_first_cluster, exit_success}
use grage_fat.Pfs.Session.{Session, FatFile}
use grage_fat.Pfs.Volume.{Volume}
use grage_fat.Pfs.Blocks.{Block}
use grage_fat.Pfs.Blocks.Reading.{Sees, IsCluster, Sees-file}
use grage_fat.Pfs.Files.{seek, seek_to, read, attr_directory}
use grage_fat.Pfs.Files.Content.{chain_bytes}
use grage_fat.Pfs.Files.FirstRead.{read-Sees}
use grage_fat.Pfs.Release.Chain.{Chain}
use grage_fat.Pfs.Fuse.{bytes, fuse_read, read_there, cut_size}

fuse_read-some :
    (stale : Block) (offset size cut : ℕ) (s s' : Session) (got : List ℕ)
    → (offset == s.file.short_entry.file_size || cut == 0) ≡ false
    → cut_size s.file.short_entry.file_size offset size ≡ cut
    → seek s.fat.volume s.file offset s.file.short_entry.file_size
      ≡ (seek_to s.fat.volume offset s.file, exit_success)
    → read stale cut (record s { file = seek_to s.fat.volume offset s.file }) ≡ some (got, s')
    → fuse_read stale offset size s ≡ some (bytes got, s')
unfolding fuse_read
fuse_read-some stale offset size cut s s' got goes_on is_cut sought ran =
    rw (is_cut, goes_on, sought, ran, fuse_read, read_there)

seek-some :
    (v : Volume) (f : FatFile) (offset fsize : ℕ)
    → offset ≤ fsize
    → f.short_entry.attr ≢ attr_directory
    → seek v f offset fsize ≡ (seek_to v offset f, exit_success)
unfolding seek
seek-some v f offset fsize h other =
    let within : ltb fsize offset ≡ false = ground (arith, h) in
    rw (within, ==_other f.short_entry.attr attr_directory other, seek)

-- The part of a file from a place on, cut at the file's end.
slice_lem :
    (filesize offset size : ℕ) (xs : List ℕ)
    → offset < filesize
    → filesize < 2 ^ 32
    → take (cut_size filesize offset size) (drop offset xs)
      ≡ take size (drop offset (take filesize xs))
slice_lem filesize offset size xs h small = elim (Bool-cases (ltb filesize (offset + size))) [
  | inl e ↦
      let past = ltb→lt filesize (offset + size) e in
      let cut : (filesize + 2 ^ 64 - offset) % 2 ^ 64 ≡ filesize - offset =
        omega (arith, h, small) in
      rw (e, cut)
        (sym (
          ap (take size) (drop-take offset filesize xs)
          ∙ take_more size (filesize - offset) (drop offset xs) (omega (arith, past))))
  | inr e ↦
      let within : offset + size ≤ filesize = ground (arith, e) in
      rw e (
        sym (
          ap (take size) (drop-take offset filesize xs)
          ∙ take_less size (filesize - offset) (drop offset xs) (omega (arith, within))))
]

-- Where a seek leads: not to the start of a later cluster, for which the number is one too small.
abbrev pub IsReachable : ℕ → Type 0
IsReachable offset = (offset ≡ 0) ⊎ (offset % 4096 ≢ 0)

unfoldable pub seek_number : (offset : ℕ) → ℕ
seek_number offset = u32 (if offset % 4096 == 0 then offset / 4096 else offset / 4096 + 1)

pub seek_number_lem :
    (offset : ℕ)
    → IsReachable offset
    → offset < 2 ^ 28 - 4096
    → ((seek_number offset - 1) * 4096 + u16 (offset % 4096) ≡ offset)
      × (seek_number offset < 2 ^ 16)
      × (u16 (offset % 4096) < 4096)
unfolding seek_number
seek_number_lem offset (inl z) h = rw z (omega arith)
seek_number_lem offset (inr n) h =
    let inside : (offset % 4096 == 0) ≡ false = ==_other (offset % 4096) 0 n in
    rw inside (omega (arith, h, n))

pub place_of :
    (v : Volume) (f : FatFile) (offset : ℕ)
    → v.bpc ≡ 4096
    → ((seek_to v offset f).file_cluster_number ≡ seek_number offset)
      × ((seek_to v offset f).file_cluster_offset ≡ u16 (offset % 4096))
unfolding seek_number
place_of v f offset b = (
  ap (λ x. u32 (if offset % x == 0 then offset / x else offset / x + 1)) b,
  ap (λ x. u16 (offset % x)) b,
)

cut_size_bounds :
    (filesize offset size : ℕ)
    → offset < filesize
    → filesize < 2 ^ 32
    → 0 < size
    → (0 < cut_size filesize offset size) × (offset + cut_size filesize offset size ≤ filesize)
cut_size_bounds filesize offset size h small some_bytes =
    elim (Bool-cases (ltb filesize (offset + size))) [
      | inl e ↦ rw e (omega (arith, h, small))
      | inr e ↦
          let within : offset + size ≤ filesize = ground (arith, e) in rw e (some_bytes, within)
    ]

-- The first read of a file since it was opened, with caches on or off: the bytes of the file from
-- the offset on, as many as are asked for, or up to the file's end. The file has clusters of 4096
-- bytes, enough for its size; the offset is 0 or not at the start of a cluster, within the file, and
-- at a cluster that 16 bits count. What the process sees of the disk stays the same.
pub fuse_read-content :
    (s : Session) (contents : ℕ → List ℕ) (stale : Block) (k : ℕ) (ms : List ℕ) (offset size : ℕ)
    → Sees s contents
    → s.fat.volume.bpc ≡ 4096
    → s.file.file_absolute_cluster_number_read ≡ 0
    → s.file.short_entry.attr ≢ attr_directory
    → get_first_cluster (some s.file.short_entry) ≡ k
    → Chain s.fat.volume.rsv contents k ms
    → All (IsCluster s.fat.volume contents) (k ∷ ms)
    → s.file.short_entry.file_size ≤ length (k ∷ ms) * 4096
    → s.file.short_entry.file_size < 2 ^ 32
    → offset < s.file.short_entry.file_size
    → 0 < size
    → IsReachable offset
    → offset < 2 ^ 28 - 4096
    → (s' : Session) × (fuse_read stale offset size s
        ≡ some (
          bytes (
              take size (
                drop offset (
                  take s.file.short_entry.file_size (chain_bytes s.fat.volume contents (k ∷ ms))))),
          s',
        ))
      × Sees s' contents
fuse_read-content s contents stale k ms offset size w b fresh file first ch is long small within
      some_bytes reachable counted =
    let v = s.fat.volume in
    let f = seek_to v offset s.file in
    let filesize = s.file.short_entry.file_size in
    let cut = cut_size filesize offset size in
    let cut_bounds : (0 < cut) × (offset + cut ≤ filesize) =
      cut_size_bounds filesize offset size within small some_bytes in
    let (number, place) = place_of v s.file offset b in
    let (at, narrow, below) = seek_number_lem offset reachable counted in
    let q = seek_number offset - 1 in
    let there : q * 4096 + f.file_cluster_offset ≡ offset = omega (arith, at, place) in
    let (s', got, w') =
      read-Sees (record s { file = f }) contents stale k ms q cut (Sees-file s contents f refl w) b
        fresh first ch is (ap (λ n. n - 1) number) (omega (arith, narrow, number))
        (omega (arith, below, place)) (omega (arith, there, cut_bounds.1, long)) cut_bounds.0 in
    (
      s',
      fuse_read-some stale offset size cut s s' _
            (ap₂ (λ x y. x || y) (==_other offset filesize (λ e. omega (arith, within, e)))
              (==_other cut 0 (λ e. omega (arith, cut_bounds.0, e))))
            refl (seek-some v s.file offset filesize (omega (arith, within)) file) got
          ∙ ap (λ ys. some (bytes ys, s'))
              (ap (λ i. take cut (drop i (chain_bytes v contents (k ∷ ms)))) there
                ∙ slice_lem filesize offset size (chain_bytes v contents (k ∷ ms)) within small),
      w',
    )
