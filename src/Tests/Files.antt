-- ===== src/Tests/Files.antt =====
-- A small disk with a file of two clusters, 5 and 9, that is read, written, flushed and removed.
use grage_fat.Base.{
  ℕ, ◌+◌, ◌≡◌, refl, true, false, some, none, List, [], ◌∷◌, ◌++◌, ◌==◌, if◌then◌else◌, replicate,
  arith, length, take, drop, Bool-cases, inl, inr, All, ◌≢◌, ap, sym, spliced, leb→le, ==_other,
}
use grage_fat.Commons.LinkedList.{LinkedList, order_always_first}
use grage_fat.Pfs.Volume.{Volume, get_first_sector_of_cluster}
use grage_fat.Pfs.DirEntry.{get_first_cluster}
use grage_fat.Pfs.Cache.{CacheSectorRecord, Device, is_fat_sector_reserved, same_sector}
use grage_fat.Pfs.Cache.Coherence.{IsCache, view}
use grage_fat.Pfs.Fat.{is_eoc}
use grage_fat.Pfs.Fat.Table.{IsFat}
use grage_fat.Pfs.Session.{FatFile, Session}
use grage_fat.Pfs.Blocks.Reading.{Sees, IsOn, IsCluster, block_of}
use grage_fat.Pfs.Files.{read}
use grage_fat.Pfs.Files.Content.{chain_bytes}
use grage_fat.Pfs.Files.NextRead.{read_again}
use grage_fat.Pfs.Release.{unlink_chain}
use grage_fat.Pfs.Release.Chain.{AreFreed, unlink_chain-AreFreed}
use grage_fat.Pfs.Flush.Written.{fuse_flush-writes}
use grage_fat.Pfs.Fuse.{bytes, count, fuse_read, fuse_flush, fuse_write}
use grage_fat.Pfs.Fuse.WriteRead.{fuse_read-fuse_write}
use grage_fat.Pfs.Fuse.Writes.{fuse_write-content}
use grage_fat.Pfs.Blocks.{put_block}
use grage_fat.Pfs.Blocks.Repeating.{copies, put_block_repeats}
use grage_fat.Pfs.Fuse.Reads.{fuse_read-content}

abbrev small_volume : Volume
small_volume = record {
  bps = 512;
  spc = 8;
  bpc = 4096;
  fds = 1232;
  rsv = 32;
  fat_qty = 2;
  fat_size = 600;
  fat_start_sector = 32;
  clusters = 74846;
  sectors = 600000;
  data_sectors = 598768;
  root = 2;
  next_free_cluster = 10;
  free_cluster_count = 74000;
}

-- The entry of cluster 5 is 9, and that of cluster 9 the end.
abbrev fat_sector : List ℕ
fat_sector =
    replicate 20 0
    ++ (9 ∷ 0 ∷ 0 ∷ 0 ∷ [])
    ++ replicate 12 0
    ++ (255 ∷ 255 ∷ 255 ∷ 15 ∷ [])
    ++ replicate 472 0

abbrev disk : Device
disk n = if n == 32 then fat_sector else replicate 512 7

length-disk : (n : ℕ) → length (disk n) ≡ 512
length-disk n = elim (Bool-cases (n == 32)) [ inl e ↦ rw e refl | inr e ↦ rw e refl ]

abbrev no_records : LinkedList CacheSectorRecord
no_records = record {
  size = 0;
  elements = [];
  sorting_criteria = order_always_first;
  equality_criteria = same_sector;
}

no_records-IsCache : IsCache no_records
no_records-IsCache = record { once = tt; newest_first = refl; by_number = refl; counted = refl }

abbrev pub opened : FatFile
opened = record {
  source = 2;
  source_offset = 64;
  next_cluster = 5;
  current_sector = 0;
  short_entry = record {
    name = replicate 11 32;
    attr = 32;
    nt_res = 0;
    crt_time_tenth = 0;
    crt_time = 0;
    crt_date = 0;
    lst_acc_date = 0;
    fst_clus_hi = 0;
    wrt_time = 0;
    wrt_date = 0;
    fst_clus_lo = 5;
    file_size = 5000;
  };
  long_entry = record {
    ldir_ord = 65;
    ldir_name1 = replicate 5 97;
    ldir_attr = 15;
    ldir_type = 0;
    ldir_chksum = 0;
    ldir_name2 = replicate 6 0;
    ldir_fst_clus_lo = 0;
    ldir_name3 = replicate 2 0;
  };
  dir_entry_offset = 0;
  dir_type = 0;
  eoc = 0;
  file_cluster_number = 0;
  file_absolute_cluster_number_write = 0;
  file_absolute_cluster_number_read = 0;
  file_cluster_offset = 0;
  cache = none;
}

abbrev pub session : Session
session = record {
  fat = record { volume = small_volume; cached = (no_records, disk); locked = false };
  sizes = record { cache_habilitada = false; fat_max_count = 4; file_max_count = 4 };
  file = opened;
}

session-IsFat : IsFat small_volume (no_records, disk)
session-IsFat = record {
  is_cache = no_records-IsCache;
  bytes_per_sector = refl;
  reserved = omega arith;
  no_wrap = omega arith;
  whole = λ n le. length-disk (32 + n);
}

session-Sees : Sees session disk
session-Sees = record {
  is_fat = session-IsFat;
  room = omega arith;
  held = tt;
  fat_seen = λ n e. refl;
  data_seen = inr (record { off = refl; seen = λ n e. refl });
}

five : IsCluster small_volume disk 5
unfolding get_first_sector_of_cluster is_fat_sector_reserved is_eoc
five = record {
  in_table = (omega arith, omega arith);
  not_root = omega arith;
  not_end = refl;
  no_wrap = omega arith;
  are_data = (
    refl,
    omega arith,
    omega arith,
    refl,
    (
      refl,
      omega arith,
      omega arith,
      refl,
      (
        refl,
        omega arith,
        omega arith,
        refl,
        (
          refl,
          omega arith,
          omega arith,
          refl,
          (
            refl,
            omega arith,
            omega arith,
            refl,
            (
              refl,
              omega arith,
              omega arith,
              refl,
              (refl, omega arith, omega arith, refl, (refl, omega arith, omega arith, refl, tt)),
            ),
          ),
        ),
      ),
    ),
  );
}

nine : IsCluster small_volume disk 9
unfolding get_first_sector_of_cluster is_fat_sector_reserved is_eoc
nine = record {
  in_table = (omega arith, omega arith);
  not_root = omega arith;
  not_end = refl;
  no_wrap = omega arith;
  are_data = (
    refl,
    omega arith,
    omega arith,
    refl,
    (
      refl,
      omega arith,
      omega arith,
      refl,
      (
        refl,
        omega arith,
        omega arith,
        refl,
        (
          refl,
          omega arith,
          omega arith,
          refl,
          (
            refl,
            omega arith,
            omega arith,
            refl,
            (
              refl,
              omega arith,
              omega arith,
              refl,
              (refl, omega arith, omega arith, refl, (refl, omega arith, omega arith, refl, tt)),
            ),
          ),
        ),
      ),
    ),
  );
}

fuse_read-content_example :
    (s' : Session) × (fuse_read (record { id = 0; content = [] }) 4100 100 session
      ≡ some (
        bytes (take 100 (drop 4100 (take 5000 (chain_bytes small_volume disk (5 ∷ 9 ∷ []))))),
        s',
      ))
    × Sees s' disk
unfolding get_first_cluster is_eoc
fuse_read-content_example =
    fuse_read-content session disk (record { id = 0; content = [] }) 5 (9 ∷ []) 4100 100
      session-Sees refl refl (omega arith) refl (refl, refl, refl) (five, (nine, tt)) (omega arith)
      (omega arith) (omega arith) (omega arith) (inr (omega arith)) (omega arith)

-- The session once cluster 5 is remembered from an earlier read.
abbrev read_once : Session
read_once = record session {
  file = record opened { file_absolute_cluster_number_read = 5; file_cluster_offset = 4 };
}

read_once-Sees : Sees read_once disk
read_once-Sees = record {
  is_fat = session-IsFat;
  room = omega arith;
  held = tt;
  fat_seen = λ n e. refl;
  data_seen = inr (record { off = refl; seen = λ n e. refl });
}

read_again_example :
    (s' : Session) × (read (record { id = 0; content = [] }) 100 read_once
      ≡ some (take 100 (drop 4 (block_of small_volume disk 9)), s'))
    × (s'.file.file_absolute_cluster_number_read ≡ 5)
    × Sees s' disk
unfolding is_eoc
read_again_example =
    read_again read_once disk (record { id = 0; content = [] }) 5 9 [] 100 read_once-Sees refl refl
      (omega arith) (refl, refl, refl) (five, (nine, tt)) (omega arith)

unlink_chain-AreFreed_example :
    (s' : Session) × (unlink_chain 2 session ≡ some (tt, s'))
    × AreFreed small_volume disk (5 ∷ 9 ∷ []) s'
unfolding is_eoc
unlink_chain-AreFreed_example =
    unlink_chain-AreFreed 2 session 5 (9 ∷ []) refl (omega arith) session-IsFat (refl, refl, refl)
      ((omega arith, omega arith), ((omega arith, omega arith), tt)) ((omega arith, tt), (tt, tt))
      (omega arith)

-- A cache with a sector of the file, over a disk that has not got it.
abbrev changed : LinkedList CacheSectorRecord
changed = record {
  size = 1;
  elements =
      record {
        estado = 3;
        modificado = true;
        sector = record { sector_number = 1256; sector_content = replicate 512 9 };
      }
      ∷ [];
  sorting_criteria = order_always_first;
  equality_criteria = same_sector;
}

changed-IsCache : IsCache changed
changed-IsCache = record { once = (tt, tt); newest_first = refl; by_number = refl; counted = refl }

abbrev with_changes : Session
with_changes = record session {
  sizes = record { cache_habilitada = true; fat_max_count = 4; file_max_count = 4 };
  file = record opened { cache = some changed };
}

fuse_flush-writes_example :
    (s' : Session) × (empty : LinkedList CacheSectorRecord) × (fuse_flush with_changes
      ≡ some (tt, s'))
    × (s'.file.cache ≡ some empty)
    × (empty.elements ≡ [])
    × IsCache empty
    × ((n : ℕ) → s'.fat.cached.1 n ≡ view (changed, view (no_records, disk)) n)
fuse_flush-writes_example = fuse_flush-writes with_changes changed refl refl changed-IsCache tt tt

fuse_write-content_example :
    (s' : Session) × (contents' : ℕ → List ℕ) × (fuse_write 0 0 0 (1 ∷ 2 ∷ 3 ∷ []) 4100 session
      ≡ some (count 3, s'))
    × Sees s' contents'
    × (chain_bytes small_volume contents' (5 ∷ 9 ∷ [])
        ≡ spliced (chain_bytes small_volume disk (5 ∷ 9 ∷ [])) 4100 (1 ∷ 2 ∷ 3 ∷ []))
    × ((j : ℕ)
        → IsCluster small_volume disk j
        → All (λ i. j ≢ i) (5 ∷ 9 ∷ [])
        → block_of small_volume contents' j ≡ block_of small_volume disk j)
unfolding get_first_cluster is_eoc
fuse_write-content_example =
    fuse_write-content session disk 0 0 0 5 (9 ∷ []) (1 ∷ 2 ∷ 3 ∷ []) 4100 session-Sees refl refl
      refl refl (omega arith) refl (refl, refl, refl) (five, (nine, tt))
      ((omega arith, tt), (tt, tt)) (omega arith) (omega arith) (omega arith) (omega arith)
      (omega arith) (inr (omega arith)) (omega arith)

-- What the process sees with that change.
abbrev seen : Device
seen n = view (changed, disk) n

with_changes-IsOn : IsOn with_changes seen changed
unfolding is_fat_sector_reserved
with_changes-IsOn = record {
  on = refl;
  has = refl;
  is_cache = changed-IsCache;
  held = (refl, tt);
  room = omega arith;
  seen = λ n e. refl;
}

unchanged : (n : ℕ) → is_fat_sector_reserved small_volume n ≡ true → disk n ≡ seen n
unfolding is_fat_sector_reserved
unchanged n e =
    let low = leb→le n 632 e in
    let other : (1256 == n) ≡ false = ==_other 1256 n (λ f. omega (arith, low, f)) in
    ap (λ b. if b then replicate 512 9 else disk n) (sym other)

with_changes-Sees : Sees with_changes seen
with_changes-Sees = record {
  is_fat = session-IsFat;
  room = omega arith;
  held = tt;
  fat_seen = λ n e. unchanged n e;
  data_seen = inl (changed, with_changes-IsOn);
}

five_changed : IsCluster small_volume seen 5
unfolding get_first_sector_of_cluster is_fat_sector_reserved is_eoc
five_changed = record {
  in_table = (omega arith, omega arith);
  not_root = omega arith;
  not_end = refl;
  no_wrap = omega arith;
  are_data = (
    refl,
    omega arith,
    omega arith,
    refl,
    (
      refl,
      omega arith,
      omega arith,
      refl,
      (
        refl,
        omega arith,
        omega arith,
        refl,
        (
          refl,
          omega arith,
          omega arith,
          refl,
          (
            refl,
            omega arith,
            omega arith,
            refl,
            (
              refl,
              omega arith,
              omega arith,
              refl,
              (refl, omega arith, omega arith, refl, (refl, omega arith, omega arith, refl, tt)),
            ),
          ),
        ),
      ),
    ),
  );
}

put_block_repeats_example :
    (s' : Session) × (contents' : ℕ → List ℕ) × (put_block
        (record { id = 5; content = replicate 4096 1 })
        with_changes
      ≡ some (tt, s'))
    × Sees s' contents'
    × (block_of small_volume contents' 5 ≡ copies 8 (take 512 (replicate 4096 1)))
put_block_repeats_example =
    put_block_repeats with_changes seen changed (record { id = 5; content = replicate 4096 1 })
      with_changes-Sees with_changes-IsOn five_changed refl

fuse_read-fuse_write_example :
    (s' s'' : Session) × (fuse_write 0 0 0 (1 ∷ 2 ∷ 3 ∷ []) 4100 session ≡ some (count 3, s'))
    × (fuse_read (record { id = 0; content = [] }) 4100 3 s' ≡ some (bytes (1 ∷ 2 ∷ 3 ∷ []), s''))
unfolding get_first_cluster is_eoc
fuse_read-fuse_write_example =
    fuse_read-fuse_write session disk 0 0 0 5 (record { id = 0; content = [] }) (9 ∷ [])
      (1 ∷ 2 ∷ 3 ∷ []) 4100 session-Sees refl refl refl refl refl (omega arith) refl
      (refl, refl, refl) (five, (nine, tt)) ((omega arith, tt), (tt, tt)) (omega arith)
      (omega arith) (omega arith) (omega arith) (omega arith) (inr (omega arith)) (omega arith)
