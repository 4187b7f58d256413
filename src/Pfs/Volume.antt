-- ===== src/Pfs/Volume.antt =====
-- grage-pfs/app/src/core/pfs-fat-utils.c: the numbers of a volume, and where clusters and their FAT
-- entries are. `bps` and `spc` of a volume in use are not 0.
use grage_fat.Base.{
  ℕ, ◌+◌, ◌-◌, ◌*◌, ◌/◌, ◌%◌, ◌≤◌, ◌<◌, ◌^◌, ◌≡◌, Bool, List, ◌==◌, ltb, if◌then◌else◌, u16, u32,
  sub32, take, drop, value_of, arith, mul-add-div_right, div-eq_of_lt, le-div_iff_mul-le, suc-mul,
  suc, subst, Bool-cases, inl, inr,
}

-- The fields of the BIOS parameter block that the process reads.
pub record Bpb : Type 0 where
  pub bytes_per_sec : ℕ
  pub sec_per_clus : ℕ
  pub resvd_sec_cnt : ℕ
  pub num_fats : ℕ
  pub tot_sec32 : ℕ
  pub fat_sz32 : ℕ
  pub root_clus : ℕ
  pub fs_info : ℕ

pub record Volume : Type 0 where
  pub bps : ℕ
  pub spc : ℕ
  pub bpc : ℕ
  pub fds : ℕ
  pub rsv : ℕ
  pub fat_qty : ℕ
  pub fat_size : ℕ
  pub fat_start_sector : ℕ
  pub clusters : ℕ
  pub sectors : ℕ
  pub data_sectors : ℕ
  pub root : ℕ
  pub next_free_cluster : ℕ
  pub free_cluster_count : ℕ

pub data Loaded : Type 0 where
  -- A division by 0 ends the process.
  fault : Loaded
  -- The caller gets `NULL`: there are too few clusters for FAT32.
  refused : Loaded
  loaded : Volume → Loaded

abbrev pub volume_of : Bpb → List ℕ → Volume
volume_of b info =
    let metadata = u16 b.resvd_sec_cnt + b.num_fats * u16 b.fat_sz32 in
    let data_sectors = sub32 b.tot_sec32 metadata in
    record {
      bps = b.bytes_per_sec;
      spc = b.sec_per_clus;
      bpc = u16 (b.bytes_per_sec * b.sec_per_clus);
      fds = u16 metadata;
      rsv = u16 b.resvd_sec_cnt;
      fat_qty = b.num_fats;
      fat_size = u16 b.fat_sz32;
      fat_start_sector = b.resvd_sec_cnt;
      clusters = data_sectors / b.sec_per_clus;
      sectors = b.tot_sec32;
      data_sectors = data_sectors;
      root = b.root_clus;
      next_free_cluster = u32 (value_of (take 4 (drop 492 info)) + 1);
      free_cluster_count = value_of (take 4 (drop 488 info));
    }

-- `pfs_fat_utils_loadVolume`; `info` is the content of the sector that `fs_info` names.
unfoldable pub load_volume : Bpb → List ℕ → Loaded
load_volume b info =
    if b.sec_per_clus == 0
    then fault
    else if ltb (volume_of b info).clusters 65525
    then refused
    else loaded (volume_of b info)

unfoldable pub get_fat_entry_sector : Volume → ℕ → ℕ
get_fat_entry_sector v cluster = u32 (v.rsv + u32 (cluster * 4) / v.bps)

unfoldable pub get_fat_entry_offset : Volume → ℕ → ℕ
get_fat_entry_offset v cluster = u32 (cluster * 4) % v.bps

unfoldable pub get_first_sector_of_cluster : Volume → ℕ → ℕ
get_first_sector_of_cluster v cluster = u32 (sub32 cluster 2 * v.spc + v.fds)

unfoldable pub get_cluster_by_sector : Volume → ℕ → ℕ
get_cluster_by_sector v sector = u32 (sub32 sector v.fds / v.spc + 2)

-- `*` and `%` bind alike: the product is taken first, and wraps.
unfoldable pub is_last_sector_from_cluster : Volume → ℕ → Bool
is_last_sector_from_cluster v sector_id = u32 (v.bps * u32 (1 + sector_id)) % v.bpc == 0

unfoldable pub get_dir_entry_offset : ℕ → ℕ → ℕ → ℕ
get_dir_entry_offset sector_id os offset = u32 (sub32 sector_id os * 512 + offset)

div_add : (a k m : ℕ) → k < m → (a * m + k) / m ≡ a
div_add a k m h =
    let quotient : (a * m + k) / m ≡ a + k / m = mul-add-div_right (omega (arith, h)) a k in
    let remainder : k / m ≡ 0 = div-eq_of_lt h in omega (arith, quotient, remainder)

sub32_add : (p fds k : ℕ) → p + k + fds < 2 ^ 32 → sub32 (u32 (p + fds) + k) fds ≡ p + k
sub32_add p fds k h = omega arith

-- Every sector of a cluster belongs to that cluster and to no other, as long as no number wraps.
get_cluster_by_sector-get_first_sector_of_cluster :
    (v : Volume) (cluster k : ℕ)
    → 2 ≤ cluster
    → k < v.spc
    → (cluster - 2) * v.spc + v.spc + v.fds < 2 ^ 32
    → cluster < 2 ^ 32
    → get_cluster_by_sector v (get_first_sector_of_cluster v cluster + k) ≡ cluster
unfolding get_cluster_by_sector get_first_sector_of_cluster
get_cluster_by_sector-get_first_sector_of_cluster v cluster k two below fits narrow =
    let start : sub32 cluster 2 ≡ cluster - 2 = omega arith in
    rw
      (
        start,
        sub32_add ((cluster - 2) * v.spc) v.fds k (omega (arith, below, fits)),
        div_add (cluster - 2) k v.spc below,
      )
      (omega arith)

-- The entry of a cluster is whole within one sector of the FAT, and the sector and the offset
-- together name the cluster.
get_fat_entry_sector-offset :
    (v : Volume) (cluster : ℕ)
    → v.bps ≡ 512
    → cluster < 2 ^ 30
    → v.rsv + cluster / 128 < 2 ^ 32
    → (get_fat_entry_offset v cluster + 4 ≤ 512)
      × ((get_fat_entry_sector v cluster - v.rsv) * 512 + get_fat_entry_offset v cluster
          ≡ cluster * 4)
unfolding get_fat_entry_sector get_fat_entry_offset
get_fat_entry_sector-offset v cluster b h fits = rw b (omega arith, omega arith)

sectors_below :
    (tot m spc c k : ℕ)
    → m ≤ tot
    → tot < 2 ^ 32
    → 2 ≤ c
    → c < (tot - m) / spc + 2
    → k < spc
    → u32 (sub32 c 2 * spc + m) + k < tot
sectors_below tot m spc c k h w two below within =
    let start : sub32 c 2 ≡ c - 2 = omega arith in
    let whole : suc (c - 2) * spc ≤ tot - m =
      (le-div_iff_mul-le {k = spc} {x = suc (c - 2)} {y = tot - m} (omega (arith, within))).0
        (omega (arith, below, two)) in
    let split : suc (c - 2) * spc ≡ (c - 2) * spc + spc = suc-mul (c - 2) spc in
    rw start (omega (arith, whole, split))

loaded_volume :
    (b : Bpb) (info : List ℕ) (v : Volume) → load_volume b info ≡ loaded v → volume_of b info ≡ v
unfolding load_volume
loaded_volume b info v e = elim (Bool-cases (b.sec_per_clus == 0)) [
  | inl z ↦ absurd (cc (rw z at e))
  | inr z ↦ elim (Bool-cases (ltb (volume_of b info).clusters 65525)) [
    | inl f ↦ absurd (cc (rw (z, f) at e))
    | inr f ↦ let g = rw (z, f) at e in cc
  ]
]

volume_of-bounds :
    (b : Bpb) (info : List ℕ) (cluster k : ℕ)
    → b.resvd_sec_cnt + b.num_fats * b.fat_sz32 < 2 ^ 16
    → b.fat_sz32 < 2 ^ 16
    → b.resvd_sec_cnt + b.num_fats * b.fat_sz32 ≤ b.tot_sec32
    → b.tot_sec32 < 2 ^ 32
    → 2 ≤ cluster
    → cluster < (volume_of b info).clusters + 2
    → k < b.sec_per_clus
    → get_first_sector_of_cluster (volume_of b info) cluster + k < b.tot_sec32
unfolding get_first_sector_of_cluster
volume_of-bounds b info cluster k small narrow whole wide two below within =
    let reserved : u16 b.resvd_sec_cnt ≡ b.resvd_sec_cnt = omega arith in
    let size : u16 b.fat_sz32 ≡ b.fat_sz32 = omega arith in
    let metadata : u16 (b.resvd_sec_cnt + b.num_fats * b.fat_sz32)
        ≡ b.resvd_sec_cnt + b.num_fats * b.fat_sz32 =
      omega arith in
    let left : sub32 b.tot_sec32 (b.resvd_sec_cnt + b.num_fats * b.fat_sz32)
        ≡ b.tot_sec32 - (b.resvd_sec_cnt + b.num_fats * b.fat_sz32) =
      omega arith in
    rw (reserved, size, metadata)
      (sectors_below b.tot_sec32 (b.resvd_sec_cnt + b.num_fats * b.fat_sz32) b.sec_per_clus cluster
        k whole wide two (rw (reserved, size, left) at below) within)

-- Of a volume whose tables fit it and the 16 bits that count them, no cluster that the process
-- takes for one reaches past the last sector.
pub load_volume-bounds :
    (b : Bpb) (info : List ℕ) (v : Volume) (cluster k : ℕ)
    → load_volume b info ≡ loaded v
    → b.resvd_sec_cnt + b.num_fats * b.fat_sz32 < 2 ^ 16
    → b.fat_sz32 < 2 ^ 16
    → b.resvd_sec_cnt + b.num_fats * b.fat_sz32 ≤ b.tot_sec32
    → b.tot_sec32 < 2 ^ 32
    → 2 ≤ cluster
    → cluster < v.clusters + 2
    → k < v.spc
    → get_first_sector_of_cluster v cluster + k < v.sectors
load_volume-bounds b info v cluster k e small narrow whole wide two =
    subst
      (λ w.
        cluster < w.clusters + 2
        → k < w.spc
        → get_first_sector_of_cluster w cluster + k < w.sectors)
      (loaded_volume b info v e) (volume_of-bounds b info cluster k small narrow whole wide two)
