-- ===== src/Tests/Pfs.antt =====
-- A small volume, a cache with one record, and a pool with two connections.
use grage_fat.Base.{
  ℕ, ◌+◌, ◌<◌, ◌≡◌, refl, true, false, some, none, [], ◌∷◌, replicate, arith, ◌≢◌, ◌↔◌, u16, List,
  suc, zero, copy_from,
}
use grage_fat.Commons.LinkedList.{LinkedList, order_always_first}
use grage_fat.Pfs.Volume.{
  Bpb, Volume, loaded, volume_of, load_volume, get_first_sector_of_cluster, get_fat_entry_sector,
  get_fat_entry_offset, load_volume-bounds,
}
use grage_fat.Pfs.Names.{
  LongDirEntry, fetch_char, get_name_length, extract_name, extract_name_overruns,
  extract_name_reads,
}
use grage_fat.Pfs.Cache.{
  CacheSectorRecord, Device, Cached, same_sector, call_get_sector, call_put_sector, get_through,
  put_in_cache,
}
use grage_fat.Pfs.Cache.Coherence.{IsCache, Leaves, view, put_in_cache-Leaves, get_through-Leaves}
use grage_fat.Pfs.Fat.{mark_end_of_chain, expand_chain, get_next_cluster_in_chain, end_of_chain}
use grage_fat.Pfs.Fat.Chains.{
  entry_at, IsInFat, get_next_cluster_in_chain-expand_chain, mark_end_of_chain-next,
  mark_end_of_chain-fault,
}
use grage_fat.Pfs.Pool.{Pool, Lent, same_connection, get_pooled_connection}
use grage_fat.Pfs.Pool.Exclusive.{Outcome, get_pooled_connection-Outcome}

abbrev bpb : Bpb
bpb = record {
  bytes_per_sec = 512;
  sec_per_clus = 8;
  resvd_sec_cnt = 32;
  num_fats = 2;
  tot_sec32 = 600000;
  fat_sz32 = 600;
  root_clus = 2;
  fs_info = 1;
}

abbrev volume : Volume
volume = volume_of bpb (replicate 512 0)

loads : load_volume bpb (replicate 512 0) ≡ loaded volume
unfolding load_volume
loads = refl

load_volume-bounds_example : get_first_sector_of_cluster volume 70000 + 7 < 600000
load_volume-bounds_example =
    load_volume-bounds bpb (replicate 512 0) volume 70000 7 loads (omega arith) (omega arith)
      (omega arith) (omega arith) (omega arith) (omega arith) (omega arith)

-- The cache holds sector 40, with a content that the device does not have yet.
abbrev device : Device
device n = replicate 512 0

abbrev cache : LinkedList CacheSectorRecord
cache = record {
  size = 1;
  elements =
      record {
        estado = 3;
        modificado = true;
        sector = record { sector_number = 40; sector_content = replicate 512 5 };
      }
      ∷ [];
  sorting_criteria = order_always_first;
  equality_criteria = same_sector;
}

cache-IsCache : IsCache cache
cache-IsCache = record { once = (tt, tt); newest_first = refl; by_number = refl; counted = refl }

put_in_cache-Leaves_example :
    (c : Cached) × (put_in_cache
        (record { sector_number = 41; sector_content = replicate 512 6 })
        cache
        1
        device
      ≡ some c)
    × Leaves
        (call_put_sector
          (view (cache, device))
          (record { sector_number = 41; sector_content = replicate 512 6 }))
        c
put_in_cache-Leaves_example =
    put_in_cache-Leaves (record { sector_number = 41; sector_content = replicate 512 6 }) cache 1
      device cache-IsCache (omega arith)

get_through-Leaves_example :
    (c : Cached) × (get_through 40 1 (cache, device)
      ≡ some (call_get_sector (view (cache, device)) 40, c))
    × Leaves (view (cache, device)) c
get_through-Leaves_example =
    get_through-Leaves 40 1 cache device cache-IsCache (omega arith) (omega arith)

abbrev InFatOf : (cluster : ℕ) → Type 0
InFatOf cluster = IsInFat volume (cache, device) cluster

thousand : InFatOf 1000
thousand = record {
  is_cache = cache-IsCache;
  bytes_per_sector = refl;
  reserved = omega arith;
  small = omega arith;
  in_table = omega arith;
  no_wrap = omega arith;
  whole = unfold get_fat_entry_sector in refl;
}

last_of_sector : InFatOf 1023
last_of_sector = record {
  is_cache = cache-IsCache;
  bytes_per_sector = refl;
  reserved = omega arith;
  small = omega arith;
  in_table = omega arith;
  no_wrap = omega arith;
  whole = unfold get_fat_entry_sector in refl;
}

get_next_cluster_in_chain-expand_chain_example :
    (c' : Cached) × (c'' : Cached) × (expand_chain volume 120 1000 1001 (cache, device) ≡ some c')
    × (get_next_cluster_in_chain volume 120 1000 c' ≡ some (1001, c''))
get_next_cluster_in_chain-expand_chain_example =
    get_next_cluster_in_chain-expand_chain volume 120 (cache, device) 1000 1001 (omega arith)
      thousand (omega arith)

mark_end_of_chain-next_example :
    (c' : Cached) × (mark_end_of_chain volume 120 1000 (cache, device) ≡ some c')
    × (entry_at (view c' (get_fat_entry_sector volume 1000)) (get_fat_entry_offset volume 1000)
        ≡ entry_at
            (view (cache, device) (get_fat_entry_sector volume 1000))
            (get_fat_entry_offset volume 1000))
    × (entry_at
          (view c' (get_fat_entry_sector volume 1000))
          (get_fat_entry_offset volume (1000 + 1))
        ≡ end_of_chain)
    × (get_fat_entry_sector volume (1000 + 1) ≡ get_fat_entry_sector volume 1000)
mark_end_of_chain-next_example =
    mark_end_of_chain-next volume 120 (cache, device) 1000 (omega arith) thousand (omega arith)

mark_end_of_chain-fault_example : mark_end_of_chain volume 120 1023 (cache, device) ≡ none
mark_end_of_chain-fault_example =
    mark_end_of_chain-fault volume 120 (cache, device) 1023 (omega arith) last_of_sector refl

abbrev pool : Pool
pool = record {
  pooled_connections = record {
    size = 2;
    elements =
        record { active = true; listen_socket = 4 }
        ∷ record { active = false; listen_socket = 5 }
        ∷ [];
    sorting_criteria = order_always_first;
    equality_criteria = same_connection;
  };
  pooled_connections_max_count = 2;
}

get_pooled_connection-Outcome_example :
    (r : Lent) × (pool' : Pool) × (get_pooled_connection 6 pool ≡ some (r, pool'))
    × Outcome pool r pool'
get_pooled_connection-Outcome_example =
    get_pooled_connection-Outcome 6 pool
      (record { apart = ((omega arith, tt), (tt, tt)); counted = refl; newest_first = refl })
      (omega arith) (omega arith, (omega arith, tt))

-- A name of thirteen characters, which fills its entry.
abbrev full_name : LongDirEntry
full_name = record {
  ldir_ord = 65;
  ldir_name1 = replicate 5 97;
  ldir_attr = 15;
  ldir_type = 0;
  ldir_chksum = 0;
  ldir_name2 = replicate 6 98;
  ldir_fst_clus_lo = 0;
  ldir_name3 = 99 ∷ 100 ∷ [];
}

extract_name_overruns_example :
    (extract_name full_name (replicate 13 0) (get_name_length full_name) ≡ none)
    ↔ ((j : ℕ) → j < 13 → u16 (fetch_char full_name j) ≢ 0)
extract_name_overruns_example = extract_name_overruns full_name (replicate 13 0) refl

-- A name of two characters.
abbrev short_name : LongDirEntry
short_name = record full_name { ldir_name1 = 97 ∷ 98 ∷ 0 ∷ 65535 ∷ 65535 ∷ [] }

before_null : (j : ℕ) → j < 2 → u16 (fetch_char short_name j) ≢ 0
unfolding fetch_char
before_null zero lt = λ e. absurd (omega (arith, e))
before_null (suc zero) lt = λ e. absurd (omega (arith, e))
before_null (suc (suc j)) lt = absurd (omega arith)

null_at_two : u16 (fetch_char short_name 2) ≡ 0
unfolding fetch_char
null_at_two = refl

extract_name_reads_example :
    (done : List ℕ) × (extract_name short_name (replicate 13 7) (get_name_length short_name)
      ≡ some done)
    × ((j : ℕ) → j < 2 → copy_from done j 1 ≡ some (u16 (fetch_char short_name j) ∷ []))
    × (copy_from done 2 1 ≡ some (0 ∷ []))
extract_name_reads_example =
    extract_name_reads short_name (replicate 13 7) 2 refl (omega arith) null_at_two before_null
