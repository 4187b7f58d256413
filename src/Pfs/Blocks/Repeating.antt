-- ===== src/Pfs/Blocks/Repeating.antt =====
-- What the process sees once a block is put through the file's cache.
use grage_fat.Base.{
  ℕ, zero, suc, ◌+◌, ◌-◌, ◌≤◌, ◌<◌, ◌≡◌, ◌≢◌, refl, sym, ap, ap₂, subst, ◌∙◌, true, false, not,
  some, List, [], ◌++◌, ◌==◌, ==_other, if◌then◌else◌, inl, arith, length, take, u32,
  copy_from-within,
}
use grage_fat.Commons.LinkedList.{LinkedList}
use grage_fat.Nipc.{DiskSector}
use grage_fat.Pfs.Volume.{Volume, get_first_sector_of_cluster}
use grage_fat.Pfs.Cache.{CacheSectorRecord, Cached, is_fat_sector_reserved, put_in_cache}
use grage_fat.Pfs.Cache.Frame.{put_in_cache-Frames}
use grage_fat.Pfs.Cache.Coherence.{put_in_cache-Leaves}
use grage_fat.Pfs.Cache.Records.{content_in}
use grage_fat.Pfs.Session.{Session}
use grage_fat.Pfs.Blocks.{Block, put_file_sector, put_sectors, put_block, is_cached, choose}
use grage_fat.Pfs.Blocks.Reading.{
  Sees, IsOn, IsCluster, AreData, with_caches, is_data, sectors_from, block_of, IsFat-device,
  is_cached-on,
}
use grage_fat.Pfs.Blocks.Writing.{sector_at, sector_at-same}

put_file_sector-some :
    (s : Session) (d : DiskSector) (cache : LinkedList CacheSectorRecord) (c : Cached)
    → s.file.cache ≡ some cache
    → put_in_cache d cache s.sizes.file_max_count s.fat.cached.1 ≡ some c
    → put_file_sector d s ≡ some (tt, with_caches s (s.fat.cached.0, c.1) (some c.0))
unfolding put_file_sector
put_file_sector-some s d cache c has put = rw (has, put, put_file_sector)

-- A sector of a file is written through the file's cache.
put_file_sector-Sees :
    (s : Session) (contents : ℕ → List ℕ) (cache : LinkedList CacheSectorRecord) (n : ℕ)
    (content : List ℕ)
    → Sees s contents
    → IsOn s contents cache
    → is_fat_sector_reserved s.fat.volume n ≡ false
    → (c : Cached) × (cache' : LinkedList CacheSectorRecord) × (put_file_sector
          (record { sector_number = n; sector_content = content })
          s
        ≡ some (tt, with_caches s c (some cache')))
      × Sees (with_caches s c (some cache')) (sector_at contents n content)
      × IsOn (with_caches s c (some cache')) (sector_at contents n content) cache'
put_file_sector-Sees s contents cache n content w o behind =
    let v = s.fat.volume in
    let device = s.fat.cached.1 in
    let d : DiskSector = record { sector_number = n; sector_content = content } in
    let (c, put, leaves) =
      put_in_cache-Leaves d cache s.sizes.file_max_count device o.is_cache o.room in
    let (held, kept) =
      put_in_cache-Frames (is_data v) d cache s.sizes.file_max_count device c o.is_cache o.room
        o.held (ap not behind) put in
    let same : (k : ℕ) → is_fat_sector_reserved v k ≡ true → c.1 k ≡ device k =
      λ k r. kept k (ap not r) in
    let now : IsOn (with_caches s (s.fat.cached.0, c.1) (some c.0)) (sector_at contents n content)
        c.0 =
      record {
        on = o.on;
        has = refl;
        is_cache = leaves.0;
        held = held;
        room = o.room;
        seen = λ k r. leaves.1 k ∙ ap (λ xs. if k == n then content else xs) (o.seen k r);
      } in
    (
      (s.fat.cached.0, c.1),
      c.0,
      put_file_sector-some s d cache c o.has put,
      record {
        is_fat = IsFat-device v s.fat.cached.0 device c.1 w.is_fat same;
        room = w.room;
        held = w.held;
        fat_seen = λ k r.
            ap (content_in s.fat.cached.0.elements k) (same k r)
            ∙ w.fat_seen k r
            ∙ ap (λ b. if b then content else contents k)
                (sym (==_other k n (elsewhere v k n r behind)));
        data_seen = inl (c.0, now);
      },
      now,
    )
  where
    elsewhere :
        (v : Volume) (k n : ℕ)
        → is_fat_sector_reserved v k ≡ true
        → is_fat_sector_reserved v n ≡ false
        → k ≢ n
    elsewhere v k n r behind e = let same = ap (is_fat_sector_reserved v) e in cc

-- Contents with the same bytes in a run of sectors.
abbrev pub repeated : (ℕ → List ℕ) → ℕ → ℕ → List ℕ → ℕ → List ℕ
repeated contents n zero bytes = contents
repeated contents n (suc left) bytes = repeated (sector_at contents n bytes) (n + 1) left bytes

abbrev pub copies : ℕ → List ℕ → List ℕ
copies zero bytes = []
copies (suc n) bytes = bytes ++ copies n bytes

repeated-below :
    (left : ℕ) (contents : ℕ → List ℕ) (n : ℕ) (bytes : List ℕ) (m : ℕ)
    → m < n
    → repeated contents n left bytes m ≡ contents m
repeated-below zero contents n bytes m lt = refl
repeated-below (suc left) contents n bytes m lt =
    let other : (m == n) ≡ false = ==_other m n (λ e. omega (arith, lt, e)) in
    repeated-below left (sector_at contents n bytes) (n + 1) bytes m (omega (arith, lt))
    ∙ ap (λ b. if b then bytes else contents m) other

repeated-inside :
    (left : ℕ) (contents : ℕ → List ℕ) (n : ℕ) (bytes : List ℕ)
    → sectors_from (repeated contents n left bytes) n left ≡ copies left bytes
repeated-inside zero contents n bytes = refl
repeated-inside (suc left) contents n bytes =
    ap₂ (λ xs ys. xs ++ ys)
      (repeated-below left (sector_at contents n bytes) (n + 1) bytes n (omega arith)
        ∙ sector_at-same contents n bytes)
      (repeated-inside left (sector_at contents n bytes) (n + 1) bytes)

-- A run of sectors behind the FAT.
abbrev AreBehind : Volume → ℕ → ℕ → Type 0
AreBehind v n zero = Unit
AreBehind v n (suc left) = (is_fat_sector_reserved v n ≡ false) × AreBehind v (n + 1) left

AreData-AreBehind :
    (v : Volume) (contents : ℕ → List ℕ) (n left : ℕ)
    → AreData v contents n left
    → AreBehind v n left
AreData-AreBehind v contents n zero d = tt
AreData-AreBehind v contents n (suc left) d = (d.0, AreData-AreBehind v contents (n + 1) left d.4)

put_sectors-Sees :
    (left n : ℕ) (block : Block) (s : Session) (contents : ℕ → List ℕ)
    (cache : LinkedList CacheSectorRecord)
    → 512 ≤ length block.content
    → Sees s contents
    → IsOn s contents cache
    → AreBehind s.fat.volume n left
    → (c : Cached) × (cache' : LinkedList CacheSectorRecord) × (put_sectors left n block s
        ≡ some (tt, with_caches s c (some cache')))
      × Sees (with_caches s c (some cache')) (repeated contents n left (take 512 block.content))
unfolding put_sectors
put_sectors-Sees zero n block s contents cache long w o d = (
  s.fat.cached,
  cache,
  ap (λ fc. some (tt, with_caches s s.fat.cached fc)) o.has,
  subst (λ fc. Sees (with_caches s s.fat.cached fc) contents) o.has w,
)
put_sectors-Sees (suc left) n block s contents cache long w o d =
    let bytes = take 512 block.content in
    let got = copy_from-within block.content 0 512 long in
    let (c1, cache1, put, w1, o1) = put_file_sector-Sees s contents cache n bytes w o d.0 in
    let (c2, cache2, rest, w2) =
      put_sectors-Sees left (n + 1) block (with_caches s c1 (some cache1))
        (sector_at contents n bytes) cache1 long w1 o1 d.1 in
    (c2, cache2, rw (got, put, rest, put_sectors), w2)

put_block-on :
    (s s' : Session) (block : Block)
    → is_cached block.id s ≡ true
    → u32 (get_first_sector_of_cluster s.fat.volume block.id + 8)
        - get_first_sector_of_cluster s.fat.volume block.id
      ≡ 8
    → put_sectors 8 (get_first_sector_of_cluster s.fat.volume block.id) block s ≡ some (tt, s')
    → put_block block s ≡ some (tt, s')
unfolding put_block
put_block-on s s' block on rounds put = rw (on, rounds, put, put_block, choose)

-- With caches on, a block that is put does not come back: each of the eight sectors of its cluster
-- has the block's first 512 bytes.
pub put_block_repeats :
    (s : Session) (contents : ℕ → List ℕ) (cache : LinkedList CacheSectorRecord) (block : Block)
    → Sees s contents
    → IsOn s contents cache
    → IsCluster s.fat.volume contents block.id
    → length block.content ≡ 4096
    → (s' : Session) × (contents' : ℕ → List ℕ) × (put_block block s ≡ some (tt, s'))
      × Sees s' contents'
      × (block_of s.fat.volume contents' block.id ≡ copies 8 (take 512 block.content))
put_block_repeats s contents cache block w o i whole =
    let v = s.fat.volume in
    let first = get_first_sector_of_cluster v block.id in
    let rounds : u32 (first + 8) - first ≡ 8 = omega (arith, i.no_wrap) in
    let (c, cache', put, w') =
      put_sectors-Sees 8 first block s contents cache (omega (arith, whole)) w o
        (AreData-AreBehind v contents first 8 i.are_data) in
    (
      _,
      _,
      put_block-on s _ block (is_cached-on s block.id o.on i.not_root) rounds put,
      w',
      repeated-inside 8 contents first (take 512 block.content),
    )
