-- ===== src/Pfs/Blocks/Reading.antt =====
-- What the operations on a file see: the FAT through its cache, and the blocks of the file through
-- the file's, or straight from the disk. Neither cache gets in the other's way.
use grage_fat.Base.{
  ℕ, zero, suc, ◌+◌, ◌-◌, ◌*◌, ◌/◌, ◌%◌, ◌≤◌, ◌<◌, ◌^◌, ◌≡◌, ◌≢◌, refl, ap, ap₂, ◌∙◌, Bool, true,
  false, not, Option, some, List, [], ◌++◌, ◌==◌, inl, inr, ◌⊎◌, arith, length, u32, bind, ◌&&◌,
  ==_other, le→leb, length-append,
}
use grage_fat.Commons.LinkedList.{LinkedList}
use grage_fat.Pfs.Volume.{Volume, get_first_sector_of_cluster}
use grage_fat.Pfs.Cache.{
  CacheSectorRecord, Device, Cached, is_fat_sector_reserved, call_get_sector,
  call_cached_get_sector, get_through,
}
use grage_fat.Pfs.Cache.Coherence.{IsCache, view}
use grage_fat.Pfs.Cache.Records.{content_in}
use grage_fat.Pfs.Fat.{get_entry, is_eoc}
use grage_fat.Pfs.Fat.Chains.{entry_at, read_entry-some}
use grage_fat.Pfs.Cache.Frame.{Holds, get_through-Frames}
use grage_fat.Pfs.Fat.Table.{
  IsFat, InTable, fat_entry, entry_place, entry_reserved, next_in_chain-some, IsFat-Leaves,
}
use grage_fat.Pfs.Session.{Session, FatFile, with_cached, next_in_chain}
use grage_fat.Pfs.Blocks.{
  Block, get_file_sector, get_sectors, get_device_sectors, is_cached, get_block, choose,
}

abbrev pub with_caches : Session → Cached → Option (LinkedList CacheSectorRecord) → Session
with_caches s c fc = record (with_cached s c) { file = record (s.file) { cache = fc } }

abbrev pub is_data : Volume → ℕ → Bool
is_data v n = not (is_fat_sector_reserved v n)

-- A file's cache that is on, with records of data sectors only, and one that is off.
pub record IsOn (s : Session) (contents : ℕ → List ℕ) (cache : LinkedList CacheSectorRecord)
    : Type 0 where
  pub on : s.sizes.cache_habilitada ≡ true
  pub has : s.file.cache ≡ some cache
  pub is_cache : IsCache cache
  pub held : Holds (is_data s.fat.volume) cache.elements
  pub room : 0 < s.sizes.file_max_count
  pub seen :
      (n : ℕ)
      → is_fat_sector_reserved s.fat.volume n ≡ false
      → view (cache, s.fat.cached.1) n ≡ contents n

pub record IsOff (s : Session) (contents : ℕ → List ℕ) : Type 0 where
  pub off : s.sizes.cache_habilitada ≡ false
  pub seen : (n : ℕ) → is_fat_sector_reserved s.fat.volume n ≡ false → s.fat.cached.1 n ≡ contents n

abbrev pub SeesData : Session → (ℕ → List ℕ) → Type 0
SeesData s contents =
    ((cache : LinkedList CacheSectorRecord) × IsOn s contents cache) ⊎ IsOff s contents

-- All that the process reads is `contents`, whether caches are on or off.
pub record Sees (s : Session) (contents : ℕ → List ℕ) : Type 0 where
  pub is_fat : IsFat s.fat.volume s.fat.cached
  pub room : 0 < s.sizes.fat_max_count
  pub held : Holds (is_fat_sector_reserved s.fat.volume) s.fat.cached.0.elements
  pub fat_seen :
      (n : ℕ) → is_fat_sector_reserved s.fat.volume n ≡ true → view s.fat.cached n ≡ contents n
  pub data_seen : SeesData s contents

-- The blocks' bytes, sector by sector.
abbrev pub sectors_from : (ℕ → List ℕ) → ℕ → ℕ → List ℕ
sectors_from contents n zero = []
sectors_from contents n (suc left) = contents n ++ sectors_from contents (n + 1) left

-- A run of sectors behind the FAT.
abbrev pub AreData : Volume → (ℕ → List ℕ) → ℕ → ℕ → Type 0
AreData v contents n zero = Unit
AreData v contents n (suc left) =
    (is_fat_sector_reserved v n ≡ false)
    × (n ≢ 0)
    × (n < 2 ^ 32)
    × (length (contents n) ≡ 512)
    × AreData v contents (n + 1) left

get_file_sector-some :
    (s : Session) (n : ℕ) (cache : LinkedList CacheSectorRecord) (content : List ℕ) (c : Cached)
    → s.file.cache ≡ some cache
    → get_through n s.sizes.file_max_count (cache, s.fat.cached.1)
      ≡ some (record { sector_number = n; sector_content = content }, c)
    → get_file_sector n s ≡ some (content, with_caches s (s.fat.cached.0, c.1) (some c.0))
unfolding get_file_sector
get_file_sector-some s n cache content c has got = rw (has, got, get_file_sector)

-- A change of the device at data sectors, or at those of the FAT, leaves the other part alone.
pub IsFat-device :
    (v : Volume) (cache : LinkedList CacheSectorRecord) (device device' : Device)
    → IsFat v (cache, device)
    → ((n : ℕ) → is_fat_sector_reserved v n ≡ true → device' n ≡ device n)
    → IsFat v (cache, device')
IsFat-device v cache device device' f same = record {
  is_cache = f.is_cache;
  bytes_per_sector = f.bytes_per_sector;
  reserved = f.reserved;
  no_wrap = f.no_wrap;
  whole = λ n le.
      ap (λ x. length (content_in cache.elements (v.rsv + n) x))
        (same (v.rsv + n) (in_fat_reserved v n le))
      ∙ f.whole n le;
}
  where
    in_fat_reserved :
        (v : Volume) (n : ℕ) → n ≤ v.fat_size → is_fat_sector_reserved v (v.rsv + n) ≡ true
    in_fat_reserved v n le = unfold is_fat_sector_reserved in le→leb _ _ (omega (arith, le))

-- A sector of a file is read through the file's cache.
get_file_sector-Sees :
    (s : Session) (contents : ℕ → List ℕ) (cache : LinkedList CacheSectorRecord) (n : ℕ)
    → Sees s contents
    → IsOn s contents cache
    → is_fat_sector_reserved s.fat.volume n ≡ false
    → n ≢ 0
    → (c : Cached) × (cache' : LinkedList CacheSectorRecord) × (get_file_sector n s
        ≡ some (contents n, with_caches s c (some cache')))
      × Sees (with_caches s c (some cache')) contents
      × IsOn (with_caches s c (some cache')) contents cache'
get_file_sector-Sees s contents cache n w o d z =
    let v = s.fat.volume in
    let device = s.fat.cached.1 in
    let (c, got, leaves, (held, kept)) =
      get_through-Frames (is_data v) n s.sizes.file_max_count cache device o.is_cache o.room z
        o.held (ap not d) in
    let same : (k : ℕ) → is_fat_sector_reserved v k ≡ true → c.1 k ≡ device k =
      λ k r. kept k (ap not r) in
    let now : IsOn (with_caches s (s.fat.cached.0, c.1) (some c.0)) contents c.0 = record {
      on = o.on;
      has = refl;
      is_cache = leaves.0;
      held = held;
      room = o.room;
      seen = λ k r. leaves.1 k ∙ o.seen k r;
    } in
    (
      (s.fat.cached.0, c.1),
      c.0,
      get_file_sector-some s n cache (contents n) c o.has
          (got ∙ ap (λ x. some (record { sector_number = n; sector_content = x }, c)) (o.seen n d)),
      record {
        is_fat = IsFat-device v s.fat.cached.0 device c.1 w.is_fat same;
        room = w.room;
        held = w.held;
        fat_seen = λ k r. ap (content_in s.fat.cached.0.elements k) (same k r) ∙ w.fat_seen k r;
        data_seen = inl (c.0, now);
      },
      now,
    )

get_entry-some :
    (v : Volume) (max_count n offset : ℕ) (c c' : Cached)
    → is_fat_sector_reserved v n ≡ true
    → offset + 4 ≤ length (view c n)
    → get_through n max_count c ≡ some (call_get_sector (view c) n, c')
    → get_entry v max_count n offset c ≡ some (entry_at (view c n) offset, c')
unfolding get_entry call_cached_get_sector
get_entry-some v max_count n offset c c' r fits got =
    rw (r, got, read_entry-some (call_get_sector (view c) n) offset fits, get_entry)

SeesData-kept :
    (s : Session) (contents : ℕ → List ℕ) (c : Cached)
    → SeesData s contents
    → ((n : ℕ) → is_fat_sector_reserved s.fat.volume n ≡ false → c.1 n ≡ s.fat.cached.1 n)
    → SeesData (with_caches s c s.file.cache) contents
SeesData-kept s contents c (inl (cache, o)) kept = inl (
  cache,
  record {
    on = o.on;
    has = o.has;
    is_cache = o.is_cache;
    held = o.held;
    room = o.room;
    seen = λ n r. ap (content_in cache.elements n) (kept n r) ∙ o.seen n r;
  },
)
SeesData-kept s contents c (inr o) kept =
    inr (record { off = o.off; seen = λ n r. kept n r ∙ o.seen n r })

-- A link of the chain is read through the cache of the FAT.
pub next_in_chain-Sees :
    (s : Session) (contents : ℕ → List ℕ) (k : ℕ)
    → Sees s contents
    → InTable s.fat.volume k
    → (c : Cached) × (next_in_chain k s
        ≡ some (fat_entry s.fat.volume.rsv contents k, with_caches s c s.file.cache))
      × Sees (with_caches s c s.file.cache) contents
next_in_chain-Sees s contents k w t =
    let v = s.fat.volume in
    let n = v.rsv + k / 128 in
    let c0 = s.fat.cached in
    let (sector, offset) = entry_place v c0 k w.is_fat t in
    let r = entry_reserved v k t.1 in
    let whole = w.is_fat.whole (k / 128) t.1 in
    let (c, got, leaves, (held, kept)) =
      get_through-Frames (is_fat_sector_reserved v) n s.sizes.fat_max_count c0.0 c0.1
        w.is_fat.is_cache w.room (λ e. omega (arith, w.is_fat.reserved, e)) w.held r in
    let entry : get_entry v s.sizes.fat_max_count n (k % 128 * 4) c0
        ≡ some (fat_entry v.rsv (view c0) k, c) =
      get_entry-some v s.sizes.fat_max_count n (k % 128 * 4) c0 c r (omega (arith, whole)) got in
    let seen : fat_entry v.rsv (view c0) k ≡ fat_entry v.rsv contents k =
      ap (λ xs. entry_at xs (k % 128 * 4)) (w.fat_seen n r) in
    (
      c,
      next_in_chain-some s k n (k % 128 * 4) _ c sector offset entry
          ∙ ap (λ e. some (e, with_cached s c)) seen,
      record {
        is_fat = IsFat-Leaves v c0 c w.is_fat leaves;
        room = w.room;
        held = held;
        fat_seen = λ m q. leaves.1 m ∙ w.fat_seen m q;
        data_seen = SeesData-kept s contents c w.data_seen kept;
      },
    )

-- The loop over the sectors of a block, through the file's cache.
get_sectors-Sees :
    (left n : ℕ) (s : Session) (contents : ℕ → List ℕ) (cache : LinkedList CacheSectorRecord)
    → Sees s contents
    → IsOn s contents cache
    → AreData s.fat.volume contents n left
    → (c : Cached) × (fc : Option (LinkedList CacheSectorRecord)) × (get_sectors left n s
        ≡ some (sectors_from contents n left, with_caches s c fc))
      × Sees (with_caches s c fc) contents
unfolding get_sectors
get_sectors-Sees zero n s contents cache w o d = (s.fat.cached, s.file.cache, refl, w)
get_sectors-Sees (suc left) n s contents cache w o d =
    let (c1, cache1, got, w1, o1) = get_file_sector-Sees s contents cache n w o d.0 d.1 in
    let (c2, fc2, rest, w2) =
      get_sectors-Sees left (n + 1) (with_caches s c1 (some cache1)) contents cache1 w1 o1 d.4 in
    (c2, fc2, rw (got, rest, get_sectors), w2)

get_device_sectors-seen :
    (left n : ℕ) (s : Session) (contents : ℕ → List ℕ)
    → IsOff s contents
    → AreData s.fat.volume contents n left
    → get_device_sectors left n s ≡ some (sectors_from contents n left, s)
unfolding get_device_sectors
get_device_sectors-seen zero n s contents o d = refl
get_device_sectors-seen (suc left) n s contents o d =
    let narrow : u32 n ≡ n = omega (arith, d.2) in
    let rest = get_device_sectors-seen left (n + 1) s contents o d.4 in
    let here = o.seen n d.0 in rw (narrow, rest, here, get_device_sectors)

-- A cluster of a file: it has an entry in the FAT, and its sectors lie behind that.
pub record IsCluster (v : Volume) (contents : ℕ → List ℕ) (k : ℕ) : Type 0 where
  pub in_table : InTable v k
  pub not_root : k ≢ v.root
  pub not_end : is_eoc k ≡ false
  pub no_wrap : get_first_sector_of_cluster v k + 8 < 2 ^ 32
  pub are_data : AreData v contents (get_first_sector_of_cluster v k) 8

abbrev pub block_of : Volume → (ℕ → List ℕ) → ℕ → List ℕ
block_of v contents k = sectors_from contents (get_first_sector_of_cluster v k) 8

get_block-on :
    (s s' : Session) (k : ℕ) (content : List ℕ)
    → is_cached k s ≡ true
    → u32 (get_first_sector_of_cluster s.fat.volume k + 8)
        - get_first_sector_of_cluster s.fat.volume k
      ≡ 8
    → get_sectors 8 (get_first_sector_of_cluster s.fat.volume k) s ≡ some (content, s')
    → get_block k s ≡ some (record { id = k; content = content }, s')
unfolding get_block
get_block-on s s' k content on rounds got = rw (on, rounds, got, get_block, choose)

get_block-off :
    (s s' : Session) (k : ℕ) (content : List ℕ)
    → is_cached k s ≡ false
    → get_device_sectors 8 (get_first_sector_of_cluster s.fat.volume k) s ≡ some (content, s')
    → get_block k s ≡ some (record { id = k; content = content }, s')
unfolding get_block
get_block-off s s' k content off got =
    rw (off, get_block, choose) (ap (λ r. bind r (λ (xs, t). some (block k xs, t))) got)
  where
    block : ℕ → List ℕ → Block
    block id xs = record { id = id; content = xs }

pub is_cached-on :
    (s : Session) (k : ℕ)
    → s.sizes.cache_habilitada ≡ true
    → k ≢ s.fat.volume.root
    → is_cached k s ≡ true
unfolding is_cached
is_cached-on s k on other = ap₂ (λ a b. a && not b) on (==_other k s.fat.volume.root other)

pub is_cached-off : (s : Session) (k : ℕ) → s.sizes.cache_habilitada ≡ false → is_cached k s ≡ false
unfolding is_cached
is_cached-off s k off = ap (λ b. b && not (k == s.fat.volume.root)) off

-- The block of a cluster has the eight sectors that the process sees, one behind the other, and
-- reading it changes nothing that it sees.
pub get_block-Sees :
    (s : Session) (contents : ℕ → List ℕ) (k : ℕ)
    → Sees s contents
    → IsCluster s.fat.volume contents k
    → (c : Cached) × (fc : Option (LinkedList CacheSectorRecord)) × (get_block k s
        ≡ some (record { id = k; content = block_of s.fat.volume contents k }, with_caches s c fc))
      × Sees (with_caches s c fc) contents
get_block-Sees s contents k w i = go w.data_seen
  where
    first : ℕ
    first = get_first_sector_of_cluster s.fat.volume k

    go :
        SeesData s contents
        → (c : Cached) × (fc : Option (LinkedList CacheSectorRecord)) × (get_block k s
            ≡ some
                (record { id = k; content = block_of s.fat.volume contents k }, with_caches s c fc))
          × Sees (with_caches s c fc) contents
    go (inl (cache, o)) =
        let (c, fc, got, w') = get_sectors-Sees 8 first s contents cache w o i.are_data in
        let rounds : u32 (first + 8) - first ≡ 8 = omega (arith, i.no_wrap) in
        (
          c,
          fc,
          get_block-on s (with_caches s c fc) k _ (is_cached-on s k o.on i.not_root) rounds got,
          w',
        )
    go (inr o) = (
      s.fat.cached,
      s.file.cache,
      get_block-off s s k _ (is_cached-off s k o.off)
          (get_device_sectors-seen 8 first s contents o i.are_data),
      w,
    )

-- Only the caches of a session matter to what it sees.
pub Sees-file :
    (s : Session) (contents : ℕ → List ℕ) (f : FatFile)
    → f.cache ≡ s.file.cache
    → Sees s contents
    → Sees (record s { file = f }) contents
Sees-file s contents f e w = record {
  is_fat = w.is_fat;
  room = w.room;
  held = w.held;
  fat_seen = w.fat_seen;
  data_seen = go w.data_seen;
}
  where
    go : SeesData s contents → SeesData (record s { file = f }) contents
    go (inl (cache, o)) = inl (
      cache,
      record {
        on = o.on;
        has = e ∙ o.has;
        is_cache = o.is_cache;
        held = o.held;
        room = o.room;
        seen = o.seen;
      },
    )
    go (inr o) = inr (record { off = o.off; seen = o.seen })

pub length-sectors_from :
    (v : Volume) (contents : ℕ → List ℕ) (n left : ℕ)
    → AreData v contents n left
    → length (sectors_from contents n left) ≡ left * 512
length-sectors_from v contents n zero d = refl
length-sectors_from v contents n (suc left) d = omega (
  arith,
  length-append (contents n) (sectors_from contents (n + 1) left),
  d.3,
  length-sectors_from v contents (n + 1) left d.4,
)
