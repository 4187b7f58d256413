-- ===== src/Pfs/Flush/Written.antt =====
-- After a flush the disk has what the process saw through its caches.
use grage_fat.Base.{
  ℕ, ◌≡◌, ◌≢◌, refl, sym, ap, subst, ◌∙◌, true, false, some, List, [], ◌∷◌, ◌==◌, Bool-cases, inl,
  inr, arith, All, ==_iff, length, ◌-◌,
}
use grage_fat.Commons.LinkedList.{LinkedList}
use grage_fat.Nipc.{DiskSector}
use grage_fat.Pfs.Cache.{CacheSectorRecord, Device, call_put_sector}
use grage_fat.Pfs.Cache.Records.{content_in, AreOnce, evict, content_in-absent}
use grage_fat.Pfs.Cache.Coherence.{IsCache, view, remove_node-first}
use grage_fat.Pfs.Session.{Session, with_cached}
use grage_fat.Pfs.Flush.{flush_records, flush_cached, drain, fat_cache_flush, file_cache_flush}
use grage_fat.Pfs.Fuse.{fuse_flush}

-- A record that is not marked as changed has what the device has.
abbrev pub IsClean : List CacheSectorRecord → Device → Type 0
IsClean rs device =
    All (λ r. r.modificado ≡ false → r.sector.sector_content ≡ device r.sector.sector_number) rs

IsClean-put :
    (rs : List CacheSectorRecord) (device : Device) (d : DiskSector)
    → All (λ s. s.sector.sector_number ≢ d.sector_number) rs
    → IsClean rs device
    → IsClean rs (call_put_sector device d)
IsClean-put [] device d other clean = tt
IsClean-put (r ∷ rs) device d other clean =
    (λ m. clean.0 m ∙ ground (arith, other.0), IsClean-put rs device d other.1 clean.1)

-- The device that the loop leaves.
flush_records-device :
    (rs : List CacheSectorRecord) (device : Device) (n : ℕ)
    → AreOnce rs
    → IsClean rs device
    → (flush_records rs device).1 n ≡ content_in rs n (device n)
unfolding flush_records
flush_records-device [] device n once clean = refl
flush_records-device (r ∷ rs) device n once clean = elim (Bool-cases r.modificado) [
  | inl m ↦ rw m (
      flush_records-device rs (call_put_sector device r.sector) n once.1
        (IsClean-put rs device r.sector once.0 clean.1)
      ∙ evict r rs device n once.0)
  | inr m ↦
      rw m
        (flush_records-device rs device n once.1 clean.1 ∙ hides r rs device n (clean.0 m) once.0)
]
  where
    hides :
        (r : CacheSectorRecord) (rs : List CacheSectorRecord) (device : Device) (n : ℕ)
        → r.sector.sector_content ≡ device r.sector.sector_number
        → All (λ s. s.sector.sector_number ≢ r.sector.sector_number) rs
        → content_in rs n (device n) ≡ content_in (r ∷ rs) n (device n)
    hides r rs device n same other = elim (Bool-cases (r.sector.sector_number == n)) [
      | inl e ↦
          let here = (==_iff r.sector.sector_number n).0 e in
          rw e (
            content_in-absent rs n (device n)
              (subst (λ k. All (λ s. s.sector.sector_number ≢ k) rs) here other)
            ∙ ap device (sym here)
            ∙ sym same)
      | inr e ↦ rw e
    ]

-- What taking every record out of a file's cache leaves.
abbrev pub IsDrained :
    List CacheSectorRecord → Device → LinkedList CacheSectorRecord × Device → Type 0
IsDrained rs before (cache, device) =
    (cache.elements ≡ [])
    × (cache.size ≡ 0)
    × IsCache cache
    × ((n : ℕ) → device n ≡ content_in rs n (before n))

rest-IsCache :
    (r : CacheSectorRecord) (rs : List CacheSectorRecord) (cache : LinkedList CacheSectorRecord)
    → cache.elements ≡ r ∷ rs
    → IsCache cache
    → IsCache (record cache { size = cache.size - 1; elements = rs })
rest-IsCache r rs cache e c = record {
  once = (subst AreOnce e c.once).1;
  newest_first = c.newest_first;
  by_number = c.by_number;
  counted = omega (arith, c.counted, ap length e);
}

drain-IsDrained :
    (rs : List CacheSectorRecord) (cache : LinkedList CacheSectorRecord) (device : Device)
    → cache.elements ≡ rs
    → IsCache cache
    → IsDrained rs device (drain rs cache device)
unfolding drain
drain-IsDrained [] cache device e c = (e, omega (arith, c.counted, ap length e), c, λ n. refl)
drain-IsDrained (r ∷ rs) cache device e c =
    let (empty, none_left, is_cache, on_device) =
      drain-IsDrained rs (record cache { size = cache.size - 1; elements = rs })
        (call_put_sector device r.sector) refl (rest-IsCache r rs cache e c) in
    subst (λ taken. IsDrained (r ∷ rs) device (drain rs taken (call_put_sector device r.sector)))
      (sym (remove_node-first cache r rs c.by_number e))
      (
        empty,
        none_left,
        is_cache,
        λ n. on_device n ∙ evict r rs device n (subst AreOnce e c.once).0,
      )

-- The flush of a file, with caches on: its own cache is empty after it, and the disk has of every
-- sector what the file's cache had of it, or else what the FAT's cache had, or else what it had. The
-- FAT's cache is well formed before, and what it has not marked as changed is as on the disk.
pub fuse_flush-writes :
    (s : Session) (cache : LinkedList CacheSectorRecord)
    → s.sizes.cache_habilitada ≡ true
    → s.file.cache ≡ some cache
    → IsCache cache
    → AreOnce s.fat.cached.0.elements
    → IsClean s.fat.cached.0.elements s.fat.cached.1
    → (s' : Session) × (empty : LinkedList CacheSectorRecord) × (fuse_flush s ≡ some (tt, s'))
      × (s'.file.cache ≡ some empty)
      × (empty.elements ≡ [])
      × IsCache empty
      × ((n : ℕ) → s'.fat.cached.1 n ≡ view (cache, view s.fat.cached) n)
unfolding fuse_flush fat_cache_flush file_cache_flush flush_cached
fuse_flush-writes s cache on has c once clean =
    let device : Device = (flush_records s.fat.cached.0.elements s.fat.cached.1).1 in
    let drained = drain cache.elements cache device in
    let (empty, none_left, is_cache, on_device) =
      drain-IsDrained cache.elements cache device refl c in
    (
      record (with_cached s ((flush_cached s.fat.cached).0, drained.1)) {
        file = record (s.file) { cache = some drained.0 };
      },
      drained.0,
      rw (on, has, fuse_flush),
      refl,
      empty,
      is_cache,
      λ n.
          on_device n
          ∙ ap (content_in cache.elements n)
              (flush_records-device s.fat.cached.0.elements s.fat.cached.1 n once clean),
    )
