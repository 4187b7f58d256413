-- ===== src/Pfs/Cache/Frame.antt =====
-- A cache that holds sectors of one kind writes sectors of that kind only.
use grage_fat.Base.{
  ℕ, ◌<◌, ◌≡◌, ◌≢◌, refl, sym, ap, subst, ◌∙◌, Bool, true, false, Option, some, List, [], ◌∷◌, map,
  ◌==◌, leb, leb→le, Bool-cases, Option-cases, inl, inr, arith, find, All, ==_iff, length,
}
use grage_fat.Commons.LinkedList.{LinkedList, add_node}
use grage_fat.Nipc.{DiskSector}
use grage_fat.Pfs.Cache.{
  CacheSectorRecord, Device, Cached, call_get_sector, call_put_sector, registrar_acceso, make_room,
  put_sectors, overwrite_first, put_in_cache, get_through, accessed, new_record,
}
use grage_fat.Pfs.Cache.Records.{find_present, overwrite_first-absent}
use grage_fat.Pfs.Cache.Coherence.{
  IsCache, Leaves, view, make_room-full, make_room-Leaves, add_new-elements,
  registrar_acceso-IsCache, put_in_cache-Leaves, get_through-miss, get_through-hit,
  get_through-Leaves, cached_sector-some,
}

module _ (kind : ℕ → Bool) where
  abbrev pub Holds : List CacheSectorRecord → Type 0
  Holds rs = All (λ r. kind r.sector.sector_number ≡ true) rs

  -- What is left of the cache and of the device: records of the kind, and the rest of the device.
  abbrev pub Frames : Device → Cached → Type 0
  Frames before c = Holds c.0.elements × ((n : ℕ) → kind n ≡ false → c.1 n ≡ before n)

  Holds-accessed : (rs : List CacheSectorRecord) → Holds rs → Holds (map accessed rs)
  Holds-accessed [] h = tt
  Holds-accessed (r ∷ rs) h = (h.0, Holds-accessed rs h.1)

  Holds-overwrite :
      (d : DiskSector) (rs es : List CacheSectorRecord)
      → overwrite_first d rs ≡ some es
      → Holds rs
      → Holds es
  unfolding overwrite_first
  Holds-overwrite d [] es e h = absurd cc
  Holds-overwrite d (r ∷ rs) es e h =
      elim (Bool-cases (r.sector.sector_number == d.sector_number)) [
        | inl f ↦ subst Holds (some_injective (rw f at e)) h
        | inr f ↦ elim (Option-cases (overwrite_first d rs)) [
          | inl g ↦ absurd (cc (rw (f, g) at e))
          | inr (later, g) ↦
              subst Holds (some_injective (rw (f, g) at e)) (h.0, Holds-overwrite d rs later g h.1)
        ]
      ]
    where
      some_injective : {x y : List CacheSectorRecord} → some x ≡ some y → x ≡ y
      some_injective n = cc

  put_kept :
      (device : Device) (d : DiskSector) (n : ℕ)
      → kind d.sector_number ≡ true
      → kind n ≡ false
      → call_put_sector device d n ≡ device n
  put_kept device d n k other = elim (Bool-cases (n == d.sector_number)) [
    | inl e ↦
        let same = (==_iff n d.sector_number).0 e in
        let clash : true ≡ false = sym k ∙ ap kind (sym same) ∙ other in absurd (cc)
    | inr e ↦ rw e
  ]

  make_room-Frames :
      (cache : LinkedList CacheSectorRecord) (max_count : ℕ) (device : Device) (c : Cached)
      → IsCache cache
      → 0 < max_count
      → Holds cache.elements
      → make_room cache max_count device ≡ some c
      → Frames device c
  unfolding make_room
  make_room-Frames cache max_count device c is pos h e =
      elim (Bool-cases (leb max_count cache.size)) [
        | inl full ↦ full_lem cache.elements refl full
        | inr room ↦ subst (Frames device) (some_injective (rw room at e)) (h, λ n k. refl)
      ]
    where
      some_injective : {x y : Cached} → some x ≡ some y → x ≡ y
      some_injective n = cc

      full_lem :
          (es : List CacheSectorRecord)
          → cache.elements ≡ es
          → leb max_count cache.size ≡ true
          → Frames device c
      full_lem [] q full =
          let empty : length cache.elements ≡ 0 = ap length q in
          absurd (omega (arith, leb→le _ _ full, pos, is.counted, empty))
      full_lem (r ∷ rs) q full =
          let held = subst Holds q h in
          subst (Frames device)
            (some_injective (sym (make_room-full cache max_count device r rs is full q) ∙ e))
            (held.1, λ n k. put_kept device r.sector n held.0 k)

  put_sectors-Frames :
      (d : DiskSector) (cache : LinkedList CacheSectorRecord) (max_count : ℕ) (device : Device)
      (c : Cached)
      → IsCache cache
      → 0 < max_count
      → Holds cache.elements
      → kind d.sector_number ≡ true
      → All (λ s. s.sector.sector_number ≢ d.sector_number) cache.elements
      → put_sectors d cache max_count device ≡ some c
      → Frames device c
  unfolding put_sectors registrar_acceso
  put_sectors-Frames d cache max_count device c is pos h k absent e =
      let (room, made, leaves, without) =
        make_room-Leaves cache max_count device d.sector_number is pos absent in
      let (held, kept) = make_room-Frames cache max_count device room is pos h made in
      subst (Frames device) (some_injective (rw (made, put_sectors) at e)) (
        Holds-accessed (add_node room.0 (new_record d)).elements
            (subst Holds (sym (add_new-elements d room.0 leaves.0.newest_first)) (k, held)),
        kept,
      )
    where
      some_injective : {x y : Cached} → some x ≡ some y → x ≡ y
      some_injective n = cc

  pub put_in_cache-Frames :
      (d : DiskSector) (cache : LinkedList CacheSectorRecord) (max_count : ℕ) (device : Device)
      (c : Cached)
      → IsCache cache
      → 0 < max_count
      → Holds cache.elements
      → kind d.sector_number ≡ true
      → put_in_cache d cache max_count device ≡ some c
      → Frames device c
  unfolding put_in_cache
  put_in_cache-Frames d cache max_count device c is pos h k e =
      elim (Option-cases (overwrite_first d cache.elements)) [
        | inl g ↦
            put_sectors-Frames d cache max_count device c is pos h k
              (overwrite_first-absent d cache.elements g) (rw (g, put_in_cache) at e)
        | inr (es, g) ↦
            subst (Frames device) (some_injective (rw (g, put_in_cache) at e))
              (Holds-overwrite d cache.elements es g h, λ n other. refl)
      ]
    where
      some_injective : {x y : Cached} → some x ≡ some y → x ≡ y
      some_injective n = cc

  -- A read through the cache: what is read, what a reader sees then, and the rest of the device.
  pub get_through-Frames :
      (n max_count : ℕ) (cache : LinkedList CacheSectorRecord) (device : Device)
      → IsCache cache
      → 0 < max_count
      → n ≢ 0
      → Holds cache.elements
      → kind n ≡ true
      → (c : Cached) × (get_through n max_count (cache, device)
          ≡ some (call_get_sector (view (cache, device)) n, c))
        × Leaves (view (cache, device)) c
        × Frames device c
  unfolding registrar_acceso
  get_through-Frames n max_count cache device is pos z h k =
      let (c, got, leaves) = get_through-Leaves n max_count cache device is pos z in
      (c, got, leaves, framed c got)
    where
      pair_injective :
          {d d' : DiskSector} {x y : Cached}
          → ◌≡◌ {A = Option (DiskSector × Cached)} (some (d, x)) (some (d', y))
          → x ≡ y
      pair_injective e = cc

      framed :
          (c : Cached)
          → get_through n max_count (cache, device)
            ≡ some (call_get_sector (view (cache, device)) n, c)
          → Frames device c
      framed c got =
          elim (Option-cases
            (find (λ a. a.sector.sector_number == n) (map accessed cache.elements))) [
              | inl e ↦
                  let (c', put, leaves) =
                    put_in_cache-Leaves (call_get_sector device n) (registrar_acceso cache)
                      max_count device (registrar_acceso-IsCache cache is) pos in
                  subst (Frames device)
                    (pair_injective
                      (sym (get_through-miss n max_count cache device c' e put) ∙ got))
                    (put_in_cache-Frames (call_get_sector device n) (registrar_acceso cache)
                      max_count device c' (registrar_acceso-IsCache cache is) pos
                      (Holds-accessed cache.elements h) k put)
              | inr (r, e) ↦
                  let (number, content) = find_present (map accessed cache.elements) n r e in
                  subst (Frames device)
                    (pair_injective (
                      sym (
                        get_through-hit n max_count cache device r e
                          (cached_sector-some r n number z))
                      ∙ got))
                    (Holds-accessed cache.elements h, λ m other. refl)
            ]
