-- ===== src/Pfs/Cache/Coherence.antt =====
-- A cache is transparent: what the process reads through it is what it wrote last.
use grage_fat.Base.{
  ==_self, ℕ, ◌<◌, ◌≡◌, ◌≢◌, refl, sym, ap, subst, ◌∙◌, true, none, some, List, [], ◌∷◌, map, ◌==◌,
  leb, if◌then◌else◌, Bool-cases, Option-cases, inl, inr, arith, find, All, ==_iff, length, ◌-◌,
  leb→le,
}
use grage_fat.Commons.LinkedList.{
  LinkedList, add_node, remove_node, unlink, detach, get_node_by_criteria, order_always_first,
}
use grage_fat.Commons.LinkedList.Remove.{add_node-IsCounted}
use grage_fat.Commons.Queue.{insert_node-first}
use grage_fat.Nipc.{DiskSector}
use grage_fat.Pfs.Cache.{
  CacheSectorRecord, Device, Cached, call_get_sector, call_put_sector, same_sector,
  registrar_acceso, get_sector, select_victim, make_room, put_sectors, overwrite_first,
  put_in_cache, get_through, serve, cached_sector, accessed, new_record,
}
use grage_fat.Pfs.Cache.Records.{
  content_in, AreOnce, content_in-accessed, AreOnce-accessed, length-accessed, evict,
  content_in-new, overwrite_first-absent, overwrite_first-present, find_absent, find_present,
}

abbrev pub view : Cached → ℕ → List ℕ
view (cache, device) n = content_in cache.elements n (device n)

-- A cache as the process builds it.
pub record IsCache (cache : LinkedList CacheSectorRecord) : Type 0 where
  pub once : AreOnce cache.elements
  pub newest_first : cache.sorting_criteria ≡ order_always_first
  pub by_number : cache.equality_criteria ≡ same_sector
  pub counted : cache.size ≡ length cache.elements

-- The loop takes the first record, whatever the states are.
pub select_victim-first :
    (r : CacheSectorRecord) (rs : List CacheSectorRecord) → select_victim (r ∷ rs) ≡ some r
unfolding select_victim
select_victim-first r [] = refl
select_victim-first r (s ∷ rs) = ground arith

pub registrar_acceso-IsCache :
    (cache : LinkedList CacheSectorRecord) → IsCache cache → IsCache (registrar_acceso cache)
unfolding registrar_acceso
registrar_acceso-IsCache cache c = record {
  once = AreOnce-accessed cache.elements c.once;
  newest_first = c.newest_first;
  by_number = c.by_number;
  counted = c.counted ∙ sym (length-accessed cache.elements);
}

-- What an operation that succeeds leaves: a cache, and a device's worth of contents.
abbrev pub Leaves : Device → Cached → Type 0
Leaves contents c = IsCache c.0 × ((n : ℕ) → view c n ≡ contents n)

abbrev Without : ℕ → LinkedList CacheSectorRecord → Type 0
Without k cache = All (λ s. s.sector.sector_number ≢ k) cache.elements

pub remove_node-first :
    (cache : LinkedList CacheSectorRecord) (r : CacheSectorRecord) (rs : List CacheSectorRecord)
    → cache.equality_criteria ≡ same_sector
    → cache.elements ≡ r ∷ rs
    → (remove_node cache r).0 ≡ record cache { size = cache.size - 1; elements = rs }
unfolding remove_node unlink detach same_sector
remove_node-first cache r rs q e =
    rw (e, q, ==_self r.sector.sector_number, detach)
      (ap (λ f. record cache { size = cache.size - 1; elements = rs; equality_criteria = f }) q)

pub make_room-full :
    (cache : LinkedList CacheSectorRecord) (max_count : ℕ) (device : Device) (r : CacheSectorRecord)
    (rs : List CacheSectorRecord)
    → IsCache cache
    → leb max_count cache.size ≡ true
    → cache.elements ≡ r ∷ rs
    → make_room cache max_count device
      ≡ some
          (record cache { size = cache.size - 1; elements = rs }, call_put_sector device r.sector)
unfolding make_room
make_room-full cache max_count device r rs c full e =
    simp (full, e, select_victim-first, remove_node-first cache r rs c.by_number e)

pub make_room-Leaves :
    (cache : LinkedList CacheSectorRecord) (max_count : ℕ) (device : Device) (k : ℕ)
    → IsCache cache
    → 0 < max_count
    → Without k cache
    → (c : Cached) × (make_room cache max_count device ≡ some c)
      × Leaves (view (cache, device)) c
      × Without k c.0
unfolding make_room
make_room-Leaves cache max_count device k c h w = elim (Bool-cases (leb max_count cache.size)) [
  | inl full ↦ full_lem cache.elements refl full
  | inr room ↦ rw room (_, refl, (c, λ n. refl), w)
]
  where
    full_lem :
        (es : List CacheSectorRecord)
        → cache.elements ≡ es
        → leb max_count cache.size ≡ true
        → (c : Cached) × (make_room cache max_count device ≡ some c)
          × Leaves (view (cache, device)) c
          × Without k c.0
    full_lem [] e full =
        let empty : length cache.elements ≡ 0 = ap length e in
        absurd (omega (arith, leb→le _ _ full, h, c.counted, empty))
    full_lem (r ∷ rs) e full =
        let once = subst AreOnce e c.once in
        (
          _,
          make_room-full cache max_count device r rs c full e,
          (
            record {
              once = once.1;
              newest_first = c.newest_first;
              by_number = c.by_number;
              counted = omega (arith, c.counted, ap length e);
            },
            λ n. evict r rs device n once.0 ∙ ap (λ es. content_in es n (device n)) (sym e),
          ),
          (subst (All (λ s. s.sector.sector_number ≢ k)) e w).1,
        )

pub add_new-elements :
    (d : DiskSector) (l : LinkedList CacheSectorRecord)
    → l.sorting_criteria ≡ order_always_first
    → (add_node l (new_record d)).elements ≡ new_record d ∷ l.elements
unfolding add_node
add_new-elements d l f = rw f (insert_node-first (new_record d) l.elements)

add_new-IsCache :
    (d : DiskSector) (l : LinkedList CacheSectorRecord)
    → IsCache l
    → Without d.sector_number l
    → IsCache (add_node l (new_record d))
add_new-IsCache d l c w = record {
  once = subst AreOnce (sym (add_new-elements d l c.newest_first)) (w, c.once);
  newest_first = unfold add_node in c.newest_first;
  by_number = unfold add_node in c.by_number;
  counted = add_node-IsCounted l (new_record d) c.counted;
}

put_sectors-Leaves :
    (d : DiskSector) (cache : LinkedList CacheSectorRecord) (max_count : ℕ) (device : Device)
    → IsCache cache
    → 0 < max_count
    → Without d.sector_number cache
    → (c : Cached) × (put_sectors d cache max_count device ≡ some c)
      × Leaves (call_put_sector (view (cache, device)) d) c
unfolding put_sectors registrar_acceso
put_sectors-Leaves d cache max_count device c h w =
    let (room, made, leaves, without) =
      make_room-Leaves cache max_count device d.sector_number c h w in
    (
      (registrar_acceso (add_node room.0 (new_record d)), room.1),
      rw (made, put_sectors) refl,
      (
        registrar_acceso-IsCache (add_node room.0 (new_record d))
            (add_new-IsCache d room.0 leaves.0 without),
        λ n.
            content_in-accessed (add_node room.0 (new_record d)).elements n (room.1 n)
            ∙ ap (λ es. content_in es n (room.1 n))
                (add_new-elements d room.0 leaves.0.newest_first)
            ∙ content_in-new d room.0.elements n (room.1 n)
            ∙ ap (λ x. if n == d.sector_number then d.sector_content else x) (leaves.1 n),
      ),
    )

-- A sector that is put into a cache with room for one record at least is what a reader then sees
-- of it, and of every other sector he sees what he saw.
pub put_in_cache-Leaves :
    (d : DiskSector) (cache : LinkedList CacheSectorRecord) (max_count : ℕ) (device : Device)
    → IsCache cache
    → 0 < max_count
    → (c : Cached) × (put_in_cache d cache max_count device ≡ some c)
      × Leaves (call_put_sector (view (cache, device)) d) c
unfolding put_in_cache
put_in_cache-Leaves d cache max_count device c h =
    elim (Option-cases (overwrite_first d cache.elements)) [
      | inl e ↦
          rw (e, put_in_cache)
            (put_sectors-Leaves d cache max_count device c h
              (overwrite_first-absent d cache.elements e))
      | inr (es, e) ↦
          let o = overwrite_first-present d cache.elements es e in
          (
            _,
            rw (e, put_in_cache) refl,
            (
              record {
                once = o.still_once c.once;
                newest_first = c.newest_first;
                by_number = c.by_number;
                counted = c.counted ∙ sym o.same_length;
              },
              λ n. o.contents n (device n),
            ),
          )
    ]

sector_lem :
    (d : DiskSector) (n : ℕ) (content : List ℕ)
    → d.sector_number ≡ n
    → content ≡ d.sector_content
    → d ≡ record { sector_number = n; sector_content = content }
sector_lem d n content e f = rw (f, sym e)

pub cached_sector-some :
    (r : CacheSectorRecord) (n : ℕ)
    → r.sector.sector_number ≡ n
    → n ≢ 0
    → cached_sector (some r) ≡ some r.sector
unfolding cached_sector
cached_sector-some r n e z = ground (arith, e, z)

-- A sector that a read brings from the device changes nothing that a reader sees.
refill :
    (contents : Device) (n k : ℕ) (other : List ℕ)
    → contents n ≡ other
    → (if k == n then other else contents k) ≡ contents k
refill contents n k other e = elim (Bool-cases (k == n)) [
  | inl f ↦ rw f (sym e ∙ ap contents (sym ((==_iff _ _).0 f)))
  | inr f ↦ rw f
]

module _ (n max_count : ℕ) (cache : LinkedList CacheSectorRecord) (device : Device) where
  pub get_through-miss :
      (c : Cached)
      → find (λ a. a.sector.sector_number == n) (map accessed cache.elements) ≡ none
      → put_in_cache (call_get_sector device n) (registrar_acceso cache) max_count device ≡ some c
      → get_through n max_count (cache, device) ≡ some (call_get_sector device n, c)
  unfolding get_through get_sector get_node_by_criteria registrar_acceso cached_sector serve
  get_through-miss c e put =
      ap (λ o. serve n max_count (registrar_acceso cache, device) (cached_sector o)) e
      ∙ rw (put, serve)

  pub get_through-hit :
      (r : CacheSectorRecord)
      → find (λ a. a.sector.sector_number == n) (map accessed cache.elements) ≡ some r
      → cached_sector (some r) ≡ some r.sector
      → get_through n max_count (cache, device) ≡ some (r.sector, (registrar_acceso cache, device))
  unfolding get_through get_sector get_node_by_criteria registrar_acceso serve
  get_through-hit r e f =
      ap (λ o. serve n max_count (registrar_acceso cache, device) (cached_sector o)) e
      ∙ ap (serve n max_count (registrar_acceso cache, device)) f

-- Through a cache with room for one record at least, a read of any sector but 0 returns what a
-- reader sees of it, and leaves all that he sees as it was.
pub get_through-Leaves :
    (n max_count : ℕ) (cache : LinkedList CacheSectorRecord) (device : Device)
    → IsCache cache
    → 0 < max_count
    → n ≢ 0
    → (c : Cached) × (get_through n max_count (cache, device)
        ≡ some (call_get_sector (view (cache, device)) n, c))
      × Leaves (view (cache, device)) c
unfolding registrar_acceso
get_through-Leaves n max_count cache device c h z =
    elim (Option-cases (find (λ a. a.sector.sector_number == n) (map accessed cache.elements))) [
      | inl e ↦
          let (c', put, leaves) =
            put_in_cache-Leaves (call_get_sector device n) (registrar_acceso cache) max_count device
              (registrar_acceso-IsCache cache c) h in
          let absent : view (cache, device) n ≡ device n =
            sym (content_in-accessed cache.elements n (device n))
            ∙ find_absent (map accessed cache.elements) n e (device n) in
          (
            c',
            get_through-miss n max_count cache device c' e put
                ∙ ap (λ x. some (record { sector_number = n; sector_content = x }, c'))
                    (sym absent),
            (
              leaves.0,
              λ k.
                  leaves.1 k
                  ∙ refill (view (registrar_acceso cache, device)) n k (device n)
                      (find_absent (map accessed cache.elements) n e (device n))
                  ∙ content_in-accessed cache.elements k (device k),
            ),
          )
      | inr (r, e) ↦
          let (number, content) = find_present (map accessed cache.elements) n r e in
          (
            (registrar_acceso cache, device),
            get_through-hit n max_count cache device r e (cached_sector-some r n number z)
                ∙ (ap (λ d. some (d, (registrar_acceso cache, device)))
                    (sector_lem r.sector n (view (cache, device) n) number (
                      sym (content_in-accessed cache.elements n (device n)) ∙ content (device n)))),
            (
              registrar_acceso-IsCache cache c,
              λ k. content_in-accessed cache.elements k (device k),
            ),
          )
    ]
