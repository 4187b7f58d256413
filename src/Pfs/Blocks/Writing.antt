-- ===== src/Pfs/Blocks/Writing.antt =====
-- What the process sees once a block is written: the eight sectors of the cluster have its bytes.
use grage_fat.Base.{
  ℕ, zero, suc, ◌+◌, ◌-◌, ◌*◌, ◌≤◌, ◌<◌, ◌≡◌, ◌≢◌, refl, sym, ap, ap₂, ◌∙◌, true, false, some, List,
  [], ◌∷◌, ◌++◌, ◌==◌, ==_iff, ==_other, if◌then◌else◌, inl, inr, ◌⊎◌, arith, length, take, drop,
  u16, u32, copy_from-within, take-append-drop, leb→le, drop-drop, length-drop, length-take,
  Bool-cases,
}
use grage_fat.Pfs.Volume.{Volume, get_first_sector_of_cluster}
use grage_fat.Pfs.Cache.{Cached, is_fat_sector_reserved}
use grage_fat.Pfs.Cache.Records.{content_in}
use grage_fat.Pfs.Session.{Session, with_cached}
use grage_fat.Pfs.Blocks.{Block, put_device_sectors, put_block, is_cached, choose}
use grage_fat.Pfs.Blocks.Reading.{
  Sees, SeesData, AreData, IsCluster, sectors_from, IsFat-device, is_cached-off,
}

abbrev pub sector_at : (ℕ → List ℕ) → ℕ → List ℕ → ℕ → List ℕ
sector_at contents n bytes m = if m == n then bytes else contents m

-- Contents in which the bytes are stored from a sector on, 512 in each.
abbrev pub stored : (ℕ → List ℕ) → ℕ → ℕ → List ℕ → ℕ → List ℕ
stored contents n zero bytes = contents
stored contents n (suc left) bytes =
    stored (sector_at contents n (take 512 bytes)) (n + 1) left (drop 512 bytes)

stored-same :
    (left : ℕ) (contents contents' : ℕ → List ℕ) (n : ℕ) (bytes : List ℕ) (m : ℕ)
    → contents m ≡ contents' m
    → stored contents n left bytes m ≡ stored contents' n left bytes m
stored-same zero contents contents' n bytes m e = e
stored-same (suc left) contents contents' n bytes m e =
    stored-same left (sector_at contents n (take 512 bytes))
      (sector_at contents' n (take 512 bytes)) (n + 1) (drop 512 bytes) m
      (ap (λ xs. if m == n then take 512 bytes else xs) e)

-- No other sector changes.
abbrev pub IsOutside : ℕ → ℕ → ℕ → Type 0
IsOutside n left m = (m < n) ⊎ (n + left ≤ m)

pub stored-outside :
    (left : ℕ) (contents : ℕ → List ℕ) (n : ℕ) (bytes : List ℕ) (m : ℕ)
    → IsOutside n left m
    → stored contents n left bytes m ≡ contents m
stored-outside zero contents n bytes m away = refl
stored-outside (suc left) contents n bytes m away =
    let other : (m == n) ≡ false = ==_other m n (apart away) in
    stored-outside left (sector_at contents n (take 512 bytes)) (n + 1) (drop 512 bytes) m
      (later away)
    ∙ ap (λ b. if b then take 512 bytes else contents m) other
  where
    later : IsOutside n (suc left) m → IsOutside (n + 1) left m
    later (inl lt) = inl (omega (arith, lt))
    later (inr ge) = inr (omega (arith, ge))

    apart : IsOutside n (suc left) m → m ≢ n
    apart (inl lt) e = omega (arith, lt, e)
    apart (inr ge) e = omega (arith, ge, e)

pub sector_at-same :
    (contents : ℕ → List ℕ) (n : ℕ) (bytes : List ℕ) → sector_at contents n bytes n ≡ bytes
sector_at-same contents n bytes = let same = (==_iff n n).1 refl in rw same

pub stored-inside :
    (left : ℕ) (contents : ℕ → List ℕ) (n : ℕ) (bytes : List ℕ)
    → length bytes ≡ left * 512
    → sectors_from (stored contents n left bytes) n left ≡ bytes
stored-inside zero contents n [] whole = refl
stored-inside zero contents n (x ∷ bytes) whole = absurd (omega (arith, whole))
stored-inside (suc left) contents n bytes whole =
    let after = sector_at contents n (take 512 bytes) in
    ap₂ (λ xs ys. xs ++ ys)
      (stored-outside left after (n + 1) (drop 512 bytes) n (inl (omega arith))
        ∙ sector_at-same contents n (take 512 bytes))
      (stored-inside left after (n + 1) (drop 512 bytes)
        (omega (arith, length-drop 512 bytes, whole)))
    ∙ take-append-drop 512 bytes

-- Sectors that are whole stay whole.
stored-whole :
    (left : ℕ) (contents : ℕ → List ℕ) (n : ℕ) (bytes : List ℕ) (m : ℕ)
    → length bytes ≡ left * 512
    → length (contents m) ≡ 512
    → length (stored contents n left bytes m) ≡ 512
stored-whole zero contents n bytes m long whole = whole
stored-whole (suc left) contents n bytes m long whole =
    stored-whole left (sector_at contents n (take 512 bytes)) (n + 1) (drop 512 bytes) m
      (omega (arith, length-drop 512 bytes, long))
      (elim (Bool-cases (m == n)) [
        | inl e ↦ rw e (omega (arith, length-take 512 bytes, long))
        | inr e ↦ rw e whole
      ])

AreData-whole :
    (v : Volume) (contents contents' : ℕ → List ℕ) (n left : ℕ)
    → ((m : ℕ) → length (contents m) ≡ 512 → length (contents' m) ≡ 512)
    → AreData v contents n left
    → AreData v contents' n left
AreData-whole v contents contents' n zero whole d = tt
AreData-whole v contents contents' n (suc left) whole d =
    (d.0, d.1, d.2, whole n d.3, AreData-whole v contents contents' (n + 1) left whole d.4)

-- What is a cluster stays one.
pub IsCluster-stored :
    (v : Volume) (contents : ℕ → List ℕ) (n : ℕ) (bytes : List ℕ) (k : ℕ)
    → length bytes ≡ 4096
    → IsCluster v contents k
    → IsCluster v (stored contents n 8 bytes) k
IsCluster-stored v contents n bytes k long i = record {
  in_table = i.in_table;
  not_root = i.not_root;
  not_end = i.not_end;
  no_wrap = i.no_wrap;
  are_data =
      AreData-whole v contents (stored contents n 8 bytes) (get_first_sector_of_cluster v k) 8
        (λ m whole. stored-whole 8 contents n bytes m long whole) i.are_data;
}

-- The loop over the sectors leaves them in the device.
put_device_sectors-stored :
    (left n offset : ℕ) (block : Block) (s : Session)
    → length block.content ≡ 4096
    → offset + left * 512 ≤ 4096
    → put_device_sectors left n offset block s
      ≡ some (
        tt,
        with_cached s (s.fat.cached.0, stored s.fat.cached.1 n left (drop offset block.content)),
      )
unfolding put_device_sectors
put_device_sectors-stored zero n offset block s whole fits = refl
put_device_sectors-stored (suc left) n offset block s whole fits =
    let narrow : u16 (offset + 512) ≡ offset + 512 = omega (arith, fits) in
    let got = copy_from-within block.content offset 512 (omega (arith, fits, whole)) in
    let device = sector_at s.fat.cached.1 n (take 512 (drop offset block.content)) in
    let rest =
      put_device_sectors-stored left (n + 1) (offset + 512) block
        (with_cached s (s.fat.cached.0, device)) whole (omega (arith, fits)) in
    rw (got, narrow, rest, put_device_sectors)
      (ap (λ xs. some (tt, with_cached s (s.fat.cached.0, stored device (n + 1) left xs)))
        (sym (drop-drop 512 offset block.content)))

put_block-off :
    (s s' : Session) (block : Block)
    → is_cached block.id s ≡ false
    → u32 (get_first_sector_of_cluster s.fat.volume block.id + 8)
        - get_first_sector_of_cluster s.fat.volume block.id
      ≡ 8
    → put_device_sectors 8 (get_first_sector_of_cluster s.fat.volume block.id) 0 block s
      ≡ some (tt, s')
    → put_block block s ≡ some (tt, s')
unfolding put_block
put_block-off s s' block off rounds put = rw (off, rounds, put, put_block, choose)

-- A cluster's sectors lie behind the FAT.
pub cluster-IsOutside :
    (v : Volume) (contents : ℕ → List ℕ) (k n : ℕ)
    → IsCluster v contents k
    → is_fat_sector_reserved v n ≡ true
    → IsOutside (get_first_sector_of_cluster v k) 8 n
unfolding is_fat_sector_reserved
cluster-IsOutside v contents k n i r =
    let here : v.rsv + v.fat_size < get_first_sector_of_cluster v k =
      ground (arith, i.are_data.0) in
    inl (omega (arith, leb→le n (v.rsv + v.fat_size) r, here))

-- Without caches, a block that is put has its bytes in the sectors of its cluster, and the process
-- sees no other change.
pub put_block-Sees :
    (s : Session) (contents : ℕ → List ℕ) (block : Block)
    → Sees s contents
    → s.sizes.cache_habilitada ≡ false
    → IsCluster s.fat.volume contents block.id
    → length block.content ≡ 4096
    → (c : Cached) × (put_block block s ≡ some (tt, with_cached s c))
      × Sees
          (with_cached s c)
          (stored contents (get_first_sector_of_cluster s.fat.volume block.id) 8 block.content)
put_block-Sees s contents block w off i whole =
    let v = s.fat.volume in
    let first = get_first_sector_of_cluster v block.id in
    let device = s.fat.cached.1 in
    let device' = stored device first 8 block.content in
    let rounds : u32 (first + 8) - first ≡ 8 = omega (arith, i.no_wrap) in
    let kept : (n : ℕ) → is_fat_sector_reserved v n ≡ true → device' n ≡ device n = λ n r.
      stored-outside 8 device first block.content n (cluster-IsOutside v contents block.id n i r) in
    (
      (s.fat.cached.0, device'),
      put_block-off s _ block (is_cached-off s block.id off) rounds
          (put_device_sectors-stored 8 first 0 block s whole (omega arith)),
      record {
        is_fat = IsFat-device v s.fat.cached.0 device device' w.is_fat kept;
        room = w.room;
        held = w.held;
        fat_seen = λ n r.
            ap (content_in s.fat.cached.0.elements n) (kept n r)
            ∙ w.fat_seen n r
            ∙ sym (
                stored-outside 8 contents first block.content n
                  (cluster-IsOutside v contents block.id n i r));
        data_seen = inr (record {
          off = off;
          seen =
              λ n r. stored-same 8 device contents first block.content n (seen_off w.data_seen n r);
        });
      },
    )
  where
    seen_off :
        SeesData s contents
        → (n : ℕ) → is_fat_sector_reserved s.fat.volume n ≡ false
        → s.fat.cached.1 n ≡ contents n
    seen_off (inl (cache, o)) = absurd (on_off o.on)
      where
        on_off : s.sizes.cache_habilitada ≡ true → ⊥
        on_off on = cc
    seen_off (inr o) = o.seen
