-- ===== src/Pfs/Release/Chain.antt =====
-- `pfs_fat32_unlink` gives back the whole chain of a file.
use grage_fat.Base.{
  ℕ, zero, suc, ◌+◌, ◌*◌, ◌/◌, ◌%◌, ◌<◌, ◌≡◌, ◌≢◌, refl, sym, ap, subst, ◌∙◌, Bool, true, false,
  not, some, List, [], ◌∷◌, Bool-cases, inl, inr, arith, length, All, u32,
}
use grage_fat.Pfs.Volume.{Volume, get_fat_entry_sector, get_fat_entry_offset}
use grage_fat.Pfs.Cache.{Cached}
use grage_fat.Pfs.Cache.Coherence.{view}
use grage_fat.Pfs.Fat.{is_eoc}
use grage_fat.Pfs.Fat.Chains.{entry_at}
use grage_fat.Pfs.Fat.Table.{
  fat_entry, IsFat, InTable, IsFat-Leaves, next_in_chain-Leaves, replace_entry-Leaves,
}
use grage_fat.Pfs.Session.{Session, FatFile, with_cached, next_in_chain}
use grage_fat.Pfs.Release.{replace_entry, unlink_fat_entry_chain, unlink_chain}

-- Behind the cluster `k` come those of the list, and then the end of the chain.
abbrev pub Chain : ℕ → (ℕ → List ℕ) → ℕ → List ℕ → Type 0
Chain rsv contents k [] = is_eoc (fat_entry rsv contents k) ≡ true
Chain rsv contents k (m ∷ ms) =
    (fat_entry rsv contents k ≡ m) × (is_eoc m ≡ false) × Chain rsv contents m ms

abbrev pub Once : List ℕ → Type 0
Once [] = Unit
Once (k ∷ ks) = All (λ j. j ≢ k) ks × Once ks

pub Chain-same :
    (rsv : ℕ) (contents contents' : ℕ → List ℕ) (k : ℕ) (ms : List ℕ)
    → Chain rsv contents k ms
    → All (λ j. fat_entry rsv contents' j ≡ fat_entry rsv contents j) (k ∷ ms)
    → Chain rsv contents' k ms
Chain-same rsv contents contents' k [] c same = ap is_eoc same.0 ∙ c
Chain-same rsv contents contents' k (m ∷ ms) c same =
    (same.0 ∙ c.0, c.1, Chain-same rsv contents contents' m ms c.2 same.1)

pub fat_entry-same :
    (rsv : ℕ) (contents contents' : ℕ → List ℕ) (k : ℕ)
    → ((n : ℕ) → contents' n ≡ contents n)
    → fat_entry rsv contents' k ≡ fat_entry rsv contents k
fat_entry-same rsv contents contents' k e = ap (λ xs. entry_at xs (k % 128 * 4)) (e (rsv + k / 128))

-- One cluster of a file is given back.
abbrev freed : Volume → Volume
freed v = record v { free_cluster_count = u32 (v.free_cluster_count + 1) }

abbrev released : Session → Cached → Session
released s c = record s { fat = record (s.fat) { volume = freed s.fat.volume; cached = c } }

abbrev moved_on : Bool → ℕ → FatFile → FatFile
moved_on true next f = f
moved_on false next f = record f { next_cluster = next }

unlink_fat_entry_chain-some :
    (s : Session) (e : ℕ) (c1 c2 : Cached)
    → next_in_chain s.file.next_cluster s ≡ some (e, with_cached s c1)
    → replace_entry
        (get_fat_entry_sector s.fat.volume s.file.next_cluster)
        (get_fat_entry_offset s.fat.volume s.file.next_cluster)
        0
        (with_cached s c1)
      ≡ some (e, with_cached s c2)
    → unlink_fat_entry_chain s
      ≡ some (not (is_eoc e), record (released s c2) { file = moved_on (is_eoc e) e s.file })
unfolding unlink_fat_entry_chain
unlink_fat_entry_chain-some s e c1 c2 next replaced = elim (Bool-cases (is_eoc e)) [
  | inl b ↦ rw (next, replaced, b)
  | inr b ↦ rw (next, replaced, b)
]

IsFat-counted :
    (v : Volume) (n : ℕ) (c : Cached) → IsFat v c → IsFat (record v { free_cluster_count = n }) c
IsFat-counted v n c f = record {
  is_cache = f.is_cache;
  bytes_per_sector = f.bytes_per_sector;
  reserved = f.reserved;
  no_wrap = f.no_wrap;
  whole = f.whole;
}

unlink_fat_entry_chain-Frees :
    (s : Session)
    → 0 < s.sizes.fat_max_count
    → IsFat s.fat.volume s.fat.cached
    → InTable s.fat.volume s.file.next_cluster
    → (c : Cached) × (unlink_fat_entry_chain s
        ≡ some (
          not (is_eoc (fat_entry s.fat.volume.rsv (view s.fat.cached) s.file.next_cluster)),
          record (released s c) {
            file =
                moved_on
                  (is_eoc (fat_entry s.fat.volume.rsv (view s.fat.cached) s.file.next_cluster))
                  (fat_entry s.fat.volume.rsv (view s.fat.cached) s.file.next_cluster)
                  s.file;
          },
        ))
      × IsFat (freed s.fat.volume) c
      × (fat_entry s.fat.volume.rsv (view c) s.file.next_cluster ≡ 0)
      × ((j : ℕ)
          → InTable s.fat.volume j
          → j ≢ s.file.next_cluster
          → fat_entry s.fat.volume.rsv (view c) j
            ≡ fat_entry s.fat.volume.rsv (view s.fat.cached) j)
unlink_fat_entry_chain-Frees s room f t =
    let v = s.fat.volume in
    let k = s.file.next_cluster in
    let (c1, next, l1) = next_in_chain-Leaves s room f k t in
    let (c2, replaced, f2, zeroed, others) =
      replace_entry-Leaves (with_cached s c1) room (IsFat-Leaves v s.fat.cached c1 f l1) k 0 t
        (omega arith) in
    let same : (j : ℕ) → fat_entry v.rsv (view c1) j ≡ fat_entry v.rsv (view s.fat.cached) j =
      λ j. fat_entry-same v.rsv (view s.fat.cached) (view c1) j l1.1 in
    (
      c2,
      unlink_fat_entry_chain-some s _ c1 c2 next
          (replaced ∙ ap (λ e. some (e, with_cached s c2)) (same k)),
      IsFat-counted v _ c2 f2,
      zeroed,
      λ j u other. others j u other ∙ same j,
    )

-- What is left where the clusters of a list are given back: their entries are free, they are
-- counted, and no other entry has changed.
pub record AreFreed (v : Volume) (contents : ℕ → List ℕ) (ks : List ℕ) (s : Session) : Type 0 where
  pub counted :
      s.fat.volume ≡ record v { free_cluster_count = u32 (v.free_cluster_count + length ks) }
  pub is_fat : IsFat v s.fat.cached
  pub free : All (λ k. fat_entry v.rsv (view s.fat.cached) k ≡ 0) ks
  pub others :
      (j : ℕ)
      → InTable v j
      → All (λ k. k ≢ j) ks
      → fat_entry v.rsv (view s.fat.cached) j ≡ fat_entry v.rsv contents j

unlink_chain-one :
    (fuel : ℕ) (s s' : Session)
    → unlink_fat_entry_chain s ≡ some (false, s')
    → unlink_chain (suc fuel) s ≡ some (tt, s')
unfolding unlink_chain
unlink_chain-one fuel s s' e = rw (e, unlink_chain)

unlink_chain-more :
    (fuel : ℕ) (s s' : Session)
    → unlink_fat_entry_chain s ≡ some (true, s')
    → unlink_chain (suc fuel) s ≡ unlink_chain fuel s'
unfolding unlink_chain
unlink_chain-more fuel s s' e = rw (e, unlink_chain)

All-kept :
    (v : Volume) (c : Cached) (old : ℕ → List ℕ) (k : ℕ) (ms : List ℕ)
    → ((j : ℕ) → InTable v j → j ≢ k → fat_entry v.rsv (view c) j ≡ fat_entry v.rsv old j)
    → All (InTable v) ms
    → All (λ j. j ≢ k) ms
    → All (λ j. fat_entry v.rsv (view c) j ≡ fat_entry v.rsv old j) ms
All-kept v c old k [] kept t away = tt
All-kept v c old k (m ∷ ms) kept t away = (kept m t.0 away.0, All-kept v c old k ms kept t.1 away.1)

count_more : (n m : ℕ) → u32 (u32 (n + 1) + suc m) ≡ u32 (n + suc (suc m))
count_more n m = omega arith

-- The chain of a file is given back, cluster by cluster, and the loop ends with the chain: it takes
-- as many rounds as the chain has clusters.
pub unlink_chain-AreFreed :
    (fuel : ℕ) (s : Session) (k : ℕ) (ms : List ℕ)
    → k ≡ s.file.next_cluster
    → 0 < s.sizes.fat_max_count
    → IsFat s.fat.volume s.fat.cached
    → Chain s.fat.volume.rsv (view s.fat.cached) k ms
    → All (InTable s.fat.volume) (k ∷ ms)
    → Once (k ∷ ms)
    → length ms < fuel
    → (s' : Session) × (unlink_chain fuel s ≡ some (tt, s'))
      × AreFreed s.fat.volume (view s.fat.cached) (k ∷ ms) s'
unlink_chain-AreFreed zero s k ms q room f c t once enough = absurd (omega (arith, enough))
unlink_chain-AreFreed (suc fuel) s k [] q room f c t once enough =
    let v = s.fat.volume in
    let (c2, step, f2, zeroed, others) =
      unlink_fat_entry_chain-Frees s room f (subst (InTable v) q t.0) in
    let last : is_eoc (fat_entry v.rsv (view s.fat.cached) s.file.next_cluster) ≡ true =
      ap (λ x. is_eoc (fat_entry v.rsv (view s.fat.cached) x)) (sym q) ∙ c in
    (
      released s c2,
      unlink_chain-one fuel s (released s c2) (
          step
          ∙ ap
              (λ b. some (
                not b,
                record (released s c2) {
                  file =
                      moved_on b (fat_entry v.rsv (view s.fat.cached) s.file.next_cluster) s.file;
                },
              ))
              last),
      record {
        counted = refl;
        is_fat = IsFat-counted (freed v) v.free_cluster_count c2 f2;
        free = (ap (fat_entry v.rsv (view c2)) q ∙ zeroed, tt);
        others = λ j u away. others j u (λ e. away.0 (q ∙ sym e));
      },
    )
unlink_chain-AreFreed (suc fuel) s k (m ∷ ms) q room f c t once enough =
    let v = s.fat.volume in
    let old = view s.fat.cached in
    let e = fat_entry v.rsv old s.file.next_cluster in
    let (c2, step, f2, zeroed, others) =
      unlink_fat_entry_chain-Frees s room f (subst (InTable v) q t.0) in
    let link : e ≡ m = ap (fat_entry v.rsv old) (sym q) ∙ c.0 in
    let goes_on : is_eoc e ≡ false = ap is_eoc link ∙ c.1 in
    let s1 : Session = record (released s c2) { file = record (s.file) { next_cluster = e } } in
    let stepped : unlink_fat_entry_chain s ≡ some (true, s1) =
      step
      ∙ ap (λ b. some (not b, record (released s c2) { file = moved_on b e s.file })) goes_on in
    let kept : (j : ℕ) → InTable v j → j ≢ k → fat_entry v.rsv (view c2) j ≡ fat_entry v.rsv old j =
      λ j u away. others j u (λ x. away (x ∙ sym q)) in
    let (s', ran, freed_rest) =
      unlink_chain-AreFreed fuel s1 m ms (sym link) room f2
        (Chain-same v.rsv old (view c2) m ms c.2 (All-kept v c2 old k (m ∷ ms) kept t.1 once.0)) t.1
        once.1 (omega (arith, enough)) in
    (
      s',
      unlink_chain-more fuel s s1 stepped ∙ ran,
      record {
        counted =
            freed_rest.counted
            ∙ ap (λ n. record v { free_cluster_count = n })
                (count_more v.free_cluster_count (length ms));
        is_fat = IsFat-counted (freed v) v.free_cluster_count s'.fat.cached freed_rest.is_fat;
        free = (
          freed_rest.others k t.0 once.0 ∙ ap (fat_entry v.rsv (view c2)) q ∙ zeroed,
          freed_rest.free,
        );
        others = λ j u away. freed_rest.others j u away.1 ∙ kept j u (λ x. away.0 (sym x));
      },
    )
