-- ===== src/Pfs/Files/Content.antt =====
-- What a read of a file gives: the bytes of its clusters, in the order of its chain.
use grage_fat.Base.{
  ℕ, zero, suc, ◌+◌, ◌-◌, ◌*◌, ◌≤◌, ◌<◌, ◌^◌, ◌≡◌, refl, sym, ap, ◌∙◌, false, some, List, [], ◌∷◌,
  ◌++◌, ltb, leb, leb→le, ltb→lt, lt→ltb, Bool-cases, inl, inr, arith, length, take, drop, All, u16,
  copy_from, copy_from-within, take_within, take_beyond, take_of_length, append-nil, if◌then◌else◌,
}
use grage_fat.Pfs.Volume.{Volume}
use grage_fat.Pfs.Cache.{Cached}
use grage_fat.Pfs.Fat.{is_eoc}
use grage_fat.Pfs.Session.{Session, next_in_chain}
use grage_fat.Pfs.Blocks.{Block, get_block}
use grage_fat.Pfs.Blocks.Reading.{
  Sees, IsCluster, block_of, with_caches, next_in_chain-Sees, get_block-Sees, Sees-file,
  length-sectors_from,
}
use grage_fat.Pfs.Files.{nth_cluster, read_loop}
use grage_fat.Pfs.Release.Chain.{Chain}

-- The bytes of the clusters of a chain.
abbrev pub chain_bytes : Volume → (ℕ → List ℕ) → List ℕ → List ℕ
chain_bytes v contents [] = []
chain_bytes v contents (k ∷ ks) = block_of v contents k ++ chain_bytes v contents ks

pub length-block_of :
    (v : Volume) (contents : ℕ → List ℕ) (k : ℕ)
    → IsCluster v contents k
    → length (block_of v contents k) ≡ 4096
length-block_of v contents k i = length-sectors_from v contents _ 8 i.are_data

nth_cluster-step :
    (fuel count n k next : ℕ) (s s' : Session)
    → count < n
    → n < 2 ^ 16
    → next_in_chain k s ≡ some (next, s')
    → nth_cluster (suc fuel) count n k s ≡ nth_cluster fuel (count + 1) n next s'
unfolding nth_cluster
nth_cluster-step fuel count n k next s s' less small got =
    let narrow : u16 (count + 1) ≡ count + 1 = omega (arith, less, small) in
    rw (lt→ltb count n less, got, narrow, nth_cluster)

nth_cluster-end :
    (fuel count n k : ℕ) (s : Session) → n ≤ count → nth_cluster fuel count n k s ≡ some (k, s)
unfolding nth_cluster
nth_cluster-end zero count n k s h =
    let over : ltb count n ≡ false = ground (arith, h) in rw (over, nth_cluster)
nth_cluster-end (suc fuel) count n k s h =
    let over : ltb count n ≡ false = ground (arith, h) in rw (over, nth_cluster)

-- What the loop comes to: a cluster of the chain, with those behind it.
abbrev pub Arrives : Session → (ℕ → List ℕ) → ℕ → ℕ → ℕ → ℕ → List ℕ → Type 0
Arrives s contents fuel count n k ms =
    (c : Cached) × (k' : ℕ) × (ms' : List ℕ) × (nth_cluster fuel count n k s
      ≡ some (k', with_caches s c s.file.cache))
    × Sees (with_caches s c s.file.cache) contents
    × (drop (n - count) (k ∷ ms) ≡ k' ∷ ms')
    × Chain s.fat.volume.rsv contents k' ms'
    × All (IsCluster s.fat.volume contents) (k' ∷ ms')

nth_cluster-here :
    (fuel count n k : ℕ) (ms : List ℕ) (s : Session) (contents : ℕ → List ℕ)
    → Sees s contents
    → Chain s.fat.volume.rsv contents k ms
    → All (IsCluster s.fat.volume contents) (k ∷ ms)
    → n ≤ count
    → Arrives s contents fuel count n k ms
nth_cluster-here fuel count n k ms s contents w ch is done =
    let none_left : n - count ≡ 0 = omega (arith, done) in
    (
      s.fat.cached,
      k,
      ms,
      nth_cluster-end fuel count n k s done,
      w,
      ap (λ i. drop i (k ∷ ms)) none_left,
      ch,
      is,
    )

-- The loop comes to the cluster that lies as many places down the chain as it has rounds.
pub nth_cluster-Arrives :
    (fuel count n k : ℕ) (ms : List ℕ) (s : Session) (contents : ℕ → List ℕ)
    → Sees s contents
    → Chain s.fat.volume.rsv contents k ms
    → All (IsCluster s.fat.volume contents) (k ∷ ms)
    → n < 2 ^ 16
    → n ≤ count + length ms
    → n ≤ count + fuel
    → Arrives s contents fuel count n k ms
nth_cluster-Arrives zero count n k ms s contents w ch is small long enough =
    nth_cluster-here zero count n k ms s contents w ch is (omega (arith, enough))
nth_cluster-Arrives (suc fuel) count n k [] s contents w ch is small long enough =
    nth_cluster-here (suc fuel) count n k [] s contents w ch is (omega (arith, long))
nth_cluster-Arrives (suc fuel) count n k (m ∷ ms) s contents w ch is small long enough =
    elim (Bool-cases (ltb count n)) [
      | inl e ↦
          let less = ltb→lt count n e in
          let (c1, got, w1) = next_in_chain-Sees s contents k w is.0.in_table in
          let (c, k', ms', ran, w', place, ch', is') =
            nth_cluster-Arrives fuel (count + 1) n m ms (with_caches s c1 s.file.cache) contents w1
              ch.2 is.1 small (omega (arith, long)) (omega (arith, enough)) in
          let one : n - count ≡ suc (n - (count + 1)) = omega (arith, less) in
          (
            c,
            k',
            ms',
            nth_cluster-step fuel count n k m s (with_caches s c1 s.file.cache) less small
                  (got ∙ ap (λ x. some (x, with_caches s c1 s.file.cache)) ch.0)
                ∙ ran,
            w',
            ap (λ i. drop i (k ∷ m ∷ ms)) one ∙ place,
            ch',
            is',
          )
      | inr e ↦
          nth_cluster-here (suc fuel) count n k (m ∷ ms) s contents w ch is (ground (arith, e))
    ]

-- What one round of the reading loop takes, and what is left for the others.
take_round :
    (xs ys : List ℕ) (left : ℕ)
    → length xs ≡ 4096
    → take (if leb left 4096 then left else 4096) xs
        ++ take (left - (if leb left 4096 then left else 4096)) ys
      ≡ take left (xs ++ ys)
take_round xs ys left h = elim (Bool-cases (leb left 4096)) [
  | inl e ↦
      let nothing : left - left ≡ 0 = omega arith in
      rw (e, nothing, append-nil)
        (sym (take_within left xs ys (omega (arith, leb→le left 4096 e, h))))
  | inr e ↦
      let past : 4096 < left = ground (arith, e) in
      rw e (
        ap (λ zs. zs ++ take (left - 4096) ys) (take_of_length 4096 xs (omega (arith, h)))
        ∙ ap (λ i. xs ++ take (left - i) ys) (sym h)
        ∙ sym (take_beyond left xs ys (omega (arith, past, h))))
]

read_loop-step :
    (fuel k left n next : ℕ) (s s1 s2 s3 : Session) (block : Block) (bytes rest : List ℕ)
    → is_eoc k ≡ false
    → next_in_chain k s ≡ some (next, s1)
    → get_block next s1 ≡ some (block, s2)
    → n ≡ (if leb (suc left) s2.fat.volume.bpc then suc left else s2.fat.volume.bpc)
    → copy_from block.content 0 n ≡ some bytes
    → read_loop fuel next (suc left - n) s2 ≡ some (rest, s3)
    → read_loop (suc fuel) k (suc left) s ≡ some (bytes ++ rest, s3)
unfolding read_loop
read_loop-step fuel k left n next s s1 s2 s3 block bytes rest eoc got blk size read more =
    rw (eoc, got, blk, ← size, read, more, read_loop)

read_loop-end :
    (fuel k : ℕ) (s : Session)
    → read_loop fuel k 0 s
      ≡ some ([], record s { file = record (s.file) { file_absolute_cluster_number_read = k } })
unfolding read_loop
read_loop-end zero k s = refl
read_loop-end (suc fuel) k s = refl

-- The loop reads what is left from the clusters behind the one that was read last, and what the
-- process sees stays the same.
pub read_loop-Sees :
    (fuel left k : ℕ) (ms : List ℕ) (s : Session) (contents : ℕ → List ℕ)
    → Sees s contents
    → s.fat.volume.bpc ≡ 4096
    → Chain s.fat.volume.rsv contents k ms
    → All (IsCluster s.fat.volume contents) (k ∷ ms)
    → left ≤ length ms * 4096
    → left ≤ fuel
    → (s' : Session) × (read_loop fuel k left s
        ≡ some (take left (chain_bytes s.fat.volume contents ms), s'))
      × Sees s' contents
read_loop-Sees fuel zero k ms s contents w b ch is long enough = (
  record s { file = record (s.file) { file_absolute_cluster_number_read = k } },
  read_loop-end fuel k s,
  Sees-file s contents (record (s.file) { file_absolute_cluster_number_read = k }) refl w,
)
read_loop-Sees fuel (suc left) k [] s contents w b ch is long enough = absurd (omega (arith, long))
read_loop-Sees zero (suc left) k (m ∷ ms) s contents w b ch is long enough =
    absurd (omega (arith, enough))
read_loop-Sees (suc fuel) (suc left) k (m ∷ ms) s contents w b ch is long enough =
    let v = s.fat.volume in
    let n = if leb (suc left) 4096 then suc left else 4096 in
    let bounds : (1 ≤ n) × (n ≤ 4096) × (suc left - n ≤ length ms * 4096) = ground (arith, long) in
    let (c1, got, w1) = next_in_chain-Sees s contents k w is.0.in_table in
    let s1 = with_caches s c1 s.file.cache in
    let (c2, fc2, blk, w2) = get_block-Sees s1 contents m w1 is.1.0 in
    let s2 = with_caches s1 c2 fc2 in
    let (s3, rest, w3) =
      read_loop-Sees fuel (suc left - n) m ms s2 contents w2 b ch.2 is.1 bounds.2
        (omega (arith, enough, bounds.0)) in
    let size = length-block_of v contents m is.1.0 in
    (
      s3,
      read_loop-step fuel k left n m s s1 s2 s3 _ (take n (block_of v contents m))
            (take (suc left - n) (chain_bytes v contents ms)) is.0.not_end
            (got ∙ ap (λ x. some (x, s1)) ch.0) blk
            (ap (λ x. if leb (suc left) x then suc left else x) (sym b))
            (copy_from-within (block_of v contents m) 0 n (omega (arith, size, bounds.1))) rest
          ∙ ap (λ xs. some (xs, s3))
              (take_round (block_of v contents m) (chain_bytes v contents ms) (suc left) size),
      w3,
    )
