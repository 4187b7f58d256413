-- ===== src/Pfs/Files/FirstRead.antt =====
-- The first read of an open file, from any place that is not the start of a later cluster.
use grage_fat.Base.{
  ==_iff, Option, ◌==◌, ℕ, zero, suc, ◌+◌, ◌-◌, ◌*◌, ◌≤◌, ◌<◌, ◌^◌, ◌≡◌, refl, sym, ap, ap₂, ◌∙◌,
  true, false, some, List, [], ◌∷◌, ◌++◌, leb, leb→le, Bool-cases, inl, inr, arith, length, take,
  drop, All, copy_from, copy_from-within, take_within, take_beyond, drop_within, drop_beyond,
  take_of_length, length-drop, drop-drop,
}
use grage_fat.Pfs.Volume.{Volume}
use grage_fat.Pfs.DirEntry.{get_first_cluster}
use grage_fat.Pfs.Session.{Session}
use grage_fat.Pfs.Blocks.{Block, get_block}
use grage_fat.Pfs.Blocks.Reading.{Sees, IsCluster, block_of, with_caches, get_block-Sees, Sees-file}
use grage_fat.Pfs.Files.{nth_cluster, read_loop, first_block_read, read_from, read}
use grage_fat.Pfs.Files.Content.{chain_bytes, length-block_of, nth_cluster-Arrives, read_loop-Sees}
use grage_fat.Pfs.Release.Chain.{Chain}

-- The bytes from a place on, counted in clusters.
drop-chain_bytes :
    (v : Volume) (contents : ℕ → List ℕ) (q : ℕ) (ks : List ℕ)
    → All (IsCluster v contents) ks
    → drop (q * 4096) (chain_bytes v contents ks) ≡ chain_bytes v contents (drop q ks)
drop-chain_bytes v contents zero ks is = refl
drop-chain_bytes v contents (suc q) [] is = drop_nil (suc q * 4096)
  where
    drop_nil : (k : ℕ) → drop {A = ℕ} k [] ≡ []
    drop_nil zero = refl
    drop_nil (suc k) = refl
drop-chain_bytes v contents (suc q) (k ∷ ks) is =
    let size = length-block_of v contents k is.0 in
    let less : suc q * 4096 - length (block_of v contents k) ≡ q * 4096 = omega (arith, size) in
    drop_beyond (suc q * 4096) (block_of v contents k) (chain_bytes v contents ks)
      (omega (arith, size))
    ∙ ap (λ i. drop i (chain_bytes v contents ks)) less
    ∙ drop-chain_bytes v contents q ks is.1

pub read-short :
    (block : Block) (size : ℕ) (s : Session) (bytes : List ℕ)
    → leb (s.file.file_cluster_offset + size) s.fat.volume.bpc ≡ true
    → copy_from block.content s.file.file_cluster_offset size ≡ some bytes
    → read_from block size s ≡ some (bytes, s)
unfolding read_from
read-short block size s bytes within got = rw (within, got, read_from)

read-long :
    (block : Block) (size : ℕ) (s s' : Session) (bytes rest : List ℕ)
    → leb (s.file.file_cluster_offset + size) s.fat.volume.bpc ≡ false
    → copy_from block.content s.file.file_cluster_offset
        (s.fat.volume.bpc - s.file.file_cluster_offset)
      ≡ some bytes
    → read_loop size s.file.file_absolute_cluster_number_read
        (size - (s.fat.volume.bpc - s.file.file_cluster_offset))
        s
      ≡ some (rest, s')
    → read_from block size s ≡ some (bytes ++ rest, s')
unfolding read_from
read-long block size s s' bytes rest past got more = rw (past, got, more, read_from)

-- The block that a file's first read starts with.
first_block_read-some :
    (stale block : Block) (k : ℕ) (s s1 s2 : Session)
    → (s.file.file_absolute_cluster_number_read == 0) ≡ true
    → nth_cluster s.file.file_cluster_number 1 s.file.file_cluster_number
        (get_first_cluster (some s.file.short_entry))
        s
      ≡ some (k, s1)
    → get_block k (record s1 { file = record (s1.file) { file_absolute_cluster_number_read = k } })
      ≡ some (block, s2)
    → first_block_read stale s ≡ some (block, s2)
unfolding first_block_read
first_block_read-some stale block k s s1 s2 first nth got = rw (first, nth, got, first_block_read)

-- What is read from a place within the first block, and from the blocks behind it.
read_from-Sees :
    (s : Session) (contents : ℕ → List ℕ) (k : ℕ) (ms : List ℕ) (size : ℕ)
    → Sees s contents
    → s.fat.volume.bpc ≡ 4096
    → s.file.file_absolute_cluster_number_read ≡ k
    → Chain s.fat.volume.rsv contents k ms
    → All (IsCluster s.fat.volume contents) (k ∷ ms)
    → s.file.file_cluster_offset < 4096
    → s.file.file_cluster_offset + size ≤ length (k ∷ ms) * 4096
    → (s' : Session) × (read_from
          (record { id = k; content = block_of s.fat.volume contents k })
          size
          s
        ≡ some (
          take size (drop s.file.file_cluster_offset (chain_bytes s.fat.volume contents (k ∷ ms))),
          s',
        ))
      × Sees s' contents
read_from-Sees s contents k ms size w b q ch is below long =
    let v = s.fat.volume in
    let r = s.file.file_cluster_offset in
    let xs = block_of v contents k in
    let rest = chain_bytes v contents ms in
    let block : Block = record { id = k; content = xs } in
    let size_of : length xs ≡ 4096 = length-block_of v contents k is.0 in
    let split : drop r (xs ++ rest) ≡ drop r xs ++ rest =
      drop_within r xs rest (omega (arith, size_of, below)) in
    let left_of : length (drop r xs) ≡ 4096 - r = omega (arith, length-drop r xs, size_of) in
    elim (Bool-cases (leb (r + size) 4096)) [
      | inl e ↦
          let within = leb→le (r + size) 4096 e in
          (
            s,
            read-short block size s (take size (drop r xs)) (ap (leb (r + size)) b ∙ e)
                  (copy_from-within xs r size (omega (arith, size_of, within)))
                ∙ ap (λ ys. some (ys, s))
                    (sym (take_within size (drop r xs) rest (omega (arith, left_of, within)))
                      ∙ ap (take size) (sym split)),
            w,
          )
      | inr e ↦
          let past : 4096 < r + size = ground (arith, e) in
          let (s', ran, w') =
            read_loop-Sees size (size - (4096 - r)) k ms s contents w b ch is
              (omega (arith, long, past, below)) (omega arith) in
          let here : copy_from xs r (4096 - r) ≡ some (drop r xs) =
            copy_from-within xs r (4096 - r) (omega (arith, size_of, below))
            ∙ ap some (take_of_length (4096 - r) (drop r xs) (omega (arith, left_of))) in
          (
            s',
            read-long block size s s' (drop r xs) (take (size - (4096 - r)) rest)
                  (ap (leb (r + size)) b ∙ e) (ap (λ x. copy_from xs r (x - r)) b ∙ here)
                  (ap₂ (λ i x. read_loop size i (size - (x - r)) s) q b ∙ ran)
                ∙ ap (λ ys. some (ys, s'))
                    (ap (λ i. drop r xs ++ take (size - i) rest) (sym left_of)
                      ∙ sym
                          (take_beyond size (drop r xs) rest (omega (arith, left_of, past, below)))
                      ∙ ap (take size) (sym split)),
            w',
          )
    ]

pub read-some :
    (stale block : Block) (size : ℕ) (s s' : Session) (r : Option (List ℕ × Session))
    → first_block_read stale s ≡ some (block, s')
    → read_from block size s' ≡ r
    → read stale size s ≡ r
unfolding read
read-some stale block size s s' r first got = rw (first, read) got

-- The first read of an open file, wherever the seek has led: the bytes of its chain from there.
pub read-Sees :
    (s : Session) (contents : ℕ → List ℕ) (stale : Block) (k : ℕ) (ms : List ℕ) (q size : ℕ)
    → Sees s contents
    → s.fat.volume.bpc ≡ 4096
    → s.file.file_absolute_cluster_number_read ≡ 0
    → get_first_cluster (some s.file.short_entry) ≡ k
    → Chain s.fat.volume.rsv contents k ms
    → All (IsCluster s.fat.volume contents) (k ∷ ms)
    → s.file.file_cluster_number - 1 ≡ q
    → s.file.file_cluster_number < 2 ^ 16
    → s.file.file_cluster_offset < 4096
    → q * 4096 + s.file.file_cluster_offset + size ≤ length (k ∷ ms) * 4096
    → 0 < size
    → (s' : Session) × (read stale size s
        ≡ some (
          take size (
              drop
                (q * 4096 + s.file.file_cluster_offset)
                (chain_bytes s.fat.volume contents (k ∷ ms))),
          s',
        ))
      × Sees s' contents
read-Sees s contents stale k ms q size w b fresh first ch is number small below long some_bytes =
    let v = s.fat.volume in
    let n = s.file.file_cluster_number in
    let r = s.file.file_cluster_offset in
    let (c1, k', ms', nth, w1, place, ch', is') =
      nth_cluster-Arrives n 1 n k ms s contents w ch is small
        (omega (arith, number, long, some_bytes)) (omega arith) in
    let s1 = with_caches s c1 s.file.cache in
    let f1 = record (s1.file) { file_absolute_cluster_number_read = k' } in
    let (c2, fc2, blk, w2) =
      get_block-Sees (record s1 { file = f1 }) contents k' (Sees-file s1 contents f1 refl w1)
        is'.0 in
    let s2 = with_caches (record s1 { file = f1 }) c2 fc2 in
    let place' : drop q (k ∷ ms) ≡ k' ∷ ms' = ap (λ i. drop i (k ∷ ms)) (sym number) ∙ place in
    let clusters : length (k ∷ ms) - q ≡ length (k' ∷ ms') =
      sym (length-drop q (k ∷ ms)) ∙ ap length place' in
    let (s', got, w') =
      read_from-Sees s2 contents k' ms' size w2 b refl ch' is' below
        (omega (arith, clusters, long)) in
    (
      s',
      read-some stale (record { id = k'; content = block_of v contents k' }) size s s2 _
            (first_block_read-some stale _ k' s s1 s2 ((==_iff _ 0).1 fresh)
              (ap (λ x. nth_cluster n 1 n x s) first ∙ nth) blk)
            got
          ∙ ap (λ ys. some (take size ys, s'))
              (ap (λ ks. drop r (chain_bytes v contents ks)) (sym place')
                ∙ ap (drop r) (sym (drop-chain_bytes v contents q (k ∷ ms) is))
                ∙ drop-drop r (q * 4096) (chain_bytes v contents (k ∷ ms))),
      w',
    )
