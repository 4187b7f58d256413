-- ===== src/Pfs/Files/NextRead.antt =====
-- A read after the first one starts behind the cluster that the first one came to, whatever the
-- seek says.
use grage_fat.Base.{
  copy_from-within, ◌==◌, ==_other, ℕ, ◌+◌, ◌≤◌, ◌≡◌, ◌≢◌, sym, ap, ◌∙◌, false, some, List, ◌∷◌,
  leb, le→leb, arith, take, drop, All,
}
use grage_fat.Pfs.Fat.{is_eoc}
use grage_fat.Pfs.Session.{Session, next_in_chain}
use grage_fat.Pfs.Blocks.{Block, get_block}
use grage_fat.Pfs.Blocks.Reading.{
  Sees, IsCluster, block_of, with_caches, next_in_chain-Sees, get_block-Sees,
}
use grage_fat.Pfs.Files.{first_block_read, next_block_read, block_unless_end, read}
use grage_fat.Pfs.Files.Content.{length-block_of}
use grage_fat.Pfs.Files.FirstRead.{read-some, read-short}
use grage_fat.Pfs.Release.Chain.{Chain}

first_block_read-next :
    (stale block : Block) (next : ℕ) (s s1 s2 : Session)
    → (s.file.file_absolute_cluster_number_read == 0) ≡ false
    → next_in_chain s.file.file_absolute_cluster_number_read s ≡ some (next, s1)
    → is_eoc next ≡ false
    → get_block next s1 ≡ some (block, s2)
    → first_block_read stale s ≡ some (block, s2)
unfolding first_block_read
first_block_read-next stale block next s s1 s2 later got eoc blk =
    rw (later, got, eoc, blk, first_block_read, next_block_read, block_unless_end)

-- A read that is not the first, and that ends within a cluster: it gives the bytes of the cluster
-- behind the one that is remembered, whatever cluster the seek is to, and it remembers the same one
-- again, so that the next such read gives the same cluster.
pub read_again :
    (s : Session) (contents : ℕ → List ℕ) (stale : Block) (k m : ℕ) (ms : List ℕ) (size : ℕ)
    → Sees s contents
    → s.fat.volume.bpc ≡ 4096
    → s.file.file_absolute_cluster_number_read ≡ k
    → k ≢ 0
    → Chain s.fat.volume.rsv contents k (m ∷ ms)
    → All (IsCluster s.fat.volume contents) (k ∷ m ∷ ms)
    → s.file.file_cluster_offset + size ≤ 4096
    → (s' : Session) × (read stale size s
        ≡ some (take size (drop s.file.file_cluster_offset (block_of s.fat.volume contents m)), s'))
      × (s'.file.file_absolute_cluster_number_read ≡ k)
      × Sees s' contents
read_again s contents stale k m ms size w b remembered z ch is within =
    let v = s.fat.volume in
    let r = s.file.file_cluster_offset in
    let (c1, got, w1) = next_in_chain-Sees s contents k w is.0.in_table in
    let s1 = with_caches s c1 s.file.cache in
    let (c2, fc2, blk, w2) = get_block-Sees s1 contents m w1 is.1.0 in
    let s2 = with_caches s1 c2 fc2 in
    let block : Block = record { id = m; content = block_of v contents m } in
    let full = length-block_of v contents m is.1.0 in
    (
      s2,
      read-some stale block size s s2 _
          (first_block_read-next stale block m s s1 s2 (==_other _ 0 (λ e. z (sym remembered ∙ e)))
            (ap (λ x. next_in_chain x s) remembered ∙ got ∙ ap (λ x. some (x, s1)) ch.0) ch.1 blk)
          (read-short block size s2 (take size (drop r (block_of v contents m)))
            (ap (leb (r + size)) b ∙ le→leb (r + size) 4096 within)
            (copy_from-within (block_of v contents m) r size (omega (arith, full, within)))),
      remembered,
      w2,
    )
