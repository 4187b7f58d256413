-- ===== src/Ppd/Sync/Blocks.antt =====
-- The blocks of a disk, one message each: what the master sends and what another PPD writes.
use grage_fat.Base.{
  bind, ℕ, ◌≤◌, ◌<◌, ◌≡◌, refl, sym, ap, subst, ◌∙◌, true, false, Option, some, List, [], ◌∷◌, ◌++◌,
  ltb, leb, Bool-cases, inl, inr, ◌⊎◌, arith, length, ltb→lt, leb→le, le→leb, take, drop, map,
  append_assoc, append-nil, take_append, length-take, length-append, lt→ltb, length-drop,
  take-append-drop, zero, suc, replicate, nil_of_length, drop_of_length,
}
use grage_fat.Nipc.{
  NipcMessage, NipcPayload, build_nipc_message, add_operation_id, add_payload_length,
  add_disk_sector, add_message_type,
}
use grage_fat.Ppd.State.{Ppd, sent, emit}
use grage_fat.Ppd.Sync.{
  process_file_sectors, replicate_put, append_sector, open_volume, sync_sector, read_block,
  count_readed, send_sync_sector, build_disk_sector,
}
use grage_fat.Ppd.Entry.{receive_from_praid, activated}
use grage_fat.Ppd.Sync.Finish.{Covers}

-- What a PPD makes of a series of messages from the PRAID.
abbrev pub receive_all : NipcPayload → List NipcMessage → Ppd → Option Ppd
receive_all stale [] p = some p
receive_all stale (m ∷ ms) p = bind (receive_from_praid stale p m) (receive_all stale ms)

-- The copy has written `w` so far: the first message opens the file anew. The mapping of the old
-- file, if there is one, has as many pages as a file of `n` bytes.
abbrev pub IsCopying : ℕ → List ℕ → Ppd → Type 0
IsCopying n w s =
    Covers n s.mapped s.mapped_size
    × (((s.replicating ≡ true) × (s.volume_file ≡ some w) × (s.replication_process_active ≡ true))
        ⊎ ((s.replicating ≡ false) × (w ≡ [])))

fits : (xs ys : List ℕ) → leb (length xs) (length (xs ++ ys)) ≡ true
fits xs ys = le→leb _ _ (omega (arith, length-append xs ys))

open_volume-IsCopying :
    (s : Ppd) (k : ℕ) (w : List ℕ)
    → IsCopying k w s
    → (page : List ℕ) × (open_volume (activated s) ≡ record s {
      volume_file = some w;
      page_rest = page;
      replicating = true;
      replication_process_active = true;
    })
unfolding open_volume
open_volume-IsCopying s k w (covers, inl (r, f, a)) = (s.page_rest, rw (r, f))
open_volume-IsCopying s k w (covers, inr (r, e)) = ([], rw (r, e))

receive_sector :
    (stale stale' : NipcPayload) (s : Ppd) (k : ℕ) (w bytes padding : List ℕ)
    → IsCopying k w s
    → 0 < length bytes
    → (s' : Ppd) × (receive_from_praid stale s (
          sync_sector stale'
            (length bytes)
            (record build_disk_sector { sector_content = bytes ++ padding }))
        ≡ some s')
      × IsCopying k (w ++ bytes) s'
unfolding receive_from_praid sync_sector replicate_put append_sector add_operation_id
    add_payload_length add_disk_sector add_message_type build_nipc_message
receive_sector stale stale' s k w bytes padding c h =
    let (page, opened) = open_volume-IsCopying s k w c in
    rw
      (
        lt→ltb 0 (length bytes) h,
        opened,
        append_sector,
        fits bytes padding,
        take_append bytes padding,
      )
      (
        _,
        refl,
        (
          subst (λ (q : Ppd). Covers k q.mapped q.mapped_size) (sym opened) c.0,
          inl (ap (λ q. q.replicating) opened, refl, ap (λ q. q.replication_process_active) opened),
        ),
      )

-- What the master has sent, and read, after its loop, and what that makes of another PPD.
abbrev pub Copies : NipcPayload → List ℕ → Ppd → Ppd → Type 0
Copies stale' rest p p' =
    (ms : List NipcMessage) × (b c : ℕ) × (p' ≡ record p {
      trace = p.trace ++ map (sent p.praid_socket) ms;
      all_bytes_readed = b;
      sectors_readed_count = c;
    })
    × ((k : ℕ) (w : List ℕ) (s : Ppd)
        → IsCopying k w s
        → (s' : Ppd) × (receive_all stale' ms s ≡ some s') × IsCopying k (w ++ rest) s')

no_more :
    (stale' : NipcPayload) (rest : List ℕ) (b c : ℕ) (p : Ppd)
    → rest ≡ []
    → Copies stale' rest p (record p { all_bytes_readed = b; sectors_readed_count = c })
no_more stale' rest b c p e = (
  [],
  b,
  c,
  ap (λ t. record p { all_bytes_readed = b; sectors_readed_count = c; trace = t })
      (sym (append-nil p.trace)),
  λ k w s copying.
      (s, refl, subst (λ v. IsCopying k v s) (sym (ap (◌++◌ w) e ∙ append-nil w)) copying),
)

one_more :
    (stale stale' : NipcPayload) (bytes padding : List ℕ) (rest : List ℕ) (p p' : Ppd) (n : ℕ)
    → 0 < length bytes
    → Copies stale' rest
        (emit (count_readed n p) (
          sent p.praid_socket (
            sync_sector stale
              (length bytes)
              (record build_disk_sector { sector_content = bytes ++ padding }))
          ∷ []))
        p'
    → Copies stale' (bytes ++ rest) p p'
one_more stale stale' bytes padding rest p p' n h (ms, b, c, e, receives) = (
  message ∷ ms,
  b,
  c,
  e
      ∙ ap (λ t. record p { trace = t; all_bytes_readed = b; sectors_readed_count = c })
          (append_assoc p.trace (sent p.praid_socket message ∷ []) (map (sent p.praid_socket) ms)),
  λ k w s copying.
      let (s1, one, copying1) = receive_sector stale' stale s k w bytes padding copying h in
      let (s2, all, copying2) = receives k (w ++ bytes) s1 copying1 in
      (s2, rw one all, subst (λ v. IsCopying k v s2) (append_assoc w bytes rest) copying2),
)
  where
    message : NipcMessage
    message =
        sync_sector stale (length bytes)
          (record build_disk_sector { sector_content = bytes ++ padding })

none_left_lem : (rest : List ℕ) → ltb 0 (length (take 512 rest)) ≡ false → rest ≡ []
none_left_lem [] e = refl
none_left_lem (x ∷ rest) e = absurd (ground arith)

last_block : (rest : List ℕ) → leb 512 (length (take 512 rest)) ≡ false → drop 512 rest ≡ []
last_block rest e = drop_of_length 512 rest (ground (arith, length-take 512 rest))

block_more :
    (stale stale' : NipcPayload) (rest : List ℕ) (p p' : Ppd)
    → 0 < length (take 512 rest)
    → Copies stale'
        (drop 512 rest)
        (send_sync_sector stale
          (length (take 512 rest))
          (read_block rest)
          (count_readed (length (take 512 rest)) p))
        p'
    → Copies stale' rest p p'
unfolding read_block
block_more stale stale' rest p p' h copies =
    subst (λ l. Copies stale' l p p') (take-append-drop 512 rest)
      (one_more stale stale' (take 512 rest) (drop (length (take 512 rest)) (replicate 512 0))
        (drop 512 rest) p p' (length (take 512 rest)) h copies)

pub process_file_sectors-Copies :
    (stale stale' : NipcPayload) (fuel : ℕ) (rest : List ℕ) (p : Ppd)
    → length rest ≤ fuel
    → Copies stale' rest p (process_file_sectors stale fuel rest p)
unfolding process_file_sectors
process_file_sectors-Copies stale stale' zero rest p h =
    no_more stale' rest _ _ p (nil_of_length rest (omega arith))
process_file_sectors-Copies stale stale' (suc fuel) rest p h =
    elim (Bool-cases (leb 512 (length (take 512 rest)))) [
      | inl full ↦ rw full (
          block_more stale stale' rest p (process_file_sectors stale fuel (drop 512 rest) next)
            (omega (arith, leb→le _ _ full))
            (process_file_sectors-Copies stale stale' fuel (drop 512 rest) next
              (omega (arith, leb→le _ _ full, length-take 512 rest, length-drop 512 rest))))
      | inr part ↦ rw part (elim (Bool-cases (ltb 0 (length (take 512 rest)))) [
        | inl some_left ↦ rw some_left (
            block_more stale stale' rest p next (ltb→lt _ _ some_left) (
              no_more stale' (drop 512 rest) next.all_bytes_readed next.sectors_readed_count next
                (last_block rest part)))
        | inr none_left ↦ rw none_left (no_more stale' rest _ _ p (none_left_lem rest none_left))
      ])
    ]
  where
    next : Ppd
    next =
        send_sync_sector stale (length (take 512 rest)) (read_block rest)
          (count_readed (length (take 512 rest)) p)
