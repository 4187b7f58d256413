-- ===== src/Ppd/Sync.antt =====
-- grage-ppd/app/src/core/ppd-sync.c, its messages from services/ppd-endpoint.c, and of
-- core/ppd-persistence.c and core/ppd-state.c what it calls: the copy of a disk. `none` is the end
-- of the process, by `exit` or a fault. The library and the system are taken to do what they
-- document: a file that is opened for writing is empty, neither `mmap` nor `munmap` takes a length
-- of 0, and a new mapping has zeros behind the end of the file.
pub mod Blocks
pub mod Finish
pub mod Copy
use grage_fat.Base.{
  bind, ℕ, ◌+◌, ◌-◌, ◌≤◌, ◌<◌, ◌^◌, ◌≡◌, refl, Bool, true, false, Option, none, some, List, [], ◌∷◌,
  ◌++◌, zero, suc, length, take, drop, replicate, ◌==◌, ◌||◌, ltb, leb, if◌then◌else◌, u32,
}
use grage_fat.Nipc.{
  NipcMessage, NipcPayload, DiskSector, build_nipc_message, add_operation_id, add_payload_length,
  add_disk_sector, add_message_type, sync_put_sector, sync_end, type_sync_process, sector_size,
}
use grage_fat.Ppd.State.{Ppd, sent, emit, pages}

-- `commons_buildDiskSector`.
unfoldable pub build_disk_sector : DiskSector
build_disk_sector = record { sector_number = 2 ^ 32 - 1; sector_content = replicate sector_size 0 }

-- `fread` into the content of a new sector, at the rest of a file.
unfoldable pub read_block : List ℕ → DiskSector
unfolding build_disk_sector
read_block rest = record build_disk_sector {
  sector_content =
      take sector_size rest ++ drop (length (take sector_size rest)) (replicate sector_size 0);
}

abbrev pub count_readed : ℕ → Ppd → Ppd
count_readed n p = record p {
  all_bytes_readed = u32 (p.all_bytes_readed + n);
  sectors_readed_count = u32 (p.sectors_readed_count + 1);
}

module _ (stale : NipcPayload) where
  unfoldable pub sync_sector : ℕ → DiskSector → NipcMessage
  sync_sector pay_length sector =
      let m = add_operation_id (build_nipc_message stale) sync_put_sector in
      add_message_type (add_disk_sector (add_payload_length m pay_length) sector) type_sync_process

  unfoldable pub finish_message : NipcMessage
  finish_message =
      add_operation_id (add_message_type (build_nipc_message stale) type_sync_process) sync_end

  abbrev pub send_sync_sector : ℕ → DiskSector → Ppd → Ppd
  send_sync_sector n sector p = emit p (sent p.praid_socket (sync_sector n sector) ∷ [])

  -- The loop reads until the stream is at its end, which a read that comes back short finds. As
  -- much fuel as the file has bytes is enough: a round that goes on has read some.
  unfoldable pub process_file_sectors : ℕ → List ℕ → Ppd → Ppd
  unfolding sync_sector read_block
  process_file_sectors zero rest p = count_readed 0 p
  process_file_sectors (suc fuel) rest p =
      let n = length (take sector_size rest) in
      let counted = count_readed n p in
      let onward =
        process_file_sectors fuel (drop sector_size rest)
          (send_sync_sector n (read_block rest) counted) in
      if leb sector_size n
      then onward
      else if ltb 0 n
      then send_sync_sector n (read_block rest) counted
      else counted

-- `ppd_state_initializeVolumeSize`.
unfoldable pub initialize_volume_size : Ppd → Option Ppd
initialize_volume_size p = elim p.volume_file [
  | none ↦ if p.listen_mode then none else some p
  | some bytes ↦ some (record p { volume_size = u32 (length bytes) })
]

-- The length that `munmap` is given is that of the volume as it is now, and not that of the mapping.
-- Pages behind the mapping are those of something else: then what follows is not known, and `none`.
unfoldable pub unmap_device : Ppd → Option Ppd
unmap_device p = elim p.volume_file [
  | none ↦ none
  | some bytes ↦
      if p.volume_size == 0 || ltb (pages p.mapped_size) (pages p.volume_size)
      then none
      else some (record p { mapped = false })
]

unfoldable pub map_device : Ppd → Option Ppd
map_device p = elim p.volume_file [
  | none ↦ none
  | some bytes ↦
      if p.volume_size == 0
      then none
      else some (record p { mapped = true; mapped_size = p.volume_size; page_rest = [] })
]

-- `fclose` of a stream that is not open is a fault.
unfoldable pub finish_replication : Ppd → Option Ppd
finish_replication p =
    if p.replication_process_active
    then (if p.replicating
        then bind (initialize_volume_size (record p { replicating = false })) (λ sized.
          bind (if sized.mapped then unmap_device sized else some sized) (λ unmapped.
            bind (map_device unmapped)
              (λ done. some (record done { replication_process_active = false }))))
        else none)
    else some p

unfoldable pub replicate_get : NipcPayload → Ppd → Option Ppd
replicate_get stale p = bind p.volume_file (λ bytes.
    bind
      (finish_replication
        (process_file_sectors stale (length bytes) bytes (record p { replicating = true })))
      (λ done. some (emit done (sent done.praid_socket (finish_message stale) ∷ []))))

-- A length above that of a sector makes `fwrite` read past it.
unfoldable pub append_sector : ℕ → DiskSector → Ppd → Option Ppd
append_sector bytes_count sector p = elim p.volume_file [
  | none ↦ none
  | some bytes ↦
      if leb bytes_count (length sector.sector_content)
      then some (record p {
        volume_file = some (bytes ++ take bytes_count sector.sector_content);
        page_rest = [];
        all_bytes_written = u32 (p.all_bytes_written + bytes_count);
        sectors_written_count = u32 (p.sectors_written_count + 1);
      })
      else none
]

-- `fopen` for writing, of a file that can be opened.
unfoldable pub open_volume : Ppd → Ppd
open_volume p =
    if p.replicating
    then p
    else record p { volume_file = some []; page_rest = []; replicating = true }

unfoldable pub replicate_put : ℕ → DiskSector → Ppd → Option Ppd
unfolding append_sector open_volume
replicate_put bytes_count sector p =
    let opened = open_volume p in
    if ltb 0 bytes_count then append_sector bytes_count sector opened else some opened
