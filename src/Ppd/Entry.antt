-- ===== src/Ppd/Entry.antt =====
-- grage-ppd/app/src/services/ppd-entrypoint.c, ppd-praid-entrypoint.c and ppd-pfs-entrypoint.c, and
-- planifier/ppd-planifier-worker.c: a round of each thread. `none` is the end of the process.
use grage_fat.Base.{
  bind, ℕ, ◌*◌, ◌++◌, take, drop, replicate, length, ltb, Bool, true, false, Option, none, some,
  List, [], ◌∷◌, ◌==◌, if◌then◌else◌,
}
use grage_fat.Nipc.{
  NipcMessage, NipcHeader, NipcPayload, get_sectors, put_sectors, field_blank, type_sync_process,
  sync_put_sector, sync_get_sector, sync_end, is_blank_message, add_disk_sector, add_response_code,
  response_success,
}
use grage_fat.Ppd.State.{Ppd, sent, emit, pages}
use grage_fat.Ppd.Geometry.{get_cilinder_from_sector, get_sectorofcilinder_from_sector}
use grage_fat.Ppd.Queues.{put_in_queue, pick_from_queue}
use grage_fat.Ppd.Disk.{write_sector, read_sector}
use grage_fat.Ppd.Sync.{replicate_put, replicate_get, finish_replication}

-- `ppd_entrypoint_executePutSector` and `ppd_entrypoint_executeGetSector`, which do the same.
unfoldable pub execute_sector : Ppd → NipcMessage → Ppd
execute_sector p m = put_in_queue p m

abbrev pub activated : Ppd → Ppd
activated p = record p { replication_process_active = true }

-- One round of `ppd_entrypoint_launchPraidPpdEntrypoint`, after it has received `m`.
unfoldable pub receive_from_praid : NipcPayload → Ppd → NipcMessage → Option Ppd
unfolding execute_sector
receive_from_praid stale p m =
    let operation = m.header.operation_id in
    if operation == field_blank
    then none
    else if operation == get_sectors
    then some (execute_sector p m)
    else if operation == put_sectors
    then some (execute_sector p m)
    else if m.header.message_type == type_sync_process
    then (if operation == sync_put_sector
        then replicate_put m.header.payload_length m.payload.disk_sector (activated p)
        else if operation == sync_get_sector
        then replicate_get stale (activated p)
        else if operation == sync_end
        then finish_replication p
        else some p)
    else some p

abbrev from_socket : ℕ → NipcMessage → NipcMessage
from_socket socket m = record m { payload = record (m.payload) { pfs_socket = socket } }

-- `ppd_pfs_entrypoint_processRequest` after it has received `m`.
unfoldable pub process_request : Ppd → ℕ → NipcMessage → Ppd × Bool
unfolding execute_sector
process_request p socket m =
    if m.header.operation_id == get_sectors
    then (execute_sector p (from_socket socket m), true)
    else if m.header.operation_id == put_sectors
    then (execute_sector p (from_socket socket m), true)
    else if is_blank_message m
    then (p, false)
    else (p, true)

unfoldable pub response_get_sector : Ppd → NipcMessage → Ppd
response_get_sector p m =
    emit p (sent (if p.listen_mode then m.payload.pfs_socket else p.praid_socket) m ∷ [])

-- The end of a round: the head is where the job was.
unfoldable pub setear_posicion_cabezal : ℕ → Ppd → Option Ppd
setear_posicion_cabezal sector p =
    bind (get_cilinder_from_sector p.cantidad_sectores_por_cilindro sector) (λ cilinder.
      bind (get_sectorofcilinder_from_sector p.cantidad_sectores_por_cilindro sector)
        (λ of_cilinder. some (record p { pista = cilinder; sector_number = of_cilinder })))

-- The operation 69, which only the console's thread puts into the queue: what it sends to the
-- console and how long that takes is left out. It sets the number of sectors of a cylinder anew.
unfoldable pub trace_job : NipcMessage → Ppd → Option Ppd
trace_job m p =
    bind
      (get_cilinder_from_sector p.cantidad_sectores_por_cilindro
        m.payload.disk_sector.sector_number)
      (λ cilinder. some (record p { cantidad_sectores_por_cilindro = p.disk_cilinder }))

-- How many bytes can be reached from `diskStartAddress` on: the pages that were mapped, as far as
-- the file has bytes in them.
abbrev reachable : Ppd → List ℕ → ℕ
reachable p bytes =
    4096
    * (if ltb (pages p.mapped_size) (pages (length bytes))
        then pages p.mapped_size
        else pages (length bytes))

-- These bytes. The address is `NULL` as long as no disk is mapped.
abbrev pub mapped_disk : Ppd → Option (List ℕ)
mapped_disk p =
    if p.mapped
    then bind p.volume_file
        (λ bytes. some (take (reachable p bytes) ((bytes ++ p.page_rest) ++ replicate 4096 0)))
    else none

-- The file, after `disk` has come in place of these bytes, and the rest of its last page.
abbrev keep_disk : List ℕ → Ppd → Ppd
keep_disk disk p = elim p.volume_file [
  | none ↦ p
  | some bytes ↦ record p {
    volume_file = some (take (length bytes) disk ++ drop (length disk) bytes);
    page_rest = drop (length bytes) disk;
  }
]

unfoldable pub execute_job : NipcMessage → Ppd → Option Ppd
unfolding response_get_sector trace_job
execute_job m p =
    let sector = m.payload.disk_sector in
    if m.header.operation_id == put_sectors
    then (elim (mapped_disk p) [
      | none ↦ none
      | some disk ↦ bind (write_sector disk sector) (λ disk'. some (keep_disk disk' p))
    ])
    else if m.header.operation_id == get_sectors
    then (elim (mapped_disk p) [
      | none ↦ none
      | some disk ↦ bind (read_sector disk sector.sector_number) (λ read.
          some
            (response_get_sector p (add_response_code (add_disk_sector m read) response_success)))
    ])
    else if m.header.operation_id == 69
    then trace_job m p
    else some p

-- One round of `ppd_planifier_worker_doJob`; it waits while it finds no job.
unfoldable pub do_job : NipcHeader → Ppd → Option Ppd
unfolding execute_job setear_posicion_cabezal
do_job stale p = elim (pick_from_queue stale p) [
  | none ↦ some p
  | some (m, picked) ↦
      bind (execute_job m picked)
        (λ done. setear_posicion_cabezal m.payload.disk_sector.sector_number done)
]
