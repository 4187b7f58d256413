-- ===== src/Praid/Requests.antt =====
-- grage-praid/app/src/services/entrypoint/praid-pfs-entrypoint.c: the requests of a PFS. `none`
-- stands for an access through a null pointer, which ends the process.
pub mod Replication
use grage_fat.Base.{ℕ, Bool, true, false, Option, none, some, List, [], ◌∷◌, ◌==◌, if◌then◌else◌}
use grage_fat.Nipc.{NipcMessage, get_sectors, put_sectors, is_blank_message}
use grage_fat.Praid.Jobs.{storage_queue_put}
use grage_fat.Praid.State.{Praid, Storage, update_storage}
use grage_fat.Praid.Balancer.{select_storage}

-- The loop of `praid_pfs_entrypoint_executePutSector` over the storages.
unfoldable pub put_each : NipcMessage → List Storage → List Storage
put_each m [] = []
put_each m (s ∷ ss) = record s { pending_jobs = storage_queue_put s.pending_jobs m } ∷ put_each m ss

unfoldable pub execute_put_sector : Praid → NipcMessage → Praid
unfolding put_each
execute_put_sector p m = record p {
  storages = record (p.storages) { elements = put_each m p.storages.elements };
}

unfoldable pub execute_get_sector : Praid → NipcMessage → Option Praid
execute_get_sector p m = elim (select_storage p) [
  | none ↦ none
  | some s ↦ some (
      update_storage s.connection
        (λ t. record t { pending_jobs = storage_queue_put t.pending_jobs m }) p)
]

abbrev pub from_socket : ℕ → NipcMessage → NipcMessage
from_socket socket m = record m { payload = record (m.payload) { pfs_socket = socket } }

-- `praid_pfs_entrypoint_processRequest` after it has received `m`: whether the thread of a pooled
-- connection goes on.
unfoldable pub process_request : Praid → ℕ → NipcMessage → Option (Praid × Bool)
process_request p socket received =
    let m = from_socket socket received in
    if m.header.operation_id == get_sectors
    then (elim (execute_get_sector p m) [ none ↦ none | some p' ↦ some (p', true) ])
    else if m.header.operation_id == put_sectors
    then some (execute_put_sector p m, true)
    else if is_blank_message m
    then some (p, false)
    else some (p, true)
