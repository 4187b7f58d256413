-- ===== src/Praid/Sync.antt =====
-- grage-praid/app/src/core/praid-ppd-synchronizer.c and
-- grage-praid/app/src/services/endpoint/praid-endpoint.c: the copy of one PPD's disk to another.
-- The time at which a copy starts is only printed and is left out. `stale` is what the stack holds
-- where a message is built.
use grage_fat.Base.{ℕ, ◌+◌, Bool, true, ◌&&◌, some, [], ◌∷◌, leb, u32}
use grage_fat.Nipc.{
  NipcPayload, DiskSector, build_nipc_message, add_message_type, add_operation_id, add_disk_sector,
  add_payload_length, type_sync_process, sync_get_sector, sync_put_sector, sync_end,
}
use grage_fat.Praid.State.{Praid, Storage, Peer, SyncProcessState, sent, emit}

module _ (stale : NipcPayload) where
  unfoldable pub call_sync_get_sector : Praid → ℕ → Praid
  call_sync_get_sector p socket =
      let m = add_message_type (build_nipc_message stale) type_sync_process in
      emit p (sent socket (add_operation_id m sync_get_sector) ∷ [])

  unfoldable pub call_sync_put_sector : Praid → ℕ → DiskSector → ℕ → Praid
  call_sync_put_sector p socket sector bytes =
      let m = add_payload_length (add_disk_sector (build_nipc_message stale) sector) bytes in
      emit p
        (sent socket (add_operation_id (add_message_type m type_sync_process) sync_put_sector) ∷ [])

  -- The message that ends a copy, or takes the place of one, and lets the PPD start to work.
  unfoldable pub call_process_jobs : Praid → ℕ → Praid
  call_process_jobs p socket =
      let m = add_message_type (build_nipc_message stale) type_sync_process in
      emit p (sent socket (add_operation_id m sync_end) ∷ [])

unfoldable pub set_replication_active : Praid → Bool → Praid
set_replication_active p status = record p { replication_active = status }

unfoldable pub increment_sync_sectors_counter : Praid → Praid
increment_sync_sectors_counter p = record p {
  sync_state = record (p.sync_state) { sectors_counter = u32 (p.sync_state.sectors_counter + 1) };
}

unfoldable pub increment_bytes_synchronized : Praid → ℕ → Praid
increment_bytes_synchronized p bytes = record p {
  sync_state = record (p.sync_state) {
    bytes_synchronized = u32 (p.sync_state.bytes_synchronized + bytes);
  };
}

abbrev pub peer_of : Storage → Peer
peer_of s = record { id = s.id; connection = s.connection }

unfoldable pub build_sync_process_state : Storage → Storage → SyncProcessState
build_sync_process_state source dest = record {
  sectors_counter = 0;
  bytes_synchronized = 0;
  source = some (peer_of source);
  destiny = some (peer_of dest);
}

unfoldable pub is_valid_replication : Praid → Bool
is_valid_replication p = leb 2 p.storages.size && p.enable_replication

unfoldable pub fire_synchronization : NipcPayload → Praid → Storage → Storage → Praid
unfolding set_replication_active build_sync_process_state call_sync_get_sector
fire_synchronization stale p source dest =
    let active = set_replication_active p true in
    let started = record active { sync_state = build_sync_process_state source dest } in
    call_sync_get_sector stale started source.connection
