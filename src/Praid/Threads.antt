-- ===== src/Praid/Threads.antt =====
-- grage-praid/app/src/core/praid-ppd-thread.c: the two threads of a PPD. A step of the listener is
-- one message, a step of the sender one job, without what other threads do meanwhile.
-- `none` stands for an access through a null pointer.
pub mod Orphans
pub mod Answers
use grage_fat.Base.{ℕ, Bool, false, ◌||◌, not, Option, none, some, [], ◌∷◌, ◌==◌, if◌then◌else◌}
use grage_fat.Commons.LinkedList.{LinkedList, get_node_by_criteria, remove_node}
use grage_fat.Commons.Queue.{is_empty}
use grage_fat.Nipc.{
  NipcMessage, NipcHeader, NipcPayload, is_blank_message, type_sync_process, sync_put_sector,
  sync_end, get_sectors,
}
use grage_fat.Praid.Jobs.{Job, get_reading_jobs, storage_queue_get, storage_queue_put}
use grage_fat.Praid.State.{
  Praid, Storage, Peer, sent, emit, update_storage, set_disconnected, decrement_pending_responses,
  increment_pending_responses, remove_ppd_storage,
}
use grage_fat.Praid.Balancer.{redistribute_jobs}
use grage_fat.Praid.Sync.{
  call_sync_put_sector, call_process_jobs, set_replication_active, increment_sync_sectors_counter,
  increment_bytes_synchronized,
}

abbrev is_peer : ℕ → Option Peer → Bool
is_peer ppd_id none = false
is_peer ppd_id (some q) = q.id == ppd_id

-- `praid_ppd_checkIfContinueDenegatingRequests`: a copy ends with either of its PPDs.
unfoldable pub check_if_continue_denegating_requests : Praid → ℕ → Praid
check_if_continue_denegating_requests p ppd_id =
    if is_peer ppd_id p.sync_state.source || is_peer ppd_id p.sync_state.destiny
    then (if p.replication_active then set_replication_active p false else p)
    else p

-- `praid_ppd_processDisconnection` up to where it has collected the reads of the storage as it is
-- then. Its mutex is that of this storage and keeps out the storage's sender only.
unfoldable pub begin_disconnection : Praid → Storage → LinkedList Job × Praid
begin_disconnection p s =
    (get_reading_jobs s.pending_jobs s.sended_jobs, check_if_continue_denegating_requests p s.id)

-- The rest of it, in the state that it then finds: a PFS may have put a job into a queue.
unfoldable pub finish_disconnection : LinkedList Job → Praid → Storage → Praid
finish_disconnection reading p s =
    let removed = remove_ppd_storage p s in
    if is_empty reading then removed else redistribute_jobs reading removed

-- The whole of it, for when no other thread changes the server meanwhile.
unfoldable pub process_disconnection : Praid → Storage → Praid
unfolding begin_disconnection finish_disconnection
process_disconnection p s =
    let (reading, checked) = begin_disconnection p s in finish_disconnection reading checked s

-- A response: it goes to the PFS that asked, and the first job sent for its sector is forgotten.
unfoldable pub forget_job : NipcMessage → LinkedList Job → LinkedList Job
forget_job m jobs =
    elim (get_node_by_criteria jobs (λ j. j.sector_id == m.payload.disk_sector.sector_number)) [
      | none ↦ jobs
      | some j ↦ (remove_node jobs j).0
    ]

unfoldable pub receive_response : Praid → ℕ → NipcMessage → Praid
unfolding forget_job
receive_response p c m =
    let counted = update_storage c decrement_pending_responses p in
    let answered = emit counted (sent m.payload.pfs_socket m ∷ []) in
    update_storage c (λ s. record s { sended_jobs = forget_job m s.sended_jobs }) answered

unfoldable pub receive_sync : NipcPayload → Praid → NipcMessage → Option Praid
receive_sync stale p m =
    if m.header.operation_id == sync_put_sector
    then (elim p.sync_state.destiny [
      | none ↦ none
      | some dest ↦
          let counted = increment_sync_sectors_counter p in
          let passed_on =
            call_sync_put_sector stale counted dest.connection m.payload.disk_sector
              m.header.payload_length in
          some (increment_bytes_synchronized passed_on m.header.payload_length)
    ])
    else if m.header.operation_id == sync_end
    then (elim p.sync_state.destiny [
      | none ↦ none
      | some dest ↦ some (set_replication_active (call_process_jobs stale p dest.connection) false)
    ])
    else some p

-- One round of `praid_ppd_thread_listener` for the storage `s`, and what follows its last round.
unfoldable pub listener_step : NipcPayload → Praid → Storage → NipcMessage → Option Praid
listener_step stale p s m =
    if is_blank_message m
    then some (process_disconnection (update_storage s.connection set_disconnected p) s)
    else if m.header.message_type == type_sync_process
    then receive_sync stale p m
    else some (receive_response p s.connection m)

-- The critical section of `praid_ppd_thread_sender`: the first job goes out.
unfoldable pub send_job : NipcHeader → Storage → Option (NipcMessage × Storage)
send_job stale s = elim (storage_queue_get stale s.pending_jobs) [
  | none ↦ none
  | some (m, rest) ↦
      let sending = record s {
        pending_jobs = rest;
        sended_jobs = storage_queue_put s.sended_jobs m;
      } in
      some (
        m,
        if m.header.operation_id == get_sectors
            then increment_pending_responses sending
            else sending,
      )
]

-- The fields that the sender writes.
unfoldable pub sender_fields : Storage → Storage → Storage
sender_fields s' s = record s {
  pending_jobs = s'.pending_jobs;
  sended_jobs = s'.sended_jobs;
  pending_responses = s'.pending_responses;
}

-- One round of the sender: it waits for a job, and while a copy is running it sends none.
unfoldable pub sender_step : NipcHeader → Praid → Storage → Option Praid
sender_step stale p s =
    if not s.connected || is_empty s.pending_jobs || p.replication_active
    then some p
    else (elim (send_job stale s) [
      | none ↦ none
      | some (m, s') ↦
          some (emit (update_storage s.connection (sender_fields s') p) (sent s.connection m ∷ []))
    ])
