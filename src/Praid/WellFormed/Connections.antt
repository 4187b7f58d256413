-- ===== src/Praid/WellFormed/Connections.antt =====
-- No round but that of a new PPD brings a connection into the list of storages: what holds of the
-- connection of each storage holds of each afterwards.
use grage_fat.Base.{
  ℕ, ◌≡◌, refl, sym, subst, inl, inr, true, Bool, Option, none, some, List, [], ◌∷◌, Bool-cases,
  Option-cases, All, ◌==◌, ◌||◌, not,
}
use grage_fat.Commons.LinkedList.{LinkedList}
use grage_fat.Commons.Queue.{is_empty}
use grage_fat.Nipc.{
  NipcMessage, NipcPayload, NipcHeader, get_sectors, put_sectors, is_blank_message, sync_put_sector,
  sync_end,
}
use grage_fat.Praid.Jobs.{Job}
use grage_fat.Praid.State.{
  Praid, Storage, update_storage, remove_ppd_storage, decrement_pending_responses,
}
use grage_fat.Praid.Balancer.{select_storage, assign_job, redistribute, redistribute_jobs}
use grage_fat.Praid.Sync.{
  call_sync_put_sector, increment_sync_sectors_counter, increment_bytes_synchronized,
  set_replication_active, call_process_jobs,
}
use grage_fat.Praid.Requests.{
  put_each, execute_put_sector, execute_get_sector, process_request, from_socket,
}
use grage_fat.Praid.Threads.{
  finish_disconnection, receive_response, receive_sync, send_job, sender_step, sender_fields,
}
use grage_fat.Praid.Entry.{admit_ppd, begin_connection}
use grage_fat.Praid.WellFormed.{All-update_elements}
use grage_fat.Nipc.Messaging.{handshake}
use grage_fat.Nipc.{process_ppd, process_pfs, type_handshake}
use grage_fat.Commons.Queue.{IsFifo, add_node-last}
use grage_fat.Base.{◌&&◌, All-append}
use grage_fat.Praid.State.{
  emit, sent, build_storage, build_storage_from_id, add_ppd_storage, is_there_any_ppd_connected,
}

module _ (Q : ℕ → Type 0) where
  abbrev pub Connect : Praid → Type 0
  Connect p = All (λ s. Q s.connection) p.storages.elements

  abbrev pub ConnectSome : Option Praid → Type 0
  ConnectSome none = Unit
  ConnectSome (some p) = Connect p

  pub update_storage-Connect :
      (c : ℕ) (f : Storage → Storage)
      → ((s : Storage) → (f s).connection ≡ s.connection)
      → (p : Praid) → Connect p
      → Connect (update_storage c f p)
  unfolding update_storage
  update_storage-Connect c f same p k =
      All-update_elements c f (λ s. Q s.connection) (λ s h. subst Q (sym (same s)) h)
        p.storages.elements k

  redistribute-Connect : (jobs : List Job) (p : Praid) → Connect p → Connect (redistribute jobs p)
  unfolding redistribute assign_job
  redistribute-Connect [] p k = k
  redistribute-Connect (j ∷ jobs) p k = elim (Option-cases (select_storage p)) [
    | inl e ↦ rw (e, redistribute) k
    | inr (s, e) ↦
        rw (e, redistribute)
          (redistribute-Connect jobs (assign_job p s j)
            (update_storage-Connect s.connection _ (λ t. refl) p k))
  ]

  -- What holds of the connections that are left when the storage is taken out.
  pub finish_disconnection-Connect :
      (reading : LinkedList Job) (p : Praid) (s : Storage)
      → Connect (remove_ppd_storage p s)
      → Connect (finish_disconnection reading p s)
  unfolding finish_disconnection redistribute_jobs
  finish_disconnection-Connect reading p s k = elim (Bool-cases (is_empty reading)) [
    | inl e ↦ rw e k
    | inr e ↦ rw e (redistribute-Connect reading.elements (remove_ppd_storage p s) k)
  ]

  receive_sync-Connect :
      (stale : NipcPayload) (p : Praid) (m : NipcMessage)
      → Connect p
      → ConnectSome (receive_sync stale p m)
  unfolding receive_sync call_sync_put_sector call_process_jobs set_replication_active
      increment_sync_sectors_counter increment_bytes_synchronized
  receive_sync-Connect stale p m k = elim (Bool-cases (m.header.operation_id == sync_put_sector)) [
    | inl e ↦
        rw e (elim (Option-cases p.sync_state.destiny) [ inl d ↦ rw d tt | inr (peer, d) ↦ rw d k ])
    | inr e ↦ rw e (elim (Bool-cases (m.header.operation_id == sync_end)) [
      | inl g ↦
          rw g
            (elim (Option-cases p.sync_state.destiny) [ inl d ↦ rw d tt | inr (peer, d) ↦ rw d k ])
      | inr g ↦ rw g k
    ])
  ]

  receive_response-Connect :
      (p : Praid) (c : ℕ) (m : NipcMessage) → Connect p → Connect (receive_response p c m)
  unfolding receive_response decrement_pending_responses
  receive_response-Connect p c m k =
      update_storage-Connect c _ (λ s. refl) _
        (update_storage-Connect c decrement_pending_responses (λ s. refl) p k)

  pub receive-Connect :
      (stale : NipcPayload) (p : Praid) (s : Storage) (m : NipcMessage)
      → Connect p
      → ConnectSome (receive_sync stale p m) × Connect (receive_response p s.connection m)
  receive-Connect stale p s m k =
      (receive_sync-Connect stale p m k, receive_response-Connect p s.connection m k)

  pub sender_step-Connect :
      (stale : NipcHeader) (p : Praid) (s : Storage)
      → Connect p
      → ConnectSome (sender_step stale p s)
  unfolding sender_step
  sender_step-Connect stale p s k =
      elim (Bool-cases (not s.connected || is_empty s.pending_jobs || p.replication_active)) [
        | inl e ↦ rw e k
        | inr e ↦ rw e (elim (Option-cases (send_job stale s)) [
          | inl n ↦ rw n tt
          | inr ((m, s'), n) ↦ rw n (
              update_storage-Connect s.connection (sender_fields s')
                (λ t. unfold sender_fields in refl) p k)
        ])
      ]

  put_each-Connect :
      (m : NipcMessage) (ss : List Storage)
      → All (λ s. Q s.connection) ss
      → All (λ s. Q s.connection) (put_each m ss)
  unfolding put_each
  put_each-Connect m [] k = tt
  put_each-Connect m (s ∷ ss) k = (k.0, put_each-Connect m ss k.1)

  execute_get_sector-Connect :
      (p : Praid) (m : NipcMessage) → Connect p → ConnectSome (execute_get_sector p m)
  unfolding execute_get_sector
  execute_get_sector-Connect p m k = elim (Option-cases (select_storage p)) [
    | inl e ↦ rw (e, execute_get_sector) tt
    | inr (s, e) ↦
        rw (e, execute_get_sector) (update_storage-Connect s.connection _ (λ t. refl) p k)
  ]

  abbrev pub ConnectServed : Option (Praid × Bool) → Type 0
  ConnectServed none = Unit
  ConnectServed (some (p, more)) = Connect p

  pub process_request-Connect :
      (p : Praid) (socket : ℕ) (m : NipcMessage)
      → Connect p
      → ConnectServed (process_request p socket m)
  unfolding process_request execute_put_sector
  process_request-Connect p socket m k = elim (Bool-cases (m.header.operation_id == get_sectors)) [
    | inl e ↦ rw e (
        served (execute_get_sector p (from_socket socket m))
          (execute_get_sector-Connect p (from_socket socket m) k))
    | inr e ↦ rw e (elim (Bool-cases (m.header.operation_id == put_sectors)) [
      | inl g ↦ rw g (put_each-Connect (from_socket socket m) p.storages.elements k)
      | inr g ↦ rw g (elim (Bool-cases (is_blank_message (from_socket socket m))) [
        | inl b ↦ rw b k
        | inr b ↦ rw b k
      ])
    ])
  ]
    where
      served :
          (r : Option Praid)
          → ConnectSome r
          → ConnectServed (elim r [ none ↦ none | some p' ↦ some (p', true) ])
      served none h = tt
      served (some p') h = h

  pub begin_connection-Connect :
      (stale : NipcPayload) (p : Praid) (socket : ℕ) (m : NipcMessage)
      → IsFifo p.storages
      → Q socket
      → Connect p
      → Connect (begin_connection stale p socket m).1
  unfolding begin_connection
  begin_connection-Connect stale p socket m f new k =
      let process = m.header.process_handshake_id in
      elim (Bool-cases (m.header.message_type == type_handshake)) [
        | inr e ↦ rw e k
        | inl e ↦ rw e (elim (Bool-cases (process == process_ppd && p.replication_active)) [
          | inl g ↦ rw g k
          | inr g ↦
              rw g
                (elim (Bool-cases (process == process_pfs && not (is_there_any_ppd_connected p))) [
                  | inl h ↦ rw h k
                  | inr h ↦ rw h (elim (Bool-cases (process == process_pfs)) [
                    | inl l ↦ rw l k
                    | inr l ↦ rw l (elim (Bool-cases (process == process_ppd)) [
                      | inl n ↦ rw n admitted
                      | inr n ↦ rw n k
                    ])
                  ])
                ])
        ])
      ]
    where
      answered : Praid
      answered = emit p (sent socket (handshake stale m.header.process_handshake_id) ∷ [])

      admitted : Connect (admit_ppd answered m socket).1
      admitted =
          unfold admit_ppd build_storage_from_id build_storage add_ppd_storage in
          subst (All (λ s. Q s.connection)) (sym (add_node-last p.storages _ f))
            (All-append (λ s. Q s.connection) p.storages.elements _ k (new, tt))
