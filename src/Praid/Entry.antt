-- ===== src/Praid/Entry.antt =====
-- grage-praid/app/src/services/entrypoint/praid-entrypoint-listener.c: who may join. `none` stands
-- for an access through a null pointer.
pub mod Admission
use grage_fat.Base.{ℕ, Bool, ◌&&◌, not, Option, none, some, [], ◌∷◌, ◌==◌, if◌then◌else◌}
use grage_fat.Nipc.{
  NipcMessage, NipcPayload, build_nipc_message, add_response_code, add_message_type, add_process_id,
  type_handshake, response_error, process_ppd, process_pfs,
}
use grage_fat.Nipc.Messaging.{handshake}
use grage_fat.Praid.State.{
  Praid, Storage, sent, closed, pfs_thread, ppd_threads, emit, build_storage_from_id,
  add_ppd_storage, is_there_any_ppd_connected,
}
use grage_fat.Praid.Balancer.{select_storage}
use grage_fat.Praid.Sync.{is_valid_replication, fire_synchronization, call_process_jobs}

-- What the thread that lets PPDs in holds on to while it sleeps: whether a copy follows, the PPD to
-- read from, and the new one.
pub record Joining : Type 0 where
  pub copies : Bool
  pub master : Option Storage
  pub destiny : Storage

-- `praid_entry_processNewPpdConnection` up to where it sleeps.
unfoldable pub admit_ppd : Praid → NipcMessage → ℕ → Joining × Praid
admit_ppd p m socket =
    let (destiny, built) =
      build_storage_from_id p socket m.header.operation_id m.header.response_code in
    let added = add_ppd_storage built destiny in
    (
      record {
        copies = is_valid_replication added;
        master = select_storage built;
        destiny = destiny;
      },
      added,
    )

module _ (stale : NipcPayload) where
  -- The copy, or the message in its place; only a copy reads the master.
  unfoldable pub replicate_or_start : Joining → Praid → Option Praid
  replicate_or_start j p =
      if j.copies
      then (elim j.master [
        | none ↦ none
        | some m ↦ some (fire_synchronization stale p m j.destiny)
      ])
      else some (call_process_jobs stale p j.destiny.connection)

  -- `praid_entry_processNewPpdConnection` from there on, in the state that it then finds.
  unfoldable pub start_ppd : Joining → Praid → Option Praid
  unfolding replicate_or_start
  start_ppd j p = elim (replicate_or_start j p) [
    | none ↦ none
    | some p' ↦ some (emit p' (ppd_threads j.destiny.connection ∷ []))
  ]

  unfoldable pub denegate_connection : Praid → ℕ → ℕ → Praid
  denegate_connection p process_id socket =
      let m =
        add_message_type (add_response_code (build_nipc_message stale) response_error)
          type_handshake in
      emit p (sent socket (add_process_id m process_id) ∷ closed socket ∷ [])

  -- One round of `praid_entry_startEntrypointListening`, a connection and its first message, up to
  -- where a new PPD makes it sleep.
  unfoldable pub begin_connection : Praid → ℕ → NipcMessage → Option Joining × Praid
  unfolding denegate_connection admit_ppd
  begin_connection p socket m =
      let process = m.header.process_handshake_id in
      let answered = emit p (sent socket (handshake stale process) ∷ []) in
      let (joining, admitted) = admit_ppd answered m socket in
      if m.header.message_type == type_handshake
      then (if process == process_ppd && p.replication_active
          then (none, denegate_connection p process socket)
          else if process == process_pfs && not (is_there_any_ppd_connected p)
          then (none, denegate_connection p process socket)
          else if process == process_pfs
          then (none, emit answered (pfs_thread socket ∷ []))
          else if process == process_ppd
          then (some joining, admitted)
          else (none, answered))
      else (none, p)

  -- The whole round, for when no other thread changes the server while this one sleeps. None is
  -- kept from it: the thread holds no mutex.
  unfoldable pub accept_connection : Praid → ℕ → NipcMessage → Option Praid
  unfolding begin_connection
  accept_connection p socket m =
      let (joining, begun) = begin_connection p socket m in
      elim joining [ none ↦ some begun | some j ↦ start_ppd j begun ]
