-- ===== src/Praid/State.antt =====
-- grage-praid/app/src/core/praid-state.c, and the events that the process shows to its sockets.
-- A storage is known by its connection. Of the storages that `SyncProcessState` points to, only
-- fields that never change are read, so it holds copies of those.
use grage_fat.Base.{
  ℕ, ◌+◌, Bool, true, false, Option, none, some, List, [], ◌∷◌, ◌++◌, ◌==◌, ltb, if◌then◌else◌, u8,
  u16, sub16,
}
use grage_fat.Commons.LinkedList.{LinkedList, build_list, add_node, remove_node, order_always_last}
use grage_fat.Commons.Queue.{build_queue}
use grage_fat.Nipc.{NipcMessage}
use grage_fat.Praid.Jobs.{Job, jobs_eq}

pub record Storage : Type 0 where
  pub id : ℕ
  pub pending_jobs : LinkedList Job
  pub pending_responses : ℕ
  pub connection : ℕ
  pub connected : Bool
  pub volume_size : ℕ
  pub sended_jobs : LinkedList Job

pub data Event : Type 0 where
  sent : ℕ → NipcMessage → Event
  closed : ℕ → Event
  -- A slave thread for a PFS, or the two threads of a PPD, started on a connection.
  pfs_thread : ℕ → Event
  ppd_threads : ℕ → Event

-- What the process reads through a pointer to a storage that may have left the list.
pub record Peer : Type 0 where
  pub id : ℕ
  pub connection : ℕ

pub record SyncProcessState : Type 0 where
  pub sectors_counter : ℕ
  pub bytes_synchronized : ℕ
  pub source : Option Peer
  pub destiny : Option Peer

-- The globals of the process; `trace` is what it has sent and closed so far.
pub record Praid : Type 0 where
  pub storages : LinkedList Storage
  pub available_ppd_id : ℕ
  pub enable_replication : Bool
  pub replication_active : Bool
  pub sync_state : SyncProcessState
  pub trace : List Event

-- `praid_state_storage_eq`; the storages of the list are never `NULL`.
unfoldable pub storage_eq : Storage → Storage → Bool
storage_eq s1 s2 = s1.connection == s2.connection

unfoldable pub initialize_storages : LinkedList Storage
initialize_storages = build_list storage_eq order_always_last

unfoldable pub add_ppd_storage : Praid → Storage → Praid
add_ppd_storage p s = record p { storages = add_node p.storages s }

-- `praid_state_buildPPDConnectionStorage`. The volume's size is not set there: it is the argument
-- `stale`.
unfoldable pub build_storage : ℕ → Praid → ℕ → Storage × Praid
build_storage stale p socket = (
  record {
    id = p.available_ppd_id;
    pending_jobs = build_queue jobs_eq;
    pending_responses = 0;
    connection = socket;
    connected = true;
    volume_size = stale;
    sended_jobs = build_queue jobs_eq;
  },
  record p { available_ppd_id = u8 (p.available_ppd_id + 1) },
)

unfoldable pub build_storage_from_id : Praid → ℕ → ℕ → ℕ → Storage × Praid
unfolding build_storage
build_storage_from_id p socket ppd_id size =
    let (s, p') = build_storage 0 p socket in (record s { id = u8 ppd_id; volume_size = size }, p')

unfoldable pub increment_pending_responses : Storage → Storage
increment_pending_responses s = record s { pending_responses = u16 (s.pending_responses + 1) }

unfoldable pub decrement_pending_responses : Storage → Storage
decrement_pending_responses s = record s { pending_responses = sub16 s.pending_responses 1 }

unfoldable pub set_disconnected : Storage → Storage
set_disconnected s = record s { connected = false }

abbrev pub emit : Praid → List Event → Praid
emit p es = record p { trace = p.trace ++ es }

-- `praid_state_removePddStorage`, which closes the connection of the storage that it takes out.
unfoldable pub remove_ppd_storage : Praid → Storage → Praid
remove_ppd_storage p s =
    let (storages, removed) = remove_node p.storages s in
    emit (record p { storages = storages })
      (elim removed [ none ↦ [] | some r ↦ closed r.connection ∷ [] ])

unfoldable pub is_there_any_ppd_connected : Praid → Bool
is_there_any_ppd_connected p = ltb 0 p.storages.size

-- A write through the pointer to the storage of a connection.
unfoldable pub update_elements : ℕ → (Storage → Storage) → List Storage → List Storage
update_elements c f [] = []
update_elements c f (s ∷ ss) = (if s.connection == c then f s else s) ∷ update_elements c f ss

unfoldable pub update_storage : ℕ → (Storage → Storage) → Praid → Praid
unfolding update_elements
update_storage c f p = record p {
  storages = record (p.storages) { elements = update_elements c f p.storages.elements };
}
