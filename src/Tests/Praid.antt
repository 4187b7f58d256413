-- ===== src/Tests/Praid.antt =====
-- A server with two PPDs, one of which has work.
use mathlib.Core.List.{Perm}
use grage_fat.Base.{
  ℕ, ◌≡◌, ◌≢◌, refl, Bool, true, false, some, none, List, [], ◌∷◌, ◌++◌, In, length, erase, arith,
  ◌⊎◌, ◌↔◌,
}
use grage_fat.Commons.LinkedList.{LinkedList, order_always_last}
use grage_fat.Nipc.{
  NipcMessage, NipcPayload, put_sectors, get_sectors, type_handshake, process_ppd, field_blank,
}
use grage_fat.Praid.Jobs.{Job, jobs_eq}
use grage_fat.Praid.State.{Praid, Storage, storage_eq}
use grage_fat.Praid.Balancer.{select_storage}
use grage_fat.Praid.Balancer.Minimum.{IsLeast, select_storage-IsLeast}
use grage_fat.Praid.Requests.{execute_put_sector, execute_get_sector}
use grage_fat.Praid.Requests.Replication.{
  IsQueuedAt, execute_put_sector-IsQueuedAt, execute_get_sector-none,
}
use grage_fat.Praid.Entry.{accept_connection}
use grage_fat.Praid.Entry.Admission.{accept_connection_total}
use grage_fat.Praid.Threads.{begin_disconnection, finish_disconnection}
use grage_fat.Praid.Threads.Orphans.{pending_of, reads_of, finish_disconnection-perm}
use grage_fat.Praid.Steps.{Server, here, next, begins, requests}
use grage_fat.Praid.Steps.Sound.{Reach-IsSound}
use grage_fat.Praid.WellFormed.Connections.{Connect}
use grage_fat.Praid.Entry.{begin_connection}
use grage_fat.Praid.Requests.{process_request, from_socket}
use grage_fat.Praid.State.{initialize_storages}
use grage_fat.Commons.LinkedList.{build_list}
use grage_fat.Praid.WellFormed.{IsWellFormed}

abbrev stale : NipcPayload
stale = record { disk_sector = record { sector_number = 0; sector_content = [] }; pfs_socket = 0 }

abbrev message_of : ℕ → ℕ → ℕ → ℕ → NipcMessage
message_of kind operation process sector = record {
  header = record {
    message_type = kind;
    payload_length = field_blank;
    operation_id = operation;
    response_code = field_blank;
    process_handshake_id = process;
  };
  payload = record {
    disk_sector = record { sector_number = sector; sector_content = [] };
    pfs_socket = 0;
  };
}

abbrev job : ℕ → ℕ → Job
job operation sector = record {
  message_type = field_blank;
  operation_id = operation;
  sector_content = [];
  sector_id = sector;
  pfs_socket = 30;
  payload_length = field_blank;
}

abbrev queue : List Job → LinkedList Job
queue js = record {
  size = length js;
  elements = js;
  sorting_criteria = order_always_last;
  equality_criteria = jobs_eq;
}

abbrev storage : ℕ → List Job → List Job → Storage
storage c pending sended = record {
  id = c;
  pending_jobs = queue pending;
  pending_responses = 0;
  connection = c;
  connected = true;
  volume_size = 2048;
  sended_jobs = queue sended;
}

abbrev busy : Storage
busy =
    storage 10 (job get_sectors 4 ∷ job put_sectors 5 ∷ [])
      (job put_sectors 6 ∷ job get_sectors 6 ∷ [])

abbrev idle : Storage
idle = storage 11 (job put_sectors 5 ∷ []) []

abbrev praid : List Storage → Bool → Praid
praid ss replicating = record {
  storages = record {
    size = length ss;
    elements = ss;
    sorting_criteria = order_always_last;
    equality_criteria = storage_eq;
  };
  available_ppd_id = 0;
  enable_replication = true;
  replication_active = replicating;
  sync_state = record {
    sectors_counter = 0;
    bytes_synchronized = 0;
    source = none;
    destiny = none;
  };
  trace = [];
}

abbrev server : Praid
server = praid (busy ∷ idle ∷ []) false

server-IsWellFormed : IsWellFormed server.storages
server-IsWellFormed = record {
  queued = (
    record {
      pending_fifo = refl;
      pending_counted = refl;
      sended_fifo = refl;
      sended_counted = refl;
    },
    (
      record {
        pending_fifo = refl;
        pending_counted = refl;
        sended_fifo = refl;
        sended_counted = refl;
      },
      tt,
    ),
  );
  distinct = ((omega arith, tt), (tt, tt));
  counted = refl;
  fifo = refl;
  equality = refl;
}

finish_disconnection-perm_example :
    Perm
      (pending_of
        (finish_disconnection (begin_disconnection server busy).0 server busy).storages.elements)
      (reads_of busy ++ pending_of (erase (λ t. storage_eq t busy) (busy ∷ idle ∷ [])))
finish_disconnection-perm_example =
    finish_disconnection-perm server server busy server-IsWellFormed
      (unfold storage_eq erase in omega arith)

select_storage-IsLeast_example :
    ((server.storages.elements ≡ []) × (select_storage server ≡ none))
    ⊎ ((s : Storage) × (select_storage server ≡ some s) × IsLeast server.storages.elements s)
select_storage-IsLeast_example = select_storage-IsLeast server

execute_put_sector-IsQueuedAt_example :
    ((s : Storage)
      → In s (busy ∷ idle ∷ [])
      → IsQueuedAt
          (message_of field_blank put_sectors field_blank 8)
          s
          (execute_put_sector server
            (message_of field_blank put_sectors field_blank 8)).storages.elements)
    × (length
          (execute_put_sector server
            (message_of field_blank put_sectors field_blank 8)).storages.elements
        ≡ 2)
execute_put_sector-IsQueuedAt_example =
    execute_put_sector-IsQueuedAt server (message_of field_blank put_sectors field_blank 8)
      server-IsWellFormed

execute_get_sector-none_example :
    (execute_get_sector (praid [] false) (message_of field_blank get_sectors field_blank 8) ≡ none)
    ↔ ((praid [] false).storages.elements ≡ [])
execute_get_sector-none_example =
    execute_get_sector-none (praid [] false) (message_of field_blank get_sectors field_blank 8)

accept_connection_total_example :
    accept_connection stale (praid [] false) 12 (message_of type_handshake 3 process_ppd 0) ≢ none
accept_connection_total_example =
    accept_connection_total stale (praid [] false) 12 (message_of type_handshake 3 process_ppd 0)
      refl

-- The server starts, a PPD joins, and a write comes in while the server sleeps.
start-storages : (praid [] false).storages ≡ initialize_storages
unfolding initialize_storages build_list
start-storages = refl

abbrev started : Server
started = record { praid = praid [] false; opened = 3 ∷ []; sleeping = []; collected = [] }

abbrev joined : Praid
joined = (begin_connection stale started.praid 12 (message_of type_handshake 3 process_ppd 0)).1

writes :
    process_request joined 30 (message_of field_blank put_sectors field_blank 8)
    ≡ some (
      execute_put_sector joined (from_socket 30 (message_of field_blank put_sectors field_blank 8)),
      true,
    )
unfolding process_request
writes = refl

Reach-IsSound_example :
    IsWellFormed
      (execute_put_sector joined
        (from_socket 30 (message_of field_blank put_sectors field_blank 8))).storages
    × Connect
        (λ c. In c (12 ∷ 3 ∷ []))
        (execute_put_sector joined
          (from_socket 30 (message_of field_blank put_sectors field_blank 8)))
Reach-IsSound_example = Reach-IsSound {v = started} start-storages (
    next
      (next here (
        begins stale 12 (message_of type_handshake 3 process_ppd 0)
          ((λ (e : 3 ≡ 12). omega arith), tt)))
      (requests 30 (message_of field_blank put_sectors field_blank 8) true writes))
