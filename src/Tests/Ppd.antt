-- ===== src/Tests/Ppd.antt =====
-- A disk of two sectors, a queue of three jobs, and a copy.
use grage_fat.Base.{
  ℕ, ◌≤◌, ◌<◌, ◌^◌, ◌≡◌, ◌≢◌, refl, true, false, Option, some, none, List, [], ◌∷◌, ◌++◌, length,
  replicate, arith, All, copy_into,
}
use grage_fat.Commons.LinkedList.{order_always_last}
use grage_fat.Commons.LinkedList.Insert.{IsSorted, Inserts}
use grage_fat.Commons.Queue.{get}
use grage_fat.Nipc.{NipcMessage, NipcPayload, DiskSector, put_sectors, get_sectors, field_blank}
use grage_fat.Ppd.State.{Job, Ppd, sstf}
use grage_fat.Ppd.Geometry.{get_sector_from_sectorofcilinder}
use grage_fat.Ppd.Queues.{
  is_the_same_job, build_job, put_in_queue, pick_from_queue, get_first_job_operation_id_from_queue,
  strategy_sstf, current_possition, distance, build_nipc_message_from_job,
}
use grage_fat.Ppd.Queues.Order.{
  AreNearestFirst, put_in_queue-AreNearestFirst, pick_from_queue-nearest, put_in_queue_overtakes,
}
use grage_fat.Ppd.Disk.{write_sector, read_sector, read_sector-write_sector}

abbrev disk : List ℕ
disk = replicate 512 1 ++ replicate 512 2

abbrev written_disk : List ℕ
written_disk = replicate 512 1 ++ replicate 512 9

abbrev new_sector : DiskSector
new_sector = record { sector_number = 1; sector_content = replicate 512 9 }

writes : write_sector disk new_sector ≡ some written_disk
unfolding write_sector copy_into
writes = refl

read_sector-write_sector_example :
    (read_sector written_disk 1 ≡ some new_sector)
    × (length written_disk ≡ length disk)
    × ((n : ℕ) → n ≢ 1 → n < 2 ^ 23 → read_sector written_disk n ≡ read_sector disk n)
read_sector-write_sector_example =
    read_sector-write_sector disk new_sector written_disk refl (omega arith) writes

abbrev job : ℕ → ℕ → ℕ → Job
job i operation sector = record {
  job_id = i;
  message_type = field_blank;
  operation_id = operation;
  sector_content = [];
  sector_id = sector;
  pfs_socket = 30;
  payload_length = field_blank;
}

-- The head is at sector 70.
abbrev ppd : List Job → Option (List ℕ) → Ppd
ppd js file = record {
  jobs = record {
    size = length js;
    elements = js;
    sorting_criteria = order_always_last;
    equality_criteria = is_the_same_job;
  };
  next_job_id = 9;
  algorithm = sstf;
  cantidad_sectores_por_cilindro = 20;
  disk_cilinder = 20;
  pista = 3;
  sector_number = 10;
  volume_file = file;
  mapped = false;
  mapped_size = 0;
  page_rest = [];
  volume_size = 0;
  replicating = false;
  replication_process_active = false;
  listen_mode = false;
  praid_socket = 5;
  all_bytes_written = 0;
  sectors_written_count = 0;
  all_bytes_readed = 0;
  sectors_readed_count = 0;
  trace = [];
}

abbrev request : ℕ → ℕ → ℕ → NipcMessage
request kind operation sector = record {
  header = record {
    message_type = kind;
    payload_length = field_blank;
    operation_id = operation;
    response_code = field_blank;
    process_handshake_id = field_blank;
  };
  payload = record {
    disk_sector = record { sector_number = sector; sector_content = [] };
    pfs_socket = 30;
  };
}

abbrev waiting : List Job
waiting = job 1 get_sectors 71 ∷ job 2 get_sectors 60 ∷ job 3 get_sectors 90 ∷ []

waiting-IsSorted : IsSorted (strategy_sstf (current_possition (ppd waiting none))) waiting
waiting-IsSorted = unfold get_sector_from_sectorofcilinder strategy_sstf in (refl, (refl, tt))

put_in_queue-AreNearestFirst_example :
    AreNearestFirst
      (current_possition (ppd waiting none))
      (put_in_queue (ppd waiting none) (request field_blank put_sectors 65)).jobs.elements
    × Inserts
        (build_job (request field_blank put_sectors 65) 9)
        waiting
        (put_in_queue (ppd waiting none) (request field_blank put_sectors 65)).jobs.elements
put_in_queue-AreNearestFirst_example =
    put_in_queue-AreNearestFirst (ppd waiting none) (request field_blank put_sectors 65) refl (
      unfold get_sector_from_sectorofcilinder in
      ((omega arith, (omega arith, tt)), ((omega arith, tt), (tt, tt))))

abbrev picked : Ppd
picked = record (ppd waiting none) {
  jobs = record {
    size = 2;
    elements = job 2 get_sectors 60 ∷ job 3 get_sectors 90 ∷ [];
    sorting_criteria = order_always_last;
    equality_criteria = is_the_same_job;
  };
}

picks :
    pick_from_queue (request 0 0 0).header (ppd waiting none)
    ≡ some (build_nipc_message_from_job (request 0 0 0).header (job 1 get_sectors 71), picked)
unfolding pick_from_queue get_first_job_operation_id_from_queue get
picks = refl

pick_from_queue-nearest_example :
    All
      (λ t.
        distance
          (current_possition (ppd waiting none))
          (build_nipc_message_from_job
            (request 0 0 0).header
            (job 1 get_sectors 71)).payload.disk_sector.sector_number
        ≤ distance (current_possition (ppd waiting none)) t.sector_id)
      (job 2 get_sectors 60 ∷ job 3 get_sectors 90 ∷ [])
pick_from_queue-nearest_example =
    pick_from_queue-nearest (request 0 0 0).header (ppd waiting none)
      (build_nipc_message_from_job (request 0 0 0).header (job 1 get_sectors 71)) picked
      waiting-IsSorted picks

-- The head was at 50 when the queue was sorted; the read goes before the write to its sector.
abbrev sorted_before : List Job
sorted_before = job 1 get_sectors 71 ∷ job 2 get_sectors 29 ∷ job 3 put_sectors 90 ∷ []

put_in_queue_overtakes_example :
    (put_in_queue (ppd sorted_before none) (request field_blank get_sectors 90)).jobs.elements
    ≡ job 1 get_sectors 71
      ∷ build_job (request field_blank get_sectors 90) 9
      ∷ job 2 get_sectors 29
      ∷ job 3 put_sectors 90
      ∷ []
put_in_queue_overtakes_example =
    put_in_queue_overtakes (ppd sorted_before none) (request field_blank get_sectors 90)
      (job 1 get_sectors 71) (job 2 get_sectors 29) (job 3 put_sectors 90 ∷ []) refl refl
      (unfold get_sector_from_sectorofcilinder in omega arith)
      (unfold get_sector_from_sectorofcilinder in omega arith)

abbrev stale : NipcPayload
stale = record { disk_sector = record { sector_number = 0; sector_content = [] }; pfs_socket = 0 }

abbrev file : List ℕ
file = replicate 512 1 ++ 2 ∷ 3 ∷ []

abbrev old_file : List ℕ
old_file = replicate 600 7

abbrev mapped_ppd : List ℕ → Ppd
mapped_ppd bytes = record (ppd [] (some bytes)) {
  mapped = true;
  mapped_size = length bytes;
  volume_size = length bytes;
}
