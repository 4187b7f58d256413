-- ===== src/Ppd/Queues.antt =====
-- grage-ppd/app/src/planifier/ppd-queues.c and ppd-algorythm-strategy.c: the queue of jobs, in
-- the order in which the head should serve them. The delays before a job are left out.

pub mod Order
use grage_fat.Base.{
  ℕ, ◌+◌, ◌-◌, ◌^◌, Bool, true, false, ◌&&◌, Option, none, some, [], ◌∷◌, ◌==◌, ltb, leb,
  if◌then◌else◌, u32, sub32,
}
use grage_fat.Commons.LinkedList.{LinkedList}
use grage_fat.Commons.Queue.{put, get, build_queue_with_sorting_criteria}
use grage_fat.Nipc.{NipcMessage, NipcHeader}
use grage_fat.Ppd.State.{Job, Ppd, Algorithm, look, sstf}
use grage_fat.Ppd.Geometry.{get_sector_from_sectorofcilinder}

-- `abs(currentPossition - sectorId)`: the difference is unsigned, and `abs` reads it as an `int`.
abbrev pub distance : ℕ → ℕ → ℕ
distance current sector_id =
    let d = sub32 current sector_id in if ltb d (2 ^ 31) then d else 2 ^ 32 - d

abbrev pub current_possition : Ppd → ℕ
current_possition p =
    u32 (get_sector_from_sectorofcilinder p.cantidad_sectores_por_cilindro p.sector_number p.pista)

unfoldable pub strategy_look : ℕ → Job → Job → Bool
strategy_look current old_job new_job =
    if ltb (distance current new_job.sector_id) (distance current old_job.sector_id)
      && leb current new_job.sector_id
    then false
    else true

unfoldable pub strategy_sstf : ℕ → Job → Job → Bool
strategy_sstf current old_job new_job =
    if ltb (distance current new_job.sector_id) (distance current old_job.sector_id)
    then false
    else true

-- The criterion reads the position of the head anew at each call.
unfoldable pub strategy : Algorithm → ℕ → Job → Job → Bool
strategy look current = strategy_look current
strategy sstf current = strategy_sstf current

-- `ppd_queues_isTheSameJob`; the jobs of a queue are never `NULL`.
unfoldable pub is_the_same_job : Job → Job → Bool
is_the_same_job j1 j2 = j1.job_id == j2.job_id

unfoldable pub initialize : Algorithm → ℕ → LinkedList Job
unfolding strategy
initialize algorithm current =
    build_queue_with_sorting_criteria is_the_same_job (strategy algorithm current)

unfoldable pub build_job : NipcMessage → ℕ → Job
build_job m job_id = record {
  job_id = job_id;
  message_type = m.header.message_type;
  operation_id = m.header.operation_id;
  sector_content = m.payload.disk_sector.sector_content;
  sector_id = m.payload.disk_sector.sector_number;
  pfs_socket = m.payload.pfs_socket;
  payload_length = m.header.payload_length;
}

unfoldable pub build_nipc_message_from_job : NipcHeader → Job → NipcMessage
build_nipc_message_from_job stale j = record {
  header = record stale {
    payload_length = j.payload_length;
    message_type = j.message_type;
    operation_id = j.operation_id;
  };
  payload = record {
    disk_sector = record { sector_number = j.sector_id; sector_content = j.sector_content };
    pfs_socket = j.pfs_socket;
  };
}

-- The queue with the criterion that holds now.
abbrev pub ordered_jobs : Ppd → LinkedList Job
ordered_jobs p = record (p.jobs) { sorting_criteria = strategy p.algorithm (current_possition p) }

unfoldable pub put_in_queue : Ppd → NipcMessage → Ppd
unfolding strategy
put_in_queue p m = record p {
  jobs = put (ordered_jobs p) (build_job m p.next_job_id);
  next_job_id = u32 (p.next_job_id + 1);
}

unfoldable pub get_first_job_operation_id_from_queue : LinkedList Job → ℕ
get_first_job_operation_id_from_queue q = elim q.elements [
  | [] ↦ 0
  | first ∷ rest ↦ first.operation_id
]

-- `none` as long as the loop at its start goes on: the queue is empty or its first job's
-- operation is 0.
unfoldable pub pick_from_queue : NipcHeader → Ppd → Option (NipcMessage × Ppd)
pick_from_queue stale p =
    if get_first_job_operation_id_from_queue p.jobs == 0 then none else picked (get p.jobs)
  where
    picked : Option Job × LinkedList Job → Option (NipcMessage × Ppd)
    picked (none, rest) = none
    picked (some j, rest) = some (build_nipc_message_from_job stale j, record p { jobs = rest })
