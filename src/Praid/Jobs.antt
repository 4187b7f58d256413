-- ===== src/Praid/Jobs.antt =====
-- grage-praid/app/src/core/praid-queue.c. No job changes once it is built, so a pointer to a job is
-- the job. `jobId`, which this process never writes nor reads, is left out.
use grage_fat.Base.{ℕ, Bool, Option, none, some, List, [], ◌∷◌, ◌==◌, if◌then◌else◌}
use grage_fat.Commons.LinkedList.{LinkedList}
use grage_fat.Commons.Queue.{put, get, build_queue}
use grage_fat.Nipc.{NipcMessage, NipcHeader, get_sectors}

pub record Job : Type 0 where
  pub message_type : ℕ
  pub operation_id : ℕ
  pub sector_content : List ℕ
  pub sector_id : ℕ
  pub pfs_socket : ℕ
  pub payload_length : ℕ

unfoldable pub build_job : NipcMessage → Job
build_job m = record {
  message_type = m.header.message_type;
  operation_id = m.header.operation_id;
  sector_content = m.payload.disk_sector.sector_content;
  sector_id = m.payload.disk_sector.sector_number;
  pfs_socket = m.payload.pfs_socket;
  payload_length = m.header.payload_length;
}

-- The two fields of the header that the function does not set are those of `stale`, the
-- uninitialised message on the stack.
unfoldable pub build_message_from_job : NipcHeader → Job → NipcMessage
build_message_from_job stale j = record {
  header = record stale {
    payload_length = j.payload_length;
    message_type = j.message_type;
    operation_id = j.operation_id;
  };
  payload = record {
    disk_sector = record { sector_number = j.sector_id; sector_content = j.sector_content };
    pfs_socket = j.pfs_socket;
  };
}

-- `praid_jobs_eq`; the jobs of a queue are never `NULL`.
unfoldable pub jobs_eq : Job → Job → Bool
jobs_eq j1 j2 = j1.sector_id == j2.sector_id

unfoldable pub storage_queue_put : LinkedList Job → NipcMessage → LinkedList Job
storage_queue_put q m = put q (build_job m)

-- `none` stands for the access through a null pointer that an empty queue leads to.
unfoldable pub storage_queue_get :
    NipcHeader → LinkedList Job → Option (NipcMessage × LinkedList Job)
storage_queue_get stale q = message_of (get q)
  where
    message_of : Option Job × LinkedList Job → Option (NipcMessage × LinkedList Job)
    message_of (none, rest) = none
    message_of (some j, rest) = some (build_message_from_job stale j, rest)

abbrev pub is_get : Job → Bool
is_get j = j.operation_id == get_sectors

-- `praid_utils_fillReadingQueue`: the loop over the jobs of a queue.
unfoldable pub fill_reading_queue : List Job → LinkedList Job → LinkedList Job
fill_reading_queue [] reading = reading
fill_reading_queue (j ∷ jobs) reading =
    fill_reading_queue jobs (if is_get j then put reading j else reading)

-- `praid_utils_getReadingJobs`, over the storage's two queues.
unfoldable pub get_reading_jobs : LinkedList Job → LinkedList Job → LinkedList Job
unfolding fill_reading_queue
get_reading_jobs pending sended =
    fill_reading_queue sended.elements (fill_reading_queue pending.elements (build_queue jobs_eq))
