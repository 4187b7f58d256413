-- ===== src/Ppd/State.antt =====
-- grage-ppd/app/src/core/ppd-state.c and the globals of the other files of the process.
use grage_fat.Base.{ℕ, ◌+◌, ◌/◌, Bool, Option, List, ◌++◌}
use grage_fat.Commons.LinkedList.{LinkedList}
use grage_fat.Nipc.{NipcMessage}

-- The `Job` of grage-ppd/app/includes/ppd-queues.h.
pub record Job : Type 0 where
  pub job_id : ℕ
  pub message_type : ℕ
  pub operation_id : ℕ
  pub sector_content : List ℕ
  pub sector_id : ℕ
  pub pfs_socket : ℕ
  pub payload_length : ℕ

-- The two values of the configured algorithm for which the process has a queue.
pub data Algorithm : Type 0 where
  look : Algorithm
  sstf : Algorithm

pub data Event : Type 0 where
  sent : ℕ → NipcMessage → Event

-- `volume_file` is the file at the configured path, `none` if there is none. The disk is mapped
-- shared, so the bytes from `diskStartAddress` on are those of the file; `mapped` says whether that
-- address is set, and `mapped_size` the length that `mmap` was given. `page_rest` is what was written
-- behind the end of the file into its last page, which is zeros elsewhere. `replicating` says whether `replicationDiskVolume` is, and its stream stands at
-- the end of the file. `disk_cilinder` is the number that `getPpdDiskCilinder` spells, and
-- `cantidad_sectores_por_cilindro` the variable of ppd-utils.c.
pub record Ppd : Type 0 where
  pub jobs : LinkedList Job
  pub next_job_id : ℕ
  pub algorithm : Algorithm
  pub cantidad_sectores_por_cilindro : ℕ
  pub disk_cilinder : ℕ
  pub pista : ℕ
  pub sector_number : ℕ
  pub volume_file : Option (List ℕ)
  pub mapped : Bool
  pub mapped_size : ℕ
  pub page_rest : List ℕ
  pub volume_size : ℕ
  pub replicating : Bool
  pub replication_process_active : Bool
  pub listen_mode : Bool
  pub praid_socket : ℕ
  pub all_bytes_written : ℕ
  pub sectors_written_count : ℕ
  pub all_bytes_readed : ℕ
  pub sectors_readed_count : ℕ
  pub trace : List Event

-- How many pages of memory hold `n` bytes.
abbrev pub pages : ℕ → ℕ
pages n = (n + 4095) / 4096

abbrev pub emit : Ppd → List Event → Ppd
emit p es = record p { trace = p.trace ++ es }
