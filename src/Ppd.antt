-- ===== src/Ppd.antt =====
-- grage-ppd: a disk server. The queue of jobs and its order, the disk, the copy of a disk, and the
-- rounds of its threads.
pub mod State
pub mod Geometry
pub mod Queues
pub mod Disk
pub mod Sync
pub mod Entry
