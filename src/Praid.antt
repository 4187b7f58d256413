-- ===== src/Praid.antt =====
-- grage-praid: the RAID-1 server between the file system (PFS) and the disks (PPDs). Each child
-- models the file of grage-praid/app/src that its header names.
pub mod Jobs
pub mod State
pub mod Balancer
pub mod Sync
pub mod Requests
pub mod Entry
pub mod Threads
pub mod WellFormed
pub mod Steps
