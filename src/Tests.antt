-- ===== src/Tests.antt =====
-- The theorems at concrete inputs.
mod Commons
mod Nipc
mod Praid
mod Ppd
mod Pfs
mod Files
mod Directories
