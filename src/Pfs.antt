-- ===== src/Pfs.antt =====
-- grage-pfs: the FAT32 file system. The names of entries, the volume's numbers, the caches of
-- sectors, the chains of the FAT and the pool of connections; and over these, the operations on an
-- open file: its blocks, reading and writing, giving back, changing its size, flushing, and the entries
-- of directories.
pub mod Names
pub mod Volume
pub mod DirEntry
pub mod Cache
pub mod Fat
pub mod Pool
pub mod Session
pub mod Blocks
pub mod Files
pub mod Release
pub mod Resize
pub mod Flush
pub mod Dates
pub mod Create
pub mod Directory
pub mod Fuse
