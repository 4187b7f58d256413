-- ===== src/Lib.antt =====
-- grage-fat is a FAT32 file system kept on a RAID-1 of disk servers. Three programs talk by
-- messages over sockets:
--
-- grage-pfs, the file system, reads and writes 512-byte sectors through caches; it asks
-- grage-praid, which sends every write to all its disks and every read to the one with the least
-- work, hands out again the reads of a disk that it loses, and copies a disk to each new one; and
-- grage-ppd, a disk, which queues what it is asked by the way its head has to go, serves it from a
-- mapped file, and takes part in copies.
--
-- They share grage-commons (chains, queues, loops over sockets) and grage-nipc (the messages).
--
-- Base holds what all files share: tests on numbers, lists, C's unsigned words as numbers with
-- their wrap-around, little-endian numbers and copies into arrays.
--
-- Commons: grage-commons/app/src/misc. Commons.LinkedList is linux-commons-list.c, a chain as the
-- list of its nodes' data with the C count and the chain's criteria; Commons.Queue is
-- linux-commons-queue.c over it; Commons.Socket has the loops of sendBytes and receiveBytes of
-- linux-commons-socket.c, with the kernel's answers as parameters.
--
-- Nipc: grage-nipc/app and grage-commons/app/includes/grage-commons.h. Nipc has the messages and
-- their builder, Nipc.Wire the bytes of the packed struct, Nipc.Messaging the calls that send and
-- receive one. What a stack variable holds before it is set is a parameter `stale`.
--
-- Praid: grage-praid/app/src. Praid.Jobs is core/praid-queue.c, Praid.State core/praid-state.c,
-- Praid.Balancer core/praid-balancer.c, Praid.Sync core/praid-ppd-synchronizer.c with
-- services/endpoint/praid-endpoint.c, Praid.Requests services/entrypoint/praid-pfs-entrypoint.c,
-- Praid.Entry services/entrypoint/praid-entrypoint-listener.c, and Praid.Threads
-- core/praid-ppd-thread.c, one function for a round of each thread. The state is a record of the
-- process' globals and of what it sent and closed. A round is modelled as it runs without what
-- other threads do meanwhile, although no mutex makes a round one step; where a thread sleeps with
-- a new PPD, and where it has collected the reads of a lost one, the round is in two parts, each a
-- function of the state that it finds. Praid.Steps puts these together as a relation: any series
-- of rounds and of these parts, with the descriptors that the process has open.
--
-- Ppd: grage-ppd/app/src. Ppd.State has core/ppd-state.c and the globals, Ppd.Geometry
-- core/ppd-utils.c, Ppd.Queues the planifier's queue and strategies, Ppd.Disk
-- core/ppd-persistence.c, Ppd.Sync core/ppd-sync.c, and Ppd.Entry a round of each thread of
-- services/*-entrypoint.c and of the worker that serves the queue.
--
-- Pfs: grage-pfs/app/src. Pfs.Volume, Pfs.DirEntry, Pfs.Names and Pfs.Fat are
-- core/pfs-fat-utils.c: the numbers of a volume, the first cluster of an entry, its name, the
-- chains of the FAT. Pfs.Cache is core/pfs-cache.c and core/pfs-file-cache.c with the calls of
-- services/pfs-endpoint.c that go through them, over a device that gives each sector's content:
-- what the messages to grage-praid mean. Pfs.Pool is core/pfs-connection-pool.c. Pfs.Session has
-- the state of an operation on an open file: the FAT with its cache, the device, the file with its
-- own cache, and the sizes of the caches. On it stand the operations: Pfs.Blocks has the blocks of
-- pfs-fat-utils.c, Pfs.Files reading and writing, Pfs.Release unlink and rmdir, Pfs.Resize
-- truncate and extending, Pfs.Flush the flushes of core/pfs-fat32.c, and Pfs.Fuse the callbacks of
-- core/pfs-fuse.c that call these. Pfs.Fat.Table has the FAT as a table of numbers, and
-- Pfs.Blocks.Reading what a process sees through its caches. Pfs.Create has mknod, mkdir, rename
-- and the test for an empty directory, Pfs.Directory what a directory lists, and Pfs.Dates the
-- dates of entries.
--
-- `none` is the end of a process, by `exit` or by an access that C does not define; each file says
-- which. A mutex makes what it guards, an operation on one chain, one step. Allocation does not
-- fail.
--
-- Bounds. Ppd.Sync reads a file with as much fuel as it has bytes, and a round that goes on takes
-- 512 of them. The search for a free cluster in Pfs.Fat has the number of clusters left as its
-- fuel, and takes one each round. The walk to the end of a chain, which in C does not end on a
-- chain that is a ring, takes its fuel from the caller, and so do the loops of unlink and truncate
-- that give back a chain, and those over the entries of a directory. The loops of a read and of a
-- write have the number of bytes as their fuel, and take at least one each round; the walk to the
-- n-th cluster has n, and the one of truncate the new size.
--
-- Not modelled: opening a path that is not the root, and moving an entry to another directory in
-- core/pfs-fat32.c, and the callbacks that do so; the list of open files; how a path gives the
-- characters of an entry's name; the reading of a configuration; strings; the consoles, logs and
-- configuration files, which are input and output; the delays of a disk's head, which are in
-- floating point; how connections are opened; what `free` does. The tests named `_example` run the
-- results at concrete inputs.
pub mod Base
pub mod Commons
pub mod Nipc
pub mod Praid
pub mod Ppd
pub mod Pfs
mod Tests
