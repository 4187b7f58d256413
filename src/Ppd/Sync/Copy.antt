-- ===== src/Ppd/Sync/Copy.antt =====
-- The copy of a disk, from the request to the master to the last message to the new PPD.
use grage_fat.Ppd.State.{Ppd}
