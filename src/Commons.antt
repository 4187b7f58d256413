-- ===== src/Commons.antt =====
-- grage-commons/app/src/misc: the structures that all the processes share.
pub mod LinkedList
pub mod Queue
pub mod Socket
