-- ===== src/Pfs/Session.antt =====
-- What an operation of grage-pfs on an open file reads and changes: the file system, the file, and
-- the sizes of the caches; and the actions on these. grage-pfs/app/includes/pfs-fat32.h has the
-- structs, grage-pfs/app/src/core/pfs-state.c the global volume.
use grage_fat.Base.{ℕ, Bool, Option, some, List, copy_into, copy_from, bind}
use grage_fat.Commons.LinkedList.{LinkedList}
use grage_fat.Pfs.Volume.{Volume}
use grage_fat.Pfs.DirEntry.{DirEntry}
use grage_fat.Pfs.Names.{LongDirEntry}
use grage_fat.Pfs.Cache.{CacheSectorRecord, Cached}
use grage_fat.Pfs.Fat.{FatState, get_next_cluster_in_chain}

-- `content` and `fileSectorNumberOfCluster`, which nothing reads, are left out. `cache` is `none`
-- where it is `NULL`, as it is when caches are off.
pub record FatFile : Type 0 where
  pub source : ℕ
  pub source_offset : ℕ
  pub next_cluster : ℕ
  pub current_sector : ℕ
  pub short_entry : DirEntry
  pub long_entry : LongDirEntry
  pub dir_entry_offset : ℕ
  pub dir_type : ℕ
  pub eoc : ℕ
  pub file_cluster_number : ℕ
  pub file_absolute_cluster_number_write : ℕ
  pub file_absolute_cluster_number_read : ℕ
  pub file_cluster_offset : ℕ
  pub cache : Option (LinkedList CacheSectorRecord)

-- What the configuration fixes: whether caches are on, and how many records each may have.
pub record CacheSizes : Type 0 where
  pub cache_habilitada : Bool
  pub fat_max_count : ℕ
  pub file_max_count : ℕ

pub record Session : Type 0 where
  pub fat : FatState
  pub sizes : CacheSizes
  pub file : FatFile

-- `none` is the end of the process, by an access that C does not define, or a loop without an end.
abbrev pub Action : Type 0 → Type 0
Action A = Session → Option (A × Session)

abbrev pub pure : {A : Type 0} → A → Action A
pure a s = some (a, s)

infixl 5 ◌>>=◌ ◌>>◌
abbrev pub ◌>>=◌ : {A B : Type 0} → Action A → (A → Action B) → Action B
◌>>=◌ m f s = bind (m s) (λ (a, s'). f a s')

abbrev pub ◌>>◌ : {B : Type 0} → Action (Unit {0}) → Action B → Action B
m >> k = m >>= λ _. k

abbrev pub get_file : Action FatFile
get_file s = some (s.file, s)

abbrev pub get_volume : Action Volume
get_volume s = some (s.fat.volume, s)

abbrev pub modify_file : (FatFile → FatFile) → Action (Unit {0})
modify_file f s = some (tt, record s { file = f s.file })

abbrev pub modify_volume : (Volume → Volume) → Action (Unit {0})
modify_volume f s = some (tt, record s { fat = record (s.fat) { volume = f s.fat.volume } })

abbrev pub with_cached : Session → Cached → Session
with_cached s c = record s { fat = record (s.fat) { cached = c } }

-- `memcpy` out of an array, and into one.
abbrev pub load : List ℕ → ℕ → ℕ → Action (List ℕ)
load xs at n s = bind (copy_from xs at n) (λ ys. some (ys, s))

abbrev pub store : List ℕ → ℕ → List ℕ → Action (List ℕ)
store xs at ys s = bind (copy_into xs at ys) (λ zs. some (zs, s))

-- `pfs_fat32_utils_getNextClusterInChain` on the state.
unfoldable pub next_in_chain : ℕ → Action ℕ
next_in_chain cluster s =
    bind (get_next_cluster_in_chain s.fat.volume s.sizes.fat_max_count cluster s.fat.cached)
      (λ (next, c). some (next, with_cached s c))
