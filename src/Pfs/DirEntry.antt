-- ===== src/Pfs/DirEntry.antt =====
-- grage-pfs/app/src/core/pfs-fat-utils.c: the first cluster of a directory entry, kept in two
-- halves. An entry may be `NULL`, which is `none`.
use grage_fat.Base.{
  ℕ, ◌+◌, ◌*◌, ◌/◌, ◌<◌, ◌^◌, ◌≡◌, Option, none, some, List, u16, arith, refl, [], ◌∷◌, ◌++◌,
  bytes_of,
}

pub record DirEntry : Type 0 where
  pub name : List ℕ
  pub attr : ℕ
  pub nt_res : ℕ
  pub crt_time_tenth : ℕ
  pub crt_time : ℕ
  pub crt_date : ℕ
  pub lst_acc_date : ℕ
  pub fst_clus_hi : ℕ
  pub wrt_time : ℕ
  pub wrt_date : ℕ
  pub fst_clus_lo : ℕ
  pub file_size : ℕ

-- The 32 bytes of the packed struct.
unfoldable pub encode_dir_entry : DirEntry → List ℕ
encode_dir_entry d =
    d.name
    ++ (d.attr ∷ d.nt_res ∷ d.crt_time_tenth ∷ [])
    ++ bytes_of 2 d.crt_time
    ++ bytes_of 2 d.crt_date
    ++ bytes_of 2 d.lst_acc_date
    ++ bytes_of 2 d.fst_clus_hi
    ++ bytes_of 2 d.wrt_time
    ++ bytes_of 2 d.wrt_date
    ++ bytes_of 2 d.fst_clus_lo
    ++ bytes_of 4 d.file_size

abbrev pub exit_failure : ℕ
exit_failure = 1

abbrev pub exit_success : ℕ
exit_success = 0

-- The two low bytes of the number go to one field and the two high ones to the other.
unfoldable pub set_first_cluster : Option DirEntry → ℕ → Option DirEntry × ℕ
set_first_cluster none cluster = (none, exit_failure)
set_first_cluster (some d) cluster = (
  some (record d { fst_clus_lo = u16 cluster; fst_clus_hi = u16 (cluster / 2 ^ 16) }),
  exit_success,
)

unfoldable pub get_first_cluster : Option DirEntry → ℕ
get_first_cluster none = exit_failure
get_first_cluster (some d) = u16 d.fst_clus_lo + u16 d.fst_clus_hi * 2 ^ 16

-- An entry gives back the cluster that was set, and the call reports success.
get_first_cluster-set_first_cluster :
    (d : DirEntry) (cluster : ℕ)
    → cluster < 2 ^ 32
    → (get_first_cluster (set_first_cluster (some d) cluster).0 ≡ cluster)
      × ((set_first_cluster (some d) cluster).1 ≡ exit_success)
unfolding get_first_cluster set_first_cluster
get_first_cluster-set_first_cluster d cluster h = (omega arith, refl)
