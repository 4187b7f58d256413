-- ===== src/Praid/Balancer.antt =====
-- grage-praid/app/src/core/praid-balancer.c: the storage with the least work, and the work of a
-- lost storage shared out among the others. The two mutexes make each function one step.
pub mod Minimum
use grage_fat.Base.{
  ℕ, ◌+◌, ◌*◌, Bool, true, Option, none, some, List, [], ◌∷◌, ◌==◌, ltb, if◌then◌else◌, u32,
}
use grage_fat.Commons.LinkedList.{LinkedList}
use grage_fat.Commons.Queue.{put}
use grage_fat.Praid.Jobs.{Job}
use grage_fat.Praid.State.{Praid, Storage, update_storage}

abbrev pub weight_pending_response : ℕ
weight_pending_response = 1

abbrev pub weight_pending_request : ℕ
weight_pending_request = 2

unfoldable pub storage_ranking : Storage → ℕ
storage_ranking s =
    u32
      (s.pending_jobs.size * weight_pending_request + s.pending_responses * weight_pending_response)

abbrev pub is_better : Option Storage → ℕ → Storage → Bool
is_better none minimum s = true
is_better (some selected) minimum s = ltb (storage_ranking s) minimum

-- The loop of `praid_balancer_selectStorage` over the rest of the list, with its two variables.
unfoldable pub select_from : List Storage → ℕ → Option Storage → Option Storage
select_from [] minimum selected = selected
select_from (s ∷ rest) minimum selected =
    let taken = select_from rest (storage_ranking s) (some s) in
    let passed = select_from rest minimum selected in
    if is_better selected minimum s
    then (if storage_ranking s == 0 then some s else taken)
    else passed

unfoldable pub select_storage : Praid → Option Storage
unfolding select_from
select_storage p = select_from p.storages.elements 0 none

unfoldable pub assign_job : Praid → Storage → Job → Praid
assign_job p s j =
    update_storage s.connection (λ t. record t { pending_jobs = put t.pending_jobs j }) p

unfoldable pub redistribute : List Job → Praid → Praid
redistribute [] p = p
redistribute (j ∷ jobs) p = elim (select_storage p) [
  | none ↦ p
  | some best ↦ redistribute jobs (assign_job p best j)
]

unfoldable pub redistribute_jobs : LinkedList Job → Praid → Praid
unfolding redistribute
redistribute_jobs jobs p = redistribute jobs.elements p
