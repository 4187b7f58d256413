-- ===== src/Praid/Requests/Replication.antt =====
-- Where the requests of a PFS go: writes to every PPD, reads to one.
use grage_fat.Base.{
  ◌≡◌, refl, sym, subst, inl, inr, ◌↔◌, none, some, List, [], ◌∷◌, ◌++◌, All, In, length, arith,
}
use grage_fat.Commons.Queue.{put-elements}
use grage_fat.Nipc.{NipcMessage}
use grage_fat.Praid.Jobs.{build_job, storage_queue_put}
use grage_fat.Praid.State.{Praid, Storage}
use grage_fat.Praid.Balancer.{select_storage}
use grage_fat.Praid.Balancer.Minimum.{select_storage-IsLeast}
use grage_fat.Praid.Requests.{put_each, execute_put_sector, execute_get_sector}
use grage_fat.Praid.WellFormed.{IsQueued, IsWellFormed}

-- The storage of the connection is in the list, with the job at the end of its queue.
abbrev pub IsQueuedAt : NipcMessage → Storage → List Storage → Type 0
IsQueuedAt m s ss =
    (t : Storage) × In t ss
    × (t.connection ≡ s.connection)
    × (t.pending_jobs.elements ≡ s.pending_jobs.elements ++ build_job m ∷ [])
    × (t.sended_jobs ≡ s.sended_jobs)

put_each-IsQueuedAt :
    (m : NipcMessage) (s : Storage) (ss : List Storage)
    → All IsQueued ss
    → In s ss
    → IsQueuedAt m s (put_each m ss)
unfolding put_each storage_queue_put
put_each-IsQueuedAt m s [] q at = elim at [ ]
put_each-IsQueuedAt m s (t ∷ ss) q (inl e) =
    subst (λ u. IsQueuedAt m u (put_each m (t ∷ ss))) (sym e)
      (_, inl refl, refl, put-elements t.pending_jobs (build_job m) q.0.pending_fifo, refl)
put_each-IsQueuedAt m s (t ∷ ss) q (inr at) =
    let (u, there, c, e, f) = put_each-IsQueuedAt m s ss q.1 at in (u, inr there, c, e, f)

length-put_each : (m : NipcMessage) (ss : List Storage) → length (put_each m ss) ≡ length ss
unfolding put_each
length-put_each m [] = refl
length-put_each m (s ∷ ss) = omega (arith, length-put_each m ss)

-- A write is queued at every PPD of the cluster, behind the jobs that wait there, and at no other
-- place: the list has no more storages than before.
pub execute_put_sector-IsQueuedAt :
    (p : Praid) (m : NipcMessage)
    → IsWellFormed p.storages
    → ((s : Storage)
        → In s p.storages.elements
        → IsQueuedAt m s (execute_put_sector p m).storages.elements)
      × (length (execute_put_sector p m).storages.elements ≡ length p.storages.elements)
unfolding execute_put_sector
execute_put_sector-IsQueuedAt p m w = (
  (λ s at. put_each-IsQueuedAt m s p.storages.elements w.queued at),
  length-put_each m p.storages.elements,
)

some_lem :
    (p : Praid) (m : NipcMessage) (s : Storage)
    → select_storage p ≡ some s
    → execute_get_sector p m ≡ none
    → p.storages.elements ≡ []
unfolding execute_get_sector
some_lem p m s e = rw (e, execute_get_sector) (λ n. cc)

-- A read ends the server, by an access through a null pointer, exactly when no PPD is connected.
pub execute_get_sector-none :
    (p : Praid) (m : NipcMessage) → (execute_get_sector p m ≡ none) ↔ (p.storages.elements ≡ [])
unfolding execute_get_sector
execute_get_sector-none p m = elim (select_storage-IsLeast p) [
  | inl (empty, e) ↦ ((λ _. empty), λ _. rw (e, execute_get_sector))
  | inr (s, e, least) ↦ ((λ n. some_lem p m s e n), (λ n. elim (subst (In s) n least.among) [ ]))
]
