-- ===== src/Praid/Threads/Orphans.antt =====
-- What becomes of the read jobs of a PPD that disconnects: `praid_ppd_processDisconnection` with the
-- balancer.
use mathlib.Core.List.{Perm, perm_middle}
use mathlib.Core.List.Perm
use mathlib.Core.Path.{subst₂}
use grage_fat.Base.{
  ◌<◌, ◌≡◌, sym, ap, ◌∙◌, subst, inl, inr, Bool, true, List, [], ◌∷◌, ◌++◌, append_assoc,
  append-nil, Bool-cases, All, In, length, nil_of_length, erase, select, ◌==◌, arith,
}
use grage_fat.Commons.LinkedList.{LinkedList}
use grage_fat.Commons.LinkedList.Remove.{IsCounted, remove_node-find}
use grage_fat.Commons.Queue.{
  IsFifo, put, is_empty, put-elements, put-IsFifo, put-IsCounted, build_queue_lem,
}
use grage_fat.Praid.Jobs.{Job, jobs_eq, is_get, fill_reading_queue, get_reading_jobs}
use grage_fat.Praid.State.{
  Praid, Storage, storage_eq, update_elements, update_storage, remove_ppd_storage,
}
use grage_fat.Praid.Balancer.{assign_job, redistribute, redistribute_jobs}
use grage_fat.Praid.Balancer.Minimum.{select_storage-IsLeast}
use grage_fat.Praid.Threads.{begin_disconnection, finish_disconnection}
use grage_fat.Praid.WellFormed.{
  IsQueued, IsFresh, AreDistinct, IsWellFormed, length-update_elements, update_elements_absent,
  remove_ppd_storage-IsWellFormed,
}
use grage_fat.Praid.WellFormed.Listener.{assign_job-IsWellFormed}

-- The jobs that wait at some storage.
abbrev pub pending_of : List Storage → List Job
pending_of [] = []
pending_of (s ∷ ss) = s.pending_jobs.elements ++ pending_of ss

-- The reads in a storage's queue and in its list of sent jobs. An answer takes out of that list the
-- job that was sent first for the sector, which may be another than the one it answers.
abbrev pub reads_of : Storage → List Job
reads_of s = select is_get s.pending_jobs.elements ++ select is_get s.sended_jobs.elements

abbrev append_job : Job → Storage → Storage
append_job j s = record s { pending_jobs = put s.pending_jobs j }

update_elements-perm :
    (j : Job) (s : Storage) (ss : List Storage)
    → In s ss
    → All IsQueued ss
    → AreDistinct ss
    → Perm (pending_of (update_elements s.connection (append_job j) ss)) (j ∷ pending_of ss)
unfolding update_elements
update_elements-perm j s [] at q d = elim at [ ]
update_elements-perm j s (t ∷ ss) at q d = elim (Bool-cases (t.connection == s.connection)) [
  | inl e ↦
      let same : t.connection ≡ s.connection = ground arith in
      let rest =
        update_elements_absent s.connection (append_job j) ss
          (subst (λ c. IsFresh c ss) same d.0) in
      rw
        (
          e,
          rest,
          put-elements t.pending_jobs j q.0.pending_fifo,
          append_assoc t.pending_jobs.elements (j ∷ []) (pending_of ss),
        )
        (perm_middle t.pending_jobs.elements (pending_of ss))
  | inr e ↦ rw e (
      Perm.trans
        (Perm.append_left t.pending_jobs.elements (
          update_elements-perm j s ss
            (elim at [
              | inl same ↦ absurd (ground (arith, ap (λ (u : Storage). u.connection) same))
              | inr later ↦ later
            ])
            q.1 d.1))
        (perm_middle t.pending_jobs.elements (pending_of ss)))
]

redistribute-perm :
    (jobs : List Job) (p : Praid)
    → IsWellFormed p.storages
    → 0 < length p.storages.elements
    → Perm
        (pending_of (redistribute jobs p).storages.elements)
        (jobs ++ pending_of p.storages.elements)
unfolding redistribute
redistribute-perm [] p w h = Perm.rfl
redistribute-perm (j ∷ jobs) p w h = elim (select_storage-IsLeast p) [
  | inl (nobody, e) ↦ absurd (omega (arith, ap length nobody))
  | inr (s, e, least) ↦
      let ss = p.storages.elements in
      let p' = assign_job p s j in
      let one : Perm (pending_of p'.storages.elements) (j ∷ pending_of ss) =
        unfold assign_job update_storage in
        update_elements-perm j s ss least.among w.queued w.distinct in
      let rest = redistribute-perm jobs p' (assign_job-IsWellFormed p s j w) (
        unfold assign_job update_storage in
        omega (arith, length-update_elements s.connection (append_job j) ss)) in
      rw (e, redistribute)
        (Perm.trans rest
          (Perm.trans (Perm.append_left jobs one) (perm_middle jobs (pending_of ss))))
]

-- The queue that collects the reads.
abbrev Collects : LinkedList Job → List Job → Type 0
Collects q js = IsFifo q × IsCounted q × (q.elements ≡ js)

fill_reading_queue-Collects :
    (jobs : List Job) (q : LinkedList Job) (js : List Job)
    → Collects q js
    → Collects (fill_reading_queue jobs q) (js ++ select is_get jobs)
unfolding fill_reading_queue select
fill_reading_queue-Collects [] q js (f, c, e) = (f, c, e ∙ sym (append-nil js))
fill_reading_queue-Collects (j ∷ jobs) q js (f, c, e) = elim (Bool-cases (is_get j)) [
  | inl g ↦
      rw (g, fill_reading_queue)
        (subst (Collects (fill_reading_queue jobs (put q j)))
          (append_assoc js (j ∷ []) (select is_get jobs))
          (fill_reading_queue-Collects jobs (put q j) (js ++ j ∷ []) (
            put-IsFifo q j f,
            put-IsCounted q j c,
            put-elements q j f ∙ ap (λ (l : List Job). l ++ j ∷ []) e,
          )))
  | inr g ↦ rw (g, fill_reading_queue) (fill_reading_queue-Collects jobs q js (f, c, e))
]

get_reading_jobs-Collects :
    (s : Storage) → Collects (get_reading_jobs s.pending_jobs s.sended_jobs) (reads_of s)
unfolding get_reading_jobs
get_reading_jobs-Collects s =
    fill_reading_queue-Collects s.sended_jobs.elements _ (select is_get s.pending_jobs.elements)
      (fill_reading_queue-Collects s.pending_jobs.elements _ [] (build_queue_lem jobs_eq))

is_empty-length : (q : LinkedList Job) → IsCounted q → is_empty q ≡ true → length q.elements ≡ 0
unfolding is_empty
is_empty-length q c e = ground arith

pub remaining :
    (p : Praid) (s : Storage)
    → IsWellFormed p.storages
    → (remove_ppd_storage p s).storages.elements ≡ erase (λ t. storage_eq t s) p.storages.elements
unfolding remove_ppd_storage
remaining p s w =
    (remove_node-find p.storages s).1
    ∙ ap (λ (eq : Storage → Storage → Bool). erase (λ t. eq t s) p.storages.elements) w.equality

-- A PPD is lost, and its reads, those that wait in its queue and those in its list of sent jobs, are
-- collected from the storage `s` as it is then. Until the storage is taken from the list, in the
-- state `p`, the other threads may do what they like. If `p` is well-formed and another PPD is left
-- in it, and no thread changes the storages from there on, then the jobs that wait at the others
-- are those that waited there in `p` and, once each, the collected reads. The writes of the lost PPD
-- are in neither, nor is a read that was put into its queue after the collection.
pub finish_disconnection-perm :
    (before p : Praid) (s : Storage)
    → IsWellFormed p.storages
    → 0 < length (erase (λ t. storage_eq t s) p.storages.elements)
    → Perm
        (pending_of (finish_disconnection (begin_disconnection before s).0 p s).storages.elements)
        (reads_of s ++ pending_of (erase (λ t. storage_eq t s) p.storages.elements))
unfolding begin_disconnection finish_disconnection redistribute_jobs
finish_disconnection-perm before p s w h =
    let reading = get_reading_jobs s.pending_jobs s.sended_jobs in
    let (f, c, e) = get_reading_jobs-Collects s in
    let removed = remove_ppd_storage p s in
    let left : removed.storages.elements ≡ erase (λ t. storage_eq t s) p.storages.elements =
      remaining p s w in
    elim (Bool-cases (is_empty reading)) [
      | inl empty ↦
          let none_read : reads_of s ≡ [] =
            sym e ∙ nil_of_length reading.elements (is_empty-length reading c empty) in
          rw (empty, none_read, left) Perm.rfl
      | inr busy ↦
          let shared =
            redistribute-perm reading.elements removed (remove_ppd_storage-IsWellFormed p s w)
              (subst (λ ss. 0 < length ss) (sym left) h) in
          rw busy (
            subst₂
              (λ js ss.
                Perm (pending_of (redistribute reading.elements removed).storages.elements)
                  (js ++ pending_of ss))
              e left shared)
    ]
