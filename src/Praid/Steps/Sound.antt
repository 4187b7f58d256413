-- ===== src/Praid/Steps/Sound.antt =====
-- What holds of the server however the steps of its threads follow each other.
use grage_fat.Base.{
  ℕ, ◌≡◌, ◌≢◌, refl, sym, subst, inl, inr, false, List, ◌∷◌, Bool-cases, Option-cases, All, All-In,
  In, erase, ◌==◌,
}
use grage_fat.Commons.LinkedList.{LinkedList, build_list}
use grage_fat.Nipc.{NipcMessage, NipcPayload, is_blank_message, type_sync_process}
use grage_fat.Praid.State.{
  Praid, Storage, storage_eq, initialize_storages, update_storage, set_disconnected,
}
use grage_fat.Praid.Sync.{fire_synchronization, call_process_jobs}
use grage_fat.Praid.Jobs.{Job}
use grage_fat.Praid.Entry.{Joining, begin_connection, replicate_or_start, start_ppd}
use grage_fat.Praid.Threads.{listener_step, begin_disconnection, finish_disconnection}
use grage_fat.Praid.Threads.Orphans.{remaining}
use grage_fat.Praid.WellFormed.{IsQueued, IsFresh, IsWellFormed, update_storage-IsWellFormed}
use grage_fat.Praid.WellFormed.Connections.{
  Connect, ConnectSome, ConnectServed, update_storage-Connect, finish_disconnection-Connect,
  receive-Connect, sender_step-Connect, process_request-Connect, begin_connection-Connect,
}
use grage_fat.Praid.WellFormed.Listener.{
  Keeps, check-storages, listener_step-Keeps, finish_disconnection-IsWellFormed,
}
use grage_fat.Praid.WellFormed.Requests.{
  Leaves, sender_step-Keeps, process_request-Leaves, start_ppd-Keeps, begin_connection-IsWellFormed,
}
use grage_fat.Praid.Steps.Descriptors.{weaken, erase-IsFresh, erase-All, closed-All}
use grage_fat.Praid.Balancer.{assign_job}
use grage_fat.Praid.WellFormed.{remove_ppd_storage-IsWellFormed}
use grage_fat.Praid.WellFormed.Listener.{assign_job-IsWellFormed}
use grage_fat.Praid.State.{remove_ppd_storage}
use grage_fat.Praid.Steps.{
  Server, Step, begins, starts, requests, listens, loses, finishes, assigns, removes, sends, closes,
  Reach, here, next, close_descriptor,
}

-- Queues and storages are well-formed, and the connection of each storage is open.
abbrev pub IsSound : Praid → List ℕ → Type 0
IsSound p opened = IsWellFormed p.storages × Connect (λ c. In c opened) p

begins-IsSound :
    (v : Server) (stale : NipcPayload) (socket : ℕ) (m : NipcMessage)
    → All (λ c. c ≢ socket) v.opened
    → IsSound v.praid v.opened
    → IsSound (begin_connection stale v.praid socket m).1 (socket ∷ v.opened)
begins-IsSound v stale socket m f (w, k) =
    let ss = v.praid.storages.elements in
    let fresh : IsFresh socket ss =
      weaken (λ c. In c v.opened) (λ c. c ≢ socket) ss
        (λ s at i. All-In (λ c. c ≢ socket) v.opened s.connection f i) k in
    (
      begin_connection-IsWellFormed stale v.praid socket m fresh w,
      begin_connection-Connect (λ c. In c (socket ∷ v.opened)) stale v.praid socket m w.fifo
          (inl refl)
          (weaken (λ c. In c v.opened) (λ c. In c (socket ∷ v.opened)) ss (λ s at i. inr i) k),
    )

start_ppd-Connect :
    (Q : ℕ → Type 0) (stale : NipcPayload) (j : Joining) (p : Praid)
    → Connect Q p
    → ConnectSome Q (start_ppd stale j p)
unfolding start_ppd replicate_or_start fire_synchronization call_process_jobs
start_ppd-Connect Q stale j p k = elim (Bool-cases j.copies) [
  | inl e ↦ rw e (elim (Option-cases j.master) [ inl n ↦ rw n tt | inr (s, n) ↦ rw n k ])
  | inr e ↦ rw e k
]

listener_step-Connect :
    (Q : ℕ → Type 0) (stale : NipcPayload) (p : Praid) (s : Storage) (m : NipcMessage)
    → is_blank_message m ≡ false
    → Connect Q p
    → ConnectSome Q (listener_step stale p s m)
unfolding listener_step
listener_step-Connect Q stale p s m b k =
    let (sync, response) = receive-Connect Q stale p s m k in
    rw b (elim (Bool-cases (m.header.message_type == type_sync_process)) [
      | inl e ↦ rw e sync
      | inr e ↦ rw e response
    ])

loses-IsSound :
    (p : Praid) (opened : List ℕ) (s : Storage)
    → IsSound p opened
    → IsSound (begin_disconnection (update_storage s.connection set_disconnected p) s).1 opened
unfolding begin_disconnection set_disconnected
loses-IsSound p opened s (w, k) =
    let lost = update_storage s.connection set_disconnected p in
    subst (λ l. IsWellFormed l × All (λ t. In t.connection opened) l.elements)
      (sym (check-storages lost s.id))
      (
        update_storage-IsWellFormed s.connection set_disconnected (λ t. refl)
            (λ t q. record {
              pending_fifo = q.pending_fifo;
              pending_counted = q.pending_counted;
              sended_fifo = q.sended_fifo;
              sended_counted = q.sended_counted;
            })
            p w,
        update_storage-Connect (λ c. In c opened) s.connection set_disconnected (λ t. refl) p k,
      )

removes-IsSound :
    (p : Praid) (opened : List ℕ) (s : Storage)
    → IsSound p opened
    → IsSound (remove_ppd_storage p s) (close_descriptor s.connection opened)
removes-IsSound p opened s (w, k) =
    let left = erase (λ t. storage_eq t s) p.storages.elements in
    (
      remove_ppd_storage-IsWellFormed p s w,
      subst (All (λ t. In t.connection (close_descriptor s.connection opened)))
          (sym (remaining p s w))
          (closed-All s.connection opened left (erase-IsFresh s p.storages.elements w.distinct)
            (erase-All (λ c. In c opened) (λ t. storage_eq t s) p.storages.elements k)),
    )

finishes-IsSound :
    (p : Praid) (opened : List ℕ) (s : Storage) (reading : LinkedList Job)
    → IsSound p opened
    → IsSound (finish_disconnection reading p s) (close_descriptor s.connection opened)
finishes-IsSound p opened s reading h = (
  finish_disconnection-IsWellFormed reading p s h.0,
  finish_disconnection-Connect (λ c. In c (close_descriptor s.connection opened)) reading p s
      (removes-IsSound p opened s h).1,
)

assigns-IsSound :
    (p : Praid) (opened : List ℕ) (s : Storage) (j : Job)
    → IsSound p opened
    → IsSound (assign_job p s j) opened
assigns-IsSound p opened s j (w, k) = (
  assign_job-IsWellFormed p s j w,
  unfold assign_job in update_storage-Connect (λ c. In c opened) s.connection _ (λ t. refl) p k,
)

pub Step-IsSound : {v u : Server} → Step v u → IsSound v.praid v.opened → IsSound u.praid u.opened
Step-IsSound {v} (begins stale socket m f) h = begins-IsSound v stale socket m f h
Step-IsSound {v} (starts stale j at e) (w, k) = (
  subst Keeps e (start_ppd-Keeps stale j v.praid w),
  subst (ConnectSome (λ c. In c v.opened)) e (start_ppd-Connect _ stale j v.praid k),
)
Step-IsSound {v} (requests socket m more e) (w, k) = (
  subst Leaves e (process_request-Leaves v.praid socket m w),
  subst (ConnectServed (λ c. In c v.opened)) e (process_request-Connect _ v.praid socket m k),
)
Step-IsSound {v} (listens stale s m at b e) (w, k) = (
  subst Keeps e (listener_step-Keeps stale v.praid s m w),
  subst (ConnectSome (λ c. In c v.opened)) e (listener_step-Connect _ stale v.praid s m b k),
)
Step-IsSound {v} (loses s at) h = loses-IsSound v.praid v.opened s h
Step-IsSound {v} (finishes s reading at was) h = finishes-IsSound v.praid v.opened s reading h
Step-IsSound {v} (assigns s j at) h = assigns-IsSound v.praid v.opened s j h
Step-IsSound {v} (removes s at) h = removes-IsSound v.praid v.opened s h
Step-IsSound {v} (sends stale s at e) (w, k) = (
  subst Keeps e (
      sender_step-Keeps stale v.praid s (All-In IsQueued v.praid.storages.elements s w.queued at)
        w),
  subst (ConnectSome (λ c. In c v.opened)) e (sender_step-Connect _ stale v.praid s k),
)
Step-IsSound {v} (closes c f) (w, k) = (w, closed-All c v.opened v.praid.storages.elements f k)

initialize_storages-IsWellFormed : IsWellFormed initialize_storages
unfolding initialize_storages build_list
initialize_storages-IsWellFormed = record {
  queued = tt;
  distinct = tt;
  counted = refl;
  fifo = refl;
  equality = refl;
}

initialize_storages-Connect :
    (opened : List ℕ) → All (λ s. In s.connection opened) initialize_storages.elements
unfolding initialize_storages build_list
initialize_storages-Connect opened = tt

-- From the start of the server on, after any series of steps, whatever its peers have sent: the
-- list of storages and each queue of a storage count what they hold and put what is new at the end,
-- no two storages share a connection, and the connection of each storage in the list is a
-- descriptor that the server has open. The steps are those of `Step`: a round of a thread, or a part
-- of one. The rounds that let a PPD in and that lose one are two steps each, between which others
-- run; a job may come into a queue, and a storage leave the list, by itself, as within a loop. That
-- `accept` gives no open descriptor is part of `Step`.
pub Reach-IsSound :
    {v u : Server}
    → v.praid.storages ≡ initialize_storages
    → Reach v u
    → IsWellFormed u.praid.storages × Connect (λ c. In c u.opened) u.praid
Reach-IsSound {v} e here =
    subst (λ l. IsWellFormed l × All (λ s. In s.connection v.opened) l.elements) (sym e)
      (initialize_storages-IsWellFormed, initialize_storages-Connect v.opened)
Reach-IsSound e (next r s) = Step-IsSound s (Reach-IsSound e r)
