-- ===== src/Praid/WellFormed/Listener.antt =====
-- The rounds of a PPD's listener keep the storages well formed.
use grage_fat.Base.{
  ℕ, ◌≡◌, refl, sym, ◌∙◌, inl, inr, Option, none, some, List, [], ◌∷◌, Bool-cases, Option-cases,
  subst, arith, ◌==◌,
}
use grage_fat.Commons.LinkedList.{LinkedList, get_node_by_criteria}
use grage_fat.Commons.LinkedList.Remove.{IsCounted, remove_node-IsCounted, remove_node-criteria}
use grage_fat.Commons.Queue.{is_empty, IsFifo, put, put-IsFifo, put-IsCounted}
use grage_fat.Nipc.{
  is_blank_message, type_sync_process, sync_put_sector, sync_end, NipcMessage, NipcPayload,
}
use grage_fat.Praid.Jobs.{Job, get_reading_jobs}
use grage_fat.Praid.State.{
  Praid, Storage, set_disconnected, decrement_pending_responses, remove_ppd_storage,
}
use grage_fat.Praid.Balancer.{select_storage, assign_job, redistribute, redistribute_jobs}
use grage_fat.Praid.Sync.{
  call_sync_put_sector, increment_sync_sectors_counter, increment_bytes_synchronized,
  set_replication_active, call_process_jobs,
}
use grage_fat.Praid.Threads.{
  process_disconnection, begin_disconnection, finish_disconnection,
  check_if_continue_denegating_requests, forget_job, receive_response, receive_sync, listener_step,
}
use grage_fat.Praid.WellFormed.{
  IsQueued, IsWellFormed, update_storage-IsWellFormed, remove_ppd_storage-IsWellFormed,
}

pub put_pending-IsQueued :
    (m : Job) (s : Storage)
    → IsQueued s
    → IsQueued (record s { pending_jobs = put s.pending_jobs m })
put_pending-IsQueued j s q = record {
  pending_fifo = put-IsFifo s.pending_jobs j q.pending_fifo;
  pending_counted = put-IsCounted s.pending_jobs j q.pending_counted;
  sended_fifo = q.sended_fifo;
  sended_counted = q.sended_counted;
}

pub assign_job-IsWellFormed :
    (p : Praid) (s : Storage) (j : Job)
    → IsWellFormed p.storages
    → IsWellFormed (assign_job p s j).storages
unfolding assign_job
assign_job-IsWellFormed p s j w =
    update_storage-IsWellFormed s.connection _ (λ t. refl) (put_pending-IsQueued j) p w

redistribute-IsWellFormed :
    (jobs : List Job) (p : Praid)
    → IsWellFormed p.storages
    → IsWellFormed (redistribute jobs p).storages
unfolding redistribute
redistribute-IsWellFormed [] p w = w
redistribute-IsWellFormed (j ∷ jobs) p w = elim (Option-cases (select_storage p)) [
  | inl e ↦ rw (e, redistribute) w
  | inr (s, e) ↦
      rw (e, redistribute)
        (redistribute-IsWellFormed jobs (assign_job p s j) (assign_job-IsWellFormed p s j w))
]

pub check-storages :
    (p : Praid) (ppd_id : ℕ)
    → (check_if_continue_denegating_requests p ppd_id).storages ≡ p.storages
unfolding check_if_continue_denegating_requests set_replication_active
check-storages p ppd_id = ground arith

pub finish_disconnection-IsWellFormed :
    (reading : LinkedList Job) (p : Praid) (s : Storage)
    → IsWellFormed p.storages
    → IsWellFormed (finish_disconnection reading p s).storages
unfolding finish_disconnection redistribute_jobs
finish_disconnection-IsWellFormed reading p s w =
    let removed = remove_ppd_storage-IsWellFormed p s w in
    elim (Bool-cases (is_empty reading)) [
      | inl e ↦ rw e removed
      | inr e ↦ rw e (redistribute-IsWellFormed reading.elements (remove_ppd_storage p s) removed)
    ]

process_disconnection-IsWellFormed :
    (p : Praid) (s : Storage)
    → IsWellFormed p.storages
    → IsWellFormed (process_disconnection p s).storages
unfolding process_disconnection begin_disconnection
process_disconnection-IsWellFormed p s w =
    finish_disconnection-IsWellFormed (get_reading_jobs s.pending_jobs s.sended_jobs)
      (check_if_continue_denegating_requests p s.id) s
      (subst IsWellFormed (sym (check-storages p s.id)) w)

-- What a step that may fail leaves behind.
abbrev pub Keeps : Option Praid → Type 0
Keeps none = Unit
Keeps (some p) = IsWellFormed p.storages

forget_job-queue :
    (m : NipcMessage) (q : LinkedList Job)
    → IsFifo q
    → IsCounted q
    → IsFifo (forget_job m q) × IsCounted (forget_job m q)
unfolding forget_job
forget_job-queue m q f c =
    let wanted = λ (j : Job). j.sector_id == m.payload.disk_sector.sector_number in
    elim (Option-cases (get_node_by_criteria q wanted)) [
      | inl e ↦ rw (e, forget_job) (f, c)
      | inr (j, e) ↦
          rw (e, forget_job) ((remove_node-criteria q j).0 ∙ f, remove_node-IsCounted q j c)
    ]

receive_response-IsWellFormed :
    (p : Praid) (c : ℕ) (m : NipcMessage)
    → IsWellFormed p.storages
    → IsWellFormed (receive_response p c m).storages
unfolding receive_response
receive_response-IsWellFormed p c m w =
    let counted =
      update_storage-IsWellFormed c decrement_pending_responses
        (λ s. unfold decrement_pending_responses in refl)
        (λ s q.
          unfold decrement_pending_responses in
          record {
            pending_fifo = q.pending_fifo;
            pending_counted = q.pending_counted;
            sended_fifo = q.sended_fifo;
            sended_counted = q.sended_counted;
          })
        p w in
    update_storage-IsWellFormed c (λ s. record s { sended_jobs = forget_job m s.sended_jobs })
      (λ s. refl)
      (λ s q. record {
        pending_fifo = q.pending_fifo;
        pending_counted = q.pending_counted;
        sended_fifo = (forget_job-queue m s.sended_jobs q.sended_fifo q.sended_counted).0;
        sended_counted = (forget_job-queue m s.sended_jobs q.sended_fifo q.sended_counted).1;
      })
      _ counted

receive_sync-Keeps :
    (stale : NipcPayload) (p : Praid) (m : NipcMessage)
    → IsWellFormed p.storages
    → Keeps (receive_sync stale p m)
unfolding receive_sync call_sync_put_sector call_process_jobs set_replication_active
    increment_sync_sectors_counter increment_bytes_synchronized
receive_sync-Keeps stale p m w = elim (Bool-cases (m.header.operation_id == sync_put_sector)) [
  | inl e ↦
      rw e (elim (Option-cases p.sync_state.destiny) [ inl d ↦ rw d tt | inr (peer, d) ↦ rw d w ])
  | inr e ↦ rw e (elim (Bool-cases (m.header.operation_id == sync_end)) [
    | inl g ↦
        rw g (elim (Option-cases p.sync_state.destiny) [ inl d ↦ rw d tt | inr (peer, d) ↦ rw d w ])
    | inr g ↦ rw g w
  ])
]

pub listener_step-Keeps :
    (stale : NipcPayload) (p : Praid) (s : Storage) (m : NipcMessage)
    → IsWellFormed p.storages
    → Keeps (listener_step stale p s m)
unfolding listener_step
listener_step-Keeps stale p s m w = elim (Bool-cases (is_blank_message m)) [
  | inl e ↦ rw e (
      process_disconnection-IsWellFormed _ s (
        update_storage-IsWellFormed s.connection set_disconnected
          (λ t. unfold set_disconnected in refl)
          (λ t q.
            unfold set_disconnected in
            record {
              pending_fifo = q.pending_fifo;
              pending_counted = q.pending_counted;
              sended_fifo = q.sended_fifo;
              sended_counted = q.sended_counted;
            })
          p w))
  | inr e ↦ rw e (elim (Bool-cases (m.header.message_type == type_sync_process)) [
    | inl g ↦ rw g (receive_sync-Keeps stale p m w)
    | inr g ↦ rw g (receive_response-IsWellFormed p s.connection m w)
  ])
]
