-- ===== src/Praid/WellFormed/Requests.antt =====
-- The rounds of a PPD's sender, the requests of a PFS and the connections that the server accepts
-- keep the storages well formed.
use grage_fat.Base.{
  ℕ, ◌≡◌, refl, sym, ◌∙◌, ◌≢◌, ◌⊎◌, ◌-◌, inl, inr, Bool, true, Option, none, some, List, [], ◌∷◌,
  Bool-cases, Option-cases, All, ap, arith, ◌==◌, ◌&&◌, ◌||◌, not, length, suc,
}
use grage_fat.Commons.LinkedList.{LinkedList}
use grage_fat.Commons.Queue.{
  put, is_empty, get_first, get-none, put-IsFifo, put-IsCounted, build_queue_lem,
}
use grage_fat.Nipc.{
  NipcMessage, NipcPayload, NipcHeader, get_sectors, put_sectors, is_blank_message, process_ppd,
  process_pfs, type_handshake,
}
use grage_fat.Praid.Jobs.{
  Job, jobs_eq, build_job, storage_queue_put, storage_queue_get, build_message_from_job,
}
use grage_fat.Praid.State.{
  Praid, Storage, build_storage_from_id, update_storage, increment_pending_responses, emit, sent,
  is_there_any_ppd_connected,
}
use grage_fat.Praid.Balancer.{select_storage}
use grage_fat.Praid.Sync.{fire_synchronization, call_process_jobs}
use grage_fat.Praid.Requests.{
  put_each, execute_put_sector, execute_get_sector, process_request, from_socket,
}
use grage_fat.Praid.Entry.{Joining, admit_ppd, replicate_or_start, start_ppd, begin_connection}
use grage_fat.Praid.Threads.{send_job, sender_step, sender_fields}
use grage_fat.Praid.WellFormed.{
  IsQueued, IsFresh, AreDistinct, IsWellFormed, update_storage-IsWellFormed,
  add_ppd_storage-IsWellFormed,
}
use grage_fat.Praid.WellFormed.Listener.{Keeps, put_pending-IsQueued}

pub storage_queue_get-cases :
    (stale : NipcHeader) (q : LinkedList Job)
    → ((q.elements ≡ []) × (storage_queue_get stale q ≡ none))
      ⊎ ((j : Job) × (js : List Job) × (q.elements ≡ j ∷ js)
          × (storage_queue_get stale q
              ≡ some
                  (build_message_from_job stale j, record q { size = q.size - 1; elements = js })))
unfolding storage_queue_get
storage_queue_get-cases stale q = cases q.elements refl
  where
    cases :
        (xs : List Job)
        → q.elements ≡ xs
        → ((q.elements ≡ []) × (storage_queue_get stale q ≡ none))
          ⊎ ((j : Job) × (js : List Job) × (q.elements ≡ j ∷ js)
              × (storage_queue_get stale q
                  ≡ some (
                    build_message_from_job stale j,
                    record q { size = q.size - 1; elements = js },
                  )))
    cases [] e = inl (e, rw (get-none q e))
    cases (j ∷ js) e = inr (j, js, e, rw (get_first q j js e))

-- The queues of the storage that a round of the sender leaves.
abbrev Sends : Option (NipcMessage × Storage) → ℕ → Type 0
Sends none c = Unit
Sends (some (m, s)) c = IsQueued s × (s.connection ≡ c)

send_job-Sends :
    (stale : NipcHeader) (s : Storage) → IsQueued s → Sends (send_job stale s) s.connection
unfolding send_job storage_queue_put increment_pending_responses
send_job-Sends stale s q = elim (storage_queue_get-cases stale s.pending_jobs) [
  | inl (e, got) ↦ rw (got, send_job) tt
  | inr (j, js, e, got) ↦
      let m = build_message_from_job stale j in
      let rest = record (s.pending_jobs) { size = s.pending_jobs.size - 1; elements = js } in
      let queued : IsQueued
          (record s { pending_jobs = rest; sended_jobs = put s.sended_jobs (build_job m) }) =
        record {
          pending_fifo = q.pending_fifo;
          pending_counted = omega (arith, q.pending_counted, ap length e);
          sended_fifo = put-IsFifo s.sended_jobs (build_job m) q.sended_fifo;
          sended_counted = put-IsCounted s.sended_jobs (build_job m) q.sended_counted;
        } in
      rw (got, send_job)
        (elim (Bool-cases (m.header.operation_id == get_sectors)) [
          | inl g ↦ rw g (
            record {
              pending_fifo = queued.pending_fifo;
              pending_counted = queued.pending_counted;
              sended_fifo = queued.sended_fifo;
              sended_counted = queued.sended_counted;
            },
            refl,
          )
          | inr g ↦ rw g (queued, refl)
        ])
]

pub sender_step-Keeps :
    (stale : NipcHeader) (p : Praid) (s : Storage)
    → IsQueued s
    → IsWellFormed p.storages
    → Keeps (sender_step stale p s)
unfolding sender_step
sender_step-Keeps stale p s q w =
    elim (Bool-cases (not s.connected || is_empty s.pending_jobs || p.replication_active)) [
      | inl e ↦ rw e w
      | inr e ↦ rw e (sent_on (send_job stale s) (send_job-Sends stale s q))
    ]
  where
    sent_on :
        (r : Option (NipcMessage × Storage))
        → Sends r s.connection
        → Keeps (elim r [
          | none ↦ none
          | some (m, s') ↦
              some
                (emit (update_storage s.connection (sender_fields s') p) (sent s.connection m ∷ []))
        ])
    sent_on none h = tt
    sent_on (some (m, s')) h =
        update_storage-IsWellFormed s.connection (sender_fields s')
          (λ t. unfold sender_fields in refl)
          (λ t _.
            unfold sender_fields in
            record {
              pending_fifo = h.0.pending_fifo;
              pending_counted = h.0.pending_counted;
              sended_fifo = h.0.sended_fifo;
              sended_counted = h.0.sended_counted;
            })
          p w

put_each-update :
    (m : NipcMessage) (P : Storage → Type 0)
    → ((s : Storage) → P s → P (record s { pending_jobs = storage_queue_put s.pending_jobs m }))
    → (ss : List Storage) → All P ss
    → All P (put_each m ss)
unfolding put_each
put_each-update m P keep [] h = tt
put_each-update m P keep (s ∷ ss) h = (keep s h.0, put_each-update m P keep ss h.1)

put_each-AreDistinct :
    (m : NipcMessage) (ss : List Storage) → AreDistinct ss → AreDistinct (put_each m ss)
unfolding put_each
put_each-AreDistinct m [] d = d
put_each-AreDistinct m (s ∷ ss) d = (
  put_each-update m (λ t. t.connection ≢ s.connection) (λ t h. h) ss d.0,
  put_each-AreDistinct m ss d.1,
)

length-put_each : (m : NipcMessage) (ss : List Storage) → length (put_each m ss) ≡ length ss
unfolding put_each
length-put_each m [] = refl
length-put_each m (s ∷ ss) = ap suc (length-put_each m ss)

execute_put_sector-IsWellFormed :
    (p : Praid) (m : NipcMessage)
    → IsWellFormed p.storages
    → IsWellFormed (execute_put_sector p m).storages
unfolding execute_put_sector storage_queue_put
execute_put_sector-IsWellFormed p m w = record {
  queued =
      put_each-update m IsQueued (put_pending-IsQueued (build_job m)) p.storages.elements w.queued;
  distinct = put_each-AreDistinct m p.storages.elements w.distinct;
  counted = w.counted ∙ sym (length-put_each m p.storages.elements);
  fifo = w.fifo;
  equality = w.equality;
}

execute_get_sector-Keeps :
    (p : Praid) (m : NipcMessage) → IsWellFormed p.storages → Keeps (execute_get_sector p m)
unfolding execute_get_sector storage_queue_put
execute_get_sector-Keeps p m w = elim (Option-cases (select_storage p)) [
  | inl e ↦ rw (e, execute_get_sector) tt
  | inr (s, e) ↦
      rw (e, execute_get_sector)
        (update_storage-IsWellFormed s.connection _ (λ t. refl) (put_pending-IsQueued (build_job m))
          p w)
]

-- What a request leaves behind.
abbrev pub Leaves : Option (Praid × Bool) → Type 0
Leaves none = Unit
Leaves (some (p, more)) = IsWellFormed p.storages

pub process_request-Leaves :
    (p : Praid) (socket : ℕ) (m : NipcMessage)
    → IsWellFormed p.storages
    → Leaves (process_request p socket m)
unfolding process_request
process_request-Leaves p socket m w = elim (Bool-cases (m.header.operation_id == get_sectors)) [
  | inl e ↦ rw e (
      served (execute_get_sector p (from_socket socket m))
        (execute_get_sector-Keeps p (from_socket socket m) w))
  | inr e ↦ rw e (elim (Bool-cases (m.header.operation_id == put_sectors)) [
    | inl g ↦ rw g (execute_put_sector-IsWellFormed p (from_socket socket m) w)
    | inr g ↦ rw g (elim (Bool-cases (is_blank_message (from_socket socket m))) [
      | inl b ↦ rw b w
      | inr b ↦ rw b w
    ])
  ])
]
  where
    served :
        (r : Option Praid) → Keeps r → Leaves (elim r [ none ↦ none | some p' ↦ some (p', true) ])
    served none h = tt
    served (some p') h = h

pub start_ppd-Keeps :
    (stale : NipcPayload) (j : Joining) (p : Praid)
    → IsWellFormed p.storages
    → Keeps (start_ppd stale j p)
unfolding start_ppd replicate_or_start fire_synchronization call_process_jobs
start_ppd-Keeps stale j p w = elim (Bool-cases j.copies) [
  | inl e ↦ rw e (elim (Option-cases j.master) [ inl n ↦ rw n tt | inr (s, n) ↦ rw n w ])
  | inr e ↦ rw e w
]

admit_ppd-IsWellFormed :
    (p : Praid) (m : NipcMessage) (socket : ℕ)
    → IsFresh socket p.storages.elements
    → IsWellFormed p.storages
    → IsWellFormed (admit_ppd p m socket).1.storages
unfolding admit_ppd build_storage_from_id
admit_ppd-IsWellFormed p m socket f w =
    add_ppd_storage-IsWellFormed built destiny
      (record {
        pending_fifo = (build_queue_lem jobs_eq).0;
        pending_counted = (build_queue_lem jobs_eq).1;
        sended_fifo = (build_queue_lem jobs_eq).0;
        sended_counted = (build_queue_lem jobs_eq).1;
      })
      f w
  where
    destiny : Storage
    destiny = (build_storage_from_id p socket m.header.operation_id m.header.response_code).0

    built : Praid
    built = (build_storage_from_id p socket m.header.operation_id m.header.response_code).1

pub begin_connection-IsWellFormed :
    (stale : NipcPayload) (p : Praid) (socket : ℕ) (m : NipcMessage)
    → IsFresh socket p.storages.elements
    → IsWellFormed p.storages
    → IsWellFormed (begin_connection stale p socket m).1.storages
unfolding begin_connection
begin_connection-IsWellFormed stale p socket m f w =
    let process = m.header.process_handshake_id in
    elim (Bool-cases (m.header.message_type == type_handshake)) [
      | inr e ↦ rw e w
      | inl e ↦ rw e (elim (Bool-cases (process == process_ppd && p.replication_active)) [
        | inl g ↦ rw g w
        | inr g ↦
            rw g (elim (Bool-cases (process == process_pfs && not (is_there_any_ppd_connected p))) [
              | inl k ↦ rw k w
              | inr k ↦ rw k (elim (Bool-cases (process == process_pfs)) [
                | inl l ↦ rw l w
                | inr l ↦ rw l (elim (Bool-cases (process == process_ppd)) [
                  | inl n ↦ rw n (admit_ppd-IsWellFormed _ m socket f w)
                  | inr n ↦ rw n w
                ])
              ])
            ])
      ])
    ]
