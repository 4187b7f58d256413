-- ===== src/Ppd/Queues/Order.antt =====
-- In which order the queue serves its jobs.
use grage_fat.Base.{
  ℕ, ◌≤◌, ◌<◌, ◌≡◌, refl, true, false, some, List, [], ◌∷◌, Bool-cases, inl, inr, arith, All, ◌==◌,
}
use grage_fat.Commons.LinkedList.{add_node, insert_node, advance, link}
use grage_fat.Commons.LinkedList.Insert.{IsSorted, Inserts, add_node-IsSorted, add_node-Inserts}
use grage_fat.Commons.Queue.{get, put}
use grage_fat.Nipc.{NipcMessage, NipcHeader}
use grage_fat.Ppd.State.{Job, Ppd, sstf}
use grage_fat.Ppd.Queues.{
  distance, current_possition, strategy, strategy_sstf, put_in_queue, build_job, ordered_jobs,
  pick_from_queue, get_first_job_operation_id_from_queue, build_nipc_message_from_job,
}

strategy_sstf_total : (c : ℕ) (a b : Job) → strategy_sstf c a b ≡ false → strategy_sstf c b a ≡ true
unfolding strategy_sstf
strategy_sstf_total c a b e = ground arith

strategy_sstf_trans :
    (c : ℕ) (x y z : Job)
    → strategy_sstf c x y ≡ true
    → strategy_sstf c y z ≡ true
    → strategy_sstf c x z ≡ true
unfolding strategy_sstf
strategy_sstf_trans c x y z e f = ground arith

All-le :
    (c : ℕ) (a b : ℕ)
    → a ≤ b
    → (js : List Job) → All (λ t. b ≤ distance c t.sector_id) js
    → All (λ t. a ≤ distance c t.sector_id) js
All-le c a b h [] all = tt
All-le c a b h (j ∷ js) all = (omega (arith, all.0), All-le c a b h js all.1)

distance_sorted :
    (c : ℕ) (j : Job) (js : List Job)
    → IsSorted (strategy_sstf c) (j ∷ js)
    → All (λ t. distance c j.sector_id ≤ distance c t.sector_id) js
unfolding strategy_sstf
distance_sorted c j [] s = tt
distance_sorted c j (k ∷ js) s =
    let le : distance c j.sector_id ≤ distance c k.sector_id = ground (arith, s.0) in
    (le, All-le c _ _ le js (distance_sorted c k js s.1))

-- No job is nearer to the sector `c` than one that stands before it.
abbrev pub AreNearestFirst : ℕ → List Job → Type 0
AreNearestFirst c [] = Unit
AreNearestFirst c (j ∷ js) =
    All (λ t. distance c j.sector_id ≤ distance c t.sector_id) js × AreNearestFirst c js

IsSorted-AreNearestFirst :
    (c : ℕ) (js : List Job) → IsSorted (strategy_sstf c) js → AreNearestFirst c js
IsSorted-AreNearestFirst c [] s = tt
IsSorted-AreNearestFirst c (j ∷ []) s = (tt, tt)
IsSorted-AreNearestFirst c (j ∷ k ∷ js) s =
    (distance_sorted c j (k ∷ js) s, IsSorted-AreNearestFirst c (k ∷ js) s.1)

not_farther :
    (c : ℕ) (a b : Job)
    → distance c a.sector_id ≤ distance c b.sector_id
    → strategy_sstf c a b ≡ true
unfolding strategy_sstf
not_farther c a b h = ground arith

AreNearestFirst-IsSorted :
    (c : ℕ) (js : List Job) → AreNearestFirst c js → IsSorted (strategy_sstf c) js
AreNearestFirst-IsSorted c [] n = tt
AreNearestFirst-IsSorted c (j ∷ []) n = tt
AreNearestFirst-IsSorted c (j ∷ k ∷ js) n =
    (not_farther c j k n.0.0, AreNearestFirst-IsSorted c (k ∷ js) n.1)

-- A request under "sstf" puts its job somewhere between the others, which stay as they are. If no
-- job of the queue was nearer to where the head is than one before it, this is so afterwards.
pub put_in_queue-AreNearestFirst :
    (p : Ppd) (m : NipcMessage)
    → let c = current_possition p in
      p.algorithm ≡ sstf
      → AreNearestFirst c p.jobs.elements
      → AreNearestFirst c (put_in_queue p m).jobs.elements
        × Inserts (build_job m p.next_job_id) p.jobs.elements (put_in_queue p m).jobs.elements
unfolding put_in_queue put strategy
put_in_queue-AreNearestFirst p m a n =
    let c = current_possition p in
    (
      IsSorted-AreNearestFirst c (add_node (ordered_jobs p) (build_job m p.next_job_id)).elements (
          add_node-IsSorted (strategy_sstf c) (strategy_sstf_trans c) (strategy_sstf_total c)
            (ordered_jobs p) (build_job m p.next_job_id) (rw a)
            (AreNearestFirst-IsSorted c p.jobs.elements n)),
      (add_node-Inserts (ordered_jobs p) (build_job m p.next_job_id)).0,
    )

pick_from_queue-first :
    (stale : NipcHeader) (p : Ppd) (m : NipcMessage) (p' : Ppd) (es : List Job)
    → p.jobs.elements ≡ es
    → pick_from_queue stale p ≡ some (m, p')
    → (j : Job) × (rest : List Job) × (es ≡ j ∷ rest)
      × (m ≡ build_nipc_message_from_job stale j)
      × (p'.jobs.elements ≡ rest)
unfolding pick_from_queue get get_first_job_operation_id_from_queue
pick_from_queue-first stale p m p' [] el e = absurd (cc (rw el at e))
pick_from_queue-first stale p m p' (j ∷ rest) el e = elim (Bool-cases (j.operation_id == 0)) [
  | inl none_yet ↦ absurd (cc (rw (el, none_yet) at e))
  | inr op ↦ let picked = rw (el, op) at e in (j, rest, refl, cc, cc)
]

-- The job that a sorted queue hands out is one of the nearest to the head.
pub pick_from_queue-nearest :
    (stale : NipcHeader) (p : Ppd) (m : NipcMessage) (p' : Ppd)
    → IsSorted (strategy_sstf (current_possition p)) p.jobs.elements
    → pick_from_queue stale p ≡ some (m, p')
    → All
        (λ t.
          distance (current_possition p) m.payload.disk_sector.sector_number
          ≤ distance (current_possition p) t.sector_id)
        p'.jobs.elements
unfolding build_nipc_message_from_job
pick_from_queue-nearest stale p m p' s e =
    let (j, rest, el, same, left) = pick_from_queue-first stale p m p' p.jobs.elements refl e in
    rw (left, same) (distance_sorted (current_possition p) j rest (rw el at s))

-- The queue is not sorted again when the head moves: a request that is nearer to the head than the
-- second job, and not nearer than the first, goes before the second and before all behind it, a
-- write to its own sector among them.
pub put_in_queue_overtakes :
    (p : Ppd) (m : NipcMessage) (a b : Job) (rest : List Job)
    → let new = m.payload.disk_sector.sector_number in
      p.algorithm ≡ sstf
      → p.jobs.elements ≡ a ∷ b ∷ rest
      → distance (current_possition p) a.sector_id ≤ distance (current_possition p) new
      → distance (current_possition p) new < distance (current_possition p) b.sector_id
      → (put_in_queue p m).jobs.elements ≡ a ∷ build_job m p.next_job_id ∷ b ∷ rest
unfolding put_in_queue put strategy add_node insert_node advance link strategy_sstf build_job
put_in_queue_overtakes p m a b rest alg e first second = rw (alg, e) (ground arith)
