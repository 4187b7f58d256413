-- ===== src/Praid/Steps.antt =====
-- The server's threads as a relation. A step is a round of a thread, or a part of one: the thread
-- that lets PPDs in may be kept from going on by others while it sleeps, and so may the listener of
-- a lost PPD after it has collected the reads. The peers send whatever they like.
pub mod Descriptors
pub mod Sound
use grage_fat.Base.{
  ℕ, ◌≡◌, ◌≢◌, Bool, true, false, Option, none, some, List, [], ◌∷◌, All, In, ◌==◌, if◌then◌else◌,
}
use grage_fat.Commons.LinkedList.{LinkedList}
use grage_fat.Nipc.{NipcMessage, NipcPayload, NipcHeader, is_blank_message}
use grage_fat.Praid.Jobs.{Job}
use grage_fat.Praid.Balancer.{assign_job}
use grage_fat.Praid.State.{remove_ppd_storage, Praid, Storage, update_storage, set_disconnected}
use grage_fat.Praid.Requests.{process_request}
use grage_fat.Praid.Entry.{Joining, begin_connection, start_ppd}
use grage_fat.Praid.Threads.{listener_step, sender_step, begin_disconnection, finish_disconnection}

-- `opened` are the descriptors that the process has open; `sleeping` is what the thread that lets
-- PPDs in has slept with, and `collected` the reads that a listener has collected, by the connection
-- of its storage.
pub record Server : Type 0 where
  pub praid : Praid
  pub opened : List ℕ
  pub sleeping : List (Option Joining)
  pub collected : List (ℕ × LinkedList Job)

unfoldable pub close_descriptor : ℕ → List ℕ → List ℕ
close_descriptor c [] = []
close_descriptor c (d ∷ ds) = let rest = close_descriptor c ds in if d == c then rest else d ∷ rest

-- `accept` gives a descriptor that is not open. The server closes that of a storage that it takes
-- from the list, and others, as that of a connection that it refuses.
pub data Step (v : Server) : Server → Type 0 where
  begins :
      (stale : NipcPayload) (socket : ℕ) (m : NipcMessage)
      → All (λ c. c ≢ socket) v.opened
      → Step v (record v {
        praid = (begin_connection stale v.praid socket m).1;
        opened = socket ∷ v.opened;
        sleeping = (begin_connection stale v.praid socket m).0 ∷ v.sleeping;
      })
  starts :
      (stale : NipcPayload) (j : Joining) {q : Praid}
      → In (some j) v.sleeping
      → start_ppd stale j v.praid ≡ some q
      → Step v (record v { praid = q })
  requests :
      (socket : ℕ) (m : NipcMessage) {q : Praid} (more : Bool)
      → process_request v.praid socket m ≡ some (q, more)
      → Step v (record v { praid = q })
  listens :
      (stale : NipcPayload) (s : Storage) (m : NipcMessage) {q : Praid}
      → In s v.praid.storages.elements
      → is_blank_message m ≡ false
      → listener_step stale v.praid s m ≡ some q
      → Step v (record v { praid = q })
  loses :
      (s : Storage)
      → In s v.praid.storages.elements
      → Step v (record v {
        praid = (begin_disconnection (update_storage s.connection set_disconnected v.praid) s).1;
        collected =
            (
              s.connection,
              (begin_disconnection (update_storage s.connection set_disconnected v.praid) s).0,
            )
            ∷ v.collected;
      })
  finishes :
      (s : Storage) (reading : LinkedList Job)
      → In s v.praid.storages.elements
      → In (s.connection, reading) v.collected
      → Step v (record v {
        praid = finish_disconnection reading v.praid s;
        opened = close_descriptor s.connection v.opened;
      })
  -- One round of the loop over the storages of a write, or over the reads of a lost PPD, or a read
  -- once its storage is selected: other threads run between these.
  assigns :
      (s : Storage) (j : Job)
      → In s v.praid.storages.elements
      → Step v (record v { praid = assign_job v.praid s j })
  -- A storage is taken out; `assigns` hands out the reads that were collected.
  removes :
      (s : Storage)
      → In s v.praid.storages.elements
      → Step v (record v {
        praid = remove_ppd_storage v.praid s;
        opened = close_descriptor s.connection v.opened;
      })
  sends :
      (stale : NipcHeader) (s : Storage) {q : Praid}
      → In s v.praid.storages.elements
      → sender_step stale v.praid s ≡ some q
      → Step v (record v { praid = q })
  closes :
      (c : ℕ)
      → All (λ s. s.connection ≢ c) v.praid.storages.elements
      → Step v (record v { opened = close_descriptor c v.opened })

pub data Reach (v : Server) : Server → Type 0 where
  here : Reach v v
  next : {u w : Server} → Reach v u → Step u w → Reach v w
