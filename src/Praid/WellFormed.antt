-- ===== src/Praid/WellFormed.antt =====
-- What holds of the server's storages whatever happens: every queue is first in, first out and its
-- count is right, and no two storages share a connection.
pub mod Connections
pub mod Listener
pub mod Requests
use grage_fat.Base.{
  ℕ, ◌≡◌, refl, sym, ◌∙◌, ◌≢◌, inl, inr, Bool, List, [], ◌∷◌, ◌++◌, ◌==◌, Bool-cases, All,
  All-append, arith, length, erase, subst,
}
use grage_fat.Commons.LinkedList.{LinkedList, add_node}
use grage_fat.Commons.LinkedList.Remove.{
  IsCounted, add_node-IsCounted, remove_node-IsCounted, remove_node-find, remove_node-criteria,
  All-erase,
}
use grage_fat.Commons.Queue.{IsFifo, add_node-last}
use grage_fat.Praid.State.{
  Praid, Storage, storage_eq, update_elements, update_storage, add_ppd_storage, remove_ppd_storage,
}

pub record IsQueued (s : Storage) : Type 0 where
  pub pending_fifo : IsFifo s.pending_jobs
  pub pending_counted : IsCounted s.pending_jobs
  pub sended_fifo : IsFifo s.sended_jobs
  pub sended_counted : IsCounted s.sended_jobs

-- No storage of the list has the connection.
abbrev pub IsFresh : ℕ → List Storage → Type 0
IsFresh c = All λ s. s.connection ≢ c

abbrev pub AreDistinct : List Storage → Type 0
AreDistinct [] = Unit
AreDistinct (s ∷ ss) = IsFresh s.connection ss × AreDistinct ss

pub record IsWellFormed (l : LinkedList Storage) : Type 0 where
  pub queued : All IsQueued l.elements
  pub distinct : AreDistinct l.elements
  pub counted : IsCounted l
  pub fifo : IsFifo l
  pub equality : l.equality_criteria ≡ storage_eq

-- A change of one storage that leaves its connection alone.
module _ (c : ℕ) (f : Storage → Storage) where
  pub length-update_elements : (ss : List Storage) → length (update_elements c f ss) ≡ length ss
  unfolding update_elements
  length-update_elements [] = refl
  length-update_elements (s ∷ ss) = omega (arith, length-update_elements ss)

  pub All-update_elements :
      (P : Storage → Type 0)
      → ((s : Storage) → P s → P (f s))
      → (ss : List Storage) → All P ss
      → All P (update_elements c f ss)
  unfolding update_elements
  All-update_elements P keep [] h = tt
  All-update_elements P keep (s ∷ ss) h = elim (Bool-cases (s.connection == c)) [
    | inl e ↦ rw e (keep s h.0, All-update_elements P keep ss h.1)
    | inr e ↦ rw e (h.0, All-update_elements P keep ss h.1)
  ]

  pub update_elements_absent : (ss : List Storage) → IsFresh c ss → update_elements c f ss ≡ ss
  unfolding update_elements
  update_elements_absent [] h = refl
  update_elements_absent (s ∷ ss) h = ground (arith, update_elements_absent ss h.1, h.0)

  AreDistinct-update_elements :
      ((s : Storage) → (f s).connection ≡ s.connection)
      → (ss : List Storage) → AreDistinct ss
      → AreDistinct (update_elements c f ss)
  unfolding update_elements
  AreDistinct-update_elements same [] h = tt
  AreDistinct-update_elements same (s ∷ ss) h =
      let fresh = λ (k : ℕ) (g : IsFresh k ss).
        All-update_elements (λ t. t.connection ≢ k) (λ t ne e. ne (sym (same t) ∙ e)) ss g in
      let rest = AreDistinct-update_elements same ss h.1 in
      elim (Bool-cases (s.connection == c)) [
        | inl e ↦ rw (e, same s) (fresh s.connection h.0, rest)
        | inr e ↦ rw e (fresh s.connection h.0, rest)
      ]

  pub update_storage-IsWellFormed :
      ((s : Storage) → (f s).connection ≡ s.connection)
      → ((s : Storage) → IsQueued s → IsQueued (f s))
      → (p : Praid) → IsWellFormed p.storages
      → IsWellFormed (update_storage c f p).storages
  unfolding update_storage
  update_storage-IsWellFormed same keep p w = record {
    queued = All-update_elements IsQueued keep p.storages.elements w.queued;
    distinct = AreDistinct-update_elements same p.storages.elements w.distinct;
    counted = w.counted ∙ sym (length-update_elements p.storages.elements);
    fifo = w.fifo;
    equality = w.equality;
  }

AreDistinct-append :
    (ss : List Storage) (t : Storage)
    → AreDistinct ss
    → IsFresh t.connection ss
    → AreDistinct (ss ++ t ∷ [])
AreDistinct-append [] t d f = (tt, tt)
AreDistinct-append (s ∷ ss) t d f = (
  All-append (λ u. u.connection ≢ s.connection) ss (t ∷ []) d.0 ((λ e. f.0 (sym e)), tt),
  AreDistinct-append ss t d.1 f.1,
)

AreDistinct-erase :
    (same : Storage → Bool) (ss : List Storage) → AreDistinct ss → AreDistinct (erase same ss)
unfolding erase
AreDistinct-erase same [] d = d
AreDistinct-erase same (s ∷ ss) d = elim (Bool-cases (same s)) [
  | inl e ↦ rw e d.1
  | inr e ↦
      rw e (All-erase (λ u. u.connection ≢ s.connection) same ss d.0, AreDistinct-erase same ss d.1)
]

pub add_ppd_storage-IsWellFormed :
    (p : Praid) (s : Storage)
    → IsQueued s
    → IsFresh s.connection p.storages.elements
    → IsWellFormed p.storages
    → IsWellFormed (add_ppd_storage p s).storages
unfolding add_ppd_storage
add_ppd_storage-IsWellFormed p s q f w =
    let ss = p.storages.elements in
    let e = sym (add_node-last p.storages s w.fifo) in
    record {
      queued = subst (All IsQueued) e (All-append IsQueued ss (s ∷ []) w.queued (q, tt));
      distinct = subst AreDistinct e (AreDistinct-append ss s w.distinct f);
      counted = add_node-IsCounted p.storages s w.counted;
      fifo = unfold add_node in w.fifo;
      equality = unfold add_node in w.equality;
    }

pub remove_ppd_storage-IsWellFormed :
    (p : Praid) (s : Storage)
    → IsWellFormed p.storages
    → IsWellFormed (remove_ppd_storage p s).storages
unfolding remove_ppd_storage
remove_ppd_storage-IsWellFormed p s w =
    let same = λ (act : Storage). p.storages.equality_criteria act s in
    let ss = p.storages.elements in
    let e = sym (remove_node-find p.storages s).1 in
    let criteria = remove_node-criteria p.storages s in
    record {
      queued = subst (All IsQueued) e (All-erase IsQueued same ss w.queued);
      distinct = subst AreDistinct e (AreDistinct-erase same ss w.distinct);
      counted = remove_node-IsCounted p.storages s w.counted;
      fifo = criteria.0 ∙ w.fifo;
      equality = criteria.1 ∙ w.equality;
    }
