-- ===== src/Praid/Entry/Admission.antt =====
-- That no connection ends the server.
use grage_fat.Base.{
  ℕ, ◌≡◌, ◌≢◌, ◌⊎◌, some, Option, subst, sym, refl, ap, ◌∙◌, inl, inr, true, ◌&&◌, not, none, [],
  length, Bool-cases, arith, ◌==◌,
}
use grage_fat.Commons.LinkedList.{add_node}
use grage_fat.Commons.LinkedList.Remove.{IsCounted}
use grage_fat.Nipc.{NipcMessage, NipcPayload, type_handshake, process_ppd, process_pfs}
use grage_fat.Praid.State.{
  Praid, Storage, build_storage, build_storage_from_id, add_ppd_storage, is_there_any_ppd_connected,
}
use grage_fat.Praid.Balancer.Minimum.{select_storage-IsLeast}
use grage_fat.Praid.Sync.{is_valid_replication}
use grage_fat.Praid.Entry.{
  Joining, admit_ppd, replicate_or_start, start_ppd, begin_connection, accept_connection,
}

first_invalid :
    (p : Praid) (destiny : Storage)
    → IsCounted p.storages
    → p.storages.elements ≡ []
    → is_valid_replication (add_ppd_storage p destiny) ≡ true
    → ⊥
unfolding add_ppd_storage add_node is_valid_replication
first_invalid p destiny c empty e =
    let none_yet : p.storages.size ≡ 0 = c ∙ ap length empty in ground arith

start_ppd_total :
    (stale : NipcPayload) (p : Praid) (m : NipcMessage) (socket : ℕ) (later : Praid)
    → IsCounted p.storages
    → start_ppd stale (admit_ppd p m socket).0 later ≢ none
unfolding start_ppd replicate_or_start admit_ppd build_storage_from_id build_storage
start_ppd_total stale p m socket later c =
    elim (Bool-cases (is_valid_replication (add_ppd_storage built destiny))) [
      | inl valid ↦ elim (select_storage-IsLeast built) [
        | inl (empty, e) ↦ absurd (first_invalid built destiny c empty valid)
        | inr (s, e, least) ↦ rw (valid, e) (λ n. cc)
      ]
      | inr e ↦ rw e (λ n. cc)
    ]
  where
    built : Praid
    built = (build_storage_from_id p socket m.header.operation_id m.header.response_code).1

    destiny : Storage
    destiny = (build_storage_from_id p socket m.header.operation_id m.header.response_code).0

-- A round sleeps with what `admit_ppd` has left, or not at all.
begin_connection-joining :
    (stale : NipcPayload) (p : Praid) (socket : ℕ) (m : NipcMessage)
    → IsCounted p.storages
    → ((begin_connection stale p socket m).0 ≡ none)
      ⊎ ((q : Praid) × IsCounted q.storages
          × ((begin_connection stale p socket m).0 ≡ some (admit_ppd q m socket).0))
unfolding begin_connection
begin_connection-joining stale p socket m c =
    elim (Bool-cases (m.header.message_type == type_handshake)) [
      | inr e ↦ rw e (inl refl)
      | inl e ↦ rw e (elim (Bool-cases (process == process_ppd && p.replication_active)) [
        | inl f ↦ rw f (inl refl)
        | inr f ↦
            rw f (elim (Bool-cases (process == process_pfs && not (is_there_any_ppd_connected p))) [
              | inl g ↦ rw g (inl refl)
              | inr g ↦ rw g (elim (Bool-cases (process == process_pfs)) [
                | inl h ↦ rw h (inl refl)
                | inr h ↦ rw h (elim (Bool-cases (process == process_ppd)) [
                  | inl k ↦ rw k (inr (_, c, refl))
                  | inr k ↦ rw k (inl refl)
                ])
              ])
            ])
      ])
    ]
  where
    process : ℕ
    process = m.header.process_handshake_id

-- No connection that is accepted makes the server go through a null pointer, if it counts its PPDs
-- rightly: the master that a copy reads is looked for only when there is another PPD.
pub accept_connection_total :
    (stale : NipcPayload) (p : Praid) (socket : ℕ) (m : NipcMessage)
    → IsCounted p.storages
    → accept_connection stale p socket m ≢ none
unfolding accept_connection
accept_connection_total stale p socket m c = elim (begin_connection-joining stale p socket m c) [
  | inl e ↦ continued none e (λ n. cc)
  | inr (q, d, e) ↦
      continued (some (admit_ppd q m socket).0) e (start_ppd_total stale q m socket _ d)
]
  where
    continue : Option Joining → Option Praid
    continue none = some (begin_connection stale p socket m).1
    continue (some j) = start_ppd stale j (begin_connection stale p socket m).1

    continued :
        (j : Option Joining)
        → (begin_connection stale p socket m).0 ≡ j
        → continue j ≢ none
        → accept_connection stale p socket m ≢ none
    continued j e h = subst (λ k. continue k ≢ none) (sym e) h
