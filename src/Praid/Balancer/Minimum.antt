-- ===== src/Praid/Balancer/Minimum.antt =====
-- `praid_balancer_selectStorage` finds a storage with the least ranking.
use grage_fat.Base.{
  ◌≤◌, ◌≡◌, refl, ◌⊎◌, inl, inr, Option, none, some, List, [], ◌∷◌, ltb, ◌==◌, Bool-cases, All, In,
  arith, ==_iff,
}
use grage_fat.Praid.State.{Praid, Storage}
use grage_fat.Praid.Balancer.{storage_ranking, select_from, select_storage}

-- `s` is one of the list and no other has a smaller ranking.
pub record IsLeast (ss : List Storage) (s : Storage) : Type 0 where
  pub among : In s ss
  pub least : All (λ t. storage_ranking s ≤ storage_ranking t) ss

-- What the loop returns when it has a candidate: a storage no worse than it or than any to come.
abbrev Improves : Storage → List Storage → Option Storage → Type 0
Improves b rest r =
    (s : Storage) × (r ≡ some s)
    × (storage_ranking s ≤ storage_ranking b)
    × All (λ t. storage_ranking s ≤ storage_ranking t) rest
    × ((s ≡ b) ⊎ In s rest)

All-least :
    (s : Storage) (ss : List Storage)
    → storage_ranking s ≡ 0
    → All (λ t. storage_ranking s ≤ storage_ranking t) ss
All-least s [] e = tt
All-least s (t ∷ ss) e = (omega arith, All-least s ss e)

select_from-Improves :
    (b : Storage) (rest : List Storage)
    → Improves b rest (select_from rest (storage_ranking b) (some b))
unfolding select_from
select_from-Improves b [] = (b, refl, omega arith, tt, inl refl)
select_from-Improves b (s ∷ rest) =
    elim (Bool-cases (ltb (storage_ranking s) (storage_ranking b))) [
      | inl less ↦ elim (Bool-cases (storage_ranking s == 0)) [
        | inl idle ↦
            rw (less, idle)
              (
                s,
                refl,
                ground arith,
                (omega arith, All-least s rest ((==_iff _ 0).0 idle)),
                inr (inl refl),
              )
        | inr busy ↦
            let (r, e, le, all, at) = select_from-Improves s rest in
            rw (less, busy) (r, e, ground arith, (le, all), inr at)
      ]
      | inr no_less ↦
          let (r, e, le, all, at) = select_from-Improves b rest in
          rw no_less (
            r,
            e,
            le,
            (ground arith, all),
            elim at [ inl same ↦ inl same | inr later ↦ inr (inr later) ],
          )
    ]

select_from-IsLeast :
    (s : Storage) (rest : List Storage)
    → (r : Storage) × (select_from (s ∷ rest) 0 none ≡ some r) × IsLeast (s ∷ rest) r
unfolding select_from
select_from-IsLeast s rest = elim (Bool-cases (storage_ranking s == 0)) [
  | inl idle ↦ rw idle (
    s,
    refl,
    record { among = inl refl; least = (omega arith, All-least s rest ((==_iff _ 0).0 idle)) },
  )
  | inr busy ↦
      let (r, e, le, all, at) = select_from-Improves s rest in
      rw busy (r, e, record { among = at; least = (le, all) })
]

-- The balancer selects a storage whose ranking is the least of all, and none only when no PPD is
-- connected.
pub select_storage-IsLeast :
    (p : Praid)
    → ((p.storages.elements ≡ []) × (select_storage p ≡ none))
      ⊎ ((s : Storage) × (select_storage p ≡ some s) × IsLeast p.storages.elements s)
unfolding select_storage
select_storage-IsLeast p = cases p.storages.elements
  where
    cases :
        (ss : List Storage)
        → ((ss ≡ []) × (select_from ss 0 none ≡ none))
          ⊎ ((s : Storage) × (select_from ss 0 none ≡ some s) × IsLeast ss s)
    cases [] = inl (refl, unfold select_from in refl)
    cases (s ∷ rest) = inr (select_from-IsLeast s rest)
