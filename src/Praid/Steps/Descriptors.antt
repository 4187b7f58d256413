-- ===== src/Praid/Steps/Descriptors.antt =====
-- Which descriptors stay open, and which connections stay in the list of storages.
use grage_fat.Base.{
  ℕ, ◌≡◌, ◌≢◌, refl, subst, inl, inr, Bool, List, [], ◌∷◌, Bool-cases, All, All-In, In, erase, ◌==◌,
  arith,
}
use grage_fat.Praid.State.{Storage, storage_eq}
use grage_fat.Praid.WellFormed.{IsFresh, AreDistinct}
use grage_fat.Praid.Steps.{close_descriptor}

pub weaken :
    (P R : ℕ → Type 0) (ss : List Storage)
    → ((s : Storage) → In s ss → P s.connection → R s.connection)
    → All (λ s. P s.connection) ss
    → All (λ s. R s.connection) ss
weaken P R [] f h = tt
weaken P R (s ∷ ss) f h = (f s (inl refl) h.0, weaken P R ss (λ t at k. f t (inr at) k) h.1)

close_descriptor-In : (c k : ℕ) (ds : List ℕ) → In c ds → c ≢ k → In c (close_descriptor k ds)
unfolding close_descriptor
close_descriptor-In c k [] at n = at
close_descriptor-In c k (d ∷ ds) at n = elim (Bool-cases (d == k)) [
  | inl e ↦ rw e (elim at [
    | inl same ↦ absurd (n (ground (arith, e, same)))
    | inr later ↦ close_descriptor-In c k ds later n
  ])
  | inr e ↦
      rw e (elim at [ inl same ↦ inl same | inr later ↦ inr (close_descriptor-In c k ds later n) ])
]

-- The storage that is taken out was the only one with its connection.
pub erase-IsFresh :
    (s : Storage) (ss : List Storage)
    → AreDistinct ss
    → IsFresh s.connection (erase (λ t. storage_eq t s) ss)
unfolding erase storage_eq
erase-IsFresh s [] d = tt
erase-IsFresh s (t ∷ ss) d = elim (Bool-cases (t.connection == s.connection)) [
  | inl e ↦
      let same : t.connection ≡ s.connection = ground arith in
      rw e (subst (λ c. IsFresh c ss) same d.0)
  | inr e ↦
      let other : t.connection ≢ s.connection = ground arith in rw e (other, erase-IsFresh s ss d.1)
]

pub erase-All :
    (P : ℕ → Type 0) (same : Storage → Bool) (ss : List Storage)
    → All (λ s. P s.connection) ss
    → All (λ s. P s.connection) (erase same ss)
unfolding erase
erase-All P same [] h = tt
erase-All P same (s ∷ ss) h = elim (Bool-cases (same s)) [
  | inl e ↦ rw e h.1
  | inr e ↦ rw e (h.0, erase-All P same ss h.1)
]

pub closed-All :
    (k : ℕ) (opened : List ℕ) (ss : List Storage)
    → IsFresh k ss
    → All (λ s. In s.connection opened) ss
    → All (λ s. In s.connection (close_descriptor k opened)) ss
closed-All k opened ss f h =
    weaken (λ c. In c opened) (λ c. In c (close_descriptor k opened)) ss
      (λ s at i.
        close_descriptor-In s.connection k opened i (All-In (λ t. t.connection ≢ k) ss s f at))
      h
