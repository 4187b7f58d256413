-- ===== src/Commons/LinkedList/Insert.antt =====
-- `commons_list_addNode` loses no node: where it inserts, and that it keeps an order.
use grage_fat.Base.{
  ◌+◌, ◌≡◌, refl, sym, subst, ◌∙◌, Bool, true, false, List, [], ◌∷◌, ◌++◌, ◌⊎◌, inl, inr,
  append_assoc, Bool-cases, if◌then◌else◌,
}
use grage_fat.Commons.LinkedList.{LinkedList, link, advance, insert_node, add_node}

module _ {ℓ} {A : Type ℓ} where
  -- `r` is `l` with `n` put in between two parts of it.
  abbrev pub Inserts : A → List A → List A → Type ℓ
  Inserts n l r = (front : List A) × (back : List A) × (l ≡ front ++ back) × (r ≡ front ++ n ∷ back)

  module _ (sorting : A → A → Bool) (n : A) where
    -- The loop passes a node only if the criterion puts it before `n`.
    abbrev Passed : List A → A → Type ℓ
    Passed before aux = (before ≡ []) ⊎ (sorting aux n ≡ true)

    link-Inserts :
        (before : List A) (aux : A) (rest : List A)
        → Passed before aux
        → Inserts n (before ++ aux ∷ rest) (link sorting n before aux rest)
    unfolding link
    link-Inserts before aux rest p = elim (Bool-cases (sorting aux n)) [
      | inl e ↦ (
        before ++ aux ∷ [],
        rest,
        sym (append_assoc before (aux ∷ []) rest),
        rw e (sym (append_assoc before (aux ∷ []) (n ∷ rest))),
      )
      | inr e ↦ elim p [ inl none_before ↦ ([], aux ∷ rest, rw none_before, rw e) | inr after ↦ cc ]
    ]

    advance-Inserts :
        (before : List A) (aux : A) (rest : List A)
        → Passed before aux
        → Inserts n (before ++ aux ∷ rest) (advance sorting n before aux rest)
    unfolding advance
    advance-Inserts before aux [] p = link-Inserts before aux [] p
    advance-Inserts before aux (next ∷ rest) p = elim (Bool-cases (sorting next n)) [
      | inl e ↦
          rw (e, advance)
            (subst (λ l. Inserts n l (advance sorting n (before ++ aux ∷ []) next rest))
              (append_assoc before (aux ∷ []) (next ∷ rest))
              (advance-Inserts (before ++ aux ∷ []) next rest (inr e)))
      | inr e ↦ rw e (link-Inserts before aux (next ∷ rest) p)
    ]

  -- `add_node` puts the new element somewhere into the chain, leaves all others in their order and
  -- counts it, whatever the sorting criterion answers.
  pub add_node-Inserts :
      (l : LinkedList A) (x : A)
      → Inserts x l.elements (add_node l x).elements × ((add_node l x).size ≡ l.size + 1)
  unfolding add_node
  add_node-Inserts l x = (inserted l.sorting_criteria l.elements, refl)
    where
      inserted : (sorting : A → A → Bool) (xs : List A) → Inserts x xs (insert_node sorting x xs)
      inserted sorting [] = ([], [], refl, unfold insert_node in refl)
      inserted sorting (aux ∷ rest) =
          unfold insert_node in advance-Inserts sorting x [] aux rest (inl refl)

  abbrev pub IsSorted : (A → A → Bool) → List A → Type 0
  IsSorted sorting [] = Unit
  IsSorted sorting (x ∷ []) = Unit
  IsSorted sorting (x ∷ y ∷ rest) = (sorting x y ≡ true) × IsSorted sorting (y ∷ rest)

  -- The textbook insertion: before the first element that the criterion does not put before `n`.
  pub insert_before : (A → A → Bool) → A → List A → List A
  insert_before sorting n [] = n ∷ []
  insert_before sorting n (x ∷ xs) =
      if sorting x n then x ∷ insert_before sorting n xs else n ∷ x ∷ xs

  module _ (sorting : A → A → Bool) (n : A) where
    advance-insert_before :
        (before : List A) (aux : A) (rest : List A)
        → sorting aux n ≡ true
        → advance sorting n before aux rest ≡ before ++ aux ∷ insert_before sorting n rest
    unfolding advance insert_before link
    advance-insert_before before aux [] e = rw e
    advance-insert_before before aux (next ∷ rest) e = elim (Bool-cases (sorting next n)) [
      | inl f ↦
          rw (f, advance)
            (advance-insert_before (before ++ aux ∷ []) next rest f
              ∙ append_assoc before (aux ∷ []) (next ∷ insert_before sorting n rest))
      | inr f ↦ rw (f, e)
    ]

  module _ (sorting : A → A → Bool)
      (trans : (a b c : A) → sorting a b ≡ true → sorting b c ≡ true → sorting a c ≡ true) where
    -- With a transitive criterion the node loop is, on a chain that is sorted by it, the textbook
    -- insertion.
    pub insert_node-insert_before :
        (xs : List A) (n : A)
        → IsSorted sorting xs
        → insert_node sorting n xs ≡ insert_before sorting n xs
    unfolding insert_node insert_before advance link
    insert_node-insert_before [] n s = refl
    insert_node-insert_before (x ∷ []) n s = refl
    insert_node-insert_before (x ∷ y ∷ rest) n s = elim (Bool-cases (sorting y n)) [
      | inl f ↦
          rw (trans x y n s.0 f, f, advance) (advance-insert_before sorting n (x ∷ []) y rest f)
      | inr f ↦ rw (f, advance) (elim (Bool-cases (sorting x n)) [ inl e ↦ rw e | inr e ↦ rw e ])
    ]

    insert_before-IsSorted :
        ((a b : A) → sorting a b ≡ false → sorting b a ≡ true)
        → (xs : List A) (n : A) → IsSorted sorting xs
        → IsSorted sorting (insert_before sorting n xs)
    unfolding insert_before
    insert_before-IsSorted total [] n s = tt
    insert_before-IsSorted total (x ∷ []) n s = elim (Bool-cases (sorting x n)) [
      | inl e ↦ rw e (e, tt)
      | inr e ↦ rw e (total x n e, tt)
    ]
    insert_before-IsSorted total (x ∷ y ∷ rest) n s = elim (Bool-cases (sorting x n)) [
      | inl e ↦ elim (Bool-cases (sorting y n)) [
        | inl f ↦ rw (e, f) (s.0, rw f at (insert_before-IsSorted total (y ∷ rest) n s.1))
        | inr f ↦ rw (e, f) (e, (total y n f, s.1))
      ]
      | inr e ↦ rw e (total x n e, s)
    ]

    -- With a criterion that is total and transitive, `add_node` keeps a chain sorted.
    pub add_node-IsSorted :
        ((a b : A) → sorting a b ≡ false → sorting b a ≡ true)
        → (l : LinkedList A) (x : A) → l.sorting_criteria ≡ sorting
        → IsSorted sorting l.elements
        → IsSorted sorting (add_node l x).elements
    unfolding add_node
    add_node-IsSorted total l x e s =
        rw (e, insert_node-insert_before l.elements x s)
          (insert_before-IsSorted total l.elements x s)
