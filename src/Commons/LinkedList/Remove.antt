-- ===== src/Commons/LinkedList/Remove.antt =====
-- What `commons_list_removeNode` and `commons_list_removeList` take out, and the count.
use grage_fat.Base.{
  ◌+◌, ◌-◌, ◌≡◌, refl, ap, sym, Bool, true, Option, none, some, List, [], ◌∷◌, inl, inr, Bool-cases,
  Option-cases, arith, length, length-append, find, erase, All,
}
use grage_fat.Commons.LinkedList.{
  LinkedList, add_node, unlink, detach, remove_node, remove_all, remove_list,
}
use grage_fat.Commons.LinkedList.Insert.{add_node-Inserts}

module _ {ℓ} {A : Type ℓ} where
  -- The count is the number of nodes.
  abbrev pub IsCounted : LinkedList A → Type 0
  IsCounted l = l.size ≡ length l.elements

  pub unlink-find : (same : A → Bool) (xs : List A) → unlink same xs ≡ (find same xs, erase same xs)
  unfolding unlink find erase
  unlink-find same [] = refl
  unlink-find same (x ∷ xs) = ground (arith, unlink-find same xs)

  pub length-erase :
      (same : A → Bool) (xs : List A) (x : A)
      → find same xs ≡ some x
      → length (erase same xs) + 1 ≡ length xs
  unfolding find erase
  length-erase same [] y e = cc
  length-erase same (x ∷ xs) y e = ground (arith, length-erase same xs y)

  erase_absent : (same : A → Bool) (xs : List A) → find same xs ≡ none → erase same xs ≡ xs
  unfolding find erase
  erase_absent same [] e = refl
  erase_absent same (x ∷ xs) e = ground (arith, erase_absent same xs)

  -- `remove_node` takes out the first element that the equality criterion accepts, if there is
  -- one, and hands it over.
  pub remove_node-find :
      (l : LinkedList A) (x : A)
      → let same = λ (act : A). l.equality_criteria act x in
        ((remove_node l x).1 ≡ find same l.elements)
        × ((remove_node l x).0.elements ≡ erase same l.elements)
  unfolding remove_node
  remove_node-find l x =
      let same = λ (act : A). l.equality_criteria act x in
      elim (Option-cases (find same l.elements)) [
        | inl e ↦ rw (unlink-find same l.elements, e) (refl, sym (erase_absent same l.elements e))
        | inr (y, e) ↦ rw (unlink-find same l.elements, e) (refl, refl)
      ]

  pub remove_node-IsCounted :
      (l : LinkedList A) (x : A) → IsCounted l → IsCounted (remove_node l x).0
  unfolding remove_node
  remove_node-IsCounted l x c =
      let same = λ (act : A). l.equality_criteria act x in
      elim (Option-cases (find same l.elements)) [
        | inl e ↦ rw (unlink-find same l.elements, e) c
        | inr (y, e) ↦
            rw (unlink-find same l.elements, e) (omega (arith, length-erase same l.elements y e, c))
      ]

  pub add_node-IsCounted : (l : LinkedList A) (x : A) → IsCounted l → IsCounted (add_node l x)
  add_node-IsCounted l x c =
      let (front, back, e, r) = (add_node-Inserts l x).0 in
      omega (
        arith,
        (add_node-Inserts l x).1,
        ap length e,
        ap length r,
        length-append front back,
        length-append front (x ∷ back),
      )

  remove_node_first :
      (l : LinkedList A) (x : A) (xs : List A)
      → l.elements ≡ x ∷ xs
      → l.equality_criteria x x ≡ true
      → remove_node l x ≡ (record l { size = l.size - 1; elements = xs }, some x)
  unfolding remove_node unlink
  remove_node_first l x xs e t = rw (e, unlink) (rw t)

  -- Each search is for the node that comes first: `remove_all` over the chain itself takes the
  -- nodes out one after the other, and none is left.
  remove_all-nil :
      (equality : A → A → Bool)
      → ((a : A) → equality a a ≡ true)
      → (xs : List A) (l : LinkedList A) → l.equality_criteria ≡ equality
      → l.elements ≡ xs
      → ((remove_all xs l).0.elements ≡ []) × ((remove_all xs l).1 ≡ xs)
  unfolding remove_all remove_node unlink
  remove_all-nil equality reflexive [] l q e = (e, refl)
  remove_all-nil equality reflexive (x ∷ xs) l q e =
      let first = remove_node_first l x xs e (rw q (reflexive x)) in
      let rest =
        remove_all-nil equality reflexive xs (record l { size = l.size - 1; elements = xs }) q
          refl in
      rw (first, remove_all) (rest.0, rw first (ap (◌∷◌ x) rest.1))

  -- `removeList` hands every element to `removeOperation` once, in the chain's order, and leaves
  -- no node, if every element equals itself by the chain's criterion.
  pub remove_list-empties :
      (l : LinkedList A)
      → ((a : A) → l.equality_criteria a a ≡ true)
      → ((remove_list l).0.elements ≡ []) × ((remove_list l).1 ≡ l.elements)
  unfolding remove_list
  remove_list-empties l reflexive =
      remove_all-nil l.equality_criteria reflexive l.elements l refl refl

  pub remove_node-criteria :
      (l : LinkedList A) (x : A)
      → ((remove_node l x).0.sorting_criteria ≡ l.sorting_criteria)
        × ((remove_node l x).0.equality_criteria ≡ l.equality_criteria)
  unfolding remove_node
  remove_node-criteria l x = kept (unlink (λ act. l.equality_criteria act x) l.elements)
    where
      kept :
          (r : Option A × List A)
          → ((detach l r).0.sorting_criteria ≡ l.sorting_criteria)
            × ((detach l r).0.equality_criteria ≡ l.equality_criteria)
      kept (none, rest) = unfold detach in (refl, refl)
      kept (some y, rest) = unfold detach in (refl, refl)

  pub All-erase {κ} :
      (P : A → Type κ) (same : A → Bool) (xs : List A) → All P xs → All P (erase same xs)
  unfolding erase
  All-erase P same [] h = h
  All-erase P same (x ∷ xs) h = elim (Bool-cases (same x)) [
    | inl e ↦ rw e h.1
    | inr e ↦ rw e (h.0, All-erase P same xs h.1)
  ]
