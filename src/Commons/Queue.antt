-- ===== src/Commons/Queue.antt =====
-- grage-commons/app/src/misc/linux-commons-queue.c: a queue is a chain; what its sorting criterion
-- makes of it. The queue is not `NULL` (`commons_queue_get` locks its mutex before it tests that).
use grage_fat.Base.{
  ℕ, ◌-◌, ◌≡◌, refl, ap, ap₂, ◌∙◌, Bool, Option, none, some, List, [], ◌∷◌, ◌++◌, append_assoc,
  append-nil, map, sym, zero, suc, ◌==◌, length, arith,
}
use grage_fat.Commons.LinkedList.Remove.{IsCounted, add_node-IsCounted}
use grage_fat.Commons.LinkedList.{
  LinkedList, build_list, order_always_last, order_always_first, add_node, insert_node, advance,
  link,
}

module _ {ℓ} {A : Type ℓ} where
  unfoldable pub build_queue : (A → A → Bool) → LinkedList A
  build_queue equality = build_list equality order_always_last

  unfoldable pub build_queue_with_sorting_criteria : (A → A → Bool) → (A → A → Bool) → LinkedList A
  build_queue_with_sorting_criteria equality sorting = build_list equality sorting

  unfoldable pub get : LinkedList A → Option A × LinkedList A
  get q = elim q.elements [
    | [] ↦ (none, q)
    | first ∷ rest ↦ (some first, record q { size = q.size - 1; elements = rest })
  ]

  unfoldable pub put : LinkedList A → A → LinkedList A
  put q x = add_node q x

  unfoldable pub is_empty : LinkedList A → Bool
  is_empty q = q.size == 0

  advance-last :
      (x : A) (before : List A) (aux : A) (rest : List A)
      → advance order_always_last x before aux rest ≡ before ++ aux ∷ (rest ++ x ∷ [])
  unfolding advance link order_always_last
  advance-last x before aux [] = refl
  advance-last x before aux (next ∷ rest) =
      advance-last x (before ++ aux ∷ []) next rest
      ∙ append_assoc before (aux ∷ []) (next ∷ (rest ++ x ∷ []))

  insert_node-last : (x : A) (xs : List A) → insert_node order_always_last x xs ≡ xs ++ x ∷ []
  unfolding insert_node
  insert_node-last x [] = refl
  insert_node-last x (y ∷ ys) = advance-last x [] y ys

  pub insert_node-first : (x : A) (xs : List A) → insert_node order_always_first x xs ≡ x ∷ xs
  unfolding insert_node advance link order_always_first
  insert_node-first x [] = refl
  insert_node-first x (y ∷ []) = refl
  insert_node-first x (y ∷ z ∷ zs) = refl

  -- A queue from `build_queue` takes every element at its end.
  abbrev pub IsFifo : LinkedList A → Type ℓ
  IsFifo q = q.sorting_criteria ≡ order_always_last

  pub add_node-last :
      (l : LinkedList A) (x : A) → IsFifo l → (add_node l x).elements ≡ l.elements ++ x ∷ []
  unfolding add_node
  add_node-last l x f = rw f (insert_node-last x l.elements)

  pub put-elements :
      (q : LinkedList A) (x : A) → IsFifo q → (put q x).elements ≡ q.elements ++ x ∷ []
  unfolding put
  put-elements q x f = add_node-last q x f

  abbrev pub put_all : LinkedList A → List A → LinkedList A
  put_all q [] = q
  put_all q (x ∷ xs) = put_all (put q x) xs

  abbrev pub get_all : ℕ → LinkedList A → List (Option A)
  get_all zero q = []
  get_all (suc n) q = let (x, q') = get q in x ∷ get_all n q'

  put_all-elements :
      (xs : List A) (q : LinkedList A) → IsFifo q → (put_all q xs).elements ≡ q.elements ++ xs
  unfolding put add_node
  put_all-elements [] q f = sym (append-nil q.elements)
  put_all-elements (x ∷ xs) q f =
      put_all-elements xs (put q x) f
      ∙ ap (λ (l : List A). l ++ xs) (put-elements q x f)
      ∙ append_assoc q.elements (x ∷ []) xs

  pub get_first :
      (q : LinkedList A) (x : A) (xs : List A)
      → q.elements ≡ x ∷ xs
      → get q ≡ (some x, record q { size = q.size - 1; elements = xs })
  unfolding get
  get_first q x xs e = rw (e, get)

  pub get-none : (q : LinkedList A) → q.elements ≡ [] → get q ≡ (none, q)
  unfolding get
  get-none q e = ground arith

  get_all-elements :
      (xs : List A) (q : LinkedList A)
      → q.elements ≡ xs
      → get_all (suc (length xs)) q ≡ map some xs ++ none ∷ []
  get_all-elements [] q e = rw (get-none q e)
  get_all-elements (x ∷ xs) q e =
      ap₂ (λ (r : Option A × LinkedList A) (rest : List (Option A)). r.0 ∷ rest)
        (get_first q x xs e)
        (ap (λ (r : Option A × LinkedList A). get_all (suc (length xs)) r.1) (get_first q x xs e)
          ∙ get_all-elements xs (record q { size = q.size - 1; elements = xs }) refl)

  -- First in, first out: what is put into a new queue, in whatever number, comes out in the same
  -- order, and after it the queue reports that it is empty.
  pub get_all-put_all :
      (equality : A → A → Bool) (xs : List A)
      → get_all (suc (length xs)) (put_all (build_queue equality) xs) ≡ map some xs ++ none ∷ []
  unfolding build_queue build_list
  get_all-put_all equality xs =
      get_all-elements xs (put_all (build_queue equality) xs)
        (put_all-elements xs (build_queue equality) refl)

  pub put-IsFifo : (q : LinkedList A) (x : A) → IsFifo q → IsFifo (put q x)
  unfolding put add_node
  put-IsFifo q x f = f

  pub put-IsCounted : (q : LinkedList A) (x : A) → IsCounted q → IsCounted (put q x)
  unfolding put
  put-IsCounted q x c = add_node-IsCounted q x c

  pub build_queue_lem :
      (equality : A → A → Bool)
      → IsFifo (build_queue equality)
        × IsCounted (build_queue equality)
        × ((build_queue equality).elements ≡ [])
  unfolding build_queue build_list
  build_queue_lem equality = (refl, refl, refl)
