-- ===== src/Commons/LinkedList.antt =====
-- grage-commons/app/src/misc/linux-commons-list.c: the chain of nodes with a count, ordered by a
-- criterion. A chain is the list of its nodes' data from `elements` on. The mutex is not modelled:
-- each operation stands for one critical section, and an iterator reads a chain that no other
-- thread changes meanwhile.
pub mod Insert
pub mod Remove
use grage_fat.Base.{
  ℕ, ◌+◌, ◌-◌, Bool, true, false, Option, none, some, List, [], ◌∷◌, ◌++◌, find, if◌then◌else◌,
}

pub record LinkedList {ℓ} (A : Type ℓ) : Type ℓ where
  pub size : ℕ
  pub elements : List A
  pub sorting_criteria : A → A → Bool
  pub equality_criteria : A → A → Bool

module _ {ℓ} {A : Type ℓ} where
  unfoldable pub order_always_first : A → A → Bool
  order_always_first a b = false

  unfoldable pub order_always_last : A → A → Bool
  order_always_last a b = true

  unfoldable pub build_list : (A → A → Bool) → (A → A → Bool) → LinkedList A
  build_list equality sorting = record {
    size = 0;
    elements = [];
    sorting_criteria = sorting;
    equality_criteria = equality;
  }

  -- The end of `commons_list_addNode`: `aux` is the node where the loop stopped. In the first
  -- branch the head becomes the new node, whatever stood before `aux`.
  unfoldable pub link : (A → A → Bool) → A → List A → A → List A → List A
  link sorting n before aux rest =
      if sorting aux n then before ++ (aux ∷ n ∷ rest) else n ∷ aux ∷ rest

  -- Its loop, which looks one node ahead of `aux`.
  unfoldable pub advance : (A → A → Bool) → A → List A → A → List A → List A
  unfolding link
  advance sorting n before aux [] = link sorting n before aux []
  advance sorting n before aux (next ∷ rest) =
      let onward = advance sorting n (before ++ aux ∷ []) next rest in
      if sorting next n then onward else link sorting n before aux (next ∷ rest)

  unfoldable pub insert_node : (A → A → Bool) → A → List A → List A
  unfolding advance
  insert_node sorting n [] = n ∷ []
  insert_node sorting n (aux ∷ rest) = advance sorting n [] aux rest

  unfoldable pub add_node : LinkedList A → A → LinkedList A
  add_node l x = record l {
    size = l.size + 1;
    elements = insert_node l.sorting_criteria x l.elements;
  }

  -- `commons_list_removeNode`: the chain that is left, and the data that `removeOperation` is
  -- called with.
  unfoldable pub unlink : (A → Bool) → List A → Option A × List A
  unlink same [] = (none, [])
  unlink same (act ∷ rest) =
      let (found, left) = unlink same rest in
      if same act then (some act, rest) else (found, act ∷ left)

  unfoldable pub detach : LinkedList A → Option A × List A → LinkedList A × Option A
  detach l (none, rest) = (l, none)
  detach l (some x, rest) = (record l { size = l.size - 1; elements = rest }, some x)

  unfoldable pub remove_node : LinkedList A → A → LinkedList A × Option A
  unfolding detach
  remove_node l x = detach l (unlink (λ act. l.equality_criteria act x) l.elements)

  abbrev is_found : Option A → Bool
  is_found none = false
  is_found (some x) = true

  unfoldable pub contains_node : LinkedList A → A → Bool
  contains_node l x = is_found (find (λ elem. l.equality_criteria elem x) l.elements)

  unfoldable pub get_node_by_criteria : LinkedList A → (A → Bool) → Option A
  get_node_by_criteria l selection = find selection l.elements

  -- `commons_list_removeList`: the iterator runs over the chain as it was, and each removal
  -- searches the chain as it is. The result lists the data that were handed to `removeOperation`.
  unfoldable pub remove_all : List A → LinkedList A → LinkedList A × List A
  remove_all [] l = (l, [])
  remove_all (obj ∷ rest) l =
      let (l', removed) = remove_node l obj in
      let (l'', more) = remove_all rest l' in
      (l'', elim removed [ none ↦ more | some y ↦ y ∷ more ])

  unfoldable pub remove_list : LinkedList A → LinkedList A × List A
  remove_list l = remove_all l.elements l
