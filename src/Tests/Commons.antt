-- ===== src/Tests/Commons.antt =====
-- Chains, queues and sockets with a few elements.
use grage_fat.Base.{ℕ, ◌≡◌, refl, true, false, some, none, [], ◌∷◌, leb, ◌==◌, arith, find, erase}
use grage_fat.Commons.LinkedList.{LinkedList, add_node, insert_node, remove_node, remove_list}
use grage_fat.Commons.LinkedList.Insert.{
  Inserts, IsSorted, add_node-Inserts, add_node-IsSorted, insert_node-insert_before, insert_before,
}
use grage_fat.Commons.LinkedList.Remove.{remove_node-find, remove_list-empties}
use grage_fat.Commons.Queue.{get_all, put_all, build_queue, get_all-put_all}
use grage_fat.Commons.Socket.{send_bytes, send_bytes_partial}

abbrev numbers : LinkedList ℕ
numbers = record {
  size = 3;
  elements = 2 ∷ 5 ∷ 8 ∷ [];
  sorting_criteria = leb;
  equality_criteria = ◌==◌;
}

leb_trans : (a b c : ℕ) → leb a b ≡ true → leb b c ≡ true → leb a c ≡ true
leb_trans a b c h k = ground arith

leb_total : (a b : ℕ) → leb a b ≡ false → leb b a ≡ true
leb_total a b h = ground arith

==_refl : (a : ℕ) → (a == a) ≡ true
==_refl a = ground arith

add_node-Inserts_example :
    Inserts 6 (2 ∷ 5 ∷ 8 ∷ []) (add_node numbers 6).elements × ((add_node numbers 6).size ≡ 4)
add_node-Inserts_example = add_node-Inserts numbers 6

add_node-IsSorted_example : IsSorted leb (add_node numbers 6).elements
add_node-IsSorted_example =
    add_node-IsSorted leb leb_trans leb_total numbers 6 refl (refl, (refl, tt))

insert_node-insert_before_example :
    insert_node leb 6 (2 ∷ 5 ∷ 8 ∷ []) ≡ insert_before leb 6 (2 ∷ 5 ∷ 8 ∷ [])
insert_node-insert_before_example =
    insert_node-insert_before leb leb_trans (2 ∷ 5 ∷ 8 ∷ []) 6 (refl, (refl, tt))

remove_node-find_example :
    ((remove_node numbers 5).1 ≡ find (λ act. act == 5) (2 ∷ 5 ∷ 8 ∷ []))
    × ((remove_node numbers 5).0.elements ≡ erase (λ act. act == 5) (2 ∷ 5 ∷ 8 ∷ []))
remove_node-find_example = remove_node-find numbers 5

remove_list-empties_example :
    ((remove_list numbers).0.elements ≡ []) × ((remove_list numbers).1 ≡ 2 ∷ 5 ∷ 8 ∷ [])
remove_list-empties_example = remove_list-empties numbers ==_refl

get_all-put_all_example :
    get_all 4 (put_all (build_queue ◌==◌) (7 ∷ 3 ∷ 9 ∷ [])) ≡ some 7 ∷ some 3 ∷ some 9 ∷ none ∷ []
get_all-put_all_example = get_all-put_all ◌==◌ (7 ∷ 3 ∷ 9 ∷ [])

send_bytes_partial_example :
    send_bytes (2 ∷ 3 ∷ []) (10 ∷ 11 ∷ 12 ∷ 13 ∷ 14 ∷ []) ≡ 10 ∷ 11 ∷ 10 ∷ 11 ∷ 12 ∷ []
send_bytes_partial_example =
    send_bytes_partial (10 ∷ 11 ∷ 12 ∷ 13 ∷ 14 ∷ []) 2 [] (omega arith) (omega arith)
