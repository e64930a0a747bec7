-- ===== src/Am/Tests.antt =====
-- Runs of the routines of amlayer/ on small pages: leaves and nodes with keys of type 'i'.
use database_assignment.Prelude.{
  ℕ, ◌+◌, ◌-◌, ◌%◌, ◌≤◌, ◌<◌, ◌≡◌, ◌≢◌, ap, length, inl, inr, refl, true, false, List, [], ◌∷◌,
  some, none, arith, ltb,
}
use database_assignment.Prelude.Int.{pos}
use database_assignment.Words.{Bytes, load, store, copy, slt}
use database_assignment.Words.Short.{load16, store16}
use database_assignment.Sp.{page_size}
use database_assignment.Sp.Records.{bytes_of}
use database_assignment.Sp.Tests.{zeros, memory, idle, state_of, state_of-IsSafe}
use database_assignment.Am.{
  int_attr, compare, Libc, equal, key_at, int_key_at, child_at, free_list, max_keys_at, int_header,
  int_max_keys_at, int_attr_length_at, int_num_keys_at,
}
use database_assignment.Am.Search.{
  narrow, leaf_border, search_keys, leaf_order, int_order, search_leaf, bin_search,
}
use database_assignment.Am.Search.Linear.{linear_leaf, last_not_below}
use database_assignment.Am.Search.Pages.{search_leaf_linear, bin_search_linear, ints-IsOrdered}
use database_assignment.Am.Leaf.{
  put_header, take_cell, link_cell, insert_found, shift_up, put_key, insert_not_found,
  insert_new_key, insert_new, insert_into_leaf, compact,
}
use database_assignment.Am.Leaf.Found.{with_rec}
use database_assignment.Am.Leaf.Opened.{opened}
use database_assignment.Am.Leaf.Finds.{search_leaf-insert_into_leaf}
use database_assignment.Am.Leaf.Repacked.{compact-Represents}
use database_assignment.Am.Leaf.Insert.{Represents}
use database_assignment.Am.Leaf.Refines.{Gives, is_full, insert_into_leaf_old, insert_into_leaf_new}
use database_assignment.Am.Node.{
  int_num_keys, int_max_keys, int_attr_length, add_to_int_page, split_int_node,
}
use database_assignment.Am.Node.Entries.{node_entry, add_to_int_page_lem}
use database_assignment.Am.Node.Divide.{IsNode, with_child, split_int_node_lem}
use database_assignment.Am.Tree.{free_scan, Scan, Am}
use database_assignment.Am.Tree.Find.{search}
use database_assignment.Am.Tree.Entries.{delete_in_leaf, max_keys_for, empty_leaf}
use database_assignment.Am.Leaf.Deletes.{Deletes, delete_in_leaf-Deletes}
use database_assignment.Am.Leaf.Undone.{Restores, delete_in_leaf-insert_into_leaf}
use database_assignment.Am.Tree.Empty.{empty_leaf-Represents}
use database_assignment.Am.Tree.Outcome.{Outcome}
use database_assignment.Am.Tree.Safe.{Safe, Answers, search-Outcome}

abbrev libc : Libc
libc = record { float_less = ltb; strncmp = λ _ _ _. equal }

-- the keys 10 and 20 in a leaf, and in an internal node
abbrev leaf_keys : Bytes
leaf_keys = store 30 20 (store 24 10 zeros)

abbrev node_keys : Bytes
node_keys = store 20 20 (store 12 10 zeros)

abbrev fifteen : Bytes
fifteen = store 0 15 zeros

leaf_sorted :
    (i j : ℕ)
    → 1 ≤ i
    → i < j
    → j ≤ 2
    → slt (load leaf_keys (key_at 4 i)) (load leaf_keys (key_at 4 j)) ≡ true
unfolding load store
leaf_sorted i j a b c = let e : i ≡ 1 = omega arith in let f : j ≡ 2 = omega arith in rw (e, f) refl

node_sorted :
    (i j : ℕ)
    → 1 ≤ i
    → i < j
    → j ≤ 2
    → slt (load node_keys (int_key_at 4 i)) (load node_keys (int_key_at 4 j)) ≡ true
unfolding load store
node_sorted i j a b c = let e : i ≡ 1 = omega arith in let f : j ≡ 2 = omega arith in rw (e, f) refl

search_leaf_linear_example :
    search_leaf libc int_attr 4 fifteen leaf_keys 2
    ≡ some (linear_leaf (leaf_order libc int_attr 4 fifteen leaf_keys) 2)
search_leaf_linear_example =
    search_leaf_linear libc int_attr 4 fifteen leaf_keys 2
      (ints-IsOrdered libc fifteen leaf_keys (key_at 4) 2 leaf_sorted)

bin_search_linear_example : bin_search libc int_attr 4 fifteen node_keys 2 ≡ (
    let c = last_not_below (int_order libc int_attr 4 fifteen node_keys) 1 2 in
    some (load node_keys (child_at 4 c), c))
bin_search_linear_example =
    bin_search_linear libc int_attr 4 fifteen node_keys 2 (omega arith)
      (ints-IsOrdered libc fifteen node_keys (int_key_at 4) 2 node_sorted)

-- The page of a new index, and one with the key 15 and the record number 7
abbrev no_entries : ℕ → List ℕ × List ℕ
no_entries _ = ([], [])

abbrev new_leaf : Bytes
new_leaf = put_header (zeros, empty_leaf zeros 4)

empty_leaf-Represents_example :
    Represents 4 0 no_entries new_leaf
    × (load16 new_leaf max_keys_at % 2 ≡ 0)
    × (child_at 4 (load16 new_leaf max_keys_at) + 4 ≤ page_size)
empty_leaf-Represents_example = empty_leaf-Represents zeros 4 (omega arith) zeros no_entries

new_leaf-Represents : Represents 4 0 no_entries new_leaf
new_leaf-Represents = (empty_leaf-Represents zeros 4 (omega arith) zeros no_entries).0

new_leaf_free : free_list new_leaf ≡ 0
unfolding empty_leaf load16 store16 copy
new_leaf_free = refl

abbrev one_entry : ℕ → List ℕ × List ℕ
one_entry = opened 1 (bytes_of fifteen 0 4, 7 ∷ []) no_entries

insert_into_leaf_new_example :
    Gives 4 1 one_entry
      (is_full 12 new_leaf)
      new_leaf
      (insert_into_leaf zeros 4 fifteen 7 1 false new_leaf)
insert_into_leaf_new_example =
    insert_into_leaf_new zeros 4 0 no_entries fifteen new_leaf 7 1 new_leaf-Represents (omega arith)
      (omega arith) (omega arith) (inl new_leaf_free)

new_leaf_room : is_full 12 new_leaf ≡ false
unfolding empty_leaf load16 store16 copy
new_leaf_room = refl

abbrev pub one_key : Bytes
one_key = (insert_into_leaf zeros 4 fifteen 7 1 false new_leaf).1

one_key-Represents : Represents 4 1 one_entry one_key
one_key-Represents =
    elim (insert_into_leaf_new zeros 4 0 no_entries fifteen new_leaf 7 1 new_leaf-Represents
      (omega arith) (omega arith) (omega arith) (inl new_leaf_free)) [
        | inl (e, _) ↦ ground (arith, new_leaf_room, e)
        | inr (_, _, r) ↦ r
      ]

insert_into_leaf_old_example :
    Gives 4 1
      (with_rec 8 1 one_entry)
      (is_full 6 one_key)
      one_key
      (insert_into_leaf zeros 4 fifteen 8 1 true one_key)
insert_into_leaf_old_example =
    insert_into_leaf_old zeros 4 4 1 one_entry fifteen one_key 8 1 one_key-Represents (omega arith)
      (omega arith) (omega arith)

-- an internal node with two keys and room for two
abbrev node : Bytes
node =
    store16 int_num_keys_at 2 (store16 int_max_keys_at 2 (store16 int_attr_length_at 4 node_keys))

node_num_keys : int_num_keys node ≡ 2
unfolding load16 store16
node_num_keys = refl

node_max_keys : int_max_keys node ≡ 2
unfolding load16 store16
node_max_keys = refl

add_to_int_page_example :
    (int_num_keys (add_to_int_page fifteen 9 1 (node, node)).1 ≡ int_num_keys node + 1)
    × (load (add_to_int_page fifteen 9 1 (node, node)).0 int_header ≡ load node int_header)
    × ((i : ℕ)
        → 1 ≤ i
        → i ≤ int_num_keys node + 1
        → node_entry (int_attr_length node) (add_to_int_page fifteen 9 1 (node, node)).0 i
          ≡ opened 2
              (bytes_of fifteen 0 (int_attr_length node), 9)
              (node_entry (int_attr_length node) node)
              i)
add_to_int_page_example =
    add_to_int_page_lem fifteen 9 1 node node (omega arith) (omega (arith, node_num_keys))
      (omega (arith, node_num_keys))

split_int_node_example :
    IsNode
      (int_attr_length node)
      1
      (load node int_header)
      (with_child node fifteen 9 1 node)
      (split_int_node zeros zeros zeros zeros fifteen 9 1 (node, node)).first
    × IsNode
        (int_attr_length node)
        1
        (with_child node fifteen 9 1 node 2).1
        (λ i. with_child node fifteen 9 1 node (2 + i))
        (split_int_node zeros zeros zeros zeros fifteen 9 1 (node, node)).second
    × (bytes_of
          (split_int_node zeros zeros zeros zeros fifteen 9 1 (node, node)).middle_key
          0
          (int_attr_length node)
        ≡ (with_child node fifteen 9 1 node 2).0)
split_int_node_example =
    split_int_node_lem zeros zeros zeros zeros fifteen 9 1 1 node node (omega arith) node_max_keys
      (omega (arith, node_max_keys)) (omega (arith, node_max_keys))

abbrev no_scan : Scan
no_scan = record {
  file = pos 0;
  op = 0;
  attr_type = int_attr;
  page = 0;
  index = 0;
  actindex = 0;
  next_page = 0;
  next_value = zeros;
  next_index = 0;
  next_ptr = 0;
  last_page = 0;
  last_index = 0;
  status = free_scan;
}

-- a file with one page, the leaf with the key 15
abbrev pub tree : Am Unit
tree = record {
  pf = state_of one_key;
  root = 0;
  left = 0;
  errno = none;
  stack = [];
  scans = λ _. no_scan;
}

search_example :
    Outcome
      (Answers memory idle libc int_attr 4 fifteen (pos 0))
      (Safe memory idle libc int_attr 4 fifteen (pos 0))
      (search memory idle libc int_attr 4 fifteen (pos 0) tree)
search_example =
    search-Outcome memory idle libc int_attr 4 fifteen (pos 0) tree (state_of-IsSafe one_key)

abbrev twenty : Bytes
twenty = store 0 20 zeros

one_key_absent : search_leaf libc int_attr 4 twenty one_key 1 ≡ some (2, false)
unfolding search_leaf search_keys narrow leaf_border compare insert_into_leaf insert_new
    insert_new_key insert_not_found insert_found take_cell link_cell shift_up put_key empty_leaf
    max_keys_for load store load16 store16 copy
one_key_absent = refl

one_key_free : free_list one_key ≡ 0
unfolding insert_into_leaf insert_new insert_new_key insert_not_found insert_found take_cell
    link_cell shift_up put_key empty_leaf max_keys_for load store load16 store16 copy
one_key_free = refl

one_key_room : is_full 12 one_key ≡ false
unfolding insert_into_leaf insert_new insert_new_key insert_not_found insert_found take_cell
    link_cell shift_up put_key empty_leaf max_keys_for load store load16 store16 copy
one_key_room = refl

search_leaf-insert_into_leaf_example :
    search_leaf libc int_attr 4 twenty (insert_into_leaf zeros 4 twenty 9 2 false one_key).1 2
    ≡ some (2, true)
search_leaf-insert_into_leaf_example =
    search_leaf-insert_into_leaf libc zeros twenty one_key 1 one_entry 9 2 one_key-Represents
      (λ i j a b c. absurd (omega arith)) one_key_absent (omega arith) (inl one_key_free)
      one_key_room

one_entry_full : (i : ℕ) → 1 ≤ i → i ≤ 1 → (one_entry i).1 ≢ []
one_entry_full i a b e =
    let f : i ≡ 1 = omega arith in
    let first : (one_entry 1).1 ≡ [] = rw f at e in
    let g : 1 ≡ 0 = ap length first in absurd (omega (arith, g))

compact-Represents_example :
    Represents 4 1 (λ i. one_entry (1 + (i - 1))) (compact 1 1 one_key zeros one_key)
compact-Represents_example =
    compact-Represents 4 1 1 1 one_entry one_key zeros one_key-Represents (omega arith)
      (omega arith) (omega arith) one_entry_full

delete_in_leaf-Deletes_example : Deletes 4 1 one_entry 1 7 (delete_in_leaf 4 7 1 one_key)
delete_in_leaf-Deletes_example =
    delete_in_leaf-Deletes 4 1 one_entry one_key 7 1 one_key-Represents (omega arith) (omega arith)

delete_in_leaf-insert_into_leaf_example :
    Restores 4 1 one_entry
      (delete_in_leaf 4 9 2 (insert_into_leaf zeros 4 twenty 9 2 false one_key).1)
delete_in_leaf-insert_into_leaf_example =
    delete_in_leaf-insert_into_leaf zeros 4 1 one_entry twenty one_key 9 2 one_key-Represents
      (omega arith) (omega arith) (omega arith) (inl one_key_free) one_key_room
