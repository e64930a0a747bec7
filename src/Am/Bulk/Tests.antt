-- ===== src/Am/Bulk/Tests.antt =====
-- Runs of the routines of am_bulkload.c.
use database_assignment.Prelude.{
  ℕ, ◌+◌, ◌-◌, ◌*◌, ◌%◌, ◌≤◌, ◌<◌, ◌≡◌, refl, true, false, arith, leb,
}
use database_assignment.Words.{Bytes, word, load, copy}
use database_assignment.Words.Short.{load16, store16}
use database_assignment.Sp.Tests.{zeros}
use database_assignment.Am.{free_list, int_header}
use database_assignment.Am.Leaf.{insert_into_leaf}
use database_assignment.Am.Leaf.Insert.{Represents}
use database_assignment.Am.Node.{int_num_keys}
use database_assignment.Am.Node.Entries.{node_entry}
use database_assignment.Am.Bulk.{
  Level, entry_size, init_leaf_page, simple_leaf_insert, is_full_leaf, max_leaf_keys, fill_root,
}
use database_assignment.Am.Bulk.Load.{Fresh}
use database_assignment.Am.Bulk.Same.{simple_leaf_insert_lem}
use database_assignment.Am.Bulk.Filled.{
  entry_of, filled, filled-Represents, init_leaf_page-Represents,
}
use database_assignment.Am.Bulk.Nodes.{level_entry, fill_root_lem}
use database_assignment.Am.Bulk.Yields.{Yields}

-- an array of entries, in which the bytes count up
abbrev sorted : Bytes
sorted x = x % 256

abbrev first_leaf : Bytes
first_leaf = init_leaf_page zeros 4 zeros

first_leaf-Represents : Represents 4 0 (entry_of 4 sorted) first_leaf
first_leaf-Represents = init_leaf_page-Represents zeros 4 (omega arith) zeros (entry_of 4 sorted)

first_leaf_free : free_list first_leaf ≡ 0
unfolding init_leaf_page load16 store16 copy
first_leaf_free = refl

first_leaf_room : is_full_leaf 4 first_leaf ≡ false
unfolding is_full_leaf max_leaf_keys init_leaf_page load16 store16 copy
first_leaf_room = refl

simple_leaf_insert_lem_example :
    insert_into_leaf zeros 4 sorted 7 1 false first_leaf
    ≡ (true, simple_leaf_insert sorted 7 first_leaf)
simple_leaf_insert_lem_example =
    simple_leaf_insert_lem 4 0 (entry_of 4 sorted) zeros sorted first_leaf 7 first_leaf-Represents
      first_leaf_free first_leaf_room

sorted_words : (j : ℕ) → load sorted (entry_size * j + 4) < word
unfolding load
sorted_words j = omega arith

filled-Represents_example :
    Represents 4 2 (λ j. entry_of 4 sorted (3 + j - 1)) (filled zeros 4 zeros sorted 3 2)
    × (is_full_leaf 4 (filled zeros 4 zeros sorted 3 2) ≡ leb 338 2)
filled-Represents_example =
    filled-Represents zeros 4 (omega arith) zeros sorted 3 sorted_words 2 (omega arith)

-- five pages, from 9 on
abbrev pages : Level
pages = record { count = 5; children = λ i. i % 100 + 9; keys = sorted }

fill_root_lem_example :
    (int_num_keys (fill_root zeros 4 254 pages zeros) ≡ 4)
    × (load (fill_root zeros 4 254 pages zeros) int_header ≡ 9)
    × ((i : ℕ)
        → 1 ≤ i
        → i ≤ 4
        → node_entry 4 (fill_root zeros 4 254 pages zeros) i ≡ level_entry 4 pages i)
fill_root_lem_example =
    fill_root_lem 4 pages (λ i. omega arith) zeros zeros 254 (omega arith) (omega arith)

abbrev fresh : Fresh
fresh = record { header = zeros; keys = zeros; children = λ _. 0 }
