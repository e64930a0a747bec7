-- ===== src/Bl/Tests.antt =====
-- Runs of the routines of bulklayer/.
use database_assignment.Prelude.{
  ℕ, ◌+◌, ◌*◌, ◌/◌, ◌%◌, ◌≤◌, ◌<◌, ◌≡◌, refl, true, some, [], ◌∷◌, arith, length, dec_lt, ◌==◌,
  if◌then◌else◌,
}
use database_assignment.Prelude.Int.{pos}
use database_assignment.Words.{Bytes, word, load, store}
use database_assignment.Sp.Tests.{zeros, memory, idle, state_of}
use database_assignment.Bl.{bs, find_in_leaf, choose_child, internal_key, internal_ptr}
use database_assignment.Bl.Load.{Pages, end_leaf, load_levels}
use database_assignment.Bl.Search.{IsPlace, IsSorted, bs-IsPlace}
use database_assignment.Bl.Leaf.{pair_key, Finds, loaded, find_in_leaf-Finds}
use database_assignment.Bl.Choose.{IsChild, choose_child-IsChild}
use database_assignment.Bl.Levels.{Ends, load_levels-Ends}

-- the keys 10, 20, …
abbrev tens : ℕ → ℕ
tens i = 10 * i + 10

tens-IsSorted : IsSorted tens 4
tens-IsSorted i j a b = ground arith

bs-IsPlace_example : IsPlace tens 4 25 (bs tens 4 25)
bs-IsPlace_example = bs-IsPlace tens 4 25 tens-IsSorted (λ i l. omega arith) (omega arith)

-- an array of pairs with the keys 0, 1, … and the value 0
abbrev pairs : Bytes
pairs x = if x % 8 == 0 then x / 8 % 256 else 0

pairs_words : (a : ℕ) → load pairs a < word
unfolding load
pairs_words a = ground arith

pairs_key : (j : ℕ) → j < 3 → pair_key pairs 5 j ≡ j + 5
unfolding load
pairs_key j h = ground arith

pairs-IsSorted : IsSorted (pair_key pairs 5) 3
pairs-IsSorted i j a b = rw (pairs_key i (omega arith), pairs_key j b) (ground arith)

find_in_leaf-Finds_example :
    Finds pairs 5 3 6 (find_in_leaf (end_leaf true 3 (loaded 9 zeros pairs 5 3)) 6)
find_in_leaf-Finds_example =
    find_in_leaf-Finds 9 zeros pairs 5 pairs_words true 3 6 (omega arith) pairs-IsSorted
      (omega arith)

-- an internal page with the keys 10 and 20
abbrev node : Bytes
node = store 16 20 (store 12 10 (store 4 2 zeros))

node-IsSorted : IsSorted (internal_key node) 2
unfolding load store
node-IsSorted i j a b = elim (dec_lt i j) [
  | yes l ↦ (let e : i ≡ 0 = omega arith in let f : j ≡ 1 = omega arith in rw (e, f) refl)
  | no l ↦ (let e : i ≡ j = omega arith in rw e (ground arith))
]

node_words : (i : ℕ) → i < 2 → internal_key node i < word
unfolding load store
node_words i h = elim (dec_lt i 1) [
  | yes l ↦ (let e : i ≡ 0 = omega arith in rw e (omega arith))
  | no l ↦ (let e : i ≡ 1 = omega arith in rw e (omega arith))
]

node_count : load node 4 ≡ 2
unfolding load store
node_count = refl

choose_child-IsChild_example :
    (c : ℕ) × IsChild node 2 15 c × (choose_child node 15 ≡ some (internal_ptr node c))
choose_child-IsChild_example =
    choose_child-IsChild node 2 15 node_count (omega arith) (omega arith) node-IsSorted node_words
      (omega arith)

abbrev two_pages : Pages
two_pages = (3, 10) ∷ ((4, 20) ∷ [])

load_levels-Ends_example :
    Ends (λ r. length r.0 ≤ 1) (load_levels memory idle (pos 0) 2 1 two_pages (state_of zeros))
load_levels-Ends_example =
    load_levels-Ends memory idle (pos 0) 2 1 two_pages (state_of zeros) (omega arith) (omega arith)
