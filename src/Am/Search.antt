-- ===== src/Am/Search.antt =====
-- AM_BinSearch and AM_SearchLeaf of amlayer/amsearch.c. `at i` is the result of AM_Compare with the
-- key number `i`.
pub mod Linear
pub mod Leaf
pub mod Child
pub mod Pages
use database_assignment.Prelude.{
  ℕ, zero, suc, ◌+◌, ◌-◌, ◌/◌, Bool, true, false, Option, some, none, ltb, ◌==◌, if◌then◌else◌,
}
use database_assignment.Words.{Bytes, load}
use database_assignment.Am.{
  AttrType, Order, below, equal, above, Libc, compare, key_at, int_key_at, child_at,
}

-- Where the loop of both searches stops: at a key that is equal, or with the range `low` to `high`.
pub data Stop : Type 0 where
  hit : ℕ → Stop
  range : ℕ → ℕ → Stop

-- `while ((high - low) > 1)`, with a bound on the rounds
unfoldable pub narrow : (ℕ → Order) → ℕ → ℕ → ℕ → Stop
narrow at zero low high = range low high
narrow at (suc k) low high =
    let mid = (low + high) / 2 in
    if ltb (low + 1) high
    then elim (at mid) [
      | below ↦ narrow at k low (mid - 1)
      | above ↦ narrow at k (mid + 1) high
      | equal ↦ hit mid
    ]
    else range low high

-- the border cases of AM_SearchLeaf: an index, and whether the key is there. `none` is the end of
-- the function without a return.
unfoldable pub leaf_border : (ℕ → Order) → Stop → Option (ℕ × Bool)
leaf_border at (hit mid) = some (mid, true)
leaf_border at (range low high) =
    if high == low
    then elim (at low) [
      | below ↦ some (low, false)
      | above ↦ some (low + 1, false)
      | equal ↦ some (low, true)
    ]
    else if high == low + 1
    then elim (at low) [
      | below ↦ some (low, false)
      | equal ↦ some (low, true)
      | above ↦ elim (at (low + 1)) [
        | below ↦ some (low + 1, false)
        | above ↦ some (low + 2, false)
        | equal ↦ some (low + 1, true)
      ]
    ]
    else none

-- AM_SearchLeaf on a leaf with `n` keys
unfoldable pub search_keys : (ℕ → Order) → ℕ → Option (ℕ × Bool)
unfolding narrow leaf_border
search_keys at n = if n == 0 then some (1, false) else leaf_border at (narrow at n 1 n)

-- the border cases of AM_BinSearch: the index of the page number to follow
unfoldable pub int_border : (ℕ → Order) → Stop → Option ℕ
int_border at (hit mid) = some mid
int_border at (range low high) =
    if high == low
    then elim (at low) [ below ↦ some (low - 1) | _ ↦ some low ]
    else if high == low + 1
    then elim (at low) [
      | below ↦ some (low - 1)
      | _ ↦ elim (at (low + 1)) [ below ↦ some low | _ ↦ some (low + 1) ]
    ]
    else none

-- the index of AM_BinSearch on a node with `n` keys
unfoldable pub child_index : (ℕ → Order) → ℕ → Option ℕ
unfolding narrow int_border
child_index at n = int_border at (narrow at n 1 n)

module _ (libc : Libc) (type : AttrType) (len : ℕ) (value : Bytes) where
  -- the comparisons of a leaf and of an internal node
  abbrev pub leaf_order : Bytes → ℕ → Order
  leaf_order p i = compare libc type len p (key_at len i) value

  abbrev pub int_order : Bytes → ℕ → Order
  int_order p i = compare libc type len p (int_key_at len i) value

  -- AM_SearchLeaf
  unfoldable pub search_leaf : Bytes → ℕ → Option (ℕ × Bool)
  unfolding search_keys compare
  search_leaf p n = search_keys (leaf_order p) n

  -- AM_BinSearch: the page number to follow, and its index
  unfoldable pub bin_search : Bytes → ℕ → Option (ℕ × ℕ)
  unfolding child_index compare
  bin_search p n = elim (child_index (int_order p) n) [
    | none ↦ none
    | some i ↦ some (load p (child_at len i), i)
  ]
