-- ===== src/Am/Search/Pages.antt =====
-- The searches of amlayer/amsearch.c on the bytes of a page.
use database_assignment.Prelude.{ℕ, ◌≤◌, ◌<◌, ◌≡◌, true, some, arith}
use database_assignment.Words.{Bytes, load, slt}
use database_assignment.Am.{AttrType, int_attr, Libc, compare, child_at}
use database_assignment.Am.Search.{leaf_order, int_order, search_leaf, bin_search}
use database_assignment.Am.Search.Linear.{IsOrdered, linear_leaf, last_not_below}
use database_assignment.Am.Search.Leaf.{search_keys_lem}
use database_assignment.Am.Search.Child.{child_index_lem}

module _ (libc : Libc) (type : AttrType) (len : ℕ) (value p : Bytes) (n : ℕ) where
  -- On a leaf whose keys are in increasing order for the value, AM_SearchLeaf returns the index of
  -- the first key that the value is not above, or one more than the number of keys, and says that
  -- the key is there if and only if the value is equal to the key at that index: what a linear
  -- search finds.
  pub search_leaf_linear :
      IsOrdered (leaf_order libc type len value p) n
      → search_leaf libc type len value p n
        ≡ some (linear_leaf (leaf_order libc type len value p) n)
  unfolding search_leaf
  search_leaf_linear ordered = search_keys_lem (leaf_order libc type len value p) n ordered

  -- On an internal node with a key at least, whose keys are in increasing order for the value,
  -- AM_BinSearch returns the number of keys before the first one that the value is below, and the
  -- page number behind that many keys.
  pub bin_search_linear :
      1 ≤ n
      → IsOrdered (int_order libc type len value p) n
      → bin_search libc type len value p n ≡ (
          let c = last_not_below (int_order libc type len value p) 1 n in
          some (load p (child_at len c), c))
  unfolding bin_search
  bin_search_linear h ordered =
      rw (child_index_lem (int_order libc type len value p) n ordered h, bin_search)

-- Keys of type 'i' in strictly increasing order are in order for every value.
pub ints-IsOrdered :
    (libc : Libc) (value p : Bytes) (at : ℕ → ℕ) (n : ℕ)
    → ((i j : ℕ) → 1 ≤ i → i < j → j ≤ n → slt (load p (at i)) (load p (at j)) ≡ true)
    → IsOrdered (λ i. compare libc int_attr 4 p (at i) value) n
unfolding compare
ints-IsOrdered libc value p at n sorted i j a b c = ground (arith, sorted i j a b c)
