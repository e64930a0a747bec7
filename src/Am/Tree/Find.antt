-- ===== src/Am/Tree/Find.antt =====
-- AM_Search of amlayer/amsearch.c: from the root of the B+ tree to the leaf of a value. The loop pushes
-- an entry on the stack in each round, so the free entries of the stack bound its rounds.
use database_assignment.Prelude.{
  ℕ, zero, suc, ◌-◌, Bool, true, false, some, none, length, ◌==◌, if◌then◌else◌,
}
use database_assignment.Prelude.Int.{ℤ}
use database_assignment.Words.{Bytes}
use database_assignment.Buf.{Memory}
use database_assignment.Pf.{Unix}
use database_assignment.Pf.Pages.{unfix_page, get_this_page, get_first_page}
use database_assignment.Am.{AttrType, Libc, attr_length, num_keys}
use database_assignment.Am.Search.{search_leaf, bin_search}
use database_assignment.Am.Node.{int_num_keys, int_attr_length}
use database_assignment.Am.Tree.{
  am_ok, am_err, undefined, Op, invalid_attr_length, to_int, give, pf_call, buf, push_stack,
  max_stack, ◌>>=◌, ◌>>◌,
}

-- *pageBuf == 'l'
abbrev pub is_leaf : Bytes → Bool
is_leaf p = p 0 == b'l'

-- The out parameters of AM_Search: the page, its frame, the index of the key, and the status.
pub record Found : Type 0 where
  pub page : ℕ
  pub frame : ℕ
  pub index : ℕ
  pub status : Bool

-- the test of the length of the attribute in the header of a page
unfoldable pub check_length : {W : Type 0} → ℕ → ℕ → Op W (Unit {0})
check_length len i s =
    if (if is_leaf (buf i s) then attr_length (buf i s) else int_attr_length (buf i s)) == len
    then (am_ok tt, s)
    else (am_err invalid_attr_length, s)

module _ {W : Type 0} (libc : Libc) (type : AttrType) (len : ℕ) (value : Bytes) where
  -- AM_SearchLeaf on the page in frame `i`
  unfoldable pub find_in_leaf : ℕ → ℕ → Op W Found
  unfolding search_leaf
  find_in_leaf page i s = elim (search_leaf libc type len value (buf i s) (num_keys (buf i s))) [
    | none ↦ (undefined, s)
    | some (index, status) ↦
        (am_ok (record { page = page; frame = i; index = index; status = status }), s)
  ]

  -- AM_BinSearch on the page in frame `i`
  unfoldable pub choose_child : ℕ → Op W (ℕ × ℕ)
  unfolding bin_search
  choose_child i s = elim (bin_search libc type len value (buf i s) (int_num_keys (buf i s))) [
    | none ↦ (undefined, s)
    | some r ↦ (am_ok r, s)
  ]

module _ (mem : Memory) (os : Unix) (libc : Libc) (type : AttrType) (len : ℕ) (value : Bytes)
    (fd : ℤ) where
  open os use {World}

  -- the body of the loop, up to the next page in its frame
  unfoldable pub step_down : ℕ → ℕ → Op World (ℕ × ℕ)
  unfolding choose_child push_stack unfix_page get_this_page check_length
  step_down page i = do
    next ← choose_child libc type len value i
    push_stack page next.1
    pf_call (unfix_page fd (to_int page) false)
    j ← pf_call (get_this_page mem os fd (to_int next.0))
    check_length len j
    give (next.0, j)

  -- the loop, with `k` free entries of the stack
  unfoldable pub descend : ℕ → ℕ → ℕ → Op World Found
  unfolding find_in_leaf step_down
  descend zero page i s =
      if is_leaf (buf i s) then find_in_leaf libc type len value page i s else (undefined, s)
  descend (suc k) page i s = elim (is_leaf (buf i s)) [
    | true ↦ find_in_leaf libc type len value page i s
    | false ↦ (step_down page i >>= λ next. descend k next.0 next.1) s
  ]

  -- AM_Search
  unfoldable pub search : Op World Found
  unfolding get_first_page check_length descend
  search = do
    r ← pf_call (get_first_page mem os fd)
    check_length len r.1
    (λ s. descend (max_stack - length s.stack) r.0 r.1 s)
