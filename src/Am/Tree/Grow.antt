-- ===== src/Am/Tree/Grow.antt =====
-- AM_SplitLeaf and AM_AddtoParent of amlayer/am.c. What local arrays and structs hold before they are
-- filled is in `Junk`.
use database_assignment.Prelude.{
  ℕ, ◌+◌, ◌-◌, ◌/◌, Bool, true, false, List, [], ◌∷◌, ltb, leb, ◌==◌, if◌then◌else◌,
}
use database_assignment.Prelude.Int.{ℤ}
use database_assignment.Words.{Bytes, store, copy}
use database_assignment.Buf.{Memory}
use database_assignment.Pf.{Unix}
use database_assignment.Pf.Pages.{unfix_page, get_this_page, alloc_page}
use database_assignment.Sp.{page_size}
use database_assignment.Am.{
  leaf_header, int_header, next_leaf_at, max_keys_at, attr_length, num_keys,
}
use database_assignment.Words.Short.{load16}
use database_assignment.Am.Leaf.{compact, insert_into_leaf}
use database_assignment.Am.Node.{
  int_num_keys, int_max_keys, int_attr_length, add_to_int_page, fill_root_page, split_int_node,
}
use database_assignment.Am.Tree.{
  Am, Answer, am_ok, am_err, ended, undefined, running, Op, to_int, give, pf_call, buf, write_buf,
  fail, pf_error, ◌>>=◌, ◌>>◌,
}

-- tempPage of AM_SplitLeaf and AM_AddtoParent, that of AM_InsertintoLeaf, that of AM_SplitIntNode, a
-- header, and the array `key` of AM_InsertEntry
pub record Junk : Type 0 where
  pub page : Bytes
  pub inner_page : Bytes
  pub node : Bytes
  pub header : Bytes
  pub key : Bytes

module _ {W : Type 0} where
  -- a change of the page in a frame
  abbrev pub change : ℕ → (Am W → Bytes) → Op W (Unit {0})
  change i f s = (am_ok tt, write_buf i (f s) s)

  -- AM_Check on the answer of a routine of the layer
  abbrev pub as_pf_error : {A : Type 0} → Answer A × Am W → Answer A × Am W
  as_pf_error (am_ok a, s) = (am_ok a, s)
  as_pf_error (am_err e, s) = fail pf_error s
  as_pf_error (ended, s) = (ended, s)
  as_pf_error (undefined, s) = (undefined, s)
  as_pf_error (running, s) = (running, s)

-- Where AM_SplitLeaf inserts: the first and the second half afterwards
unfoldable pub insert_in_half : Bytes → ℕ → Bytes → ℕ → ℕ → Bool → ℕ → Bytes × Bytes → Bytes × Bytes
unfolding insert_into_leaf
insert_in_half junk len value rec_id index status half (first, second) =
    if leb index half
    then ((insert_into_leaf junk len value rec_id index status first).1, second)
    else (first, (insert_into_leaf junk len value rec_id (index - half) status second).1)

module _ (mem : Memory) (os : Unix) (junk : Junk) (fd : ℤ) (len : ℕ) where
  open os use {World}

  -- a new root with two children, when the page in frame `i` is the root; its old content goes to a new
  -- page
  unfoldable pub raise_root_leaf : ℕ → ℕ → Bytes → ℕ → ℕ → Op World (Unit {0})
  unfolding fill_root_page alloc_page unfix_page
  raise_root_leaf i right key size max = do
    r ← pf_call (alloc_page mem os fd)
    (λ s. (am_ok tt, record s { left = r.0 }))
    change r.1 (λ s. copy 0 (buf i s) 0 page_size (buf r.1 s))
    change i (λ s. fill_root_page junk.header r.0 right key size max (buf i s))
    pf_call (unfix_page fd (to_int r.0) true)

  -- AM_SplitLeaf from the allocation of the second page on, with the page `p` as it was: whether a key
  -- goes to the parent, the page number, and the key
  unfoldable pub split_leaf_from :
      ℕ → ℕ → Bytes → Bytes → ℕ → ℕ → Bool → Op World (Bool × ℕ × Bytes)
  unfolding compact insert_in_half raise_root_leaf alloc_page unfix_page
  split_leaf_from page i p value rec_id index status =
      let half = num_keys p / 2 in
      do
        r ← pf_call (alloc_page mem os fd)
        halves ← (λ s. (
          am_ok (
              insert_in_half junk.inner_page len value rec_id index status half
                (compact 1 half p junk.page p, compact (half + 1) (num_keys p) p (buf r.1 s) p)),
          s,
        ))
        change r.1 (λ s. halves.1)
        change i (λ s. copy 0 (store next_leaf_at r.0 halves.0) 0 page_size (buf i s))
        (λ s.
            let key = copy 0 halves.1 leaf_header len junk.key in
            let is_root = page == s.root in
            (do
              (λ t.
                  if is_root
                  then raise_root_leaf i r.0 key (attr_length p) (load16 p max_keys_at) t
                  else (am_ok tt, t))
              pf_call (unfix_page fd (to_int page) true)
              pf_call (unfix_page fd (to_int r.0) true)
              give (if is_root then (false, page, key) else (true, r.0, key)))
              s)

  -- AM_SplitLeaf of the page in frame `i`. AM_Compact of no key does not set the end of the keys.
  unfoldable pub split_leaf : ℕ → ℕ → Bytes → ℕ → ℕ → Bool → Op World (Bool × ℕ × Bytes)
  unfolding split_leaf_from
  split_leaf page i value rec_id index status s =
      if num_keys (buf i s) / 2 == 0
      then (undefined, s)
      else split_leaf_from page i (buf i s) value rec_id index status s

  -- what AM_AddtoParent does with a node that has room
  unfoldable pub add_here : ℕ → ℕ → Bytes → ℕ → ℕ → Op World (Unit {0})
  unfolding add_to_int_page unfix_page
  add_here page i value child offset s =
      let l = add_to_int_page value child offset (buf i s, buf i s) in
      (do change i (λ _. copy 0 l.1 0 int_header l.0); pf_call (unfix_page fd (to_int page) true)) s

  -- and with a full one: whether a key goes to the parent, the page number of the second half, and the
  -- key between the halves
  unfoldable pub split_here : ℕ → ℕ → Bytes → ℕ → ℕ → Op World (Bool × ℕ × Bytes)
  unfolding split_int_node fill_root_page alloc_page unfix_page
  split_here page i value child offset s =
      let p = buf i s in
      (do
        r ← pf_call (alloc_page mem os fd)
        (λ t.
            let halves =
              split_int_node junk.node junk.header junk.page (buf r.1 t) value child offset
                (p, p) in
            (do
              change r.1 (λ _. halves.second)
              (λ u.
                  if page == u.root
                  then (do
                    q ← pf_call (alloc_page mem os fd)
                    change q.1 (λ w. copy 0 halves.first 0 page_size (buf q.1 w))
                    change i (λ w.
                        fill_root_page junk.header q.0 r.0 halves.middle_key (int_attr_length p)
                          (int_max_keys p) (buf i w))
                    pf_call (unfix_page fd (to_int page) true)
                    pf_call (unfix_page fd (to_int r.0) true)
                    pf_call (unfix_page fd (to_int q.0) true)
                    give (false, r.0, halves.middle_key))
                      u
                  else (do
                    change i (λ w. copy 0 halves.first 0 page_size (buf i w))
                    pf_call (unfix_page fd (to_int page) true)
                    pf_call (unfix_page fd (to_int r.0) true)
                    give (true, r.0, halves.middle_key))
                      u))
              t))
        s

  -- AM_AddtoParent on the entries of the stack, the first of which it takes as pop_stack does. An
  -- error of the call for the next parent becomes AME_PF.
  unfoldable pub add_along : List (ℕ × ℕ) → ℕ → Bytes → Op World (Unit {0})
  unfolding add_here split_here get_this_page
  add_along [] child value s = (undefined, s)
  add_along ((page, offset) ∷ rest) child value s =
      (do
        i ← pf_call (get_this_page mem os fd (to_int page))
        (λ t.
            if ltb (int_num_keys (buf i t)) (int_max_keys (buf i t))
            then add_here page i value child offset t
            else (split_here page i value child offset >>= λ r. elim r.0 [
              | false ↦ give tt
              | true ↦ λ u. as_pf_error (add_along rest r.1 r.2 u)
            ])
                t))
        (record s { stack = rest })
