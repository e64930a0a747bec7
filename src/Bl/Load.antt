-- ===== src/Bl/Load.antt =====
-- bulklayer/blbulk.c: BL_BulkLoad. The array of BL_KeyVal is given by its bytes, 8 for a pair; the array
-- `L` of the pages of a level with their last keys is a list. Its calls of malloc() and realloc()
-- give memory, and the number of records is not negative.
use database_assignment.Prelude.{
  ℕ, zero, suc, ◌+◌, ◌-◌, ◌*◌, false, true, Bool, List, [], ◌∷◌, ◌++◌, leb, ltb, length, ◌==◌, ◌||◌,
  if◌then◌else◌,
}
use database_assignment.Prelude.Int.{ℤ, pos}
use database_assignment.Words.{Bytes, load, store, minus_one}
use database_assignment.Result.{Result, ok, halt}
use database_assignment.Buf.{Memory}
use database_assignment.Pf.{Unix, Pf}
use database_assignment.Pf.Pages.{unfix_page, get_this_page, alloc_page}
use database_assignment.Sp.File.{page_buf}
use database_assignment.Am.Tree.{to_int}
use database_assignment.Bl.{
  BlReply, bl_ok, undefined, exited, running, Routine, call, call_only, give, root_page_at,
  first_leaf_at, num_levels_at, num_records_at, page_type_at, num_keys_at, prev_page_at,
  next_page_at, level_at, leaf_page, internal_page, leaf_header, internal_header, max_leaf_entries,
  max_internal_entries, leaf_key, internal_key, ◌>>=◌, ◌>>◌,
}
use database_assignment.Bl.Files.{change}

-- the pages of a level, each with its last key
abbrev pub Pages : Type 0
Pages = List (ℕ × ℕ)

-- cp, the frame that pb points into, nk, fp and the list
pub record Filling : Type 0 where
  pub page : ℕ
  pub frame : ℕ
  pub keys : ℕ
  pub first : ℕ
  pub pages : Pages

-- no page begun
abbrev pub begun : Filling
begun = record { page = minus_one; frame = 0; keys = 0; first = minus_one; pages = [] }

-- ks[i] = k; vs[i] = v; on a leaf, and the same on an internal page
unfoldable pub put_pair : ℕ → ℕ → ℕ → Bytes → Bytes
put_pair i k v p =
    store (leaf_header + 4 * max_leaf_entries + 4 * i) v (store (leaf_header + 4 * i) k p)

unfoldable pub put_child : ℕ → ℕ → ℕ → Bytes → Bytes
put_child i k page p =
    store (internal_header + 4 * max_internal_entries + 4 * i) page
      (store (internal_header + 4 * i) k p)

-- the header of a new leaf, and of a new internal page
unfoldable pub start_leaf : ℕ → Bytes → Bytes
start_leaf prev p =
    store next_page_at minus_one
      (store prev_page_at prev (store num_keys_at 0 (store page_type_at leaf_page p)))

unfoldable pub start_internal : ℕ → Bytes → Bytes
start_internal level p =
    store level_at level (store num_keys_at 0 (store page_type_at internal_page p))

-- The number of keys goes into the header of a leaf, and the next page, where another one follows.
unfoldable pub end_leaf : Bool → ℕ → Bytes → Bytes
end_leaf follows n p =
    if follows then store next_page_at minus_one (store num_keys_at n p) else store num_keys_at n p

-- the page 0 of the index
unfoldable pub put_root : ℕ → ℕ → ℕ → ℕ → Bytes → Bytes
put_root root first levels n p =
    store num_records_at n
      (store num_levels_at levels (store first_leaf_at first (store root_page_at root p)))

module _ (mem : Memory) (os : Unix) (fd : ℤ) where
  open os use {World}

  -- the end of a leaf, if there is one
  unfoldable pub close_leaf : Bool → Filling → Routine World Pages
  unfolding end_leaf unfix_page
  close_leaf follows f s =
      if f.page == minus_one
      then (bl_ok f.pages, s)
      else (do
        change f.frame (end_leaf follows f.keys)
        (λ t.
            let pages = f.pages ++ ((f.page, leaf_key (page_buf f.frame t) (f.keys - 1)) ∷ []) in
            (do call_only (unfix_page fd (to_int f.page) true); give pages) t))
          s

  -- the link from the leaf `prev` to the next one
  unfoldable pub link_leaf : ℕ → ℕ → Result ℕ × Pf World → BlReply (Unit {0}) × Pf World
  unfolding unfix_page
  link_leaf prev next (ok i, s) =
      (do change i (store next_page_at next); call_only (unfix_page fd (to_int prev) true)) s
  link_leaf prev next (halt, s) = (exited, s)
  link_leaf prev next (_, s) = (bl_ok tt, s)

  -- a new leaf
  unfoldable pub next_leaf : Filling → Routine World Filling
  unfolding close_leaf link_leaf start_leaf alloc_page get_this_page
  next_leaf f = do
    pages ← close_leaf true f
    r ← call (alloc_page mem os fd)
    (λ s.
        if f.page == minus_one
        then (bl_ok tt, s)
        else link_leaf f.page r.0 (get_this_page mem os fd (to_int f.page) s))
    change r.1 (start_leaf f.page)
    give (record {
      page = r.0;
      frame = r.1;
      keys = 0;
      first = if f.first == minus_one then r.0 else f.first;
      pages = pages;
    })

  -- the loop over the pairs from `i` on, of which there are `k`
  unfoldable pub load_leaves : Bytes → ℕ → ℕ → Filling → Routine World Filling
  unfolding next_leaf put_pair
  load_leaves d i zero f s = (bl_ok f, s)
  load_leaves d i (suc k) f s =
      (do
        g ← (λ t.
            if leb max_leaf_entries f.keys || (f.page == minus_one)
            then next_leaf f t
            else (bl_ok f, t))
        change g.frame (put_pair g.keys (load d (8 * i)) (load d (8 * i + 4)))
        load_leaves d (i + 1) k (record g { keys = g.keys + 1 }))
        s

  -- the end of an internal page, if there is one
  unfoldable pub close_internal : Filling → Routine World Pages
  unfolding unfix_page
  close_internal f s =
      if f.page == minus_one
      then (bl_ok f.pages, s)
      else (do
        change f.frame (store num_keys_at f.keys)
        (λ t.
            let pages =
              f.pages ++ ((f.page, internal_key (page_buf f.frame t) (f.keys - 1)) ∷ []) in
            (do call_only (unfix_page fd (to_int f.page) true); give pages) t))
          s

  -- a new internal page of the level
  unfoldable pub next_internal : ℕ → Filling → Routine World Filling
  unfolding close_internal start_internal alloc_page
  next_internal level f = do
    pages ← close_internal f
    r ← call (alloc_page mem os fd)
    change r.1 (start_internal level)
    give (record { page = r.0; frame = r.1; keys = 0; first = f.first; pages = pages })

  -- the loop over the pages of the level below
  unfoldable pub load_level : ℕ → Pages → Filling → Routine World Filling
  unfolding next_internal put_child
  load_level level [] f s = (bl_ok f, s)
  load_level level ((page, key) ∷ rest) f s =
      (do
        g ← (λ t.
            if leb max_internal_entries f.keys || (f.page == minus_one)
            then next_internal level f t
            else (bl_ok f, t))
        change g.frame (put_child g.keys key page)
        load_level level rest (record g { keys = g.keys + 1 }))
        s

  -- the `while` loop, with a bound on the levels: the pages of the last level, and their number
  unfoldable pub load_levels : ℕ → ℕ → Pages → Routine World (Pages × ℕ)
  unfolding load_level close_internal
  load_levels zero level l s = if ltb 1 (length l) then (running, s) else (bl_ok (l, level), s)
  load_levels (suc fuel) level l s = elim (ltb 1 (length l)) [
    | false ↦ (bl_ok (l, level), s)
    | true ↦
        (do f ← load_level level l begun; up ← close_internal f; load_levels fuel (level + 1) up) s
  ]

  -- the end of BL_BulkLoad; without a page, cl->p[0] is not set.
  unfoldable pub finish_load : ℕ → ℕ → Pages × ℕ → Routine World (Unit {0})
  unfolding put_root get_this_page unfix_page
  finish_load first n (l, levels) = do
    i ← call (get_this_page mem os fd (pos 0))
    (λ s. elim l [
      | [] ↦ (undefined, s)
      | r ∷ rest ↦
          (do change i (put_root r.0 first levels n); call_only (unfix_page fd (pos 0) true)) s
    ])

  -- BL_BulkLoad
  unfoldable pub bl_bulk_load : Bytes → ℕ → Routine World (Unit {0})
  unfolding load_leaves close_leaf load_levels finish_load
  bl_bulk_load d n s =
      if n == 0
      then (bl_ok tt, s)
      else (do
        f ← load_leaves d 0 n begun
        l ← close_leaf false f
        r ← load_levels (length l) 1 l
        finish_load f.first n r)
          s
