-- ===== src/Bl/Find.antt =====
-- bulklayer/blsearch.c: BL_Search. There is a bound on the pages that it visits.
use database_assignment.Prelude.{ℕ, zero, suc, false, true, some, none, ◌==◌, if◌then◌else◌}
use database_assignment.Prelude.Int.{ℤ, pos}
use database_assignment.Words.{Bytes, load, minus_one}
use database_assignment.Buf.{Memory}
use database_assignment.Pf.{Unix}
use database_assignment.Pf.Pages.{unfix_page, get_this_page}
use database_assignment.Sp.File.{page_buf}
use database_assignment.Am.Tree.{to_int}
use database_assignment.Bl.{
  bl_ok, key_not_found, undefined, running, Routine, call, call_only, root_page_at, page_type_at,
  leaf_page, find_in_leaf, choose_child, ◌>>=◌, ◌>>◌,
}

module _ (mem : Memory) (os : Unix) (fd : ℤ) (k : ℕ) where
  open os use {World}

  -- the leaf `p`, on the page `page`
  unfoldable pub answer : ℕ → Bytes → Routine World ℕ
  unfolding find_in_leaf unfix_page
  answer page p s = elim (find_in_leaf p k) [
    | none ↦ (undefined, s)
    | some (some v) ↦ (do call_only (unfix_page fd (to_int page) false); (λ t. (bl_ok v, t))) s
    | some none ↦ (do call_only (unfix_page fd (to_int page) false); (λ t. (key_not_found, t))) s
  ]

  -- the `while` loop
  unfoldable pub search_from : ℕ → ℕ → Routine World ℕ
  unfolding answer choose_child unfix_page get_this_page
  search_from zero page s = (running, s)
  search_from (suc fuel) page s =
      (do
        i ← call (get_this_page mem os fd (to_int page))
        (λ t. elim (load (page_buf i t) page_type_at == leaf_page) [
          | true ↦ answer page (page_buf i t) t
          | false ↦ elim (choose_child (page_buf i t) k) [
            | none ↦ (undefined, t)
            | some next ↦
                (do call_only (unfix_page fd (to_int page) false); search_from fuel next) t
          ]
        ]))
        s

  -- BL_Search
  unfoldable pub bl_search : ℕ → Routine World ℕ
  unfolding search_from unfix_page get_this_page
  bl_search fuel = do
    i ← call (get_this_page mem os fd (pos 0))
    (λ s.
        let page = load (page_buf i s) root_page_at in
        (do
          call_only (unfix_page fd (pos 0) false)
          (λ t. if page == minus_one then (key_not_found, t) else search_from fuel page t))
          s)
