-- ===== src/Am/Bulk/Load.antt =====
-- am_bulkload.c: build_internal_levels and AM_BulkLoad on the paged files. Its calls of malloc() give
-- memory; what it holds before is in `Fresh`. The number of entries is not negative.
use database_assignment.Prelude.{
  ℕ, zero, suc, ◌+◌, ◌-◌, ◌*◌, true, false, ltb, leb, ◌==◌, if◌then◌else◌,
}
use database_assignment.Prelude.Int.{ℤ}
use database_assignment.Words.{Bytes, load, store, copy, word}
use database_assignment.Words.Short.{load16}
use database_assignment.Result.{Result, ok, err, held, halt, Call}
use database_assignment.Buf.{Memory}
use database_assignment.Pf.{Unix, Pf}
use database_assignment.Pf.Pages.{unfix_page, get_this_page, alloc_page, dispose_page}
use database_assignment.Sp.{page_size}
use database_assignment.Am.{next_leaf_at, max_keys_at, from_ptr}
use database_assignment.Am.Tree.{
  Am, Answer, am_ok, am_err, ended, undefined, running, pf_error, Op, to_int, give, buf, ◌>>=◌,
  ◌>>◌,
}
use database_assignment.Am.Tree.Grow.{change}
use database_assignment.Am.Bulk.{
  Level, entry_size, put_page, init_leaf_page, simple_leaf_insert, is_full_leaf, fill_root,
  fill_parent,
}

-- a local header, and the arrays that malloc() gives
pub record Fresh : Type 0 where
  pub header : Bytes
  pub keys : Bytes
  pub children : ℕ → ℕ

-- no page and no key
abbrev pub no_pages : Fresh → Level
no_pages junk = record { count = 0; children = junk.children; keys = junk.keys }

-- The variables of the loop over the entries: the current leaf and its frame, and the arrays.
pub record Leaves : Type 0 where
  pub page : ℕ
  pub frame : ℕ
  pub level : Level

-- The page number -3 is AME_PF.
abbrev pub ame_pf : ℕ
ame_pf = word - 3

module _ {W : Type 0} where
  -- a call whose error makes the routine return AME_PF; AM_Errno stays as it was
  abbrev pub or_return : {A : Type 0} → Am W → Result A × Pf W → Answer A × Am W
  or_return s (ok a, t) = (am_ok a, record s { pf = t })
  or_return s (err e, t) = (am_err pf_error, record s { pf = t })
  or_return s (held a, t) = (am_err pf_error, record s { pf = t })
  or_return s (halt, t) = (ended, record s { pf = t })

  abbrev pub call : {A : Type 0} → Call (Pf W) A → Op W A
  call m s = or_return s (m s.pf)

  -- a call whose answer is not looked at
  abbrev pub and_go_on : {A : Type 0} → Am W → Result A × Pf W → Answer (Unit {0}) × Am W
  and_go_on s (halt, t) = (ended, record s { pf = t })
  and_go_on s (_, t) = (am_ok tt, record s { pf = t })

  abbrev pub call_only : {A : Type 0} → Call (Pf W) A → Op W (Unit {0})
  call_only m s = and_go_on s (m s.pf)

  -- the error code of build_internal_levels as the page number for which AM_BulkLoad takes it
  abbrev pub as_page : Answer ℕ × Am W → Answer ℕ × Am W
  as_page (am_ok r, s) = (am_ok r, s)
  as_page (am_err e, s) = (am_ok ame_pf, s)
  as_page (ended, s) = (ended, s)
  as_page (undefined, s) = (undefined, s)
  as_page (running, s) = (running, s)

module _ (mem : Memory) (os : Unix) (junk : Fresh) (fd : ℤ) (len : ℕ) where
  open os use {World}

  -- the base case of build_internal_levels
  unfoldable pub build_root : ℕ → Level → Op World ℕ
  unfolding fill_root get_this_page unfix_page
  build_root max l s =
      (do
        i ← call (get_this_page mem os fd (to_int s.root))
        change i (λ t. fill_root junk.header len max l (buf i t))
        call_only (unfix_page fd (to_int s.root) true)
        give s.root)
        s

  -- The level above, with a parent on the page `page` whose first child is `c`.
  abbrev pub add_parent : Level → ℕ → ℕ → Level → Level
  add_parent l c page up = record {
    count = up.count + 1;
    children = put_page up.count page up.children;
    keys =
        if ltb 0 up.count
        then copy (entry_size * (up.count - 1)) l.keys (entry_size * c) entry_size up.keys
        else up.keys;
  }

  -- the outer `while` loop from the child `c` on, with a bound on the rounds
  unfoldable pub build_parents : ℕ → ℕ → Level → ℕ → Level → Op World Level
  unfolding fill_parent alloc_page unfix_page
  build_parents max zero l c up s = if ltb c l.count then (running, s) else (am_ok up, s)
  build_parents max (suc k) l c up s = elim (ltb c l.count) [
    | false ↦ (am_ok up, s)
    | true ↦
        (do
          r ← call (alloc_page mem os fd)
          (λ t.
              let q = fill_parent junk.header len max l c (buf r.1 t) in
              (do
                change r.1 (λ _. q.1)
                call_only (unfix_page fd (to_int r.0) true)
                build_parents max k l (q.0 + 1) (add_parent l c r.0 up))
                t))
          s
  ]

  -- build_internal_levels, with a bound on the levels; `max` is maxIntKeys.
  unfoldable pub build_levels : ℕ → ℕ → Level → Op World ℕ
  unfolding build_root build_parents
  build_levels max zero l s = (running, s)
  build_levels max (suc k) l s = elim (leb l.count (max + 1)) [
    | true ↦ build_root max l s
    | false ↦ (build_parents max l.count l 0 (no_pages junk) >>= λ up. build_levels max k up) s
  ]

  -- a full leaf: the entry `i` of the array begins the next one
  unfoldable pub next_leaf : Bytes → ℕ → Leaves → Op World Leaves
  unfolding init_leaf_page alloc_page unfix_page
  next_leaf sorted i l = do
    r ← call (alloc_page mem os fd)
    change l.frame (λ s. store next_leaf_at r.0 (buf l.frame s))
    call_only (unfix_page fd (to_int l.page) true)
    change r.1 (λ s. init_leaf_page junk.header len (buf r.1 s))
    give (record {
      page = r.0;
      frame = r.1;
      level = record {
        count = l.level.count + 1;
        children = put_page l.level.count l.page l.level.children;
        keys = copy (entry_size * l.level.count) sorted (entry_size * i) entry_size l.level.keys;
      };
    })

  -- the loop over the entries from `i` on, of which there are `k`
  unfoldable pub load_leaves : Bytes → ℕ → ℕ → Leaves → Op World Leaves
  unfolding is_full_leaf next_leaf simple_leaf_insert
  load_leaves sorted i zero l s = (am_ok l, s)
  load_leaves sorted i (suc k) l s =
      (do
        m ← (λ t. if is_full_leaf len (buf l.frame t) then next_leaf sorted i l t else (am_ok l, t))
        change m.frame (λ t.
            simple_leaf_insert (from_ptr sorted (entry_size * i)) (load sorted (entry_size * i + 4))
              (buf m.frame t))
        load_leaves sorted (i + 1) k m)
        s

  -- the last leaf; with no entry at all its number is written outside of childPages.
  unfoldable pub close_leaves : Leaves → Op World Level
  unfolding unfix_page
  close_leaves l = do
    call_only (unfix_page fd (to_int l.page) true)
    give (record {
      count = l.level.count + 1;
      children = put_page l.level.count l.page l.level.children;
      keys = l.level.keys;
    })

  -- the root goes to the page AM_RootPageNum
  unfoldable pub move_root : ℕ → Op World (Unit {0})
  unfolding get_this_page unfix_page dispose_page
  move_root page s =
      if page == s.root
      then (am_ok tt, s)
      else (do
        i ← call (get_this_page mem os fd (to_int page))
        j ← call (get_this_page mem os fd (to_int s.root))
        change j (λ t. copy 0 (buf i t) 0 page_size (buf j t))
        call_only (unfix_page fd (to_int s.root) true)
        call_only (unfix_page fd (to_int page) false)
        call_only (dispose_page mem os fd (to_int page)))
          s

  -- the internal nodes, where there is more than one leaf
  unfoldable pub build_index : ℕ → Level → Op World (Unit {0})
  unfolding build_levels move_root
  build_index max l =
      if ltb 1 l.count then (λ s. as_page (build_levels max l.count l s)) >>= move_root else give tt

  -- the leaves
  unfoldable pub build_leaves : Bytes → ℕ → ℕ → Op World Level
  unfolding init_leaf_page load_leaves close_leaves
  build_leaves sorted n i s =
      (do
        change i (λ t. init_leaf_page junk.header len (buf i t))
        (λ t. (am_ok tt, record t { left = t.root }))
        l ← load_leaves sorted 0 n (record { page = s.root; frame = i; level = no_pages junk })
        (λ t. if n == 0 then (undefined, t) else close_leaves l t))
        s

  -- AM_BulkLoad
  unfoldable pub bulk_load : Bytes → ℕ → Op World (Unit {0})
  unfolding build_leaves build_index get_this_page
  bulk_load sorted n s =
      (do
        i ← call (get_this_page mem os fd (to_int s.root))
        (λ t.
            let max = load16 (buf i t) max_keys_at in
            (build_leaves sorted n i >>= λ l. build_index max l) t))
        s
