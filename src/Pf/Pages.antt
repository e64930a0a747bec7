-- ===== src/Pf/Pages.antt =====
-- The routines of pflayer/pf.c that work on the pages of an open file. A page that is handed out is
-- given by the number of its buffer frame.
use database_assignment.Prelude.{ℕ, zero, suc, ◌+◌, ◌-◌, Bool, true, false, if◌then◌else◌, leb}
use database_assignment.Prelude.Int.{ℤ, pos, negsuc}
use database_assignment.Result.{
  Result, ok, err, held, halt, Call, eof, invalid_page, page_free, ◌>>=◌, ◌>>◌, pure, modify,
  or_exit,
}
use database_assignment.Buf.{NextFree, list_end, used_page, page_at, Memory, put_frame}
use database_assignment.Buf.Ops
use database_assignment.Buf.Ops.{get, unfix, mark_used}
use database_assignment.Pf.{Unix, Pf, raise, put_entry, pooled, check_fd, check_page}
use database_assignment.Pf.Io.{readfcn, writefcn}

-- the test fpage->nextfree == PF_PAGE_USED
abbrev pub in_use : {W : Type 0} → ℕ → Pf W → Bool
in_use i s = elim (s.pool.frame i).fpage.nextfree [ used_page ↦ true | _ ↦ false ]

-- fpage->nextfree = link
abbrev pub set_link : {W : Type 0} → ℕ → NextFree → Pf W → Pf W
set_link i link s =
    let f = s.pool.frame i in
    record s { pool = put_frame i (record f { fpage = record f.fpage { nextfree = link } }) s.pool }

-- hdr.firstfree = link, hdrchanged = TRUE
abbrev pub set_firstfree : {W : Type 0} → ℕ → NextFree → Pf W → Pf W
set_firstfree n link s =
    let e = s.ftab n in
    put_entry n (record e { hdr = record e.hdr { firstfree = link }; hdrchanged = true }) s

-- hdr.numpages++, hdrchanged = TRUE
abbrev pub add_page : {W : Type 0} → ℕ → Pf W → Pf W
add_page n s =
    let e = s.ftab n in
    put_entry n
      (record e { hdr = record e.hdr { numpages = e.hdr.numpages + 1 }; hdrchanged = true }) s

-- PFbufUnfix on the pool
abbrev pub unfix_frame : {W : Type 0} → ℕ → ℕ → Bool → Call (Pf W) Unit
unfix_frame n p dirty s = pooled (unfix n p dirty s.pool) s

-- PF_UnfixPage
unfoldable pub unfix_page : {W : Type 0} → ℤ → ℤ → Bool → Call (Pf W) Unit
unfolding check_fd check_page unfix
unfix_page fd pagenum dirty = do n ← check_fd fd; p ← check_page n pagenum; unfix_frame n p dirty

module _ (mem : Memory) (os : Unix) where
  open os use {World}

  -- PFbufGet with PFreadfcn and PFwritefcn
  abbrev pub get_frame : ℕ → ℕ → Call (Pf World) ℕ
  get_frame n p s = pooled (get mem (readfcn os s.ftab) (writefcn os s.ftab) n p s.pool) s

  -- the loop of PF_GetNextPage from page `p` on, with `k` pages to go
  unfoldable pub next_from : ℕ → ℕ → ℕ → Call (Pf World) (ℕ × ℕ)
  next_from n p zero = raise eof
  next_from n p (suc k) = do
    i ← get_frame n p
    (λ s.
        let rest = (do unfix_frame n p false; next_from n (p + 1) k) s in
        if in_use i s then (ok (p, i), s) else rest)

  -- PF_GetNextPage, on a descriptor that passed its guard
  unfoldable pub next_page : ℕ → ℤ → Call (Pf World) (ℕ × ℕ)
  unfolding next_from
  next_page n (pos p) s =
      let pages : ℕ = (s.ftab n).hdr.numpages in
      if leb pages p then raise invalid_page s else next_from n (p + 1) (pages - (p + 1)) s
  next_page n (negsuc zero) s = next_from n 0 (s.ftab n).hdr.numpages s
  next_page n (negsuc (suc _)) s = raise invalid_page s

  -- PF_GetNextPage
  unfoldable pub get_next_page : ℤ → ℤ → Call (Pf World) (ℕ × ℕ)
  unfolding check_fd next_page
  get_next_page fd pagenum = do n ← check_fd fd; next_page n pagenum

  -- PF_GetFirstPage
  unfoldable pub get_first_page : ℤ → Call (Pf World) (ℕ × ℕ)
  unfolding get_next_page
  get_first_page fd = get_next_page fd (negsuc 0)

  -- what PF_GetThisPage makes of the answer of PFbufGet
  unfoldable pub this_page : ℕ → ℕ → Result ℕ × Pf World → Result ℕ × Pf World
  this_page n p (ok i, s) =
      if in_use i s
      then (ok i, s)
      else (do (λ t. or_exit (unfix_frame n p false t)); raise invalid_page) s
  this_page n p (err e, s) = (err e, s)
  this_page n p (held i, s) = (held i, s)
  this_page n p (halt, s) = (halt, s)

  -- PF_GetThisPage
  unfoldable pub get_this_page : ℤ → ℤ → Call (Pf World) ℕ
  unfolding check_fd check_page this_page get
  get_this_page fd pagenum = do
    n ← check_fd fd
    p ← check_page n pagenum
    (λ s. this_page n p (get_frame n p s))

  -- a page from the list of free pages of the file
  unfoldable pub alloc_free : ℕ → ℕ → Call (Pf World) (ℕ × ℕ)
  alloc_free n p = do
    i ← get_frame n p
    modify (λ s. set_firstfree n (s.pool.frame i).fpage.nextfree s)
    modify (set_link i used_page)
    pure (p, i)

  -- a page behind the last page of the file
  unfoldable pub alloc_last : ℕ → ℕ → Call (Pf World) (ℕ × ℕ)
  alloc_last n p = do
    i ← (λ s. pooled (Ops.alloc mem (writefcn os s.ftab) n p s.pool) s)
    modify (add_page n)
    (λ s. or_exit (pooled (mark_used n p s.pool) s))
    modify (set_link i used_page)
    pure (p, i)

  -- A header never says PF_PAGE_USED; PFhash would look up page -2 there.
  unfoldable pub alloc_from : NextFree → ℕ → Call (Pf World) (ℕ × ℕ)
  unfolding alloc_free alloc_last
  alloc_from (page_at p) n = alloc_free n p
  alloc_from list_end n = λ s. alloc_last n (s.ftab n).hdr.numpages s
  alloc_from used_page n = λ s. (halt, s)

  -- PF_AllocPage
  unfoldable pub alloc_page : ℤ → Call (Pf World) (ℕ × ℕ)
  unfolding check_fd alloc_from
  alloc_page fd = do n ← check_fd fd; (λ s. alloc_from (s.ftab n).hdr.firstfree n s)

  -- what PF_DisposePage does to the page in frame `i`
  unfoldable pub dispose_frame : ℕ → ℕ → ℕ → Call (Pf World) Unit
  dispose_frame n p i s =
      if in_use i s
      then (do
        modify (set_link i (s.ftab n).hdr.firstfree)
        modify (set_firstfree n (page_at p))
        unfix_frame n p true)
          s
      else (do (λ t. or_exit (unfix_frame n p false t)); raise page_free) s

  -- PF_DisposePage
  unfoldable pub dispose_page : ℤ → ℤ → Call (Pf World) Unit
  unfolding check_fd check_page dispose_frame get
  dispose_page fd pagenum = do
    n ← check_fd fd
    p ← check_page n pagenum
    i ← get_frame n p
    dispose_frame n p i
