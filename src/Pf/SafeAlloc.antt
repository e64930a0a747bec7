-- ===== src/Pf/SafeAlloc.antt =====
-- PF_AllocPage of pflayer/pf.c: the page that it hands out is new, fixed and marked as used.
use database_assignment.Prelude.{ℕ, ◌≡◌, ◌≢◌, refl, true}
use database_assignment.Prelude.Int.{ℤ, pos}
use database_assignment.Result.{ok, after, Post, Post-bind, Post-mono, or_exit}
use database_assignment.Buf.{NextFree, list_end, used_page, page_at, Memory}
use database_assignment.Buf.Ops
use database_assignment.Buf.Ops.{find, unfix, mark_used}
use database_assignment.Buf.Valid.{IsValid}
use database_assignment.Buf.Fetch.{IsHeld}
use database_assignment.Buf.Keeps.{alloc-Post, mark_used-IsHeld}
use database_assignment.Pf.{Entry, Unix, Pf, pooled, is_open, check_fd}
use database_assignment.Pf.Io.{writefcn}
use database_assignment.Pf.Pages.{
  set_link, set_firstfree, add_page, get_frame, alloc_free, alloc_last, alloc_from, alloc_page,
}
use database_assignment.Pf.Safe.{
  IsSafe, IsPinned, pooled-Post, or_exit-Post, check_fd_ftab-Post, get_frame-Post,
}
use database_assignment.Pf.SafeLists.{set_used-IsPinned}

-- No file table entry says that its first free page is PF_PAGE_USED.
abbrev pub HasFreeLists : (ℕ → Entry) → Type 0
HasFreeLists ftab = (n : ℕ) → (ftab n).hdr.firstfree ≢ used_page

module _ (mem : Memory) (os : Unix) where
  open os use {World}

  pub alloc_free-Post :
      (n p : ℕ) (s : Pf World)
      → IsSafe s
      → Post (λ r. IsPinned n r.0 r.1) IsSafe (alloc_free mem os n p s)
  unfolding alloc_free
  alloc_free-Post n p s v =
      Post-bind (λ i t. IsHeld n p i t.pool × Unit {0}) (λ r. IsPinned n r.0 r.1) IsSafe
        (λ i t.
          (ok (p, i), set_link i used_page (set_firstfree n (t.pool.frame i).fpage.nextfree t)))
        (get_frame mem os n p s) (get_frame-Post mem os (λ _. Unit {0}) n p s v tt)
        (λ i t k. set_used-IsPinned n p i (set_firstfree n (t.pool.frame i).fpage.nextfree t) k.0)

  pub alloc_last-Post :
      (n p : ℕ) (s : Pf World)
      → IsSafe s
      → Post (λ r. IsPinned n r.0 r.1) IsSafe (alloc_last mem os n p s)
  unfolding alloc_last
  alloc_last-Post n p s v =
      Post-bind (λ i t. IsHeld n p i t.pool × Unit {0}) (λ r. IsPinned n r.0 r.1) IsSafe
        (λ i t.
          let u = add_page n t in
          after (λ _ w. (ok (p, i), set_link i used_page w))
            (or_exit (pooled (mark_used n p u.pool) u)).0
            (or_exit (pooled (mark_used n p u.pool) u)).1)
        (pooled (Ops.alloc mem (writefcn os s.ftab) n p s.pool) s)
        (pooled-Post (IsHeld n p) (λ t. IsValid t) (λ _. Unit {0})
          (Ops.alloc mem (writefcn os s.ftab) n p s.pool) s
          (alloc-Post (writefcn os s.ftab) mem n p s.pool v) tt)
        (λ i t k.
          let u = add_page n t in
          Post-bind (λ _ w. IsHeld n p i w.pool) (λ r. IsPinned n r.0 r.1) IsSafe
            (λ _ w. (ok (p, i), set_link i used_page w)) (or_exit (pooled (mark_used n p u.pool) u))
            (or_exit-Post (λ w. IsHeld n p i w.pool) IsSafe (pooled (mark_used n p u.pool) u)
              (Post-mono (λ _ w. IsHeld n p i w.pool × Unit {0}) (λ _ w. IsHeld n p i w.pool)
                (λ _. ⊥) (λ _. ⊥) (pooled (mark_used n p u.pool) u) (λ _ _ x. x.0) (λ _ x. x)
                (pooled-Post (λ _ w. IsHeld n p i w) (λ _. ⊥) (λ _. Unit {0}) (mark_used n p u.pool)
                  u (mark_used-IsHeld n p i u.pool k.0) tt)))
            (λ _ w h. set_used-IsPinned n p i w h))

  alloc_from-Post :
      (link : NextFree) (n : ℕ) (s : Pf World)
      → IsSafe s
      → link ≢ used_page
      → Post (λ r. IsPinned n r.0 r.1) IsSafe (alloc_from mem os link n s)
  unfolding alloc_from
  alloc_from-Post (page_at p) n s v h = alloc_free-Post n p s v
  alloc_from-Post list_end n s v h = alloc_last-Post n (s.ftab n).hdr.numpages s v
  alloc_from-Post used_page n s v h = absurd (h refl)

  -- What PF_AllocPage promises with PFE_OK.
  abbrev pub IsNewPage : ℤ → ℕ × ℕ → Pf World → Type 0
  IsNewPage fd r t = (n : ℕ) × (fd ≡ pos n) × IsPinned n r.0 r.1 t

  -- From a well-formed pool and a file table in which no first free page is marked as used,
  -- PF_AllocPage does not end the program; with PFE_OK the new page is in the frame that is
  -- returned, fixed and marked as used; with an error the pool is well formed.
  pub alloc_page-Post :
      (fd : ℤ) (s : Pf World)
      → IsSafe s
      → HasFreeLists s.ftab
      → Post (IsNewPage fd) IsSafe (alloc_page mem os fd s)
  unfolding alloc_page
  alloc_page-Post fd s v h =
      Post-bind (λ n t. (IsSafe t × (fd ≡ pos n) × (is_open t.ftab n ≡ true)) × HasFreeLists t.ftab)
        (IsNewPage fd) IsSafe (λ n t. alloc_from mem os (t.ftab n).hdr.firstfree n t)
        (check_fd fd s) (check_fd_ftab-Post HasFreeLists fd s v h)
        (λ n t ((u, e, _), f).
          Post-mono (λ r. IsPinned n r.0 r.1) (IsNewPage fd) IsSafe IsSafe
            (alloc_from mem os (t.ftab n).hdr.firstfree n t) (λ r x k. (n, e, k)) (λ _ k. k)
            (alloc_from-Post (t.ftab n).hdr.firstfree n t u (f n)))
