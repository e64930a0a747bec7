-- ===== src/Pf/SafeLists.antt =====
-- The routines of pflayer/pf.c that search, dispose of and release pages: they keep the
-- buffer pool well formed and do not end the program, and the pages they hand out are pinned.
use database_assignment.Prelude.{
  ℕ, zero, suc, ◌+◌, ◌-◌, ◌≤◌, ◌<◌, ◌≡◌, refl, Bool, true, false, arith, inl, inr, leb,
  if◌then◌else◌, Bool-cases, ==_refl,
}
use database_assignment.Prelude.Int.{ℤ, pos, negsuc}
use database_assignment.Result.{ok, after, Post, Post-bind, Post-mono, or_exit, page_free}
use database_assignment.Buf.{NextFree, used_page, page_at, Memory}
use database_assignment.Buf.Ops.{unfix}
use database_assignment.Buf.Valid.{IsValid, write_same-IsCore}
use database_assignment.Buf.Fetch.{IsHeld}
use database_assignment.Buf.Keeps.{unfix-Keeps}
use database_assignment.Pf.{Unix, Pf, raise, is_open, check_fd, check_page}
use database_assignment.Pf.Pages.{
  in_use, set_link, set_firstfree, unfix_frame, unfix_page, get_frame, next_from, next_page,
  get_next_page, dispose_frame, dispose_page,
}
use database_assignment.Pf.Safe.{
  IsSafe, IsPinned, pooled-Post, or_exit-Post, unfix_frame_held, check_fd-Post, check_page-Post,
  get_frame-Post,
}

module _ {W : Type 0} where
  -- Writing the link of a page leaves it where it is.
  set_link-IsHeld :
      (n p i : ℕ) (link : NextFree) (s : Pf W)
      → IsHeld n p i s.pool
      → IsHeld n p i (set_link i link s).pool
  set_link-IsHeld n p i link s (v, e, b) = (write_same-IsCore i _ refl refl v, e, rw (==_refl i) b)

  pub set_used-IsPinned :
      (n p i : ℕ) (s : Pf W) → IsHeld n p i s.pool → IsPinned n p i (set_link i used_page s)
  set_used-IsPinned n p i s h = (set_link-IsHeld n p i used_page s h, rw (==_refl i, in_use))

  -- From a well-formed pool PF_UnfixPage does not end the program, and the pool is well formed
  -- afterwards, with PFE_OK and with an error.
  pub unfix_page-Post :
      (fd pagenum : ℤ) (dirty : Bool) (s : Pf W)
      → IsSafe s
      → Post (λ _. IsSafe) IsSafe (unfix_page fd pagenum dirty s)
  unfolding unfix_page
  unfix_page-Post fd pagenum dirty s v =
      Post-bind (λ n t. IsSafe t × (fd ≡ pos n) × (is_open t.ftab n ≡ true)) (λ _. IsSafe) IsSafe
        (λ n t.
          after (λ p u. unfix_frame n p dirty u) (check_page n pagenum t).0
            (check_page n pagenum t).1)
        (check_fd fd s) (check_fd-Post fd s v)
        (λ n t (u, _, _).
          Post-bind (λ p w. IsSafe w × (pagenum ≡ pos p) × (p < (w.ftab n).hdr.numpages) × Unit {0})
            (λ _. IsSafe) IsSafe (λ p w. unfix_frame n p dirty w) (check_page n pagenum t)
            (check_page-Post (λ _. Unit {0}) n pagenum t u tt)
            (λ p w (x, _, _, _).
              Post-mono (λ _ y. IsValid y.pool × Unit {0}) (λ _. IsSafe) IsSafe IsSafe
                (unfix_frame n p dirty w) (λ _ _ k. k.0) (λ _ k. k)
                (pooled-Post (λ _ y. IsValid y) (λ y. IsValid y) (λ _. Unit {0})
                  (unfix n p dirty w.pool) w (unfix-Keeps n p dirty w.pool x) tt)))

module _ (mem : Memory) (os : Unix) where
  open os use {World}

  dispose_frame-Post :
      (n p i : ℕ) (s : Pf World)
      → IsHeld n p i s.pool
      → Post (λ _. IsSafe) IsSafe (dispose_frame mem os n p i s)
  unfolding dispose_frame
  dispose_frame-Post n p i s h = elim (Bool-cases (in_use i s)) [
    | inl e ↦
        rw (e, dispose_frame)
          (Post-mono (λ _ t. IsSafe t × Unit {0}) (λ _. IsSafe) IsSafe IsSafe _ (λ _ _ k. k.0)
            (λ _ k. k)
            (unfix_frame_held IsSafe (λ _. Unit {0}) n p i true
              (set_firstfree n (page_at p) (set_link i (s.ftab n).hdr.firstfree s))
              (set_link-IsHeld n p i (s.ftab n).hdr.firstfree s h) tt))
    | inr e ↦
        rw (e, dispose_frame)
          (Post-bind (λ _. IsSafe) (λ _. IsSafe) IsSafe (λ _. raise page_free)
            (or_exit (unfix_frame n p false s))
            (or_exit-Post IsSafe IsSafe (unfix_frame n p false s) (
              Post-mono (λ _ t. IsSafe t × Unit {0}) (λ _. IsSafe) (λ _. ⊥) (λ _. ⊥)
                (unfix_frame n p false s) (λ _ _ k. k.0) (λ _ k. k)
                (unfix_frame_held (λ _. ⊥) (λ _. Unit {0}) n p i false s h tt)))
            (λ _ _ k. k))
  ]

  -- From a well-formed pool PF_DisposePage does not end the program through its internal error,
  -- and the pool is well formed afterwards, with PFE_OK and with an error.
  pub dispose_page-Post :
      (fd pagenum : ℤ) (s : Pf World)
      → IsSafe s
      → Post (λ _. IsSafe) IsSafe (dispose_page mem os fd pagenum s)
  unfolding dispose_page
  dispose_page-Post fd pagenum s v =
      Post-bind (λ n t. IsSafe t × (fd ≡ pos n) × (is_open t.ftab n ≡ true)) (λ _. IsSafe) IsSafe
        (λ n t.
          after
            (λ p u.
              after (λ i. dispose_frame mem os n p i) (get_frame mem os n p u).0
                (get_frame mem os n p u).1)
            (check_page n pagenum t).0 (check_page n pagenum t).1)
        (check_fd fd s) (check_fd-Post fd s v)
        (λ n t (u, _, _).
          Post-bind (λ p w. IsSafe w × (pagenum ≡ pos p) × (p < (w.ftab n).hdr.numpages) × Unit {0})
            (λ _. IsSafe) IsSafe
            (λ p u.
              after (λ i. dispose_frame mem os n p i) (get_frame mem os n p u).0
                (get_frame mem os n p u).1)
            (check_page n pagenum t) (check_page-Post (λ _. Unit {0}) n pagenum t u tt)
            (λ p w (x, _, _, _).
              Post-bind (λ i y. IsHeld n p i y.pool × Unit {0}) (λ _. IsSafe) IsSafe
                (λ i. dispose_frame mem os n p i) (get_frame mem os n p w)
                (get_frame-Post mem os (λ _. Unit {0}) n p w x tt)
                (λ i y k. dispose_frame-Post n p i y k.0)))

  -- The loop hands out a page at or behind the place where it starts.
  abbrev pub IsFrom : ℕ → ℕ → ℕ × ℕ → Pf World → Type 0
  IsFrom n p r t = (p ≤ r.0) × IsPinned n r.0 r.1 t

  next_from-Post :
      (n p k : ℕ) (s : Pf World) → IsSafe s → Post (IsFrom n p) IsSafe (next_from mem os n p k s)
  unfolding next_from
  next_from-Post n p zero s v = v
  next_from-Post n p (suc k') s v =
      Post-bind (λ i t. IsHeld n p i t.pool × Unit {0}) (IsFrom n p) IsSafe
        (λ i t.
          let rest =
            after (λ _. next_from mem os n (p + 1) k') (unfix_frame n p false t).0
              (unfix_frame n p false t).1 in
          if in_use i t then (ok (p, i), t) else rest)
        (get_frame mem os n p s) (get_frame-Post mem os (λ _. Unit {0}) n p s v tt)
        (λ i t k. elim (Bool-cases (in_use i t)) [
          | inl e ↦ rw e (omega arith, (k.0, e))
          | inr e ↦ rw e (
              Post-bind (λ _ u. IsSafe u × Unit {0}) (IsFrom n p) IsSafe
                (λ _. next_from mem os n (p + 1) k') (unfix_frame n p false t)
                (unfix_frame_held IsSafe (λ _. Unit {0}) n p i false t k.0 tt)
                (λ _ u w.
                  Post-mono (IsFrom n (p + 1)) (IsFrom n p) IsSafe IsSafe
                    (next_from mem os n (p + 1) k' u) (λ r x y. (omega (arith, y.0), y.1))
                    (λ _ x. x) (next_from-Post n (p + 1) k' u w.0)))
        ])

  -- Behind the page `pagenum`, where -1 stands before the first page.
  abbrev pub IsAfter : ℕ → ℤ → ℕ × ℕ → Pf World → Type 0
  IsAfter n (pos p) r t = IsFrom n (p + 1) r t
  IsAfter n (negsuc _) r t = IsFrom n 0 r t

  -- PF_GetNextPage on an open file: a used page behind the given one, pinned.
  next_page-Post :
      (n : ℕ) (pagenum : ℤ) (s : Pf World)
      → IsSafe s
      → Post (IsAfter n pagenum) IsSafe (next_page mem os n pagenum s)
  unfolding next_page
  next_page-Post n (pos p) s v = elim (Bool-cases (leb (s.ftab n).hdr.numpages p)) [
    | inl e ↦ rw (e, next_page) v
    | inr e ↦ rw (e, next_page) (next_from-Post n (p + 1) ((s.ftab n).hdr.numpages - (p + 1)) s v)
  ]
  next_page-Post n (negsuc zero) s v = next_from-Post n 0 (s.ftab n).hdr.numpages s v
  next_page-Post n (negsuc (suc k)) s v = v

  -- What PF_GetNextPage promises with PFE_OK.
  abbrev pub IsNextPage : ℤ → ℤ → ℕ × ℕ → Pf World → Type 0
  IsNextPage fd pagenum r t = (n : ℕ) × (fd ≡ pos n) × IsAfter n pagenum r t

  -- From a well-formed pool PF_GetNextPage does not end the program; with PFE_OK the page that is
  -- returned comes after the given one, is one of the pages of the file, and is in the frame that
  -- is returned, fixed and in use; with an error the pool is well formed.
  pub get_next_page-Post :
      (fd pagenum : ℤ) (s : Pf World)
      → IsSafe s
      → Post (IsNextPage fd pagenum) IsSafe (get_next_page mem os fd pagenum s)
  unfolding get_next_page
  get_next_page-Post fd pagenum s v =
      Post-bind (λ n t. IsSafe t × (fd ≡ pos n) × (is_open t.ftab n ≡ true)) (IsNextPage fd pagenum)
        IsSafe (λ n t. next_page mem os n pagenum t) (check_fd fd s) (check_fd-Post fd s v)
        (λ n t (u, e, _).
          Post-mono (IsAfter n pagenum) (IsNextPage fd pagenum) IsSafe IsSafe
            (next_page mem os n pagenum t) (λ r x k. (n, e, k)) (λ _ k. k)
            (next_page-Post n pagenum t u))
