-- ===== src/Pf/Safe.antt =====
-- The page routines of pflayer/pf.c keep the buffer pool well formed and never run into the
-- `exit(1)` of an internal error, and a page that they hand out is in use and fixed.
use database_assignment.Prelude.{
  ℕ, ◌<◌, ◌≡◌, refl, Bool, true, false, inl, inr, ltb, Bool-cases, ltb→lt,
}
use database_assignment.Prelude.Int.{ℤ, pos, negsuc}
use database_assignment.Result.{
  Result, ok, err, held, halt, after, Post, Post-bind, Post-mono, or_exit, invalid_page,
}
use database_assignment.Buf.{Memory, Pool}
use database_assignment.Buf.Ops.{get, unfix}
use database_assignment.Buf.Valid.{IsValid}
use database_assignment.Buf.Fetch.{IsHeld}
use database_assignment.Buf.Keeps.{get-Post, unfix_held}
use database_assignment.Pf.{Entry, Unix, Pf, raise, pooled, is_open, check_fd, check_page}
use database_assignment.Pf.Io.{readfcn, writefcn}
use database_assignment.Pf.Pages.{in_use, unfix_frame, get_frame, this_page, get_this_page}

-- The buffer pool is well formed.
abbrev pub IsSafe : {W : Type 0} → Pf W → Type 0
IsSafe s = IsValid s.pool

-- The page `p` of file `n` is in the frame `i`, fixed and in use.
abbrev pub IsPinned : {W : Type 0} → ℕ → ℕ → ℕ → Pf W → Type 0
IsPinned n p i s = IsHeld n p i s.pool × (in_use i s ≡ true)

module _ {W : Type 0} where
  pub pooled-Post :
      {A : Type 0} (P : A → Pool W → Type 0) (E : Pool W → Type 0) (Q : (ℕ → Entry) → Type 0)
      (r : Result A × Pool W) (s : Pf W)
      → Post P E r
      → Q s.ftab
      → Post (λ a t. P a t.pool × Q t.ftab) (λ t. E t.pool) (pooled r s)
  pooled-Post P E Q (ok a, t) s h q = (h, q)
  pooled-Post P E Q (err e, t) s h q = h
  pooled-Post P E Q (held a, t) s h q = h
  pooled-Post P E Q (halt, t) s h q = h

  -- a call that cannot fail does not end the program
  pub or_exit-Post :
      {A : Type 0} (P : Pf W → Type 0) (E : Pf W → Type 0) (r : Result A × Pf W)
      → Post (λ _. P) (λ _. ⊥) r
      → Post (λ _. P) E (or_exit r)
  or_exit-Post P E (ok a, t) h = h
  or_exit-Post P E (err e, t) h = absurd h
  or_exit-Post P E (held a, t) h = absurd h
  or_exit-Post P E (halt, t) h = h

  pub unfix_frame_held :
      (E : Pf W → Type 0) (Q : (ℕ → Entry) → Type 0) (n p i : ℕ) (dirty : Bool) (s : Pf W)
      → IsHeld n p i s.pool
      → Q s.ftab
      → Post (λ _ t. IsSafe t × Q t.ftab) E (unfix_frame n p dirty s)
  unfix_frame_held E Q n p i dirty s h q =
      Post-mono (λ _ t. IsSafe t × Q t.ftab) (λ _ t. IsSafe t × Q t.ftab) (λ _. ⊥) E
        (unfix_frame n p dirty s) (λ _ _ k. k) (λ _ k. absurd k)
        (pooled-Post (λ _ t. IsValid t) (λ _. ⊥) Q (unfix n p dirty s.pool) s
          (unfix_held n p i dirty s.pool h) q)

  -- The guard on a descriptor lets exactly the entries of open files pass.
  pub check_fd-Post :
      (fd : ℤ) (s : Pf W)
      → IsSafe s
      → Post (λ n t. IsSafe t × (fd ≡ pos n) × (is_open t.ftab n ≡ true)) IsSafe (check_fd fd s)
  unfolding check_fd
  check_fd-Post (pos n) s v = elim (Bool-cases (is_open s.ftab n)) [
    | inl e ↦ rw (e, check_fd) (v, refl, e)
    | inr e ↦ rw (e, check_fd) v
  ]
  check_fd-Post (negsuc n) s v = v

  -- The guard leaves the file table alone.
  pub check_fd_ftab-Post :
      (Q : (ℕ → Entry) → Type 0) (fd : ℤ) (s : Pf W)
      → IsSafe s
      → Q s.ftab
      → Post
          (λ n t. (IsSafe t × (fd ≡ pos n) × (is_open t.ftab n ≡ true)) × Q t.ftab)
          IsSafe
          (check_fd fd s)
  unfolding check_fd
  check_fd_ftab-Post Q (pos n) s v q = elim (Bool-cases (is_open s.ftab n)) [
    | inl e ↦ rw (e, check_fd) ((v, refl, e), q)
    | inr e ↦ rw (e, check_fd) v
  ]
  check_fd_ftab-Post Q (negsuc n) s v q = v

  pub check_page-Post :
      (Q : (ℕ → Entry) → Type 0) (n : ℕ) (pagenum : ℤ) (s : Pf W)
      → IsSafe s
      → Q s.ftab
      → Post
          (λ p t. IsSafe t × (pagenum ≡ pos p) × (p < (t.ftab n).hdr.numpages) × Q t.ftab)
          IsSafe
          (check_page n pagenum s)
  unfolding check_page
  check_page-Post Q n (pos p) s v q = elim (Bool-cases (ltb p (s.ftab n).hdr.numpages)) [
    | inl e ↦ rw (e, check_page) (v, refl, ltb→lt _ _ e, q)
    | inr e ↦ rw (e, check_page) v
  ]
  check_page-Post Q n (negsuc p) s v q = v

module _ (mem : Memory) (os : Unix) where
  open os use {World}

  pub get_frame-Post :
      (Q : (ℕ → Entry) → Type 0) (n p : ℕ) (s : Pf World)
      → IsSafe s
      → Q s.ftab
      → Post (λ i t. IsHeld n p i t.pool × Q t.ftab) IsSafe (get_frame mem os n p s)
  get_frame-Post Q n p s v q =
      pooled-Post (IsHeld n p) (λ t. IsValid t) Q
        (get mem (readfcn os s.ftab) (writefcn os s.ftab) n p s.pool) s
        (get-Post (writefcn os s.ftab) mem (readfcn os s.ftab) n p s.pool v) q

  this_page-Post :
      (Q : (ℕ → Entry) → Type 0) (n p : ℕ) (r : Result ℕ × Pf World)
      → Post (λ i t. IsHeld n p i t.pool × Q t.ftab) IsSafe r
      → Post (λ i t. IsPinned n p i t × Q t.ftab) IsSafe (this_page mem os n p r)
  unfolding this_page
  this_page-Post Q n p (ok i, s) (h, q) = elim (Bool-cases (in_use i s)) [
    | inl e ↦ rw (e, this_page) ((h, e), q)
    | inr e ↦
        rw (e, this_page)
          (Post-bind (λ _. IsSafe) (λ i t. IsPinned n p i t × Q t.ftab) IsSafe
            (λ _. raise invalid_page) (or_exit (unfix_frame n p false s))
            (or_exit-Post IsSafe IsSafe (unfix_frame n p false s) (
              Post-mono (λ _ t. IsSafe t × Unit {0}) (λ _. IsSafe) (λ _. ⊥) (λ _. ⊥)
                (unfix_frame n p false s) (λ _ _ k. k.0) (λ _ k. k)
                (unfix_frame_held (λ _. ⊥) (λ _. Unit {0}) n p i false s h tt)))
            (λ _ _ k. k))
  ]
  this_page-Post Q n p (err e, s) h = h
  this_page-Post Q n p (held a, s) h = h
  this_page-Post Q n p (halt, s) h = h

  -- What PF_GetThisPage promises with PFE_OK.
  abbrev pub IsThisPage : ℤ → ℤ → ℕ → Pf World → Type 0
  IsThisPage fd pagenum i t =
      (n : ℕ) × (p : ℕ) × (fd ≡ pos n)
      × (pagenum ≡ pos p)
      × (is_open t.ftab n ≡ true)
      × (p < (t.ftab n).hdr.numpages)
      × IsPinned n p i t

  -- From a well-formed pool PF_GetThisPage does not end the program; with PFE_OK the descriptor is
  -- one of an open file, the page number is below the number of pages of the file, and the page is
  -- in the frame that is returned, fixed and in use; with an error the pool is well formed.
  pub get_this_page-Post :
      (fd pagenum : ℤ) (s : Pf World)
      → IsSafe s
      → Post (IsThisPage fd pagenum) IsSafe (get_this_page mem os fd pagenum s)
  unfolding get_this_page
  get_this_page-Post fd pagenum s v =
      Post-bind (λ n t. IsSafe t × (fd ≡ pos n) × (is_open t.ftab n ≡ true)) (IsThisPage fd pagenum)
        IsSafe
        (λ n t.
          after (λ p u. this_page mem os n p (get_frame mem os n p u)) (check_page n pagenum t).0
            (check_page n pagenum t).1)
        (check_fd fd s) (check_fd-Post fd s v)
        (λ n t (u, e, o).
          Post-bind
            (λ p w.
              IsSafe w
              × (pagenum ≡ pos p)
              × (p < (w.ftab n).hdr.numpages)
              × (is_open w.ftab n ≡ true))
            (IsThisPage fd pagenum) IsSafe (λ p w. this_page mem os n p (get_frame mem os n p w))
            (check_page n pagenum t)
            (check_page-Post (λ ftab. is_open ftab n ≡ true) n pagenum t u o)
            (λ p w (x, e', lt, o').
              Post-mono
                (λ i y.
                  IsPinned n p i y × ((p < (y.ftab n).hdr.numpages) × (is_open y.ftab n ≡ true)))
                (IsThisPage fd pagenum) IsSafe IsSafe
                (this_page mem os n p (get_frame mem os n p w))
                (λ i y k. (n, p, e, e', k.1.1, k.1.0, k.0)) (λ _ k. k)
                (this_page-Post (λ ftab. (p < (ftab n).hdr.numpages) × (is_open ftab n ≡ true)) n p
                  (get_frame mem os n p w)
                  (get_frame-Post (λ ftab. (p < (ftab n).hdr.numpages) × (is_open ftab n ≡ true)) n
                    p w x (lt, o')))))
