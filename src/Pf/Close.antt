-- ===== src/Pf/Close.antt =====
-- PF_CloseFile of pflayer/pf.c keeps the buffer pool well formed, and frees the descriptor.
use database_assignment.Prelude.{
  ℕ, ◌≡◌, refl, Bool, true, false, none, inl, inr, Bool-cases, ==_refl,
}
use database_assignment.Prelude.Int.{ℤ, pos}
use database_assignment.Result.{
  Code, Call, ◌>>=◌, ◌>>◌, modify, hdr_write, after, Post, Post-bind, Post-mono,
}
use database_assignment.Buf.Ops.{release_file}
use database_assignment.Buf.Valid.{IsValid}
use database_assignment.Buf.Keeps.{release_file-Keeps}
use database_assignment.Pf.{
  Transfer, whole, short, refused, Unix, Pf, is_open, check_fd, pooled, put_entry,
}
use database_assignment.Pf.Io.{writefcn}
use database_assignment.Pf.Files.{system, need, need_whole, write_back, close_file}
use database_assignment.Pf.Safe.{IsSafe, check_fd-Post, pooled-Post}

module _ (os : Unix) where
  open os use {World, close, lseek, write_hdr}

  -- the rest after the answer of a system call
  after-need :
      (P : Pf World → Type 0) (k : Call (Pf World) Unit) (b : Bool) (s : Pf World)
      → IsSafe s
      → ((t : Pf World) → IsSafe t → Post (λ _. P) IsSafe (k t))
      → Post (λ _. P) IsSafe (after (λ _. k) (need os b s).0 (need os b s).1)
  after-need P k true s v h = h s v
  after-need P k false s v h = v

  after-need_whole :
      {A : Type 0} (P : Pf World → Type 0) (k : Call (Pf World) Unit) (e : Code) (t : Transfer A)
      (s : Pf World)
      → IsSafe s
      → ((t' : Pf World) → IsSafe t' → Post (λ _. P) IsSafe (k t'))
      → Post (λ _. P) IsSafe (after (λ _. k) (need_whole os e t s).0 (need_whole os e t s).1)
  after-need_whole P k e (whole a) s v h = h s v
  after-need_whole P k e short s v h = v
  after-need_whole P k e refused s v h = v

  -- the last steps of the two routines
  abbrev unchanged : ℕ → Call (Pf World) Unit
  unchanged n = modify (λ u. put_entry n (record (u.ftab n) { hdrchanged = false }) u)

  abbrev vacate : ℕ → Call (Pf World) Unit
  vacate n = modify (λ u. put_entry n (record (u.ftab n) { fname = none }) u)

  write_back-Post :
      (n : ℕ) (s : Pf World) → IsSafe s → Post (λ _. IsSafe) IsSafe (write_back os n s)
  unfolding write_back
  write_back-Post n s v = elim (Bool-cases (s.ftab n).hdrchanged) [
    | inr e ↦ rw (e, write_back) v
    | inl e ↦
        rw (e, write_back)
          (after-need IsSafe
            (do
              t ← (λ u. system os (write_hdr (s.ftab n).unixfd (s.ftab n).hdr u.pool.world) u)
              _ ← need_whole os hdr_write t
              unchanged n)
            (lseek (s.ftab n).unixfd 0 s.pool.world).0
            (system os (lseek (s.ftab n).unixfd 0 s.pool.world) s).1 v
            (λ t u.
              let r = write_hdr (s.ftab n).unixfd (s.ftab n).hdr t.pool.world in
              after-need_whole IsSafe (unchanged n) hdr_write r.0 (system os r t).1 u (λ w x. x)))
  ]

  -- What PF_CloseFile promises with PFE_OK.
  abbrev pub IsClosed : ℤ → Pf World → Type 0
  IsClosed fd t = IsSafe t × ((n : ℕ) × (fd ≡ pos n) × (is_open t.ftab n ≡ false))

  vacate-IsClosed :
      (n : ℕ) (t : Pf World) → IsSafe t → Post (λ _. IsClosed (pos n)) IsSafe (vacate n t)
  unfolding is_open
  vacate-IsClosed n t v = (v, (n, refl, rw (==_refl n, is_open) refl))

  close_rest :
      (n : ℕ) (t : Pf World)
      → IsSafe t
      → Post
          (λ _. IsClosed (pos n))
          IsSafe
          ((do
            write_back os n
            closed ← (λ s. system os (close (s.ftab n).unixfd s.pool.world) s)
            need os closed
            vacate n)
            t)
  close_rest n t v =
      Post-bind (λ _. IsSafe) (λ _. IsClosed (pos n)) IsSafe
        (λ _. (do
          closed ← (λ s. system os (close (s.ftab n).unixfd s.pool.world) s)
          need os closed
          vacate n))
        (write_back os n t) (write_back-Post n t v)
        (λ _ u w.
          let r = close (u.ftab n).unixfd u.pool.world in
          after-need (IsClosed (pos n)) (vacate n) r.0 (system os r u).1 w (vacate-IsClosed n))

  -- From a well-formed pool PF_CloseFile does not end the program; with PFE_OK the pool is well
  -- formed and the descriptor is not open any more, and with an error the pool is well formed.
  pub close_file-Post :
      (fd : ℤ) (s : Pf World) → IsSafe s → Post (λ _. IsClosed fd) IsSafe (close_file os fd s)
  unfolding close_file
  close_file-Post fd s v =
      Post-bind (λ n t. IsSafe t × (fd ≡ pos n) × (is_open t.ftab n ≡ true)) (λ _. IsClosed fd)
        IsSafe
        (λ n. (do
          (λ t. pooled (release_file (writefcn os t.ftab) n t.pool) t)
          write_back os n
          closed ← (λ t. system os (close (t.ftab n).unixfd t.pool.world) t)
          need os closed
          vacate n))
        (check_fd fd s) (check_fd-Post fd s v)
        (λ n t (u, e, _). rw e (
          Post-bind (λ _. IsSafe) (λ _. IsClosed (pos n)) IsSafe
            (λ _. (do
              write_back os n
              closed ← (λ w. system os (close (w.ftab n).unixfd w.pool.world) w)
              need os closed
              vacate n))
            (pooled (release_file (writefcn os t.ftab) n t.pool) t)
            (Post-mono (λ _ w. IsValid w.pool × Unit {0}) (λ _. IsSafe) IsSafe IsSafe
              (pooled (release_file (writefcn os t.ftab) n t.pool) t) (λ _ _ k. k.0) (λ _ k. k)
              (pooled-Post (λ _ w. IsValid w) (λ w. IsValid w) (λ _. Unit {0})
                (release_file (writefcn os t.ftab) n t.pool) t
                (release_file-Keeps (writefcn os t.ftab) n t.pool u) tt))
            (λ _ w x. close_rest n w x)))
