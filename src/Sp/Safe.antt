-- ===== src/Sp/Safe.antt =====
-- What the routines of splayer/sp.c rely on in those of pflayer/pf.c: PF_GetThisPage and PF_UnfixPage
-- keep the buffer pool well formed and do not change the open file table.
use database_assignment.Prelude.{ℕ, ◌<◌, ◌≡◌, ap, Bool, false, arith, ltb, inl, inr, Bool-cases}
use database_assignment.Prelude.Int.{ℤ, pos, negsuc}
use database_assignment.Result.{
  Result, ok, err, held, halt, Call, invalid_page, after, Post, or_exit,
}
use database_assignment.Buf.{Memory}
use database_assignment.Pf.{Entry, Unix, Pf, is_open, check_fd, check_page, raise}
use database_assignment.Pf.Pages.{
  unfix_page, get_this_page, this_page, get_frame, unfix_frame, in_use,
}
use database_assignment.Pf.Safe.{IsSafe, IsThisPage, get_this_page-Post}
use database_assignment.Pf.SafeLists.{unfix_page-Post}
use database_assignment.Sp.File.{
  Reply, sp_ok, sp_eof, sp_error, exited, outside, running, Routine, pages, passed,
}

-- The routine returns, and leaves a state that satisfies `Q`; or it leaves a page, in a state that
-- satisfies `R`.
abbrev pub Ends : {A W : Type 0} → (Q R : Pf W → Type 0) → Reply A × Pf W → Type 0
Ends Q R (sp_ok a, s) = Q s
Ends Q R (sp_eof, s) = Q s
Ends Q R (sp_error, s) = Q s
Ends Q R (exited, s) = ⊥
Ends Q R (outside, s) = R s
Ends Q R (running, s) = ⊥

-- The routine returns, and leaves a state that satisfies `Q`.
abbrev pub Returns : {A W : Type 0} → (Pf W → Type 0) → Reply A × Pf W → Type 0
Returns Q = Ends Q (λ _. ⊥)

pub Ends-mono :
    {A W : Type 0} (P Q R : Pf W → Type 0) (r : Reply A × Pf W)
    → ((s : Pf W) → P s → Q s)
    → Ends P R r
    → Ends Q R r
Ends-mono P Q R (sp_ok a, s) k h = k s h
Ends-mono P Q R (sp_eof, s) k h = k s h
Ends-mono P Q R (sp_error, s) k h = k s h
Ends-mono P Q R (exited, s) k h = h
Ends-mono P Q R (outside, s) k h = h
Ends-mono P Q R (running, s) k h = h

-- The state is well formed and has the file table `ftab`.
abbrev pub Stays : {W : Type 0} → (ℕ → Entry) → Pf W → Type 0
Stays ftab s = IsSafe s × (s.ftab ≡ ftab)

module _ {A S : Type 0} where
  pub Post-and :
      (P : A → S → Type 0) (E F : S → Type 0) (r : Result A × S)
      → Post P E r
      → F r.1
      → Post (λ a s. P a s × F s) (λ s. E s × F s) r
  Post-and P E F (ok a, s) h f = (h, f)
  Post-and P E F (err e, s) h f = (h, f)
  Post-and P E F (held a, s) h f = (h, f)
  Post-and P E F (halt, s) h f = h

pub after-keeps :
    {A B S : Type 0} (F : S → Type 0) (f : A → Call S B) (r : Result A × S)
    → F r.1
    → ((a : A) (s : S) → F s → F (f a s).1)
    → F (after f r.0 r.1).1
after-keeps F f (ok a, s) h k = k a s h
after-keeps F f (err e, s) h k = h
after-keeps F f (held a, s) h k = h
after-keeps F f (halt, s) h k = h

or_exit-keeps : {A S : Type 0} (F : S → Type 0) (r : Result A × S) → F r.1 → F (or_exit r).1
or_exit-keeps F (ok a, s) h = h
or_exit-keeps F (err e, s) h = h
or_exit-keeps F (held a, s) h = h
or_exit-keeps F (halt, s) h = h

module _ {W : Type 0} (F : (ℕ → Entry) → Type 0) where
  check_fd-keeps : (fd : ℤ) (s : Pf W) → F s.ftab → F (check_fd fd s).1.ftab
  unfolding check_fd
  check_fd-keeps (pos n) s f = elim (Bool-cases (is_open s.ftab n)) [
    | inl e ↦ rw (e, check_fd) f
    | inr e ↦ rw (e, check_fd) f
  ]
  check_fd-keeps (negsuc n) s f = f

  check_page-keeps : (n : ℕ) (p : ℤ) (s : Pf W) → F s.ftab → F (check_page n p s).1.ftab
  unfolding check_page
  check_page-keeps n (pos p) s f = elim (Bool-cases (ltb p (s.ftab n).hdr.numpages)) [
    | inl e ↦ rw (e, check_page) f
    | inr e ↦ rw (e, check_page) f
  ]
  check_page-keeps n (negsuc p) s f = f

  pub unfix_page-keeps :
      (fd p : ℤ) (dirty : Bool) (s : Pf W) → F s.ftab → F (unfix_page fd p dirty s).1.ftab
  unfolding unfix_page
  unfix_page-keeps fd p dirty s f =
      after-keeps (λ t. F t.ftab)
        (λ n t. after (λ q u. unfix_frame n q dirty u) (check_page n p t).0 (check_page n p t).1)
        (check_fd fd s) (check_fd-keeps fd s f)
        (λ n t g.
          after-keeps (λ u. F u.ftab) (λ q u. unfix_frame n q dirty u) (check_page n p t)
            (check_page-keeps n p t g) (λ q u h. h))

module _ (mem : Memory) (os : Unix) (F : (ℕ → Entry) → Type 0) where
  open os use {World}

  this_page-keeps :
      (n p : ℕ) (r : Result ℕ × Pf World) → F r.1.ftab → F (this_page mem os n p r).1.ftab
  unfolding this_page
  this_page-keeps n p (ok i, s) f = elim (Bool-cases (in_use i s)) [
    | inl e ↦ rw (e, this_page) f
    | inr e ↦
        rw (e, this_page)
          (after-keeps (λ t. F t.ftab) (λ _. raise invalid_page) (or_exit (unfix_frame n p false s))
            (or_exit-keeps (λ t. F t.ftab) (unfix_frame n p false s) f) (λ _ t g. g))
  ]
  this_page-keeps n p (err e, s) f = f
  this_page-keeps n p (held i, s) f = f
  this_page-keeps n p (halt, s) f = f

  pub get_this_page-keeps :
      (fd p : ℤ) (s : Pf World) → F s.ftab → F (get_this_page mem os fd p s).1.ftab
  unfolding get_this_page
  get_this_page-keeps fd p s f =
      after-keeps (λ t. F t.ftab)
        (λ n t.
          after (λ q u. this_page mem os n q (get_frame mem os n q u)) (check_page n p t).0
            (check_page n p t).1)
        (check_fd fd s) (check_fd-keeps F fd s f)
        (λ n t g.
          after-keeps (λ u. F u.ftab) (λ q u. this_page mem os n q (get_frame mem os n q u))
            (check_page n p t) (check_page-keeps F n p t g)
            (λ q u h. this_page-keeps n q (get_frame mem os n q u) h))

-- PF_UnfixPage, and then the next thing.
pub unfix_then :
    {A W : Type 0} (ftab : ℕ → Entry) (G : Reply A × Pf W → Type 0) (next : Routine W A) (fd p : ℤ)
    (dirty : Bool) (s : Pf W)
    → Stays ftab s
    → ((t : Pf W) → Stays ftab t → G (next t))
    → G (passed next (unfix_page fd p dirty s))
unfix_then ftab G next fd p dirty s (v, e) k = go (unfix_page fd p dirty s) (
    Post-and (λ _. IsSafe) IsSafe (λ t. t.ftab ≡ ftab) (unfix_page fd p dirty s)
      (unfix_page-Post fd p dirty s v) (unfix_page-keeps (λ f. f ≡ ftab) fd p dirty s e))
  where
    go : (r : Result Unit × Pf _) → Post (λ _. Stays ftab) (Stays ftab) r → G (passed next r)
    go (ok a, t) h = k t h
    go (err a, t) h = k t h
    go (held a, t) h = k t h
    go (halt, t) h = absurd h

module _ (mem : Memory) (os : Unix) where
  open os use {World}

  -- What PF_GetThisPage leaves behind: after PFE_OK the page is one of the pages of the file.
  abbrev pub Got : ℤ → ℤ → (ℕ → Entry) → ℕ → Pf World → Type 0
  Got fd p ftab i t = IsThisPage mem os fd p i t × (t.ftab ≡ ftab)

  pub get_this_page-Got :
      (fd p : ℤ) (ftab : ℕ → Entry) (s : Pf World)
      → Stays ftab s
      → Post (Got fd p ftab) (Stays ftab) (get_this_page mem os fd p s)
  get_this_page-Got fd p ftab s (v, e) =
      Post-and (IsThisPage mem os fd p) IsSafe (λ t. t.ftab ≡ ftab) (get_this_page mem os fd p s)
        (get_this_page-Post mem os fd p s v) (get_this_page-keeps mem os (λ f. f ≡ ftab) fd p s e)

  -- A page that PF_GetThisPage hands out leaves the state well formed.
  pub Got-Stays :
      (fd p : ℤ) (ftab : ℕ → Entry) (i : ℕ) (t : Pf World) → Got fd p ftab i t → Stays ftab t
  Got-Stays fd p ftab i t ((n, q, e, f, o, lt, h), x) = (h.0.0, x)

  magnitude : ℤ → ℕ
  magnitude (pos n) = n
  magnitude (negsuc n) = n

  pub Got-below :
      (fd : ℤ) (p : ℕ) (ftab : ℕ → Entry) (i : ℕ) (t : Pf World)
      → Got fd (pos p) ftab i t
      → p < pages fd t
  unfolding magnitude
  Got-below fd p ftab i t ((n, q, e, f, o, lt, h), _) =
      let same : p ≡ q = ap magnitude f in rw e (omega (arith, lt, same))
