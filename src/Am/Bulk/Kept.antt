-- ===== src/Am/Bulk/Kept.antt =====
-- What am_bulkload.c relies on in pflayer/pf.c: PF_AllocPage and PF_UnfixPage keep the buffer pool well
-- formed, and PF_UnfixPage leaves the pages in their frames.
use database_assignment.Prelude.{ℕ, ◌≡◌, refl, ◌∙◌, Bool, true, inl, inr, Bool-cases, ltb}
use database_assignment.Prelude.Int.{ℤ, pos, negsuc}
use database_assignment.Result.{Result, ok, err, held, halt, after, Post, Call}
use database_assignment.Buf.{NextFree, list_end, used_page, page_at, Memory}
use database_assignment.Buf.Unfixed.{unfix-same}
use database_assignment.Pf.{Unix, Pf, is_open, check_fd, check_page}
use database_assignment.Pf.Pages.{unfix_page, unfix_frame, alloc_from, alloc_page}
use database_assignment.Pf.Safe.{IsSafe, IsPinned, check_fd-Post}
use database_assignment.Pf.SafeAlloc.{alloc_free-Post, alloc_last-Post}
use database_assignment.Sp.Safe.{after-keeps}

-- After PFE_OK the state satisfies `P`.
abbrev pub WhenOk : {A S : Type 0} → (S → Type 0) → Result A × S → Type 0
WhenOk P (ok a, s) = P s
WhenOk P _ = Unit

WhenOk-Post :
    {A S : Type 0} (Q : A → S → Type 0) (E P : S → Type 0) (r : Result A × S)
    → ((a : A) (s : S) → Q a s → P s)
    → Post Q E r
    → WhenOk P r
WhenOk-Post Q E P (ok a, s) k h = k a s h
WhenOk-Post Q E P (err e, s) k h = tt
WhenOk-Post Q E P (held a, s) k h = tt
WhenOk-Post Q E P (halt, s) k h = tt

WhenOk-after :
    {A B S : Type 0} (Q : A → S → Type 0) (E P : S → Type 0) (f : A → Call S B) (r : Result A × S)
    → Post Q E r
    → ((a : A) (s : S) → Q a s → WhenOk P (f a s))
    → WhenOk P (after f r.0 r.1)
WhenOk-after Q E P f (ok a, s) h k = k a s h
WhenOk-after Q E P f (err e, s) h k = tt
WhenOk-after Q E P f (held a, s) h k = tt
WhenOk-after Q E P f (halt, s) h k = tt

module _ (mem : Memory) (os : Unix) where
  open os use {World}

  alloc_from-WhenOk :
      (link : NextFree) (n : ℕ) (s : Pf World)
      → IsSafe s
      → WhenOk IsSafe (alloc_from mem os link n s)
  unfolding alloc_from
  alloc_from-WhenOk (page_at p) n s v =
      WhenOk-Post (λ r. IsPinned n r.0 r.1) IsSafe IsSafe _ (λ _ t h. h.0.0)
        (alloc_free-Post mem os n p s v)
  alloc_from-WhenOk list_end n s v =
      WhenOk-Post (λ r. IsPinned n r.0 r.1) IsSafe IsSafe _ (λ _ t h. h.0.0)
        (alloc_last-Post mem os n (s.ftab n).hdr.numpages s v)
  alloc_from-WhenOk used_page n s v = tt

  pub alloc_page-WhenOk :
      (fd : ℤ) (s : Pf World) → IsSafe s → WhenOk IsSafe (alloc_page mem os fd s)
  unfolding alloc_page
  alloc_page-WhenOk fd s v =
      WhenOk-after (λ n t. IsSafe t × (fd ≡ pos n) × (is_open t.ftab n ≡ true)) IsSafe IsSafe
        (λ n t. alloc_from mem os (t.ftab n).hdr.firstfree n t) (check_fd fd s)
        (check_fd-Post fd s v) (λ n t h. alloc_from-WhenOk (t.ftab n).hdr.firstfree n t h.0)

-- The hash table and the bytes in the frames are the same.
abbrev pub IsSame : {W : Type 0} → Pf W → Pf W → Type 0
IsSame s t =
    (t.pool.table ≡ s.pool.table) × ((j : ℕ) → (t.pool.frame j).fpage ≡ (s.pool.frame j).fpage)

module _ {W : Type 0} (s : Pf W) where
  check_fd-IsSame : (fd : ℤ) (t : Pf W) → IsSame s t → IsSame s (check_fd fd t).1
  unfolding check_fd
  check_fd-IsSame (pos n) t h = elim (Bool-cases (is_open t.ftab n)) [
    | inl e ↦ rw (e, check_fd) h
    | inr e ↦ rw (e, check_fd) h
  ]
  check_fd-IsSame (negsuc n) t h = h

  check_page-IsSame : (n : ℕ) (p : ℤ) (t : Pf W) → IsSame s t → IsSame s (check_page n p t).1
  unfolding check_page
  check_page-IsSame n (pos p) t h = elim (Bool-cases (ltb p (t.ftab n).hdr.numpages)) [
    | inl e ↦ rw (e, check_page) h
    | inr e ↦ rw (e, check_page) h
  ]
  check_page-IsSame n (negsuc p) t h = h

  pub unfix_page-IsSame : (fd p : ℤ) (dirty : Bool) → IsSame s (unfix_page fd p dirty s).1
  unfolding unfix_page
  unfix_page-IsSame fd p dirty =
      after-keeps (IsSame s)
        (λ n t. after (λ q u. unfix_frame n q dirty u) (check_page n p t).0 (check_page n p t).1)
        (check_fd fd s) (check_fd-IsSame fd s (refl, λ j. refl))
        (λ n t g.
          after-keeps (IsSame s) (λ q u. unfix_frame n q dirty u) (check_page n p t)
            (check_page-IsSame n p t g)
            (λ q u h. let w = unfix-same n q dirty u.pool in (w.0 ∙ h.0, λ j. w.1 j ∙ h.1 j)))
