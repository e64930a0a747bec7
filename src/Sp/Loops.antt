-- ===== src/Sp/Loops.antt =====
-- The loops of splayer/sp.c over the pages of a file: one round, and all rounds that the bound allows.
use database_assignment.Prelude.{
  ℕ, zero, suc, ◌+◌, ◌≤◌, ◌<◌, ◌≡◌, refl, sym, ap, ◌∙◌, Bool, true, false, Option, some, none,
  arith, inl, inr, Bool-cases,
}
use database_assignment.Prelude.Int.{ℤ, pos, negsuc}
use database_assignment.Result.{Result, ok, err, held, halt, eof, invalid_page, Post}
use database_assignment.Words.{Bytes}
use database_assignment.Buf.{Memory}
use database_assignment.Buf.Valid.{write_same-IsCore}
use database_assignment.Pf.{Entry, Unix, Pf}
use database_assignment.Pf.Pages.{get_this_page}
use database_assignment.Sp.Page.{has_room}
use database_assignment.Sp.File.{
  Reply, sp_ok, sp_eof, sp_error, exited, outside, running, Routine, place_on_page, page_buf,
  set_buf, pages, released, try_page, find_page, insert_at,
}
use database_assignment.Sp.Safe.{
  Ends, Stays, unfix_then, Got, get_this_page-Got, Got-Stays, Got-below,
}

-- Writing the bytes of a page leaves it where it is.
pub set_buf-Stays :
    {W : Type 0} (ftab : ℕ → Entry) (i : ℕ) (p : Bytes) (s : Pf W)
    → Stays ftab s
    → Stays ftab (set_buf i p s)
set_buf-Stays ftab i p s (v, e) = (write_same-IsCore i _ refl refl v, e)

-- A bound on the rounds that is enough from page `p` on
abbrev pub Enough : ℕ → ℕ → ℕ → Type 0
Enough pages p k = (pages < p + k) × (1 ≤ k)

pub same_pages :
    {W : Type 0} (fd : ℤ) (ftab : ℕ → Entry) (s t : Pf W)
    → Stays ftab s
    → Stays ftab t
    → pages fd s ≡ pages fd t
same_pages (pos n) ftab s t v w = ap (λ (f : ℕ → Entry). (f n).hdr.numpages) (v.1 ∙ sym w.1)
same_pages (negsuc n) ftab s t v w = refl

module _ (mem : Memory) (os : Unix) (fd : ℤ) (ftab : ℕ → Entry) where
  open os use {World}

  -- a return after PF_UnfixPage
  pub released-Ends :
      {A : Type 0} (R : Pf World → Type 0) (r : Reply A) (p : ℕ) (dirty : Bool) (s : Pf World)
      → ((t : Pf World) → Stays ftab t → Ends (Stays ftab) R (r, t))
      → Stays ftab s
      → Ends (Stays ftab) R (released r fd p dirty s)
  released-Ends R r p dirty s k v =
      unfix_then ftab (Ends (Stays ftab) R) (λ t. (r, t)) fd (pos p) dirty s v k

  -- The page that Phase 1 of SP_InsertRec stops at is held and passed the test for room.
  abbrev pub IsChosen : ℕ → ℕ → ℕ → Pf World → Type 0
  IsChosen length p i t = Got mem os fd (pos p) ftab i t × (has_room length (page_buf i t) ≡ true)

  -- what Phase 1 of SP_InsertRec ends with
  abbrev pub Chooses : ℕ → Reply (Option (ℕ × ℕ)) × Pf World → Type 0
  Chooses length (sp_ok (some (p, i)), t) = IsChosen length p i t
  Chooses length (sp_ok none, t) = Stays ftab t
  Chooses length (sp_eof, t) = Stays ftab t
  Chooses length (sp_error, t) = Stays ftab t
  Chooses length (exited, t) = ⊥
  Chooses length (outside, t) = ⊥
  Chooses length (running, t) = ⊥

  -- After PF_UnfixPage the page is still one of the pages of the file.
  pub below :
      {p i : ℕ} (t u : Pf World) → Got mem os fd (pos p) ftab i t → Stays ftab u → p < pages fd u
  below {p} {i} t u g w = omega (
    arith,
    Got-below mem os fd p ftab i t g,
    same_pages fd ftab t u (Got-Stays mem os fd (pos p) ftab i t g) w,
  )

  -- Phase 1 of SP_InsertRec on one page
  try_page-Chooses :
      (length p : ℕ) (next : Routine World (Option (ℕ × ℕ))) (r : Result ℕ × Pf World)
      → Post (Got mem os fd (pos p) ftab) (Stays ftab) r
      → ((t : Pf World) → Stays ftab t → p < pages fd t → Chooses length (next t))
      → Chooses length (try_page mem os fd length p next r)
  unfolding try_page
  try_page-Chooses length p next (ok i, t) g k =
      elim (Bool-cases (has_room length (page_buf i t))) [
        | inl e ↦ rw (e, try_page) (g, e)
        | inr e ↦
            rw (e, try_page)
              (unfix_then ftab (Chooses length) next fd (pos p) false t
                (Got-Stays mem os fd (pos p) ftab i t g) (λ u w. k u w (below t u g w)))
      ]
  try_page-Chooses length p next (err eof, t) g k = g
  try_page-Chooses length p next (err invalid_page, t) g k = g
  try_page-Chooses length p next (err _, t) g k = g
  try_page-Chooses length p next (held i, t) g k = g
  try_page-Chooses length p next (halt, t) g k = g

  -- Phase 1 of SP_InsertRec
  pub find_page-Chooses :
      (length p k : ℕ) (s : Pf World)
      → Stays ftab s
      → Enough (pages fd s) p k
      → Chooses length (find_page mem os fd length p k s)
  unfolding find_page
  find_page-Chooses length p zero s v h = absurd (omega (arith, h.1))
  find_page-Chooses length p (suc k) s v h =
      try_page-Chooses length p (find_page mem os fd length (p + 1) k)
        (get_this_page mem os fd (pos p) s) (get_this_page-Got mem os fd (pos p) ftab s v)
        (λ t u lt.
          find_page-Chooses length (p + 1) k t u
            (omega (arith, h.0, lt, e t u), omega (arith, h.0, lt, e t u)))
    where
      e : (t : Pf World) → Stays ftab t → pages fd s ≡ pages fd t
      e t u = same_pages fd ftab s t v u

  pub insert_at-Ends :
      (R : Pf World → Type 0) (rec : Bytes) (length p i : ℕ) (s : Pf World)
      → Stays ftab s
      → (place_on_page length (page_buf i s) ≡ false → R s)
      → Ends (Stays ftab) R (insert_at mem os fd rec length p i s)
  unfolding insert_at
  insert_at-Ends R rec length p i s v k = elim (Bool-cases (place_on_page length (page_buf i s))) [
    | inl e ↦
        rw e (released-Ends R _ p true (set_buf i _ s) (λ t u. u) (set_buf-Stays ftab i _ s v))
    | inr e ↦ rw e (k e)
  ]
