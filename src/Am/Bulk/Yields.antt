-- ===== src/Am/Bulk/Yields.antt =====
-- What the calls of am_bulkload.c give where they return a result.
use database_assignment.Prelude.{ℕ, ◌≡◌, refl}
use database_assignment.Result.{Result, ok, err, held, halt, Post}
use database_assignment.Pf.{Pf}
use database_assignment.Pf.Safe.{IsSafe}
use database_assignment.Am.Tree.{Am, Answer, am_ok, am_err, ended, undefined, running, Op, then_do}
use database_assignment.Am.Bulk.Load.{or_return, and_go_on}
use database_assignment.Am.Bulk.Kept.{WhenOk}

-- A result that is returned satisfies `P`.
abbrev pub Yields : {A W : Type 0} → (A → Am W → Type 0) → Answer A × Am W → Type 0
Yields P (am_ok a, s) = P a s
Yields P _ = Unit

pub Yields-bind :
    {A B W : Type 0} (P : A → Am W → Type 0) (Q : B → Am W → Type 0) (f : A → Op W B)
    (r : Answer A × Am W)
    → Yields P r
    → ((a : A) (s : Am W) → P a s → Yields Q (f a s))
    → Yields Q (then_do f r)
Yields-bind P Q f (am_ok a, s) h k = k a s h
Yields-bind P Q f (am_err e, s) h k = tt
Yields-bind P Q f (ended, s) h k = tt
Yields-bind P Q f (undefined, s) h k = tt
Yields-bind P Q f (running, s) h k = tt

module _ {W : Type 0} (root : ℕ) where
  -- AM_RootPageNum is `root`, and the buffer pool is well formed.
  abbrev pub HasRoot : Am W → Type 0
  HasRoot s = (s.root ≡ root) × IsSafe s.pf

  pub or_return-Yields :
      {A : Type 0} (s : Am W) (r : Result A × Pf W)
      → s.root ≡ root
      → WhenOk IsSafe r
      → Yields (λ _ t. HasRoot t) (or_return s r)
  or_return-Yields s (ok a, t) h v = (h, v)
  or_return-Yields s (err e, t) h v = tt
  or_return-Yields s (held a, t) h v = tt
  or_return-Yields s (halt, t) h v = tt

  pub or_return-Post :
      {A : Type 0} (P : A → Pf W → Type 0) (E : Pf W → Type 0) (s : Am W) (r : Result A × Pf W)
      → Post P E r
      → Yields (λ a t. P a t.pf × (t.root ≡ s.root)) (or_return s r)
  or_return-Post P E s (ok a, t) h = (h, refl)
  or_return-Post P E s (err e, t) h = tt
  or_return-Post P E s (held a, t) h = tt
  or_return-Post P E s (halt, t) h = tt

  pub and_go_on-Yields :
      {A : Type 0} (s : Am W) (r : Result A × Pf W)
      → s.root ≡ root
      → Post (λ _. IsSafe) IsSafe r
      → Yields (λ _ t. HasRoot t) (and_go_on s r)
  and_go_on-Yields s (ok a, t) h v = (h, v)
  and_go_on-Yields s (err e, t) h v = (h, v)
  and_go_on-Yields s (held a, t) h v = (h, v)
  and_go_on-Yields s (halt, t) h v = tt

  pub and_go_on-keeps :
      {A : Type 0} (P : Pf W → Type 0) (s : Am W) (r : Result A × Pf W)
      → P r.1
      → Yields (λ _ t. P t.pf × (t.root ≡ s.root)) (and_go_on s r)
  and_go_on-keeps P s (ok a, t) h = (h, refl)
  and_go_on-keeps P s (err e, t) h = (h, refl)
  and_go_on-keeps P s (held a, t) h = (h, refl)
  and_go_on-keeps P s (halt, t) h = tt
