-- ===== src/Am/Tree/Outcome.antt =====
-- What is said of a routine of amlayer/ that works on the buffer pool.
use database_assignment.Result.{Result, ok, err, held, halt, Post}
use database_assignment.Pf.{Pf}
use database_assignment.Am.Tree.{
  Am, Answer, am_ok, am_err, ended, undefined, running, Op, then_do, checked,
}

-- The result satisfies `P`, or there is an error and the state satisfies `E`, or C defines no result; the
-- paged file layer does not end the program, and no loop uses up its rounds.
abbrev pub Outcome :
    {A W : Type 0} → (A → Am W → Type 0) → (Am W → Type 0) → Answer A × Am W → Type 0
Outcome P E (am_ok a, s) = P a s
Outcome P E (am_err e, s) = E s
Outcome P E (ended, s) = ⊥
Outcome P E (undefined, s) = Unit
Outcome P E (running, s) = ⊥

pub Outcome-bind :
    {A B W : Type 0} (P : A → Am W → Type 0) (Q : B → Am W → Type 0) (E : Am W → Type 0)
    (f : A → Op W B) (r : Answer A × Am W)
    → Outcome P E r
    → ((a : A) (s : Am W) → P a s → Outcome Q E (f a s))
    → Outcome Q E (then_do f r)
Outcome-bind P Q E f (am_ok a, s) h k = k a s h
Outcome-bind P Q E f (am_err e, s) h k = h
Outcome-bind P Q E f (ended, s) h k = h
Outcome-bind P Q E f (undefined, s) h k = tt
Outcome-bind P Q E f (running, s) h k = h

pub pf_call-Outcome :
    {A W : Type 0} (P : A → Pf W → Type 0) (E : Pf W → Type 0) (s : Am W) (r : Result A × Pf W)
    → Post P E r
    → Outcome (λ a t. P a t.pf) (λ t. E t.pf) (checked s r)
pf_call-Outcome P E s (ok a, t) h = h
pf_call-Outcome P E s (err e, t) h = h
pf_call-Outcome P E s (held a, t) h = h
pf_call-Outcome P E s (halt, t) h = h
