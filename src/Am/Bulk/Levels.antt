-- ===== src/Am/Bulk/Levels.antt =====
-- build_internal_levels of am_bulkload.c ends: a parent takes two children at least, where there are two.
use database_assignment.Prelude.{ℕ, ◌+◌, ◌-◌, ◌/◌, ◌≤◌, ◌<◌, ◌≡◌}
use database_assignment.Prelude.Int.{ℤ}
use database_assignment.Words.Short.{short}
use database_assignment.Result.{Result}
use database_assignment.Buf.{Memory}
use database_assignment.Pf.{Unix, Pf}
use database_assignment.Am.Tree.{Am, Answer, am_ok, running}
use database_assignment.Am.Bulk.{Level}
use database_assignment.Am.Bulk.Load.{Fresh}

-- The rounds of no loop are used up, and a result satisfies `P`.
abbrev pub Ends : {A W : Type 0} → (A → Am W → Type 0) → Answer A × Am W → Type 0
Ends P (am_ok a, s) = P a s
Ends P (running, s) = ⊥
Ends P _ = Unit

module _ (mem : Memory) (os : Unix) (junk : Fresh) (fd : ℤ) (len max root : ℕ) (some_keys : 1 ≤ max)
    (few : max < short) where
  open os use {World}

  abbrev HasRoot : Am World → Type 0
  HasRoot s = s.root ≡ root

  -- one page for two, and one for a last one
  abbrev Shrinks : Level → ℕ → Level → Level → Type 0
  Shrinks l c up to = to.count ≤ up.count + (l.count - c + 1) / 2
