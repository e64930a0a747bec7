-- ===== src/Am/Bulk/Overwritten.antt =====
-- AM_BulkLoad of am_bulkload.c makes the page AM_RootPageNum the first leaf, and build_internal_levels
-- then makes the same page the root.
use database_assignment.Prelude.{ℕ, ◌≤◌, ◌≡◌, ◌⊎◌, some}
use database_assignment.Prelude.Int.{ℤ, pos}
use database_assignment.Words.{load}
use database_assignment.Buf.{Memory}
use database_assignment.Buf.Ops.{find}
use database_assignment.Pf.{Unix}
use database_assignment.Am.{int_header}
use database_assignment.Am.Tree.{Am, to_int, buf}
use database_assignment.Am.Bulk.{Level}
use database_assignment.Am.Bulk.Load.{Fresh, Leaves}
use database_assignment.Am.Bulk.Yields.{Yields}

-- The first leaf is the page `root`, and there are no more than `b` leaves before the current one.
abbrev Starts : ℕ → ℕ → Leaves → Type 0
Starts root b l =
    (((l.level.count ≡ 0) × (l.page ≡ root)) ⊎ ((1 ≤ l.level.count) × (l.level.children 0 ≡ root)))
    × (l.level.count ≤ b)

-- The leaves that build_internal_levels gets: one at least, the page `root` first.
abbrev IsFirst : ℕ → ℕ → Level → Type 0
IsFirst root b m = (1 ≤ m.count) × (m.count ≤ b) × (m.children 0 ≡ root)

module _ (mem : Memory) (os : Unix) (junk : Fresh) (fd : ℤ) (len root : ℕ) where
  open os use {World}

  -- The page `root` is in the buffer, with itself as the first child of an internal node.
  abbrev pub IsOwnChild : Am World → Type 0
  IsOwnChild t =
      (n : ℕ) × (q : ℕ) × (i : ℕ) × (fd ≡ pos n)
      × (to_int root ≡ pos q)
      × (find t.pf.pool n q ≡ some i)
      × (load (buf i t) int_header ≡ root)
