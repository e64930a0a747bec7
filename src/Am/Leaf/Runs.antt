-- ===== src/Am/Leaf/Runs.antt =====
-- The lists that AM_Compact of amlayer/aminsert.c makes: cells below each other.
use database_assignment.Prelude.{
  ℕ, zero, suc, ◌+◌, ◌-◌, ◌*◌, ◌%◌, ◌≤◌, ◌≡◌, inl, inr, true, arith, ◌==◌, member, member-nil,
  member-cons, distinct, distinct-nil, distinct-cons, Bool-cases, ==_iff,
}
use database_assignment.Am.Leaf.Packs.{run}

-- where the cells of a run stand
pub run_bounds :
    (ptr k d : ℕ)
    → 6 * k ≤ ptr + 6
    → member d (run ptr k) ≡ true
    → (d ≤ ptr) × (ptr + 6 ≤ d + 6 * k) × ((ptr - d) % 6 ≡ 0)
run_bounds ptr zero d h m = absurd (ground (arith, member-nil d))
run_bounds ptr (suc k) d h m = elim (Bool-cases (d == ptr)) [
  | inl e ↦ (let f = (==_iff d ptr).0 e in (omega arith, omega arith, omega arith))
  | inr e ↦
      let rest : member d (run (ptr - 6) k) ≡ true =
        ground (arith, member-cons d ptr (run (ptr - 6) k)) in
      let b = run_bounds (ptr - 6) k d (omega arith) rest in
      (omega (arith, b), omega (arith, b), omega (arith, b))
]

pub distinct-run : (ptr k : ℕ) → 6 * k ≤ ptr → distinct (run ptr k) ≡ true
distinct-run ptr zero h = distinct-nil
distinct-run ptr (suc k) h = elim (Bool-cases (member ptr (run (ptr - 6) k))) [
  | inl m ↦ let b = run_bounds (ptr - 6) k ptr (omega arith) m in absurd (omega (arith, b))
  | inr m ↦
      ground (arith, distinct-cons ptr (run (ptr - 6) k), distinct-run (ptr - 6) k (omega arith))
]
