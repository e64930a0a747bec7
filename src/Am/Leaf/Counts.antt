-- ===== src/Am/Leaf/Counts.antt =====
-- How many cells the lists of a well-formed leaf of amlayer/ have together.
use database_assignment.Prelude.{
  ℕ, zero, suc, ◌+◌, ◌-◌, ◌*◌, ◌/◌, ◌≤◌, ◌<◌, ◌≡◌, ◌≢◌, refl, true, false, List, [], ◌∷◌, ◌++◌,
  arith, length, length-append, inl, inr, Bool-cases, member, member-nil, member-cons,
  member-append, remove, member-remove, remove-absent, length-remove, distinct, distinct-nil,
  distinct-append, distinct-remove, ◌==◌,
}
use database_assignment.Words.{Bytes}
use database_assignment.Am.Leaf.View.{IsCell, IsBody}

-- There are at most `b` different cells in the last 6 * b bytes of a page.
cells_bounded :
    (b : ℕ) (xs : List ℕ)
    → 6 * b ≤ 4096
    → distinct xs ≡ true
    → ((x : ℕ) → member x xs ≡ true → IsCell (4096 - 6 * b) x)
    → length xs ≤ b
cells_bounded zero [] a d h = omega arith
cells_bounded zero (x ∷ xs) a d h = absurd (omega (arith, h x (ground (arith, member-cons x x xs))))
cells_bounded (suc b) xs a d h =
    let y = 4096 - 6 * suc b in
    let rest = cells_bounded b (remove y xs) (omega arith) (distinct-remove y xs d) (λ x m.
      let k : member x xs ≡ true = ground (arith, member-remove x y xs) in
      let ne : (x == y) ≡ false = ground (arith, member-remove x y xs) in
      let ne' : x ≢ y = λ e. ground arith in omega (arith, h x k, ne')) in
    ground (arith, length-remove y xs, remove-absent y xs, rest)

module _ (len : ℕ) (p : Bytes) (rec key free count n : ℕ) (lists : ℕ → List ℕ)
    (v : IsBody len p rec key free count n lists) (low : ℕ) where
  -- the cells of the `k` keys from `low` on, and their number
  all : ℕ → List ℕ
  all zero = []
  all (suc k) = lists (low + k) ++ all k

  abbrev pub used : ℕ → ℕ
  used zero = 0
  used (suc k) = used k + length (lists (low + k))

  length-all : (k : ℕ) → length (all k) ≡ used k
  unfolding all
  length-all zero = refl
  length-all (suc k) = omega (arith, length-append (lists (low + k)) (all k), length-all k)

  member-all :
      (k d : ℕ) → member d (all k) ≡ true → (i : ℕ) × (i < k) × (member d (lists (low + i)) ≡ true)
  unfolding all
  member-all zero d m = absurd (ground (arith, member-nil d))
  member-all (suc k) d m = elim (Bool-cases (member d (lists (low + k)))) [
    | inl e ↦ (k, omega arith, e)
    | inr e ↦
        let rest : member d (all k) ≡ true =
          ground (arith, member-append d (lists (low + k)) (all k)) in
        let (i, l, h) = member-all k d rest in (i, omega (arith, l), h)
  ]

  distinct-all : (k : ℕ) → low + k ≤ n + 1 → distinct (all k) ≡ true
  unfolding all
  distinct-all zero h = distinct-nil
  distinct-all (suc k) h =
      distinct-append (lists (low + k)) (all k) (v.once (low + k) (omega arith))
        (distinct-all k (omega arith))
        (λ d m. elim (Bool-cases (member d (all k))) [
          | inr e ↦ e
          | inl e ↦
              let (i, l, o) = member-all k d e in
              let same : low + i ≡ low + k =
                v.alone (low + i) (low + k) d (omega (arith, l)) (omega arith) o m in
              absurd (omega (arith, same, l))
        ])

  -- They all fit between the first cell and the end of the page.
  pub used_bounded : (k : ℕ) → low + k ≤ n + 1 → 6 * used k + rec ≤ 4096
  used_bounded k h =
      let b = (4096 - rec) / 6 in
      let e : 6 * b + rec ≡ 4096 = omega (arith, v.aligned, v.top) in
      let c = cells_bounded b (all k) (omega (arith, e)) (distinct-all k h) (λ d m.
        let (i, l, o) = member-all k d m in
        omega (arith, e, v.cell (low + i) d (omega (arith, l)) o)) in
      omega (arith, c, e, length-all k)

-- the first list and the others
pub used_first :
    (len : ℕ) (p : Bytes) (rec key free count n : ℕ) (lists : ℕ → List ℕ)
    (v : IsBody len p rec key free count n lists) (low k : ℕ)
    → used len p rec key free count n lists v low (suc k)
      ≡ length (lists low) + used len p rec key free count n lists v (low + 1) k
used_first len p rec key free count n lists v low zero =
    (let e : low + 0 ≡ low = omega arith in rw e (omega arith))
used_first len p rec key free count n lists v low (suc k) =
    let rest = used_first len p rec key free count n lists v low k in
    let e : low + 1 + k ≡ low + suc k = omega arith in rw e (omega (arith, rest))
