-- ===== src/Am/Search/Linear.antt =====
-- The binary searches of amlayer/amsearch.c against a linear search through the keys.
use database_assignment.Prelude.{
  ℕ, zero, suc, ◌+◌, ◌-◌, ◌/◌, ◌≤◌, ◌<◌, ◌≡◌, ◌⊎◌, inl, inr, refl, Bool, true, false, ltb, ◌==◌,
  if◌then◌else◌, arith, Bool-cases, ==_iff,
}
use database_assignment.Am.{Order, below, equal, above}
use database_assignment.Am.Search.{Stop, hit, range, narrow}

-- The keys 1 to `n` are in increasing order: where the value is not above a key, it is below every
-- later one.
abbrev pub IsOrdered : (ℕ → Order) → ℕ → Type 0
IsOrdered at n = (i j : ℕ) → 1 ≤ i → i < j → j ≤ n → (at i ≡ above) ⊎ (at j ≡ below)

-- the first of the keys i, i + 1, … that the value is not above, of `k` keys
unfoldable pub first_not_above : (ℕ → Order) → ℕ → ℕ → ℕ
first_not_above at i zero = i
first_not_above at i (suc k) = elim (at i) [ above ↦ first_not_above at (i + 1) k | _ ↦ i ]

abbrev pub is_equal : Order → Bool
is_equal equal = true
is_equal below = false
is_equal above = false

-- what a linear search of a leaf finds
unfoldable pub linear_leaf : (ℕ → Order) → ℕ → ℕ × Bool
unfolding first_not_above
linear_leaf at n = let r = first_not_above at 1 n in (r, if ltb n r then false else is_equal (at r))

-- the number of the keys i, i + 1, … before the first that the value is below, plus i - 1
unfoldable pub last_not_below : (ℕ → Order) → ℕ → ℕ → ℕ
last_not_below at i zero = i - 1
last_not_below at i (suc k) = elim (at i) [ below ↦ i - 1 | _ ↦ last_not_below at (i + 1) k ]

pub Order-cases : (o : Order) → (o ≡ below) ⊎ ((o ≡ equal) ⊎ (o ≡ above))
Order-cases below = inl refl
Order-cases equal = inr (inl refl)
Order-cases above = inr (inr refl)

module _ (at : ℕ → Order) (n : ℕ) (ordered : IsOrdered at n) where
  pub behind_mid : (m : ℕ) → at m ≡ below → 1 ≤ m → (i : ℕ) → m - 1 < i → i ≤ n → at i ≡ below
  behind_mid m o h i l u = elim (Bool-cases (i == m)) [
    | inl q ↦ rw ((==_iff i m).0 q) o
    | inr q ↦ ground (arith, ordered m i)
  ]

  pub before_mid : (m : ℕ) → at m ≡ above → m ≤ n → (i : ℕ) → 1 ≤ i → i < m + 1 → at i ≡ above
  before_mid m o h i l u = elim (Bool-cases (i == m)) [
    | inl q ↦ rw ((==_iff i m).0 q) o
    | inr q ↦ ground (arith, ordered i m)
  ]

  -- All keys before `low` are below the value, and all behind `high` above it.
  pub record IsRange (low high : ℕ) : Type 0 where
    pub start : 1 ≤ low
    pub nonempty : low ≤ high
    pub within : high ≤ n
    pub before : (i : ℕ) → 1 ≤ i → i < low → at i ≡ above
    pub behind : (i : ℕ) → high < i → i ≤ n → at i ≡ below

  abbrev pub IsStop : Stop → Type 0
  IsStop (hit m) = (1 ≤ m) × (m ≤ n) × (at m ≡ equal)
  IsStop (range low high) = IsRange low high × (high ≤ low + 1)

  pub narrow-IsStop :
      (k low high : ℕ) → IsRange low high → high ≤ low + k → IsStop (narrow at k low high)
  unfolding narrow
  narrow-IsStop zero low high r h = (r, omega arith)
  narrow-IsStop (suc k) low high r h = elim (Bool-cases (ltb (low + 1) high)) [
    | inr e ↦ rw e (r, ground arith)
    | inl e ↦
        let m : ℕ = (low + high) / 2 in
        let b : low + 1 < high = ground arith in
        elim (Order-cases (at m)) [
          | inl o ↦
              rw (e, o)
                (narrow-IsStop k low (m - 1)
                  (record {
                    start = r.start;
                    nonempty = omega arith;
                    within = omega (arith, r.within);
                    before = r.before;
                    behind = behind_mid m o (omega (arith, r.start));
                  })
                  (omega arith))
          | inr (inl o) ↦ rw (e, o) (omega (arith, r.start), omega (arith, r.within), o)
          | inr (inr o) ↦
              rw (e, o)
                (narrow-IsStop k (m + 1) high
                  (record {
                    start = omega arith;
                    nonempty = omega arith;
                    within = r.within;
                    before = before_mid m o (omega (arith, r.within));
                    behind = r.behind;
                  })
                  (omega arith))
        ]
  ]

  pub whole-IsRange : 1 ≤ n → IsRange 1 n
  whole-IsRange h = record {
    start = omega arith;
    nonempty = h;
    within = omega arith;
    before = λ i a b. absurd (omega arith);
    behind = λ i a b. absurd (omega arith);
  }
