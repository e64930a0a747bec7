-- ===== src/Am/Search/Leaf.antt =====
-- AM_SearchLeaf of amlayer/amsearch.c finds what a linear search of the leaf finds.
use database_assignment.Prelude.{
  ℕ, zero, suc, ◌+◌, ◌≤◌, ◌<◌, ◌≡◌, ◌≢◌, inl, inr, refl, sym, ap, ◌∙◌, Bool, true, false, some, ltb,
  ◌==◌, if◌then◌else◌, arith, Bool-cases,
}
use database_assignment.Am.{Order, below, above}
use database_assignment.Am.Search.{Stop, hit, range, narrow, leaf_border, search_keys}
use database_assignment.Am.Search.Linear.{
  IsOrdered, first_not_above, is_equal, linear_leaf, Order-cases, before_mid, IsStop, narrow-IsStop,
  whole-IsRange,
}

some-inj : {x y : ℕ × Bool} → some x ≡ some y → x ≡ y
some-inj h = cc

-- `r` is the first key that the value is not above, and `found` tells whether it is equal.
unfoldable pub IsRank : (ℕ → Order) → ℕ → ℕ × Bool → Type 0
IsRank at n (r, found) =
    (1 ≤ r)
    × (r ≤ n + 1)
    × ((i : ℕ) → 1 ≤ i → i < r → at i ≡ above)
    × ((if ltb n r then false else is_equal (at r)) ≡ found)
    × (r ≤ n → at r ≢ above)

first_not_above_lem :
    (at : ℕ → Order) (i k r : ℕ)
    → i ≤ r
    → r ≤ i + k
    → ((j : ℕ) → i ≤ j → j < r → at j ≡ above)
    → (r < i + k → at r ≢ above)
    → first_not_above at i k ≡ r
unfolding first_not_above
first_not_above_lem at i zero r h l a b = omega arith
first_not_above_lem at i (suc k) r h l a b = elim (Bool-cases (i == r)) [
  | inl e ↦ ground (arith, Order-cases (at i))
  | inr e ↦
      rw (a i (omega arith) (ground arith), first_not_above)
        (first_not_above_lem at (i + 1) k r (ground arith) (omega arith) (λ j m. a j (omega arith))
          (λ m. b (omega arith)))
]

linear_leaf_lem :
    (at : ℕ → Order) (n r : ℕ) (found : Bool)
    → IsRank at n (r, found)
    → linear_leaf at n ≡ (r, found)
unfolding linear_leaf IsRank
linear_leaf_lem at n r found (a, b, c, d, e) =
    rw (first_not_above_lem at 1 n r a (omega arith) c (λ l. e (omega arith)))
      (ap (λ (f : Bool). (r, f)) d)

module _ (at : ℕ → Order) (n : ℕ) (ordered : IsOrdered at n) where
  -- A stop at a key, or behind it.
  IsRank-here :
      (r : ℕ) (found : Bool)
      → 1 ≤ r
      → r ≤ n
      → at r ≢ above
      → is_equal (at r) ≡ found
      → ((i : ℕ) → 1 ≤ i → i < r → at i ≡ above)
      → IsRank at n (r, found)
  unfolding IsRank
  IsRank-here r found a b c d before =
      let e : ltb n r ≡ false = ground arith in (a, omega arith, before, rw e d, λ _. c)

  IsRank-behind :
      (r : ℕ)
      → at r ≡ above
      → r ≤ n
      → ((i : ℕ) → r < i → i ≤ n → at i ≡ below)
      → IsRank at n (r + 1, false)
  unfolding IsRank
  IsRank-behind r o h behind = (
    omega arith,
    omega arith,
    before_mid at n ordered r o h,
    elim (Bool-cases (ltb n (r + 1))) [
      | inl e ↦ rw e
      | inr e ↦ rw (e, behind (r + 1) (omega arith) (ground arith))
    ],
    λ l. ground (arith, behind (r + 1)),
  )

  -- what the border cases of AM_SearchLeaf answer
  leaf_border-IsRank :
      (s : Stop)
      → IsStop at n ordered s
      → (x : ℕ × Bool) × (leaf_border at s ≡ some x) × IsRank at n x
  unfolding leaf_border
  leaf_border-IsRank (hit m) (a, b, c) = (
    (m, true),
    refl,
    IsRank-here m true a b (ground arith) (rw c) (λ i h l. ground (arith, ordered i m)),
  )
  leaf_border-IsRank (range low high) (r, h) = elim (Bool-cases (high == low)) [
    | inl e ↦
        let b : low ≤ n = ground (arith, r.within) in
        elim (Order-cases (at low)) [
          | inl o ↦
              rw (e, o)
                ((low, false), refl, IsRank-here low false r.start b (ground arith) (rw o) r.before)
          | inr (inl o) ↦
              rw (e, o)
                ((low, true), refl, IsRank-here low true r.start b (ground arith) (rw o) r.before)
          | inr (inr o) ↦
              rw (e, o)
                ((low + 1, false), refl, IsRank-behind low o b (λ i l. r.behind i (ground arith)))
        ]
    | inr e ↦
        let f : (high == low + 1) ≡ true = ground (arith, r.nonempty) in
        let g : high ≡ low + 1 = ground arith in
        let b : low + 1 ≤ n = omega (arith, r.within) in
        elim (Order-cases (at low)) [
          | inl o ↦
              rw (e, f, o)
                (
                  (low, false),
                  refl,
                  IsRank-here low false r.start (omega arith) (ground arith) (rw o) r.before,
                )
          | inr (inl o) ↦
              rw (e, f, o)
                (
                  (low, true),
                  refl,
                  IsRank-here low true r.start (omega arith) (ground arith) (rw o) r.before,
                )
          | inr (inr o) ↦
              let before = before_mid at n ordered low o (omega arith) in
              elim (Order-cases (at (low + 1))) [
                | inl q ↦
                    rw (e, f, o, q)
                      (
                        (low + 1, false),
                        refl,
                        IsRank-here (low + 1) false (omega arith) b (ground arith) (rw q) before,
                      )
                | inr (inl q) ↦
                    rw (e, f, o, q)
                      (
                        (low + 1, true),
                        refl,
                        IsRank-here (low + 1) true (omega arith) b (ground arith) (rw q) before,
                      )
                | inr (inr q) ↦
                    let t : (low + 1) + 1 ≡ low + 2 = omega arith in
                    rw (e, f, o, q)
                      (
                        (low + 2, false),
                        refl,
                        rw (← t) (IsRank-behind (low + 1) q b (λ i l. r.behind i (omega arith))),
                      )
              ]
        ]
  ]

  pub search_keys-IsRank : (x : ℕ × Bool) × (search_keys at n ≡ some x) × IsRank at n x
  unfolding search_keys IsRank
  search_keys-IsRank = elim (Bool-cases (n == 0)) [
    | inl e ↦
        let z : n ≡ 0 = ground arith in
        rw e (
          (1, false),
          refl,
          (
            omega arith,
            omega arith,
            λ i a b. absurd (omega arith),
            rw z refl,
            λ l. absurd (omega (arith, l)),
          ),
        )
    | inr e ↦
        let (x, eq, rank) = leaf_border-IsRank (narrow at n 1 n) (
          narrow-IsStop at n ordered n 1 n (whole-IsRange at n ordered (ground arith))
            (omega arith)) in
        rw e (x, eq, rank)
  ]

  pub search_keys_lem : search_keys at n ≡ some (linear_leaf at n)
  search_keys_lem =
      let (x, e, rank) = search_keys-IsRank in e ∙ ap some (sym (linear_leaf_lem at n x.0 x.1 rank))

  pub IsRank-search_keys :
      (r : ℕ) (found : Bool) → search_keys at n ≡ some (r, found) → IsRank at n (r, found)
  IsRank-search_keys r found h =
      let (x, e, rank) = search_keys-IsRank in
      let q : x ≡ (r, found) = some-inj (sym e ∙ h) in rw q at rank

  pub search_keys_found :
      (r : ℕ) (found : Bool) → IsRank at n (r, found) → search_keys at n ≡ some (r, found)
  search_keys_found r found rank = search_keys_lem ∙ ap some (linear_leaf_lem at n r found rank)
