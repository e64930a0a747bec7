-- ===== src/Am/Search/Child.antt =====
-- AM_BinSearch of amlayer/amsearch.c follows the page number that a linear search of the node follows.
use database_assignment.Prelude.{
  ℕ, zero, suc, ◌+◌, ◌-◌, ◌≤◌, ◌<◌, ◌≡◌, ◌≢◌, inl, inr, sym, ap, true, Option, some, ◌==◌, arith,
  Bool-cases, ==_iff,
}
use database_assignment.Am.{Order, below, above}
use database_assignment.Am.Search.{Stop, hit, range, narrow, int_border, child_index}
use database_assignment.Am.Search.Linear.{
  IsOrdered, last_not_below, Order-cases, IsStop, narrow-IsStop, whole-IsRange,
}

last_not_below_lem :
    (at : ℕ → Order) (i k c : ℕ)
    → 1 ≤ i
    → i ≤ c + 1
    → c < i + k
    → ((j : ℕ) → i ≤ j → j ≤ c → at j ≢ below)
    → (c + 1 < i + k → at (c + 1) ≡ below)
    → last_not_below at i k ≡ c
unfolding last_not_below
last_not_below_lem at i zero c p h l a b = omega arith
last_not_below_lem at i (suc k) c p h l a b = elim (Bool-cases (i == c + 1)) [
  | inl e ↦
      let q : i ≡ c + 1 = (==_iff i (c + 1)).0 e in
      let o : at i ≡ below = rw q (b (omega (arith, q))) in
      rw (o, last_not_below) (omega (arith, q))
  | inr e ↦
      let rest =
        last_not_below_lem at (i + 1) k c (omega arith) (ground arith) (omega arith)
          (λ j m. a j (omega arith)) (λ m. b (omega arith)) in
      elim (Order-cases (at i)) [
        | inl o ↦ absurd (a i (omega arith) (ground arith) o)
        | inr (inl o) ↦ rw (o, last_not_below) rest
        | inr (inr o) ↦ rw (o, last_not_below) rest
      ]
]

module _ (at : ℕ → Order) (n : ℕ) (ordered : IsOrdered at n) where
  -- The value is below the key behind `c`, and not below the key `c`.
  child_lem :
      (c : ℕ)
      → c ≤ n
      → (1 ≤ c → at c ≢ below)
      → (c + 1 ≤ n → at (c + 1) ≡ below)
      → last_not_below at 1 n ≡ c
  child_lem c h a b =
      last_not_below_lem at 1 n c (omega arith) (omega arith) (omega arith) before
        (λ m. b (omega arith))
    where
      before : (j : ℕ) → 1 ≤ j → j ≤ c → at j ≢ below
      before j l m = elim (Bool-cases (j == c)) [
        | inl q ↦ rw ((==_iff j c).0 q) (a (omega arith))
        | inr q ↦ ground (arith, ordered j c, a)
      ]

  -- the last comparison, with the key behind `low`
  upper :
      (low : ℕ)
      → low + 1 ≤ n
      → at low ≢ below
      → ((i : ℕ) → low + 1 < i → i ≤ n → at i ≡ below)
      → elim (at (low + 1)) as (λ _. Option ℕ) [ below ↦ some low | _ ↦ some (low + 1) ]
        ≡ some (last_not_below at 1 n)
  upper low b ne behind = elim (Order-cases (at (low + 1))) [
    | inl q ↦ rw q (ap some (sym (child_lem low (omega arith) (λ _. ne) (λ _. q))))
    | inr (inl q) ↦ rw q (
        ap some (
          sym (
            child_lem (low + 1) b (λ _. ground arith) (λ l. behind (low + 1 + 1) (omega arith) l))))
    | inr (inr q) ↦ rw q (
        ap some (
          sym (
            child_lem (low + 1) b (λ _. ground arith) (λ l. behind (low + 1 + 1) (omega arith) l))))
  ]

  int_border-child :
      (s : Stop) → IsStop at n ordered s → int_border at s ≡ some (last_not_below at 1 n)
  unfolding int_border
  int_border-child (hit m) (a, b, c) =
      ap some (sym (child_lem m b (λ _. ground arith) (λ l. ground (arith, ordered m (m + 1)))))
  int_border-child (range low high) (r, h) = elim (Bool-cases (high == low)) [
    | inl e ↦
        let b : low ≤ n = ground (arith, r.within) in
        let f : high ≡ low = ground arith in
        elim (Order-cases (at low)) [
          | inl o ↦ rw (e, o) (ap some (sym (down low b r.start o r.before)))
          | inr (inl o) ↦
              rw (e, o)
                (ap some (
                  sym (
                    child_lem low b (λ _. ground arith)
                      (λ l. r.behind (low + 1) (omega (arith, f)) l))))
          | inr (inr o) ↦
              rw (e, o)
                (ap some (
                  sym (
                    child_lem low b (λ _. ground arith)
                      (λ l. r.behind (low + 1) (omega (arith, f)) l))))
        ]
    | inr e ↦
        let f : (high == low + 1) ≡ true = ground (arith, r.nonempty) in
        let b : low + 1 ≤ n = ground (arith, r.within) in
        let g : high ≡ low + 1 = ground arith in
        elim (Order-cases (at low)) [
          | inl o ↦ rw (e, f, o) (ap some (sym (down low (omega arith) r.start o r.before)))
          | inr (inl o) ↦
              rw (e, f, o) (upper low b (ground arith) (λ i l. r.behind i (omega arith)))
          | inr (inr o) ↦
              rw (e, f, o) (upper low b (ground arith) (λ i l. r.behind i (omega arith)))
        ]
  ]
    where
      down :
          (l : ℕ)
          → l ≤ n
          → 1 ≤ l
          → at l ≡ below
          → ((i : ℕ) → 1 ≤ i → i < l → at i ≡ above)
          → last_not_below at 1 n ≡ l - 1
      down l b s o before =
          child_lem (l - 1) (omega arith) (λ t. ground (arith, before (l - 1)))
            (λ t. let q : (l - 1) + 1 ≡ l = omega arith in rw q o)

  pub child_index_lem : 1 ≤ n → child_index at n ≡ some (last_not_below at 1 n)
  unfolding child_index
  child_index_lem h =
      int_border-child (narrow at n 1 n)
        (narrow-IsStop at n ordered n 1 n (whole-IsRange at n ordered h) (omega arith))
