-- ===== src/Am/Leaf/Shared.antt =====
-- The lists of a leaf when AM_DeleteEntry in amlayer/amfns.c has put a cell on the free list: still no
-- cell stands twice in them.
use database_assignment.Prelude.{
  ℕ, ◌≤◌, ◌≡◌, ◌≢◌, ◌⊎◌, inl, inr, refl, sym, ◌∙◌, true, false, List, ◌∷◌, arith, ◌==◌, member,
  member-cons, remove, member-remove, distinct, distinct-cons, distinct-remove, if◌then◌else◌,
  Bool-cases, ==_iff,
}
use database_assignment.Words.{Bytes}
use database_assignment.Am.Leaf.View.{IsCell, IsBody}

-- the cell `c` of the key `index` in front of the free list
abbrev pub freed : ℕ → ℕ → (ℕ → List ℕ) → ℕ → List ℕ
freed c index lists i =
    if i == 0 then c ∷ lists 0 else if i == index then remove c (lists index) else lists i

module _ (len : ℕ) (p : Bytes) (rec key free count n : ℕ) (lists : ℕ → List ℕ)
    (v : IsBody len p rec key free count n lists) (index c : ℕ) (start : 1 ≤ index)
    (within : index ≤ n) (here : member c (lists index) ≡ true) where
  abbrev to : ℕ → List ℕ
  to = freed c index lists

  -- `c` is in no other list
  elsewhere : (i d : ℕ) → i ≤ n → i ≢ index → member d (lists i) ≡ true → d ≢ c
  elsewhere i d b ne m e = ne (v.alone i index d b within m (rw e here))

  member-freed :
      (i d : ℕ)
      → i ≤ n
      → member d (to i) ≡ true
      → ((d ≡ c) × (i ≡ 0)) ⊎ ((member d (lists i) ≡ true) × (d ≢ c))
  member-freed i d b m = elim (Bool-cases (i == 0)) [
    | inl e ↦
        let z : i ≡ 0 = (==_iff i 0).0 e in
        let m' : member d (c ∷ lists 0) ≡ true = rw e at m in
        elim (Bool-cases (d == c)) [
          | inl f ↦ inl ((==_iff d c).0 f, z)
          | inr f ↦
              let k : member d (lists 0) ≡ true = ground (arith, member-cons d c (lists 0)) in
              inr (rw z k, λ g. ground arith)
        ]
    | inr e ↦ elim (Bool-cases (i == index)) [
      | inl f ↦
          let q : i ≡ index = (==_iff i index).0 f in
          let m' : member d (remove c (lists index)) ≡ true = rw (e, f) at m in
          inr (
            rw q (ground (arith, member-remove d c (lists index))),
            λ g. ground (arith, member-remove d c (lists index)),
          )
      | inr f ↦
          let m' : member d (lists i) ≡ true = rw (e, f) at m in
          inr (m', elsewhere i d b (λ q. ground arith) m')
    ]
  ]

  pub alone-freed :
      (i j d : ℕ) → i ≤ n → j ≤ n → member d (to i) ≡ true → member d (to j) ≡ true → i ≡ j
  alone-freed i j d a b k m = elim (member-freed i d a k) [
    | inl (e, z) ↦ elim (member-freed j d b m) [
      | inl (f, y) ↦ z ∙ sym y
      | inr (f, y) ↦ elim (y e) [ ]
    ]
    | inr (e, z) ↦ elim (member-freed j d b m) [
      | inl (f, y) ↦ elim (z f) [ ]
      | inr (f, y) ↦ v.alone i j d a b e f
    ]
  ]

  pub once-freed : (i : ℕ) → i ≤ n → distinct (to i) ≡ true
  once-freed i b = elim (Bool-cases (i == 0)) [
    | inl e ↦
        let absent : member c (lists 0) ≡ false = elim (Bool-cases (member c (lists 0))) [
          | inl m ↦ elim (elsewhere 0 c (omega arith) (λ q. omega arith) m refl) [ ]
          | inr m ↦ m
        ] in
        rw e (ground (arith, distinct-cons c (lists 0), v.once 0))
    | inr e ↦ elim (Bool-cases (i == index)) [
      | inl f ↦ rw (e, f) (distinct-remove c (lists index) (v.once index within))
      | inr f ↦ rw (e, f) (v.once i b)
    ]
  ]

  pub IsCell-freed : (i d : ℕ) → i ≤ n → member d (to i) ≡ true → IsCell rec d
  IsCell-freed i d b m = elim (member-freed i d b m) [
    | inl (e, z) ↦ rw e (v.cell index c within here)
    | inr (k, ne) ↦ v.cell i d b k
  ]
