-- ===== src/Bl/Choose.antt =====
-- An internal page of bulklayer/: the child that BL_Search chooses; and the slot that BL_GetNext finds
-- in a leaf.
use database_assignment.Prelude.{
  ℕ, zero, suc, ◌+◌, ◌-◌, ◌≤◌, ◌<◌, ◌≡◌, ◌⊎◌, inl, inr, refl, Bool, true, false, some, none, arith,
  ltb, ◌==◌, ◌||◌, dec_lt, Bool-cases, if◌then◌else◌,
}
use database_assignment.Words.{Bytes, word, slt, load}
use database_assignment.Bl.{
  num_keys_at, internal_key, internal_ptr, leaf_key, key_count, bs, sc, choose_child,
}
use database_assignment.Bl.Scan.{scan_slots}
use database_assignment.Bl.Search.{slt_irrefl, slt_asym, IsPlace, IsSorted, bs-IsPlace}

-- The key is not below any key before the child `c`, and not above that of the child, unless it is the
-- last one.
abbrev pub IsChild : Bytes → ℕ → ℕ → ℕ → Type 0
IsChild p n k c =
    (c < n)
    × ((x : ℕ) → x < c → slt k (internal_key p x) ≡ false)
    × ((c + 1 ≡ n) ⊎ (slt (internal_key p c) k ≡ false))

place-IsChild :
    (p : Bytes) (n k : ℕ)
    → 1 ≤ n
    → IsSorted (internal_key p) n
    → (r : ℕ × Bool) → IsPlace (internal_key p) n k r
    → IsChild p n k (if ltb r.0 n then r.0 else n - 1)
place-IsChild p n k o s (x, found) (inl (e, l, f)) =
    let b : ltb x n ≡ true = ground arith in
    rw b (l, λ y m. rw f at (s y x (omega arith) l), inr (rw f (slt_irrefl k)))
place-IsChild p n k o s (x, found) (inr (e, l, low, high)) = elim (dec_lt x n) [
  | yes m ↦
      let b : ltb x n ≡ true = ground arith in
      rw b (
        m,
        λ y t. slt_asym (internal_key p y) k (low y t),
        inr (slt_asym k (internal_key p x) (high x (omega arith) m)),
      )
  | no m ↦
      let b : ltb x n ≡ false = ground arith in
      rw b
        (omega arith, λ y t. slt_asym (internal_key p y) k (low y (omega arith)), inl (omega arith))
]

-- On an internal page with a key at least and no more than there is room for, whose keys do not
-- decrease, BL_Search goes to a child such that the key is not below any of the keys before it,
-- and not above the key of this child, unless it is the last one.
pub choose_child-IsChild :
    (p : Bytes) (n k : ℕ)
    → load p num_keys_at ≡ n
    → 1 ≤ n
    → n ≤ 510
    → IsSorted (internal_key p) n
    → ((i : ℕ) → i < n → internal_key p i < word)
    → k < word
    → (c : ℕ) × IsChild p n k c × (choose_child p k ≡ some (internal_ptr p c))
unfolding choose_child
choose_child-IsChild p n k e o h s words w =
    let count : key_count (load p num_keys_at) ≡ n = rw e (ground arith) in
    let fits : (ltb 510 n || (n == 0)) ≡ false = ground arith in
    let r = bs (internal_key p) n k in
    (
      if ltb r.0 n then r.0 else n - 1,
      place-IsChild p n k o s r (bs-IsPlace (internal_key p) n k s words w),
      rw (count, fits) refl,
    )

-- The loop of BL_GetNext over the slots of a leaf, from a slot on, finds the first one whose key
-- passes the test of the scan, and finds none if and only if no key passes it.
pub scan_slots_lem :
    (p : Bytes) (op key slot k : ℕ)
    → ((scan_slots p op key slot k ≡ none)
        × ((j : ℕ) → slot ≤ j → j < slot + k → sc (leaf_key p j) op key ≡ false))
      ⊎ ((j : ℕ) × (scan_slots p op key slot k ≡ some j)
          × (slot ≤ j)
          × (j < slot + k)
          × (sc (leaf_key p j) op key ≡ true)
          × ((x : ℕ) → slot ≤ x → x < j → sc (leaf_key p x) op key ≡ false))
unfolding scan_slots
scan_slots_lem p op key slot zero = inl (refl, λ j a b. absurd (omega arith))
scan_slots_lem p op key slot (suc k) = elim (Bool-cases (sc (leaf_key p slot) op key)) [
  | inl e ↦ rw e (inr (slot, refl, omega arith, omega arith, e, λ x a b. absurd (omega arith)))
  | inr e ↦ elim (scan_slots_lem p op key (slot + 1) k) [
    | inl (a, b) ↦
        rw (e, a)
          (inl (
            refl,
            λ j s t. elim (dec_lt slot j) [
              | yes l ↦ b j (omega arith) (omega arith)
              | no l ↦ (let f : j ≡ slot = omega arith in rw f e)
            ],
          ))
    | inr (j, a, b, c, d, h) ↦
        rw (e, a)
          (inr (
            j,
            refl,
            omega arith,
            omega arith,
            d,
            λ x s t. elim (dec_lt slot x) [
              | yes l ↦ h x (omega arith) t
              | no l ↦ (let f : x ≡ slot = omega arith in rw f e)
            ],
          ))
  ]
]
