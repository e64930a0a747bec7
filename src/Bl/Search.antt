-- ===== src/Bl/Search.antt =====
-- The binary search `bs` of bulklayer/blsearch.c.
use database_assignment.Prelude.{
  ℕ, zero, suc, ◌+◌, ◌-◌, ◌/◌, ◌≤◌, ◌<◌, ◌≡◌, ◌⊎◌, inl, inr, refl, Bool, true, false, arith, ltb,
  ◌==◌, Bool-cases,
}
use database_assignment.Words.{word, slt}
use database_assignment.Bl.{bs, bs_loop}

-- The answer to a search for `s` among `n` keys: it is at the index; or it is not there, and the index is
-- the number of keys below it.
abbrev pub IsPlace : (ℕ → ℕ) → ℕ → ℕ → ℕ × Bool → Type 0
IsPlace k n s (p, found) =
    ((found ≡ true) × (p < n) × (k p ≡ s))
    ⊎ ((found ≡ false)
        × (p ≤ n)
        × ((x : ℕ) → x < p → slt (k x) s ≡ true)
        × ((x : ℕ) → p ≤ x → x < n → slt s (k x) ≡ true))

-- The keys do not decrease.
abbrev pub IsSorted : (ℕ → ℕ) → ℕ → Type 0
IsSorted k n = (i j : ℕ) → i ≤ j → j < n → slt (k j) (k i) ≡ false

pub slt_irrefl : (a : ℕ) → slt a a ≡ false
slt_irrefl a = ground arith

pub slt_asym : (a b : ℕ) → slt a b ≡ true → slt b a ≡ false
slt_asym a b h = ground arith

slt_trans_left : (a b s : ℕ) → slt b a ≡ false → slt b s ≡ true → slt a s ≡ true
slt_trans_left a b s h l = ground arith

slt_trans_right : (a b s : ℕ) → slt b a ≡ false → slt s a ≡ true → slt s b ≡ true
slt_trans_right a b s h l = ground arith

slt_other : (a s : ℕ) → a < word → s < word → (a == s) ≡ false → slt a s ≡ false → slt s a ≡ true
slt_other a s x y h l = ground arith

module _ (k : ℕ → ℕ) (n s : ℕ) (sorted : IsSorted k n) (words : (i : ℕ) → i < n → k i < word)
    (small : s < word) where
  bs_loop-IsPlace :
      (fuel l hi : ℕ)
      → l ≤ hi
      → hi ≤ l + fuel
      → hi ≤ n
      → ((x : ℕ) → x < l → slt (k x) s ≡ true)
      → ((x : ℕ) → hi ≤ x → x < n → slt s (k x) ≡ true)
      → IsPlace k n s (bs_loop fuel k s l hi)
  unfolding bs_loop
  bs_loop-IsPlace zero l hi a b c low high =
      inr (refl, omega arith, low, λ x d e. high x (omega arith) e)
  bs_loop-IsPlace (suc fuel) l hi a b c low high = elim (Bool-cases (ltb l hi)) [
    | inr e ↦ rw e (inr (refl, omega arith, low, λ x d f. high x (ground arith) f))
    | inl e ↦
        let m = (l + (hi - 1)) / 2 in
        let within : l < hi = ground arith in
        let inside : (l ≤ m) × (m < hi) = (omega arith, omega arith) in
        elim (Bool-cases (k m == s)) [
          | inl f ↦ rw (e, f) (inl (refl, omega (arith, inside), ground arith))
          | inr f ↦ elim (Bool-cases (slt (k m) s)) [
            | inl g ↦
                rw (e, f, g)
                  (bs_loop-IsPlace fuel (m + 1) hi (omega (arith, inside)) (omega (arith, inside)) c
                    (λ x d.
                      slt_trans_left (k x) (k m) s
                        (sorted x m (omega arith) (omega (arith, inside))) g)
                    high)
            | inr g ↦
                let above = slt_other (k m) s (words m (omega (arith, inside))) small f g in
                rw (e, f, g)
                  (bs_loop-IsPlace fuel l m inside.0 (omega (arith, inside)) (omega (arith, inside))
                    low (λ x d o. slt_trans_right (k m) (k x) s (sorted m x d o) above))
          ]
        ]
  ]

  -- Among keys that do not decrease as signed integers, bs either says that the key is there, and
  -- the element at its index is the key; or it says that it is not there, and all elements before
  -- its index are below the key, and all others above it.
  pub bs-IsPlace : IsPlace k n s (bs k n s)
  unfolding bs
  bs-IsPlace =
      bs_loop-IsPlace n 0 n (omega arith) (omega arith) (omega arith) (λ x d. absurd (omega arith))
        (λ x d e. absurd (omega arith))
