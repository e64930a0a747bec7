-- ===== src/Words/Move.antt =====
-- A loop that moves the records of a table up by one place, from the last one on, as amlayer/ does
-- in its leaves and in its internal nodes.
use database_assignment.Prelude.{
  ℕ, zero, suc, ◌+◌, ◌-◌, ◌*◌, ◌≤◌, ◌<◌, ◌≡◌, ◌⊎◌, inl, inr, refl, ◌∙◌, arith, dec_lt,
}
use database_assignment.Words.{Bytes, copy, copy-outside, copy-inside}

-- `k` records of `size` bytes, from the offset `at` on
unfoldable pub move_up : ℕ → ℕ → ℕ → Bytes → Bytes
move_up size at zero p = p
move_up size at (suc k) p = move_up size at k (copy (at + k * size + size) p (at + k * size) size p)

module _ (size at : ℕ) where
  pub move_up-outside :
      (k : ℕ) (p : Bytes) (x : ℕ)
      → (x < at + size) ⊎ (at + size + k * size ≤ x)
      → move_up size at k p x ≡ p x
  unfolding move_up
  move_up-outside zero p x h = refl
  move_up-outside (suc k) p x h =
      let e : suc k * size ≡ k * size + size = grind arith in
      move_up-outside k (copy (at + k * size + size) p (at + k * size) size p) x (omega (arith, e))
      ∙ copy-outside (at + k * size + size) p (at + k * size) size p x (omega (arith, e))

  pub move_up-inside :
      (k : ℕ) (p : Bytes) (x : ℕ)
      → at + size ≤ x
      → x < at + size + k * size
      → move_up size at k p x ≡ p (x - size)
  unfolding move_up
  move_up-inside zero p x h l = omega arith
  move_up-inside (suc k) p x h l =
      let to : ℕ = at + k * size + size in
      let from : ℕ = at + k * size in
      let p' = copy to p from size p in
      let e : suc k * size ≡ k * size + size = grind arith in
      elim (dec_lt x to) [
        | yes m ↦
            move_up-inside k p' x h (omega arith)
            ∙ copy-outside to p from size p (x - size) (inl (omega arith))
        | no m ↦
            let a : to + (x - to) ≡ x = omega arith in
            let b : from + (x - to) ≡ x - size = omega arith in
            move_up-outside k p' x (inr (omega arith))
            ∙ rw (a, b) at (copy-inside to p from size p (x - to) (omega (arith, e)))
      ]

-- The loop the other way: `k` records of `size` bytes, of which the first one goes to the offset `at`
unfoldable pub move_down : ℕ → ℕ → ℕ → Bytes → Bytes
move_down size at zero p = p
move_down size at (suc k) p = move_down size (at + size) k (copy at p (at + size) size p)

module _ (size : ℕ) where
  pub move_down-outside :
      (k at : ℕ) (p : Bytes) (x : ℕ)
      → (x < at) ⊎ (at + k * size ≤ x)
      → move_down size at k p x ≡ p x
  unfolding move_down
  move_down-outside zero at p x h = refl
  move_down-outside (suc k) at p x h =
      let e : suc k * size ≡ k * size + size = grind arith in
      move_down-outside k (at + size) (copy at p (at + size) size p) x (omega (arith, e))
      ∙ copy-outside at p (at + size) size p x (omega (arith, e))

  pub move_down-inside :
      (k at : ℕ) (p : Bytes) (x : ℕ)
      → at ≤ x
      → x < at + k * size
      → move_down size at k p x ≡ p (x + size)
  unfolding move_down
  move_down-inside zero at p x h l = absurd (omega arith)
  move_down-inside (suc k) at p x h l =
      let p' = copy at p (at + size) size p in
      let e : suc k * size ≡ k * size + size = grind arith in
      elim (dec_lt x (at + size)) [
        | yes m ↦
            let a : at + (x - at) ≡ x = omega arith in
            let b : at + size + (x - at) ≡ x + size = omega arith in
            move_down-outside k (at + size) p' x (inl m)
            ∙ rw (a, b) at (copy-inside at p (at + size) size p (x - at) (omega arith))
        | no m ↦
            move_down-inside k (at + size) p' x (omega arith) (omega (arith, e))
            ∙ copy-outside at p (at + size) size p (x + size) (inr (omega arith))
      ]
