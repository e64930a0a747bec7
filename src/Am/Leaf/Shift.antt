-- ===== src/Am/Leaf/Shift.antt =====
-- The loop of AM_InsertToLeafNotFound in amlayer/aminsert.c: it moves the keys from `index` on, with
-- their list heads, up by one place.
use database_assignment.Prelude.{ℕ, zero, suc, ◌+◌, ◌-◌, ◌*◌, ◌≤◌, ◌<◌, ◌≡◌, ◌⊎◌, refl, arith}
use database_assignment.Words.{Bytes, copy}
use database_assignment.Words.Move.{move_up, move_up-outside, move_up-inside}
use database_assignment.Am.{key_at}
use database_assignment.Am.Leaf.{shift_up}

pub key_at-plus : (len i k : ℕ) → 1 ≤ i → key_at len (i + k) ≡ key_at len i + k * (len + 2)
key_at-plus len i k h = grind arith

module _ (len index : ℕ) (start : 1 ≤ index) where
  -- the place to which a round copies
  to_lem : (k : ℕ) → key_at len (index + k + 1) ≡ key_at len index + k * (len + 2) + (len + 2)
  to_lem k =
      let e : suc k * (len + 2) ≡ k * (len + 2) + (len + 2) = grind arith in
      let f : index + k + 1 ≡ index + suc k = omega arith in
      rw f (omega (arith, key_at-plus len index (suc k) start, e))

  shift_up-move :
      (k : ℕ) (p : Bytes) → shift_up len index k p ≡ move_up (len + 2) (key_at len index) k p
  unfolding shift_up move_up
  shift_up-move zero p = refl
  shift_up-move (suc k) p =
      rw (to_lem k, key_at-plus len index k start)
        (shift_up-move k (
          copy (key_at len index + k * (len + 2) + (len + 2)) p (key_at len index + k * (len + 2))
            (len + 2) p))

  pub shift_up-outside :
      (k : ℕ) (p : Bytes) (x : ℕ)
      → (x < key_at len index + (len + 2)) ⊎ (key_at len index + (len + 2) + k * (len + 2) ≤ x)
      → shift_up len index k p x ≡ p x
  shift_up-outside k p x h =
      rw (shift_up-move k p) (move_up-outside (len + 2) (key_at len index) k p x h)

  pub shift_up-inside :
      (k : ℕ) (p : Bytes) (x : ℕ)
      → key_at len index + (len + 2) ≤ x
      → x < key_at len index + (len + 2) + k * (len + 2)
      → shift_up len index k p x ≡ p (x - (len + 2))
  shift_up-inside k p x h l =
      rw (shift_up-move k p) (move_up-inside (len + 2) (key_at len index) k p x h l)
