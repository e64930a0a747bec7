-- ===== src/Words/Short.antt =====
-- The 16-bit integers that the index pages of amlayer/ hold, little-endian. A `short` is kept as its
-- bit pattern, a number below 2 ^ 16.
use database_assignment.Prelude.{
  ℕ, ◌+◌, ◌-◌, ◌*◌, ◌/◌, ◌%◌, ◌≤◌, ◌<◌, ◌≡◌, ◌⊎◌, arith, ◌==◌, if◌then◌else◌,
}
use database_assignment.Words.{Bytes, load, store, copy, copy-outside}

abbrev pub short : ℕ
short = 0x1_0000

abbrev pub add16 : ℕ → ℕ → ℕ
add16 a b = (a + b) % short

abbrev pub sub16 : ℕ → ℕ → ℕ
sub16 a b = (a + (short - b % short)) % short

-- the short at an offset
unfoldable pub load16 : Bytes → ℕ → ℕ
load16 p a = p a + 256 * p (a + 1)

-- an assignment to the short at an offset
unfoldable pub store16 : ℕ → ℕ → Bytes → Bytes
store16 a v p x = if x == a then v % 256 else if x == a + 1 then v / 256 % 256 else p x

pub load16-store16 : (a v : ℕ) (p : Bytes) → v < short → load16 (store16 a v p) a ≡ v
unfolding load16 store16
load16-store16 a v p h = ground arith

pub load16-store16_ne :
    (a b v : ℕ) (p : Bytes) → (a + 2 ≤ b) ⊎ (b + 2 ≤ a) → load16 (store16 a v p) b ≡ load16 p b
unfolding load16 store16
load16-store16_ne a b v p h = ground arith

pub load16-store_ne :
    (a b v : ℕ) (p : Bytes) → (a + 4 ≤ b) ⊎ (b + 2 ≤ a) → load16 (store a v p) b ≡ load16 p b
unfolding load16 store
load16-store_ne a b v p h = ground arith

pub load-store16_ne :
    (a b v : ℕ) (p : Bytes) → (a + 2 ≤ b) ⊎ (b + 4 ≤ a) → load (store16 a v p) b ≡ load p b
unfolding load store16
load-store16_ne a b v p h = ground arith

pub store16-outside : (a v : ℕ) (p : Bytes) (x : ℕ) → (x < a) ⊎ (a + 2 ≤ x) → store16 a v p x ≡ p x
unfolding store16
store16-outside a v p x h = ground arith

pub load16-congr :
    (p q : Bytes) (a b : ℕ) → p a ≡ q b → p (a + 1) ≡ q (b + 1) → load16 p a ≡ load16 q b
unfolding load16
load16-congr p q a b h k = omega (arith, h, k)

pub load16-copy_ne :
    (to : ℕ) (q : Bytes) (from n : ℕ) (p : Bytes) (b : ℕ)
    → (b + 2 ≤ to) ⊎ (to + n ≤ b)
    → load16 (copy to q from n p) b ≡ load16 p b
unfolding load16
load16-copy_ne to q from n p b h =
    ground (arith, copy-outside to q from n p b, copy-outside to q from n p (b + 1))
