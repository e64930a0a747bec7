-- ===== src/Words.antt =====
-- The bytes of a page and the 32-bit integers that the C code reads and writes in it through
-- pointers to structs: little-endian, as on the machines the program is built for. An `int` is kept
-- as its bit pattern, a number below 2 ^ 32, and its arithmetic is modulo 2 ^ 32.
pub mod Short
pub mod Move
use database_assignment.Prelude.{
  ℕ, ◌+◌, ◌-◌, ◌*◌, ◌/◌, ◌%◌, ◌≤◌, ◌<◌, ◌≡◌, ◌⊎◌, Bool, ◌&&◌, arith, leb, ltb, ◌==◌, if◌then◌else◌,
}

-- the byte at each offset
abbrev pub Bytes : Type 0
Bytes = ℕ → ℕ

abbrev pub word : ℕ
word = 0x1_0000_0000

abbrev pub half_word : ℕ
half_word = 0x8000_0000

-- the pattern of -1
abbrev pub minus_one : ℕ
minus_one = 0xffff_ffff

abbrev pub add32 : ℕ → ℕ → ℕ
add32 a b = (a + b) % word

abbrev pub sub32 : ℕ → ℕ → ℕ
sub32 a b = (a + (word - b % word)) % word

-- a < b, as signed integers
abbrev pub slt : ℕ → ℕ → Bool
slt a b = ltb ((a + half_word) % word) ((b + half_word) % word)

-- the integer at an offset
unfoldable pub load : Bytes → ℕ → ℕ
load p a = p a + 256 * p (a + 1) + 65536 * p (a + 2) + 16777216 * p (a + 3)

-- an assignment to the integer at an offset
unfoldable pub store : ℕ → ℕ → Bytes → Bytes
store a v p x =
    if x == a
    then v % 256
    else if x == a + 1
    then v / 256 % 256
    else if x == a + 2
    then v / 65536 % 256
    else if x == a + 3
    then v / 16777216 % 256
    else p x

-- memcpy(p + to, q + from, n)
unfoldable pub copy : ℕ → Bytes → ℕ → ℕ → Bytes → Bytes
copy to q from n p x = if leb to x && ltb x (to + n) then q (from + (x - to)) else p x

pub load-store : (a v : ℕ) (p : Bytes) → v < word → load (store a v p) a ≡ v
unfolding load store
load-store a v p h = ground arith

pub load-store_ne :
    (a b v : ℕ) (p : Bytes) → (a + 4 ≤ b) ⊎ (b + 4 ≤ a) → load (store a v p) b ≡ load p b
unfolding load store
load-store_ne a b v p h = ground arith

pub store-below : (a v : ℕ) (p : Bytes) (x : ℕ) → x < a → store a v p x ≡ p x
unfolding store
store-below a v p x h = ground arith

pub store-above : (a v : ℕ) (p : Bytes) (x : ℕ) → a + 4 ≤ x → store a v p x ≡ p x
unfolding store
store-above a v p x h = ground arith

pub copy-inside :
    (to : ℕ) (q : Bytes) (from n : ℕ) (p : Bytes) (x : ℕ)
    → x < n
    → copy to q from n p (to + x) ≡ q (from + x)
unfolding copy
copy-inside to q from n p x h = ground arith

pub copy-outside :
    (to : ℕ) (q : Bytes) (from n : ℕ) (p : Bytes) (x : ℕ)
    → (x < to) ⊎ (to + n ≤ x)
    → copy to q from n p x ≡ p x
unfolding copy
copy-outside to q from n p x h = ground arith

-- A copy to the start.
pub copy-start : (q : Bytes) (n : ℕ) (p : Bytes) (x : ℕ) → x < n → copy 0 q 0 n p x ≡ q x
copy-start q n p x h = ground (arith, copy-inside 0 q 0 n p x)

pub load-copy_ne :
    (to : ℕ) (q : Bytes) (from n : ℕ) (p : Bytes) (b : ℕ)
    → (b + 4 ≤ to) ⊎ (to + n ≤ b)
    → load (copy to q from n p) b ≡ load p b
unfolding load
load-copy_ne to q from n p b h = ground (
  arith,
  copy-outside to q from n p b,
  copy-outside to q from n p (b + 1),
  copy-outside to q from n p (b + 2),
  copy-outside to q from n p (b + 3),
)

-- Two pages with the same four bytes hold the same integer there.
pub load-congr :
    (p q : Bytes) (b : ℕ) → ((x : ℕ) → b ≤ x → x < b + 4 → p x ≡ q x) → load p b ≡ load q b
unfolding load
load-congr p q b h = ground (arith, h b, h (b + 1), h (b + 2), h (b + 3))

pub load-from :
    (p q : Bytes) (a b : ℕ) → ((x : ℕ) → x < 4 → p (a + x) ≡ q (b + x)) → load p a ≡ load q b
unfolding load
load-from p q a b h = ground (arith, h 0, h 1, h 2, h 3)
