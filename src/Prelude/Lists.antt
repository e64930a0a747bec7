-- ===== src/Prelude/Lists.antt =====
-- Lists measured by native numbers, and lists of numbers without repetition.
use Prim.Native.Nat.{ℕ, zero, suc, ◌+◌, ◌≤◌, ◌<◌}
use mathlib.Core.Path.{◌≡◌, refl}
use mathlib.Core.List.{List, [], ◌∷◌, ◌++◌, reverse, reverse-append}
use mathlib.Core.Bool.{Bool, true, false, not, ◌&&◌, ◌||◌}
use native.Mathlib.Omega.{arith}
use database_assignment.Prelude.Tests.{◌==◌, if◌then◌else◌}

module _ {ℓ} {A : Type ℓ} where
  abbrev pub length : List A → ℕ
  length [] = 0
  length (x ∷ xs) = suc (length xs)

-- Membership as a test.
pub member : ℕ → List ℕ → Bool
member i [] = false
member i (j ∷ xs) = (i == j) || member i xs

-- The list without the number `i`.
pub remove : ℕ → List ℕ → List ℕ
remove i [] = []
remove i (j ∷ xs) = let rest = remove i xs in if i == j then rest else j ∷ rest

-- No number occurs twice.
pub distinct : List ℕ → Bool
distinct [] = true
distinct (i ∷ xs) = not (member i xs) && distinct xs

pub member-nil : (i : ℕ) → member i [] ≡ false
unfolding member
member-nil i = refl

pub member-cons : (i j : ℕ) (xs : List ℕ) → member i (j ∷ xs) ≡ ((i == j) || member i xs)
unfolding member
member-cons i j xs = refl

pub member-remove : (i j : ℕ) (xs : List ℕ) → member i (remove j xs) ≡ (not (i == j) && member i xs)
unfolding member remove
member-remove i j [] = ground arith
member-remove i j (k ∷ xs) = ground (arith, member-remove i j xs)

pub distinct-nil : distinct [] ≡ true
unfolding distinct
distinct-nil = refl

pub distinct-cons : (i : ℕ) (xs : List ℕ) → distinct (i ∷ xs) ≡ (not (member i xs) && distinct xs)
unfolding distinct
distinct-cons i xs = refl

pub distinct-remove : (i : ℕ) (xs : List ℕ) → distinct xs ≡ true → distinct (remove i xs) ≡ true
unfolding distinct remove
distinct-remove i [] h = refl
distinct-remove i (k ∷ xs) h = ground (arith, distinct-remove i xs, member-remove k i xs)

-- Removing what is not there changes nothing.
pub remove-absent : (i : ℕ) (xs : List ℕ) → member i xs ≡ false → remove i xs ≡ xs
unfolding member remove
remove-absent i [] h = refl
remove-absent i (k ∷ xs) h = ground (arith, remove-absent i xs)

pub length-remove :
    (i : ℕ) (xs : List ℕ)
    → distinct xs ≡ true
    → member i xs ≡ true
    → length (remove i xs) + 1 ≡ length xs
unfolding member remove distinct
length-remove i [] d h = ground arith
length-remove i (k ∷ xs) d h = ground (arith, length-remove i xs, remove-absent i xs)

-- A list reversed has the same members.
pub member-append : (i : ℕ) (xs ys : List ℕ) → member i (xs ++ ys) ≡ (member i xs || member i ys)
unfolding member
member-append i [] ys = refl
member-append i (x ∷ xs) ys = ground (arith, member-append i xs ys)

pub member-reverse : (i : ℕ) (xs : List ℕ) → member i (reverse xs) ≡ member i xs
unfolding member
member-reverse i [] = refl
member-reverse i (x ∷ xs) =
    rw (reverse-append (x ∷ []) xs)
      (rw (member-append i (reverse xs) (x ∷ [])) (rw (member-reverse i xs) (ground arith)))

pub remove-cons-absent : (i : ℕ) (xs : List ℕ) → member i xs ≡ false → remove i (i ∷ xs) ≡ xs
unfolding remove
remove-cons-absent i xs h = ground (arith, remove-absent i xs)

pub remove-cons_ne :
    (i k : ℕ) (xs : List ℕ) → (i == k) ≡ false → remove i (k ∷ xs) ≡ k ∷ remove i xs
unfolding remove
remove-cons_ne i k xs h = rw h refl

-- There are at most `b` different numbers below `b`.
pub length_bounded :
    (b : ℕ) (xs : List ℕ)
    → distinct xs ≡ true
    → ((x : ℕ) → member x xs ≡ true → x < b)
    → length xs ≤ b
length_bounded zero [] d h = omega arith
length_bounded zero (x ∷ xs) d h = absurd (omega (arith, h x (ground (arith, member-cons x x xs))))
length_bounded (suc b) xs d h =
    let rest =
      length_bounded b (remove b xs) (distinct-remove b xs d)
        (λ x m. ground (arith, member-remove x b xs, h x)) in
    ground (arith, length-remove b xs, remove-absent b xs, rest)

pub distinct-append :
    (xs ys : List ℕ)
    → distinct xs ≡ true
    → distinct ys ≡ true
    → ((x : ℕ) → member x xs ≡ true → member x ys ≡ false)
    → distinct (xs ++ ys) ≡ true
unfolding distinct
distinct-append [] ys d e h = e
distinct-append (x ∷ xs) ys d e h =
    let rest =
      distinct-append xs ys (ground arith) e (λ y m. h y (ground (arith, member-cons y x xs))) in
    let here = h x (ground (arith, member-cons x x xs)) in
    ground (arith, member-append x xs ys, rest, here)

pub length-append : {A : Type 0} → (xs ys : List A) → length (xs ++ ys) ≡ length xs + length ys
length-append [] ys = omega arith
length-append (x ∷ xs) ys = omega (arith, length-append xs ys)
