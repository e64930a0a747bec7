-- ===== src/Bl/Leaf.antt =====
-- A leaf that BL_BulkLoad of bulklayer/blbulk.c writes, as BL_Search and BL_GetNext read it.
use database_assignment.Prelude.{
  ℕ, zero, suc, ◌+◌, ◌*◌, ◌≤◌, ◌<◌, ◌≡◌, ◌≢◌, ◌⊎◌, inl, inr, refl, sym, ◌∙◌, Bool, true, false,
  Option, some, none, arith, ltb, dec_lt, if◌then◌else◌,
}
use database_assignment.Words.{Bytes, word, load, store, minus_one, load-store, load-store_ne}
use database_assignment.Bl.{leaf_key, leaf_value, key_count, bs, find_in_leaf}
use database_assignment.Bl.Load.{start_leaf, put_pair, end_leaf}
use database_assignment.Bl.Search.{slt_irrefl, IsPlace, IsSorted, bs-IsPlace}

-- A new leaf behind the leaf `prev` with the `n` pairs of the array from `i` on, as the loop of
-- BL_BulkLoad puts them
unfoldable pub loaded : ℕ → Bytes → Bytes → ℕ → ℕ → Bytes
unfolding start_leaf put_pair
loaded prev p d i zero = start_leaf prev p
loaded prev p d i (suc n) =
    put_pair n (load d (8 * (i + n))) (load d (8 * (i + n) + 4)) (loaded prev p d i n)

-- the key and the value of a pair
abbrev pub pair_key : Bytes → ℕ → ℕ → ℕ
pair_key d i j = load d (8 * (i + j))

abbrev pub pair_value : Bytes → ℕ → ℕ → ℕ
pair_value d i j = load d (8 * (i + j) + 4)

-- What a search for `k` in the leaf gives: the value of a pair with this key, or that there is none.
abbrev pub Finds : Bytes → ℕ → ℕ → ℕ → Option (Option ℕ) → Type 0
Finds d i n k r =
    ((j : ℕ) × (j < n) × (pair_key d i j ≡ k) × (r ≡ some (some (pair_value d i j))))
    ⊎ ((r ≡ some none) × ((j : ℕ) → j < n → pair_key d i j ≢ k))

module _ (prev : ℕ) (p d : Bytes) (i : ℕ) (words : (a : ℕ) → load d a < word) where
  loaded-pair :
      (n j : ℕ)
      → n ≤ 510
      → j < n
      → (leaf_key (loaded prev p d i n) j ≡ pair_key d i j)
        × (leaf_value (loaded prev p d i n) j ≡ pair_value d i j)
  unfolding loaded put_pair
  loaded-pair zero j h l = absurd (omega arith)
  loaded-pair (suc n) j h l =
      let k = load d (8 * (i + n)) in
      let v = load d (8 * (i + n) + 4) in
      let q = loaded prev p d i n in
      let r = store (16 + 4 * n) k q in
      elim (dec_lt j n) [
        | yes m ↦
            let (a, b) = loaded-pair n j (omega arith) m in
            (
              load-store_ne (2056 + 4 * n) (16 + 4 * j) v r (inr (omega arith))
                  ∙ (load-store_ne (16 + 4 * n) (16 + 4 * j) k q (inr (omega arith)) ∙ a),
              load-store_ne (2056 + 4 * n) (2056 + 4 * j) v r (inr (omega arith))
                  ∙ (load-store_ne (16 + 4 * n) (2056 + 4 * j) k q (inl (omega arith)) ∙ b),
            )
        | no m ↦
            let e : j ≡ n = omega arith in
            rw e (
              load-store_ne (2056 + 4 * n) (16 + 4 * n) v r (inr (omega arith))
                  ∙ load-store (16 + 4 * n) k q (words (8 * (i + n))),
              load-store (2056 + 4 * n) v r (words (8 * (i + n) + 4)),
            )
      ]

  abbrev leaf : Bool → ℕ → Bytes
  leaf follows n = end_leaf follows n (loaded prev p d i n)

  leaf-above :
      (follows : Bool) (n a : ℕ) → 16 ≤ a → load (leaf follows n) a ≡ load (loaded prev p d i n) a
  unfolding end_leaf
  leaf-above true n a h =
      load-store_ne 12 a minus_one (store 4 n (loaded prev p d i n)) (inl (omega arith))
      ∙ load-store_ne 4 a n (loaded prev p d i n) (inl (omega arith))
  leaf-above false n a h = load-store_ne 4 a n (loaded prev p d i n) (inl (omega arith))

  leaf-count : (follows : Bool) (n : ℕ) → n ≤ 510 → load (leaf follows n) 4 ≡ n
  unfolding end_leaf
  leaf-count true n h =
      load-store_ne 12 4 minus_one (store 4 n (loaded prev p d i n)) (inr (omega arith))
      ∙ load-store 4 n (loaded prev p d i n) (omega arith)
  leaf-count false n h = load-store 4 n (loaded prev p d i n) (omega arith)

  key_lem :
      (follows : Bool) (n j : ℕ) → n ≤ 510 → j < n → leaf_key (leaf follows n) j ≡ pair_key d i j
  key_lem follows n j h l =
      leaf-above follows n (16 + 4 * j) (omega arith) ∙ (loaded-pair n j h l).0

  value_lem :
      (follows : Bool) (n j : ℕ)
      → n ≤ 510
      → j < n
      → leaf_value (leaf follows n) j ≡ pair_value d i j
  value_lem follows n j h l =
      leaf-above follows n (2056 + 4 * j) (omega arith) ∙ (loaded-pair n j h l).1

  leaf-IsSorted :
      (follows : Bool) (n : ℕ)
      → n ≤ 510
      → IsSorted (pair_key d i) n
      → IsSorted (leaf_key (leaf follows n)) n
  leaf-IsSorted follows n h s a b l m =
      rw (key_lem follows n a h (omega arith), key_lem follows n b h m) (s a b l m)

  place-Finds :
      (follows : Bool) (n k : ℕ)
      → n ≤ 510
      → (r : ℕ × Bool) → IsPlace (leaf_key (leaf follows n)) n k r
      → Finds d i n k (some (if r.1 then some (leaf_value (leaf follows n) r.0) else none))
  place-Finds follows n k h (x, found) (inl (e, l, f)) =
      rw e (inl (x, l, sym (key_lem follows n x h l) ∙ f, rw (value_lem follows n x h l) refl))
  place-Finds follows n k h (x, found) (inr (e, l, low, high)) = rw e (
      inr (
        refl,
        λ j m o.
            let c : leaf_key (leaf follows n) j ≡ k = key_lem follows n j h m ∙ o in
            let z = slt_irrefl k in
            elim (dec_lt j x) [
              | yes t ↦ (let y = rw c at (low j t) in cc)
              | no t ↦ (let y = rw c at (high j (omega arith) m) in cc)
            ],
      ))

  -- The leaf that BL_BulkLoad makes of at most 510 pairs whose keys do not decrease, and closes
  -- with their number, whether another leaf follows or not: BL_Search in it finds the value of a
  -- pair with the key that is looked for, or says that there is none, and then no pair has this
  -- key.
  pub find_in_leaf-Finds :
      (follows : Bool) (n k : ℕ)
      → n ≤ 510
      → IsSorted (pair_key d i) n
      → k < word
      → Finds d i n k (find_in_leaf (end_leaf follows n (loaded prev p d i n)) k)
  unfolding find_in_leaf
  find_in_leaf-Finds follows n k h s w =
      let count : key_count (load (leaf follows n) 4) ≡ n =
        rw (leaf-count follows n h) (ground arith) in
      let fits : ltb 510 n ≡ false = ground arith in
      rw (count, fits)
        (place-Finds follows n k h (bs (leaf_key (leaf follows n)) n k) (
          bs-IsPlace (leaf_key (leaf follows n)) n k (leaf-IsSorted follows n h s)
            (λ j l. rw (key_lem follows n j h l) (words (8 * (i + j)))) w))
