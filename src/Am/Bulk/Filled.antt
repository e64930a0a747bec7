-- ===== src/Am/Bulk/Filled.antt =====
-- A leaf that am_bulkload.c makes and fills: init_leaf_page, then simple_leaf_insert of one entry after
-- the other.
use native.Mathlib.Nat.{mul-le-mul_right}
use database_assignment.Prelude.{
  ℕ, zero, suc, ◌+◌, ◌-◌, ◌*◌, ◌/◌, ◌≤◌, ◌<◌, ◌≡◌, refl, ◌∙◌, List, [], ◌∷◌, inl, inr, arith, false,
  leb, ltb, dec_lt, member-nil, distinct-nil,
}
use database_assignment.Words.{Bytes, word, load, store, minus_one, copy-start}
use database_assignment.Words.Short.{load16, store16, load16-congr}
use database_assignment.Sp.{page_size}
use database_assignment.Sp.Records.{bytes_of, bytes_of-congr}
use database_assignment.Am.{
  leaf_header, cell_size, next_leaf_at, rec_id_ptr_at, key_ptr_at, free_list_at, num_free_at,
  attr_length_at, num_keys_at, max_keys_at, rec_id_ptr, key_ptr, free_list, num_free, attr_length,
  num_keys, from_ptr,
}
use database_assignment.Am.Leaf.View.{IsBody, IsLeaf}
use database_assignment.Am.Leaf.Insert.{Represents, put_header-Represents}
use database_assignment.Am.Leaf.Opened.{opened, place}
use database_assignment.Am.Leaf.Refines.{Represents-congr}
use database_assignment.Am.Bulk.Same.{simple_leaf_insert-Represents}
use database_assignment.Am.Node.{put_byte}
use database_assignment.Am.Bulk.{
  entry_size, init_leaf_page, simple_leaf_insert, max_leaf_keys, is_full_leaf,
}

module _ (junk : Bytes) (len : ℕ) (small : len ≤ 255) (p : Bytes) where
  abbrev h : Bytes
  h = store16 max_keys_at ((page_size - leaf_header - cell_size) / (len + 2 + cell_size)) (
      store16 num_keys_at 0 (
        store16 attr_length_at len (
          store16 num_free_at 0 (
            store16 free_list_at 0 (
              store16 key_ptr_at leaf_header (
                store16 rec_id_ptr_at page_size
                  (store next_leaf_at minus_one (put_byte 0 b'l' junk))))))))

  rec_lem : rec_id_ptr h ≡ page_size
  unfolding load16 store16
  rec_lem = refl

  key_lem : key_ptr h ≡ leaf_header
  unfolding load16 store16
  key_lem = refl

  free_lem : free_list h ≡ 0
  unfolding load16 store16
  free_lem = refl

  num_free_lem : num_free h ≡ 0
  unfolding load16 store16
  num_free_lem = refl

  num_keys_lem : num_keys h ≡ 0
  unfolding load16 store16
  num_keys_lem = refl

  attr_lem : attr_length h ≡ len
  unfolding load16 store16
  attr_lem = omega arith

  body_lem : IsBody len p page_size leaf_header 0 0 0 (λ _. [])
  body_lem = record {
    keys = omega arith;
    gap = omega arith;
    top = omega arith;
    aligned = refl;
    chain = λ i a b. omega arith;
    free_chain = refl;
    cell = λ i c a m. ground (arith, member-nil c);
    alone = λ i j c a b m k. ground (arith, member-nil c);
    once = λ i a. distinct-nil;
    counted = refl;
    few = omega arith;
  }

  pub init_leaf_page-Represents :
      (es : ℕ → List ℕ × List ℕ) → Represents len 0 es (init_leaf_page junk len p)
  unfolding init_leaf_page
  init_leaf_page-Represents es =
      let leaf : IsLeaf len p h 0 (λ _. []) = record {
        attr = attr_lem;
        body = rw (rec_lem, key_lem, free_lem, num_free_lem) body_lem;
      } in
      put_header-Represents len 0 p h (λ _. []) es (leaf, λ i a b. absurd (omega arith))
        num_keys_lem

  pub field_init : (o : ℕ) → o + 2 ≤ 24 → load16 (init_leaf_page junk len p) o ≡ load16 h o
  unfolding init_leaf_page
  field_init o l =
      load16-congr (init_leaf_page junk len p) h o o (copy-start h 24 p o (omega arith))
        (copy-start h 24 p (o + 1) (omega arith))

  pub fields_init :
      (key_ptr (init_leaf_page junk len p) ≡ 24)
      × (rec_id_ptr (init_leaf_page junk len p) ≡ page_size)
      × (free_list (init_leaf_page junk len p) ≡ 0)
  fields_init = (
    field_init 10 (omega arith) ∙ key_lem,
    field_init 8 (omega arith) ∙ rec_lem,
    field_init 12 (omega arith) ∙ free_lem,
  )

quotient_lem : (len : ℕ) → 4066 / (len + 8) ≤ 4072 / (len + 2)
quotient_lem len =
    let r : 4072 < suc (4072 / (len + 2)) * (len + 2) = grind arith in
    let q : 4066 / (len + 8) * (len + 8) ≤ 4066 = grind arith in
    elim (dec_lt (4072 / (len + 2)) (4066 / (len + 8))) [
      | no l ↦ omega arith
      | yes l ↦
          let m : suc (4072 / (len + 2)) * (len + 2) ≤ 4066 / (len + 8) * (len + 2) =
            mul-le-mul_right (len + 2) l in
          absurd (omega (arith, m, r, q))
    ]

pub max_leaf_keys_lem : (len : ℕ) → max_leaf_keys len ≡ 4066 / (len + 8)
unfolding max_leaf_keys
max_leaf_keys_lem len =
    let e : len + 2 + cell_size ≡ len + 8 = omega arith in
    let f : ltb (4072 / (len + 2)) (4066 / (len + 8)) ≡ false = ground (arith, quotient_lem len) in
    rw (e, f) refl

-- the entry `j` of the array, as a leaf holds it
abbrev pub entry_of : ℕ → Bytes → ℕ → List ℕ × List ℕ
entry_of len sorted j =
    (bytes_of sorted (entry_size * j) len, load sorted (entry_size * j + 4) ∷ [])

-- A new leaf with the `k` entries from `i` on, inserted as the loop of AM_BulkLoad does
unfoldable pub filled : Bytes → ℕ → Bytes → Bytes → ℕ → ℕ → Bytes
unfolding init_leaf_page simple_leaf_insert
filled junk len p sorted i zero = init_leaf_page junk len p
filled junk len p sorted i (suc k) =
    simple_leaf_insert (from_ptr sorted (entry_size * (i + k)))
      (load sorted (entry_size * (i + k) + 4)) (filled junk len p sorted i k)

room_lem : (len k : ℕ) → k < max_leaf_keys len → k * (len + 2) + (len + 2) + 6 + k * 6 ≤ 4066
room_lem len k l =
    let q : 4066 / (len + 8) * (len + 8) ≤ 4066 = grind arith in
    let m : suc k * (len + 8) ≤ 4066 / (len + 8) * (len + 8) =
      mul-le-mul_right (len + 8) (rw (max_leaf_keys_lem len) at l) in
    let e : suc k * (len + 8) ≡ k * (len + 2) + k * 6 + (len + 8) = grind arith in
    omega (arith, m, q, e)

full_lem :
    (len k : ℕ) (p : Bytes)
    → num_keys p ≡ k
    → key_ptr p ≡ 24 + k * (len + 2)
    → rec_id_ptr p ≡ 4096 - k * 6
    → is_full_leaf len p ≡ leb (max_leaf_keys len) k
unfolding is_full_leaf
full_lem len k p a b c = elim (dec_lt k (max_leaf_keys len)) [
  | yes l ↦ ground (arith, room_lem len k l)
  | no l ↦ ground arith
]

module _ (junk : Bytes) (len : ℕ) (small : len ≤ 255) (p sorted : Bytes) (i : ℕ)
    (words : (j : ℕ) → load sorted (entry_size * j + 4) < word) where
  abbrev entries : ℕ → List ℕ × List ℕ
  entries j = entry_of len sorted (i + j - 1)

  abbrev page : ℕ → Bytes
  page k = filled junk len p sorted i k

  abbrev IsFilled : ℕ → Bytes → Type 0
  IsFilled k q =
      Represents len k entries q
      × (key_ptr q ≡ 24 + k * (len + 2))
      × (rec_id_ptr q ≡ 4096 - k * 6)
      × (free_list q ≡ 0)

  full_when : (k : ℕ) (q : Bytes) → IsFilled k q → is_full_leaf len q ≡ leb (max_leaf_keys len) k
  full_when k q ((lists, v, e), a, b, c) = full_lem len k q e a b

  grown :
      (k j : ℕ)
      → 1 ≤ j
      → j ≤ k + 1
      → opened (k + 1) (entry_of len sorted (i + k)) entries j ≡ entries j
  grown k j a b = elim (place j (k + 1)) [
    | inl (l, f) ↦ rw f refl
    | inr (inl (l, f, g)) ↦ (let e : i + j - 1 ≡ i + k = omega arith in rw (f, g, e) refl)
    | inr (inr (l, f, g)) ↦ absurd (omega arith)
  ]

  step_lem :
      (k : ℕ) (q : Bytes)
      → k < max_leaf_keys len
      → IsFilled k q
      → IsFilled (suc k) (
          simple_leaf_insert
            (from_ptr sorted (entry_size * (i + k)))
            (load sorted (entry_size * (i + k) + 4))
            q)
  step_lem k q l (v, a, b, c) =
      let key = from_ptr sorted (entry_size * (i + k)) in
      let rid = load sorted (entry_size * (i + k) + 4) in
      let f : is_full_leaf len q ≡ false = full_when k q (v, a, b, c) ∙ ground arith in
      let (w, x, y, z) =
        simple_leaf_insert-Represents len k entries key q rid v c f (words (i + k)) in
      let e : bytes_of key 0 len ≡ bytes_of sorted (entry_size * (i + k)) len =
        bytes_of-congr key sorted 0 (entry_size * (i + k)) len
          (λ t h. let z : 0 + t ≡ t = omega arith in rw z refl) in
      let m : suc k * (len + 2) ≡ k * (len + 2) + (len + 2) = grind arith in
      let n : k + 1 ≡ suc k = omega arith in
      (
        rw n at (
            Represents-congr len (k + 1) (opened (k + 1) (entry_of len sorted (i + k)) entries)
              entries (simple_leaf_insert key rid q) (grown k) (rw e at w)),
        x ∙ omega (arith, a, m),
        y ∙ omega (arith, b),
        z,
      )

  page-IsFilled : (k : ℕ) → k ≤ max_leaf_keys len → IsFilled k (page k)
  unfolding filled
  page-IsFilled zero l =
      let (a, b, c) = fields_init junk len small p in
      (init_leaf_page-Represents junk len small p entries, a ∙ omega arith, b, c)
  page-IsFilled (suc k) l = step_lem k (page k) l (page-IsFilled k (omega (arith, l)))

  -- A leaf that AM_BulkLoad makes for attributes of at most 255 bytes, into which
  -- simple_leaf_insert puts up to 4066 / (length + 8) entries of the array one after the other, is
  -- a well-formed leaf that holds exactly these entries in their order, each key with its one
  -- record number, and it passes the test of AM_BulkLoad for a full leaf exactly when it holds
  -- that many.
  pub filled-Represents :
      (k : ℕ)
      → k ≤ 4066 / (len + 8)
      → Represents len k entries (page k) × (is_full_leaf len (page k) ≡ leb (4066 / (len + 8)) k)
  filled-Represents k l =
      let v = page-IsFilled k (rw (max_leaf_keys_lem len) l) in
      (v.0, rw (max_leaf_keys_lem len) at (full_when k (page k) v))
