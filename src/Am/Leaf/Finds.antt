-- ===== src/Am/Leaf/Finds.antt =====
-- AM_InsertintoLeaf of amlayer/aminsert.c and then AM_SearchLeaf of amlayer/amsearch.c, for keys of type
-- 'i'.
use database_assignment.Prelude.{
  ℕ, ◌+◌, ◌-◌, ◌≤◌, ◌<◌, ◌≡◌, ◌⊎◌, inl, inr, refl, sym, ap, ◌∙◌, true, false, List, ◌∷◌, [], some,
  ltb, ◌==◌, arith, dec_lt, Bool-cases, ==_iff,
}
use database_assignment.Words.{Bytes, word, load, slt}
use database_assignment.Sp.Records.{bytes_of}
use database_assignment.Am.{
  int_attr, Order, below, equal, above, Libc, compare, key_at, free_list, key_ptr, rec_id_ptr,
  order_by,
}
use database_assignment.Am.Search.{leaf_order, search_leaf}
use database_assignment.Am.Search.Linear.{IsOrdered, is_equal, Order-cases}
use database_assignment.Am.Search.Leaf.{IsRank, IsRank-search_keys, search_keys_found}
use database_assignment.Am.Leaf.{insert_into_leaf}
use database_assignment.Am.Leaf.Opened.{opened}
use database_assignment.Am.Leaf.Insert.{Represents}
use database_assignment.Am.Leaf.Refines.{is_full, insert_into_leaf_new}

load-bytes_of : (p q : Bytes) (a b : ℕ) → bytes_of p a 4 ≡ bytes_of q b 4 → load p a ≡ load q b
unfolding bytes_of load
load-bytes_of p q a b h =
    let h0 : p a ≡ q b = cc in
    let h1 : p (a + 1) ≡ q (b + 1) = cc in
    let h2 : p (a + 1 + 1) ≡ q (b + 1 + 1) = cc in
    let h3 : p (a + 1 + 1 + 1) ≡ q (b + 1 + 1 + 1) = cc in
    let k2 : p (a + 2) ≡ q (b + 2) =
      (let e : a + 1 + 1 ≡ a + 2 = omega arith in
        let f : b + 1 + 1 ≡ b + 2 = omega arith in rw (e, f) at h2) in
    let k3 : p (a + 3) ≡ q (b + 3) =
      (let e : a + 1 + 1 + 1 ≡ a + 3 = omega arith in
        let f : b + 1 + 1 + 1 ≡ b + 3 = omega arith in rw (e, f) at h3) in
    rw (h0, h1, k2, k3) refl

compare_int :
    (libc : Libc) (p : Bytes) (a : ℕ) (value : Bytes)
    → compare libc int_attr 4 p a value ≡ order_by slt (load value 0) (load p a)
unfolding compare
compare_int libc p a value = refl

slt_irrefl : (a : ℕ) → slt a a ≡ false
slt_irrefl a = ground arith

-- Where the value is not there, it is below the keys from its place on.
below_of_rank :
    (at : ℕ → Order) (n index : ℕ)
    → IsOrdered at n
    → IsRank at n (index, false)
    → (i : ℕ) → index ≤ i
    → i ≤ n
    → at i ≡ below
unfolding IsRank
below_of_rank at n index ordered (a, b, c, d, e) i h l =
    let f : ltb n index ≡ false = ground arith in
    let g : is_equal (at index) ≡ false = rw f at d in
    let here : at index ≡ below = elim (Order-cases (at index)) [
      | inl o ↦ o
      | inr (inl o) ↦ (let k : true ≡ false = rw o at g in cc)
      | inr (inr o) ↦ absurd (e (omega arith) o)
    ] in
    elim (Bool-cases (i == index)) [
      | inl k ↦ rw ((==_iff i index).0 k) here
      | inr k ↦ elim (ordered index i a (ground arith) l) [
        | inl o ↦ absurd (e (omega arith) o)
        | inr o ↦ o
      ]
    ]

module _ (libc : Libc) (temp value p : Bytes) (n : ℕ) (es : ℕ → List ℕ × List ℕ) (rec_id index : ℕ)
    (v : Represents 4 n es p) (ordered : IsOrdered (leaf_order libc int_attr 4 value p) n)
    (absent : search_leaf libc int_attr 4 value p n ≡ some (index, false)) (small : rec_id < word)
    (direct : (free_list p ≡ 0) ⊎ (key_ptr p + (4 + 2) < rec_id_ptr p))
    (room : is_full (6 + (4 + 2)) p ≡ false) where
  abbrev q : Bytes
  q = (insert_into_leaf temp 4 value rec_id index false p).1

  abbrev new : ℕ → List ℕ × List ℕ
  new = opened index (bytes_of value 0 4, rec_id ∷ []) es

  rank : IsRank (leaf_order libc int_attr 4 value p) n (index, false)
  unfolding search_leaf
  rank = IsRank-search_keys (leaf_order libc int_attr 4 value p) n ordered index false absent

  bounds : (1 ≤ index) × (index ≤ n + 1)
  unfolding IsRank
  bounds = let (a, b, _, _, _) = rank in (a, b)

  before : (i : ℕ) → 1 ≤ i → i < index → leaf_order libc int_attr 4 value p i ≡ above
  unfolding IsRank
  before = let (_, _, c, _, _) = rank in c

  behind : (i : ℕ) → index ≤ i → i ≤ n → leaf_order libc int_attr 4 value p i ≡ below
  behind i a b = below_of_rank (leaf_order libc int_attr 4 value p) n index ordered rank i a b

  after-Represents : Represents 4 (n + 1) new q
  after-Represents =
      elim (insert_into_leaf_new temp 4 n es value p rec_id index v bounds.0 bounds.1 small
        direct) [ inl (e, _) ↦ ground (arith, room, e) | inr (_, _, r) ↦ r ]

  old_bytes : (i : ℕ) → 1 ≤ i → i ≤ n → bytes_of p (key_at 4 i) 4 ≡ (es i).0
  old_bytes i a b = let (_, (_, m), _) = v in ap (λ e. e.0) (m i a b)

  new_bytes : (i : ℕ) → 1 ≤ i → i ≤ n + 1 → bytes_of q (key_at 4 i) 4 ≡ (new i).0
  new_bytes i a b = let (_, (_, m), _) = after-Represents in ap (λ e. e.0) (m i a b)

  order_of_bytes :
      (i j : ℕ)
      → bytes_of q (key_at 4 i) 4 ≡ bytes_of p (key_at 4 j) 4
      → leaf_order libc int_attr 4 value q i ≡ leaf_order libc int_attr 4 value p j
  order_of_bytes i j h =
      compare_int libc q (key_at 4 i) value
      ∙ (rw (load-bytes_of q p (key_at 4 i) (key_at 4 j) h) refl
          ∙ sym (compare_int libc p (key_at 4 j) value))

  new_before : (i : ℕ) → 1 ≤ i → i < index → leaf_order libc int_attr 4 value q i ≡ above
  new_before i a l =
      let f : ltb i index ≡ true = ground arith in
      order_of_bytes i i (
        rw f at (new_bytes i a (omega (arith, bounds)))
        ∙ sym (old_bytes i a (omega (arith, bounds))))
      ∙ before i a l

  new_here : leaf_order libc int_attr 4 value q index ≡ equal
  new_here =
      let f : ltb index index ≡ false = ground arith in
      let g : (index == index) ≡ true = ground arith in
      let e : load q (key_at 4 index) ≡ load value 0 =
        load-bytes_of q value (key_at 4 index) 0
          (rw (f, g) at (new_bytes index bounds.0 bounds.1)) in
      compare_int libc q (key_at 4 index) value ∙ rw (e, slt_irrefl (load value 0)) refl

  new_behind : (i : ℕ) → index < i → i ≤ n + 1 → leaf_order libc int_attr 4 value q i ≡ below
  new_behind i l b =
      let f : ltb i index ≡ false = ground arith in
      let g : (i == index) ≡ false = ground arith in
      order_of_bytes i (i - 1) (
        rw (f, g) at (new_bytes i (omega arith) b)
        ∙ sym (old_bytes (i - 1) (omega (arith, bounds)) (omega arith)))
      ∙ behind (i - 1) (omega arith) (omega arith)

  new-IsOrdered : IsOrdered (leaf_order libc int_attr 4 value q) (n + 1)
  new-IsOrdered i j a l b = elim (dec_lt i index) [
    | yes k ↦ inl (new_before i a k)
    | no k ↦ inr (new_behind j (omega arith) b)
  ]

  -- Where AM_SearchLeaf does not find a value of type i in a well-formed leaf whose keys are in
  -- increasing order for it, and there is room so that AM_InsertintoLeaf neither refuses nor
  -- compacts: after the insertion of the value at the index of the search, AM_SearchLeaf finds it
  -- at that index.
  pub search_leaf-insert_into_leaf :
      search_leaf libc int_attr 4 value
        (insert_into_leaf temp 4 value rec_id index false p).1
        (n + 1)
      ≡ some (index, true)
  unfolding search_leaf IsRank
  search_leaf-insert_into_leaf =
      let e : ltb (n + 1) index ≡ false = ground (arith, bounds) in
      search_keys_found (leaf_order libc int_attr 4 value q) (n + 1) new-IsOrdered index true (
        bounds.0,
        omega (arith, bounds),
        new_before,
        rw (e, new_here) refl,
        λ _ h. (let k : equal ≡ above = sym new_here ∙ h in cc),
      )
