-- ===== src/Am/Leaf/Freed.antt =====
-- The cell that AM_DeleteEntry in amlayer/amfns.c takes out of the list of a key goes to the free list.
use database_assignment.Prelude.{
  ℕ, ◌+◌, ◌≤◌, ◌<◌, ◌≡◌, ◌≢◌, ◌⊎◌, inl, inr, refl, ◌∙◌, true, false, List, map, arith, ◌==◌, length,
  length_bounded, member, remove, member-remove, distinct, if◌then◌else◌, Bool-cases, ==_iff,
}
use database_assignment.Words.{Bytes, load}
use database_assignment.Words.Short.{
  short, load16, store16, load16-store16, load16-store16_ne, load-store16_ne, store16-outside,
}
use database_assignment.Sp.Records.{bytes_of, bytes_of-congr}
use database_assignment.Am.{key_at, head_at}
use database_assignment.Am.Leaf.View.{
  Chain, IsCell, IsBody, entry, key_at-lt, cells_apart, Chain-congr, records-congr,
}
use database_assignment.Am.Leaf.Link.{Chain-lt}
use database_assignment.Am.Leaf.Shared.{freed, alone-freed, once-freed, IsCell-freed}
use database_assignment.Am.Leaf.Unlink.{IsLink, unlinked}

-- A list of cells is not longer than a page.
pub length_cells :
    (low : ℕ) (cs : List ℕ)
    → distinct cs ≡ true
    → ((c : ℕ) → member c cs ≡ true → IsCell low c)
    → length cs ≤ 4096
length_cells low cs d h = length_bounded 4096 cs d (λ c m. omega (arith, h c m))

module _ (len : ℕ) (p : Bytes) (rec key free count n : ℕ) (lists : ℕ → List ℕ)
    (v : IsBody len p rec key free count n lists) (index l c : ℕ) (start : 1 ≤ index)
    (within : index ≤ n) (here : member c (lists index) ≡ true)
    (link : IsLink (head_at len index) (lists index) c l)
    (chain : Chain
      (unlinked p l c)
      (load16 (unlinked p l c) (head_at len index))
      (remove c (lists index))) where
  abbrev pub after : Bytes
  after = store16 (c + 4) free (unlinked p l c)

  head_below : (i : ℕ) → 1 ≤ i → i ≤ n → head_at len i + 2 ≤ rec
  head_below i a b = omega (arith, key_at-lt len i (n + 1) a (omega arith), v.keys, v.gap)

  own-IsCell : IsCell rec c
  own-IsCell = v.cell index c within here

  -- The link stands at the head of the list or behind the cells begin.
  link_above : (l ≡ head_at len index) ⊎ (rec ≤ l)
  link_above = elim link [
    | inl e ↦ inl e
    | inr (a, m, _, e) ↦ inr (omega (arith, e, v.cell index a within m))
  ]

  -- the link and the link field of a cell of another list
  link_apart :
      (i d : ℕ) → i ≤ n → member d (lists i) ≡ true → i ≢ index → (l + 2 ≤ d + 4) ⊎ (d + 6 ≤ l)
  link_apart i d b m ne = elim link [
    | inl e ↦ inl (omega (arith, e, head_below index start within, v.cell i d b m))
    | inr (a, k, _, e) ↦
        let other : a ≢ d = λ t. ne (v.alone i index d b within m (rw t at k)) in
        let apart = cells_apart rec a d (v.cell index a within k) (v.cell i d b m) other in
        omega (arith, e, apart)
  ]

  -- the link and the record number in any cell
  link_record : (i d : ℕ) → i ≤ n → member d (lists i) ≡ true → (l + 2 ≤ d) ⊎ (d + 4 ≤ l)
  link_record i d b m = elim link [
    | inl e ↦ inl (omega (arith, e, head_below index start within, v.cell i d b m))
    | inr (a, k, _, e) ↦ elim (Bool-cases (a == d)) [
      | inl t ↦ inr (omega (arith, e, (==_iff a d).0 t))
      | inr t ↦
          let other : a ≢ d = λ u. ground arith in
          let apart = cells_apart rec a d (v.cell index a within k) (v.cell i d b m) other in
          omega (arith, e, apart)
    ]
  ]

  -- another cell than `c`
  apart_lem :
      (i d : ℕ)
      → i ≤ n
      → member d (lists i) ≡ true
      → d ≢ c
      → load16 after (d + 4) ≡ load16 (unlinked p l c) (d + 4)
  apart_lem i d b m ne =
      let apart = cells_apart rec d c (v.cell i d b m) own-IsCell ne in
      load16-store16_ne (c + 4) (d + 4) free (unlinked p l c) (omega (arith, apart))

  other_lem :
      (i d : ℕ)
      → i ≤ n
      → member d (lists i) ≡ true
      → i ≢ index
      → load16 after (d + 4) ≡ load16 p (d + 4)
  other_lem i d b m ne =
      apart_lem i d b m (λ e. ne (v.alone i index d b within m (rw e here)))
      ∙ load16-store16_ne l (d + 4) (load16 p (c + 4)) p (omega (arith, link_apart i d b m ne))

  record_lem : (i d : ℕ) → i ≤ n → member d (lists i) ≡ true → load after d ≡ load p d
  record_lem i d b m =
      let apart : (c + 6 ≤ d) ⊎ (d + 4 ≤ c + 4) = elim (Bool-cases (d == c)) [
        | inl t ↦ inr (omega (arith, (==_iff d c).0 t))
        | inr t ↦
            let other : d ≢ c = λ u. ground arith in
            let e = cells_apart rec d c (v.cell i d b m) own-IsCell other in omega (arith, e)
      ] in
      load-store16_ne (c + 4) d free (unlinked p l c) (omega (arith, apart))
      ∙ load-store16_ne l d (load16 p (c + 4)) p (link_record i d b m)

  -- the heads of the lists
  head_lem :
      (i : ℕ)
      → 1 ≤ i
      → i ≤ n
      → load16 after (head_at len i) ≡ load16 (unlinked p l c) (head_at len i)
  head_lem i a b =
      load16-store16_ne (c + 4) (head_at len i) free (unlinked p l c)
        (inr (omega (arith, head_below i a b, own-IsCell)))

  head_other :
      (i : ℕ)
      → 1 ≤ i
      → i ≤ n
      → (i == index) ≡ false
      → load16 after (head_at len i) ≡ load16 p (head_at len i)
  head_other i a b e =
      head_lem i a b
      ∙ load16-store16_ne l (head_at len i) (load16 p (c + 4)) p (
          ground
            (arith, link_above, head_below i a b, key_at-lt len i index, key_at-lt len index i))

  Chain-other : (i ptr : ℕ) → i ≤ n → i ≢ index → Chain p ptr (lists i) → Chain after ptr (lists i)
  Chain-other i ptr b ne h = Chain-congr p after ptr (lists i) (λ d m. other_lem i d b m ne) h

  Chain-own : Chain after (load16 after (head_at len index)) (remove c (lists index))
  Chain-own = rw (head_lem index start within) (
      Chain-congr (unlinked p l c) after (load16 (unlinked p l c) (head_at len index))
        (remove c (lists index))
        (λ d m.
          apart_lem index d within (ground (arith, member-remove d c (lists index)))
            (λ e. ground (arith, member-remove d c (lists index))))
        chain)

  free_small : free < short
  free_small =
      Chain-lt p free (lists 0) (λ d m. omega (arith, v.cell 0 d (omega arith) m)) v.free_chain

  next_lem : load16 after (c + 4) ≡ free
  next_lem = load16-store16 (c + 4) free (unlinked p l c) free_small

  abbrev pub to : ℕ → List ℕ
  to = freed c index lists

  pub freed-IsBody : IsBody len after rec key c (count + 1) n to
  freed-IsBody = record {
    keys = v.keys;
    gap = v.gap;
    top = v.top;
    aligned = v.aligned;
    chain = λ i a b.
        let z : (i == 0) ≡ false = ground arith in
        elim (Bool-cases (i == index)) [
          | inl f ↦ let q : i ≡ index = (==_iff i index).0 f in rw (z, f, q) Chain-own
          | inr f ↦
              rw (z, f, head_other i a b f)
                (Chain-other i (load16 p (head_at len i)) b (λ q. ground arith) (v.chain i a b))
        ];
    free_chain = (
      refl,
      omega (arith, own-IsCell, head_below index start within),
      rw next_lem (Chain-other 0 free (omega arith) (λ q. omega arith) v.free_chain),
    );
    cell = IsCell-freed len p rec key free count n lists v index c start within here;
    alone = alone-freed len p rec key free count n lists v index c start within here;
    once = once-freed len p rec key free count n lists v index c start within here;
    counted = omega (arith, v.counted);
    few =
        let e : length (to 0) ≤ 4096 =
          length_cells rec (to 0)
            (once-freed len p rec key free count n lists v index c start within here 0
              (omega arith))
            (λ d m.
              IsCell-freed len p rec key free count n lists v index c start within here 0 d
                (omega arith) m) in
        omega (arith, e, v.counted);
  }

  key_byte : (i x : ℕ) → 1 ≤ i → i ≤ n → x < len → after (key_at len i + x) ≡ p (key_at len i + x)
  key_byte i x a b h =
      let apart : (key_at len i + x < head_at len index)
          ⊎ (head_at len index + 2 ≤ key_at len i + x) =
        elim (Bool-cases (i == index)) [
          | inl e ↦ inl (rw ((==_iff i index).0 e) (omega arith))
          | inr e ↦ ground (arith, key_at-lt len i index, key_at-lt len index i)
        ] in
      store16-outside (c + 4) free (unlinked p l c) (key_at len i + x)
        (inl (omega (arith, own-IsCell, head_below i a b)))
      ∙ store16-outside l (load16 p (c + 4)) p (key_at len i + x)
          (omega (arith, apart, link_above, head_below i a b))

  -- The key `index` has the records of the shorter list, and no other entry has changed.
  pub entry-freed :
      (i : ℕ)
      → 1 ≤ i
      → i ≤ n
      → entry len after to i ≡ (
          if i == index
          then ((entry len p lists i).0, map (load p) (remove c (lists index)))
          else entry len p lists i)
  entry-freed i a b =
      let z : (i == 0) ≡ false = ground arith in
      let bytes : bytes_of after (key_at len i) len ≡ bytes_of p (key_at len i) len =
        bytes_of-congr after p (key_at len i) (key_at len i) len (λ x h. key_byte i x a b h) in
      elim (Bool-cases (i == index)) [
        | inr e ↦ rw (z, e, bytes, records-congr p after (lists i) (λ d m. record_lem i d b m)) refl
        | inl e ↦
            let q : i ≡ index = (==_iff i index).0 e in
            rw
              (
                z,
                e,
                bytes,
                records-congr p after (remove c (lists index)) (λ d m.
                    record_lem index d within (ground (arith, member-remove d c (lists index)))),
              )
              refl
      ]
