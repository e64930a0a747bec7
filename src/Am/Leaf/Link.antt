-- ===== src/Am/Leaf/Link.antt =====
-- AM_InsertToLeafFound of amlayer/aminsert.c, once it has a cell: the cell becomes the head of the
-- list of a key.
use database_assignment.Prelude.{
  ℕ, ◌+◌, ◌≤◌, ◌<◌, ◌≡◌, ◌≢◌, ◌⊎◌, inl, inr, ap, ◌∙◌, true, false, List, [], ◌∷◌, arith, ◌==◌,
  member, member-cons, distinct-cons, if◌then◌else◌, Bool-cases, ==_iff,
}
use database_assignment.Words.{Bytes, word, load, store, load-store, load-store_ne, store-below}
use database_assignment.Words.Short.{
  short, load16, store16, load16-store16, load16-store16_ne, load16-store_ne, load-store16_ne,
  store16-outside,
}
use database_assignment.Sp.Records.{bytes_of, bytes_of-congr}
use database_assignment.Am.{key_at, head_at}
use database_assignment.Am.Leaf.{link_cell}
use database_assignment.Am.Leaf.View.{
  Chain, IsCell, IsBody, entry, key_at-lt, cells_apart, Chain-congr, records-congr,
}

-- the cell `c` in front of the list of the key `index`
abbrev pub linked : ℕ → ℕ → (ℕ → List ℕ) → ℕ → List ℕ
linked c index lists i = if i == index then c ∷ lists index else lists i

pub Chain-lt :
    (p : Bytes) (ptr : ℕ) (cs : List ℕ)
    → ((c : ℕ) → member c cs ≡ true → c < short)
    → Chain p ptr cs
    → ptr < short
Chain-lt p ptr [] h l = omega arith
Chain-lt p ptr (c ∷ cs) h (e, _, _) = omega (arith, e, h c (ground (arith, member-cons c c cs)))

-- `c` is a cell in no list.
pub record IsFresh (rec n : ℕ) (lists : ℕ → List ℕ) (c : ℕ) : Type 0 where
  pub is_cell : IsCell rec c
  pub unused : (i : ℕ) → i ≤ n → member c (lists i) ≡ false

module _ (len : ℕ) (p : Bytes) (rec key free count n : ℕ) (lists : ℕ → List ℕ)
    (v : IsBody len p rec key free count n lists) (c rec_id index : ℕ)
    (fresh : IsFresh rec n lists c) (start : 1 ≤ index) (within : index ≤ n)
    (small : rec_id < word) where
  abbrev pub after : Bytes
  after = link_cell len c rec_id index p

  -- every key and its list head stand below the cells
  head_below : (i : ℕ) → 1 ≤ i → i ≤ n → head_at len i + 2 ≤ rec
  head_below i a b = omega (arith, key_at-lt len i (n + 1) a (omega arith), v.keys, v.gap)

  abbrev p₁ : Bytes
  p₁ = store16 (head_at len index) c p

  abbrev p₂ : Bytes
  p₂ = store c rec_id p₁

  -- The list head of the key and the cell are all that changes.
  load16-link :
      (b : ℕ)
      → (head_at len index + 2 ≤ b) ⊎ (b + 2 ≤ head_at len index)
      → (c + 6 ≤ b) ⊎ (b + 2 ≤ c)
      → load16 after b ≡ load16 p b
  unfolding link_cell
  load16-link b h k =
      load16-store16_ne (c + 4) b (load16 p (head_at len index)) p₂ (omega arith)
      ∙ (load16-store_ne c b rec_id p₁ (omega arith)
          ∙ load16-store16_ne (head_at len index) b c p h)

  load-link :
      (b : ℕ)
      → (head_at len index + 2 ≤ b) ⊎ (b + 4 ≤ head_at len index)
      → (c + 6 ≤ b) ⊎ (b + 4 ≤ c)
      → load after b ≡ load p b
  unfolding link_cell
  load-link b h k =
      load-store16_ne (c + 4) b (load16 p (head_at len index)) p₂ (omega arith)
      ∙ (load-store_ne c b rec_id p₁ (omega arith) ∙ load-store16_ne (head_at len index) b c p h)

  below-link :
      (x : ℕ) → (x < head_at len index) ⊎ (head_at len index + 2 ≤ x) → x < c → after x ≡ p x
  unfolding link_cell
  below-link x h k =
      store16-outside (c + 4) (load16 p (head_at len index)) p₂ x (inl (omega arith))
      ∙ (store-below c rec_id p₁ x k ∙ store16-outside (head_at len index) c p x h)

  under : head_at len index + 2 ≤ c
  under = omega (arith, head_below index start within, fresh.is_cell)

  -- The new cell
  head-link : load16 after (head_at len index) ≡ c
  unfolding link_cell
  head-link =
      load16-store16_ne (c + 4) (head_at len index) (load16 p (head_at len index)) p₂
        (inr (omega (arith, under)))
      ∙ (load16-store_ne c (head_at len index) rec_id p₁ (inr under)
          ∙ load16-store16 (head_at len index) c p (omega (arith, fresh.is_cell)))

  head_small : load16 p (head_at len index) < short
  head_small =
      Chain-lt p (load16 p (head_at len index)) (lists index)
        (λ d m. omega (arith, v.cell index d within m)) (v.chain index start within)

  next-link : load16 after (c + 4) ≡ load16 p (head_at len index)
  unfolding link_cell
  next-link = load16-store16 (c + 4) (load16 p (head_at len index)) p₂ head_small

  rec_id-link : load after c ≡ rec_id
  unfolding link_cell
  rec_id-link =
      load-store16_ne (c + 4) c (load16 p (head_at len index)) p₂ (inr (omega arith))
      ∙ load-store c rec_id p₁ small

  -- every other cell
  cell-link :
      (i d : ℕ)
      → i ≤ n
      → member d (lists i) ≡ true
      → (load16 after (d + 4) ≡ load16 p (d + 4)) × (load after d ≡ load p d)
  cell-link i d h m =
      let ne : c ≢ d = λ e. ground (arith, ap (λ x. member x (lists i)) e, fresh.unused i h) in
      let apart = cells_apart rec c d fresh.is_cell (v.cell i d h m) ne in
      let lower : head_at len index + 2 ≤ d =
        omega (arith, head_below index start within, v.cell i d h m) in
      (load16-link (d + 4) (inl (omega arith)) (omega arith), load-link d (inl lower) (omega arith))

  Chain-link : (i ptr : ℕ) → i ≤ n → Chain p ptr (lists i) → Chain after ptr (lists i)
  Chain-link i ptr h l = Chain-congr p after ptr (lists i) (λ d m. (cell-link i d h m).0) l

  abbrev added : ℕ → List ℕ
  added = linked c index lists

  member-added :
      (i d : ℕ)
      → i ≤ n
      → member d (added i) ≡ true
      → (member d (lists i) ≡ true) ⊎ ((d ≡ c) × (i ≡ index))
  member-added i d h m = elim (Bool-cases (i == index)) [
    | inr e ↦ inl (rw e at m)
    | inl e ↦ elim (Bool-cases (d == c)) [
      | inl f ↦ inr ((==_iff d c).0 f, (==_iff i index).0 e)
      | inr f ↦ inl (ground (arith, member-cons d c (lists index)))
    ]
  ]

  alone-link :
      (i j d : ℕ) → i ≤ n → j ≤ n → member d (added i) ≡ true → member d (added j) ≡ true → i ≡ j
  alone-link i j d a b k l = grind (
    arith,
    member-added i d a k,
    member-added j d b l,
    v.alone i j d,
    fresh.unused i,
    fresh.unused j,
  )

  head_ne :
      (i : ℕ)
      → 1 ≤ i
      → i ≤ n
      → (i == index) ≡ false
      → load16 after (head_at len i) ≡ load16 p (head_at len i)
  head_ne i a b e =
      load16-link (head_at len i) (ground (arith, key_at-lt len i index, key_at-lt len index i))
        (inr (omega (arith, head_below i a b, fresh.is_cell)))

  pub link-IsBody : IsBody len after rec key free count n added
  link-IsBody = record {
    keys = v.keys;
    gap = v.gap;
    top = v.top;
    aligned = v.aligned;
    chain = λ i a b. elim (Bool-cases (i == index)) [
      | inr e ↦ rw (e, head_ne i a b e) (Chain-link i (load16 p (head_at len i)) b (v.chain i a b))
      | inl e ↦
          let q : i ≡ index = (==_iff i index).0 e in
          rw (e, q)
            (
              head-link,
              omega (arith, under),
              rw next-link (
                  Chain-link index (load16 p (head_at len index)) within
                    (v.chain index start within)),
            )
    ];
    free_chain =
        let e : (0 == index) ≡ false = ground arith in
        rw e (Chain-link 0 free (omega arith) v.free_chain);
    cell = λ i d h m. elim (member-added i d h m) [
      | inl k ↦ v.cell i d h k
      | inr (e, _) ↦ rw e fresh.is_cell
    ];
    alone = alone-link;
    once = λ i h. elim (Bool-cases (i == index)) [
      | inr e ↦ rw e (v.once i h)
      | inl e ↦
          rw e (ground (arith, distinct-cons c (lists index), fresh.unused index, v.once index))
    ];
    counted = let e : (0 == index) ≡ false = ground arith in rw e v.counted;
    few = v.few;
  }

  -- The key `index` has one record number more, and no other entry has changed.
  pub entry-link :
      (i : ℕ)
      → 1 ≤ i
      → i ≤ n
      → entry len after added i ≡ (
          if i == index
          then ((entry len p lists i).0, rec_id ∷ (entry len p lists i).1)
          else entry len p lists i)
  entry-link i a b = elim (Bool-cases (i == index)) [
    | inr e ↦ rw (e, key_lem i a b, records-congr p after (lists i) (λ d m. (cell-link i d b m).1))
    | inl e ↦
        let q : i ≡ index = (==_iff i index).0 e in
        rw (
          e,
          q,
          key_lem index start within,
          rec_id-link,
          records-congr p after (lists index) (λ d m. (cell-link index d within m).1),
        )
  ]
    where
      apart :
          (i x : ℕ)
          → 1 ≤ i
          → i ≤ n
          → x < len
          → (key_at len i + x < head_at len index) ⊎ (head_at len index + 2 ≤ key_at len i + x)
      apart i x a b l = elim (Bool-cases (i == index)) [
        | inl e ↦ inl (rw ((==_iff i index).0 e) (omega arith))
        | inr e ↦ ground (arith, key_at-lt len i index, key_at-lt len index i)
      ]

      key_lem :
          (i : ℕ)
          → 1 ≤ i
          → i ≤ n
          → bytes_of after (key_at len i) len ≡ bytes_of p (key_at len i) len
      key_lem i a b = bytes_of-congr after p (key_at len i) (key_at len i) len (λ x l.
          below-link (key_at len i + x) (apart i x a b l)
            (omega (arith, head_below i a b, fresh.is_cell)))
