-- ===== src/Am/Leaf/Insert.antt =====
-- AM_InsertintoLeaf of amlayer/aminsert.c against the abstract leaf, a sequence of keys with their
-- record numbers.
use database_assignment.Prelude.{
  ℕ, ◌+◌, ◌-◌, ◌≤◌, ◌<◌, ◌≡◌, ◌≢◌, ◌⊎◌, inl, inr, refl, ◌∙◌, false, List, [], ◌∷◌, arith, ◌==◌,
}
use database_assignment.Words.{Bytes, word, load-congr, copy-outside, copy-start}
use database_assignment.Words.Short.{
  short, load16, store16, add16, load16-store16, load16-store16_ne, load16-congr,
}
use database_assignment.Sp.Records.{bytes_of, bytes_of-congr}
use database_assignment.Am.{
  key_ptr_at, num_keys_at, rec_id_ptr, key_ptr, free_list, num_free, num_keys, key_at, head_at,
}
use database_assignment.Am.Leaf.{
  Leaf, insert_found, insert_not_found, shift_up, put_key, put_header, insert_new_key,
}
use database_assignment.Am.Leaf.View.{
  Chain, IsCell, IsBody, IsLeaf, entry, Chain-congr, records-congr,
}
use database_assignment.Am.Leaf.Found.{with_rec, Holds, HasCell, found-Holds, num_keys-found}
use database_assignment.Am.Leaf.Opened.{opened, place, opened-IsBody, entry-opened}

-- The page `p` is a well-formed leaf that holds the entries `es 1`, …, `es n`.
abbrev pub Represents : ℕ → ℕ → (ℕ → List ℕ × List ℕ) → Bytes → Type 0
Represents len n es p = (lists : ℕ → List ℕ) × Holds len (p, p) n lists es × (num_keys p ≡ n)

-- The header goes back into the page.
pub put_header-Represents :
    (len n : ℕ) (p h : Bytes) (lists : ℕ → List ℕ) (es : ℕ → List ℕ × List ℕ)
    → Holds len (p, h) n lists es
    → num_keys h ≡ n
    → Represents len n es (put_header (p, h))
put_header-Represents len n p h lists es (v, m) e =
    let q = put_header (p, h) in
    let out : (x : ℕ) → 24 ≤ x → q x ≡ p x = λ x l. copy-outside 0 h 0 24 p x (inr l) in
    let field : (o : ℕ) → o + 2 ≤ 24 → load16 q o ≡ load16 h o = λ o l.
      load16-congr q h o o (copy-start h 24 p o (omega arith))
        (copy-start h 24 p (o + 1) (omega arith)) in
    let behind : (o : ℕ) → 24 ≤ o → load16 q o ≡ load16 p o =
      λ o l. load16-congr q p o o (out o l) (out (o + 1) (omega arith)) in
    let cell_lem : (c : ℕ) → IsCell (rec_id_ptr h) c → 24 ≤ c =
      λ c (l, _, _). omega (arith, l, v.body.gap, v.body.keys) in
    let chain : (ptr i : ℕ) → i ≤ n → Chain p ptr (lists i) → Chain q ptr (lists i) = λ ptr i l.
      Chain-congr p q ptr (lists i)
        (λ c m. behind (c + 4) (omega (arith, cell_lem c (v.body.cell i c l m)))) in
    let body : IsBody len q (rec_id_ptr h) (key_ptr h) (free_list h) (num_free h) n lists = record {
      keys = v.body.keys;
      gap = v.body.gap;
      top = v.body.top;
      aligned = v.body.aligned;
      cell = v.body.cell;
      alone = v.body.alone;
      once = v.body.once;
      counted = v.body.counted;
      few = v.body.few;
      chain = λ i a b.
          rw (behind (head_at len i) (omega arith))
            (chain (load16 p (head_at len i)) i b (v.body.chain i a b));
      free_chain = chain (free_list h) 0 (omega arith) v.body.free_chain;
    } in
    (
      lists,
      (
        record {
          attr = field 16 (omega arith) ∙ v.attr;
          body =
              rw
                (
                  field 8 (omega arith),
                  field 10 (omega arith),
                  field 12 (omega arith),
                  field 14 (omega arith),
                )
                body;
        },
        λ i a b.
            rw
              (
                bytes_of-congr q p (key_at len i) (key_at len i) len
                    (λ x l. out (key_at len i + x) (omega arith)),
                records-congr p q (lists i) (λ c k.
                    load-congr q p c
                      (λ x s t. out x (omega (arith, s, cell_lem c (v.body.cell i c b k))))),
              )
              (m i a b),
      ),
      field 18 (omega arith) ∙ e,
    )

with_rec-opened :
    (index rec_id : ℕ) (bs : List ℕ) (es to : ℕ → List ℕ × List ℕ) (i : ℕ)
    → es i ≡ opened index (bs, []) to i
    → with_rec rec_id index es i ≡ opened index (bs, rec_id ∷ []) to i
with_rec-opened index rec_id bs es to i e = rw e (elim (place i index) [
  | inl (l, f) ↦ (let g : (i == index) ≡ false = ground arith in rw (f, g) refl)
  | inr (inl (l, f, g)) ↦ rw (f, g) refl
  | inr (inr (l, f, g)) ↦ rw (f, g) refl
])

module _ (len : ℕ) (p h : Bytes) (n : ℕ) (lists : ℕ → List ℕ) (v : IsLeaf len p h n lists)
    (m : num_keys h ≡ n) (value : Bytes) (rec_id index : ℕ) (start : 1 ≤ index)
    (within : index ≤ n + 1) (small : rec_id < word)
    (room : (free_list h ≢ 0) × (key_ptr h + (len + 2) ≤ rec_id_ptr h)
      ⊎ (key_ptr h + (len + 2) + 6 ≤ rec_id_ptr h)) where
  -- what AM_InsertToLeafNotFound hands to AM_InsertToLeafFound
  abbrev page : Bytes
  page = put_key len value index (shift_up len index (n + 1 - index) p)

  abbrev header : Bytes
  header = store16 key_ptr_at (add16 (key_ptr h) (len + 2)) h

  key_ptr-header : key_ptr header ≡ key_ptr h + (len + 2)
  key_ptr-header =
      load16-store16 10 (add16 (key_ptr h) (len + 2)) h (omega arith)
      ∙ omega (arith, v.body.top, room)

  field-header : (o : ℕ) → (o + 2 ≤ 10) ⊎ (12 ≤ o) → load16 header o ≡ load16 h o
  field-header o l = load16-store16_ne 10 o (add16 (key_ptr h) (len + 2)) h (omega arith)

  fits : key_ptr h + (len + 2) ≤ rec_id_ptr h
  fits = omega (arith, room)

  header-IsLeaf : IsLeaf len page header (n + 1) (opened index [] lists)
  header-IsLeaf = record {
    attr = field-header 16 (inr (omega arith)) ∙ v.attr;
    body =
        rw
          (
            key_ptr-header,
            field-header 8 (inl (omega arith)),
            field-header 12 (inr (omega arith)),
            field-header 14 (inr (omega arith)),
          )
          (opened-IsBody len p (rec_id_ptr h) (key_ptr h) (free_list h) (num_free h) n lists v.body
            value index start within fits);
  }

  header-HasCell : HasCell header
  header-HasCell = elim room [
    | inl (a, b) ↦ inl (rw (field-header 12 (inr (omega arith))) a)
    | inr a ↦ inr (rw (field-header 8 (inl (omega arith)), key_ptr-header) a)
  ]

  abbrev to_add : ℕ → List ℕ × List ℕ
  to_add = opened index (bytes_of value 0 len, rec_id ∷ []) (entry len p lists)

  entries_lem :
      (i : ℕ)
      → 1 ≤ i
      → i ≤ n + 1
      → with_rec rec_id index (entry len page (opened index [] lists)) i ≡ to_add i
  entries_lem i a b =
      with_rec-opened index rec_id (bytes_of value 0 len) (entry len page (opened index [] lists))
        (entry len p lists) i
        (entry-opened len p (rec_id_ptr h) (key_ptr h) (free_list h) (num_free h) n lists v.body
          value index start within fits i a b)

  abbrev result : Leaf
  result = insert_not_found value rec_id index (p, h)

  not_found_lem : result ≡ insert_found rec_id index (page, header)
  unfolding insert_not_found
  not_found_lem = rw (v.attr, m) refl

  pub not_found-Holds :
      (to : ℕ → List ℕ) × Holds len result (n + 1) to to_add × (num_keys result.1 ≡ n)
  not_found-Holds =
      let (to, (w, es)) =
        found-Holds len page header (n + 1) (opened index [] lists) header-IsLeaf rec_id index
          header-HasCell start within small in
      rw not_found_lem (
        to,
        (w, λ i a b. es i a b ∙ entries_lem i a b),
        num_keys-found rec_id index page header ∙ (field-header 18 (inr (omega arith)) ∙ m),
      )

  few_keys : n + 1 < short
  few_keys = omega (arith, v.body.keys, v.body.top, fits)

  pub new_key-Represents : Represents len (n + 1) to_add (insert_new_key value rec_id index (p, h))
  unfolding insert_new_key
  new_key-Represents =
      let (to, (w, es), e) = not_found-Holds in
      let k = store16 num_keys_at (add16 (num_keys result.1) 1) result.1 in
      let field : (o : ℕ) → (o + 2 ≤ 18) → load16 k o ≡ load16 result.1 o =
        λ o l. load16-store16_ne 18 o (add16 (num_keys result.1) 1) result.1 (inr l) in
      let count : num_keys k ≡ n + 1 =
        load16-store16 18 (add16 (num_keys result.1) 1) result.1 (omega arith)
        ∙ omega (arith, few_keys, e) in
      let leaf : IsLeaf len result.0 k (n + 1) to = record {
        attr = field 16 (omega arith) ∙ w.attr;
        body =
            rw
              (
                field 8 (omega arith),
                field 10 (omega arith),
                field 12 (omega arith),
                field 14 (omega arith),
              )
              w.body;
      } in
      put_header-Represents len (n + 1) result.0 k to to_add (leaf, es) count
