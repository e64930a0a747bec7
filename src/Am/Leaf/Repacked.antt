-- ===== src/Am/Leaf/Repacked.antt =====
-- AM_Compact of amlayer/aminsert.c: the header of the page that it makes, and what the page holds.
use database_assignment.Prelude.{
  ℕ, zero, suc, ◌+◌, ◌-◌, ◌*◌, ◌≤◌, ◌<◌, ◌≡◌, ◌≢◌, ◌⊎◌, inl, inr, ap, sym, ◌∙◌, List, [], map,
  arith,
}
use database_assignment.Words.{Bytes, copy-start, load}
use database_assignment.Words.Short.{
  load16-congr, short, load16, store16, add16, load16-store16, load16-store16_ne,
}
use database_assignment.Am.{
  rec_id_ptr_at, key_ptr_at, free_list_at, num_free_at, num_keys_at, rec_id_ptr, key_ptr, free_list,
  num_free, attr_length, num_keys, key_at,
}
use database_assignment.Am.Leaf.{Packing, put_header, compact}
use database_assignment.Am.Leaf.View.{IsBody, IsLeaf, entry}
use database_assignment.Am.Leaf.Counts.{used_bounded, used_first}
use database_assignment.Am.Leaf.Compacted.{compacted, compacted-IsBody, entry-compacted}
use database_assignment.Am.Leaf.Insert.{Represents, put_header-Represents}
use database_assignment.Am.Leaf.Removed.{key_at-many}
use database_assignment.Am.Leaf.Compacts.{total, packed, bound, packed_lem}

-- the header that AM_Compact writes
module _ (ptr key k : ℕ) (h : Bytes) where
  abbrev with_rec : Bytes
  with_rec = store16 rec_id_ptr_at ptr h

  abbrev with_key : Bytes
  with_key = store16 key_ptr_at key with_rec

  abbrev with_list : Bytes
  with_list = store16 free_list_at 0 with_key

  abbrev with_free : Bytes
  with_free = store16 num_free_at 0 with_list

  abbrev header : Bytes
  header = store16 num_keys_at k with_free

  -- a field behind the ones that are written, or before
  field : (o : ℕ) → (o + 2 ≤ 12) ⊎ ((16 ≤ o) × (o + 2 ≤ 18)) → load16 header o ≡ load16 with_key o
  field o b =
      load16-store16_ne 18 o k with_free (omega arith)
      ∙ load16-store16_ne 14 o 0 with_list (omega arith)
      ∙ load16-store16_ne 12 o 0 with_key (omega arith)

  header_fields :
      ptr < short
      → key < short
      → k < short
      → (rec_id_ptr header ≡ ptr)
        × (key_ptr header ≡ key)
        × (free_list header ≡ 0)
        × (num_free header ≡ 0)
        × (attr_length header ≡ attr_length h)
        × (num_keys header ≡ k)
  header_fields a b c = (
    field 8 (inl (omega arith))
        ∙ load16-store16_ne 10 8 key with_rec (inr (omega arith))
        ∙ load16-store16 8 ptr h a,
    field 10 (inl (omega arith)) ∙ load16-store16 10 key with_rec b,
    load16-store16_ne 18 12 k with_free (inr (omega arith))
        ∙ load16-store16_ne 14 12 0 with_list (inr (omega arith))
        ∙ load16-store16 12 0 with_key (omega arith),
    load16-store16_ne 18 14 k with_free (inr (omega arith))
        ∙ load16-store16 14 0 with_list (omega arith),
    field 16 (inr (omega arith, omega arith))
        ∙ load16-store16_ne 10 16 key with_rec (inl (omega arith))
        ∙ load16-store16_ne 8 16 ptr h (inl (omega arith)),
    load16-store16 18 k with_free c,
  )

module _ (len : ℕ) (p : Bytes) (n : ℕ) (lists : ℕ → List ℕ) (v : IsLeaf len p p n lists) (low : ℕ)
    (start : 1 ≤ low) (temp : Bytes) (k : ℕ) (some_key : 1 ≤ k) (within : low + k ≤ n + 1)
    (some_record : (j : ℕ) → j < k → lists (low + j) ≢ []) where
  abbrev sum : ℕ
  sum =
      total len p (rec_id_ptr p) (key_ptr p) (free_list p) (num_free p) n lists v.body low start
        temp k

  abbrev result : Packing
  result =
      packed len p (rec_id_ptr p) (key_ptr p) (free_list p) (num_free p) n lists v.body low start
        temp k

  abbrev to : ℕ → List ℕ
  to =
      compacted len p (rec_id_ptr p) (key_ptr p) (free_list p) (num_free p) n lists v.body low start
        temp k some_key within some_record

  body : IsBody len result.temp (4096 - 6 * sum) (key_at len (k + 1)) 0 0 k to
  body =
      compacted-IsBody len p (rec_id_ptr p) (key_ptr p) (free_list p) (num_free p) n lists v.body
        low start temp k some_key within some_record

  fits : 6 * sum + rec_id_ptr p ≤ 4096
  fits =
      bound len p (rec_id_ptr p) (key_ptr p) (free_list p) (num_free p) n lists v.body low start
        temp k within

  ptr_lem : add16 result.ptr 6 ≡ 4096 - 6 * sum
  ptr_lem =
      let e =
        (packed_lem len p (rec_id_ptr p) (key_ptr p) (free_list p) (num_free p) n lists v.body low
          start temp k within some_record).0 in
      omega (arith, e, fits, v.body.keys, v.body.gap)

  abbrev new_header : Bytes
  new_header = header (4096 - 6 * sum) (key_at len (k + 1)) k p

  fields :
      (rec_id_ptr new_header ≡ 4096 - 6 * sum)
      × (key_ptr new_header ≡ key_at len (k + 1))
      × (free_list new_header ≡ 0)
      × (num_free new_header ≡ 0)
      × (attr_length new_header ≡ attr_length p)
      × (num_keys new_header ≡ k)
  fields =
      header_fields (4096 - 6 * sum) (key_at len (k + 1)) k p (omega arith)
        (omega (arith, body.gap)) (omega (arith, key_at-many len k, body.gap))

  new-IsLeaf : IsLeaf len result.temp new_header k to
  new-IsLeaf = record {
    attr = fields.4 ∙ v.attr;
    body = rw (fields.0, fields.1, fields.2, fields.3) body;
  }

  new_entry :
      (i : ℕ) → 1 ≤ i → i ≤ k → entry len result.temp to i ≡ entry len p lists (low + (i - 1))
  new_entry zero a b = absurd (omega arith)
  new_entry (suc j) a b =
      let e : suc j - 1 ≡ j = omega arith in
      entry-compacted len p (rec_id_ptr p) (key_ptr p) (free_list p) (num_free p) n lists v.body low
        start temp k some_key within some_record j (omega arith)
      ∙ ap (λ x. entry len p lists (low + x)) (sym e)

  packed-Represents :
      (es : ℕ → List ℕ × List ℕ)
      → ((i : ℕ) → 1 ≤ i → i ≤ n → entry len p lists i ≡ es i)
      → Represents len k (λ i. es (low + (i - 1))) (put_header (result.temp, new_header))
  packed-Represents es same =
      put_header-Represents len k result.temp new_header to (λ i. es (low + (i - 1)))
        (new-IsLeaf, λ i a b. new_entry i a b ∙ same (low + (i - 1)) (omega arith) (omega arith))
        fields.5

  -- where its first cell stands
  new_rec_id_ptr : rec_id_ptr (put_header (result.temp, new_header)) ≡ 4096 - 6 * sum
  new_rec_id_ptr =
      load16-congr (put_header (result.temp, new_header)) new_header 8 8
        (copy-start new_header 24 result.temp 8 (omega arith))
        (copy-start new_header 24 result.temp 9 (omega arith))
      ∙ fields.0

-- AM_Compact of the keys low to high of a well-formed leaf, with at least one key among them and
-- at least one record number for each of them: the result is a well-formed leaf without free cells
-- left over from the old one that holds exactly these keys, from 1 on, with their record numbers
-- in the same order.
pub compact-Represents :
    (len n low high : ℕ) (es : ℕ → List ℕ × List ℕ) (p temp : Bytes)
    → Represents len n es p
    → 1 ≤ low
    → low ≤ high
    → high ≤ n
    → ((i : ℕ) → low ≤ i → i ≤ high → (es i).1 ≢ [])
    → Represents len (high + 1 - low) (λ i. es (low + (i - 1))) (compact low high p temp p)
unfolding compact
compact-Represents len n low high es p temp (lists, (v, same), e) a b c h =
    let k = high + 1 - low in
    let kept : (j : ℕ) → j < k → lists (low + j) ≢ [] = λ j l z.
      h (low + j) (omega arith) (omega arith)
        (sym (ap (λ x. x.1) (same (low + j) (omega arith) (omega arith))) ∙ ap (map (load p)) z) in
    let some_key : 1 ≤ k = omega arith in
    let within : low + k ≤ n + 1 = omega arith in
    let e = ptr_lem len p n lists v low a temp k some_key within kept in
    rw (v.attr, e) (packed-Represents len p n lists v low a temp k some_key within kept es same)

-- The cells of the free list of a leaf are free space after AM_Compact of all its keys.
pub compact_room :
    (len n : ℕ) (p temp : Bytes) (lists : ℕ → List ℕ)
    → IsLeaf len p p n lists
    → 1 ≤ n
    → ((i : ℕ) → 1 ≤ i → i ≤ n → lists i ≢ [])
    → rec_id_ptr p + 6 * num_free p ≤ rec_id_ptr (compact 1 n p temp p)
unfolding compact
compact_room len n p temp lists v b h =
    let w = v.body in
    let k = n + 1 - 1 in
    let kept : (j : ℕ) → j < k → lists (1 + j) ≢ [] =
      λ j l. h (1 + j) (omega arith) (omega arith) in
    let some_key : 1 ≤ k = omega arith in
    let within : 1 + k ≤ n + 1 = omega arith in
    let one : 1 ≤ 1 = omega arith in
    let e = ptr_lem len p n lists v 1 one temp k some_key within kept in
    let r = new_rec_id_ptr len p n lists v 1 one temp k some_key within kept in
    let all =
      used_bounded len p (rec_id_ptr p) (key_ptr p) (free_list p) (num_free p) n lists w 0 (suc k)
        (omega arith) in
    let split =
      used_first len p (rec_id_ptr p) (key_ptr p) (free_list p) (num_free p) n lists w 0 k in
    rw (v.attr, e, r) (omega (arith, all, split, w.counted))
