-- ===== src/Am/Leaf/Replaced.antt =====
-- AM_InsertintoLeaf of amlayer/aminsert.c where it compacts the page first.
use database_assignment.Prelude.{
  ℕ, ◌+◌, ◌-◌, ◌*◌, ◌≤◌, ◌<◌, ◌≡◌, ◌≢◌, inl, inr, refl, ap, sym, ◌∙◌, Bool, true, false, List, [],
  ◌∷◌, map, arith, ltb, ◌==◌, if◌then◌else◌, Bool-cases,
}
use database_assignment.Words.{Bytes, word, load, copy, copy-start, load-congr}
use database_assignment.Words.Short.{load16, load16-congr}
use database_assignment.Sp.Records.{bytes_of, bytes_of-congr}
use database_assignment.Am.{rec_id_ptr, key_ptr, free_list, num_free, key_at, head_at}
use database_assignment.Am.Leaf.View.{Chain, IsBody, entry, key_at-lt, Chain-congr, records-congr}
use database_assignment.Am.Leaf.{insert_new_key, insert_new, insert_into_leaf, compact, sub64}
use database_assignment.Am.Leaf.Opened.{opened}
use database_assignment.Am.Leaf.Insert.{Represents, new_key-Represents}
use database_assignment.Am.Leaf.Refines.{Gives, Represents-congr, opened-congr}
use database_assignment.Am.Leaf.Repacked.{compact-Represents, compact_room}

-- What a page holds is in its 4096 bytes.
Represents-same :
    (len n : ℕ) (es : ℕ → List ℕ × List ℕ) (p q : Bytes)
    → ((x : ℕ) → x < 4096 → q x ≡ p x)
    → Represents len n es p
    → Represents len n es q
Represents-same len n es p q h (lists, (v, m), e) =
    let field : (o : ℕ) → o + 2 ≤ 4096 → load16 q o ≡ load16 p o =
      λ o l. load16-congr q p o o (h o (omega arith)) (h (o + 1) (omega arith)) in
    let w = v.body in
    let chain : (ptr i : ℕ) → i ≤ n → Chain p ptr (lists i) → Chain q ptr (lists i) = λ ptr i l.
      Chain-congr p q ptr (lists i) (λ c m. field (c + 4) (omega (arith, w.cell i c l m))) in
    let head : (i : ℕ) → 1 ≤ i → i ≤ n → key_at len i + (len + 2) ≤ 4096 =
      λ i a b. omega (arith, key_at-lt len i (n + 1) a (omega arith), w.keys, w.gap, w.top) in
    let body : IsBody len q (rec_id_ptr p) (key_ptr p) (free_list p) (num_free p) n lists = record {
      keys = w.keys;
      gap = w.gap;
      top = w.top;
      aligned = w.aligned;
      chain = λ i a b.
          rw (field (head_at len i) (omega (arith, head i a b)))
            (chain (load16 p (head_at len i)) i b (w.chain i a b));
      free_chain = chain (free_list p) 0 (omega arith) w.free_chain;
      cell = w.cell;
      alone = w.alone;
      once = w.once;
      counted = w.counted;
      few = w.few;
    } in
    (
      lists,
      (
        record {
          attr = field 16 (omega arith) ∙ v.attr;
          body =
              rw
                (
                  field 8 (omega arith),
                  field 10 (omega arith),
                  field 12 (omega arith),
                  field 14 (omega arith),
                )
                body;
        },
        λ i a b.
            rw
              (
                bytes_of-congr q p (key_at len i) (key_at len i) len
                    (λ x l. h (key_at len i + x) (omega (arith, head i a b))),
                records-congr p q (lists i)
                    (λ c k. load-congr q p c (λ x s t. h x (omega (arith, w.cell i c b k)))),
              )
              (m i a b),
      ),
      field 18 (omega arith) ∙ e,
    )

-- not room enough for the key, its list head and a cell, the free cells included
abbrev pub is_crowded : ℕ → Bytes → Bool
is_crowded len p =
    if ltb (len + 2 + 6) (num_free p * 6 + (rec_id_ptr p - key_ptr p)) then false else true

module _ (temp : Bytes) (len n : ℕ) (es : ℕ → List ℕ × List ℕ) (value p : Bytes) (rec_id index : ℕ)
    (a : 1 ≤ index) (b : index ≤ n + 1) (small : rec_id < word) (some_key : 1 ≤ n)
    (some_record : (i : ℕ) → 1 ≤ i → i ≤ n → (es i).1 ≢ []) where
  -- the page after bcopy(tempPage, pageBuf, AM_PAGESIZE)
  abbrev copied : Bytes
  copied = copy 0 (compact 1 n p temp p) 0 4096 p

  same_bytes : (x : ℕ) → x < 4096 → copied x ≡ compact 1 n p temp p x
  same_bytes x l = copy-start (compact 1 n p temp p) 4096 p x l

  copied-Represents : Represents len n es p → Represents len n es copied
  copied-Represents r =
      let e : n + 1 - 1 ≡ n = omega arith in
      let kept = rw e at (
        compact-Represents len n 1 n es p temp r (omega arith) (omega arith) (omega arith)
          some_record) in
      Represents-same len n es (compact 1 n p temp p) copied same_bytes (
        Represents-congr len n (λ i. es (1 + (i - 1))) es (compact 1 n p temp p)
          (λ i s t. (let f : 1 + (i - 1) ≡ i = omega arith in rw f refl)) kept)

  copied_room : Represents len n es p → rec_id_ptr p + 6 * num_free p ≤ rec_id_ptr copied
  copied_room (lists, (v, same), e) =
      let full : (i : ℕ) → 1 ≤ i → i ≤ n → lists i ≢ [] =
        λ i s t z. some_record i s t (sym (ap (λ x. x.1) (same i s t)) ∙ ap (map (load p)) z) in
      let f : rec_id_ptr copied ≡ rec_id_ptr (compact 1 n p temp p) =
        load16-congr copied (compact 1 n p temp p) 8 8 (same_bytes 8 (omega arith))
          (same_bytes 9 (omega arith)) in
      omega (arith, f, compact_room len n p temp lists v some_key full)

  added-Represents :
      (r : Represents len n es p)
      → len + 2 + 6 < num_free p * 6 + (rec_id_ptr p - key_ptr p)
      → Represents len
          (n + 1)
          (opened index (bytes_of value 0 len, rec_id ∷ []) es)
          (insert_new_key value rec_id index (copied, copied))
  added-Represents r l =
      let more = copied_room r in
      let (old, (u, _), _) = r in
      let (lists, (v, same), e) = copied-Represents r in
      let room : key_ptr copied + (len + 2) + 6 ≤ rec_id_ptr copied =
        omega (arith, more, v.body.keys, u.body.keys, u.body.gap) in
      Represents-congr len (n + 1)
        (opened index (bytes_of value 0 len, rec_id ∷ []) (entry len copied lists))
        (opened index (bytes_of value 0 len, rec_id ∷ []) es)
        (insert_new_key value rec_id index (copied, copied))
        (opened-congr n index (bytes_of value 0 len, rec_id ∷ []) (entry len copied lists) es a same
          b)
        (new_key-Represents len copied copied n lists v e value rec_id index a b small (inr room))

  -- AM_InsertintoLeaf of a new key at an index, in a well-formed leaf that holds a sequence of
  -- keys, at least one, each with at least one record number, where there are free cells and the
  -- key with its list head does not fit with a byte to spare between the keys and the cells: it
  -- answers FALSE and leaves the page as it is if and only if the space between the keys and the
  -- cells and the free cells together are not more than the key, its list head and a cell take;
  -- otherwise it compacts the page and answers TRUE, and the page is a well-formed leaf with the
  -- key and the one record number at the index, the entries before it as they were and those
  -- behind it moved up by one place.
  pub insert_into_leaf_compacted :
      Represents len n es p
      → free_list p ≢ 0
      → rec_id_ptr p ≤ key_ptr p + (len + 2)
      → Gives len
          (n + 1)
          (opened index (bytes_of value 0 len, rec_id ∷ []) es)
          (is_crowded len p)
          p
          (insert_into_leaf temp len value rec_id index false p)
  unfolding insert_into_leaf insert_new
  insert_into_leaf_compacted r c d =
      let (lists, (v, m), e) = r in
      let w = v.body in
      let f : (free_list p == 0) ≡ false = ground arith in
      let g : ltb (key_ptr p + (len + 2)) (rec_id_ptr p) ≡ false = ground arith in
      let s : sub64 (num_free p * 6 + rec_id_ptr p) (key_ptr p)
          ≡ num_free p * 6 + (rec_id_ptr p - key_ptr p) =
        omega (arith, w.gap, w.top, w.few) in
      elim (Bool-cases (ltb (len + 2 + 6) (num_free p * 6 + (rec_id_ptr p - key_ptr p)))) [
        | inl h ↦ rw (f, g, s, h, e) (inr (refl, refl, added-Represents r (ground arith)))
        | inr h ↦ rw (f, g, s, h, e) (inl (refl, refl))
      ]
