-- ===== src/Am/Bulk/Same.antt =====
-- simple_leaf_insert of am_bulkload.c against AM_InsertintoLeaf of amlayer/aminsert.c.
use database_assignment.Prelude.{
  ℕ, ◌+◌, ◌-◌, ◌%◌, List, [], ◌∷◌, ◌⊎◌, ◌≤◌, ◌<◌, ◌≡◌, inl, inr, refl, ◌∙◌, arith, ltb, ◌==◌, true,
  false, dec_lt, fun_ext, sym, ap, Bool,
}
use database_assignment.Words.{Bytes, word, store, copy, copy-start, copy-outside, store-below}
use database_assignment.Words.Short.{
  short, sub16, load16, store16, store16-outside, load16-copy_ne, load16-store16, load16-store16_ne,
  load16-store_ne,
}
use database_assignment.Am.{rec_id_ptr, key_ptr, free_list, num_keys, key_at, head_at}
use database_assignment.Am.Leaf.{
  middle, insert_new, insert_into_leaf, insert_new_key, insert_not_found, insert_found, take_cell,
  link_cell, shift_up, put_key,
}
use database_assignment.Am.Leaf.View.{IsLeaf}
use database_assignment.Am.Leaf.Insert.{Represents}
use database_assignment.Am.Leaf.Opened.{opened}
use database_assignment.Am.Leaf.Refines.{insert_into_leaf_new}
use database_assignment.Sp.Records.{bytes_of}
use database_assignment.Am.Bulk.{simple_leaf_insert, is_full_leaf}

-- the page in the order in which simple_leaf_insert writes it
abbrev direct : Bytes → ℕ → Bytes → ℕ → ℕ → ℕ → ℕ → Bytes
direct key rid p len at c n = store16 10 (at + (len + 2)) (
    store16 18 n
      (store16 (at + len) c (store16 (c + 4) 0 (store c rid (store16 8 c (copy at key 0 len p))))))

-- and as AM_InsertintoLeaf writes it, the header last
abbrev local : Bytes → ℕ → Bytes → ℕ → ℕ → ℕ → ℕ → Bytes
local key rid p len at c n =
    copy 0 (store16 18 n (store16 8 c (store16 10 (at + (len + 2)) p))) 0 24 (
      store16 (c + 4) 0
        (store c rid (store16 (at + len) c (store16 (at + len) 0 (copy at key 0 len p)))))

store16-at : (a v : ℕ) (p q : Bytes) (x : ℕ) → p x ≡ q x → store16 a v p x ≡ store16 a v q x
unfolding store16
store16-at a v p q x e = rw e refl

store-at : (a v : ℕ) (p q : Bytes) (x : ℕ) → p x ≡ q x → store a v p x ≡ store a v q x
unfolding store
store-at a v p q x e = rw e refl

module _ (key : Bytes) (rid : ℕ) (p : Bytes) (len at c n x : ℕ) (behind : 24 ≤ at)
    (fits : at + (len + 2) ≤ c) where
  header_lem :
      x < 24
      → store16 (at + len) c (store16 (c + 4) 0 (store c rid (store16 8 c (copy at key 0 len p)))) x
        ≡ store16 8 c p x
  header_lem h =
      store16-outside (at + len) c
        (store16 (c + 4) 0 (store c rid (store16 8 c (copy at key 0 len p)))) x (inl (omega arith))
      ∙ (store16-outside (c + 4) 0 (store c rid (store16 8 c (copy at key 0 len p))) x
            (inl (omega arith))
          ∙ (store-below c rid (store16 8 c (copy at key 0 len p)) x (omega arith)
              ∙ store16-at 8 c (copy at key 0 len p) p x
                  (copy-outside at key 0 len p x (inl (omega arith)))))

  fields_lem :
      store16 10 (at + (len + 2)) (store16 18 n (store16 8 c p)) x
      ≡ store16 18 n (store16 8 c (store16 10 (at + (len + 2)) p)) x
  unfolding store16
  fields_lem = ground arith

  abbrev written : Bytes
  written = copy at key 0 len p

  head_lem :
      24 ≤ x
      → store16 (at + len) c (store16 8 c written) x
        ≡ store16 (at + len) c (store16 (at + len) 0 written) x
  unfolding store16
  head_lem h = ground arith

  rest_lem :
      at + (len + 2) ≤ x
      → store16 8 c written x ≡ store16 (at + len) c (store16 (at + len) 0 written) x
  unfolding store16
  rest_lem h = ground arith

  body_lem :
      24 ≤ x
      → store16 (at + len) c (store16 (c + 4) 0 (store c rid (store16 8 c written))) x
        ≡ store16 (c + 4) 0 (store c rid (store16 (at + len) c (store16 (at + len) 0 written))) x
  body_lem h =
      let to = store16 8 c written in
      let from = store16 (at + len) c (store16 (at + len) 0 written) in
      elim (dec_lt x (at + (len + 2))) [
        | yes l ↦
            store16-at (at + len) c (store16 (c + 4) 0 (store c rid to)) to x (
              store16-outside (c + 4) 0 (store c rid to) x (inl (omega arith))
              ∙ store-below c rid to x (omega arith))
            ∙ (head_lem h
                ∙ sym (
                    store16-outside (c + 4) 0 (store c rid from) x (inl (omega arith))
                    ∙ store-below c rid from x (omega arith)))
        | no l ↦
            store16-outside (at + len) c (store16 (c + 4) 0 (store c rid to)) x (inr (omega arith))
            ∙ store16-at (c + 4) 0 (store c rid to) (store c rid from) x
                (store-at c rid to from x (rest_lem (omega arith)))
      ]

  direct-local : direct key rid p len at c n x ≡ local key rid p len at c n x
  direct-local = elim (dec_lt x 24) [
    | yes h ↦
        let q =
          store16 (at + len) c
            (store16 (c + 4) 0 (store c rid (store16 8 c (copy at key 0 len p)))) in
        store16-at 10 (at + (len + 2)) (store16 18 n q) (store16 18 n (store16 8 c p)) x
          (store16-at 18 n q (store16 8 c p) x (header_lem h))
        ∙ (fields_lem
            ∙ sym (
                copy-start (store16 18 n (store16 8 c (store16 10 (at + (len + 2)) p))) 24
                  (store16 (c + 4) 0 (
                    store c rid
                      (store16 (at + len) c (store16 (at + len) 0 (copy at key 0 len p)))))
                  x h))
    | no h ↦
        let q = store16 (at + len) c (store16 (c + 4) 0 (store c rid (store16 8 c written))) in
        store16-outside 10 (at + (len + 2)) (store16 18 n q) x (inr (omega arith))
        ∙ (store16-outside 18 n q x (inr (omega arith))
            ∙ (body_lem (omega arith)
                ∙ sym (
                    copy-outside 0 (store16 18 n (store16 8 c (store16 10 (at + (len + 2)) p))) 0 24
                      (store16 (c + 4) 0
                        (store c rid (store16 (at + len) c (store16 (at + len) 0 written))))
                      x (inr (omega arith)))))
  ]

small_lem : (a : ℕ) → a < short → a % short ≡ a
small_lem a h = omega arith

module _ (len n : ℕ) (key p : Bytes) (rid : ℕ) (lists : ℕ → List ℕ) (v : IsLeaf len p p n lists)
    (k : num_keys p ≡ n) (fits : key_ptr p + (len + 2) + 6 ≤ rec_id_ptr p) where
  abbrev c : ℕ
  c = rec_id_ptr p - 6

  at_lem :
      (24 ≤ key_ptr p) × (n + 1 < short) × (key_ptr p + (len + 2) < short) × (rec_id_ptr p < short)
  at_lem = (
    omega (arith, v.body.keys),
    omega (arith, v.body.keys, v.body.top, fits),
    omega (arith, v.body.top, fits),
    omega (arith, v.body.top),
  )

  c_lem : sub16 (rec_id_ptr p) 6 ≡ c
  c_lem = omega (arith, at_lem, fits)

  abbrev first : Bytes
  first = copy (key_ptr p) key 0 len p

  field_lem : (o : ℕ) → o + 2 ≤ 24 → load16 first o ≡ load16 p o
  field_lem o l = load16-copy_ne (key_ptr p) key 0 len p o (inl (omega (arith, at_lem)))

  abbrev second : Bytes
  second = store16 8 c first

  rec_lem : rec_id_ptr second ≡ c
  rec_lem = load16-store16 8 c first (omega (arith, at_lem))

  abbrev third : Bytes
  third = store16 (c + 4) 0 (store c rid second)

  behind_lem : (o : ℕ) → 10 ≤ o → o + 2 ≤ 24 → load16 third o ≡ load16 p o
  behind_lem o a b =
      load16-store16_ne (c + 4) o 0 (store c rid second) (inr (omega (arith, at_lem, fits)))
      ∙ (load16-store_ne c o rid second (inr (omega (arith, at_lem, fits)))
          ∙ (load16-store16_ne 8 o c first (inl (omega arith)) ∙ field_lem o b))

  abbrev fourth : Bytes
  fourth = store16 (key_ptr p + len) c third

  later_lem : (o : ℕ) → 10 ≤ o → o + 2 ≤ 24 → load16 fourth o ≡ load16 p o
  later_lem o a b =
      load16-store16_ne (key_ptr p + len) o c third (inr (omega (arith, at_lem))) ∙ behind_lem o a b

  direct_lem : simple_leaf_insert key rid p ≡ direct key rid p len (key_ptr p) c (n + 1)
  unfolding simple_leaf_insert
  direct_lem =
      rw
        (
          v.attr,
          field_lem 8 (omega arith),
          c_lem,
          rec_lem,
          behind_lem 16 (omega arith) (omega arith) ∙ v.attr,
          later_lem 18 (omega arith) (omega arith) ∙ k,
          small_lem (n + 1) at_lem.1,
          load16-store16_ne 18 10 (n + 1) fourth (inr (omega arith))
              ∙ later_lem 10 (omega arith) (omega arith),
          small_lem (key_ptr p + (len + 2)) at_lem.2,
        )
        refl

  abbrev header : Bytes
  header = store16 10 (key_ptr p + (len + 2)) p

  header_field : (o : ℕ) → (o + 2 ≤ 10) ⊎ (12 ≤ o) → load16 header o ≡ load16 p o
  header_field o l = load16-store16_ne 10 o (key_ptr p + (len + 2)) p (omega arith)

  at_index : key_at len (n + 1) ≡ key_ptr p
  at_index = sym v.body.keys

  head_index : head_at len (n + 1) ≡ key_ptr p + len
  head_index = omega (arith, v.body.keys)

  local_lem :
      free_list p ≡ 0
      → insert_new_key key rid (n + 1) (p, p) ≡ local key rid p len (key_ptr p) c (n + 1)
  unfolding insert_new_key insert_not_found insert_found take_cell link_cell shift_up put_key
  local_lem e =
      let none_left : num_keys p + 1 - (n + 1) ≡ 0 = omega (arith, k) in
      rw
        (
          v.attr,
          none_left,
          small_lem (key_ptr p + (len + 2)) at_lem.2,
          header_field 12 (inr (omega arith)) ∙ e,
          header_field 8 (inl (omega arith)),
          header_field 16 (inr (omega arith)) ∙ v.attr,
          c_lem,
          at_index,
          load16-store16 (key_ptr p + len) 0 first (omega arith),
          load16-store16_ne 8 18 c header (inl (omega arith))
              ∙ (header_field 18 (inr (omega arith)) ∙ k),
          small_lem (n + 1) at_lem.1,
        )
        refl

  same_lem : free_list p ≡ 0 → simple_leaf_insert key rid p ≡ insert_new_key key rid (n + 1) (p, p)
  same_lem e =
      direct_lem
      ∙ (fun_ext
            (λ x. direct-local key rid p len (key_ptr p) c (n + 1) x at_lem.0 (omega (arith, fits)))
          ∙ sym (local_lem e))

  second_rec : rec_id_ptr third ≡ c
  second_rec =
      load16-store16_ne (c + 4) 8 0 (store c rid second) (inr (omega (arith, at_lem, fits)))
      ∙ (load16-store_ne c 8 rid second (inr (omega (arith, at_lem, fits))) ∙ rec_lem)

  fields_after :
      (key_ptr (simple_leaf_insert key rid p) ≡ key_ptr p + (len + 2))
      × (rec_id_ptr (simple_leaf_insert key rid p) ≡ rec_id_ptr p - 6)
      × (free_list (simple_leaf_insert key rid p) ≡ free_list p)
  fields_after =
      let q = store16 18 (n + 1) fourth in
      rw direct_lem (
        load16-store16 10 (key_ptr p + (len + 2)) q at_lem.2,
        load16-store16_ne 10 8 (key_ptr p + (len + 2)) q (inr (omega arith))
            ∙ (load16-store16_ne 18 8 (n + 1) fourth (inr (omega arith))
                ∙ (load16-store16_ne (key_ptr p + len) 8 c third (inr (omega (arith, at_lem)))
                    ∙ second_rec)),
        load16-store16_ne 10 12 (key_ptr p + (len + 2)) q (inl (omega arith))
            ∙ (load16-store16_ne 18 12 (n + 1) fourth (inr (omega arith))
                ∙ later_lem 12 (omega arith) (omega arith)),
      )

-- On a well-formed leaf without free cells that does not pass the test of AM_BulkLoad for a full
-- leaf, AM_InsertintoLeaf of a new key behind the last one answers TRUE, and simple_leaf_insert
-- writes the same page as it does.
pub simple_leaf_insert_lem :
    (len n : ℕ) (es : ℕ → List ℕ × List ℕ) (temp key p : Bytes) (rid : ℕ)
    → Represents len n es p
    → free_list p ≡ 0
    → is_full_leaf len p ≡ false
    → insert_into_leaf temp len key rid (n + 1) false p ≡ (true, simple_leaf_insert key rid p)
unfolding insert_into_leaf insert_new is_full_leaf
simple_leaf_insert_lem len n es temp key p rid (lists, (v, m), k) e f =
    let fits : key_ptr p + (len + 2) + 6 ≤ rec_id_ptr p = ground arith in
    let room : ltb (middle p) (6 + (len + 2)) ≡ false =
      ground (arith, v.body.gap, v.body.top, fits) in
    let none_free : (free_list p == 0) ≡ true = ground arith in
    rw (none_free, room, same_lem len n key p rid lists v k fits e) refl

-- What simple_leaf_insert makes of a well-formed leaf
pub simple_leaf_insert-Represents :
    (len n : ℕ) (es : ℕ → List ℕ × List ℕ) (key p : Bytes) (rid : ℕ)
    → Represents len n es p
    → free_list p ≡ 0
    → is_full_leaf len p ≡ false
    → rid < word
    → Represents len
        (n + 1)
        (opened (n + 1) (bytes_of key 0 len, rid ∷ []) es)
        (simple_leaf_insert key rid p)
      × (key_ptr (simple_leaf_insert key rid p) ≡ key_ptr p + (len + 2))
      × (rec_id_ptr (simple_leaf_insert key rid p) ≡ rec_id_ptr p - 6)
      × (free_list (simple_leaf_insert key rid p) ≡ 0)
unfolding is_full_leaf
simple_leaf_insert-Represents len n es key p rid (lists, (v, m), k) e f w =
    let fits : key_ptr p + (len + 2) + 6 ≤ rec_id_ptr p = ground arith in
    let same = simple_leaf_insert_lem len n es key key p rid (lists, (v, m), k) e f in
    let (a, b, d) = fields_after len n key p rid lists v k fits in
    elim (insert_into_leaf_new key len n es key p rid (n + 1) (lists, (v, m), k) (omega arith)
      (omega arith) w (inl e)) [
        | inl (_, r) ↦
            absurd
              (let no_room : true ≡ false = ap (λ (x : Bool × Bytes). x.0) (sym same ∙ r) in cc)
        | inr (_, _, r) ↦ (rw same at r, a, b, d ∙ e)
      ]
