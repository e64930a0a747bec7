-- ===== src/Am/Tree/Empty.antt =====
-- The page that AM_CreateIndex of amlayer/amfns.c writes.
use database_assignment.Prelude.{
  ℕ, ◌+◌, ◌*◌, ◌%◌, ◌≤◌, ◌≡◌, refl, ◌∙◌, List, [], arith, member-nil, distinct-nil,
}
use database_assignment.Words.{Bytes, store, copy-start, minus_one}
use database_assignment.Words.Short.{load16, store16, load16-store16, load16-congr}
use database_assignment.Sp.{page_size}
use database_assignment.Am.{
  leaf_header, int_header, next_leaf_at, rec_id_ptr_at, key_ptr_at, free_list_at, num_free_at,
  attr_length_at, num_keys_at, max_keys_at, rec_id_ptr, key_ptr, free_list, num_free, attr_length,
  num_keys, child_at,
}
use database_assignment.Am.Leaf.{put_header}
use database_assignment.Am.Leaf.View.{IsBody, IsLeaf}
use database_assignment.Am.Leaf.Insert.{Represents, put_header-Represents}
use database_assignment.Am.Node.{put_byte}
use database_assignment.Am.Tree.Entries.{max_keys_for, empty_leaf}

-- the number of keys is even, and that many keys fit into an internal node
pub max_keys_for-even : (len : ℕ) → max_keys_for len % 2 ≡ 0
unfolding max_keys_for
max_keys_for-even len = ground arith

max_keys_for-fits : (len : ℕ) → int_header + max_keys_for len * (len + 4) + 4 ≤ page_size
unfolding max_keys_for
max_keys_for-fits len = grind arith

module _ (junk : Bytes) (len : ℕ) (small : len ≤ 255) where
  abbrev h : Bytes
  h = empty_leaf junk len

  max_lem : load16 h max_keys_at ≡ max_keys_for len
  unfolding empty_leaf
  max_lem =
      load16-store16 20 (max_keys_for len)
        (store16 num_keys_at 0 (
          store16 attr_length_at len (
            store16 num_free_at 0 (
              store16 free_list_at 0 (
                store16 key_ptr_at leaf_header (
                  store16 rec_id_ptr_at page_size
                    (store next_leaf_at minus_one (put_byte 0 b'l' junk))))))))
        (grind (arith, max_keys_for-fits len))

  rec_lem : rec_id_ptr h ≡ page_size
  unfolding empty_leaf load16 store16
  rec_lem = refl

  key_lem : key_ptr h ≡ leaf_header
  unfolding empty_leaf load16 store16
  key_lem = refl

  free_lem : free_list h ≡ 0
  unfolding empty_leaf load16 store16
  free_lem = refl

  num_free_lem : num_free h ≡ 0
  unfolding empty_leaf load16 store16
  num_free_lem = refl

  num_keys_lem : num_keys h ≡ 0
  unfolding empty_leaf load16 store16
  num_keys_lem = refl

  attr_lem : attr_length h ≡ len
  unfolding empty_leaf load16 store16
  attr_lem = omega arith

  body_lem : (p : Bytes) → IsBody len p page_size leaf_header 0 0 0 (λ _. [])
  body_lem p = record {
    keys = omega arith;
    gap = omega arith;
    top = omega arith;
    aligned = refl;
    chain = λ i a b. omega arith;
    free_chain = refl;
    cell = λ i c a m. ground (arith, member-nil c);
    alone = λ i j c a b m k. ground (arith, member-nil c);
    once = λ i a. distinct-nil;
    counted = refl;
    few = omega arith;
  }

  -- For attributes of at most 255 bytes, the page that AM_CreateIndex writes is a well-formed leaf
  -- without keys, and the largest number of keys of an internal node that it notes is even and
  -- such that the keys and page numbers fit into a page.
  pub empty_leaf-Represents :
      (p : Bytes) (es : ℕ → List ℕ × List ℕ)
      → Represents len 0 es (put_header (p, empty_leaf junk len))
        × (load16 (put_header (p, empty_leaf junk len)) max_keys_at % 2 ≡ 0)
        × (child_at len (load16 (put_header (p, empty_leaf junk len)) max_keys_at) + 4 ≤ page_size)
  empty_leaf-Represents p es =
      let leaf : IsLeaf len p h 0 (λ _. []) = record {
        attr = attr_lem;
        body = rw (rec_lem, key_lem, free_lem, num_free_lem) (body_lem p);
      } in
      let max : load16 (put_header (p, h)) max_keys_at ≡ max_keys_for len =
        load16-congr (put_header (p, h)) h 20 20 (copy-start h 24 p 20 (omega arith))
          (copy-start h 24 p 21 (omega arith))
        ∙ max_lem in
      (
        put_header-Represents len 0 p h (λ _. []) es (leaf, λ i a b. absurd (omega arith))
            num_keys_lem,
        rw max (max_keys_for-even len),
        rw max (max_keys_for-fits len),
      )
