-- ===== src/Am/Leaf/Refines.antt =====
-- AM_InsertintoLeaf of amlayer/aminsert.c refines the insertion into a sequence of keys with their
-- record numbers.
use database_assignment.Prelude.{
  ℕ, ◌+◌, ◌-◌, ◌≤◌, ◌<◌, ◌≡◌, ◌≢◌, ◌⊎◌, inl, inr, refl, ◌∙◌, Bool, true, false, List, [], ◌∷◌,
  arith, ltb, ◌==◌, if◌then◌else◌, Bool-cases,
}
use database_assignment.Words.{Bytes, word}
use database_assignment.Sp.Records.{bytes_of}
use database_assignment.Am.{rec_id_ptr, key_ptr, free_list}
use database_assignment.Am.Leaf.{
  insert_found, insert_new_key, insert_old, insert_new, insert_into_leaf, middle,
}
use database_assignment.Am.Leaf.View.{IsLeaf, entry}
use database_assignment.Am.Leaf.Found.{with_rec, HasCell, found-Holds, num_keys-found}
use database_assignment.Am.Leaf.Opened.{opened, place}
use database_assignment.Am.Leaf.Insert.{Represents, put_header-Represents, new_key-Represents}

pub Represents-congr :
    (len n : ℕ) (es to : ℕ → List ℕ × List ℕ) (p : Bytes)
    → ((i : ℕ) → 1 ≤ i → i ≤ n → es i ≡ to i)
    → Represents len n es p
    → Represents len n to p
Represents-congr len n es to p h (lists, (v, m), e) = (lists, (v, λ i a b. m i a b ∙ h i a b), e)

with_rec-congr :
    (rec_id index : ℕ) (es to : ℕ → List ℕ × List ℕ) (i : ℕ)
    → es i ≡ to i
    → with_rec rec_id index es i ≡ with_rec rec_id index to i
with_rec-congr rec_id index es to i e = rw e refl

pub opened-congr :
    (n index : ℕ) (new : List ℕ × List ℕ) (es to : ℕ → List ℕ × List ℕ)
    → 1 ≤ index
    → ((i : ℕ) → 1 ≤ i → i ≤ n → es i ≡ to i)
    → index ≤ n + 1
    → (i : ℕ) → 1 ≤ i
    → i ≤ n + 1
    → opened index new es i ≡ opened index new to i
opened-congr n index new es to start h within i a b = elim (place i index) [
  | inl (l, f) ↦ rw (f, h i a (omega arith)) refl
  | inr (inl (l, f, g)) ↦ rw (f, g) refl
  | inr (inr (l, f, g)) ↦ rw (f, g, h (i - 1) (omega arith) (omega arith)) refl
]

-- What an insertion gives: a refusal, under the condition `full`, with the page as it was; or a page that
-- represents the entries `es 1`, …, `es n`.
abbrev pub Gives : ℕ → ℕ → (ℕ → List ℕ × List ℕ) → Bool → Bytes → Bool × Bytes → Type 0
Gives len n es full p r =
    ((full ≡ true) × (r ≡ (false, p))) ⊎ ((full ≡ false) × (r.0 ≡ true) × Represents len n es r.1)

-- no free cell, and not `size` bytes left
abbrev pub is_full : ℕ → Bytes → Bool
is_full size p = if free_list p == 0 then ltb (rec_id_ptr p - key_ptr p) size else false

middle_lem :
    (len n : ℕ) (p : Bytes) (lists : ℕ → List ℕ)
    → IsLeaf len p p n lists
    → middle p ≡ rec_id_ptr p - key_ptr p
middle_lem len n p lists v = omega (arith, v.body.gap, v.body.top)

cell_lem : (p : Bytes) → is_full 6 p ≡ false → HasCell p
cell_lem p h = ground arith

-- AM_InsertintoLeaf of a record number for the key at an index, in a well-formed leaf that holds a
-- sequence of keys with their record numbers: it answers FALSE and leaves the page as it is if and
-- only if there is neither a free cell nor room for one; otherwise it answers TRUE, and the page
-- is a well-formed leaf in which this key has the record number in front of its others and every
-- other entry is as it was.
pub insert_into_leaf_old :
    (temp : Bytes) (size len n : ℕ) (es : ℕ → List ℕ × List ℕ) (value p : Bytes) (rec_id index : ℕ)
    → Represents len n es p
    → 1 ≤ index
    → index ≤ n
    → rec_id < word
    → Gives len n
        (with_rec rec_id index es)
        (is_full 6 p)
        p
        (insert_into_leaf temp size value rec_id index true p)
unfolding insert_into_leaf insert_old
insert_into_leaf_old temp size len n es value p rec_id index (lists, (v, m), e) a b w =
    rw (middle_lem len n p lists v) (elim (Bool-cases (is_full 6 p)) [
      | inl f ↦ rw f (inl (refl, refl))
      | inr f ↦
          let (to, (u, k)) = found-Holds len p p n lists v rec_id index (cell_lem p f) a b w in
          let r = insert_found rec_id index (p, p) in
          rw f (
            inr (
              refl,
              refl,
              put_header-Represents len n r.0 r.1 to (with_rec rec_id index es)
                  (
                    u,
                    λ i s t.
                        k i s t ∙ with_rec-congr rec_id index (entry len p lists) es i (m i s t),
                  )
                  (num_keys-found rec_id index p p ∙ e),
            ))
    ])

-- AM_InsertintoLeaf of a new key at an index, in a well-formed leaf that holds a sequence of keys
-- with their record numbers: where the free list is empty or the key and its list head fit between
-- the keys and the cells, so that nothing is compacted, it answers FALSE and leaves the page as it
-- is if and only if the free list is empty and there is no room for the key, its list head and a
-- cell; otherwise it answers TRUE, and the page is a well-formed leaf with the key and the one
-- record number at the index, the entries before it as they were and those behind it moved up by
-- one place.
pub insert_into_leaf_new :
    (temp : Bytes) (len n : ℕ) (es : ℕ → List ℕ × List ℕ) (value p : Bytes) (rec_id index : ℕ)
    → Represents len n es p
    → 1 ≤ index
    → index ≤ n + 1
    → rec_id < word
    → (free_list p ≡ 0) ⊎ (key_ptr p + (len + 2) < rec_id_ptr p)
    → Gives len
        (n + 1)
        (opened index (bytes_of value 0 len, rec_id ∷ []) es)
        (is_full (6 + (len + 2)) p)
        p
        (insert_into_leaf temp len value rec_id index false p)
unfolding insert_into_leaf insert_new
insert_into_leaf_new temp len n es value p rec_id index (lists, (v, m), e) a b w r =
    let q : middle p ≡ rec_id_ptr p - key_ptr p = middle_lem len n p lists v in
    let done : (free_list p ≢ 0) × (key_ptr p + (len + 2) ≤ rec_id_ptr p)
          ⊎ (key_ptr p + (len + 2) + 6 ≤ rec_id_ptr p)
        → Represents len (n + 1) (opened index (bytes_of value 0 len, rec_id ∷ []) es)
            (insert_new_key value rec_id index (p, p)) =
      λ room.
        Represents-congr len (n + 1)
          (opened index (bytes_of value 0 len, rec_id ∷ []) (entry len p lists))
          (opened index (bytes_of value 0 len, rec_id ∷ []) es)
          (insert_new_key value rec_id index (p, p))
          (opened-congr n index (bytes_of value 0 len, rec_id ∷ []) (entry len p lists) es a m b)
          (new_key-Represents len p p n lists v e value rec_id index a b w room) in
    elim (Bool-cases (free_list p == 0)) [
      | inl f ↦ elim (Bool-cases (ltb (rec_id_ptr p - key_ptr p) (6 + (len + 2)))) [
        | inl g ↦ rw (f, q, g) (inl (refl, refl))
        | inr g ↦ rw (f, q, g) (inr (refl, refl, done (inr (ground arith))))
      ]
      | inr f ↦
          let g : ltb (key_ptr p + (len + 2)) (rec_id_ptr p) ≡ true = ground arith in
          rw (f, g) (inr (refl, refl, done (inl (λ x. ground arith, ground arith))))
    ]
