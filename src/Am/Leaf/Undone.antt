-- ===== src/Am/Leaf/Undone.antt =====
-- A deletion from a leaf of amlayer/ after the insertion of the same record number.
use database_assignment.Prelude.{
  ℕ, ◌+◌, ◌-◌, ◌≤◌, ◌<◌, ◌≡◌, ◌⊎◌, inl, inr, refl, ap, sym, ◌∙◌, true, false, List, [], ◌∷◌, arith,
  ltb, ◌==◌, Option, some, member, member-cons, Bool-cases,
}
use database_assignment.Words.{Bytes, word}
use database_assignment.Sp.Records.{bytes_of}
use database_assignment.Am.{key_ptr, rec_id_ptr, free_list}
use database_assignment.Am.Leaf.{insert_into_leaf}
use database_assignment.Am.Leaf.Opened.{opened}
use database_assignment.Am.Leaf.Insert.{Represents}
use database_assignment.Am.Leaf.Refines.{is_full, Represents-congr, insert_into_leaf_new}
use database_assignment.Am.Leaf.Unlink.{erase-here}
use database_assignment.Am.Leaf.Closed.{closed}
use database_assignment.Am.Leaf.Deletes.{Deletes, delete_in_leaf-Deletes}
use database_assignment.Am.Tree.Entries.{delete_in_leaf}

-- A page results, and it represents the entries.
abbrev pub Restores : ℕ → ℕ → (ℕ → List ℕ × List ℕ) → Option Bytes → Type 0
Restores len n es res = (q : Bytes) × (res ≡ some q) × Represents len n es q

closed-opened :
    (index : ℕ) (new : List ℕ × List ℕ) (es : ℕ → List ℕ × List ℕ) (i : ℕ)
    → closed index (opened index new es) i ≡ es i
closed-opened index new es i = elim (Bool-cases (ltb i index)) [
  | inl e ↦ rw e refl
  | inr e ↦
      let a : ltb (i + 1) index ≡ false = ground arith in
      let b : (i + 1 == index) ≡ false = ground arith in
      let c : i + 1 - 1 ≡ i = omega arith in rw (e, a, b, c) refl
]

opened-here :
    (index : ℕ) (new : List ℕ × List ℕ) (es : ℕ → List ℕ × List ℕ) → opened index new es index ≡ new
opened-here index new es =
    let a : ltb index index ≡ false = ground arith in
    let b : (index == index) ≡ true = ground arith in rw (a, b) refl

module _ (len n : ℕ) (es : ℕ → List ℕ × List ℕ) (bytes : List ℕ) (rec_id index : ℕ) where
  abbrev with_key : ℕ → List ℕ × List ℕ
  with_key = opened index (bytes, rec_id ∷ []) es

  records : (with_key index).1 ≡ rec_id ∷ []
  records = ap (λ (x : List ℕ × List ℕ). x.1) (opened-here index (bytes, rec_id ∷ []) es)

  Restores-new :
      (res : Option Bytes) → Deletes len (n + 1) with_key index rec_id res → Restores len n es res
  Restores-new res (inl (e, m)) =
      let m' : member rec_id (rec_id ∷ []) ≡ false = rw records at m in
      absurd (ground (arith, member-cons rec_id rec_id []))
  Restores-new res (inr (q, e, m, inl (left, r))) =
      absurd (left (rw (records, erase-here rec_id rec_id [] refl) refl))
  Restores-new res (inr (q, e, m, inr (gone, r))) =
      let s : n + 1 - 1 ≡ n = omega arith in
      (
        q,
        e,
        Represents-congr len n (closed index with_key) es q
            (λ i a b. closed-opened index (bytes, rec_id ∷ []) es i) (rw s at r),
      )

-- After AM_InsertintoLeaf of a new key with a record number into a well-formed leaf that has room
-- for it without being compacted, AM_DeleteEntry of this number at the index finds it, and the
-- page is a well-formed leaf that holds the same entries as before.
pub delete_in_leaf-insert_into_leaf :
    (temp : Bytes) (len n : ℕ) (es : ℕ → List ℕ × List ℕ) (value p : Bytes) (rec_id index : ℕ)
    → Represents len n es p
    → 1 ≤ index
    → index ≤ n + 1
    → rec_id < word
    → (free_list p ≡ 0) ⊎ (key_ptr p + (len + 2) < rec_id_ptr p)
    → is_full (6 + (len + 2)) p ≡ false
    → Restores len n es
        (delete_in_leaf len rec_id index (insert_into_leaf temp len value rec_id index false p).1)
delete_in_leaf-insert_into_leaf temp len n es value p rec_id index v a b w room f =
    let q = (insert_into_leaf temp len value rec_id index false p).1 in
    elim (insert_into_leaf_new temp len n es value p rec_id index v a b w room) [
      | inl (e, _) ↦ absurd (let no_room : true ≡ false = sym e ∙ f in cc)
      | inr (_, _, r) ↦
          Restores-new len n es (bytes_of value 0 len) rec_id index
            (delete_in_leaf len rec_id index q)
            (delete_in_leaf-Deletes len (n + 1)
              (opened index (bytes_of value 0 len, rec_id ∷ []) es) q rec_id index r a b)
    ]
