-- ===== src/Am/Leaf/Deletes.antt =====
-- AM_DeleteEntry of amlayer/amfns.c on the bytes of a leaf refines the removal of a record number from
-- the sequence of keys with their record numbers.
use database_assignment.Prelude.{
  ℕ, ◌-◌, ◌≤◌, ◌≡◌, ◌≢◌, ◌⊎◌, inl, inr, refl, sym, true, false, List, [], ◌∷◌, map, arith, Option,
  some, none, member, remove,
}
use database_assignment.Words.{Bytes, load}
use database_assignment.Words.Short.{load16}
use database_assignment.Am.{num_keys, head_at}
use database_assignment.Am.Leaf.{put_header}
use database_assignment.Am.Leaf.View.{Chain, IsLeaf, entry}
use database_assignment.Am.Leaf.Insert.{Represents}
use database_assignment.Am.Leaf.Unlink.{erase, IsLink, unlinked, IsFound}
use database_assignment.Am.Leaf.Closed.{closed}
use database_assignment.Am.Tree.Entries.{find_cell, free_cell, drop_key, delete_in_leaf}
use database_assignment.Am.Leaf.Removed.{
  without, records_lem, search_lem, head-Chain, kept_lem, gone_lem,
}

-- What a deletion gives: nothing, if the record number is not there; or a page without it, which is also
-- without the key, if that was its last one.
abbrev pub Deletes : ℕ → ℕ → (ℕ → List ℕ × List ℕ) → ℕ → ℕ → Option Bytes → Type 0
Deletes len n es index rec_id res =
    ((res ≡ none) × (member rec_id (es index).1 ≡ false))
    ⊎ ((q : Bytes) × (res ≡ some q)
        × (member rec_id (es index).1 ≡ true)
        × (((erase rec_id (es index).1 ≢ []) × Represents len n (without rec_id index es) q)
            ⊎ ((erase rec_id (es index).1 ≡ []) × Represents len (n - 1) (closed index es) q)))

module _ (len n : ℕ) (es : ℕ → List ℕ × List ℕ) (p : Bytes) (rec_id index : ℕ) (lists : ℕ → List ℕ)
    (v : IsLeaf len p p n lists) (m : (i : ℕ) → 1 ≤ i → i ≤ n → entry len p lists i ≡ es i)
    (k : num_keys p ≡ n) (start : 1 ≤ index) (within : index ≤ n) where
  -- the page, by the list that is left
  rest_lem :
      (l c : ℕ) (cs : List ℕ)
      → remove c (lists index) ≡ cs
      → member c (lists index) ≡ true
      → IsLink (head_at len index) (lists index) c l
      → Chain
          (unlinked p l c)
          (load16 (unlinked p l c) (head_at len index))
          (remove c (lists index))
      → map (load p) (remove c (lists index)) ≡ erase rec_id (map (load p) (lists index))
      → ((erase rec_id (es index).1 ≢ [])
          × Represents len n
              (without rec_id index es)
              (put_header (drop_key len index (free_cell l c (p, p)))))
        ⊎ ((erase rec_id (es index).1 ≡ [])
            × Represents len
                (n - 1)
                (closed index es)
                (put_header (drop_key len index (free_cell l c (p, p)))))
  rest_lem l c [] e here link chain records =
      let at =
        rw e at (
          head-Chain len n es p rec_id index lists v m k start within l c here link chain
            records) in
      inr (
        rw ((records_lem len n es p rec_id index lists v m k start within), sym records, e) refl,
        gone_lem len n es p rec_id index lists v m k start within l c here link chain records
            (ground arith),
      )
  rest_lem l c (d ∷ ds) e here link chain records =
      let (at, z, _) =
        rw e at (
          head-Chain len n es p rec_id index lists v m k start within l c here link chain
            records) in
      inl (
        rw ((records_lem len n es p rec_id index lists v m k start within), sym records, e)
            (λ q. ground arith),
        kept_lem len n es p rec_id index lists v m k start within l c here link chain records
            (ground arith),
      )

  deletes_lem :
      (res : Option (ℕ × ℕ))
      → IsFound p rec_id (head_at len index) (lists index) res
      → Deletes len n es index rec_id (elim res [
        | none ↦ none
        | some r ↦ some (put_header (drop_key len index (free_cell r.0 r.1 (p, p))))
      ])
  deletes_lem res (inl (e, absent)) =
      rw e (inl (refl, rw (records_lem len n es p rec_id index lists v m k start within) absent))
  deletes_lem res (inr (l, c, e, there, here, link, chain, records)) = rw e (
      inr (
        put_header (drop_key len index (free_cell l c (p, p))),
        refl,
        rw (records_lem len n es p rec_id index lists v m k start within) there,
        rest_lem l c (remove c (lists index)) refl here link chain records,
      ))

-- AM_DeleteEntry at the index of a key of a well-formed leaf that holds a sequence of keys with
-- their record numbers: it reports that the entry is not found if and only if the record number is
-- not one of the key; otherwise the page is a well-formed leaf with the first occurrence of the
-- number gone and every other entry as it was, and if that was the last number of the key, the key
-- is gone as well and those behind it moved down by one place.
pub delete_in_leaf-Deletes :
    (len n : ℕ) (es : ℕ → List ℕ × List ℕ) (p : Bytes) (rec_id index : ℕ)
    → Represents len n es p
    → 1 ≤ index
    → index ≤ n
    → Deletes len n es index rec_id (delete_in_leaf len rec_id index p)
unfolding delete_in_leaf
delete_in_leaf-Deletes len n es p rec_id index (lists, (v, m), k) a b =
    deletes_lem len n es p rec_id index lists v m k a b
      (find_cell 4097 p rec_id (head_at len index) (load16 p (head_at len index)))
      (search_lem len n es p rec_id index lists v m k a b)
