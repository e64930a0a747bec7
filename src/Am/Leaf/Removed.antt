-- ===== src/Am/Leaf/Removed.antt =====
-- AM_DeleteEntry of amlayer/amfns.c on the bytes of a leaf, from the cell that it has found on: the page
-- and the header when the cell is on the free list, and when a key without a record number is gone.
use database_assignment.Prelude.{
  ℕ, ◌+◌, ◌-◌, ◌≤◌, ◌<◌, ◌≡◌, ◌⊎◌, inl, inr, refl, ap, sym, ◌∙◌, true, false, List, map, arith, ltb,
  ◌==◌, member, remove, if◌then◌else◌, Bool-cases, ==_iff,
}
use database_assignment.Words.{Bytes, load}
use database_assignment.Words.Short.{
  short, load16, store16, add16, sub16, load16-store16, load16-store16_ne,
}
use database_assignment.Am.{
  key_ptr_at, num_keys_at, rec_id_ptr, key_ptr, free_list, num_free, num_keys, head_at, key_at,
}
use database_assignment.Am.Leaf.{put_header}
use database_assignment.Am.Leaf.View.{Chain, IsLeaf, entry, key_at-lt}
use database_assignment.Am.Leaf.Insert.{Represents, put_header-Represents}
use database_assignment.Am.Leaf.Unlink.{erase, IsLink, unlinked, IsFound, find_cell-IsFound}
use database_assignment.Am.Leaf.Freed.{length_cells, freed-IsBody, entry-freed}
use database_assignment.Am.Leaf.Shared.{freed}
use database_assignment.Am.Leaf.Closed.{closed, closed-IsBody, entry-closed}
use database_assignment.Am.Tree.Entries.{find_cell, free_cell, shift_down, drop_key}

-- the abstract leaf without the first occurrence of a record number at the key `index`
abbrev pub without : ℕ → ℕ → (ℕ → List ℕ × List ℕ) → ℕ → List ℕ × List ℕ
without rec_id index es i = if i == index then ((es i).0, erase rec_id (es i).1) else es i

-- There are at least two bytes for a key.
pub key_at-many : (len n : ℕ) → n ≤ key_at len (n + 1)
key_at-many len n = grind arith

module _ (len n : ℕ) (es : ℕ → List ℕ × List ℕ) (p : Bytes) (rec_id index : ℕ) (lists : ℕ → List ℕ)
    (v : IsLeaf len p p n lists) (m : (i : ℕ) → 1 ≤ i → i ≤ n → entry len p lists i ≡ es i)
    (k : num_keys p ≡ n) (start : 1 ≤ index) (within : index ≤ n) where
  pub records_lem : (es index).1 ≡ map (load p) (lists index)
  records_lem = sym (ap (λ (x : List ℕ × List ℕ). x.1) (m index start within))

  head_low : head_at len index + 2 ≤ rec_id_ptr p
  head_low = omega (arith, key_at-lt len index (n + 1) start (omega arith), v.body.keys, v.body.gap)

  pub search_lem :
      IsFound p rec_id
        (head_at len index)
        (lists index)
        (find_cell 4097 p rec_id (head_at len index) (load16 p (head_at len index)))
  search_lem =
      find_cell-IsFound p (rec_id_ptr p) rec_id 4097 (head_at len index) (lists index)
        (omega (
          arith,
          length_cells (rec_id_ptr p) (lists index) (v.body.once index within)
              (λ c h. v.body.cell index c within h),
        ))
        (λ c h. v.body.cell index c within h) (v.body.once index within)
        (λ c h. inl (omega (arith, head_low, v.body.cell index c within h)))
        (v.body.chain index start within)

  module _ (l c : ℕ) (here : member c (lists index) ≡ true)
      (link : IsLink (head_at len index) (lists index) c l)
      (chain : Chain
        (unlinked p l c)
        (load16 (unlinked p l c) (head_at len index))
        (remove c (lists index)))
      (records : map (load p) (remove c (lists index))
        ≡ erase rec_id (map (load p) (lists index))) where
    abbrev to : ℕ → List ℕ
    to = freed c index lists

    abbrev page : Bytes
    page = (free_cell l c (p, p)).0

    abbrev header : Bytes
    header = (free_cell l c (p, p)).1

    count_lem : add16 (num_free p) 1 ≡ num_free p + 1
    count_lem =
        let few =
          (freed-IsBody len p (rec_id_ptr p) (key_ptr p) (free_list p) (num_free p) n lists v.body
            index l c start within here link chain).few in
        omega (arith, few)

    header_other : (o : ℕ) → (o + 2 ≤ 12) ⊎ (16 ≤ o) → load16 header o ≡ load16 p o
    unfolding free_cell
    header_other o h =
        load16-store16_ne 12 o c (store16 14 (add16 (num_free p) 1) p) (omega arith)
        ∙ load16-store16_ne 14 o (add16 (num_free p) 1) p (omega arith)

    header_free : free_list header ≡ c
    unfolding free_cell
    header_free =
        load16-store16 12 c (store16 14 (add16 (num_free p) 1) p)
          (omega (arith, v.body.cell index c within here))

    header_count : num_free header ≡ num_free p + 1
    unfolding free_cell
    header_count =
        load16-store16_ne 12 14 c (store16 14 (add16 (num_free p) 1) p) (inl (omega arith))
        ∙ (load16-store16 14 (add16 (num_free p) 1) p (omega arith) ∙ count_lem)

    page-IsLeaf : IsLeaf len page header n to
    unfolding free_cell
    page-IsLeaf = record {
      attr = header_other 16 (inr (omega arith)) ∙ v.attr;
      body =
          rw
            (
              header_other 8 (inl (omega arith)),
              header_other 10 (inl (omega arith)),
              header_free,
              header_count,
            )
            (freed-IsBody len p (rec_id_ptr p) (key_ptr p) (free_list p) (num_free p) n lists v.body
              index l c start within here link chain);
    }

    page-entry : (i : ℕ) → 1 ≤ i → i ≤ n → entry len page to i ≡ without rec_id index es i
    unfolding free_cell
    page-entry i a b =
        entry-freed len p (rec_id_ptr p) (key_ptr p) (free_list p) (num_free p) n lists v.body index
          l c start within here link chain i a b
        ∙ elim (Bool-cases (i == index)) [
          | inr e ↦ rw e (m i a b)
          | inl e ↦
              let q : i ≡ index = (==_iff i index).0 e in
              rw (e, q, records, sym (m index start within)) refl
        ]

    pub head-Chain : Chain page (load16 page (head_at len index)) (remove c (lists index))
    head-Chain =
        let z : (index == 0) ≡ false = ground arith in
        let o : (index == index) ≡ true = ground arith in
        rw (z, o) at (page-IsLeaf.body.chain index start within)

    header_keys : num_keys header ≡ n
    header_keys = header_other 18 (inr (omega arith)) ∙ k

    -- The key still has a record number.
    pub kept_lem :
        (load16 page (head_at len index) == 0) ≡ false
        → Represents len n
            (without rec_id index es)
            (put_header (drop_key len index (free_cell l c (p, p))))
    unfolding drop_key
    kept_lem e = rw e (
        put_header-Represents len n page header to (without rec_id index es)
          (page-IsLeaf, page-entry) header_keys)

    -- The key goes.
    abbrev small_header : Bytes
    small_header =
        store16 key_ptr_at (sub16 (key_ptr header) (len + 2))
          (store16 num_keys_at (sub16 n 1) header)

    small_other :
        (o : ℕ) → (o + 2 ≤ 10) ⊎ ((12 ≤ o) × (o + 2 ≤ 18)) → load16 small_header o ≡ load16 header o
    small_other o h =
        load16-store16_ne 10 o (sub16 (key_ptr header) (len + 2)) (store16 18 (sub16 n 1) header)
          (omega arith)
        ∙ load16-store16_ne 18 o (sub16 n 1) header (omega arith)

    key_bound : (key_ptr header < short) × (len + 2 ≤ key_ptr header) × (n < short)
    key_bound =
        let b = page-IsLeaf.body in
        let e = key_at-lt len index (n + 1) start (omega arith) in
        (
          omega (arith, b.gap, b.top),
          omega (arith, b.keys, e),
          omega (arith, b.keys, b.gap, b.top, key_at-many len n),
        )

    small_key : key_ptr small_header ≡ key_ptr header - (len + 2)
    small_key =
        load16-store16 10 (sub16 (key_ptr header) (len + 2)) (store16 18 (sub16 n 1) header)
          (omega arith)
        ∙ omega (arith, key_bound)

    small_count : num_keys small_header ≡ n - 1
    small_count =
        load16-store16_ne 10 18 (sub16 (key_ptr header) (len + 2)) (store16 18 (sub16 n 1) header)
          (inl (omega arith))
        ∙ (load16-store16 18 (sub16 n 1) header (omega arith) ∙ omega (arith, key_bound))

    pub gone_lem :
        (load16 page (head_at len index) == 0) ≡ true
        → Represents len
            (n - 1)
            (closed index es)
            (put_header (drop_key len index (free_cell l c (p, p))))
    unfolding drop_key
    gone_lem e =
        let b = page-IsLeaf.body in
        let q = shift_down len index (n - index) page in
        let leaf : IsLeaf len q small_header (n - 1) (closed index to) = record {
          attr = small_other 16 (inr (omega arith)) ∙ page-IsLeaf.attr;
          body =
              rw
                (
                  small_other 8 (inl (omega arith)),
                  small_key,
                  small_other 12 (inr (omega arith)),
                  small_other 14 (inr (omega arith)),
                )
                (closed-IsBody len page (rec_id_ptr header) (key_ptr header) (free_list header)
                  (num_free header) n to b index start within);
        } in
        rw (e, header_keys)
          (put_header-Represents len (n - 1) q small_header (closed index to) (closed index es)
            (
              leaf,
              λ i s t.
                  entry-closed len page (rec_id_ptr header) (key_ptr header) (free_list header)
                    (num_free header) n to b index start within i s (omega arith)
                  ∙ closed_lem i s (omega arith),
            )
            small_count)
      where
        closed_lem :
            (i : ℕ) → 1 ≤ i → i < n → closed index (entry len page to) i ≡ closed index es i
        closed_lem i s t = elim (Bool-cases (ltb i index)) [
          | inl f ↦
              let ne : (i == index) ≡ false = ground arith in
              rw f (page-entry i s (omega arith) ∙ rw ne refl)
          | inr f ↦
              let ne : (i + 1 == index) ≡ false = ground arith in
              rw f (page-entry (i + 1) (omega arith) (omega arith) ∙ rw ne refl)
        ]
