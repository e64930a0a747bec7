-- ===== src/Am/Leaf/Found.antt =====
-- AM_InsertToLeafFound of amlayer/aminsert.c as a whole, on the page and the header.
use database_assignment.Prelude.{
  ℕ, ◌+◌, ◌-◌, ◌≤◌, ◌<◌, ◌≡◌, ◌≢◌, ◌⊎◌, inl, inr, refl, ap, ◌∙◌, false, List, ◌∷◌, arith, ◌==◌,
  length, if◌then◌else◌, Bool-cases, ==_iff,
}
use database_assignment.Words.{Bytes, word}
use database_assignment.Words.Short.{
  short, load16, store16, sub16, load16-store16, load16-store16_ne,
}
use database_assignment.Am.{
  cell_size, rec_id_ptr_at, free_list_at, num_free_at, rec_id_ptr, key_ptr, free_list, num_free,
  num_keys,
}
use database_assignment.Am.Leaf.{Leaf, take_cell, insert_found, link_cell}
use database_assignment.Am.Leaf.View.{IsBody, IsLeaf, entry}
use database_assignment.Am.Leaf.Link.{Chain-lt, linked, IsFresh, link-IsBody, entry-link}
use database_assignment.Am.Leaf.Take.{
  taken, room-IsBody, room-IsFresh, free-IsBody, free-IsFresh, free_nonempty,
}

-- the abstract leaf with one record number more for the key `index`
abbrev pub with_rec : ℕ → ℕ → (ℕ → List ℕ × List ℕ) → ℕ → List ℕ × List ℕ
with_rec rec_id index es i = if i == index then ((es i).0, rec_id ∷ (es i).1) else es i

-- The leaf `(q, k)` with `n` keys holds the entries `es`, in the cells of `lists`.
abbrev pub Holds : ℕ → Leaf → ℕ → (ℕ → List ℕ) → (ℕ → List ℕ × List ℕ) → Type 0
Holds len (q, k) n lists es =
    IsLeaf len q k n lists × ((i : ℕ) → 1 ≤ i → i ≤ n → entry len q lists i ≡ es i)

-- There is a cell: a free one, or room for one.
abbrev pub HasCell : Bytes → Type 0
HasCell h = (free_list h ≢ 0) ⊎ (key_ptr h + 6 ≤ rec_id_ptr h)

-- What take_cell gives
record IsTaken (len : ℕ) (p h : Bytes) (n : ℕ) (lists : ℕ → List ℕ) (c : ℕ) (k : Bytes)
    (to : ℕ → List ℕ) : Type 0 where
  leaf : IsLeaf len p k n to
  fresh : IsFresh (rec_id_ptr k) n to c
  same_keys : num_keys k ≡ num_keys h
  same_lists : (i : ℕ) → 1 ≤ i → to i ≡ lists i

module _ (len : ℕ) (p h : Bytes) (n : ℕ) (lists : ℕ → List ℕ) (v : IsLeaf len p h n lists) where
  take_room :
      free_list h ≡ 0
      → key_ptr h + 6 ≤ rec_id_ptr h
      → IsTaken len p h n lists
          (rec_id_ptr h - 6)
          (store16 rec_id_ptr_at (rec_id_ptr h - 6) h)
          lists
  take_room e r =
      let k = store16 rec_id_ptr_at (rec_id_ptr h - 6) h in
      let a : rec_id_ptr k ≡ rec_id_ptr h - 6 =
        load16-store16 8 (rec_id_ptr h - 6) h (omega (arith, v.body.top)) in
      let b : (o : ℕ) → 10 ≤ o → load16 k o ≡ load16 h o =
        λ o l. load16-store16_ne 8 o (rec_id_ptr h - 6) h (inl l) in
      record {
        leaf = record {
          attr = b 16 (omega arith) ∙ v.attr;
          body =
              rw (a, b 10 (omega arith), b 12 (omega arith), b 14 (omega arith))
                (room-IsBody len p (rec_id_ptr h) (key_ptr h) (free_list h) (num_free h) n lists
                  v.body e r);
        };
        fresh = rw a (
            room-IsFresh len p (rec_id_ptr h) (key_ptr h) (free_list h) (num_free h) n lists v.body
              r);
        same_keys = b 18 (omega arith);
        same_lists = λ i l. refl;
      }

  take_free :
      free_list h ≢ 0
      → IsTaken len p h n lists
          (free_list h)
          (store16 free_list_at
            (load16 p (free_list h + 4))
            (store16 num_free_at (sub16 (num_free h) 1) h))
          (taken lists)
  take_free e =
      let count : ℕ = sub16 (num_free h) 1 in
      let next : ℕ = load16 p (free_list h + 4) in
      let k = store16 free_list_at next (store16 num_free_at count h) in
      let (cs, first) =
        free_nonempty len p (rec_id_ptr h) (key_ptr h) (free_list h) (num_free h) n lists v.body
          e in
      let body =
        free-IsBody len p (rec_id_ptr h) (key_ptr h) (free_list h) (num_free h) n lists v.body
          (free_list h) cs first in
      let nonzero : 1 ≤ num_free h = omega (arith, v.body.counted, ap length first) in
      let few : num_free h < short = v.body.few in
      let small : next < short =
        Chain-lt p next (taken lists 0) (λ d m. omega (arith, body.cell 0 d (omega arith) m))
          body.free_chain in
      let a : free_list k ≡ next = load16-store16 12 next (store16 num_free_at count h) small in
      let c : num_free k ≡ num_free h - 1 =
        load16-store16_ne 12 14 next (store16 num_free_at count h) (inl (omega arith))
        ∙ (load16-store16 14 count h (omega arith) ∙ omega (arith, nonzero, few)) in
      let b : (o : ℕ) → (o + 2 ≤ 12) ⊎ (16 ≤ o) → load16 k o ≡ load16 h o = λ o l.
        load16-store16_ne 12 o next (store16 num_free_at count h) (omega arith)
        ∙ load16-store16_ne 14 o count h (omega arith) in
      record {
        leaf = record {
          attr = b 16 (inr (omega arith)) ∙ v.attr;
          body = rw (a, c, b 8 (inl (omega arith)), b 10 (inl (omega arith))) body;
        };
        fresh = rw (b 8 (inl (omega arith))) (
            free-IsFresh len p (rec_id_ptr h) (key_ptr h) (free_list h) (num_free h) n lists v.body
              (free_list h) cs first);
        same_keys = b 18 (inr (omega arith));
        same_lists = λ i l. (let e : (i == 0) ≡ false = ground arith in rw e refl);
      }

  take_cell-IsTaken :
      HasCell h
      → (to : ℕ → List ℕ) × IsTaken len p h n lists (take_cell (p, h)).0 (take_cell (p, h)).1 to
  unfolding take_cell
  take_cell-IsTaken r = elim (Bool-cases (free_list h == 0)) [
    | inl e ↦
        let room : key_ptr h + 6 ≤ rec_id_ptr h = ground arith in
        let q : sub16 (rec_id_ptr h) cell_size ≡ rec_id_ptr h - 6 = omega (arith, v.body.top) in
        rw (e, q) (lists, take_room ((==_iff (free_list h) 0).0 e) room)
    | inr e ↦ let ne : free_list h ≢ 0 = λ q. ground arith in rw e (taken lists, take_free ne)
  ]

  -- the cell goes into the list
  taken-Holds :
      (rec_id index c : ℕ) (k : Bytes) (to : ℕ → List ℕ)
      → IsTaken len p h n lists c k to
      → 1 ≤ index
      → index ≤ n
      → rec_id < word
      → Holds len
          (link_cell len c rec_id index p, k)
          n
          (linked c index to)
          (with_rec rec_id index (entry len p lists))
  taken-Holds rec_id index c k to t a b w =
      let body : IsBody len p (rec_id_ptr k) (key_ptr k) (free_list k) (num_free k) n to =
        t.leaf.body in
      (
        record {
          attr = t.leaf.attr;
          body =
              (link-IsBody len p (rec_id_ptr k) (key_ptr k) (free_list k) (num_free k) n to body c
                rec_id index t.fresh a b w);
        },
        λ i l m.
            entry-link len p (rec_id_ptr k) (key_ptr k) (free_list k) (num_free k) n to body c
              rec_id index t.fresh a b w i l m
            ∙ rw (t.same_lists i l) refl,
      )

  -- AM_InsertToLeafFound of a well-formed leaf
  pub found-Holds :
      (rec_id index : ℕ)
      → HasCell h
      → 1 ≤ index
      → index ≤ n
      → rec_id < word
      → (to : ℕ → List ℕ) × Holds len
          (insert_found rec_id index (p, h))
          n
          to
          (with_rec rec_id index (entry len p lists))
  unfolding insert_found
  found-Holds rec_id index r a b w =
      let (to, t) = take_cell-IsTaken r in
      (
        linked (take_cell (p, h)).0 index to,
        rw v.attr (taken-Holds rec_id index (take_cell (p, h)).0 (take_cell (p, h)).1 to t a b w),
      )

pub num_keys-found :
    (rec_id index : ℕ) (p h : Bytes) → num_keys (insert_found rec_id index (p, h)).1 ≡ num_keys h
unfolding insert_found take_cell
num_keys-found rec_id index p h = elim (Bool-cases (free_list h == 0)) [
  | inl e ↦ rw e (load16-store16_ne 8 18 (sub16 (rec_id_ptr h) 6) h (inl (omega arith)))
  | inr e ↦ rw e (
      load16-store16_ne 12 18 (load16 p (free_list h + 4))
        (store16 num_free_at (sub16 (num_free h) 1) h) (inl (omega arith))
      ∙ load16-store16_ne 14 18 (sub16 (num_free h) 1) h (inl (omega arith)))
]
