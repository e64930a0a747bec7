-- ===== src/Sp/Insert.antt =====
-- Phase 3 of SP_InsertRec in splayer/sp.c, on a page with room: the record can be read back from its
-- slot, the other slots keep their records, and the page stays well formed.
use database_assignment.Prelude.{
  ℕ, ◌+◌, ◌-◌, ◌≤◌, ◌<◌, ◌≡◌, ◌↔◌, ap, ◌∙◌, true, false, arith, ◌==◌, if◌then◌else◌, inl, inr,
  Bool-cases,
}
use database_assignment.Words.{
  Bytes, add32, sub32, load, store, copy, load-store, load-store_ne, load-copy_ne, store-above,
  copy-inside, copy-outside,
}
use database_assignment.Sp.{
  page_size, header_size, slot_size, num_slots_at, slot_count_at, free_space_at,
  total_free_space_at, length_at, offset_at, deleted_len, num_slots, free_space, slot_count,
  total_free_space, slot_length, slot_offset, directory_end,
}
use database_assignment.Sp.Page.{insert_record, has_room}
use database_assignment.Sp.Valid.{
  is_live, live_count, live_bytes, IsSlotted, live_bytes-congr, live_count-congr, live_count-le,
  write_header, load-write_header, write_header-above, header-write_header,
}

-- The record and one more slot fit between the directory and the records.
abbrev pub Fits : ℕ → Bytes → Type 0
Fits length p = directory_end (num_slots p) + slot_size + length ≤ free_space p

module _ (rec : Bytes) (length : ℕ) (p : Bytes) (v : IsSlotted p) (fits : Fits length p) where
  abbrev n : ℕ
  n = num_slots p

  abbrev new_offset : ℕ
  new_offset = free_space p - length

  -- the page with the record and its slot, before the header is written
  abbrev with_record : Bytes
  with_record = copy new_offset rec 0 length p

  abbrev with_length : Bytes
  with_length = store (length_at n) length with_record

  abbrev with_slot : Bytes
  with_slot = store (offset_at n) new_offset with_length

  -- What stands below the new slot is as before.
  load-with_slot : (b : ℕ) → b + 4 ≤ directory_end n → load with_slot b ≡ load p b
  load-with_slot b h = ground (
    arith,
    v.top,
    load-store_ne (offset_at n) b new_offset with_length (inr (omega arith)),
    load-store_ne (length_at n) b length with_record (inr (omega arith)),
    load-copy_ne new_offset rec 0 length p b (inl (omega arith)),
  )

  -- The writes of SP_InsertRec are the slot, and then the header.
  insert_record-eq :
      insert_record rec length p
      ≡ write_header
          (n + 1)
          (slot_count p + 1)
          new_offset
          (total_free_space p - (length + slot_size))
          with_slot
  unfolding insert_record
  insert_record-eq =
      let q₀ : Bytes = store free_space_at new_offset with_slot in
      let q₁ : Bytes = store num_slots_at (n + 1) q₀ in
      let q₂ : Bytes = store slot_count_at (slot_count p + 1) q₁ in
      let e : sub32 (free_space p) length ≡ new_offset = omega (arith, v.top, fits) in
      let e₀ : add32 (load q₀ num_slots_at) 1 ≡ n + 1 = ground (
        arith,
        v.top,
        v.below,
        load-store_ne free_space_at num_slots_at new_offset with_slot (inr (omega arith)),
        load-with_slot num_slots_at (omega arith),
      ) in
      let e₁ : add32 (load q₁ slot_count_at) 1 ≡ slot_count p + 1 = ground (
        arith,
        v.top,
        v.below,
        v.count,
        live_count-le p n,
        load-store_ne num_slots_at slot_count_at (n + 1) q₀ (inl (omega arith)),
        load-store_ne free_space_at slot_count_at new_offset with_slot (inr (omega arith)),
        load-with_slot slot_count_at (omega arith),
      ) in
      let e₂ : sub32 (load q₂ total_free_space_at) (length + slot_size)
          ≡ total_free_space p - (length + slot_size) =
        ground (
          arith,
          v.top,
          v.below,
          v.total,
          v.fits,
          fits,
          load-store_ne slot_count_at total_free_space_at (slot_count p + 1) q₁ (inl (omega arith)),
          load-store_ne num_slots_at total_free_space_at (n + 1) q₀ (inl (omega arith)),
          load-store_ne free_space_at total_free_space_at new_offset with_slot (inl (omega arith)),
          load-with_slot total_free_space_at (omega arith),
        ) in
      rw (e, e₀, e₁, e₂)

  abbrev inserted : Bytes
  inserted = insert_record rec length p

  -- The header afterwards.
  pub header-insert_record :
      (num_slots inserted ≡ n + 1)
      × (slot_count inserted ≡ slot_count p + 1)
      × (free_space inserted ≡ new_offset)
      × (total_free_space inserted ≡ total_free_space p - (length + slot_size))
  header-insert_record = rw insert_record-eq (
      header-write_header (n + 1) (slot_count p + 1) new_offset
        (total_free_space p - (length + slot_size)) with_slot (omega (arith, v.top, v.below))
        (omega (arith, v.top, v.below, v.count, live_count-le p n)) (omega (arith, v.top))
        (omega (arith, v.total)))

  load-inserted : (b : ℕ) → header_size ≤ b → load inserted b ≡ load with_slot b
  load-inserted b h = rw insert_record-eq (
      load-write_header (n + 1) (slot_count p + 1) new_offset
        (total_free_space p - (length + slot_size)) with_slot b h)

  inserted-above : (x : ℕ) → header_size ≤ x → inserted x ≡ with_slot x
  inserted-above x h = rw insert_record-eq (
      write_header-above (n + 1) (slot_count p + 1) new_offset
        (total_free_space p - (length + slot_size)) with_slot x h)

  -- The slots that were there are the same.
  pub slot-insert_record :
      (i : ℕ)
      → i < n
      → (slot_length inserted i ≡ slot_length p i) × (slot_offset inserted i ≡ slot_offset p i)
  slot-insert_record i h = (
    load-inserted (length_at i) (omega arith) ∙ load-with_slot (length_at i) (omega arith),
    load-inserted (offset_at i) (omega arith) ∙ load-with_slot (offset_at i) (omega arith),
  )

  -- The new slot has the length and the place of the record.
  pub new_slot-insert_record :
      (slot_length inserted n ≡ length) × (slot_offset inserted n ≡ new_offset)
  new_slot-insert_record = (
    load-inserted (length_at n) (omega arith)
        ∙ (load-store_ne (offset_at n) (length_at n) new_offset with_length (inr (omega arith))
            ∙ load-store (length_at n) length with_record (omega (arith, v.top, fits))),
    load-inserted (offset_at n) (omega arith)
        ∙ load-store (offset_at n) new_offset with_length (omega (arith, v.top)),
  )

  with_slot-above : (x : ℕ) → directory_end n + slot_size ≤ x → with_slot x ≡ with_record x
  with_slot-above x h =
      store-above (offset_at n) new_offset with_length x (omega arith)
      ∙ store-above (length_at n) length with_record x (omega arith)

  -- The bytes of the record stand at its place, and those of the others where they were.
  pub bytes-insert_record : (x : ℕ) → x < length → inserted (new_offset + x) ≡ rec x
  bytes-insert_record x h =
      inserted-above (new_offset + x) (omega (arith, fits))
      ∙ (with_slot-above (new_offset + x) (omega (arith, fits))
          ∙ (copy-inside new_offset rec 0 length p x h ∙ ap rec (omega arith)))

  pub rest-insert_record : (x : ℕ) → free_space p ≤ x → inserted x ≡ p x
  rest-insert_record x h =
      inserted-above x (omega (arith, fits))
      ∙ (with_slot-above x (omega (arith, fits))
          ∙ copy-outside new_offset rec 0 length p x (inr (omega (arith, fits))))

  is_live-insert_record : (i : ℕ) → i < n → is_live inserted i ≡ is_live p i
  is_live-insert_record i h =
      ap (λ (l : ℕ). if l == deleted_len then false else true) (slot-insert_record i h).0

  new_is_live : is_live inserted n ≡ true
  new_is_live =
      ap (λ (l : ℕ). if l == deleted_len then false else true) new_slot-insert_record.0
      ∙ ground (arith, v.top, fits)

  bytes_lem : live_bytes inserted (n + 1) ≡ live_bytes p n + length
  unfolding live_bytes
  bytes_lem = ground (
    arith,
    new_is_live,
    new_slot-insert_record.0,
    live_bytes-congr inserted p n (λ i h. (slot-insert_record i h).0),
  )

  count_lem : live_count inserted (n + 1) ≡ live_count p n + 1
  unfolding live_count
  count_lem =
      ground (arith, new_is_live, live_count-congr inserted p n (λ i h. (slot-insert_record i h).0))

  -- On a well-formed page with room for a record and its slot, Phase 3 of SP_InsertRec leaves the
  -- page well formed.
  pub insert_record-IsSlotted : IsSlotted inserted
  insert_record-IsSlotted =
      let (slots, count, free, total) = header-insert_record in
      record {
        below = omega (arith, slots, free, fits);
        top = omega (arith, free, v.top);
        above = λ i h l. elim (Bool-cases (i == n)) [
          | inl e ↦ ground (arith, free, new_slot-insert_record.1)
          | inr e ↦
              ground (arith, free, slots, slot-insert_record i, v.above i, is_live-insert_record i)
        ];
        inside = λ i h l. elim (Bool-cases (i == n)) [
          | inl e ↦ ground (arith, fits, v.top, new_slot-insert_record.0, new_slot-insert_record.1)
          | inr e ↦ ground (arith, slots, slot-insert_record i, v.inside i, is_live-insert_record i)
        ];
        count = rw slots (omega (arith, count, count_lem, v.count));
        fits = rw slots (omega (arith, free, bytes_lem, v.fits, fits));
        total = rw slots (omega (arith, total, bytes_lem, v.total, v.fits, fits));
      }

-- On a well-formed page and for a length of at most a page, the test of SP_InsertRec for enough
-- contiguous space passes if and only if the record and its slot fit between the directory and the
-- records.
pub has_room_iff :
    (length : ℕ) (p : Bytes)
    → IsSlotted p
    → length ≤ page_size
    → (has_room length p ≡ true) ↔ Fits length p
unfolding has_room
has_room_iff length p v h =
    (λ e. ground (arith, v.top, v.below), λ f. ground (arith, v.top, v.below))
