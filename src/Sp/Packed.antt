-- ===== src/Sp/Packed.antt =====
-- SP_CompactPage and SP_DeleteRec of splayer/sp.c on a well-formed page: every live record keeps its
-- slot and its bytes, and after a compaction no byte between the records is lost.
use database_assignment.Prelude.{
  ℕ, ◌+◌, ◌-◌, ◌≤◌, ◌<◌, ◌≡◌, ◌⊎◌, sym, ap, ◌∙◌, true, false, arith, ◌==◌, if◌then◌else◌, inl, inr,
}
use database_assignment.Words.{
  Bytes, sub32, load, store, copy, load-store, load-store_ne, load-congr, store-above, copy-outside,
  copy-start,
}
use database_assignment.Sp.{
  page_size, header_size, free_space_at, total_free_space_at, num_slots_at, slot_count_at,
  length_at, offset_at, deleted_len, num_slots, free_space, slot_count, total_free_space,
  slot_length, slot_offset, directory_end,
}
use database_assignment.Sp.Page.{Compaction, compact_slots, rounds, compact_page}
use database_assignment.Sp.Valid.{
  is_live, live_bytes, live_count, IsSlotted, live_bytes-congr, live_count-congr,
}
use database_assignment.Sp.Compact.{IsCompacted, start, compact_slots-IsCompacted}

module _ (p : Bytes) (v : IsSlotted p) (junk : Bytes) where
  abbrev n : ℕ
  n = num_slots p

  abbrev end : Compaction
  end = compact_slots n (start p v junk)

  k : IsCompacted p n end
  k = compact_slots-IsCompacted p v junk n (omega arith)

  -- temp_page with the header and the directory, and the page it is copied to
  abbrev temp : Bytes
  temp = copy 0 end.page 0 (directory_end n) end.temp

  abbrev whole : Bytes
  whole = copy 0 temp 0 page_size end.page

  abbrev with_free : Bytes
  with_free = store free_space_at end.new_free_ptr whole

  abbrev packed : Bytes
  packed = compact_page junk p

  whole-low : (x : ℕ) → x < directory_end n → whole x ≡ end.page x
  whole-low x h =
      copy-start temp page_size end.page x (omega (arith, v.below, v.top))
      ∙ copy-start end.page (directory_end n) end.temp x h

  whole-high : (x : ℕ) → directory_end n ≤ x → x < page_size → whole x ≡ end.temp x
  whole-high x h l =
      copy-start temp page_size end.page x l
      ∙ copy-outside 0 end.page 0 (directory_end n) end.temp x (inr (omega arith))

  load-whole : (b : ℕ) → b + 4 ≤ directory_end n → load whole b ≡ load end.page b
  load-whole b h = load-congr whole end.page b (λ x _ l. whole-low x (omega arith))

  -- The packed records reach down to the place that the sum of their lengths says.
  ptr-le : end.new_free_ptr ≤ page_size
  ptr-le = omega (arith, k.pointer)

  ptr-ge : directory_end n ≤ end.new_free_ptr
  ptr-ge = omega (arith, k.pointer, v.fits, v.below)

  rounds-n : rounds n ≡ n
  rounds-n = ground (arith, v.below, v.top)

  packed-eq : packed ≡ store total_free_space_at (end.new_free_ptr - directory_end n) with_free
  unfolding compact_page
  packed-eq =
      let e₁ : num_slots end.page ≡ n = k.head num_slots_at (omega arith) in
      let e₂ : free_space with_free ≡ end.new_free_ptr =
        load-store free_space_at end.new_free_ptr whole (omega (arith, ptr-le)) in
      let e₃ : num_slots with_free ≡ n =
        load-store_ne free_space_at num_slots_at end.new_free_ptr whole (inr (omega arith))
        ∙ (load-whole num_slots_at (omega arith) ∙ e₁) in
      let e₄ : sub32 end.new_free_ptr (directory_end n) ≡ end.new_free_ptr - directory_end n =
        omega (arith, ptr-le, ptr-ge) in
      rw (rounds-n, e₁, e₂, e₃, e₄)

  -- Below the records the header and the directory of the loop are what the page gets.
  load-packed :
      (b : ℕ)
      → b + 4 ≤ directory_end n
      → (b + 4 ≤ free_space_at) ⊎ (total_free_space_at + 4 ≤ b)
      → load packed b ≡ load end.page b
  load-packed b h d = rw packed-eq (
      load-store_ne total_free_space_at b (end.new_free_ptr - directory_end n) with_free
        (omega arith)
      ∙ (load-store_ne free_space_at b end.new_free_ptr whole (omega arith) ∙ load-whole b h))

  pub num_slots-compact_page : num_slots packed ≡ n
  num_slots-compact_page =
      load-packed num_slots_at (omega arith) (inl (omega arith)) ∙ k.head num_slots_at (omega arith)

  slot_count-packed : slot_count packed ≡ slot_count p
  slot_count-packed =
      load-packed slot_count_at (omega arith) (inl (omega arith))
      ∙ k.head slot_count_at (omega arith)

  pub length-compact_page : (j : ℕ) → j < n → slot_length packed j ≡ slot_length p j
  length-compact_page j h =
      load-packed (length_at j) (omega arith) (inr (omega arith)) ∙ k.lengths j

  offset-packed : (j : ℕ) → j < n → slot_offset packed j ≡ slot_offset end.page j
  offset-packed j h = load-packed (offset_at j) (omega arith) (inr (omega arith))

  free_space-packed : free_space packed ≡ end.new_free_ptr
  free_space-packed = rw packed-eq (
      load-store_ne total_free_space_at free_space_at (end.new_free_ptr - directory_end n) with_free
        (inr (omega arith))
      ∙ load-store free_space_at end.new_free_ptr whole (omega (arith, ptr-le)))

  total-packed : total_free_space packed ≡ end.new_free_ptr - directory_end n
  total-packed = rw packed-eq (
      load-store total_free_space_at (end.new_free_ptr - directory_end n) with_free
        (omega (arith, ptr-le)))

  is_live-packed : (j : ℕ) → j < n → is_live packed j ≡ is_live p j
  is_live-packed j h =
      ap (λ (l : ℕ). if l == deleted_len then false else true) (length-compact_page j h)

  live_bytes-packed : live_bytes packed n ≡ live_bytes p n
  live_bytes-packed = live_bytes-congr packed p n length-compact_page

  high-packed : (x : ℕ) → header_size ≤ x → packed x ≡ whole x
  high-packed x h = rw packed-eq (
      store-above total_free_space_at (end.new_free_ptr - directory_end n) with_free x (omega arith)
      ∙ store-above free_space_at end.new_free_ptr whole x (omega arith))

  -- Every live record keeps its bytes.
  pub bytes-compact_page :
      (j x : ℕ)
      → j < n
      → is_live p j ≡ true
      → x < slot_length p j
      → packed (slot_offset packed j + x) ≡ p (slot_offset p j + x)
  bytes-compact_page j x h live l = rw (offset-packed j h) (
      high-packed (slot_offset end.page j + x) (omega (arith, k.low j h live, ptr-ge))
      ∙ (whole-high (slot_offset end.page j + x) (omega (arith, k.low j h live, ptr-ge))
            (omega (arith, k.high j h live))
          ∙ k.moved j x h live l))

  -- SP_CompactPage leaves a well-formed page well formed.
  pub compact_page-IsSlotted : IsSlotted packed
  compact_page-IsSlotted = record {
    below = rw (num_slots-compact_page, free_space-packed) ptr-ge;
    top = rw free_space-packed ptr-le;
    above = λ j l a.
        let h : j < n = rw num_slots-compact_page at l in
        rw (free_space-packed, offset-packed j h) (k.low j h (sym (is_live-packed j h) ∙ a));
    inside = λ j l a.
        let h : j < n = rw num_slots-compact_page at l in
        rw (length-compact_page j h, offset-packed j h) (k.high j h (sym (is_live-packed j h) ∙ a));
    count =
        slot_count-packed
        ∙ (v.count
            ∙ sym (
                ap (live_count packed) num_slots-compact_page
                ∙ live_count-congr packed p n length-compact_page));
    fits =
        rw (num_slots-compact_page, free_space-packed, live_bytes-packed)
          (omega (arith, k.pointer));
    total =
        rw (num_slots-compact_page, total-packed, live_bytes-packed)
          (omega (arith, k.pointer, ptr-ge));
  }

  -- SP_CompactPage on a well-formed page keeps the count of free bytes, and afterwards all of them
  -- stand in one run between the directory and the records.
  pub free-compact_page :
      (total_free_space packed ≡ total_free_space p)
      × (free_space packed ≡ directory_end n + total_free_space p)
  free-compact_page = (
    total-packed ∙ omega (arith, k.pointer, v.total),
    free_space-packed ∙ omega (arith, k.pointer, v.total),
  )
