-- ===== src/Sp/Compact.antt =====
-- The loop of SP_CompactPage in splayer/sp.c: after the slots before `i` their records stand packed at
-- the end of temp_page, and the page itself has only got new offsets.
use database_assignment.Prelude.{
  ℕ, zero, suc, ◌+◌, ◌-◌, ◌≤◌, ◌<◌, ◌≡◌, ◌≢◌, refl, ◌∙◌, true, false, arith, ◌==◌, inl, inr,
  Bool-cases, ==_iff,
}
use database_assignment.Words.{
  Bytes, sub32, load, store, copy, load-store, load-store_ne, store-above, copy-inside,
  copy-outside,
}
use database_assignment.Sp.{
  page_size, header_size, length_at, offset_at, deleted_len, num_slots, free_space, slot_length,
  slot_offset, directory_end,
}
use database_assignment.Sp.Page.{Compaction, move_record, compact_slot, compact_slots}
use database_assignment.Sp.Valid.{is_live, live_bytes, IsSlotted}

pub live_bytes_mono : (p : Bytes) (i n : ℕ) → i ≤ n → live_bytes p i ≤ live_bytes p n
unfolding live_bytes
live_bytes_mono p zero zero h = omega arith
live_bytes_mono p (suc i) zero h = absurd (omega arith)
live_bytes_mono p i (suc n) h = elim (Bool-cases (i == suc n)) [
  | inl e ↦ rw ((==_iff _ _).0 e) (omega arith)
  | inr e ↦ ground (arith, live_bytes_mono p i n (ground arith))
]

-- Where the loop stands after the slots before `i` of the page `p`.
pub record IsCompacted (p : Bytes) (i : ℕ) (c : Compaction) : Type 0 where
  pub pointer : c.new_free_ptr + live_bytes p i ≡ page_size
  pub lengths : (j : ℕ) → slot_length c.page j ≡ slot_length p j
  pub head : (b : ℕ) → b + 4 ≤ header_size → load c.page b ≡ load p b
  pub pending : (j : ℕ) → i ≤ j → slot_offset c.page j ≡ slot_offset p j
  pub rest : (x : ℕ) → directory_end (num_slots p) ≤ x → c.page x ≡ p x
  pub low : (j : ℕ) → j < i → is_live p j ≡ true → c.new_free_ptr ≤ slot_offset c.page j
  pub high :
      (j : ℕ) → j < i → is_live p j ≡ true → slot_offset c.page j + slot_length p j ≤ page_size
  pub moved :
      (j x : ℕ)
      → j < i
      → is_live p j ≡ true
      → x < slot_length p j
      → c.temp (slot_offset c.page j + x) ≡ p (slot_offset p j + x)

module _ (p : Bytes) (v : IsSlotted p) (i : ℕ) (h : i < num_slots p) where
  module _ (c : Compaction) (k : IsCompacted p i c) (live : is_live p i ≡ true) where
    len : ℕ
    len = slot_length p i

    -- The records before and this one fit into the page.
    enough : live_bytes p i + slot_length p i + free_space p ≤ page_size
    unfolding live_bytes
    enough = ground (arith, v.fits, live_bytes_mono p (suc i) (num_slots p) h)

    abbrev ptr : ℕ
    ptr = c.new_free_ptr - slot_length p i

    abbrev next : Compaction
    next = record {
      page = store (offset_at i) ptr c.page;
      temp = copy ptr c.page (slot_offset p i) (slot_length p i) c.temp;
      new_free_ptr = ptr;
    }

    move_record-next : move_record i c ≡ next
    unfolding move_record
    move_record-next =
        let e : sub32 c.new_free_ptr (slot_length p i) ≡ ptr = omega (arith, k.pointer, enough) in
        rw (k.lengths i, k.pending i (omega arith), e)

    offset_self : slot_offset next.page i ≡ ptr
    offset_self = load-store (offset_at i) ptr c.page (omega (arith, k.pointer))

    offset_ne : (j : ℕ) → j ≢ i → slot_offset next.page j ≡ slot_offset c.page j
    offset_ne j ne = load-store_ne (offset_at i) (offset_at j) ptr c.page (omega arith)

    -- This record stands at its new place.
    moved_self : (x : ℕ) → x < slot_length p i → next.temp (ptr + x) ≡ p (slot_offset p i + x)
    moved_self x l =
        copy-inside ptr c.page (slot_offset p i) (slot_length p i) c.temp x l
        ∙ k.rest (slot_offset p i + x) (omega (arith, v.above i h live, v.below))

    -- The records above are not touched.
    moved_ne : (y : ℕ) → c.new_free_ptr ≤ y → next.temp y ≡ c.temp y
    moved_ne y l =
        copy-outside ptr c.page (slot_offset p i) (slot_length p i) c.temp y
          (inr (omega (arith, k.pointer, enough)))

    pub next-IsCompacted : IsCompacted p (suc i) next
    unfolding live_bytes
    next-IsCompacted = record {
      pointer = ground (arith, k.pointer, enough);
      lengths =
          λ j. load-store_ne (offset_at i) (length_at j) ptr c.page (omega arith) ∙ k.lengths j;
      head = λ b l. load-store_ne (offset_at i) b ptr c.page (inr (omega arith)) ∙ k.head b l;
      pending = λ j l. offset_ne j (omega arith) ∙ k.pending j (omega arith);
      rest = λ x l. store-above (offset_at i) ptr c.page x (omega arith) ∙ k.rest x l;
      low = λ j l a. elim (Bool-cases (j == i)) [
        | inl e ↦ ground (arith, offset_self)
        | inr e ↦ ground (arith, offset_ne j, k.low j, k.pointer, enough)
      ];
      high = λ j l a. elim (Bool-cases (j == i)) [
        | inl e ↦ ground (arith, offset_self, k.pointer, enough)
        | inr e ↦ ground (arith, offset_ne j, k.high j)
      ];
      moved = λ j x l a b. elim (Bool-cases (j == i)) [
        | inl e ↦ let q : j ≡ i = (==_iff j i).0 e in rw (q, offset_self) (moved_self x (rw q at b))
        | inr e ↦ rw (offset_ne j (ground arith)) (
            moved_ne (slot_offset c.page j + x) (ground (arith, k.low j))
            ∙ k.moved j x (ground arith) a b)
      ];
    }

  -- A slot without a record changes nothing.
  skip-IsCompacted :
      (c : Compaction) → IsCompacted p i c → is_live p i ≡ false → IsCompacted p (suc i) c
  unfolding live_bytes
  skip-IsCompacted c k dead = record {
    pointer = ground (arith, k.pointer);
    lengths = k.lengths;
    head = k.head;
    pending = λ j l. k.pending j (omega arith);
    rest = k.rest;
    low = λ j l a. k.low j (ne j l a) a;
    high = λ j l a. k.high j (ne j l a) a;
    moved = λ j x l a b. k.moved j x (ne j l a) a b;
  }
    where
      ne : (j : ℕ) → j < suc i → is_live p j ≡ true → j < i
      ne j l a = elim (Bool-cases (j == i)) [
        | inl e ↦ let b : is_live p i ≡ true = rw ((==_iff j i).0 e) at a in cc
        | inr e ↦ ground arith
      ]

  compact_slot-IsCompacted :
      (c : Compaction) → IsCompacted p i c → IsCompacted p (suc i) (compact_slot i c)
  unfolding compact_slot
  compact_slot-IsCompacted c k = elim (Bool-cases (slot_length p i == deleted_len)) [
    | inr a ↦
        let live : is_live p i ≡ true = rw a in
        rw (k.lengths i, a, move_record-next c k live) (next-IsCompacted c k live)
    | inl a ↦ rw (k.lengths i, a) (skip-IsCompacted c k (rw a))
  ]

module _ (p : Bytes) (v : IsSlotted p) (junk : Bytes) where
  abbrev pub start : Compaction
  start = record { page = p; temp = junk; new_free_ptr = page_size }

  start-IsCompacted : IsCompacted p 0 start
  unfolding live_bytes
  start-IsCompacted = record {
    pointer = omega arith;
    lengths = λ j. refl;
    head = λ b l. refl;
    pending = λ j l. refl;
    rest = λ x l. refl;
    low = λ j l. absurd (omega arith);
    high = λ j l. absurd (omega arith);
    moved = λ j x l. absurd (omega arith);
  }

  -- After any number of slots of the page.
  pub compact_slots-IsCompacted :
      (i : ℕ) → i ≤ num_slots p → IsCompacted p i (compact_slots i start)
  unfolding compact_slots
  compact_slots-IsCompacted zero h = start-IsCompacted
  compact_slots-IsCompacted (suc i) h =
      compact_slot-IsCompacted p v i h (compact_slots i start)
        (compact_slots-IsCompacted i (omega arith))
