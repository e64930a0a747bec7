-- ===== src/Sp/Records.antt =====
-- A page of splayer/sp.c seen from outside: a map from slot numbers to records. SP_InsertRec adds a
-- record to it, SP_DeleteRec takes one away, and SP_CompactPage does not change it.
use database_assignment.Prelude.{
  ℕ, zero, suc, ◌+◌, ◌/◌, ◌≤◌, ◌<◌, ◌≡◌, refl, sym, ap, ◌∙◌, true, false, ◌&&◌, arith, ◌==◌, ltb,
  List, [], ◌∷◌, Option, some, none, if◌then◌else◌, inl, inr, Bool-cases, ==_iff, ltb→lt, lt→ltb,
}
use database_assignment.Words.{Bytes, slt}
use database_assignment.Sp.{
  page_size, deleted_len, num_slots, total_free_space, slot_length, slot_offset,
}
use database_assignment.Sp.Page.{
  compact_page, insert_record, mark_deleted, compact_if_half_free, delete_slot,
}
use database_assignment.Sp.Valid.{is_live, IsSlotted}
use database_assignment.Sp.Insert.{
  Fits, header-insert_record, slot-insert_record, new_slot-insert_record, bytes-insert_record,
  rest-insert_record,
}
use database_assignment.Sp.Delete.{
  mark_deleted-IsSlotted, length-mark_deleted, offset-mark_deleted, bytes-mark_deleted,
  dead-mark_deleted, num_slots-mark_deleted,
}
use database_assignment.Sp.Packed.{
  num_slots-compact_page, length-compact_page, bytes-compact_page, compact_page-IsSlotted,
}

-- `n` bytes from the offset `a` on
unfoldable pub bytes_of : Bytes → ℕ → ℕ → List ℕ
bytes_of p a zero = []
bytes_of p a (suc n) = p a ∷ bytes_of p (a + 1) n

pub bytes_of-congr :
    (p q : Bytes) (a b n : ℕ)
    → ((x : ℕ) → x < n → p (a + x) ≡ q (b + x))
    → bytes_of p a n ≡ bytes_of q b n
unfolding bytes_of
bytes_of-congr p q a b zero h = refl
bytes_of-congr p q a b (suc n) h =
    let e : p a ≡ q b = ground (arith, h 0) in
    rw (e, bytes_of-congr p q (a + 1) (b + 1) n (λ x l. ground (arith, h (suc x))))

-- the record of a slot
unfoldable pub record_at : Bytes → ℕ → Option (List ℕ)
unfolding bytes_of
record_at p j =
    if ltb j (num_slots p) && is_live p j
    then some (bytes_of p (slot_offset p j) (slot_length p j))
    else none

pub record_at-live :
    (p : Bytes) (j : ℕ)
    → j < num_slots p
    → is_live p j ≡ true
    → record_at p j ≡ some (bytes_of p (slot_offset p j) (slot_length p j))
unfolding record_at
record_at-live p j h l = rw (lt→ltb j (num_slots p) h, l)

pub record_at-dead : (p : Bytes) (j : ℕ) → is_live p j ≡ false → record_at p j ≡ none
unfolding record_at
record_at-dead p j d = elim (Bool-cases (ltb j (num_slots p))) [ inl e ↦ rw (e, d) | inr e ↦ rw e ]

pub record_at-past : (p : Bytes) (j : ℕ) → num_slots p ≤ j → record_at p j ≡ none
unfolding record_at
record_at-past p j h = let e : ltb j (num_slots p) ≡ false = ground arith in rw e

-- Two pages that both have the slot `j` or both do not have it, with the same length in slot `j` and, if the slot is live,
-- the same bytes have the same record there.
pub record_at-congr :
    (p q : Bytes) (j : ℕ)
    → ltb j (num_slots q) ≡ ltb j (num_slots p)
    → (j < num_slots p → slot_length q j ≡ slot_length p j)
    → ((x : ℕ)
        → j < num_slots p
        → is_live p j ≡ true
        → x < slot_length p j
        → q (slot_offset q j + x) ≡ p (slot_offset p j + x))
    → record_at q j ≡ record_at p j
record_at-congr p q j n len bytes = elim (Bool-cases (ltb j (num_slots p))) [
  | inr e ↦ record_at-past q j (ground (arith, n)) ∙ sym (record_at-past p j (ground arith))
  | inl e ↦
      let h : j < num_slots p = ltb→lt j (num_slots p) e in
      let same : is_live q j ≡ is_live p j =
        ap (λ (l : ℕ). if l == deleted_len then false else true) (len h) in
      elim (Bool-cases (is_live p j)) [
        | inr d ↦ record_at-dead q j (same ∙ d) ∙ sym (record_at-dead p j d)
        | inl l ↦
            record_at-live q j (ltb→lt j (num_slots q) (n ∙ e)) (same ∙ l)
            ∙ (ap some (
                  ap (bytes_of q (slot_offset q j)) (len h)
                  ∙ bytes_of-congr q p (slot_offset q j) (slot_offset p j) (slot_length p j)
                      (λ x. λ m. bytes x h l m))
                ∙ sym (record_at-live p j h l))
      ]
]

module _ (p : Bytes) (v : IsSlotted p) where
  -- On a well-formed page SP_CompactPage keeps the record of every slot, whatever temp_page held
  -- before.
  pub record_at-compact_page :
      (junk : Bytes) (j : ℕ) → record_at (compact_page junk p) j ≡ record_at p j
  record_at-compact_page junk j =
      record_at-congr p (compact_page junk p) j (ap (ltb j) (num_slots-compact_page p v junk))
        (length-compact_page p v junk j) (λ x h l m. bytes-compact_page p v junk j x h l m)

module _ (p : Bytes) (v : IsSlotted p) where
  -- What SP_DeleteRec does to a well-formed page takes the record of its slot away and keeps every
  -- other one.
  module _ (i : ℕ) (h : i < num_slots p) where
    record_at-mark_deleted :
        (j : ℕ)
        → is_live p i ≡ true
        → record_at (mark_deleted i p) j ≡ (if j == i then none else record_at p j)
    record_at-mark_deleted j live = elim (Bool-cases (j == i)) [
      | inl e ↦
          let q : j ≡ i = (==_iff j i).0 e in
          rw (e, q)
            (record_at-dead (mark_deleted i p) i (
              ap (λ (l : ℕ). if l == deleted_len then false else true)
                (dead-mark_deleted i p v h live)))
      | inr e ↦ rw e (
          record_at-congr p (mark_deleted i p) j (ap (ltb j) (num_slots-mark_deleted i p v h live))
            (λ _. length-mark_deleted i p v h live j (ground arith))
            (λ x l a m.
              ap (λ (o : ℕ). mark_deleted i p (o + x)) (offset-mark_deleted i p v h live j)
              ∙ bytes-mark_deleted i p v h live (slot_offset p j + x)
                  (omega (arith, v.above j l a, v.below))))
    ]

    -- On a well-formed page and a slot number below the number of slots, what SP_DeleteRec does to
    -- the page leaves it well formed: the directory ends below the free space, the records stand
    -- above it inside the page, and the counters of the header are exact.
    pub delete_slot-IsSlotted : (junk : Bytes) → IsSlotted (delete_slot junk i p)
    unfolding delete_slot compact_if_half_free
    delete_slot-IsSlotted junk = elim (Bool-cases (slot_length p i == deleted_len)) [
      | inl e ↦ rw e v
      | inr e ↦
          let live : is_live p i ≡ true = rw e in
          let m : IsSlotted (mark_deleted i p) = mark_deleted-IsSlotted i p v h live in
          elim (Bool-cases (slt (page_size / 2) (total_free_space (mark_deleted i p)))) [
            | inl c ↦ rw (e, c) (compact_page-IsSlotted (mark_deleted i p) m junk)
            | inr c ↦ rw (e, c) m
          ]
    ]

    -- On a well-formed page and a slot number below the number of slots, what SP_DeleteRec does to
    -- the page, with or without the compaction, takes the record of that slot away and keeps the
    -- record of every other slot.
    pub record_at-delete_slot :
        (junk : Bytes) (j : ℕ)
        → record_at (delete_slot junk i p) j ≡ (if j == i then none else record_at p j)
    unfolding delete_slot compact_if_half_free
    record_at-delete_slot junk j = elim (Bool-cases (slot_length p i == deleted_len)) [
      | inl e ↦ elim (Bool-cases (j == i)) [
        | inl f ↦ rw (e, f) (record_at-dead p j (rw ((==_iff j i).0 f, e)))
        | inr f ↦ rw (e, f)
      ]
      | inr e ↦
          let live : is_live p i ≡ true = rw e in
          let m : IsSlotted (mark_deleted i p) = mark_deleted-IsSlotted i p v h live in
          elim (Bool-cases (slt (page_size / 2) (total_free_space (mark_deleted i p)))) [
            | inl c ↦
                rw (e, c)
                  (record_at-compact_page (mark_deleted i p) m junk j
                    ∙ record_at-mark_deleted j live)
            | inr c ↦ rw (e, c) (record_at-mark_deleted j live)
          ]
    ]

  -- On a well-formed page with room for a record and its slot, Phase 3 of SP_InsertRec puts the
  -- bytes of the record into the slot after the last one and keeps the record of every other slot.
  pub record_at-insert_record :
      (rec : Bytes) (length : ℕ)
      → Fits length p
      → (j : ℕ)
      → record_at (insert_record rec length p) j
        ≡ (if j == num_slots p then some (bytes_of rec 0 length) else record_at p j)
  record_at-insert_record rec length f j =
      let q : Bytes = insert_record rec length p in
      let slots : num_slots q ≡ num_slots p + 1 = (header-insert_record rec length p v f).0 in
      let (len, off) = new_slot-insert_record rec length p v f in
      elim (Bool-cases (j == num_slots p)) [
        | inl e ↦
            let live : is_live q (num_slots p) ≡ true = ground (arith, len, f, v.top) in
            rw (e, (==_iff j (num_slots p)).0 e)
              (record_at-live q (num_slots p) (omega (arith, slots)) live
                ∙ ap some (
                    ap (bytes_of q (slot_offset q (num_slots p))) len
                    ∙ bytes_of-congr q rec (slot_offset q (num_slots p)) 0 length (λ x l.
                      ap (λ (o : ℕ). q (o + x)) off
                      ∙ (bytes-insert_record rec length p v f x l ∙ ap rec (omega arith)))))
        | inr e ↦ rw e (
            record_at-congr p q j (ground (arith, slots))
              (λ h. (slot-insert_record rec length p v f j h).0)
              (λ x h l m.
                ap (λ (o : ℕ). q (o + x)) (slot-insert_record rec length p v f j h).1
                ∙ rest-insert_record rec length p v f (slot_offset p j + x)
                    (omega (arith, v.above j h l))))
      ]
