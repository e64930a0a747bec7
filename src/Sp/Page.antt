-- ===== src/Sp/Page.antt =====
-- What splayer/sp.c does inside one page: SP_InitNewPage, SP_CompactPage, and the parts of
-- SP_InsertRec and SP_DeleteRec that work on the page they hold.
use database_assignment.Prelude.{ℕ, zero, suc, ◌+◌, ◌-◌, ◌/◌, Bool, not, ◌==◌, if◌then◌else◌}
use database_assignment.Words.{Bytes, add32, sub32, slt, load, store, copy}
use database_assignment.Sp.{
  page_size, header_size, slot_size, num_slots_at, slot_count_at, free_space_at,
  total_free_space_at, reserved_at, length_at, offset_at, deleted_len, num_slots, free_space,
  total_free_space, slot_length, slot_offset, directory_end,
}

-- SP_InitNewPage, on a page that is not NULL
unfoldable pub init_new_page : Bytes → Bytes
init_new_page p = store reserved_at 0 (
    store total_free_space_at (page_size - header_size)
      (store free_space_at page_size (store slot_count_at 0 (store num_slots_at 0 p))))

-- an integer of the page plus `d`
abbrev pub bump : ℕ → ℕ → Bytes → Bytes
bump a d p = store a (add32 (load p a) d) p

-- The contents of the page and of temp_page, and new_free_ptr, in the loop of SP_CompactPage.
pub record Compaction : Type 0 where
  pub page : Bytes
  pub temp : Bytes
  pub new_free_ptr : ℕ

-- a live record goes to its new place
unfoldable pub move_record : ℕ → Compaction → Compaction
move_record i c =
    let ptr = sub32 c.new_free_ptr (slot_length c.page i) in
    record {
      page = store (offset_at i) ptr c.page;
      temp = copy ptr c.page (slot_offset c.page i) (slot_length c.page i) c.temp;
      new_free_ptr = ptr;
    }

-- the body of the loop
unfoldable pub compact_slot : ℕ → Compaction → Compaction
compact_slot i c = if slot_length c.page i == deleted_len then c else move_record i c

-- the loop over the slots before `i`, from the first one on
unfoldable pub compact_slots : ℕ → Compaction → Compaction
compact_slots zero c = c
compact_slots (suc i) c = compact_slot i (compact_slots i c)

-- how often `for (i = 0; i < n; i++)` runs
abbrev pub rounds : ℕ → ℕ
rounds n = if slt n 0 then 0 else n

-- SP_CompactPage; `junk` is what temp_page holds before.
unfoldable pub compact_page : Bytes → Bytes → Bytes
unfolding compact_slots compact_slot move_record
compact_page junk p =
    let start : Compaction = record { page = p; temp = junk; new_free_ptr = page_size } in
    let c = compact_slots (rounds (num_slots p)) start in
    let temp = copy 0 c.page 0 (directory_end (num_slots c.page)) c.temp in
    let q = store free_space_at c.new_free_ptr (copy 0 temp 0 page_size c.page) in
    store total_free_space_at (sub32 (free_space q) (directory_end (num_slots q))) q

-- the test of SP_InsertRec for a page with enough contiguous space
unfoldable pub has_room : ℕ → Bytes → Bool
has_room length p =
    not (slt (sub32 (free_space p) (directory_end (num_slots p))) (add32 length slot_size))

-- Phase 3 of SP_InsertRec, where the record and the slot are on the page; Sp/File tests that first.
unfoldable pub insert_record : Bytes → ℕ → Bytes → Bytes
insert_record rec length p =
    let slot_idx = num_slots p in
    let new_offset = sub32 (free_space p) length in
    let p₁ = copy new_offset rec 0 length p in
    let p₂ = store (offset_at slot_idx) new_offset (store (length_at slot_idx) length p₁) in
    let p₃ = bump slot_count_at 1 (bump num_slots_at 1 (store free_space_at new_offset p₂)) in
    store total_free_space_at (sub32 (total_free_space p₃) (length + slot_size)) p₃

-- SP_DeleteRec marks a slot that holds a record, up to its test for compaction.
unfoldable pub mark_deleted : ℕ → Bytes → Bytes
mark_deleted i p =
    let deleted = slot_length p i in
    let p₁ = store (length_at i) deleted_len p in
    let p₂ = store slot_count_at (sub32 (load p₁ slot_count_at) 1) p₁ in
    bump total_free_space_at deleted p₂

-- the test for compaction, and what follows it
unfoldable pub compact_if_half_free : Bytes → Bytes → Bytes
unfolding compact_page
compact_if_half_free junk p =
    if slt (page_size / 2) (total_free_space p) then compact_page junk p else p

-- what SP_DeleteRec does to the page
unfoldable pub delete_slot : Bytes → ℕ → Bytes → Bytes
unfolding mark_deleted compact_if_half_free
delete_slot junk i p =
    if slot_length p i == deleted_len then p else compact_if_half_free junk (mark_deleted i p)
