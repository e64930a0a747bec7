-- ===== src/Sp/Tests.antt =====
-- Runs of the page routines of splayer/sp.c on a page with two records.
use database_assignment.Prelude.{
  ℕ, false, true, ◌≤◌, ◌≡◌, ◌↔◌, refl, true, some, none, [], ◌∷◌, arith, ◌==◌, if◌then◌else◌,
}
use database_assignment.Prelude.{member, member-cons, member-nil, distinct-cons, distinct-nil, ◌≢◌}
use database_assignment.Prelude.Int.{pos}
use database_assignment.Result.{ok}
use database_assignment.Hash
use database_assignment.Hash.Laws.{find-init, init-IsMap, find-insert, insert-IsMap}
use database_assignment.Buf.{Frame, Memory, used_page, list_end}
use database_assignment.Buf.Ops.{get, hit}
use database_assignment.Pf.{Unix, Pf, refused, is_open, check_fd, check_page}
use database_assignment.Pf.Pages.{get_this_page, this_page}
use database_assignment.Pf.Safe.{IsSafe}
use database_assignment.Sp.File.{page_buf, get_this_rec}
use database_assignment.Sp.Read.{reply_for, get_this_rec-record_at}
use database_assignment.Words.{slt, Bytes, load, store, copy}
use database_assignment.Sp.{slot_length, num_slots}
use database_assignment.Sp.Page.{init_new_page, has_room, insert_record, delete_slot, compact_page}
use database_assignment.Sp.Valid.{IsSlotted}
use database_assignment.Sp.Insert.{Fits, has_room_iff, insert_record-IsSlotted}
use database_assignment.Sp.Records.{
  bytes_of, record_at, record_at-insert_record, record_at-delete_slot, delete_slot-IsSlotted,
  record_at-compact_page,
}
use database_assignment.Sp.Fresh.{init_new_page-IsSlotted, init_new_page_empty, init_new_page_room}

abbrev pub zeros : Bytes
zeros x = 0

abbrev pub numbers : Bytes
numbers x = x

abbrev no_records : Bytes
no_records = init_new_page zeros

has_room_first : has_room 5 no_records ≡ true
unfolding has_room init_new_page load store
has_room_first = refl

room_first : Fits 5 no_records
room_first =
    (has_room_iff 5 no_records (init_new_page-IsSlotted zeros) (omega arith)).0 has_room_first

abbrev one_record : Bytes
one_record = insert_record numbers 5 no_records

one_record-IsSlotted : IsSlotted one_record
one_record-IsSlotted =
    insert_record-IsSlotted numbers 5 no_records (init_new_page-IsSlotted zeros) room_first

has_room_second : has_room 3000 one_record ≡ true
unfolding has_room insert_record init_new_page load store copy
has_room_second = refl

room_second : Fits 3000 one_record
room_second = (has_room_iff 3000 one_record one_record-IsSlotted (omega arith)).0 has_room_second

abbrev two_records : Bytes
two_records = insert_record zeros 3000 one_record

two_records-IsSlotted : IsSlotted two_records
two_records-IsSlotted =
    insert_record-IsSlotted zeros 3000 one_record one_record-IsSlotted room_second

slots_two : num_slots two_records ≡ 2
unfolding insert_record init_new_page load store copy
slots_two = refl

-- The records are those that were inserted; the bytes of the first one are read back.
reads_back : record_at one_record 0 ≡ some (0 ∷ 1 ∷ 2 ∷ 3 ∷ 4 ∷ [])
unfolding record_at bytes_of insert_record init_new_page load store copy
reads_back = refl

has_room_iff_example : (has_room 3000 one_record ≡ true) ↔ Fits 3000 one_record
has_room_iff_example = has_room_iff 3000 one_record one_record-IsSlotted (omega arith)

insert_record-IsSlotted_example : IsSlotted two_records
insert_record-IsSlotted_example =
    insert_record-IsSlotted zeros 3000 one_record one_record-IsSlotted room_second

record_at-insert_record_example :
    record_at two_records 0
    ≡ (if 0 == num_slots one_record then some (bytes_of zeros 0 3000) else record_at one_record 0)
record_at-insert_record_example =
    record_at-insert_record one_record one_record-IsSlotted zeros 3000 room_second 0

delete_slot-IsSlotted_example : IsSlotted (delete_slot zeros 1 two_records)
delete_slot-IsSlotted_example =
    delete_slot-IsSlotted two_records two_records-IsSlotted 1 (omega (arith, slots_two)) zeros

record_at-delete_slot_example :
    record_at (delete_slot zeros 1 two_records) 0
    ≡ (if 0 == 1 then none else record_at two_records 0)
record_at-delete_slot_example =
    record_at-delete_slot two_records two_records-IsSlotted 1 (omega (arith, slots_two)) zeros 0

record_at-compact_page_example :
    record_at (compact_page zeros two_records) 0 ≡ record_at two_records 0
record_at-compact_page_example = record_at-compact_page two_records two_records-IsSlotted zeros 0

init_new_page_empty_example : record_at (init_new_page numbers) 7 ≡ none
init_new_page_empty_example = init_new_page_empty numbers 7

init_new_page_room_example : (has_room 4069 (init_new_page numbers) ≡ true) ↔ (4069 ≤ 4068)
init_new_page_room_example = init_new_page_room numbers 4069 (omega arith)

-- A pool with one page as page 0 of the file 0, not fixed
abbrev pub table : Hash.Table
table = (Hash.insert true 0 0 0 Hash.init).1

abbrev pub frame_of : Bytes → Frame
frame_of buf = record {
  dirty = false;
  fixed = false;
  page = 0;
  fd = 0;
  fpage = record { nextfree = used_page; pagebuf = buf };
}

-- a system that does nothing
abbrev pub idle : Unix
idle = record {
  World = Unit;
  open_new = λ _ w. (none, w);
  open_rw = λ _ w. (none, w);
  close = λ _ w. (true, w);
  unlink = λ _ w. (true, w);
  lseek = λ _ _ w. (true, w);
  read_page = λ _ w. (refused, w);
  write_page = λ _ _ w. (refused, w);
  read_hdr = λ _ w. (refused, w);
  write_hdr = λ _ _ w. (refused, w);
}

abbrev pub memory : Memory
memory = record { grants = λ _. true; junk = λ _. frame_of zeros }

abbrev pub state_of : Bytes → Pf Unit
state_of buf = record {
  pool = record {
    table = table;
    frame = λ _. frame_of buf;
    numbpage = 1;
    used = 0 ∷ [];
    free = [];
    calls = 2;
    policy = 0;
    logical_reads = 0;
    physical_reads = 0;
    physical_writes = 0;
    errno = none;
    world = tt;
  };
  ftab = λ _. record {
    fname = some "file";
    unixfd = 3;
    hdr = record { firstfree = list_end; numpages = 1 };
    hdrchanged = false;
  };
}

abbrev state : Pf Unit
state = state_of one_record

find_state : (fd page i : ℕ) → Hash.find table fd page ≡ some i → (fd ≡ 0) × (page ≡ 0) × (i ≡ 0)
find_state fd page i h =
    ground (arith, h, find-insert 0 0 0 fd page Hash.init (find-init 0 0), find-init fd page)

used_state : (i : ℕ) → member i state.pool.used ≡ true → i ≡ 0
used_state i h = ground (arith, h, member-cons i 0 [], member-nil i)

none_free : (i : ℕ) → member i state.pool.free ≢ true
none_free i h = ground (arith, h, member-nil i)

pub state_of-IsSafe : (buf : Bytes) → IsSafe (state_of buf)
state_of-IsSafe buf = record {
  is_map = insert-IsMap true 0 0 0 Hash.init init-IsMap;
  found_used = λ fd page i h.
      rw (find_state fd page i h).2 (ground (arith, member-cons 0 0 [], member-nil 0));
  found_fd = λ fd page i h. rw (find_state fd page i h).0 refl;
  found_page = λ fd page i h. rw (find_state fd page i h).1 refl;
  listed =
      λ i h. rw (used_state i h) (ground (arith, find-insert 0 0 0 0 0 Hash.init (find-init 0 0)));
  used_distinct = ground (arith, distinct-cons 0 [], member-nil 0, distinct-nil);
  free_distinct = distinct-nil;
  apart = λ i h. absurd (none_free i h);
  used_bound = λ i h. omega (arith, used_state i h);
  free_bound = λ i h. absurd (none_free i h);
  room = omega arith;
}

abbrev got : Pf Unit
got = (get_this_page memory idle (pos 0) (pos 0) state).1

got_page : get_this_page memory idle (pos 0) (pos 0) state ≡ (ok 0, got)
unfolding get_this_page check_fd check_page is_open this_page get hit Hash.find Hash.find_in
    Hash.insert Hash.hash Hash.init
got_page = refl

got-IsSlotted : IsSlotted (page_buf 0 got)
unfolding get_this_page check_fd check_page is_open this_page get hit Hash.find Hash.find_in
    Hash.insert Hash.hash Hash.init
got-IsSlotted = one_record-IsSlotted

get_this_rec-record_at_example :
    (get_this_rec memory idle (pos 0) (pos 0) (pos 0) 100 state).0
    ≡ reply_for (slt 100 (slot_length (page_buf 0 got) 0)) (record_at (page_buf 0 got) 0)
get_this_rec-record_at_example =
    get_this_rec-record_at memory idle (pos 0) 0 0 100 0 state got (state_of-IsSafe one_record)
      got_page got-IsSlotted (omega arith)
