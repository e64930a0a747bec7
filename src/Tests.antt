-- ===== src/Tests.antt =====
-- Runs of the paged file layer of pflayer/ on a small file system: one file of three pages, the second
-- of which is free.
use database_assignment.Prelude.{
  List, ◌++◌, member, member-cons, member-nil, distinct-cons, distinct-nil, ℕ, suc, ◌-◌, ◌/◌, ◌≡◌,
  ◌≢◌, refl, true, false, some, none, [], ◌∷◌, arith, ◌==◌, if◌then◌else◌,
}
use database_assignment.Prelude.Int.{pos}
use database_assignment.Result.{ok, err, held, page_unfixed, failed, no_mem, Post}
use database_assignment.Hash
use database_assignment.Hash.Laws.{
  find-init, init-IsMap, find-insert, insert-IsMap, insert-refused, find-delete, same,
}
use database_assignment.Buf.{FilePage, Frame, list_end, used_page, page_at, Memory, Pool}
use database_assignment.Buf.{first_unfixed}
use database_assignment.Buf.Alloc.{victim}
use database_assignment.Buf.Victim.{AllFixed, victim_lru}
use database_assignment.Buf.Ops.{get, unfix, mark_used}
use database_assignment.Buf.Valid.{IsValid}
use database_assignment.Buf.Fetch.{IsHeld}
use database_assignment.Buf.Keeps.{Keeps, get-Post, unfix-Keeps, mark_used-Keeps, Succeeds}
use database_assignment.Pf.{Header, Entry, whole, Unix, Pf, is_open}
use database_assignment.Pf.Io.{fpage_size, hdr_size, readfcn, writefcn}
use database_assignment.Pf.Pages.{get_this_page, alloc_page}
use database_assignment.Pf.Safe.{IsSafe, IsThisPage, get_this_page-Post}
use database_assignment.Pf.SafeAlloc.{IsNewPage, alloc_page-Post}
use database_assignment.Buf.{put_frame}
use database_assignment.Buf.Valid.{write_same-IsCore}
use database_assignment.Sp.File.{insert_rec}
use database_assignment.Sp.Scan.{get_next_rec, Stats, stats_from}
use database_assignment.Sp.File.{sp_ok, sp_error}
use database_assignment.Sp.Safe.{Ends}
use database_assignment.Sp.Returns.{IsReady, IsOverrun, insert_rec-Ends, Scans, get_next_rec-Scans}
use database_assignment.Buf.Unfixed.{IsUnfixed, unfix-IsUnfixed}
use database_assignment.Sp.End.{refused_page, ends_at}

-- the file, and the offset that lseek() sets
record Disk : Type 0 where
  at : ℕ
  page : ℕ → FilePage

abbrev number : Disk → ℕ
number w = (w.at - hdr_size) / fpage_size

abbrev empty_page : FilePage
empty_page = record { nextfree = used_page; pagebuf = λ _. 0 }

abbrev free_page : FilePage
free_page = record { nextfree = list_end; pagebuf = λ _. 0 }

abbrev header : Header
header = record { firstfree = page_at 1; numpages = 3 }

abbrev unix : Unix
unix = record {
  World = Disk;
  open_new = λ _ w. (some 3, w);
  open_rw = λ _ w. (some 3, w);
  close = λ _ w. (true, w);
  unlink = λ _ w. (true, w);
  lseek = λ _ a w. (true, record w { at = a });
  read_page = λ _ w. (whole (w.page (number w)), w);
  write_page = λ _ f w. (whole tt, record w { page = λ n. if n == number w then f else w.page n });
  read_hdr = λ _ w. (whole header, w);
  write_hdr = λ _ _ w. (whole tt, w);
}

abbrev disk : Disk
disk = record { at = 0; page = λ n. if n == 1 then free_page else empty_page }

abbrev blank : Frame
blank = record { dirty = false; fixed = false; page = 0; fd = 0; fpage = empty_page }

abbrev memory : Memory
memory = record { grants = λ _. true; junk = λ _. blank }

abbrev ftab : ℕ → Entry
ftab n = record {
  fname = if n == 0 then some "file" else none;
  unixfd = 3;
  hdr = header;
  hdrchanged = false;
}

-- page 2 of the file is in the buffer, fixed
abbrev table : Hash.Table
table = (Hash.insert true 0 2 0 Hash.init).1

abbrev frame : Frame
frame = record { dirty = true; fixed = true; page = 2; fd = 0; fpage = empty_page }

abbrev pool : Pool Disk
pool = record {
  table = table;
  frame = λ i. if i == 0 then frame else blank;
  numbpage = 1;
  used = 0 ∷ [];
  free = [];
  calls = 2;
  policy = 0;
  logical_reads = 0;
  physical_reads = 0;
  physical_writes = 0;
  errno = none;
  world = disk;
}

abbrev state : Pf Disk
state = record { pool = pool; ftab = ftab }

find_pool : (fd page i : ℕ) → Hash.find table fd page ≡ some i → (fd ≡ 0) × (page ≡ 2) × (i ≡ 0)
find_pool fd page i h =
    ground (arith, h, find-insert 0 2 0 fd page Hash.init (find-init 0 2), find-init fd page)

listed_pool : Hash.find table 0 2 ≡ some 0
listed_pool = ground (arith, find-insert 0 2 0 0 2 Hash.init (find-init 0 2))

-- the frame 0 is the only one in the list
used_pool : (i : ℕ) → member i pool.used ≡ true → i ≡ 0
used_pool i h = ground (arith, h, member-cons i 0 [], member-nil i)

in_used_pool : member 0 pool.used ≡ true
in_used_pool = ground (arith, member-cons 0 0 [], member-nil 0)

none_free : (i : ℕ) → member i pool.free ≢ true
none_free i h = ground (arith, h, member-nil i)

pool-IsValid : IsValid pool
pool-IsValid = record {
  is_map = insert-IsMap true 0 2 0 Hash.init init-IsMap;
  found_used = λ fd page i h. rw (find_pool fd page i h).2 in_used_pool;
  found_fd = λ fd page i h. rw ((find_pool fd page i h).2, (find_pool fd page i h).0) refl;
  found_page = λ fd page i h. rw ((find_pool fd page i h).2, (find_pool fd page i h).1) refl;
  listed = λ i h. rw (used_pool i h) listed_pool;
  used_distinct = ground (arith, distinct-cons 0 [], member-nil 0, distinct-nil);
  free_distinct = distinct-nil;
  apart = λ i h. absurd (none_free i h);
  used_bound = λ i h. omega (arith, used_pool i h);
  free_bound = λ i h. absurd (none_free i h);
  room = omega arith;
}

ready : IsReady state
ready = (pool-IsValid, λ n h. ground (arith, h))

open_state : is_open ftab 0 ≡ true
unfolding is_open
open_state = refl

-- Two keys in one bucket: the second one is found, and so is the first one.
find-insert_example :
    Hash.find (Hash.insert true 0 22 1 table).1 0 2
    ≡ (if same 0 22 0 2 then some 1 else Hash.find table 0 2)
find-insert_example =
    find-insert 0 22 1 0 2 table
      (ground (arith, find-insert 0 2 0 0 22 Hash.init (find-init 0 2), find-init 0 22))

find-delete_example :
    Hash.find (Hash.delete 0 2 table).1 0 2 ≡ (if same 0 2 0 2 then none else Hash.find table 0 2)
find-delete_example = find-delete 0 2 0 2 table pool-IsValid.is_map

insert-refused_example : Hash.insert false 0 2 0 Hash.init ≡ (failed no_mem, Hash.init)
insert-refused_example = insert-refused 0 2 0 Hash.init (find-init 0 2)

-- Page 0 is read into a second frame.
get-Post_example :
    Post
      (IsHeld 0 0)
      (λ t. IsValid t)
      (get memory (readfcn unix ftab) (writefcn unix ftab) 0 0 pool)
get-Post_example = get-Post (writefcn unix ftab) memory (readfcn unix ftab) 0 0 pool pool-IsValid

unfix-Keeps_example : Keeps (unfix 0 2 true pool)
unfix-Keeps_example = unfix-Keeps 0 2 true pool pool-IsValid

mark_used-Keeps_example : Keeps (mark_used 0 2 pool)
mark_used-Keeps_example = mark_used-Keeps 0 2 pool pool-IsValid

unfix-IsUnfixed_example :
    ((get memory (readfcn unix ftab) (writefcn unix ftab) 0 2 pool).0 ≡ held 0)
    × Succeeds
        (λ t.
          IsUnfixed 0 2 0 true pool t
          × ((get memory (readfcn unix ftab) (writefcn unix ftab) 0 2 t).0 ≡ ok 0)
          × ((unfix 0 2 false t).0 ≡ err page_unfixed))
        (unfix 0 2 true pool)
unfix-IsUnfixed_example =
    unfix-IsUnfixed memory (readfcn unix ftab) (writefcn unix ftab) 0 2 0 true false pool
      (pool-IsValid, listed_pool, refl)

get_this_page-Post_example :
    Post
      (IsThisPage memory unix (pos 0) (pos 0))
      IsSafe
      (get_this_page memory unix (pos 0) (pos 0) state)
get_this_page-Post_example = get_this_page-Post memory unix (pos 0) (pos 0) state ready.0

alloc_page-Post_example :
    Post (IsNewPage memory unix (pos 0)) IsSafe (alloc_page memory unix (pos 0) state)
alloc_page-Post_example = alloc_page-Post memory unix (pos 0) state ready.0 ready.1

insert_rec-Ends_example :
    Ends IsSafe (IsOverrun memory unix (pos 0) 5) (insert_rec memory unix (pos 0) (λ x. x) 5 state)
insert_rec-Ends_example = insert_rec-Ends memory unix (pos 0) (λ x. x) 5 state ready

get_next_rec-Scans_example :
    Scans memory unix (pos 0) ftab (get_next_rec memory unix (pos 0) (pos 0) (pos 0) 100 state)
get_next_rec-Scans_example =
    get_next_rec-Scans memory unix (pos 0) 0 0 100 state ready.0 (omega arith)

ends_at_example :
    ((j size : ℕ)
      → get_next_rec memory unix (pos 0) (pos 3) (pos j) size state
        ≡ (sp_error, refused_page memory unix state))
    × ((k : ℕ) (st : Stats)
        → stats_from memory unix (pos 0) 3 (suc k) st state
          ≡ (sp_ok st, refused_page memory unix state))
ends_at_example = ends_at memory unix 0 3 state open_state (omega arith)

-- Under LRU the last frame that is not fixed is the victim, under MRU the first one.
abbrev three : Pool Disk
three = record pool {
  frame = λ i. record frame { fixed = i == 2 };
  numbpage = 3;
  used = 0 ∷ 1 ∷ 2 ∷ [];
}

chosen_oldest : victim three ≡ some 1
unfolding victim first_unfixed
chosen_oldest = refl

victim_lru_example :
    (newer : List ℕ) × (older : List ℕ) × (three.used ≡ newer ++ (1 ∷ older))
    × AllFixed three.frame older
    × ((three.frame 1).fixed ≡ false)
victim_lru_example = victim_lru three 1 refl chosen_oldest

chosen_newest : victim (record three { policy = 1 }) ≡ some 0
unfolding victim first_unfixed
chosen_newest = refl

no_victim : victim pool ≡ none
unfolding victim first_unfixed
no_victim = refl

-- the state after page 2 is unfixed
abbrev unfixed : Pf Disk
unfixed = record state { pool = put_frame 0 (record frame { fixed = false }) pool }

unfixed-IsSafe : IsSafe unfixed
unfixed-IsSafe = write_same-IsCore 0 (record frame { fixed = false }) refl refl pool-IsValid
