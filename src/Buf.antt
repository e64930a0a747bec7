-- ===== src/Buf.antt =====
-- pflayer/buf.c: the pool of buffer frames. A frame is named by its number, in the order in which
-- malloc() gave them out. `used` is the list from PFfirstbpage to PFlastbpage along `nextpage`
-- (so from the back along `prevpage`), and `free` the list from PFfreebpage.
-- The functions that read and write a page of a file are parameters here as they are in buf.c:
-- `readfcn` and `writefcn` act on a `world` of type `W`.
pub mod Alloc
pub mod Ops
pub mod Valid
pub mod Taken
pub mod Fetch
pub mod Keeps
pub mod Unfixed
pub mod Victim
use database_assignment.Prelude.{
  ℕ, ◌+◌, Bool, false, not, Option, none, some, List, [], ◌∷◌, reverse, ◌==◌, if◌then◌else◌, remove,
}
use database_assignment.Result.{Result, Attempt, done, failed, ok, err, Code, Call}
use database_assignment.Hash
use database_assignment.Hash.{Table}

-- PF_MAX_BUFS
abbrev pub max_bufs : ℕ
max_bufs = 20

-- `nextfree` of struct PFfpage: PF_PAGE_LIST_END, PF_PAGE_USED or the number of a page.
pub data NextFree : Type 0 where
  list_end used_page : NextFree
  page_at : ℕ → NextFree

-- struct PFfpage; `pagebuf` gives the byte at each offset.
pub record FilePage : Type 0 where
  pub nextfree : NextFree
  pub pagebuf : ℕ → ℕ

-- struct PFbpage, but for its links
pub record Frame : Type 0 where
  pub dirty : Bool
  pub fixed : Bool
  pub page : ℕ
  pub fd : ℕ
  pub fpage : FilePage

-- malloc(): `grants k` tells whether its k-th call from this file or hash.c has memory, and
-- `junk k` is what a frame that call returns holds.
pub record Memory : Type 0 where
  pub grants : ℕ → Bool
  pub junk : ℕ → Frame

-- The variables of buf.c, hash.c and the counters of pf.c, with the world of the files.
pub record Pool (W : Type 0) : Type 0 where
  pub table : Table
  pub frame : ℕ → Frame
  pub numbpage : ℕ
  pub used : List ℕ
  pub free : List ℕ
  pub calls : ℕ
  pub policy : ℕ
  pub logical_reads : ℕ
  pub physical_reads : ℕ
  pub physical_writes : ℕ
  pub errno : Option Code
  pub world : W

-- frame i = f
abbrev pub set_frame : (ℕ → Frame) → ℕ → Frame → ℕ → Frame
set_frame frames i f j = if i == j then f else frames j

-- the first frame of a list that is not fixed
unfoldable pub first_unfixed : (ℕ → Frame) → List ℕ → Option ℕ
first_unfixed frames [] = none
first_unfixed frames (i ∷ is) = if (frames i).fixed then first_unfixed frames is else some i

module _ {W : Type 0} where
  -- PFerrno = e; return(PFerrno);
  abbrev pub raise : {A : Type 0} → Code → Call (Pool W) A
  raise e s = (err e, record s { errno = some e })

  -- PFbufInsertFree
  abbrev pub insert_free : ℕ → Pool W → Pool W
  insert_free i s = record s { free = i ∷ s.free }

  -- PFbufLinkHead
  abbrev pub link_head : ℕ → Pool W → Pool W
  link_head i s = record s { used = i ∷ s.used }

  -- PFbufUnlink
  abbrev pub unlink : ℕ → Pool W → Pool W
  unlink i s = record s { used = remove i s.used }

  -- the way back after a failure: the frame is unlinked and put into the free list
  abbrev pub give_back : ℕ → Pool W → Pool W
  give_back i s = insert_free i (unlink i s)

  -- assignments to the fields of a frame
  abbrev pub put_frame : ℕ → Frame → Pool W → Pool W
  put_frame i f s = record s { frame = set_frame s.frame i f }

  -- A call that works on the table of the pool; a failure sets PFerrno.
  abbrev pub hashed : Attempt Unit × Table → Pool W → Result Unit × Pool W
  hashed (done a, t) s = (ok a, record s { table = t })
  hashed (failed e, t) s = (err e, record s { table = t; errno = some e })

  -- A call that works on the world of the files; a failure sets PFerrno.
  abbrev pub outside : {A : Type 0} → Attempt A × W → Pool W → Result A × Pool W
  outside (done a, w) s = (ok a, record s { world = w })
  outside (failed e, w) s = (err e, record s { world = w; errno = some e })

  unfoldable pub hash_delete : ℕ → ℕ → Call (Pool W) Unit
  hash_delete fd page s = hashed (Hash.delete fd page s.table) s

  -- PFhashInsert calls malloc() once if the key is new.
  unfoldable pub hash_insert : Memory → ℕ → ℕ → ℕ → Call (Pool W) Unit
  hash_insert mem fd page i s =
      hashed (Hash.insert (mem.grants s.calls) fd page i s.table)
        (record s { calls = Hash.calls_after s.table fd page s.calls })
