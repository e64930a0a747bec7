-- ===== src/Pf.antt =====
-- pflayer/pf.c: paged files. This file has the open file table and the calls of the operating
-- system; the routines are in the modules below.
pub mod Io
pub mod Files
pub mod Pages
pub mod Safe
pub mod SafeLists
pub mod SafeAlloc
pub mod Close
use Prim.Native.String.{String}
use database_assignment.Prelude.{ℕ, Bool, false, Option, none, some, ltb, ◌==◌, if◌then◌else◌}
use database_assignment.Prelude.Int.{ℤ, pos, negsuc}
use database_assignment.Result.{
  Result, Attempt, done, failed, ok, err, Code, Call, bad_fd, invalid_page,
}
use database_assignment.Buf.{FilePage, NextFree, Pool}

-- PF_FTAB_SIZE
abbrev pub ftab_size : ℕ
ftab_size = 20

-- struct PFhdr_str
pub record Header : Type 0 where
  pub firstfree : NextFree
  pub numpages : ℕ

-- struct PFftab_ele
pub record Entry : Type 0 where
  pub fname : Option String
  pub unixfd : ℕ
  pub hdr : Header
  pub hdrchanged : Bool

-- What read() and write() return: all the bytes, fewer, or -1.
pub data Transfer (A : Type 0) : Type 0 where
  whole : A → Transfer A
  short : Transfer A
  refused : Transfer A

-- The operating system. `lseek`, `close` and `unlink` answer whether they succeed; reads and writes
-- move one struct, PFfpage or PFhdr_str, at the current offset of the file.
pub record Unix : Type 1 where
  pub World : Type 0
  pub open_new : String → World → Option ℕ × World
  pub open_rw : String → World → Option ℕ × World
  pub close : ℕ → World → Bool × World
  pub unlink : String → World → Bool × World
  pub lseek : ℕ → ℕ → World → Bool × World
  pub read_page : ℕ → World → Transfer FilePage × World
  pub write_page : ℕ → FilePage → World → Transfer (Unit {0}) × World
  pub read_hdr : ℕ → World → Transfer Header × World
  pub write_hdr : ℕ → Header → World → Transfer (Unit {0}) × World

-- The variables of pf.c, buf.c and hash.c.
pub record Pf (W : Type 0) : Type 0 where
  pub pool : Pool W
  pub ftab : ℕ → Entry

abbrev pub set_entry : (ℕ → Entry) → ℕ → Entry → ℕ → Entry
set_entry ftab n e m = if n == m then e else ftab m

-- the negation of the macro PFinvalidFd, on a descriptor that is not negative
unfoldable pub is_open : (ℕ → Entry) → ℕ → Bool
is_open ftab n = elim (ftab n).fname [ none ↦ false | some _ ↦ ltb n ftab_size ]

module _ {W : Type 0} where
  -- PFerrno = e; return(PFerrno);
  abbrev pub raise : {A : Type 0} → Code → Call (Pf W) A
  raise e s = (err e, record s { pool = record s.pool { errno = some e } })

  abbrev pub put_entry : ℕ → Entry → Pf W → Pf W
  put_entry n e s = record s { ftab = set_entry s.ftab n e }

  -- a call of buf.c
  abbrev pub pooled : {A : Type 0} → Result A × Pool W → Pf W → Result A × Pf W
  pooled r s = (r.0, record s { pool = r.1 })

  -- the guard on the descriptor, which is a number from here on
  unfoldable pub check_fd : ℤ → Call (Pf W) ℕ
  unfolding is_open
  check_fd (pos n) s = if is_open s.ftab n then (ok n, s) else raise bad_fd s
  check_fd (negsuc n) s = raise bad_fd s

  -- the guard with the macro PFinvalidPagenum
  unfoldable pub check_page : ℕ → ℤ → Call (Pf W) ℕ
  check_page n (pos p) s = if ltb p (s.ftab n).hdr.numpages then (ok p, s) else raise invalid_page s
  check_page n (negsuc p) s = raise invalid_page s
