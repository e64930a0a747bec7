-- ===== src/Am/Tree.antt =====
-- The routines of amlayer/ over the paged files of pflayer/: the variables of the layer, the stack of
-- amlayer/amstack.c, and what a routine yields. A page number is an `int`, kept as its bit pattern, and
-- the buffer of a page is given by the number of its frame. The routines are in the modules below.
pub mod Find
pub mod Grow
pub mod Entries
pub mod Outcome
pub mod Safe
pub mod Open
pub mod Next
pub mod Empty
use database_assignment.Prelude.{
  ℕ, ◌+◌, ◌-◌, Bool, List, [], ◌∷◌, Option, some, ltb, length, if◌then◌else◌,
}
use database_assignment.Prelude.Int.{ℤ, pos, negsuc}
use database_assignment.Result.{Result, ok, err, held, halt, Call}
use database_assignment.Words.{Bytes, word, half_word}
use database_assignment.Pf.{Pf}
use database_assignment.Am.{AttrType}
use database_assignment.Sp.File.{page_buf, set_buf}

-- AM_MAXSTACK
abbrev pub max_stack : ℕ
max_stack = 50

-- The error codes of amlayer/am.h that the routines below return
pub data AmError : Type 0 where
  invalid_attr_length not_found pf_error invalid_attr_type bad_file_desc invalid_value : AmError
  invalid_scan_desc invalid_op_to_scan scan_over scan_tab_full : AmError

-- FREE, FIRST, BUSY, LAST and OVER
pub data ScanStatus : Type 0 where
  free_scan first_scan busy_scan last_scan over_scan : ScanStatus

-- an entry of AM_scanTable
pub record Scan : Type 0 where
  pub file : ℤ
  pub op : ℕ
  pub attr_type : AttrType
  pub page : ℕ
  pub index : ℕ
  pub actindex : ℕ
  pub next_page : ℕ
  pub next_value : Bytes
  pub next_index : ℕ
  pub next_ptr : ℕ
  pub last_page : ℕ
  pub last_index : ℕ
  pub status : ScanStatus

-- AM_RootPageNum, AM_LeftPageNum, AM_Errno, the entries of AM_Stack up to AM_topofStackPtr with the top
-- first, AM_scanTable, and the variables of the paged file layer
pub record Am (W : Type 0) : Type 0 where
  pub pf : Pf W
  pub root : ℕ
  pub left : ℕ
  pub errno : Option AmError
  pub stack : List (ℕ × ℕ)
  pub scans : ℕ → Scan

-- What a routine of the layer yields: its results; an error code; the end of the program in the paged
-- file layer; no result that C defines (a write or a read outside AM_Stack, a value that no statement
-- has set); or a loop whose bound is used up.
pub data Answer (A : Type 0) : Type 0 where
  am_ok : A → Answer A
  am_err : AmError → Answer A
  ended undefined running : Answer A

abbrev pub Op : Type 0 → Type 0 → Type 0
Op W A = Am W → Answer A × Am W

-- a page number as the `int` that a call is given
abbrev pub to_int : ℕ → ℤ
to_int w = if ltb w half_word then pos w else negsuc (word - 1 - w)

module _ {W : Type 0} where
  abbrev pub then_do : {A B : Type 0} → (A → Op W B) → Answer A × Am W → Answer B × Am W
  then_do f (am_ok a, s) = f a s
  then_do f (am_err e, s) = (am_err e, s)
  then_do f (ended, s) = (ended, s)
  then_do f (undefined, s) = (undefined, s)
  then_do f (running, s) = (running, s)

  abbrev pub give : {A : Type 0} → A → Op W A
  give a s = (am_ok a, s)

  -- AM_Errno = e; return(e);
  abbrev pub fail : {A : Type 0} → AmError → Op W A
  fail e s = (am_err e, record s { errno = some e })

  -- a call of the paged file layer, and AM_Check
  abbrev pub checked : {A : Type 0} → Am W → Result A × Pf W → Answer A × Am W
  checked s (ok a, t) = (am_ok a, record s { pf = t })
  checked s (err e, t) = (am_err pf_error, record s { pf = t; errno = some pf_error })
  checked s (held a, t) = (am_err pf_error, record s { pf = t; errno = some pf_error })
  checked s (halt, t) = (ended, record s { pf = t })

  abbrev pub pf_call : {A : Type 0} → Call (Pf W) A → Op W A
  pf_call m s = checked s (m s.pf)

  -- the page in a frame
  abbrev pub buf : ℕ → Am W → Bytes
  buf i s = page_buf i s.pf

  abbrev pub write_buf : ℕ → Bytes → Am W → Am W
  write_buf i p s = record s { pf = set_buf i p s.pf }

  -- AM_PushStack
  unfoldable pub push_stack : ℕ → ℕ → Op W (Unit {0})
  push_stack page offset s =
      if ltb (length s.stack) max_stack
      then (am_ok tt, record s { stack = (page, offset) ∷ s.stack })
      else (undefined, s)

  -- AM_topofStack and AM_PopStack
  unfoldable pub pop_stack : Op W (ℕ × ℕ)
  pop_stack s = elim s.stack [
    | [] ↦ (undefined, s)
    | t ∷ rest ↦ (am_ok t, record s { stack = rest })
  ]

  -- AM_EmptyStack
  abbrev pub empty_stack : Am W → Am W
  empty_stack s = record s { stack = [] }

infixl 5 ◌>>=◌ ◌>>◌
abbrev pub ◌>>=◌ : {W A B : Type 0} → Op W A → (A → Op W B) → Op W B
◌>>=◌ m f s = then_do f (m s)

abbrev pub ◌>>◌ : {W B : Type 0} → Op W (Unit {0}) → Op W B → Op W B
m >> k = m >>= λ _. k
