-- ===== src/Am/Tree/Open.antt =====
-- amlayer/amscan.c: AM_OpenIndexScan and AM_CloseIndexScan. Page numbers are bit patterns, as is the
-- error code that AM_OpenIndexScan takes for a page number; the index of a key in a leaf is not
-- negative.
use database_assignment.Prelude.{
  ℕ, zero, suc, ◌+◌, ◌-◌, ◌%◌, Bool, true, false, Option, some, none, ltb, leb, ◌==◌, if◌then◌else◌,
}
use database_assignment.Prelude.Int.{ℤ, pos, negsuc}
use database_assignment.Words.{Bytes, load, word, minus_one}
use database_assignment.Words.Short.{short, load16}
use database_assignment.Buf.{Memory}
use database_assignment.Pf.{Unix}
use database_assignment.Pf.Pages.{unfix_page, get_this_page, get_first_page}
use database_assignment.Am.{AttrType, Libc, next_leaf_at, num_keys, head_at}
use database_assignment.Am.Tree.{
  bad_file_desc, invalid_attr_type, invalid_scan_desc, invalid_op_to_scan, scan_tab_full,
  ScanStatus, free_scan, first_scan, over_scan, Scan, Am, Answer, am_ok, am_err, ended, undefined,
  running, Op, to_int, give, fail, pf_call, buf, ◌>>=◌, ◌>>◌,
}
use database_assignment.Am.Tree.Find.{is_leaf, Found, search}
use database_assignment.Am.Tree.Entries.{attr_type_of}

-- MAXSCANS
abbrev pub max_scans : ℕ
max_scans = 20

abbrev pub next_leaf : Bytes → ℕ
next_leaf h = load h next_leaf_at

abbrev pub is_free : Scan → Bool
is_free c = elim c.status [ free_scan ↦ true | _ ↦ false ]

-- the vacant place, of `k` entries from `d` on
unfoldable pub find_vacant : (ℕ → Scan) → ℕ → ℕ → Option ℕ
find_vacant scans d zero = none
find_vacant scans d (suc k) =
    let rest = find_vacant scans (d + 1) k in if is_free (scans d) then some d else rest

module _ {W : Type 0} where
  -- a change of an entry of the scan table
  abbrev pub set_scan : ℕ → (Scan → Scan) → Op W (Unit {0})
  set_scan d f s = (am_ok tt, record s { scans = λ e. if e == d then f (s.scans d) else s.scans e })

  -- nextpageNum, nextIndex and actindex
  abbrev pub start_at : ℕ → ℕ → ℕ → Op W (Unit {0})
  start_at d page index =
      set_scan d
        (λ c. record c { next_page = page; next_index = index % short; actindex = index % short })

  -- nextRecIdPtr is the list head of a key of the page in frame `i`
  abbrev pub read_head : ℕ → ℕ → ℕ → ℕ → Op W (Unit {0})
  read_head d i len index s =
      set_scan d (λ c. record c { next_ptr = load16 (buf i s) (head_at len index) }) s

  abbrev pub set_status : ℕ → ScanStatus → Op W (Unit {0})
  set_status d status = set_scan d (λ c. record c { status = status })

  abbrev pub set_last : ℕ → ℕ → ℕ → Op W (Unit {0})
  set_last d page index =
      set_scan d (λ c. record c { last_page = page; last_index = index % short })

  -- AM_LeftPageNum takes what GetLeftPageNum returns, AME_PF included.
  abbrev pub take_left : Answer ℕ × Am W → Answer (Unit {0}) × Am W
  take_left (am_ok p, s) = (am_ok tt, record s { left = p })
  take_left (am_err e, s) = (am_ok tt, record s { left = word - 3 })
  take_left (ended, s) = (ended, s)
  take_left (undefined, s) = (undefined, s)
  take_left (running, s) = (running, s)

  -- the answer of AM_Search, where an error frees the entry of the scan table
  abbrev pub or_free : {A : Type 0} → ℕ → Answer A × Am W → Answer A × Am W
  or_free d (am_ok a, s) = (am_ok a, s)
  or_free d (am_err e, s) = (set_status d free_scan >> fail e) s
  or_free d (ended, s) = (ended, s)
  or_free d (undefined, s) = (undefined, s)
  or_free d (running, s) = (running, s)

  -- AM_CloseIndexScan
  unfoldable pub close_index_scan : ℤ → Op W (Unit {0})
  close_index_scan (negsuc n) s = fail invalid_scan_desc s
  close_index_scan (pos d) s =
      if leb max_scans d then fail invalid_scan_desc s else set_status d free_scan s

-- Where a scan may start: the frame that pageBuf points to, the local header, the page number and the
-- index.
pub record Start : Type 0 where
  pub frame : ℕ
  pub header : Bytes
  pub page : ℕ
  pub index : ℕ

module _ (mem : Memory) (os : Unix) (fd : ℤ) (len : ℕ) where
  open os use {World}

  -- GetLeftPageNum
  unfoldable pub get_left_page_num : Op World ℕ
  unfolding get_first_page unfix_page
  get_left_page_num = do
    r ← pf_call (get_first_page mem os fd)
    (λ s. (am_ok tt, record s { left = if is_leaf (buf r.1 s) then r.0 else 2 }))
    pf_call (unfix_page fd (to_int r.0) false)
    (λ s. (am_ok s.left, s))

  -- the scan of all keys
  unfoldable pub open_all : ℕ → Op World ℕ
  unfolding get_this_page unfix_page
  open_all d s =
      (do
        set_scan d (λ c. record c { file = fd; op = 0 })
        start_at d s.left 1
        i ← pf_call (get_this_page mem os fd (to_int s.left))
        read_head d i len 1
        pf_call (unfix_page fd (to_int s.left) false)
        give d)
        s

  -- Where the index is behind the last key, the next leaf is taken; its header is copied before the page
  -- number is read from it again.
  unfoldable pub skip_end : Found → Op World Start
  unfolding get_this_page unfix_page
  skip_end f s =
      let h = buf f.frame s in
      if ltb (num_keys h) f.index
      then if next_leaf h == minus_one
        then give (record { frame = f.frame; header = h; page = minus_one; index = f.index }) s
        else (do
          j ← pf_call (get_this_page mem os fd (to_int (next_leaf h)))
          (λ t.
              let k = buf j t in
              (do
                pf_call (unfix_page fd (to_int (next_leaf k)) false)
                give (record { frame = j; header = k; page = next_leaf k; index = 1 }))
                t))
            s
      else give (record { frame = f.frame; header = h; page = f.page; index = f.index }) s

  -- a scan from the leftmost leaf on; `found` is the page of AM_Search.
  unfoldable pub start_left : ℕ → ℕ → ℕ → Op World (Unit {0})
  unfolding get_this_page unfix_page
  start_left d found frame s =
      (do
        start_at d s.left 1
        (if found == s.left then read_head d frame len 1 else (do
          i ← pf_call (get_this_page mem os fd (to_int s.left))
          read_head d i len 1
          pf_call (unfix_page fd (to_int s.left) false))))
        s

  -- GREATER_THAN
  unfoldable pub start_behind : ℕ → Bool → Start → Op World (Unit {0})
  unfolding get_this_page unfix_page
  start_behind d status st =
      if status
      then if leb (st.index + 1) (num_keys st.header)
        then start_at d st.page (st.index + 1) >> read_head d st.frame len (st.index + 1)
        else if next_leaf st.header == minus_one
        then set_status d over_scan
        else (do
          start_at d (next_leaf st.header) 1
          i ← pf_call (get_this_page mem os fd (to_int (next_leaf st.header)))
          read_head d i len 1
          pf_call (unfix_page fd (to_int (next_leaf st.header)) false))
      else (start_at d st.page st.index >> read_head d st.frame len st.index)

  -- the cases on `op`
  unfoldable pub start_scan : ℕ → ℕ → ℕ → Bool → Start → Op World (Unit {0})
  unfolding start_left start_behind
  start_scan d op found status st =
      if op == 1
      then if status
        then (do
          start_at d st.page st.index
          read_head d st.frame len st.index
          set_last d st.page st.index)
        else set_status d over_scan
      else if op == 2
      then (start_left d found st.frame >> set_last d st.page (st.index - 1))
      else if op == 3
      then start_behind d status st
      else if op == 4
      then (start_left d found st.frame
          >> set_last d st.page (if status then st.index else st.index - 1))
      else if op == 5
      then (start_at d st.page st.index >> read_head d st.frame len st.index)
      else if op == 6
      then if status
        then start_left d found st.frame
        else set_scan d (λ c. record c { page = minus_one })
      else (set_status d free_scan >> fail invalid_op_to_scan)

  -- the scan of the keys that compare with a value, on the answer of AM_Search
  unfoldable pub open_from : ℕ → ℕ → Found → Op World ℕ
  unfolding skip_end start_scan unfix_page
  open_from d op f = do
    set_scan d (λ c. record c { file = fd; op = op })
    st ← skip_end f
    set_scan d (λ c. record c { page = st.page; index = st.index % short })
    start_scan d op f.page f.status st
    pf_call (unfix_page fd (to_int f.page) false)
    give d

-- AM_OpenIndexScan on the vacant entry `d` of the scan table
unfoldable pub open_vacant :
    (mem : Memory) (os : Unix) → Libc → ℤ → AttrType → ℕ → ℕ → Option Bytes → ℕ → Op (os.World) ℕ
unfolding get_left_page_num open_all open_from search
open_vacant mem os libc fd type len op value d = do
  set_scan d (λ c. record c { status = first_scan; attr_type = type })
  (λ s. take_left (get_left_page_num mem os fd len s))
  elim value [
    | none ↦ open_all mem os fd len d
    | some v ↦ do
      f ← (λ s. or_free d (search mem os libc type len v fd s))
      open_from mem os fd len d op f
  ]

-- AM_OpenIndexScan
unfoldable pub open_index_scan :
    (mem : Memory) (os : Unix) → Libc → ℤ → ℕ → ℕ → ℕ → Option Bytes → Op (os.World) ℕ
unfolding attr_type_of find_vacant open_vacant
open_index_scan mem os libc (negsuc n) type len op value s = fail bad_file_desc s
open_index_scan mem os libc (pos n) type len op value s = elim (attr_type_of type) [
  | none ↦ fail invalid_attr_type s
  | some t ↦ elim (find_vacant s.scans 0 max_scans) [
    | none ↦ fail scan_tab_full s
    | some d ↦ open_vacant mem os libc (pos n) t len op value d s
  ]
]
