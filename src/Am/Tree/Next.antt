-- ===== src/Am/Tree/Next.antt =====
-- AM_FindNextEntry of amlayer/amscan.c. The loop over empty leaves takes a bound on its rounds; a chain of
-- leaves that does not come back to a leaf has at most as many as the file has pages. The page that
-- pageBuf points to is read from its frame also after PF_UnfixPage, as in the source.
use database_assignment.Prelude.{
  ℕ, zero, suc, ◌+◌, ◌-◌, ◌*◌, ◌%◌, Bool, true, false, ◌&&◌, ◌||◌, not, ltb, leb, ◌==◌,
  if◌then◌else◌,
}
use database_assignment.Prelude.Int.{ℤ, pos, negsuc}
use database_assignment.Words.{Bytes, load, copy, slt, minus_one}
use database_assignment.Words.Short.{short, load16, sub16}
use database_assignment.Buf.{Memory}
use database_assignment.Pf.{Unix}
use database_assignment.Pf.Pages.{unfix_page, get_this_page}
use database_assignment.Sp.File.{pages}
use database_assignment.Am.{equal, Libc, leaf_header, attr_length, num_keys, compare}
use database_assignment.Am.Tree.{
  scan_over, invalid_scan_desc, ScanStatus, first_scan, busy_scan, last_scan, over_scan, Scan,
  am_ok, am_err, undefined, running, Op, to_int, give, fail, pf_call, buf, ◌>>=◌, ◌>>◌,
}
use database_assignment.Am.Tree.Open.{max_scans, next_leaf, set_scan, set_status, start_at}

-- the header and the frame that pageBuf points to
pub record Leaf : Type 0 where
  pub header : Bytes
  pub frame : ℕ

-- the offset of a key, with records of `size` bytes, and that of its list head
abbrev pub entry_at : ℕ → ℕ → ℕ
entry_at size i = leaf_header + i * size - size

abbrev pub list_at : ℕ → ℕ → ℕ → ℕ
list_at size len i = leaf_header + i * size + len - size

-- a scan with `<` or `<=` that has come to its end while it passed over empty leaves
abbrev pub has_overshot : Scan → Bool
has_overshot c =
    (c.op == 2 || c.op == 4) && (not (slt c.next_page c.last_page) && c.last_index == 0)

-- where a scan with `!=` has come to the key of its value
abbrev pub is_skipped : Scan → Bool
is_skipped c = c.op == 6 && (c.page == c.next_page && c.index == c.actindex)

abbrev pub is_first : ScanStatus → Bool
is_first first_scan = true
is_first _ = false

abbrev pub is_last : ScanStatus → Bool
is_last last_scan = true
is_last _ = false

abbrev pub is_over : ScanStatus → Bool
is_over over_scan = true
is_over _ = false

-- a < b, as signed 16-bit integers
abbrev pub slt16 : ℕ → ℕ → Bool
slt16 a b = ltb ((a + 0x8000) % short) ((b + 0x8000) % short)

-- the status of a scan at the end of AM_FindNextEntry: for `=`, and for `<` and `<=`
abbrev pub end_equal : Scan → ScanStatus
end_equal c = if c.page == c.next_page && c.index == c.actindex then c.status else over_scan

unfoldable pub end_less : Scan → ScanStatus
end_less c =
    if c.last_page == c.next_page && c.last_index == c.actindex
    then last_scan
    else if c.last_page == c.next_page && slt16 c.last_index c.actindex
    then over_scan
    else if is_last c.status
    then over_scan
    else c.status

module _ {W : Type 0} where
  -- return(AME_EOF), where AM_Errno is not set
  abbrev pub at_end : {A : Type 0} → Op W A
  at_end s = (am_err scan_over, s)

  -- nextRecIdPtr is the list head of the key nextIndex
  unfoldable pub read_list : ℕ → ℕ → Leaf → Op W (Unit {0})
  read_list d size l s =
      set_scan d
        (λ c. record c {
          next_ptr = load16 (buf l.frame s) (list_at size (attr_length l.header) c.next_index);
        })
        s

  -- nextvalue is the key nextIndex
  unfoldable pub save_value : ℕ → ℕ → Leaf → Op W (Unit {0})
  save_value d size l s =
      set_scan d
        (λ c. record c {
          next_value =
              copy 0 (buf l.frame s) (entry_at size c.next_index) (attr_length l.header)
                c.next_value;
        })
        s

  -- nextIndex++ and actindex++
  abbrev pub next_key : ℕ → Op W (Unit {0})
  next_key d = set_scan d (λ c. record c {
    next_index = (c.next_index + 1) % short;
    actindex = (c.actindex + 1) % short;
  })

module _ (mem : Memory) (os : Unix) (libc : Libc) (fd : ℤ) (d : ℕ) where
  open os use {World}

  -- the next leaf in its frame, where the scan goes on at its first key
  unfoldable pub to_next_leaf : ℕ → Op World ℕ
  unfolding get_this_page
  to_next_leaf page = do start_at d page 1; pf_call (get_this_page mem os fd (to_int page))

  -- nextRecIdPtr is the first list head of the page in frame `j`
  abbrev first_list : ℕ → Bytes → Op World (Unit {0})
  first_list j h s =
      set_scan d (λ c. record c { next_ptr = load16 (buf j s) (leaf_header + attr_length h) }) s

  -- the loop over the empty leaves, with `k` rounds
  unfoldable pub skip_empty : ℕ → Leaf → Op World Leaf
  unfolding get_this_page unfix_page
  skip_empty zero l s = (running, s)
  skip_empty (suc k) l s = elim (num_keys l.header == 0) [
    | false ↦ (am_ok l, s)
    | true ↦
        (if next_leaf l.header == minus_one then set_status d over_scan >> at_end else (do
          j ← pf_call (get_this_page mem os fd (to_int (next_leaf l.header)))
          pf_call (unfix_page fd (to_int (next_leaf l.header)) false)
          start_at d (next_leaf l.header) 1
          h ← (λ t. (am_ok (buf j t), t))
          first_list j h
          set_status d first_scan
          skip_empty k (record { header = h; frame = j })))
          s
  ]

  -- The key of the value is passed over in a scan with `!=`. The header of the next leaf is copied before
  -- the page number for PF_UnfixPage is read from it.
  unfoldable pub skip_value : ℕ → Leaf → Op World Leaf
  unfolding to_next_leaf unfix_page read_list
  skip_value size l s =
      (if is_skipped (s.scans d)
          then if leb ((s.scans d).next_index + 1) (num_keys l.header)
            then next_key d >> (read_list d size l >> give l)
            else if next_leaf l.header == minus_one
            then at_end
            else (do
              j ← to_next_leaf (next_leaf l.header)
              first_list j l.header
              h ← (λ t. (am_ok (buf j t), t))
              pf_call (unfix_page fd (to_int (next_leaf h)) false)
              give (record { header = h; frame = j }))
          else give l)
        s

  -- Was the key of the last record deleted? On the first call its value is noted.
  unfoldable pub check_deleted : ℕ → Leaf → Op World (Unit {0})
  unfolding compare read_list save_value
  check_deleted size l s =
      let c = s.scans d in
      (if is_first c.status
          then set_status d busy_scan >> save_value d size l
          else if ltb (leaf_header + c.next_index * size) size
          then (λ t. (undefined, t))
          else elim (compare libc c.attr_type (attr_length l.header) (buf l.frame s)
              (entry_at size c.next_index) c.next_value) [
                | equal ↦ give tt
                | _ ↦
                    set_scan d (λ e. record e { next_index = sub16 e.next_index 1 })
                    >> read_list d size l
              ])
        s

  -- the record number, and the place of the next one
  unfoldable pub take_record : Leaf → Op World ℕ
  take_record l s =
      let ptr = (s.scans d).next_ptr in
      (do
        set_scan d (λ c. record c { next_ptr = load16 (buf l.frame s) (ptr + 4) })
        give (load (buf l.frame s) ptr))
        s

  -- the end of the list of a key
  unfoldable pub end_list : ℕ → Leaf → Op World (Unit {0})
  unfolding to_next_leaf unfix_page read_list save_value
  end_list size l s =
      (if (s.scans d).next_ptr == 0
          then if leb ((s.scans d).next_index + 1) (num_keys l.header)
            then next_key d >> (read_list d size l >> save_value d size l)
            else if next_leaf l.header == minus_one
            then set_status d over_scan
            else (do
              j ← to_next_leaf (next_leaf l.header)
              first_list j l.header
              pf_call (unfix_page fd (to_int (next_leaf l.header)) false)
              save_value d size (record { header = l.header; frame = j }))
          else give tt)
        s

  -- the tests of the operator at the end
  unfoldable pub end_scan : Op World (Unit {0})
  unfolding end_less
  end_scan = set_scan d (λ c.
      if c.op == 1
      then record c { status = end_equal c }
      else if c.op == 2 || c.op == 4
      then record c { status = end_less c }
      else c)

  -- AM_FindNextEntry on a leaf with a key
  unfoldable pub next_in : ℕ → Leaf → Op World ℕ
  unfolding skip_value check_deleted take_record end_list end_scan
  next_in size l s =
      (if has_overshot (s.scans d) then set_status d over_scan >> at_end else (do
        m ← skip_value size l
        check_deleted size m
        rec_id ← take_record m
        end_list size m
        end_scan
        give rec_id))
        s

  -- AM_FindNextEntry on a scan that is not over
  unfoldable pub next_from : Op World ℕ
  unfolding get_this_page unfix_page skip_empty next_in
  next_from s =
      let page = (s.scans d).next_page in
      (if page == minus_one then set_status d over_scan >> at_end else (do
        i ← pf_call (get_this_page mem os fd (to_int page))
        h ← (λ t. (am_ok (buf i t), t))
        pf_call (unfix_page fd (to_int page) false)
        l ← (λ t. skip_empty (suc (pages fd t.pf)) (record { header = h; frame = i }) t)
        next_in (attr_length h + 2) l))
        s

-- AM_FindNextEntry
unfoldable pub find_next_entry : (mem : Memory) (os : Unix) → Libc → ℤ → Op (os.World) ℕ
unfolding next_from
find_next_entry mem os libc (negsuc n) s = fail invalid_scan_desc s
find_next_entry mem os libc (pos d) s =
    if leb max_scans d
    then fail invalid_scan_desc s
    else if is_over (s.scans d).status
    then at_end s
    else next_from mem os libc (s.scans d).file d s
