-- ===== src/Sp/File.antt =====
-- splayer/sp.c over pages of pflayer/pf.c: SP_InsertRec, SP_DeleteRec and SP_GetThisRec. A loop over
-- the pages of a file takes a bound on its rounds, which is one more than the number of pages in the
-- file's header.
use database_assignment.Prelude.{
  ℕ, zero, suc, ◌+◌, Bool, true, false, List, Option, some, none, ◌==◌, ◌&&◌, leb, if◌then◌else◌,
}
use database_assignment.Prelude.Int.{ℤ, pos, negsuc}
use database_assignment.Result.{Result, ok, err, held, halt, eof, invalid_page}
use database_assignment.Words.{Bytes, slt}
use database_assignment.Buf.{Memory, put_frame}
use database_assignment.Pf.{Unix, Pf}
use database_assignment.Pf.Pages.{unfix_page, get_this_page, alloc_page}
use database_assignment.Sp.{
  page_size, deleted_len, num_slots, free_space, slot_length, slot_offset, directory_end,
}
use database_assignment.Sp.Page.{init_new_page, has_room, insert_record, delete_slot}
use database_assignment.Sp.Records.{bytes_of}

-- What a routine of the layer returns: SP_OK with the out parameters, SP_EOF, SP_ERROR. The program
-- may also end (`exited`), or read or write outside of a page, or compute an `int` that is too large
-- (`outside`), which C leaves undefined; `running` is a loop whose bound is used up.
pub data Reply (A : Type 0) : Type 0 where
  sp_ok : A → Reply A
  sp_eof sp_error exited outside running : Reply A

-- Slot `j` is on the page.
abbrev pub slot_on_page : ℕ → Bool
slot_on_page j = leb (directory_end (j + 1)) page_size

-- The bytes to which slot `j` points are on the page.
abbrev pub record_on_page : Bytes → ℕ → Bool
record_on_page p j = leb (slot_offset p j + slot_length p j) page_size

-- The bytes in front of the free space and the slot behind the last one, which Phase 3 of SP_InsertRec
-- writes, are on the page.
abbrev pub place_on_page : ℕ → Bytes → Bool
place_on_page length p =
    leb length (free_space p) && leb (free_space p) page_size && slot_on_page (num_slots p)

-- A routine of the layer.
abbrev pub Routine : Type 0 → Type 0 → Type 0
Routine W A = Pf W → Reply A × Pf W

module _ {W : Type 0} where
  -- the page in a frame
  abbrev pub page_buf : ℕ → Pf W → Bytes
  page_buf i s = (s.pool.frame i).fpage.pagebuf

  abbrev pub set_buf : ℕ → Bytes → Pf W → Pf W
  set_buf i p s =
      let f = s.pool.frame i in
      record s { pool = put_frame i (record f { fpage = record f.fpage { pagebuf = p } }) s.pool }

  -- the number of pages in the header of an open file
  abbrev pub pages : ℤ → Pf W → ℕ
  pages (pos n) s = (s.ftab n).hdr.numpages
  pages (negsuc n) s = 0

  -- A call whose answer is not looked at, and then the next thing.
  abbrev pub passed : {A B : Type 0} → Routine W B → Result A × Pf W → Reply B × Pf W
  passed next (ok a, s) = next s
  passed next (err e, s) = next s
  passed next (held a, s) = next s
  passed next (halt, s) = (exited, s)

  -- PF_UnfixPage, and then a return
  abbrev pub released : {B : Type 0} → Reply B → ℤ → ℕ → Bool → Routine W B
  released r fd p dirty s = passed (λ t. (r, t)) (unfix_page fd (pos p) dirty s)

module _ (mem : Memory) (os : Unix) where
  open os use {World}

  -- Phase 1 of SP_InsertRec on the answer of PF_GetThisPage
  unfoldable pub try_page :
      ℤ
      → ℕ
      → ℕ
      → Routine World (Option (ℕ × ℕ))
      → Result ℕ × Pf World
      → Reply (Option (ℕ × ℕ)) × Pf World
  try_page fd length p next (ok i, s) =
      if has_room length (page_buf i s)
      then (sp_ok (some (p, i)), s)
      else passed next (unfix_page fd (pos p) false s)
  try_page fd length p next (err eof, s) = (sp_ok none, s)
  try_page fd length p next (err invalid_page, s) = (sp_ok none, s)
  try_page fd length p next (err _, s) = (sp_error, s)
  try_page fd length p next (held i, s) = (sp_error, s)
  try_page fd length p next (halt, s) = (exited, s)

  -- Phase 1 of SP_InsertRec from page `p` on: a page with room, in its frame
  unfoldable pub find_page : ℤ → ℕ → ℕ → ℕ → Routine World (Option (ℕ × ℕ))
  unfolding try_page get_this_page
  find_page fd length p zero s = (running, s)
  find_page fd length p (suc k) s =
      try_page fd length p (find_page fd length (p + 1) k) (get_this_page mem os fd (pos p) s)

  -- Phase 3 of SP_InsertRec, on the page `p` in frame `i`
  unfoldable pub insert_at : ℤ → Bytes → ℕ → ℕ → ℕ → Routine World (ℕ × ℕ)
  insert_at fd rec length p i s =
      let slot_idx = num_slots (page_buf i s) in
      if place_on_page length (page_buf i s)
      then released (sp_ok (p, slot_idx)) fd p true
          (set_buf i (insert_record rec length (page_buf i s)) s)
      else (outside, s)

  -- Phases 2 and 3 on the answer of PF_AllocPage
  unfoldable pub insert_new : ℤ → Bytes → ℕ → Result (ℕ × ℕ) × Pf World → Reply (ℕ × ℕ) × Pf World
  unfolding insert_at
  insert_new fd rec length (ok (p, i), s) =
      insert_at fd rec length p i (set_buf i (init_new_page (page_buf i s)) s)
  insert_new fd rec length (err _, s) = (sp_error, s)
  insert_new fd rec length (held _, s) = (sp_error, s)
  insert_new fd rec length (halt, s) = (exited, s)

  -- Phases 2 and 3 on the answer of Phase 1
  unfoldable pub insert_found :
      ℤ → Bytes → ℕ → Reply (Option (ℕ × ℕ)) × Pf World → Reply (ℕ × ℕ) × Pf World
  unfolding insert_at insert_new alloc_page
  insert_found fd rec length (sp_ok (some (p, i)), s) = insert_at fd rec length p i s
  insert_found fd rec length (sp_ok none, s) = insert_new fd rec length (alloc_page mem os fd s)
  insert_found fd rec length (sp_eof, s) = (sp_eof, s)
  insert_found fd rec length (sp_error, s) = (sp_error, s)
  insert_found fd rec length (exited, s) = (exited, s)
  insert_found fd rec length (outside, s) = (outside, s)
  insert_found fd rec length (running, s) = (running, s)

  -- SP_InsertRec
  unfoldable pub insert_rec : ℤ → Bytes → ℕ → Routine World (ℕ × ℕ)
  unfolding find_page insert_found
  insert_rec fd rec length s =
      insert_found fd rec length (find_page fd length 0 (suc (pages fd s)) s)

  -- SP_DeleteRec on the answer of PF_GetThisPage; a slot that is not on the page
  -- is read outside of it.
  unfoldable pub delete_on : Bytes → ℤ → ℤ → ℤ → Result ℕ × Pf World → Reply (Unit {0}) × Pf World
  unfolding delete_slot
  delete_on junk fd pagenum (pos j) (ok i, s) =
      if slot_on_page j
      then passed (λ t. (sp_ok tt, t))
          (unfix_page fd pagenum true (set_buf i (delete_slot junk j (page_buf i s)) s))
      else (outside, s)
  delete_on junk fd pagenum (negsuc j) (ok i, s) = (outside, s)
  delete_on junk fd pagenum slot (err _, s) = (sp_error, s)
  delete_on junk fd pagenum slot (held _, s) = (sp_error, s)
  delete_on junk fd pagenum slot (halt, s) = (exited, s)

  -- SP_DeleteRec; `junk` is what temp_page holds before a compaction.
  unfoldable pub delete_rec : Bytes → ℤ → ℤ → ℤ → Routine World (Unit {0})
  unfolding delete_on get_this_page
  delete_rec junk fd pagenum slot s =
      delete_on junk fd pagenum slot (get_this_page mem os fd pagenum s)

  -- the last call of SP_GetThisRec
  unfoldable pub finish_read : {A : Type 0} → A → Result (Unit {0}) × Pf World → Reply A × Pf World
  finish_read a (ok _, s) = (sp_ok a, s)
  finish_read a (err _, s) = (sp_error, s)
  finish_read a (held _, s) = (sp_error, s)
  finish_read a (halt, s) = (exited, s)

  -- SP_GetThisRec on the answer of PF_GetThisPage
  unfoldable pub read_slot : ℤ → ℕ → ℕ → ℕ → Result ℕ × Pf World → Reply (List ℕ) × Pf World
  unfolding finish_read bytes_of
  read_slot fd p j size (ok i, s) =
      let buf : Bytes = page_buf i s in
      if slt j (num_slots buf)
      then if slot_on_page j
        then if slot_length buf j == deleted_len
          then released sp_error fd p false s
          else if slt size (slot_length buf j)
          then released sp_error fd p false s
          else if record_on_page buf j
          then finish_read (bytes_of buf (slot_offset buf j) (slot_length buf j))
              (unfix_page fd (pos p) false s)
          else (outside, s)
        else (outside, s)
      else released sp_error fd p false s
  read_slot fd p j size (err _, s) = (sp_error, s)
  read_slot fd p j size (held _, s) = (sp_error, s)
  read_slot fd p j size (halt, s) = (exited, s)

  -- SP_GetThisRec with a buffer of `size` bytes
  unfoldable pub get_this_rec : ℤ → ℤ → ℤ → ℕ → Routine World (List ℕ)
  unfolding read_slot get_this_page
  get_this_rec fd (pos p) (pos j) size s = read_slot fd p j size (get_this_page mem os fd (pos p) s)
  get_this_rec fd (pos p) (negsuc j) size s = (sp_error, s)
  get_this_rec fd (negsuc p) slot size s = (sp_error, s)
