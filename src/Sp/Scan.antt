-- ===== src/Sp/Scan.antt =====
-- The loops of splayer/sp.c over all the pages of a file: SP_GetFirstRec, SP_GetNextRec and
-- SP_GetFileStats; and SP_OpenFile.
use Prim.Native.String.{String}
use database_assignment.Prelude.{
  ℕ, zero, suc, ◌+◌, ◌-◌, ◌/◌, Bool, false, List, Option, some, none, ◌||◌, leb, ltb, if◌then◌else◌,
}
use database_assignment.Prelude.Int.{ℤ, pos, negsuc}
use database_assignment.Result.{Result, ok, err, held, halt, Call, eof, invalid_page}
use database_assignment.Words.{Bytes, slt, half_word}
use database_assignment.Buf.{Memory}
use database_assignment.Pf.{Unix, Pf}
use database_assignment.Pf.Files
use database_assignment.Pf.Pages.{unfix_page, get_this_page}
use database_assignment.Sp.{
  page_size, header_size, slot_size, num_slots, slot_length, slot_offset, directory_end,
}
use database_assignment.Sp.Page.{rounds}
use database_assignment.Sp.Valid.{is_live, live_count, live_bytes}
use database_assignment.Sp.Records.{bytes_of}
use database_assignment.Sp.File.{
  Reply, sp_ok, sp_eof, sp_error, exited, outside, running, Routine, page_buf, pages, passed,
  released, record_on_page,
}

-- SP_FileStats, but for the quotient
pub record Stats : Type 0 where
  pub total_pages : ℕ
  pub total_records : ℕ
  pub record_bytes : ℕ
  pub overhead_bytes : ℕ

-- how many slots there is space for on a page
abbrev pub max_slots : ℕ
max_slots = (page_size - header_size) / slot_size

-- the first slot from `j` on that holds a record, of `k` slots
unfoldable pub first_live : Bytes → ℕ → ℕ → Option ℕ
first_live p j zero = none
first_live p j (suc k) = let rest = first_live p (j + 1) k in if is_live p j then some j else rest

-- what SP_GetFileStats adds up for a page
unfoldable pub add_stats : Bytes → Stats → Stats
unfolding live_count live_bytes
add_stats p st =
    let n = num_slots p in
    record {
      total_pages = st.total_pages + 1;
      total_records = st.total_records + live_count p (rounds n);
      record_bytes = st.record_bytes + live_bytes p (rounds n);
      overhead_bytes = st.overhead_bytes + directory_end n;
    }

-- memset(stats, 0, sizeof(SP_FileStats))
abbrev pub no_stats : Stats
no_stats = record { total_pages = 0; total_records = 0; record_bytes = 0; overhead_bytes = 0 }

module _ (mem : Memory) (os : Unix) where
  open os use {World}

  -- SP_GetNextRec on a page it holds, from the slot that it has found, if any; `ends` tells that
  -- otherwise the loop over the slots ends before it leaves the page.
  unfoldable pub scan_slots :
      ℤ
      → ℕ
      → ℕ
      → Routine World (ℕ × ℕ × List ℕ)
      → Bytes
      → Bool
      → Option ℕ
      → Routine World (ℕ × ℕ × List ℕ)
  unfolding bytes_of
  scan_slots fd size p next buf ends none s =
      if ends then passed next (unfix_page fd (pos p) false s) else (outside, s)
  scan_slots fd size p next buf ends (some j) s =
      if slt size (slot_length buf j)
      then released sp_error fd p false s
      else if record_on_page buf j
      then released (sp_ok (p, j, bytes_of buf (slot_offset buf j) (slot_length buf j))) fd p false
          s
      else (outside, s)

  -- SP_GetNextRec on the answer of PF_GetThisPage, from slot `j` on, which is an `int`
  unfoldable pub scan_page :
      ℤ
      → ℕ
      → ℕ
      → ℕ
      → Routine World (ℕ × ℕ × List ℕ)
      → Result ℕ × Pf World
      → Reply (ℕ × ℕ × List ℕ) × Pf World
  unfolding first_live scan_slots
  scan_page fd size p j next (ok i, s) =
      let buf : Bytes = page_buf i s in
      let n = rounds (num_slots buf) in
      let ends = leb n max_slots || leb n j in
      if ltb j half_word
      then scan_slots fd size p next buf ends
          (first_live buf j ((if leb n max_slots then n else max_slots) - j)) s
      else (outside, s)
  scan_page fd size p j next (err eof, s) = (sp_eof, s)
  scan_page fd size p j next (err _, s) = (sp_error, s)
  scan_page fd size p j next (held _, s) = (sp_error, s)
  scan_page fd size p j next (halt, s) = (exited, s)

  -- the loop of SP_GetNextRec from slot `j` of page `p` on
  unfoldable pub scan_from : ℤ → ℕ → ℕ → ℕ → ℕ → Routine World (ℕ × ℕ × List ℕ)
  unfolding scan_page get_this_page
  scan_from fd size p j zero s = (running, s)
  scan_from fd size p j (suc k) s =
      scan_page fd size p j (scan_from fd size (p + 1) 0 k) (get_this_page mem os fd (pos p) s)

  -- SP_GetNextRec after slot `j` of page `p`; on a negative page PF_GetThisPage fails, and a slot
  -- below -1 is read outside of the slots.
  unfoldable pub get_next_rec : ℤ → ℤ → ℤ → ℕ → Routine World (ℕ × ℕ × List ℕ)
  unfolding scan_from scan_page
  get_next_rec fd (pos p) (pos j) size s = scan_from fd size p (j + 1) (suc (pages fd s)) s
  get_next_rec fd (pos p) (negsuc zero) size s = scan_from fd size p 0 (suc (pages fd s)) s
  get_next_rec fd (pos p) (negsuc (suc _)) size s = (outside, s)
  get_next_rec fd (negsuc p) slot size s =
      scan_page fd size 0 0 (λ t. (running, t)) (get_this_page mem os fd (negsuc p) s)

  -- SP_GetFirstRec
  unfoldable pub get_first_rec : ℤ → ℕ → Routine World (ℕ × ℕ × List ℕ)
  unfolding get_next_rec
  get_first_rec fd size = get_next_rec fd (pos 0) (negsuc 0) size

  -- the loop of SP_GetFileStats on the answer of PF_GetThisPage
  unfoldable pub stats_page :
      ℤ → ℕ → Stats → (Stats → Routine World Stats) → Result ℕ × Pf World → Reply Stats × Pf World
  unfolding add_stats
  stats_page fd p st next (ok i, s) =
      if leb (rounds (num_slots (page_buf i s))) max_slots
      then passed (next (add_stats (page_buf i s) st)) (unfix_page fd (pos p) false s)
      else (outside, s)
  stats_page fd p st next (err eof, s) = (sp_ok st, s)
  stats_page fd p st next (err invalid_page, s) = (sp_ok st, s)
  stats_page fd p st next (err _, s) = (sp_error, s)
  stats_page fd p st next (held _, s) = (sp_error, s)
  stats_page fd p st next (halt, s) = (exited, s)

  unfoldable pub stats_from : ℤ → ℕ → ℕ → Stats → Routine World Stats
  unfolding stats_page get_this_page
  stats_from fd p zero st s = (running, s)
  stats_from fd p (suc k) st s =
      stats_page fd p st (stats_from fd (p + 1) k) (get_this_page mem os fd (pos p) s)

  -- SP_GetFileStats
  unfoldable pub get_file_stats : ℤ → Routine World Stats
  unfolding stats_from
  get_file_stats fd s = stats_from fd 0 (suc (pages fd s)) no_stats s

  -- SP_OpenFile
  unfoldable pub open_file : String → Call (Pf World) ℕ
  unfolding Files.open_file
  open_file fname = Files.open_file mem os fname 0

  -- SP_CreateFile
  unfoldable pub create_file : String → Call (Pf World) (Unit {0})
  unfolding Files.create_file
  create_file fname = Files.create_file os fname

  -- SP_CloseFile
  unfoldable pub close_file : ℤ → Call (Pf World) (Unit {0})
  unfolding Files.close_file
  close_file fd = Files.close_file os fd

  -- SP_DestroyFile
  unfoldable pub destroy_file : String → Call (Pf World) (Unit {0})
  unfolding Files.destroy_file
  destroy_file fname = Files.destroy_file os fname

-- SP_Init
unfoldable pub init : {W : Type 0} → Pf W → Pf W
unfolding Files.init
init s = Files.init s
