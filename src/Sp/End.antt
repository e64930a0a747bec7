-- ===== src/Sp/End.antt =====
-- The end of a scan of splayer/sp.c: what SP_GetNextRec and SP_GetFileStats make of the answer that
-- PF_GetThisPage gives behind the last page of a file.
use database_assignment.Prelude.{ℕ, suc, ◌≤◌, ◌≡◌, true, false, some, arith, ltb, refl}
use database_assignment.Prelude.Int.{pos}
use database_assignment.Result.{err, invalid_page}
use database_assignment.Buf.{Memory}
use database_assignment.Pf.{Unix, Pf, is_open, check_fd, check_page}
use database_assignment.Pf.Pages.{get_this_page}
use database_assignment.Sp.File.{sp_ok, sp_error, pages}
use database_assignment.Sp.Scan.{get_next_rec, scan_from, scan_page, Stats, stats_from, stats_page}

module _ (mem : Memory) (os : Unix) where
  open os use {World}

  -- the state with PFerrno set to PFE_INVALIDPAGE
  abbrev pub refused_page : Pf World → Pf World
  refused_page s = record s { pool = record s.pool { errno = some invalid_page } }

  -- Behind the last page PF_GetThisPage answers PFE_INVALIDPAGE, and not PFE_EOF.
  get_this_page_past :
      (n p : ℕ) (s : Pf World)
      → is_open s.ftab n ≡ true
      → pages (pos n) s ≤ p
      → get_this_page mem os (pos n) (pos p) s ≡ (err invalid_page, refused_page s)
  unfolding get_this_page check_fd check_page
  get_this_page_past n p s o h =
      let e : ltb p (s.ftab n).hdr.numpages ≡ false = ground arith in rw (o, e)

  -- On an open file and a page number that is not below the number of its pages, SP_GetNextRec
  -- returns SP_ERROR, since PF_GetThisPage sets PFE_INVALIDPAGE, while the loop of SP_GetFileStats
  -- takes the same answer for the end of the file and returns SP_OK with what it has added up.
  pub ends_at :
      (n p : ℕ) (s : Pf World)
      → is_open s.ftab n ≡ true
      → pages (pos n) s ≤ p
      → ((j size : ℕ)
          → get_next_rec mem os (pos n) (pos p) (pos j) size s ≡ (sp_error, refused_page s))
        × ((k : ℕ) (st : Stats)
            → stats_from mem os (pos n) p (suc k) st s ≡ (sp_ok st, refused_page s))
  unfolding get_next_rec scan_from scan_page stats_from stats_page
  ends_at n p s o h = rw (get_this_page_past n p s o h) (λ j size. refl, λ k st. refl)
