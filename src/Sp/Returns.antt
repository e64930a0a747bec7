-- ===== src/Sp/Returns.antt =====
-- The outcomes of the routines of splayer/sp.c on files.
use database_assignment.Prelude.{
  ℕ, suc, ◌+◌, ◌≤◌, ◌<◌, ◌≡◌, ◌⊎◌, inl, inr, refl, true, false, Option, some, none, arith, dec_lt,
  ==_refl,
}
use database_assignment.Prelude.Int.{ℤ, pos}
use database_assignment.Result.{Result, ok, err, held, halt, Post}
use database_assignment.Words.{Bytes, half_word}
use database_assignment.Buf.{Memory}
use database_assignment.Pf.{Entry, Unix, Pf}
use database_assignment.Pf.Pages.{get_this_page, alloc_page}
use database_assignment.Pf.Safe.{IsSafe, IsThisPage}
use database_assignment.Pf.SafeAlloc.{HasFreeLists, IsNewPage, alloc_page-Post}
use database_assignment.Sp.Page.{init_new_page, has_room}
use database_assignment.Sp.Valid.{IsSlotted}
use database_assignment.Sp.Insert.{has_room_iff}
use database_assignment.Sp.Fresh.{num_slots-fresh, free_space-fresh}
use database_assignment.Sp.File.{
  Reply, sp_ok, sp_eof, sp_error, exited, outside, running, slot_on_page, place_on_page, page_buf,
  set_buf, pages, insert_at, insert_new, insert_found, insert_rec, delete_on, delete_rec,
}
use database_assignment.Sp.Scan.{max_slots, no_stats, get_next_rec, get_first_rec, get_file_stats}
use database_assignment.Sp.Safe.{
  Ends, Ends-mono, Returns, Stays, unfix_then, Got, get_this_page-Got, Got-Stays,
}
use database_assignment.Sp.ScanLoops.{HasBroken, scan_from-Ends, stats_from-Ends}
use database_assignment.Sp.Loops.{set_buf-Stays, Chooses, find_page-Chooses, insert_at-Ends}

-- The state is well formed, and every entry of the table has a list of free pages.
abbrev pub IsReady : {W : Type 0} → Pf W → Type 0
IsReady s = IsSafe s × HasFreeLists s.ftab

slot_below : (j : ℕ) → j < max_slots → slot_on_page j ≡ true
slot_below j l = ground arith

module _ (mem : Memory) (os : Unix) (fd : ℤ) where
  open os use {World}

  -- The page on which SP_InsertRec leaves the page it writes to: the record is longer than a page, or the
  -- page is one that the file had, passed the test for room, and is not well formed.
  abbrev pub IsOverrun : ℕ → Pf World → Type 0
  IsOverrun length t =
      (4096 < length)
      ⊎ ((p : ℕ) × (i : ℕ) × IsThisPage mem os fd (pos p) i t
          × (has_room length (page_buf i t) ≡ true)
          × ¬ IsSlotted (page_buf i t))

  write_page :
      (rec : Bytes) (length p i : ℕ) (ftab : ℕ → Entry) (s : Pf World)
      → Stays ftab s
      → (place_on_page length (page_buf i s) ≡ false → IsOverrun length s)
      → Ends IsSafe (IsOverrun length) (insert_at mem os fd rec length p i s)
  write_page rec length p i ftab s v k =
      Ends-mono (Stays ftab) IsSafe (IsOverrun length) _ (λ t u. u.0)
        (insert_at-Ends mem os fd ftab (IsOverrun length) rec length p i s v k)

  -- There is place for a record of at most a page on a new page, ...
  place_new :
      (length : ℕ) (p : Bytes) → place_on_page length (init_new_page p) ≡ false → 4096 < length
  place_new length p h = ground (arith, num_slots-fresh p, free_space-fresh p)

  -- ... and on a well-formed page that passed the test.
  place_found :
      (length : ℕ) (p : Bytes)
      → length ≤ 4096
      → IsSlotted p
      → has_room length p ≡ true
      → place_on_page length p ≡ true
  place_found length p l v h = let f = (has_room_iff length p v l).0 h in ground (arith, f, v.top)

  insert_new-Ends :
      (rec : Bytes) (length : ℕ) (r : Result (ℕ × ℕ) × Pf World)
      → Post (IsNewPage mem os fd) IsSafe r
      → Ends IsSafe (IsOverrun length) (insert_new mem os fd rec length r)
  unfolding insert_new
  insert_new-Ends rec length (ok (p, i), s) (n, e, h) =
      let t = set_buf i (init_new_page (page_buf i s)) s in
      let same : page_buf i t ≡ init_new_page (page_buf i s) = rw (page_buf, ==_refl i) refl in
      write_page rec length p i s.ftab t
        (set_buf-Stays s.ftab i (init_new_page (page_buf i s)) s (h.0.0, refl))
        (λ b. inl (place_new length (page_buf i s) (rw same at b)))
  insert_new-Ends rec length (err e, s) h = h
  insert_new-Ends rec length (held r, s) h = h
  insert_new-Ends rec length (halt, s) h = h

  insert_found-Ends :
      (rec : Bytes) (length : ℕ) (ftab : ℕ → Entry) (r : Reply (Option (ℕ × ℕ)) × Pf World)
      → HasFreeLists ftab
      → Chooses mem os fd ftab length r
      → Ends IsSafe (IsOverrun length) (insert_found mem os fd rec length r)
  unfolding insert_found
  insert_found-Ends rec length ftab (sp_ok (some (p, i)), s) f (g, e) =
      write_page rec length p i ftab s (Got-Stays mem os fd (pos p) ftab i s g) (λ b.
        elim (dec_lt 4096 length) [
          | yes l ↦ inl l
          | no l ↦ inr (
            p,
            i,
            g.0,
            e,
            λ w. absurd (ground (arith, place_found length (page_buf i s) (omega arith) w e)),
          )
        ])
  insert_found-Ends rec length ftab (sp_ok none, s) f v =
      insert_new-Ends rec length (alloc_page mem os fd s)
        (alloc_page-Post mem os fd s v.0 (rw v.1 f))
  insert_found-Ends rec length ftab (sp_eof, s) f v = v.0
  insert_found-Ends rec length ftab (sp_error, s) f v = v.0
  insert_found-Ends rec length ftab (exited, s) f v = v
  insert_found-Ends rec length ftab (outside, s) f v = absurd v
  insert_found-Ends rec length ftab (running, s) f v = v

  -- From a state with a well-formed buffer pool and no file whose first free page is marked as
  -- used, SP_InsertRec of a record of any length either returns, with the buffer pool well formed,
  -- whatever the outcome; or it writes outside of a page, and then the record is longer than a
  -- page, or the page is one of the file that passed the test for room without being well formed.
  -- In particular its search through the pages comes to an end within one round more than the file
  -- has pages, and no call ends the program.
  pub insert_rec-Ends :
      (rec : Bytes) (length : ℕ) (s : Pf World)
      → IsReady s
      → Ends IsSafe (IsOverrun length) (insert_rec mem os fd rec length s)
  unfolding insert_rec
  insert_rec-Ends rec length s (v, f) = insert_found-Ends rec length s.ftab _ f (
      find_page-Chooses mem os fd s.ftab length 0 (suc (pages fd s)) s (v, refl)
        (omega arith, omega arith))

  delete_on-Returns :
      (junk : Bytes) (p : ℤ) (j : ℕ) (ftab : ℕ → Entry) (r : Result ℕ × Pf World)
      → j < max_slots
      → Post (Got mem os fd p ftab) (Stays ftab) r
      → Returns (Stays ftab) (delete_on mem os junk fd p (pos j) r)
  unfolding delete_on
  delete_on-Returns junk p j ftab (ok i, s) l g =
      let e : slot_on_page j ≡ true = slot_below j l in
      rw e (
        unfix_then ftab (Returns (Stays ftab)) (λ t. (sp_ok tt, t)) fd p true (set_buf i _ s)
          (set_buf-Stays ftab i _ s (Got-Stays mem os fd p ftab i s g)) (λ t u. u))
  delete_on-Returns junk p j ftab (err e, s) l g = g
  delete_on-Returns junk p j ftab (held i, s) l g = g
  delete_on-Returns junk p j ftab (halt, s) l g = g

  -- From a state with a well-formed buffer pool SP_DeleteRec returns on every descriptor, page
  -- number and number of a slot that there is space for on a page; afterwards the pool is well formed
  -- and the file table as before.
  pub delete_rec-Returns :
      (junk : Bytes) (p : ℤ) (j : ℕ) (s : Pf World)
      → j < max_slots
      → IsSafe s
      → Returns (Stays s.ftab) (delete_rec mem os junk fd p (pos j) s)
  unfolding delete_rec
  delete_rec-Returns junk p j s l v =
      delete_on-Returns junk p j s.ftab (get_this_page mem os fd p s) l
        (get_this_page-Got mem os fd p s.ftab s (v, refl))

  -- What a scan ends with: it returns, or it reads outside of a page that is not well formed.
  abbrev pub Scans : {A : Type 0} → (ℕ → Entry) → Reply A × Pf World → Type 0
  Scans ftab = Ends (Stays ftab) (HasBroken mem os fd ftab)

  -- From a state with a well-formed buffer pool SP_GetFirstRec returns on every descriptor, or it
  -- reads outside of a page that is not well formed; when it returns the pool is well formed and the
  -- file table as before.
  pub get_first_rec-Scans :
      (size : ℕ) (s : Pf World) → IsSafe s → Scans s.ftab (get_first_rec mem os fd size s)
  unfolding get_first_rec get_next_rec
  get_first_rec-Scans size s v =
      scan_from-Ends mem os fd s.ftab size 0 0 (suc (pages fd s)) s (omega arith) (v, refl)
        (omega arith, omega arith)

  -- From a state with a well-formed buffer pool SP_GetNextRec, after a page that is not negative
  -- and a slot below the largest int and not negative, either returns, with the pool well formed
  -- and the file table as before; or it reads outside of a page of the file that it holds and that
  -- is not well formed. In particular its loop comes to an end within one round more than the file
  -- has pages, and no call ends the program.
  pub get_next_rec-Scans :
      (p j size : ℕ) (s : Pf World)
      → IsSafe s
      → j + 1 < half_word
      → Scans s.ftab (get_next_rec mem os fd (pos p) (pos j) size s)
  unfolding get_next_rec
  get_next_rec-Scans p j size s v h =
      scan_from-Ends mem os fd s.ftab size p (j + 1) (suc (pages fd s)) s h (v, refl)
        (omega arith, omega arith)

  -- From a state with a well-formed buffer pool SP_GetFileStats returns on every descriptor, or it
  -- reads outside of a page that is not well formed; when it returns the pool is well formed and the
  -- file table as before.
  pub get_file_stats-Scans : (s : Pf World) → IsSafe s → Scans s.ftab (get_file_stats mem os fd s)
  unfolding get_file_stats
  get_file_stats-Scans s v =
      stats_from-Ends mem os fd s.ftab 0 (suc (pages fd s)) no_stats s (v, refl)
        (omega arith, omega arith)
