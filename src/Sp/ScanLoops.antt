-- ===== src/Sp/ScanLoops.antt =====
-- The loops of SP_GetNextRec and SP_GetFileStats in splayer/sp.c.
use database_assignment.Prelude.{
  ℕ, zero, suc, ◌+◌, ◌-◌, ◌≤◌, ◌<◌, ◌≡◌, Bool, true, false, List, some, arith, inl, inr, Bool-cases,
  Option-cases, ◌||◌, leb, ltb, if◌then◌else◌,
}
use database_assignment.Prelude.Int.{ℤ, pos}
use database_assignment.Result.{Result, ok, err, held, halt, eof, invalid_page, Post}
use database_assignment.Words.{Bytes, slt, half_word}
use database_assignment.Buf.{Memory}
use database_assignment.Pf.{Entry, Unix, Pf}
use database_assignment.Pf.Pages.{get_this_page}
use database_assignment.Sp.{num_slots, slot_length}
use database_assignment.Sp.Page.{rounds}
use database_assignment.Sp.Valid.{IsSlotted, is_live}
use database_assignment.Sp.File.{Reply, sp_error, Routine, record_on_page, page_buf, pages}
use database_assignment.Sp.Scan.{
  Stats, first_live, max_slots, scan_slots, scan_page, scan_from, add_stats, stats_page, stats_from,
}
use database_assignment.Sp.Safe.{Ends, Stays, unfix_then, Got, get_this_page-Got, Got-Stays}
use database_assignment.Sp.Loops.{Enough, same_pages, below, released-Ends}

first_live-some :
    (p : Bytes) (j k i : ℕ)
    → first_live p j k ≡ some i
    → (i < j + k) × (1 ≤ k) × (is_live p i ≡ true)
unfolding first_live
first_live-some p j zero i h = absurd (ground arith)
first_live-some p j (suc k) i h = elim (Bool-cases (is_live p j)) [
  | inl e ↦ (ground arith, omega arith, ground arith)
  | inr e ↦
      (let r = first_live-some p (j + 1) k i (rw e at h) in (omega (arith, r), omega arith, r.2))
]

module _ (mem : Memory) (os : Unix) (fd : ℤ) (ftab : ℕ → Entry) where
  open os use {World}

  -- A page of the file is held that is not well formed.
  abbrev pub HasBroken : Pf World → Type 0
  HasBroken t = (p : ℕ) × (i : ℕ) × Got mem os fd (pos p) ftab i t × ¬ IsSlotted (page_buf i t)

  abbrev Scans : {A : Type 0} → Reply A × Pf World → Type 0
  Scans = Ends (Stays ftab) HasBroken

  scan_found-Ends :
      (size p j i n k : ℕ) (next : Routine World (ℕ × ℕ × List ℕ)) (ends : Bool) (t : Pf World)
      → Got mem os fd (pos p) ftab i t
      → n ≤ num_slots (page_buf i t)
      → first_live (page_buf i t) j (n - j) ≡ some k
      → Scans (scan_slots mem os fd size p next (page_buf i t) ends (some k) t)
  unfolding scan_slots
  scan_found-Ends size p j i n k next ends t g l f =
      let buf = page_buf i t in
      let v = Got-Stays mem os fd (pos p) ftab i t g in
      elim (Bool-cases (slt size (slot_length buf k))) [
        | inl e ↦
            rw (e, scan_slots)
              (released-Ends mem os fd ftab HasBroken sp_error p false t (λ u w. w) v)
        | inr e ↦
            rw (e, scan_slots)
              (elim (Bool-cases (record_on_page buf k)) [
                | inl b ↦ rw b (released-Ends mem os fd ftab HasBroken _ p false t (λ u w. w) v)
                | inr b ↦ rw b (
                  p,
                  i,
                  g,
                  λ w.
                      let (a, d, o) = first_live-some buf j (n - j) k f in
                      absurd (ground (arith, w.inside k (omega (arith, a, d, l)) o)),
                )
              ])
      ]

  scan_page-Ends :
      (size p j : ℕ) (next : Routine World (ℕ × ℕ × List ℕ)) (r : Result ℕ × Pf World)
      → j < half_word
      → Post (Got mem os fd (pos p) ftab) (Stays ftab) r
      → ((t : Pf World) → Stays ftab t → p < pages fd t → Scans (next t))
      → Scans (scan_page mem os fd size p j next r)
  unfolding scan_page
  scan_page-Ends size p j next (ok i, t) h g k =
      let buf = page_buf i t in
      let n = rounds (num_slots buf) in
      let m = if leb n max_slots then n else max_slots in
      let ends = leb n max_slots || leb n j in
      let at : ltb j half_word ≡ true = ground arith in
      rw at (elim (Option-cases (first_live buf j (m - j))) [
        | inr (x, f) ↦ rw f (scan_found-Ends size p j i m x next ends t g (ground arith) f)
        | inl f ↦ rw f (elim (Bool-cases ends) [
          | inl b ↦
              rw (b, scan_slots)
                (unfix_then ftab Scans next fd (pos p) false t
                  (Got-Stays mem os fd (pos p) ftab i t g)
                  (λ u w. k u w (below mem os fd ftab t u g w)))
          | inr b ↦ rw (b, scan_slots) (p, i, g, λ w. absurd (ground (arith, w.below, w.top)))
        ])
      ])
  scan_page-Ends size p j next (err eof, t) h g k = g
  scan_page-Ends size p j next (err _, t) h g k = g
  scan_page-Ends size p j next (held i, t) h g k = g
  scan_page-Ends size p j next (halt, t) h g k = g

  pub scan_from-Ends :
      (size p j k : ℕ) (s : Pf World)
      → j < half_word
      → Stays ftab s
      → Enough (pages fd s) p k
      → Scans (scan_from mem os fd size p j k s)
  unfolding scan_from
  scan_from-Ends size p j zero s a v h = absurd (omega (arith, h.1))
  scan_from-Ends size p j (suc k) s a v h =
      scan_page-Ends size p j (scan_from mem os fd size (p + 1) 0 k)
        (get_this_page mem os fd (pos p) s) a (get_this_page-Got mem os fd (pos p) ftab s v)
        (λ t u lt.
          scan_from-Ends size (p + 1) 0 k t (omega arith) u
            (omega (arith, h.0, lt, e t u), omega (arith, h.0, lt, e t u)))
    where
      e : (t : Pf World) → Stays ftab t → pages fd s ≡ pages fd t
      e t u = same_pages fd ftab s t v u

  stats_page-Ends :
      (p : ℕ) (st : Stats) (next : Stats → Routine World Stats) (r : Result ℕ × Pf World)
      → Post (Got mem os fd (pos p) ftab) (Stays ftab) r
      → ((st' : Stats) (t : Pf World) → Stays ftab t → p < pages fd t → Scans (next st' t))
      → Scans (stats_page mem os fd p st next r)
  unfolding stats_page
  stats_page-Ends p st next (ok i, t) g k =
      let buf = page_buf i t in
      elim (Bool-cases (leb (rounds (num_slots buf)) max_slots)) [
        | inl b ↦ rw b (
            unfix_then ftab Scans (next (add_stats buf st)) fd (pos p) false t
              (Got-Stays mem os fd (pos p) ftab i t g)
              (λ u w. k (add_stats buf st) u w (below mem os fd ftab t u g w)))
        | inr b ↦ rw b (p, i, g, λ w. absurd (ground (arith, w.below, w.top)))
      ]
  stats_page-Ends p st next (err eof, t) g k = g
  stats_page-Ends p st next (err invalid_page, t) g k = g
  stats_page-Ends p st next (err _, t) g k = g
  stats_page-Ends p st next (held i, t) g k = g
  stats_page-Ends p st next (halt, t) g k = g

  pub stats_from-Ends :
      (p k : ℕ) (st : Stats) (s : Pf World)
      → Stays ftab s
      → Enough (pages fd s) p k
      → Scans (stats_from mem os fd p k st s)
  unfolding stats_from
  stats_from-Ends p zero st s v h = absurd (omega (arith, h.1))
  stats_from-Ends p (suc k) st s v h =
      stats_page-Ends p st (stats_from mem os fd (p + 1) k) (get_this_page mem os fd (pos p) s)
        (get_this_page-Got mem os fd (pos p) ftab s v)
        (λ st' t u lt.
          stats_from-Ends (p + 1) k st' t u
            (omega (arith, h.0, lt, e t u), omega (arith, h.0, lt, e t u)))
    where
      e : (t : Pf World) → Stays ftab t → pages fd s ≡ pages fd t
      e t u = same_pages fd ftab s t v u
