-- ===== src/Sp/Read.antt =====
-- SP_GetThisRec of splayer/sp.c against the view of a page as a map from slots to records.
use database_assignment.Prelude.{
  ℕ, ◌<◌, ◌≡◌, refl, Bool, true, false, List, Option, some, none, arith, ◌==◌, ltb, inl, inr,
  Bool-cases, lt→ltb, ltb→lt,
}
use database_assignment.Prelude.Int.{ℤ, pos}
use database_assignment.Result.{Result, ok, err, held, halt, Post, Post-mono}
use database_assignment.Words.{Bytes, slt, half_word}
use database_assignment.Buf.{Memory}
use database_assignment.Buf.Fetch.{IsHeld}
use database_assignment.Pf.{Entry, Unix, Pf, is_open, check_fd, check_page}
use database_assignment.Pf.Pages.{unfix_page, unfix_frame, get_this_page}
use database_assignment.Pf.Safe.{IsSafe, unfix_frame_held}
use database_assignment.Sp.{deleted_len, num_slots, slot_length, slot_offset}
use database_assignment.Sp.Valid.{IsSlotted}
use database_assignment.Sp.Records.{
  record_at, record_at-live, record_at-dead, record_at-past, bytes_of,
}
use database_assignment.Sp.File.{
  Reply, sp_ok, sp_error, page_buf, passed, finish_read, read_slot, get_this_rec, slot_on_page,
  record_on_page,
}
use database_assignment.Sp.Safe.{Got, get_this_page-Got}

-- The call returns PFE_OK.
abbrev IsDone : {S : Type 0} → Result Unit × S → Type 0
IsDone = Post (λ _ _. Unit {0}) (λ _. ⊥)

module _ {W : Type 0} where
  passed-reply :
      {A : Type 0} (x : Reply A) (r : Result Unit × Pf W)
      → IsDone r
      → (passed (λ u. (x, u)) r).0 ≡ x
  passed-reply x (ok a, u) h = refl
  passed-reply x (err e, u) h = absurd h
  passed-reply x (held a, u) h = absurd h
  passed-reply x (halt, u) h = absurd h

  -- PF_UnfixPage succeeds on a page that is held.
  unfix_page-held :
      (n p i : ℕ) (dirty : Bool) (t : Pf W)
      → is_open t.ftab n ≡ true
      → ltb p (t.ftab n).hdr.numpages ≡ true
      → IsHeld n p i t.pool
      → IsDone (unfix_page (pos n) (pos p) dirty t)
  unfolding unfix_page check_fd check_page
  unfix_page-held n p i dirty t o l h =
      rw (o, l)
        (Post-mono (λ _ u. IsSafe u × Unit {0}) (λ _ _. Unit {0}) (λ _. ⊥) (λ _. ⊥)
          (unfix_frame n p dirty t) (λ _ _ _. tt) (λ _ x. x)
          (unfix_frame_held (λ _. ⊥) (λ _. Unit {0}) n p i dirty t h tt))

-- On a well-formed page the slots and their records are on the page.
slot_inside : (p : Bytes) (j : ℕ) → IsSlotted p → j < num_slots p → slot_on_page j ≡ true
slot_inside p j v l = ground (arith, v.below, v.top)

record_inside :
    (p : Bytes) (j : ℕ)
    → IsSlotted p
    → j < num_slots p
    → (slot_length p j == deleted_len) ≡ false
    → record_on_page p j ≡ true
record_inside p j v l d = (let i = v.inside j l (rw d refl) in ground (arith, i))

-- The answer for a slot that holds `found`, where `small` tells that the buffer is too small.
abbrev pub reply_for : Bool → Option (List ℕ) → Reply (List ℕ)
reply_for small none = sp_error
reply_for true (some bytes) = sp_error
reply_for false (some bytes) = sp_ok bytes

module _ (mem : Memory) (os : Unix) (fd : ℤ) where
  open os use {World}

  -- On a page that PF_GetThisPage handed out PF_UnfixPage succeeds.
  unfix_page-Got :
      (p : ℕ) (dirty : Bool) (ftab : ℕ → Entry) (i : ℕ) (t : Pf World)
      → Got mem os fd (pos p) ftab i t
      → IsDone (unfix_page fd (pos p) dirty t)
  unfix_page-Got p dirty ftab i t ((n, q, e, f, o, lt, h), x) =
      rw (e, f) (unfix_page-held n q i dirty t o (lt→ltb _ _ lt) h.0)

  finish_read-reply :
      {A : Type 0} (a : A) (r : Result Unit × Pf World)
      → IsDone r
      → (finish_read mem os a r).0 ≡ sp_ok a
  unfolding finish_read
  finish_read-reply a (ok _, u) h = refl
  finish_read-reply a (err e, u) h = absurd h
  finish_read-reply a (held _, u) h = absurd h
  finish_read-reply a (halt, u) h = absurd h

  read_slot-reply :
      (p j size : ℕ) (ftab : ℕ → Entry) (i : ℕ) (t : Pf World)
      → Got mem os fd (pos p) ftab i t
      → IsSlotted (page_buf i t)
      → j < half_word
      → (read_slot mem os fd p j size (ok i, t)).0
        ≡ reply_for (slt size (slot_length (page_buf i t) j)) (record_at (page_buf i t) j)
  unfolding read_slot
  read_slot-reply p j size ftab i t g v h =
      let buf : Bytes = page_buf i t in
      let done : IsDone (unfix_page fd (pos p) false t) = unfix_page-Got p false ftab i t g in
      elim (Bool-cases (ltb j (num_slots buf))) [
        | inr e ↦
            let a : slt j (num_slots buf) ≡ false = ground (arith, v.below, v.top) in
            rw (a, record_at-past buf j (ground arith))
              (passed-reply sp_error (unfix_page fd (pos p) false t) done)
        | inl e ↦
            let a : slt j (num_slots buf) ≡ true = ground (arith, v.below, v.top) in
            let f : slot_on_page j ≡ true = slot_inside buf j v (ltb→lt j (num_slots buf) e) in
            elim (Bool-cases (slot_length buf j == deleted_len)) [
              | inl d ↦
                  rw (a, f, d, record_at-dead buf j (rw d))
                    (passed-reply sp_error (unfix_page fd (pos p) false t) done)
              | inr d ↦
                  let r : record_at buf j
                      ≡ some (bytes_of buf (slot_offset buf j) (slot_length buf j)) =
                    record_at-live buf j (ltb→lt j (num_slots buf) e) (rw d) in
                  let o : record_on_page buf j ≡ true =
                    record_inside buf j v (ltb→lt j (num_slots buf) e) d in
                  elim (Bool-cases (slt size (slot_length buf j))) [
                    | inl c ↦
                        rw (a, f, d, c, r)
                          (passed-reply sp_error (unfix_page fd (pos p) false t) done)
                    | inr c ↦
                        rw (a, f, d, c, o, r)
                          (finish_read-reply _ (unfix_page fd (pos p) false t) done)
                  ]
            ]
      ]

  -- If PF_GetThisPage hands out a page from a well-formed pool and the page is well formed,
  -- SP_GetThisRec, for a slot number below 2 ^ 31, returns SP_OK with exactly the bytes of the
  -- record of the slot, and SP_ERROR if the slot does not exist, was deleted, or its record is
  -- longer than the buffer, compared as signed 32-bit integers.
  pub get_this_rec-record_at :
      (p j size i : ℕ) (s t : Pf World)
      → IsSafe s
      → get_this_page mem os fd (pos p) s ≡ (ok i, t)
      → IsSlotted (page_buf i t)
      → j < half_word
      → (get_this_rec mem os fd (pos p) (pos j) size s).0
        ≡ reply_for (slt size (slot_length (page_buf i t) j)) (record_at (page_buf i t) j)
  unfolding get_this_rec
  get_this_rec-record_at p j size i s t v e w h =
      let g : Got mem os fd (pos p) s.ftab i t =
        rw e at (get_this_page-Got mem os fd (pos p) s.ftab s (v, refl)) in
      rw e (read_slot-reply p j size s.ftab i t g w h)
