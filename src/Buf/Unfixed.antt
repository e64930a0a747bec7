-- ===== src/Buf/Unfixed.antt =====
-- PFbufUnfix of pflayer/buf.c and what PFbufGet does with the page before and afterwards.
use database_assignment.Prelude.{
  ℕ, ◌≡◌, refl, Bool, true, false, some, ◌∷◌, ◌==◌, if◌then◌else◌, ==_refl, ==_iff, remove, inl,
  inr, Bool-cases, Option-cases,
}
use database_assignment.Result.{ok, err, held, Attempt, page_unfixed}
use database_assignment.Buf.{FilePage, Memory, Pool, put_frame}
use database_assignment.Buf.Ops.{find, hit, to_head, get, unfix}
use database_assignment.Buf.Valid.{IsValid}
use database_assignment.Buf.Fetch.{IsHeld}
use database_assignment.Buf.Keeps.{Succeeds, unfix_held}

-- The frame `i` of the page has been unfixed: it is dirty if it was before or the caller says so, the
-- other frames are as they were, and it is the head of the list of used frames.
abbrev pub IsUnfixed : {W : Type 0} → ℕ → ℕ → ℕ → Bool → Pool W → Pool W → Type 0
IsUnfixed fd page i dirty s t =
    IsValid t
    × (find t fd page ≡ some i)
    × ((t.frame i).fixed ≡ false)
    × ((t.frame i).dirty ≡ (if dirty then true else (s.frame i).dirty))
    × ((t.frame i).fpage ≡ (s.frame i).fpage)
    × ((j : ℕ) → (i == j) ≡ false → t.frame j ≡ s.frame j)
    × (t.used ≡ i ∷ remove i s.used)

module _ {W : Type 0} where
  -- the state after the success of PFbufUnfix
  abbrev left : ℕ → Bool → Pool W → Pool W
  left i dirty s = to_head i (
      put_frame i
        (record (s.frame i) { dirty = (if dirty then true else (s.frame i).dirty); fixed = false })
        s)

  unfix_fixed :
      (fd page i : ℕ) (dirty : Bool) (s : Pool W)
      → find s fd page ≡ some i
      → (s.frame i).fixed ≡ true
      → unfix fd page dirty s ≡ (ok tt, left i dirty s)
  unfolding unfix
  unfix_fixed fd page i dirty s e b = rw (e, unfix) (rw b refl)

  unfix_again :
      (fd page i : ℕ) (dirty : Bool) (s : Pool W)
      → find s fd page ≡ some i
      → (s.frame i).fixed ≡ false
      → (unfix fd page dirty s).0 ≡ err page_unfixed
  unfolding unfix
  unfix_again fd page i dirty s e b = rw (e, unfix) (rw b refl)

module _ {W : Type 0} (mem : Memory) (readfcn : ℕ → ℕ → W → Attempt FilePage × W)
    (writefcn : ℕ → ℕ → FilePage → W → Attempt Unit × W) where
  get_fixed :
      (fd page i : ℕ) (s : Pool W)
      → find s fd page ≡ some i
      → (s.frame i).fixed ≡ true
      → (get mem readfcn writefcn fd page s).0 ≡ held i
  unfolding get hit
  get_fixed fd page i s e b = rw (e, get) (rw b refl)

  get_unfixed :
      (fd page i : ℕ) (s : Pool W)
      → find s fd page ≡ some i
      → (s.frame i).fixed ≡ false
      → (get mem readfcn writefcn fd page s).0 ≡ ok i
  unfolding get hit
  get_unfixed fd page i s e b = rw (e, get) (rw b refl)

  -- On a page that is in a fixed frame of a well-formed pool, PFbufGet answers PFE_PAGEFIXED, and
  -- PFbufUnfix returns PFE_OK and leaves a well-formed pool in which the page is still found in
  -- its frame with its bytes, the frame is not fixed, is dirty if it was or if the caller says so,
  -- and is the head of the list of used frames, and every other frame is as it was; from there
  -- PFbufGet hands out this frame again, and another PFbufUnfix answers PFE_PAGEUNFIXED.
  pub unfix-IsUnfixed :
      (fd page i : ℕ) (dirty again : Bool) (s : Pool W)
      → IsHeld fd page i s
      → ((get mem readfcn writefcn fd page s).0 ≡ held i)
        × Succeeds
            (λ t.
              IsUnfixed fd page i dirty s t
              × ((get mem readfcn writefcn fd page t).0 ≡ ok i)
              × ((unfix fd page again t).0 ≡ err page_unfixed))
            (unfix fd page dirty s)
  unfix-IsUnfixed fd page i dirty again s (v, e, b) =
      let t = left i dirty s in
      let eq = unfix_fixed fd page i dirty s e b in
      let valid : IsValid t = rw eq at (unfix_held fd page i dirty s (v, e, b)) in
      let free : (t.frame i).fixed ≡ false = rw (==_refl i) refl in
      (
        get_fixed fd page i s e b,
        rw eq (
          (valid, e, free, rw (==_refl i) refl, rw (==_refl i) refl, λ j n. rw n refl, refl),
          get_unfixed fd page i t e free,
          unfix_again fd page i again t e free,
        ),
      )

-- With or without success PFbufUnfix leaves the hash table and the bytes in the frames alone.
pub unfix-same :
    {W : Type 0} (fd page : ℕ) (dirty : Bool) (s : Pool W)
    → ((unfix fd page dirty s).1.table ≡ s.table)
      × ((j : ℕ) → ((unfix fd page dirty s).1.frame j).fpage ≡ (s.frame j).fpage)
unfolding unfix
unfix-same fd page dirty s = elim (Option-cases (find s fd page)) [
  | inl e ↦ rw (e, unfix) (refl, λ j. refl)
  | inr (i, e) ↦
      rw (e, unfix)
        (elim (Bool-cases (s.frame i).fixed) [
          | inl b ↦ rw b (
            refl,
            λ j. elim (Bool-cases (i == j)) [
              | inl f ↦ (let g = (==_iff i j).0 f in rw (g, ==_refl j) refl)
              | inr f ↦ rw f refl
            ],
          )
          | inr b ↦ rw b (refl, λ j. refl)
        ])
]
