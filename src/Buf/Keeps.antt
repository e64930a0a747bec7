-- ===== src/Buf/Keeps.antt =====
-- Every routine of pflayer/buf.c keeps the buffer pool well formed, whatever the functions that
-- read and write pages do and however often memory is refused.
use database_assignment.Prelude.{
  member-cons, distinct, distinct-cons, member-remove, ℕ, ◌+◌, ◌≡◌, refl, ap, Bool, true, false,
  some, List, [], ◌∷◌, arith, ◌==◌, inl, inr, member, Bool-cases, Option-cases, ==_iff, ==_refl,
}
use database_assignment.Result.{Result, Attempt, Post, Post-bind, Post-mono}
use database_assignment.Hash
use database_assignment.Hash.Laws.{delete-ok}
use database_assignment.Buf.{put_frame, FilePage, Frame, Memory, Pool, hash_delete}
use database_assignment.Buf.Alloc.{write_dirty}
use database_assignment.Buf.Ops.{
  find, hit, to_head, discard, get, unfix, mark_used, alloc, release_frame, release_step,
  release_from, release_file,
}
use database_assignment.Buf.Valid.{IsValid, write_same-IsCore, push_free-IsCore, to_head-IsCore}
use database_assignment.Buf.Taken.{hashed-done, write_dirty-Post, drop_page-IsCore}
use database_assignment.Buf.Fetch.{IsHeld, fetch-Post, alloc_new-Post}

-- The outcome leaves a well-formed pool, and does not end the program.
abbrev pub Keeps : {A W : Type 0} → Result A × Pool W → Type 0
Keeps = Post (λ _ t. IsValid t) (λ t. IsValid t)

-- The call returns PFE_OK, and leaves a state that satisfies `P`.
abbrev pub Succeeds : {S : Type 0} → (S → Type 0) → Result Unit × S → Type 0
Succeeds P = Post (λ _. P) (λ _. ⊥)

module _ {W : Type 0} where
  -- A used frame may be marked and made the head of the list.
  mark-IsValid :
      (fd page i : ℕ) (f : Frame) (s : Pool W)
      → IsValid s
      → find s fd page ≡ some i
      → f.fd ≡ (s.frame i).fd
      → f.page ≡ (s.frame i).page
      → IsValid (to_head i (put_frame i f s))
  mark-IsValid fd page i f s v h p q =
      to_head-IsCore i (v.found_used fd page i h) (write_same-IsCore i f p q v)

  hit-Post :
      (fd page i : ℕ) (s : Pool W)
      → IsValid s
      → find s fd page ≡ some i
      → Post (IsHeld fd page) (λ t. IsValid t) (hit {W = W} i s)
  unfolding hit
  hit-Post fd page i s v h = elim (Bool-cases (s.frame i).fixed) [
    | inl e ↦ rw (e, hit) v
    | inr e ↦ rw (e, hit) (write_same-IsCore i _ refl refl v, h, rw ==_refl)
  ]

  pub unfix-Keeps :
      (fd page : ℕ) (dirty : Bool) (s : Pool W) → IsValid s → Keeps (unfix fd page dirty s)
  unfolding unfix
  unfix-Keeps fd page dirty s v = elim (Option-cases (find s fd page)) [
    | inl e ↦ rw (e, unfix) v
    | inr (i, e) ↦
        rw (e, unfix)
          (elim (Bool-cases (s.frame i).fixed) [
            | inl b ↦ rw b (mark-IsValid fd page i _ s v e refl refl)
            | inr b ↦ rw b v
          ])
  ]

  pub mark_used-Keeps : (fd page : ℕ) (s : Pool W) → IsValid s → Keeps (mark_used fd page s)
  unfolding mark_used
  mark_used-Keeps fd page s v = elim (Option-cases (find s fd page)) [
    | inl e ↦ rw (e, mark_used) v
    | inr (i, e) ↦
        rw (e, mark_used)
          (elim (Bool-cases (s.frame i).fixed) [
            | inl b ↦ rw b (mark-IsValid fd page i _ s v e refl refl)
            | inr b ↦ rw b v
          ])
  ]

  -- On a page that is in a fixed frame of a well-formed pool PFbufUnfix returns PFE_OK, and the
  -- pool is well formed afterwards.
  pub unfix_held :
      (fd page i : ℕ) (dirty : Bool) (s : Pool W)
      → IsHeld fd page i s
      → Succeeds (λ t. IsValid t) (unfix fd page dirty s)
  unfolding unfix
  unfix_held fd page i dirty s (v, e, b) =
      rw (e, unfix) (rw b (mark-IsValid fd page i _ s v e refl refl))

  pub mark_used-IsHeld :
      (fd page i : ℕ) (s : Pool W)
      → IsHeld fd page i s
      → Succeeds (IsHeld fd page i) (mark_used fd page s)
  unfolding mark_used
  mark_used-IsHeld fd page i s (v, e, b) =
      rw (e, mark_used) (rw b (mark-IsValid fd page i _ s v e refl refl, e, rw (==_refl i)))

module _ {W : Type 0} (writefcn : ℕ → ℕ → FilePage → W → Attempt Unit × W) where
  -- From a well-formed pool PFbufAlloc does not end the program; with PFE_OK the page is found in
  -- the frame that is returned, which is fixed, and with an error the pool is well formed.
  pub alloc-Post :
      (mem : Memory) (fd page : ℕ) (s : Pool W)
      → IsValid s
      → Post (IsHeld fd page) (λ t. IsValid t) (alloc mem writefcn fd page s)
  unfolding alloc
  alloc-Post mem fd page s v = elim (Option-cases (find s fd page)) [
    | inl e ↦ rw (e, alloc) (alloc_new-Post mem writefcn fd page s v e)
    | inr (i, e) ↦ rw (e, alloc) v
  ]

  -- From a well-formed pool PFbufGet does not end the program; with PFE_OK the page asked for is
  -- found in the frame that is returned, which is fixed, and with an error the pool is well
  -- formed. This holds whatever the functions that read and write pages do and however often
  -- memory is refused.
  pub get-Post :
      (mem : Memory) (readfcn : ℕ → ℕ → W → Attempt FilePage × W) (fd page : ℕ) (s : Pool W)
      → IsValid s
      → Post (IsHeld fd page) (λ t. IsValid t) (get mem readfcn writefcn fd page s)
  unfolding get
  get-Post mem readfcn fd page s v =
      let s₁ : Pool W = record s { logical_reads = s.logical_reads + 1 } in
      elim (Option-cases (find s fd page)) [
        | inl e ↦ rw (e, get) (fetch-Post mem readfcn writefcn fd page s₁ v e)
        | inr (i, e) ↦ rw (e, get) (hit-Post fd page i s₁ v e)
      ]

  abbrev IsReleasable : Pool W → ℕ → ℕ → ℕ → Pool W → Type 0
  IsReleasable s fd page i s' = IsValid s' × (find s' fd page ≡ some i) × (s'.used ≡ s.used)

  -- The pool is well formed, and the other used frames are still used.
  abbrev IsWithout : Pool W → ℕ → Pool W → Type 0
  IsWithout s i s' =
      IsValid s' × ((j : ℕ) → (j == i) ≡ false → member j s.used ≡ true → member j s'.used ≡ true)

  discard-Post :
      (s : Pool W) (fd page i : ℕ) (s' : Pool W)
      → IsReleasable s fd page i s'
      → Post (λ _. IsWithout s i) (λ t. IsValid t) (discard fd page i s')
  unfolding discard hash_delete
  discard-Post s fd page i s' (v, h, e) =
      let s₁ : Pool W = put_frame i (record (s'.frame i) { dirty = false }) s' in
      let v₁ : IsValid s₁ = write_same-IsCore i _ refl refl v in
      let (core, taken) = drop_page-IsCore i fd page s₁ v₁ h in
      rw (hashed-done (Hash.delete fd page s'.table) s₁ (delete-ok fd page i s'.table h)) (
        push_free-IsCore i taken core,
        λ j n m. ground (arith, member-remove j i s'.used, ap (λ l. member j l) e),
      )

  release_frame-Post :
      (fd i : ℕ) (s : Pool W)
      → IsValid s
      → member i s.used ≡ true
      → (s.frame i).fd ≡ fd
      → Post (λ _. IsWithout s i) (λ t. IsValid t) (release_frame writefcn fd i s)
  unfolding release_frame
  release_frame-Post fd i s v m e =
      let page : ℕ = (s.frame i).page in
      let k : find s fd page ≡ some i = rw (← e) (v.listed i m) in
      Post-bind (λ _. IsReleasable s fd page i) (λ _. IsWithout s i) (λ t. IsValid t)
        (λ _. discard fd page i) (write_dirty writefcn fd page i s)
        (Post-mono (λ _. IsReleasable s fd page i) (λ _. IsReleasable s fd page i)
          (IsReleasable s fd page i) (λ t. IsValid t) (write_dirty writefcn fd page i s)
          (λ _ _ h. h) (λ _ h. h.0)
          (write_dirty-Post writefcn (IsReleasable s fd page i) fd page i s (v, k, refl)
            (λ _. (v, k, refl)) (λ _ _. (v, k, refl))))
        (λ _. discard-Post s fd page i)

  release_step-Post :
      (fd i : ℕ) (s : Pool W)
      → IsValid s
      → member i s.used ≡ true
      → Post (λ _. IsWithout s i) (λ t. IsValid t) (release_step writefcn fd i s)
  unfolding release_step
  release_step-Post fd i s v m = elim (Bool-cases ((s.frame i).fd == fd)) [
    | inr e ↦ rw (e, release_step) (v, λ _ _ h. h)
    | inl e ↦
        rw (e, release_step)
          (elim (Bool-cases (s.frame i).fixed) [
            | inl b ↦ rw b v
            | inr b ↦ rw b (release_frame-Post fd i s v m ((==_iff _ _).0 e))
          ])
  ]

  release_from-Keeps :
      (fd : ℕ) (is : List ℕ) (s : Pool W)
      → IsValid s
      → distinct is ≡ true
      → ((j : ℕ) → member j is ≡ true → member j s.used ≡ true)
      → Keeps (release_from writefcn fd is s)
  unfolding release_from
  release_from-Keeps fd [] s v d h = v
  release_from-Keeps fd (i ∷ is) s v d h =
      Post-bind (λ _. IsWithout s i) (λ _ t. IsValid t) (λ t. IsValid t)
        (λ _. release_from writefcn fd is) (release_step writefcn fd i s)
        (release_step-Post fd i s v (h i (ground (arith, member-cons i i is))))
        (λ _ s' w. release_from-Keeps fd is s' w.0 (ground (arith, distinct-cons i is)) (λ j m.
          w.1 j (ground (arith, distinct-cons i is)) (h j (ground (arith, member-cons j i is)))))

  -- From a well-formed pool PFbufReleaseFile does not end the program through its internal error,
  -- and the pool is well formed afterwards, with PFE_OK and with an error.
  pub release_file-Keeps : (fd : ℕ) (s : Pool W) → IsValid s → Keeps (release_file writefcn fd s)
  unfolding release_file
  release_file-Keeps fd s v = release_from-Keeps fd s.used s v v.used_distinct (λ _ m. m)
