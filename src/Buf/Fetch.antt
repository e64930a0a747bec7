-- ===== src/Buf/Fetch.antt =====
-- The allocation of a frame for a page, in PFbufGet and PFbufAlloc of pflayer/buf.c, keeps the
-- buffer pool well formed.
use mathlib.Core.Path.{subst}
use database_assignment.Prelude.{
  ℕ, ◌≡◌, refl, sym, ◌∙◌, true, none, some, ◌∷◌, inl, inr, ==_refl, remove, Bool-cases,
  remove-cons-absent,
}
use database_assignment.Result.{Attempt, done, failed, ok, after, Post, Post-bind, on_error}
use database_assignment.Hash
use database_assignment.Hash.{Table}
use database_assignment.Hash.Laws.{insert-ok, insert-refused, find-insert}
use database_assignment.Buf.{
  FilePage, Frame, Memory, Pool, set_frame, outside, give_back, put_frame, hash_insert,
}
use database_assignment.Buf.Alloc.{take_frame, internal_alloc}
use database_assignment.Buf.Ops.{find, read_into, load, loaded, claimed, fix, fetch, alloc_new}
use database_assignment.Buf.Valid.{
  IsCore, IsValid, IsTaken, write_taken-IsCore, write_same-IsCore, push_free-IsCore, enter-IsCore,
}
use database_assignment.Buf.Taken.{IsTakenFrom, hashed-done, take_frame-Allocated}

-- The frame `i` is the head of the used list and in no other, and not in the hash table.
pub record IsLinkedFrom {W : Type 0} (s : Pool W) (i : ℕ) (s' : Pool W) : Type 0 where
  pub core : IsCore s'.table s'.frame s'.numbpage (remove i s'.used) s'.free
  pub taken : IsTaken i s'.numbpage (remove i s'.used) s'.free
  pub head : s'.used ≡ i ∷ remove i s'.used
  pub absent : (fd page : ℕ) → find s fd page ≡ none → find s' fd page ≡ none

-- The page is in the frame `i`, which is fixed.
abbrev pub IsHeld : {W : Type 0} → ℕ → ℕ → ℕ → Pool W → Type 0
IsHeld fd page i t = IsValid t × (find t fd page ≡ some i) × ((t.frame i).fixed ≡ true)

-- The page is entered for the frame `i`, and the pool is well formed once that has its key.
abbrev pub IsPending : {W : Type 0} → ℕ → ℕ → ℕ → Pool W → Type 0
IsPending fd page i s =
    ((f : Frame)
      → f.fd ≡ fd
      → f.page ≡ page
      → IsCore s.table (set_frame s.frame i f) s.numbpage s.used s.free)
    × (find s fd page ≡ some i)

module _ {W : Type 0} where
  link_head-IsLinkedFrom :
      (s : Pool W) (i : ℕ) (s' : Pool W)
      → IsTakenFrom s i s'
      → IsLinkedFrom s i (record s' { used = i ∷ s'.used })
  link_head-IsLinkedFrom s i s' k =
      let e : remove i (i ∷ s'.used) ≡ s'.used = remove-cons-absent i s'.used k.taken.not_used in
      record { core = rw e k.valid; taken = rw e k.taken; head = rw e; absent = k.absent }

  internal_alloc-Post :
      (mem : Memory) (writefcn : ℕ → ℕ → FilePage → W → Attempt Unit × W) (s : Pool W)
      → IsValid s
      → Post (IsLinkedFrom s) (λ s'. IsValid s') (internal_alloc mem writefcn s)
  unfolding internal_alloc
  internal_alloc-Post mem writefcn s v =
      Post-bind (IsTakenFrom s) (IsLinkedFrom s) (λ s'. IsValid s')
        (λ i s'. (ok i, record s' { used = i ∷ s'.used })) (take_frame mem writefcn s)
        (take_frame-Allocated mem writefcn s v) (link_head-IsLinkedFrom s)

  give_back-IsValid :
      (s : Pool W) (i : ℕ) (s' : Pool W) → IsLinkedFrom s i s' → IsValid (give_back i s')
  give_back-IsValid s i s' k = push_free-IsCore i k.taken k.core

  enter_linked-IsPending :
      (fd page i : ℕ) (s s' : Pool W)
      → find s' fd page ≡ none
      → IsLinkedFrom s i s'
      → IsPending fd page i (record s' { table = (Hash.insert true fd page i s'.table).1 })
  enter_linked-IsPending fd page i s s' n k = (
    λ f p q.
        subst
          (λ u.
            IsCore (Hash.insert true fd page i s'.table).1 (set_frame s'.frame i f) s'.numbpage u
              s'.free)
          (sym k.head)
          (enter-IsCore i fd page k.taken n (rw (==_refl i) p) (rw (==_refl i) q)
            (write_taken-IsCore i f k.taken.not_used k.core)),
    rw (find-insert fd page i fd page s'.table n, ==_refl fd, ==_refl page),
  )

  -- A key that is not there is entered, or memory is refused.
  insert_linked-Post :
      (mem : Memory) (fd page i : ℕ) (s s' : Pool W)
      → find s' fd page ≡ none
      → IsLinkedFrom s i s'
      → Post
          (λ _. IsPending fd page i)
          (λ t. IsValid t)
          (on_error (give_back i) (hash_insert mem fd page i s'))
  unfolding hash_insert
  insert_linked-Post mem fd page i s s' n k = elim (Bool-cases (mem.grants s'.calls)) [
    | inl e ↦
        rw
          (
            e,
            hashed-done (Hash.insert true fd page i s'.table)
                (record s' { calls = Hash.calls_after s'.table fd page s'.calls })
                (insert-ok fd page i s'.table n),
          )
          (enter_linked-IsPending fd page i s s' n k)
    | inr e ↦ rw (e, insert-refused fd page i s'.table n) (give_back-IsValid s i s' k)
  ]

  -- The frame's content may change while the frame is in no list.
  load-Post :
      (readfcn : ℕ → ℕ → W → Attempt FilePage × W) (mem : Memory) (fd page i : ℕ) (s s' : Pool W)
      → find s fd page ≡ none
      → IsLinkedFrom s i s'
      → Post (λ _. IsPending fd page i) (λ t. IsValid t) (load readfcn mem fd page i s')
  unfolding load read_into
  load-Post readfcn mem fd page i s s' n k = go (readfcn fd page s'.world)
    where
      go :
          (r : Attempt FilePage × W)
          → Post
              (λ _. IsPending fd page i)
              (λ t. IsValid t)
              (on_error (give_back i) (
                after
                  (λ _. hash_insert mem fd page i)
                  (after
                    (λ fp t. (ok tt, put_frame i (record (t.frame i) { fpage = fp }) t))
                    (outside r s').0
                    (outside r s').1).0
                  (after
                    (λ fp t. (ok tt, put_frame i (record (t.frame i) { fpage = fp }) t))
                    (outside r s').0
                    (outside r s').1).1))
      go (done fp, w) =
          insert_linked-Post mem fd page i s
            (put_frame i (record (s'.frame i) { fpage = fp }) (record s' { world = w }))
            (k.absent fd page n)
            (record {
              core = write_taken-IsCore i _ k.taken.not_used k.core;
              taken = k.taken;
              head = k.head;
              absent = k.absent;
            })
      go (failed e, w) =
          give_back-IsValid s i (record s' { world = w; errno = some e })
            (record { core = k.core; taken = k.taken; head = k.head; absent = k.absent })

  set_again-IsCore :
      (fd page i : ℕ) (f g : Frame) (s : Pool W)
      → IsPending fd page i s
      → f.fd ≡ fd
      → f.page ≡ page
      → g.fd ≡ fd
      → g.page ≡ page
      → IsCore s.table (set_frame (set_frame s.frame i f) i g) s.numbpage s.used s.free
  set_again-IsCore fd page i f g s h p q p' q' =
      write_same-IsCore i g (rw (==_refl i) (p' ∙ sym p)) (rw (==_refl i) (q' ∙ sym q)) (h.0 f p q)

  pub fetch-Post :
      (mem : Memory) (readfcn : ℕ → ℕ → W → Attempt FilePage × W)
      (writefcn : ℕ → ℕ → FilePage → W → Attempt Unit × W) (fd page : ℕ) (s : Pool W)
      → IsValid s
      → find s fd page ≡ none
      → Post (IsHeld fd page) (λ t. IsValid t) (fetch mem readfcn writefcn fd page s)
  unfolding fetch loaded
  fetch-Post mem readfcn writefcn fd page s v n =
      Post-bind (IsLinkedFrom s) (IsHeld fd page) (λ t. IsValid t)
        (λ i s'.
          after (λ _ t. (ok i, fix i (loaded fd page i t))) (load readfcn mem fd page i s').0
            (load readfcn mem fd page i s').1)
        (internal_alloc mem writefcn s) (internal_alloc-Post mem writefcn s v)
        (λ i s' k.
          Post-bind (λ _. IsPending fd page i) (IsHeld fd page) (λ t. IsValid t)
            (λ _ t. (ok i, fix i (loaded fd page i t))) (load readfcn mem fd page i s')
            (load-Post readfcn mem fd page i s s' n k)
            (λ _ t h. (
              set_again-IsCore fd page i _ _ t h refl refl (rw ==_refl) (rw ==_refl),
              h.1,
              rw ==_refl,
            )))

  pub alloc_new-Post :
      (mem : Memory) (writefcn : ℕ → ℕ → FilePage → W → Attempt Unit × W) (fd page : ℕ) (s : Pool W)
      → IsValid s
      → find s fd page ≡ none
      → Post (IsHeld fd page) (λ t. IsValid t) (alloc_new mem writefcn fd page s)
  unfolding alloc_new claimed
  alloc_new-Post mem writefcn fd page s v n =
      Post-bind (IsLinkedFrom s) (IsHeld fd page) (λ t. IsValid t)
        (λ i s'.
          after (λ _ t. (ok i, claimed fd page i t))
            (on_error (give_back i) (hash_insert mem fd page i s')).0
            (on_error (give_back i) (hash_insert mem fd page i s')).1)
        (internal_alloc mem writefcn s) (internal_alloc-Post mem writefcn s v)
        (λ i s' k.
          Post-bind (λ _. IsPending fd page i) (IsHeld fd page) (λ t. IsValid t)
            (λ _ t. (ok i, claimed fd page i t))
            (on_error (give_back i) (hash_insert mem fd page i s'))
            (insert_linked-Post mem fd page i s s' (k.absent fd page n) k)
            (λ _ t h. (h.0 _ refl refl, h.1, rw ==_refl)))
