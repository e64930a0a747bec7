-- ===== src/Buf/Taken.antt =====
-- PFbufInternalAlloc of pflayer/buf.c keeps the buffer pool well formed, whatever the function that
-- writes pages does and however often memory is refused; the frame it finds is in no list.
use mathlib.Core.Path.{subst}
use database_assignment.Prelude.{
  ℕ, ◌≡◌, refl, sym, Bool, true, false, none, some, List, [], ◌∷◌, reverse, arith, ltb, ltb→lt,
  if◌then◌else◌, member, remove, member-cons, member-reverse, Bool-cases, Option-cases, inl, inr,
  ◌<◌,
}
use database_assignment.Result.{Code, Result, Attempt, done, failed, ok, Post, Post-bind, Post-mono}
use database_assignment.Hash
use database_assignment.Hash.{Table}
use database_assignment.Hash.Laws.{delete-ok, find-delete}
use database_assignment.Buf.{
  FilePage, Frame, Memory, Pool, max_bufs, outside, hashed, first_unfixed, hash_delete,
}
use database_assignment.Buf.Alloc.{
  victim, cleaned, grow, write_dirty, forget, evict, replace, take_from, take_frame,
}
use database_assignment.Buf.Ops.{find}
use database_assignment.Buf.Valid.{
  IsCore, IsValid, IsTaken, pop_free-IsCore, grow-IsCore, write_same-IsCore, drop-IsCore,
}

-- The pool is well formed with the frame `i` in no list, and pages absent before are absent.
pub record IsTakenFrom {W : Type 0} (s : Pool W) (i : ℕ) (s' : Pool W) : Type 0 where
  pub valid : IsValid s'
  pub taken : IsTaken i s'.numbpage s'.used s'.free
  pub absent : (fd page : ℕ) → find s fd page ≡ none → find s' fd page ≡ none

-- The victim is a used frame that is not fixed.
first_unfixed-member :
    (frames : ℕ → Frame) (is : List ℕ) (i : ℕ)
    → first_unfixed frames is ≡ some i
    → (member i is ≡ true) × ((frames i).fixed ≡ false)
unfolding first_unfixed
first_unfixed-member frames [] i h = ground arith
first_unfixed-member frames (j ∷ is) i h =
    ground (arith, first_unfixed-member frames is i, member-cons i j is)

module _ {W : Type 0} (s : Pool W) where
  pub victim-used :
      (i : ℕ) → victim s ≡ some i → (member i s.used ≡ true) × ((s.frame i).fixed ≡ false)
  unfolding victim
  victim-used i h = ground (
    arith,
    first_unfixed-member s.frame s.used i,
    first_unfixed-member s.frame (reverse s.used) i,
    member-reverse i s.used,
  )

module _ {W : Type 0} where
  -- Absent pages stay absent.
  abbrev pub KeepsAbsent : Pool W → Pool W → Type 0
  KeepsAbsent s s' = (fd page : ℕ) → find s fd page ≡ none → find s' fd page ≡ none

  -- What an allocation gives, and what it leaves when it fails.
  abbrev pub Allocated : Pool W → Result ℕ × Pool W → Type 0
  Allocated s = Post (IsTakenFrom s) (λ s'. IsValid s')

  -- A call on the table that does not fail.
  pub hashed-done :
      (r : Attempt Unit × Table) (s : Pool W)
      → r.0 ≡ done tt
      → hashed r s ≡ (ok tt, record s { table = r.1 })
  hashed-done (done tt, t) s h = refl
  hashed-done (failed e, t) s h = cc

  pub drop-absent :
      (fd page fd' page' : ℕ) (s : Pool W)
      → IsValid s
      → find s fd' page' ≡ none
      → Hash.find (Hash.delete fd page s.table).1 fd' page' ≡ none
  drop-absent fd page fd' page' s v h =
      ground (arith, find-delete fd page fd' page' s.table v.is_map)

  pub forget_lem :
      (i fd page : ℕ) (s : Pool W)
      → find s fd page ≡ some i
      → forget fd page i s ≡ (
        ok i,
        record (cleaned i s) { table = (Hash.delete fd page s.table).1; used = remove i s.used },
      )
  unfolding forget cleaned hash_delete
  forget_lem i fd page s h =
      rw (hashed-done (Hash.delete fd page s.table) (cleaned i s) (delete-ok fd page i s.table h))

  pub drop_page-IsCore :
      (i fd page : ℕ) (s : Pool W)
      → IsValid s
      → find s fd page ≡ some i
      → IsCore (Hash.delete fd page s.table).1 s.frame s.numbpage (remove i s.used) s.free
        × IsTaken i s.numbpage (remove i s.used) s.free
  drop_page-IsCore i fd page s v h =
      rw (← v.found_fd fd page i h, ← v.found_page fd page i h)
        (drop-IsCore i (v.found_used fd page i h) v)

  forget-Allocated :
      (i fd page : ℕ) (s : Pool W)
      → IsValid s
      → find s fd page ≡ some i
      → Allocated s (forget fd page i s)
  unfolding cleaned
  forget-Allocated i fd page s v h =
      let (core, taken) = drop_page-IsCore i fd page s v h in
      subst (Allocated s) (sym (forget_lem i fd page s h)) (record {
        valid = write_same-IsCore i _ refl refl core;
        taken = taken;
        absent = λ fd' page' a. drop-absent fd page fd' page' s v a;
      })

  pub write_dirty-Post :
      (writefcn : ℕ → ℕ → FilePage → W → Attempt Unit × W) (P : Pool W → Type 0) (fd page i : ℕ)
      (s : Pool W)
      → P s
      → ((w : W) → P (record s { world = w }))
      → ((w : W) (e : Code) → P (record s { world = w; errno = some e }))
      → Post (λ _ s'. P s') P (write_dirty writefcn fd page i s)
  unfolding write_dirty
  write_dirty-Post writefcn P fd page i s h k l =
      go (s.frame i).dirty (writefcn fd page (s.frame i).fpage s.world)
    where
      go :
          (b : Bool) (r : Attempt Unit × W)
          → Post (λ _ s'. P s') P (if b then outside r s else (ok tt, s))
      go true (done a, w) = k w
      go true (failed e, w) = l w e
      go false r = h

  -- What holds between writing a victim out and unlinking it.
  abbrev IsEvictable : Pool W → ℕ → ℕ → ℕ → Pool W → Type 0
  IsEvictable s i fd page s' = IsValid s' × (find s' fd page ≡ some i) × KeepsAbsent s s'

  write_dirty-IsEvictable :
      (writefcn : ℕ → ℕ → FilePage → W → Attempt Unit × W) (fd page i : ℕ) (s : Pool W)
      → IsValid s
      → find s fd page ≡ some i
      → Post
          (λ _. IsEvictable s i fd page)
          (IsEvictable s i fd page)
          (write_dirty writefcn fd page i s)
  write_dirty-IsEvictable writefcn fd page i s v h =
      write_dirty-Post writefcn (IsEvictable s i fd page) fd page i s (v, h, λ _ _ a. a)
        (λ _. (v, h, λ _ _ a. a)) (λ _ _. (v, h, λ _ _ a. a))

  forget_evictable :
      (s : Pool W) (i fd page : ℕ) (s' : Pool W)
      → IsEvictable s i fd page s'
      → Allocated s (forget fd page i s')
  forget_evictable s i fd page s' h =
      Post-mono (IsTakenFrom s') (IsTakenFrom s) (λ t. IsValid t) (λ t. IsValid t)
        (forget fd page i s')
        (λ j t k. record {
          valid = k.valid;
          taken = k.taken;
          absent = λ fd' page' a. k.absent fd' page' (h.2 fd' page' a);
        })
        (λ _ k. k) (forget-Allocated i fd page s' h.0 h.1)

  evict-Allocated :
      (writefcn : ℕ → ℕ → FilePage → W → Attempt Unit × W) (i : ℕ) (s : Pool W)
      → IsValid s
      → member i s.used ≡ true
      → Allocated s (evict writefcn i s)
  unfolding evict
  evict-Allocated writefcn i s v m =
      let fd : ℕ = (s.frame i).fd in
      let page : ℕ = (s.frame i).page in
      Post-bind (λ _. IsEvictable s i fd page) (IsTakenFrom s) (λ s'. IsValid s')
        (λ _. forget fd page i) (write_dirty writefcn fd page i s)
        (Post-mono (λ _. IsEvictable s i fd page) (λ _. IsEvictable s i fd page)
          (IsEvictable s i fd page) (λ s'. IsValid s') (write_dirty writefcn fd page i s)
          (λ _ _ h. h) (λ _ h. h.0) (write_dirty-IsEvictable writefcn fd page i s v (v.listed i m)))
        (λ _. forget_evictable s i fd page)

  replace-Allocated :
      (writefcn : ℕ → ℕ → FilePage → W → Attempt Unit × W) (s : Pool W)
      → IsValid s
      → Allocated s (replace writefcn s)
  unfolding replace
  replace-Allocated writefcn s v = elim (Option-cases (victim s)) [
    | inl e ↦ rw (e, replace) v
    | inr (i, e) ↦ rw (e, replace) (evict-Allocated writefcn i s v (victim-used s i e).0)
  ]

  grow-Allocated :
      (mem : Memory) (s : Pool W) → IsValid s → s.numbpage < max_bufs → Allocated s (grow mem s)
  unfolding grow
  grow-Allocated mem s v r = elim (Bool-cases (mem.grants s.calls)) [
    | inl e ↦
        rw (e, grow)
          (let (core, taken) = grow-IsCore (mem.junk s.calls) r v in
            record { valid = core; taken = taken; absent = λ _ _ a. a })
    | inr e ↦ rw (e, grow) v
  ]

  take_from-Allocated :
      (mem : Memory) (writefcn : ℕ → ℕ → FilePage → W → Attempt Unit × W) (s : Pool W) (l : List ℕ)
      → IsCore s.table s.frame s.numbpage s.used l
      → l ≡ s.free
      → Allocated s (take_from mem writefcn l s)
  unfolding take_from
  take_from-Allocated mem writefcn s (i ∷ is) v e =
      let (core, taken) = pop_free-IsCore i v in
      record { valid = core; taken = taken; absent = λ _ _ a. a }
  take_from-Allocated mem writefcn s [] v e =
      let v' : IsValid s = subst (IsCore s.table s.frame s.numbpage s.used) e v in
      elim (Bool-cases (ltb s.numbpage max_bufs)) [
        | inl r ↦ rw r (grow-Allocated mem s v' (ltb→lt _ _ r))
        | inr r ↦ rw r (replace-Allocated writefcn s v')
      ]

  pub take_frame-Allocated :
      (mem : Memory) (writefcn : ℕ → ℕ → FilePage → W → Attempt Unit × W) (s : Pool W)
      → IsValid s
      → Allocated s (take_frame mem writefcn s)
  unfolding take_frame
  take_frame-Allocated mem writefcn s v = take_from-Allocated mem writefcn s s.free v refl
