-- ===== src/Buf/Ops.antt =====
-- The interface routines of pflayer/buf.c. A frame that is handed out is given by its number.
use database_assignment.Prelude.{
  ℕ, ◌+◌, Bool, true, false, Option, none, some, List, [], ◌∷◌, ◌==◌, if◌then◌else◌,
}
use database_assignment.Result.{
  Attempt, ok, held, Call, page_fixed, page_not_in_buf, page_unfixed, page_in_buf, ◌>>=◌, ◌>>◌,
  pure, modify, on_error, or_exit,
}
use database_assignment.Hash
use database_assignment.Buf.{
  FilePage, Memory, Pool, set_frame, raise, link_head, unlink, give_back, put_frame, outside,
  hash_delete, hash_insert,
}
use database_assignment.Buf.Alloc.{internal_alloc, write_dirty}

-- where PFhashFind finds a page
abbrev pub find : {W : Type 0} → Pool W → ℕ → ℕ → Option ℕ
find s fd page = Hash.find s.table fd page

-- bpage->fixed = TRUE
abbrev pub fix : {W : Type 0} → ℕ → Pool W → Pool W
fix i s = put_frame i (record (s.frame i) { fixed = true }) s

-- make a frame the head of the list of used frames
abbrev pub to_head : {W : Type 0} → ℕ → Pool W → Pool W
to_head i s = link_head i (unlink i s)

module _ {W : Type 0} (readfcn : ℕ → ℕ → W → Attempt FilePage × W) where
  -- (*readfcn)(fd, pagenum, &bpage->fpage)
  unfoldable pub read_into : ℕ → ℕ → ℕ → Call (Pool W) Unit
  read_into fd page i = do
    fp ← (λ s. outside (readfcn fd page s.world) s)
    modify (λ s. put_frame i (record (s.frame i) { fpage = fp }) s)

  -- fill the frame `i` for a page that is not in the buffer
  unfoldable pub load : Memory → ℕ → ℕ → ℕ → Call (Pool W) Unit
  unfolding read_into hash_insert
  load mem fd page i s =
      on_error (give_back i) ((do read_into fd page i; hash_insert mem fd page i) s)

-- the fields of a frame that was read
unfoldable pub loaded : {W : Type 0} → ℕ → ℕ → ℕ → Pool W → Pool W
loaded fd page i s = record s {
  frame = set_frame s.frame i (record (s.frame i) { fd = fd; page = page; dirty = false });
  physical_reads = s.physical_reads + 1;
}

-- the fields of a frame for a new page
unfoldable pub claimed : {W : Type 0} → ℕ → ℕ → ℕ → Pool W → Pool W
claimed fd page i s =
    put_frame i (record (s.frame i) { fd = fd; page = page; fixed = true; dirty = false }) s

-- the branch of PFbufGet for a page that is in the frame `i`
unfoldable pub hit : {W : Type 0} → ℕ → Call (Pool W) ℕ
hit i s =
    if (s.frame i).fixed then (held i, record s { errno = some page_fixed }) else (ok i, fix i s)

module _ {W : Type 0} (mem : Memory) (readfcn : ℕ → ℕ → W → Attempt FilePage × W)
    (writefcn : ℕ → ℕ → FilePage → W → Attempt Unit × W) where
  -- the branch of PFbufGet for a page that is not in the buffer
  unfoldable pub fetch : ℕ → ℕ → Call (Pool W) ℕ
  unfolding internal_alloc load loaded
  fetch fd page = do
    i ← internal_alloc mem writefcn
    load readfcn mem fd page i
    modify (loaded fd page i)
    modify (fix i)
    pure i

  -- PFbufGet
  unfoldable pub get : ℕ → ℕ → Call (Pool W) ℕ
  unfolding fetch hit
  get fd page s =
      let s₁ : Pool W = record s { logical_reads = s.logical_reads + 1 } in
      elim (find s₁ fd page) [ none ↦ fetch fd page s₁ | some i ↦ hit i s₁ ]

-- PFbufUnfix
unfoldable pub unfix : {W : Type 0} → ℕ → ℕ → Bool → Call (Pool W) Unit
unfix fd page dirty s = elim (find s fd page) [
  | none ↦ raise page_not_in_buf s
  | some i ↦
      if (s.frame i).fixed
      then (
        ok tt,
        to_head i (
            put_frame i
              (record (s.frame i) {
                dirty = (if dirty then true else (s.frame i).dirty);
                fixed = false;
              })
              s),
      )
      else raise page_unfixed s
]

-- PFbufUsed
unfoldable pub mark_used : {W : Type 0} → ℕ → ℕ → Call (Pool W) Unit
mark_used fd page s = elim (find s fd page) [
  | none ↦ raise page_not_in_buf s
  | some i ↦
      if (s.frame i).fixed
      then (ok tt, to_head i (put_frame i (record (s.frame i) { dirty = true }) s))
      else raise page_unfixed s
]

module _ {W : Type 0} (mem : Memory) (writefcn : ℕ → ℕ → FilePage → W → Attempt Unit × W) where
  -- PFbufAlloc for a page that is not in the buffer
  unfoldable pub alloc_new : ℕ → ℕ → Call (Pool W) ℕ
  unfolding internal_alloc hash_insert claimed
  alloc_new fd page = do
    i ← internal_alloc mem writefcn
    (λ s. on_error (give_back i) (hash_insert mem fd page i s))
    modify (claimed fd page i)
    pure i

  -- PFbufAlloc
  unfoldable pub alloc : ℕ → ℕ → Call (Pool W) ℕ
  unfolding alloc_new
  alloc fd page s = elim (find s fd page) [
    | none ↦ alloc_new fd page s
    | some _ ↦ raise page_in_buf s
  ]

-- The frame leaves the table, or the program ends, and then the list.
unfoldable pub discard : {W : Type 0} → ℕ → ℕ → ℕ → Call (Pool W) Unit
unfolding hash_delete
discard fd page i = do
  modify (λ s. put_frame i (record (s.frame i) { dirty = false }) s)
  (λ s. or_exit (hash_delete fd page s))
  modify (give_back i)

module _ {W : Type 0} (writefcn : ℕ → ℕ → FilePage → W → Attempt Unit × W) where
  -- the frame `i`, which holds a page of the file, is written and goes to the free list
  unfoldable pub release_frame : ℕ → ℕ → Call (Pool W) Unit
  unfolding write_dirty discard
  release_frame fd i s =
      (do write_dirty writefcn fd (s.frame i).page i; discard fd (s.frame i).page i) s

  -- one round of the loop of PFbufReleaseFile
  unfoldable pub release_step : ℕ → ℕ → Call (Pool W) Unit
  unfolding release_frame
  release_step fd i s =
      if (s.frame i).fd == fd
      then (if (s.frame i).fixed then raise page_fixed s else release_frame fd i s)
      else (ok tt, s)

  -- the loop, along the list of used frames as it stands at the start
  unfoldable pub release_from : ℕ → List ℕ → Call (Pool W) Unit
  release_from fd [] = pure tt
  release_from fd (i ∷ is) = do release_step fd i; release_from fd is

  -- PFbufReleaseFile
  unfoldable pub release_file : ℕ → Call (Pool W) Unit
  unfolding release_from release_step
  release_file fd s = release_from fd s.used s
