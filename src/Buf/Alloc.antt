-- ===== src/Buf/Alloc.antt =====
-- PFbufInternalAlloc of pflayer/buf.c: a frame from the free list, a new frame, or a victim.
use database_assignment.Prelude.{
  ℕ, ◌+◌, false, Option, none, some, List, [], ◌∷◌, reverse, ◌==◌, ltb, if◌then◌else◌,
}
use database_assignment.Result.{Attempt, ok, Call, no_mem, no_buf, ◌>>=◌, ◌>>◌, pure, modify}
use database_assignment.Buf.{
  FilePage, Memory, Pool, max_bufs, set_frame, first_unfixed, raise, link_head, unlink, outside,
  hash_delete,
}

-- The loop that chooses a victim: along `prevpage` from the last frame under LRU (policy 0), along
-- `nextpage` from the first one otherwise.
unfoldable pub victim : {W : Type 0} → Pool W → Option ℕ
unfolding first_unfixed
victim s = first_unfixed s.frame (if s.policy == 0 then reverse s.used else s.used)

-- physical_writes++ if the frame was dirty, then dirty = FALSE
unfoldable pub cleaned : {W : Type 0} → ℕ → Pool W → Pool W
cleaned i s = record s {
  physical_writes = (if (s.frame i).dirty then s.physical_writes + 1 else s.physical_writes);
  frame = set_frame s.frame i (record (s.frame i) { dirty = false });
}

-- the victim, page `page` of file `fd`, is unlinked from the hash table and the list
unfoldable pub forget : {W : Type 0} → ℕ → ℕ → ℕ → Call (Pool W) ℕ
unfolding cleaned hash_delete
forget fd page i = do modify (cleaned i); hash_delete fd page; modify (unlink i); pure i

-- the malloc() branch
unfoldable pub grow : {W : Type 0} → Memory → Call (Pool W) ℕ
grow mem s =
    if mem.grants s.calls
    then (
      ok s.numbpage,
      record s {
        frame = set_frame s.frame s.numbpage (mem.junk s.calls);
        numbpage = s.numbpage + 1;
        calls = s.calls + 1;
      },
    )
    else raise no_mem (record s { calls = s.calls + 1 })

module _ {W : Type 0} (writefcn : ℕ → ℕ → FilePage → W → Attempt Unit × W) where
  -- write out the frame `i`, as page `page` of file `fd`, if it is dirty
  unfoldable pub write_dirty : ℕ → ℕ → ℕ → Call (Pool W) Unit
  write_dirty fd page i s =
      if (s.frame i).dirty
      then outside (writefcn fd page (s.frame i).fpage s.world) s
      else (ok tt, s)

  -- the victim is written if it is dirty, and leaves the hash table and the list
  unfoldable pub evict : ℕ → Call (Pool W) ℕ
  unfolding write_dirty forget
  evict i s =
      (do write_dirty (s.frame i).fd (s.frame i).page i; forget (s.frame i).fd (s.frame i).page i) s

  -- what happens when the pool is full
  unfoldable pub replace : Call (Pool W) ℕ
  unfolding victim evict
  replace s = elim (victim s) [ none ↦ raise no_buf s | some i ↦ evict i s ]

module _ {W : Type 0} (mem : Memory) (writefcn : ℕ → ℕ → FilePage → W → Attempt Unit × W) where
  -- the first frame of the free list, a new frame if there may be one more, or a victim
  unfoldable pub take_from : List ℕ → Call (Pool W) ℕ
  unfolding grow replace
  take_from (i ∷ is) s = (ok i, record s { free = is })
  take_from [] s = if ltb s.numbpage max_bufs then grow mem s else replace writefcn s

  -- how PFbufInternalAlloc finds the frame
  unfoldable pub take_frame : Call (Pool W) ℕ
  unfolding take_from
  take_frame s = take_from s.free s

  -- PFbufInternalAlloc
  unfoldable pub internal_alloc : Call (Pool W) ℕ
  unfolding take_frame
  internal_alloc = do i ← take_frame; modify (link_head i); pure i
