-- ===== src/Buf/Valid.antt =====
-- The well-formedness of the buffer pool of pflayer/buf.c, and the state between the two halves of
-- an allocation, when the new frame is in no list.
use database_assignment.Prelude.{
  ℕ, ◌+◌, ◌≤◌, ◌<◌, ◌≡◌, true, false, none, some, List, ◌∷◌, arith, member, remove, distinct,
  member-cons, member-remove, Bool-cases, distinct-cons, distinct-remove,
}
use database_assignment.Hash
use database_assignment.Hash.{Table}
use database_assignment.Hash.Laws.{IsMap, find-insert, insert-IsMap, find-delete, delete-IsMap}
use database_assignment.Buf.{Frame, Pool, max_bufs, set_frame}

-- The hash table and the list of used frames name the same frames, each under its own key; a frame
-- stands in one list at most, and there are at most PF_MAX_BUFS of them.
pub record IsCore (t : Table) (frame : ℕ → Frame) (numbpage : ℕ) (used free : List ℕ) : Type 0 where
  pub is_map : IsMap t
  pub found_used : (fd page i : ℕ) → Hash.find t fd page ≡ some i → member i used ≡ true
  pub found_fd : (fd page i : ℕ) → Hash.find t fd page ≡ some i → (frame i).fd ≡ fd
  pub found_page : (fd page i : ℕ) → Hash.find t fd page ≡ some i → (frame i).page ≡ page
  pub listed : (i : ℕ) → member i used ≡ true → Hash.find t (frame i).fd (frame i).page ≡ some i
  pub used_distinct : distinct used ≡ true
  pub free_distinct : distinct free ≡ true
  pub apart : (i : ℕ) → member i free ≡ true → member i used ≡ false
  pub used_bound : (i : ℕ) → member i used ≡ true → i < numbpage
  pub free_bound : (i : ℕ) → member i free ≡ true → i < numbpage
  pub room : numbpage ≤ max_bufs

abbrev pub IsValid : {W : Type 0} → Pool W → Type 0
IsValid s = IsCore s.table s.frame s.numbpage s.used s.free

-- The frame `i` exists and is in no list.
pub record IsTaken (i numbpage : ℕ) (used free : List ℕ) : Type 0 where
  pub not_used : member i used ≡ false
  pub not_free : member i free ≡ false
  pub exists : i < numbpage

module _ {t : Table} {frame : ℕ → Frame} {numbpage : ℕ} {used free : List ℕ} where
  -- Taking the first frame of the free list.
  pub pop_free-IsCore :
      (i : ℕ)
      → IsCore t frame numbpage used (i ∷ free)
      → IsCore t frame numbpage used free × IsTaken i numbpage used free
  pop_free-IsCore i v = (
    record {
      is_map = v.is_map;
      found_used = v.found_used;
      found_fd = v.found_fd;
      found_page = v.found_page;
      listed = v.listed;
      used_distinct = v.used_distinct;
      free_distinct = ground (arith, v.free_distinct, distinct-cons i free);
      apart = λ j h. v.apart j (ground (arith, member-cons j i free));
      used_bound = v.used_bound;
      free_bound = λ j h. v.free_bound j (ground (arith, member-cons j i free));
      room = v.room;
    },
    record {
      not_used = v.apart i (ground (arith, member-cons i i free));
      not_free = ground (arith, v.free_distinct, distinct-cons i free);
      exists = v.free_bound i (ground (arith, member-cons i i free));
    },
  )

  -- A new frame behind all the others.
  pub grow-IsCore :
      (f : Frame)
      → numbpage < max_bufs
      → IsCore t frame numbpage used free
      → IsCore t (set_frame frame numbpage f) (numbpage + 1) used free
        × IsTaken numbpage (numbpage + 1) used free
  grow-IsCore f r v = (
    record {
      is_map = v.is_map;
      found_used = v.found_used;
      found_fd = λ fd page i h.
          ground (arith, v.found_fd fd page i, v.found_used fd page i, v.used_bound i);
      found_page = λ fd page i h.
          ground (arith, v.found_page fd page i, v.found_used fd page i, v.used_bound i);
      listed = λ i h. ground (arith, v.listed i, v.used_bound i);
      used_distinct = v.used_distinct;
      free_distinct = v.free_distinct;
      apart = v.apart;
      used_bound = λ i h. omega (arith, v.used_bound i h);
      free_bound = λ i h. omega (arith, v.free_bound i h);
      room = omega arith;
    },
    record {
      not_used = ground (arith, Bool-cases (member numbpage used), v.used_bound numbpage);
      not_free = ground (arith, Bool-cases (member numbpage free), v.free_bound numbpage);
      exists = omega arith;
    },
  )

  -- A frame in no list may be written freely.
  pub write_taken-IsCore :
      (i : ℕ) (f : Frame)
      → member i used ≡ false
      → IsCore t frame numbpage used free
      → IsCore t (set_frame frame i f) numbpage used free
  write_taken-IsCore i f n v = record {
    is_map = v.is_map;
    found_used = v.found_used;
    found_fd = λ fd page j h. ground (arith, v.found_fd fd page j, v.found_used fd page j);
    found_page = λ fd page j h. ground (arith, v.found_page fd page j, v.found_used fd page j);
    listed = λ j h. ground (arith, v.listed j);
    used_distinct = v.used_distinct;
    free_distinct = v.free_distinct;
    apart = v.apart;
    used_bound = v.used_bound;
    free_bound = v.free_bound;
    room = v.room;
  }

  -- A frame may be written if its key stays.
  pub write_same-IsCore :
      (i : ℕ) (f : Frame)
      → f.fd ≡ (frame i).fd
      → f.page ≡ (frame i).page
      → IsCore t frame numbpage used free
      → IsCore t (set_frame frame i f) numbpage used free
  write_same-IsCore i f p q v = record {
    is_map = v.is_map;
    found_used = v.found_used;
    found_fd = λ fd page j h. ground (arith, v.found_fd fd page j);
    found_page = λ fd page j h. ground (arith, v.found_page fd page j);
    listed = λ j h. ground (arith, v.listed j);
    used_distinct = v.used_distinct;
    free_distinct = v.free_distinct;
    apart = v.apart;
    used_bound = v.used_bound;
    free_bound = v.free_bound;
    room = v.room;
  }

  -- A frame in no list goes to the free list.
  pub push_free-IsCore :
      (i : ℕ)
      → IsTaken i numbpage used free
      → IsCore t frame numbpage used free
      → IsCore t frame numbpage used (i ∷ free)
  push_free-IsCore i k v = record {
    is_map = v.is_map;
    found_used = v.found_used;
    found_fd = v.found_fd;
    found_page = v.found_page;
    listed = v.listed;
    used_distinct = v.used_distinct;
    free_distinct = rw distinct-cons (ground (arith, k.not_free, v.free_distinct));
    apart = λ j h. ground (arith, k.not_used, v.apart j, member-cons j i free);
    used_bound = v.used_bound;
    free_bound = λ j h. ground (arith, k.exists, v.free_bound j, member-cons j i free);
    room = v.room;
  }

  -- A used frame leaves the table and the list.
  pub drop-IsCore :
      (i : ℕ)
      → member i used ≡ true
      → IsCore t frame numbpage used free
      → IsCore (Hash.delete (frame i).fd (frame i).page t).1 frame numbpage (remove i used) free
        × IsTaken i numbpage (remove i used) free
  drop-IsCore i m v = (
    record {
      is_map = delete-IsMap (frame i).fd (frame i).page t v.is_map;
      found_used = λ fd page j h. ground (
        arith,
        find-delete (frame i).fd (frame i).page fd page t v.is_map,
        v.found_used fd page j,
        v.found_fd fd page j,
        v.found_page fd page j,
        member-remove j i used,
      );
      found_fd = λ fd page j h.
          ground (
            arith,
            find-delete (frame i).fd (frame i).page fd page t v.is_map,
            v.found_fd fd page j,
          );
      found_page = λ fd page j h. ground (
        arith,
        find-delete (frame i).fd (frame i).page fd page t v.is_map,
        v.found_page fd page j,
      );
      listed = λ j h. ground (
        arith,
        find-delete (frame i).fd (frame i).page (frame j).fd (frame j).page t v.is_map,
        v.listed j,
        v.listed i m,
        member-remove j i used,
      );
      used_distinct = distinct-remove i used v.used_distinct;
      free_distinct = v.free_distinct;
      apart = λ j h. ground (arith, v.apart j h, member-remove j i used);
      used_bound = λ j h. ground (arith, v.used_bound j, member-remove j i used);
      free_bound = v.free_bound;
      room = v.room;
    },
    record {
      not_used = ground (arith, member-remove i i used);
      not_free = ground (arith, Bool-cases (member i free), v.apart i);
      exists = v.used_bound i m;
    },
  )

  -- A frame in no list is entered under its key, and becomes the head of the list.
  pub enter-IsCore :
      (i fd page : ℕ)
      → IsTaken i numbpage used free
      → Hash.find t fd page ≡ none
      → (frame i).fd ≡ fd
      → (frame i).page ≡ page
      → IsCore t frame numbpage used free
      → IsCore (Hash.insert true fd page i t).1 frame numbpage (i ∷ used) free
  enter-IsCore i fd page k n p q v = record {
    is_map = insert-IsMap true fd page i t v.is_map;
    found_used = λ fd' page' j h. ground (
      arith,
      find-insert fd page i fd' page' t n,
      v.found_used fd' page' j,
      member-cons j i used,
    );
    found_fd = λ fd' page' j h.
        ground (arith, find-insert fd page i fd' page' t n, v.found_fd fd' page' j);
    found_page = λ fd' page' j h.
        ground (arith, find-insert fd page i fd' page' t n, v.found_page fd' page' j);
    listed = λ j h. ground (
      arith,
      find-insert fd page i (frame j).fd (frame j).page t n,
      v.listed j,
      member-cons j i used,
    );
    used_distinct = rw distinct-cons (ground (arith, k.not_used, v.used_distinct));
    free_distinct = v.free_distinct;
    apart = λ j h. ground (arith, k.not_free, v.apart j h, member-cons j i used);
    used_bound = λ j h. ground (arith, k.exists, v.used_bound j, member-cons j i used);
    free_bound = v.free_bound;
    room = v.room;
  }

  -- A used frame becomes the head of the list.
  pub to_head-IsCore :
      (i : ℕ)
      → member i used ≡ true
      → IsCore t frame numbpage used free
      → IsCore t frame numbpage (i ∷ remove i used) free
  to_head-IsCore i m v = record {
    is_map = v.is_map;
    found_used = λ fd page j h.
        ground (
          arith,
          v.found_used fd page j h,
          member-cons j i (remove i used),
          member-remove j i used,
        );
    found_fd = v.found_fd;
    found_page = v.found_page;
    listed =
        λ j h. ground (arith, v.listed j, member-cons j i (remove i used), member-remove j i used);
    used_distinct =
        rw distinct-cons
          (ground (arith, member-remove i i used, distinct-remove i used v.used_distinct));
    free_distinct = v.free_distinct;
    apart = λ j h.
        ground
          (arith, v.apart j h, v.apart i, member-cons j i (remove i used), member-remove j i used);
    used_bound = λ j h.
        ground (arith, v.used_bound j, member-cons j i (remove i used), member-remove j i used);
    free_bound = v.free_bound;
    room = v.room;
  }
