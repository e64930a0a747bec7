-- ===== src/Am/Tree/Entries.antt =====
-- amlayer/amfns.c: AM_CreateIndex, AM_DestroyIndex, AM_InsertEntry and AM_DeleteEntry. The type of an
-- attribute is a character, and a value is a pointer that may be NULL. AM_CreateIndex calls PF_OpenFile
-- without its second argument, so the policy is a parameter here.
use Prim.Native.String.{String}
use database_assignment.Prelude.{
  ℕ, zero, suc, ◌+◌, ◌-◌, ◌/◌, ◌%◌, true, false, Option, some, none, [], ltb, ◌==◌, if◌then◌else◌,
}
use database_assignment.Prelude.Int.{ℤ, pos, negsuc}
use database_assignment.Words.{Bytes, load, store, copy, minus_one}
use database_assignment.Words.Short.{load16, store16, add16, sub16}
use database_assignment.Buf.{Memory}
use database_assignment.Result.{Result, halt}
use database_assignment.Pf.{Unix, Pf}
use database_assignment.Pf.Pages.{unfix_page, alloc_page}
use database_assignment.Pf.Files.{create_file, destroy_file, open_file, close_file}
use database_assignment.Sp.{page_size}
use database_assignment.Am.{
  AttrType, int_attr, float_attr, char_attr, Libc, leaf_header, int_header, next_leaf_at,
  rec_id_ptr_at, key_ptr_at, free_list_at, num_free_at, attr_length_at, num_keys_at, max_keys_at,
  key_ptr, free_list, num_free, num_keys, key_at, head_at,
}
use database_assignment.Am.Leaf.{Leaf, insert_into_leaf, put_header}
use database_assignment.Am.Node.{put_byte}
use database_assignment.Am.Tree.{
  invalid_attr_length, invalid_attr_type, bad_file_desc, invalid_value, not_found, Am, Answer,
  am_ok, am_err, ended, undefined, running, Op, to_int, fail, then_do, pf_call, buf, write_buf,
  empty_stack, ◌>>=◌, ◌>>◌,
}
use database_assignment.Am.Tree.Find.{Found, search}
use database_assignment.Am.Tree.Grow.{Junk, change, split_leaf, add_along}

-- 'c', 'i' and 'f'
unfoldable pub attr_type_of : ℕ → Option AttrType
attr_type_of c =
    if c == b'c'
    then some char_attr
    else if c == b'f'
    then some float_attr
    else if c == b'i'
    then some int_attr
    else none

-- the largest even number of keys that an internal node has room for
unfoldable pub max_keys_for : ℕ → ℕ
max_keys_for len =
    let max_keys = (page_size - int_header - 4) / (4 + len) in
    if max_keys % 2 == 0 then max_keys else max_keys - 1

-- the header of an empty leaf
unfoldable pub empty_leaf : Bytes → ℕ → Bytes
unfolding max_keys_for
empty_leaf junk len = store16 max_keys_at (max_keys_for len) (
    store16 num_keys_at 0 (
      store16 attr_length_at len (
        store16 num_free_at 0 (
          store16 free_list_at 0 (
            store16 key_ptr_at leaf_header (
              store16 rec_id_ptr_at page_size
                (store next_leaf_at minus_one (put_byte 0 b'l' junk))))))))

module _ {W : Type 0} where
  -- the answer of a routine of the layer, where an error empties the stack and is kept in AM_Errno
  abbrev pub or_clear : {A : Type 0} → Answer A × Am W → Answer A × Am W
  or_clear (am_ok a, s) = (am_ok a, s)
  or_clear (am_err e, s) = fail e (empty_stack s)
  or_clear (ended, s) = (ended, s)
  or_clear (undefined, s) = (undefined, s)
  or_clear (running, s) = (running, s)

  -- and where an error is only kept in AM_Errno
  abbrev pub or_note : {A : Type 0} → Answer A × Am W → Answer A × Am W
  or_note (am_ok a, s) = (am_ok a, s)
  or_note (am_err e, s) = fail e s
  or_note (ended, s) = (ended, s)
  or_note (undefined, s) = (undefined, s)
  or_note (running, s) = (running, s)

  -- The end of AM_DeleteEntry: the answer of PF_UnfixPage is not looked at.
  abbrev pub finish_delete : Result (Unit {0}) × Pf W → Op W (Unit {0})
  finish_delete (halt, t) s = (ended, record s { pf = t })
  finish_delete (_, t) s = (am_ok tt, record s { pf = t; errno = none; stack = [] })

  -- the parameters of AM_InsertEntry and AM_DeleteEntry
  unfoldable pub check_entry : ℕ → Option Bytes → ℤ → Op W (AttrType × Bytes)
  unfolding attr_type_of
  check_entry type value fd s = elim (attr_type_of type) [
    | none ↦ fail invalid_attr_type s
    | some t ↦ elim value [
      | none ↦ fail invalid_value s
      | some v ↦ elim fd [ negsuc n ↦ fail bad_file_desc s | pos n ↦ (am_ok (t, v), s) ]
    ]
  ]

-- Where the record number stands in the list of AM_DeleteEntry: the offset of the link to its cell, and
-- the cell. `link` is the offset of the link to the cell `next`; there is a bound on the rounds.
unfoldable pub find_cell : ℕ → Bytes → ℕ → ℕ → ℕ → Option (ℕ × ℕ)
find_cell zero p rec_id link next = none
find_cell (suc k) p rec_id link next =
    let rest = find_cell k p rec_id (next + 4) (load16 p (next + 4)) in
    if next == 0 then none else if load p next == rec_id then some (link, next) else rest

-- the cell leaves the list and goes to the front of the free list
unfoldable pub free_cell : ℕ → ℕ → Leaf → Leaf
free_cell link c (p, h) = (
  store16 (c + 4) (free_list h) (store16 link (load16 p (c + 4)) p),
  store16 free_list_at c (store16 num_free_at (add16 (num_free h) 1) h),
)

-- the keys behind `index` move down by one
unfoldable pub shift_down : ℕ → ℕ → ℕ → Bytes → Bytes
shift_down len i zero p = p
shift_down len i (suc k) p =
    shift_down len (i + 1) k (copy (key_at len i) p (key_at len (i + 1)) (len + 2) p)

-- a key with an empty list goes
unfoldable pub drop_key : ℕ → ℕ → Leaf → Leaf
unfolding shift_down
drop_key len index (p, h) =
    if load16 p (head_at len index) == 0
    then (
      shift_down len index (num_keys h - index) p,
      store16 key_ptr_at (sub16 (key_ptr h) (len + 2))
          (store16 num_keys_at (sub16 (num_keys h) 1) h),
    )
    else (p, h)

-- AM_DeleteEntry on the bytes of a leaf: `none` if the record number is not in the list of the key
unfoldable pub delete_in_leaf : ℕ → ℕ → ℕ → Bytes → Option Bytes
unfolding find_cell free_cell drop_key
delete_in_leaf len rec_id index p =
    elim (find_cell (page_size + 1) p rec_id (head_at len index) (load16 p (head_at len index))) [
      | none ↦ none
      | some r ↦ some (put_header (drop_key len index (free_cell r.0 r.1 (p, p))))
    ]

module _ (mem : Memory) (os : Unix) (libc : Libc) (junk : Junk) where
  open os use {World}

  -- AM_CreateIndex on the parameters that it has checked
  unfoldable pub create_checked : String → ℕ → ℕ → Op World (Unit {0})
  unfolding empty_leaf create_file open_file alloc_page unfix_page close_file
  create_checked name policy len = do
    pf_call (create_file os name)
    fd ← pf_call (open_file mem os name policy)
    r ← pf_call (alloc_page mem os (pos fd))
    change r.1 (λ s. copy 0 (empty_leaf junk.header len) 0 leaf_header (buf r.1 s))
    pf_call (unfix_page (pos fd) (to_int r.0) true)
    pf_call (close_file os (pos fd))
    (λ s. (am_ok tt, record s { root = r.0 }))

  -- AM_CreateIndex; `name` is the file name with the number of the index.
  unfoldable pub create_index : String → ℕ → ℕ → ℕ → Op World (Unit {0})
  unfolding attr_type_of create_checked
  create_index name policy type len s = elim (attr_type_of type) [
    | none ↦ fail invalid_attr_type s
    | some t ↦
        if ltb len 1
        then fail invalid_attr_length s
        else if ltb 255 len
        then fail invalid_attr_length s
        else if len == 4
        then create_checked name policy len s
        else elim t [
          | char_attr ↦ create_checked name policy len s
          | _ ↦ fail invalid_attr_length s
        ]
  ]

  -- AM_DestroyIndex
  unfoldable pub destroy_index : String → Op World (Unit {0})
  unfolding destroy_file
  destroy_index name = pf_call (destroy_file os name)

  -- AM_InsertEntry from AM_SplitLeaf on
  unfoldable pub insert_split : ℤ → ℕ → Found → Bytes → ℕ → Op World (Unit {0})
  unfolding split_leaf add_along
  insert_split fd len f value rec_id s =
      then_do
        (λ r t. elim r.0 [
          | true ↦ or_clear (add_along mem os junk fd len t.stack r.1 r.2 t)
          | false ↦ (am_ok tt, t)
        ])
        (or_clear (split_leaf mem os junk fd len f.page f.frame value rec_id f.index f.status s))

  -- AM_InsertEntry on the answer of AM_Search
  unfoldable pub insert_at : ℤ → ℕ → Bytes → ℕ → Found → Op World (Unit {0})
  unfolding insert_split insert_into_leaf unfix_page
  insert_at fd len value rec_id f s =
      let r = insert_into_leaf junk.inner_page len value rec_id f.index f.status (buf f.frame s) in
      (do
        (if r.0
            then (do change f.frame (λ _. r.1); pf_call (unfix_page fd (to_int f.page) true))
            else insert_split fd len f value rec_id)
        (λ t. (am_ok tt, empty_stack t)))
        s

  -- AM_InsertEntry
  unfoldable pub insert_entry : ℤ → ℕ → ℕ → Option Bytes → ℕ → Op World (Unit {0})
  unfolding check_entry search insert_at
  insert_entry fd type len value rec_id = do
    a ← check_entry type value fd
    f ← (λ s. or_clear (search mem os libc a.0 len a.1 fd s))
    insert_at fd len a.1 rec_id f

  -- AM_DeleteEntry on the answer of AM_Search.
  unfoldable pub delete_at : ℤ → ℕ → ℕ → Found → Op World (Unit {0})
  unfolding delete_in_leaf unfix_page
  delete_at fd len rec_id f s =
      if f.status
      then elim (delete_in_leaf len rec_id f.index (buf f.frame s)) [
        | none ↦ fail not_found s
        | some p ↦ finish_delete (unfix_page fd (to_int f.page) true (write_buf f.frame p s).pf) s
      ]
      else fail not_found s

  -- AM_DeleteEntry
  unfoldable pub delete_entry : ℤ → ℕ → ℕ → Option Bytes → ℕ → Op World (Unit {0})
  unfolding check_entry search delete_at
  delete_entry fd type len value rec_id = do
    a ← check_entry type value fd
    f ← (λ s. or_note (search mem os libc a.0 len a.1 fd s))
    delete_at fd len rec_id f
