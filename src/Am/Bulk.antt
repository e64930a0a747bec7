-- ===== src/Am/Bulk.antt =====
-- am_bulkload.c: the routines that fill the pages of an index from the bottom up, on the bytes of a
-- page. A header is reached through a pointer into the page here, so each assignment to a field
-- changes the page. The array of StudentIndexEntry is given by its bytes, 8 for an entry.
pub mod Load
pub mod Same
mod Tests
pub mod Levels
pub mod Kept
pub mod Yields
pub mod Overwritten
pub mod Nodes
pub mod Filled
use database_assignment.Prelude.{
  ℕ, zero, suc, ◌+◌, ◌-◌, ◌*◌, ◌/◌, Bool, ltb, leb, ◌==◌, ◌||◌, ◌&&◌, if◌then◌else◌,
}
use database_assignment.Words.{Bytes, store, copy, minus_one}
use database_assignment.Words.Short.{store16, add16, sub16}
use database_assignment.Sp.{page_size}
use database_assignment.Am.{
  leaf_header, int_header, cell_size, next_leaf_at, rec_id_ptr_at, key_ptr_at, free_list_at,
  num_free_at, attr_length_at, num_keys_at, max_keys_at, int_num_keys_at, rec_id_ptr, key_ptr,
  attr_length, num_keys,
}
use database_assignment.Am.Node.{put_byte, fill_header, int_num_keys, int_max_keys}

-- the size of a StudentIndexEntry
abbrev pub entry_size : ℕ
entry_size = 8

-- init_leaf_page; `junk` is what the local header holds before.
unfoldable pub init_leaf_page : Bytes → ℕ → Bytes → Bytes
init_leaf_page junk len p =
    let h = store16 rec_id_ptr_at page_size (store next_leaf_at minus_one (put_byte 0 b'l' junk)) in
    let h₁ = store16 num_free_at 0 (store16 free_list_at 0 (store16 key_ptr_at leaf_header h)) in
    let h₂ = store16 num_keys_at 0 (store16 attr_length_at len h₁) in
    let max = (page_size - leaf_header - cell_size) / (len + 2 + cell_size) in
    copy 0 (store16 max_keys_at max h₂) 0 leaf_header p

-- init_int_page
unfoldable pub init_int_page : Bytes → ℕ → ℕ → Bytes → Bytes
init_int_page junk len max p = copy 0 (fill_header junk b'i' len max 0) 0 int_header p

-- simple_leaf_insert
unfoldable pub simple_leaf_insert : Bytes → ℕ → Bytes → Bytes
simple_leaf_insert key packed_rid p =
    let len = attr_length p in
    let at = key_ptr p in
    let p₁ = copy at key 0 len p in
    let p₂ = store16 rec_id_ptr_at (sub16 (rec_id_ptr p₁) cell_size) p₁ in
    let c = rec_id_ptr p₂ in
    let p₃ = store16 (c + 4) 0 (store c packed_rid p₂) in
    let p₄ = store16 (at + attr_length p₃) c p₃ in
    let p₅ = store16 num_keys_at (add16 (num_keys p₄) 1) p₄ in
    store16 key_ptr_at (add16 (key_ptr p₅) (len + 2)) p₅

-- maxLeafKeys of AM_BulkLoad
unfoldable pub max_leaf_keys : ℕ → ℕ
max_leaf_keys len =
    let max = (page_size - leaf_header - cell_size) / (len + 2 + cell_size) in
    let other = (page_size - leaf_header) / (len + 2) in if ltb other max then other else max

-- the test of AM_BulkLoad for a full leaf
unfoldable pub is_full_leaf : ℕ → Bytes → Bool
unfolding max_leaf_keys
is_full_leaf len p =
    leb (max_leaf_keys len) (num_keys p) || ltb (rec_id_ptr p) (key_ptr p + (len + 2 + cell_size))

-- The arrays of one level: the pages, and the entries whose keys separate them.
pub record Level : Type 0 where
  pub count : ℕ
  pub children : ℕ → ℕ
  pub keys : Bytes

-- an assignment to an entry of childPages
abbrev pub put_page : ℕ → ℕ → (ℕ → ℕ) → ℕ → ℕ
put_page i page f j = if i == j then page else f j

-- the body of the loops that fill an internal node: the key `j`, and the page behind it, at an offset
unfoldable pub put_entry : ℕ → Level → ℕ → ℕ → Bytes → Bytes
put_entry len l j at p =
    let q = store (at + len) (l.children (j + 1)) (copy at l.keys (entry_size * j) len p) in
    store16 int_num_keys_at (add16 (int_num_keys q) 1) q

-- the `for` loop of build_internal_levels, with `k` rounds left
unfoldable pub put_entries : ℕ → Level → ℕ → ℕ → ℕ → Bytes → Bytes
unfolding put_entry
put_entries len l j at zero p = p
put_entries len l j at (suc k) p =
    put_entries len l (j + 1) (at + (len + 4)) k (put_entry len l j at p)

-- the page that becomes the root
unfoldable pub fill_root : Bytes → ℕ → ℕ → Level → Bytes → Bytes
unfolding init_int_page put_entries
fill_root junk len max l p =
    put_entries len l 0 (int_header + 4) (l.count - 1)
      (store int_header (l.children 0) (init_int_page junk len max p))

-- the inner `while` loop of build_internal_levels from the child `c` on, with a bound on the rounds:
-- the child at which it ends, and the page
unfoldable pub put_while : ℕ → Level → ℕ → ℕ → ℕ → Bytes → ℕ × Bytes
unfolding put_entry
put_while len l zero c at p = (c, p)
put_while len l (suc k) c at p =
    let rest = put_while len l k (c + 1) (at + (len + 4)) (put_entry len l c at p) in
    if ltb (int_num_keys p) (int_max_keys p) && ltb (c + 1) l.count then rest else (c, p)

-- an internal node with the children from `c` on
unfoldable pub fill_parent : Bytes → ℕ → ℕ → Level → ℕ → Bytes → ℕ × Bytes
unfolding init_int_page put_while
fill_parent junk len max l c p =
    put_while len l l.count c (int_header + 4)
      (store int_header (l.children c) (init_int_page junk len max p))
