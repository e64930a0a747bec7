-- ===== src/Am/Leaf.antt =====
-- amlayer/aminsert.c: insertion into a leaf, and its compaction. A routine takes the bytes of a page
-- and of a local header, and returns both. Sizes are `size_t`, so some tests are made on unsigned
-- 64-bit integers.
pub mod View
pub mod Link
pub mod Take
pub mod Found
pub mod Shift
pub mod Opened
pub mod Insert
pub mod Refines
pub mod Finds
pub mod Unlink
pub mod Compacts
pub mod Compacted
pub mod Repacked
pub mod Replaced
mod Tests
pub mod Runs
pub mod Counts
pub mod Packs
pub mod Undone
pub mod Removed
pub mod Deletes
pub mod Closed
pub mod Shared
pub mod Freed
use database_assignment.Prelude.{
  ℕ, zero, suc, ◌+◌, ◌-◌, ◌*◌, ◌%◌, Bool, true, false, ltb, ◌==◌, if◌then◌else◌,
}
use database_assignment.Words.{Bytes, load, store, copy}
use database_assignment.Words.Short.{load16, store16, add16, sub16}
use database_assignment.Sp.{page_size}
use database_assignment.Am.{
  leaf_header, cell_size, rec_id_ptr_at, key_ptr_at, free_list_at, num_free_at, num_keys_at,
  rec_id_ptr, key_ptr, free_list, num_free, attr_length, num_keys, key_at, head_at,
}

-- a page and a header
abbrev pub Leaf : Type 0
Leaf = Bytes × Bytes

-- a subtraction of `size_t`
abbrev pub sub64 : ℕ → ℕ → ℕ
sub64 a b = (a + (0x1_0000_0000_0000_0000 - b)) % 0x1_0000_0000_0000_0000

-- the free bytes between the keys and the lists
abbrev pub middle : Bytes → ℕ
middle h = sub64 (rec_id_ptr h) (key_ptr h)

-- The cell that AM_InsertToLeafFound takes, and the header afterwards.
unfoldable pub take_cell : Leaf → ℕ × Bytes
take_cell (p, h) =
    if free_list h == 0
    then (sub16 (rec_id_ptr h) cell_size, store16 rec_id_ptr_at (sub16 (rec_id_ptr h) cell_size) h)
    else (
      free_list h,
      store16 free_list_at (load16 p (free_list h + 4))
          (store16 num_free_at (sub16 (num_free h) 1) h),
    )

-- AM_InsertToLeafFound: the cell `c` becomes the head of the list of the key `index`.
unfoldable pub link_cell : ℕ → ℕ → ℕ → ℕ → Bytes → Bytes
link_cell len c rec_id index p =
    let oldhead = load16 p (head_at len index) in
    store16 (c + 4) oldhead (store c rec_id (store16 (head_at len index) c p))

unfoldable pub insert_found : ℕ → ℕ → Leaf → Leaf
unfolding take_cell link_cell
insert_found rec_id index (p, h) =
    let (c, h') = take_cell (p, h) in (link_cell (attr_length h) c rec_id index p, h')

-- the loop of AM_InsertToLeafNotFound: the keys from `index + k - 1` down to `index` move up by one
unfoldable pub shift_up : ℕ → ℕ → ℕ → Bytes → Bytes
shift_up len index zero p = p
shift_up len index (suc k) p =
    shift_up len index k (copy (key_at len (index + k + 1)) p (key_at len (index + k)) (len + 2) p)

-- the new key, with an empty list
unfoldable pub put_key : ℕ → Bytes → ℕ → Bytes → Bytes
put_key len value index p = store16 (head_at len index) 0 (copy (key_at len index) value 0 len p)

-- AM_InsertToLeafNotFound
unfoldable pub insert_not_found : Bytes → ℕ → ℕ → Leaf → Leaf
unfolding shift_up put_key insert_found
insert_not_found value rec_id index (p, h) =
    let len = attr_length h in
    let shifted = shift_up len index (num_keys h + 1 - index) p in
    insert_found rec_id index
      (put_key len value index shifted, store16 key_ptr_at (add16 (key_ptr h) (len + 2)) h)

-- What the loops of AM_Compact change: tempPage and recIdPtr.
pub record Packing : Type 0 where
  pub temp : Bytes
  pub ptr : ℕ

-- the inner loop over the list from `next` on, with a bound on the rounds, and the end of the list
unfoldable pub pack_list : ℕ → Bytes → ℕ → Packing → Packing
pack_list zero p next c = c
pack_list (suc k) p next c =
    let temp = copy c.ptr p next 4 c.temp in
    let ptr = sub16 c.ptr cell_size in
    let rest =
      pack_list k p (load16 p (next + 4))
        (record { temp = store16 (ptr + 10) ptr temp; ptr = ptr }) in
    if next == 0 then record c { temp = store16 (c.ptr + 10) 0 c.temp } else rest

-- the body of the outer loop: the key `i` of the page becomes the key `j` of tempPage
unfoldable pub pack_key : ℕ → Bytes → ℕ → ℕ → Packing → Packing
unfolding pack_list
pack_key len p i j c =
    let temp = copy (key_at len j) p (key_at len i) len c.temp in
    pack_list (page_size + 1) p (load16 p (head_at len i))
      (record c { temp = store16 (head_at len j) c.ptr temp })

-- the keys low, low + 1, … , of which there are `k`
unfoldable pub pack_keys : ℕ → Bytes → ℕ → ℕ → Packing → Packing
unfolding pack_key
pack_keys len p low zero c = c
pack_keys len p low (suc k) c = pack_key len p (low + k) (suc k) (pack_keys len p low k c)

-- AM_Compact of the keys `low` to `high` into `temp`; it copies one key at least.
unfoldable pub compact : ℕ → ℕ → Bytes → Bytes → Bytes → Bytes
unfolding pack_keys
compact low high p temp h =
    let len = attr_length h in
    let n = high + 1 - low in
    let c = pack_keys len p low n (record { temp = temp; ptr = page_size - cell_size }) in
    let h₁ = store16 rec_id_ptr_at (add16 c.ptr cell_size) h in
    let h₂ = store16 key_ptr_at (key_at len (n + 1)) h₁ in
    let h₃ = store16 num_free_at 0 (store16 free_list_at 0 h₂) in
    copy 0 (store16 num_keys_at n h₃) 0 leaf_header c.temp

-- bcopy(header, pageBuf, AM_sl)
abbrev pub put_header : Leaf → Bytes
put_header (p, h) = copy 0 h 0 leaf_header p

-- a new key: AM_InsertToLeafNotFound, numKeys++, and the header goes back
unfoldable pub insert_new_key : Bytes → ℕ → ℕ → Leaf → Bytes
unfolding insert_not_found
insert_new_key value rec_id index l =
    let (p, h) = insert_not_found value rec_id index l in
    put_header (p, store16 num_keys_at (add16 (num_keys h) 1) h)

-- AM_InsertintoLeaf for a key that is there
unfoldable pub insert_old : ℕ → ℕ → Leaf → Bool × Bytes
unfolding insert_found
insert_old rec_id index (p, h) =
    if (if free_list h == 0 then ltb (middle h) cell_size else false)
    then (false, p)
    else (true, put_header (insert_found rec_id index (p, h)))

-- AM_InsertintoLeaf for a new key; `temp` is what tempPage holds before.
unfoldable pub insert_new : Bytes → ℕ → Bytes → ℕ → ℕ → Leaf → Bool × Bytes
unfolding insert_new_key compact
insert_new temp len value rec_id index (p, h) =
    if free_list h == 0
    then if ltb (middle h) (cell_size + (len + 2))
      then (false, p)
      else (true, insert_new_key value rec_id index (p, h))
    else if ltb (key_ptr h + (len + 2)) (rec_id_ptr h)
    then (true, insert_new_key value rec_id index (p, h))
    else if ltb (len + 2 + cell_size) (sub64 (num_free h * cell_size + rec_id_ptr h) (key_ptr h))
    then (let q = copy 0 (compact 1 (num_keys h) p temp h) 0 page_size p in
        (true, insert_new_key value rec_id index (q, q)))
    else (false, p)

-- AM_InsertintoLeaf: whether there was room, and the page
unfoldable pub insert_into_leaf : Bytes → ℕ → Bytes → ℕ → ℕ → Bool → Bytes → Bool × Bytes
unfolding insert_old insert_new
insert_into_leaf temp len value rec_id index status p =
    if status then insert_old rec_id index (p, p) else insert_new temp len value rec_id index (p, p)
