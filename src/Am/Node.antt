-- ===== src/Am/Node.antt =====
-- amlayer/am.c: the routines on the bytes of an internal node. `junk` is what a local array or a local
-- struct holds before it is filled. The page numbers are not negative, and so are the offsets.
pub mod Entries
pub mod Split
pub mod Divide
use database_assignment.Prelude.{ℕ, zero, suc, ◌+◌, ◌-◌, ◌*◌, ◌/◌, ◌==◌, if◌then◌else◌}
use database_assignment.Words.{Bytes, store, copy}
use database_assignment.Words.Short.{load16, store16, add16}
use database_assignment.Am.{
  int_header, int_num_keys_at, int_max_keys_at, int_attr_length_at, int_key_at, child_at,
}
use database_assignment.Am.Leaf.{Leaf}

-- The fields of the header of an internal node
abbrev pub int_num_keys : Bytes → ℕ
int_num_keys h = load16 h int_num_keys_at

abbrev pub int_max_keys : Bytes → ℕ
int_max_keys h = load16 h int_max_keys_at

abbrev pub int_attr_length : Bytes → ℕ
int_attr_length h = load16 h int_attr_length_at

-- the loop of AM_AddtoIntPage: the keys from `offset + k` down to `offset + 1` move up by one, with the
-- page numbers behind them
unfoldable pub shift_right : ℕ → ℕ → ℕ → Bytes → Bytes
shift_right len offset zero p = p
shift_right len offset (suc k) p =
    shift_right len offset k
      (copy (int_key_at len (offset + k + 2)) p (int_key_at len (offset + k + 1)) (len + 4) p)

-- the new key and the page number behind it
unfoldable pub put_child : ℕ → Bytes → ℕ → ℕ → Bytes → Bytes
put_child len value child offset p =
    store (child_at len (offset + 1)) child (copy (int_key_at len (offset + 1)) value 0 len p)

-- AM_AddtoIntPage
unfoldable pub add_to_int_page : Bytes → ℕ → ℕ → Leaf → Leaf
unfolding shift_right put_child
add_to_int_page value child offset (p, h) =
    let len = int_attr_length h in
    (
      put_child len value child offset (shift_right len offset (int_num_keys h - offset) p),
      store16 int_num_keys_at (add16 (int_num_keys h) 1) h,
    )

abbrev pub put_byte : ℕ → ℕ → Bytes → Bytes
put_byte a b p x = if x == a then b else p x

-- a header that is filled field by field
abbrev pub fill_header : Bytes → ℕ → ℕ → ℕ → ℕ → Bytes
fill_header junk type len max count =
    store16 int_num_keys_at count
      (store16 int_max_keys_at max (store16 int_attr_length_at len (put_byte 0 type junk)))

-- AM_FillRootPage
unfoldable pub fill_root_page : Bytes → ℕ → ℕ → Bytes → ℕ → ℕ → Bytes → Bytes
fill_root_page junk left right value len max p =
    let h = fill_header junk b'i' len max 1 in
    copy 0 h 0 int_header (
      store (int_header + 4 + len) right
        (copy (int_header + 4) value 0 len (store int_header left p)))

-- tempPage of AM_SplitIntNode: the keys and page numbers of the node, with the new ones among them
unfoldable pub spread : ℕ → ℕ → Bytes → ℕ → ℕ → Bytes → Bytes → Bytes
spread len max value child offset p junk =
    let length1 = 4 + offset * (len + 4) in
    let temp₁ = copy length1 value 0 len (copy 0 p int_header length1 junk) in
    copy (length1 + len + 4) p (int_header + length1) ((max - offset) * (len + 4))
      (store (length1 + len) child temp₁)

-- What AM_SplitIntNode writes: the two halves, and the key between them.
pub record Halves : Type 0 where
  pub first : Bytes
  pub second : Bytes
  pub middle_key : Bytes

-- AM_SplitIntNode
unfoldable pub split_int_node : Bytes → Bytes → Bytes → Bytes → Bytes → ℕ → ℕ → Leaf → Halves
unfolding spread
split_int_node junk junk_header buf1 buf2 value child offset (p, h) =
    let len = int_attr_length h in
    let temp = spread len (int_max_keys h) value child offset p junk in
    let length1 = int_max_keys h / 2 in
    let length2 = 4 + length1 * (len + 4) in
    let k = fill_header junk_header (h 0) len (int_max_keys h) length1 in
    record {
      first = copy 0 k 0 int_header (copy int_header temp 0 length2 buf1);
      second = copy 0 k 0 int_header (copy int_header temp (length2 + len) length2 buf2);
      middle_key = copy 0 temp length2 len value;
    }
