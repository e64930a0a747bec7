-- ===== src/Am.antt =====
-- amlayer/am.h: the index pages of a B+ tree, and AM_Compare of amlayer/amsearch.c. A leaf has a
-- header of 24 bytes, then its keys, each with the offset of its list of record numbers; the cells of
-- these lists stand at the end of the page. An internal node has a header of 8 bytes, then a page
-- number, and a key and a page number for each key. A local copy of a header is the bytes of the
-- struct, so the two bcopy() of a header copy its bytes. The shorts of a header are not negative.
pub mod Search
pub mod Leaf
pub mod Node
pub mod Tree
pub mod Bulk
mod Tests
use database_assignment.Prelude.{ℕ, ◌+◌, ◌-◌, ◌*◌, Bool, if◌then◌else◌}
use database_assignment.Words.{Bytes, load, slt}
use database_assignment.Words.Short.{load16}

-- sizeof(AM_LEAFHEADER) and sizeof(AM_INTHEADER)
abbrev pub leaf_header : ℕ
leaf_header = 24

abbrev pub int_header : ℕ
int_header = 8

-- the size of a cell of a list: a record number and the offset of the next cell
abbrev pub cell_size : ℕ
cell_size = 6

-- the offsets of the fields of AM_LEAFHEADER
abbrev pub next_leaf_at : ℕ
next_leaf_at = 4

abbrev pub rec_id_ptr_at : ℕ
rec_id_ptr_at = 8

abbrev pub key_ptr_at : ℕ
key_ptr_at = 10

abbrev pub free_list_at : ℕ
free_list_at = 12

abbrev pub num_free_at : ℕ
num_free_at = 14

abbrev pub attr_length_at : ℕ
attr_length_at = 16

abbrev pub num_keys_at : ℕ
num_keys_at = 18

abbrev pub max_keys_at : ℕ
max_keys_at = 20

-- and of AM_INTHEADER
abbrev pub int_num_keys_at : ℕ
int_num_keys_at = 2

abbrev pub int_max_keys_at : ℕ
int_max_keys_at = 4

abbrev pub int_attr_length_at : ℕ
int_attr_length_at = 6

-- The fields of the header of a leaf that the routines read
abbrev pub rec_id_ptr : Bytes → ℕ
rec_id_ptr h = load16 h rec_id_ptr_at

abbrev pub key_ptr : Bytes → ℕ
key_ptr h = load16 h key_ptr_at

abbrev pub free_list : Bytes → ℕ
free_list h = load16 h free_list_at

abbrev pub num_free : Bytes → ℕ
num_free h = load16 h num_free_at

abbrev pub attr_length : Bytes → ℕ
attr_length h = load16 h attr_length_at

abbrev pub num_keys : Bytes → ℕ
num_keys h = load16 h num_keys_at

-- the key number `i`, from 1 on, in a leaf with attributes of `len` bytes, and its list
abbrev pub key_at : ℕ → ℕ → ℕ
key_at len i = leaf_header + (i - 1) * (len + 2)

abbrev pub head_at : ℕ → ℕ → ℕ
head_at len i = leaf_header + (i - 1) * (len + 2) + len

-- the key number `i`, from 1 on, in an internal node, and the page number behind the key `i`
abbrev pub int_key_at : ℕ → ℕ → ℕ
int_key_at len i = int_header + 4 + (i - 1) * (len + 4)

abbrev pub child_at : ℕ → ℕ → ℕ
child_at len i = int_header + i * (len + 4)

-- the attribute types 'i', 'f' and 'c'
pub data AttrType : Type 0 where
  int_attr float_attr char_attr : AttrType

-- A value is below, equal to or above a key.
pub data Order : Type 0 where
  below equal above : Order

-- What AM_Compare uses of C: the comparison of two `float`, given by their bits, and the sign of
-- strncmp().
pub record Libc : Type 0 where
  pub float_less : ℕ → ℕ → Bool
  pub strncmp : Bytes → Bytes → ℕ → Order

-- the bytes from a pointer on
abbrev pub from_ptr : Bytes → ℕ → Bytes
from_ptr p a x = p (a + x)

-- the two tests of a case of AM_Compare
abbrev pub order_by : (ℕ → ℕ → Bool) → ℕ → ℕ → Order
order_by less v k = if less v k then below else if less k v then above else equal

-- AM_Compare of the key at offset `a` of a page with `value`
unfoldable pub compare : Libc → AttrType → ℕ → Bytes → ℕ → Bytes → Order
compare libc int_attr len p a value = order_by slt (load value 0) (load p a)
compare libc float_attr len p a value = order_by libc.float_less (load value 0) (load p a)
compare libc char_attr len p a value = libc.strncmp value (from_ptr p a) len
