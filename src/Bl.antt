-- ===== src/Bl.antt =====
-- bulklayer/: a static B+ tree of integers over the paged files, built from sorted pairs. These are the
-- routines on the bytes of a page (bulklayer/blinternal.h, and parts of blsearch.c, blscan.c and
-- blbulk.c). A leaf has a header of 16 bytes, an array of keys and one of values; an internal page has
-- a header of 12 bytes, an array of keys and one of page numbers. An `int` is kept as its bit pattern.
pub mod Files
pub mod Find
pub mod Scan
pub mod Load
pub mod Search
mod Tests
pub mod Choose
pub mod Levels
pub mod Leaf
use database_assignment.Prelude.{
  ℕ, zero, suc, ◌+◌, ◌-◌, ◌*◌, ◌/◌, Bool, true, false, not, Option, some, none, ltb, ◌==◌, ◌||◌,
  if◌then◌else◌,
}
use database_assignment.Words.{Bytes, load, store, slt, half_word, minus_one}
use database_assignment.Result.{Result, ok, err, held, halt, Call}
use database_assignment.Pf.{Pf}
use database_assignment.Sp.{page_size}

-- the offsets of the fields of BL_HeaderPage
abbrev pub root_page_at : ℕ
root_page_at = 0

abbrev pub first_leaf_at : ℕ
first_leaf_at = 4

abbrev pub num_levels_at : ℕ
num_levels_at = 8

abbrev pub num_records_at : ℕ
num_records_at = 12

abbrev pub key_type_at : ℕ
key_type_at = 16

abbrev pub key_length_at : ℕ
key_length_at = 20

-- of BL_LeafHeader and BL_InternalHeader
abbrev pub page_type_at : ℕ
page_type_at = 0

abbrev pub num_keys_at : ℕ
num_keys_at = 4

abbrev pub prev_page_at : ℕ
prev_page_at = 8

abbrev pub next_page_at : ℕ
next_page_at = 12

abbrev pub level_at : ℕ
level_at = 8

-- BL_LEAF_PAGE and BL_INTERNAL_PAGE
abbrev pub leaf_page : ℕ
leaf_page = 1

abbrev pub internal_page : ℕ
internal_page = 2

-- the sizes of the two headers
abbrev pub leaf_header : ℕ
leaf_header = 16

abbrev pub internal_header : ℕ
internal_header = 12

-- BL_MAX_LEAF_ENTRIES and BL_MAX_INTERNAL_ENTRIES
abbrev pub max_leaf_entries : ℕ
max_leaf_entries = (page_size - leaf_header) / 8

abbrev pub max_internal_entries : ℕ
max_internal_entries = (page_size - internal_header) / 8

-- the elements of BL_LEAF_KEYS, BL_LEAF_VALUES, BL_INTERNAL_KEYS and BL_INTERNAL_PTRS
abbrev pub leaf_key : Bytes → ℕ → ℕ
leaf_key p i = load p (leaf_header + 4 * i)

abbrev pub leaf_value : Bytes → ℕ → ℕ
leaf_value p i = load p (leaf_header + 4 * max_leaf_entries + 4 * i)

abbrev pub internal_key : Bytes → ℕ → ℕ
internal_key p i = load p (internal_header + 4 * i)

abbrev pub internal_ptr : Bytes → ℕ → ℕ
internal_ptr p i = load p (internal_header + 4 * max_internal_entries + 4 * i)

-- the comparison operators BL_EQ, …, BL_NE
abbrev pub op_eq : ℕ
op_eq = 1

abbrev pub op_lt : ℕ
op_lt = 2

abbrev pub op_gt : ℕ
op_gt = 3

abbrev pub op_le : ℕ
op_le = 4

abbrev pub op_ge : ℕ
op_ge = 5

abbrev pub op_ne : ℕ
op_ne = 6

-- sc of blscan.c
unfoldable pub sc : ℕ → ℕ → ℕ → Bool
sc k o s =
    if o == op_eq
    then k == s
    else if o == op_lt
    then slt k s
    else if o == op_gt
    then slt s k
    else if o == op_le
    then not (slt s k)
    else if o == op_ge
    then not (slt k s)
    else if o == op_ne
    then not (k == s)
    else false

-- The loop of `bs` of blsearch.c on the elements from `l` to `hi` - 1, with a bound on the rounds: the
-- index, and whether the key is there. `hi` is the variable r of the code plus one.
unfoldable pub bs_loop : ℕ → (ℕ → ℕ) → ℕ → ℕ → ℕ → ℕ × Bool
bs_loop zero k s l hi = (l, false)
bs_loop (suc fuel) k s l hi =
    let m = (l + (hi - 1)) / 2 in
    let is_less = slt (k m) s in
    let rest = bs_loop fuel k s (if is_less then m + 1 else l) (if is_less then hi else m) in
    if ltb l hi then (if k m == s then (m, true) else rest) else (l, false)

-- bs
unfoldable pub bs : (ℕ → ℕ) → ℕ → ℕ → ℕ × Bool
unfolding bs_loop
bs k n s = bs_loop n k s 0 n

-- the elements that a loop over `n` keys sees, where `n` is an `int`
abbrev pub key_count : ℕ → ℕ
key_count n = if ltb n half_word then n else 0

-- What BL_Search does on a leaf: the value. With more keys than the arrays hold, it reads outside.
unfoldable pub find_in_leaf : Bytes → ℕ → Option (Option ℕ)
unfolding bs
find_in_leaf p k =
    let n = key_count (load p num_keys_at) in
    let r = bs (leaf_key p) n k in
    if ltb max_leaf_entries n then none else some (if r.1 then some (leaf_value p r.0) else none)

-- and on an internal page: the next page. With no key at all it reads outside of the array.
unfoldable pub choose_child : Bytes → ℕ → Option ℕ
unfolding bs
choose_child p k =
    let n = key_count (load p num_keys_at) in
    let r = bs (internal_key p) n k in
    if ltb max_internal_entries n || (n == 0)
    then none
    else some (internal_ptr p (if ltb r.0 n then r.0 else n - 1))

-- What a routine of the layer returns: BL_OK with the out parameters, BL_ERROR, BL_EOF, BL_KEYNOTFOUND.
-- The program may also end or do what C does not define; `running` is a loop whose bound is used up.
pub data BlReply (A : Type 0) : Type 0 where
  bl_ok : A → BlReply A
  bl_error bl_eof key_not_found exited undefined running : BlReply A

abbrev pub Routine : Type 0 → Type 0 → Type 0
Routine W A = Pf W → BlReply A × Pf W

module _ {W : Type 0} where
  abbrev pub then_do : {A B : Type 0} → (A → Routine W B) → BlReply A × Pf W → BlReply B × Pf W
  then_do f (bl_ok a, s) = f a s
  then_do f (bl_error, s) = (bl_error, s)
  then_do f (bl_eof, s) = (bl_eof, s)
  then_do f (key_not_found, s) = (key_not_found, s)
  then_do f (exited, s) = (exited, s)
  then_do f (undefined, s) = (undefined, s)
  then_do f (running, s) = (running, s)

  abbrev pub give : {A : Type 0} → A → Routine W A
  give a s = (bl_ok a, s)

  -- a call whose error makes the routine return BL_ERROR
  abbrev pub or_error : {A : Type 0} → Result A × Pf W → BlReply A × Pf W
  or_error (ok a, s) = (bl_ok a, s)
  or_error (err e, s) = (bl_error, s)
  or_error (held a, s) = (bl_error, s)
  or_error (halt, s) = (exited, s)

  abbrev pub call : {A : Type 0} → Call (Pf W) A → Routine W A
  call m s = or_error (m s)

  -- a call whose answer is not looked at
  abbrev pub and_go_on : {A : Type 0} → Result A × Pf W → BlReply (Unit {0}) × Pf W
  and_go_on (halt, s) = (exited, s)
  and_go_on (_, s) = (bl_ok tt, s)

  abbrev pub call_only : {A : Type 0} → Call (Pf W) A → Routine W (Unit {0})
  call_only m s = and_go_on (m s)

infixl 5 ◌>>=◌ ◌>>◌
abbrev pub ◌>>=◌ : {W A B : Type 0} → Routine W A → (A → Routine W B) → Routine W B
◌>>=◌ m f s = then_do f (m s)

abbrev pub ◌>>◌ : {W B : Type 0} → Routine W (Unit {0}) → Routine W B → Routine W B
m >> k = m >>= λ _. k
