-- ===== src/Am/Node/Divide.antt =====
-- AM_SplitIntNode of amlayer/am.c as a whole.
use database_assignment.Prelude.{ℕ, ◌+◌, ◌*◌, ◌/◌, ◌≤◌, ◌<◌, ◌≡◌, sym, ◌∙◌, List, arith}
use database_assignment.Words.{Bytes, word, load, copy, copy-start}
use database_assignment.Words.Short.{short, store16, load16-store16, load16-congr}
use database_assignment.Sp.Records.{bytes_of}
use database_assignment.Am.{int_header, int_max_keys_at, int_attr_length_at}
use database_assignment.Am.Leaf.Opened.{opened}
use database_assignment.Am.Node.{
  int_num_keys, int_max_keys, int_attr_length, put_byte, fill_header, spread, split_int_node,
}
use database_assignment.Am.Node.Entries.{node_entry}
use database_assignment.Am.Node.Split.{mul_add, half-entry, half-first, half-behind, middle-bytes}

-- the number of keys in a page with a filled header
filled_lem :
    (junk : Bytes) (type len max count : ℕ) (p : Bytes)
    → count < short
    → int_num_keys (copy 0 (fill_header junk type len max count) 0 int_header p) ≡ count
filled_lem junk type len max count p h =
    let k = fill_header junk type len max count in
    load16-congr (copy 0 k 0 int_header p) k 2 2 (copy-start k int_header p 2 (omega arith))
      (copy-start k int_header p 3 (omega arith))
    ∙ load16-store16 2 count
        (store16 int_max_keys_at max (store16 int_attr_length_at len (put_byte 0 type junk))) h

-- A page is a node whose page number in front is `front`, with the entries `es 1`, …, `es count`.
abbrev pub IsNode : ℕ → ℕ → ℕ → (ℕ → List ℕ × ℕ) → Bytes → Type 0
IsNode len count front es p =
    (int_num_keys p ≡ count)
    × (load p int_header ≡ front)
    × ((i : ℕ) → 1 ≤ i → i ≤ count → node_entry len p i ≡ es i)

-- the entries of a node with a new one behind the place `offset`
abbrev pub with_child : Bytes → Bytes → ℕ → ℕ → Bytes → ℕ → List ℕ × ℕ
with_child h value child offset p =
    opened (offset + 1) (bytes_of value 0 (int_attr_length h), child)
      (node_entry (int_attr_length h) p)

-- AM_SplitIntNode of a node whose largest number of keys is even and below 2 ^ 16, with a new key
-- and page number at an offset up to that number: with the new ones among the keys and page
-- numbers of the node, the first half has the first page number and the first half of the keys
-- with the page numbers behind them, the key in the middle goes back to the caller, and the second
-- half has the page number behind that key and the rest of the keys.
pub split_int_node_lem :
    (junk junk_header buf1 buf2 value : Bytes) (child offset middle : ℕ) (p h : Bytes)
    → child < word
    → int_max_keys h ≡ middle + middle
    → offset ≤ int_max_keys h
    → int_max_keys h < short
    → IsNode
        (int_attr_length h)
        middle
        (load p int_header)
        (with_child h value child offset p)
        (split_int_node junk junk_header buf1 buf2 value child offset (p, h)).first
      × IsNode
          (int_attr_length h)
          middle
          (with_child h value child offset p (middle + 1)).1
          (λ i. with_child h value child offset p (middle + 1 + i))
          (split_int_node junk junk_header buf1 buf2 value child offset (p, h)).second
      × (bytes_of
            (split_int_node junk junk_header buf1 buf2 value child offset (p, h)).middle_key
            0
            (int_attr_length h)
          ≡ (with_child h value child offset p (middle + 1)).0)
unfolding split_int_node
split_int_node_lem junk junk_header buf1 buf2 value child offset middle p h small even within few =
    let len = int_attr_length h in
    let n = int_max_keys h in
    let e : n / 2 ≡ middle = omega arith in
    let next_lem : (middle + 1) * (len + 4) ≡ 4 + middle * (len + 4) + len =
      omega (arith, mul_add middle 1 (len + 4)) in
    let k = fill_header junk_header (h 0) len n middle in
    let temp = spread len n value child offset p junk in
    let length2 : ℕ = 4 + middle * (len + 4) in
    rw e (
      (
        filled_lem junk_header (h 0) len n middle (copy int_header temp 0 length2 buf1)
            (omega arith),
        (half-first len value child offset n p junk small within k middle buf1 (omega arith)),
        λ i a b.
            (let z : 0 + i ≡ i = omega arith in
              rw z at (
                half-entry len value child offset n p junk small within k 0 0 middle buf1 i
                  (omega arith) (omega arith) a b)),
      ),
      (
        filled_lem junk_header (h 0) len n middle
            (copy int_header temp (length2 + len) length2 buf2) (omega arith),
        half-behind len value child offset n p junk small within k (length2 + len) (middle + 1)
            middle buf2 (sym next_lem) (omega arith) (omega arith),
        λ i a b.
            half-entry len value child offset n p junk small within k (length2 + len) (middle + 1)
              middle buf2 i (sym next_lem) (omega arith) a b,
      ),
      middle-bytes len value child offset n p junk small within middle value (omega arith),
    )
