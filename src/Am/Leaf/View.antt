-- ===== src/Am/Leaf/View.antt =====
-- What a well-formed leaf of amlayer/ holds: for each key a list of cells, and the free cells. The list
-- number 0 is the free list, the list number `i` the one of the key `i`.
use database_assignment.Prelude.{
  ℕ, ◌+◌, ◌-◌, ◌%◌, ◌≤◌, ◌<◌, ◌≡◌, ◌≢◌, ◌⊎◌, refl, true, List, [], ◌∷◌, map, arith, length, member,
  member-cons, distinct,
}
use database_assignment.Words.{Bytes, load}
use database_assignment.Words.Short.{short, load16}
use database_assignment.Sp.{page_size}
use database_assignment.Sp.Records.{bytes_of}
use database_assignment.Am.{
  cell_size, rec_id_ptr, key_ptr, free_list, num_free, attr_length, key_at, head_at,
}

-- From the offset `ptr` the cells `cs` are linked, and the last one ends the list.
abbrev pub Chain : Bytes → ℕ → List ℕ → Type 0
Chain p ptr [] = ptr ≡ 0
Chain p ptr (c ∷ cs) = (ptr ≡ c) × (0 < c) × Chain p (load16 p (c + 4)) cs

-- A cell stands behind `low`, at a whole number of cells before the end of the page.
abbrev pub IsCell : ℕ → ℕ → Type 0
IsCell low c = (low ≤ c) × (c + cell_size ≤ page_size) × ((page_size - c) % cell_size ≡ 0)

pub record IsBody (len : ℕ) (p : Bytes) (rec key free count n : ℕ) (lists : ℕ → List ℕ)
    : Type 0 where
  pub keys : key ≡ key_at len (n + 1)
  pub gap : key ≤ rec
  pub top : rec ≤ page_size
  pub aligned : (page_size - rec) % cell_size ≡ 0
  pub chain : (i : ℕ) → 1 ≤ i → i ≤ n → Chain p (load16 p (head_at len i)) (lists i)
  pub free_chain : Chain p free (lists 0)
  pub cell : (i c : ℕ) → i ≤ n → member c (lists i) ≡ true → IsCell rec c
  pub alone :
      (i j c : ℕ) → i ≤ n → j ≤ n → member c (lists i) ≡ true → member c (lists j) ≡ true → i ≡ j
  pub once : (i : ℕ) → i ≤ n → distinct (lists i) ≡ true
  pub counted : count ≡ length (lists 0)
  pub few : count < short

-- The page `p` with the local header `h` is a well-formed leaf with `n` keys, for attributes of `len`
-- bytes.
pub record IsLeaf (len : ℕ) (p h : Bytes) (n : ℕ) (lists : ℕ → List ℕ) : Type 0 where
  pub attr : attr_length h ≡ len
  pub body : IsBody len p (rec_id_ptr h) (key_ptr h) (free_list h) (num_free h) n lists

-- The abstract view: the bytes of the key `i`, and its record numbers
abbrev pub entry : ℕ → Bytes → (ℕ → List ℕ) → ℕ → List ℕ × List ℕ
entry len p lists i = (bytes_of p (key_at len i) len, map (load p) (lists i))

-- the keys stand in order, one behind the other
pub key_at-lt : (len i j : ℕ) → 1 ≤ i → i < j → key_at len i + (len + 2) ≤ key_at len j
key_at-lt len i j h l = grind arith

-- Two cells do not overlap.
pub cells_apart : (low c d : ℕ) → IsCell low c → IsCell low d → c ≢ d → (c + 6 ≤ d) ⊎ (d + 6 ≤ c)
cells_apart low c d a b h = omega arith

pub Chain-congr :
    (p q : Bytes) (ptr : ℕ) (cs : List ℕ)
    → ((c : ℕ) → member c cs ≡ true → load16 q (c + 4) ≡ load16 p (c + 4))
    → Chain p ptr cs
    → Chain q ptr cs
Chain-congr p q ptr [] h l = l
Chain-congr p q ptr (c ∷ cs) h (a, b, l) =
    let e : load16 q (c + 4) ≡ load16 p (c + 4) = h c (ground (arith, member-cons c c cs)) in
    (
      a,
      b,
      rw e (
          Chain-congr p q (load16 p (c + 4)) cs (λ d m. h d (ground (arith, member-cons d c cs)))
            l),
    )

pub records-congr :
    (p q : Bytes) (cs : List ℕ)
    → ((c : ℕ) → member c cs ≡ true → load q c ≡ load p c)
    → map (load q) cs ≡ map (load p) cs
records-congr p q [] h = refl
records-congr p q (c ∷ cs) h =
    let e : load q c ≡ load p c = h c (ground (arith, member-cons c c cs)) in
    rw (e, records-congr p q cs (λ d m. h d (ground (arith, member-cons d c cs))))
