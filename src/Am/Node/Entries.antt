-- ===== src/Am/Node/Entries.antt =====
-- The keys of an internal node of amlayer/ with the page numbers behind them, before and after the
-- routines of amlayer/am.c.
use database_assignment.Prelude.{
  ℕ, zero, suc, ◌+◌, ◌-◌, ◌*◌, ◌≤◌, ◌<◌, ◌≡◌, ◌⊎◌, inl, inr, refl, ◌∙◌, List, arith, dec_lt,
}
use database_assignment.Words.{
  Bytes, word, load, copy, load-store, load-from, store-above, store-below, copy-outside,
  copy-inside,
}
use database_assignment.Words.Short.{short, add16, load16-store16}
use database_assignment.Words.Move.{move_up, move_up-outside, move_up-inside}
use database_assignment.Sp.Records.{bytes_of, bytes_of-congr}
use database_assignment.Am.{int_header, int_key_at, child_at}
use database_assignment.Am.Leaf.Opened.{opened, place}
use database_assignment.Am.Node.{
  int_num_keys, int_attr_length, shift_right, put_child, add_to_int_page,
}

-- the bytes of the key `i`, and the page number behind it
abbrev pub node_entry : ℕ → Bytes → ℕ → List ℕ × ℕ
node_entry len p i = (bytes_of p (int_key_at len i) len, load p (child_at len i))

pub int_key_at-plus :
    (len i k : ℕ) → int_key_at len (i + 1 + k) ≡ int_key_at len (i + 1) + k * (len + 4)
int_key_at-plus len i k = grind arith

-- the page number stands behind the key
pub child_at-key : (len i : ℕ) → 1 ≤ i → child_at len i ≡ int_key_at len i + len
child_at-key len i h =
    let e : suc (i - 1) * (len + 4) ≡ (i - 1) * (len + 4) + (len + 4) = grind arith in
    let f : suc (i - 1) ≡ i = omega arith in omega (arith, rw f at e)

-- Two pages that agree on the bytes of an entry have the same entry.
pub node_entry-congr :
    (len : ℕ) (p q : Bytes) (i j : ℕ)
    → 1 ≤ i
    → 1 ≤ j
    → ((x : ℕ) → x < len + 4 → p (int_key_at len i + x) ≡ q (int_key_at len j + x))
    → node_entry len p i ≡ node_entry len q j
node_entry-congr len p q i j a b h =
    let e : bytes_of p (int_key_at len i) len ≡ bytes_of q (int_key_at len j) len =
      bytes_of-congr p q (int_key_at len i) (int_key_at len j) len (λ x l. h x (omega arith)) in
    let f : load p (int_key_at len i + len) ≡ load q (int_key_at len j + len) =
      load-from p q (int_key_at len i + len) (int_key_at len j + len) (λ x l.
        let c : int_key_at len i + len + x ≡ int_key_at len i + (len + x) = omega arith in
        let d : int_key_at len j + len + x ≡ int_key_at len j + (len + x) = omega arith in
        rw (c, d) (h (len + x) (omega arith))) in
    rw (child_at-key len i a, child_at-key len j b, e, f) refl

pub int_key_at-lt : (len i j : ℕ) → 1 ≤ i → i < j → int_key_at len i + (len + 4) ≤ int_key_at len j
int_key_at-lt len i j h l = grind arith

pub int_key_at-le : (len i j : ℕ) → 1 ≤ i → i ≤ j → int_key_at len i ≤ int_key_at len j
int_key_at-le len i j h l = elim (dec_lt i j) [
  | yes m ↦ omega (arith, int_key_at-lt len i j h m)
  | no m ↦ (let e : i ≡ j = omega arith in rw e (omega arith))
]

pub int_key_at-step : (len i : ℕ) → 2 ≤ i → int_key_at len i ≡ int_key_at len (i - 1) + (len + 4)
int_key_at-step len i h =
    let e : suc (i - 1 - 1) * (len + 4) ≡ (i - 1 - 1) * (len + 4) + (len + 4) = grind arith in
    let f : suc (i - 1 - 1) ≡ i - 1 = omega arith in omega (arith, rw f at e)

module _ (len : ℕ) (value : Bytes) (child offset n : ℕ) (p : Bytes) (small : child < word)
    (within : offset ≤ n) where
  abbrev pub shifted : Bytes
  shifted = shift_right len offset (n - offset) p

  abbrev pub after : Bytes
  after = put_child len value child offset shifted

  abbrev pub at : ℕ
  at = int_key_at len (offset + 1)

  shift_right-move : (k : ℕ) (q : Bytes) → shift_right len offset k q ≡ move_up (len + 4) at k q
  unfolding shift_right move_up
  shift_right-move zero q = refl
  shift_right-move (suc k) q =
      let e : suc k * (len + 4) ≡ k * (len + 4) + (len + 4) = grind arith in
      let f : offset + k + 2 ≡ offset + 1 + suc k = omega arith in
      let g : offset + k + 1 ≡ offset + 1 + k = omega arith in
      let to : int_key_at len (offset + k + 2) ≡ at + k * (len + 4) + (len + 4) =
        rw f (omega (arith, int_key_at-plus len offset (suc k), e)) in
      let from : int_key_at len (offset + k + 1) ≡ at + k * (len + 4) =
        rw g (int_key_at-plus len offset k) in
      rw (to, from)
        (shift_right-move k
          (copy (at + k * (len + 4) + (len + 4)) q (at + k * (len + 4)) (len + 4) q))

  pub behind_at : child_at len (offset + 1) ≡ at + len
  behind_at = child_at-key len (offset + 1) (omega arith)

  put-outside : (x : ℕ) → (x < at) ⊎ (at + (len + 4) ≤ x) → after x ≡ shifted x
  unfolding put_child
  put-outside x h = elim h [
    | inl l ↦
        store-below (child_at len (offset + 1)) child (copy at value 0 len shifted) x
          (omega (arith, behind_at))
        ∙ copy-outside at value 0 len shifted x (inl l)
    | inr l ↦
        store-above (child_at len (offset + 1)) child (copy at value 0 len shifted) x
          (omega (arith, behind_at))
        ∙ copy-outside at value 0 len shifted x (inr (omega arith))
  ]

  pub low : (x : ℕ) → x < at → after x ≡ p x
  low x h =
      put-outside x (inl h)
      ∙ rw (shift_right-move (n - offset) p)
          (move_up-outside (len + 4) at (n - offset) p x (inl (omega arith)))

  pub limit : at + (n - offset) * (len + 4) ≡ int_key_at len (n + 1)
  limit =
      let e : offset + 1 + (n - offset) ≡ n + 1 = omega arith in
      omega (arith, rw e at (int_key_at-plus len offset (n - offset)))

  pub moved :
      (x : ℕ)
      → at + (len + 4) ≤ x
      → x < int_key_at len (n + 1) + (len + 4)
      → after x ≡ p (x - (len + 4))
  moved x h l =
      put-outside x (inr h)
      ∙ rw (shift_right-move (n - offset) p)
          (move_up-inside (len + 4) at (n - offset) p x h (omega (arith, limit)))

  new_entry : node_entry len after (offset + 1) ≡ (bytes_of value 0 len, child)
  unfolding put_child
  new_entry =
      let e : bytes_of after at len ≡ bytes_of value 0 len =
        bytes_of-congr after value at 0 len (λ x l.
          store-below (child_at len (offset + 1)) child (copy at value 0 len shifted) (at + x)
            (omega (arith, behind_at))
          ∙ copy-inside at value 0 len shifted x l) in
      rw (e, load-store (child_at len (offset + 1)) child (copy at value 0 len shifted) small) refl

  pub put-entry :
      (i : ℕ)
      → 1 ≤ i
      → i ≤ n + 1
      → node_entry len after i
        ≡ opened (offset + 1) (bytes_of value 0 len, child) (node_entry len p) i
  put-entry i a b = elim (place i (offset + 1)) [
    | inl (l, f) ↦
        let below = int_key_at-lt len i (offset + 1) a l in
        rw f (
          node_entry-congr len after p i i a a
            (λ x m. low (int_key_at len i + x) (omega (arith, below))))
    | inr (inl (l, f, g)) ↦ rw (f, g, l) new_entry
    | inr (inr (l, f, g)) ↦
        let step = int_key_at-step len i (omega arith) in
        let above = int_key_at-lt len (offset + 1) i (omega arith) l in
        let top = int_key_at-le len i (n + 1) a b in
        rw (f, g)
          (node_entry-congr len after p i (i - 1) a (omega arith) (λ x m.
            let q : int_key_at len i + x - (len + 4) ≡ int_key_at len (i - 1) + x =
              omega (arith, step) in
            rw q at (moved (int_key_at len i + x) (omega (arith, above)) (omega (arith, top)))))
  ]

  pub put-first : load after int_header ≡ load p int_header
  put-first = load-from after p int_header int_header (λ x l. low (int_header + x) (omega arith))

-- AM_AddtoIntPage at an offset up to the number of keys, of a node with fewer than 2 ^ 16 - 1
-- keys: the node has one key more, the new key with the new page number behind it stands behind as
-- many keys as the offset says, those before it and the first page number are as they were, and
-- those behind it moved up by one place.
pub add_to_int_page_lem :
    (value : Bytes) (child offset : ℕ) (p h : Bytes)
    → child < word
    → offset ≤ int_num_keys h
    → int_num_keys h + 1 < short
    → (int_num_keys (add_to_int_page value child offset (p, h)).1 ≡ int_num_keys h + 1)
      × (load (add_to_int_page value child offset (p, h)).0 int_header ≡ load p int_header)
      × ((i : ℕ)
          → 1 ≤ i
          → i ≤ int_num_keys h + 1
          → node_entry (int_attr_length h) (add_to_int_page value child offset (p, h)).0 i
            ≡ opened
                (offset + 1)
                (bytes_of value 0 (int_attr_length h), child)
                (node_entry (int_attr_length h) p)
                i)
unfolding add_to_int_page
add_to_int_page_lem value child offset p h small within few = (
  load16-store16 2 (add16 (int_num_keys h) 1) h (omega arith) ∙ omega arith,
  put-first (int_attr_length h) value child offset (int_num_keys h) p small within,
  put-entry (int_attr_length h) value child offset (int_num_keys h) p small within,
)
