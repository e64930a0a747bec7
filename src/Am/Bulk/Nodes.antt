-- ===== src/Am/Bulk/Nodes.antt =====
-- The internal nodes that build_internal_levels of am_bulkload.c writes.
use database_assignment.Prelude.{
  ℕ, zero, suc, ◌+◌, ◌-◌, ◌*◌, ◌%◌, ◌≤◌, ◌<◌, ◌≡◌, ◌⊎◌, inl, inr, refl, sym, ◌∙◌, List, arith,
  dec_lt,
}
use database_assignment.Words.{
  Bytes, word, load, store, copy, load-store, load-congr, store-below, copy-outside, copy-inside,
  copy-start,
}
use database_assignment.Words.Short.{
  short, load16-store_ne, load16-store16, load16-congr, store16-outside,
}
use database_assignment.Sp.Records.{bytes_of, bytes_of-congr}
use database_assignment.Am.{int_header, int_key_at}
use database_assignment.Am.Node.{int_num_keys, fill_header}
use database_assignment.Am.Node.Entries.{
  node_entry, node_entry-congr, child_at-key, int_key_at-lt, int_key_at-step,
}
use database_assignment.Am.Bulk.{
  Level, entry_size, init_int_page, put_entry, put_entries, fill_root,
}

-- the entry `i` of the node over a level: the key `i - 1` and the page behind it
abbrev pub level_entry : ℕ → Level → ℕ → List ℕ × ℕ
level_entry len l i = (bytes_of l.keys (entry_size * (i - 1)) len, l.children i)

module _ (len : ℕ) (l : Level) (words : (i : ℕ) → l.children i < word) where
  -- The page holds the children 0, …, n of the level, with the keys between them.
  abbrev IsFilled : ℕ → Bytes → Type 0
  IsFilled n p =
      (int_num_keys p ≡ n)
      × (load p int_header ≡ l.children 0)
      × ((i : ℕ) → 1 ≤ i → i ≤ n → node_entry len p i ≡ level_entry len l i)

  module _ (j : ℕ) (p : Bytes) where
    abbrev at : ℕ
    at = int_key_at len (j + 1)

    abbrev after : Bytes
    after = put_entry len l j at p

    abbrev entered : Bytes
    entered = store (at + len) (l.children (j + 1)) (copy at l.keys (entry_size * j) len p)

    entered-below : (x : ℕ) → x < at → entered x ≡ p x
    entered-below x h =
        store-below (at + len) (l.children (j + 1)) (copy at l.keys (entry_size * j) len p) x
          (omega arith)
        ∙ copy-outside at l.keys (entry_size * j) len p x (inl h)

    after-entered : (x : ℕ) → (x < 2) ⊎ (4 ≤ x) → after x ≡ entered x
    unfolding put_entry
    after-entered x h = store16-outside 2 ((int_num_keys entered + 1) % short) entered x h

    count_lem : int_num_keys after ≡ (int_num_keys p + 1) % short
    unfolding put_entry
    count_lem =
        let e : int_num_keys entered ≡ int_num_keys p =
          load16-congr entered p 2 2 (entered-below 2 (omega arith))
            (entered-below 3 (omega arith)) in
        load16-store16 2 ((int_num_keys entered + 1) % short) entered (omega arith) ∙ rw e refl

    low : (x : ℕ) → 4 ≤ x → x < at → after x ≡ p x
    low x a b = after-entered x (inr a) ∙ entered-below x b

    entry_lem : node_entry len after (j + 1) ≡ level_entry len l (j + 1)
    entry_lem =
        let n : j + 1 - 1 ≡ j = omega arith in
        let e : bytes_of after at len ≡ bytes_of l.keys (entry_size * j) len =
          bytes_of-congr after l.keys at (entry_size * j) len (λ x h.
            after-entered (at + x) (inr (omega arith))
            ∙ (store-below (at + len) (l.children (j + 1)) (copy at l.keys (entry_size * j) len p)
                  (at + x) (omega arith)
                ∙ copy-inside at l.keys (entry_size * j) len p x h)) in
        let f : load after (at + len) ≡ l.children (j + 1) =
          load-congr after entered (at + len) (λ x a b. after-entered x (inr (omega arith)))
          ∙ load-store (at + len) (l.children (j + 1)) (copy at l.keys (entry_size * j) len p)
              (words (j + 1)) in
        rw (child_at-key len (j + 1) (omega arith), e, f, n) refl

  step_lem :
      (n : ℕ) (p : Bytes)
      → n + 1 < short
      → IsFilled n p
      → IsFilled (n + 1) (put_entry len l n (int_key_at len (n + 1)) p)
  step_lem n p m (a, b, c) = (
    count_lem n p ∙ rw a (omega arith),
    load-congr (after n p) p 8 (λ x s t. low n p x (omega arith) (omega arith)) ∙ b,
    λ i s t. elim (dec_lt i (n + 1)) [
      | yes h ↦
          node_entry-congr len (after n p) p i i s s (λ x k.
            low n p (int_key_at len i + x) (omega arith)
              (omega (arith, int_key_at-lt len i (n + 1) s h)))
          ∙ c i s (omega arith)
      | no h ↦ (let e : i ≡ n + 1 = omega arith in rw e (entry_lem n p))
    ],
  )

  entries_lem :
      (k j : ℕ) (p : Bytes)
      → j + k < short
      → IsFilled j p
      → IsFilled (j + k) (put_entries len l j (int_key_at len (j + 1)) k p)
  unfolding put_entries
  entries_lem zero j p m v = (let e : j + 0 ≡ j = omega arith in rw e v)
  entries_lem (suc k) j p m v =
      let e : j + suc k ≡ j + 1 + k = omega arith in
      let f : int_key_at len (j + 1) + (len + 4) ≡ int_key_at len (j + 1 + 1) =
        let g : j + 1 + 1 - 1 ≡ j + 1 = omega arith in
        rw g (sym (rw g at (int_key_at-step len (j + 1 + 1) (omega arith)))) in
      rw (e, f)
        (entries_lem k (j + 1) (put_entry len l j (int_key_at len (j + 1)) p) (omega arith)
          (step_lem j p (omega arith) v))

  -- For a level of at least one and fewer than 2 ^ 16 pages, the node that build_internal_levels
  -- writes as the root has the pages of the level as its children, in their order, with the
  -- separating keys between them, and counts these keys.
  pub fill_root_lem :
      (junk p : Bytes) (max : ℕ)
      → 1 ≤ l.count
      → l.count < short
      → (int_num_keys (fill_root junk len max l p) ≡ l.count - 1)
        × (load (fill_root junk len max l p) int_header ≡ l.children 0)
        × ((i : ℕ)
            → 1 ≤ i
            → i ≤ l.count - 1
            → node_entry len (fill_root junk len max l p) i ≡ level_entry len l i)
  unfolding fill_root init_int_page
  fill_root_lem junk p max a b =
      let h = fill_header junk b'i' len max 0 in
      let q = copy 0 h 0 8 p in
      let r = store 8 (l.children 0) q in
      let count : int_num_keys r ≡ 0 =
        load16-store_ne 8 2 (l.children 0) q (inr (omega arith))
        ∙ (load16-congr q h 2 2 (copy-start h 8 p 2 (omega arith))
              (copy-start h 8 p 3 (omega arith))
            ∙ load16-store16 2 0 _ (omega arith)) in
      let e : int_key_at len (0 + 1) ≡ 12 = omega arith in
      let f : 0 + (l.count - 1) ≡ l.count - 1 = omega arith in
      rw (e, f) at
        (entries_lem (l.count - 1) 0 r (omega arith)
          (count, load-store 8 (l.children 0) q (words 0), λ i s t. absurd (omega arith)))

put_entries-low :
    (len : ℕ) (l : Level) (x : ℕ)
    → 4 ≤ x
    → (k j at : ℕ) (p : Bytes) → x < at
    → put_entries len l j at k p x ≡ p x
unfolding put_entries put_entry
put_entries-low len l x a zero j at p b = refl
put_entries-low len l x a (suc k) j at p b =
    let q = store (at + len) (l.children (j + 1)) (copy at l.keys (entry_size * j) len p) in
    put_entries-low len l x a k (j + 1) (at + (len + 4)) (put_entry len l j at p) (omega arith)
    ∙ (store16-outside 2 ((int_num_keys q + 1) % short) q x (inr a)
        ∙ (store-below (at + len) (l.children (j + 1)) (copy at l.keys (entry_size * j) len p) x
              (omega arith)
            ∙ copy-outside at l.keys (entry_size * j) len p x (inl b)))

-- the first child of the root, however many there are
pub fill_root-first :
    (junk : Bytes) (len max : ℕ) (l : Level) (p : Bytes)
    → l.children 0 < word
    → load (fill_root junk len max l p) int_header ≡ l.children 0
unfolding fill_root
fill_root-first junk len max l p h =
    let q = init_int_page junk len max p in
    let r = store 8 (l.children 0) q in
    load-congr (fill_root junk len max l p) r 8
      (λ x a b. put_entries-low len l x (omega arith) (l.count - 1) 0 12 r (omega arith))
    ∙ load-store 8 (l.children 0) q h
