-- ===== src/Am/Node/Split.antt =====
-- AM_SplitIntNode of amlayer/am.c: the two halves hold the keys and page numbers that the node would
-- hold with the new ones among them.
use database_assignment.Prelude.{
  ℕ, ◌+◌, ◌-◌, ◌*◌, ◌≤◌, ◌<◌, ◌≡◌, inl, inr, sym, ap, ◌∙◌, arith, dec_lt,
}
use database_assignment.Words.{
  Bytes, word, load, store, copy, load-from, store-below, copy-outside, copy-inside,
}
use database_assignment.Sp.Records.{bytes_of, bytes_of-congr}
use database_assignment.Am.{int_header, int_key_at, child_at}
use database_assignment.Am.Leaf.Opened.{opened}
use database_assignment.Am.Node.{put_child, spread}
use database_assignment.Am.Node.Entries.{
  node_entry, node_entry-congr, after, at, shifted, low, moved, limit, behind_at, put-entry,
  put-first,
}

-- the same store, and the same copy, eight bytes further
store-shift :
    (a v : ℕ) (p q : Bytes) (x : ℕ) → a ≤ x → x < a + 4 → store a v p x ≡ store (a + 8) v q (x + 8)
unfolding store
store-shift a v p q x h l = ground arith

copy-in :
    (to : ℕ) (q : Bytes) (from n : ℕ) (p : Bytes) (x y : ℕ)
    → to ≤ x
    → x < to + n
    → y ≡ from + (x - to)
    → copy to q from n p x ≡ q y
copy-in to q from n p x y h l e =
    let a : to + (x - to) ≡ x = omega arith in
    rw (sym e) at (rw a at (copy-inside to q from n p (x - to) (omega arith)))

pub mul_add : (a b w : ℕ) → (a + b) * w ≡ a * w + b * w
mul_add a b w = grind arith

mul_le : (a b w : ℕ) → a ≤ b → a * w ≤ b * w
mul_le a b w h =
    let e : a + (b - a) ≡ b = omega arith in omega (arith, rw e at (mul_add a (b - a) w))

module _ (len : ℕ) (value : Bytes) (child offset n : ℕ) (p junk : Bytes) (small : child < word)
    (within : offset ≤ n) where
  abbrev pub temp : Bytes
  temp = spread len n value child offset p junk

  abbrev pub full : Bytes
  full = after len value child offset n p small within

  abbrev start : ℕ
  start = 4 + offset * (len + 4)

  at_lem : at len value child offset n p small within ≡ start + 8
  at_lem =
      let e : offset + 1 - 1 ≡ offset = omega arith in
      omega (arith, ap (λ (t : ℕ). t * (len + 4)) e)

  abbrev temp₁ : Bytes
  temp₁ = copy start value 0 len (copy 0 p int_header start junk)

  abbrev temp₂ : Bytes
  temp₂ = store (start + len) child temp₁

  -- tempPage holds the bytes that the node would have with the new key, from behind the header on.
  spread-low : (x : ℕ) → x < start → temp x ≡ full (x + 8)
  unfolding spread
  spread-low x l =
      copy-outside (start + len + 4) p (int_header + start) ((n - offset) * (len + 4)) temp₂ x
        (inl (omega arith))
      ∙ (store-below (start + len) child temp₁ x (omega arith)
          ∙ (copy-outside start value 0 len (copy 0 p int_header start junk) x (inl l)
              ∙ (copy-in 0 p int_header start junk x (x + 8) (omega arith) (omega arith)
                    (omega arith)
                  ∙ sym (
                      low len value child offset n p small within (x + 8)
                        (omega (arith, at_lem))))))

  spread-high :
      (x : ℕ)
      → start + len + 4 ≤ x
      → x < start + len + 4 + (n - offset) * (len + 4)
      → temp x ≡ full (x + 8)
  unfolding spread
  spread-high x l m =
      copy-in (start + len + 4) p (int_header + start) ((n - offset) * (len + 4)) temp₂ x
        (x + 8 - (len + 4)) l m (omega arith)
      ∙ sym (
          moved len value child offset n p small within (x + 8) (omega (arith, at_lem))
            (omega (arith, at_lem, limit len value child offset n p small within)))

  abbrev moved_page : Bytes
  moved_page = shifted len value child offset n p small within

  abbrev kept : Bytes
  kept = copy (int_key_at len (offset + 1)) value 0 len moved_page

  behind : child_at len (offset + 1) ≡ int_key_at len (offset + 1) + len
  behind = behind_at len value child offset n p small within

  spread-new : (x : ℕ) → start ≤ x → x < start + len + 4 → temp x ≡ full (x + 8)
  unfolding spread put_child
  spread-new x l m =
      copy-outside (start + len + 4) p (int_header + start) ((n - offset) * (len + 4)) temp₂ x
        (inl m)
      ∙ elim (dec_lt x (start + len)) [
        | yes k ↦
            store-below (start + len) child temp₁ x k
            ∙ (copy-in start value 0 len (copy 0 p int_header start junk) x (x - start) l
                  (omega arith) (omega arith)
                ∙ sym (
                    store-below (child_at len (offset + 1)) child kept (x + 8)
                      (omega (arith, behind, at_lem))
                    ∙ copy-in (int_key_at len (offset + 1)) value 0 len moved_page (x + 8)
                        (x - start) (omega (arith, at_lem)) (omega (arith, at_lem))
                        (omega (arith, at_lem))))
        | no k ↦
            let e : child_at len (offset + 1) ≡ start + len + 8 = omega (arith, behind, at_lem) in
            rw e (store-shift (start + len) child temp₁ kept x (omega arith) (omega arith))
      ]

  pub spread_lem : (x : ℕ) → x < start + len + 4 + (n - offset) * (len + 4) → temp x ≡ full (x + 8)
  spread_lem x l = elim (dec_lt x start) [
    | yes k ↦ spread-low x k
    | no k ↦ elim (dec_lt x (start + len + 4)) [
      | yes m ↦ spread-new x (omega arith) m
      | no m ↦ spread-high x (omega arith) l
    ]
  ]

  -- all the bytes up to the end of the last page number
  size_lem : start + len + 4 + (n - offset) * (len + 4) ≡ 4 + (n + 1) * (len + 4)
  size_lem =
      let e : offset + 1 + (n - offset) ≡ n + 1 = omega arith in
      let f = rw e at (mul_add (offset + 1) (n - offset) (len + 4)) in
      omega (arith, f, mul_add offset 1 (len + 4))

  -- A half: the bytes of tempPage from the offset `o` on, behind a header; it starts with the
  -- page number of the entry `from`
  abbrev pub half : Bytes → ℕ → ℕ → Bytes → Bytes
  half h o count buf = copy 0 h 0 int_header (copy int_header temp o (4 + count * (len + 4)) buf)

  half-byte :
      (h : Bytes) (o from count : ℕ) (buf : Bytes) (y : ℕ)
      → o ≡ from * (len + 4)
      → from + count ≤ n + 1
      → y < 4 + count * (len + 4)
      → half h o count buf (int_header + y) ≡ full (from * (len + 4) + y + 8)
  half-byte h o from count buf y w a l = rw w (
      copy-outside 0 h 0 int_header
        (copy int_header temp (from * (len + 4)) (4 + count * (len + 4)) buf) (int_header + y)
        (inr (omega arith))
      ∙ (copy-inside int_header temp (from * (len + 4)) (4 + count * (len + 4)) buf y l
          ∙ spread_lem (from * (len + 4) + y) (
              omega (
                arith,
                size_lem,
                mul_add from count (len + 4),
                mul_le (from + count) (n + 1) (len + 4) a,
              ))))

  pub half-entry :
      (h : Bytes) (o from count : ℕ) (buf : Bytes) (i : ℕ)
      → o ≡ from * (len + 4)
      → from + count ≤ n + 1
      → 1 ≤ i
      → i ≤ count
      → node_entry len (half h o count buf) i
        ≡ opened (offset + 1) (bytes_of value 0 len, child) (node_entry len p) (from + i)
  half-entry h o from count buf i w a b c =
      let e : from + (i - 1) ≡ from + i - 1 = omega arith in
      let f = rw e at (mul_add from (i - 1) (len + 4)) in
      let g : i - 1 + 1 ≡ i = omega arith in
      let k = rw g at (mul_add (i - 1) 1 (len + 4)) in
      node_entry-congr len (half h o count buf) full i (from + i) b (omega arith) (λ x l.
        let y : ℕ = 4 + (i - 1) * (len + 4) + x in
        let q : int_header + y ≡ int_key_at len i + x = omega arith in
        let r : from * (len + 4) + y + 8 ≡ int_key_at len (from + i) + x = omega (arith, f) in
        rw (q, r) at
          (half-byte h o from count buf y w a (omega (arith, k, mul_le i count (len + 4) c))))
      ∙ put-entry len value child offset n p small within (from + i) (omega arith) (omega arith)

  half-child :
      (h : Bytes) (o from count : ℕ) (buf : Bytes)
      → o ≡ from * (len + 4)
      → from + count ≤ n + 1
      → load (half h o count buf) int_header ≡ load full (child_at len from)
  half-child h o from count buf w a =
      load-from (half h o count buf) full int_header (child_at len from) (λ x l.
        let q : from * (len + 4) + x + 8 ≡ child_at len from + x = omega arith in
        rw q at (half-byte h o from count buf x w a (omega arith)))

  pub half-behind :
      (h : Bytes) (o from count : ℕ) (buf : Bytes)
      → o ≡ from * (len + 4)
      → from + count ≤ n + 1
      → 1 ≤ from
      → load (half h o count buf) int_header
        ≡ (opened (offset + 1) (bytes_of value 0 len, child) (node_entry len p) from).1
  half-behind h o from count buf w a b =
      half-child h o from count buf w a
      ∙ ap (λ e. e.1) (put-entry len value child offset n p small within from b (omega arith))

  pub half-first :
      (h : Bytes) (count : ℕ) (buf : Bytes)
      → count ≤ n + 1
      → load (half h 0 count buf) int_header ≡ load p int_header
  half-first h count buf a =
      let e : child_at len 0 ≡ int_header = omega arith in
      rw e at (half-child h 0 0 count buf (omega arith) (omega arith))
      ∙ put-first len value child offset n p small within

  pub middle-bytes :
      (i : ℕ) (buf : Bytes)
      → i ≤ n
      → bytes_of (copy 0 temp (4 + i * (len + 4)) len buf) 0 len
        ≡ (opened (offset + 1) (bytes_of value 0 len, child) (node_entry len p) (i + 1)).0
  middle-bytes i buf a =
      bytes_of-congr (copy 0 temp (4 + i * (len + 4)) len buf) full 0 (int_key_at len (i + 1)) len
        (λ x l.
          let e : i + 1 - 1 ≡ i = omega arith in
          let q : 4 + i * (len + 4) + x + 8 ≡ int_key_at len (i + 1) + x =
            omega (arith, ap (λ (t : ℕ). t * (len + 4)) e) in
          copy-inside 0 temp (4 + i * (len + 4)) len buf x l
          ∙ rw q at (
              spread_lem (4 + i * (len + 4) + x) (
                omega (
                  arith,
                  size_lem,
                  mul_add i 1 (len + 4),
                  mul_le (i + 1) (n + 1) (len + 4) (omega arith),
                ))))
      ∙ ap (λ e. e.0)
          (put-entry len value child offset n p small within (i + 1) (omega arith) (omega arith))
