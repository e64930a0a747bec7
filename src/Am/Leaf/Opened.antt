-- ===== src/Am/Leaf/Opened.antt =====
-- AM_InsertToLeafNotFound of amlayer/aminsert.c, before it inserts the record number: the keys are
-- moved and the new key is there, with an empty list.
use database_assignment.Prelude.{
  ℕ, ◌+◌, ◌-◌, ◌*◌, ◌≤◌, ◌<◌, ◌≡◌, ◌≢◌, ◌⊎◌, inl, inr, refl, ◌∙◌, true, false, List, [], map, arith,
  ltb, ◌==◌, member, member-nil, distinct, distinct-nil, if◌then◌else◌, dec_lt,
}
use database_assignment.Words.{Bytes, load, load-congr, copy, copy-outside, copy-inside}
use database_assignment.Words.Short.{load16, load16-store16, load16-congr, store16-outside}
use database_assignment.Sp.Records.{bytes_of, bytes_of-congr}
use database_assignment.Am.{key_at, head_at}
use database_assignment.Am.Leaf.{shift_up, put_key}
use database_assignment.Am.Leaf.View.{
  Chain, IsCell, IsBody, entry, key_at-lt, Chain-congr, records-congr,
}
use database_assignment.Am.Leaf.Shift.{key_at-plus, shift_up-outside, shift_up-inside}

-- the lists, or the entries, when `new` stands at the place `index` and those behind it moved up
abbrev pub opened : {A : Type 0} → ℕ → A → (ℕ → A) → ℕ → A
opened index new xs i = if ltb i index then xs i else if i == index then new else xs (i - 1)

-- the three places that a key can have
pub place :
    (i index : ℕ)
    → ((i < index) × (ltb i index ≡ true))
      ⊎ (((i ≡ index) × (ltb i index ≡ false) × ((i == index) ≡ true))
          ⊎ ((index < i) × (ltb i index ≡ false) × ((i == index) ≡ false)))
place i index = ground arith

module _ (len : ℕ) (p : Bytes) (rec key free count n : ℕ) (lists : ℕ → List ℕ)
    (v : IsBody len p rec key free count n lists) (value : Bytes) (index : ℕ) (start : 1 ≤ index)
    (within : index ≤ n + 1) (room : key + (len + 2) ≤ rec) where
  abbrev k : ℕ
  k = n + 1 - index

  abbrev shifted : Bytes
  shifted = shift_up len index k p

  abbrev pub after : Bytes
  after = put_key len value index shifted

  -- the last key moves to the end of the keys
  limit : key_at len index + k * (len + 2) ≡ key
  limit =
      let e : index + k ≡ n + 1 = omega arith in
      omega (arith, rw e at (key_at-plus len index k start), v.keys)

  put-outside :
      (x : ℕ) → (x < key_at len index) ⊎ (key_at len index + (len + 2) ≤ x) → after x ≡ shifted x
  unfolding put_key
  put-outside x h =
      store16-outside (head_at len index) 0 (copy (key_at len index) value 0 len shifted) x
        (omega arith)
      ∙ copy-outside (key_at len index) value 0 len shifted x (omega arith)

  low : (x : ℕ) → x < key_at len index → after x ≡ p x
  low x h = put-outside x (inl h) ∙ shift_up-outside len index start k p x (inl (omega arith))

  above : (x : ℕ) → rec ≤ x → after x ≡ p x
  above x h =
      put-outside x (inr (omega (arith, limit)))
      ∙ shift_up-outside len index start k p x (inr (omega (arith, limit)))

  moved :
      (x : ℕ) → key_at len index + (len + 2) ≤ x → x < key + (len + 2) → after x ≡ p (x - (len + 2))
  moved x h l =
      put-outside x (inr h) ∙ shift_up-inside len index start k p x h (omega (arith, limit))

  new_bytes : (x : ℕ) → x < len → after (key_at len index + x) ≡ value (0 + x)
  unfolding put_key
  new_bytes x l =
      store16-outside (head_at len index) 0 (copy (key_at len index) value 0 len shifted)
        (key_at len index + x) (inl (omega arith))
      ∙ copy-inside (key_at len index) value 0 len shifted x l

  new_head : load16 after (head_at len index) ≡ 0
  unfolding put_key
  new_head =
      load16-store16 (head_at len index) 0 (copy (key_at len index) value 0 len shifted)
        (omega arith)

  cells :
      (cs : List ℕ) (ptr : ℕ)
      → ((c : ℕ) → member c cs ≡ true → IsCell rec c)
      → Chain p ptr cs
      → Chain after ptr cs
  cells cs ptr h l =
      Chain-congr p after ptr cs
        (λ c m.
          load16-congr after p (c + 4) (c + 4) (above (c + 4) (omega (arith, h c m)))
            (above (c + 4 + 1) (omega (arith, h c m))))
        l

  records : (i : ℕ) → i ≤ n → map (load after) (lists i) ≡ map (load p) (lists i)
  records i l =
      records-congr p after (lists i)
        (λ c m. load-congr after p c (λ x a b. above x (omega (arith, v.cell i c l m))))

  -- a key before the new one
  before_key : (i : ℕ) → 1 ≤ i → i < index → key_at len i + (len + 2) ≤ key_at len index
  before_key i a b = key_at-lt len i index a b

  before_head :
      (i : ℕ) → 1 ≤ i → i < index → load16 after (head_at len i) ≡ load16 p (head_at len i)
  before_head i a b =
      load16-congr after p (head_at len i) (head_at len i)
        (low (head_at len i) (omega (arith, before_key i a b)))
        (low (head_at len i + 1) (omega (arith, before_key i a b)))

  -- a key behind the new one
  behind_key :
      (i : ℕ)
      → index < i
      → i ≤ n + 1
      → (key_at len i ≡ key_at len (i - 1) + (len + 2))
        × (key_at len index + (len + 2) ≤ key_at len i)
        × (key_at len i ≤ key)
  behind_key i a b =
      let e : i - 1 + 1 ≡ i = omega arith in
      (
        rw e at (key_at-plus len (i - 1) 1 (omega arith)) ∙ omega arith,
        key_at-lt len index i start a,
        elim (dec_lt i (n + 1)) [
          | yes l ↦ omega (arith, key_at-lt len i (n + 1) (omega arith) l, v.keys)
          | no l ↦ (let f : i ≡ n + 1 = omega arith in rw f (omega (arith, v.keys)))
        ],
      )

  behind_byte :
      (i x : ℕ)
      → index < i
      → i ≤ n + 1
      → x < len + 2
      → after (key_at len i + x) ≡ p (key_at len (i - 1) + x)
  behind_byte i x a b l =
      let (e, f, g) = behind_key i a b in
      let q : key_at len i + x - (len + 2) ≡ key_at len (i - 1) + x = omega (arith, e) in
      rw q at (moved (key_at len i + x) (omega (arith, f)) (omega (arith, g)))

  behind_head :
      (i : ℕ)
      → index < i
      → i ≤ n + 1
      → load16 after (head_at len i) ≡ load16 p (head_at len (i - 1))
  behind_head i a b =
      let f : (j : ℕ) → key_at len j + (len + 1) ≡ head_at len j + 1 = λ j. omega arith in
      load16-congr after p (head_at len i) (head_at len (i - 1))
        (behind_byte i len a b (omega arith))
        (rw (f i, f (i - 1)) at (behind_byte i (len + 1) a b (omega arith)))

  abbrev pub added : ℕ → List ℕ
  added = opened index [] lists

  Chain-opened : (i : ℕ) → 1 ≤ i → i ≤ n + 1 → Chain after (load16 after (head_at len i)) (added i)
  Chain-opened i a b = elim (place i index) [
    | inl (l, e) ↦
        rw (e, before_head i a l)
          (cells (lists i) (load16 p (head_at len i)) (λ c m. v.cell i c (omega arith) m)
            (v.chain i a (omega arith)))
    | inr (inl (l, e, f)) ↦ rw (e, f, l) new_head
    | inr (inr (l, e, f)) ↦
        rw (e, f, behind_head i l b)
          (cells (lists (i - 1)) (load16 p (head_at len (i - 1)))
            (λ c m. v.cell (i - 1) c (omega arith) m) (v.chain (i - 1) (omega arith) (omega arith)))
  ]

  -- A list of the page after is a list of the page before, or empty.
  abbrev source : ℕ → ℕ
  source i = if ltb i index then i else i - 1

  member-opened :
      (i c : ℕ)
      → i ≤ n + 1
      → member c (added i) ≡ true
      → (member c (lists (source i)) ≡ true) × (source i ≤ n) × (i ≢ index)
  member-opened i c b m = elim (place i index) [
    | inl (l, e) ↦ rw e (rw e at m, omega arith, λ q. omega arith)
    | inr (inl (l, e, f)) ↦
        let k : member c [] ≡ true = rw (e, f) at m in ground (arith, member-nil c)
    | inr (inr (l, e, f)) ↦ rw e (rw (e, f) at m, omega arith, λ q. omega arith)
  ]

  source-inj : (i j : ℕ) → i ≢ index → j ≢ index → source i ≡ source j → i ≡ j
  source-inj i j a b h = ground arith

  once-opened : (i : ℕ) → i ≤ n + 1 → distinct (added i) ≡ true
  once-opened i b = elim (place i index) [
    | inl (l, e) ↦ rw e (v.once i (omega arith))
    | inr (inl (l, e, f)) ↦ rw (e, f) distinct-nil
    | inr (inr (l, e, f)) ↦ rw (e, f) (v.once (i - 1) (omega arith))
  ]

  pub opened-IsBody : IsBody len after rec (key + (len + 2)) free count (n + 1) added
  opened-IsBody =
      let e : ltb 0 index ≡ true = ground arith in
      record {
        keys = omega (arith, v.keys, key_at-plus len (n + 1) 1 (omega arith));
        gap = room;
        top = v.top;
        aligned = v.aligned;
        chain = Chain-opened;
        free_chain = rw e (cells (lists 0) free (λ c m. v.cell 0 c (omega arith) m) v.free_chain);
        cell = λ i c b m. let (k, l, q) = member-opened i c b m in v.cell (source i) c l k;
        alone = λ i j c a b k l.
            let (k', s, x) = member-opened i c a k in
            let (l', t, y) = member-opened j c b l in
            source-inj i j x y (v.alone (source i) (source j) c s t k' l');
        once = once-opened;
        counted = rw e v.counted;
        few = v.few;
      }

  -- The key `index` is new, with no record number, and the entries behind it moved up.
  pub entry-opened :
      (i : ℕ)
      → 1 ≤ i
      → i ≤ n + 1
      → entry len after added i ≡ opened index (bytes_of value 0 len, []) (entry len p lists) i
  entry-opened i a b = elim (place i index) [
    | inl (l, e) ↦
        rw
          (
            e,
            records i (omega arith),
            bytes_of-congr after p (key_at len i) (key_at len i) len
                (λ x m. low (key_at len i + x) (omega (arith, before_key i a l))),
          )
          refl
    | inr (inl (l, e, f)) ↦
        rw (e, f, l, bytes_of-congr after value (key_at len index) 0 len new_bytes) refl
    | inr (inr (l, e, f)) ↦
        rw
          (
            e,
            f,
            records (i - 1) (omega arith),
            bytes_of-congr after p (key_at len i) (key_at len (i - 1)) len
                (λ x m. behind_byte i x l b (omega arith)),
          )
          refl
  ]
