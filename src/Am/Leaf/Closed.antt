-- ===== src/Am/Leaf/Closed.antt =====
-- A key of a leaf whose list is empty goes, as at the end of AM_DeleteEntry in amlayer/amfns.c: the keys
-- behind it move down by one place.
use database_assignment.Prelude.{
  ℕ, zero, suc, ◌+◌, ◌-◌, ◌*◌, ◌≤◌, ◌<◌, ◌≡◌, ◌⊎◌, inl, inr, refl, ◌∙◌, true, List, map, arith, ltb,
  member, if◌then◌else◌, dec_lt, Bool-cases,
}
use database_assignment.Words.{Bytes, load, load-congr, copy}
use database_assignment.Words.Short.{load16, load16-congr}
use database_assignment.Words.Move.{move_down, move_down-outside, move_down-inside}
use database_assignment.Sp.Records.{bytes_of-congr}
use database_assignment.Am.{key_at, head_at}
use database_assignment.Am.Leaf.View.{
  Chain, IsCell, IsBody, entry, key_at-lt, Chain-congr, records-congr,
}
use database_assignment.Am.Leaf.Shift.{key_at-plus}
use database_assignment.Am.Tree.Entries.{shift_down}

-- the lists, or the entries, when the one at the place `index` is gone and those behind it moved down
abbrev pub closed : {A : Type 0} → ℕ → (ℕ → A) → ℕ → A
closed index xs i = if ltb i index then xs i else xs (i + 1)

shift_down-move :
    (len index k : ℕ) (p : Bytes)
    → 1 ≤ index
    → shift_down len index k p ≡ move_down (len + 2) (key_at len index) k p
unfolding shift_down move_down
shift_down-move len index zero p h = refl
shift_down-move len index (suc k) p h =
    let e : key_at len (index + 1) ≡ key_at len index + (len + 2) =
      key_at-plus len index 1 h ∙ omega arith in
    rw e (
      rw e at (
        shift_down-move len (index + 1) k
          (copy (key_at len index) p (key_at len (index + 1)) (len + 2) p) (omega arith)))

module _ (len : ℕ) (p : Bytes) (rec key free count n : ℕ) (lists : ℕ → List ℕ)
    (v : IsBody len p rec key free count n lists) (index : ℕ) (start : 1 ≤ index)
    (within : index ≤ n) where
  abbrev pub after : Bytes
  after = shift_down len index (n - index) p

  limit : key_at len index + (n - index) * (len + 2) + (len + 2) ≡ key
  limit =
      let e : index + (n - index) ≡ n = omega arith in
      let a = rw e at (key_at-plus len index (n - index) start) in
      omega (arith, a, key_at-plus len n 1 (omega arith), v.keys)

  outside : (x : ℕ) → (x < key_at len index) ⊎ (key ≤ x) → after x ≡ p x
  outside x h =
      rw (shift_down-move len index (n - index) p start)
        (move_down-outside (len + 2) (n - index) (key_at len index) p x (omega (arith, limit)))

  moved : (x : ℕ) → key_at len index ≤ x → x + (len + 2) < key → after x ≡ p (x + (len + 2))
  moved x h l =
      rw (shift_down-move len index (n - index) p start)
        (move_down-inside (len + 2) (n - index) (key_at len index) p x h (omega (arith, limit)))

  cells :
      (cs : List ℕ) (ptr : ℕ)
      → ((c : ℕ) → member c cs ≡ true → IsCell rec c)
      → Chain p ptr cs
      → Chain after ptr cs
  cells cs ptr h l =
      Chain-congr p after ptr cs
        (λ c m.
          load16-congr after p (c + 4) (c + 4) (outside (c + 4) (inr (omega (arith, h c m, v.gap))))
            (outside (c + 4 + 1) (inr (omega (arith, h c m, v.gap)))))
        l

  records : (i : ℕ) → i ≤ n → map (load after) (lists i) ≡ map (load p) (lists i)
  records i l = records-congr p after (lists i) (λ c m.
      load-congr after p c (λ x a b. outside x (inr (omega (arith, v.cell i c l m, v.gap)))))

  before_byte :
      (i x : ℕ) → 1 ≤ i → i < index → x < len + 2 → after (key_at len i + x) ≡ p (key_at len i + x)
  before_byte i x a b l =
      outside (key_at len i + x) (inl (omega (arith, key_at-lt len i index a b)))

  behind_byte :
      (i x : ℕ)
      → index ≤ i
      → i < n
      → x < len + 2
      → after (key_at len i + x) ≡ p (key_at len (i + 1) + x)
  behind_byte i x a b l =
      let e : key_at len (i + 1) ≡ key_at len i + (len + 2) =
        key_at-plus len i 1 (omega arith) ∙ omega arith in
      let f : key_at len (i + 1) + (len + 2) ≤ key =
        omega (arith, key_at-lt len (i + 1) (n + 1) (omega arith) (omega arith), v.keys) in
      let g : key_at len i + x + (len + 2) ≡ key_at len (i + 1) + x = omega (arith, e) in
      let first : key_at len index ≤ key_at len i = elim (dec_lt index i) [
        | yes m ↦ omega (arith, key_at-lt len index i start m)
        | no m ↦ (let q : index ≡ i = omega arith in rw q (omega arith))
      ] in
      rw g at (moved (key_at len i + x) (omega (arith, first)) (omega (arith, e, f)))

  -- the place from which a key comes
  abbrev source : ℕ → ℕ
  source i = if ltb i index then i else i + 1

  source_lem : (i : ℕ) → i < n → source i ≤ n
  source_lem i h = ground arith

  from_source :
      (i x : ℕ)
      → 1 ≤ i
      → i < n
      → x < len + 2
      → after (key_at len i + x) ≡ p (key_at len (source i) + x)
  from_source i x a b l = elim (Bool-cases (ltb i index)) [
    | inl e ↦ rw e (before_byte i x a (ground arith) l)
    | inr e ↦ rw e (behind_byte i x (ground arith) b l)
  ]

  to_lem : (i : ℕ) → closed index lists i ≡ lists (source i)
  to_lem i = elim (Bool-cases (ltb i index)) [ inl e ↦ rw e refl | inr e ↦ rw e refl ]

  head_lem :
      (i : ℕ) → 1 ≤ i → i < n → load16 after (head_at len i) ≡ load16 p (head_at len (source i))
  head_lem i a b =
      let f : (j : ℕ) → key_at len j + (len + 1) ≡ head_at len j + 1 = λ j. omega arith in
      load16-congr after p (head_at len i) (head_at len (source i))
        (from_source i len a b (omega arith))
        (rw (f i, f (source i)) at (from_source i (len + 1) a b (omega arith)))

  pub closed-IsBody : IsBody len after rec (key - (len + 2)) free count (n - 1) (closed index lists)
  closed-IsBody =
      let z : ltb 0 index ≡ true = ground arith in
      record {
        keys =
            let e : n - 1 + 1 ≡ n = omega arith in
            rw e (omega (arith, v.keys, key_at-plus len n 1 (omega arith)));
        gap = omega (arith, v.gap);
        top = v.top;
        aligned = v.aligned;
        chain = λ i a b.
            rw (to_lem i, head_lem i a (omega arith))
              (cells (lists (source i)) (load16 p (head_at len (source i)))
                (λ c m. v.cell (source i) c (source_lem i (omega arith)) m)
                (v.chain (source i) (ground arith) (source_lem i (omega arith))));
        free_chain = rw z (cells (lists 0) free (λ c m. v.cell 0 c (omega arith) m) v.free_chain);
        cell = λ i c a m. v.cell (source i) c (source_lem i (omega arith)) (rw (to_lem i) at m);
        alone = λ i j c a b k m.
            let e =
              v.alone (source i) (source j) c (source_lem i (omega arith))
                (source_lem j (omega arith)) (rw (to_lem i) at k) (rw (to_lem j) at m) in
            ground arith;
        once = λ i a. rw (to_lem i) (v.once (source i) (source_lem i (omega arith)));
        counted = rw z v.counted;
        few = v.few;
      }

  -- The entry `index` is gone, and those behind it moved down.
  pub entry-closed :
      (i : ℕ)
      → 1 ≤ i
      → i < n
      → entry len after (closed index lists) i ≡ closed index (entry len p lists) i
  entry-closed i a b =
      let e : closed index (entry len p lists) i ≡ entry len p lists (source i) =
        elim (Bool-cases (ltb i index)) [ inl e ↦ rw e refl | inr e ↦ rw e refl ] in
      rw
        (
          to_lem i,
          e,
          records (source i) (source_lem i b),
          bytes_of-congr after p (key_at len i) (key_at len (source i)) len
              (λ x l. from_source i x a b (omega arith)),
        )
        refl
