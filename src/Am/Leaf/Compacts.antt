-- ===== src/Am/Leaf/Compacts.antt =====
-- The outer loop of AM_Compact in amlayer/aminsert.c: the keys `low`, `low + 1`, … of a page become the
-- first keys of another page.
use database_assignment.Prelude.{
  ℕ, zero, suc, ◌+◌, ◌-◌, ◌*◌, ◌%◌, ◌≤◌, ◌<◌, ◌≡◌, ◌≢◌, ◌⊎◌, inl, inr, refl, ap, ◌∙◌, true, List,
  [], ◌∷◌, map, arith, length, member, dec_lt,
}
use database_assignment.Words.{Bytes, load, copy, load-congr, copy-inside, copy-outside}
use database_assignment.Words.Short.{load16, store16, load16-store16, load16-congr, store16-outside}
use database_assignment.Sp.Records.{bytes_of, bytes_of-congr}
use database_assignment.Am.{key_at, head_at}
use database_assignment.Am.Leaf.{Packing, pack_key, pack_keys}
use database_assignment.Am.Leaf.View.{Chain, IsBody, key_at-lt, Chain-congr, records-congr}
use database_assignment.Am.Leaf.Freed.{length_cells}
use database_assignment.Am.Leaf.Counts.{used, used_bounded}
use database_assignment.Am.Leaf.Packs.{run, IsPacked, Content, pack_list-IsPacked}
use database_assignment.Am.Leaf.Runs.{run_bounds}

module _ (len : ℕ) (p : Bytes) (rec key free count n : ℕ) (lists : ℕ → List ℕ)
    (v : IsBody len p rec key free count n lists) (low : ℕ) (start : 1 ≤ low) (temp : Bytes) where
  abbrev pub total : ℕ → ℕ
  total = used len p rec key free count n lists v low

  abbrev pub packed : ℕ → Packing
  packed k = pack_keys len p low k (record { temp = temp; ptr = 4090 })

  -- the first cell of the new key `j + 1`, and its list
  abbrev pub first : ℕ → ℕ
  first j = 4090 - 6 * total j

  abbrev pub list : ℕ → List ℕ
  list j = run (first j) (length (lists (low + j)))

  -- the new key `j + 1` is the key `low + j`
  abbrev pub IsCopied : Bytes → ℕ → Type 0
  IsCopied t j =
      (load16 t (head_at len (suc j)) ≡ first j)
      × Chain t (first j) (list j)
      × (map (load t) (list j) ≡ map (load p) (lists (low + j)))
      × (bytes_of t (key_at len (suc j)) len ≡ bytes_of p (key_at len (low + j)) len)

  pub total_mono : (i j : ℕ) → i ≤ j → total i ≤ total j
  total_mono i zero h = (let e : i ≡ 0 = omega arith in rw e (omega arith))
  total_mono i (suc j) h = elim (dec_lt j i) [
    | yes l ↦ (let e : i ≡ suc j = omega arith in rw e (omega arith))
    | no l ↦ omega (arith, total_mono i j (omega arith))
  ]

  pub bound : (k : ℕ) → low + k ≤ n + 1 → 6 * total k + rec ≤ 4096
  bound k h = used_bounded len p rec key free count n lists v low k h

  -- the keys end below the cells
  pub keys_below : (j : ℕ) → 1 ≤ j → j ≤ n → key_at len j + (len + 2) ≤ rec
  keys_below j a b = omega (arith, key_at-lt len j (n + 1) a (omega arith), v.keys, v.gap)

  -- the cells of the list `j`
  pub list_bounds :
      (j d : ℕ)
      → low + suc j ≤ n + 1
      → member d (list j) ≡ true
      → (d + 6 * total j ≤ 4090) × (4096 ≤ d + 6 * total (suc j)) × ((4096 - d) % 6 ≡ 0)
  list_bounds j d b m =
      let c = bound (suc j) b in
      let k = keys_below low start (omega arith) in
      let r = run_bounds (first j) (length (lists (low + j))) d (omega (arith, c)) m in
      (omega (arith, r, c, k), omega (arith, r, c, k), omega (arith, r, c, k))

  -- what is copied stays where the page does not change
  IsCopied-congr :
      (t u : Bytes) (j : ℕ)
      → low + suc j ≤ n + 1
      → ((x : ℕ) → x < key_at len (suc j + 1) → u x ≡ t x)
      → ((x : ℕ) → 4096 ≤ x + 6 * total (suc j) → u x ≡ t x)
      → IsCopied t j
      → IsCopied u j
  IsCopied-congr t u j b below above (head, chain, records, bytes) =
      let k = key_at-lt len (suc j) (suc j + 1) (omega arith) (omega arith) in
      let inside : (d x : ℕ) → member d (list j) ≡ true → d ≤ x → u x ≡ t x =
        λ d x m s. above x (omega (arith, list_bounds j d b m)) in
      (
        load16-congr u t (head_at len (suc j)) (head_at len (suc j))
              (below (head_at len (suc j)) (omega (arith, k)))
              (below (head_at len (suc j) + 1) (omega (arith, k)))
            ∙ head,
        Chain-congr t u (first j) (list j)
            (λ d m.
              load16-congr u t (d + 4) (d + 4) (inside d (d + 4) m (omega arith))
                (inside d (d + 4 + 1) m (omega arith)))
            chain,
        records-congr t u (list j) (λ d m. load-congr u t d (λ x s _. inside d x m s)) ∙ records,
        bytes_of-congr u t (key_at len (suc j)) (key_at len (suc j)) len
              (λ x l. below (key_at len (suc j) + x) (omega (arith, k)))
            ∙ bytes,
      )

  module _ (k : ℕ) (t : Bytes) (within : low + suc k ≤ n + 1)
      (some_record : lists (low + k) ≢ []) where
    abbrev at : ℕ
    at = key_at len (suc k)

    abbrev before : Packing
    before = record { temp = t; ptr = first k }

    -- the key, and the head of its list
    abbrev begun : Packing
    begun = record before {
      temp = store16 (head_at len (suc k)) (first k) (copy at p (key_at len (low + k)) len t);
    }

    abbrev done : Packing
    done = pack_key len p (low + k) (suc k) before

    room : (6 * total (suc k) + rec ≤ 4096) × (at + (len + 2) ≤ rec)
    room = (bound (suc k) within, keys_below (suc k) (omega arith) (omega arith))

    room_list : 6 * length (lists (low + k)) ≤ first k
    room_list = omega (arith, room)

    done-IsPacked : IsPacked p (lists (low + k)) begun done
    unfolding pack_key
    done-IsPacked =
        pack_list-IsPacked p 4097 (lists (low + k)) (load16 p (head_at len (low + k))) begun
          (omega (
            arith,
            length_cells rec (lists (low + k)) (v.once (low + k) (omega arith))
                (λ c m. v.cell (low + k) c (omega arith) m),
          ))
          (v.chain (low + k) (omega arith) (omega arith)) room_list (omega arith)

    outside-begun : (x : ℕ) → (x < at) ⊎ (at + (len + 2) ≤ x) → begun.temp x ≡ t x
    outside-begun x h =
        store16-outside (head_at len (suc k)) (first k) (copy at p (key_at len (low + k)) len t) x
          (omega arith)
        ∙ copy-outside at p (key_at len (low + k)) len t x (omega arith)

    -- the list is not empty
    whole :
        Chain done.temp (first k) (list k)
        × (map (load done.temp) (list k) ≡ map (load p) (lists (low + k)))
        × ((x : ℕ) → first k + 6 ≤ x → done.temp x ≡ begun.temp x)
    whole = go (lists (low + k)) refl (done-IsPacked.2)
      where
        go :
            (cs : List ℕ)
            → lists (low + k) ≡ cs
            → Content p cs begun.ptr begun.temp done.temp
            → Chain done.temp (first k) (run (first k) (length cs))
              × (map (load done.temp) (run (first k) (length cs)) ≡ map (load p) cs)
              × ((x : ℕ) → first k + 6 ≤ x → done.temp x ≡ begun.temp x)
        go [] e c = absurd (some_record e)
        go (d ∷ ds) e c = c

    -- The pages agree below the new list, ...
    below_list : (x : ℕ) → x + 6 * total (suc k) < 4096 → done.temp x ≡ begun.temp x
    below_list x h = done-IsPacked.1 x (inl (omega (arith, done-IsPacked.0, room_list)))

    -- ... below the new key, and from the last list on.
    below_key : (x : ℕ) → x < at → done.temp x ≡ t x
    below_key x h = below_list x (omega (arith, room)) ∙ outside-begun x (inl h)

    above_list : (x : ℕ) → 4096 ≤ x + 6 * total k → done.temp x ≡ t x
    above_list x h = whole.2 x (omega (arith, room)) ∙ outside-begun x (inr (omega (arith, room)))

    new_key : IsCopied done.temp k
    new_key =
        let a = at in
        (
          load16-congr done.temp begun.temp (head_at len (suc k)) (head_at len (suc k))
                (below_list (head_at len (suc k)) (omega (arith, room)))
                (below_list (head_at len (suc k) + 1) (omega (arith, room)))
              ∙ load16-store16 (head_at len (suc k)) (first k)
                  (copy at p (key_at len (low + k)) len t) (omega arith),
          whole.0,
          whole.1,
          bytes_of-congr done.temp p at (key_at len (low + k)) len (λ x l.
              below_list (at + x) (omega (arith, room))
              ∙ store16-outside (head_at len (suc k)) (first k)
                  (copy at p (key_at len (low + k)) len t) (at + x) (omega arith)
              ∙ copy-inside at p (key_at len (low + k)) len t x l),
        )

    old_key : (j : ℕ) → j < k → IsCopied t j → IsCopied done.temp j
    old_key j l c =
        let b = key_at-lt len (suc j) (suc k) (omega arith) (omega arith) in
        IsCopied-congr t done.temp j (omega arith)
          (λ x h. below_key x (elim (dec_lt (suc j) k) [
            | yes m ↦
                let g = key_at-lt len (suc j + 1) (suc k) (omega arith) (omega arith) in
                omega (arith, g, h)
            | no m ↦ (let e : suc j + 1 ≡ suc k = omega arith in rw e at h)
          ]))
          (λ x h. above_list x (omega (arith, total_mono (suc j) k l, h))) c

  -- after `k` keys
  pub packed_lem :
      (k : ℕ)
      → low + k ≤ n + 1
      → ((j : ℕ) → j < k → lists (low + j) ≢ [])
      → ((packed k).ptr ≡ first k) × ((j : ℕ) → j < k → IsCopied (packed k).temp j)
  unfolding pack_keys
  packed_lem zero b h = (omega arith, λ j l. absurd (omega (arith, l)))
  packed_lem (suc k) b h =
      let (e, old) = packed_lem k (omega arith) (λ j l. h j (omega (arith, l))) in
      let t = (packed k).temp in
      let full = h k (omega arith) in
      let eq : packed (suc k) ≡ done k t b full =
        ap (λ a. pack_key len p (low + k) (suc k) (record { temp = t; ptr = a })) e in
      rw eq (
        omega (arith, done-IsPacked k t b full, bound (suc k) b),
        λ j l. elim (dec_lt j k) [
          | yes m ↦ old_key k t b full j m (old j m)
          | no m ↦ (let f : j ≡ k = omega (arith, l, m) in rw f (new_key k t b full))
        ],
      )
