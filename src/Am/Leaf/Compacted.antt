-- ===== src/Am/Leaf/Compacted.antt =====
-- AM_Compact of amlayer/aminsert.c: the page that it makes of the keys `low` to `high` of a leaf.
use database_assignment.Prelude.{
  ℕ, zero, suc, ◌+◌, ◌-◌, ◌*◌, ◌%◌, ◌≤◌, ◌<◌, ◌≡◌, ◌≢◌, refl, true, List, [], arith, length, member,
  member-nil, distinct, distinct-nil, dec_lt,
}
use database_assignment.Words.{Bytes}
use database_assignment.Words.Short.{load16}
use database_assignment.Am.{key_at, head_at}
use database_assignment.Am.Leaf.View.{Chain, IsCell, IsBody, entry}
use database_assignment.Am.Leaf.Shift.{key_at-plus}
use database_assignment.Am.Leaf.Runs.{distinct-run}
use database_assignment.Am.Leaf.Compacts.{
  total, packed, list, IsCopied, total_mono, bound, keys_below, list_bounds, packed_lem,
}

module _ (len : ℕ) (p : Bytes) (rec key free count n : ℕ) (lists : ℕ → List ℕ)
    (v : IsBody len p rec key free count n lists) (low : ℕ) (start : 1 ≤ low) (temp : Bytes) (k : ℕ)
    (some_key : 1 ≤ k) (within : low + k ≤ n + 1)
    (some_record : (j : ℕ) → j < k → lists (low + j) ≢ []) where
  abbrev sum : ℕ → ℕ
  sum = total len p rec key free count n lists v low start temp

  abbrev cells : ℕ → List ℕ
  cells = list len p rec key free count n lists v low start temp

  abbrev page : Bytes
  page = (packed len p rec key free count n lists v low start temp k).temp

  abbrev holds : (j : ℕ) → j < k → IsCopied len p rec key free count n lists v low start temp page j
  holds = (packed_lem len p rec key free count n lists v low start temp k within some_record).1

  abbrev fits : (j : ℕ) → low + j ≤ n + 1 → 6 * sum j + rec ≤ 4096
  fits = bound len p rec key free count n lists v low start temp

  -- the lists of the new page; it has no free cells
  abbrev pub compacted : ℕ → List ℕ
  compacted zero = []
  compacted (suc j) = cells j

  bounds :
      (j d : ℕ)
      → j < k
      → member d (cells j) ≡ true
      → (d + 6 * sum j ≤ 4090) × (4096 ≤ d + 6 * sum (suc j)) × ((4096 - d) % 6 ≡ 0)
  bounds j d l m = list_bounds len p rec key free count n lists v low start temp j d (omega arith) m

  mono : (i j : ℕ) → i ≤ j → sum i ≤ sum j
  mono = total_mono len p rec key free count n lists v low start temp

  chain_lem : (i : ℕ) → 1 ≤ i → i ≤ k → Chain page (load16 page (head_at len i)) (compacted i)
  chain_lem zero a b = absurd (omega arith)
  chain_lem (suc j) a b = (let h = holds j b in rw (h.0) (h.1))

  cell_lem : (i c : ℕ) → i ≤ k → member c (compacted i) ≡ true → IsCell (4096 - 6 * sum k) c
  cell_lem zero c a m = absurd (ground (arith, member-nil c))
  cell_lem (suc j) c a m =
      let b = bounds j c a m in (omega (arith, b, mono (suc j) k a), omega (arith, b), b.2)

  alone_lem :
      (i j c : ℕ) → i < j → j ≤ k → member c (compacted i) ≡ true → member c (compacted j) ≢ true
  alone_lem zero j c l b m o = absurd (ground (arith, member-nil c))
  alone_lem (suc i) zero c l b m o = absurd (omega arith)
  alone_lem (suc i) (suc j) c l b m o =
      let s = bounds i c (omega arith) m in
      let t = bounds j c b o in absurd (omega (arith, s, t, mono (suc i) j (omega arith)))

  once_lem : (i : ℕ) → i ≤ k → distinct (compacted i) ≡ true
  once_lem zero a = distinct-nil
  once_lem (suc j) a =
      let f = fits (suc j) (omega arith) in
      let b =
        keys_below len p rec key free count n lists v low start temp low start (omega arith) in
      distinct-run (4090 - 6 * sum j) (length (lists (low + j))) (omega (arith, f, b))

  -- It is a well-formed leaf, ...
  pub compacted-IsBody : IsBody len page (4096 - 6 * sum k) (key_at len (k + 1)) 0 0 k compacted
  compacted-IsBody = record {
    keys = refl;
    gap =
        let b =
          keys_below len p rec key free count n lists v low start temp k some_key (omega arith) in
        omega (arith, b, fits k within, key_at-plus len k 1 some_key);
    top = omega arith;
    aligned = omega (arith, fits k within);
    chain = chain_lem;
    free_chain = refl;
    cell = cell_lem;
    alone = λ i j c a b m o. elim (dec_lt i j) [
      | yes l ↦ absurd (alone_lem i j c l b m o)
      | no l ↦ elim (dec_lt j i) [ yes g ↦ absurd (alone_lem j i c g a o m) | no g ↦ omega arith ]
    ];
    once = once_lem;
    counted = refl;
    few = omega arith;
  }

  -- ... with the keys and the record numbers of the old one from `low` on.
  pub entry-compacted :
      (j : ℕ) → j < k → entry len page compacted (suc j) ≡ entry len p lists (low + j)
  entry-compacted j l = (let (_, _, r, b) = holds j l in rw (r, b) refl)
