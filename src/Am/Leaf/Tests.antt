-- ===== src/Am/Leaf/Tests.antt =====
-- AM_InsertintoLeaf on a leaf with one key, two free cells, and four bytes between the keys and the
-- cells, so that it compacts the page.
use database_assignment.Prelude.{
  ℕ, zero, suc, ◌+◌, ◌-◌, ◌*◌, ◌≤◌, ◌≡◌, ◌≢◌, ◌⊎◌, refl, ap, true, false, List, [], ◌∷◌, arith,
  length, member, member-nil, member-cons, distinct, distinct-nil, distinct-cons,
}
use database_assignment.Words.{Bytes, store}
use database_assignment.Words.Short.{load16, store16}
use database_assignment.Sp.Records.{bytes_of}
use database_assignment.Sp.Tests.{zeros}
use database_assignment.Am.{rec_id_ptr, key_ptr, free_list}
use database_assignment.Am.Leaf.{insert_into_leaf}
use database_assignment.Am.Leaf.View.{Chain, IsCell, IsBody, entry}
use database_assignment.Am.Leaf.Opened.{opened}
use database_assignment.Am.Leaf.Insert.{Represents}
use database_assignment.Am.Leaf.Refines.{Gives}
use database_assignment.Am.Leaf.Replaced.{is_crowded, insert_into_leaf_compacted}

abbrev crowded : Bytes
crowded = store16 8 34 (
    store16 10 30 (
      store16 12 4084
        (store16 14 2 (store16 16 4 (store16 18 1 (store16 28 4090 (store16 4088 4078 zeros)))))))

abbrev crowded_lists : ℕ → List ℕ
crowded_lists zero = 4084 ∷ (4078 ∷ [])
crowded_lists (suc i) = 4090 ∷ []

free_members : (c : ℕ) → member c (crowded_lists 0) ≡ true → (c ≡ 4084) ⊎ (c ≡ 4078)
free_members c m =
    ground (arith, member-cons c 4084 (4078 ∷ []), member-cons c 4078 [], member-nil c)

key_members : (i c : ℕ) → member c (crowded_lists (suc i)) ≡ true → c ≡ 4090
key_members i c m = ground (arith, member-cons c 4090 [], member-nil c)

crowded-IsCell : (i c : ℕ) → member c (crowded_lists i) ≡ true → IsCell 34 c
crowded-IsCell zero c m =
    let h = free_members c m in (omega (arith, h), omega (arith, h), omega (arith, h))
crowded-IsCell (suc i) c m =
    let h = key_members i c m in (omega (arith, h), omega (arith, h), omega (arith, h))

crowded_alone :
    (i j c : ℕ)
    → i ≤ 1
    → j ≤ 1
    → member c (crowded_lists i) ≡ true
    → member c (crowded_lists j) ≡ true
    → i ≡ j
crowded_alone zero zero c a b m o = refl
crowded_alone zero (suc j) c a b m o = absurd (omega (arith, free_members c m, key_members j c o))
crowded_alone (suc i) zero c a b m o = absurd (omega (arith, free_members c o, key_members i c m))
crowded_alone (suc i) (suc j) c a b m o = omega arith

crowded_once : (i : ℕ) → distinct (crowded_lists i) ≡ true
crowded_once zero = ground (
  arith,
  distinct-cons 4084 (4078 ∷ []),
  distinct-cons 4078 [],
  distinct-nil,
  member-cons 4084 4078 [],
  member-nil 4084,
  member-nil 4078,
)
crowded_once (suc i) = ground (arith, distinct-cons 4090 [], distinct-nil, member-nil 4090)

crowded-Chain : (i : ℕ) → 1 ≤ i → i ≤ 1 → Chain crowded 4090 (crowded_lists i)
unfolding load16 store16
crowded-Chain zero a b = absurd (omega arith)
crowded-Chain (suc i) a b = (refl, omega arith, refl)

crowded_free : Chain crowded 4084 (crowded_lists 0)
unfolding load16 store16
crowded_free = (refl, omega arith, (refl, omega arith, refl))

crowded_head : load16 crowded 28 ≡ 4090
unfolding load16 store16
crowded_head = refl

crowded-IsBody : IsBody 4 crowded 34 30 4084 2 1 crowded_lists
crowded-IsBody = record {
  keys = refl;
  gap = omega arith;
  top = omega arith;
  aligned = refl;
  chain = λ i a b.
      let e : i ≡ 1 = omega arith in
      let f : 24 + (i - 1) * 6 + 4 ≡ 28 = omega arith in rw (f, crowded_head) (crowded-Chain i a b);
  free_chain = crowded_free;
  cell = λ i c a m. crowded-IsCell i c m;
  alone = crowded_alone;
  once = λ i a. crowded_once i;
  counted = refl;
  few = omega arith;
}

crowded-Represents : Represents 4 1 (entry 4 crowded crowded_lists) crowded
unfolding load16 store16
crowded-Represents =
    (crowded_lists, (record { attr = refl; body = crowded-IsBody }, λ i a b. refl), refl)

crowded_full : (i : ℕ) → 1 ≤ i → i ≤ 1 → (entry 4 crowded crowded_lists i).1 ≢ []
crowded_full zero a b e = absurd (omega arith)
crowded_full (suc i) a b e = let g : 1 ≡ 0 = ap length e in absurd (omega (arith, g))

crowded_ends : (free_list crowded ≡ 4084) × (rec_id_ptr crowded ≡ 34) × (key_ptr crowded ≡ 30)
unfolding load16 store16
crowded_ends = (refl, refl, refl)

insert_into_leaf_compacted_example :
    Gives 4 2
      (opened 2 (bytes_of (store 0 20 zeros) 0 4, 9 ∷ []) (entry 4 crowded crowded_lists))
      (is_crowded 4 crowded)
      crowded
      (insert_into_leaf zeros 4 (store 0 20 zeros) 9 2 false crowded)
insert_into_leaf_compacted_example =
    insert_into_leaf_compacted zeros 4 1 (entry 4 crowded crowded_lists) (store 0 20 zeros) crowded
      9 2 (omega arith) (omega arith) (omega arith) (omega arith) crowded_full crowded-Represents
      (omega (arith, crowded_ends)) (omega (arith, crowded_ends))

-- It does not refuse the key.
crowded_room : is_crowded 4 crowded ≡ false
unfolding load16 store16
crowded_room = refl
