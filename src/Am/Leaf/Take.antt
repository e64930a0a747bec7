-- ===== src/Am/Leaf/Take.antt =====
-- AM_InsertToLeafFound of amlayer/aminsert.c: it takes a cell from the free list or from the free
-- bytes of a well-formed leaf, and puts it into the list of a key.
use database_assignment.Prelude.{
  ℕ, ◌+◌, ◌-◌, ◌≤◌, ◌≡◌, ◌≢◌, inl, inr, refl, ap, true, false, List, [], ◌∷◌, arith, ◌==◌, length,
  member, member-cons, distinct, distinct-cons, if◌then◌else◌, Bool-cases, ==_iff,
}
use database_assignment.Words.{Bytes}
use database_assignment.Words.Short.{load16}
use database_assignment.Am.Leaf.View.{Chain, IsBody}
use database_assignment.Am.Leaf.Link.{IsFresh}

-- the lists when the first free cell is taken, if there is one
abbrev pub tail : List ℕ → List ℕ
tail [] = []
tail (c ∷ cs) = cs

abbrev pub taken : (ℕ → List ℕ) → ℕ → List ℕ
taken lists i = if i == 0 then tail (lists 0) else lists i

module _ (len : ℕ) (p : Bytes) (rec key free count n : ℕ) (lists : ℕ → List ℕ)
    (v : IsBody len p rec key free count n lists) where
  -- A cell from the free bytes
  no_free : free ≡ 0 → lists 0 ≡ []
  no_free e = go (lists 0) v.free_chain
    where
      go : (cs : List ℕ) → Chain p free cs → cs ≡ []
      go [] l = refl
      go (c ∷ cs) (a, b, l) = ground (arith, a, b, e)

  same : free ≡ 0 → (i : ℕ) → taken lists i ≡ lists i
  same e i = elim (Bool-cases (i == 0)) [
    | inl f ↦ rw (f, (==_iff i 0).0 f, no_free e) refl
    | inr f ↦ rw f refl
  ]

  pub room-IsBody : free ≡ 0 → key + 6 ≤ rec → IsBody len p (rec - 6) key free count n lists
  room-IsBody e h = record {
    keys = v.keys;
    gap = omega arith;
    top = omega (arith, v.top);
    aligned = omega (arith, v.aligned, v.top);
    chain = v.chain;
    free_chain = v.free_chain;
    cell = λ i c l m. omega (arith, v.cell i c l m);
    alone = v.alone;
    once = v.once;
    counted = v.counted;
    few = v.few;
  }

  pub room-IsFresh : key + 6 ≤ rec → IsFresh (rec - 6) n lists (rec - 6)
  room-IsFresh h = record {
    is_cell = omega (arith, v.top, v.aligned);
    unused = λ i l. elim (Bool-cases (member (rec - 6) (lists i))) [
      | inr e ↦ e
      | inl e ↦ ground (arith, v.cell i (rec - 6) l e)
    ];
  }

  -- A cell from the free list
  module _ (c : ℕ) (cs : List ℕ) (first : lists 0 ≡ c ∷ cs) where
    member-taken : (i d : ℕ) → member d (taken lists i) ≡ true → member d (lists i) ≡ true
    member-taken i d m = elim (Bool-cases (i == 0)) [
      | inr e ↦ rw e at m
      | inl e ↦
          let k : member d cs ≡ true = rw (e, first) at m in
          rw ((==_iff i 0).0 e, first) (ground (arith, member-cons d c cs))
    ]

    once_first : (member c cs ≡ false) × (distinct cs ≡ true)
    once_first =
        let e : distinct (c ∷ cs) ≡ true = rw first at (v.once 0 (omega arith)) in
        ground (arith, distinct-cons c cs)

    here : member c (lists 0) ≡ true
    here = rw first (ground (arith, member-cons c c cs))

    free_first : Chain p (load16 p (c + 4)) cs
    free_first = (rw first at v.free_chain).2

    pub free-IsBody : IsBody len p rec key (load16 p (c + 4)) (count - 1) n (taken lists)
    free-IsBody = record {
      keys = v.keys;
      gap = v.gap;
      top = v.top;
      aligned = v.aligned;
      chain = λ i a b. let e : (i == 0) ≡ false = ground arith in rw e (v.chain i a b);
      free_chain = rw first free_first;
      cell = λ i d l m. v.cell i d l (member-taken i d m);
      alone = λ i j d a b k l. v.alone i j d a b (member-taken i d k) (member-taken j d l);
      once = λ i l. elim (Bool-cases (i == 0)) [
        | inr e ↦ rw e (v.once i l)
        | inl e ↦ rw (e, first) once_first.1
      ];
      counted = rw first (omega (arith, v.counted, ap length first));
      few = omega (arith, v.few);
    }

    pub free-IsFresh : IsFresh rec n (taken lists) c
    free-IsFresh = record {
      is_cell = v.cell 0 c (omega arith) here;
      unused = λ i l. elim (Bool-cases (i == 0)) [
        | inl e ↦ rw (e, first) once_first.0
        | inr e ↦ rw e (elim (Bool-cases (member c (lists i))) [
          | inr f ↦ f
          | inl f ↦ ground (arith, v.alone i 0 c l (omega arith) f here)
        ])
      ];
    }

  pub free_nonempty : free ≢ 0 → (cs : List ℕ) × (lists 0 ≡ free ∷ cs)
  free_nonempty h = go (lists 0) v.free_chain
    where
      go : (ds : List ℕ) → Chain p free ds → (cs : List ℕ) × (ds ≡ free ∷ cs)
      go [] l = elim (h l) [ ]
      go (c ∷ cs) (a, b, l) = (cs, rw a refl)
