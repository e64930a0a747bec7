-- ===== src/Am/Leaf/Unlink.antt =====
-- The search of AM_DeleteEntry in amlayer/amfns.c for a record number in the list of a key, and the list
-- without the cell that it finds.
use database_assignment.Prelude.{
  ℕ, zero, suc, ◌+◌, ◌≤◌, ◌<◌, ◌≡◌, ◌≢◌, ◌⊎◌, inl, inr, refl, ap, sym, ◌∙◌, true, false, List, [],
  ◌∷◌, map, arith, ◌==◌, Option, some, none, length, member, member-nil, member-cons, remove,
  remove-cons-absent, remove-cons_ne, distinct, distinct-cons, if◌then◌else◌, Bool-cases, ==_iff,
}
use database_assignment.Words.{Bytes, load}
use database_assignment.Words.Short.{short, load16, store16, load16-store16, load16-store16_ne}
use database_assignment.Am.Leaf.View.{Chain, IsCell, cells_apart, Chain-congr}
use database_assignment.Am.Leaf.Link.{Chain-lt}
use database_assignment.Am.Tree.Entries.{find_cell}

-- the list without the first occurrence of a record number
pub erase : ℕ → List ℕ → List ℕ
erase r [] = []
erase r (x ∷ xs) = let rest = erase r xs in if x == r then xs else x ∷ rest

pub erase-here : (r x : ℕ) (xs : List ℕ) → x ≡ r → erase r (x ∷ xs) ≡ xs
unfolding erase
erase-here r x xs h = ground arith

erase-there : (r x : ℕ) (xs : List ℕ) → (x == r) ≡ false → erase r (x ∷ xs) ≡ x ∷ erase r xs
unfolding erase
erase-there r x xs h = rw h refl

-- The link `l` is `link`, or the one in a cell of `cs` other than `c`.
abbrev pub IsLink : ℕ → List ℕ → ℕ → ℕ → Type 0
IsLink link cs c l = (l ≡ link) ⊎ ((a : ℕ) × (member a cs ≡ true) × (a ≢ c) × (l ≡ a + 4))

-- The page when the link to the cell `c` goes to the next cell
abbrev pub unlinked : Bytes → ℕ → ℕ → Bytes
unlinked p l c = store16 l (load16 p (c + 4)) p

-- What find_cell gives for the list `cs` whose head is at `link`
abbrev pub IsFound : Bytes → ℕ → ℕ → List ℕ → Option (ℕ × ℕ) → Type 0
IsFound p r link cs res =
    ((res ≡ none) × (member r (map (load p) cs) ≡ false))
    ⊎ ((l : ℕ) × (c : ℕ) × (res ≡ some (l, c))
        × (member r (map (load p) cs) ≡ true)
        × (member c cs ≡ true)
        × IsLink link cs c l
        × Chain (unlinked p l c) (load16 (unlinked p l c) link) (remove c cs)
        × (map (load p) (remove c cs) ≡ erase r (map (load p) cs)))

-- A link apart from the links in the cells
abbrev pub IsApart : ℕ → List ℕ → Type 0
IsApart link cs = (c : ℕ) → member c cs ≡ true → (link + 2 ≤ c + 4) ⊎ (c + 6 ≤ link)

module _ (p : Bytes) (low r : ℕ) where
  abbrev AllCells : List ℕ → Type 0
  AllCells cs = (c : ℕ) → member c cs ≡ true → IsCell low c

  tail_cells : (d : ℕ) (ds : List ℕ) → AllCells (d ∷ ds) → AllCells ds
  tail_cells d ds h c m = h c (ground (arith, member-cons c d ds))

  head-IsCell : (d : ℕ) (ds : List ℕ) → AllCells (d ∷ ds) → IsCell low d
  head-IsCell d ds h = h d (ground (arith, member-cons d d ds))

  head_absent : (d : ℕ) (ds : List ℕ) → distinct (d ∷ ds) ≡ true → member d ds ≡ false
  head_absent d ds h = ground (arith, distinct-cons d ds)

  tail_distinct : (d : ℕ) (ds : List ℕ) → distinct (d ∷ ds) ≡ true → distinct ds ≡ true
  tail_distinct d ds h = ground (arith, distinct-cons d ds)

  -- another cell of the list
  other_cell : (d : ℕ) (ds : List ℕ) (c : ℕ) → distinct (d ∷ ds) ≡ true → member c ds ≡ true → c ≢ d
  other_cell d ds c h m e = ground (arith, ap (λ x. member x ds) e, head_absent d ds h)

  tail-IsApart :
      (d : ℕ) (ds : List ℕ) → AllCells (d ∷ ds) → distinct (d ∷ ds) ≡ true → IsApart (d + 4) ds
  tail-IsApart d ds h o c m =
      let apart =
        cells_apart low d c (head-IsCell d ds h) (tail_cells d ds h c m)
          (λ e. other_cell d ds c o m (sym e)) in
      omega arith

  here_lem :
      (link d : ℕ) (ds : List ℕ)
      → AllCells (d ∷ ds)
      → distinct (d ∷ ds) ≡ true
      → IsApart link (d ∷ ds)
      → Chain p (load16 p (d + 4)) ds
      → (load p d == r) ≡ true
      → IsFound p r link (d ∷ ds) (some (link, d))
  here_lem link d ds h o a l e =
      let q = unlinked p link d in
      let small : load16 p (d + 4) < short =
        Chain-lt p (load16 p (d + 4)) ds (λ c m. omega (arith, tail_cells d ds h c m)) l in
      let gone : remove d (d ∷ ds) ≡ ds = remove-cons-absent d ds (head_absent d ds o) in
      inr (
        link,
        d,
        refl,
        ground (arith, member-cons r (load p d) (map (load p) ds)),
        ground (arith, member-cons d d ds),
        inl refl,
        rw (gone, load16-store16 link (load16 p (d + 4)) p small)
            (Chain-congr p q (load16 p (d + 4)) ds
              (λ c m.
                load16-store16_ne link (c + 4) (load16 p (d + 4)) p
                  (omega (arith, a c (ground (arith, member-cons c d ds)))))
              l),
        rw gone (sym (erase-here r (load p d) (map (load p) ds) ((==_iff (load p d) r).0 e))),
      )

  there_lem :
      (link d : ℕ) (ds : List ℕ)
      → AllCells (d ∷ ds)
      → distinct (d ∷ ds) ≡ true
      → IsApart link (d ∷ ds)
      → load16 p link ≡ d
      → 0 < d
      → (load p d == r) ≡ false
      → (res : Option (ℕ × ℕ)) → IsFound p r (d + 4) ds res
      → IsFound p r link (d ∷ ds) res
  there_lem link d ds h o a at z e res (inl (f, m)) =
      inl (f, ground (arith, member-cons r (load p d) (map (load p) ds)))
  there_lem link d ds h o a at z e res (inr (l, c, f, m, k, i, chain, records)) =
      let q = unlinked p l c in
      let ne : c ≢ d = other_cell d ds c o k in
      let other : (c == d) ≡ false = ground arith in
      let link' : (b : ℕ) × (member b (d ∷ ds) ≡ true) × (b ≢ c) × (l ≡ b + 4) = elim i [
        | inl g ↦ (d, ground (arith, member-cons d d ds), (λ t. ne (sym t)), g)
        | inr (b, g, t, u) ↦ (b, ground (arith, member-cons b d ds), t, u)
      ] in
      let (b, g, t, u) = link' in
      let same : load16 q link ≡ d =
        load16-store16_ne l link (load16 p (c + 4)) p (omega (arith, a b g, u)) ∙ at in
      inr (
        l,
        c,
        f,
        ground (arith, member-cons r (load p d) (map (load p) ds)),
        ground (arith, member-cons c d ds),
        inr link',
        rw (remove-cons_ne c d ds other) (same, z, chain),
        rw (remove-cons_ne c d ds other, erase-there r (load p d) (map (load p) ds) e, records)
            refl,
      )

  -- The search in a list of cells
  pub find_cell-IsFound :
      (k link : ℕ) (cs : List ℕ)
      → length cs < k
      → AllCells cs
      → distinct cs ≡ true
      → IsApart link cs
      → Chain p (load16 p link) cs
      → IsFound p r link cs (find_cell k p r link (load16 p link))
  unfolding find_cell
  find_cell-IsFound zero link cs n h o a l = absurd (omega arith)
  find_cell-IsFound (suc k) link [] n h o a l = rw l (inl (refl, member-nil r))
  find_cell-IsFound (suc k) link (d ∷ ds) n h o a (at, z, l) =
      let nonzero : (d == 0) ≡ false = ground arith in
      elim (Bool-cases (load p d == r)) [
        | inl e ↦ rw (at, nonzero, e) (here_lem link d ds h o a l e)
        | inr e ↦
            rw (at, nonzero, e)
              (there_lem link d ds h o a at z e (find_cell k p r (d + 4) (load16 p (d + 4))) (
                find_cell-IsFound k (d + 4) ds (omega arith) (tail_cells d ds h)
                  (tail_distinct d ds o) (tail-IsApart d ds h o) l))
      ]
