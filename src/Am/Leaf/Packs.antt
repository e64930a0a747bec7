-- ===== src/Am/Leaf/Packs.antt =====
-- The inner loop of AM_Compact in amlayer/aminsert.c: a list of cells is copied to the end of another
-- page, one cell below the other.
use mathlib.Core.Path.{subst}
use database_assignment.Prelude.{
  ℕ, zero, suc, ◌+◌, ◌-◌, ◌*◌, ◌≤◌, ◌<◌, ◌≡◌, ◌⊎◌, inl, inr, refl, sym, ◌∙◌, List, [], ◌∷◌, map,
  arith, length, ◌==◌, false, true,
}
use database_assignment.Words.{Bytes, load, copy, load-from, load-congr, copy-inside, copy-outside}
use database_assignment.Words.Short.{
  load16, store16, sub16, load16-store16, load16-congr, load-store16_ne, store16-outside,
}
use database_assignment.Am.Leaf.{Packing, pack_list}
use database_assignment.Am.Leaf.View.{Chain}

-- `k` cells from the offset `ptr` down
abbrev pub run : ℕ → ℕ → List ℕ
run ptr zero = []
run ptr (suc k) = ptr ∷ run (ptr - 6) k

-- What the loop leaves of the list, when `q` was the page before: its cells below each other, linked,
-- with the record numbers; of an empty list, the end of the list before it.
abbrev pub Content : Bytes → List ℕ → ℕ → Bytes → Bytes → Type 0
Content p [] ptr q t = load16 t (ptr + 10) ≡ 0
Content p (d ∷ ds) ptr q t =
    Chain t ptr (run ptr (suc (length ds)))
    × (map (load t) (run ptr (suc (length ds))) ≡ map (load p) (d ∷ ds))
    × ((x : ℕ) → ptr + 6 ≤ x → t x ≡ q x)

abbrev pub IsPacked : Bytes → List ℕ → Packing → Packing → Type 0
IsPacked p cs c r =
    (r.ptr ≡ c.ptr - 6 * length cs)
    × ((x : ℕ)
        → (x < r.ptr + 6) ⊎ (((c.ptr + 6 ≤ x) × (x < c.ptr + 10)) ⊎ (c.ptr + 12 ≤ x))
        → r.temp x ≡ c.temp x)
    × Content p cs c.ptr c.temp r.temp

module _ (p : Bytes) where
  -- one cell
  abbrev step : ℕ → Packing → Packing
  step d c = record {
    temp = store16 (c.ptr - 6 + 10) (c.ptr - 6) (copy c.ptr p d 4 c.temp);
    ptr = c.ptr - 6;
  }

  step-outside :
      (d : ℕ) (c : Packing) (x : ℕ)
      → 6 ≤ c.ptr
      → (x < c.ptr) ⊎ (c.ptr + 6 ≤ x)
      → (step d c).temp x ≡ c.temp x
  step-outside d c x a h =
      store16-outside (c.ptr - 6 + 10) (c.ptr - 6) (copy c.ptr p d 4 c.temp) x (omega arith)
      ∙ copy-outside c.ptr p d 4 c.temp x (omega arith)

  step-record : (d : ℕ) (c : Packing) → 6 ≤ c.ptr → load (step d c).temp c.ptr ≡ load p d
  step-record d c a =
      load-store16_ne (c.ptr - 6 + 10) c.ptr (c.ptr - 6) (copy c.ptr p d 4 c.temp)
        (inr (omega arith))
      ∙ load-from (copy c.ptr p d 4 c.temp) p c.ptr d (λ x l. copy-inside c.ptr p d 4 c.temp x l)

  step-link :
      (d a : ℕ) (c : Packing)
      → a ≡ c.ptr - 6 + 10
      → c.ptr < 4096
      → load16 (step d c).temp a ≡ c.ptr - 6
  step-link d a c e b =
      rw e (load16-store16 (c.ptr - 6 + 10) (c.ptr - 6) (copy c.ptr p d 4 c.temp) (omega arith))

  -- the list goes on with what the rest of the loop leaves
  step-Content :
      (d : ℕ) (ds : List ℕ) (c r : Packing)
      → 6 ≤ c.ptr
      → c.ptr < 4096
      → r.ptr ≤ c.ptr - 6
      → IsPacked p ds (step d c) r
      → Content p (d ∷ ds) c.ptr c.temp r.temp
  step-Content d [] c r a b o (e, out, end) =
      let f : c.ptr - 6 + 10 ≡ c.ptr + 4 = omega arith in
      let same : load r.temp c.ptr ≡ load p d =
        load-congr r.temp (step d c).temp c.ptr
          (λ x s t. out x (inr (inl (omega arith, omega arith))))
        ∙ step-record d c a in
      (
        (refl, omega arith, rw f at end),
        rw same refl,
        λ x s. out x (inr (inr (omega arith))) ∙ step-outside d c x a (inr s),
      )
  step-Content d (k ∷ ks) c r a b o (e, out, (chain, records, above)) =
      let same : load r.temp c.ptr ≡ load p d =
        load-congr r.temp (step d c).temp c.ptr (λ x s t. above x (omega arith))
        ∙ step-record d c a in
      let link : load16 r.temp (c.ptr + 4) ≡ c.ptr - 6 =
        load16-congr r.temp (step d c).temp (c.ptr + 4) (c.ptr + 4)
          (above (c.ptr + 4) (omega arith)) (above (c.ptr + 4 + 1) (omega arith))
        ∙ step-link d (c.ptr + 4) c (omega arith) b in
      (
        (refl, omega arith, rw link chain),
        rw (same, records) refl,
        λ x s. above x (omega arith) ∙ step-outside d c x a (inr s),
      )

  -- For a list of cells, and with room for it
  pub pack_list-IsPacked :
      (k : ℕ) (cs : List ℕ) (next : ℕ) (c : Packing)
      → length cs < k
      → Chain p next cs
      → 6 * length cs ≤ c.ptr
      → c.ptr < 4096
      → IsPacked p cs c (pack_list k p next c)
  unfolding pack_list
  pack_list-IsPacked zero cs next c n l a b = absurd (omega arith)
  pack_list-IsPacked (suc k) [] next c n l a b =
      let e : (next == 0) ≡ true = ground arith in
      rw e (
        omega arith,
        λ x h. store16-outside (c.ptr + 10) 0 c.temp x (omega arith),
        load16-store16 (c.ptr + 10) 0 c.temp (omega arith),
      )
  pack_list-IsPacked (suc k) (d ∷ ds) next c n (at, z, l) a b =
      let e : (next == 0) ≡ false = ground arith in
      let s : sub16 c.ptr 6 ≡ c.ptr - 6 = omega arith in
      let r = pack_list k p (load16 p (d + 4)) (step d c) in
      let (u, out, rest) =
        pack_list-IsPacked k ds (load16 p (d + 4)) (step d c) (omega arith) l (omega arith)
          (omega arith) in
      let eq : pack_list (suc k) p next c ≡ r = rw (e, at, s) refl in
      subst (IsPacked p (d ∷ ds) c) (sym eq) (
        omega (arith, u),
        λ x h. out x (omega (arith, u, h)) ∙ step-outside d c x (omega arith) (omega (arith, u, h)),
        step-Content d ds c r (omega arith) b (omega (arith, u)) (u, out, rest),
      )
