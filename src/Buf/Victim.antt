-- ===== src/Buf/Victim.antt =====
-- The choice of a victim in PFbufInternalAlloc of pflayer/buf.c, under both replacement policies.
use mathlib.Core.List.{reverse-append, reverse-reverse, append_assoc}
use database_assignment.Prelude.{
  ℕ, ◌≡◌, sym, ap, ◌∙◌, true, false, none, some, List, [], ◌∷◌, ◌++◌, reverse, arith, ◌==◌, member,
  member-cons, member-nil, member-reverse, Bool-cases, inl, inr, ==_iff,
}
use database_assignment.Buf.{Frame, Pool, first_unfixed}
use database_assignment.Buf.Alloc.{victim}

-- Every frame of the list is fixed.
abbrev pub AllFixed : (ℕ → Frame) → List ℕ → Type 0
AllFixed frames xs = (j : ℕ) → member j xs ≡ true → (frames j).fixed ≡ true

-- `i` is not fixed, and stands in the list behind fixed frames only.
abbrev IsFirst : (ℕ → Frame) → ℕ → List ℕ → Type 0
IsFirst frames i xs =
    (before : List ℕ) × (after : List ℕ) × (xs ≡ before ++ (i ∷ after))
    × AllFixed frames before
    × ((frames i).fixed ≡ false)

reverse_split :
    (i : ℕ) (xs before after : List ℕ)
    → reverse xs ≡ before ++ (i ∷ after)
    → xs ≡ reverse after ++ (i ∷ reverse before)
reverse_split i xs before after h =
    sym (reverse-reverse xs)
    ∙ (ap reverse h
        ∙ (reverse-append before (i ∷ after)
            ∙ (ap (λ l. l ++ reverse before) (reverse-append (i ∷ []) after)
                ∙ append_assoc (reverse after) (i ∷ []) (reverse before))))

module _ (frames : ℕ → Frame) where
  AllFixed-nil : AllFixed frames []
  AllFixed-nil j m = ground (arith, m, member-nil j)

  AllFixed-cons :
      (i : ℕ) (xs : List ℕ)
      → (frames i).fixed ≡ true
      → AllFixed frames xs
      → AllFixed frames (i ∷ xs)
  AllFixed-cons i xs f h j m = elim (Bool-cases (j == i)) [
    | inl e ↦ rw ((==_iff j i).0 e) f
    | inr e ↦ h j (ground (arith, m, member-cons j i xs))
  ]

  first_unfixed-IsFirst :
      (xs : List ℕ) (i : ℕ) → first_unfixed frames xs ≡ some i → IsFirst frames i xs
  unfolding first_unfixed
  first_unfixed-IsFirst [] i h = ground (arith, h)
  first_unfixed-IsFirst (k ∷ xs) i h = elim (Bool-cases (frames k).fixed) [
    | inl f ↦
        let (before, after, e, all, u) = first_unfixed-IsFirst xs i (ground (arith, h, f)) in
        (k ∷ before, after, ap (λ l. k ∷ l) e, AllFixed-cons k before f all, u)
    | inr f ↦
        let e : k ≡ i = ground (arith, h, f) in
        ([], xs, ap (λ x. x ∷ xs) e, AllFixed-nil, rw (← e) f)
  ]

  first_unfixed-none : (xs : List ℕ) → first_unfixed frames xs ≡ none → AllFixed frames xs
  unfolding first_unfixed
  first_unfixed-none [] h = AllFixed-nil
  first_unfixed-none (k ∷ xs) h = elim (Bool-cases (frames k).fixed) [
    | inl f ↦ AllFixed-cons k xs f (first_unfixed-none xs (ground (arith, h, f)))
    | inr f ↦ ground (arith, h, f)
  ]

  AllFixed-reverse : (xs : List ℕ) → AllFixed frames xs → AllFixed frames (reverse xs)
  AllFixed-reverse xs h j m = h j (sym (member-reverse j xs) ∙ m)

module _ {W : Type 0} (s : Pool W) where
  -- Under LRU (policy 0) a victim is not fixed, and every frame behind it in the list of used
  -- frames is fixed.
  pub victim_lru :
      (i : ℕ)
      → s.policy ≡ 0
      → victim s ≡ some i
      → (newer : List ℕ) × (older : List ℕ) × (s.used ≡ newer ++ (i ∷ older))
        × AllFixed s.frame older
        × ((s.frame i).fixed ≡ false)
  unfolding victim
  victim_lru i p h =
      let (before, after, e, all, u) =
        first_unfixed-IsFirst s.frame (reverse s.used) i (rw p at h) in
      (
        reverse after,
        reverse before,
        reverse_split i s.used before after e,
        AllFixed-reverse s.frame before all,
        u,
      )

  -- Under MRU (another policy) a victim is not fixed, and every frame before it in the list of
  -- used frames is fixed.
  pub victim_mru :
      (i : ℕ)
      → (s.policy == 0) ≡ false
      → victim s ≡ some i
      → (newer : List ℕ) × (older : List ℕ) × (s.used ≡ newer ++ (i ∷ older))
        × AllFixed s.frame newer
        × ((s.frame i).fixed ≡ false)
  unfolding victim
  victim_mru i p h = first_unfixed-IsFirst s.frame s.used i (rw p at h)

  -- Under both policies there is no victim only if every used frame is fixed.
  pub victim-none : victim s ≡ none → AllFixed s.frame s.used
  unfolding victim
  victim-none h = elim (Bool-cases (s.policy == 0)) [
    | inl p ↦ λ j m.
        first_unfixed-none s.frame (reverse s.used) (rw p at h) j (member-reverse j s.used ∙ m)
    | inr p ↦ first_unfixed-none s.frame s.used (rw p at h)
  ]
