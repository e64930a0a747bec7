-- ===== src/Bl/Levels.antt =====
-- The levels that BL_BulkLoad of bulklayer/blbulk.c builds: there are ever fewer pages, so it ends.
use database_assignment.Prelude.{
  ℕ, zero, suc, ◌+◌, ◌-◌, ◌*◌, ◌≤◌, ◌<◌, ◌≡◌, ◌⊎◌, refl, true, inl, inr, [], ◌∷◌, ◌++◌, length,
  arith, leb, ltb, ◌==◌, ◌||◌, Bool-cases, if◌then◌else◌,
}
use database_assignment.Prelude.Int.{ℤ}
use database_assignment.Words.{store, minus_one}
use database_assignment.Result.{Result, ok, err, held, halt}
use database_assignment.Buf.{Memory}
use database_assignment.Pf.{Unix, Pf}
use database_assignment.Pf.Pages.{unfix_page, alloc_page}
use database_assignment.Am.Tree.{to_int}
use database_assignment.Sp.File.{set_buf, page_buf}
use database_assignment.Bl.{
  BlReply, bl_ok, bl_error, bl_eof, key_not_found, exited, undefined, running, Routine, num_keys_at,
  internal_key, then_do, or_error, and_go_on,
}
use database_assignment.Bl.Load.{
  Pages, Filling, begun, put_child, close_internal, next_internal, load_level, load_levels,
}

-- The rounds of no loop are used up, and a result satisfies `P`.
abbrev pub Ends : {A W : Type 0} → (A → Type 0) → BlReply A × Pf W → Type 0
Ends P (bl_ok a, s) = P a
Ends P (running, s) = ⊥
Ends P _ = Unit

Ends-bind :
    {A B W : Type 0} (P : A → Type 0) (Q : B → Type 0) (f : A → Routine W B) (r : BlReply A × Pf W)
    → Ends P r
    → ((a : A) (s : Pf W) → P a → Ends Q (f a s))
    → Ends Q (then_do f r)
Ends-bind P Q f (bl_ok a, s) h k = k a s h
Ends-bind P Q f (bl_error, s) h k = tt
Ends-bind P Q f (bl_eof, s) h k = tt
Ends-bind P Q f (key_not_found, s) h k = tt
Ends-bind P Q f (exited, s) h k = tt
Ends-bind P Q f (undefined, s) h k = tt
Ends-bind P Q f (running, s) h k = h

Ends-mono :
    {A W : Type 0} (P Q : A → Type 0) (r : BlReply A × Pf W)
    → ((a : A) → P a → Q a)
    → Ends P r
    → Ends Q r
Ends-mono P Q (bl_ok a, s) k h = k a h
Ends-mono P Q (bl_error, s) k h = tt
Ends-mono P Q (bl_eof, s) k h = tt
Ends-mono P Q (key_not_found, s) k h = tt
Ends-mono P Q (exited, s) k h = tt
Ends-mono P Q (undefined, s) k h = tt
Ends-mono P Q (running, s) k h = h

or_error-Ends : {A W : Type 0} (r : Result A × Pf W) → Ends (λ _. Unit {0}) (or_error r)
or_error-Ends (ok a, t) = tt
or_error-Ends (err e, t) = tt
or_error-Ends (held a, t) = tt
or_error-Ends (halt, t) = tt

and_go_on-Ends : {A W : Type 0} (r : Result A × Pf W) → Ends (λ _. Unit {0}) (and_go_on r)
and_go_on-Ends (ok a, t) = tt
and_go_on-Ends (err e, t) = tt
and_go_on-Ends (held a, t) = tt
and_go_on-Ends (halt, t) = tt

length-snoc : (l : Pages) (x : ℕ × ℕ) → length (l ++ (x ∷ [])) ≡ length l + 1
length-snoc [] x = refl
length-snoc (y ∷ l) x = ground (arith, length-snoc l x)

-- `n` pages of the level below are put into pages of this one, and those that are closed are full.
abbrev Packed : ℕ → Filling → Type 0
Packed n f = (510 * length f.pages + f.keys ≤ n) × ((n ≡ 0) ⊎ (1 ≤ f.keys))

-- the pages once the current one is closed
abbrev closed : Filling → ℕ
closed f = if f.page == minus_one then length f.pages else length f.pages + 1

module _ (mem : Memory) (os : Unix) (fd : ℤ) where
  open os use {World}

  close_internal-Ends :
      (f : Filling) (s : Pf World) → Ends (λ l. length l ≤ closed f) (close_internal mem os fd f s)
  unfolding close_internal
  close_internal-Ends f s = elim (Bool-cases (f.page == minus_one)) [
    | inl e ↦ rw e (omega arith)
    | inr e ↦
        let u = set_buf f.frame (store num_keys_at f.keys (page_buf f.frame s)) s in
        let x : ℕ × ℕ = (f.page, internal_key (page_buf f.frame u) (f.keys - 1)) in
        rw e (
          Ends-bind (λ _. Unit {0}) (λ l. length l ≤ length f.pages + 1) _
            (and_go_on (unfix_page fd (to_int f.page) true u))
            (and_go_on-Ends (unfix_page fd (to_int f.page) true u))
            (λ _ w _. omega (arith, length-snoc f.pages x)))
  ]

  next_internal-Ends :
      (level : ℕ) (f : Filling) (s : Pf World)
      → Ends (λ g. (g.keys ≡ 0) × (length g.pages ≤ closed f)) (next_internal mem os fd level f s)
  unfolding next_internal
  next_internal-Ends level f s =
      Ends-bind (λ l. length l ≤ closed f) (λ g. (g.keys ≡ 0) × (length g.pages ≤ closed f)) _
        (close_internal mem os fd f s) (close_internal-Ends f s)
        (λ l t h.
          Ends-bind (λ _. Unit {0}) (λ g. (g.keys ≡ 0) × (length g.pages ≤ closed f)) _
            (or_error (alloc_page mem os fd t)) (or_error-Ends (alloc_page mem os fd t))
            (λ r w _. (refl, h)))

  -- room for one more page
  abbrev HasRoom : ℕ → Filling → Type 0
  HasRoom n g = (510 * length g.pages + g.keys ≤ n) × (g.keys < 510)

  room-Ends :
      (level n : ℕ) (f : Filling) (s : Pf World)
      → Packed n f
      → Ends (HasRoom n) (
          if leb 510 f.keys || (f.page == minus_one)
          then next_internal mem os fd level f s
          else (bl_ok f, s))
  room-Ends level n f s (a, b) = elim (Bool-cases (leb 510 f.keys || (f.page == minus_one))) [
    | inl e ↦ rw e (
        Ends-mono (λ g. (g.keys ≡ 0) × (length g.pages ≤ closed f)) (HasRoom n)
          (next_internal mem os fd level f s)
          (λ g (c, d). elim (Bool-cases (f.page == minus_one)) [
            | inl i ↦ (let d' = rw i at d in omega arith, omega arith)
            | inr i ↦
                let d' = rw i at d in
                let full : 510 ≤ f.keys = ground arith in (omega arith, omega arith)
          ])
          (next_internal-Ends level f s))
    | inr e ↦ rw e (a, ground arith)
  ]

  load_level-Ends :
      (level : ℕ) (l : Pages) (n : ℕ) (f : Filling) (s : Pf World)
      → Packed n f
      → Ends (Packed (n + length l)) (load_level mem os fd level l f s)
  unfolding load_level
  load_level-Ends level [] n f s h = (let e : n + 0 ≡ n = omega arith in rw e h)
  load_level-Ends level ((page, key) ∷ rest) n f s h =
      Ends-bind (HasRoom n) (Packed (n + length ((page, key) ∷ rest))) _
        (if leb 510 f.keys || (f.page == minus_one)
          then next_internal mem os fd level f s
          else (bl_ok f, s))
        (room-Ends level n f s h)
        (λ g t (a, b).
          let w = set_buf g.frame (put_child g.keys key page (page_buf g.frame t)) t in
          let e : n + 1 + length rest ≡ n + length ((page, key) ∷ rest) = omega arith in
          rw e at (
            load_level-Ends level rest (n + 1) (record g { keys = g.keys + 1 }) w
              (omega arith, inr (omega arith))))

  -- The loop of BL_BulkLoad over the levels does not use up its bound, from any list of pages on:
  -- it needs no more levels than there are pages, and when it returns a list, this has at most one
  -- page.
  pub load_levels-Ends :
      (fuel level : ℕ) (l : Pages) (s : Pf World)
      → 1 ≤ fuel
      → length l ≤ fuel
      → Ends (λ r. length r.0 ≤ 1) (load_levels mem os fd fuel level l s)
  unfolding load_levels
  load_levels-Ends zero level l s o h = absurd (omega arith)
  load_levels-Ends (suc fuel) level l s o h = elim (Bool-cases (ltb 1 (length l))) [
    | inr e ↦ rw (e, load_levels) (ground arith)
    | inl e ↦
        let two : 2 ≤ length l = ground arith in
        rw (e, load_levels)
          (Ends-bind (Packed (0 + length l)) (λ r. length r.0 ≤ 1) _
            (load_level mem os fd level l begun s)
            (load_level-Ends level l 0 begun s (omega arith, inl refl))
            (λ f t (a, b).
              Ends-bind (λ up. length up ≤ closed f) (λ r. length r.0 ≤ 1) _
                (close_internal mem os fd f t) (close_internal-Ends f t)
                (λ up w c.
                  let fewer : closed f ≤ length f.pages + 1 = ground arith in
                  load_levels-Ends fuel (level + 1) up w (omega arith)
                    (omega (arith, c, fewer, a, b, two)))))
  ]
