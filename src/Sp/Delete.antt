-- ===== src/Sp/Delete.antt =====
-- SP_DeleteRec of splayer/sp.c up to its compaction: the slot is marked, the counters stay exact,
-- and all else stays as it is.
use database_assignment.Prelude.{
  ℕ, zero, suc, ◌+◌, ◌≤◌, ◌<◌, ◌≡◌, ◌≢◌, ◌⊎◌, ◌∙◌, true, arith, ◌==◌, inl, inr, Bool-cases,
}
use database_assignment.Words.{
  Bytes, add32, sub32, load, store, load-store, load-store_ne, store-above,
}
use database_assignment.Sp.{
  num_slots_at, slot_count_at, free_space_at, total_free_space_at, length_at, offset_at,
  deleted_len, num_slots, free_space, slot_count, total_free_space, slot_length, slot_offset,
  directory_end,
}
use database_assignment.Sp.Page.{mark_deleted}
use database_assignment.Sp.Valid.{
  is_live, live_count, live_bytes, IsSlotted, live_bytes-congr, live_count-congr, live_count-le,
}

-- Marking one live slot takes its bytes, and one record, from the sums.
module _ (p q : Bytes) (i : ℕ) (live : is_live p i ≡ true)
    (dead : slot_length q i ≡ deleted_len) where
  live_bytes_mark :
      (n : ℕ)
      → i < n
      → ((j : ℕ) → j < n → j ≢ i → slot_length q j ≡ slot_length p j)
      → live_bytes q n + slot_length p i ≡ live_bytes p n
  unfolding live_bytes
  live_bytes_mark zero h same = absurd (omega arith)
  live_bytes_mark (suc n) h same = elim (Bool-cases (i == n)) [
    | inl e ↦
        ground
          (arith, live, dead, live_bytes-congr q p n (λ j l. same j (omega arith) (ground arith)))
    | inr e ↦ ground (
      arith,
      live_bytes_mark n (ground arith) (λ j l. same j (omega arith)),
      same n (omega arith) (ground arith),
    )
  ]

  live_count_mark :
      (n : ℕ)
      → i < n
      → ((j : ℕ) → j < n → j ≢ i → slot_length q j ≡ slot_length p j)
      → live_count q n + 1 ≡ live_count p n
  unfolding live_count
  live_count_mark zero h same = absurd (omega arith)
  live_count_mark (suc n) h same = elim (Bool-cases (i == n)) [
    | inl e ↦
        ground
          (arith, live, dead, live_count-congr q p n (λ j l. same j (omega arith) (ground arith)))
    | inr e ↦ ground (
      arith,
      live_count_mark n (ground arith) (λ j l. same j (omega arith)),
      same n (omega arith) (ground arith),
    )
  ]

swap_sides : {a b c d : ℕ} → (a ≤ b) ⊎ (c ≤ d) → (c ≤ d) ⊎ (a ≤ b)
swap_sides (inl h) = inr h
swap_sides (inr h) = inl h

module _ (i : ℕ) (p : Bytes) (v : IsSlotted p) (h : i < num_slots p)
    (live : is_live p i ≡ true) where
  abbrev p₁ : Bytes
  p₁ = store (length_at i) deleted_len p

  abbrev p₂ : Bytes
  p₂ = store slot_count_at (sub32 (load p₁ slot_count_at) 1) p₁

  abbrev marked : Bytes
  marked = mark_deleted i p

  -- What is neither the length of the slot nor one of the two counters is as before.
  load-mark_deleted :
      (b : ℕ)
      → (b + 4 ≤ length_at i) ⊎ (length_at i + 4 ≤ b)
      → (b + 4 ≤ slot_count_at) ⊎ (slot_count_at + 4 ≤ b)
      → (b + 4 ≤ total_free_space_at) ⊎ (total_free_space_at + 4 ≤ b)
      → load marked b ≡ load p b
  unfolding mark_deleted
  load-mark_deleted b d₁ d₂ d₃ =
      load-store_ne total_free_space_at b _ p₂ (swap_sides d₃)
      ∙ (load-store_ne slot_count_at b _ p₁ (swap_sides d₂)
          ∙ load-store_ne (length_at i) b deleted_len p (swap_sides d₁))

  pub num_slots-mark_deleted : num_slots marked ≡ num_slots p
  num_slots-mark_deleted =
      load-mark_deleted num_slots_at (inl (omega arith)) (inl (omega arith)) (inl (omega arith))

  free_space-mark_deleted : free_space marked ≡ free_space p
  free_space-mark_deleted =
      load-mark_deleted free_space_at (inl (omega arith)) (inr (omega arith)) (inl (omega arith))

  pub offset-mark_deleted : (j : ℕ) → slot_offset marked j ≡ slot_offset p j
  offset-mark_deleted j =
      load-mark_deleted (offset_at j) (omega arith) (inr (omega arith)) (inr (omega arith))

  pub length-mark_deleted : (j : ℕ) → j ≢ i → slot_length marked j ≡ slot_length p j
  length-mark_deleted j ne =
      load-mark_deleted (length_at j) (omega arith) (inr (omega arith)) (inr (omega arith))

  pub dead-mark_deleted : slot_length marked i ≡ deleted_len
  unfolding mark_deleted
  dead-mark_deleted =
      load-store_ne total_free_space_at (length_at i) _ p₂ (inl (omega arith))
      ∙ (load-store_ne slot_count_at (length_at i) _ p₁ (inl (omega arith))
          ∙ load-store (length_at i) deleted_len p (omega arith))

  pub bytes-mark_deleted : (x : ℕ) → directory_end (num_slots p) ≤ x → marked x ≡ p x
  unfolding mark_deleted
  bytes-mark_deleted x le =
      store-above total_free_space_at _ p₂ x (omega arith)
      ∙ (store-above slot_count_at _ p₁ x (omega arith)
          ∙ store-above (length_at i) deleted_len p x (omega arith))

  sum_lem : live_bytes marked (num_slots p) + slot_length p i ≡ live_bytes p (num_slots p)
  sum_lem =
      live_bytes_mark p marked i live dead-mark_deleted (num_slots p) h
        (λ j _ ne. length-mark_deleted j ne)

  count_lem : live_count marked (num_slots p) + 1 ≡ live_count p (num_slots p)
  count_lem =
      live_count_mark p marked i live dead-mark_deleted (num_slots p) h
        (λ j _ ne. length-mark_deleted j ne)

  slot_count-mark_deleted : slot_count marked + 1 ≡ slot_count p
  unfolding mark_deleted
  slot_count-mark_deleted = ground (
    arith,
    v.count,
    v.below,
    v.top,
    count_lem,
    live_count-le p (num_slots p),
    load-store_ne total_free_space_at slot_count_at
        (add32 (load p₂ total_free_space_at) (slot_length p i)) p₂ (inr (omega arith)),
    load-store slot_count_at (sub32 (load p₁ slot_count_at) 1) p₁ (omega arith),
    load-store_ne (length_at i) slot_count_at deleted_len p (inr (omega arith)),
  )

  total-mark_deleted : total_free_space marked ≡ total_free_space p + slot_length p i
  unfolding mark_deleted
  total-mark_deleted = ground (
    arith,
    v.total,
    sum_lem,
    load-store total_free_space_at (add32 (load p₂ total_free_space_at) (slot_length p i)) p₂
        (omega arith),
    load-store_ne slot_count_at total_free_space_at (sub32 (load p₁ slot_count_at) 1) p₁
        (inl (omega arith)),
    load-store_ne (length_at i) total_free_space_at deleted_len p (inr (omega arith)),
  )

  is_live-mark_deleted : (j : ℕ) → is_live marked j ≡ true → is_live p j ≡ true
  is_live-mark_deleted j l = elim (Bool-cases (j == i)) [
    | inl e ↦ ground (arith, dead-mark_deleted)
    | inr e ↦ ground (arith, length-mark_deleted j (ground arith))
  ]

  live_ne : (j : ℕ) → is_live marked j ≡ true → j ≢ i
  live_ne j l e = ground (arith, dead-mark_deleted)

  pub mark_deleted-IsSlotted : IsSlotted marked
  mark_deleted-IsSlotted = record {
    below = rw (num_slots-mark_deleted, free_space-mark_deleted) v.below;
    top = rw free_space-mark_deleted v.top;
    above = λ j lt l.
        rw (free_space-mark_deleted, offset-mark_deleted j)
          (v.above j (rw num_slots-mark_deleted at lt) (is_live-mark_deleted j l));
    inside = λ j lt l.
        rw (length-mark_deleted j (live_ne j l), offset-mark_deleted j)
          (v.inside j (rw num_slots-mark_deleted at lt) (is_live-mark_deleted j l));
    count = rw num_slots-mark_deleted (omega (arith, slot_count-mark_deleted, count_lem, v.count));
    fits = rw (num_slots-mark_deleted, free_space-mark_deleted) (omega (arith, sum_lem, v.fits));
    total = rw num_slots-mark_deleted (omega (arith, total-mark_deleted, sum_lem, v.total));
  }
