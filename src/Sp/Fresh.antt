-- ===== src/Sp/Fresh.antt =====
-- SP_InitNewPage of splayer/sp.c: an empty page that is well formed and has room for any record that
-- a page can hold.
use database_assignment.Prelude.{ℕ, ◌-◌, ◌≤◌, ◌≡◌, ◌∙◌, ◌↔◌, true, arith, none, inr}
use database_assignment.Words.{Bytes, store, load-store, load-store_ne}
use database_assignment.Sp.{
  page_size, header_size, num_slots_at, slot_count_at, free_space_at, total_free_space_at,
  reserved_at, num_slots, free_space, slot_count, total_free_space,
}
use database_assignment.Sp.Page.{init_new_page, has_room}
use database_assignment.Sp.Valid.{live_count, live_bytes, IsSlotted}
use database_assignment.Sp.Insert.{Fits, has_room_iff}
use database_assignment.Sp.Records.{record_at, record_at-past}

module _ (p : Bytes) where
  abbrev q₁ : Bytes
  q₁ = store num_slots_at 0 p

  abbrev q₂ : Bytes
  q₂ = store slot_count_at 0 q₁

  abbrev q₃ : Bytes
  q₃ = store free_space_at page_size q₂

  abbrev q₄ : Bytes
  q₄ = store total_free_space_at (page_size - header_size) q₃

  abbrev fresh : Bytes
  fresh = init_new_page p

  pub num_slots-fresh : num_slots fresh ≡ 0
  unfolding init_new_page
  num_slots-fresh =
      load-store_ne reserved_at num_slots_at 0 q₄ (inr (omega arith))
      ∙ (load-store_ne total_free_space_at num_slots_at (page_size - header_size) q₃
            (inr (omega arith))
          ∙ (load-store_ne free_space_at num_slots_at page_size q₂ (inr (omega arith))
              ∙ (load-store_ne slot_count_at num_slots_at 0 q₁ (inr (omega arith))
                  ∙ load-store num_slots_at 0 p (omega arith))))

  slot_count-fresh : slot_count fresh ≡ 0
  unfolding init_new_page
  slot_count-fresh =
      load-store_ne reserved_at slot_count_at 0 q₄ (inr (omega arith))
      ∙ (load-store_ne total_free_space_at slot_count_at (page_size - header_size) q₃
            (inr (omega arith))
          ∙ (load-store_ne free_space_at slot_count_at page_size q₂ (inr (omega arith))
              ∙ load-store slot_count_at 0 q₁ (omega arith)))

  pub free_space-fresh : free_space fresh ≡ page_size
  unfolding init_new_page
  free_space-fresh =
      load-store_ne reserved_at free_space_at 0 q₄ (inr (omega arith))
      ∙ (load-store_ne total_free_space_at free_space_at (page_size - header_size) q₃
            (inr (omega arith))
          ∙ load-store free_space_at page_size q₂ (omega arith))

  total_free_space-fresh : total_free_space fresh ≡ page_size - header_size
  unfolding init_new_page
  total_free_space-fresh =
      load-store_ne reserved_at total_free_space_at 0 q₄ (inr (omega arith))
      ∙ load-store total_free_space_at (page_size - header_size) q₃ (omega arith)

  -- SP_InitNewPage makes a well-formed page of any bytes.
  pub init_new_page-IsSlotted : IsSlotted fresh
  unfolding live_count live_bytes
  init_new_page-IsSlotted = record {
    below = rw (num_slots-fresh, free_space-fresh) (omega arith);
    top = rw free_space-fresh (omega arith);
    above = λ j l. absurd (omega (arith, l, num_slots-fresh));
    inside = λ j l. absurd (omega (arith, l, num_slots-fresh));
    count = rw num_slots-fresh slot_count-fresh;
    fits = rw (num_slots-fresh, free_space-fresh) (omega arith);
    total = rw (num_slots-fresh, total_free_space-fresh) (omega arith);
  }

  -- No slot of it holds a record, and there is room for every record of at most 4068 bytes.
  pub init_new_page_empty : (j : ℕ) → record_at fresh j ≡ none
  init_new_page_empty j = record_at-past fresh j (omega (arith, num_slots-fresh))

  -- A page after SP_InitNewPage passes the test of SP_InsertRec for a record of at most a page
  -- long if and only if the record has at most 4068 bytes.
  pub init_new_page_room :
      (length : ℕ) → length ≤ page_size → (has_room length fresh ≡ true) ↔ (length ≤ 4068)
  init_new_page_room length h =
      let (to, from) = has_room_iff length fresh init_new_page-IsSlotted h in
      (
        λ e.
            let f : Fits length fresh = to e in omega (arith, f, num_slots-fresh, free_space-fresh),
        λ l. from (omega (arith, num_slots-fresh, free_space-fresh)),
      )
