-- ===== src/Sp/Valid.antt =====
-- When a page of splayer/sp.c is well formed, and what four writes to its header leave alone.
use database_assignment.Prelude.{
  ℕ, zero, suc, ◌+◌, ◌≤◌, ◌<◌, ◌≡◌, refl, Bool, true, false, arith, ◌==◌, if◌then◌else◌, inl, inr,
}
use database_assignment.Words.{Bytes, word, load, store, load-store, load-store_ne, store-above}
use database_assignment.Sp.{
  page_size, header_size, num_slots_at, slot_count_at, free_space_at, total_free_space_at,
  deleted_len, num_slots, free_space, slot_count, total_free_space, slot_length, slot_offset,
  directory_end,
}

-- Slot `i` holds a record.
abbrev pub is_live : Bytes → ℕ → Bool
is_live p i = if slot_length p i == deleted_len then false else true

-- how many of the slots before `n` hold a record
unfoldable pub live_count : Bytes → ℕ → ℕ
live_count p zero = 0
live_count p (suc i) = live_count p i + (if is_live p i then 1 else 0)

-- how many bytes their records have
unfoldable pub live_bytes : Bytes → ℕ → ℕ
live_bytes p zero = 0
live_bytes p (suc i) = live_bytes p i + (if is_live p i then slot_length p i else 0)

-- The directory ends below the free space, the records stand above it, and the counters of the
-- header are exact.
pub record IsSlotted (p : Bytes) : Type 0 where
  pub below : directory_end (num_slots p) ≤ free_space p
  pub top : free_space p ≤ page_size
  pub above : (i : ℕ) → i < num_slots p → is_live p i ≡ true → free_space p ≤ slot_offset p i
  pub inside :
      (i : ℕ) → i < num_slots p → is_live p i ≡ true → slot_offset p i + slot_length p i ≤ page_size
  pub count : slot_count p ≡ live_count p (num_slots p)
  pub fits : live_bytes p (num_slots p) + free_space p ≤ page_size
  pub total :
      total_free_space p + directory_end (num_slots p) + live_bytes p (num_slots p) ≡ page_size

-- The slots before `n` have the same lengths in two pages.
abbrev pub SameLengths : Bytes → Bytes → ℕ → Type 0
SameLengths p q n = (i : ℕ) → i < n → slot_length p i ≡ slot_length q i

pub live_bytes-congr : (p q : Bytes) (n : ℕ) → SameLengths p q n → live_bytes p n ≡ live_bytes q n
unfolding live_bytes
live_bytes-congr p q zero h = refl
live_bytes-congr p q (suc n) h =
    ground (arith, live_bytes-congr p q n (λ i l. h i (omega arith)), h n)

pub live_count-congr : (p q : Bytes) (n : ℕ) → SameLengths p q n → live_count p n ≡ live_count q n
unfolding live_count
live_count-congr p q zero h = refl
live_count-congr p q (suc n) h =
    ground (arith, live_count-congr p q n (λ i l. h i (omega arith)), h n)

pub live_count-le : (p : Bytes) (n : ℕ) → live_count p n ≤ n
unfolding live_count
live_count-le p zero = omega arith
live_count-le p (suc n) = ground (arith, live_count-le p n)

-- the four fields of the header that the routines write
abbrev pub write_header : ℕ → ℕ → ℕ → ℕ → Bytes → Bytes
write_header slots count free total p =
    store total_free_space_at total
      (store slot_count_at count (store num_slots_at slots (store free_space_at free p)))

module _ (slots count free total : ℕ) (p : Bytes) where
  -- Behind the header nothing changes.
  pub load-write_header :
      (b : ℕ) → header_size ≤ b → load (write_header slots count free total p) b ≡ load p b
  load-write_header b h =
      let p₁ = store free_space_at free p in
      let p₂ = store num_slots_at slots p₁ in
      let p₃ = store slot_count_at count p₂ in
      ground (
        arith,
        load-store_ne total_free_space_at b total p₃ (inl (omega arith)),
        load-store_ne slot_count_at b count p₂ (inl (omega arith)),
        load-store_ne num_slots_at b slots p₁ (inl (omega arith)),
        load-store_ne free_space_at b free p (inl (omega arith)),
      )

  pub write_header-above : (x : ℕ) → header_size ≤ x → write_header slots count free total p x ≡ p x
  write_header-above x h =
      let p₁ = store free_space_at free p in
      let p₂ = store num_slots_at slots p₁ in
      let p₃ = store slot_count_at count p₂ in
      ground (
        arith,
        store-above total_free_space_at total p₃ x,
        store-above slot_count_at count p₂ x,
        store-above num_slots_at slots p₁ x,
        store-above free_space_at free p x,
      )

  -- and the fields are read back.
  pub header-write_header :
      slots < word
      → count < word
      → free < word
      → total < word
      → (num_slots (write_header slots count free total p) ≡ slots)
        × (slot_count (write_header slots count free total p) ≡ count)
        × (free_space (write_header slots count free total p) ≡ free)
        × (total_free_space (write_header slots count free total p) ≡ total)
  header-write_header h₁ h₂ h₃ h₄ =
      let p₁ = store free_space_at free p in
      let p₂ = store num_slots_at slots p₁ in
      let p₃ = store slot_count_at count p₂ in
      (
        ground (
          arith,
          load-store_ne total_free_space_at num_slots_at total p₃ (inr (omega arith)),
          load-store_ne slot_count_at num_slots_at count p₂ (inr (omega arith)),
          load-store num_slots_at slots p₁ h₁,
        ),
        ground (
          arith,
          load-store_ne total_free_space_at slot_count_at total p₃ (inr (omega arith)),
          load-store slot_count_at count p₂ h₂,
        ),
        ground (
          arith,
          load-store_ne total_free_space_at free_space_at total p₃ (inr (omega arith)),
          load-store_ne slot_count_at free_space_at count p₂ (inl (omega arith)),
          load-store_ne num_slots_at free_space_at slots p₁ (inl (omega arith)),
          load-store free_space_at free p h₃,
        ),
        load-store total_free_space_at total p₃ h₄,
      )
