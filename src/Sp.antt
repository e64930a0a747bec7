-- ===== src/Sp.antt =====
-- splayer/sptype.h: the layout of a slotted page. The header of five integers stands at offset 0,
-- the slot directory behind it, and the records at the end of the page.
pub mod Page
pub mod Valid
pub mod Insert
pub mod Delete
pub mod Compact
pub mod Packed
pub mod Records
pub mod File
pub mod Scan
pub mod Safe
pub mod Loops
pub mod ScanLoops
pub mod Returns
pub mod Fresh
pub mod End
pub mod Read
pub mod Tests
use database_assignment.Prelude.{ℕ, ◌+◌, ◌*◌, ◌<◌, ◌≡◌, ◌≢◌}
use database_assignment.Words.{Bytes, load, minus_one}

-- PF_PAGE_SIZE
abbrev pub page_size : ℕ
page_size = 4096

-- sizeof(SP_PageHeader) and sizeof(SP_Slot)
abbrev pub header_size : ℕ
header_size = 20

abbrev pub slot_size : ℕ
slot_size = 8

-- the offsets of the fields of SP_PageHeader
abbrev pub num_slots_at : ℕ
num_slots_at = 0

abbrev pub slot_count_at : ℕ
slot_count_at = 4

abbrev pub free_space_at : ℕ
free_space_at = 8

abbrev pub total_free_space_at : ℕ
total_free_space_at = 12

abbrev pub reserved_at : ℕ
reserved_at = 16

-- the offsets of the fields of slots[i]
abbrev pub length_at : ℕ → ℕ
length_at i = header_size + slot_size * i

abbrev pub offset_at : ℕ → ℕ
offset_at i = header_size + slot_size * i + 4

-- SP_DELETED_LEN
abbrev pub deleted_len : ℕ
deleted_len = minus_one

abbrev pub num_slots : Bytes → ℕ
num_slots p = load p num_slots_at

abbrev pub slot_count : Bytes → ℕ
slot_count p = load p slot_count_at

abbrev pub free_space : Bytes → ℕ
free_space p = load p free_space_at

abbrev pub total_free_space : Bytes → ℕ
total_free_space p = load p total_free_space_at

abbrev pub slot_length : Bytes → ℕ → ℕ
slot_length p i = load p (length_at i)

abbrev pub slot_offset : Bytes → ℕ → ℕ
slot_offset p i = load p (offset_at i)

-- where the slot directory ends
abbrev pub directory_end : ℕ → ℕ
directory_end n = header_size + slot_size * n
