-- ===== src/Hash.antt =====
-- pflayer/hash.c: the table that finds the buffer page of a file descriptor and a page number.
-- A bucket is the chain of its entries, first entry first; the back links of a chain are not kept.
-- Descriptors and page numbers are the ones that passed the guards of pf.c, so they are not negative.
use database_assignment.Prelude.{
  ℕ, ◌+◌, ◌%◌, Bool, ◌&&◌, Option, none, some, List, [], ◌∷◌, ◌==◌, if◌then◌else◌,
}
use database_assignment.Result.{Attempt, done, failed, hash_page_exist, hash_not_found, no_mem}
pub mod Laws

-- struct PFhash_entry; `bpage` is the number of a buffer frame.
pub record Entry : Type 0 where
  pub fd : ℕ
  pub page : ℕ
  pub bpage : ℕ

-- PF_HASH_TBL_SIZE
abbrev pub tbl_size : ℕ
tbl_size = 20

-- static PFhash_entry *PFhashtbl[PF_HASH_TBL_SIZE]
abbrev pub Table : Type 0
Table = ℕ → List Entry

-- the macro PFhash
unfoldable pub hash : ℕ → ℕ → ℕ
hash fd page = (fd + page) % tbl_size

-- PFhashInit
unfoldable pub init : Table
init b = []

abbrev pub matches : ℕ → ℕ → Entry → Bool
matches fd page e = e.fd == fd && e.page == page

-- the loop of PFhashFind over one bucket
unfoldable pub find_in : ℕ → ℕ → List Entry → Option ℕ
find_in fd page [] = none
find_in fd page (e ∷ es) = if matches fd page e then some e.bpage else find_in fd page es

-- PFhashFind
unfoldable pub find : Table → ℕ → ℕ → Option ℕ
unfolding hash find_in
find t fd page = find_in fd page (t (hash fd page))

-- PFhashtbl[b] = es
abbrev pub set_bucket : Table → ℕ → List Entry → Table
set_bucket t b es c = if b == c then es else t c

abbrev pub new_entry : ℕ → ℕ → ℕ → Entry
new_entry fd page bpage = record { fd = fd; page = page; bpage = bpage }

-- PFhashInsert; `granted` says whether malloc() has memory for the entry.
unfoldable pub insert : Bool → ℕ → ℕ → ℕ → Table → Attempt Unit × Table
insert granted fd page bpage t = elim (find t fd page) [
  | some _ ↦ (failed hash_page_exist, t)
  | none ↦
      if granted
      then (done tt, set_bucket t (hash fd page) (new_entry fd page bpage ∷ t (hash fd page)))
      else (failed no_mem, t)
]

-- how often malloc() was called after PFhashInsert, if it was called `n` times before
abbrev pub calls_after : Table → ℕ → ℕ → ℕ → ℕ
calls_after t fd page n = elim (find t fd page) [ none ↦ n + 1 | some _ ↦ n ]

-- unlinking the first matching entry of a chain
unfoldable pub delete_in : ℕ → ℕ → List Entry → List Entry
delete_in fd page [] = []
delete_in fd page (e ∷ es) = if matches fd page e then es else e ∷ delete_in fd page es

-- PFhashDelete
unfoldable pub delete : ℕ → ℕ → Table → Attempt Unit × Table
unfolding delete_in
delete fd page t = elim (find t fd page) [
  | none ↦ (failed hash_not_found, t)
  | some _ ↦ (done tt, set_bucket t (hash fd page) (delete_in fd page (t (hash fd page))))
]
