-- ===== src/Hash/Laws.antt =====
-- pflayer/hash.c as a finite map: every operation by what `find` answers afterwards.
use database_assignment.Prelude.{
  ℕ, ◌≡◌, refl, Bool, true, false, ◌&&◌, none, some, List, [], ◌∷◌, arith, ◌==◌, if◌then◌else◌,
}
use database_assignment.Result.{done, failed, no_mem}
use database_assignment.Hash.{Entry, Table, hash, init, find_in, find, insert, delete_in, delete}

-- No key stands twice in a chain.
unfoldable pub Chained : List Entry → Type 0
Chained [] = Unit
Chained (e ∷ es) = (find_in e.fd e.page es ≡ none) × Chained es

-- No key stands twice in the table.
pub record IsMap (t : Table) : Type 0 where
  pub chain : (b : ℕ) → Chained (t b)

-- Two keys are the same.
abbrev pub same : ℕ → ℕ → ℕ → ℕ → Bool
same fd page fd' page' = fd == fd' && page == page'

pub find-init : (fd page : ℕ) → find init fd page ≡ none
unfolding find init
find-init fd page = refl

pub init-IsMap : IsMap init
unfolding init Chained
init-IsMap = record { chain = λ b. tt }

find_in-delete_in_ne :
    (fd page fd' page' : ℕ) (es : List Entry)
    → same fd page fd' page' ≡ false
    → find_in fd' page' (delete_in fd page es) ≡ find_in fd' page' es
unfolding find_in delete_in
find_in-delete_in_ne fd page fd' page' [] h = refl
find_in-delete_in_ne fd page fd' page' (e ∷ es) h =
    ground (arith, find_in-delete_in_ne fd page fd' page' es)

find_in-delete_in_self :
    (fd page : ℕ) (es : List Entry) → Chained es → find_in fd page (delete_in fd page es) ≡ none
unfolding find_in delete_in Chained
find_in-delete_in_self fd page [] h = refl
find_in-delete_in_self fd page (e ∷ es) h = ground (arith, find_in-delete_in_self fd page es)

find_in-delete_in-none :
    (fd page fd' page' : ℕ) (es : List Entry)
    → Chained es
    → find_in fd' page' es ≡ none
    → find_in fd' page' (delete_in fd page es) ≡ none
unfolding find_in delete_in Chained
find_in-delete_in-none fd page fd' page' [] c h = refl
find_in-delete_in-none fd page fd' page' (e ∷ es) c h =
    ground (arith, find_in-delete_in-none fd page fd' page' es)

Chained-delete_in : (fd page : ℕ) (es : List Entry) → Chained es → Chained (delete_in fd page es)
unfolding delete_in Chained
Chained-delete_in fd page [] c = tt
Chained-delete_in fd page (e ∷ es) c =
    ground (arith, Chained-delete_in fd page es, find_in-delete_in-none fd page e.fd e.page es)

-- The table after an insertion that succeeds.
pub insert-ok :
    (fd page bpage : ℕ) (t : Table)
    → find t fd page ≡ none
    → (insert true fd page bpage t).0 ≡ done tt
unfolding insert
insert-ok fd page bpage t h = ground arith

-- Without memory nothing is inserted.
pub insert-refused :
    (fd page bpage : ℕ) (t : Table)
    → find t fd page ≡ none
    → insert false fd page bpage t ≡ (failed no_mem, t)
unfolding insert
insert-refused fd page bpage t h = ground arith

-- After PFhashInsert of a key that is not in the table, with memory for it, PFhashFind finds the
-- frame under that key and answers as before for every other key.
pub find-insert :
    (fd page bpage fd' page' : ℕ) (t : Table)
    → find t fd page ≡ none
    → find (insert true fd page bpage t).1 fd' page'
      ≡ (if same fd page fd' page' then some bpage else find t fd' page')
unfolding find insert
find-insert fd page bpage fd' page' t h = ground arith

pub insert-IsMap :
    (granted : Bool) (fd page bpage : ℕ) (t : Table)
    → IsMap t
    → IsMap (insert granted fd page bpage t).1
unfolding find insert Chained
insert-IsMap granted fd page bpage t m = record {
  chain = λ b. ground (arith, m.chain b, m.chain (hash fd page));
}

pub delete-ok :
    (fd page i : ℕ) (t : Table) → find t fd page ≡ some i → (delete fd page t).0 ≡ done tt
unfolding delete
delete-ok fd page i t h = ground arith

-- After PFhashDelete on a table whose chains have no key twice, PFhashFind does not find the key
-- and answers as before for every other key.
pub find-delete :
    (fd page fd' page' : ℕ) (t : Table)
    → IsMap t
    → find (delete fd page t).1 fd' page'
      ≡ (if same fd page fd' page' then none else find t fd' page')
unfolding find delete
find-delete fd page fd' page' t m = ground (
  arith,
  find_in-delete_in_self fd page (t (hash fd page)) (m.chain (hash fd page)),
  find_in-delete_in_ne fd page fd' page' (t (hash fd page)),
)

pub delete-IsMap : (fd page : ℕ) (t : Table) → IsMap t → IsMap (delete fd page t).1
unfolding delete
delete-IsMap fd page t m = record {
  chain = λ b.
      ground
        (arith, m.chain b, Chained-delete_in fd page (t (hash fd page)) (m.chain (hash fd page)));
}
