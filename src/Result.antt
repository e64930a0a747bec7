-- ===== src/Result.antt =====
-- The error codes of pflayer/pf.h and what a call of the paged file layer yields.
-- A call changes a state of type `S`; `PFerrno` is part of that state and is set by `raise`.

pub data Code : Type 0 where
  no_mem no_buf page_fixed page_not_in_buf unix : Code
  incomplete_read incomplete_write hdr_read hdr_write invalid_page : Code
  file_open ftab_full bad_fd eof page_free page_unfixed : Code
  page_in_buf hash_not_found hash_page_exist : Code

-- `ok a` is PFE_OK with the out parameter `a`; `held a` is PFE_PAGEFIXED with the out parameter
-- still set to `a`; `halt` is `exit(1)`, or a table read outside its bounds.
pub data Result (A : Type 0) : Type 0 where
  ok : A → Result A
  err : Code → Result A
  held : A → Result A
  halt : Result A

-- What a call yields that has no other outcome than PFE_OK and an error code.
pub data Attempt (A : Type 0) : Type 0 where
  done : A → Attempt A
  failed : Code → Attempt A

-- A call: from a state to a result and the state afterwards.
abbrev pub Call : Type 0 → Type 0 → Type 0
Call S A = S → Result A × S

-- `if ((error = m) != PFE_OK) return(error);`, then the rest.
abbrev pub after : {A B S : Type 0} → (A → Call S B) → Result A → S → Result B × S
after f (ok a) s = f a s
after f (err e) s = (err e, s)
after f (held a) s = (err page_fixed, s)
after f halt s = (halt, s)

infixl 5 ◌>>=◌ ◌>>◌
abbrev pub ◌>>=◌ : {A B S : Type 0} → Call S A → (A → Call S B) → Call S B
◌>>=◌ m f s = after f (m s).0 (m s).1

abbrev pub ◌>>◌ : {B S : Type 0} → Call S (Unit {0}) → Call S B → Call S B
m >> k = m >>= λ _. k

abbrev pub pure : {A S : Type 0} → A → Call S A
pure a s = (ok a, s)

abbrev pub modify : {S : Type 0} → (S → S) → Call S (Unit {0})
modify f s = (ok tt, f s)

-- If the call returns an error, clean up and return the error.
abbrev pub on_error : {A S : Type 0} → (S → S) → Result A × S → Result A × S
on_error f (ok a, s) = (ok a, s)
on_error f (err e, s) = (err e, f s)
on_error f (held a, s) = (held a, f s)
on_error f (halt, s) = (halt, s)

-- A call that the source takes to be impossible to fail: an error ends the program.
abbrev pub or_exit : {A S : Type 0} → Result A × S → Result A × S
or_exit (ok a, s) = (ok a, s)
or_exit (err e, s) = (halt, s)
or_exit (held a, s) = (halt, s)
or_exit (halt, s) = (halt, s)

-- The outcome satisfies `P` with its value, or `E` if it is an error; the program does not end.
abbrev pub Post : {A S : Type 0} → (A → S → Type 0) → (S → Type 0) → Result A × S → Type 0
Post P E (ok a, s) = P a s
Post P E (err e, s) = E s
Post P E (held a, s) = E s
Post P E (halt, s) = ⊥

module _ {A B S : Type 0} where
  pub Post-bind :
      (P : A → S → Type 0) (Q : B → S → Type 0) (E : S → Type 0) (f : A → Call S B)
      (r : Result A × S)
      → Post P E r
      → ((a : A) (s : S) → P a s → Post Q E (f a s))
      → Post Q E (after f r.0 r.1)
  Post-bind P Q E f (ok a, s) h k = k a s h
  Post-bind P Q E f (err e, s) h k = h
  Post-bind P Q E f (held a, s) h k = h
  Post-bind P Q E f (halt, s) h k = h

module _ {A S : Type 0} where
  pub Post-mono :
      (P Q : A → S → Type 0) (E F : S → Type 0) (r : Result A × S)
      → ((a : A) (s : S) → P a s → Q a s)
      → ((s : S) → E s → F s)
      → Post P E r
      → Post Q F r
  Post-mono P Q E F (ok a, s) h k p = h a s p
  Post-mono P Q E F (err e, s) h k p = k s p
  Post-mono P Q E F (held a, s) h k p = k s p
  Post-mono P Q E F (halt, s) h k p = p
