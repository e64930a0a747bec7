-- ===== src/Am/Tree/Safe.antt =====
-- AM_Search of amlayer/amsearch.c on the buffer pool: the calls of the paged file layer never end the
-- program.
use database_assignment.Prelude.{
  ℕ, zero, suc, ◌-◌, ◌≡◌, refl, Bool, true, false, Option, some, none, length, ltb, ◌==◌, ==_iff,
  if◌then◌else◌, Bool-cases, inl, inr,
}
use database_assignment.Prelude.Int.{ℤ, pos, negsuc}
use database_assignment.Result.{Post-mono}
use database_assignment.Words.{Bytes, word, half_word}
use database_assignment.Buf.{Memory}
use database_assignment.Pf.{Unix}
use database_assignment.Pf.Pages.{unfix_page, get_this_page, get_first_page}
use database_assignment.Pf.Safe.{IsSafe, IsPinned, IsThisPage, get_this_page-Post}
use database_assignment.Pf.SafeLists.{unfix_page-Post, IsNextPage, get_next_page-Post}
use database_assignment.Am.{AttrType, Libc, attr_length, num_keys}
use database_assignment.Am.Search.{search_leaf, bin_search}
use database_assignment.Am.Node.{int_num_keys, int_attr_length}
use database_assignment.Am.Tree.{
  Am, am_ok, undefined, Op, to_int, give, pf_call, buf, push_stack, max_stack, ◌>>=◌, ◌>>◌,
}
use database_assignment.Am.Tree.Outcome.{Outcome, Outcome-bind, pf_call-Outcome}
use database_assignment.Am.Tree.Find.{
  is_leaf, Found, check_length, find_in_leaf, choose_child, step_down, descend, search,
}

-- The page `page` of the file `fd` is in the frame `i`, fixed and in use.
abbrev pub IsAt : {W : Type 0} → ℤ → ℕ → ℕ → Am W → Type 0
IsAt fd page i s = (n : ℕ) × (fd ≡ pos n) × IsPinned n page i s.pf

-- The header of the page in frame `i` has attributes of `len` bytes.
abbrev pub HasLength : {W : Type 0} → ℕ → ℕ → Am W → Type 0
HasLength len i s =
    (if is_leaf (buf i s) then attr_length (buf i s) else int_attr_length (buf i s)) ≡ len

to_int-pos : (w p : ℕ) → to_int w ≡ pos p → w ≡ p
to_int-pos w p h = elim (Bool-cases (ltb w half_word)) [
  | inl e ↦ (let k : pos w ≡ pos p = rw e at h in cc)
  | inr e ↦ (let k : negsuc (word - 1 - w) ≡ pos p = rw e at h in cc)
]

check_length-Outcome :
    {W : Type 0} (Q : Am W → Type 0) (E : Am W → Type 0) (len i : ℕ) (s : Am W)
    → Q s
    → E s
    → Outcome (λ _ t. Q t × HasLength len i t) E (check_length len i s)
unfolding check_length
check_length-Outcome Q E len i s q e =
    elim (Bool-cases
      ((if is_leaf (buf i s) then attr_length (buf i s) else int_attr_length (buf i s)) == len)) [
        | inl f ↦ rw f (
          q,
          (==_iff (if is_leaf (buf i s) then attr_length (buf i s) else int_attr_length (buf i s))
                len).0
              f,
        )
        | inr f ↦ rw f e
      ]

module _ {W : Type 0} (libc : Libc) (type : AttrType) (len : ℕ) (value : Bytes) where
  -- The index and the status are those of AM_SearchLeaf.
  abbrev pub IsAnswer : Found → Am W → Type 0
  IsAnswer f t =
      (is_leaf (buf f.frame t) ≡ true)
      × (attr_length (buf f.frame t) ≡ len)
      × (search_leaf libc type len value (buf f.frame t) (num_keys (buf f.frame t))
          ≡ some (f.index, f.status))

  find_in_leaf-Outcome :
      (Q : ℕ → ℕ → Am W → Type 0) (E : Am W → Type 0) (page i : ℕ) (s : Am W)
      → Q page i s
      → HasLength len i s
      → is_leaf (buf i s) ≡ true
      → Outcome
          (λ f t. Q f.page f.frame t × IsAnswer f t)
          E
          (find_in_leaf libc type len value page i s)
  unfolding find_in_leaf
  find_in_leaf-Outcome Q E page i s q h l =
      go (search_leaf libc type len value (buf i s) (num_keys (buf i s))) refl
    where
      go :
          (r : Option (ℕ × Bool))
          → search_leaf libc type len value (buf i s) (num_keys (buf i s)) ≡ r
          → Outcome {A = Found}
              (λ f t. Q f.page f.frame t × IsAnswer f t)
              E
              (elim r [
                | none ↦ (undefined, s)
                | some (index, status) ↦
                    (am_ok (record { page = page; frame = i; index = index; status = status }), s)
              ])
      go none e = tt
      go (some (index, status)) e = (q, (l, rw l at h, e))

  choose_child-Outcome :
      (E : Am W → Type 0) (i : ℕ) (s : Am W)
      → E s
      → Outcome (λ _. E) E (choose_child libc type len value i s)
  unfolding choose_child
  choose_child-Outcome E i s e =
      go (bin_search libc type len value (buf i s) (int_num_keys (buf i s)))
    where
      go :
          (r : Option (ℕ × ℕ))
          → Outcome {A = ℕ × ℕ}
              (λ _. E)
              E
              (elim r [ none ↦ (undefined, s) | some q ↦ (am_ok q, s) ])
      go none = tt
      go (some r) = e

push_stack-Outcome :
    {W : Type 0} (page offset : ℕ) (s : Am W)
    → IsSafe s.pf
    → Outcome (λ _ t. IsSafe t.pf) (λ t. IsSafe t.pf) (push_stack page offset s)
unfolding push_stack
push_stack-Outcome page offset s v = elim (Bool-cases (ltb (length s.stack) max_stack)) [
  | inl e ↦ rw e v
  | inr e ↦ rw e tt
]

module _ (mem : Memory) (os : Unix) (libc : Libc) (type : AttrType) (len : ℕ) (value : Bytes)
    (fd : ℤ) where
  open os use {World}

  abbrev pub Safe : Am World → Type 0
  Safe t = IsSafe t.pf

  abbrev Below : ℕ × ℕ → Am World → Type 0
  Below r t = IsAt fd r.0 r.1 t × HasLength len r.1 t

  IsAt-Safe : (page i : ℕ) (t : Am World) → IsAt fd page i t → Safe t
  IsAt-Safe page i t (n, e, k) = k.0.0

  abbrev after_unfix : ℕ → Op World (ℕ × ℕ)
  after_unfix next =
      pf_call (get_this_page mem os fd (to_int next)) >>= λ j. check_length len j >> give (next, j)

  abbrev after_push : ℕ → ℕ → Op World (ℕ × ℕ)
  after_push page next = pf_call (unfix_page fd (to_int page) false) >> after_unfix next

  abbrev after_child : ℕ → ℕ × ℕ → Op World (ℕ × ℕ)
  after_child page next = push_stack page next.1 >> after_push page next.0

  after_unfix-Outcome : (next : ℕ) (s : Am World) → Safe s → Outcome Below Safe (after_unfix next s)
  after_unfix-Outcome next s v =
      Outcome-bind (λ j t. IsAt fd next j t) Below Safe (λ j. check_length len j >> give (next, j))
        (pf_call (get_this_page mem os fd (to_int next)) s)
        (pf_call-Outcome (λ j t. (n : ℕ) × (fd ≡ pos n) × IsPinned n next j t) IsSafe s
          (get_this_page mem os fd (to_int next) s.pf)
          (Post-mono (IsThisPage mem os fd (to_int next))
            (λ j t. (n : ℕ) × (fd ≡ pos n) × IsPinned n next j t) IsSafe IsSafe
            (get_this_page mem os fd (to_int next) s.pf)
            (λ j t (n, p, e, q, _, _, k). (n, e, rw (to_int-pos next p q) k)) (λ t k. k)
            (get_this_page-Post mem os fd (to_int next) s.pf v)))
        (λ j t u.
          Outcome-bind (λ _ w. IsAt fd next j w × HasLength len j w) Below Safe
            (λ _. give (next, j)) (check_length len j t)
            (check_length-Outcome (IsAt fd next j) Safe len j t u (IsAt-Safe next j t u))
            (λ _ w x. x))

  step_down-Outcome :
      (page i : ℕ) (s : Am World)
      → Safe s
      → Outcome Below Safe (step_down mem os libc type len value fd page i s)
  unfolding step_down
  step_down-Outcome page i s v =
      Outcome-bind (λ _. Safe) Below Safe (λ next. after_child page next)
        (choose_child libc type len value i s) (choose_child-Outcome libc type len value Safe i s v)
        (λ next t u.
          Outcome-bind (λ _. Safe) Below Safe (λ _. after_push page next.0)
            (push_stack page next.1 t) (push_stack-Outcome page next.1 t u)
            (λ _ w x.
              Outcome-bind (λ _. Safe) Below Safe (λ _. after_unfix next.0)
                (pf_call (unfix_page fd (to_int page) false) w)
                (pf_call-Outcome (λ _. IsSafe) IsSafe w (unfix_page fd (to_int page) false w.pf)
                  (unfix_page-Post fd (to_int page) false w.pf x))
                (λ _ y z. after_unfix-Outcome next.0 y z)))

  abbrev pub Answers : Found → Am World → Type 0
  Answers f t = IsAt fd f.page f.frame t × IsAnswer libc type len value f t

  descend-Outcome :
      (k page i : ℕ) (s : Am World)
      → IsAt fd page i s
      → HasLength len i s
      → Outcome Answers Safe (descend mem os libc type len value fd k page i s)
  unfolding descend
  descend-Outcome zero page i s a h = elim (Bool-cases (is_leaf (buf i s))) [
    | inl e ↦ rw e (find_in_leaf-Outcome libc type len value (IsAt fd) Safe page i s a h e)
    | inr e ↦ rw e tt
  ]
  descend-Outcome (suc k) page i s a h = elim (Bool-cases (is_leaf (buf i s))) [
    | inl e ↦
        rw (e, descend) (find_in_leaf-Outcome libc type len value (IsAt fd) Safe page i s a h e)
    | inr e ↦
        rw (e, descend)
          (Outcome-bind Below Answers Safe
            (λ next. descend mem os libc type len value fd k next.0 next.1)
            (step_down mem os libc type len value fd page i s)
            (step_down-Outcome page i s (IsAt-Safe page i s a))
            (λ next t (b, l). descend-Outcome k next.0 next.1 t b l))
  ]

  -- From a well-formed buffer pool and whatever the pages hold, no call of AM_Search to the paged
  -- file layer ends the program. When it returns a result, the page is in its frame, fixed and in
  -- use, and is a leaf for attributes of the length that was given, and the index and the status
  -- are those of AM_SearchLeaf on it; with an error the pool is well formed. The third outcome is
  -- the one that C does not define: a push on the full stack, or a search function that ends
  -- without a return.
  pub search-Outcome :
      (s : Am World) → IsSafe s.pf → Outcome Answers Safe (search mem os libc type len value fd s)
  unfolding search get_first_page
  search-Outcome s v =
      Outcome-bind (λ r t. IsAt fd r.0 r.1 t) Answers Safe
        (λ r.
          check_length len r.1
          >> (λ t. descend mem os libc type len value fd (max_stack - length t.stack) r.0 r.1 t))
        (pf_call (get_first_page mem os fd) s)
        (pf_call-Outcome (λ r t. (n : ℕ) × (fd ≡ pos n) × IsPinned n r.0 r.1 t) IsSafe s
          (get_first_page mem os fd s.pf)
          (Post-mono (IsNextPage mem os fd (negsuc 0))
            (λ r t. (n : ℕ) × (fd ≡ pos n) × IsPinned n r.0 r.1 t) IsSafe IsSafe
            (get_first_page mem os fd s.pf) (λ r t (n, e, (_, k)). (n, e, k)) (λ t k. k)
            (get_next_page-Post mem os fd (negsuc 0) s.pf v)))
        (λ r t u.
          Outcome-bind (λ _ w. IsAt fd r.0 r.1 w × HasLength len r.1 w) Answers Safe
            (λ _ w. descend mem os libc type len value fd (max_stack - length w.stack) r.0 r.1 w)
            (check_length len r.1 t)
            (check_length-Outcome (IsAt fd r.0 r.1) Safe len r.1 t u (IsAt-Safe r.0 r.1 t u))
            (λ _ w (a, h). descend-Outcome (max_stack - length w.stack) r.0 r.1 w a h))
