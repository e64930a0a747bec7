-- ===== src/Pf/Files.antt =====
-- The routines of pflayer/pf.c that work on whole files: PF_Init, PF_InitStats, PF_CreateFile,
-- PF_DestroyFile, PF_OpenFile and PF_CloseFile. The descriptor and header of an entry without a name
-- are not read, so what a failing open() or read() stores there is not kept.
use Prim.Native.String.{String}
use text.Mathlib.Text.{◌==◌ as str_eq}
use database_assignment.Prelude.{
  ℕ, zero, suc, ◌+◌, Bool, true, false, Option, none, some, if◌then◌else◌, ltb,
}
use database_assignment.Prelude.Int.{ℤ}
use database_assignment.Result.{
  ok, Code, Call, no_mem, unix, hdr_read, hdr_write, file_open, ftab_full, ◌>>=◌, ◌>>◌, pure,
  modify,
}
use database_assignment.Hash
use database_assignment.Buf.{list_end, Memory}
use database_assignment.Buf.Ops.{release_file}
use database_assignment.Pf.{
  Header, Entry, Transfer, whole, short, refused, Unix, Pf, ftab_size, raise, put_entry, pooled,
  check_fd,
}
use database_assignment.Pf.Io.{writefcn}

-- PF_Init
unfoldable pub init : {W : Type 0} → Pf W → Pf W
init s = record s {
  pool = record s.pool { table = Hash.init };
  ftab = λ n. if ltb n ftab_size then record (s.ftab n) { fname = none } else s.ftab n;
}

-- PF_InitStats
unfoldable pub init_stats : {W : Type 0} → Pf W → Pf W
init_stats s = record s {
  pool = record s.pool { logical_reads = 0; physical_reads = 0; physical_writes = 0 };
}

-- the first of the entries n, n + 1, … that passes a test, of `k` entries in all
unfoldable pub first_entry : (Entry → Bool) → (ℕ → Entry) → ℕ → ℕ → Option ℕ
first_entry test ftab n zero = none
first_entry test ftab n (suc k) =
    let rest = first_entry test ftab (n + 1) k in if test (ftab n) then some n else rest

abbrev pub is_vacant : Entry → Bool
is_vacant e = elim e.fname [ none ↦ true | some _ ↦ false ]

abbrev pub has_name : String → Entry → Bool
has_name fname e = elim e.fname [ none ↦ false | some name ↦ str_eq name fname ]

-- PFftabFindFree
unfoldable pub find_free : (ℕ → Entry) → Option ℕ
unfolding first_entry
find_free ftab = first_entry is_vacant ftab 0 ftab_size

-- PFtabFindFname
unfoldable pub find_fname : String → (ℕ → Entry) → Option ℕ
unfolding first_entry
find_fname fname ftab = first_entry (has_name fname) ftab 0 ftab_size

module _ (os : Unix) where
  open os use {World, open_new, open_rw, close, unlink, lseek, read_hdr, write_hdr}

  abbrev pub State : Type 0
  State = Pf World

  abbrev put_world : World → State → State
  put_world w s = record s { pool = record s.pool { world = w } }

  -- the answer of a system call, with the new world
  abbrev pub system : {A : Type 0} → A × World → Call State A
  system (a, w) s = (ok a, put_world w s)

  -- if a call of the system fails, PFE_UNIX
  abbrev pub need : Bool → Call State Unit
  need true = pure tt
  need false = raise unix

  -- if a transfer of a header is not whole, an error
  abbrev pub need_whole : {A : Type 0} → Code → Transfer A → Call State A
  need_whole e (whole a) = pure a
  need_whole e short = raise e
  need_whole e refused = raise unix

  -- the clean-up of PF_CreateFile when the header is not written
  abbrev pub abandon : String → ℕ → {A : Type 0} → Transfer A → Call State (Transfer A)
  abandon fname fd (whole a) = pure (whole a)
  abandon fname fd t = do
    _ ← (λ s. system (close fd s.pool.world) s)
    _ ← (λ s. system (unlink fname s.pool.world) s)
    pure t

  -- PF_CreateFile, once the file is open
  unfoldable pub create_open : String → Option ℕ → Call State Unit
  create_open fname none = raise unix
  create_open fname (some fd) = do
    t ← (λ s. system (write_hdr fd (record { firstfree = list_end; numpages = 0 }) s.pool.world) s)
    t' ← abandon fname fd t
    _ ← need_whole hdr_write t'
    closed ← (λ s. system (close fd s.pool.world) s)
    need closed

  -- PF_CreateFile
  unfoldable pub create_file : String → Call State Unit
  unfolding create_open
  create_file fname = do fd ← (λ s. system (open_new fname s.pool.world) s); create_open fname fd

  -- PF_DestroyFile
  unfoldable pub destroy_file : String → Call State Unit
  unfolding find_fname
  destroy_file fname s = elim (find_fname fname s.ftab) [
    | some _ ↦ raise file_open s
    | none ↦ (do gone ← (λ t. system (unlink fname t.pool.world) t); need gone) s
  ]

module _ (mem : Memory) (os : Unix) where
  open os use {World, open_rw, close, read_hdr}

  -- PFftab[fd].unixfd, .hdr and .hdrchanged, .fname
  abbrev set_handle : ℕ → ℕ → Pf World → Pf World
  set_handle n handle s = put_entry n (record (s.ftab n) { unixfd = handle }) s

  abbrev set_hdr : ℕ → Header → Pf World → Pf World
  set_hdr n hdr s = put_entry n (record (s.ftab n) { hdr = hdr; hdrchanged = false }) s

  abbrev pub set_fname : ℕ → Option String → Pf World → Pf World
  set_fname n fname s = put_entry n (record (s.ftab n) { fname = fname }) s

  -- close(PFftab[fd].unixfd), without a look at its answer
  abbrev close_handle : ℕ → Call (Pf World) Unit
  close_handle handle = do _ ← (λ s. system os (close handle s.pool.world) s); pure tt

  -- the header is there, or the file is closed again
  unfoldable pub take_header : ℕ → Transfer Header → Call (Pf World) Header
  take_header handle (whole hdr) = pure hdr
  take_header handle short = do close_handle handle; raise hdr_read
  take_header handle refused = do close_handle handle; raise unix

  -- savestr, which calls malloc(), and the entry of the open file
  unfoldable pub save_name : String → ℕ → ℕ → Call (Pf World) ℕ
  save_name fname n handle s =
      let s₁ : Pf World = record s { pool = record s.pool { calls = s.pool.calls + 1 } } in
      if mem.grants s.pool.calls
      then (ok n, set_fname n (some fname) s₁)
      else (do close_handle handle; raise no_mem) s₁

  -- PF_OpenFile with the entry `n` of the table, once open() has answered
  unfoldable pub open_entry : String → ℕ → Option ℕ → Call (Pf World) ℕ
  unfolding take_header save_name
  open_entry fname n none = raise unix
  open_entry fname n (some handle) = do
    modify (set_handle n handle)
    t ← (λ s. system os (read_hdr handle s.pool.world) s)
    hdr ← take_header handle t
    modify (set_hdr n hdr)
    save_name fname n handle

  -- PF_OpenFile with the entry that PFftabFindFree gives
  unfoldable pub open_in : String → Option ℕ → Call (Pf World) ℕ
  unfolding open_entry
  open_in fname none = raise ftab_full
  open_in fname (some n) = do
    handle ← (λ s. system os (open_rw fname s.pool.world) s)
    open_entry fname n handle

  -- PF_OpenFile
  unfoldable pub open_file : String → ℕ → Call (Pf World) ℕ
  unfolding find_free open_in
  open_file fname policy = do
    modify (λ s. record s { pool = record s.pool { policy = policy } })
    (λ s. open_in fname (find_free s.ftab) s)

module _ (os : Unix) where
  open os use {World, close, lseek, write_hdr}

  -- the header goes back to the file if it has changed
  unfoldable pub write_back : ℕ → Call (Pf World) Unit
  write_back n s =
      if (s.ftab n).hdrchanged
      then (do
        sought ← (λ t. system os (lseek (s.ftab n).unixfd 0 t.pool.world) t)
        need os sought
        t ← (λ u. system os (write_hdr (s.ftab n).unixfd (s.ftab n).hdr u.pool.world) u)
        _ ← need_whole os hdr_write t
        modify (λ u. put_entry n (record (u.ftab n) { hdrchanged = false }) u))
          s
      else (ok tt, s)

  -- PF_CloseFile
  unfoldable pub close_file : ℤ → Call (Pf World) Unit
  unfolding check_fd write_back
  close_file fd = do
    n ← check_fd fd
    (λ s. pooled (release_file (writefcn os s.ftab) n s.pool) s)
    write_back n
    closed ← (λ s. system os (close (s.ftab n).unixfd s.pool.world) s)
    need os closed
    modify (λ s. put_entry n (record (s.ftab n) { fname = none }) s)
