-- ===== src/Bl/Files.antt =====
-- bulklayer/bl.c: BL_Init, BL_CreateIndex, BL_DestroyIndex, BL_OpenIndex and BL_CloseIndex; and the
-- changes to a page in a frame. The calls of PF_GetThisPage of the layer pass a fourth argument, which
-- the function does not have.
use Prim.Native.String.{String}
use database_assignment.Prelude.{ℕ, true}
use database_assignment.Prelude.Int.{ℤ, pos}
use database_assignment.Words.{Bytes, store, minus_one}
use database_assignment.Result.{Result, ok, halt}
use database_assignment.Buf.{Memory}
use database_assignment.Pf.{Unix, Pf}
use database_assignment.Pf.Pages.{unfix_page, alloc_page}
use database_assignment.Pf.Files.{init, create_file, destroy_file, open_file, close_file}
use database_assignment.Sp.File.{page_buf, set_buf}
use database_assignment.Bl.{
  BlReply, bl_ok, bl_error, exited, Routine, call, call_only, root_page_at, first_leaf_at,
  num_levels_at, num_records_at, key_type_at, key_length_at, ◌>>=◌, ◌>>◌,
}

-- a change of the page in a frame
abbrev pub change : {W : Type 0} → ℕ → (Bytes → Bytes) → Routine W (Unit {0})
change i f s = (bl_ok tt, set_buf i (f (page_buf i s)) s)

-- BL_Init
unfoldable pub bl_init : {W : Type 0} → Pf W → Pf W
unfolding init
bl_init s = init s

-- the page of a new index
unfoldable pub empty_index : Bytes → Bytes
empty_index p = store key_length_at 4 (
    store key_type_at b'i' (
      store num_records_at 0
        (store num_levels_at 0 (store first_leaf_at minus_one (store root_page_at minus_one p)))))

module _ (mem : Memory) (os : Unix) where
  open os use {World}

  -- BL_CreateIndex on the answer of PF_AllocPage
  unfoldable pub start_index : ℕ → Result (ℕ × ℕ) × Pf World → BlReply (Unit {0}) × Pf World
  unfolding empty_index unfix_page close_file
  start_index fd (ok r, s) =
      (do
        change r.1 empty_index
        call_only (unfix_page (pos fd) (pos 0) true)
        call_only (close_file os (pos fd)))
        s
  start_index fd (halt, s) = (exited, s)
  start_index fd (_, s) = (do call_only (close_file os (pos fd)); (λ t. (bl_error, t))) s

  -- BL_CreateIndex
  unfoldable pub create_index : String → Routine World (Unit {0})
  unfolding create_file open_file alloc_page start_index
  create_index name = do
    call (create_file os name)
    fd ← call (open_file mem os name 0)
    (λ s. start_index fd (alloc_page mem os (pos fd) s))

  -- BL_DestroyIndex
  unfoldable pub destroy_index : String → Routine World (Unit {0})
  unfolding destroy_file
  destroy_index name = call (destroy_file os name)

  -- BL_OpenIndex
  unfoldable pub open_index : String → Routine World ℕ
  unfolding open_file
  open_index name = call (open_file mem os name 0)

  -- BL_CloseIndex
  unfoldable pub close_index : ℤ → Routine World (Unit {0})
  unfolding close_file
  close_index fd = call (close_file os fd)
