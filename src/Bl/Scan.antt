-- ===== src/Bl/Scan.antt =====
-- bulklayer/blscan.c: BL_OpenScan, BL_GetNext and BL_CloseScan. There is a bound on the leaves that one
-- call of BL_GetNext visits.
use database_assignment.Prelude.{
  ℕ, zero, suc, ◌+◌, ◌-◌, false, true, Bool, Option, some, none, ltb, ◌==◌, if◌then◌else◌,
}
use database_assignment.Prelude.Int.{ℤ, pos}
use database_assignment.Words.{Bytes, load, minus_one}
use database_assignment.Result.{Result, ok, halt}
use database_assignment.Buf.{Memory}
use database_assignment.Pf.{Unix, Pf}
use database_assignment.Pf.Pages.{unfix_page, get_this_page}
use database_assignment.Sp.File.{page_buf}
use database_assignment.Am.Tree.{to_int}
use database_assignment.Bl.{
  BlReply, bl_ok, bl_error, bl_eof, exited, undefined, running, Routine, call, call_only, sc,
  first_leaf_at, num_keys_at, next_page_at, max_leaf_entries, key_count, leaf_key, leaf_value,
  ◌>>=◌, ◌>>◌,
}

-- BL_ScanDesc
pub record ScanDesc : Type 0 where
  pub index_fd : ℤ
  pub op : ℕ
  pub scan_key : ℕ
  pub current_page : ℕ
  pub current_slot : ℕ
  pub is_open : Bool

-- the inner loop of BL_GetNext: the first of the `k` slots from `slot` on whose key passes the test
unfoldable pub scan_slots : Bytes → ℕ → ℕ → ℕ → ℕ → Option ℕ
unfolding sc
scan_slots p op key slot zero = none
scan_slots p op key slot (suc k) =
    let rest = scan_slots p op key (slot + 1) k in
    if sc (leaf_key p slot) op key then some slot else rest

-- BL_CloseScan
unfoldable pub close_scan : ScanDesc → ScanDesc
close_scan d = record d { is_open = false }

-- a return from BL_GetNext, with the scan descriptor as it is then
abbrev pub Step : Type 0 → Type 0
Step W = BlReply (ℕ × ℕ) × ScanDesc × Pf W

-- PF_UnfixPage, whose answer is not looked at, and then the next thing
abbrev pub passed : {W : Type 0} → ScanDesc → (Pf W → Step W) → Result (Unit {0}) × Pf W → Step W
passed d next (halt, s) = (exited, d, s)
passed d next (_, s) = next s

module _ (mem : Memory) (os : Unix) where
  open os use {World}

  -- BL_OpenScan
  unfoldable pub open_scan : ℤ → ℕ → ℕ → Routine World ScanDesc
  unfolding unfix_page get_this_page
  open_scan fd op key = do
    i ← call (get_this_page mem os fd (pos 0))
    (λ s.
        let d : ScanDesc = record {
          index_fd = fd;
          op = op;
          scan_key = key;
          current_page = load (page_buf i s) first_leaf_at;
          current_slot = 0;
          is_open = true;
        } in
        (do call_only (unfix_page fd (pos 0) false); (λ t. (bl_ok d, t))) s)

  -- BL_GetNext on a leaf: the entry, or the leaf behind it, from which `rest` goes on
  unfoldable pub scan_leaf :
      (ScanDesc → Pf World → Step World) → ScanDesc → Bytes → Pf World → Step World
  unfolding scan_slots unfix_page
  scan_leaf rest d p s =
      let n = key_count (load p num_keys_at) in
      if ltb max_leaf_entries n
      then (undefined, d, s)
      else elim (scan_slots p d.op d.scan_key d.current_slot (n - d.current_slot)) [
        | some slot ↦
            let found : ScanDesc = record d { current_slot = slot + 1 } in
            passed found (λ t. (bl_ok (leaf_key p slot, leaf_value p slot), found, t))
              (unfix_page d.index_fd (to_int d.current_page) false s)
        | none ↦
            let next : ScanDesc = record d {
              current_page = load p next_page_at;
              current_slot = 0;
            } in
            passed next (rest next) (unfix_page d.index_fd (to_int d.current_page) false s)
      ]

  -- the outer loop on the answer of PF_GetThisPage
  unfoldable pub scan_page :
      (ScanDesc → Pf World → Step World) → ScanDesc → Result ℕ × Pf World → Step World
  unfolding scan_leaf
  scan_page rest d (ok i, s) = scan_leaf rest d (page_buf i s) s
  scan_page rest d (halt, s) = (exited, d, s)
  scan_page rest d (_, s) = (bl_error, d, s)

  -- the outer loop
  unfoldable pub scan_from : ℕ → ScanDesc → Pf World → Step World
  unfolding scan_page get_this_page
  scan_from zero d s = (running, d, s)
  scan_from (suc fuel) d s = elim (d.current_page == minus_one) [
    | true ↦ (bl_eof, d, s)
    | false ↦
        scan_page (scan_from fuel) d (get_this_page mem os d.index_fd (to_int d.current_page) s)
  ]

  -- BL_GetNext
  unfoldable pub get_next : ℕ → ScanDesc → Pf World → Step World
  unfolding scan_from
  get_next fuel d s = if d.is_open then scan_from fuel d s else (bl_error, d, s)
