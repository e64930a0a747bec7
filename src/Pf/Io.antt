-- ===== src/Pf/Io.antt =====
-- PFreadfcn and PFwritefcn of pflayer/pf.c: one page between a file and a buffer.
use database_assignment.Prelude.{ℕ, ◌+◌, ◌*◌, Bool, true, false}
use database_assignment.Result.{
  Attempt, done, failed, Code, unix, incomplete_read, incomplete_write,
}
use database_assignment.Buf.{FilePage}
use database_assignment.Pf.{Entry, Transfer, whole, short, refused, Unix}

-- sizeof(PFfpage) and PF_HDR_SIZE
abbrev pub fpage_size : ℕ
fpage_size = 4100

abbrev pub hdr_size : ℕ
hdr_size = 8

-- where page `pagenum` stands in its file
abbrev pub offset : ℕ → ℕ
offset pagenum = pagenum * fpage_size + hdr_size

-- the error of a transfer that was not whole
abbrev pub transferred : {A W : Type 0} → Code → Transfer A × W → Attempt A × W
transferred e (whole a, w) = (done a, w)
transferred e (short, w) = (failed e, w)
transferred e (refused, w) = (failed unix, w)

module _ (os : Unix) (ftab : ℕ → Entry) where
  open os use {World, lseek, read_page, write_page}

  -- what follows lseek(): the transfer, or PFE_UNIX
  abbrev pub sought : {A : Type 0} → (World → Attempt A × World) → Bool × World → Attempt A × World
  sought k (true, w) = k w
  sought k (false, w) = (failed unix, w)

  -- PFreadfcn
  unfoldable pub readfcn : ℕ → ℕ → World → Attempt FilePage × World
  readfcn fd pagenum w =
      sought (λ w'. transferred incomplete_read (read_page (ftab fd).unixfd w'))
        (lseek (ftab fd).unixfd (offset pagenum) w)

  -- PFwritefcn
  unfoldable pub writefcn : ℕ → ℕ → FilePage → World → Attempt (Unit {0}) × World
  writefcn fd pagenum buf w =
      sought (λ w'. transferred incomplete_write (write_page (ftab fd).unixfd buf w'))
        (lseek (ftab fd).unixfd (offset pagenum) w)
