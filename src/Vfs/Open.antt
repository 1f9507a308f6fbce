-- ===== src/Vfs/Open.antt =====
-- `do_open` of K2/open.c, over `open_namev` and the table of descriptors. `fget(-1)`, which makes a
-- new file, and `fput` are parameters.
pub mod Laws
use weenix_kernel_implementa.Common.{
  ℕ, Bool, true, false, not, ◌&&◌, ◌||◌, Option, none, some, List, if◌then◌else◌, update, Exec, ok,
  panic, ◌>>=◌,
}
use weenix_kernel_implementa.Vfs.Files.{File, Files, Ret, ret, empty_fd_loop}
use weenix_kernel_implementa.Vfs.Vnode.{
  Errno, einval, emfile, enomem, Result, success, error, VnodeOps,
}
use weenix_kernel_implementa.Vfs.Namev.{OpenFlags, open_namev}

pub record NewFiles (Store : Type 0) : Type 0 where
  pub nfiles : ℕ
  pub fget_new : Files Store → Option ℕ × Files Store
  pub fput : ℕ → Files Store → Files Store

-- `readAndWrite`, `writeOnly`, `readOnly`; O_RDONLY is 0, so that `oflags & O_RDONLY` never holds.
abbrev pub read_and_write : OpenFlags → Bool
read_and_write o = o.o_rdwr && not o.o_wronly

abbrev pub write_only : OpenFlags → Bool
write_only o = o.o_wronly && not o.o_rdwr

abbrev pub read_only : OpenFlags → Bool
read_only o = not o.o_wronly && (not o.o_rdwr && (not o.o_append && not o.o_other))

-- The file with f_mode set, or -EINVAL.
pub mode_of : OpenFlags → File → Option File
mode_of o file =
    let append : File = record file {
      fmode_read = false;
      fmode_write = false;
      fmode_append = o.o_append;
    } in
    if write_only o
    then some (record append { fmode_write = true })
    else if read_and_write o
    then some (record append { fmode_read = true; fmode_write = true })
    else if read_only o
    then some (record append { fmode_read = true })
    else none

module _ (ops : VnodeOps) (nf : NewFiles ops.Store) where
  abbrev pub set_slot : ℕ → Option ℕ → Files ops.Store → Files ops.Store
  set_slot fd f s = record s { p_files = update s.p_files fd f }

  abbrev pub put_file : ℕ → File → Files ops.Store → Files ops.Store
  put_file f file s = record s { files = update s.files f file }

  -- What follows `open_namev`.
  pub open_done : ℕ → ℕ → Files ops.Store → Result ℕ × ops.Store → Result ℕ × Files ops.Store
  open_done fd f s (error e, st) = (error e, nf.fput f (set_slot fd none (record s { store = st })))
  open_done fd f s (success v, st) =
      let file : File = record (s.files f) { f_pos = 0; f_refcount = 1; f_vnode = v } in
      (success fd, put_file f file (record s { store = st }))

  -- The new file `f` is in the table, with its mode if the flags give one.
  pub open_with :
      ℕ
      → ℕ
      → List ℕ
      → OpenFlags
      → ℕ
      → Option File
      → Files ops.Store
      → Exec (Result ℕ × Files ops.Store)
  unfolding open_done
  open_with fd f path flags cwd none s = ok (error einval, set_slot fd none (nf.fput f s))
  open_with fd f path flags cwd (some file) s = do
    opened ← open_namev ops path flags none cwd s.store
    ok (open_done fd f (put_file f file s) opened)

  pub open_fd :
      ℕ → List ℕ → OpenFlags → ℕ → Option ℕ × Files ops.Store → Exec (Result ℕ × Files ops.Store)
  unfolding open_with mode_of
  open_fd fd path flags cwd (none, s) = ok (error enomem, s)
  open_fd fd path flags cwd (some f, s) =
      open_with fd f path flags cwd (mode_of flags (s.files f)) (set_slot fd (some f) s)

  pub open_slot : Ret → List ℕ → OpenFlags → ℕ → Files ops.Store → Exec (Result ℕ × Files ops.Store)
  unfolding open_fd
  open_slot (ret fd) path flags cwd s = open_fd fd path flags cwd (nf.fget_new s)
  open_slot full path flags cwd s = ok (error emfile, s)

  pub do_open : List ℕ → OpenFlags → ℕ → Files ops.Store → Exec (Result ℕ × Files ops.Store)
  unfolding open_slot
  do_open path flags cwd s =
      if read_only flags && write_only flags
        || read_and_write flags && (read_only flags || write_only flags)
      then ok (error einval, s)
      else open_slot (empty_fd_loop nf.nfiles 0 s) path flags cwd s
