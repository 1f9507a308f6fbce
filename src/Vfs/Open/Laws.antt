-- ===== src/Vfs/Open/Laws.antt =====
-- `do_open`: the table of descriptors and the new file.
use weenix_kernel_implementa.Common.{
  ℕ, ◌≡◌, refl, sym, ap, ◌∙◌, inl, inr, Bool, true, false, ◌&&◌, ◌||◌, Option, none, some, List,
  ◌==◌, if◌then◌else◌, update, Exec, ok, panic, ◌>>=◌, Bool-cases, arith,
}
use weenix_kernel_implementa.Vfs.Files.{File, Files, Ret, ret, empty_fd_loop}
use weenix_kernel_implementa.Vfs.Files.Table.{IsLowestEmpty, empty_fd_loop-IsLowestEmpty}
use weenix_kernel_implementa.Vfs.Vnode.{einval, Result, success, error, VnodeOps}
use weenix_kernel_implementa.Vfs.Namev.Opened.{open_namev-returns}
use weenix_kernel_implementa.Vfs.Namev.{OpenFlags, open_namev}
use weenix_kernel_implementa.Vfs.Open.{
  NewFiles, read_and_write, write_only, read_only, mode_of, set_slot, put_file, open_done,
  open_with, open_fd, open_slot, do_open,
}

-- What is documented of `fget(-1)` and `fput`: the table of descriptors is the caller's, and a new file
-- has a reference.
pub record IsNewFiles {Store : Type 0} (nf : NewFiles Store) : Type 0 where
  pub fget_table : (s : Files Store) → (nf.fget_new s).1.p_files ≡ s.p_files
  pub fput_table : (f : ℕ) (s : Files Store) → (nf.fput f s).p_files ≡ s.p_files

-- The open flags ask for reading, and for writing.
abbrev pub reads : OpenFlags → Bool
reads o = read_and_write o || read_only o

abbrev pub writes : OpenFlags → Bool
writes o = write_only o || read_and_write o

-- The new file of a successful call.
pub record IsFresh (flags : OpenFlags) (file : File) : Type 0 where
  pub read : file.fmode_read ≡ reads flags
  pub write : file.fmode_write ≡ writes flags
  pub append : file.fmode_append ≡ flags.o_append
  pub start : file.f_pos ≡ 0
  pub counted : file.f_refcount ≡ 1

-- What a call leaves of the table of `s`; it returns unless O_CREAT is given.
abbrev pub Opened :
    {Store : Type 0} → ℕ → OpenFlags → Files Store → Exec (Result ℕ × Files Store) → Type 0
Opened nfiles flags s panic = flags.o_creat ≡ true
Opened nfiles flags s (ok (error e, s')) = (x : ℕ) → s'.p_files x ≡ s.p_files x
Opened nfiles flags s (ok (success fd, s')) =
    IsLowestEmpty 0 nfiles s (ret fd)
    × (f : ℕ) × ((x : ℕ) → s'.p_files x ≡ (if x == fd then some f else s.p_files x))
    × IsFresh flags (s'.files f)

-- The fields that `mode_of` sets.
mode_of_lem :
    (flags : OpenFlags) (file file' : File)
    → mode_of flags file ≡ some file'
    → (file'.fmode_read ≡ reads flags)
      × (file'.fmode_write ≡ writes flags)
      × (file'.fmode_append ≡ flags.o_append)
unfolding mode_of
mode_of_lem flags file file' e = (ground arith, ground arith, ground arith)

module _ (ops : VnodeOps) (nf : NewFiles ops.Store) (laws : IsNewFiles nf) where
  -- An empty slot that was filled and is emptied again.
  emptied :
      (fd x : ℕ) (f : Option ℕ) (t : ℕ → Option ℕ)
      → t fd ≡ none
      → update (update t fd f) fd none x ≡ t x
  emptied fd x f t e = elim (Bool-cases (x == fd)) [
    | inl here ↦ let same : x ≡ fd = ground arith in rw here (sym (ap t same ∙ e))
    | inr other ↦ rw other refl
  ]

  open_done-Opened :
      (fd f : ℕ) (flags : OpenFlags) (s0 s : Files ops.Store) (r : Result ℕ) (st : ops.Store)
      → IsLowestEmpty 0 nf.nfiles s0 (ret fd)
      → s.p_files ≡ update s0.p_files fd (some f)
      → ((s.files f).fmode_read ≡ reads flags)
        × ((s.files f).fmode_write ≡ writes flags)
        × ((s.files f).fmode_append ≡ flags.o_append)
      → Opened nf.nfiles flags s0 (ok (open_done ops nf fd f s (r, st)))
  unfolding open_done
  open_done-Opened fd f flags s0 s (error e) st lowest table modes = λ x.
      ap (λ t. t x) (laws.fput_table f (set_slot ops nf fd none (record s { store = st })))
      ∙ rw table (emptied fd x (some f) s0.p_files lowest.2)
  open_done-Opened fd f flags s0 s (success v) st lowest table modes = (
    lowest,
    f,
    λ x. ap (λ t. t x) table,
    record {
      read = ground arith;
      write = ground arith;
      append = ground arith;
      start = ground arith;
      counted = ground arith;
    },
  )

  open_result-Opened :
      (fd f : ℕ) (flags : OpenFlags) (s0 s : Files ops.Store) (r : Exec (Result ℕ × ops.Store))
      → IsLowestEmpty 0 nf.nfiles s0 (ret fd)
      → s.p_files ≡ update s0.p_files fd (some f)
      → ((s.files f).fmode_read ≡ reads flags)
        × ((s.files f).fmode_write ≡ writes flags)
        × ((s.files f).fmode_append ≡ flags.o_append)
      → (r ≡ panic → flags.o_creat ≡ true)
      → Opened nf.nfiles flags s0 (r >>= λ opened. ok (open_done ops nf fd f s opened))
  open_result-Opened fd f flags s0 s panic lowest table modes creates = creates refl
  open_result-Opened fd f flags s0 s (ok (r, st)) lowest table modes creates =
      open_done-Opened fd f flags s0 s r st lowest table modes

  panics_for_creat :
      (path : List ℕ) (flags : OpenFlags) (cwd : ℕ) (st : ops.Store)
      → open_namev ops path flags none cwd st ≡ panic
      → flags.o_creat ≡ true
  panics_for_creat path flags cwd st fails = elim (Bool-cases flags.o_creat) [
    | inl creates ↦ creates
    | inr plain ↦ let (x, e) = open_namev-returns ops path flags none cwd st plain in cc
  ]

  open_with-Opened :
      (fd f : ℕ) (path : List ℕ) (flags : OpenFlags) (cwd : ℕ) (file : Option File)
      (s0 s : Files ops.Store)
      → IsLowestEmpty 0 nf.nfiles s0 (ret fd)
      → s.p_files ≡ update s0.p_files fd (some f)
      → mode_of flags (s.files f) ≡ file
      → Opened nf.nfiles flags s0 (open_with ops nf fd f path flags cwd file s)
  unfolding open_with
  open_with-Opened fd f path flags cwd none s0 s lowest table e =
      λ x. rw (laws.fput_table f s, table) (emptied fd x (some f) s0.p_files lowest.2)
  open_with-Opened fd f path flags cwd (some file) s0 s lowest table e =
      let modes = mode_of_lem flags (s.files f) file e in
      open_result-Opened fd f flags s0 (put_file ops nf f file s)
        (open_namev ops path flags none cwd s.store) lowest table
        (ground (arith, modes), ground (arith, modes), ground (arith, modes))
        (panics_for_creat path flags cwd s.store)

  open_fd-Opened :
      (fd : ℕ) (path : List ℕ) (flags : OpenFlags) (cwd : ℕ) (f : Option ℕ) (s0 s : Files ops.Store)
      → IsLowestEmpty 0 nf.nfiles s0 (ret fd)
      → s.p_files ≡ s0.p_files
      → Opened nf.nfiles flags s0 (open_fd ops nf fd path flags cwd (f, s))
  unfolding open_fd
  open_fd-Opened fd path flags cwd none s0 s lowest table = λ x. ap (λ t. t x) table
  open_fd-Opened fd path flags cwd (some f) s0 s lowest table =
      open_with-Opened fd f path flags cwd (mode_of flags (s.files f)) s0
        (set_slot ops nf fd (some f) s) lowest (ap (λ t. update t fd (some f)) table) refl

  open_slot-Opened :
      (r : Ret) (path : List ℕ) (flags : OpenFlags) (cwd : ℕ) (s : Files ops.Store)
      → IsLowestEmpty 0 nf.nfiles s r
      → Opened nf.nfiles flags s (open_slot ops nf r path flags cwd s)
  unfolding open_slot
  open_slot-Opened (ret fd) path flags cwd s lowest =
      open_fd-Opened fd path flags cwd (nf.fget_new s).0 s (nf.fget_new s).1 lowest
        (laws.fget_table s)
  open_slot-Opened _ path flags cwd s lowest = λ x. refl

  -- If `fget(-1)` and `fput` leave the table of descriptors alone: `do_open` returns unless O_CREAT is
  -- given, when an assertion may fail. A call that returns an error leaves the table as it was. One that succeeds returns the lowest empty descriptor, which then
  -- names a file at position 0 with one reference, readable, writable and appending as the flags say;
  -- the other descriptors are as before.
  pub do_open-Opened :
      (path : List ℕ) (flags : OpenFlags) (cwd : ℕ) (s : Files ops.Store)
      → Opened nf.nfiles flags s (do_open ops nf path flags cwd s)
  unfolding do_open
  do_open-Opened path flags cwd s =
      elim (Bool-cases (
        read_only flags && write_only flags
        || read_and_write flags && (read_only flags || write_only flags))) [
          | inl bad ↦ rw (bad, do_open) (λ x. refl)
          | inr fine ↦
              rw (fine, do_open)
                (open_slot-Opened (empty_fd_loop nf.nfiles 0 s) path flags cwd s
                  (empty_fd_loop-IsLowestEmpty nf.nfiles 0 nf.nfiles s (omega arith)))
        ]

  -- Reading with O_APPEND or with a flag beyond O_CREAT is refused: `do_open` returns -EINVAL, if a
  -- descriptor is empty and a file can be made.
  pub do_open_append_refused :
      (path : List ℕ) (flags : OpenFlags) (cwd fd f : ℕ) (s : Files ops.Store)
      → flags.o_wronly ≡ false
      → flags.o_rdwr ≡ false
      → (flags.o_append || flags.o_other) ≡ true
      → empty_fd_loop nf.nfiles 0 s ≡ ret fd
      → (nf.fget_new s).0 ≡ some f
      → (s' : Files ops.Store) × (do_open ops nf path flags cwd s ≡ ok (error einval, s'))
  unfolding do_open open_slot open_fd open_with mode_of
  do_open_append_refused path flags cwd fd f s r w a free made = (
    set_slot ops nf fd none (nf.fput f (set_slot ops nf fd (some f) (nf.fget_new s).1)),
    ground (arith, free, made),
  )
