-- ===== src/Vfs/Files.antt =====
-- `get_empty_fd` of K2/open.c and the calls of K2/vfs_syscall.c on file descriptors. An `int` is
-- its word of 32 bits. Files and vnodes are named by numbers that stand for their addresses.
pub mod Table
pub mod Balance
pub mod Descriptors
use weenix_kernel_implementa.Common.{
  ℕ, zero, suc, ◌+◌, ◌-◌, ◌^◌, Bool, true, false, not, ◌&&◌, ◌||◌, Option, none, some, ◌==◌, ltb,
  leb, if◌then◌else◌, add32, update, Exec, ok, panic, ◌>>=◌, ◌>>◌, kassert,
}

-- file_t, with the bits of f_mode.
pub record File : Type 0 where
  pub fmode_read : Bool
  pub fmode_write : Bool
  pub fmode_append : Bool
  pub f_pos : ℕ
  pub f_refcount : ℕ
  pub f_vnode : ℕ

-- The table of the current process, the open files, and the file systems below.
pub record Files (Store : Type 0) : Type 0 where
  pub p_files : ℕ → Option ℕ
  pub files : ℕ → File
  pub store : Store

-- What is not in the repository: NFILES, fs/file.c, and the vnodes with their operations (of which
-- some may be NULL). An operation of a vnode leaves the table and the open files alone.
pub record VfsOps : Type 1 where
  pub Store : Type 0
  pub nfiles : ℕ
  pub fget : ℕ → Files Store → Option ℕ × Files Store
  pub fput : ℕ → Files Store → Files Store
  pub is_dir : ℕ → Bool
  pub is_chr : ℕ → Bool
  pub is_blk : ℕ → Bool
  pub is_reg : ℕ → Bool
  pub has_read : ℕ → Bool
  pub has_write : ℕ → Bool
  pub has_readdir : ℕ → Bool
  pub vn_len : ℕ → Store → ℕ
  pub read : ℕ → ℕ → ℕ → Store → ℕ × Store
  pub write : ℕ → ℕ → ℕ → Store → ℕ × Store
  pub readdir : ℕ → ℕ → Store → ℕ × Store
  pub sizeof_dirent : ℕ

-- A result that is not an error of the layer itself (it may be a negative word from below), or one.
pub data Ret : Type 0 where
  ret : ℕ → Ret
  ebadf eisdir enotdir einval emfile : Ret

pub data Whence : Type 0 where
  seek_set seek_cur seek_end seek_other : Whence

abbrev pub negative : ℕ → Bool
negative n = leb (2 ^ 31) n

-- The loop of `get_empty_fd` over the `n` descriptors from `fd` on.
pub empty_fd_loop : {Store : Type 0} → ℕ → ℕ → Files Store → Ret
empty_fd_loop zero fd s = emfile
empty_fd_loop (suc n) fd s = elim (s.p_files fd) [
  | none ↦ ret fd
  | some f ↦ empty_fd_loop n (suc fd) s
]

module _ (ops : VfsOps) where
  open ops use {
    Store, nfiles, fget, fput, is_dir, is_chr, is_blk, is_reg, has_read, has_write, has_readdir,
    vn_len, read, write, readdir, sizeof_dirent,
  }

  pub get_empty_fd : Files Store → Ret
  unfolding empty_fd_loop
  get_empty_fd s = empty_fd_loop nfiles 0 s

  abbrev pub fd_valid : ℕ → Bool
  fd_valid fd = not (negative fd) && ltb fd nfiles

  abbrev pub set_file : ℕ → File → Files Store → Files Store
  set_file f file s = record s { files = update s.files f file }

  -- `newPos`, for the three values of `whence`.
  pub seek_base : Whence → ℕ → Files Store → Option ℕ
  seek_base seek_set f s = some 0
  seek_base seek_cur f s = some (s.files f).f_pos
  seek_base seek_end f s = some (vn_len (s.files f).f_vnode s.store)
  seek_base seek_other f s = none

  -- The body of `do_lseek` once it has the file.
  pub seek_file : ℕ → ℕ → Option ℕ → Files Store → Ret × Files Store
  seek_file f offset none s = (einval, fput f s)
  seek_file f offset (some base) s =
      let new_pos = add32 base offset in
      if negative new_pos
      then (einval, fput f s)
      else (ret new_pos, fput f (set_file f (record (s.files f) { f_pos = new_pos }) s))

  -- A file from `fget`, or -EBADF.
  abbrev pub with_file :
      Option ℕ × Files Store → (ℕ → Files Store → Ret × Files Store) → Ret × Files Store
  with_file (none, s) body = (ebadf, s)
  with_file (some f, s) body = body f s

  pub do_lseek : ℕ → ℕ → Whence → Files Store → Ret × Files Store
  unfolding seek_base seek_file
  do_lseek fd offset whence s =
      if fd_valid fd
      then with_file (fget fd s) (λ f s1. seek_file f offset (seek_base whence f s1) s1)
      else (ebadf, s)

  -- `seekResult` decides between itself and the count.
  abbrev pub seek_or : ℕ → Ret → Ret
  seek_or count (ret n) = ret count
  seek_or count e = e

  -- The seek of `do_read` after `bytes_read` bytes; 0 if there is none.
  pub seek_read : ℕ → ℕ → ℕ → Files Store → Ret × Files Store
  unfolding do_lseek
  seek_read fd nbytes bytes_read s =
      if ltb 0 bytes_read
      then do_lseek fd bytes_read seek_cur s
      else if nbytes == 0
      then (ret 0, s)
      else do_lseek fd 0 seek_end s

  pub read_file : ℕ → ℕ → ℕ → Files Store → Ret × Files Store
  unfolding seek_read
  read_file fd nbytes f s =
      let file = s.files f in
      if file.fmode_read
      then (if not (is_dir file.f_vnode) && has_read file.f_vnode
          then (let (bytes_read, st) = read file.f_vnode file.f_pos nbytes s.store in
              let (seek, s1) = seek_read fd nbytes bytes_read (record s { store = st }) in
              (seek_or bytes_read seek, fput f s1))
          else (eisdir, fput f s))
      else (ebadf, fput f s)

  pub do_read : ℕ → ℕ → Files Store → Ret × Files Store
  unfolding read_file
  do_read fd nbytes s =
      if fd_valid fd then with_file (fget fd s) (read_file fd nbytes) else (ebadf, s)

  -- Both seeks of `do_write`; `seek` is the result of the first.
  pub write_at : ℕ → ℕ → ℕ → Ret → Files Store → Exec (Ret × Files Store)
  write_at fd nbytes f seek s =
      let file = s.files f in
      let (bytes_written, st) = write file.f_vnode file.f_pos nbytes s.store in
      let s1 : Files Store = record s { store = st } in
      if ltb 0 bytes_written && not (negative bytes_written)
      then (do
        kassert (
            is_chr file.f_vnode
            || (is_blk file.f_vnode
                || is_reg file.f_vnode && leb file.f_pos (vn_len file.f_vnode st)))
        let (seek', s2) = do_lseek fd bytes_written seek_cur s1
        ok (seek_or bytes_written seek', fput f s2))
      else ok (seek_or bytes_written seek, fput f s1)

  pub write_file : ℕ → ℕ → ℕ → Files Store → Exec (Ret × Files Store)
  unfolding write_at
  write_file fd nbytes f s =
      let file = s.files f in
      if file.fmode_write
      then (if not (is_dir file.f_vnode) && has_write file.f_vnode
          then (let (seek, s1) =
                (if file.fmode_append then do_lseek fd 0 seek_end s else (ret 0, s)) in
              write_at fd nbytes f seek s1)
          else ok (eisdir, fput f s))
      else ok (ebadf, fput f s)

  pub do_write : ℕ → ℕ → Files Store → Exec (Ret × Files Store)
  unfolding write_file
  do_write fd nbytes s =
      if fd_valid fd
      then (let (file, s1) = fget fd s in
          elim file [ none ↦ ok (ebadf, s1) | some f ↦ write_file fd nbytes f s1 ])
      else ok (ebadf, s)

  abbrev pub set_fd : ℕ → Option ℕ → Files Store → Files Store
  set_fd fd f s = record s { p_files = update s.p_files fd f }

  abbrev pub open_file : ℕ → Files Store → Option ℕ
  open_file fd s = if fd_valid fd then s.p_files fd else none

  pub do_close : ℕ → Files Store → Ret × Files Store
  do_close fd s = elim (open_file fd s) [
    | none ↦ (ebadf, s)
    | some f ↦ (ret 0, set_fd fd none (fput f s))
  ]

  -- The new descriptor names the file, or the reference that `fget` took is given back.
  pub dup_to : ℕ → Option ℕ → Ret → Files Store → Exec (Ret × Files Store)
  dup_to fd file (ret next_fd) s = ok (ret next_fd, set_fd next_fd (s.p_files fd) s)
  dup_to fd none e s = panic
  dup_to fd (some f) e s = ok (e, fput f s)

  pub do_dup : ℕ → Files Store → Exec (Ret × Files Store)
  unfolding dup_to
  do_dup fd s = elim (open_file fd s) [
    | none ↦ ok (ebadf, s)
    | some _ ↦ let (file, s1) = fget fd s in dup_to fd file (get_empty_fd s1) s1
  ]

  -- The result of this `do_close` goes to a variable that hides the one that is tested.
  pub close_used : ℕ → Option ℕ → Files Store → Files Store
  unfolding do_close
  close_used nfd none s = s
  close_used nfd (some f) s = (do_close nfd s).1

  pub do_dup2 : ℕ → ℕ → Files Store → Ret × Files Store
  unfolding close_used
  do_dup2 ofd nfd s = elim (if fd_valid nfd then open_file ofd s else none) [
    | none ↦ (ebadf, s)
    | some _ ↦
        if ofd == nfd
        then (ret ofd, s)
        else (let (file, s1) = fget ofd (close_used nfd (s.p_files nfd) s) in
            (ret nfd, set_fd nfd file s1))
  ]

  pub getdent_file : ℕ → ℕ → Files Store → Ret × Files Store
  getdent_file fd f s =
      let file = s.files f in
      if has_readdir file.f_vnode
      then (let (copied, st) = readdir file.f_vnode file.f_pos s.store in
          let s1 : Files Store = record s { store = st } in
          if negative copied || copied == 0
          then (ret copied, fput f s1)
          else (let (seek, s2) = do_lseek fd copied seek_cur s1 in
              (seek_or sizeof_dirent seek, fput f s2)))
      else (enotdir, fput f s)

  pub do_getdent : ℕ → Files Store → Ret × Files Store
  unfolding getdent_file
  do_getdent fd s = if fd_valid fd then with_file (fget fd s) (getdent_file fd) else (ebadf, s)
