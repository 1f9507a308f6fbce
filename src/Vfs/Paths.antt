-- ===== src/Vfs/Paths.antt =====
-- The calls of K2/vfs_syscall.c on paths, over K2/namev.c. `cwd` is curproc->p_cwd, and a result of
-- `success` is the return code of the file system's operation.
pub mod Balance
pub mod Calls
pub mod Moves
use weenix_kernel_implementa.Common.{
  ℕ, Bool, true, false, not, ◌&&◌, ◌||◌, none, List, [], ◌∷◌, ◌==◌, ltb, if◌then◌else◌, length,
  Exec, ok, ◌>>=◌, ◌>>◌, kassert,
}
use weenix_kernel_implementa.Vfs.Vnode.{
  Errno, enoent, enotdir, einval, eexist, enametoolong, enotempty, eperm, Result, success, error,
  VnodeOps,
}
use weenix_kernel_implementa.Vfs.Namev.{lookup, dir_namev, open_namev, rdonly, dot}

abbrev pub is_enotdir : Errno → Bool
is_enotdir enotdir = true
is_enotdir _ = false

-- name_match(name, s, len) for the two names that `do_rmdir` refuses.
abbrev pub same_name : List ℕ → List ℕ → Bool
same_name [] [] = true
same_name (x ∷ xs) (y ∷ ys) = x == y && same_name xs ys
same_name _ _ = false

abbrev pub dot_dot : List ℕ
dot_dot = 46 ∷ 46 ∷ []

module _ (ops : VnodeOps) where
  open ops use {
    Store, max_path_len, vput, is_dir, has_mknod, has_mkdir, has_rmdir, has_unlink, has_link,
    has_stat, mknod_op, mkdir_op, rmdir_op, unlink_op, link_op, stat_op,
  }

  -- An operation of the directory, which is then given back.
  abbrev pub in_dir : ℕ → Result ℕ × Store → Result ℕ × Store
  in_dir dir (r, st) = (r, vput dir st)

  -- `do_mknod` and `do_mkdir` once the name was looked up; `op` is the operation, if there is one.
  pub make_entry :
      Bool → (Store → Result ℕ × Store) → ℕ → Result ℕ × Store → Exec (Result ℕ × Store)
  make_entry has op dir (success v, st) = ok (error eexist, vput dir (vput v st))
  make_entry has op dir (error e, st) =
      if is_enotdir e then ok (error e, vput dir st) else (do kassert has; ok (in_dir dir (op st)))

  pub mknod_at : ℕ → ℕ → Result (ℕ × List ℕ) × Store → Exec (Result ℕ × Store)
  unfolding make_entry
  mknod_at mode devid (error e, st) = ok (error e, st)
  mknod_at mode devid (success (dir, name), st) =
      make_entry (has_mknod dir) (mknod_op dir name mode devid) dir (lookup ops dir name st)

  -- `special` says whether the mode is one of a character or block device.
  pub do_mknod : Bool → List ℕ → ℕ → ℕ → ℕ → Store → Exec (Result ℕ × Store)
  unfolding mknod_at
  do_mknod special path mode devid cwd st =
      if special
      then mknod_at mode devid (dir_namev ops none cwd path st)
      else ok (error einval, st)

  pub mkdir_at : Result (ℕ × List ℕ) × Store → Exec (Result ℕ × Store)
  unfolding make_entry
  mkdir_at (error e, st) = ok (error e, st)
  mkdir_at (success (dir, name), st) =
      make_entry (has_mkdir dir) (mkdir_op dir name) dir (lookup ops dir name st)

  pub do_mkdir : List ℕ → ℕ → Store → Exec (Result ℕ × Store)
  unfolding mkdir_at
  do_mkdir path cwd st = mkdir_at (dir_namev ops none cwd path st)

  pub rmdir_found : ℕ → List ℕ → Result ℕ × Store → Result ℕ × Store
  rmdir_found dir name (error e, st) = (error e, vput dir st)
  rmdir_found dir name (success v, st) =
      if has_rmdir v
      then (let (r, st1) = rmdir_op dir name st in (r, vput dir (vput v st1)))
      else (error enotdir, vput dir (vput v st))

  pub rmdir_at : Result (ℕ × List ℕ) × Store → Result ℕ × Store
  unfolding rmdir_found
  rmdir_at (error e, st) = (error e, st)
  rmdir_at (success (dir, name), st) =
      if not (has_rmdir dir)
      then (error enotdir, vput dir st)
      else if same_name name dot
      then (error einval, vput dir st)
      else if same_name name dot_dot
      then (error enotempty, vput dir st)
      else rmdir_found dir name (lookup ops dir name st)

  pub do_rmdir : List ℕ → ℕ → Store → Result ℕ × Store
  unfolding rmdir_at
  do_rmdir path cwd st = rmdir_at (dir_namev ops none cwd path st)

  pub unlink_found : ℕ → List ℕ → Result ℕ × Store → Result ℕ × Store
  unlink_found dir name (error e, st) = (error e, vput dir st)
  unlink_found dir name (success v, st) =
      if has_rmdir v
      then (error eperm, vput dir (vput v st))
      else (let (r, st1) = unlink_op dir name st in (r, vput dir (vput v st1)))

  pub unlink_at : Result (ℕ × List ℕ) × Store → Result ℕ × Store
  unfolding unlink_found
  unlink_at (error e, st) = (error e, st)
  unlink_at (success (dir, name), st) =
      if not (has_unlink dir)
      then (error enotdir, vput dir st)
      else unlink_found dir name (lookup ops dir name st)

  pub do_unlink : List ℕ → ℕ → Store → Result ℕ × Store
  unfolding unlink_at
  do_unlink path cwd st = unlink_at (dir_namev ops none cwd path st)

  pub link_found : ℕ → ℕ → List ℕ → Result ℕ × Store → Result ℕ × Store
  link_found from dir name (error e, st) =
      let (r, st1) = link_op from dir name st in (r, vput dir (vput from st1))
  link_found from dir name (success v, st) = (error eexist, vput dir (vput from (vput v st)))

  -- Without a `link` operation neither vnode is given back.
  pub link_at : ℕ → Result (ℕ × List ℕ) × Store → Result ℕ × Store
  unfolding link_found
  link_at from (error e, st) = (error e, vput from st)
  link_at from (success (dir, name), st) =
      if not (has_link dir)
      then (error enotdir, st)
      else link_found from dir name (lookup ops dir name st)

  pub link_from : List ℕ → ℕ → Result ℕ × Store → Result ℕ × Store
  unfolding link_at
  link_from to cwd (error e, st) = (error e, st)
  link_from to cwd (success from, st) = link_at from (dir_namev ops none cwd to st)

  pub do_link : List ℕ → List ℕ → ℕ → Store → Exec (Result ℕ × Store)
  unfolding link_from
  do_link from to cwd st =
      if ltb max_path_len (length from) || ltb max_path_len (length to)
      then ok (error enametoolong, st)
      else (do opened ← open_namev ops from rdonly none cwd st; ok (link_from to cwd opened))

  abbrev pub renamed : List ℕ → ℕ → Result ℕ × Store → Result ℕ × Store
  renamed old cwd (error e, st) = (error e, st)
  renamed old cwd (success code, st) = do_unlink old cwd st

  pub do_rename : List ℕ → List ℕ → ℕ → Store → Exec (Result ℕ × Store)
  unfolding do_link
  do_rename old new cwd st = do linked ← do_link old new cwd st; ok (renamed old cwd linked)

  -- The new `p_cwd` comes with the result.
  pub chdir_to : ℕ → Result ℕ × Store → Result ℕ × ℕ × Store
  chdir_to cwd (error e, st) = (error e, cwd, st)
  chdir_to cwd (success v, st) =
      if is_dir v && has_mkdir v
      then (success 0, v, vput cwd st)
      else (error enotdir, cwd, vput v st)

  pub do_chdir : List ℕ → ℕ → Store → Exec (Result ℕ × ℕ × Store)
  unfolding chdir_to
  do_chdir path cwd st = do
    opened ← open_namev ops path rdonly none cwd st
    ok (chdir_to cwd opened)

  pub stat_found : Result ℕ × Store → Exec (Result ℕ × Store)
  stat_found (error e, st) = ok (error e, st)
  stat_found (success v, st) = do kassert (has_stat v); ok (in_dir v (stat_op v st))

  pub do_stat : List ℕ → ℕ → Store → Exec (Result ℕ × Store)
  unfolding stat_found
  do_stat path cwd st = do opened ← open_namev ops path rdonly none cwd st; stat_found opened
