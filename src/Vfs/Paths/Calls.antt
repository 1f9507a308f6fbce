-- ===== src/Vfs/Paths/Calls.antt =====
-- The calls on paths keep the reference counts of vnodes, but for `do_link` on a directory without
-- the operation; `do_chdir` moves the reference of the working directory.
use weenix_kernel_implementa.Common.{
  ℕ, ◌+◌, refl, ◌∙◌, inl, inr, Bool, true, false, not, none, List, Bool-cases, arith,
}
use weenix_kernel_implementa.Vfs.Vnode.{Result, success, error, VnodeOps}
use weenix_kernel_implementa.Vfs.Namev.{lookup, dir_namev, rdonly, dot}
use weenix_kernel_implementa.Vfs.Namev.Balance.{
  delta, held, held_dir, IsVnodeOps, Adds, dir_namev-Adds,
}
use weenix_kernel_implementa.Vfs.Namev.Opened.{open_namev-Adds}
use weenix_kernel_implementa.Vfs.Paths.{
  same_name, dot_dot, do_mknod, do_mkdir, rmdir_found, rmdir_at, do_rmdir, unlink_found, unlink_at,
  do_unlink, stat_found, do_stat,
}
use weenix_kernel_implementa.Vfs.Paths.Balance.{
  IsOffered, Same, Keeps, Same-of, put_one, put_two, looked_up, mknod_at-Keeps, mkdir_at-Keeps,
}

module _ (ops : VnodeOps) (refcount : ℕ → ops.Store → ℕ) (laws : IsVnodeOps ops refcount) where
  rmdir_found-Same :
      (dir : ℕ) (name : List ℕ) (r : Result ℕ) (st0 st : ops.Store)
      → Adds ops refcount laws st0 st (λ g. delta dir g + held r g)
      → Same ops refcount laws st0 (rmdir_found ops dir name (r, st)).1
  unfolding rmdir_found
  rmdir_found-Same dir name (error e) st0 st adds =
      put_one ops refcount laws dir st0 st (λ g. adds g ∙ omega arith)
  rmdir_found-Same dir name (success v) st0 st adds = elim (Bool-cases (ops.has_rmdir v)) [
    | inl is_dir ↦
        rw (is_dir, rmdir_found)
          (put_two ops refcount laws v dir st0 (ops.rmdir_op dir name st).1
            (λ g. laws.rmdir_count dir g name st ∙ adds g))
    | inr file ↦ rw (file, rmdir_found) (put_two ops refcount laws v dir st0 st adds)
  ]

  rmdir_at-Same :
      (r : Result (ℕ × List ℕ)) (st0 st : ops.Store)
      → Adds ops refcount laws st0 st (held_dir r)
      → Same ops refcount laws st0 (rmdir_at ops (r, st)).1
  unfolding rmdir_at
  rmdir_at-Same (error e) st0 st adds = Same-of ops refcount laws st0 st adds
  rmdir_at-Same (success (dir, name)) st0 st adds =
      let given_back = put_one ops refcount laws dir st0 st adds in
      elim (Bool-cases (not (ops.has_rmdir dir))) [
        | inl lacks ↦ rw (lacks, rmdir_at) given_back
        | inr has ↦ elim (Bool-cases (same_name name dot)) [
          | inl one ↦ rw (has, one, rmdir_at) given_back
          | inr not_one ↦ elim (Bool-cases (same_name name dot_dot)) [
            | inl two ↦ rw (has, not_one, two, rmdir_at) given_back
            | inr other ↦
                rw (has, not_one, other, rmdir_at)
                  (rmdir_found-Same dir name (lookup ops dir name st).0 st0
                    (lookup ops dir name st).1 (looked_up ops refcount laws dir name st0 st adds))
          ]
        ]
      ]

  unlink_found-Same :
      (dir : ℕ) (name : List ℕ) (r : Result ℕ) (st0 st : ops.Store)
      → Adds ops refcount laws st0 st (λ g. delta dir g + held r g)
      → Same ops refcount laws st0 (unlink_found ops dir name (r, st)).1
  unfolding unlink_found
  unlink_found-Same dir name (error e) st0 st adds =
      put_one ops refcount laws dir st0 st (λ g. adds g ∙ omega arith)
  unlink_found-Same dir name (success v) st0 st adds = elim (Bool-cases (ops.has_rmdir v)) [
    | inl is_dir ↦ rw (is_dir, unlink_found) (put_two ops refcount laws v dir st0 st adds)
    | inr file ↦
        rw (file, unlink_found)
          (put_two ops refcount laws v dir st0 (ops.unlink_op dir name st).1
            (λ g. laws.unlink_count dir g name st ∙ adds g))
  ]

  unlink_at-Same :
      (r : Result (ℕ × List ℕ)) (st0 st : ops.Store)
      → Adds ops refcount laws st0 st (held_dir r)
      → Same ops refcount laws st0 (unlink_at ops (r, st)).1
  unfolding unlink_at
  unlink_at-Same (error e) st0 st adds = Same-of ops refcount laws st0 st adds
  unlink_at-Same (success (dir, name)) st0 st adds = elim (Bool-cases (not (ops.has_unlink dir))) [
    | inl lacks ↦ rw (lacks, unlink_at) (put_one ops refcount laws dir st0 st adds)
    | inr has ↦
        rw (has, unlink_at)
          (unlink_found-Same dir name (lookup ops dir name st).0 st0 (lookup ops dir name st).1
            (looked_up ops refcount laws dir name st0 st adds))
  ]

  stat_found-Keeps :
      (offered : IsOffered ops) (r : Result ℕ) (st0 st : ops.Store)
      → Adds ops refcount laws st0 st (held r)
      → Keeps ops refcount laws st0 (stat_found ops (r, st))
  unfolding stat_found
  stat_found-Keeps offered (error e) st0 st adds = Same-of ops refcount laws st0 st adds
  stat_found-Keeps offered (success v) st0 st adds =
      rw (offered.stat_offered v, stat_found)
        (put_one ops refcount laws v st0 (ops.stat_op v st).1
          (λ g. laws.stat_count v g st ∙ adds g))

  do_stat-Keeps :
      (offered : IsOffered ops) (path : List ℕ) (cwd : ℕ) (st : ops.Store)
      → Keeps ops refcount laws st (do_stat ops path cwd st)
  unfolding do_stat
  do_stat-Keeps offered path cwd st =
      let (r, st1, e, adds) = (open_namev-Adds ops refcount laws path rdonly none cwd st).1 refl in
      rw (do_stat, e) (stat_found-Keeps offered r st st1 adds)

  mknod-Keeps :
      (offered : IsOffered ops) (special : Bool) (path : List ℕ) (mode devid cwd : ℕ)
      (st : ops.Store)
      → Keeps ops refcount laws st (do_mknod ops special path mode devid cwd st)
  unfolding do_mknod
  mknod-Keeps offered true path mode devid cwd st =
      let dir = dir_namev ops none cwd path st in
      mknod_at-Keeps ops refcount laws offered mode devid dir.0 st dir.1
        (dir_namev-Adds ops refcount laws none cwd path st)
  mknod-Keeps offered false path mode devid cwd st = λ g. refl

  -- Where a vnode with `lookup` has `mknod` and `mkdir`, and each has `stat`: whatever the path and
  -- whatever the operations of the file system return, `do_mknod`, `do_mkdir`, `do_rmdir`, `do_unlink`
  -- and `do_stat` return and leave all reference counts of vnodes as they were.
  pub path_calls-Same :
      (offered : IsOffered ops) (path : List ℕ) (cwd : ℕ) (st : ops.Store)
      → ((special : Bool) (mode devid : ℕ)
          → Keeps ops refcount laws st (do_mknod ops special path mode devid cwd st))
        × Keeps ops refcount laws st (do_mkdir ops path cwd st)
        × Same ops refcount laws st (do_rmdir ops path cwd st).1
        × Same ops refcount laws st (do_unlink ops path cwd st).1
        × Keeps ops refcount laws st (do_stat ops path cwd st)
  unfolding do_mkdir do_rmdir do_unlink
  path_calls-Same offered path cwd st =
      let dir = dir_namev ops none cwd path st in
      let adds = dir_namev-Adds ops refcount laws none cwd path st in
      (
        λ special mode devid. mknod-Keeps offered special path mode devid cwd st,
        mkdir_at-Keeps ops refcount laws offered dir.0 st dir.1 adds,
        rmdir_at-Same dir.0 st dir.1 adds,
        unlink_at-Same dir.0 st dir.1 adds,
        do_stat-Keeps offered path cwd st,
      )
