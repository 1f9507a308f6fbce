-- ===== src/Api/Paths.antt =====
-- `user_strdup` of K3/access.c, and the system calls of K3/syscall.c on paths.
pub mod Orderly
use weenix_kernel_implementa.Common.{ℕ, suc, Option, none, some, add32}
use weenix_kernel_implementa.Api.Calls.{
  Answer, val, err, Struct, Argstr, OpenArgs, StatArgs, LinkArgs, RenameArgs, Calls, State,
  UserResult, value, call, fail, finish, finish_zero, on_value, on_value_or, load_args, free, hold,
  write_buffer,
}

module _ {W : Type 0} (c : Calls W) where
  -- The end of `user_strdup`, with the buffer `p`.
  abbrev pub strdup_copied : ℕ → Answer (ℕ → ℕ) × State W → Option ℕ × State W
  strdup_copied p (val d, s) = (some p, write_buffer c p d s)
  strdup_copied p (err e, s) = (none, free c c.kfree p (record s { kt_errno = suc e }))

  pub user_strdup : Argstr → State W → Option ℕ × State W
  user_strdup ustr s =
      let (p, w) = c.kmalloc (add32 ustr.as_len 1) s.world in
      elim p [
        | none ↦ (none, record s { world = w; kt_errno = c.enomem })
        | some kstr ↦
            strdup_copied kstr
              (call (c.copy_from_user ustr.as_str (add32 ustr.as_len 1)) (hold c kstr w s))
      ]

  -- path = user_strdup(...); if (!path) { curthr->kt_errno = EINVAL; return -1; }
  pub got_path :
      (State W → State W)
      → (ℕ → State W → UserResult × State W)
      → Option ℕ × State W
      → UserResult × State W
  got_path undo k (none, s) = fail c.einval (undo s)
  got_path undo k (some p, s) = k p s

  abbrev pub with_path :
      (ℕ → State W → UserResult × State W) → Argstr → State W → UserResult × State W
  with_path k a s = got_path (λ s1. s1) k (user_strdup a s)

  -- err = f(path); kfree(path); and the result
  pub path_call : ((ℕ → ℕ) → W → Answer ℕ × W) → ℕ → State W → UserResult × State W
  path_call f p s = let (r, s1) = call (f (s.contents p)) s in finish (r, free c c.kfree p s1)

  pub sys_mkdir : ℕ → State W → UserResult × State W
  unfolding user_strdup got_path path_call
  sys_mkdir arg s = on_value (with_path (path_call c.do_mkdir)) (load_args c c.mkdir_args arg s)

  pub sys_rmdir : ℕ → State W → UserResult × State W
  unfolding user_strdup got_path path_call
  sys_rmdir arg s = on_value (with_path (path_call c.do_rmdir)) (load_args c c.argstr arg s)

  pub sys_unlink : ℕ → State W → UserResult × State W
  unfolding user_strdup got_path path_call
  sys_unlink arg s = on_value (with_path (path_call c.do_unlink)) (load_args c c.argstr arg s)

  pub sys_chdir : ℕ → State W → UserResult × State W
  unfolding user_strdup got_path path_call
  sys_chdir arg s = on_value (with_path (path_call c.do_chdir)) (load_args c c.argstr arg s)

  pub sys_open : ℕ → State W → UserResult × State W
  unfolding user_strdup got_path path_call
  sys_open arg s =
      on_value (λ a. with_path (path_call (λ path. c.do_open path a.flags)) a.filename)
        (load_args c c.open_args arg s)

  -- Two paths: the first is given back if there is no second one. `order` says in which order the two
  -- are given back.
  pub two_paths :
      ((ℕ → ℕ) → (ℕ → ℕ) → W → Answer ℕ × W)
      → (ℕ → ℕ → State W → State W)
      → Argstr
      → Argstr
      → State W
      → UserResult × State W
  unfolding user_strdup got_path
  two_paths f order first second s =
      with_path
        (λ p s1.
          got_path (free c c.kfree p)
            (λ q s2.
              let (r, s3) = call (f (s2.contents p) (s2.contents q)) s2 in finish (r, order p q s3))
            (user_strdup second s1))
        first s

  pub sys_link : ℕ → State W → UserResult × State W
  unfolding two_paths
  sys_link arg s =
      on_value
        (λ a.
          two_paths (λ to from. c.do_link from to)
            (λ to from s1. free c c.kfree from (free c c.kfree to s1)) a.to a.from)
        (load_args c c.link_args arg s)

  pub sys_rename : ℕ → State W → UserResult × State W
  unfolding two_paths
  sys_rename arg s =
      on_value
        (λ a.
          two_paths c.do_rename
            (λ oldname newname s1. free c c.kfree oldname (free c c.kfree newname s1)) a.oldname
            a.newname)
        (load_args c c.rename_args arg s)

  -- The end of `sys_stat`, with the path `p`.
  abbrev pub stat_done : ℕ → Answer (Unit {0}) × State W → UserResult × State W
  stat_done p (val _, s) = (value 0, free c c.kfree p s)
  stat_done p (err e, s) = fail (suc e) (free c c.kfree p s)

  abbrev pub stat_copy : ℕ → ℕ → Answer (ℕ → ℕ) × State W → UserResult × State W
  stat_copy buf p (val st, s) = stat_done p (call (c.copy_to_user buf st c.stat_size) s)
  stat_copy buf p (err e, s) = stat_done p (err e, s)

  pub sys_stat : ℕ → State W → UserResult × State W
  unfolding user_strdup got_path
  sys_stat arg s =
      on_value_or c.efault
        (λ a. with_path (λ p s1. stat_copy a.buf p (call (c.do_stat (s1.contents p)) s1)) a.path)
        (load_args c c.stat_args arg s)

  -- dbg of the message, which may be NULL, and kfree of it.
  pub debug_message : Option ℕ × State W → UserResult × State W
  debug_message (none, s) = (value 0, record s { world = c.kfree 0 (c.dbg none s.world) })
  debug_message (some p, s) =
      (value 0, free c c.kfree p (record s { world = c.dbg (some (s.contents p)) s.world }))

  pub sys_debug : ℕ → State W → UserResult × State W
  unfolding user_strdup debug_message
  sys_debug arg s = on_value (λ a s1. debug_message (user_strdup a s1)) (load_args c c.argstr arg s)
