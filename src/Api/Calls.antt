-- ===== src/Api/Calls.antt =====
-- What the system calls of K3/syscall.c use: the argument structures of api/syscall.h, which the
-- repository does not hold, the calls of the rest of the kernel (`W` is its state), and the buffers.
use weenix_kernel_implementa.Common.{ℕ, suc, Bool, Option, List, ◌∷◌, update}
use weenix_kernel_implementa.Proc.Sched.{erase}

-- An int or a pointer that a function returns, where the negative number -(e + 1) is `err e`.
pub data Answer (A : Type 0) : Type 0 where
  val : A → Answer A
  err : ℕ → Answer A

-- A structure in user memory: its size, and its value in a buffer.
pub record Struct (A : Type 0) : Type 0 where
  pub size : ℕ
  pub load : (ℕ → ℕ) → A

-- argstr_t, and an argvec_t whose av_vec may be NULL.
pub record Argstr : Type 0 where
  pub as_str : ℕ
  pub as_len : ℕ

pub record Argvec : Type 0 where
  pub av_vec : ℕ
  pub av_len : ℕ

-- read_args_t and write_args_t, getdents_args_t, dup2_args_t, lseek_args_t
pub record ReadArgs : Type 0 where
  pub fd : ℕ
  pub buf : ℕ
  pub nbytes : ℕ

pub record GetdentsArgs : Type 0 where
  pub fd : ℕ
  pub dirp : ℕ
  pub count : ℕ

pub record Dup2Args : Type 0 where
  pub ofd : ℕ
  pub nfd : ℕ

pub record LseekArgs : Type 0 where
  pub fd : ℕ
  pub offset : ℕ
  pub whence : ℕ

-- mkdir_args_t without the mode, open_args_t, stat_args_t; link_args_t and rename_args_t
pub record OpenArgs : Type 0 where
  pub filename : Argstr
  pub flags : ℕ

pub record StatArgs : Type 0 where
  pub path : Argstr
  pub buf : ℕ

pub record LinkArgs : Type 0 where
  pub to : Argstr
  pub from : Argstr

pub record RenameArgs : Type 0 where
  pub oldname : Argstr
  pub newname : Argstr

-- munmap_args_t, mmap_args_t, waitpid_args_t, execve_args_t
pub record MunmapArgs : Type 0 where
  pub addr : ℕ
  pub len : ℕ

pub record MmapArgs : Type 0 where
  pub mma_addr : ℕ
  pub mma_len : ℕ
  pub mma_prot : ℕ
  pub mma_flags : ℕ
  pub mma_fd : ℕ
  pub mma_off : ℕ

pub record WaitpidArgs : Type 0 where
  pub wpa_pid : ℕ
  pub wpa_options : ℕ
  pub wpa_status : ℕ

pub record ExecveArgs : Type 0 where
  pub filename : Argstr
  pub argv : Argvec
  pub envp : Argvec

-- A text that `sys_uname` copies: its place in struct utsname, its bytes, and their number.
pub record Text : Type 0 where
  pub place : ℕ
  pub bytes : ℕ → ℕ
  pub size : ℕ

-- The errors of errno.h that the wrappers name, the structures, and the calls. A buffer is a function
-- from its offsets. `page_alloc` gives 0 for NULL, which the code does not test; `user_buf` is the
-- word at `arg->buf`, read without `copy_from_user`. `do_execve` gets the vectors by their
-- addresses, with all that the buffers hold.
pub record Calls (W : Type 0) : Type 0 where
  pub efault : ℕ
  pub einval : ℕ
  pub enomem : ℕ
  pub enosys : ℕ
  pub enodev : ℕ
  pub argstr : Struct Argstr
  pub read_args : Struct ReadArgs
  pub write_args : Struct ReadArgs
  pub getdents_args : Struct GetdentsArgs
  pub dup2_args : Struct Dup2Args
  pub lseek_args : Struct LseekArgs
  pub mkdir_args : Struct Argstr
  pub open_args : Struct OpenArgs
  pub stat_args : Struct StatArgs
  pub link_args : Struct LinkArgs
  pub rename_args : Struct RenameArgs
  pub munmap_args : Struct MunmapArgs
  pub mmap_args : Struct MmapArgs
  pub waitpid_args : Struct WaitpidArgs
  pub execve_args : Struct ExecveArgs
  pub int_size : ℕ
  pub dirent_size : ℕ
  pub stat_size : ℕ
  pub pipe_size : ℕ
  pub un_sysname : Text
  pub un_release : Text
  pub un_version : Text
  pub un_nodename : Text
  pub un_machine : Text
  pub copy_from_user : ℕ → ℕ → W → Answer (ℕ → ℕ) × W
  pub copy_to_user : ℕ → (ℕ → ℕ) → ℕ → W → Answer (Unit {0}) × W
  pub user_buf : ℕ → W → ℕ
  pub kmalloc : ℕ → W → Option ℕ × W
  pub page_alloc : W → ℕ × W
  pub kfree : ℕ → W → W
  pub page_free : ℕ → W → W
  pub do_read : ℕ → ℕ → W → Answer (ℕ × (ℕ → ℕ)) × W
  pub do_write : ℕ → (ℕ → ℕ) → ℕ → W → Answer ℕ × W
  pub do_getdent : ℕ → W → Answer (ℕ × (ℕ → ℕ)) × W
  pub do_close : ℕ → W → Answer ℕ × W
  pub do_dup : ℕ → W → Answer ℕ × W
  pub do_dup2 : ℕ → ℕ → W → Answer ℕ × W
  pub do_lseek : ℕ → ℕ → ℕ → W → Answer ℕ × W
  pub do_mkdir : (ℕ → ℕ) → W → Answer ℕ × W
  pub do_rmdir : (ℕ → ℕ) → W → Answer ℕ × W
  pub do_unlink : (ℕ → ℕ) → W → Answer ℕ × W
  pub do_chdir : (ℕ → ℕ) → W → Answer ℕ × W
  pub do_link : (ℕ → ℕ) → (ℕ → ℕ) → W → Answer ℕ × W
  pub do_rename : (ℕ → ℕ) → (ℕ → ℕ) → W → Answer ℕ × W
  pub do_open : (ℕ → ℕ) → ℕ → W → Answer ℕ × W
  pub do_stat : (ℕ → ℕ) → W → Answer (ℕ → ℕ) × W
  pub do_pipe : W → Answer (ℕ → ℕ) × W
  pub do_munmap : ℕ → ℕ → W → Answer (Unit {0}) × W
  pub do_mmap : MmapArgs → W → Answer ℕ × W
  pub do_brk : ℕ → W → Answer ℕ × W
  pub do_waitpid : ℕ → ℕ → W → Answer (ℕ × (ℕ → ℕ)) × W
  pub do_fork : W → Answer ℕ × W
  pub do_execve : (ℕ → ℕ) → Option ℕ → Option ℕ → (ℕ → ℕ → ℕ) → W → Answer (Unit {0}) × W
  pub do_exit : ℕ → W → W
  pub kthread_exit : ℕ → W → W
  pub kt_retval : W → ℕ
  pub pframe_clean_all : W → W
  pub proc_kill_all : W → W
  pub thr_yield : W → W
  pub dbg : Option (ℕ → ℕ) → W → W
  pub p_pid : W → ℕ
  pub kshell_create : ℕ → W → Option ℕ × W
  pub kshell_execute_next : ℕ → W → Answer ℕ × W
  pub kshell_destroy : ℕ → W → W
  pub kt_cancelled : W → Bool

-- The current thread's kt_errno, the buffers that were allocated and not given back, and what they
-- hold.
pub record State (W : Type 0) : Type 0 where
  pub world : W
  pub kt_errno : ℕ
  pub live : List ℕ
  pub contents : ℕ → ℕ → ℕ

-- What a system call returns to the user: a value, or -1 (MAP_FAILED for `sys_mmap`).
pub data UserResult : Type 0 where
  value : ℕ → UserResult
  minus_one : UserResult

module _ {W : Type 0} where
  -- A call of the rest of the kernel.
  abbrev pub call : {A : Type 0} → (W → A × W) → State W → A × State W
  call f s = let (r, w) = f s.world in (r, record s { world = w })

  -- curthr->kt_errno = e; return -1
  abbrev pub fail : ℕ → State W → UserResult × State W
  fail e s = (minus_one, record s { kt_errno = e })

  -- if (err < 0) { curthr->kt_errno = -err; return -1; } else return err;
  abbrev pub finish : Answer ℕ × State W → UserResult × State W
  finish (val n, s) = (value n, s)
  finish (err e, s) = fail (suc e) s

  abbrev pub finish_zero : {A : Type 0} → Answer A × State W → UserResult × State W
  finish_zero (val a, s) = (value 0, s)
  finish_zero (err e, s) = fail (suc e) s

  -- The value, or -1 with the error in kt_errno.
  abbrev pub on_value :
      {A : Type 0}
      → (A → State W → UserResult × State W)
      → Answer A × State W
      → UserResult × State W
  on_value k (val a, s) = k a s
  on_value k (err e, s) = fail (suc e) s

  -- The same with an error of the wrapper's own.
  abbrev pub on_value_or :
      {A : Type 0}
      → ℕ
      → (A → State W → UserResult × State W)
      → Answer A × State W
      → UserResult × State W
  on_value_or e k (val a, s) = k a s
  on_value_or e k (err _, s) = fail e s

module _ {W : Type 0} (c : Calls W) where
  -- copy_from_user(&kern_args, arg, sizeof(kern_args))
  abbrev pub load_args : {A : Type 0} → Struct A → ℕ → State W → Answer A × State W
  load_args t arg s =
      let (r, s1) = call (c.copy_from_user arg t.size) s in
      (elim r [ val d ↦ val (t.load d) | err e ↦ err e ], s1)

  -- kfree and page_free of a buffer
  abbrev pub free : (ℕ → W → W) → ℕ → State W → State W
  free give_back p s = record s { world = give_back p s.world; live = erase p s.live }

  abbrev pub hold : ℕ → W → State W → State W
  hold p w s = record s { world = w; live = p ∷ s.live }

  abbrev pub write_buffer : ℕ → (ℕ → ℕ) → State W → State W
  write_buffer p d s = record s { contents = update s.contents p d }
