-- ===== src/Api/Dispatch.antt =====
-- `syscall_dispatch` and `syscall_handler` of K3/syscall.c, without the calls that only a kernel with
-- __MOUNTING__ has. `number` reads a number as one of those of api/syscall.h; an int that is returned
-- as -1 is a register with all bits set.
pub mod Laws
mod Examples
use weenix_kernel_implementa.Common.{
  ℕ, ◌-◌, Bool, true, false, Option, none, some, u32_mod, Exec, ok, ◌>>=◌,
}
use weenix_kernel_implementa.Api.Calls.{Calls, State, UserResult, value, minus_one, fail}
use weenix_kernel_implementa.Api.Paths.{
  sys_mkdir, sys_rmdir, sys_unlink, sys_chdir, sys_open, sys_link, sys_rename, sys_stat, sys_debug,
}
use weenix_kernel_implementa.Api.Wrappers.{
  sys_read, sys_write, sys_getdents, sys_close, sys_dup, sys_dup2, sys_lseek, sys_munmap, sys_mmap,
  sys_waitpid, sys_brk, sys_pipe, sys_uname, sys_fork, sys_kshell,
}
use weenix_kernel_implementa.Api.Execve.{sys_execve}

pub data Sysnum : Type 0 where
  waitpid exit thr_exit thr_yield fork getpid sync mmap munmap open_ close read write dup dup2 :
      Sysnum
  mkdir rmdir unlink link rename chdir getdents brk lseek halt set_errno errno execve stat : Sysnum
  pipe uname debug kshell : Sysnum
  unknown : ℕ → Sysnum

-- The call returned, it ended the thread, or it still runs.
pub data Outcome (W : Type 0) : Type 0 where
  returned : UserResult × State W → Outcome W
  exited : State W → Outcome W
  unfinished : State W → Outcome W

-- r_eax and r_edx of regs_t
pub record Regs : Type 0 where
  pub r_eax : ℕ
  pub r_edx : ℕ

-- The thread goes on in user mode, with the registers; or it does not.
pub data Handled (W : Type 0) : Type 0 where
  resumes : Regs → State W → Handled W
  ends : State W → Handled W
  still_runs : State W → Handled W

-- A result as the value of a register.
abbrev pub eax_of : UserResult → ℕ
eax_of (value n) = n
eax_of minus_one = u32_mod - 1

module _ {W : Type 0} (c : Calls W) where
  abbrev pub done : UserResult × State W → Exec (Outcome W)
  done r = ok (returned r)

  abbrev pub in_world : (W → W) → State W → State W
  in_world f s = record s { world = f s.world }

  abbrev pub kshell_result : Option UserResult × State W → Exec (Outcome W)
  kshell_result (none, s) = ok (unfinished s)
  kshell_result (some r, s) = done (r, s)

  pub syscall_dispatch : ℕ → Sysnum → ℕ → State W → Exec (Outcome W)
  syscall_dispatch fuel waitpid args s = done (sys_waitpid c args s)
  syscall_dispatch fuel exit args s = ok (exited (in_world (c.do_exit args) s))
  syscall_dispatch fuel thr_exit args s = ok (exited (in_world (c.kthread_exit args) s))
  syscall_dispatch fuel thr_yield args s = done (value 0, in_world c.thr_yield s)
  syscall_dispatch fuel fork args s = done (sys_fork c s)
  syscall_dispatch fuel getpid args s = done (value (c.p_pid s.world), s)
  syscall_dispatch fuel sync args s = done (value 0, in_world c.pframe_clean_all s)
  syscall_dispatch fuel mmap args s = done (sys_mmap c args s)
  syscall_dispatch fuel munmap args s = done (sys_munmap c args s)
  syscall_dispatch fuel open_ args s = done (sys_open c args s)
  syscall_dispatch fuel close args s = done (sys_close c args s)
  syscall_dispatch fuel read args s = done (sys_read c args s)
  syscall_dispatch fuel write args s = done (sys_write c args s)
  syscall_dispatch fuel dup args s = done (sys_dup c args s)
  syscall_dispatch fuel dup2 args s = done (sys_dup2 c args s)
  syscall_dispatch fuel mkdir args s = done (sys_mkdir c args s)
  syscall_dispatch fuel rmdir args s = done (sys_rmdir c args s)
  syscall_dispatch fuel unlink args s = done (sys_unlink c args s)
  syscall_dispatch fuel link args s = done (sys_link c args s)
  syscall_dispatch fuel rename args s = done (sys_rename c args s)
  syscall_dispatch fuel chdir args s = done (sys_chdir c args s)
  syscall_dispatch fuel getdents args s = done (sys_getdents c args s)
  syscall_dispatch fuel brk args s = done (sys_brk c args s)
  syscall_dispatch fuel lseek args s = done (sys_lseek c args s)
  syscall_dispatch fuel halt args s = done (minus_one, in_world c.proc_kill_all s)
  syscall_dispatch fuel set_errno args s = done (value 0, record s { kt_errno = args })
  syscall_dispatch fuel errno args s = done (value s.kt_errno, s)
  syscall_dispatch fuel execve args s = sys_execve c fuel args s >>= done
  syscall_dispatch fuel stat args s = done (sys_stat c args s)
  syscall_dispatch fuel pipe args s = done (sys_pipe c args s)
  syscall_dispatch fuel uname args s = done (sys_uname c args s)
  syscall_dispatch fuel debug args s = done (sys_debug c args s)
  syscall_dispatch fuel kshell args s = kshell_result (sys_kshell c fuel args s)
  syscall_dispatch fuel (unknown n) args s = done (fail c.enosys s)

  -- kthread_exit(curthr->kt_retval)
  abbrev pub cancel : State W → Handled W
  cancel s = ends (in_world (λ w. c.kthread_exit (c.kt_retval w) w) s)

  pub after_call : Regs → Outcome W → Handled W
  after_call regs (exited s) = ends s
  after_call regs (unfinished s) = still_runs s
  after_call regs (returned (r, s)) = elim (c.kt_cancelled s.world) [
    | true ↦ cancel s
    | false ↦ resumes (record regs { r_eax = eax_of r }) s
  ]

  pub syscall_handler : (ℕ → Sysnum) → ℕ → Regs → State W → Exec (Handled W)
  unfolding syscall_dispatch after_call
  syscall_handler number fuel regs s = elim (c.kt_cancelled s.world) [
    | true ↦ ok (cancel s)
    | false ↦ syscall_dispatch fuel (number regs.r_eax) regs.r_edx s >>= λ o. ok (after_call regs o)
  ]
