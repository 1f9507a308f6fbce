-- ===== src/Api/Dispatch/Laws.antt =====
-- What a system call does to the thread and the kernel's buffers, whichever it is.
use weenix_kernel_implementa.Common.{
  ℕ, ◌<◌, ◌≡◌, ◌≢◌, refl, sym, subst, ap, ◌∙◌, panic, inl, inr, false, Option, none, some, List,
  Exec, ok, ◌>>=◌, Bool-cases,
}
use weenix_kernel_implementa.Api.Calls.{Calls, State, UserResult, minus_one}
use weenix_kernel_implementa.Api.Orderly.{ErrnoLaws, Orderly, value-Orderly, fail-Orderly}
use weenix_kernel_implementa.Api.Paths.Orderly.{
  sys_mkdir-Orderly, sys_rmdir-Orderly, sys_unlink-Orderly, sys_chdir-Orderly, sys_open-Orderly,
  sys_link-Orderly, sys_rename-Orderly, sys_stat-Orderly, sys_debug-Orderly,
}
use weenix_kernel_implementa.Api.Wrappers.{sys_kshell}
use weenix_kernel_implementa.Api.Wrappers.Orderly.{
  ShellOrderly, sys_read-Orderly, sys_write-Orderly, sys_getdents-Orderly, sys_close-Orderly,
  sys_dup-Orderly, sys_dup2-Orderly, sys_lseek-Orderly, sys_munmap-Orderly, sys_mmap-Orderly,
  sys_waitpid-Orderly, sys_brk-Orderly, sys_pipe-Orderly, sys_uname-Orderly, sys_fork-Orderly,
  sys_kshell-Orderly,
}
use weenix_kernel_implementa.Api.Dispatch.{
  Sysnum, waitpid, exit, thr_exit, thr_yield, fork, getpid, sync, mmap, munmap, open_, close, read,
  write, dup, dup2, mkdir, rmdir, unlink, link, rename, chdir, getdents, brk, lseek, halt,
  set_errno, errno, execve, stat, pipe, uname, debug, kshell, unknown, Outcome, returned, exited,
  unfinished, Regs, resumes, eax_of, done, in_world, kshell_result, syscall_dispatch, cancel,
  after_call, syscall_handler,
}

-- What follows a computation that did not panic.
ok_of :
    {A B : Type 0} (m : Exec A) (f : A → B) (b : B)
    → (m >>= λ a. ok (f a)) ≡ ok b
    → (a : A) × (m ≡ ok a) × (f a ≡ b)
ok_of (ok a) f b e = (a, refl, cc)
ok_of panic f b e = absurd cc

module _ {W : Type 0} where
  -- The outcome leaves the buffers of `live`, and a -1 that is returned comes with an error, unless the
  -- call is `halt`.
  pub OutcomeOrderly : Sysnum → List ℕ → Outcome W → Type 0
  OutcomeOrderly n live (returned (r, s)) =
      (s.live ≡ live) × (r ≡ minus_one → n ≢ halt → 0 < s.kt_errno)
  OutcomeOrderly n live (exited s) = s.live ≡ live
  OutcomeOrderly n live (unfinished s) = s.live ≡ live

  abbrev pub state_of : Outcome W → State W
  state_of (returned (r, s)) = s
  state_of (exited s) = s
  state_of (unfinished s) = s

module _ {W : Type 0} (c : Calls W) (laws : ErrnoLaws c) where
  abbrev Behaves : ℕ → Sysnum → ℕ → State W → Type 0
  Behaves fuel n args s =
      (o : Outcome W) × (syscall_dispatch c fuel n args s ≡ ok o) × OutcomeOrderly n s.live o

  done-Orderly :
      (n : Sysnum) (live : List ℕ) (r : UserResult × State W)
      → Orderly live r
      → (o : Outcome W) × (done c r ≡ ok o) × OutcomeOrderly n live o
  unfolding OutcomeOrderly
  done-Orderly n live (r, s) h = (returned (r, s), refl, (h.kept, λ e _. h.reported e))

  kshell_result-Orderly :
      (n : Sysnum) (live : List ℕ) (r : Option UserResult × State W)
      → ShellOrderly c laws live r
      → (o : Outcome W) × (kshell_result c r ≡ ok o) × OutcomeOrderly n live o
  unfolding OutcomeOrderly
  kshell_result-Orderly n live (none, s) e = (unfinished s, refl, e)
  kshell_result-Orderly n live (some r, s) h = done-Orderly n live (r, s) h

  syscall_dispatch-Orderly :
      (fuel : ℕ) (n : Sysnum) (args : ℕ) (s : State W) → n ≢ execve → Behaves fuel n args s
  unfolding syscall_dispatch OutcomeOrderly
  syscall_dispatch-Orderly fuel waitpid args s differs =
      done-Orderly waitpid s.live _ (sys_waitpid-Orderly c laws args s)
  syscall_dispatch-Orderly fuel exit args s differs =
      (exited (in_world c (c.do_exit args) s), refl, refl)
  syscall_dispatch-Orderly fuel thr_exit args s differs =
      (exited (in_world c (c.kthread_exit args) s), refl, refl)
  syscall_dispatch-Orderly fuel thr_yield args s differs =
      done-Orderly thr_yield s.live _ (value-Orderly s.live 0 (in_world c c.thr_yield s) refl)
  syscall_dispatch-Orderly fuel fork args s differs =
      done-Orderly fork s.live _ (sys_fork-Orderly c laws s)
  syscall_dispatch-Orderly fuel getpid args s differs =
      done-Orderly getpid s.live _ (value-Orderly s.live (c.p_pid s.world) s refl)
  syscall_dispatch-Orderly fuel sync args s differs =
      done-Orderly sync s.live _ (value-Orderly s.live 0 (in_world c c.pframe_clean_all s) refl)
  syscall_dispatch-Orderly fuel mmap args s differs =
      done-Orderly mmap s.live _ (sys_mmap-Orderly c laws args s)
  syscall_dispatch-Orderly fuel munmap args s differs =
      done-Orderly munmap s.live _ (sys_munmap-Orderly c laws args s)
  syscall_dispatch-Orderly fuel open_ args s differs =
      done-Orderly open_ s.live _ (sys_open-Orderly c laws args s)
  syscall_dispatch-Orderly fuel close args s differs =
      done-Orderly close s.live _ (sys_close-Orderly c laws args s)
  syscall_dispatch-Orderly fuel read args s differs =
      done-Orderly read s.live _ (sys_read-Orderly c laws args s)
  syscall_dispatch-Orderly fuel write args s differs =
      done-Orderly write s.live _ (sys_write-Orderly c laws args s)
  syscall_dispatch-Orderly fuel dup args s differs =
      done-Orderly dup s.live _ (sys_dup-Orderly c laws args s)
  syscall_dispatch-Orderly fuel dup2 args s differs =
      done-Orderly dup2 s.live _ (sys_dup2-Orderly c laws args s)
  syscall_dispatch-Orderly fuel mkdir args s differs =
      done-Orderly mkdir s.live _ (sys_mkdir-Orderly c laws args s)
  syscall_dispatch-Orderly fuel rmdir args s differs =
      done-Orderly rmdir s.live _ (sys_rmdir-Orderly c laws args s)
  syscall_dispatch-Orderly fuel unlink args s differs =
      done-Orderly unlink s.live _ (sys_unlink-Orderly c laws args s)
  syscall_dispatch-Orderly fuel link args s differs =
      done-Orderly link s.live _ (sys_link-Orderly c laws args s)
  syscall_dispatch-Orderly fuel rename args s differs =
      done-Orderly rename s.live _ (sys_rename-Orderly c laws args s)
  syscall_dispatch-Orderly fuel chdir args s differs =
      done-Orderly chdir s.live _ (sys_chdir-Orderly c laws args s)
  syscall_dispatch-Orderly fuel getdents args s differs =
      done-Orderly getdents s.live _ (sys_getdents-Orderly c laws args s)
  syscall_dispatch-Orderly fuel brk args s differs =
      done-Orderly brk s.live _ (sys_brk-Orderly c laws args s)
  syscall_dispatch-Orderly fuel lseek args s differs =
      done-Orderly lseek s.live _ (sys_lseek-Orderly c laws args s)
  syscall_dispatch-Orderly fuel stat args s differs =
      done-Orderly stat s.live _ (sys_stat-Orderly c laws args s)
  syscall_dispatch-Orderly fuel pipe args s differs =
      done-Orderly pipe s.live _ (sys_pipe-Orderly c laws args s)
  syscall_dispatch-Orderly fuel uname args s differs =
      done-Orderly uname s.live _ (sys_uname-Orderly c laws args s)
  syscall_dispatch-Orderly fuel debug args s differs =
      done-Orderly debug s.live _ (sys_debug-Orderly c laws args s)
  syscall_dispatch-Orderly fuel halt args s differs =
      (returned (minus_one, in_world c c.proc_kill_all s), refl, (refl, λ e no. absurd (no refl)))
  syscall_dispatch-Orderly fuel set_errno args s differs =
      done-Orderly set_errno s.live _ (value-Orderly s.live 0 (record s { kt_errno = args }) refl)
  syscall_dispatch-Orderly fuel errno args s differs =
      done-Orderly errno s.live _ (value-Orderly s.live s.kt_errno s refl)
  syscall_dispatch-Orderly fuel execve args s differs = absurd (differs refl)
  syscall_dispatch-Orderly fuel kshell args s differs =
      kshell_result-Orderly kshell s.live (sys_kshell c fuel args s)
        (sys_kshell-Orderly c laws fuel args s)
  syscall_dispatch-Orderly fuel (unknown n) args s differs =
      done-Orderly (unknown n) s.live _ (fail-Orderly s.live c.enosys s laws.enosys refl)

  -- Where the errors that the wrappers name are positive numbers, every system call but
  -- `execve` has an outcome, whatever the rest of the kernel answers: it returns, it ends the
  -- thread, or it is the shell, which still runs. In each case the kernel's temporary buffers,
  -- those of `user_strdup` and `page_alloc`, are the ones there were before.
  pub syscall_dispatch-live :
      (fuel : ℕ) (n : Sysnum) (args : ℕ) (s : State W)
      → n ≢ execve
      → (o : Outcome W) × (syscall_dispatch c fuel n args s ≡ ok o) × ((state_of o).live ≡ s.live)
  unfolding OutcomeOrderly
  syscall_dispatch-live fuel n args s differs =
      let (o, e, h) = syscall_dispatch-Orderly fuel n args s differs in (o, e, live_of o h)
    where
      live_of : (o : Outcome W) → OutcomeOrderly n s.live o → (state_of o).live ≡ s.live
      live_of (returned (r, s')) h = h.0
      live_of (exited s') h = h
      live_of (unfinished s') h = h

  -- Where the errors that the wrappers name are positive numbers, a system call other than `execve` and
  -- `halt` that returns -1 has set kt_errno to an error.
  pub syscall_dispatch-kt_errno :
      (fuel : ℕ) (n : Sysnum) (args : ℕ) (s s' : State W)
      → n ≢ execve
      → n ≢ halt
      → syscall_dispatch c fuel n args s ≡ ok (returned (minus_one, s'))
      → 0 < s'.kt_errno
  unfolding OutcomeOrderly
  syscall_dispatch-kt_errno fuel n args s s' differs goes_on result =
      let (o, e, h) = syscall_dispatch-Orderly fuel n args s differs in
      let same : o ≡ returned (minus_one, s') = cc in
      (subst (OutcomeOrderly n s.live) same h).1 refl goes_on

module _ {W : Type 0} (c : Calls W) where
  after_call-resumes :
      (regs regs' : Regs) (o : Outcome W) (s' : State W)
      → after_call c regs o ≡ resumes regs' s'
      → (r : UserResult) × (o ≡ returned (r, s'))
        × (c.kt_cancelled s'.world ≡ false)
        × (regs'.r_eax ≡ eax_of r)
  unfolding after_call
  after_call-resumes regs regs' (exited s) s' e = absurd cc
  after_call-resumes regs regs' (unfinished s) s' e = absurd cc
  after_call-resumes regs regs' (returned (r, s)) s' e =
      elim (Bool-cases (c.kt_cancelled s.world)) [
        | inl cancelled ↦
            let ended : after_call c regs (returned (r, s)) ≡ cancel c s =
              rw (after_call, cancelled) refl in
            absurd cc
        | inr goes_on ↦
            let resumed : after_call c regs (returned (r, s))
                ≡ resumes (record regs { r_eax = eax_of r }) s =
              rw (after_call, goes_on) refl in
            let both : resumes (record regs { r_eax = eax_of r }) s ≡ resumes regs' s' =
              sym resumed ∙ e in
            let state : s ≡ s' = cc in
            let registers : record regs { r_eax = eax_of r } ≡ regs' = cc in
            (
              r,
              ap (λ x. returned (r, x)) state,
              ap (λ x. c.kt_cancelled x.world) (sym state) ∙ goes_on,
              ap (λ x. x.r_eax) (sym registers),
            )
      ]

  -- A thread that goes on in user mode after a system call was not cancelled before the call, nor at
  -- its end; the call returned, and r_eax is what it returned.
  pub syscall_handler-resumes :
      (number : ℕ → Sysnum) (fuel : ℕ) (regs regs' : Regs) (s s' : State W)
      → syscall_handler c number fuel regs s ≡ ok (resumes regs' s')
      → (c.kt_cancelled s.world ≡ false)
        × (c.kt_cancelled s'.world ≡ false)
        × ((r : UserResult) × (syscall_dispatch c fuel (number regs.r_eax) regs.r_edx s
              ≡ ok (returned (r, s')))
            × (regs'.r_eax ≡ eax_of r))
  unfolding syscall_handler after_call
  syscall_handler-resumes number fuel regs regs' s s' e =
      elim (Bool-cases (c.kt_cancelled s.world)) [
        | inl cancelled ↦
            let ended : syscall_handler c number fuel regs s ≡ ok (cancel c s) =
              rw (syscall_handler, cancelled) refl in
            absurd cc
        | inr alive ↦
            let ran : syscall_handler c number fuel regs s ≡ (
                syscall_dispatch c fuel (number regs.r_eax) regs.r_edx s >>= λ o.
                ok (after_call c regs o)) =
              rw (syscall_handler, alive) refl in
            let (o, called, after) =
              ok_of (syscall_dispatch c fuel (number regs.r_eax) regs.r_edx s) (after_call c regs)
                (resumes regs' s') (sym ran ∙ e) in
            let (r, same, goes_on, eax) = after_call-resumes regs regs' o s' after in
            (alive, goes_on, (r, called ∙ ap ok same, eax))
      ]
