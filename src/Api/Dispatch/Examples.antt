-- ===== src/Api/Dispatch/Examples.antt =====
-- The theorems on system calls, where `do_link` fails with error 17 and every other call succeeds.
use weenix_kernel_implementa.Common.{
  ℕ, ◌+◌, ◌<◌, ◌≡◌, refl, false, none, some, [], ◌∷◌, ◌==◌, if◌then◌else◌, ok, arith,
}
use weenix_kernel_implementa.Api.Calls.{val, err, Calls, State, UserResult}
use weenix_kernel_implementa.Api.Orderly.{ErrnoLaws}
use weenix_kernel_implementa.Api.Dispatch.{
  link, getpid, unknown, after_call, Outcome, returned, eax_of, syscall_dispatch, syscall_handler,
}
use weenix_kernel_implementa.Api.Dispatch.Laws.{
  state_of, syscall_dispatch-live, syscall_dispatch-kt_errno, syscall_handler-resumes,
}

-- The state of the rest of the kernel is the next address that is free.
abbrev calls : Calls ℕ
calls = record {
  efault = 14;
  einval = 22;
  enomem = 12;
  enosys = 38;
  enodev = 19;
  argstr = record { size = 8; load = λ d. record { as_str = d 0; as_len = 3 } };
  read_args = record { size = 8; load = λ d. record { fd = d 0; buf = d 1; nbytes = 4 } };
  write_args = record { size = 8; load = λ d. record { fd = d 0; buf = d 1; nbytes = 4 } };
  getdents_args = record { size = 8; load = λ d. record { fd = d 0; dirp = d 1; count = 16 } };
  dup2_args = record { size = 8; load = λ d. record { ofd = d 0; nfd = d 1 } };
  lseek_args = record { size = 8; load = λ d. record { fd = d 0; offset = d 1; whence = d 2 } };
  mkdir_args = record { size = 8; load = λ d. record { as_str = d 0; as_len = 3 } };
  open_args = record {
    size = 8;
    load = λ d. record { filename = record { as_str = d 0; as_len = 3 }; flags = d 1 };
  };
  stat_args = record {
    size = 8;
    load = λ d. record { path = record { as_str = d 0; as_len = 3 }; buf = d 1 };
  };
  link_args = record {
    size = 8;
    load = λ d. record {
      to = record { as_str = d 0; as_len = 3 };
      from = record { as_str = d 1; as_len = 3 };
    };
  };
  rename_args = record {
    size = 8;
    load = λ d. record {
      oldname = record { as_str = d 0; as_len = 3 };
      newname = record { as_str = d 1; as_len = 3 };
    };
  };
  munmap_args = record { size = 8; load = λ d. record { addr = d 0; len = d 1 } };
  mmap_args = record {
    size = 8;
    load = λ d. record {
      mma_addr = d 0;
      mma_len = d 1;
      mma_prot = 3;
      mma_flags = 2;
      mma_fd = 0;
      mma_off = 0;
    };
  };
  waitpid_args = record {
    size = 8;
    load = λ d. record { wpa_pid = d 0; wpa_options = 0; wpa_status = d 1 };
  };
  execve_args = record {
    size = 8;
    load = λ d. record {
      filename = record { as_str = d 0; as_len = 3 };
      argv = record { av_vec = 0; av_len = 0 };
      envp = record { av_vec = 0; av_len = 0 };
    };
  };
  int_size = 8;
  dirent_size = 8;
  stat_size = 8;
  pipe_size = 8;
  un_sysname = record { place = 0; bytes = λ i. 87; size = 7 };
  un_release = record { place = 0; bytes = λ i. 87; size = 7 };
  un_version = record { place = 0; bytes = λ i. 87; size = 7 };
  un_nodename = record { place = 0; bytes = λ i. 87; size = 7 };
  un_machine = record { place = 0; bytes = λ i. 87; size = 7 };
  copy_from_user = λ p n w. (val (λ i. i + 100), w);
  copy_to_user = λ p d n w. (val tt, w);
  user_buf = λ p w. p;
  kmalloc = λ n w. (some w, w + 1);
  page_alloc = λ w. (w, w + 1);
  kfree = λ p w. w;
  page_free = λ p w. w;
  do_read = λ a b w. (val (4, λ i. 9), w);
  do_write = λ a b c w. (val 0, w);
  do_getdent = λ a w. (val (4, λ i. 9), w);
  do_close = λ a w. (val 0, w);
  do_dup = λ a w. (val 0, w);
  do_dup2 = λ a b w. (val 0, w);
  do_lseek = λ a b c w. (val 0, w);
  do_mkdir = λ a w. (val 0, w);
  do_rmdir = λ a w. (val 0, w);
  do_unlink = λ a w. (val 0, w);
  do_chdir = λ a w. (val 0, w);
  do_link = λ a b w. (err 16, w);
  do_rename = λ a b w. (val 0, w);
  do_open = λ a b w. (val 0, w);
  do_stat = λ a w. (val (λ i. 9), w);
  do_pipe = λ w. (val (λ i. 9), w);
  do_munmap = λ a b w. (val tt, w);
  do_mmap = λ a w. (val 0, w);
  do_brk = λ a w. (val 0, w);
  do_waitpid = λ a b w. (val (4, λ i. 9), w);
  do_fork = λ w. (val 0, w);
  do_execve = λ f a e m w. (err 1, w);
  do_exit = λ a w. w;
  kthread_exit = λ a w. w;
  kt_retval = λ w. 7;
  pframe_clean_all = λ w. w;
  proc_kill_all = λ w. w;
  thr_yield = λ w. w;
  dbg = λ a w. w;
  p_pid = λ w. 7;
  kshell_create = λ t w. (none, w);
  kshell_execute_next = λ a w. (val 0, w);
  kshell_destroy = λ a w. w;
  kt_cancelled = λ w. false;
}

errno_laws : ErrnoLaws calls
errno_laws = record {
  efault = omega arith;
  einval = omega arith;
  enosys = omega arith;
  enodev = omega arith;
}

abbrev state : State ℕ
state = record { world = 500; kt_errno = 0; live = 400 ∷ []; contents = λ p i. 0 }

syscall_dispatch-live_example :
    (o : Outcome ℕ) × (syscall_dispatch calls 0 link 64 state ≡ ok o)
    × ((state_of o).live ≡ 400 ∷ [])
syscall_dispatch-live_example =
    syscall_dispatch-live calls errno_laws 0 link 64 state (λ e. absurd cc)

syscall_dispatch-kt_errno_example : 0 < 38
unfolding syscall_dispatch
syscall_dispatch-kt_errno_example =
    syscall_dispatch-kt_errno calls errno_laws 0 (unknown 99) 64 state
      (record state { kt_errno = 38 }) (λ e. absurd cc) (λ e. absurd cc) refl

syscall_handler-resumes_example :
    (false ≡ false)
    × (false ≡ false)
    × ((r : UserResult) × (syscall_dispatch calls 0 getpid 64 state ≡ ok (returned (r, state)))
        × (7 ≡ eax_of r))
unfolding syscall_handler syscall_dispatch after_call
syscall_handler-resumes_example =
    syscall_handler-resumes calls (λ n. if n == 20 then getpid else unknown n) 0
      (record { r_eax = 20; r_edx = 64 }) (record { r_eax = 7; r_edx = 64 }) state state refl
