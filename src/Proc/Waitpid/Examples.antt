-- ===== src/Proc/Waitpid/Examples.antt =====
-- The theorems on `do_waitpid` in a process 9 with two children: 10, which has exited, and 11, which
-- runs. Thread 1 runs, thread 4 is runnable.
use weenix_kernel_implementa.Common.{
  ℕ, ◌+◌, ◌≡◌, refl, true, false, ◌==◌, none, some, [], ◌∷◌, if◌then◌else◌, ok, arith,
}
use weenix_kernel_implementa.Proc.Kernel.{run, Kernel}
use weenix_kernel_implementa.Proc.Sched.{switched, sched_sleep_on}
use weenix_kernel_implementa.Proc.Sched.Fifo.{has}
use weenix_kernel_implementa.Proc.Sched.Invariant.{IsQueued}
use weenix_kernel_implementa.Proc.Sched.Switching.{sched_sleep_on_lem}
use weenix_kernel_implementa.Proc.Process.{ProcState, dead, running, Process, System, resumed}
use weenix_kernel_implementa.Proc.Waitpid.{
  any_child, child, reaped, sleeping, for_child, find_child, do_waitpid, waitpid_resume,
}
use weenix_kernel_implementa.Proc.Waitpid.Laws.{Disposed, do_waitpid-any, do_waitpid_stale_status}

abbrev k : Kernel
k = record {
  threads = λ t. record {
    kt_state = run;
    kt_wchan = if t == 4 then some 0 else none;
    kt_linked = t == 4;
    kt_cancelled = false;
    kt_retval = 0;
    kt_proc = 9;
    kt_saved_ipl = none;
  };
  queues = λ q.
      if q == 0
      then record { tq_list = 4 ∷ []; tq_size = 1 }
      else record { tq_list = []; tq_size = 0 };
  mutexes = λ m. record { km_waitq = 1; km_holder = none };
  curthr = 1;
  curproc = 9;
  ipl = 0;
  runq = 0;
  ipl_low = 0;
  ipl_high = 15;
}

abbrev process : ℕ → ProcState → Process
process p state = record {
  p_pid = some p;
  p_threads = (p + 10) ∷ [];
  p_children = if p == 9 then 10 ∷ 11 ∷ [] else [];
  p_status = if p == 10 then 3 else 0;
  p_state = state;
  p_pproc = some 9;
  p_wait = p;
}

abbrev s : System
s = record {
  kernel = k;
  procs = λ p. process p (if p == 10 then dead else running);
  proc_list = 9 ∷ 10 ∷ 11 ∷ [];
  next_pid = 12;
  proc_initproc = some 9;
  has_curproc = true;
  proc_max_count = 100;
  pid_idle = 0;
  pid_init = 1;
}

-- The same after process 11 has exited as well, with status 5.
abbrev s1 : System
s1 = record s { procs = λ p. record (process p dead) { p_status = 5 } }

k-IsQueued : IsQueued k
unfolding has
k-IsQueued = record {
  sized = λ q. ground arith;
  distinct = λ q. ground arith;
  listed = λ q t. ground arith;
  linked = λ t. ground arith;
  states = λ q t. ground arith;
}

do_waitpid-any_example :
    (d : ℕ) × (s' : System) × (do_waitpid any_child [] s
      ≡ ok (reaped (some d) (if d == 10 then 3 else 0) s'))
    × (has d (10 ∷ 11 ∷ []) ≡ true)
    × ((s.procs d).p_state ≡ dead)
    × Disposed d s s'
unfolding has
do_waitpid-any_example =
    do_waitpid-any s [] 10 (refl, (refl, (refl, tt))) (refl, (refl, tt)) (λ q e h. cc) refl refl

-- Thread 1 goes to sleep in its wait for process 11.
asleep : (sw : Kernel) × (sched_sleep_on 9 [] k ≡ ok (switched sw))
asleep =
    let slept = sched_sleep_on_lem 9 [] k 4 [] k-IsQueued (ground arith) refl refl in
    (slept.0, slept.1)

do_waitpid_stale_status_example :
    (do_waitpid (child 11) [] s ≡ ok (sleeping (for_child 11 0) (resumed s (switched asleep.0))))
    × (s2 : System) × (waitpid_resume (for_child 11 0) [] s1 ≡ ok (reaped (some 11) 0 s2))
unfolding find_child
do_waitpid_stale_status_example =
    do_waitpid_stale_status s s1 [] 11 11 (switched asleep.0) (ground arith) refl refl asleep.1 refl
      (λ e. cc)
