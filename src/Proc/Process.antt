-- ===== src/Proc/Process.antt =====
-- K1/proc.c and K1/kthread.c over the scheduler. Slab allocations are taken to succeed, as the
-- source does; the addresses of new objects are arguments. A call that switches away ends in
-- another thread; what follows it in the source is a function of its own.
use weenix_kernel_implementa.Common.{
  ℕ, Bool, true, false, not, ◌&&◌, ◌||◌, Option, none, some, List, [], ◌∷◌, ◌++◌, ◌==◌,
  if◌then◌else◌, update, Exec, ok, ◌>>=◌, ◌>>◌, kassert, deref,
}
use weenix_kernel_implementa.Proc.Kernel.{run, exited, Kthread, Kernel, set_thread}
use weenix_kernel_implementa.Proc.Sched.{
  is_none, state_eq, Switch, switched, waiting, sched_queue_init, sched_wakeup_on, sched_switch,
  sched_cancel,
}
use weenix_kernel_implementa.Proc.Kmutex.{points_to}
use weenix_kernel_implementa.Proc.Pid.{Getid, free_pid, no_pid, proc_getid}

-- PROC_RUNNING, PROC_DEAD
pub data ProcState : Type 0 where
  running dead : ProcState

-- proc_t. A `p_pid` of -1 is `none`; `p_pproc` may be NULL; `p_wait` is the address of the queue.
pub record Process : Type 0 where
  pub p_pid : Option ℕ
  pub p_threads : List ℕ
  pub p_children : List ℕ
  pub p_status : ℕ
  pub p_state : ProcState
  pub p_pproc : Option ℕ
  pub p_wait : ℕ

-- The variables of proc.c beside the scheduler's; the last three are PROC_MAX_COUNT, PID_IDLE and
-- PID_INIT. `curproc` is NULL until the first process runs.
pub record System : Type 0 where
  pub kernel : Kernel
  pub procs : ℕ → Process
  pub proc_list : List ℕ
  pub next_pid : ℕ
  pub proc_initproc : Option ℕ
  pub has_curproc : Bool
  pub proc_max_count : ℕ
  pub pid_idle : ℕ
  pub pid_init : ℕ

abbrev pub set_proc : ℕ → Process → System → System
set_proc p pr s = record s { procs = update s.procs p pr }

abbrev pub curproc : System → Option ℕ
curproc s = if s.has_curproc then some s.kernel.curproc else none

-- The numbers in use; a process with the number -1 is never found by one.
pub pids : System → List ℕ → List ℕ
pids s [] = []
pids s (p ∷ ps) = elim (s.procs p).p_pid [ none ↦ pids s ps | some pid ↦ pid ∷ pids s ps ]

abbrev pub has_pid : System → ℕ → ℕ → Bool
has_pid s p pid = points_to (s.procs p).p_pid pid

abbrev pub list_is_empty : List ℕ → Bool
list_is_empty [] = true
list_is_empty (_ ∷ _) = false

-- The result of `_proc_getid` as stored: the number, and the new `next_pid`.
stored_pid : System → Getid → Option ℕ × System
stored_pid s (free_pid pid next) = (some pid, record s { next_pid = next })
stored_pid s no_pid = (none, s)

add_child : Option ℕ → ℕ → System → System
add_child none p s = s
add_child (some c) p s =
    set_proc c (record (s.procs c) { p_children = (s.procs c).p_children ++ p ∷ [] }) s

idle_is : System → Option ℕ → Bool
idle_is s none = false
idle_is s (some c) = has_pid s c s.pid_idle

-- The new process is at address `p`, with its wait queue at `wait`.
pub proc_create : ℕ → ℕ → System → Exec System
unfolding pids stored_pid add_child idle_is
proc_create p wait s = do
  r ← deref (proc_getid s.proc_max_count s.next_pid (pids s s.proc_list))
  let (pid, s1) = stored_pid s r
  kassert (not (points_to pid s.pid_idle) || list_is_empty s.proc_list)
  kassert (not (points_to pid s.pid_init) || idle_is s1 (curproc s1))
  let fresh : Process = record {
    p_pid = pid;
    p_threads = [];
    p_children = [];
    p_status = 0;
    p_state = running;
    p_pproc = curproc s1;
    p_wait = wait;
  }
  let init = (if points_to pid s.pid_init then some p else s1.proc_initproc)
  let s2 = record s1 { proc_initproc = init; kernel = sched_queue_init wait s1.kernel }
  let s3 = add_child (curproc s2) p (set_proc p fresh s2)
  ok (record s3 { proc_list = s3.proc_list ++ p ∷ [] })

-- The new thread is at address `t`.
pub kthread_create : ℕ → ℕ → System → System
kthread_create t p s =
    let thr : Kthread = record {
      kt_state = run;
      kt_wchan = none;
      kt_linked = false;
      kt_cancelled = false;
      kt_retval = 0;
      kt_proc = p;
      kt_saved_ipl = none;
    } in
    let s1 = record s { kernel = set_thread t thr s.kernel } in
    set_proc p (record (s1.procs p) { p_threads = (s1.procs p).p_threads ++ t ∷ [] }) s1

-- The loop of `proc_cleanup`. `list_insert_tail` takes a child's link over into init's list; the
-- list of the dying process, whose head still points to it, is not read again.
pub reparent : ℕ → List ℕ → System → System
reparent init [] s = s
reparent init (c ∷ cs) s =
    let s1 =
      set_proc init (record (s.procs init) { p_children = (s.procs init).p_children ++ c ∷ [] })
        s in
    reparent init cs (set_proc c (record (s1.procs c) { p_pproc = some init }) s1)

abbrev positive : Option ℕ → Bool
positive none = false
positive (some pid) = not (pid == 0)

-- The children of the init process itself would be linked into the list that the loop walks, which
-- breaks it; the source relies on init having none, and the model stops there.
pub proc_cleanup : ℕ → System → Exec System
unfolding reparent
proc_cleanup status s = do
  init ← deref s.proc_initproc
  let cur = s.kernel.curproc
  kassert (positive (s.procs cur).p_pid)
  parent ← deref (s.procs cur).p_pproc
  (woken, k) ← sched_wakeup_on (s.procs parent).p_wait s.kernel
  kassert (not (init == cur) || list_is_empty (s.procs cur).p_children)
  let s1 = reparent init (s.procs cur).p_children (record s { kernel = k })
  let s2 = set_proc cur (record (s1.procs cur) { p_status = status; p_state = dead }) s1
  kassert (state_eq (k.threads k.curthr).kt_state exited)
  ok s2

-- What a call that does not return leaves.
abbrev pub resumed : System → Switch → System × Bool
resumed s (switched k) = (record s { kernel = k }, true)
resumed s (waiting k) = (record s { kernel = k }, false)

-- proc_thread_exited: the cleanup, and the switch to another thread.
pub proc_thread_exited : ℕ → List (Kernel → Exec Kernel) → System → Exec (System × Bool)
proc_thread_exited retval intrs s = do
  s1 ← proc_cleanup retval s
  sw ← sched_switch intrs s1.kernel
  ok (resumed s1 sw)

pub kthread_exit : ℕ → List (Kernel → Exec Kernel) → System → Exec (System × Bool)
unfolding proc_thread_exited
kthread_exit retval intrs s = do
  let k = s.kernel
  let thr = k.threads k.curthr
  kassert (is_none thr.kt_wchan)
  kassert (not thr.kt_linked)
  kassert (thr.kt_proc == k.curproc)
  let k1 = set_thread k.curthr (record thr { kt_retval = retval; kt_state = exited }) k
  proc_thread_exited retval intrs (record s { kernel = k1 })

-- do_exit
pub do_exit : ℕ → List (Kernel → Exec Kernel) → System → Exec (System × Bool)
do_exit = kthread_exit

-- The flag is true if the calling thread exited.
pub kthread_cancel : ℕ → ℕ → List (Kernel → Exec Kernel) → System → Exec (System × Bool)
kthread_cancel t retval intrs s =
    let k = s.kernel in
    let k1 = set_thread t (record (k.threads t) { kt_cancelled = true }) k in
    if t == k.curthr
    then (do (s', ran) ← kthread_exit retval intrs (record s { kernel = k1 }); ok (s', true))
    else (do
      k2 ← sched_cancel t (set_thread t (record (k1.threads t) { kt_retval = retval }) k1)
      ok (record s { kernel = k2 }, false))

-- The loop of `proc_kill` over the threads of another process.
pub cancel_threads : List ℕ → ℕ → List (Kernel → Exec Kernel) → System → Exec System
unfolding kthread_cancel
cancel_threads [] status intrs s = ok s
cancel_threads (t ∷ ts) status intrs s = do
  (s1, gone) ← kthread_cancel t status intrs s
  if gone then ok s1 else cancel_threads ts status intrs s1

pub proc_kill : ℕ → ℕ → List (Kernel → Exec Kernel) → System → Exec System
unfolding cancel_threads
proc_kill p status intrs s =
    if p == s.kernel.curproc
    then (do (s', ran) ← do_exit status intrs s; ok s')
    else cancel_threads (s.procs p).p_threads status intrs s

-- The process is no child of the idle process, is not that process, and is not the current one.
kill_target : System → ℕ → Bool
kill_target s p = elim (s.procs p).p_pproc [
  | none ↦ false
  | some parent ↦
      not (has_pid s parent s.pid_idle)
      && (not (has_pid s p s.pid_idle) && not (p == s.kernel.curproc))
]

pub kill_loop : List ℕ → List (Kernel → Exec Kernel) → System → Exec System
unfolding proc_kill kill_target
kill_loop [] intrs s = ok s
kill_loop (p ∷ ps) intrs s = do
  s1 ← (if kill_target s p then proc_kill p 0 intrs s else ok s)
  kill_loop ps intrs s1

pub proc_kill_all : List (Kernel → Exec Kernel) → System → Exec System
unfolding kill_loop
proc_kill_all intrs s = do
  s1 ← kill_loop s.proc_list intrs s
  elim (s1.procs s1.kernel.curproc).p_pproc [
    | none ↦ ok s1
    | some parent ↦
        if has_pid s1 parent s1.pid_idle then ok s1 else proc_kill s1.kernel.curproc 0 intrs s1
  ]
