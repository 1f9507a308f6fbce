-- ===== src/Proc/Kernel.antt =====
-- The state that the files of K1 share. Threads, queues, mutexes and processes are named by numbers
-- that stand for their addresses; the tables hold what is stored there.
use weenix_kernel_implementa.Common.{ℕ, Bool, Option, List, update}

-- KT_NO_STATE, KT_RUN, KT_SLEEP, KT_SLEEP_CANCELLABLE, KT_EXITED
pub data KtState : Type 0 where
  no_state run sleep sleep_cancellable exited : KtState

-- kthread_t. `kt_linked` says whether `kt_qlink` is linked. `kt_saved_ipl` is the local variable
-- `ipl` of a thread that waits in `sched_switch`; it stands for the thread's kernel stack.
pub record Kthread : Type 0 where
  pub kt_state : KtState
  pub kt_wchan : Option ℕ
  pub kt_linked : Bool
  pub kt_cancelled : Bool
  pub kt_retval : ℕ
  pub kt_proc : ℕ
  pub kt_saved_ipl : Option ℕ

-- ktqueue_t, the list from its head to its tail.
pub record Ktqueue : Type 0 where
  pub tq_list : List ℕ
  pub tq_size : ℕ

-- kmutex_t
pub record Kmutex : Type 0 where
  pub km_waitq : ℕ
  pub km_holder : Option ℕ

-- `runq`, `ipl_low` and `ipl_high` are constants: the address of `kt_runq`, IPL_LOW and IPL_HIGH.
pub record Kernel : Type 0 where
  pub threads : ℕ → Kthread
  pub queues : ℕ → Ktqueue
  pub mutexes : ℕ → Kmutex
  pub curthr : ℕ
  pub curproc : ℕ
  pub ipl : ℕ
  pub runq : ℕ
  pub ipl_low : ℕ
  pub ipl_high : ℕ

abbrev pub set_thread : ℕ → Kthread → Kernel → Kernel
set_thread t thr k = record k { threads = update k.threads t thr }

abbrev pub set_queue : ℕ → Ktqueue → Kernel → Kernel
set_queue q tq k = record k { queues = update k.queues q tq }

abbrev pub set_mutex : ℕ → Kmutex → Kernel → Kernel
set_mutex m mtx k = record k { mutexes = update k.mutexes m mtx }

abbrev pub set_ipl : ℕ → Kernel → Kernel
set_ipl i k = record k { ipl = i }
