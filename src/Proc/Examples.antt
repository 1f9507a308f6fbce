-- ===== src/Proc/Examples.antt =====
-- The theorems on threads and mutexes at one state of the scheduler: thread 1 runs and holds mutex
-- 0, threads 2 and 3 wait for it, in this order, on queue 1, thread 4 is runnable, and thread 5 is
-- in a cancellable sleep on queue 2. The run queue is queue 0.
use weenix_kernel_implementa.Common.{
  ℕ, ◌≡◌, refl, Bool, true, false, ◌||◌, ◌==◌, Option, none, some, List, [], ◌∷◌, ◌++◌,
  if◌then◌else◌, update, ok, panic, arith,
}
use weenix_kernel_implementa.Proc.Kernel.{
  KtState, run, sleep, sleep_cancellable, Kthread, Ktqueue, Kernel, set_mutex,
}
use weenix_kernel_implementa.Proc.Sched.{
  switched, sched_switch, sched_wakeup_on, sched_broadcast_on, sched_cancel,
  cancellable_sleep_resume,
}
use weenix_kernel_implementa.Proc.Sched.Fifo.{fifo, has}
use weenix_kernel_implementa.Proc.Sched.Invariant.{IsQueued}
use weenix_kernel_implementa.Proc.Sched.Wakeup.{Woken, sched_wakeup_on_lem}
use weenix_kernel_implementa.Proc.Sched.Broadcast.{Broadcast, sched_broadcast_on-Broadcast}
use weenix_kernel_implementa.Proc.Sched.Cancel.{sched_cancel_wakes}
use weenix_kernel_implementa.Proc.Sched.Switching.{Switched, sched_switch-Switched}
use weenix_kernel_implementa.Proc.Kmutex.{
  acquired, blocked, kmutex_lock, kmutex_unlock, kmutex_lock_cancellable,
}
use weenix_kernel_implementa.Proc.Kmutex.Laws.{
  IsLock, Ready, HandedOver, kmutex_unlock_lem, kmutex_lock_lem,
}
use weenix_kernel_implementa.Proc.Kmutex.Cancelled.{
  kmutex_lock_cancellable-panic, cancelled_after_unlock,
}
use weenix_kernel_implementa.Proc.Pid.{Getid, Spec, proc_getid, proc_getid-Spec}

abbrev thread : KtState → Option ℕ → Bool → Kthread
thread state wchan linked = record {
  kt_state = state;
  kt_wchan = wchan;
  kt_linked = linked;
  kt_cancelled = false;
  kt_retval = 0;
  kt_proc = 9;
  kt_saved_ipl = none;
}

abbrev threads_at : ℕ → Kthread
threads_at t =
    if t == 2 || t == 3
    then thread sleep (some 1) true
    else if t == 4
    then thread run (some 0) true
    else if t == 5
    then thread sleep_cancellable (some 2) true
    else thread run none false

abbrev queues_at : ℕ → Ktqueue
queues_at q =
    if q == 0
    then record { tq_list = 4 ∷ []; tq_size = 1 }
    else if q == 1
    then record { tq_list = 3 ∷ 2 ∷ []; tq_size = 2 }
    else if q == 2
    then record { tq_list = 5 ∷ []; tq_size = 1 }
    else record { tq_list = []; tq_size = 0 }

abbrev k : Kernel
k = record {
  threads = threads_at;
  queues = queues_at;
  mutexes = λ m. record { km_waitq = 1; km_holder = some 1 };
  curthr = 1;
  curproc = 9;
  ipl = 0;
  runq = 0;
  ipl_low = 0;
  ipl_high = 15;
}

k-IsQueued : IsQueued k
unfolding has
k-IsQueued = record {
  sized = λ q. ground arith;
  distinct = λ q. ground arith;
  listed = λ q t. ground arith;
  linked = λ t. ground arith;
  states = λ q t. ground arith;
}

k-Ready : Ready 0 k
k-Ready = record { queued = k-IsQueued; waitq = ground arith; running = refl }

k-IsLock : IsLock 0 k
unfolding has
k-IsLock = record { free = λ e. cc; apart = λ t e. ground arith }

kmutex_unlock_example :
    (fifo 1 k ≡ []
      → kmutex_unlock 0 k ≡ ok (set_mutex 0 (record { km_waitq = 1; km_holder = none }) k))
    × ((t : ℕ) (rest : List ℕ)
        → fifo 1 k ≡ t ∷ rest
        → (k' : Kernel) × (kmutex_unlock 0 k ≡ ok k') × HandedOver 0 k k-Ready t rest k')
kmutex_unlock_example = kmutex_unlock_lem 0 k k-Ready refl

-- The same with thread 6 running, which does not hold the mutex.
abbrev k6 : Kernel
k6 = record k { curthr = 6 }

k6-IsQueued : IsQueued k6
k6-IsQueued = record {
  sized = k-IsQueued.sized;
  distinct = k-IsQueued.distinct;
  listed = k-IsQueued.listed;
  linked = k-IsQueued.linked;
  states = k-IsQueued.states;
}

k6-Ready : Ready 0 k6
k6-Ready = record { queued = k6-IsQueued; waitq = ground arith; running = refl }

k6-IsLock : IsLock 0 k6
k6-IsLock = record { free = k-IsLock.free; apart = k-IsLock.apart }

kmutex_lock_example :
    ((k6.mutexes 0).km_holder ≡ none
      → (k' : Kernel) × (kmutex_lock 0 [] k6 ≡ ok (acquired k'))
        × ((k'.mutexes 0).km_holder ≡ some 6)
        × IsLock 0 k')
    × ((h t : ℕ) (rest : List ℕ)
        → (k6.mutexes 0).km_holder ≡ some h
        → fifo 0 k6 ≡ t ∷ rest
        → (k' : Kernel) × (kmutex_lock 0 [] k6 ≡ ok (blocked (switched k')))
          × (k'.curthr ≡ t)
          × (fifo 1 k' ≡ fifo 1 k6 ++ 6 ∷ [])
          × ((k'.threads 6).kt_state ≡ sleep)
          × ((k'.mutexes 0).km_holder ≡ some h)
          × IsLock 0 k')
kmutex_lock_example = kmutex_lock_lem 0 k6 k6-Ready [] k6-IsLock (λ e. ground arith)

-- The same with the holder, thread 1, cancelled.
abbrev k_cancelled : Kernel
k_cancelled = record k6 {
  threads = update threads_at 1 (record (threads_at 1) { kt_cancelled = true });
}

kmutex_lock_cancellable-panic_example : kmutex_lock_cancellable 0 [] k_cancelled ≡ panic
kmutex_lock_cancellable-panic_example =
    kmutex_lock_cancellable-panic 0 1 [] k_cancelled refl (ground arith) refl

cancelled_after_unlock_example :
    (k1 : Kernel) × (k2 : Kernel) × (kmutex_unlock 0 k ≡ ok k1)
    × (sched_cancel 2 k1 ≡ ok k2)
    × ((k2.mutexes 0).km_holder ≡ some 2)
    × (cancellable_sleep_resume (record k2 { curthr = 2 }) ≡ true)
cancelled_after_unlock_example = cancelled_after_unlock 0 2 (3 ∷ []) k k-Ready refl refl

sched_wakeup_on_example :
    ((fifo 1 k ≡ []) → sched_wakeup_on 1 k ≡ ok (none, k))
    × ((t : ℕ) (rest : List ℕ)
        → fifo 1 k ≡ t ∷ rest
        → (k' : Kernel) × (sched_wakeup_on 1 k ≡ ok (some t, k')) × Woken 1 t rest k k')
sched_wakeup_on_example = sched_wakeup_on_lem 1 k k-IsQueued (ground arith)

sched_broadcast_on_example :
    (k' : Kernel) × (sched_broadcast_on 1 k ≡ ok (some k')) × Broadcast 1 k k'
sched_broadcast_on_example = sched_broadcast_on-Broadcast 1 k k-IsQueued (ground arith)

sched_switch_example : (k' : Kernel) × (sched_switch [] k ≡ ok (switched k')) × Switched 4 [] k k'
sched_switch_example = sched_switch-Switched [] k 4 [] k-IsQueued refl

sched_cancel_wakes_example :
    (k' : Kernel) × (sched_cancel 5 k ≡ ok k')
    × IsQueued k'
    × ((k'.threads 5).kt_cancelled ≡ true)
    × ((k'.threads 5).kt_state ≡ run)
    × ((k'.threads 5).kt_wchan ≡ some 0)
    × (fifo 0 k' ≡ fifo 0 k ++ 5 ∷ [])
    × ((j : ℕ) → has j (k'.queues 2).tq_list ≡ (if j == 5 then false else has j (5 ∷ [])))
sched_cancel_wakes_example = sched_cancel_wakes 5 2 k k-IsQueued refl refl

proc_getid_example :
    (r : Getid) × (proc_getid 4 2 (0 ∷ 2 ∷ 3 ∷ []) ≡ some r) × Spec 4 (0 ∷ 2 ∷ 3 ∷ []) r
proc_getid_example = proc_getid-Spec 4 2 (0 ∷ 2 ∷ 3 ∷ []) (omega arith)
