-- ===== src/Proc/Kmutex/Cancelled.antt =====
-- Two situations in which `kmutex_lock_cancellable` does not do what its comment says.
use weenix_kernel_implementa.Common.{
  ℕ, ◌≡◌, ◌≢◌, refl, ap, ◌∙◌, true, false, some, List, ◌∷◌, ◌==◌, Exec, ok, panic, arith,
}
use weenix_kernel_implementa.Proc.Kernel.{Kernel}
use weenix_kernel_implementa.Proc.Sched.{sched_cancel, cancellable_sleep_resume}
use weenix_kernel_implementa.Proc.Sched.Fifo.{fifo}
use weenix_kernel_implementa.Proc.Sched.Cancel.{sched_cancel_marks}
use weenix_kernel_implementa.Proc.Kmutex.{kmutex_unlock, kmutex_lock_cancellable}
use weenix_kernel_implementa.Proc.Kmutex.Laws.{Ready, kmutex_unlock_lem}

-- A thread that asks for a mutex whose holder, another thread, has been cancelled calls
-- `kmutex_unlock` on a mutex that it does not hold, and the assertion there stops the kernel.
pub kmutex_lock_cancellable-panic :
    (m h : ℕ) (intrs : List (Kernel → Exec Kernel)) (k : Kernel)
    → (k.mutexes m).km_holder ≡ some h
    → h ≢ k.curthr
    → (k.threads h).kt_cancelled ≡ true
    → kmutex_lock_cancellable m intrs k ≡ panic
unfolding kmutex_lock_cancellable kmutex_unlock
kmutex_lock_cancellable-panic m h intrs k e ne cancelled =
    let other : (h == k.curthr) ≡ false = ground arith in rw (e, other, cancelled, e, other) refl

-- With the queues of the scheduler in order, a wait queue that is not the run queue and a current
-- thread that is on no queue and holds the mutex: its unlock gives the mutex to the first waiter
-- `t`, and if `t` is cancelled before it runs, then `sched_cancellable_sleep_on` returns -EINTR
-- when `t` runs in that state, where `t` is still the holder.
pub cancelled_after_unlock :
    (m t : ℕ) (rest : List ℕ) (k : Kernel)
    → Ready m k
    → (k.mutexes m).km_holder ≡ some k.curthr
    → fifo (k.mutexes m).km_waitq k ≡ t ∷ rest
    → (k1 : Kernel) × (k2 : Kernel) × (kmutex_unlock m k ≡ ok k1)
      × (sched_cancel t k1 ≡ ok k2)
      × ((k2.mutexes m).km_holder ≡ some t)
      × (cancellable_sleep_resume (record k2 { curthr = t }) ≡ true)
unfolding cancellable_sleep_resume
cancelled_after_unlock m t rest k ready mine waits =
    let (k1, e1, h) = (kmutex_unlock_lem m k ready mine).1 t rest waits in
    let (k2, e2, i2, cancelled, state, wchan, lists, same) =
      sched_cancel_marks t k1 h.queued (ground (arith, h.state)) in
    (k1, k2, e1, e2, ap (λ ms. (ms m).km_holder) same ∙ h.holder, cancelled)
