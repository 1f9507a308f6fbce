-- ===== src/Proc/Kmutex.antt =====
-- K1/kmutex.c. A call that blocks ends in another thread; `kmutex_lock` does nothing after its
-- sleep, and `kmutex_lock_cancellable` returns what `cancellable_sleep_resume` says.
pub mod Laws
pub mod Cancelled
pub mod Exclusion
use weenix_kernel_implementa.Common.{
  ℕ, Bool, true, false, not, Option, none, some, List, ◌==◌, if◌then◌else◌, Exec, ok, ◌>>=◌, ◌>>◌,
  kassert,
}
use weenix_kernel_implementa.Proc.Kernel.{Kthread, Kmutex, Kernel, set_mutex}
use weenix_kernel_implementa.Proc.Sched.{
  Switch, interrupted, asleep, sched_queue_init, sched_queue_empty, sched_sleep_on, sched_wakeup_on,
  sched_cancellable_sleep_on,
}

-- The pointer is not NULL and points to `t`.
abbrev pub points_to : Option ℕ → ℕ → Bool
points_to none t = false
points_to (some h) t = h == t

-- A lock was taken, the caller sleeps, or the call returned -EINTR.
pub data Lock : Type 0 where
  acquired : Kernel → Lock
  blocked : Switch → Lock
  eintr : Kernel → Lock

pub kmutex_init : ℕ → Kernel → Kernel
kmutex_init m k =
    set_mutex m (record (k.mutexes m) { km_holder = none })
      (sched_queue_init (k.mutexes m).km_waitq k)

pub kmutex_unlock : ℕ → Kernel → Exec Kernel
kmutex_unlock m k = do
  let mtx = k.mutexes m
  kassert (points_to mtx.km_holder k.curthr)
  if sched_queue_empty mtx.km_waitq k
      then ok (set_mutex m (record mtx { km_holder = none }) k)
      else (do
        (next, k1) ← sched_wakeup_on mtx.km_waitq k
        kassert (not (points_to next k1.curthr))
        ok (set_mutex m (record mtx { km_holder = next }) k1))

held : ℕ → List (Kernel → Exec Kernel) → Option ℕ → Kernel → Exec Lock
held m intrs none k =
    ok (acquired (set_mutex m (record (k.mutexes m) { km_holder = some k.curthr }) k))
held m intrs (some h) k = do s ← sched_sleep_on (k.mutexes m).km_waitq intrs k; ok (blocked s)

pub kmutex_lock : ℕ → List (Kernel → Exec Kernel) → Kernel → Exec Lock
unfolding held
kmutex_lock m intrs k = do
  kassert (not (points_to (k.mutexes m).km_holder k.curthr))
  held m intrs (k.mutexes m).km_holder k

held_cancellable : ℕ → List (Kernel → Exec Kernel) → Option ℕ → Kernel → Exec Lock
held_cancellable m intrs none k =
    ok (acquired (set_mutex m (record (k.mutexes m) { km_holder = some k.curthr }) k))
held_cancellable m intrs (some h) k = do
  k1 ← (if (k.threads h).kt_cancelled then kmutex_unlock m k else ok k)
  status ← sched_cancellable_sleep_on (k.mutexes m).km_waitq intrs k1
  ok (elim status [ interrupted ↦ eintr k1 | asleep s ↦ blocked s ])

pub kmutex_lock_cancellable : ℕ → List (Kernel → Exec Kernel) → Kernel → Exec Lock
unfolding held_cancellable
kmutex_lock_cancellable m intrs k = do
  kassert (not (points_to (k.mutexes m).km_holder k.curthr))
  held_cancellable m intrs (k.mutexes m).km_holder k
