-- ===== src/Proc/Kmutex/Exclusion.antt =====
-- Mutual exclusion: the threads that lock and unlock one mutex, in any order of the calls.
pub mod Locks
pub mod Switches
pub mod Safety
pub mod Waiting
mod Examples
use weenix_kernel_implementa.Common.{
  ℕ, ◌≡◌, ◌≢◌, refl, sym, ap, ◌∙◌, subst, ◌⊎◌, inl, inr, Bool, true, false, ◌||◌, Option, none,
  some, List, [], ◌∷◌, ◌++◌, ◌==◌, if◌then◌else◌, update, Exec, ok, panic, reverse_onto,
  reverse_onto-append, ◌>>=◌, Option-cases, Bool-cases, arith,
}
use weenix_kernel_implementa.Proc.Kernel.{Kernel, set_mutex}
use weenix_kernel_implementa.Proc.Sched.{
  switched, Switch, sched_switch, sched_sleep_on, sched_make_runnable,
}
use weenix_kernel_implementa.Proc.Sched.Fifo.{fifo, has, has-fifo, has-append}
use weenix_kernel_implementa.Proc.Sched.Invariant.{
  IsQueued, made_runnable, sched_make_runnable-ok, made_runnable-IsQueued,
}
use weenix_kernel_implementa.Proc.Sched.Wakeup.{list-nil_of_fifo}
use weenix_kernel_implementa.Proc.Sched.Switching.{
  Switched, asleep_on, sched_sleep_on-Switched, asleep_on-fifo, sched_switch-Switched,
}
use weenix_kernel_implementa.Proc.Kmutex.{points_to, acquired, blocked, kmutex_lock, kmutex_unlock}
use weenix_kernel_implementa.Proc.Kmutex.Laws.{IsLock, Ready, HandedOver, kmutex_unlock_lem}

-- Where a thread is: not between its calls, in a call of `kmutex_lock` that sleeps, or between the
-- return of `kmutex_lock` and the call of `kmutex_unlock`.
pub data Phase : Type 0 where
  outside waits inside : Phase

pub record World : Type 0 where
  pub kernel : Kernel
  pub phase : ℕ → Phase

module _ (m : ℕ) where
  -- What the current thread does next. A lock that sleeps finds another thread runnable.
  pub data Step : World → World → Type 0 where
    locks :
        (intrs : List (Kernel → Exec Kernel)) (k k' : Kernel) (phase : ℕ → Phase)
        → phase k.curthr ≡ outside
        → kmutex_lock m intrs k ≡ ok (acquired k')
        → Step
            (record { kernel = k; phase = phase })
            (record { kernel = k'; phase = update phase k.curthr inside })
    sleeps :
        (intrs : List (Kernel → Exec Kernel)) (k k' : Kernel) (phase : ℕ → Phase) (t : ℕ)
        (rest : List ℕ)
        → phase k.curthr ≡ outside
        → fifo k.runq k ≡ t ∷ rest
        → kmutex_lock m intrs k ≡ ok (blocked (switched k'))
        → Step
            (record { kernel = k; phase = phase })
            (record { kernel = k'; phase = update phase k.curthr waits })
    resumes :
        (k : Kernel) (phase : ℕ → Phase)
        → phase k.curthr ≡ waits
        → Step
            (record { kernel = k; phase = phase })
            (record { kernel = k; phase = update phase k.curthr inside })
    unlocks :
        (k k' : Kernel) (phase : ℕ → Phase)
        → phase k.curthr ≡ inside
        → kmutex_unlock m k ≡ ok k'
        → Step
            (record { kernel = k; phase = phase })
            (record { kernel = k'; phase = update phase k.curthr outside })
    yields :
        (intrs : List (Kernel → Exec Kernel)) (k k1 k' : Kernel) (phase : ℕ → Phase)
        → sched_make_runnable k.curthr k ≡ ok k1
        → sched_switch intrs k1 ≡ ok (switched k')
        → Step (record { kernel = k; phase = phase }) (record { kernel = k'; phase = phase })

  pub data Reach (s : World) : World → Type 0 where
    here : Reach s s
    next : {w w' : World} → Reach s w → Step w w' → Reach s w'

  -- A thread inside is the holder, and a thread in a call of `kmutex_lock` is on the wait queue or was
  -- handed the mutex.
  pub record IsExclusive (w : World) : Type 0 where
    pub ready : Ready m w.kernel
    pub lock : IsLock m w.kernel
    pub holds : (t : ℕ) → w.phase t ≡ inside → (w.kernel.mutexes m).km_holder ≡ some t
    pub listed :
        (t : ℕ)
        → w.phase t ≡ waits
        → (has t (fifo (w.kernel.mutexes m).km_waitq w.kernel) ≡ true)
          ⊎ ((w.kernel.mutexes m).km_holder ≡ some t)
