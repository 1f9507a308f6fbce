-- ===== src/Proc/Kmutex/Exclusion/Safety.antt =====
-- Mutual exclusion over all sequences of steps.
use weenix_kernel_implementa.Common.{
  ℕ, ◌≡◌, refl, sym, subst, ◌⊎◌, inl, inr, none, some, List, [], ◌∷◌, update, ok, arith,
}
use weenix_kernel_implementa.Proc.Kernel.{Kernel}
use weenix_kernel_implementa.Proc.Sched.{sched_queue_init}
use weenix_kernel_implementa.Proc.Sched.Fifo.{fifo}
use weenix_kernel_implementa.Proc.Kmutex.{kmutex_unlock}
use weenix_kernel_implementa.Proc.Kmutex.Laws.{Ready, kmutex_unlock_lem}
use weenix_kernel_implementa.Proc.Kmutex.{kmutex_init}
use weenix_kernel_implementa.Proc.Kmutex.Exclusion.{
  Phase, outside, inside, World, Step, locks, sleeps, resumes, unlocks, yields, Reach, here, next,
  IsExclusive,
}
use weenix_kernel_implementa.Proc.Kmutex.Exclusion.Locks.{
  set_holder, lock-acquired, lock-blocked, resumes-IsExclusive, locks-IsExclusive,
  sleeps-IsExclusive,
}
use weenix_kernel_implementa.Proc.Kmutex.Exclusion.Switches.{
  yields-IsExclusive, unlocked-IsExclusive, handed-IsExclusive,
}

-- The first element, if there is one.
pub list_cases : (l : List ℕ) → (l ≡ []) ⊎ ((t : ℕ) × (rest : List ℕ) × (l ≡ t ∷ rest))
list_cases [] = inl refl
list_cases (t ∷ rest) = inr (t, rest, refl)

module _ (m : ℕ) where
  unlocks-IsExclusive :
      (k k' : Kernel) (phase : ℕ → Phase)
      → phase k.curthr ≡ inside
      → kmutex_unlock m k ≡ ok k'
      → IsExclusive m (record { kernel = k; phase = phase })
      → IsExclusive m (record { kernel = k'; phase = update phase k.curthr outside })
  unlocks-IsExclusive k k' phase before e i =
      let mine = i.holds k.curthr before in
      let (nobody, somebody) = kmutex_unlock_lem m k i.ready mine in
      let after = update phase k.curthr outside in
      elim (list_cases (fifo (k.mutexes m).km_waitq k)) [
        | inl empty ↦
            let left : kmutex_unlock m k ≡ ok (set_holder m none k) = nobody empty in
            let same : set_holder m none k ≡ k' = cc in
            subst (λ x. IsExclusive m (record { kernel = x; phase = after })) same
              (unlocked-IsExclusive m k phase mine empty i)
        | inr (t, rest, waiters) ↦
            let (k2, handed, h) = somebody t rest waiters in
            let same : k2 ≡ k' = cc in
            subst (λ x. IsExclusive m (record { kernel = x; phase = after })) same
              (handed-IsExclusive m k k2 phase t rest mine waiters i h)
      ]

  pub Step-IsExclusive : {w w' : World} → Step m w w' → IsExclusive m w → IsExclusive m w'
  Step-IsExclusive (locks intrs k k' phase before e) i =
      let (free, same) = lock-acquired m intrs k k' e in
      subst (λ x. IsExclusive m (record { kernel = x; phase = update phase k.curthr inside }))
        (sym same) (locks-IsExclusive m k phase free i)
  Step-IsExclusive (sleeps intrs k k' phase t rest before runnable e) i =
      let ((h, holder, other), s) = lock-blocked m intrs k k' t rest i.ready runnable e in
      sleeps-IsExclusive m k k' phase t rest h holder other s i
  Step-IsExclusive (resumes k phase before) i = resumes-IsExclusive m k phase before i
  Step-IsExclusive (unlocks k k' phase before e) i = unlocks-IsExclusive k k' phase before e i
  Step-IsExclusive (yields intrs k k1 k' phase made went) i =
      yields-IsExclusive m intrs k k1 k' phase made went i

  pub Reach-IsExclusive : {s w : World} → IsExclusive m s → Reach m s w → IsExclusive m w
  Reach-IsExclusive start here = start
  Reach-IsExclusive start (next before step) =
      Step-IsExclusive step (Reach-IsExclusive start before)

  pub init-IsExclusive :
      (k : Kernel)
      → Ready m (kmutex_init m k)
      → IsExclusive m (record { kernel = kmutex_init m k; phase = λ t. outside })
  unfolding kmutex_init sched_queue_init
  init-IsExclusive k ready = record {
    ready = ready;
    lock = record { free = λ e. ground arith; apart = λ t e. absurd (ground arith) };
    holds = λ t e. absurd cc;
    listed = λ t e. absurd cc;
  }

  -- Mutual exclusion: from a mutex after `kmutex_init`, with the queues of the scheduler in order, a
  -- wait queue that is not the run queue and a current thread on no queue, after any sequence of calls
  -- of `kmutex_lock` that succeed or sleep while another thread is runnable, of returns from that sleep,
  -- of calls of `kmutex_unlock` by threads between the two, and of threads that give way: two threads
  -- between the return of `kmutex_lock` and the call of `kmutex_unlock` are the same, and it is the
  -- holder.
  pub mutual_exclusion :
      (k : Kernel) (w : World) (t u : ℕ)
      → Ready m (kmutex_init m k)
      → Reach m (record { kernel = kmutex_init m k; phase = λ x. outside }) w
      → w.phase t ≡ inside
      → w.phase u ≡ inside
      → (t ≡ u) × ((w.kernel.mutexes m).km_holder ≡ some t)
  mutual_exclusion k w t u ready path t_in u_in =
      let i = Reach-IsExclusive (init-IsExclusive k ready) path in
      let t_holds = i.holds t t_in in let u_holds = i.holds u u_in in (cc, t_holds)
