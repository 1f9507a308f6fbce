-- ===== src/Proc/Kmutex/Exclusion/Waiting.antt =====
-- How long a thread waits for the mutex.
use weenix_kernel_implementa.Common.{
  ℕ, suc, ◌+◌, ◌≡◌, ◌≢◌, refl, sym, ap, ◌∙◌, some, List, [], ◌∷◌, ◌++◌, length, reverse_onto, ok,
  arith,
}
use mathlib.Core.List.{append_assoc}
use weenix_kernel_implementa.Proc.Kernel.{Kernel}
use weenix_kernel_implementa.Proc.Sched.Fifo.{fifo}
use weenix_kernel_implementa.Proc.Sched.Switching.{asleep_on-fifo}
use weenix_kernel_implementa.Proc.Kmutex.{kmutex_init, kmutex_unlock}
use weenix_kernel_implementa.Proc.Kmutex.Laws.{Ready, kmutex_unlock_lem}
use weenix_kernel_implementa.Proc.Kmutex.Exclusion.{
  outside, World, Step, locks, sleeps, resumes, unlocks, yields, Reach, IsExclusive,
}
use weenix_kernel_implementa.Proc.Kmutex.Exclusion.Locks.{lock-acquired, lock-blocked}
use weenix_kernel_implementa.Proc.Kmutex.Exclusion.Switches.{yields-waitq}
use weenix_kernel_implementa.Proc.Kmutex.Exclusion.Safety.{
  Step-IsExclusive, Reach-IsExclusive, init-IsExclusive,
}

module _ (m : ℕ) where
  -- How many calls of `kmutex_unlock` a step is.
  abbrev pub unlocks_of : {w w' : World} → Step m w w' → ℕ
  unlocks_of (locks _ _ _ _ _ _) = 0
  unlocks_of (sleeps _ _ _ _ _ _ _ _ _) = 0
  unlocks_of (resumes _ _ _) = 0
  unlocks_of (unlocks _ _ _ _ _) = 1
  unlocks_of (yields _ _ _ _ _ _ _) = 0

  -- A run with `u` unlocks in all of which `t` is not handed the mutex.
  pub data Passed (t : ℕ) (w : World) : ℕ → World → Type 0 where
    begun : Passed t w 0 w
    further :
        {u : ℕ} {w1 w2 : World}
        → Passed t w u w1
        → (step : Step m w1 w2) → (w2.kernel.mutexes m).km_holder ≢ some t
        → Passed t w (u + unlocks_of step) w2

  -- `t` waits for the mutex, with `n` threads in front of it.
  abbrev pub WaitsBehind : ℕ → ℕ → World → Type 0
  WaitsBehind t n w =
      (front : List ℕ) × (back : List ℕ) × (fifo (w.kernel.mutexes m).km_waitq w.kernel
        ≡ front ++ t ∷ back)
      × (length front ≡ n)

  not_empty : (t : ℕ) (front back : List ℕ) → [] ≢ front ++ t ∷ back
  not_empty t [] back e = cc
  not_empty t (x ∷ xs) back e = cc

  -- The holder unlocks the mutex.
  unlock-WaitsBehind :
      (t : ℕ) (k k' : Kernel) (front back : List ℕ)
      → Ready m k
      → (k.mutexes m).km_holder ≡ some k.curthr
      → kmutex_unlock m k ≡ ok k'
      → fifo (k.mutexes m).km_waitq k ≡ front ++ t ∷ back
      → (k'.mutexes m).km_holder ≢ some t
      → (x : ℕ) × (rest : List ℕ) × (front ≡ x ∷ rest)
        × (fifo (k'.mutexes m).km_waitq k' ≡ rest ++ t ∷ back)
  unlock-WaitsBehind t k k' [] back ready mine e line other =
      let (k2, handed, h) = (kmutex_unlock_lem m k ready mine).1 t back line in
      let same : k2 ≡ k' = cc in
      absurd (other (ap (λ x. (x.mutexes m).km_holder) (sym same) ∙ h.holder))
  unlock-WaitsBehind t k k' (x ∷ rest) back ready mine e line other =
      let (k2, handed, h) = (kmutex_unlock_lem m k ready mine).1 x (rest ++ t ∷ back) line in
      let same : k2 ≡ k' = cc in
      (
        x,
        rest,
        refl,
        ap (λ z. fifo (z.mutexes m).km_waitq z) (sym same)
            ∙ ap (λ p. fifo p k2) h.same_waitq
            ∙ h.left,
      )

  Step-WaitsBehind :
      {w w' : World} (t n : ℕ) (step : Step m w w')
      → IsExclusive m w
      → WaitsBehind t n w
      → (w'.kernel.mutexes m).km_holder ≢ some t
      → (n' : ℕ) × WaitsBehind t n' w' × (n' + unlocks_of step ≡ n)
  Step-WaitsBehind t n (locks intrs k k' phase before e) i (front, back, line, size) other =
      let (free, same) = lock-acquired m intrs k k' e in
      absurd (not_empty t front back (ap (λ l. reverse_onto l []) (sym (i.lock.free free)) ∙ line))
  Step-WaitsBehind t n (sleeps intrs k k' phase x rest before runnable e) i
        (front, back, line, size) other =
      let (_, s) = lock-blocked m intrs k k' x rest i.ready runnable e in
      let same_q : (k'.mutexes m).km_waitq ≡ (k.mutexes m).km_waitq =
        ap (λ ms. (ms m).km_waitq) s.mutexes in
      (
        n,
        (
          front,
          back ++ k.curthr ∷ [],
          ap (λ p. fifo p k') same_q
              ∙ asleep_on-fifo (k.mutexes m).km_waitq x rest k k' i.ready.waitq s
              ∙ ap (λ l. l ++ k.curthr ∷ []) line
              ∙ append_assoc front (t ∷ back) (k.curthr ∷ []),
          size,
        ),
        omega arith,
      )
  Step-WaitsBehind t n (resumes k phase before) i waits_ other = (n, waits_, omega arith)
  Step-WaitsBehind t n (unlocks k k' phase before e) i (front, back, line, size) other =
      let (x, rest, shape, line') =
        unlock-WaitsBehind t k k' front back i.ready (i.holds k.curthr before) e line other in
      let longer : length front ≡ suc (length rest) = ap length shape in
      (length rest, (rest, back, line', refl), omega arith)
  Step-WaitsBehind t n (yields intrs k k1 k' phase made went) i (front, back, line, size) other =
      let (same_m, same_f, _) = yields-waitq m intrs k k1 k' i.ready made went in
      let same_q : (k'.mutexes m).km_waitq ≡ (k.mutexes m).km_waitq = ap (λ x. x.km_waitq) same_m in
      (n, (front, back, ap (λ p. fifo p k') same_q ∙ same_f ∙ line, size), omega arith)

  Passed-WaitsBehind :
      (t n : ℕ) {w : World} {u : ℕ} {w' : World}
      → IsExclusive m w
      → WaitsBehind t n w
      → Passed t w u w'
      → (n' : ℕ) × WaitsBehind t n' w' × (n' + u ≡ n) × IsExclusive m w'
  Passed-WaitsBehind t n i line begun = (n, line, omega arith, i)
  Passed-WaitsBehind t n i line (further before step other) =
      let (n1, line1, sum, i1) = Passed-WaitsBehind t n i line before in
      let (n2, line2, sum2) = Step-WaitsBehind t n1 step i1 line1 other in
      (n2, line2, omega arith, Step-IsExclusive m step i1)

  -- Bounded waiting: in a state that is reached from a mutex after `kmutex_init`, with the queues of the
  -- scheduler in order, a wait queue that is not the run queue and a current thread on no queue, a thread
  -- waits for the mutex behind `n` others. In any sequence of steps from there in which it is not handed
  -- the mutex, it stays in the queue and moves one place forward with each unlock, so that there are at
  -- most `n` unlocks.
  pub bounded_waiting :
      (k : Kernel) (w w' : World) (t n u : ℕ)
      → Ready m (kmutex_init m k)
      → Reach m (record { kernel = kmutex_init m k; phase = λ x. outside }) w
      → WaitsBehind t n w
      → Passed t w u w'
      → (n' : ℕ) × WaitsBehind t n' w' × (n' + u ≡ n)
  bounded_waiting k w w' t n u ready path line run =
      let i = Reach-IsExclusive m (init-IsExclusive m k ready) path in
      let (n', line', sum, _) = Passed-WaitsBehind t n i line run in (n', line', sum)
