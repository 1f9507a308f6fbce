-- ===== src/Proc/Sched/Cancel.antt =====
-- `sched_cancel`.
use weenix_kernel_implementa.Common.{
  ℕ, ◌≡◌, ◌≢◌, refl, sym, true, false, some, [], ◌∷◌, ◌++◌, ◌==◌, if◌then◌else◌, ok,
  reverse_onto-append, arith,
}
use weenix_kernel_implementa.Proc.Kernel.{run, sleep_cancellable, Kernel, set_thread}
use weenix_kernel_implementa.Proc.Sched.{state_eq, erase, ktqueue_remove, sched_cancel}
use weenix_kernel_implementa.Proc.Sched.Fifo.{fifo, has, has-erase, Distinct-erase, length-erase}
use weenix_kernel_implementa.Proc.Sched.Invariant.{
  IsQueued, dequeued, dequeued-IsQueued, made_runnable, sched_make_runnable-ok,
  made_runnable-IsQueued,
}

-- Setting the flag alone keeps the invariant.
set_cancelled-IsQueued :
    (t : ℕ) (k : Kernel)
    → IsQueued k
    → IsQueued (set_thread t (record (k.threads t) { kt_cancelled = true }) k)
set_cancelled-IsQueued t k i = record {
  sized = i.sized;
  distinct = i.distinct;
  listed = λ p u. ground (arith, i.listed p u);
  linked = λ u. ground (arith, i.linked u);
  states = λ p u. ground (arith, i.states p u);
}

ktqueue_remove-ok :
    (q t : ℕ) (k : Kernel)
    → (k.threads t).kt_linked ≡ true
    → ktqueue_remove q t k ≡ ok (dequeued q t (erase t (k.queues q).tq_list) k)
unfolding ktqueue_remove
ktqueue_remove-ok q t k e = rw e refl

-- With the queues in order, a thread that is not in a cancellable sleep is only marked: it keeps
-- its state and its place on its queue, and the mutexes are as before.
pub sched_cancel_marks :
    (t : ℕ) (k : Kernel)
    → IsQueued k
    → state_eq (k.threads t).kt_state sleep_cancellable ≡ false
    → (k' : Kernel) × (sched_cancel t k ≡ ok k')
      × IsQueued k'
      × ((k'.threads t).kt_cancelled ≡ true)
      × ((k'.threads t).kt_state ≡ (k.threads t).kt_state)
      × ((k'.threads t).kt_wchan ≡ (k.threads t).kt_wchan)
      × ((q : ℕ) → fifo q k' ≡ fifo q k)
      × (k'.mutexes ≡ k.mutexes)
unfolding sched_cancel
sched_cancel_marks t k i e = (
  set_thread t (record (k.threads t) { kt_cancelled = true }) k,
  ground arith,
  set_cancelled-IsQueued t k i,
  ground arith,
  ground arith,
  ground arith,
  λ q. refl,
  refl,
)

-- With the queues in order, a thread in a cancellable sleep on a queue is marked, leaves that
-- queue, whatever its place there, and goes to the end of the run queue in state KT_RUN; who else
-- waits there is as before, and the queues are in order.
pub sched_cancel_wakes :
    (t q : ℕ) (k : Kernel)
    → IsQueued k
    → (k.threads t).kt_state ≡ sleep_cancellable
    → (k.threads t).kt_wchan ≡ some q
    → (k' : Kernel) × (sched_cancel t k ≡ ok k')
      × IsQueued k'
      × ((k'.threads t).kt_cancelled ≡ true)
      × ((k'.threads t).kt_state ≡ run)
      × ((k'.threads t).kt_wchan ≡ some k.runq)
      × (fifo k.runq k' ≡ fifo k.runq k ++ t ∷ [])
      × ((j : ℕ)
          → has j (k'.queues q).tq_list ≡ (if j == t then false else has j (k.queues q).tq_list))
unfolding sched_cancel
sched_cancel_wakes t q k i asleep waits =
    let k1 = set_thread t (record (k.threads t) { kt_cancelled = true }) k in
    let i1 = set_cancelled-IsQueued t k i in
    let member : has t (k.queues q).tq_list ≡ true = ground (arith, i.listed q t) in
    let ne : q ≢ k.runq = λ e. ground (arith, i.states q t) in
    let k2 = dequeued q t (erase t (k.queues q).tq_list) k1 in
    let removed : ktqueue_remove q t k1 ≡ ok k2 =
      ktqueue_remove-ok q t k1 (ground (arith, i.linked t)) in
    let i2 : IsQueued k2 =
      dequeued-IsQueued q t (erase t (k.queues q).tq_list) k1 i1
        (sym (length-erase t (k.queues q).tq_list member)) member
        (Distinct-erase t (k.queues q).tq_list (i.distinct q))
        (λ j. has-erase t j (k.queues q).tq_list (i.distinct q)) in
    (
      made_runnable t k2,
      ground (arith, removed, sched_make_runnable-ok t k2 (ground arith)),
      made_runnable-IsQueued t k2 i2 (ground arith),
      ground arith,
      ground arith,
      ground arith,
      ground (arith, reverse_onto-append (k.queues k.runq).tq_list (t ∷ [])),
      λ j. ground (arith, has-erase t j (k.queues q).tq_list (i.distinct q)),
    )
