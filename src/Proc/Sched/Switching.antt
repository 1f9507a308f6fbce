-- ===== src/Proc/Sched/Switching.antt =====
-- `sched_switch` and `sched_sleep_on`.
use weenix_kernel_implementa.Common.{
  ℕ, ◌≡◌, ◌≢◌, refl, sym, ap, ◌∙◌, Option, none, some, List, [], ◌∷◌, ◌++◌, Exec, ok, reverse_onto,
  reverse_onto-append, split_last, arith,
}
use weenix_kernel_implementa.Proc.Kernel.{sleep, Kernel, set_thread, set_ipl}
use weenix_kernel_implementa.Proc.Sched.{
  switched, restore_ipl, wait_runnable, switch_to, sched_switch, sched_sleep_on,
}
use weenix_kernel_implementa.Proc.Sched.Fifo.{fifo}
use weenix_kernel_implementa.Proc.Sched.Invariant.{
  IsQueued, enqueued, ktqueue_enqueue-ok, enqueued-IsQueued, set_thread-IsQueued, dequeued,
  ktqueue_dequeue-IsQueued,
}
use weenix_kernel_implementa.Proc.Sched.Wakeup.{sched_queue_empty-cons, fifo-cons}

-- The current thread gave way to `t`.
pub record Switched (t : ℕ) (rest : List ℕ) (k k' : Kernel) : Type 0 where
  pub queued : IsQueued k'
  pub current : k'.curthr ≡ t
  pub process : k'.curproc ≡ (k.threads t).kt_proc
  pub runnable : fifo k.runq k' ≡ rest
  pub others : (p : ℕ) → p ≢ k.runq → fifo p k' ≡ fifo p k
  pub state : (u : ℕ) → (k'.threads u).kt_state ≡ (k.threads u).kt_state
  pub mutexes : k'.mutexes ≡ k.mutexes
  pub running : (k'.threads t).kt_wchan ≡ none
  pub same_runq : k'.runq ≡ k.runq

save_ipl-IsQueued :
    (t saved : ℕ) (k : Kernel)
    → IsQueued k
    → IsQueued (set_thread t (record (k.threads t) { kt_saved_ipl = some saved }) k)
save_ipl-IsQueued t saved k i = record {
  sized = i.sized;
  distinct = i.distinct;
  listed = λ p u. ground (arith, i.listed p u);
  linked = λ u. ground (arith, i.linked u);
  states = λ p u. ground (arith, i.states p u);
}

restored : Option ℕ → ℕ → ℕ → Kernel → Kernel
restored i t p k = restore_ipl i (record k { curthr = t; curproc = p })

restored-same :
    (i : Option ℕ) (t p : ℕ) (k : Kernel)
    → IsQueued k
    → IsQueued (restored i t p k)
      × ((restored i t p k).curthr ≡ t)
      × ((restored i t p k).curproc ≡ p)
      × ((restored i t p k).queues ≡ k.queues)
      × ((restored i t p k).threads ≡ k.threads)
      × ((restored i t p k).mutexes ≡ k.mutexes)
      × ((restored i t p k).runq ≡ k.runq)
unfolding restored
restored-same none t p k i = (
  record {
    sized = i.sized;
    distinct = i.distinct;
    listed = i.listed;
    linked = i.linked;
    states = i.states;
  },
  refl,
  refl,
  refl,
  refl,
  refl,
  refl,
)
restored-same (some _) t p k i = (
  record {
    sized = i.sized;
    distinct = i.distinct;
    listed = i.listed;
    linked = i.linked;
    states = i.states;
  },
  refl,
  refl,
  refl,
  refl,
  refl,
  refl,
)

set_ipl-IsQueued : (i : ℕ) (k : Kernel) → IsQueued k → IsQueued (set_ipl i k)
set_ipl-IsQueued i k q = record {
  sized = q.sized;
  distinct = q.distinct;
  listed = q.listed;
  linked = q.linked;
  states = q.states;
}

-- With a thread on the run queue nobody waits for an interrupt.
wait_runnable-switched :
    (intrs : List (Kernel → Exec Kernel)) (k : Kernel) (x : ℕ) (xs : List ℕ)
    → (k.queues k.runq).tq_list ≡ x ∷ xs
    → wait_runnable intrs k ≡ ok (switched (set_ipl k.ipl_low k))
unfolding wait_runnable
wait_runnable-switched [] k x xs e = rw (sched_queue_empty-cons k.runq k x xs e) refl
wait_runnable-switched (h ∷ later) k x xs e =
    rw (sched_queue_empty-cons k.runq k x xs e, wait_runnable) refl

switch_to-Switched :
    (saved : ℕ) (k : Kernel) (x : ℕ) (xs : List ℕ)
    → IsQueued k
    → (k.queues k.runq).tq_list ≡ x ∷ xs
    → (k' : Kernel) × (switch_to saved k ≡ ok k')
      × Switched (split_last x xs).1 (reverse_onto (split_last x xs).0 []) k k'
unfolding switch_to restored
switch_to-Switched saved k x xs i e =
    let t = (split_last x xs).1 in
    let kh = set_ipl k.ipl_high k in
    let (taken, member, i1) =
      ktqueue_dequeue-IsQueued k.runq kh x xs (set_ipl-IsQueued k.ipl_high k i) e in
    let k1 = dequeued k.runq t (split_last x xs).0 kh in
    let k2 = set_thread k.curthr (record (k1.threads k.curthr) { kt_saved_ipl = some saved }) k1 in
    let i2 : IsQueued k2 = save_ipl-IsQueued k.curthr saved k1 i1 in
    let thr = k2.threads t in
    let (i3, cur, proc, same_q, same_t, same_m, same_r) =
      restored-same thr.kt_saved_ipl t thr.kt_proc k2 i2 in
    (
      restored thr.kt_saved_ipl t thr.kt_proc k2,
      rw taken refl,
      record {
        queued = i3;
        current = cur;
        process = proc ∙ ground arith;
        runnable = rw same_q (ground arith);
        others = λ p ne. rw same_q (ground arith);
        state = λ u. rw same_t (ground arith);
        mutexes = same_m;
        running = rw same_t (ground arith);
        same_runq = same_r;
      },
    )

switched-by_list :
    (intrs : List (Kernel → Exec Kernel)) (k : Kernel) (t : ℕ) (rest l : List ℕ)
    → IsQueued k
    → fifo k.runq k ≡ t ∷ rest
    → (k.queues k.runq).tq_list ≡ l
    → (k' : Kernel) × (sched_switch intrs k ≡ ok (switched k')) × Switched t rest k k'
unfolding sched_switch
switched-by_list intrs k t rest [] i e h = absurd (ground (arith, e, ap (λ l. reverse_onto l []) h))
switched-by_list intrs k t rest (x ∷ xs) i e h =
    let low = set_ipl k.ipl_low k in
    let (k', e', s) = switch_to-Switched k.ipl low x xs (set_ipl-IsQueued k.ipl_low k i) h in
    let same : (◌≡◌ {A = List ℕ} ((split_last x xs).1 ∷ reverse_onto (split_last x xs).0 [])
        (t ∷ rest)) =
      sym (fifo-cons k.runq k x xs h) ∙ e in
    let head : (split_last x xs).1 ≡ t = cc in
    let tail : reverse_onto (split_last x xs).0 [] ≡ rest = cc in
    (
      k',
      rw (wait_runnable-switched intrs k x xs h, e') refl,
      record {
        queued = s.queued;
        current = s.current ∙ head;
        process = s.process ∙ ap (λ u. (k.threads u).kt_proc) head;
        runnable = s.runnable ∙ tail;
        others = s.others;
        state = s.state;
        mutexes = s.mutexes;
        running = ap (λ u. (k'.threads u).kt_wchan) (sym head) ∙ s.running;
        same_runq = s.same_runq;
      },
    )

-- With the queues in order and a thread that is runnable, `sched_switch` does not wait for an
-- interrupt: the thread that has been runnable longest runs next, its process becomes the current
-- one, the others keep their places, no thread changes its state, and the queues are in order.
pub sched_switch-Switched :
    (intrs : List (Kernel → Exec Kernel)) (k : Kernel) (t : ℕ) (rest : List ℕ)
    → IsQueued k
    → fifo k.runq k ≡ t ∷ rest
    → (k' : Kernel) × (sched_switch intrs k ≡ ok (switched k')) × Switched t rest k k'
sched_switch-Switched intrs k t rest i e =
    switched-by_list intrs k t rest (k.queues k.runq).tq_list i e refl

-- The state in which `sched_sleep_on` calls `sched_switch`.
abbrev pub asleep_on : ℕ → Kernel → Kernel
asleep_on q k =
    enqueued q k.curthr (set_thread k.curthr (record (k.threads k.curthr) { kt_state = sleep }) k)

pub sched_sleep_on-Switched :
    (q : ℕ) (intrs : List (Kernel → Exec Kernel)) (k : Kernel) (t : ℕ) (rest : List ℕ)
    → IsQueued k
    → q ≢ k.runq
    → (k.threads k.curthr).kt_wchan ≡ none
    → fifo k.runq k ≡ t ∷ rest
    → (k' : Kernel) × (sched_sleep_on q intrs k ≡ ok (switched k'))
      × Switched t rest (asleep_on q k) k'
unfolding sched_sleep_on
sched_sleep_on-Switched q intrs k t rest i ne free e =
    let k1 = set_thread k.curthr (record (k.threads k.curthr) { kt_state = sleep }) k in
    let i1 : IsQueued k1 =
      set_thread-IsQueued k.curthr (record (k.threads k.curthr) { kt_state = sleep }) k i free free
        (ground (arith, i.linked k.curthr)) in
    let free1 : (k1.threads k.curthr).kt_wchan ≡ none = ground arith in
    let i2 : IsQueued (asleep_on q k) = enqueued-IsQueued q k.curthr k1 i1 free1 (ground arith) in
    let (k', e', s) = sched_switch-Switched intrs (asleep_on q k) t rest i2 (ground (arith, e)) in
    (k', rw (ktqueue_enqueue-ok q k.curthr k1 free1, e') refl, s)

-- The queue that the thread went to: it is the last there.
pub asleep_on-fifo :
    (q t : ℕ) (rest : List ℕ) (k k' : Kernel)
    → q ≢ k.runq
    → Switched t rest (asleep_on q k) k'
    → fifo q k' ≡ fifo q k ++ k.curthr ∷ []
asleep_on-fifo q t rest k k' ne s =
    s.others q ne ∙ ground (arith, reverse_onto-append (k.queues q).tq_list (k.curthr ∷ []))

-- With the queues in order, a running thread that is on no queue and calls `sched_sleep_on` on a
-- queue other than the run queue, while `t` is the first that is runnable, is afterwards the last
-- on that queue, in state KT_SLEEP; `t` runs, the mutexes are as before, and the queues are in
-- order.
pub sched_sleep_on_lem :
    (q : ℕ) (intrs : List (Kernel → Exec Kernel)) (k : Kernel) (t : ℕ) (rest : List ℕ)
    → IsQueued k
    → q ≢ k.runq
    → (k.threads k.curthr).kt_wchan ≡ none
    → fifo k.runq k ≡ t ∷ rest
    → (k' : Kernel) × (sched_sleep_on q intrs k ≡ ok (switched k'))
      × IsQueued k'
      × (k'.curthr ≡ t)
      × (fifo k.runq k' ≡ rest)
      × (fifo q k' ≡ fifo q k ++ k.curthr ∷ [])
      × ((k'.threads k.curthr).kt_state ≡ sleep)
      × (k'.mutexes ≡ k.mutexes)
sched_sleep_on_lem q intrs k t rest i ne free e =
    let (k', e', s) = sched_sleep_on-Switched q intrs k t rest i ne free e in
    (
      k',
      e',
      s.queued,
      s.current,
      s.runnable,
      asleep_on-fifo q t rest k k' ne s,
      s.state k.curthr ∙ ground arith,
      s.mutexes,
    )
