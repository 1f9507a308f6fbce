-- ===== src/Proc/Sched/Invariant.antt =====
-- Every thread waits on one queue at most, and `kt_wchan` names it.
use weenix_kernel_implementa.Common.{
  ℕ, suc, ◌+◌, ◌-◌, ◌≡◌, refl, ap, ◌∙◌, subst, Bool, true, false, not, ◌||◌, none, some, List, ◌∷◌,
  ◌==◌, if◌then◌else◌, length, ok, length-split_last, split_last, arith,
}
use weenix_kernel_implementa.Proc.Kernel.{
  run, sleep, sleep_cancellable, KtState, Kthread, Kernel, set_thread, set_queue,
}
use weenix_kernel_implementa.Proc.Sched.{
  is_none, same_queue, state_eq, ktqueue_enqueue, dequeue_list, ktqueue_dequeue,
  sched_make_runnable,
}
use weenix_kernel_implementa.Proc.Sched.Fifo.{has, Distinct, has-split_last, Distinct-split_last}

-- What a thread's state must be on the run queue, and on any other.
abbrev pub fits_queue : Bool → KtState → Bool
fits_queue true s = state_eq s run
fits_queue false s = state_eq s sleep || state_eq s sleep_cancellable

pub record IsQueued (k : Kernel) : Type 0 where
  pub sized : (q : ℕ) → (k.queues q).tq_size ≡ length (k.queues q).tq_list
  pub distinct : (q : ℕ) → Distinct (k.queues q).tq_list
  pub listed : (q t : ℕ) → has t (k.queues q).tq_list ≡ same_queue (k.threads t).kt_wchan q
  pub linked : (t : ℕ) → (k.threads t).kt_linked ≡ not (is_none (k.threads t).kt_wchan)
  pub states :
      (q t : ℕ)
      → has t (k.queues q).tq_list ≡ true
      → fits_queue (q == k.runq) (k.threads t).kt_state ≡ true

-- The state after thread `t` was put on queue `q`.
abbrev pub enqueued : ℕ → ℕ → Kernel → Kernel
enqueued q t k =
    set_thread t (record (k.threads t) { kt_wchan = some q; kt_linked = true })
      (set_queue q
        (record { tq_list = t ∷ (k.queues q).tq_list; tq_size = (k.queues q).tq_size + 1 }) k)

pub ktqueue_enqueue-ok :
    (q t : ℕ) (k : Kernel)
    → (k.threads t).kt_wchan ≡ none
    → ktqueue_enqueue q t k ≡ ok (enqueued q t k)
unfolding ktqueue_enqueue
ktqueue_enqueue-ok q t k free = rw free refl

-- A thread on no queue, in a state that fits, is put on a queue.
pub enqueued-IsQueued :
    (q t : ℕ) (k : Kernel)
    → IsQueued k
    → (k.threads t).kt_wchan ≡ none
    → fits_queue (q == k.runq) (k.threads t).kt_state ≡ true
    → IsQueued (enqueued q t k)
unfolding has
enqueued-IsQueued q t k i free fit = record {
  sized = λ p. ground (arith, i.sized p);
  distinct = λ p. ground (arith, i.distinct p, i.listed q t);
  listed = λ p u. ground (arith, i.listed p u);
  linked = λ u. ground (arith, i.linked u);
  states = λ p u. ground (arith, i.states p u, i.listed p t);
}

-- The state after thread `t` left queue `q`, on which `rest` stays.
abbrev pub dequeued : ℕ → ℕ → List ℕ → Kernel → Kernel
dequeued q t rest k =
    set_queue q (record { tq_list = rest; tq_size = (k.queues q).tq_size - 1 })
      (set_thread t (record (k.threads t) { kt_wchan = none; kt_linked = false }) k)

pub dequeued-IsQueued :
    (q t : ℕ) (rest : List ℕ) (k : Kernel)
    → IsQueued k
    → length (k.queues q).tq_list ≡ suc (length rest)
    → has t (k.queues q).tq_list ≡ true
    → Distinct rest
    → ((j : ℕ) → has j rest ≡ (if j == t then false else has j (k.queues q).tq_list))
    → IsQueued (dequeued q t rest k)
dequeued-IsQueued q t rest k i len member d others = record {
  sized = λ p. ground (arith, i.sized p);
  distinct = λ p. ground (arith, i.distinct p);
  listed = λ p u. ground (arith, i.listed p u, i.listed q t, others u);
  linked = λ u. ground (arith, i.linked u);
  states = λ p u. ground (arith, i.states p u, others u);
}

-- A queue that holds a thread is served at its end.
pub ktqueue_dequeue-IsQueued :
    (q : ℕ) (k : Kernel) (x : ℕ) (xs : List ℕ)
    → IsQueued k
    → (k.queues q).tq_list ≡ x ∷ xs
    → (ktqueue_dequeue q k
        ≡ (some (split_last x xs).1, dequeued q (split_last x xs).1 (split_last x xs).0 k))
      × (has (split_last x xs).1 (k.queues q).tq_list ≡ true)
      × IsQueued (dequeued q (split_last x xs).1 (split_last x xs).0 k)
unfolding ktqueue_dequeue dequeue_list
ktqueue_dequeue-IsQueued q k x xs i e =
    let t = (split_last x xs).1 in
    let front = (split_last x xs).0 in
    let d : Distinct front × (has t front ≡ false) =
      Distinct-split_last x xs (subst Distinct e (i.distinct q)) in
    let member : has t (k.queues q).tq_list ≡ true = rw e (ground (arith, has-split_last t x xs)) in
    (
      rw e refl,
      member,
      dequeued-IsQueued q t front k i (ap length e ∙ length-split_last x xs) member d.0
          (λ j. rw e (ground (arith, has-split_last j x xs, d.1))),
    )

-- A thread on no queue may change its other fields.
pub set_thread-IsQueued :
    (t : ℕ) (thr : Kthread) (k : Kernel)
    → IsQueued k
    → (k.threads t).kt_wchan ≡ none
    → thr.kt_wchan ≡ none
    → thr.kt_linked ≡ false
    → IsQueued (set_thread t thr k)
set_thread-IsQueued t thr k i free free' loose = record {
  sized = i.sized;
  distinct = i.distinct;
  listed = λ p u. ground (arith, i.listed p u);
  linked = λ u. ground (arith, i.linked u);
  states = λ p u. ground (arith, i.states p u, i.listed p t);
}

-- `sched_make_runnable` takes a thread that is on no queue, puts it last on the run queue in state
-- KT_RUN and gives back the interrupt level.
abbrev pub made_runnable : ℕ → Kernel → Kernel
made_runnable t k = enqueued k.runq t (set_thread t (record (k.threads t) { kt_state = run }) k)

pub sched_make_runnable-ok :
    (t : ℕ) (k : Kernel)
    → (k.threads t).kt_wchan ≡ none
    → sched_make_runnable t k ≡ ok (made_runnable t k)
unfolding sched_make_runnable ktqueue_enqueue
sched_make_runnable-ok t k free = ground arith

pub made_runnable-IsQueued :
    (t : ℕ) (k : Kernel) → IsQueued k → (k.threads t).kt_wchan ≡ none → IsQueued (made_runnable t k)
made_runnable-IsQueued t k i free =
    enqueued-IsQueued k.runq t (set_thread t (record (k.threads t) { kt_state = run }) k)
      (set_thread-IsQueued t (record (k.threads t) { kt_state = run }) k i free free
        (ground (arith, i.linked t)))
      (ground arith) (ground arith)
