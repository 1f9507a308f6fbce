-- ===== src/Proc/Sched/Wakeup.antt =====
-- `sched_make_runnable`, `sched_wakeup_on`, `sched_broadcast_on` and `sched_cancel` on a scheduler
-- that keeps its invariant: first in, first out.
use weenix_kernel_implementa.Common.{
  ℕ, ◌≡◌, ◌≢◌, refl, sym, ap, ◌∙◌, true, false, ◌||◌, none, some, List, [], ◌∷◌, ◌++◌, ◌==◌,
  if◌then◌else◌, ok, reverse_onto, reverse_onto-append, reverse_onto-split_last, split_last, arith,
}
use weenix_kernel_implementa.Proc.Kernel.{run, sleep, sleep_cancellable, Kernel}
use weenix_kernel_implementa.Proc.Sched.{
  state_eq, sched_queue_empty, sched_make_runnable, sched_wakeup_on,
}
use weenix_kernel_implementa.Proc.Sched.Fifo.{fifo}
use weenix_kernel_implementa.Proc.Sched.Invariant.{
  IsQueued, dequeued, ktqueue_dequeue-IsQueued, made_runnable, sched_make_runnable-ok,
  made_runnable-IsQueued,
}

-- With the queues in order, a thread that is on no queue becomes runnable: it is the last on the
-- run queue, in state KT_RUN; the other queues, the current thread and the interrupt level are as
-- before, and the queues are in order.
pub sched_make_runnable_lem :
    (t : ℕ) (k : Kernel)
    → IsQueued k
    → (k.threads t).kt_wchan ≡ none
    → (k' : Kernel) × (sched_make_runnable t k ≡ ok k')
      × IsQueued k'
      × ((k'.threads t).kt_state ≡ run)
      × ((q : ℕ) → fifo q k' ≡ (if q == k.runq then fifo q k ++ t ∷ [] else fifo q k))
      × (k'.curthr ≡ k.curthr)
      × (k'.ipl ≡ k.ipl)
sched_make_runnable_lem t k i free = (
  made_runnable t k,
  sched_make_runnable-ok t k free,
  made_runnable-IsQueued t k i free,
  ground arith,
  λ q. ground (arith, reverse_onto-append (k.queues k.runq).tq_list (t ∷ [])),
  refl,
  refl,
)

-- One thread is taken from a queue other than the run queue.
pub record Woken (q t : ℕ) (rest : List ℕ) (k k' : Kernel) : Type 0 where
  pub queued : IsQueued k'
  pub state : (k'.threads t).kt_state ≡ run
  pub left : fifo q k' ≡ rest
  pub runnable : fifo k.runq k' ≡ fifo k.runq k ++ t ∷ []
  pub others : (p : ℕ) → p ≢ q → p ≢ k.runq → fifo p k' ≡ fifo p k
  pub same : (k'.runq ≡ k.runq) × (k'.curthr ≡ k.curthr) × (k'.ipl ≡ k.ipl)

pub Woken-dequeued :
    (q : ℕ) (k : Kernel) (x : ℕ) (xs : List ℕ)
    → IsQueued k
    → q ≢ k.runq
    → (k.queues q).tq_list ≡ x ∷ xs
    → Woken q
        (split_last x xs).1
        (reverse_onto (split_last x xs).0 [])
        k
        (made_runnable (split_last x xs).1 (dequeued q (split_last x xs).1 (split_last x xs).0 k))
Woken-dequeued q k x xs i ne e =
    let t = (split_last x xs).1 in
    let k1 = dequeued q t (split_last x xs).0 k in
    record {
      queued =
          made_runnable-IsQueued t k1 ((ktqueue_dequeue-IsQueued q k x xs i e).2) (ground arith);
      state = ground arith;
      left = ground arith;
      runnable = ground (arith, reverse_onto-append (k.queues k.runq).tq_list (t ∷ []));
      others = λ p a b. ground arith;
      same = (refl, refl, refl);
    }

-- The tail of a queue that is not empty is the first of `fifo`.
pub fifo-cons :
    (q : ℕ) (k : Kernel) (x : ℕ) (xs : List ℕ)
    → (k.queues q).tq_list ≡ x ∷ xs
    → fifo q k ≡ (split_last x xs).1 ∷ reverse_onto (split_last x xs).0 []
fifo-cons q k x xs e = ap (λ l. reverse_onto l []) e ∙ reverse_onto-split_last x xs []

pub sched_queue_empty-nil :
    (q : ℕ) (k : Kernel) → (k.queues q).tq_list ≡ [] → sched_queue_empty q k ≡ true
unfolding sched_queue_empty
sched_queue_empty-nil q k e = rw e refl

pub sched_queue_empty-cons :
    (q : ℕ) (k : Kernel) (x : ℕ) (xs : List ℕ)
    → (k.queues q).tq_list ≡ x ∷ xs
    → sched_queue_empty q k ≡ false
unfolding sched_queue_empty
sched_queue_empty-cons q k x xs e = rw e refl

abbrev Wakes : ℕ → Kernel → List ℕ → Type 0
Wakes q k [] = (fifo q k ≡ []) × (sched_wakeup_on q k ≡ ok (none, k))
Wakes q k (x ∷ xs) =
    let t = (split_last x xs).1 in
    let rest = reverse_onto (split_last x xs).0 [] in
    (fifo q k ≡ t ∷ rest)
    × (k' : Kernel) × (sched_wakeup_on q k ≡ ok (some t, k'))
    × Woken q t rest k k'

wakes :
    (q : ℕ) (k : Kernel) (l : List ℕ)
    → IsQueued k
    → q ≢ k.runq
    → (k.queues q).tq_list ≡ l
    → Wakes q k l
unfolding sched_wakeup_on
wakes q k [] i ne e = (ap (λ l. reverse_onto l []) e, rw (sched_queue_empty-nil q k e) refl)
wakes q k (x ∷ xs) i ne e =
    let t = (split_last x xs).1 in
    let k1 = dequeued q t (split_last x xs).0 k in
    let (taken, member, i1) = ktqueue_dequeue-IsQueued q k x xs i e in
    let filled : sched_queue_empty q k ≡ false = sched_queue_empty-cons q k x xs e in
    let asleep : (state_eq (k1.threads t).kt_state sleep
          || state_eq (k1.threads t).kt_state sleep_cancellable)
        ≡ true =
      ground (arith, i.states q t) in
    (
      fifo-cons q k x xs e,
      made_runnable t k1,
      rw (filled, taken, asleep, sched_make_runnable-ok t k1 (ground arith)) refl,
      Woken-dequeued q k x xs i ne e,
    )

Wakes-fifo :
    (q : ℕ) (k : Kernel) (l : List ℕ)
    → Wakes q k l
    → ((fifo q k ≡ []) → sched_wakeup_on q k ≡ ok (none, k))
      × ((t : ℕ) (rest : List ℕ)
          → fifo q k ≡ t ∷ rest
          → (k' : Kernel) × (sched_wakeup_on q k ≡ ok (some t, k')) × Woken q t rest k k')
Wakes-fifo q k [] (empty, e) = (λ _. e, λ t rest h. absurd (ground (arith, empty, h)))
Wakes-fifo q k (x ∷ xs) (filled, k', e, woken) = (
  λ h. absurd (ground (arith, filled, h)),
  λ t rest h.
      let same : (◌≡◌ {A = List ℕ} ((split_last x xs).1 ∷ reverse_onto (split_last x xs).0 [])
          (t ∷ rest)) =
        sym filled ∙ h in
      let head : (split_last x xs).1 ≡ t = cc in
      let tail : reverse_onto (split_last x xs).0 [] ≡ rest = cc in
      (k', rw (← head) e, rw (← head, ← tail) woken),
)

-- With the queues in order, on a queue other than the run queue `sched_wakeup_on` returns NULL and
-- changes nothing if nobody waits there; otherwise it returns the thread that has waited longest
-- and moves just this one to the end of the run queue, in state KT_RUN, and the queues are in
-- order.
pub sched_wakeup_on_lem :
    (q : ℕ) (k : Kernel)
    → IsQueued k
    → q ≢ k.runq
    → ((fifo q k ≡ []) → sched_wakeup_on q k ≡ ok (none, k))
      × ((t : ℕ) (rest : List ℕ)
          → fifo q k ≡ t ∷ rest
          → (k' : Kernel) × (sched_wakeup_on q k ≡ ok (some t, k')) × Woken q t rest k k')
sched_wakeup_on_lem q k i ne =
    Wakes-fifo q k (k.queues q).tq_list (wakes q k (k.queues q).tq_list i ne refl)

list-nil : (q : ℕ) (k : Kernel) (l : List ℕ) → (k.queues q).tq_list ≡ l → fifo q k ≡ [] → l ≡ []
list-nil q k [] e h = refl
list-nil q k (x ∷ xs) e h = absurd (ground (arith, fifo-cons q k x xs e))

-- `fifo` is empty only if the queue is.
pub list-nil_of_fifo : (q : ℕ) (k : Kernel) → fifo q k ≡ [] → (k.queues q).tq_list ≡ []
list-nil_of_fifo q k = list-nil q k (k.queues q).tq_list refl

list-filled :
    (q : ℕ) (k : Kernel) (l : List ℕ)
    → (k.queues q).tq_list ≡ l
    → fifo q k ≢ []
    → sched_queue_empty q k ≡ false
list-filled q k [] e h = absurd (h (ap (λ l. reverse_onto l []) e))
list-filled q k (x ∷ xs) e h = sched_queue_empty-cons q k x xs e

pub sched_queue_empty_of_fifo : (q : ℕ) (k : Kernel) → fifo q k ≢ [] → sched_queue_empty q k ≡ false
sched_queue_empty_of_fifo q k = list-filled q k (k.queues q).tq_list refl
