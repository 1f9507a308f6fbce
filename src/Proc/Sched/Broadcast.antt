-- ===== src/Proc/Sched/Broadcast.antt =====
-- `sched_broadcast_on`: its loop ends, and keeps the order of the waiters.
use weenix_kernel_implementa.Common.{
  ℕ, zero, suc, ◌≡◌, ◌≢◌, refl, sym, ap, ◌∙◌, false, some, List, [], ◌∷◌, ◌++◌, length,
  reverse_onto, length-split_last, split_last, ok, arith,
}
use mathlib.Core.List.{append-nil, append_assoc}
use weenix_kernel_implementa.Proc.Kernel.{Kernel}
use weenix_kernel_implementa.Proc.Sched.{sched_queue_empty, broadcast_loop, sched_broadcast_on}
use weenix_kernel_implementa.Proc.Sched.Fifo.{fifo}
use weenix_kernel_implementa.Proc.Sched.Invariant.{
  IsQueued, dequeued, ktqueue_dequeue-IsQueued, made_runnable, sched_make_runnable-ok,
}
use weenix_kernel_implementa.Proc.Sched.Wakeup.{
  Woken, Woken-dequeued, fifo-cons, sched_queue_empty-nil, sched_queue_empty-cons,
}

-- All threads of a queue move to the end of the run queue, in their order.
pub record Broadcast (q : ℕ) (k k' : Kernel) : Type 0 where
  pub queued : IsQueued k'
  pub left : fifo q k' ≡ []
  pub runnable : fifo k.runq k' ≡ fifo k.runq k ++ fifo q k
  pub others : (p : ℕ) → p ≢ q → p ≢ k.runq → fifo p k' ≡ fifo p k
  pub same : (k'.runq ≡ k.runq) × (k'.curthr ≡ k.curthr) × (k'.ipl ≡ k.ipl)

Broadcast-Woken :
    (q t : ℕ) (rest : List ℕ) (k k1 k2 : Kernel)
    → fifo q k ≡ t ∷ rest
    → Woken q t rest k k1
    → Broadcast q k1 k2
    → Broadcast q k k2
Broadcast-Woken q t rest k k1 k2 e w b = record {
  queued = b.queued;
  left = b.left;
  runnable =
      ap (λ r. fifo r k2) (sym w.same.0)
      ∙ b.runnable
      ∙ rw (w.left, w.same.0, w.runnable, e) (simp append_assoc);
  others = λ p a c. b.others p a (λ h. c (h ∙ w.same.0)) ∙ w.others p a c;
  same = (b.same.0 ∙ w.same.0, b.same.1 ∙ w.same.1, b.same.2 ∙ w.same.2);
}

broadcast_loop-Broadcast :
    (fuel q : ℕ) (k : Kernel) (l : List ℕ)
    → IsQueued k
    → q ≢ k.runq
    → (k.queues q).tq_list ≡ l
    → length l ≡ fuel
    → (k' : Kernel) × (broadcast_loop fuel q k ≡ ok (some k')) × Broadcast q k k'
unfolding broadcast_loop
broadcast_loop-Broadcast zero q k [] i ne e len = (
  k,
  rw (sched_queue_empty-nil q k e) refl,
  record {
    queued = i;
    left = ap (λ l. reverse_onto l []) e;
    runnable = rw e (simp append-nil);
    others = λ p a b. refl;
    same = (refl, refl, refl);
  },
)
broadcast_loop-Broadcast zero q k (x ∷ xs) i ne e len = absurd (omega arith)
broadcast_loop-Broadcast (suc fuel) q k [] i ne e len = absurd (omega arith)
broadcast_loop-Broadcast (suc fuel) q k (x ∷ xs) i ne e len =
    let t = (split_last x xs).1 in
    let k1 = dequeued q t (split_last x xs).0 k in
    let (taken, member, i1) = ktqueue_dequeue-IsQueued q k x xs i e in
    let filled : sched_queue_empty q k ≡ false = sched_queue_empty-cons q k x xs e in
    let woken = Woken-dequeued q k x xs i ne e in
    let (k2, e2, b) =
      broadcast_loop-Broadcast fuel q (made_runnable t k1) (split_last x xs).0 woken.queued ne
        (ground arith) (omega (arith, length-split_last x xs)) in
    (
      k2,
      rw (filled, broadcast_loop, taken, sched_make_runnable-ok t k1 (ground arith), e2) refl,
      Broadcast-Woken q t (reverse_onto (split_last x xs).0 []) k (made_runnable t k1) k2
          (fifo-cons q k x xs e) woken b,
    )

-- With the queues in order, on a queue other than the run queue the loop of `sched_broadcast_on`
-- ends, with the queue empty, and all threads that waited there moved to the end of the run queue
-- in the order in which they came; the other queues, the current thread and the interrupt level are
-- as before, and the queues are in order.
pub sched_broadcast_on-Broadcast :
    (q : ℕ) (k : Kernel)
    → IsQueued k
    → q ≢ k.runq
    → (k' : Kernel) × (sched_broadcast_on q k ≡ ok (some k')) × Broadcast q k k'
unfolding sched_broadcast_on
sched_broadcast_on-Broadcast q k i ne =
    broadcast_loop-Broadcast (length (k.queues q).tq_list) q k (k.queues q).tq_list i ne refl refl
