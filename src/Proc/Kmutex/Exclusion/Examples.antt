-- ===== src/Proc/Kmutex/Exclusion/Examples.antt =====
-- Mutual exclusion where thread 1 locks mutex 0 and gives way to thread 4. The run queue is queue 0.
use weenix_kernel_implementa.Common.{
  ◌+◌, ◌++◌, reverse_onto-append, ◌≢◌, ap, ◌∙◌, ℕ, ◌≡◌, refl, Bool, true, false, Option, none, some,
  [], ◌∷◌, ◌==◌, if◌then◌else◌, update, ok, arith,
}
use weenix_kernel_implementa.Proc.Kernel.{run, Kthread, Kernel}
use weenix_kernel_implementa.Proc.Sched.{switched, sched_queue_init, sched_switch}
use weenix_kernel_implementa.Proc.Sched.Fifo.{fifo, has}
use weenix_kernel_implementa.Proc.Sched.Invariant.{
  made_runnable, sched_make_runnable-ok, made_runnable-IsQueued,
}
use weenix_kernel_implementa.Proc.Sched.Switching.{
  Switched, asleep_on, asleep_on-fifo, sched_switch-Switched,
}
use weenix_kernel_implementa.Proc.Kmutex.{acquired, blocked, kmutex_init, kmutex_lock}
use weenix_kernel_implementa.Proc.Kmutex.Laws.{Ready, kmutex_lock_lem}
use weenix_kernel_implementa.Proc.Kmutex.Exclusion.{
  Phase, outside, inside, waits, locks, sleeps, yields, Reach, here, next, IsExclusive,
}
use weenix_kernel_implementa.Proc.Kmutex.Exclusion.Locks.{taken, set_holder-Ready, lock-blocked}
use weenix_kernel_implementa.Proc.Kmutex.Exclusion.Safety.{
  mutual_exclusion, Reach-IsExclusive, init-IsExclusive,
}
use weenix_kernel_implementa.Proc.Kmutex.Exclusion.Waiting.{
  WaitsBehind, Passed, begun, further, bounded_waiting,
}

abbrev thread : Option ℕ → Bool → Kthread
thread wchan linked = record {
  kt_state = run;
  kt_wchan = wchan;
  kt_linked = linked;
  kt_cancelled = false;
  kt_retval = 0;
  kt_proc = 9;
  kt_saved_ipl = none;
}

abbrev k : Kernel
k = record {
  threads = λ t. if t == 4 then thread (some 0) true else thread none false;
  queues = λ q.
      if q == 0
      then record { tq_list = 4 ∷ []; tq_size = 1 }
      else record { tq_list = []; tq_size = 0 };
  mutexes = λ m. record { km_waitq = 1; km_holder = none };
  curthr = 1;
  curproc = 9;
  ipl = 0;
  runq = 0;
  ipl_low = 0;
  ipl_high = 15;
}

abbrev k0 : Kernel
k0 = kmutex_init 0 k

k0-Ready : Ready 0 k0
unfolding kmutex_init sched_queue_init has
k0-Ready = record {
  queued = record {
    sized = λ q. ground arith;
    distinct = λ q. ground arith;
    listed = λ q t. ground arith;
    linked = λ t. ground arith;
    states = λ q t. ground arith;
  };
  waitq = ground arith;
  running = refl;
}

abbrev k1 : Kernel
k1 = taken 0 k0

lock_free : kmutex_lock 0 [] k0 ≡ ok (acquired k1)
unfolding kmutex_lock kmutex_init sched_queue_init
lock_free = refl

k1-Ready : Ready 0 k1
unfolding kmutex_init sched_queue_init
k1-Ready = set_holder-Ready 0 (some 1) k0 k0-Ready

-- Thread 1 gives way.
gave_way :
    (k2 : Kernel) × (sched_switch [] (made_runnable 1 k1) ≡ ok (switched k2))
    × Switched 4 (1 ∷ []) (made_runnable 1 k1) k2
unfolding kmutex_init sched_queue_init
gave_way =
    sched_switch-Switched [] (made_runnable 1 k1) 4 (1 ∷ [])
      (made_runnable-IsQueued 1 k1 k1-Ready.queued k1-Ready.running) refl

abbrev one : ℕ
one = 1

abbrev phases : ℕ → Phase
phases = update (λ t. outside) 1 inside

two_steps :
    Reach 0
      (record { kernel = k0; phase = λ t. outside })
      (record { kernel = gave_way.0; phase = phases })
unfolding kmutex_init sched_queue_init
two_steps = next (next here (locks [] k0 k1 (λ t. outside) refl lock_free)) (
    yields [] k1 (made_runnable 1 k1) gave_way.0 phases
      (sched_make_runnable-ok 1 k1 k1-Ready.running) gave_way.1)

mutual_exclusion_example : (one ≡ one) × ((gave_way.0.mutexes 0).km_holder ≡ some 1)
mutual_exclusion_example =
    mutual_exclusion 0 k (record { kernel = gave_way.0; phase = phases }) 1 1 k0-Ready two_steps
      refl refl

-- Thread 4 runs, asks for the mutex that thread 1 holds, and sleeps.
abbrev k2 : Kernel
k2 = gave_way.0

second : IsExclusive 0 (record { kernel = k2; phase = phases })
unfolding kmutex_init sched_queue_init
second = Reach-IsExclusive 0 (init-IsExclusive 0 k k0-Ready) two_steps

runnable_2 : fifo k2.runq k2 ≡ 1 ∷ []
unfolding kmutex_init sched_queue_init
runnable_2 = ap (λ p. fifo p k2) gave_way.2.same_runq ∙ gave_way.2.runnable

holder_2 : (k2.mutexes 0).km_holder ≡ some 1
unfolding kmutex_init sched_queue_init
holder_2 = ap (λ ms. (ms 0).km_holder) gave_way.2.mutexes

waitq_2 : (k2.mutexes 0).km_waitq ≡ 1
unfolding kmutex_init sched_queue_init
waitq_2 = ap (λ ms. (ms 0).km_waitq) gave_way.2.mutexes

nobody_2 : fifo 1 k2 ≡ []
unfolding kmutex_init sched_queue_init
nobody_2 = gave_way.2.others 1 (λ e. ground arith)

not_holder : (k2.mutexes 0).km_holder ≢ some k2.curthr
not_holder e = let c = gave_way.2.current in absurd (ground (arith, holder_2))

slept : (k3 : Kernel) × (kmutex_lock 0 [] k2 ≡ ok (blocked (switched k3)))
slept =
    let r =
      (kmutex_lock_lem 0 k2 second.ready [] second.lock not_holder).1 1 1 [] holder_2 runnable_2 in
    (r.0, r.1)

abbrev k3 : Kernel
k3 = slept.0

asleep_3 : Switched 1 [] (asleep_on (k2.mutexes 0).km_waitq k2) k3
asleep_3 = (lock-blocked 0 [] k2 k3 1 [] second.ready runnable_2 slept.1).1

abbrev phases_3 : ℕ → Phase
phases_3 = update phases k2.curthr waits

three_steps :
    Reach 0
      (record { kernel = k0; phase = λ t. outside })
      (record { kernel = k3; phase = phases_3 })
three_steps =
    next two_steps (sleeps [] k2 k3 phases 1 [] (ap phases gave_way.2.current) runnable_2 slept.1)

four_waits : WaitsBehind 0 4 0 (record { kernel = k3; phase = phases_3 })
four_waits = (
  [],
  [],
  ap (λ ms. fifo (ms 0).km_waitq k3) asleep_3.mutexes
      ∙ asleep_on-fifo (k2.mutexes 0).km_waitq 1 [] k2 k3 second.ready.waitq asleep_3
      ∙ ap (λ p. fifo p k2 ++ k2.curthr ∷ []) waitq_2
      ∙ ap (λ l. l ++ k2.curthr ∷ []) nobody_2
      ∙ ap (λ c. c ∷ []) gave_way.2.current,
  refl,
)

-- Thread 1 gives way to itself, as it alone is runnable.
third : IsExclusive 0 (record { kernel = k3; phase = phases_3 })
unfolding kmutex_init sched_queue_init
third = Reach-IsExclusive 0 (init-IsExclusive 0 k k0-Ready) three_steps

runnable_3 : fifo k3.runq (made_runnable k3.curthr k3) ≡ k3.curthr ∷ []
runnable_3 =
    ground (arith, reverse_onto-append (k3.queues k3.runq).tq_list (k3.curthr ∷ []))
    ∙ ap (λ p. fifo p k3 ++ k3.curthr ∷ []) asleep_3.same_runq
    ∙ ap (λ l. l ++ k3.curthr ∷ []) asleep_3.runnable

gave_way_again :
    (k4 : Kernel) × (sched_switch [] (made_runnable k3.curthr k3) ≡ ok (switched k4))
    × Switched k3.curthr [] (made_runnable k3.curthr k3) k4
gave_way_again =
    sched_switch-Switched [] (made_runnable k3.curthr k3) k3.curthr []
      (made_runnable-IsQueued k3.curthr k3 third.ready.queued third.ready.running) runnable_3

abbrev k4 : Kernel
k4 = gave_way_again.0

holder_4 : (k4.mutexes 0).km_holder ≢ some 4
holder_4 e =
    let same = ap (λ ms. (ms 0).km_holder) gave_way_again.2.mutexes in
    let before = ap (λ ms. (ms 0).km_holder) asleep_3.mutexes in
    absurd (ground (arith, same, before, holder_2))

run_to_4 :
    Passed 0 4
      (record { kernel = k3; phase = phases_3 })
      (0 + 0)
      (record { kernel = k4; phase = phases_3 })
run_to_4 =
    further begun
      (yields [] k3 (made_runnable k3.curthr k3) k4 phases_3
        (sched_make_runnable-ok k3.curthr k3 third.ready.running) gave_way_again.1)
      holder_4

bounded_waiting_example :
    (n' : ℕ) × WaitsBehind 0 4 n' (record { kernel = k4; phase = phases_3 }) × (n' + (0 + 0) ≡ 0)
bounded_waiting_example =
    bounded_waiting 0 k (record { kernel = k3; phase = phases_3 })
      (record { kernel = k4; phase = phases_3 }) 4 0 (0 + 0) k0-Ready three_steps four_waits
      run_to_4
