-- ===== src/Proc/Kmutex/Laws.antt =====
-- A mutex has one holder, and hands itself over in the order of the requests.
use weenix_kernel_implementa.Common.{
  ℕ, ◌≡◌, ◌≢◌, refl, ap, ◌∙◌, true, false, none, some, List, [], ◌∷◌, ◌++◌, ◌==◌, Exec, ok, arith,
}
use weenix_kernel_implementa.Proc.Kernel.{Kernel, set_mutex, sleep, run}
use weenix_kernel_implementa.Proc.Sched.{switched, sched_queue_empty}
use weenix_kernel_implementa.Proc.Sched.Fifo.{fifo, has, has-fifo, has-append}
use weenix_kernel_implementa.Proc.Sched.Invariant.{IsQueued}
use weenix_kernel_implementa.Proc.Sched.Wakeup.{
  Woken, sched_wakeup_on_lem, sched_queue_empty-nil, list-nil_of_fifo, sched_queue_empty_of_fifo,
}
use weenix_kernel_implementa.Proc.Sched.Switching.{sched_sleep_on_lem}
use weenix_kernel_implementa.Proc.Kmutex.{points_to, acquired, blocked, kmutex_unlock, kmutex_lock}

-- Nobody waits for a free mutex, and its holder does not wait for it.
pub record IsLock (m : ℕ) (k : Kernel) : Type 0 where
  pub free : (k.mutexes m).km_holder ≡ none → (k.queues (k.mutexes m).km_waitq).tq_list ≡ []
  pub apart :
      (t : ℕ)
      → (k.mutexes m).km_holder ≡ some t
      → has t (k.queues (k.mutexes m).km_waitq).tq_list ≡ false

-- The wait queue is not the run queue, the scheduler is in order, and the current thread runs.
pub record Ready (m : ℕ) (k : Kernel) : Type 0 where
  pub queued : IsQueued k
  pub waitq : (k.mutexes m).km_waitq ≢ k.runq
  pub running : (k.threads k.curthr).kt_wchan ≡ none

module _ (m : ℕ) (k : Kernel) (ready : Ready m k) where
  abbrev waitq : ℕ
  waitq = (k.mutexes m).km_waitq

  -- What `kmutex_unlock` leaves when it wakes `t`.
  pub record HandedOver (t : ℕ) (rest : List ℕ) (k' : Kernel) : Type 0 where
    pub holder : (k'.mutexes m).km_holder ≡ some t
    pub state : (k'.threads t).kt_state ≡ run
    pub left : fifo waitq k' ≡ rest
    pub runnable : fifo k.runq k' ≡ fifo k.runq k ++ t ∷ []
    pub queued : IsQueued k'
    pub lock : IsLock m k'
    pub others : (p : ℕ) → p ≢ waitq → p ≢ k.runq → fifo p k' ≡ fifo p k
    pub same : (k'.runq ≡ k.runq) × (k'.curthr ≡ k.curthr)
    pub same_waitq : (k'.mutexes m).km_waitq ≡ waitq

  set_holder-IsLock :
      (t : ℕ) (rest : List ℕ) (k1 : Kernel)
      → Woken waitq t rest k k1
      → HandedOver t rest (set_mutex m (record (k.mutexes m) { km_holder = some t }) k1)
  set_holder-IsLock t rest k1 w = record {
    holder = ground arith;
    state = w.state;
    left = w.left;
    runnable = w.runnable;
    queued = record {
      sized = w.queued.sized;
      distinct = w.queued.distinct;
      listed = w.queued.listed;
      linked = w.queued.linked;
      states = w.queued.states;
    };
    lock = record {
      free = ground arith;
      apart = λ u e. ground (arith, w.queued.states waitq t, w.state, w.same.0, ready.waitq);
    };
    others = w.others;
    same = (w.same.0, w.same.1);
    same_waitq = ground arith;
  }

  -- The oldest waiter is not the running thread.
  waiter-ne : (t : ℕ) (rest : List ℕ) → fifo waitq k ≡ t ∷ rest → (t == k.curthr) ≡ false
  unfolding has
  waiter-ne t rest e =
      let member : has t (fifo waitq k) ≡ true = rw e (ground arith) in
      ground (arith, member, has-fifo t waitq k, ready.queued.listed waitq t, ready.running)

  -- With the queues of the scheduler in order, a wait queue that is not the run queue and a current
  -- thread that is on no queue: the holder of a mutex unlocks it. If nobody waits the mutex becomes
  -- free and nothing else changes; otherwise the thread that has waited longest becomes the holder
  -- and is put at the end of the run queue, in state KT_RUN, while the rest wait on in their order,
  -- and the holder does not wait for the mutex.
  pub kmutex_unlock_lem :
      (k.mutexes m).km_holder ≡ some k.curthr
      → (fifo waitq k ≡ []
          → kmutex_unlock m k ≡ ok (set_mutex m (record (k.mutexes m) { km_holder = none }) k))
        × ((t : ℕ) (rest : List ℕ)
            → fifo waitq k ≡ t ∷ rest
            → (k' : Kernel) × (kmutex_unlock m k ≡ ok k') × HandedOver t rest k')
  unfolding kmutex_unlock
  kmutex_unlock_lem mine =
      let mine' : points_to (k.mutexes m).km_holder k.curthr ≡ true = ground arith in
      let (nobody, somebody) = sched_wakeup_on_lem waitq k ready.queued ready.waitq in
      (
        λ e.
            let empty : sched_queue_empty waitq k ≡ true =
              sched_queue_empty-nil waitq k (list-nil_of_fifo waitq k e) in
            rw (mine', empty) refl,
        λ t rest e.
            let (k1, e1, w) = somebody t rest e in
            let filled : sched_queue_empty waitq k ≡ false =
              sched_queue_empty_of_fifo waitq k (λ h. ground (arith, h, e)) in
            let other : (t == k1.curthr) ≡ false = ap (λ c. t == c) w.same.1 ∙ waiter-ne t rest e in
            (
              set_mutex m (record (k.mutexes m) { km_holder = some t }) k1,
              rw (mine', filled, e1, other) refl,
              set_holder-IsLock t rest k1 w,
            ),
      )

  -- With the queues of the scheduler in order, a wait queue that is not the run queue, a current
  -- thread that is on no queue and a mutex for which neither its holder nor, if it is free, anybody
  -- waits: a thread locks a mutex that it does not hold. A free one it gets at once; for a held
  -- one, while `t` is the first that is runnable, it goes to the end of the waiters in state
  -- KT_SLEEP and `t` runs, the holder being as before. Either way nobody waits for a free mutex
  -- afterwards, and its holder does not wait for it.
  pub kmutex_lock_lem :
      (intrs : List (Kernel → Exec Kernel))
      → IsLock m k
      → (k.mutexes m).km_holder ≢ some k.curthr
      → ((k.mutexes m).km_holder ≡ none
          → (k' : Kernel) × (kmutex_lock m intrs k ≡ ok (acquired k'))
            × ((k'.mutexes m).km_holder ≡ some k.curthr)
            × IsLock m k')
        × ((h t : ℕ) (rest : List ℕ)
            → (k.mutexes m).km_holder ≡ some h
            → fifo k.runq k ≡ t ∷ rest
            → (k' : Kernel) × (kmutex_lock m intrs k ≡ ok (blocked (switched k')))
              × (k'.curthr ≡ t)
              × (fifo waitq k' ≡ fifo waitq k ++ k.curthr ∷ [])
              × ((k'.threads k.curthr).kt_state ≡ sleep)
              × ((k'.mutexes m).km_holder ≡ some h)
              × IsLock m k')
  unfolding kmutex_lock has
  kmutex_lock_lem intrs lock not_mine =
      let not_mine' : points_to (k.mutexes m).km_holder k.curthr ≡ false = ground arith in
      (
        λ e. (
          set_mutex m (record (k.mutexes m) { km_holder = some k.curthr }) k,
          rw e refl,
          ground arith,
          record { free = ground arith; apart = λ u h. ground (arith, lock.free e) },
        ),
        λ h t rest e runnable.
            let (k', e', i', cur, left, waits, state, same) =
              sched_sleep_on_lem waitq intrs k t rest ready.queued ready.waitq ready.running
                runnable in
            let same_m : k'.mutexes m ≡ k.mutexes m = ap (λ ms. ms m) same in
            let other : (h == k.curthr) ≡ false = ground arith in
            let waiting : has h (k'.queues waitq).tq_list ≡ false = ground (
              arith,
              has-fifo h waitq k',
              has-fifo h waitq k,
              waits,
              has-append h (fifo waitq k) (k.curthr ∷ []),
              lock.apart h e,
            ) in
            (
              k',
              rw (e, other, e') refl,
              cur,
              waits,
              state,
              ap (λ x. x.km_holder) same_m ∙ e,
              record {
                free = λ none_held. absurd (ground (arith, same_m));
                apart = λ u holds.
                    let is_h : h ≡ u = ground (arith, same_m) in rw (same_m, ← is_h) waiting;
              },
            ),
      )
