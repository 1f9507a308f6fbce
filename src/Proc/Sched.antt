-- ===== src/Proc/Sched.antt =====
-- K1/sched.c and K1/sched_helper.c. A call of `sched_switch` leaves the calling thread; what the
-- source does after the call is a function of its own, run when the thread is scheduled again.
-- An interrupt handler is a function on the kernel's state; `intr_wait` runs the next one that
-- arrives.
pub mod Fifo
pub mod Invariant
pub mod Wakeup
pub mod Broadcast
pub mod Cancel
pub mod Switching
use weenix_kernel_implementa.Common.{
  ℕ, zero, suc, ◌+◌, ◌-◌, Bool, true, false, not, ◌||◌, Option, none, some, List, [], ◌∷◌, ◌==◌,
  if◌then◌else◌, length, split_last, Exec, ok, ◌>>=◌, ◌>>◌, kassert, deref,
}
use weenix_kernel_implementa.Proc.Kernel.{
  KtState, no_state, run, sleep, sleep_cancellable, exited, Kthread, Ktqueue, Kernel, set_thread,
  set_queue, set_ipl,
}

abbrev pub is_none {ℓ} : {A : Type ℓ} → Option A → Bool
is_none none = true
is_none (some _) = false

abbrev pub same_queue : Option ℕ → ℕ → Bool
same_queue none q = false
same_queue (some p) q = p == q

abbrev pub state_eq : KtState → KtState → Bool
state_eq no_state no_state = true
state_eq run run = true
state_eq sleep sleep = true
state_eq sleep_cancellable sleep_cancellable = true
state_eq exited exited = true
state_eq _ _ = false

pub ktqueue_enqueue : ℕ → ℕ → Kernel → Exec Kernel
ktqueue_enqueue q t k = do
  let thr = k.threads t
  let tq = k.queues q
  kassert (is_none thr.kt_wchan)
  let k1 = set_queue q (record { tq_list = t ∷ tq.tq_list; tq_size = tq.tq_size + 1 }) k
  ok (set_thread t (record thr { kt_wchan = some q; kt_linked = true }) k1)

-- The tail of the list goes.
pub dequeue_list : ℕ → List ℕ → Kernel → Option ℕ × Kernel
dequeue_list q [] k = (none, k)
dequeue_list q (x ∷ xs) k =
    let (front, t) = split_last x xs in
    let thr = k.threads t in
    let k1 = set_thread t (record thr { kt_wchan = none; kt_linked = false }) k in
    (some t, set_queue q (record { tq_list = front; tq_size = (k.queues q).tq_size - 1 }) k1)

pub ktqueue_dequeue : ℕ → Kernel → Option ℕ × Kernel
unfolding dequeue_list
ktqueue_dequeue q k = dequeue_list q (k.queues q).tq_list k

pub erase : ℕ → List ℕ → List ℕ
erase t [] = []
erase t (x ∷ xs) = if x == t then xs else x ∷ erase t xs

pub ktqueue_remove : ℕ → ℕ → Kernel → Exec Kernel
unfolding erase
ktqueue_remove q t k = do
  let thr = k.threads t
  let tq = k.queues q
  kassert thr.kt_linked
  let k1 = set_thread t (record thr { kt_wchan = none; kt_linked = false }) k
  ok (set_queue q (record { tq_list = erase t tq.tq_list; tq_size = tq.tq_size - 1 }) k1)

unfoldable pub sched_queue_init : ℕ → Kernel → Kernel
sched_queue_init q = set_queue q (record { tq_list = []; tq_size = 0 })

abbrev list_empty : List ℕ → Bool
list_empty [] = true
list_empty (_ ∷ _) = false

pub sched_queue_empty : ℕ → Kernel → Bool
sched_queue_empty q k = list_empty (k.queues q).tq_list

pub sched_make_runnable : ℕ → Kernel → Exec Kernel
unfolding ktqueue_enqueue
sched_make_runnable t k = do
  kassert (not (same_queue (k.threads t).kt_wchan k.runq))
  let saved = k.ipl
  let k1 = set_ipl k.ipl_high k
  k2 ← ktqueue_enqueue k.runq t (set_thread t (record (k.threads t) { kt_state = run }) k1)
  ok (set_ipl saved k2)

-- A switch to another thread, or a wait for an interrupt that has not come.
pub data Switch : Type 0 where
  switched : Kernel → Switch
  waiting : Kernel → Switch

-- The loop of `sched_switch`, over the interrupts that arrive.
pub wait_runnable : List (Kernel → Exec Kernel) → Kernel → Exec Switch
unfolding sched_queue_empty
wait_runnable [] k =
    let low = set_ipl k.ipl_low k in
    if sched_queue_empty k.runq k then ok (waiting low) else ok (switched low)
wait_runnable (handler ∷ later) k =
    let low = set_ipl k.ipl_low k in
    elim (sched_queue_empty k.runq k) [
      | true ↦ handler low >>= λ k'. wait_runnable later k'
      | false ↦ ok (switched low)
    ]

-- intr_setipl(ipl) in the thread that goes on; a thread that never ran starts at its function.
abbrev restore_ipl : Option ℕ → Kernel → Kernel
restore_ipl none k = k
restore_ipl (some i) k = set_ipl i k

-- The rest of `sched_switch`, up to the return from `context_switch` in the next thread.
pub switch_to : ℕ → Kernel → Exec Kernel
switch_to saved k = do
  let (next, k1) = ktqueue_dequeue k.runq (set_ipl k.ipl_high k)
  t ← deref next
  let old = k1.threads k.curthr
  let k2 = set_thread k.curthr (record old { kt_saved_ipl = some saved }) k1
  let thr = k2.threads t
  ok (restore_ipl thr.kt_saved_ipl (record k2 { curthr = t; curproc = thr.kt_proc }))

pub sched_switch : List (Kernel → Exec Kernel) → Kernel → Exec Switch
sched_switch intrs k = do
  r ← wait_runnable intrs k
  elim r [
    | waiting k' ↦ ok (waiting k')
    | switched k' ↦ switch_to k.ipl k' >>= λ k2. ok (switched k2)
  ]

pub sched_sleep_on : ℕ → List (Kernel → Exec Kernel) → Kernel → Exec Switch
sched_sleep_on q intrs k = do
  k1 ←
      ktqueue_enqueue q k.curthr
        (set_thread k.curthr (record (k.threads k.curthr) { kt_state = sleep }) k)
  sched_switch intrs k1

-- `none` for NULL.
pub sched_wakeup_on : ℕ → Kernel → Exec (Option ℕ × Kernel)
sched_wakeup_on q k = if sched_queue_empty q k then ok (none, k) else (do
  let (next, k1) = ktqueue_dequeue q k
  t ← deref next
  let state = (k1.threads t).kt_state
  kassert (state_eq state sleep || state_eq state sleep_cancellable)
  k2 ← sched_make_runnable t k1
  ok (some t, k2))

-- The loop of `sched_broadcast_on`, with a round for each thread that was on the queue; `none` if
-- the queue is not empty after these.
pub broadcast_loop : ℕ → ℕ → Kernel → Exec (Option Kernel)
broadcast_loop zero q k = if sched_queue_empty q k then ok (some k) else ok none
broadcast_loop (suc fuel) q k = elim (sched_queue_empty q k) [
  | true ↦ ok (some k)
  | false ↦
      let (next, k1) = ktqueue_dequeue q k in
      deref next >>= λ t. sched_make_runnable t k1 >>= λ k2. broadcast_loop fuel q k2
]

pub sched_broadcast_on : ℕ → Kernel → Exec (Option Kernel)
unfolding broadcast_loop
sched_broadcast_on q k = broadcast_loop (length (k.queues q).tq_list) q k

-- -EINTR, or what is left to do once the thread runs again.
pub data Sleep : Type 0 where
  interrupted : Sleep
  asleep : Switch → Sleep

pub sched_cancellable_sleep_on : ℕ → List (Kernel → Exec Kernel) → Kernel → Exec Sleep
sched_cancellable_sleep_on q intrs k =
    if (k.threads k.curthr).kt_cancelled then ok interrupted else (do
      k1 ←
          ktqueue_enqueue q k.curthr
            (set_thread k.curthr (record (k.threads k.curthr) { kt_state = sleep_cancellable }) k)
      s ← sched_switch intrs k1
      ok (asleep s))

-- What `sched_cancellable_sleep_on` returns in a thread that runs again: true for -EINTR.
unfoldable pub cancellable_sleep_resume : Kernel → Bool
cancellable_sleep_resume k = (k.threads k.curthr).kt_cancelled

pub sched_cancel : ℕ → Kernel → Exec Kernel
sched_cancel t k =
    let thr = k.threads t in
    if not (state_eq thr.kt_state no_state) || not (state_eq thr.kt_state exited)
    then (let k1 = set_thread t (record thr { kt_cancelled = true }) k in
        if state_eq thr.kt_state sleep_cancellable
        then (do q ← deref thr.kt_wchan; k2 ← ktqueue_remove q t k1; sched_make_runnable t k2)
        else ok k1)
    else ok k
