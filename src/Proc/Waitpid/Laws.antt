-- ===== src/Proc/Waitpid/Laws.antt =====
-- `do_waitpid`: which child is reaped, and with which status.
use weenix_kernel_implementa.Common.{
  ℕ, ◌≡◌, ◌≢◌, refl, ap, inl, inr, true, false, none, some, List, [], ◌∷◌, ◌==◌, if◌then◌else◌,
  Exec, ok, arith, Bool-cases,
}
use weenix_kernel_implementa.Proc.Kernel.{Kernel}
use weenix_kernel_implementa.Proc.Sched.{Switch, sched_sleep_on}
use weenix_kernel_implementa.Proc.Sched.Fifo.{has, Distinct, has-erase}
use weenix_kernel_implementa.Proc.Process.{dead, running, System, list_is_empty, resumed}
use weenix_kernel_implementa.Proc.Waitpid.{
  WaitFor, any_child, child, reaped, echild, sleeping, for_child, is_dead, find_dead, find_child,
  wait_queue, unlink, dispose, wait_any, wait_child, do_waitpid, waitpid_resume,
}

abbrev pub children : System → List ℕ
children s = (s.procs s.kernel.curproc).p_children

-- The first process of the list whose state is PROC_DEAD, if there is one.
pub find_dead_lem :
    (s : System) (l : List ℕ) (p : ℕ)
    → find_dead s l ≡ some p
    → (has p l ≡ true) × ((s.procs p).p_state ≡ dead)
unfolding find_dead has
find_dead_lem s [] p e = cc
find_dead_lem s (x ∷ xs) p e = elim (Bool-cases (is_dead (s.procs x).p_state)) [
  | inl d ↦ let same : x ≡ p = ground arith in rw (← same) (ground arith, ground arith)
  | inr d ↦ let rest = find_dead_lem s xs p (ground arith) in (ground (arith, rest.0), rest.1)
]

not_dead-ne :
    (s : System) (x c : ℕ)
    → is_dead (s.procs x).p_state ≡ false
    → (s.procs c).p_state ≡ dead
    → (x == c) ≡ false
not_dead-ne s x c alive died = elim (Bool-cases (x == c)) [
  | inr e ↦ e
  | inl e ↦
      let same : x ≡ c = ground arith in
      absurd (ground (arith, ap (λ (u : ℕ). is_dead (s.procs u).p_state) same))
]

find_dead_total :
    (s : System) (l : List ℕ) (c : ℕ)
    → has c l ≡ true
    → (s.procs c).p_state ≡ dead
    → (d : ℕ) × (find_dead s l ≡ some d)
unfolding find_dead has
find_dead_total s [] c member died = cc
find_dead_total s (x ∷ xs) c member died = elim (Bool-cases (is_dead (s.procs x).p_state)) [
  | inl here ↦ (x, ground arith)
  | inr later ↦
      let other : (x == c) ≡ false = not_dead-ne s x c later died in
      let (d, e) = find_dead_total s xs c (ground arith) died in (d, ground arith)
]

list_is_empty_ne : (l : List ℕ) → l ≢ [] → list_is_empty l ≡ false
list_is_empty_ne [] ne = absurd (ne refl)
list_is_empty_ne (x ∷ xs) ne = refl

list_is_empty-has : (p : ℕ) (l : List ℕ) → has p l ≡ true → list_is_empty l ≡ false
unfolding has
list_is_empty-has p [] e = cc
list_is_empty-has p (x ∷ xs) e = refl

find_child-ne :
    (s : System) (pid : ℕ) (l : List ℕ) (c : ℕ)
    → find_child s pid l ≡ some c
    → list_is_empty l ≡ false
unfolding find_child
find_child-ne s pid [] c e = cc
find_child-ne s pid (x ∷ xs) c e = refl

-- What is left after `dispose`.
pub record Disposed (p : ℕ) (s s' : System) : Type 0 where
  pub gone : (q : ℕ) → has q (children s') ≡ (if q == p then false else has q (children s))
  pub unlisted : (q : ℕ) → has q s'.proc_list ≡ (if q == p then false else has q s.proc_list)
  pub kernel : s'.kernel ≡ s.kernel
  pub status : (q : ℕ) → (s'.procs q).p_status ≡ (s.procs q).p_status
  pub state : (q : ℕ) → (s'.procs q).p_state ≡ (s.procs q).p_state

dispose-Disposed :
    (p : ℕ) (s : System)
    → Distinct s.proc_list
    → Distinct (children s)
    → (s.procs p).p_threads ≢ []
    → (s' : System) × (dispose p s ≡ ok s') × Disposed p s s'
unfolding dispose
dispose-Disposed p s listed family threads = (
  unlink p s,
  rw (list_is_empty_ne (s.procs p).p_threads threads) refl,
  record {
    gone = λ q. ground (arith, has-erase p q (children s) family);
    unlisted = λ q. has-erase p q s.proc_list listed;
    kernel = refl;
    status = λ q. ground arith;
    state = λ q. ground arith;
  },
)

-- In a process with a child that has exited, where the lists of processes and of children have no
-- repetition and every child has a thread, `do_waitpid` for any child does not sleep: it returns
-- the number and the exit status of a child that has exited, and just this child leaves the lists
-- of children and of processes; all processes keep their states and statuses.
pub do_waitpid-any :
    (s : System) (intrs : List (Kernel → Exec Kernel)) (c : ℕ)
    → Distinct s.proc_list
    → Distinct (children s)
    → ((q : ℕ) → has q (children s) ≡ true → (s.procs q).p_threads ≢ [])
    → has c (children s) ≡ true
    → (s.procs c).p_state ≡ dead
    → (d : ℕ) × (s' : System) × (do_waitpid any_child intrs s
        ≡ ok (reaped (s.procs d).p_pid (s.procs d).p_status s'))
      × (has d (children s) ≡ true)
      × ((s.procs d).p_state ≡ dead)
      × Disposed d s s'
unfolding do_waitpid wait_any
do_waitpid-any s intrs c listed family threads has_c died =
    let (d, found) = find_dead_total s (children s) c has_c died in
    let (member, is_d) = find_dead_lem s (children s) d found in
    let some_child : list_is_empty (children s) ≡ false = list_is_empty-has d (children s) member in
    let (s', e, disposed) = dispose-Disposed d s listed family (threads d member) in
    (d, s', rw (some_child, found, wait_any, e) refl, member, is_d, disposed)

-- `do_waitpid` returns -ECHILD if the caller has no children, and for a positive number that no
-- child has.
pub do_waitpid-echild :
    (s : System) (intrs : List (Kernel → Exec Kernel)) (pid : ℕ)
    → ((children s ≡ []) → (w : WaitFor) → do_waitpid w intrs s ≡ ok echild)
      × (pid ≢ 0
          → find_child s pid (children s) ≡ none
          → do_waitpid (child pid) intrs s ≡ ok echild)
unfolding do_waitpid
do_waitpid-echild s intrs pid = (λ e w. rw e refl, λ ne e. ground (arith, e))

-- A wait for one child that still runs: if the sleep of the caller begins, then whenever the caller
-- runs again in a state in which the child has exited and has a thread, `do_waitpid` returns the
-- status that the child had when the wait began, and not the one with which it exited.
pub do_waitpid_stale_status :
    (s s1 : System) (intrs : List (Kernel → Exec Kernel)) (pid c : ℕ) (sw : Switch)
    → pid ≢ 0
    → find_child s pid (children s) ≡ some c
    → (s.procs c).p_state ≡ running
    → sched_sleep_on (wait_queue s) intrs s.kernel ≡ ok sw
    → (s1.procs c).p_state ≡ dead
    → (s1.procs c).p_threads ≢ []
    → (do_waitpid (child pid) intrs s
        ≡ ok (sleeping (for_child c (s.procs c).p_status) (resumed s sw)))
      × (s2 : System) × (waitpid_resume (for_child c (s.procs c).p_status) intrs s1
          ≡ ok (reaped (s1.procs c).p_pid (s.procs c).p_status s2))
unfolding do_waitpid waitpid_resume wait_child dispose
do_waitpid_stale_status s s1 intrs pid c sw ne found runs sleeps died threads =
    let some_child : list_is_empty (children s) ≡ false =
      find_child-ne s pid (children s) c found in
    let given : (pid == 0) ≡ false = ground arith in
    (
      rw (some_child, given, found, runs, sleeps) refl,
      unlink c s1,
      rw (died, list_is_empty_ne (s1.procs c).p_threads threads) refl,
    )
