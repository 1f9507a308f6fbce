-- ===== src/Proc/Waitpid.antt =====
-- `do_waitpid` of K1/proc.c. The process that is reaped leaves the lists; its memory is not modelled.
pub mod Laws
mod Examples
use weenix_kernel_implementa.Common.{
  ℕ, Bool, true, false, not, ◌&&◌, ◌||◌, Option, none, some, List, [], ◌∷◌, ◌==◌, if◌then◌else◌,
  update, Exec, ok, ◌>>=◌, ◌>>◌, kassert,
}
use weenix_kernel_implementa.Proc.Kernel.{Kernel}
use weenix_kernel_implementa.Proc.Sched.{erase, sched_sleep_on}
use weenix_kernel_implementa.Proc.Process.{
  ProcState, running, dead, Process, System, set_proc, has_pid, list_is_empty, resumed,
}

-- The source's `do_waitpid`: a wait for any child, for one child, or another argument.
pub data WaitFor : Type 0 where
  any_child : WaitFor
  child : ℕ → WaitFor
  unsupported : WaitFor

-- The number and the status that are returned; -ECHILD; or a sleep, after which `do_waitpid` goes on
-- as it is told: with its loop over the children, or with its wait for the child at an address.
pub data Resume : Type 0 where
  for_any : Resume
  for_child : ℕ → ℕ → Resume

pub data Waited : Type 0 where
  reaped : Option ℕ → ℕ → System → Waited
  echild : Waited
  sleeping : Resume → System × Bool → Waited

-- The process is unlinked from the lists that link it, and its first thread and its own memory are
-- given back; without a thread the source would free what is none.
abbrev pub unlink : ℕ → System → System
unlink p s =
    let s1 = record s { proc_list = erase p s.proc_list } in
    let cur = s.procs s.kernel.curproc in
    set_proc s.kernel.curproc (record cur { p_children = erase p cur.p_children }) s1

pub dispose : ℕ → System → Exec System
dispose p s = do kassert (not (list_is_empty (s.procs p).p_threads)); ok (unlink p s)

abbrev pub is_dead : ProcState → Bool
is_dead running = false
is_dead dead = true

pub find_dead : System → List ℕ → Option ℕ
find_dead s [] = none
find_dead s (p ∷ ps) = if is_dead (s.procs p).p_state then some p else find_dead s ps

pub find_child : System → ℕ → List ℕ → Option ℕ
find_child s pid [] = none
find_child s pid (p ∷ ps) = if has_pid s p pid then some p else find_child s pid ps

abbrev pub wait_queue : System → ℕ
wait_queue s = (s.procs s.kernel.curproc).p_wait

-- One round of the loop for -1.
pub wait_any : List (Kernel → Exec Kernel) → System → Exec Waited
wait_any intrs s = elim (find_dead s (s.procs s.kernel.curproc).p_children) [
  | some p ↦ dispose p s >>= λ s'. ok (reaped (s.procs p).p_pid (s.procs p).p_status s')
  | none ↦
      sched_sleep_on (wait_queue s) intrs s.kernel >>= λ sw. ok (sleeping for_any (resumed s sw))
]

-- One round of the wait for the child at `p`; `status` was read before the first round.
pub wait_child : ℕ → ℕ → List (Kernel → Exec Kernel) → System → Exec Waited
wait_child p status intrs s =
    if is_dead (s.procs p).p_state
    then (do s' ← dispose p s; ok (reaped (s.procs p).p_pid status s'))
    else (do
      sw ← sched_sleep_on (wait_queue s) intrs s.kernel
      ok (sleeping (for_child p status) (resumed s sw)))

pub do_waitpid : WaitFor → List (Kernel → Exec Kernel) → System → Exec Waited
do_waitpid w intrs s =
    let children = (s.procs s.kernel.curproc).p_children in
    if list_is_empty children then ok echild else elim w [
      | any_child ↦ wait_any intrs s
      | child pid ↦ elim (if pid == 0 then none else find_child s pid children) [
        | none ↦ ok echild
        | some p ↦ wait_child p (s.procs p).p_status intrs s
      ]
      | unsupported ↦ ok echild
    ]

-- What `do_waitpid` does when its thread runs again.
pub waitpid_resume : Resume → List (Kernel → Exec Kernel) → System → Exec Waited
unfolding wait_any wait_child
waitpid_resume for_any intrs s = wait_any intrs s
waitpid_resume (for_child p status) intrs s = wait_child p status intrs s
