-- ===== src/Vm/Fork.antt =====
-- K3/fork.c, and `kthread_clone` of K3/kthread.c: the process and the thread, the address space, the
-- files and the page table meet here. Slab allocations are taken to succeed, as the source does; the
-- addresses of new objects are arguments.
pub mod Found
pub mod Objects
pub mod Area
pub mod Laws
use weenix_kernel_implementa.Common.{
  ℕ, zero, suc, ◌+◌, ◌-◌, Bool, true, false, not, ◌&&◌, Option, none, some, List, [], ◌∷◌, ◌++◌,
  ltb, leb, ◌==◌, if◌then◌else◌, update, Exec, ok, ◌>>=◌, ◌>>◌, kassert, deref,
}
use weenix_kernel_implementa.Proc.Kernel.{Kthread, Kernel, set_thread}
use weenix_kernel_implementa.Proc.Sched.{sched_make_runnable}
use weenix_kernel_implementa.Proc.Process.{
  ProcState, running, dead, Process, System, set_proc, proc_create,
}
use weenix_kernel_implementa.Vm.Layout.{Layout}
use weenix_kernel_implementa.Vm.Mmobj.{MmobjOps}
use weenix_kernel_implementa.Vm.Vmmap.{Vmarea, Vmmap, lookup_area}
use weenix_kernel_implementa.Vm.Vmmap.Map.{vmmap_clone}

-- vma->vma_obj = o, for the area that `vmmap_lookup` finds.
pub set_area_obj : ℕ → ℕ → List Vmarea → List Vmarea
set_area_obj vfn o [] = []
set_area_obj vfn o (a ∷ rest) =
    if leb a.vma_start vfn && ltb vfn a.vma_end
    then record a { vma_obj = some o } ∷ rest
    else a ∷ set_area_obj vfn o rest

-- kthread_clone: the new thread is in no process (0 for NULL) and on no queue.
pub kthread_clone : Kthread → Kthread
kthread_clone thr = record {
  kt_state = thr.kt_state;
  kt_wchan = thr.kt_wchan;
  kt_linked = false;
  kt_cancelled = thr.kt_cancelled;
  kt_retval = thr.kt_retval;
  kt_proc = 0;
  kt_saved_ipl = none;
}

-- The context of a new thread, with what is at its stack pointer.
pub record Context (Regs : Type 0) : Type 0 where
  pub c_eip : ℕ
  pub c_pdptr : ℕ
  pub c_esp : ℕ
  pub on_stack : Regs

-- NFILES, DEFAULT_STACK_SIZE and sizeof(regs_t), the address of `userland_entry`, and regs->r_eax = n.
pub record Platform : Type 1 where
  pub Regs : Type 0
  pub nfiles : ℕ
  pub default_stack_size : ℕ
  pub regs_size : ℕ
  pub userland_entry : ℕ
  pub set_eax : ℕ → Regs → Regs

abbrev pub is_running : ProcState → Bool
is_running running = true
is_running dead = false

module _ (mm : MmobjOps) where
  open mm use {
    Store, shadow_create, ref, set_shadowed, set_bottom, un_bottom_obj, bottom_vmas_insert_tail,
  }

  -- A new shadow object over `old`.
  pub shadow_over : ℕ → Store → ℕ × Store
  shadow_over old st =
      let (o, st1) = shadow_create st in
      let st2 = set_shadowed o old st1 in (o, set_bottom o (un_bottom_obj old st2) st2)

  -- The objects of the parent's area and of the clone's, where `old` is the former; true for a private
  -- area.
  pub fork_object : Bool → ℕ → List Vmarea → Vmarea → Store → List Vmarea × Vmarea × Store
  unfolding shadow_over set_area_obj
  fork_object true old parent clone_vma st =
      let (to_delete, st1) = shadow_over old (ref old st) in
      let (new_shadowed, st2) = shadow_over old st1 in
      (
        set_area_obj clone_vma.vma_start to_delete parent,
        record clone_vma { vma_obj = some new_shadowed },
        bottom_vmas_insert_tail to_delete clone_vma.vma_addr st2,
      )
  fork_object false old parent clone_vma st = (
    parent,
    record clone_vma { vma_obj = some old },
    bottom_vmas_insert_tail old clone_vma.vma_addr (ref old st),
  )

  -- One round of the loop over the areas of the clone: the areas of the parent, and the area.
  pub fork_area : List Vmarea → Vmarea → Store → Exec (List Vmarea × Vmarea × Store)
  unfolding fork_object
  fork_area parent clone_vma st = deref (lookup_area clone_vma.vma_start parent) >>= λ vma.
      deref vma.vma_obj >>= λ old.
      ok (fork_object clone_vma.vma_flags.private old parent clone_vma st)

  pub fork_areas : List Vmarea → List Vmarea → Store → Exec (List Vmarea × List Vmarea × Store)
  unfolding fork_area
  fork_areas parent [] st = ok (parent, [], st)
  fork_areas parent (clone_vma ∷ rest) st = fork_area parent clone_vma st >>= λ r.
      fork_areas r.0 rest r.2 >>= λ t. ok (t.0, r.1 ∷ t.1, t.2)

module _ (mm : MmobjOps) (pl : Platform) (l : Layout) where
  open mm use {Store, pt_unmap_range, tlb_flush_all}
  open pl use {Regs, nfiles, default_stack_size, regs_size, userland_entry, set_eax}

  -- The processes with their address spaces, files, breaks and page directories, by their addresses,
  -- the reference counts of files, the contexts of threads, and the memory objects.
  pub record Machine : Type 0 where
    pub system : System
    pub p_vmmap : ℕ → Vmmap
    pub p_files : ℕ → ℕ → Option ℕ
    pub p_start_brk : ℕ → ℕ
    pub p_brk : ℕ → ℕ
    pub p_pagedir : ℕ → ℕ
    pub f_refcount : ℕ → ℕ
    pub kt_ctx : ℕ → Context Regs
    pub store : Store

  -- The loop over the files with `n` descriptors left, from `fd` on: copies, with a reference more.
  pub fork_files : ℕ → ℕ → ℕ → ℕ → Machine → Machine
  fork_files parent child zero fd s = s
  fork_files parent child (suc n) fd s =
      let file = s.p_files parent fd in
      let s1 : Machine = record s {
        p_files = update s.p_files child (update (s.p_files child) fd file);
        f_refcount = elim file [
          | none ↦ s.f_refcount
          | some f ↦ update s.f_refcount f (s.f_refcount f + 1)
        ];
      } in
      fork_files parent child n (fd + 1) s1

  -- fork_setup_stack
  pub fork_setup_stack : ℕ → ℕ
  fork_setup_stack kstack = kstack + default_stack_size - (regs_size + 12)

  -- The new process is at address `p`, with its wait queue at `wait`, its map at `map`, and its thread
  -- at `t` with the stack at `kstack`. The result is its number, as in r_eax.
  pub do_fork : ℕ → ℕ → ℕ → ℕ → ℕ → Regs → Machine → Exec (ℕ × Regs × Machine)
  unfolding fork_areas fork_files fork_setup_stack kthread_clone
  do_fork p wait map t kstack regs s = do
    let cur = s.system.kernel.curproc
    kassert (is_running (s.system.procs cur).p_state)
    sys1 ← proc_create p wait s.system
    let (clone_map, st1) = vmmap_clone mm l map (s.p_vmmap cur) s.store
    (parent_areas, clone_areas, st2) ← fork_areas mm (s.p_vmmap cur).vmm_list clone_map.vmm_list st1
    let thr = kthread_clone (sys1.kernel.threads sys1.kernel.curthr)
    let sys2 : System = record sys1 {
      kernel = set_thread t (record thr { kt_proc = p }) sys1.kernel;
    }
    let child = sys2.procs p
    let sys3 = set_proc p (record child { p_threads = child.p_threads ++ t ∷ [] }) sys2
    let maps = update s.p_vmmap cur (record (s.p_vmmap cur) { vmm_list = parent_areas })
    let s1 : Machine = record s {
      system = sys3;
      p_vmmap = update maps p (record clone_map { vmm_list = clone_areas; vmm_proc = some p });
      kt_ctx = update s.kt_ctx t (record {
        c_eip = userland_entry;
        c_pdptr = s.p_pagedir p;
        c_esp = fork_setup_stack kstack;
        on_stack = set_eax 0 regs;
      });
      store = st2;
    }
    kassert (is_running (sys3.procs p).p_state)
    kassert (not (s.p_pagedir p == 0))
    kassert (not (kstack == 0))
    let s2 = fork_files cur p nfiles 0 s1
    let s3 : Machine = record s2 {
      store = tlb_flush_all (pt_unmap_range l.user_mem_low l.user_mem_high s2.store);
      p_start_brk = update s2.p_start_brk p (s2.p_start_brk cur);
      p_brk = update s2.p_brk p (s2.p_brk cur);
    }
    k ← sched_make_runnable t s3.system.kernel
    pid ← deref (s3.system.procs p).p_pid
    ok (pid, set_eax pid regs, record s3 { system = record s3.system { kernel = k } })
