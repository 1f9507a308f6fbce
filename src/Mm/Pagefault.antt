-- ===== src/Mm/Pagefault.antt =====
-- K3/pagefault.c: the address space, the lookup of pages and the page table meet here. do_exit ends
-- the process, so that nothing of the call follows it.
pub mod Laws
use weenix_kernel_implementa.Common.{
  ℕ, Bool, true, false, not, ◌&&◌, ◌||◌, Option, none, some, if◌then◌else◌, add32, sub32, Exec, ok,
  ◌>>=◌, deref,
}
use weenix_kernel_implementa.Vm.Layout.{Layout, Prot}
use weenix_kernel_implementa.Vm.Vmmap.{Vmarea, Vmmap, vmmap_lookup}
use weenix_kernel_implementa.Mm.Frames.{Memory, with_env, pframe_pin, pframe_unpin}
use weenix_kernel_implementa.Mm.Lookup.{MmEnv, PageResult, page, fault, waits, Free, pframe_lookup}
use weenix_kernel_implementa.Mm.Put.{pframe_dirty}

-- FAULT_WRITE and FAULT_EXEC of the cause.
pub record Cause : Type 0 where
  pub write : Bool
  pub exec : Bool

-- PAGE_ALIGN_DOWN; `pt_map` of a page to a frame, with PD_WRITE and PT_WRITE or without, in the page
-- directory of the process; and `tlb_flush` of an address.
pub record PageTable (Env : Type 0) : Type 0 where
  pub page_align_down : ℕ → ℕ
  pub pt_map : ℕ → ℕ → Bool → Env → Env
  pub tlb_flush : ℕ → Env → Env

-- The process was ended with EFAULT, the page was mapped, or the call sleeps in a lookup.
pub data Outcome (Env : Type 0) : Type 0 where
  killed : Memory Env → Outcome Env
  mapped : ℕ → Memory Env → Outcome Env
  asleep : ℕ → Memory Env → Outcome Env

-- The area does not permit the access.
pub refused : Prot → Cause → Bool
refused prot cause =
    not prot.write && cause.write || not prot.read && (not cause.exec && not cause.write)

module _ (mm : MmEnv) (pt : PageTable mm.Env) where
  -- A frame that is written to is dirtied while it is pinned.
  pub prepare : Bool → ℕ → Memory mm.Env → Exec (Memory mm.Env)
  prepare forwrite f s = elim forwrite [
    | false ↦ ok s
    | true ↦ pframe_pin f s >>= λ s1. pframe_dirty mm f s1 >>= λ r. pframe_unpin f r.1
  ]

  pub map_found : ℕ → Bool → PageResult × Memory mm.Env → Exec (Outcome mm.Env)
  unfolding prepare
  map_found vaddr forwrite (page f, s) =
      let base = pt.page_align_down vaddr in
      prepare forwrite f s >>= λ s1.
      ok (mapped f (with_env (λ e. pt.tlb_flush base (pt.pt_map base f forwrite e)) s1))
  map_found vaddr forwrite (fault, s) = ok (killed s)
  map_found vaddr forwrite (waits f, s) = ok (asleep f s)

  -- `fuel` bounds the depth of `pframe_lookup`, `free` is `pframe_free`.
  pub fault_in : Free mm → ℕ → ℕ → ℕ → Cause → Vmarea → Memory mm.Env → Exec (Outcome mm.Env)
  unfolding map_found
  fault_in free fuel pn vaddr cause vma s = deref vma.vma_obj >>= λ o.
      pframe_lookup mm free fuel o (add32 (sub32 pn vma.vma_start) vma.vma_off) cause.write s
      >>= map_found vaddr cause.write

  pub fault_area :
      Free mm → ℕ → ℕ → ℕ → Cause → Option Vmarea → Memory mm.Env → Exec (Outcome mm.Env)
  unfolding fault_in refused
  fault_area free fuel pn vaddr cause none s = ok (killed s)
  fault_area free fuel pn vaddr cause (some vma) s = elim (refused vma.vma_prot cause) [
    | true ↦ ok (killed s)
    | false ↦ fault_in free fuel pn vaddr cause vma s
  ]

  pub handle_pagefault :
      Layout → Free mm → ℕ → Vmmap → ℕ → Cause → Memory mm.Env → Exec (Outcome mm.Env)
  unfolding fault_area
  handle_pagefault l free fuel map vaddr cause s =
      let pn = l.addr_to_pn vaddr in fault_area free fuel pn vaddr cause (vmmap_lookup map pn) s
