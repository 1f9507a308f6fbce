-- ===== src/Vm/Access.antt =====
-- `addr_perm` and `range_perm` of K3/access.c, over the address space of a process.
pub mod Laws
use weenix_kernel_implementa.Common.{
  ℕ, zero, suc, ◌+◌, Bool, true, false, ◌&&◌, ◌||◌, Option, none, some, ltb, if◌then◌else◌, add32,
}
use weenix_kernel_implementa.Vm.Layout.{Layout, Prot}
use weenix_kernel_implementa.Vm.Vmmap.{Vmarea, Vmmap, vmmap_lookup}

-- Some permission that is asked for is granted.
pub prot_meets : Prot → Prot → Bool
prot_meets perm prot = perm.read && prot.read || perm.write && prot.write || perm.exec && prot.exec

area_perm : Option Vmarea → Prot → Bool
unfolding prot_meets
area_perm none perm = false
area_perm (some vma) perm = prot_meets perm vma.vma_prot

pub addr_perm : Layout → Vmmap → ℕ → Prot → Bool
unfolding area_perm
addr_perm l m vaddr perm = area_perm (vmmap_lookup m (l.addr_to_pn vaddr)) perm

-- The loop of `range_perm`, with fuel: addresses of 32 bits wrap around. `none` if it ran out.
pub range_perm_loop : Layout → Vmmap → Prot → ℕ → ℕ → ℕ → Option Bool
unfolding addr_perm
range_perm_loop l m perm zero addr end = none
range_perm_loop l m perm (suc fuel) addr end =
    let rest = range_perm_loop l m perm fuel (add32 addr l.page_size) end in
    if ltb addr end then (if addr_perm l m addr perm then rest else some false) else some true

pub range_perm : Layout → Vmmap → ℕ → ℕ → ℕ → Prot → Option Bool
unfolding range_perm_loop
range_perm l m fuel avaddr len perm = range_perm_loop l m perm fuel avaddr (add32 avaddr len)
