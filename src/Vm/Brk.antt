-- ===== src/Vm/Brk.antt =====
-- `do_brk` of K3/brk.c over the parts of a process that it reads and writes.
pub mod Laws
use weenix_kernel_implementa.Common.{
  ℕ, ◌+◌, ◌-◌, ◌/◌, Bool, true, false, ◌&&◌, Option, none, some, List, [], ◌∷◌, ltb, leb, ◌==◌,
  if◌then◌else◌, sub32, Exec, ok, ◌>>=◌, deref,
}
use weenix_kernel_implementa.Vm.Layout.{Layout}
use weenix_kernel_implementa.Vm.Mmobj.{MmobjOps}
use weenix_kernel_implementa.Vm.Vmmap.{Vmarea, Vmmap, vmmap_lookup, vmmap_is_range_empty}
use weenix_kernel_implementa.Vm.Vmmap.Remove.{vmmap_remove}

pub record Proc : Type 0 where
  pub p_start_brk : ℕ
  pub p_brk : ℕ
  pub p_vmmap : Vmmap

-- A return of 0, with what was written to `*ret` (`none` if nothing was), or of -ENOMEM.
pub data BrkResult : Type 0 where
  success : Option ℕ → BrkResult
  enomem : BrkResult

-- ((uint32_t)a-1)/PAGE_SIZE+1
unfoldable pub brk_page : Layout → ℕ → ℕ
brk_page l a = sub32 a 1 / l.page_size + 1

-- area->vma_end = end, where `area` is the one that `vmmap_lookup` found for `vfn`.
pub set_end : ℕ → ℕ → List Vmarea → List Vmarea
set_end vfn end [] = []
set_end vfn end (a ∷ rest) =
    if leb a.vma_start vfn && ltb vfn a.vma_end
    then record a { vma_end = end } ∷ rest
    else a ∷ set_end vfn end rest

module _ (mm : MmobjOps) (l : Layout) where
  pub shrink_brk : Proc → ℕ → ℕ → ℕ → mm.Store → Exec (BrkResult × Proc × mm.Store)
  shrink_brk p addr begin end st = do
    (m', st') ← vmmap_remove mm l p.p_vmmap end (begin - end) st
    ok (success (some addr), record p { p_vmmap = m'; p_brk = addr }, st')

  pub grow_brk : Proc → ℕ → ℕ → ℕ → mm.Store → Exec (BrkResult × Proc × mm.Store)
  unfolding set_end
  grow_brk p addr begin end st = do
    let area = vmmap_lookup p.p_vmmap (begin - 1)
    check ← vmmap_is_range_empty l p.p_vmmap begin (end - begin)
    if check
        then (do
          _ ← deref area
          let m' = record p.p_vmmap { vmm_list = set_end (begin - 1) end p.p_vmmap.vmm_list }
          ok (success (some addr), record p { p_vmmap = m'; p_brk = addr }, st))
        else ok (enomem, p, st)

  pub do_brk : Proc → ℕ → mm.Store → Exec (BrkResult × Proc × mm.Store)
  unfolding brk_page shrink_brk grow_brk
  do_brk p addr st =
      let begin = brk_page l p.p_brk in
      let end = brk_page l addr in
      if addr == 0
      then ok (success (some p.p_brk), p, st)
      else if ltb l.user_mem_high addr
      then ok (enomem, p, st)
      else if ltb addr p.p_start_brk
      then ok (enomem, p, st)
      else if begin == end
      then ok (success none, p, st)
      else if ltb end begin
      then shrink_brk p addr begin end st
      else grow_brk p addr begin end st
