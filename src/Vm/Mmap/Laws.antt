-- ===== src/Vm/Mmap/Laws.antt =====
-- `do_munmap` on a range of user memory.
use weenix_kernel_implementa.Common.{
  ℕ, ◌+◌, ◌≤◌, ◌<◌, ◌≡◌, refl, false, ◌&&◌, ◌||◌, none, ltb, leb, if◌then◌else◌, add32, u32_mod, ok,
  All, arith,
}
use weenix_kernel_implementa.Vm.Layout.{Layout, Fills, sub32-Fills}
use weenix_kernel_implementa.Vm.Mmobj.{MmobjOps}
use weenix_kernel_implementa.Vm.Vmmap.{Vmmap}
use weenix_kernel_implementa.Vm.Vmmap.Valid.{IsValid}
use weenix_kernel_implementa.Vm.Vmmap.Remove.Pieces.{HasObj}
use weenix_kernel_implementa.Vm.Vmmap.Remove.Laws.{page_view, vmmap_remove-page_view}
use weenix_kernel_implementa.Vm.Mmap.{page_count, bad_length, do_munmap}

-- On a well-formed map whose areas have objects, a non-empty range of user memory whose bytes `n`
-- pages hold and `n - 1` pages do not, with page numbers within 32 bits: `do_munmap` returns 0;
-- exactly the `n` pages from ADDR_TO_PN(addr) on are unmapped, and all others are kept.
pub do_munmap_lem :
    (mm : MmobjOps) (l : Layout) (m : Vmmap) (addr len n : ℕ) (st : mm.Store)
    → IsValid l m
    → All HasObj m.vmm_list
    → l.user_mem_high < u32_mod
    → 0 < len
    → l.user_mem_low ≤ addr
    → addr + len ≤ l.user_mem_high
    → Fills l len n
    → l.addr_to_pn addr + n < u32_mod
    → (m' : Vmmap) × (st' : mm.Store) × (do_munmap mm l m addr len st ≡ ok (none, m', st'))
      × IsValid l m'
      × All HasObj m'.vmm_list
      × ((vfn : ℕ)
          → page_view m' vfn ≡ (
              if leb (l.addr_to_pn addr) vfn && ltb vfn (l.addr_to_pn addr + n)
              then none
              else page_view m vfn))
unfolding do_munmap bad_length page_count
do_munmap_lem mm l m addr len n st v objs fits pos lo hi filled pages =
    let count : page_count l len ≡ n = sub32-Fills l len n pos (omega arith) filled in
    let (m', st', e, v', objs', views) =
      vmmap_remove-page_view mm l m (l.addr_to_pn addr) n st v objs pages in
    let fine : (bad_length l len
          || (ltb l.user_mem_high (add32 addr len) || ltb addr l.user_mem_low))
        ≡ false =
      ground arith in
    (m', mm.tlb_flush_all st', rw (fine, count, e) refl, v', objs', views)
