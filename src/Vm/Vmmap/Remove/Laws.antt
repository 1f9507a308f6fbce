-- ===== src/Vm/Vmmap/Remove/Laws.antt =====
-- The loop of `vmmap_remove`, and the whole of it.
use weenix_kernel_implementa.Common.{
  ℕ, ◌+◌, ◌≤◌, ◌<◌, ◌≡◌, refl, ◌&&◌, Option, none, List, [], ◌∷◌, ◌++◌, ltb, leb, if◌then◌else◌,
  u32_mod, add32, ok, All, All-append, arith,
}
use weenix_kernel_implementa.Vm.Layout.{Layout, low_page, high_page}
use weenix_kernel_implementa.Vm.Mmobj.{MmobjOps}
use weenix_kernel_implementa.Vm.Vmmap.{Vmarea, Vmmap, lookup_area, vmmap_lookup}
use weenix_kernel_implementa.Vm.Vmmap.Valid.{Ascending, IsValid}
use weenix_kernel_implementa.Vm.Vmmap.Remove.{remove_loop, vmmap_remove}
use weenix_kernel_implementa.Vm.Vmmap.Remove.Pieces.{
  View, view_of, view_areas, HasObj, remove_area-Pieces,
}

-- What the loop makes of the areas that are left.
record Unmapped (lo sum from high : ℕ) (areas areas' : List Vmarea) : Type 0 where
  views :
      (v : ℕ) → view_areas v areas' ≡ (if leb lo v && ltb v sum then none else view_areas v areas)
  ascending : Ascending from high areas'
  objects : All HasObj areas'

module _ (mm : MmobjOps) (map_addr lo sum : ℕ) (le : lo ≤ sum) (fits : sum < u32_mod) where
  remove_loop-Unmapped :
      (from high : ℕ) (areas : List Vmarea) (st : mm.Store)
      → All HasObj areas
      → Ascending from high areas
      → (areas' : List Vmarea) × (st' : mm.Store) × (remove_loop mm map_addr lo sum areas st
          ≡ ok (areas', st'))
        × Unmapped lo sum from high areas areas'
  unfolding remove_loop lookup_area
  remove_loop-Unmapped from high [] st objs v =
      ([], st, refl, record { views = λ v. ground arith; ascending = tt; objects = tt })
  remove_loop-Unmapped from high (iter ∷ rest) st objs asc =
      let (kept, st1, e, p) = remove_area-Pieces lo sum le fits iter mm map_addr st objs.0 asc.1 in
      let (rest', st2, e', u) = remove_loop-Unmapped iter.vma_end high rest st1 objs.1 asc.3 in
      (
        kept ++ rest',
        st2,
        rw (e, e') refl,
        record {
          views = λ v. ground (arith, p.views v rest', u.views v);
          ascending = p.ascending from high rest' asc.0 asc.2 u.ascending;
          objects = All-append HasObj kept rest' p.objects u.objects;
        },
      )

-- What a page of the address space maps to.
abbrev pub page_view : Vmmap → ℕ → Option View
page_view m vfn = view_of vfn (vmmap_lookup m vfn)

-- On a well-formed map whose areas have objects, and a range that ends within 32 bits,
-- `vmmap_remove` returns 0. Afterwards no page of the range is mapped, every other page maps to the
-- same page number of its object with the same protection and flags as before, the map is
-- well-formed, and its areas have objects.
pub vmmap_remove-page_view :
    (mm : MmobjOps) (l : Layout) (m : Vmmap) (lopage npages : ℕ) (st : mm.Store)
    → IsValid l m
    → All HasObj m.vmm_list
    → lopage + npages < u32_mod
    → (m' : Vmmap) × (st' : mm.Store) × (vmmap_remove mm l m lopage npages st ≡ ok (m', st'))
      × IsValid l m'
      × All HasObj m'.vmm_list
      × ((vfn : ℕ)
          → page_view m' vfn
            ≡ (if leb lopage vfn && ltb vfn (lopage + npages) then none else page_view m vfn))
unfolding vmmap_remove vmmap_lookup
vmmap_remove-page_view mm l m lopage npages st v objs fits =
    let (areas, st1, e, u) =
      remove_loop-Unmapped mm m.vmm_addr lopage (lopage + npages) (omega arith) fits (low_page l)
        (high_page l) m.vmm_list st objs v.ascending in
    let small : add32 lopage npages ≡ lopage + npages = omega arith in
    (
      record m { vmm_list = areas },
      mm.pt_unmap_range (l.pn_to_addr lopage) (l.pn_to_addr (lopage + npages))
          (mm.tlb_flush_all st1),
      rw (small, e) refl,
      record { ascending = u.ascending },
      u.objects,
      u.views,
    )
