-- ===== src/Vm/Vmmap/Remove.antt =====
-- `vmmap_remove` and `vmmap_destroy` of K3/vmmap.c, over any implementation of the memory objects.
pub mod Pieces
pub mod Laws
use weenix_kernel_implementa.Common.{
  ℕ, ◌&&◌, some, List, [], ◌∷◌, ◌++◌, ltb, leb, if◌then◌else◌, add32, sub32, Exec, ok, ◌>>=◌, deref,
}
use weenix_kernel_implementa.Vm.Layout.{Layout}
use weenix_kernel_implementa.Vm.Mmobj.{MmobjOps}
use weenix_kernel_implementa.Vm.Vmmap.{Vmarea, Vmmap}

module _ (mm : MmobjOps) where
  open mm use {
    Store, vmarea_alloc, shadow_create, ref, put, set_shadowed, set_bottom, bottom_obj,
    bottom_vmas_insert_tail, vmas_remove, pt_unmap_range, tlb_flush_all,
  }

  -- Case 1: both halves get a shadow object of their own over the old object. At the call of
  -- `mmobj_bottom_obj` the first shadow object does not shadow anything yet.
  pub split_area : ℕ → ℕ → ℕ → Vmarea → ℕ → Store → List Vmarea × Store
  split_area map_addr lopage sum_pages iter object st =
      let (addr, st1) = vmarea_alloc st in
      let (first_shad, st2) = shadow_create st1 in
      let (second_shad, st3) = shadow_create st2 in
      let bottom = bottom_obj first_shad st3 in
      let st4 = set_bottom first_shad bottom (set_bottom second_shad bottom st3) in
      let st5 = set_shadowed second_shad object (set_shadowed first_shad object st4) in
      let area : Vmarea = record {
        vma_addr = addr;
        vma_start = sum_pages;
        vma_end = iter.vma_end;
        vma_off = sub32 (add32 iter.vma_off sum_pages) iter.vma_start;
        vma_prot = iter.vma_prot;
        vma_flags = iter.vma_flags;
        vma_vmmap = some map_addr;
        vma_obj = some second_shad;
      } in
      (
        record iter { vma_end = lopage; vma_obj = some first_shad } ∷ area ∷ [],
        bottom_vmas_insert_tail object addr (ref object st5),
      )

  -- Case 4: the area goes, and its reference to the object with it.
  pub drop_area : Vmarea → ℕ → Store → List Vmarea × Store
  drop_area iter object st = ([], put object (vmas_remove iter.vma_addr st))

  -- The body of the loop: the areas that stand in place of `iter` afterwards.
  pub remove_area : ℕ → ℕ → ℕ → Vmarea → Store → Exec (List Vmarea × Store)
  unfolding split_area drop_area
  remove_area map_addr lopage sum_pages iter st =
      if ltb iter.vma_start lopage
      then (if ltb sum_pages iter.vma_end
          then (do
            object ← deref iter.vma_obj
            ok (split_area map_addr lopage sum_pages iter object st))
          else if ltb lopage iter.vma_end && leb iter.vma_end sum_pages
          then ok (record iter { vma_end = lopage } ∷ [], st)
          else ok (iter ∷ [], st))
      else if leb iter.vma_end sum_pages
      then (do object ← deref iter.vma_obj; ok (drop_area iter object st))
      else if ltb sum_pages iter.vma_end && ltb iter.vma_start sum_pages
      then ok (
        record iter {
          vma_off = sub32 (add32 iter.vma_off sum_pages) iter.vma_start;
          vma_start = sum_pages;
        }
            ∷ [],
        st,
      )
      else ok (iter ∷ [], st)

  pub remove_loop : ℕ → ℕ → ℕ → List Vmarea → Store → Exec (List Vmarea × Store)
  remove_loop map_addr lopage sum_pages [] st = ok ([], st)
  remove_loop map_addr lopage sum_pages (iter ∷ rest) st = do
    (kept, st1) ← remove_area map_addr lopage sum_pages iter st
    (rest', st2) ← remove_loop map_addr lopage sum_pages rest st1
    ok (kept ++ rest', st2)

  -- It always returns 0.
  pub vmmap_remove : Layout → Vmmap → ℕ → ℕ → Store → Exec (Vmmap × Store)
  unfolding remove_area remove_loop
  vmmap_remove l m lopage npages st = do
    let sum_pages = add32 lopage npages
    (areas, st1) ← remove_loop m.vmm_addr lopage sum_pages m.vmm_list st
    ok (
      record m { vmm_list = areas },
      pt_unmap_range (l.pn_to_addr lopage) (l.pn_to_addr sum_pages) (tlb_flush_all st1),
    )

  -- The loop of `vmmap_destroy`; the map and its areas are freed.
  pub destroy_loop : List Vmarea → Store → Exec Store
  destroy_loop [] st = ok st
  destroy_loop (iter ∷ rest) st = do
    object ← deref iter.vma_obj
    destroy_loop rest (put object (vmas_remove iter.vma_addr st))

  pub vmmap_destroy : Vmmap → Store → Exec Store
  unfolding destroy_loop
  vmmap_destroy m st = destroy_loop m.vmm_list st
