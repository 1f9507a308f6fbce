-- ===== src/Vm/Vmmap/Map.antt =====
-- `vmmap_map` and `vmmap_clone` of K3/vmmap.c.
pub mod Area
pub mod Laws
use weenix_kernel_implementa.Common.{
  ℕ, ◌+◌, Bool, true, false, ◌||◌, ◌&&◌, Option, none, some, List, [], ◌∷◌, ltb, leb, ◌==◌,
  if◌then◌else◌, add32, Exec, ok, ◌>>=◌, ◌>>◌, kassert, deref,
}
use weenix_kernel_implementa.Vm.Layout.{Layout, Prot, MapFlags, low_page, high_page}
use weenix_kernel_implementa.Vm.Mmobj.{MmobjOps}
use weenix_kernel_implementa.Vm.Vmmap.{
  Vmarea, Vmmap, Dir, vmmap_create, vmmap_insert, vmmap_is_range_empty, vmmap_find_range,
}
use weenix_kernel_implementa.Vm.Vmmap.Remove.{vmmap_remove}

module _ (mm : MmobjOps) (l : Layout) where
  open mm use {
    Store, vmarea_alloc, shadow_create, anon_create, set_shadowed, set_bottom, vmas_insert_head,
  }

  -- file->vn_ops->mmap(file, area, &obj): the object, NULL if it set none. Its return code is not
  -- looked at.
  abbrev pub Mmap : Type 0
  Mmap = Vmarea → Store → Option ℕ × Store

  -- The pages that the mapping gets, after what was there is unmapped; `none` if there are none.
  pub map_place : Vmmap → ℕ → ℕ → Dir → Store → Exec (Option (ℕ × Vmmap × Store))
  map_place m lopage npages dir st =
      if lopage == 0
      then (do
        result ← vmmap_find_range l m npages dir
        elim result [ none ↦ ok none | some p ↦ ok (some (p, m, st)) ])
      else (do
        empty ← vmmap_is_range_empty l m lopage npages
        (m', st') ← (if empty then ok (m, st) else vmmap_remove mm l m lopage npages st)
        ok (some (lopage, m', st')))

  -- The object of the file, or a new anonymous one.
  unfoldable pub map_object : Option Mmap → Vmarea → Store → Option ℕ × Store
  map_object none area st = let (o, st') = anon_create st in (some o, st')
  map_object (some mmap) area st = mmap area st

  -- `obj` itself for a shared mapping; for a private one a shadow object over it.
  pub attach_object : Vmarea → ℕ → Store → Vmarea × Store
  attach_object area obj st =
      if area.vma_flags.private
      then (let (shad_obj, st1) = shadow_create st in
          let st2 = set_bottom shad_obj obj (set_shadowed shad_obj obj st1) in
          (record area { vma_obj = some shad_obj }, vmas_insert_head obj area.vma_addr st2))
      else (record area { vma_obj = some obj }, vmas_insert_head obj area.vma_addr st)

  -- The fields of the new area but its object.
  abbrev pub new_area : ℕ → ℕ → ℕ → Prot → MapFlags → ℕ → Vmarea
  new_area addr p npages prot flags off = record {
    vma_addr = addr;
    vma_start = p;
    vma_end = add32 p npages;
    vma_off = l.addr_to_pn off;
    vma_prot = prot;
    vma_flags = flags;
    vma_vmmap = none;
    vma_obj = none;
  }

  pub map_area :
      ℕ → Option Mmap → ℕ → Prot → MapFlags → ℕ → ℕ × Vmmap × Store → Exec (Vmarea × Vmmap × Store)
  unfolding map_object attach_object
  map_area addr file npages prot flags off (p, m, st) = do
    let area = new_area addr p npages prot flags off
    let (made, st1) = map_object file area st
    obj ← deref made
    let (area', st2) = attach_object area obj st1
    m' ← vmmap_insert l m area'
    ok (record area' { vma_vmmap = some m.vmm_addr }, m', st2)

  -- `none` for a return of -1; otherwise 0, with the new area in `*new`.
  pub vmmap_map :
      Vmmap
      → Option Mmap
      → ℕ
      → ℕ
      → Prot
      → MapFlags
      → ℕ
      → Dir
      → Store
      → Exec (Option Vmarea × Vmmap × Store)
  unfolding map_place map_area
  vmmap_map m file lopage npages prot flags off dir st = do
    kassert (ltb 0 npages)
    kassert (flags.shared || flags.private)
    kassert (lopage == 0 || leb (low_page l) lopage)
    kassert (lopage == 0 || leb (add32 lopage npages) (high_page l))
    kassert (l.page_aligned off)
    let (addr, st0) = vmarea_alloc st
    place ← map_place m lopage npages dir st0
    elim place [
      | none ↦ ok (none, m, st0)
      | some at ↦ do
        (area, m', st') ← map_area addr file npages prot flags off at
        ok (some area, m', st')
    ]

  -- The loop of `vmmap_clone`: the objects are left for `do_fork` to set.
  unfoldable pub clone_areas : ℕ → List Vmarea → Store → List Vmarea × Store
  clone_areas map_addr [] st = ([], st)
  clone_areas map_addr (iter ∷ rest) st =
      let (addr, st1) = vmarea_alloc st in
      let (rest', st2) = clone_areas map_addr rest st1 in
      (record iter { vma_addr = addr; vma_vmmap = some map_addr; vma_obj = none } ∷ rest', st2)

  unfoldable pub vmmap_clone : ℕ → Vmmap → Store → Vmmap × Store
  unfolding clone_areas
  vmmap_clone map_addr m st =
      let (areas, st') = clone_areas map_addr m.vmm_list st in
      (record (vmmap_create map_addr) { vmm_list = areas }, st')
