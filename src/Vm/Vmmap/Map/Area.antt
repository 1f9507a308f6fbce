-- ===== src/Vm/Vmmap/Map/Area.antt =====
-- The new area of `vmmap_map`, once its place is known.
use weenix_kernel_implementa.Common.{
  ℕ, ◌+◌, ◌-◌, ◌≤◌, ◌<◌, ◌≡◌, sym, subst, inl, inr, refl, true, ◌&&◌, Option, none, some, List, [],
  ◌∷◌, ltb, leb, if◌then◌else◌, add32, sub32, ok, All, arith, Bool-cases,
}
use weenix_kernel_implementa.Vm.Layout.{Layout, Prot, MapFlags, low_page, high_page}
use weenix_kernel_implementa.Vm.Mmobj.{MmobjOps}
use weenix_kernel_implementa.Vm.Vmmap.{
  Vmarea, Vmmap, insert_area, lookup_area, vmmap_lookup, vmmap_insert, obj_page, range_empty_loop,
}
use weenix_kernel_implementa.Vm.Vmmap.Valid.{IsLayout, IsValid, IsFree}
use weenix_kernel_implementa.Vm.Vmmap.Insert.{
  vmmap_insert-ok, insert_area-Ascending, lookup_area-insert_area, owned_by,
  range_empty_loop-IsFree, range_empty_loop-Occupied,
}
use weenix_kernel_implementa.Vm.Vmmap.Remove.Pieces.{View, HasObj}
use weenix_kernel_implementa.Vm.Vmmap.Remove.Laws.{page_view}
use weenix_kernel_implementa.Vm.Vmmap.Map.{Mmap, new_area, map_object, attach_object, map_area}

insert_area-HasObj :
    (new : Vmarea) (areas : List Vmarea)
    → HasObj new
    → All HasObj areas
    → All HasObj (insert_area new areas)
unfolding insert_area
insert_area-HasObj new [] h hs = (h, tt)
insert_area-HasObj new (a ∷ rest) h hs = elim (Bool-cases (leb new.vma_start a.vma_start)) [
  | inl e ↦ rw e (h, hs)
  | inr e ↦ rw e (hs.0, insert_area-HasObj new rest h hs.1)
]

-- The view that a mapping of object pages from `first` on gives to the pages from `p` on.
abbrev pub mapped_view : ℕ → ℕ → Prot → MapFlags → ℕ → View
mapped_view p first prot flags v = record {
  page = add32 (sub32 v p) first;
  prot = prot;
  flags = flags;
}

-- No page of the range is mapped, so no area reaches into it.
pub IsFree-of-views :
    (l : Layout) (m : Vmmap) (p n : ℕ)
    → IsValid l m
    → 0 < n
    → ((v : ℕ) → (leb p v && ltb v (p + n)) ≡ true → page_view m v ≡ none)
    → IsFree p n m.vmm_list
unfolding vmmap_lookup
IsFree-of-views l m p n v pos unmapped = elim (Bool-cases (range_empty_loop p (p + n) m.vmm_list)) [
  | inl e ↦ (range_empty_loop-IsFree p n m.vmm_list).0 e
  | inr e ↦
      let (vfn, lo, hi, a, found) =
        range_empty_loop-Occupied p n (low_page l) (high_page l) m.vmm_list pos v.ascending e in
      absurd (ground (arith, unmapped vfn, found))
]

-- What `map_area` leaves at a free place where the mapping has an object.
pub record Mapped (l : Layout) (m m' : Vmmap) (p npages first : ℕ) (prot : Prot) (flags : MapFlags)
    (area : Vmarea) : Type 0 where
  pub starts : area.vma_start ≡ p
  pub ends : area.vma_end ≡ p + npages
  pub valid : IsValid l m'
  pub objects : All HasObj m'.vmm_list
  pub views :
      (v : ℕ)
      → page_view m' v ≡ (
          if leb p v && ltb v (p + npages)
          then some (mapped_view p first prot flags v)
          else page_view m v)

-- Inserting an area with an object at a free place of `n` pages.
pub vmmap_insert-Mapped :
    (l : Layout) (m : Vmmap) (new : Vmarea) (p n : ℕ)
    → new.vma_start ≡ p
    → new.vma_end ≡ p + n
    → new.vma_vmmap ≡ none
    → HasObj new
    → IsValid l m
    → All HasObj m.vmm_list
    → 0 < n
    → low_page l ≤ p
    → p + n ≤ high_page l
    → IsFree p n m.vmm_list
    → (m' : Vmmap) × (vmmap_insert l m new ≡ ok m')
      × Mapped l m m' p n new.vma_off new.vma_prot new.vma_flags (owned_by m new)
unfolding vmmap_lookup lookup_area obj_page
vmmap_insert-Mapped l m new p n es ee unowned obj v objs pos lo hi free =
    let free' : IsFree new.vma_start (new.vma_end - new.vma_start) m.vmm_list =
      subst (λ k. IsFree new.vma_start k m.vmm_list) (omega arith)
        (subst (λ k. IsFree k n m.vmm_list) (sym es) free) in
    (
      record m { vmm_list = insert_area (owned_by m new) m.vmm_list },
      vmmap_insert-ok l m new unowned (omega arith) (omega arith) (omega arith),
      record {
        starts = es;
        ends = ee;
        valid = record {
          ascending =
              insert_area-Ascending (low_page l) (high_page l) (owned_by m new) m.vmm_list
                (omega arith) (omega arith) (omega arith) free' v.ascending;
        };
        objects = insert_area-HasObj (owned_by m new) m.vmm_list obj objs;
        views = λ w.
            ground
              (arith, lookup_area-insert_area w (owned_by m new) m.vmm_list (omega arith) free');
      },
    )

module _ (mm : MmobjOps) (l : Layout) where
  attach_object-obj :
      (area : Vmarea) (o : ℕ) (st : mm.Store)
      → (s : ℕ) × (st' : mm.Store) × (attach_object mm l area o st
          ≡ (record area { vma_obj = some s }, st'))
  unfolding attach_object
  attach_object-obj area o st = elim (Bool-cases area.vma_flags.private) [
    | inl e ↦
        let (shad, st1) = mm.shadow_create st in
        (
          shad,
          mm.vmas_insert_head o area.vma_addr (mm.set_bottom shad o (mm.set_shadowed shad o st1)),
          rw e refl,
        )
    | inr e ↦ (o, mm.vmas_insert_head o area.vma_addr st, rw e refl)
  ]

  pub map_area-Mapped :
      (addr : ℕ) (file : Option (Mmap mm l)) (p npages : ℕ) (prot : Prot) (flags : MapFlags)
      (off : ℕ) (m : Vmmap) (st : mm.Store)
      → IsLayout l
      → IsValid l m
      → All HasObj m.vmm_list
      → 0 < npages
      → low_page l ≤ p
      → p + npages ≤ high_page l
      → IsFree p npages m.vmm_list
      → ((a : Vmarea) → (o : ℕ) × ((map_object mm l file a st).0 ≡ some o))
      → (area : Vmarea) × (m' : Vmmap) × (st' : mm.Store) × (map_area mm l addr file npages prot
            flags off
            (p, m, st)
          ≡ ok (area, m', st'))
        × Mapped l m m' p npages (l.addr_to_pn off) prot flags area
  unfolding map_area
  map_area-Mapped addr file p npages prot flags off m st il v objs pos lo hi free made =
      let area = new_area mm l addr p npages prot flags off in
      let (o, eo) = made area in
      let (s, st2, ea) = attach_object-obj area o (map_object mm l file area st).1 in
      let (m', e, mapped) =
        vmmap_insert-Mapped l m (record area { vma_obj = some s }) p npages refl
          (omega (arith, il.bounded)) refl (s, refl) v objs pos lo hi free in
      (owned_by m (record area { vma_obj = some s }), m', st2, rw (eo, ea, e) refl, mapped)
