-- ===== src/Vm/Vmmap/Map/Laws.antt =====
-- `vmmap_map` as a whole: at a given place, and at a place that it finds.
use weenix_kernel_implementa.Common.{
  ℕ, ◌+◌, ◌≤◌, ◌<◌, ◌≡◌, ◌≢◌, sym, subst, inl, inr, refl, true, false, ◌&&◌, ◌||◌, Option, none,
  some, [], ltb, leb, ◌==◌, add32, ok, All, arith, Bool-cases,
}
use weenix_kernel_implementa.Vm.Layout.{Layout, Prot, MapFlags, low_page, high_page}
use weenix_kernel_implementa.Vm.Mmobj.{MmobjOps}
use weenix_kernel_implementa.Vm.Vmmap.{Vmarea, Vmmap, Dir, hilo, vmmap_find_range}
use weenix_kernel_implementa.Vm.Vmmap.Valid.{IsLayout, IsValid, IsFree}
use weenix_kernel_implementa.Vm.Vmmap.Insert.{vmmap_is_range_empty_lem}
use weenix_kernel_implementa.Vm.Vmmap.FindRange.{IsHighest, Fits, vmmap_find_range-IsHighest}
use weenix_kernel_implementa.Vm.Vmmap.Remove.Pieces.{HasObj}
use weenix_kernel_implementa.Vm.Vmmap.Remove.Laws.{page_view, vmmap_remove-page_view}
use weenix_kernel_implementa.Vm.Vmmap.Map.{Mmap, map_object, map_place, vmmap_map}
use weenix_kernel_implementa.Vm.Vmmap.Map.Area.{IsFree-of-views, Mapped, map_area-Mapped}

module _ (mm : MmobjOps) (l : Layout) (m : Vmmap) (npages : ℕ) (il : IsLayout l) (v : IsValid l m)
    (objs : All HasObj m.vmm_list) (pos : 0 < npages) where
  -- The range that the caller asked for is free afterwards, and the rest is as it was.
  map_place-fixed :
      (lopage : ℕ) (dir : Dir) (st : mm.Store)
      → lopage ≢ 0
      → low_page l ≤ lopage
      → lopage + npages ≤ high_page l
      → (m1 : Vmmap) × (st1 : mm.Store) × (map_place mm l m lopage npages dir st
          ≡ ok (some (lopage, m1, st1)))
        × IsValid l m1
        × All HasObj m1.vmm_list
        × IsFree lopage npages m1.vmm_list
        × ((w : ℕ)
            → (leb lopage w && ltb w (lopage + npages)) ≡ false
            → page_view m1 w ≡ page_view m w)
  unfolding map_place
  map_place-fixed lopage dir st ne lo hi =
      let given : (lopage == 0) ≡ false = ground arith in
      let (b, e, unmapped, _) = vmmap_is_range_empty_lem l m lopage npages il v pos lo hi in
      elim (Bool-cases b) [
        | inl yes_empty ↦ (
          m,
          st,
          rw (given, e, yes_empty) refl,
          v,
          objs,
          IsFree-of-views l m lopage npages v pos (λ w h. ground (arith, unmapped yes_empty w)),
          λ w h. refl,
        )
        | inr not_empty ↦
            let (m1, st1, e1, v1, objs1, views) =
              vmmap_remove-page_view mm l m lopage npages st v objs (omega (arith, il.bounded)) in
            (
              m1,
              st1,
              rw (given, e, not_empty, e1) refl,
              v1,
              objs1,
              IsFree-of-views l m1 lopage npages v1 pos (λ w h. ground (arith, views w)),
              λ w h. ground (arith, views w),
            )
      ]

  module _ (file : Option (Mmap mm l)) (prot : Prot) (flags : MapFlags) (off : ℕ) (st : mm.Store)
      (kind : (flags.shared || flags.private) ≡ true) (aligned : l.page_aligned off ≡ true)
      (made : (a : Vmarea) (s : mm.Store) → (o : ℕ) × ((map_object mm l file a s).0 ≡ some o)) where
    -- On a well-formed map whose areas have objects, with valid arguments, a given non-zero start
    -- and a file (if any) whose mmap sets an object, `vmmap_map` returns 0. The pages of the range
    -- then map to the object's pages from ADDR_TO_PN(off) on, with the given protection and flags,
    -- whatever they mapped to before; all other pages map to what they did; the map is well-formed.
    pub vmmap_map-fixed :
        (lopage : ℕ) (dir : Dir)
        → lopage ≢ 0
        → low_page l ≤ lopage
        → lopage + npages ≤ high_page l
        → (area : Vmarea) × (m' : Vmmap) × (st' : mm.Store) × (vmmap_map mm l m file lopage npages
              prot flags off dir st
            ≡ ok (some area, m', st'))
          × Mapped l m m' lopage npages (l.addr_to_pn off) prot flags area
    unfolding vmmap_map
    vmmap_map-fixed lopage dir ne lo hi =
        let (addr, st0) = mm.vmarea_alloc st in
        let (m1, st1, e1, v1, objs1, free, same) = map_place-fixed lopage dir st0 ne lo hi in
        let (area, m', st', e2, mapped) =
          map_area-Mapped mm l addr file lopage npages prot flags off m1 st1 il v1 objs1 pos lo hi
            free (λ a. made a st1) in
        let low : (lopage == 0 || leb (low_page l) lopage) ≡ true = ground arith in
        let high : (lopage == 0 || leb (add32 lopage npages) (high_page l)) ≡ true =
          ground (arith, il.bounded) in
        let some_pages : ltb 0 npages ≡ true = ground arith in
        (
          area,
          m',
          st',
          rw (some_pages, kind, low, high, aligned, e1, e2) refl,
          record {
            starts = mapped.starts;
            ends = mapped.ends;
            valid = mapped.valid;
            objects = mapped.objects;
            views = λ w. ground (arith, mapped.views w, same w);
          },
        )

    -- The two outcomes of a search from the top: -1, or 0 with the area at the highest place.
    abbrev pub MapsHighest : Option Vmarea → Vmmap → Type 0
    MapsHighest none m' =
        (m' ≡ m) × ((q : ℕ) → ¬ Fits (low_page l) (high_page l) npages m.vmm_list q)
    MapsHighest (some area) m' =
        IsHighest (low_page l) (high_page l) npages m.vmm_list (some area.vma_start)
        × Mapped l m m' area.vma_start npages (l.addr_to_pn off) prot flags area

    map_found :
        (r : Option ℕ)
        → vmmap_find_range l m npages hilo ≡ ok r
        → IsHighest (low_page l) (high_page l) npages m.vmm_list r
        → (result : Option Vmarea) × (m' : Vmmap) × (st' : mm.Store) × (vmmap_map mm l m file 0
              npages prot flags off hilo st
            ≡ ok (result, m', st'))
          × MapsHighest result m'
    unfolding vmmap_map map_place
    map_found none e best =
        let some_pages : ltb 0 npages ≡ true = ground arith in
        let (addr, st0) = mm.vmarea_alloc st in
        (none, m, st0, rw (some_pages, kind, aligned, e) refl, (refl, best))
    map_found (some p) e best =
        let some_pages : ltb 0 npages ≡ true = ground arith in
        let (addr, st0) = mm.vmarea_alloc st in
        let (area, m', st', e2, mapped) =
          map_area-Mapped mm l addr file p npages prot flags off m st0 il v objs pos best.0.0
            best.0.1 best.0.2 (λ a. made a st0) in
        let here : p ≡ area.vma_start = sym mapped.starts in
        (
          some area,
          m',
          st',
          rw (some_pages, kind, aligned, e, e2) refl,
          subst
              (λ k.
                IsHighest (low_page l) (high_page l) npages m.vmm_list (some k)
                × Mapped l m m' k npages (l.addr_to_pn off) prot flags area)
              here (best, mapped),
        )

    -- On a well-formed map that has an area, all of them with objects, with valid arguments, the
    -- start 0, VMMAP_DIR_HILO and a file (if any) whose mmap sets an object, `vmmap_map` returns -1
    -- and changes no mapping if no `npages` free pages of user memory follow one another; otherwise
    -- it returns 0, and the mapping takes the highest such place and leaves all other pages as they
    -- were.
    pub vmmap_map-anywhere :
        m.vmm_list ≢ []
        → (result : Option Vmarea) × (m' : Vmmap) × (st' : mm.Store) × (vmmap_map mm l m file 0
              npages prot flags off hilo st
            ≡ ok (result, m', st'))
          × MapsHighest result m'
    vmmap_map-anywhere ne =
        let (r, e, best) = vmmap_find_range-IsHighest l m npages il v ne pos in map_found r e best
