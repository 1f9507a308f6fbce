-- ===== src/Vm/Brk/Laws.antt =====
-- Growing and shrinking the heap.
use weenix_kernel_implementa.Common.{
  ℕ, ◌+◌, ◌-◌, ◌≤◌, ◌<◌, ◌≡◌, ◌≢◌, ap, ◌∙◌, inl, inr, refl, true, false, ◌&&◌, none, some, List, [],
  ◌∷◌, ltb, leb, ◌==◌, if◌then◌else◌, u32_mod, ok, All, arith, Bool-cases,
}
use weenix_kernel_implementa.Vm.Layout.{Layout, low_page, high_page, Fills, sub32-Fills}
use weenix_kernel_implementa.Vm.Mmobj.{MmobjOps}
use weenix_kernel_implementa.Vm.Vmmap.{
  Vmarea, lookup_area, vmmap_lookup, obj_page, vmmap_is_range_empty,
}
use weenix_kernel_implementa.Vm.Vmmap.Valid.{Ascending, IsLayout, IsValid, IsFree}
use weenix_kernel_implementa.Vm.Vmmap.Insert.{vmmap_is_range_empty-IsFree}
use weenix_kernel_implementa.Vm.Vmmap.Remove.Pieces.{view_of, view_areas, HasObj}
use weenix_kernel_implementa.Vm.Vmmap.Remove.Laws.{page_view, vmmap_remove-page_view}
use weenix_kernel_implementa.Vm.Brk.{Proc, success, brk_page, set_end, shrink_brk, grow_brk, do_brk}

set_end-Ascending :
    (b vfn end from high : ℕ) (areas : List Vmarea)
    → b ≡ vfn + 1
    → b < end
    → end ≤ high
    → IsFree b (end - b) areas
    → Ascending from high areas
    → Ascending from high (set_end vfn end areas)
unfolding set_end
set_end-Ascending b vfn end from high [] eq lt hi free v = tt
set_end-Ascending b vfn end from high (a ∷ []) eq lt hi free v = ground arith
set_end-Ascending b vfn end from high (a ∷ c ∷ rest) eq lt hi free v =
    ground (arith, set_end-Ascending b vfn end a.vma_end high (c ∷ rest))

lookup_area-set_end :
    (b vfn end from high w : ℕ) (areas : List Vmarea) (a : Vmarea)
    → b ≡ vfn + 1
    → b < end
    → IsFree b (end - b) areas
    → Ascending from high areas
    → lookup_area vfn areas ≡ some a
    → view_areas w (set_end vfn end areas)
      ≡ (if leb b w && ltb w end then view_of w (some a) else view_areas w areas)
unfolding set_end lookup_area obj_page
lookup_area-set_end b vfn end from high w [] a eq lt free v found = cc
lookup_area-set_end b vfn end from high w (c ∷ rest) a eq lt free v found =
    ground (arith, lookup_area-set_end b vfn end c.vma_end high w rest a)

set_end-HasObj :
    (vfn end : ℕ) (areas : List Vmarea) → All HasObj areas → All HasObj (set_end vfn end areas)
unfolding set_end
set_end-HasObj vfn end [] h = tt
set_end-HasObj vfn end (a ∷ rest) h = elim (Bool-cases (leb a.vma_start vfn && ltb vfn a.vma_end)) [
  | inl e ↦ rw e h
  | inr e ↦ rw e (h.0, set_end-HasObj vfn end rest h.1)
]

brk_page_pos : (l : Layout) (a : ℕ) → 0 < brk_page l a
unfolding brk_page
brk_page_pos l a = omega arith

module _ (mm : MmobjOps) (l : Layout) (p : Proc) (addr : ℕ) (st : mm.Store) where
  -- A heap whose break is not 0, with a well-formed map whose areas have objects, shrinks to a non-zero
  -- address between `p_start_brk` and USER_MEM_HIGH. Page `b` is the first that begins at the old
  -- break or above, and page `e` the first at the new one or above, with `e < b`. Then `do_brk`
  -- returns the new break and sets it; the pages from `e` up to `b` are unmapped, whatever areas
  -- have them, and all others are kept.
  pub do_brk_shrink :
      (b e : ℕ)
      → IsValid l p.p_vmmap
      → All HasObj p.p_vmmap.vmm_list
      → 0 < p.p_brk
      → p.p_brk < u32_mod
      → addr ≢ 0
      → addr ≤ l.user_mem_high
      → l.user_mem_high < u32_mod
      → p.p_start_brk ≤ addr
      → Fills l p.p_brk b
      → Fills l addr e
      → e < b
      → b < u32_mod
      → (p' : Proc) × (st' : mm.Store) × (do_brk mm l p addr st ≡ ok (success (some addr), p', st'))
        × (p'.p_brk ≡ addr)
        × (p'.p_start_brk ≡ p.p_start_brk)
        × IsValid l p'.p_vmmap
        × All HasObj p'.p_vmmap.vmm_list
        × ((w : ℕ)
            → page_view p'.p_vmmap w ≡ (if leb e w && ltb w b then none else page_view p.p_vmmap w))
  unfolding do_brk shrink_brk brk_page
  do_brk_shrink b e v objs set word ne top high_word start begins ends below fits =
      let at_b : brk_page l p.p_brk ≡ b = sub32-Fills l p.p_brk b set word begins in
      let at_e : brk_page l addr ≡ e = sub32-Fills l addr e (omega arith) (omega arith) ends in
      let (m', st', removed, v', objs', views) =
        vmmap_remove-page_view mm l p.p_vmmap e (b - e) st v objs (omega arith) in
      let again : e + (b - e) ≡ b = omega arith in
      let tests : ((addr == 0) ≡ false)
          × (ltb l.user_mem_high addr ≡ false)
          × (ltb addr p.p_start_brk ≡ false)
          × ((b == e) ≡ false)
          × (ltb e b ≡ true) =
        (ground arith, ground arith, ground arith, ground arith, ground arith) in
      (
        record p { p_vmmap = m'; p_brk = addr },
        st',
        rw (at_b, at_e, tests.0, tests.1, tests.2, tests.3, tests.4, removed) refl,
        refl,
        refl,
        v',
        objs',
        λ w. views w ∙ ap (λ k. if leb e w && ltb w k then none else page_view p.p_vmmap w) again,
      )

  -- A heap whose break is not 0, with a well-formed map whose areas have objects, grows to an address
  -- between `p_start_brk` and USER_MEM_HIGH. Page `b` is the first that begins at the old break or
  -- above, and page `e` the first at the new one or above, with `b < e` and both in user memory.
  -- If an area covers page `b - 1` and no area has a page from `b` up to `e`, `do_brk` returns the
  -- new break and sets it; the pages from `b` up to `e` then continue that area, and all others are
  -- kept.
  pub do_brk_grow :
      (heap : Vmarea) (b e : ℕ)
      → IsLayout l
      → IsValid l p.p_vmmap
      → All HasObj p.p_vmmap.vmm_list
      → 0 < p.p_brk
      → p.p_brk < u32_mod
      → addr ≢ 0
      → addr ≤ l.user_mem_high
      → l.user_mem_high < u32_mod
      → p.p_start_brk ≤ addr
      → Fills l p.p_brk b
      → Fills l addr e
      → b < e
      → low_page l ≤ b
      → e ≤ high_page l
      → vmmap_lookup p.p_vmmap (b - 1) ≡ some heap
      → IsFree b (e - b) p.p_vmmap.vmm_list
      → (p' : Proc) × (do_brk mm l p addr st ≡ ok (success (some addr), p', st))
        × (p'.p_brk ≡ addr)
        × (p'.p_start_brk ≡ p.p_start_brk)
        × IsValid l p'.p_vmmap
        × All HasObj p'.p_vmmap.vmm_list
        × ((w : ℕ)
            → page_view p'.p_vmmap w
              ≡ (if leb b w && ltb w e then view_of w (some heap) else page_view p.p_vmmap w))
  unfolding do_brk grow_brk vmmap_lookup brk_page
  do_brk_grow heap b e il v objs set word ne top high_word start begins ends above lo hi found
        free =
      let at_b : brk_page l p.p_brk ≡ b = sub32-Fills l p.p_brk b set word begins in
      let at_e : brk_page l addr ≡ e = sub32-Fills l addr e (omega arith) (omega arith) ends in
      let before : b ≡ (b - 1) + 1 = ground (arith, brk_page_pos l p.p_brk, at_b) in
      let empty : vmmap_is_range_empty l p.p_vmmap b (e - b) ≡ ok true =
        vmmap_is_range_empty-IsFree l p.p_vmmap b (e - b) il (omega arith) lo (omega arith) free in
      let tests : ((addr == 0) ≡ false)
          × (ltb l.user_mem_high addr ≡ false)
          × (ltb addr p.p_start_brk ≡ false)
          × ((b == e) ≡ false)
          × (ltb e b ≡ false) =
        (ground arith, ground arith, ground arith, ground arith, ground arith) in
      (
        record p {
          p_vmmap = record p.p_vmmap { vmm_list = set_end (b - 1) e p.p_vmmap.vmm_list };
          p_brk = addr;
        },
        rw (at_b, at_e, tests.0, tests.1, tests.2, tests.3, tests.4, empty, found) refl,
        refl,
        refl,
        record {
          ascending =
              set_end-Ascending b (b - 1) e (low_page l) (high_page l) p.p_vmmap.vmm_list before
                above hi free v.ascending;
        },
        set_end-HasObj (b - 1) e p.p_vmmap.vmm_list objs,
        λ w.
            lookup_area-set_end b (b - 1) e (low_page l) (high_page l) w p.p_vmmap.vmm_list heap
              before above free v.ascending found,
      )
