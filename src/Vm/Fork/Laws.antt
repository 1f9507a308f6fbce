-- ===== src/Vm/Fork/Laws.antt =====
-- What `do_fork` does to the areas of the parent and of the child, and to their objects.
use weenix_kernel_implementa.Common.{
  ℕ, ◌+◌, ◌≡◌, refl, sym, ap, ◌∙◌, List, [], ◌∷◌, ◌++◌, ok, All, arith,
}
use mathlib.Core.List.{append_assoc}
use weenix_kernel_implementa.Vm.Layout.{Layout, low_page, high_page}
use weenix_kernel_implementa.Vm.Mmobj.{MmobjOps}
use weenix_kernel_implementa.Vm.Vmmap.{Vmarea, Vmmap}
use weenix_kernel_implementa.Vm.Vmmap.Valid.{Ascending, IsValid}
use weenix_kernel_implementa.Vm.Vmmap.Map.{clone_areas, vmmap_clone}
use weenix_kernel_implementa.Vm.Fork.{fork_area, fork_areas}
use weenix_kernel_implementa.Vm.Fork.Found.{Below, Below-mono, Below-snoc}
use weenix_kernel_implementa.Vm.Fork.Objects.{
  ObjectLaws, has_object, references, Keeps, Keeps-refl, Keeps-trans, Exists, references-none,
}
use weenix_kernel_implementa.Vm.Fork.Area.{
  AllForked, all_done, one_more, Forked-Keeps, cloned, fork_area-Forked,
}

module _ (mm : MmobjOps) (laws : ObjectLaws mm) where
  fork_areas-step :
      (parent rest : List Vmarea) (clone : Vmarea) (st : mm.Store)
      (r t : List Vmarea × List Vmarea × mm.Store) (c : Vmarea)
      → fork_area mm parent clone st ≡ ok (r.0, c, r.2)
      → fork_areas mm r.0 rest r.2 ≡ ok t
      → fork_areas mm parent (clone ∷ rest) st ≡ ok (t.0, c ∷ t.1, t.2)
  unfolding fork_areas
  fork_areas-step parent rest clone st r t c first later = rw (fork_areas, first, later) refl

  fork_areas-Forked :
      (l : Layout) (before : ℕ → ℕ) (pre old : List Vmarea) (from map : ℕ) (start st0 st : mm.Store)
      → Keeps mm laws before start st
      → Below from pre
      → Ascending from (high_page l) old
      → All (Exists mm laws start) old
      → (parent : List Vmarea) × (child : List Vmarea) × (st' : mm.Store) × (fork_areas mm
            (pre ++ old)
            (clone_areas mm l map old st0).0
            st
          ≡ ok (pre ++ parent, child, st'))
        × AllForked mm laws start st' old parent child
        × Keeps mm laws (λ x. references x old) st st'
  unfolding fork_areas clone_areas references
  fork_areas-Forked l before pre [] from map start st0 st kept below ascending objs =
      ([], [], st, refl, all_done, Keeps-refl mm laws st)
  fork_areas-Forked l before pre (a ∷ rest) from map start st0 st kept below
        (starts, filled, ends, ascending) ((o, obj, there), objs) =
      let (addr, st1) = mm.vmarea_alloc st0 in
      let under = Below-mono from a.vma_start pre starts below in
      let (a', c, st2, first, forked, keeps) =
        fork_area-Forked mm laws pre rest a addr map o st under filled obj before start kept
          (kept o there).0 in
      let same_end : a'.vma_end ≡ a.vma_end = ap (λ x. x.vma_end) forked.parent in
      let next =
        Below-snoc a.vma_end pre a' (Below-mono a.vma_start a.vma_end pre (omega arith) under)
          (omega arith) in
      let up_to_here =
        Keeps-trans mm laws before (λ x. has_object x a.vma_obj)
          (λ x. before x + has_object x a.vma_obj) start st st2 (λ x. refl) kept keeps in
      let (parent, child, st3, later, all_forked, keeps') =
        fork_areas-Forked l (λ x. before x + has_object x a.vma_obj) (pre ++ a' ∷ []) rest a.vma_end
          map start st1 st2 up_to_here next ascending objs in
      let joined : pre ++ a' ∷ rest ≡ (pre ++ a' ∷ []) ++ rest =
        sym (append_assoc pre (a' ∷ []) rest) in
      (
        a' ∷ parent,
        c ∷ child,
        st3,
        fork_areas-step (pre ++ a ∷ rest) (clone_areas mm l map rest st1).0
            (cloned mm laws addr map a) st (pre ++ a' ∷ rest, [], st2)
            (pre ++ a' ∷ parent, child, st3) c first
            (ap (λ x. fork_areas mm x (clone_areas mm l map rest st1).0 st2) joined
              ∙ later
              ∙ ap (λ x. ok (x, child, st3)) (append_assoc pre (a' ∷ []) parent)),
        one_more
            (Forked-Keeps mm laws (λ x. references x rest) start st2 st3 a a' c keeps'
              (λ x. references-none mm laws start rest x objs) forked)
            all_forked,
        Keeps-trans mm laws (λ x. has_object x a.vma_obj) (λ x. references x rest)
            (λ x. references x (a ∷ rest)) st st2 st3 (λ x. refl) keeps keeps',
      )

  -- In an address space that is well formed, whose areas all have an object that exists, `do_fork`
  -- clones the map and goes through its areas without a failure. Parent and child get the same
  -- ranges with the same offsets, permissions and flags as before. A shared area has its object in
  -- both. A private area gets two different objects that did not exist when the loop began, one for
  -- the parent and one for the child, which at its end shadow the object that the area had and have
  -- one reference each, and its bottom object if it is a shadow object itself. The area of the child
  -- is on the list of areas of the bottom object of the parent's one. An object that existed when the
  -- loop began still does, shadows what it did, has the areas it had on its list, if it is a shadow
  -- object the same bottom object, and one reference more for each area of the parent that had it.
  -- What the calls do to one object is relied on as `ObjectLaws` states it.
  pub vmmap_clone-Forked :
      (l : Layout) (m : Vmmap) (map : ℕ) (st : mm.Store)
      → IsValid l m
      → All (Exists mm laws (vmmap_clone mm l map m st).1) m.vmm_list
      → (parent : List Vmarea) × (child : List Vmarea) × (st' : mm.Store) × (fork_areas mm
            m.vmm_list
            (vmmap_clone mm l map m st).0.vmm_list
            (vmmap_clone mm l map m st).1
          ≡ ok (parent, child, st'))
        × AllForked mm laws (vmmap_clone mm l map m st).1 st' m.vmm_list parent child
        × Keeps mm laws (λ x. references x m.vmm_list) (vmmap_clone mm l map m st).1 st'
  unfolding vmmap_clone
  vmmap_clone-Forked l m map st valid objs =
      let st1 = (vmmap_clone mm l map m st).1 in
      fork_areas-Forked l (λ x. 0) [] m.vmm_list (low_page l) map st1 st st1
        (Keeps-refl mm laws st1) tt valid.ascending objs
