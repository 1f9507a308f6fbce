-- ===== src/Vm/ForkExamples.antt =====
-- The theorem on `do_fork` with memory objects that are numbered as they are made, where tables say
-- which object each one shadows and how many references it has.
use weenix_kernel_implementa.Common.{
  ℕ, suc, ◌+◌, ◌≡◌, refl, Bool, true, false, ◌&&◌, ◌||◌, Option, some, List, ◌==◌, ltb, update, ok,
  arith,
}
use weenix_kernel_implementa.Vm.Mmobj.{MmobjOps}
use weenix_kernel_implementa.Vm.Vmmap.{Vmarea}
use weenix_kernel_implementa.Vm.Vmmap.Map.{vmmap_clone}
use weenix_kernel_implementa.Vm.Examples.{l, m, m-IsValid}
use weenix_kernel_implementa.Vm.Fork.{fork_areas}
use weenix_kernel_implementa.Vm.Fork.Objects.{ObjectLaws, references, Keeps}
use weenix_kernel_implementa.Vm.Fork.Area.{AllForked}
use weenix_kernel_implementa.Vm.Fork.Laws.{vmmap_clone-Forked}

-- The next number, and of each object the one that it shadows, its references, its bottom object, and
-- the areas on its list.
record Objects : Type 0 where
  next : ℕ
  shadows : ℕ → Option ℕ
  counts : ℕ → ℕ
  bottoms : ℕ → ℕ
  vmas : ℕ → ℕ → Bool

abbrev objects : MmobjOps
objects = record {
  Store = Objects;
  vmarea_alloc = λ s. (s.next, record s { next = suc s.next });
  shadow_create = λ s. (s.next, record s { next = suc s.next; counts = update s.counts s.next 1 });
  anon_create = λ s. (s.next, record s { next = suc s.next });
  ref = λ o s. record s { counts = update s.counts o (s.counts o + 1) };
  put = λ o s. s;
  set_shadowed = λ o b s. record s { shadows = update s.shadows o (some b) };
  set_bottom = λ o b s. record s { bottoms = update s.bottoms o b };
  un_bottom_obj = λ o s. s.bottoms o;
  bottom_obj = λ o s. s.bottoms o;
  vmas_insert_head = λ o a s. s;
  bottom_vmas_insert_tail =
      λ o a s. record s { vmas = λ x v. (s.bottoms x == s.bottoms o && v == a) || s.vmas x v };
  vmas_remove = λ a s. s;
  pt_unmap_range = λ a b s. s;
  tlb_flush_all = λ s. s;
}

object_laws : ObjectLaws objects
object_laws = record {
  known = λ o s. ltb o s.next;
  shadowed = λ o s. s.shadows o;
  refcount = λ o s. s.counts o;
  listed = λ o v s. s.vmas o v;
  create_new = λ s. ground arith;
  create_known = λ s. ground arith;
  create_one = λ s. ground arith;
  create_keeps = λ o s h. (ground arith, refl, ground arith, refl, λ v on. on);
  set_keeps = λ o b x s. (refl, refl, refl);
  set_here = λ o b s. let same : (o == o) ≡ true = ground arith in rw same refl;
  set_others = λ o b x s h. (rw h refl, λ v on. on);
  ref_keeps = λ o x s. (refl, refl, refl, λ v on. on);
  ref_count = λ o x s. ground arith;
  bottom_keeps = λ o b x s. (refl, refl, refl);
  bottom_here = λ o b s. let same : (o == o) ≡ true = ground arith in rw same refl;
  bottom_others = λ o b x y s h over. (rw h refl, λ v on. on);
  tail_keeps = λ o v x s. (refl, refl, refl, λ y over. refl, λ w on. ground arith);
  tail_here = λ o v s. ground arith;
}

abbrev start : Objects
start = record {
  next = 60;
  shadows = λ o. some 0;
  counts = λ o. 2;
  bottoms = λ o. 0;
  vmas = λ o v. false;
}

vmmap_clone-Forked_example :
    (parent : List Vmarea) × (child : List Vmarea) × (st' : Objects) × (fork_areas objects
        m.vmm_list
        (vmmap_clone objects l 2 m start).0.vmm_list
        (vmmap_clone objects l 2 m start).1
      ≡ ok (parent, child, st'))
    × AllForked objects object_laws (vmmap_clone objects l 2 m start).1 st' m.vmm_list parent child
    × Keeps objects object_laws
        (λ x. references x m.vmm_list)
        (vmmap_clone objects l 2 m start).1
        st'
unfolding object_laws vmmap_clone
vmmap_clone-Forked_example =
    vmmap_clone-Forked objects object_laws l m 2 start m-IsValid
      ((30, refl, refl), ((50, refl, refl), tt))
