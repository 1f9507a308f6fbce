-- ===== src/Vm/Examples.antt =====
-- The theorems on the virtual memory layer at one address space of two areas: user memory is the
-- pages 10 to 100, pages have 4096 bytes, and the store of memory objects is a counter.
use weenix_kernel_implementa.Common.{
  ℕ, suc, ◌+◌, ◌*◌, ◌/◌, ◌%◌, ◌≡◌, refl, inl, inr, Bool, true, false, ◌&&◌, ◌==◌, Option, none,
  some, [], ◌∷◌, ltb, leb, if◌then◌else◌, ok, panic, All, arith,
}
use weenix_kernel_implementa.Vm.Layout.{Layout, Prot, MapFlags, low_page, high_page}
use weenix_kernel_implementa.Vm.Mmobj.{MmobjOps}
use weenix_kernel_implementa.Vm.Vmmap.{
  Vmarea, Vmmap, hilo, lohi, lookup_area, vmmap_lookup, vmmap_insert, vmmap_find_range,
}
use weenix_kernel_implementa.Vm.Vmmap.Valid.{IsLayout, IsValid}
use weenix_kernel_implementa.Vm.Vmmap.Insert.{owned_by, vmmap_insert-IsValid}
use weenix_kernel_implementa.Vm.Vmmap.FindRange.{
  IsHighest, vmmap_find_range-IsHighest, vmmap_find_range-nil,
}
use weenix_kernel_implementa.Vm.Vmmap.Remove.{vmmap_remove}
use weenix_kernel_implementa.Vm.Vmmap.Remove.Pieces.{HasObj, view_of}
use weenix_kernel_implementa.Vm.Vmmap.Remove.Laws.{page_view, vmmap_remove-page_view}
use weenix_kernel_implementa.Vm.Vmmap.Map.{map_object, vmmap_map}
use weenix_kernel_implementa.Vm.Vmmap.Map.Area.{Mapped}
use weenix_kernel_implementa.Vm.Vmmap.Map.Laws.{MapsHighest, vmmap_map-fixed, vmmap_map-anywhere}
use weenix_kernel_implementa.Vm.Access.{range_perm}
use weenix_kernel_implementa.Vm.Access.Laws.{Verdict, range_perm-Verdict}
use weenix_kernel_implementa.Vm.Mmap.{do_munmap}
use weenix_kernel_implementa.Vm.Mmap.Laws.{do_munmap_lem}
use weenix_kernel_implementa.Vm.Brk.{Proc, success, do_brk}
use weenix_kernel_implementa.Vm.Brk.Laws.{do_brk_grow, do_brk_shrink}

abbrev pub l : Layout
l = record {
  user_mem_low = 40960;
  user_mem_high = 409600;
  page_size = 4096;
  addr_to_pn = λ a. a / 4096;
  pn_to_addr = λ n. n * 4096;
  page_aligned = λ a. a % 4096 == 0;
  page_align_up = λ a. (a + 4095) / 4096 * 4096;
}

abbrev mm : MmobjOps
mm = record {
  Store = ℕ;
  vmarea_alloc = λ n. (n, suc n);
  shadow_create = λ n. (n, suc n);
  anon_create = λ n. (n, suc n);
  ref = λ o n. n;
  put = λ o n. n;
  set_shadowed = λ o s n. n;
  set_bottom = λ o b n. n;
  un_bottom_obj = λ o n. o;
  bottom_obj = λ o n. o;
  vmas_insert_head = λ o a n. n;
  bottom_vmas_insert_tail = λ o a n. n;
  vmas_remove = λ a n. n;
  pt_unmap_range = λ a b n. n;
  tlb_flush_all = λ n. n;
}

abbrev read_only : Prot
read_only = record { read = true; write = false; exec = false }

abbrev anonymous : MapFlags
anonymous = record { shared = false; private = true; fixed = false; anon = true }

abbrev area_at : ℕ → ℕ → Vmarea
area_at from to = record {
  vma_addr = from;
  vma_start = from;
  vma_end = to;
  vma_off = 0;
  vma_prot = read_only;
  vma_flags = anonymous;
  vma_vmmap = some 1;
  vma_obj = some to;
}

abbrev pub m : Vmmap
m = record { vmm_addr = 1; vmm_list = area_at 20 30 ∷ area_at 40 50 ∷ []; vmm_proc = some 7 }

abbrev new : Vmarea
new = record (area_at 32 36) { vma_vmmap = none }

m-IsLayout : IsLayout l
m-IsLayout = record { ordered = omega arith; bounded = omega arith }

pub m-IsValid : IsValid l m
m-IsValid = record {
  ascending = (omega arith, omega arith, omega arith, (omega arith, omega arith, omega arith, tt));
}

pub m-HasObj : All HasObj m.vmm_list
m-HasObj = ((30, refl), ((50, refl), tt))

vmmap_remove-page_view_example :
    (m' : Vmmap) × (st' : ℕ) × (vmmap_remove mm l m 22 20 100 ≡ ok (m', st'))
    × IsValid l m'
    × All HasObj m'.vmm_list
    × ((vfn : ℕ)
        → page_view m' vfn ≡ (if leb 22 vfn && ltb vfn (22 + 20) then none else page_view m vfn))
vmmap_remove-page_view_example =
    vmmap_remove-page_view mm l m 22 20 100 m-IsValid m-HasObj (omega arith)

vmmap_insert-IsValid_example :
    (m' : Vmmap) × (vmmap_insert l m new ≡ ok m')
    × IsValid l m'
    × ((vfn : ℕ)
        → vmmap_lookup m' vfn
          ≡ (if leb 32 vfn && ltb vfn 36 then some (owned_by m new) else vmmap_lookup m vfn))
vmmap_insert-IsValid_example =
    vmmap_insert-IsValid l m new m-IsValid refl (omega arith) (omega arith) (omega arith)
      (inr (omega arith), (inl (omega arith), tt))

vmmap_find_range-IsHighest_example :
    (r : Option ℕ) × (vmmap_find_range l m 8 hilo ≡ ok r)
    × IsHighest (low_page l) (high_page l) 8 m.vmm_list r
vmmap_find_range-IsHighest_example =
    vmmap_find_range-IsHighest l m 8 m-IsLayout m-IsValid (λ e. cc) (omega arith)

vmmap_find_range-nil_example : vmmap_find_range l (record m { vmm_list = [] }) 3 hilo ≡ panic
vmmap_find_range-nil_example = vmmap_find_range-nil l (record m { vmm_list = [] }) 3 refl

made : (a : Vmarea) (s : ℕ) → (o : ℕ) × ((map_object mm l none a s).0 ≡ some o)
unfolding map_object
made a s = (s, refl)

vmmap_map-fixed_example :
    (area : Vmarea) × (m' : Vmmap) × (st' : ℕ) × (vmmap_map mm l m none 25 20 read_only anonymous
        4096 lohi 100
      ≡ ok (some area, m', st'))
    × Mapped l m m' 25 20 1 read_only anonymous area
vmmap_map-fixed_example =
    vmmap_map-fixed mm l m 20 m-IsLayout m-IsValid m-HasObj (omega arith) none read_only anonymous
      4096 100 refl refl made 25 lohi (omega arith) (omega arith) (omega arith)

vmmap_map-anywhere_example :
    (result : Option Vmarea) × (m' : Vmmap) × (st' : ℕ) × (vmmap_map mm l m none 0 20 read_only
        anonymous 4096 hilo 100
      ≡ ok (result, m', st'))
    × MapsHighest mm l m 20 m-IsLayout m-IsValid m-HasObj
        (omega arith)
        none
        read_only
        anonymous
        4096
        100
        refl
        refl
        made
        result
        m'
vmmap_map-anywhere_example =
    vmmap_map-anywhere mm l m 20 m-IsLayout m-IsValid m-HasObj (omega arith) none read_only
      anonymous 4096 100 refl refl made (λ e. cc)

range_perm-Verdict_example :
    (b : Bool) × (range_perm l m (9000 + 1) 81921 9000 read_only ≡ some b)
    × Verdict l m read_only 81921 (81921 + 9000) b
range_perm-Verdict_example = range_perm-Verdict l m 81921 9000 read_only (omega arith) (omega arith)

-- The heap is the first area, with its break in page 29.
abbrev p : Proc
p = record { p_start_brk = 82000; p_brk = 122000; p_vmmap = m }

do_brk_grow_example :
    (p' : Proc) × (do_brk mm l p 140000 5 ≡ ok (success (some 140000), p', 5))
    × (p'.p_brk ≡ 140000)
    × (p'.p_start_brk ≡ 82000)
    × IsValid l p'.p_vmmap
    × All HasObj p'.p_vmmap.vmm_list
    × ((w : ℕ)
        → page_view p'.p_vmmap w
          ≡ (if leb 30 w && ltb w 35 then view_of w (some (area_at 20 30)) else page_view m w))
unfolding vmmap_lookup lookup_area
do_brk_grow_example =
    do_brk_grow mm l p 140000 5 (area_at 20 30) 30 35 m-IsLayout m-IsValid m-HasObj (omega arith)
      (omega arith) (omega arith) (omega arith) (omega arith) (omega arith)
      (omega arith, omega arith) (omega arith, omega arith) (omega arith) (omega arith)
      (omega arith) refl (inr (omega arith), (inl (omega arith), tt))

do_brk_shrink_example :
    (p' : Proc) × (st' : ℕ) × (do_brk mm l p 100000 5 ≡ ok (success (some 100000), p', st'))
    × (p'.p_brk ≡ 100000)
    × (p'.p_start_brk ≡ 82000)
    × IsValid l p'.p_vmmap
    × All HasObj p'.p_vmmap.vmm_list
    × ((w : ℕ) → page_view p'.p_vmmap w ≡ (if leb 25 w && ltb w 30 then none else page_view m w))
do_brk_shrink_example =
    do_brk_shrink mm l p 100000 5 30 25 m-IsValid m-HasObj (omega arith) (omega arith) (omega arith)
      (omega arith) (omega arith) (omega arith) (omega arith, omega arith)
      (omega arith, omega arith) (omega arith) (omega arith)

do_munmap_example :
    (m' : Vmmap) × (st' : ℕ) × (do_munmap mm l m 90000 50000 5 ≡ ok (none, m', st'))
    × IsValid l m'
    × All HasObj m'.vmm_list
    × ((vfn : ℕ)
        → page_view m' vfn ≡ (if leb 21 vfn && ltb vfn (21 + 13) then none else page_view m vfn))
do_munmap_example =
    do_munmap_lem mm l m 90000 50000 13 5 m-IsValid m-HasObj (omega arith) (omega arith)
      (omega arith) (omega arith) (omega arith, omega arith) (omega arith)
