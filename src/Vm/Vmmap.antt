-- ===== src/Vm/Vmmap.antt =====
-- K3/vmmap.c: an address space is a list of areas, in the order of `vmm_list`. The list macros of
-- util/list.h save the next link before the body of a loop runs, so a body may remove its own item.
-- Here are the operations on the list alone; `Vmmap/Remove.antt` and `Vmmap/Map.antt` have those
-- that also change memory objects. Slab allocations are taken to succeed, as the source does.
pub mod Valid
pub mod Insert
pub mod FindRange
pub mod Remove
pub mod Map
use weenix_kernel_implementa.Common.{
  ℕ, ◌+◌, ◌-◌, Bool, true, false, ◌&&◌, Option, none, some, List, [], ◌∷◌, ltb, leb, if◌then◌else◌,
  add32, sub32, Exec, ok, panic, ◌>>=◌, ◌>>◌, kassert, reverse_onto,
}
use weenix_kernel_implementa.Vm.Layout.{Layout, Prot, MapFlags, low_page, high_page}

-- vmarea_t. `vma_obj` and `vma_vmmap` are pointers, NULL or set; `vma_addr` is the area's own.
pub record Vmarea : Type 0 where
  pub vma_addr : ℕ
  pub vma_start : ℕ
  pub vma_end : ℕ
  pub vma_off : ℕ
  pub vma_prot : Prot
  pub vma_flags : MapFlags
  pub vma_vmmap : Option ℕ
  pub vma_obj : Option ℕ

pub record Vmmap : Type 0 where
  pub vmm_addr : ℕ
  pub vmm_list : List Vmarea
  pub vmm_proc : Option ℕ

pub vmmap_create : ℕ → Vmmap
vmmap_create addr = record { vmm_addr = addr; vmm_list = []; vmm_proc = none }

-- The loop of `vmmap_insert`: in front of the first area that does not start below the new one.
pub insert_area : Vmarea → List Vmarea → List Vmarea
insert_area new [] = new ∷ []
insert_area new (iter ∷ rest) =
    if leb new.vma_start iter.vma_start then new ∷ iter ∷ rest else iter ∷ insert_area new rest

abbrev pub is_null : {A : Type 0} → Option A → Bool
is_null none = true
is_null (some _) = false

pub vmmap_insert : Layout → Vmmap → Vmarea → Exec Vmmap
unfolding insert_area
vmmap_insert l m new = do
  kassert (is_null new.vma_vmmap)
  kassert (ltb new.vma_start new.vma_end)
  kassert (leb (low_page l) new.vma_start && leb new.vma_end (high_page l))
  ok (record m { vmm_list = insert_area (record new { vma_vmmap = some m.vmm_addr }) m.vmm_list })

-- The loop of `vmmap_lookup`.
unfoldable pub lookup_area : ℕ → List Vmarea → Option Vmarea
lookup_area vfn [] = none
lookup_area vfn (iter ∷ rest) =
    if leb iter.vma_start vfn && ltb vfn iter.vma_end then some iter else lookup_area vfn rest

unfoldable pub vmmap_lookup : Vmmap → ℕ → Option Vmarea
unfolding lookup_area
vmmap_lookup m vfn = lookup_area vfn m.vmm_list

-- The loop of `vmmap_is_range_empty`.
unfoldable pub range_empty_loop : ℕ → ℕ → List Vmarea → Bool
range_empty_loop startvfn sum_pages [] = true
range_empty_loop startvfn sum_pages (iter ∷ rest) =
    if ltb startvfn iter.vma_end && ltb iter.vma_start sum_pages
    then false
    else range_empty_loop startvfn sum_pages rest

unfoldable pub vmmap_is_range_empty : Layout → Vmmap → ℕ → ℕ → Exec Bool
unfolding range_empty_loop
vmmap_is_range_empty l m startvfn npages = do
  let endvfn = add32 startvfn npages
  kassert (ltb startvfn endvfn && (leb (low_page l) startvfn && leb endvfn (high_page l)))
  ok (range_empty_loop startvfn endvfn m.vmm_list)

-- The `dir` argument of `vmmap_find_range`; any other number finds nothing.
pub data Dir : Type 0 where
  hilo lohi neither : Dir

-- The loops of `vmmap_find_range` over what is left of the list: `retVal`, `none` for -1, and
-- `holder`, the area that was passed last.
pub hilo_loop : Layout → ℕ → Option Vmarea → List Vmarea → Option ℕ × Option Vmarea
hilo_loop l npages holder [] = (none, holder)
hilo_loop l npages none (iter ∷ rest) =
    if leb npages (sub32 (high_page l) iter.vma_end)
    then (some (sub32 (high_page l) npages), none)
    else hilo_loop l npages (some iter) rest
hilo_loop l npages (some h) (iter ∷ rest) =
    if leb npages (sub32 h.vma_start iter.vma_end)
    then (some (sub32 h.vma_start npages), some h)
    else hilo_loop l npages (some iter) rest

pub lohi_loop : Layout → ℕ → Option Vmarea → List Vmarea → Option ℕ × Option Vmarea
lohi_loop l npages holder [] = (none, holder)
lohi_loop l npages none (iter ∷ rest) =
    if leb npages (sub32 iter.vma_start (low_page l))
    then (some (low_page l), none)
    else lohi_loop l npages (some iter) rest
lohi_loop l npages (some h) (iter ∷ rest) =
    if leb npages (sub32 iter.vma_start h.vma_end)
    then (some h.vma_end, some h)
    else lohi_loop l npages (some iter) rest

-- What follows each loop. `holder` is NULL only if the list is empty.
pub hilo_rest : Layout → ℕ → Option ℕ × Option Vmarea → Exec (Option ℕ)
hilo_rest l npages (some r, holder) = ok (some r)
hilo_rest l npages (none, none) = panic
hilo_rest l npages (none, some h) =
    if leb npages (sub32 h.vma_start (low_page l))
    then ok (some (sub32 h.vma_start npages))
    else ok none

pub lohi_rest : Layout → ℕ → Option ℕ × Option Vmarea → Exec (Option ℕ)
lohi_rest l npages (some r, holder) = ok (some r)
lohi_rest l npages (none, none) =
    if leb npages (sub32 (high_page l) (low_page l)) then ok (some (low_page l)) else panic
lohi_rest l npages (none, some h) =
    if leb npages (sub32 (high_page l) h.vma_end) then ok (some h.vma_end) else ok none

pub vmmap_find_range : Layout → Vmmap → ℕ → Dir → Exec (Option ℕ)
unfolding hilo_loop lohi_loop hilo_rest lohi_rest
vmmap_find_range l m npages hilo =
    hilo_rest l npages (hilo_loop l npages none (reverse_onto m.vmm_list []))
vmmap_find_range l m npages lohi = lohi_rest l npages (lohi_loop l npages none m.vmm_list)
vmmap_find_range l m npages neither = ok none

-- The page of an area's object that a page number stands for, as every caller of
-- `vmmap_lookup` computes it.
unfoldable pub obj_page : Vmarea → ℕ → ℕ
obj_page a vfn = add32 (sub32 vfn a.vma_start) a.vma_off
