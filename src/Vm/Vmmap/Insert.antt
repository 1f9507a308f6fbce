-- ===== src/Vm/Vmmap/Insert.antt =====
-- `vmmap_insert` and `vmmap_is_range_empty`.
use Prim.Native.Nat.{max}
use weenix_kernel_implementa.Common.{
  ℕ, ◌+◌, ◌-◌, ◌≤◌, ◌<◌, ◌≡◌, refl, inl, inr, Bool, true, false, ◌&&◌, none, some, List, [], ◌∷◌,
  ltb, leb, if◌then◌else◌, ok, arith, Bool-cases,
}
use weenix_kernel_implementa.Vm.Layout.{Layout, low_page, high_page}
use weenix_kernel_implementa.Vm.Vmmap.{
  Vmarea, Vmmap, insert_area, vmmap_insert, lookup_area, vmmap_lookup, range_empty_loop,
  vmmap_is_range_empty,
}
use weenix_kernel_implementa.Vm.Vmmap.Valid.{Ascending, IsLayout, IsValid, IsFree, Ascending-mono}

pub insert_area-Ascending :
    (from high : ℕ) (new : Vmarea) (areas : List Vmarea)
    → from ≤ new.vma_start
    → new.vma_start < new.vma_end
    → new.vma_end ≤ high
    → IsFree new.vma_start (new.vma_end - new.vma_start) areas
    → Ascending from high areas
    → Ascending from high (insert_area new areas)
unfolding insert_area
insert_area-Ascending from high new [] lo ne hi free v = (lo, ne, hi, tt)
insert_area-Ascending from high new (a ∷ rest) lo ne hi (apart, free) v = ground (
  arith,
  insert_area-Ascending a.vma_end high new rest,
  Ascending-mono new.vma_end a.vma_end high rest,
)

-- The area that covers `vfn` after an insertion where there was room.
pub lookup_area-insert_area :
    (vfn : ℕ) (new : Vmarea) (areas : List Vmarea)
    → new.vma_start < new.vma_end
    → IsFree new.vma_start (new.vma_end - new.vma_start) areas
    → lookup_area vfn (insert_area new areas)
      ≡ (if leb new.vma_start vfn && ltb vfn new.vma_end then some new else lookup_area vfn areas)
unfolding insert_area lookup_area
lookup_area-insert_area vfn new [] ne free = refl
lookup_area-insert_area vfn new (a ∷ rest) ne (apart, free) =
    ground (arith, lookup_area-insert_area vfn new rest)

-- An area as `vmmap_insert` leaves it.
abbrev pub owned_by : Vmmap → Vmarea → Vmarea
owned_by m new = record new { vma_vmmap = some m.vmm_addr }

-- The assertions of `vmmap_insert` hold.
pub vmmap_insert-ok :
    (l : Layout) (m : Vmmap) (new : Vmarea)
    → new.vma_vmmap ≡ none
    → low_page l ≤ new.vma_start
    → new.vma_start < new.vma_end
    → new.vma_end ≤ high_page l
    → vmmap_insert l m new ≡ ok (record m { vmm_list = insert_area (owned_by m new) m.vmm_list })
unfolding vmmap_insert
vmmap_insert-ok l m new unowned lo ne hi = ground arith

-- An unowned area of user memory that overlaps no area of a well-formed map is inserted: the map
-- stays well-formed, the pages of the area belong to it, and all others to the areas they had.
pub vmmap_insert-IsValid :
    (l : Layout) (m : Vmmap) (new : Vmarea)
    → IsValid l m
    → new.vma_vmmap ≡ none
    → low_page l ≤ new.vma_start
    → new.vma_start < new.vma_end
    → new.vma_end ≤ high_page l
    → IsFree new.vma_start (new.vma_end - new.vma_start) m.vmm_list
    → (m' : Vmmap) × (vmmap_insert l m new ≡ ok m')
      × IsValid l m'
      × ((vfn : ℕ)
          → vmmap_lookup m' vfn ≡ (
              if leb new.vma_start vfn && ltb vfn new.vma_end
              then some (owned_by m new)
              else vmmap_lookup m vfn))
unfolding vmmap_lookup
vmmap_insert-IsValid l m new v unowned lo ne hi free = (
  record m { vmm_list = insert_area (owned_by m new) m.vmm_list },
  vmmap_insert-ok l m new unowned lo ne hi,
  record {
    ascending =
        insert_area-Ascending (low_page l) (high_page l) (owned_by m new) m.vmm_list lo ne hi free
          v.ascending;
  },
  λ vfn. lookup_area-insert_area vfn (owned_by m new) m.vmm_list ne free,
)

pub range_empty_loop-IsFree :
    (p n : ℕ) (areas : List Vmarea)
    → ((range_empty_loop p (p + n) areas ≡ true) → IsFree p n areas)
      × (IsFree p n areas → (range_empty_loop p (p + n) areas ≡ true))
unfolding range_empty_loop
range_empty_loop-IsFree p n [] = (λ _. tt, λ _. refl)
range_empty_loop-IsFree p n (a ∷ rest) = ground (arith, range_empty_loop-IsFree p n rest)

pub lookup_area-IsFree :
    (p n vfn : ℕ) (areas : List Vmarea)
    → IsFree p n areas
    → p ≤ vfn
    → vfn < p + n
    → lookup_area vfn areas ≡ none
unfolding lookup_area
lookup_area-IsFree p n vfn [] free lo hi = refl
lookup_area-IsFree p n vfn (a ∷ rest) (apart, free) lo hi =
    ground (arith, lookup_area-IsFree p n vfn rest)

-- A page of the range that some area covers.
abbrev pub Occupied : ℕ → ℕ → List Vmarea → Type 0
Occupied p n areas =
    (vfn : ℕ) × (p ≤ vfn) × (vfn < p + n) × (a : Vmarea) × (lookup_area vfn areas ≡ some a)

pub range_empty_loop-Occupied :
    (p n from high : ℕ) (areas : List Vmarea)
    → 0 < n
    → Ascending from high areas
    → range_empty_loop p (p + n) areas ≡ false
    → Occupied p n areas
unfolding range_empty_loop lookup_area
range_empty_loop-Occupied p n from high [] pos v e = cc
range_empty_loop-Occupied p n from high (a ∷ rest) pos v e =
    elim (Bool-cases (ltb p a.vma_end && ltb a.vma_start (p + n))) [
      | inl hit ↦ (max p a.vma_start, omega arith, ground arith, a, ground arith)
      | inr miss ↦
          let (vfn, lo, hi, b, found) =
            range_empty_loop-Occupied p n a.vma_end high rest pos v.3 (ground arith) in
          (vfn, lo, hi, b, ground arith)
    ]

-- On a well-formed map and a non-empty range of user memory `vmmap_is_range_empty` passes its
-- assertions; it returns 1 only if no page of the range lies in an area, and 0 only if some page
-- does.
pub vmmap_is_range_empty_lem :
    (l : Layout) (m : Vmmap) (p n : ℕ)
    → IsLayout l
    → IsValid l m
    → 0 < n
    → low_page l ≤ p
    → p + n ≤ high_page l
    → (b : Bool) × (vmmap_is_range_empty l m p n ≡ ok b)
      × (b ≡ true → (vfn : ℕ) → p ≤ vfn → vfn < p + n → vmmap_lookup m vfn ≡ none)
      × (b ≡ false
          → (vfn : ℕ) × (p ≤ vfn) × (vfn < p + n) × (a : Vmarea) × (vmmap_lookup m vfn ≡ some a))
unfolding vmmap_is_range_empty vmmap_lookup
vmmap_is_range_empty_lem l m p n il v pos lo hi = (
  range_empty_loop p (p + n) m.vmm_list,
  ground (arith, il.bounded),
  λ e vfn a b.
      lookup_area-IsFree p n vfn m.vmm_list ((range_empty_loop-IsFree p n m.vmm_list).0 e) a b,
  range_empty_loop-Occupied p n (low_page l) (high_page l) m.vmm_list pos v.ascending,
)

-- A range of user memory that is free is found to be empty.
pub vmmap_is_range_empty-IsFree :
    (l : Layout) (m : Vmmap) (p n : ℕ)
    → IsLayout l
    → 0 < n
    → low_page l ≤ p
    → p + n ≤ high_page l
    → IsFree p n m.vmm_list
    → vmmap_is_range_empty l m p n ≡ ok true
unfolding vmmap_is_range_empty
vmmap_is_range_empty-IsFree l m p n il pos lo hi free =
    ground (arith, il.bounded, (range_empty_loop-IsFree p n m.vmm_list).1 free)
