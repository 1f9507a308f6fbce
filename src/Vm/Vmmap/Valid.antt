-- ===== src/Vm/Vmmap/Valid.antt =====
-- What a well-formed list of areas is, what a free range is, and what a page maps to.
use weenix_kernel_implementa.Common.{ℕ, ◌+◌, ◌≤◌, ◌<◌, ◌⊎◌, List, [], ◌∷◌, u32_mod, All, arith}
use weenix_kernel_implementa.Vm.Layout.{Layout, low_page, high_page}
use weenix_kernel_implementa.Vm.Vmmap.{Vmarea, Vmmap}

-- Areas in ascending order from page `from` on: none is empty, none overlaps the next one, all end
-- at `high` at most.
abbrev pub Ascending : ℕ → ℕ → List Vmarea → Type 0
Ascending from high [] = Unit {0}
Ascending from high (a ∷ rest) =
    (from ≤ a.vma_start)
    × (a.vma_start < a.vma_end)
    × (a.vma_end ≤ high)
    × Ascending a.vma_end high rest

-- The same list from its last area down: each ends at `to` at most and starts at `low` at least.
abbrev pub Descending : ℕ → ℕ → List Vmarea → Type 0
Descending to low [] = Unit {0}
Descending to low (a ∷ rest) =
    (a.vma_end ≤ to)
    × (a.vma_start < a.vma_end)
    × (low ≤ a.vma_start)
    × Descending a.vma_start low rest

-- User memory is a range of 32-bit page numbers.
pub record IsLayout (l : Layout) : Type 0 where
  pub ordered : low_page l ≤ high_page l
  pub bounded : high_page l < u32_mod

pub record IsValid (l : Layout) (m : Vmmap) : Type 0 where
  pub ascending : Ascending (low_page l) (high_page l) m.vmm_list

-- The area has no page in the `n` pages from `p` on.
abbrev pub Apart : ℕ → ℕ → Vmarea → Type 0
Apart p n a = (p + n ≤ a.vma_start) ⊎ (a.vma_end ≤ p)

abbrev pub IsFree : ℕ → ℕ → List Vmarea → Type 0
IsFree p n = All (Apart p n)

pub Ascending-mono :
    (from from' high : ℕ) (areas : List Vmarea)
    → from ≤ from'
    → Ascending from' high areas
    → Ascending from high areas
Ascending-mono from from' high [] h v = tt
Ascending-mono from from' high (a ∷ rest) h v = (omega arith, v.1, v.2, v.3)

pub Descending-mono :
    (to to' low : ℕ) (areas : List Vmarea)
    → to ≤ to'
    → Descending to low areas
    → Descending to' low areas
Descending-mono to to' low [] h v = tt
Descending-mono to to' low (a ∷ rest) h v = (omega arith, v.1, v.2, v.3)
