-- ===== src/Vm/Fork/Found.antt =====
-- Which area `vmmap_lookup` finds in a list that is in order, and which one `do_fork` changes.
use weenix_kernel_implementa.Common.{
  ℕ, ◌≤◌, ◌<◌, ◌≡◌, refl, ap, true, false, ◌&&◌, some, List, [], ◌∷◌, ◌++◌, ltb, leb, All, arith,
}
use weenix_kernel_implementa.Vm.Vmmap.{Vmarea, lookup_area}
use weenix_kernel_implementa.Vm.Fork.{set_area_obj}

-- No area covers a page from `v` on.
abbrev pub Below : ℕ → List Vmarea → Type 0
Below v = All (λ a. a.vma_end ≤ v)

pub Below-mono : (v w : ℕ) (pre : List Vmarea) → v ≤ w → Below v pre → Below w pre
Below-mono v w [] le below = tt
Below-mono v w (a ∷ rest) le below = (omega (arith, below.0), Below-mono v w rest le below.1)

pub Below-snoc :
    (v : ℕ) (pre : List Vmarea) (a : Vmarea) → Below v pre → a.vma_end ≤ v → Below v (pre ++ a ∷ [])
Below-snoc v [] a below ends = (ends, tt)
Below-snoc v (x ∷ xs) a below ends = (below.0, Below-snoc v xs a below.1 ends)

-- The area behind those that end below its start is the one that is found, and changed.
pub lookup_area-behind :
    (pre rest : List Vmarea) (a : Vmarea)
    → Below a.vma_start pre
    → a.vma_start < a.vma_end
    → lookup_area a.vma_start (pre ++ a ∷ rest) ≡ some a
unfolding lookup_area
lookup_area-behind [] rest a below filled =
    let here : (leb a.vma_start a.vma_start && ltb a.vma_start a.vma_end) ≡ true = ground arith in
    rw here refl
lookup_area-behind (x ∷ xs) rest a below filled =
    let before : ltb a.vma_start x.vma_end ≡ false = ground (arith, below.0) in
    let past : (leb x.vma_start a.vma_start && ltb a.vma_start x.vma_end) ≡ false = ground arith in
    rw past (lookup_area-behind xs rest a below.1 filled)

pub set_area_obj-behind :
    (pre rest : List Vmarea) (a : Vmarea) (o : ℕ)
    → Below a.vma_start pre
    → a.vma_start < a.vma_end
    → set_area_obj a.vma_start o (pre ++ a ∷ rest) ≡ pre ++ record a { vma_obj = some o } ∷ rest
unfolding set_area_obj
set_area_obj-behind [] rest a o below filled =
    let here : (leb a.vma_start a.vma_start && ltb a.vma_start a.vma_end) ≡ true = ground arith in
    rw here refl
set_area_obj-behind (x ∷ xs) rest a o below filled =
    let before : ltb a.vma_start x.vma_end ≡ false = ground (arith, below.0) in
    let past : (leb x.vma_start a.vma_start && ltb a.vma_start x.vma_end) ≡ false = ground arith in
    rw past (ap (λ l. x ∷ l) (set_area_obj-behind xs rest a o below.1 filled))
