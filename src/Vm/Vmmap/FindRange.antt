-- ===== src/Vm/Vmmap/FindRange.antt =====
-- `vmmap_find_range`: both directions are first fit, hence the highest or the lowest gap.
use weenix_kernel_implementa.Common.{
  ℕ, ◌+◌, ◌-◌, ◌≤◌, ◌<◌, ◌≡◌, ◌≢◌, refl, inl, inr, Option, none, some, List, [], ◌∷◌, leb, sub32,
  u32_mod, ok, panic, arith, Bool-cases, reverse_onto, All-reverse_onto, All_of_reverse_onto,
}
use weenix_kernel_implementa.Vm.Layout.{Layout, low_page, high_page}
use weenix_kernel_implementa.Vm.Vmmap.{
  Vmarea, Vmmap, hilo, lohi, hilo_loop, lohi_loop, hilo_rest, lohi_rest, vmmap_find_range,
}
use weenix_kernel_implementa.Vm.Vmmap.Valid.{
  Ascending, Descending, IsLayout, IsValid, IsFree, Apart, Descending-mono,
}

-- `n` pages from `p` on lie between `low` and `high` and in no area.
abbrev pub Fits : ℕ → ℕ → ℕ → List Vmarea → ℕ → Type 0
Fits low high n areas p = (low ≤ p) × (p + n ≤ high) × IsFree p n areas

-- The result is the highest place that fits, or there is none.
abbrev pub IsHighest : ℕ → ℕ → ℕ → List Vmarea → Option ℕ → Type 0
IsHighest low high n areas none = (q : ℕ) → ¬ Fits low high n areas q
IsHighest low high n areas (some p) =
    Fits low high n areas p × ((q : ℕ) → Fits low high n areas q → q ≤ p)

-- The result is the lowest place that fits, or there is none.
abbrev pub IsLowest : ℕ → ℕ → ℕ → List Vmarea → Option ℕ → Type 0
IsLowest low high n areas none = (q : ℕ) → ¬ Fits low high n areas q
IsLowest low high n areas (some p) =
    Fits low high n areas p × ((q : ℕ) → Fits low high n areas q → p ≤ q)

Descending-IsFree :
    (to low p n : ℕ) (areas : List Vmarea) → Descending to low areas → to ≤ p → IsFree p n areas
Descending-IsFree to low p n [] v h = tt
Descending-IsFree to low p n (a ∷ rest) v h =
    (inr (omega arith), Descending-IsFree a.vma_start low p n rest v.3 (omega arith))

Ascending-IsFree :
    (from high p n : ℕ) (areas : List Vmarea)
    → Ascending from high areas
    → p + n ≤ from
    → IsFree p n areas
Ascending-IsFree from high p n [] v h = tt
Ascending-IsFree from high p n (a ∷ rest) v h =
    (inl (omega arith), Ascending-IsFree a.vma_end high p n rest v.3 (omega arith))

reverse_onto-Descending :
    (low high from : ℕ) (areas acc : List Vmarea)
    → low ≤ from
    → from ≤ high
    → Ascending from high areas
    → Descending from low acc
    → Descending high low (reverse_onto areas acc)
reverse_onto-Descending low high from [] acc lo hi v d = Descending-mono from high low acc hi d
reverse_onto-Descending low high from (a ∷ rest) acc lo hi v d =
    reverse_onto-Descending low high a.vma_end rest (a ∷ acc) (omega arith) (omega arith) v.3
      (omega arith, v.1, omega arith, Descending-mono from a.vma_start low acc v.0 d)

-- Where the gap above an area is too small, the highest place is the one below it.
IsHighest-skip :
    (low top n : ℕ) (it : Vmarea) (rest : List Vmarea) (r : Option ℕ)
    → it.vma_end ≤ top
    → it.vma_start < it.vma_end
    → top - it.vma_end < n
    → IsHighest low it.vma_start n rest r
    → IsHighest low top n (it ∷ rest) r
IsHighest-skip low top n it rest none le ne small best =
    λ q (lo, hi, (apart, free)). best q (lo, ground arith, free)
IsHighest-skip low top n it rest (some p) le ne small ((lo, hi, free), best) = (
  (lo, omega arith, (inl hi, free)),
  λ q (lo', hi', (apart, free')). best q (lo', ground arith, free'),
)

IsHighest-here :
    (low top n : ℕ) (areas : List Vmarea)
    → n ≤ top
    → low ≤ top - n
    → IsFree (top - n) n areas
    → IsHighest low top n areas (some (top - n))
IsHighest-here low top n areas le lo free = ((lo, omega arith, free), λ q (a, b, c). omega arith)

-- Where the gap below an area is too small, the lowest place is the one above it.
IsLowest-skip :
    (base high n : ℕ) (it : Vmarea) (rest : List Vmarea) (r : Option ℕ)
    → base ≤ it.vma_start
    → it.vma_start < it.vma_end
    → it.vma_start - base < n
    → IsLowest it.vma_end high n rest r
    → IsLowest base high n (it ∷ rest) r
IsLowest-skip base high n it rest none le ne small best =
    λ q (lo, hi, (apart, free)). best q (ground arith, hi, free)
IsLowest-skip base high n it rest (some p) le ne small ((lo, hi, free), best) = (
  (omega arith, hi, (inr lo, free)),
  λ q (lo', hi', (apart, free')). best q (ground arith, hi', free'),
)

IsLowest-here :
    (base high n : ℕ) (areas : List Vmarea)
    → base + n ≤ high
    → IsFree base n areas
    → IsLowest base high n areas (some base)
IsLowest-here base high n areas hi free = ((omega arith, hi, free), λ q (a, b, c). a)

module _ (l : Layout) (n : ℕ) (pos : 0 < n) where
  hilo_some :
      (h : Vmarea) (areas : List Vmarea)
      → low_page l ≤ h.vma_start
      → h.vma_start < u32_mod
      → Descending h.vma_start (low_page l) areas
      → (r : Option ℕ) × (hilo_rest l n (hilo_loop l n (some h) areas) ≡ ok r)
        × IsHighest (low_page l) h.vma_start n areas r
  unfolding hilo_rest hilo_loop
  hilo_some h [] lo fits d = elim (Bool-cases (leb n (sub32 h.vma_start (low_page l)))) [
    | inl room ↦ (
      some (h.vma_start - n),
      ground arith,
      IsHighest-here (low_page l) h.vma_start n [] (ground arith) (ground arith) tt,
    )
    | inr full ↦ (none, ground arith, λ q (a, b, c). ground arith)
  ]
  hilo_some h (it ∷ rest) lo fits d = elim (Bool-cases (leb n (sub32 h.vma_start it.vma_end))) [
    | inl room ↦ (
      some (h.vma_start - n),
      ground arith,
      IsHighest-here (low_page l) h.vma_start n (it ∷ rest) (ground arith) (ground arith) (
        inr (ground arith),
        Descending-IsFree it.vma_start (low_page l) _ n rest d.3 (ground arith),
      ),
    )
    | inr full ↦
        let (r, e, best) = hilo_some it rest d.2 (omega arith) d.3 in
        (
          r,
          rw full e,
          IsHighest-skip (low_page l) h.vma_start n it rest r d.0 d.1 (ground arith) best,
        )
  ]

  hilo_none :
      (areas : List Vmarea)
      → areas ≢ []
      → low_page l ≤ high_page l
      → high_page l < u32_mod
      → Descending (high_page l) (low_page l) areas
      → (r : Option ℕ) × (hilo_rest l n (hilo_loop l n none areas) ≡ ok r)
        × IsHighest (low_page l) (high_page l) n areas r
  unfolding hilo_rest hilo_loop
  hilo_none [] ne lo fits d = absurd (ne refl)
  hilo_none (it ∷ rest) ne lo fits d = elim (Bool-cases (leb n (sub32 (high_page l) it.vma_end))) [
    | inl room ↦ (
      some (high_page l - n),
      ground arith,
      IsHighest-here (low_page l) (high_page l) n (it ∷ rest) (ground arith) (ground arith) (
        inr (ground arith),
        Descending-IsFree it.vma_start (low_page l) _ n rest d.3 (ground arith),
      ),
    )
    | inr full ↦
        let (r, e, best) = hilo_some it rest d.2 (omega arith) d.3 in
        (
          r,
          rw full e,
          IsHighest-skip (low_page l) (high_page l) n it rest r d.0 d.1 (ground arith) best,
        )
  ]

  lohi_some :
      (h : Vmarea) (areas : List Vmarea)
      → h.vma_end ≤ high_page l
      → high_page l < u32_mod
      → Ascending h.vma_end (high_page l) areas
      → (r : Option ℕ) × (lohi_rest l n (lohi_loop l n (some h) areas) ≡ ok r)
        × IsLowest h.vma_end (high_page l) n areas r
  unfolding lohi_rest lohi_loop
  lohi_some h [] hi fits v = elim (Bool-cases (leb n (sub32 (high_page l) h.vma_end))) [
    | inl room ↦
        (some h.vma_end, ground arith, IsLowest-here h.vma_end (high_page l) n [] (ground arith) tt)
    | inr full ↦ (none, ground arith, λ q (a, b, c). ground arith)
  ]
  lohi_some h (it ∷ rest) hi fits v = elim (Bool-cases (leb n (sub32 it.vma_start h.vma_end))) [
    | inl room ↦ (
      some h.vma_end,
      ground arith,
      IsLowest-here h.vma_end (high_page l) n (it ∷ rest) (ground arith) (
        inl (ground arith),
        Ascending-IsFree it.vma_end (high_page l) _ n rest v.3 (ground arith),
      ),
    )
    | inr full ↦
        let (r, e, best) = lohi_some it rest v.2 fits v.3 in
        (
          r,
          rw full e,
          IsLowest-skip h.vma_end (high_page l) n it rest r v.0 v.1 (ground arith) best,
        )
  ]

  lohi_none :
      (areas : List Vmarea)
      → areas ≢ []
      → high_page l < u32_mod
      → Ascending (low_page l) (high_page l) areas
      → (r : Option ℕ) × (lohi_rest l n (lohi_loop l n none areas) ≡ ok r)
        × IsLowest (low_page l) (high_page l) n areas r
  unfolding lohi_rest lohi_loop
  lohi_none [] ne fits v = absurd (ne refl)
  lohi_none (it ∷ rest) ne fits v = elim (Bool-cases (leb n (sub32 it.vma_start (low_page l)))) [
    | inl room ↦ (
      some (low_page l),
      ground arith,
      IsLowest-here (low_page l) (high_page l) n (it ∷ rest) (ground arith) (
        inl (ground arith),
        Ascending-IsFree it.vma_end (high_page l) _ n rest v.3 (ground arith),
      ),
    )
    | inr full ↦
        let (r, e, best) = lohi_some it rest v.2 fits v.3 in
        (
          r,
          rw full e,
          IsLowest-skip (low_page l) (high_page l) n it rest r v.0 v.1 (ground arith) best,
        )
  ]

-- The order in which the areas are walked does not matter to what fits.
IsHighest-reverse :
    (low high n : ℕ) (areas : List Vmarea) (r : Option ℕ)
    → IsHighest low high n (reverse_onto areas []) r
    → IsHighest low high n areas r
IsHighest-reverse low high n areas none best =
    λ q (lo, hi, free). best q (lo, hi, All-reverse_onto (Apart q n) areas [] free tt)
IsHighest-reverse low high n areas (some p) ((lo, hi, free), best) = (
  (lo, hi, (All_of_reverse_onto (Apart p n) areas [] free).0),
  λ q (lo', hi', free'). best q (lo', hi', All-reverse_onto (Apart q n) areas [] free' tt),
)

reverse_onto-ne : (x : Vmarea) (xs acc : List Vmarea) → reverse_onto xs (x ∷ acc) ≢ []
reverse_onto-ne x [] acc e = cc
reverse_onto-ne x (y ∷ xs) acc e = reverse_onto-ne y xs (x ∷ acc) e

reverse-ne : (areas : List Vmarea) → areas ≢ [] → reverse_onto areas [] ≢ []
reverse-ne [] ne = ne
reverse-ne (x ∷ xs) ne = reverse_onto-ne x xs []

-- On a well-formed map that has an area, `vmmap_find_range` with VMMAP_DIR_HILO returns the highest
-- start of `n` free pages of user memory, and -1 only if there are no such pages.
pub vmmap_find_range-IsHighest :
    (l : Layout) (m : Vmmap) (n : ℕ)
    → IsLayout l
    → IsValid l m
    → m.vmm_list ≢ []
    → 0 < n
    → (r : Option ℕ) × (vmmap_find_range l m n hilo ≡ ok r)
      × IsHighest (low_page l) (high_page l) n m.vmm_list r
unfolding vmmap_find_range
vmmap_find_range-IsHighest l m n il v ne pos =
    let down : Descending (high_page l) (low_page l) (reverse_onto m.vmm_list []) =
      reverse_onto-Descending (low_page l) (high_page l) (low_page l) m.vmm_list [] (omega arith)
        il.ordered v.ascending tt in
    let (r, e, best) =
      hilo_none l n pos (reverse_onto m.vmm_list []) (reverse-ne m.vmm_list ne) il.ordered
        il.bounded down in
    (r, e, IsHighest-reverse (low_page l) (high_page l) n m.vmm_list r best)

-- On a well-formed map that has an area, `vmmap_find_range` with VMMAP_DIR_LOHI returns the lowest
-- start of `n` free pages of user memory, and -1 only if there are no such pages.
pub vmmap_find_range-IsLowest :
    (l : Layout) (m : Vmmap) (n : ℕ)
    → IsLayout l
    → IsValid l m
    → m.vmm_list ≢ []
    → 0 < n
    → (r : Option ℕ) × (vmmap_find_range l m n lohi ≡ ok r)
      × IsLowest (low_page l) (high_page l) n m.vmm_list r
unfolding vmmap_find_range
vmmap_find_range-IsLowest l m n il v ne pos = lohi_none l n pos m.vmm_list ne il.bounded v.ascending

-- On a map without areas the search from the top goes on to read through a NULL `holder`.
pub vmmap_find_range-nil :
    (l : Layout) (m : Vmmap) (n : ℕ) → m.vmm_list ≡ [] → vmmap_find_range l m n hilo ≡ panic
unfolding vmmap_find_range hilo_loop hilo_rest
vmmap_find_range-nil l m n e = rw e
