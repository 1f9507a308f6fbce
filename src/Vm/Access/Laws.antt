-- ===== src/Vm/Access/Laws.antt =====
-- What the two tests of K3/access.c decide.
use weenix_kernel_implementa.Common.{
  ℕ, zero, suc, ◌+◌, ◌*◌, ◌≤◌, ◌<◌, ◌≡◌, ap, ◌∙◌, refl, inl, inr, Bool, true, false, ◌&&◌, ◌||◌,
  some, ltb, add32, u32_mod, arith, Bool-cases,
}
use weenix_kernel_implementa.Vm.Layout.{Layout, Prot}
use weenix_kernel_implementa.Vm.Vmmap.{Vmarea, Vmmap, vmmap_lookup}
use weenix_kernel_implementa.Vm.Access.{prot_meets, addr_perm, range_perm_loop, range_perm}

-- The addresses that the loop looks at: one in each `page_size` bytes, from `addr` up to `end`.
abbrev pub Sampled : Layout → Vmmap → Prot → ℕ → ℕ → Type 0
Sampled l m perm addr end =
    (k : ℕ) → addr + k * l.page_size < end → addr_perm l m (addr + k * l.page_size) perm ≡ true

abbrev pub Verdict : Layout → Vmmap → Prot → ℕ → ℕ → Bool → Type 0
Verdict l m perm addr end true = Sampled l m perm addr end
Verdict l m perm addr end false =
    (k : ℕ) × (addr + k * l.page_size < end) × (addr_perm l m (addr + k * l.page_size) perm ≡ false)

module _ (l : Layout) (m : Vmmap) (perm : Prot) (end : ℕ) (fits : end + l.page_size ≤ u32_mod) where
  Verdict-shift :
      (addr : ℕ) (b : Bool)
      → addr_perm l m addr perm ≡ true
      → Verdict l m perm (addr + l.page_size) end b
      → Verdict l m perm addr end b
  Verdict-shift addr true here rest = sampled
    where
      sampled : Sampled l m perm addr end
      sampled zero lt = grind (arith, here)
      sampled (suc k) lt = grind (arith, rest k)
  Verdict-shift addr false here (k, lt, e) = (suc k, grind arith, grind arith)

  range_perm_loop-Verdict :
      (fuel addr : ℕ)
      → 0 < l.page_size
      → end < fuel + addr
      → 0 < fuel
      → (b : Bool) × (range_perm_loop l m perm fuel addr end ≡ some b) × Verdict l m perm addr end b
  unfolding range_perm_loop
  range_perm_loop-Verdict zero addr pos enough some_fuel = absurd (omega arith)
  range_perm_loop-Verdict (suc fuel) addr pos enough some_fuel = elim (Bool-cases (ltb addr end)) [
    | inl more ↦ elim (Bool-cases (addr_perm l m addr perm)) [
      | inl granted ↦
          let next : add32 addr l.page_size ≡ addr + l.page_size = ground arith in
          let (b, e, verdict) =
            range_perm_loop-Verdict fuel (addr + l.page_size) pos (ground arith) (ground arith) in
          (b, rw (more, granted, next, e) refl, Verdict-shift addr b granted verdict)
      | inr refused ↦ (false, rw (more, refused) refl, (0, ground arith, ground arith))
    ]
    | inr done ↦ (true, rw done refl, λ k lt. absurd (ground arith))
  ]

-- Where the range and one page more end within 32 bits, `range_perm` returns (the length of the
-- range is more than enough fuel) and decides whether every address `avaddr + k * PAGE_SIZE` below
-- the end of the range is permitted: it returns 1 if all are, and 0 only if one is not.
pub range_perm-Verdict :
    (l : Layout) (m : Vmmap) (avaddr len : ℕ) (perm : Prot)
    → 0 < l.page_size
    → avaddr + len + l.page_size ≤ u32_mod
    → (b : Bool) × (range_perm l m (len + 1) avaddr len perm ≡ some b)
      × Verdict l m perm avaddr (avaddr + len) b
unfolding range_perm
range_perm-Verdict l m avaddr len perm pos fits =
    let sum : add32 avaddr len ≡ avaddr + len = omega arith in
    rw sum (
      range_perm_loop-Verdict l m perm (avaddr + len) fits (len + 1) avaddr pos (omega arith)
        (omega arith))

Verdict-short :
    (l : Layout) (m : Vmmap) (avaddr len : ℕ) (perm : Prot) (b : Bool)
    → 0 < len
    → len ≤ l.page_size
    → Verdict l m perm avaddr (avaddr + len) b
    → b ≡ addr_perm l m avaddr perm
Verdict-short l m avaddr len perm true some_bytes short sampled = grind (arith, sampled 0)
Verdict-short l m avaddr len perm false some_bytes short (zero, lt, e) = ground arith
Verdict-short l m avaddr len perm false some_bytes short (suc k, lt, e) = absurd (grind arith)

-- A range of at most one page's length is judged by its first address alone, also where it runs on
-- into the next page.
pub range_perm_short :
    (l : Layout) (m : Vmmap) (avaddr len : ℕ) (perm : Prot)
    → 0 < len
    → len ≤ l.page_size
    → avaddr + len + l.page_size ≤ u32_mod
    → range_perm l m (len + 1) avaddr len perm ≡ some (addr_perm l m avaddr perm)
range_perm_short l m avaddr len perm some_bytes short fits =
    let (b, e, verdict) = range_perm-Verdict l m avaddr len perm (omega arith) fits in
    e ∙ ap some (Verdict-short l m avaddr len perm b some_bytes short verdict)

-- `addr_perm` returns 1 exactly if an area covers the address and grants one of the permissions
-- that are asked for.
pub addr_perm_lem :
    (l : Layout) (m : Vmmap) (vaddr : ℕ) (perm : Prot)
    → ((addr_perm l m vaddr perm ≡ true)
        → (a : Vmarea) × (vmmap_lookup m (l.addr_to_pn vaddr) ≡ some a)
          × (prot_meets perm a.vma_prot ≡ true))
      × ((a : Vmarea)
          → vmmap_lookup m (l.addr_to_pn vaddr) ≡ some a
          → prot_meets perm a.vma_prot ≡ true
          → addr_perm l m vaddr perm ≡ true)
unfolding addr_perm
addr_perm_lem l m vaddr perm = (λ h. ground arith, λ a e h. ground arith)

-- Asking for two permissions where one is granted gets a 1, against the comment of `addr_perm`:
-- wherever an area covers the address and may be read but not written, reading and writing together
-- are found to be permitted.
pub addr_perm_too_weak :
    (l : Layout) (m : Vmmap) (vaddr : ℕ) (a : Vmarea)
    → vmmap_lookup m (l.addr_to_pn vaddr) ≡ some a
    → a.vma_prot.read ≡ true
    → a.vma_prot.write ≡ false
    → (addr_perm l m vaddr (record { read = true; write = true; exec = false }) ≡ true)
      × (addr_perm l m vaddr (record { read = false; write = true; exec = false }) ≡ false)
unfolding addr_perm
addr_perm_too_weak l m vaddr a e r w = (ground arith, ground arith)

-- A range of at most one page's length is permitted if an area covers its first address and grants
-- one of the permissions that are asked for.
pub range_perm-granted :
    (l : Layout) (m : Vmmap) (avaddr len : ℕ) (a : Vmarea) (perm : Prot)
    → vmmap_lookup m (l.addr_to_pn avaddr) ≡ some a
    → (perm.read && a.vma_prot.read
        || perm.write && a.vma_prot.write
        || perm.exec && a.vma_prot.exec)
      ≡ true
    → 0 < len
    → len ≤ l.page_size
    → avaddr + len + l.page_size ≤ u32_mod
    → range_perm l m (len + 1) avaddr len perm ≡ some true
unfolding prot_meets
range_perm-granted l m avaddr len a perm there granted some_bytes short fits =
    range_perm_short l m avaddr len perm some_bytes short fits
    ∙ ap some ((addr_perm_lem l m avaddr perm).1 a there granted)
