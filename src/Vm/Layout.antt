-- ===== src/Vm/Layout.antt =====
-- Constants and macros of the kernel's headers (mm/mm.h, mm/page.h, mm/mman.h), which the
-- repository does not hold: the bounds of user memory, the page size, and the conversions between
-- addresses and page numbers. A word of protection or mapping bits is the record of its bits.
use native.Mathlib.Nat.{mul-zero, suc-mul, le-div_iff_mul-le, div-lt_iff_lt-mul}
use weenix_kernel_implementa.Common.{
  ℕ, zero, suc, ◌+◌, ◌-◌, ◌*◌, ◌/◌, ◌≤◌, ◌<◌, ◌≡◌, Bool, sub32, u32_mod, arith,
}

pub record Layout : Type 0 where
  pub user_mem_low : ℕ
  pub user_mem_high : ℕ
  pub page_size : ℕ
  pub addr_to_pn : ℕ → ℕ
  pub pn_to_addr : ℕ → ℕ
  pub page_aligned : ℕ → Bool
  pub page_align_up : ℕ → ℕ

-- ADDR_TO_PN(USER_MEM_LOW) and ADDR_TO_PN(USER_MEM_HIGH).
abbrev pub low_page : Layout → ℕ
low_page l = l.addr_to_pn l.user_mem_low

abbrev pub high_page : Layout → ℕ
high_page l = l.addr_to_pn l.user_mem_high

-- PROT_READ, PROT_WRITE, PROT_EXEC.
pub record Prot : Type 0 where
  pub read : Bool
  pub write : Bool
  pub exec : Bool

-- MAP_SHARED, MAP_PRIVATE, MAP_FIXED, MAP_ANON.
pub record MapFlags : Type 0 where
  pub shared : Bool
  pub private : Bool
  pub fixed : Bool
  pub anon : Bool

-- `n` is the least number of pages that hold `size` bytes: page `n` begins at `size` bytes or less than
-- a page behind.
abbrev pub Fills : Layout → ℕ → ℕ → Type 0
Fills l size n = (size ≤ n * l.page_size) × (n * l.page_size < size + l.page_size)

product_pos : (n s : ℕ) → 0 < n * s → 0 < s
product_pos n zero pos = omega (arith, mul-zero n, pos)
product_pos n (suc s) pos = omega arith

-- The way the kernel counts them.
pub sub32-Fills :
    (l : Layout) (size n : ℕ)
    → 0 < size
    → size < u32_mod
    → Fills l size n
    → sub32 size 1 / l.page_size + 1 ≡ n
sub32-Fills l size zero pos fits (holds, least) = omega arith
sub32-Fills l size (suc k) pos fits (holds, least) =
    let one_less : sub32 size 1 ≡ size - 1 = omega arith in
    let next : suc k * l.page_size ≡ k * l.page_size + l.page_size = suc-mul k l.page_size in
    let filled : 0 < l.page_size = product_pos (suc k) l.page_size (omega arith) in
    let low : k ≤ (size - 1) / l.page_size = (le-div_iff_mul-le filled).1 (omega (arith, next)) in
    let high : (size - 1) / l.page_size < suc k = (div-lt_iff_lt-mul filled).1 (omega arith) in
    rw one_less (omega (arith, low, high))
