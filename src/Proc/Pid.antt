-- ===== src/Proc/Pid.antt =====
-- `_proc_getid` of K1/proc.c: process numbers are given out in a circle below PROC_MAX_COUNT.
use weenix_kernel_implementa.Common.{
  ℕ, zero, suc, ◌+◌, ◌-◌, ◌%◌, ◌≤◌, ◌<◌, ◌≡◌, ◌≢◌, ◌⊎◌, refl, inl, inr, Bool, true, false, ◌||◌,
  Option, none, some, List, [], ◌∷◌, ◌==◌, ltb, if◌then◌else◌, arith, Bool-cases,
}

-- Some process of `_proc_list` has the number.
pub in_use : ℕ → List ℕ → Bool
in_use pid [] = false
in_use pid (p ∷ ps) = p == pid || in_use pid ps

-- The number and the new `next_pid`, or -1.
pub data Getid : Type 0 where
  free_pid : ℕ → ℕ → Getid
  no_pid : Getid

-- The outer loop, with fuel; `pids` are the numbers of the processes of `_proc_list`.
pub getid_loop : ℕ → ℕ → ℕ → List ℕ → ℕ → Option Getid
unfolding in_use
getid_loop zero proc_max_count next_pid pids pid = none
getid_loop (suc fuel) proc_max_count next_pid pids pid =
    let pid' = (pid + 1) % proc_max_count in
    let again = getid_loop fuel proc_max_count next_pid pids pid' in
    if in_use pid pids
    then (if pid' == next_pid then some no_pid else again)
    else some (free_pid pid pid')

-- At most PROC_MAX_COUNT numbers are tried.
pub proc_getid : ℕ → ℕ → List ℕ → Option Getid
unfolding getid_loop
proc_getid proc_max_count next_pid pids =
    getid_loop proc_max_count proc_max_count next_pid pids next_pid

next_mod : (pid max : ℕ) → pid < max → (pid + 1) % max ≡ (if (pid + 1) == max then 0 else pid + 1)
next_mod pid max lt = grind arith

-- The numbers between `next` and `pid`, round the circle.
abbrev Tried : ℕ → ℕ → ℕ → Type 0
Tried next pid x =
    ((next ≤ x) × (x < pid)) ⊎ ((pid < next) × (next ≤ x)) ⊎ ((pid < next) × (x < pid))

-- What a call must come to.
abbrev pub Spec : ℕ → List ℕ → Getid → Type 0
Spec max pids no_pid = (x : ℕ) → x < max → in_use x pids ≡ true
Spec max pids (free_pid pid next') =
    (pid < max)
    × (in_use pid pids ≡ false)
    × (next' < max)
    × ((pid + 1 ≡ next') ⊎ (pid + 1 ≡ max) × (next' ≡ 0))

module _ (max next : ℕ) (pids : List ℕ) (next_lt : next < max) where
  module _ (pid : ℕ) (used : in_use pid pids ≡ true) (lt : pid < max)
      (tried : (x : ℕ) → x < max → Tried next pid x → in_use x pids ≡ true) where
    seen_all : (x : ℕ) → x < max → (pid + 1) % max ≡ next → in_use x pids ≡ true
    seen_all x x_lt full = elim (Bool-cases (x == pid)) [
      | inl same ↦ let e : x ≡ pid = ground arith in rw e used
      | inr other ↦ tried x x_lt (ground (arith, next_mod pid max lt))
    ]

    seen_more :
        (x : ℕ)
        → x < max
        → (pid + 1) % max ≢ next
        → Tried next ((pid + 1) % max) x
        → in_use x pids ≡ true
    seen_more x x_lt more t = elim (Bool-cases (x == pid)) [
      | inl same ↦ let e : x ≡ pid = ground arith in rw e used
      | inr other ↦ tried x x_lt (ground (arith, next_mod pid max lt))
    ]

  getid_loop-Spec :
      (fuel pid : ℕ)
      → pid < max
      → (if ltb pid next then next - pid else max - pid + next) ≤ fuel
      → ((x : ℕ) → x < max → Tried next pid x → in_use x pids ≡ true)
      → (r : Getid) × (getid_loop fuel max next pids pid ≡ some r) × Spec max pids r
  unfolding getid_loop
  getid_loop-Spec zero pid lt enough tried = absurd (ground arith)
  getid_loop-Spec (suc fuel) pid lt enough tried = elim (Bool-cases (in_use pid pids)) [
    | inr free ↦ (
      free_pid pid ((pid + 1) % max),
      rw free refl,
      (lt, free, ground (arith, next_mod pid max lt), ground (arith, next_mod pid max lt)),
    )
    | inl used ↦ elim (Bool-cases ((pid + 1) % max == next)) [
      | inl full ↦
          (no_pid, rw (used, full) refl, λ x x_lt. seen_all pid used lt tried x x_lt (ground arith))
      | inr more ↦
          let (r, e, spec) =
            getid_loop-Spec fuel ((pid + 1) % max) (ground (arith, next_mod pid max lt))
              (ground (arith, next_mod pid max lt))
              (λ x x_lt t. seen_more pid used lt tried x x_lt (ground arith) t) in
          (r, rw (used, more, e) refl, spec)
    ]
  ]

-- With `next_pid` below PROC_MAX_COUNT the search ends. It returns -1 only if every number below
-- PROC_MAX_COUNT is in use; otherwise it returns a number below it that no process has, and
-- `next_pid` becomes the number after it, or 0 after the last one.
pub proc_getid-Spec :
    (max next : ℕ) (pids : List ℕ)
    → next < max
    → (r : Getid) × (proc_getid max next pids ≡ some r) × Spec max pids r
unfolding proc_getid
proc_getid-Spec max next pids lt =
    getid_loop-Spec max next pids lt max next lt (ground arith) (λ x x_lt t. absurd (omega arith))
