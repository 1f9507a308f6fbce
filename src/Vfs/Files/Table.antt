-- ===== src/Vfs/Files/Table.antt =====
-- `get_empty_fd`: the lowest empty descriptor.
use weenix_kernel_implementa.Common.{
  ℕ, zero, suc, ◌+◌, ◌≤◌, ◌<◌, ◌≡◌, ◌≢◌, refl, sym, subst, inl, inr, none, some, Option-cases,
  arith, ◌==◌, Bool-cases,
}
use weenix_kernel_implementa.Vfs.Files.{
  Files, VfsOps, Ret, ret, ebadf, eisdir, enotdir, einval, emfile, empty_fd_loop, get_empty_fd,
}

-- From `from` on below `to`: the result is the first empty descriptor, or all are in use.
abbrev pub IsLowestEmpty : {Store : Type 0} → ℕ → ℕ → Files Store → Ret → Type 0
IsLowestEmpty from to s (ret fd) =
    (from ≤ fd)
    × (fd < to)
    × (s.p_files fd ≡ none)
    × ((x : ℕ) → from ≤ x → x < fd → s.p_files x ≢ none)
IsLowestEmpty from to s emfile = (x : ℕ) → from ≤ x → x < to → s.p_files x ≢ none
IsLowestEmpty from to s _ = ⊥

used-ne :
    {Store : Type 0} (s : Files Store) (fd f : ℕ) → s.p_files fd ≡ some f → s.p_files fd ≢ none
used-ne s fd f e = λ h. ground arith

in_use_from :
    {Store : Type 0} (s : Files Store) (fd f x : ℕ)
    → s.p_files fd ≡ some f
    → (fd < x → s.p_files x ≢ none)
    → fd ≤ x
    → s.p_files x ≢ none
in_use_from s fd f x e later le = elim (Bool-cases (fd == x)) [
  | inl same ↦ let eq : fd ≡ x = ground arith in rw (← eq) (used-ne s fd f e)
  | inr other ↦ later (ground arith)
]

IsLowestEmpty-suc :
    {Store : Type 0} (s : Files Store) (fd to f : ℕ) (r : Ret)
    → s.p_files fd ≡ some f
    → IsLowestEmpty (suc fd) to s r
    → IsLowestEmpty fd to s r
IsLowestEmpty-suc s fd to f (ret x) e (lo, hi, empty, best) =
    (omega arith, hi, empty, λ y a b. in_use_from s fd f y e (λ lt. best y (omega arith) b) a)
IsLowestEmpty-suc s fd to f emfile e all =
    λ y a b. in_use_from s fd f y e (λ lt. all y (omega arith) b) a
IsLowestEmpty-suc s fd to f ebadf e h = h
IsLowestEmpty-suc s fd to f eisdir e h = h
IsLowestEmpty-suc s fd to f enotdir e h = h
IsLowestEmpty-suc s fd to f einval e h = h

pub empty_fd_loop-IsLowestEmpty :
    {Store : Type 0} (n fd to : ℕ) (s : Files Store)
    → fd + n ≡ to
    → IsLowestEmpty fd to s (empty_fd_loop n fd s)
unfolding empty_fd_loop
empty_fd_loop-IsLowestEmpty zero fd to s e = λ x a b. absurd (omega arith)
empty_fd_loop-IsLowestEmpty (suc n) fd to s sum = elim (Option-cases (s.p_files fd)) [
  | inl e ↦
      let here : empty_fd_loop (suc n) fd s ≡ ret fd = rw (e, empty_fd_loop) refl in
      subst (IsLowestEmpty fd to s) (sym here)
        (omega arith, omega arith, e, λ x a b. absurd (omega arith))
  | inr (f, e) ↦
      let later : empty_fd_loop (suc n) fd s ≡ empty_fd_loop n (suc fd) s =
        rw (e, empty_fd_loop) refl in
      subst (IsLowestEmpty fd to s) (sym later) (
        IsLowestEmpty-suc s fd to f (empty_fd_loop n (suc fd) s) e
          (empty_fd_loop-IsLowestEmpty n (suc fd) to s (omega arith)))
]

-- `get_empty_fd` returns the lowest descriptor below NFILES that is empty, and -EMFILE exactly if
-- all of them are in use.
pub get_empty_fd-IsLowestEmpty :
    (ops : VfsOps) (s : Files ops.Store) → IsLowestEmpty 0 ops.nfiles s (get_empty_fd ops s)
unfolding get_empty_fd
get_empty_fd-IsLowestEmpty ops s =
    empty_fd_loop-IsLowestEmpty ops.nfiles 0 ops.nfiles s (omega arith)
