-- ===== src/Vfs/Namev/Opened.antt =====
-- References to vnodes over `open_namev`.
use weenix_kernel_implementa.Common.{
  ℕ, ◌+◌, ◌≡◌, refl, inl, inr, false, not, ◌&&◌, ◌||◌, Option, List, Exec, ok, panic, Bool-cases,
  arith, subst,
}
use weenix_kernel_implementa.Vfs.Vnode.{eisdir, Result, success, error, VnodeOps}
use weenix_kernel_implementa.Vfs.Namev.{
  OpenFlags, lookup, dir_namev, open_looked_up, open_found, open_namev, is_enoent,
}
use weenix_kernel_implementa.Vfs.Namev.Balance.{
  delta, held, held_dir, IsVnodeOps, Adds, vput-Adds, lookup-Adds, dir_namev-Adds,
}

-- Without O_CREAT no assertion can fail.
module _ (ops : VnodeOps) where
  open_looked_up-returns :
      (flag : OpenFlags) (dir : ℕ) (name : List ℕ) (r : Result ℕ) (st : ops.Store)
      → flag.o_creat ≡ false
      → (x : Result ℕ × ops.Store) × (open_looked_up ops flag dir name (r, st) ≡ ok x)
  unfolding open_looked_up
  open_looked_up-returns flag dir name (error e) st plain =
      ((error e, ops.vput dir st), rw plain refl)
  open_looked_up-returns flag dir name (success v) st plain =
      elim (Bool-cases ((flag.o_wronly || flag.o_rdwr) && ops.has_mkdir v)) [
        | inl bad ↦ ((error eisdir, ops.vput dir (ops.vput v st)), rw bad refl)
        | inr fine ↦ ((success v, ops.vput dir st), rw fine refl)
      ]

  open_found-returns :
      (flag : OpenFlags) (r : Result (ℕ × List ℕ)) (st : ops.Store)
      → flag.o_creat ≡ false
      → (x : Result ℕ × ops.Store) × (open_found ops flag (r, st) ≡ ok x)
  unfolding open_found
  open_found-returns flag (error e) st plain = ((error e, st), refl)
  open_found-returns flag (success (dir, name)) st plain =
      open_looked_up-returns flag dir name (lookup ops dir name st).0 (lookup ops dir name st).1
        plain

  pub open_namev-returns :
      (path : List ℕ) (flag : OpenFlags) (base : Option ℕ) (cwd : ℕ) (st : ops.Store)
      → flag.o_creat ≡ false
      → (x : Result ℕ × ops.Store) × (open_namev ops path flag base cwd st ≡ ok x)
  unfolding open_namev
  open_namev-returns path flag base cwd st plain =
      open_found-returns flag (dir_namev ops base cwd path st).0 (dir_namev ops base cwd path st).1
        plain

module _ (ops : VnodeOps) (refcount : ℕ → ops.Store → ℕ) (laws : IsVnodeOps ops refcount) where
  -- A result of `Exec`, if there is one, holds what it returns.
  abbrev pub AddsHeld : ops.Store → Exec (Result ℕ × ops.Store) → Type 0
  AddsHeld st0 panic = Unit {0}
  AddsHeld st0 (ok (r, st)) = Adds ops refcount laws st0 st (held r)

  open_looked_up-Adds :
      (flag : OpenFlags) (dir : ℕ) (name : List ℕ) (r : Result ℕ) (st0 st : ops.Store)
      → Adds ops refcount laws st0 st (λ g. delta dir g + held r g)
      → AddsHeld st0 (open_looked_up ops flag dir name (r, st))
  unfolding open_looked_up
  open_looked_up-Adds flag dir name (error e) st0 st adds =
      elim (Bool-cases (not flag.o_creat || ops.has_create dir)) [
        | inr lacks ↦ rw (lacks, open_looked_up) tt
        | inl has ↦ elim (Bool-cases (flag.o_creat && is_enoent e)) [
          | inl creates ↦
              let made = ops.create_op dir name st in
              rw (has, creates, open_looked_up)
                (vput-Adds ops refcount laws dir (held made.0) (λ g. delta dir g + held made.0 g)
                  st0 made.1 (λ g. omega arith)
                  (λ g. omega (arith, laws.create_count dir g name st, adds g)))
          | inr fails ↦
              rw (has, fails, open_looked_up)
                (vput-Adds ops refcount laws dir (λ g. 0) (λ g. delta dir g + 0) st0 st
                  (λ g. omega arith) adds)
        ]
      ]
  open_looked_up-Adds flag dir name (success v) st0 st adds =
      elim (Bool-cases ((flag.o_wronly || flag.o_rdwr) && ops.has_mkdir v)) [
        | inl bad ↦
            rw (bad, open_looked_up)
              (vput-Adds ops refcount laws dir (λ g. 0) (delta dir) st0 (ops.vput v st)
                (λ g. omega arith)
                (vput-Adds ops refcount laws v (delta dir) (λ g. delta dir g + delta v g) st0 st
                  (λ g. omega arith) adds))
        | inr fine ↦
            rw (fine, open_looked_up)
              (vput-Adds ops refcount laws dir (delta v) (λ g. delta dir g + delta v g) st0 st
                (λ g. omega arith) adds)
      ]

  open_found-Adds :
      (flag : OpenFlags) (r : Result (ℕ × List ℕ)) (st0 st : ops.Store)
      → Adds ops refcount laws st0 st (held_dir r)
      → AddsHeld st0 (open_found ops flag (r, st))
  unfolding open_found
  open_found-Adds flag (error e) st0 st adds = adds
  open_found-Adds flag (success (dir, name)) st0 st adds =
      open_looked_up-Adds flag dir name (lookup ops dir name st).0 st0 (lookup ops dir name st).1
        (λ g. omega (arith, lookup-Adds ops refcount laws dir name st g, adds g))

  open_namev-AddsHeld :
      (path : List ℕ) (flag : OpenFlags) (base : Option ℕ) (cwd : ℕ) (st : ops.Store)
      → AddsHeld st (open_namev ops path flag base cwd st)
  unfolding open_namev
  open_namev-AddsHeld path flag base cwd st =
      open_found-Adds flag (dir_namev ops base cwd path st).0 st (dir_namev ops base cwd path st).1
        (dir_namev-Adds ops refcount laws base cwd path st)

  -- `open_namev` gives one more reference to the vnode that it returns, and none with an error; without
  -- O_CREAT it returns in any case.
  pub open_namev-Adds :
      (path : List ℕ) (flag : OpenFlags) (base : Option ℕ) (cwd : ℕ) (st : ops.Store)
      → AddsHeld st (open_namev ops path flag base cwd st)
        × (flag.o_creat ≡ false
            → (r : Result ℕ) × (st' : ops.Store) × (open_namev ops path flag base cwd st
                ≡ ok (r, st'))
              × Adds ops refcount laws st st' (held r))
  open_namev-Adds path flag base cwd st =
      let adds = open_namev-AddsHeld path flag base cwd st in
      (
        adds,
        λ plain.
            let (x, e) = open_namev-returns ops path flag base cwd st plain in
            (x.0, x.1, e, subst (AddsHeld st) e adds),
      )
