-- ===== src/Vfs/Paths/Balance.antt =====
-- References to vnodes over the calls on paths.
use weenix_kernel_implementa.Common.{
  ℕ, ◌+◌, ◌≡◌, refl, ap, ◌∙◌, ◌⊎◌, inl, inr, Bool, true, false, List, Exec, ok, panic, Bool-cases,
  arith,
}
use weenix_kernel_implementa.Vfs.Vnode.{enotdir, Result, success, error, VnodeOps}
use weenix_kernel_implementa.Vfs.Namev.{lookup}
use weenix_kernel_implementa.Vfs.Namev.Balance.{
  delta, held, held_dir, IsVnodeOps, Adds, vput-Adds, lookup-Adds,
}
use weenix_kernel_implementa.Vfs.Paths.{is_enotdir, make_entry, mknod_at, mkdir_at}

abbrev error_enotdir : {A : Type 0} → Result A → Bool
error_enotdir (error e) = is_enotdir e
error_enotdir (success a) = false

-- A vnode with the operation `lookup` has those that make entries, and each has `stat`.
pub record IsOffered (ops : VnodeOps) : Type 0 where
  pub mknod_offered : (v : ℕ) → ops.has_lookup v ≡ true → ops.has_mknod v ≡ true
  pub mkdir_offered : (v : ℕ) → ops.has_lookup v ≡ true → ops.has_mkdir v ≡ true
  pub stat_offered : (v : ℕ) → ops.has_stat v ≡ true

module _ (ops : VnodeOps) (refcount : ℕ → ops.Store → ℕ) (laws : IsVnodeOps ops refcount) where
  abbrev pub Same : ops.Store → ops.Store → Type 0
  Same st st' = (g : ℕ) → refcount g st' ≡ refcount g st

  -- The call returns and leaves the counts as they were.
  abbrev pub Keeps : ops.Store → Exec (Result ℕ × ops.Store) → Type 0
  Keeps st0 panic = ⊥
  Keeps st0 (ok (r, st)) = Same st0 st

  pub put :
      (v : ℕ) (more more' : ℕ → ℕ) (st0 st : ops.Store)
      → ((g : ℕ) → more' g ≡ more g + delta v g)
      → Adds ops refcount laws st0 st more'
      → Adds ops refcount laws st0 (ops.vput v st) more
  put = vput-Adds ops refcount laws

  pub Same-of : (st0 st : ops.Store) → Adds ops refcount laws st0 st (λ g. 0) → Same st0 st
  Same-of st0 st adds = λ g. omega (arith, adds g)

  pub put_one :
      (v : ℕ) (st0 st : ops.Store)
      → Adds ops refcount laws st0 st (delta v)
      → Same st0 (ops.vput v st)
  put_one v st0 st adds =
      Same-of st0 (ops.vput v st) (put v (λ g. 0) (delta v) st0 st (λ g. omega arith) adds)

  pub put_two :
      (v w : ℕ) (st0 st : ops.Store)
      → Adds ops refcount laws st0 st (λ g. delta w g + delta v g)
      → Same st0 (ops.vput w (ops.vput v st))
  put_two v w st0 st adds =
      put_one w st0 (ops.vput v st)
        (put v (delta w) (λ g. delta w g + delta v g) st0 st (λ g. omega arith) adds)

  make_entry-Keeps :
      (has : Bool) (op : ops.Store → Result ℕ × ops.Store) (dir : ℕ) (r : Result ℕ)
      (st0 st : ops.Store)
      → (has ≡ true ⊎ (r ≡ error enotdir))
      → ((g : ℕ) → refcount g (op st).1 ≡ refcount g st)
      → Adds ops refcount laws st0 st (λ g. delta dir g + held r g)
      → Keeps st0 (make_entry ops has op dir (r, st))
  unfolding make_entry
  make_entry-Keeps has op dir (success v) st0 st there same adds = put_two v dir st0 st adds
  make_entry-Keeps has op dir (error e) st0 st there same adds =
      let one : Adds ops refcount laws st0 st (delta dir) = λ g. adds g ∙ omega arith in
      elim (Bool-cases (is_enotdir e)) [
        | inl refused ↦ rw (refused, make_entry) (put_one dir st0 st one)
        | inr made ↦ elim there [
          | inl offered ↦
              rw (made, offered, make_entry) (put_one dir st0 (op st).1 (λ g. same g ∙ one g))
          | inr refused ↦
              let same_error : is_enotdir e ≡ true = ap error_enotdir refused in
              absurd (ground arith)
        ]
      ]

  -- What the lookup in a directory without the operation gives.
  lookup_offered :
      (has : Bool) (dir : ℕ) (name : List ℕ) (st : ops.Store)
      → (ops.has_lookup dir ≡ true → has ≡ true)
      → has ≡ true ⊎ ((lookup ops dir name st).0 ≡ error enotdir)
  unfolding lookup
  lookup_offered has dir name st offered = elim (Bool-cases (ops.has_lookup dir)) [
    | inl there ↦ inl (offered there)
    | inr lacks ↦ inr (rw lacks refl)
  ]

  pub looked_up :
      (dir : ℕ) (name : List ℕ) (st0 st : ops.Store)
      → Adds ops refcount laws st0 st (delta dir)
      → Adds ops refcount laws st0
          (lookup ops dir name st).1
          (λ g. delta dir g + held (lookup ops dir name st).0 g)
  looked_up dir name st0 st adds =
      λ g. omega (arith, lookup-Adds ops refcount laws dir name st g, adds g)

  pub mknod_at-Keeps :
      (offered : IsOffered ops) (mode devid : ℕ) (r : Result (ℕ × List ℕ)) (st0 st : ops.Store)
      → Adds ops refcount laws st0 st (held_dir r)
      → Keeps st0 (mknod_at ops mode devid (r, st))
  unfolding mknod_at
  mknod_at-Keeps offered mode devid (error e) st0 st adds = Same-of st0 st adds
  mknod_at-Keeps offered mode devid (success (dir, name)) st0 st adds =
      let found = lookup ops dir name st in
      make_entry-Keeps (ops.has_mknod dir) (ops.mknod_op dir name mode devid) dir found.0 st0
        found.1 (lookup_offered (ops.has_mknod dir) dir name st (offered.mknod_offered dir))
        (λ g. laws.mknod_count dir g mode devid name found.1) (looked_up dir name st0 st adds)

  pub mkdir_at-Keeps :
      (offered : IsOffered ops) (r : Result (ℕ × List ℕ)) (st0 st : ops.Store)
      → Adds ops refcount laws st0 st (held_dir r)
      → Keeps st0 (mkdir_at ops (r, st))
  unfolding mkdir_at
  mkdir_at-Keeps offered (error e) st0 st adds = Same-of st0 st adds
  mkdir_at-Keeps offered (success (dir, name)) st0 st adds =
      let found = lookup ops dir name st in
      make_entry-Keeps (ops.has_mkdir dir) (ops.mkdir_op dir name) dir found.0 st0 found.1
        (lookup_offered (ops.has_mkdir dir) dir name st (offered.mkdir_offered dir))
        (λ g. laws.mkdir_count dir g name found.1) (looked_up dir name st0 st adds)
