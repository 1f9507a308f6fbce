-- ===== src/Vfs/Paths/Moves.antt =====
-- `do_chdir` moves a reference, and `do_link` may lose two.
use weenix_kernel_implementa.Common.{
  ℕ, ◌+◌, ◌<◌, ◌≡◌, refl, subst, ◌∙◌, inl, inr, true, false, ◌&&◌, ◌||◌, none, some, Option, List,
  ltb, length, if◌then◌else◌, Exec, ok, panic, Bool-cases, arith,
}
use weenix_kernel_implementa.Vfs.Vnode.{enotdir, Result, success, error, VnodeOps}
use weenix_kernel_implementa.Vfs.Namev.{lookup, dir_namev, open_namev, rdonly}
use weenix_kernel_implementa.Vfs.Namev.Balance.{
  delta, held, IsVnodeOps, Adds, vput-Adds, lookup-Adds, dir_namev-Adds,
}
use weenix_kernel_implementa.Vfs.Namev.Opened.{AddsHeld, open_namev-Adds}
use weenix_kernel_implementa.Vfs.Paths.{link_found, link_at, link_from, do_link, chdir_to, do_chdir}
use weenix_kernel_implementa.Vfs.Paths.Balance.{Same, put, put_two}

module _ (ops : VnodeOps) (refcount : ℕ → ops.Store → ℕ) (laws : IsVnodeOps ops refcount) where
  -- The directory that a path opened, if it opened one.
  abbrev pub directory_of : Exec (Result ℕ × ops.Store) → Option ℕ
  directory_of panic = none
  directory_of (ok (error e, st)) = none
  directory_of (ok (success v, st)) = if ops.is_dir v && ops.has_mkdir v then some v else none

  -- The outcome of a change of the working directory, where the path opened as `opened`: an error if
  -- that is no directory, with the old directory and all counts as they were; or else the directory,
  -- with the reference to the old one moved to it.
  abbrev pub MovesTo :
      ℕ → ops.Store → Exec (Result ℕ × ops.Store) → Exec (Result ℕ × ℕ × ops.Store) → Type 0
  MovesTo cwd st0 opened panic = ⊥
  MovesTo cwd st0 opened (ok (error e, cwd', st)) =
      (directory_of opened ≡ none) × (cwd' ≡ cwd) × ((g : ℕ) → refcount g st ≡ refcount g st0)
  MovesTo cwd st0 opened (ok (success x, cwd', st)) =
      (directory_of opened ≡ some cwd')
      × ((g : ℕ) → refcount g st + delta cwd g ≡ refcount g st0 + delta cwd' g)

  chdir_to-MovesTo :
      (cwd : ℕ) (r : Result ℕ) (st0 st : ops.Store)
      → 0 < refcount cwd st0
      → Adds ops refcount laws st0 st (held r)
      → MovesTo cwd st0 (ok (r, st)) (ok (chdir_to ops cwd (r, st)))
  unfolding chdir_to
  chdir_to-MovesTo cwd (error e) st0 st pos adds = (refl, refl, λ g. omega (arith, adds g))
  chdir_to-MovesTo cwd (success v) st0 st pos adds =
      elim (Bool-cases (ops.is_dir v && ops.has_mkdir v)) [
        | inl dir ↦
            let some_left : 0 < refcount cwd st = omega (arith, adds cwd) in
            rw (dir, chdir_to)
              (rw dir refl, λ g. omega (arith, laws.vput_count cwd g st some_left, adds g))
        | inr file ↦
            let back =
              vput-Adds ops refcount laws v (λ g. 0) (delta v) st0 st (λ g. omega arith) adds in
            rw (file, chdir_to) (rw file refl, refl, λ g. omega (arith, back g))
      ]

  -- Where the old working directory has a reference, `do_chdir` returns. If the path opens a directory
  -- that has mkdir, it succeeds: that directory becomes the working directory, and one reference
  -- moves from the old one to it. If not, it fails: the working directory and all reference counts
  -- of vnodes are as before.
  pub do_chdir-MovesTo :
      (path : List ℕ) (cwd : ℕ) (st : ops.Store)
      → 0 < refcount cwd st
      → MovesTo cwd st (open_namev ops path rdonly none cwd st) (do_chdir ops path cwd st)
  unfolding do_chdir
  do_chdir-MovesTo path cwd st pos =
      let (r, st1, e, adds) = (open_namev-Adds ops refcount laws path rdonly none cwd st).1 refl in
      rw (do_chdir, e) (chdir_to-MovesTo cwd r st st1 pos adds)

  link_found-Same :
      (from dir : ℕ) (name : List ℕ) (r : Result ℕ) (st0 st : ops.Store)
      → Adds ops refcount laws st0 st (λ g. delta dir g + delta from g + held r g)
      → Same ops refcount laws st0 (link_found ops from dir name (r, st)).1
  unfolding link_found
  link_found-Same from dir name (error e) st0 st adds =
      put_two ops refcount laws from dir st0 (ops.link_op from dir name st).1
        (λ g. omega (arith, laws.link_count from dir g name st, adds g))
  link_found-Same from dir name (success v) st0 st adds =
      put_two ops refcount laws from dir st0 (ops.vput v st) (
        put ops refcount laws v (λ g. delta dir g + delta from g)
          (λ g. delta dir g + delta from g + delta v g) st0 st (λ g. omega arith) adds)

  -- Where the old name opens and the directory of the new one is found, with paths that are short
  -- enough: `do_link` leaves all reference counts of vnodes as they were if the directory has the
  -- operation; if it has none, `do_link` returns -ENOTDIR and one reference to the file and one to the
  -- directory are never given back.
  pub do_link_leak :
      (from to name : List ℕ) (cwd v dir : ℕ) (st st1 : ops.Store)
      → (ltb ops.max_path_len (length from) || ltb ops.max_path_len (length to)) ≡ false
      → open_namev ops from rdonly none cwd st ≡ ok (success v, st1)
      → (dir_namev ops none cwd to st1).0 ≡ success (dir, name)
      → (ops.has_link dir ≡ true
          → (r : Result ℕ) × (st' : ops.Store) × (do_link ops from to cwd st ≡ ok (r, st'))
            × Same ops refcount laws st st')
        × (ops.has_link dir ≡ false
            → (st' : ops.Store) × (do_link ops from to cwd st ≡ ok (error enotdir, st'))
              × ((g : ℕ) → refcount g st' ≡ refcount g st + (delta v g + delta dir g)))
  unfolding do_link link_from link_at
  do_link_leak from to name cwd v dir st st1 short opened found =
      let parent = dir_namev ops none cwd to st1 in
      let adds1 : Adds ops refcount laws st st1 (delta v) =
        subst (AddsHeld ops refcount laws st) opened
          (open_namev-Adds ops refcount laws from rdonly none cwd st).0 in
      let adds2 : Adds ops refcount laws st1 parent.1 (delta dir) =
        λ g. dir_namev-Adds ops refcount laws none cwd to st1 g ∙ rw found refl in
      let both : Adds ops refcount laws st parent.1 (λ g. delta dir g + delta v g) =
        λ g. omega (arith, adds1 g, adds2 g) in
      let looked = lookup ops dir name parent.1 in
      (
        λ has.
            let same =
              link_found-Same v dir name looked.0 st looked.1
                (λ g. omega (arith, both g, lookup-Adds ops refcount laws dir name parent.1 g)) in
            (
              (link_found ops v dir name looked).0,
              (link_found ops v dir name looked).1,
              rw (short, opened, found, has, link_from, link_at) refl,
              same,
            ),
        λ lacks. (
          parent.1,
          rw (short, opened, found, lacks, link_from, link_at) refl,
          λ g. omega (arith, both g),
        ),
      )
