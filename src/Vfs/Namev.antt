-- ===== src/Vfs/Namev.antt =====
-- K2/namev.c: from a path to a vnode. `lookup_name` and `lookup_dirpath`, for `getcwd`, are not here.
pub mod Balance
pub mod Opened
use weenix_kernel_implementa.Common.{
  ℕ, Bool, true, false, not, ◌&&◌, ◌||◌, Option, none, some, List, [], ◌∷◌, ◌==◌, ltb,
  if◌then◌else◌, length, Exec, ok, panic, ◌>>=◌, ◌>>◌, kassert,
}
use weenix_kernel_implementa.Vfs.Vnode.{
  Errno, enoent, enotdir, einval, eisdir, enametoolong, Result, success, error, VnodeOps,
}

-- A part of a path: its name, and whether a slash follows.
pub record Part : Type 0 where
  pub name : List ℕ
  pub slashed : Bool

-- '/' and "."
abbrev pub slash : ℕ
slash = 47

abbrev pub dot : List ℕ
dot = 46 ∷ []

-- The scan of a path from one place on: the rest of a part that reaches over this place with the
-- parts after it, and the parts that start here or later.
unfoldable pub scan : List ℕ → (Part × List Part) × List Part
scan [] = ((record { name = []; slashed = false }, []), [])
scan (c ∷ cs) =
    let ((part, later), from_here) = scan cs in
    if c == slash
    then ((record { name = []; slashed = true }, from_here), from_here)
    else (let longer : Part = record part { name = c ∷ part.name } in
        ((longer, later), longer ∷ later))

unfoldable pub parts : List ℕ → List Part
unfolding scan
parts path = (scan path).1

-- O_WRONLY, O_RDWR, O_CREAT, O_APPEND, and whether any other bit is set. O_RDONLY is 0.
pub record OpenFlags : Type 0 where
  pub o_wronly : Bool
  pub o_rdwr : Bool
  pub o_creat : Bool
  pub o_append : Bool
  pub o_other : Bool

abbrev pub rdonly : OpenFlags
rdonly = record {
  o_wronly = false;
  o_rdwr = false;
  o_creat = false;
  o_append = false;
  o_other = false;
}

abbrev pub no_parts : List Part → Bool
no_parts [] = true
no_parts (_ ∷ _) = false

abbrev pub is_enoent : Errno → Bool
is_enoent enoent = true
is_enoent _ = false

module _ (ops : VnodeOps) where
  open ops use {
    Store, vfs_root_vn, name_len, vref, vput, is_dir, has_lookup, has_create, has_mkdir, lookup_op,
    create_op,
  }

  unfoldable pub lookup : ℕ → List ℕ → Store → Result ℕ × Store
  lookup dir name st = if has_lookup dir then lookup_op dir name st else (error enotdir, st)

  abbrev pub put_prev : Option ℕ → Store → Store
  put_prev none st = st
  put_prev (some v) st = vput v st

  -- After the loop, with `found` the vnode of the last part, if there is one.
  unfoldable pub finish_namev :
      ℕ → Part → Option ℕ → List Part → Store → Result (ℕ × List ℕ) × Store
  finish_namev prev part (some base) later st =
      if part.slashed && not (is_dir base)
      then (error enotdir, vput base (vput prev st))
      else (success (prev, part.name), vput base st)
  finish_namev prev part none later st =
      if part.slashed && not (is_dir prev)
      then (error enotdir, vput prev (vput prev st))
      else if no_parts later
      then (success (prev, part.name), st)
      else (error enoent, vput prev st)

  -- The loop over the parts, `base_vnode` being `base` and `prev_vnode` being `prev`. A lookup that
  -- fails leaves `base_vnode` as it was, which is `prev_vnode` by then. Without a part left the loop
  -- is only entered for a path of slashes.
  unfoldable pub namev_loop : Option ℕ → ℕ → List Part → Store → Result (ℕ × List ℕ) × Store
  unfolding finish_namev
  namev_loop prev base [] st = (success (base, dot), st)
  namev_loop prev base (part ∷ later) st =
      let st1 = put_prev prev st in
      if ltb name_len (length part.name)
      then (error enametoolong, vput base st1)
      else (let (found, st2) = lookup base part.name st1 in
          elim found [
            | error e ↦
                if is_enoent e
                then finish_namev base part none later st2
                else (error e, vput base st2)
            | success v ↦ elim (no_parts later) [
              | true ↦ finish_namev base part (some v) later st2
              | false ↦ namev_loop (some base) v later st2
            ]
          ])

  abbrev pub starts_at : Option ℕ → ℕ → List ℕ → ℕ
  starts_at base cwd [] = cwd
  starts_at none cwd (c ∷ cs) = if c == slash then vfs_root_vn else cwd
  starts_at (some b) cwd (c ∷ cs) = if c == slash then vfs_root_vn else b

  -- The vnode and the name; `cwd` is curproc->p_cwd.
  unfoldable pub dir_namev : Option ℕ → ℕ → List ℕ → Store → Result (ℕ × List ℕ) × Store
  unfolding parts namev_loop
  dir_namev base cwd [] st = (error einval, st)
  dir_namev base cwd (c ∷ cs) st =
      let start = starts_at base cwd (c ∷ cs) in
      namev_loop none start (parts (c ∷ cs)) (vref start st)

  -- What follows `lookup` in `open_namev`.
  unfoldable pub open_looked_up :
      OpenFlags → ℕ → List ℕ → Result ℕ × Store → Exec (Result ℕ × Store)
  open_looked_up flag dir name (error e, st) = do
    kassert (not flag.o_creat || has_create dir)
    if flag.o_creat && is_enoent e
        then (let (made, st1) = create_op dir name st in ok (made, vput dir st1))
        else ok (error e, vput dir st)
  open_looked_up flag dir name (success v, st) =
      if (flag.o_wronly || flag.o_rdwr) && has_mkdir v
      then ok (error eisdir, vput dir (vput v st))
      else ok (success v, vput dir st)

  unfoldable pub open_found : OpenFlags → Result (ℕ × List ℕ) × Store → Exec (Result ℕ × Store)
  unfolding lookup open_looked_up
  open_found flag (error e, st) = ok (error e, st)
  open_found flag (success (dir, name), st) = open_looked_up flag dir name (lookup dir name st)

  unfoldable pub open_namev : List ℕ → OpenFlags → Option ℕ → ℕ → Store → Exec (Result ℕ × Store)
  unfolding open_found
  open_namev path flag base cwd st = open_found flag (dir_namev base cwd path st)
