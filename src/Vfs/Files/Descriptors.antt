-- ===== src/Vfs/Files/Descriptors.antt =====
-- `do_close`, `do_dup` and `do_dup2`: the references to a file follow the descriptors that name it.
use weenix_kernel_implementa.Common.{
  ℕ, zero, suc, ◌+◌, ◌≤◌, ◌<◌, ◌≡◌, ◌≢◌, refl, ap, ◌∙◌, inl, inr, ◌⊎◌, true, false, Option, none,
  some, ◌==◌, if◌then◌else◌, update, Bool-cases, ok, arith,
}
use weenix_kernel_implementa.Vfs.Files.{
  Files, VfsOps, Ret, ret, ebadf, eisdir, enotdir, einval, emfile, fd_valid, set_fd, open_file,
  get_empty_fd, dup_to, do_dup, do_close, do_dup2, close_used,
}
use weenix_kernel_implementa.Vfs.Files.Balance.{IsFileOps, set_refs}
use weenix_kernel_implementa.Vfs.Files.Table.{IsLowestEmpty, get_empty_fd-IsLowestEmpty}

abbrev pub names : Option ℕ → ℕ → ℕ
names none f = 0
names (some g) f = if g == f then 1 else 0

-- How many of the first `n` descriptors name the file.
unfoldable pub count : ℕ → ℕ → (ℕ → Option ℕ) → ℕ
count f zero t = 0
count f (suc n) t = names (t n) f + count f n t

count-update_out :
    (f n fd : ℕ) (v : Option ℕ) (t : ℕ → Option ℕ)
    → n ≤ fd
    → count f n (update t fd v) ≡ count f n t
unfolding count
count-update_out f zero fd v t le = refl
count-update_out f (suc n) fd v t le = ground (arith, count-update_out f n fd v t)

-- One descriptor changes.
pub count-update :
    (f n fd : ℕ) (v : Option ℕ) (t : ℕ → Option ℕ)
    → fd < n
    → count f n (update t fd v) + names (t fd) f ≡ count f n t + names v f
unfolding count
count-update f zero fd v t lt = absurd (omega arith)
count-update f (suc n) fd v t lt = elim (Bool-cases (n == fd)) [
  | inl here ↦ let same : n ≡ fd = ground arith in ground (arith, same, count-update_out f n fd v t)
  | inr below ↦ ground (arith, below, count-update f n fd v t)
]

pub count-names : (f n fd : ℕ) (t : ℕ → Option ℕ) → fd < n → t fd ≡ some f → 0 < count f n t
unfolding count
count-names f zero fd t lt e = absurd (omega arith)
count-names f (suc n) fd t lt e = elim (Bool-cases (n == fd)) [
  | inl here ↦
      let same : n ≡ fd = ground arith in
      let at : t n ≡ some f = ap t same ∙ e in ground (arith, at)
  | inr below ↦ ground (arith, count-names f n fd t)
]

-- Each file has at least as many references as descriptors of the process name it.
abbrev pub IsAccounted : {Store : Type 0} → ℕ → Files Store → Type 0
IsAccounted n s = (g : ℕ) → count g n s.p_files ≤ (s.files g).f_refcount

-- The references change by as much as the descriptors.
abbrev pub Balanced : {Store : Type 0} → ℕ → Files Store → Files Store → Type 0
Balanced n s s' =
    (g : ℕ)
    → (s'.files g).f_refcount + count g n s.p_files ≡ (s.files g).f_refcount + count g n s'.p_files

module _ (ops : VfsOps) (laws : IsFileOps ops) where
  open_file-some :
      (fd f : ℕ) (s : Files ops.Store)
      → open_file ops fd s ≡ some f
      → (fd < ops.nfiles) × (s.p_files fd ≡ some f)
  open_file-some fd f s e = (ground arith, ground arith)

  -- With `fput` as documented, and at least as many references to each file as descriptors that
  -- name it: `do_close` returns -EBADF and changes nothing if the descriptor is not open; otherwise
  -- it returns 0, just this descriptor is closed, and the references change by as much as the
  -- descriptors.
  pub do_close_lem :
      (fd : ℕ) (s : Files ops.Store)
      → IsAccounted ops.nfiles s
      → (open_file ops fd s ≡ none → do_close ops fd s ≡ (ebadf, s))
        × ((f : ℕ)
            → open_file ops fd s ≡ some f
            → (s' : Files ops.Store) × (do_close ops fd s ≡ (ret 0, s'))
              × ((x : ℕ) → s'.p_files x ≡ (if x == fd then none else s.p_files x))
              × Balanced ops.nfiles s s')
  unfolding do_close
  do_close_lem fd s acc = (
    λ e. rw (e, do_close) refl,
    λ f e.
        let (lt, named) = open_file-some fd f s e in
        let pos : 0 < (s.files f).f_refcount =
          ground (arith, acc f, count-names f ops.nfiles fd s.p_files lt named) in
        (
          set_fd ops fd none (ops.fput f s),
          rw (e, do_close) refl,
          λ x. rw (laws.fput_table f s pos) refl,
          λ g.
              rw (laws.fput_table f s pos, laws.fput_refs f g s pos)
                (ground (arith, named, pos, count-update g ops.nfiles fd none s.p_files lt)),
        ),
  )

-- The table after a file was given a further descriptor, if there was one.
abbrev pub with_dup : Ret → ℕ → (ℕ → Option ℕ) → ℕ → Option ℕ
with_dup (ret new) f t x = if x == new then some f else t x
with_dup _ f t x = t x

module _ (ops : VfsOps) (laws : IsFileOps ops) where
  abbrev taken_by : ℕ → Files ops.Store → Files ops.Store
  taken_by f s = set_refs f ((s.files f).f_refcount + 1) s

  -- What `dup_to` leaves.
  pub record Duplicated (f : ℕ) (s : Files ops.Store) (r : Ret) (s' : Files ops.Store)
      : Type 0 where
    pub lowest : IsLowestEmpty 0 ops.nfiles s r
    pub table : (x : ℕ) → s'.p_files x ≡ with_dup r f s.p_files x
    pub balanced : Balanced ops.nfiles s s'

  dup_to-Duplicated :
      (fd f : ℕ) (s : Files ops.Store) (r : Ret)
      → s.p_files fd ≡ some f
      → IsLowestEmpty 0 ops.nfiles s r
      → (s' : Files ops.Store) × (dup_to ops fd (some f) r (taken_by f s) ≡ ok (r, s'))
        × Duplicated f s r s'
  unfolding dup_to
  dup_to-Duplicated fd f s (ret new) named lowest = (
    set_fd ops new (s.p_files fd) (taken_by f s),
    refl,
    record {
      lowest = lowest;
      table = λ x. rw named refl;
      balanced = λ g.
          let (lo, lt, empty, rest) = lowest in
          ground (arith, named, empty, count-update g ops.nfiles new (s.p_files fd) s.p_files lt);
    },
  )
  dup_to-Duplicated fd f s emfile named lowest =
      let pos : 0 < ((taken_by f s).files f).f_refcount = ground arith in
      (
        ops.fput f (taken_by f s),
        refl,
        record {
          lowest = lowest;
          table = λ x. ap (λ t. t x) (laws.fput_table f (taken_by f s) pos);
          balanced = λ g.
              rw (laws.fput_table f (taken_by f s) pos, laws.fput_refs f g (taken_by f s) pos)
                (ground arith);
        },
      )
  dup_to-Duplicated fd f s ebadf named lowest = absurd lowest
  dup_to-Duplicated fd f s eisdir named lowest = absurd lowest
  dup_to-Duplicated fd f s enotdir named lowest = absurd lowest
  dup_to-Duplicated fd f s einval named lowest = absurd lowest

  -- With `fget` and `fput` as documented, `do_dup` of a descriptor that is not open returns -EBADF
  -- and changes nothing. Otherwise it returns the lowest empty descriptor, which then names the
  -- same file, or -EMFILE if there is none, and then the table is as before; the references change
  -- by as much as the descriptors.
  pub do_dup_lem :
      (fd : ℕ) (s : Files ops.Store)
      → (open_file ops fd s ≡ none → do_dup ops fd s ≡ ok (ebadf, s))
        × ((f : ℕ)
            → open_file ops fd s ≡ some f
            → (r : Ret) × (s' : Files ops.Store) × (do_dup ops fd s ≡ ok (r, s'))
              × Duplicated f s r s')
  unfolding do_dup
  do_dup_lem fd s = (
    λ e. rw (e, do_dup) refl,
    λ f e.
        let (lt, named) = open_file-some ops laws fd f s e in
        let r = get_empty_fd ops (taken_by f s) in
        let (s', e', d) =
          dup_to-Duplicated fd f s r named (get_empty_fd-IsLowestEmpty ops (taken_by f s)) in
        (r, s', rw (e, do_dup, laws.fget_open fd f s named, e') refl, d),
  )

  close_used-Balanced :
      (nfd : ℕ) (v : Option ℕ) (s : Files ops.Store)
      → IsAccounted ops.nfiles s
      → fd_valid ops nfd ≡ true
      → s.p_files nfd ≡ v
      → ((x : ℕ) → (close_used ops nfd v s).p_files x ≡ (if x == nfd then none else s.p_files x))
        × Balanced ops.nfiles s (close_used ops nfd v s)
  unfolding close_used
  close_used-Balanced nfd none s acc valid e = (
    λ x. elim (Bool-cases (x == nfd)) [
      | inl same ↦ let eq : x ≡ nfd = ground arith in rw same (ap (λ y. s.p_files y) eq ∙ e)
      | inr other ↦ rw other refl
    ],
    λ g. refl,
  )
  close_used-Balanced nfd (some f) s acc valid e =
      let opened : open_file ops nfd s ≡ some f = rw valid e in
      let (s1, e1, table, balanced) = (do_close_lem ops laws nfd s acc).1 f opened in
      let same : close_used ops nfd (some f) s ≡ s1 = rw (e1, close_used) refl in
      rw same (table, balanced)

  -- With `fget` and `fput` as documented, and at least as many references to each file as
  -- descriptors that name it: `do_dup2` returns -EBADF and changes nothing if `ofd` is not open or
  -- `nfd` is out of range. With two equal open descriptors it returns them and changes nothing.
  -- Otherwise it returns `nfd`, which then names the file of `ofd`, while the other descriptors are
  -- as before, and the references change by as much as the descriptors, also where `nfd` was in
  -- use.
  pub do_dup2_lem :
      (ofd nfd : ℕ) (s : Files ops.Store)
      → IsAccounted ops.nfiles s
      → ((fd_valid ops nfd ≡ false) ⊎ (open_file ops ofd s ≡ none)
          → do_dup2 ops ofd nfd s ≡ (ebadf, s))
        × ((f : ℕ)
            → open_file ops ofd s ≡ some f
            → fd_valid ops nfd ≡ true
            → ((ofd ≡ nfd) → do_dup2 ops ofd nfd s ≡ (ret ofd, s))
              × (ofd ≢ nfd
                  → (s' : Files ops.Store) × (do_dup2 ops ofd nfd s ≡ (ret nfd, s'))
                    × ((x : ℕ) → s'.p_files x ≡ (if x == nfd then some f else s.p_files x))
                    × Balanced ops.nfiles s s'))
  unfolding do_dup2
  do_dup2_lem ofd nfd s acc = (
    λ bad. elim bad [
      | inl out ↦ rw (out, do_dup2) refl
      | inr closed ↦ elim (Bool-cases (fd_valid ops nfd)) [
        | inl valid ↦ rw (valid, closed, do_dup2) refl
        | inr out ↦ rw (out, do_dup2) refl
      ]
    ],
    λ f e valid.
        let (lt, named) = open_file-some ops laws ofd f s e in
        let s1 = close_used ops nfd (s.p_files nfd) s in
        let (table, balanced) = close_used-Balanced nfd (s.p_files nfd) s acc valid refl in
        (
          λ same. let eq : (ofd == nfd) ≡ true = ground arith in rw (valid, e, eq, do_dup2) refl,
          λ ne.
              let other : (ofd == nfd) ≡ false = ground arith in
              let named1 : s1.p_files ofd ≡ some f = table ofd ∙ rw other named in
              let empty1 : s1.p_files nfd ≡ none = table nfd ∙ ground arith in
              let lt' : nfd < ops.nfiles = ground arith in
              (
                set_fd ops nfd (some f) (taken_by f s1),
                rw (valid, e, other, do_dup2, laws.fget_open ofd f s1 named1) refl,
                λ x. ground (arith, table x),
                λ g. ground (
                  arith,
                  balanced g,
                  empty1,
                  count-update g ops.nfiles nfd (some f) s1.p_files lt',
                ),
              ),
        ),
  )
