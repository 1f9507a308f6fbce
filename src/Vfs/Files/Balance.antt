-- ===== src/Vfs/Files/Balance.antt =====
-- References to open files: what a call takes by `fget` it gives back by `fput`.
use weenix_kernel_implementa.Common.{
  ℕ, ◌+◌, ◌-◌, ◌<◌, ◌≡◌, refl, sym, ap, ◌∙◌, inl, inr, not, ◌&&◌, ◌||◌, Option, none, some, ◌==◌,
  ltb, if◌then◌else◌, add32, update, Option-cases, Bool-cases, arith,
}
use weenix_kernel_implementa.Vfs.Files.{
  Files, VfsOps, Whence, seek_cur, seek_end, negative, fd_valid, set_file, seek_base, seek_file,
  do_lseek, seek_read, read_file, do_read, getdent_file, do_getdent,
}

abbrev pub set_refs : {Store : Type 0} → ℕ → ℕ → Files Store → Files Store
set_refs f n s = record s { files = update s.files f (record (s.files f) { f_refcount = n }) }

-- What `fget` and `fput` are documented to do with an open descriptor, with a closed one, with a file
-- that has a further reference, and with any file (whose vnode the last `fput` gives back).
pub record IsFileOps (ops : VfsOps) : Type 0 where
  pub fget_open :
      (fd f : ℕ) (s : Files ops.Store)
      → s.p_files fd ≡ some f
      → ops.fget fd s ≡ (some f, set_refs f ((s.files f).f_refcount + 1) s)
  pub fget_closed : (fd : ℕ) (s : Files ops.Store) → s.p_files fd ≡ none → ops.fget fd s ≡ (none, s)
  pub fput_shared :
      (f : ℕ) (s : Files ops.Store)
      → 1 < (s.files f).f_refcount
      → ops.fput f s ≡ set_refs f ((s.files f).f_refcount - 1) s
  pub fput_table :
      (f : ℕ) (s : Files ops.Store)
      → 0 < (s.files f).f_refcount
      → (ops.fput f s).p_files ≡ s.p_files
  pub fput_refs :
      (f g : ℕ) (s : Files ops.Store)
      → 0 < (s.files f).f_refcount
      → ((ops.fput f s).files g).f_refcount
        ≡ (if g == f then (s.files f).f_refcount - 1 else (s.files g).f_refcount)

-- A descriptor that is open refers to its file.
abbrev pub IsCounted : {Store : Type 0} → Files Store → Type 0
IsCounted s = (fd f : ℕ) → s.p_files fd ≡ some f → 0 < (s.files f).f_refcount

-- The table and all reference counts are as before.
pub record Kept {Store : Type 0} (s s' : Files Store) : Type 0 where
  pub table : s'.p_files ≡ s.p_files
  pub refs : (g : ℕ) → (s'.files g).f_refcount ≡ (s.files g).f_refcount

Kept-trans : {Store : Type 0} (s s1 s2 : Files Store) → Kept s s1 → Kept s1 s2 → Kept s s2
Kept-trans s s1 s2 a b = record { table = b.table ∙ a.table; refs = λ g. b.refs g ∙ a.refs g }

Kept-IsCounted : {Store : Type 0} (s s' : Files Store) → IsCounted s → Kept s s' → IsCounted s'
Kept-IsCounted s s' c k = λ fd f e. rw (k.refs f) (c fd f (ap (λ t. t fd) (sym k.table) ∙ e))

module _ (ops : VfsOps) (laws : IsFileOps ops) where
  abbrev taken : ℕ → Files ops.Store → Files ops.Store
  taken f s = set_refs f ((s.files f).f_refcount + 1) s

  taken-IsCounted : (f : ℕ) (s : Files ops.Store) → IsCounted s → IsCounted (taken f s)
  taken-IsCounted f s c = λ fd g e. ground (arith, c fd g e)

  -- Giving back the reference that was taken.
  fput-Kept :
      (f : ℕ) (s s1 : Files ops.Store)
      → 0 < (s.files f).f_refcount
      → Kept (taken f s) s1
      → Kept s (ops.fput f s1)
  fput-Kept f s s1 pos k =
      let more : (s1.files f).f_refcount ≡ (s.files f).f_refcount + 1 = k.refs f ∙ ground arith in
      rw (laws.fput_shared f s1 (omega arith))
        (record { table = k.table; refs = λ g. ground (arith, k.refs g, k.refs f) })

  seek_file-Kept :
      (f offset : ℕ) (base : Option ℕ) (s : Files ops.Store)
      → 0 < (s.files f).f_refcount
      → Kept s (seek_file ops f offset base (taken f s)).1
  unfolding seek_file
  seek_file-Kept f offset none s pos =
      fput-Kept f s (taken f s) pos (record { table = refl; refs = λ g. refl })
  seek_file-Kept f offset (some base) s pos = elim (Bool-cases (negative (add32 base offset))) [
    | inl neg ↦ rw neg (fput-Kept f s (taken f s) pos (record { table = refl; refs = λ g. refl }))
    | inr fine ↦ rw fine (
        fput-Kept f s
          (set_file ops f (record ((taken f s).files f) { f_pos = add32 base offset }) (taken f s))
          pos (record { table = refl; refs = λ g. ground arith }))
  ]

  -- With `fget` and `fput` as documented and a positive reference count for each file that a
  -- descriptor names, `do_lseek` changes neither the table of descriptors nor a reference count,
  -- whatever its arguments.
  do_lseek-Kept :
      (fd offset : ℕ) (whence : Whence) (s : Files ops.Store)
      → IsCounted s
      → Kept s (do_lseek ops fd offset whence s).1
  unfolding do_lseek
  do_lseek-Kept fd offset whence s c = elim (Bool-cases (fd_valid ops fd)) [
    | inr bad ↦ rw bad (record { table = refl; refs = λ g. refl })
    | inl good ↦ elim (Option-cases (s.p_files fd)) [
      | inl e ↦ rw (good, laws.fget_closed fd s e) (record { table = refl; refs = λ g. refl })
      | inr (f, e) ↦
          rw (good, laws.fget_open fd f s e)
            (seek_file-Kept f offset (seek_base ops whence f (taken f s)) s (c fd f e))
    ]
  ]

  seek_read-Kept :
      (fd nbytes bytes_read : ℕ) (s : Files ops.Store)
      → IsCounted s
      → Kept s (seek_read ops fd nbytes bytes_read s).1
  unfolding seek_read
  seek_read-Kept fd nbytes bytes_read s c = elim (Bool-cases (ltb 0 bytes_read)) [
    | inl some_bytes ↦ rw some_bytes (do_lseek-Kept fd bytes_read seek_cur s c)
    | inr no_bytes ↦ elim (Bool-cases (nbytes == 0)) [
      | inl none_wanted ↦ rw (no_bytes, none_wanted) (record { table = refl; refs = λ g. refl })
      | inr at_end ↦ rw (no_bytes, at_end) (do_lseek-Kept fd 0 seek_end s c)
    ]
  ]

  read_file-Kept :
      (fd nbytes f : ℕ) (s : Files ops.Store)
      → IsCounted s
      → 0 < (s.files f).f_refcount
      → Kept s (read_file ops fd nbytes f (taken f s)).1
  unfolding read_file
  read_file-Kept fd nbytes f s c pos =
      let file = (taken f s).files f in
      let (bytes_read, st) = ops.read file.f_vnode file.f_pos nbytes s.store in
      let below : Files ops.Store = record (taken f s) { store = st } in
      let given_back = fput-Kept f s (taken f s) pos (record { table = refl; refs = λ g. refl }) in
      elim (Bool-cases file.fmode_read) [
        | inr closed ↦ rw closed given_back
        | inl opened ↦
            elim (Bool-cases (not (ops.is_dir file.f_vnode) && ops.has_read file.f_vnode)) [
              | inr dir ↦ rw (opened, dir) given_back
              | inl readable ↦
                  rw (opened, readable)
                    (fput-Kept f s (seek_read ops fd nbytes bytes_read below).1 pos (
                      Kept-trans (taken f s) below (seek_read ops fd nbytes bytes_read below).1
                        (record { table = refl; refs = λ g. refl })
                        (seek_read-Kept fd nbytes bytes_read below (taken-IsCounted f s c))))
            ]
      ]

  do_read-Kept :
      (fd nbytes : ℕ) (s : Files ops.Store) → IsCounted s → Kept s (do_read ops fd nbytes s).1
  unfolding do_read
  do_read-Kept fd nbytes s c = elim (Bool-cases (fd_valid ops fd)) [
    | inr bad ↦ rw bad (record { table = refl; refs = λ g. refl })
    | inl good ↦ elim (Option-cases (s.p_files fd)) [
      | inl e ↦ rw (good, laws.fget_closed fd s e) (record { table = refl; refs = λ g. refl })
      | inr (f, e) ↦ rw (good, laws.fget_open fd f s e) (read_file-Kept fd nbytes f s c (c fd f e))
    ]
  ]

  getdent_file-Kept :
      (fd f : ℕ) (s : Files ops.Store)
      → IsCounted s
      → 0 < (s.files f).f_refcount
      → Kept s (getdent_file ops fd f (taken f s)).1
  unfolding getdent_file
  getdent_file-Kept fd f s c pos =
      let file = (taken f s).files f in
      let (copied, st) = ops.readdir file.f_vnode file.f_pos s.store in
      let below : Files ops.Store = record (taken f s) { store = st } in
      let same : Kept (taken f s) below = record { table = refl; refs = λ g. refl } in
      elim (Bool-cases (ops.has_readdir file.f_vnode)) [
        | inr none_there ↦
            rw none_there
              (fput-Kept f s (taken f s) pos (record { table = refl; refs = λ g. refl }))
        | inl there ↦ elim (Bool-cases (negative copied || copied == 0)) [
          | inl no_entry ↦ rw (there, no_entry) (fput-Kept f s below pos same)
          | inr entry ↦
              rw (there, entry)
                (fput-Kept f s (do_lseek ops fd copied seek_cur below).1 pos (
                  Kept-trans (taken f s) below (do_lseek ops fd copied seek_cur below).1 same
                    (do_lseek-Kept fd copied seek_cur below (taken-IsCounted f s c))))
        ]
      ]

  do_getdent-Kept : (fd : ℕ) (s : Files ops.Store) → IsCounted s → Kept s (do_getdent ops fd s).1
  unfolding do_getdent
  do_getdent-Kept fd s c = elim (Bool-cases (fd_valid ops fd)) [
    | inr bad ↦ rw bad (record { table = refl; refs = λ g. refl })
    | inl good ↦ elim (Option-cases (s.p_files fd)) [
      | inl e ↦ rw (good, laws.fget_closed fd s e) (record { table = refl; refs = λ g. refl })
      | inr (f, e) ↦ rw (good, laws.fget_open fd f s e) (getdent_file-Kept fd f s c (c fd f e))
    ]
  ]

  -- With `fget` and `fput` as documented and a positive reference count for each file that a
  -- descriptor names, `do_read`, `do_lseek` and `do_getdent` change neither the table of descriptors
  -- nor a reference count, whatever their arguments and whatever the operation of the vnode returns.
  pub file_calls-Kept :
      (s : Files ops.Store)
      → IsCounted s
      → ((fd nbytes : ℕ) → Kept s (do_read ops fd nbytes s).1)
        × ((fd offset : ℕ) (whence : Whence) → Kept s (do_lseek ops fd offset whence s).1)
        × ((fd : ℕ) → Kept s (do_getdent ops fd s).1)
  file_calls-Kept s c = (
    λ fd nbytes. do_read-Kept fd nbytes s c,
    λ fd offset whence. do_lseek-Kept fd offset whence s c,
    λ fd. do_getdent-Kept fd s c,
  )
