-- ===== src/Vfs/Namev/Balance.antt =====
-- References to vnodes: a path that is resolved gives one reference to the result, and an error gives
-- none.
use weenix_kernel_implementa.Common.{
  ℕ, ◌+◌, ◌<◌, ◌≡◌, refl, ap, ◌∙◌, ◌⊎◌, inl, inr, true, false, not, ◌&&◌, Option, none, some, List,
  [], ◌∷◌, ◌==◌, ltb, if◌then◌else◌, length, Bool-cases, arith,
}
use weenix_kernel_implementa.Vfs.Vnode.{Errno, Result, success, error, Result-cases, VnodeOps}
use weenix_kernel_implementa.Vfs.Namev.{
  Part, lookup, finish_namev, namev_loop, starts_at, parts, dir_namev, no_parts, is_enoent,
  put_prev,
}

-- One reference to `v`, as a count for each vnode.
abbrev pub delta : ℕ → ℕ → ℕ
delta v g = if v == g then 1 else 0

-- What a result holds on to.
abbrev pub held : Result ℕ → ℕ → ℕ
held (success v) g = delta v g
held (error e) g = 0

abbrev pub held_dir : Result (ℕ × List ℕ) → ℕ → ℕ
held_dir (success (v, name)) g = delta v g
held_dir (error e) g = 0

-- What is documented of `vref`, `vput` and the operations of a file system, `refcount` being a
-- vnode's `vn_refcount`: `vput` needs a reference; `lookup` and `create` give one with the vnode that
-- they return, and only a directory has `lookup`; the others give none.
pub record IsVnodeOps (ops : VnodeOps) (refcount : ℕ → ops.Store → ℕ) : Type 0 where
  pub vref_count :
      (v g : ℕ) (st : ops.Store) → refcount g (ops.vref v st) ≡ refcount g st + delta v g
  pub vput_count :
      (v g : ℕ) (st : ops.Store)
      → 0 < refcount v st
      → refcount g (ops.vput v st) + delta v g ≡ refcount g st
  pub lookup_count :
      (dir g : ℕ) (name : List ℕ) (st : ops.Store)
      → refcount g (ops.lookup_op dir name st).1
        ≡ refcount g st + held (ops.lookup_op dir name st).0 g
  pub lookup_dir : (v : ℕ) → ops.has_lookup v ≡ true → ops.is_dir v ≡ true
  pub create_count :
      (dir g : ℕ) (name : List ℕ) (st : ops.Store)
      → refcount g (ops.create_op dir name st).1
        ≡ refcount g st + held (ops.create_op dir name st).0 g
  pub mknod_count :
      (dir g mode devid : ℕ) (name : List ℕ) (st : ops.Store)
      → refcount g (ops.mknod_op dir name mode devid st).1 ≡ refcount g st
  pub mkdir_count :
      (dir g : ℕ) (name : List ℕ) (st : ops.Store)
      → refcount g (ops.mkdir_op dir name st).1 ≡ refcount g st
  pub rmdir_count :
      (dir g : ℕ) (name : List ℕ) (st : ops.Store)
      → refcount g (ops.rmdir_op dir name st).1 ≡ refcount g st
  pub unlink_count :
      (dir g : ℕ) (name : List ℕ) (st : ops.Store)
      → refcount g (ops.unlink_op dir name st).1 ≡ refcount g st
  pub link_count :
      (v dir g : ℕ) (name : List ℕ) (st : ops.Store)
      → refcount g (ops.link_op v dir name st).1 ≡ refcount g st
  pub stat_count : (v g : ℕ) (st : ops.Store) → refcount g (ops.stat_op v st).1 ≡ refcount g st

module _ (ops : VnodeOps) (refcount : ℕ → ops.Store → ℕ) (laws : IsVnodeOps ops refcount) where
  -- The counts of `st'` are those of `st` and `more`.
  abbrev pub Adds : ops.Store → ops.Store → (ℕ → ℕ) → Type 0
  Adds st st' more = (g : ℕ) → refcount g st' ≡ refcount g st + more g

  pub lookup-Adds :
      (dir : ℕ) (name : List ℕ) (st : ops.Store)
      → Adds st (lookup ops dir name st).1 (held (lookup ops dir name st).0)
  unfolding lookup
  lookup-Adds dir name st = elim (Bool-cases (ops.has_lookup dir)) [
    | inl has ↦ rw has (λ g. laws.lookup_count dir g name st)
    | inr lacks ↦ rw lacks (λ g. omega arith)
  ]

  -- A reference is given back.
  vput_one-Adds :
      (v : ℕ) (more : ℕ → ℕ) (st st' : ops.Store)
      → Adds st st' (λ g. more g + delta v g)
      → Adds st (ops.vput v st') more
  vput_one-Adds v more st st' adds = λ g.
      let pos : 0 < refcount v st' = ground (arith, adds v) in
      omega (arith, laws.vput_count v g st' pos, adds g)

  -- The same with the sum in any form.
  pub vput-Adds :
      (v : ℕ) (more more' : ℕ → ℕ) (st st' : ops.Store)
      → ((g : ℕ) → more' g ≡ more g + delta v g)
      → Adds st st' more'
      → Adds st (ops.vput v st') more
  vput-Adds v more more' st st' same adds =
      vput_one-Adds v more st st' (λ g. adds g ∙ ap (λ n. refcount g st + n) (same g))

  finish_found-Adds :
      (prev base : ℕ) (part : Part) (later : List Part) (st0 st : ops.Store)
      → Adds st0 st (λ g. delta prev g + delta base g)
      → Adds st0
          (finish_namev ops prev part (some base) later st).1
          (held_dir (finish_namev ops prev part (some base) later st).0)
  unfolding finish_namev
  finish_found-Adds prev base part later st0 st adds =
      elim (Bool-cases (part.slashed && not (ops.is_dir base))) [
        | inl bad ↦ rw bad (
            vput-Adds base (λ g. 0) (delta base) st0 (ops.vput prev st) (λ g. omega arith)
              (vput-Adds prev (delta base) (λ g. delta prev g + delta base g) st0 st
                (λ g. omega arith) adds))
        | inr fine ↦ rw fine (
            vput-Adds base (delta prev) (λ g. delta prev g + delta base g) st0 st (λ g. omega arith)
              adds)
      ]

  finish_missing-Adds :
      (prev : ℕ) (part : Part) (later : List Part) (st0 st : ops.Store)
      → ops.is_dir prev ≡ true
      → Adds st0 st (delta prev)
      → Adds st0
          (finish_namev ops prev part none later st).1
          (held_dir (finish_namev ops prev part none later st).0)
  unfolding finish_namev
  finish_missing-Adds prev part later st0 st dir adds =
      let fine : (part.slashed && not (ops.is_dir prev)) ≡ false = ground arith in
      elim (Bool-cases (no_parts later)) [
        | inl last ↦ rw (fine, last) adds
        | inr more ↦
            rw (fine, more) (vput-Adds prev (λ g. 0) (delta prev) st0 st (λ g. omega arith) adds)
      ]

  lookup_missing :
      (dir : ℕ) (name : List ℕ) (st : ops.Store) (e : Errno)
      → (lookup ops dir name st).0 ≡ error e
      → is_enoent e ≡ true
      → ops.is_dir dir ≡ true
  unfolding lookup
  lookup_missing dir name st e failed missing = elim (Bool-cases (ops.has_lookup dir)) [
    | inl has ↦ laws.lookup_dir dir has
    | inr lacks ↦ absurd (ground arith)
  ]

  abbrev pub delta_prev : Option ℕ → ℕ → ℕ
  delta_prev none g = 0
  delta_prev (some v) g = delta v g

  put_prev-Adds :
      (prev : Option ℕ) (base : ℕ) (st0 st : ops.Store)
      → Adds st0 st (λ g. delta_prev prev g + delta base g)
      → Adds st0 (put_prev ops prev st) (delta base)
  put_prev-Adds none base st0 st adds = λ g. adds g ∙ omega arith
  put_prev-Adds (some v) base st0 st adds =
      vput-Adds v (delta base) (λ g. delta v g + delta base g) st0 st (λ g. omega arith) adds

  namev_loop-Adds :
      (prev : Option ℕ) (base : ℕ) (rest : List Part) (st0 st : ops.Store)
      → Adds st0 st (λ g. delta_prev prev g + delta base g)
      → (prev ≡ none) ⊎ (no_parts rest ≡ false)
      → Adds st0
          (namev_loop ops prev base rest st).1
          (held_dir (namev_loop ops prev base rest st).0)
  unfolding namev_loop
  namev_loop-Adds none base [] st0 st adds first = λ g. adds g ∙ omega arith
  namev_loop-Adds (some v) base [] st0 st adds (inl first) = cc
  namev_loop-Adds (some v) base [] st0 st adds (inr more) = cc
  namev_loop-Adds prev base (part ∷ later) st0 st adds first =
      let st1 = put_prev ops prev st in
      let adds1 = put_prev-Adds prev base st0 st adds in
      let r = lookup ops base part.name st1 in
      let adds2 : Adds st0 r.1 (λ g. delta base g + held r.0 g) =
        λ g. omega (arith, adds1 g, lookup-Adds base part.name st1 g) in
      elim (Bool-cases (ltb ops.name_len (length part.name))) [
        | inl long ↦
            rw (long, namev_loop)
              (vput-Adds base (λ g. 0) (delta base) st0 st1 (λ g. omega arith) adds1)
        | inr short ↦ elim (Result-cases r.0) [
          | inl (e, failed) ↦
              let adds3 : Adds st0 r.1 (delta base) = λ g. adds2 g ∙ rw failed (omega arith) in
              elim (Bool-cases (is_enoent e)) [
                | inl missing ↦
                    rw (short, failed, missing, namev_loop)
                      (finish_missing-Adds base part later st0 r.1
                        (lookup_missing base part.name st1 e failed missing) adds3)
                | inr other ↦
                    rw (short, failed, other, namev_loop)
                      (vput-Adds base (λ g. 0) (delta base) st0 r.1 (λ g. omega arith) adds3)
              ]
          | inr (v, found) ↦
              let adds3 : Adds st0 r.1 (λ g. delta base g + delta v g) =
                λ g. adds2 g ∙ rw found refl in
              elim (Bool-cases (no_parts later)) [
                | inl last ↦
                    rw (short, found, last, namev_loop)
                      (finish_found-Adds base v part later st0 r.1 adds3)
                | inr more ↦
                    rw (short, found, more, namev_loop)
                      (namev_loop-Adds (some base) v later st0 r.1 adds3 (inr more))
              ]
        ]
      ]

  -- Resolving the directory of a path: on success the counts are as before but for one more
  -- reference to the directory, and on an error they are as before, whatever the path.
  pub dir_namev-Adds :
      (base : Option ℕ) (cwd : ℕ) (path : List ℕ) (st : ops.Store)
      → Adds st (dir_namev ops base cwd path st).1 (held_dir (dir_namev ops base cwd path st).0)
  unfolding dir_namev
  dir_namev-Adds base cwd [] st = λ g. omega arith
  dir_namev-Adds base cwd (c ∷ cs) st =
      let start = starts_at ops base cwd (c ∷ cs) in
      namev_loop-Adds none start (parts (c ∷ cs)) st (ops.vref start st)
        (λ g. omega (arith, laws.vref_count start g st)) (inl refl)
