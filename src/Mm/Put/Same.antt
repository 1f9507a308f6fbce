-- ===== src/Mm/Put/Same.antt =====
-- `pframe_dirty` keeps the data and the pages of the frames, for each kind of object.
use weenix_kernel_implementa.Common.{
  ℕ, ◌≡◌, refl, ap, ◌∙◌, inl, inr, Bool, true, false, not, some, ◌==◌, if◌then◌else◌, ok,
  deref-some, arith,
}
use weenix_kernel_implementa.Mm.Frames.{Memory, set_busy, set_dirty, with_env}
use weenix_kernel_implementa.Mm.Frames.Same.{
  ops-cases, SamePages, SamePages-trans, set_frame-SamePages, env-SamePages,
}
use weenix_kernel_implementa.Mm.Frames.Alloc.{update_same}
use weenix_kernel_implementa.Mm.Lookup.{MmEnv}
use weenix_kernel_implementa.Mm.Put.{dirtypage, pframe_dirty}

module _ (mm : MmEnv) where
  maybe_dirty-SamePages :
      (b : Bool) (f : ℕ) (s : Memory mm.Env) → SamePages s (if b then set_dirty true f s else s)
  maybe_dirty-SamePages true f s = set_frame-SamePages f _ s refl refl refl
  maybe_dirty-SamePages false f s = env-SamePages (λ e. e) s

  dirtypage-SamePages : (o f : ℕ) (s : Memory mm.Env) → SamePages s (dirtypage mm o f s).1
  unfolding dirtypage
  dirtypage-SamePages o f s = elim (ops-cases (s.objs o).mmo_ops) [
    | inl anon ↦ rw (dirtypage, anon) (set_frame-SamePages f _ s refl refl refl)
    | inr (inl shadow) ↦ rw (dirtypage, shadow) (set_frame-SamePages f _ s refl refl refl)
    | inr (inr vnode) ↦
        rw (dirtypage, vnode)
          (env-SamePages (λ e. (mm.vnode_dirty o (s.frames f).pf_pagenum s.env).1) s)
  ]

  dirtypage-others :
      (o f j : ℕ) (s : Memory mm.Env)
      → (j == f) ≡ false
      → (dirtypage mm o f s).1.frames j ≡ s.frames j
  unfolding dirtypage
  dirtypage-others o f j s differs = elim (ops-cases (s.objs o).mmo_ops) [
    | inl anon ↦ rw (dirtypage, anon, differs) refl
    | inr (inl shadow) ↦ rw (dirtypage, shadow, differs) refl
    | inr (inr vnode) ↦ rw (dirtypage, vnode) refl
  ]

  maybe_dirty-others :
      (b : Bool) (f j : ℕ) (s : Memory mm.Env)
      → (j == f) ≡ false
      → (if b then set_dirty true f s else s).frames j ≡ s.frames j
  maybe_dirty-others true f j s differs = rw differs refl
  maybe_dirty-others false f j s differs = refl

  pub pframe_dirty-SamePages :
      (f o : ℕ) (s : Memory mm.Env)
      → (s.frames f).pf_obj ≡ some o
      → (s.frames f).pf_busy ≡ false
      → (r : Bool × Memory mm.Env) × (pframe_dirty mm f s ≡ ok r)
        × SamePages s r.1
        × ((r.1.frames f).pf_busy ≡ false)
        × ((j : ℕ) → (j == f) ≡ false → r.1.frames j ≡ s.frames j)
  unfolding pframe_dirty
  pframe_dirty-SamePages f o s used idle =
      let not_busy : not (s.frames f).pf_busy ≡ true = ground arith in
      let s1 = set_busy true f s in
      let r = dirtypage mm o f s1 in
      let s2 = (if r.0 then set_dirty true f r.1 else r.1) in
      let same1 : SamePages s s1 = set_frame-SamePages f _ s refl refl refl in
      let same2 : SamePages r.1 s2 = maybe_dirty-SamePages r.0 f r.1 in
      let s3 = set_busy false f s2 in
      let same3 : SamePages s2 s3 = set_frame-SamePages f _ s2 refl refl refl in
      let s4 = with_env (mm.wake f) s3 in
      let same4 : SamePages s3 s4 = env-SamePages (mm.wake f) s3 in
      (
        (r.0, s4),
        rw not_busy (
            deref-some (s.frames f).pf_obj o
              (λ x.
                let (done, s2) = dirtypage mm x f s1 in
                let s3 = (if done then set_dirty true f s2 else s2) in
                ok (done, with_env (mm.wake f) (set_busy false f s3)))
              used),
        SamePages-trans s s1 s4 same1 (
            SamePages-trans s1 r.1 s4 (dirtypage-SamePages o f s1)
              (SamePages-trans r.1 s2 s4 same2 (SamePages-trans s2 s3 s4 same3 same4))),
        ap (λ x. x.pf_busy) (update_same s2.frames f (record (s2.frames f) { pf_busy = false })),
        λ j differs. rw differs (
            maybe_dirty-others r.0 f j r.1 differs
            ∙ dirtypage-others o f j s1 differs
            ∙ rw differs refl),
      )
