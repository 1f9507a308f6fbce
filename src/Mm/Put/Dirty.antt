-- ===== src/Mm/Put/Dirty.antt =====
-- `pframe_dirty` on the frame of a shadow object, alone and between a pin and an unpin.
use weenix_kernel_implementa.Common.{
  ℕ, ◌+◌, ◌-◌, ◌≡◌, refl, ap, ◌∙◌, true, false, not, some, ◌==◌, ltb, if◌then◌else◌, ok, deref-some,
  arith,
}
use weenix_kernel_implementa.Mm.Frames.{
  Memory, Pframe, shadow_mmobj_ops, set_busy, set_dirty, with_env, pframe_pin, pframe_unpin,
}
use weenix_kernel_implementa.Mm.Frames.Alloc.{update_same, pin-frames, unpin-frames}
use weenix_kernel_implementa.Mm.Lookup.{MmEnv}
use weenix_kernel_implementa.Mm.Put.{dirtypage, pframe_dirty}

-- The frame is dirty, and but for that no frame has changed.
pub record Dirtied {Env : Type 0} (f : ℕ) (s s' : Memory Env) : Type 0 where
  pub contents : (s'.frames f).pf_data ≡ (s.frames f).pf_data
  pub dirty : (s'.frames f).pf_dirty ≡ true
  pub pins : (s'.frames f).pf_pincount ≡ (s.frames f).pf_pincount
  pub others : (j : ℕ) → (j == f) ≡ false → s'.frames j ≡ s.frames j

abbrev pinned_once : Pframe → Pframe
pinned_once pf = record pf { pf_pincount = pf.pf_pincount + 1 }

abbrev unpinned_once : Pframe → Pframe
unpinned_once pf = record pf { pf_pincount = pf.pf_pincount - 1 }

positive : (n p : ℕ) → n ≡ p + 1 → ltb 0 n ≡ true
positive n p e = ground arith

one_less : (n p : ℕ) → n ≡ p + 1 → n - 1 ≡ p
one_less n p e = omega arith

module _ (mm : MmEnv) where
  -- What `pframe_dirty` leaves.
  abbrev dirtied_shadow : ℕ → Memory mm.Env → Memory mm.Env
  dirtied_shadow f s =
      with_env (mm.wake f)
        (set_busy false f (set_dirty true f (set_dirty true f (set_busy true f s))))

  pframe_dirty-shadow :
      (f o : ℕ) (s : Memory mm.Env)
      → (s.frames f).pf_obj ≡ some o
      → (s.frames f).pf_busy ≡ false
      → (s.objs o).mmo_ops ≡ shadow_mmobj_ops
      → pframe_dirty mm f s ≡ ok (true, dirtied_shadow f s)
  unfolding pframe_dirty dirtypage
  pframe_dirty-shadow f o s used idle ops =
      let not_busy : not (s.frames f).pf_busy ≡ true = ground arith in
      let s1 = set_busy true f s in
      let step : dirtypage mm o f s1 ≡ (true, set_dirty true f s1) = rw (ops, dirtypage) refl in
      rw not_busy (
        deref-some (s.frames f).pf_obj o
          (λ x.
            let (done, s2) = dirtypage mm x f s1 in
            let s3 = (if done then set_dirty true f s2 else s2) in
            ok (done, with_env (mm.wake f) (set_busy false f s3)))
          used
        ∙ ap
            (λ r. ok (
              r.0,
              with_env (mm.wake f) (set_busy false f (if r.0 then set_dirty true f r.1 else r.1)),
            ))
            step)

  dirtied-at :
      (f : ℕ) (s : Memory mm.Env)
      → (dirtied_shadow f s).frames f ≡ record (s.frames f) { pf_busy = false; pf_dirty = true }
  dirtied-at f s = let same : (f == f) ≡ true = ground arith in rw same refl

  pub pinned_dirty :
      (f o : ℕ) (s : Memory mm.Env)
      → (s.frames f).pf_obj ≡ some o
      → (s.frames f).pf_busy ≡ false
      → (s.objs o).mmo_ops ≡ shadow_mmobj_ops
      → (s1 : Memory mm.Env) × (s2 : Memory mm.Env) × (s' : Memory mm.Env) × (pframe_pin f s
          ≡ ok s1)
        × (pframe_dirty mm f s1 ≡ ok (true, s2))
        × (pframe_unpin f s2 ≡ ok s')
        × Dirtied f s s'
  pinned_dirty f o s used idle ops =
      let (s1, pinned, frames1, hash1, objs1) = pin-frames f o s used in
      let at1 = ap (λ g. g f) frames1 ∙ update_same s.frames f (pinned_once (s.frames f)) in
      let s2 = dirtied_shadow f s1 in
      let at2 = dirtied-at f s1 in
      let used1 : (s1.frames f).pf_obj ≡ some o = ap (λ p. p.pf_obj) at1 ∙ used in
      let used2 : (s2.frames f).pf_obj ≡ some o = ap (λ p. p.pf_obj) at2 ∙ used1 in
      let count2 : (s2.frames f).pf_pincount ≡ (s.frames f).pf_pincount + 1 =
        ap (λ p. p.pf_pincount) at2 ∙ ap (λ p. p.pf_pincount) at1 in
      let (s', unpinned, frames') =
        unpin-frames f o s2 used2
          (positive (s2.frames f).pf_pincount (s.frames f).pf_pincount count2) in
      let at3 = ap (λ g. g f) frames' ∙ update_same s2.frames f (unpinned_once (s2.frames f)) in
      (
        s1,
        s2,
        s',
        pinned,
        pframe_dirty-shadow f o s1 used1 (ap (λ p. p.pf_busy) at1 ∙ idle)
            (ap (λ x. (x o).mmo_ops) objs1 ∙ ops),
        unpinned,
        record {
          contents = ap (λ p. p.pf_data) at3 ∙ ap (λ p. p.pf_data) at2 ∙ ap (λ p. p.pf_data) at1;
          dirty = ap (λ p. p.pf_dirty) at3 ∙ ap (λ p. p.pf_dirty) at2;
          pins =
              ap (λ p. p.pf_pincount) at3
              ∙ one_less (s2.frames f).pf_pincount (s.frames f).pf_pincount count2;
          others = λ j differs.
              ap (λ g. g j) frames' ∙ rw differs (ap (λ g. g j) frames1 ∙ rw differs refl);
        },
      )
