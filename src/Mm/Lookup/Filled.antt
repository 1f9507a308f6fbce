-- ===== src/Mm/Lookup/Filled.antt =====
-- The fill of a new frame of a shadow object from the objects below it.
use weenix_kernel_implementa.Common.{
  ℕ, ◌+◌, ◌<◌, ◌≡◌, refl, ap, ◌∙◌, inl, inr, true, false, some, List, [], ◌∷◌, ◌==◌, length, ok,
  deref-some, ◌>>=◌, Option-cases, arith,
}
use weenix_kernel_implementa.Proc.Sched.Fifo.{has}
use weenix_kernel_implementa.Mm.Frames.{
  Memory, shadow_mmobj_ops, set_busy, with_env, set_data, hash_page,
}
use weenix_kernel_implementa.Mm.Frames.Resident.{frame_of, is_page, find_frame-is_page}
use weenix_kernel_implementa.Mm.Frames.Alloc.{pin-frames}
use weenix_kernel_implementa.Mm.Lookup.{
  MmEnv, Lookup, copy_from, fill_walk, fill_found, is_idle_frame, shadow_fillpage, fillpage,
  pframe_fill,
}
use weenix_kernel_implementa.Mm.Lookup.Chain.{IsChain, first_of, fill_walk-first}

module _ {Env : Type 0} where
  -- The frame holds a copy of the source's page, and no other frame has changed.
  pub record Copied (source f : ℕ) (s s' : Memory Env) : Type 0 where
    pub contents : (s'.frames f).pf_data ≡ (s.frames source).pf_data
    pub pf_obj : (s'.frames f).pf_obj ≡ (s.frames f).pf_obj
    pub pagenum : (s'.frames f).pf_pagenum ≡ (s.frames f).pf_pagenum
    pub pins : (s'.frames f).pf_pincount ≡ (s.frames f).pf_pincount + 1
    pub pframe_hash : s'.pframe_hash ≡ s.pframe_hash
    pub objs : s'.objs ≡ s.objs
    pub others : (j : ℕ) → (j == f) ≡ false → s'.frames j ≡ s.frames j

  pub IsChain-same :
      (o : ℕ) (below : List ℕ) (s s' : Memory Env)
      → ((b : ℕ) → (s'.objs b).mmo_shadowed ≡ (s.objs b).mmo_shadowed)
      → IsChain s o below
      → IsChain s' o below
  IsChain-same o [] s s' same chain = same o ∙ chain
  IsChain-same o (b ∷ rest) s s' same chain =
      (same o ∙ chain.0, IsChain-same b rest s s' same chain.1)

  pub first_of-cong :
      (size pagenum : ℕ) (below : List ℕ) (s s' : Memory Env)
      → ((b : ℕ) → has b below ≡ true → frame_of size b pagenum s' ≡ frame_of size b pagenum s)
      → first_of size pagenum below s' ≡ first_of size pagenum below s
  unfolding has
  first_of-cong size pagenum [] s s' same = refl
  first_of-cong size pagenum (b ∷ rest) s s' same =
      rw
        (
          same b (ground arith),
          first_of-cong size pagenum rest s s' (λ j member. same j (ground arith)),
        )
        refl

  pub first_of-used :
      (size pagenum source : ℕ) (below : List ℕ) (s : Memory Env)
      → first_of size pagenum below s ≡ some source
      → (b : ℕ) × (is_page b pagenum source s ≡ true)
  first_of-used size pagenum source [] s e = cc
  first_of-used size pagenum source (b ∷ rest) s e =
      elim (Option-cases (frame_of size b pagenum s)) [
        | inl missing ↦ first_of-used size pagenum source rest s (ground arith)
        | inr (f, found) ↦ (
          b,
          find_frame-is_page b pagenum source (s.pframe_hash (hash_page size b pagenum)) s
              (ground arith),
        )
      ]

module _ (mm : MmEnv) where
  copy_from-Copied :
      (source f o : ℕ) (s : Memory mm.Env)
      → (s.frames f).pf_obj ≡ some o
      → (f == source) ≡ false
      → (s' : Memory mm.Env) × (copy_from mm source f s ≡ ok (true, s')) × Copied source f s s'
  copy_from-Copied source f o s used other =
      let (s1, e, frames, hash, objs) = pin-frames f o s used in
      (
        set_data (s1.frames source).pf_data f s1,
        rw e refl,
        record {
          contents = ground (arith, ap (λ g. (g source).pf_data) frames);
          pf_obj = ground (arith, ap (λ g. (g f).pf_obj) frames);
          pagenum = ground (arith, ap (λ g. (g f).pf_pagenum) frames);
          pins = ground (arith, ap (λ g. (g f).pf_pincount) frames);
          pframe_hash = hash;
          objs = objs;
          others = λ j differs. rw differs (ap (λ g. g j) frames ∙ rw differs refl);
        },
      )

  pframe_fill-by :
      (look : Lookup mm) (fuel o f : ℕ) (s s' : Memory mm.Env)
      → (s.frames f).pf_obj ≡ some o
      → fillpage mm fuel look o f (set_busy true f s) ≡ ok (true, s')
      → pframe_fill mm fuel look f s ≡ ok (true, with_env (mm.wake f) (set_busy false f s'))
  unfolding pframe_fill
  pframe_fill-by look fuel o f s s' used filled =
      deref-some (s.frames f).pf_obj o
        (λ x. fillpage mm fuel look x f (set_busy true f s) >>= λ r.
          ok (r.0, with_env (mm.wake f) (set_busy false f r.1)))
        used
      ∙ rw filled refl

  pub fill-Copied :
      (look : Lookup mm) (fuel o f source : ℕ) (below : List ℕ) (s : Memory mm.Env)
      → (s.objs o).mmo_ops ≡ shadow_mmobj_ops
      → (s.frames f).pf_obj ≡ some o
      → (s.frames f).pf_pincount ≡ 0
      → (f == source) ≡ false
      → length below < fuel
      → IsChain s o below
      → first_of mm.hash_size (s.frames f).pf_pagenum below (set_busy true f s) ≡ some source
      → (s' : Memory mm.Env) × (pframe_fill mm fuel look f s ≡ ok (true, s'))
        × Copied source f s s'
        × ((s'.frames f).pf_busy ≡ false)
  unfolding fillpage shadow_fillpage fill_found
  fill-Copied look fuel o f source below s ops used unpinned other enough chain first =
      let s1 = set_busy true f s in
      let idle : is_idle_frame mm f s1 ≡ true = ground arith in
      let same : (s1.frames f).pf_pagenum ≡ (s.frames f).pf_pagenum = ground arith in
      let chain1 = IsChain-same o below s s1 (λ b. refl) chain in
      let (s2, walk, touched) =
        fill_walk-first mm fuel o (s1.frames f).pf_pagenum below s1 enough chain1 in
      let frames : s2.frames ≡ s1.frames = touched.frames in
      let found : fill_walk mm fuel o (s1.frames f).pf_pagenum s1 ≡ ok (some source, s2) =
        walk ∙ ap (λ r. ok (r, s2)) (ap (λ p. first_of mm.hash_size p below s1) same ∙ first) in
      let owner : (s1.frames f).pf_obj ≡ some o = ground arith in
      let (s3, copy, copied) =
        copy_from-Copied source f o s2 (ap (λ g. (g f).pf_obj) frames ∙ owner) other in
      let filled : fillpage mm fuel look o f s1 ≡ ok (true, s3) =
        rw (fillpage, ops, shadow_fillpage, idle, found, fill_found) copy in
      (
        with_env (mm.wake f) (set_busy false f s3),
        pframe_fill-by look fuel o f s s3 used filled,
        record {
          contents = ground (arith, copied.contents, ap (λ g. (g source).pf_data) frames);
          pf_obj = ground (arith, copied.pf_obj, ap (λ g. (g f).pf_obj) frames);
          pagenum = ground (arith, copied.pagenum, ap (λ g. (g f).pf_pagenum) frames);
          pins = ground (arith, copied.pins, ap (λ g. (g f).pf_pincount) frames);
          pframe_hash = copied.pframe_hash ∙ touched.pframe_hash;
          objs = copied.objs ∙ touched.objs;
          others = λ j differs.
              rw differs (copied.others j differs ∙ ap (λ g. g j) frames ∙ rw differs refl);
        },
        ground arith,
      )
