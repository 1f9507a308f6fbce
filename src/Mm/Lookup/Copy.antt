-- ===== src/Mm/Lookup/Copy.antt =====
-- Copy on write: what the lookup of a page for writing does in a shadow object without that page.
use weenix_kernel_implementa.Common.{
  ℕ, suc, ◌<◌, ◌≡◌, refl, ap, ◌∙◌, inl, inr, true, false, none, some, List, [], ◌∷◌, ◌==◌, length,
  ok, Bool-cases, arith,
}
use weenix_kernel_implementa.Proc.Sched.Fifo.{has}
use weenix_kernel_implementa.Mm.Frames.{
  Memory, find_frame, shadow_mmobj_ops, set_busy, set_dirty, hash_page, pframe_alloc,
}
use weenix_kernel_implementa.Mm.Frames.Resident.{
  frame_of, is_page, find_frame-cong, find_frame-here, Touched, resident-none,
}
use weenix_kernel_implementa.Mm.Frames.Lists.{not_member}
use weenix_kernel_implementa.Mm.Frames.Alloc.{allocated, pframe_alloc-allocated, frame_of-allocated}
use weenix_kernel_implementa.Mm.Lookup.{
  MmEnv, page, Lookup, Free, pframe_fill, get_new, pframe_get, read_found, shadow_lookuppage,
  pframe_lookup,
}
use weenix_kernel_implementa.Mm.Lookup.Chain.{IsChain, first_of, first_shadow, read_walk-first}
use weenix_kernel_implementa.Mm.Lookup.Filled.{
  IsChain-same, first_of-cong, first_of-used, fill-Copied,
}

module _ (mm : MmEnv) where
  get_new-Copied :
      (look : Lookup mm) (drop : Free mm) (fuel f source : ℕ) (s s' : Memory mm.Env)
      → pframe_fill mm fuel look f s ≡ ok (true, s')
      → (s'.frames f).pf_busy ≡ false
      → get_new mm fuel look drop (some f, s) ≡ ok (page f, s')
  unfolding get_new
  get_new-Copied look drop fuel f source s s' filled idle = rw (filled, idle) refl

  pframe_get-new :
      (look : Lookup mm) (drop : Free mm) (fuel o pagenum f : ℕ) (s s1 s2 : Memory mm.Env)
      → frame_of mm.hash_size o pagenum s ≡ none
      → pframe_alloc mm.hash_size o pagenum s ≡ ok (some f, s1)
      → get_new mm fuel look drop (some f, s1) ≡ ok (page f, s2)
      → pframe_get mm fuel look drop o pagenum s ≡ ok (page f, s2)
  unfolding pframe_get
  pframe_get-new look drop fuel o pagenum f s s1 s2 missing taken filled =
      let r = resident-none mm.hash_size o pagenum s missing in
      rw (pframe_get, ap (λ x. x.0) r, ap (λ x. x.1) r, taken) filled

  lookup_write-missing :
      (drop : Free mm) (fuel o pagenum f : ℕ) (s s' : Memory mm.Env)
      → (s.objs o).mmo_ops ≡ shadow_mmobj_ops
      → frame_of mm.hash_size o pagenum s ≡ none
      → pframe_get mm fuel (pframe_lookup mm drop fuel) drop o pagenum s ≡ ok (page f, s')
      → pframe_lookup mm drop (suc fuel) o pagenum true s ≡ ok (page f, set_dirty true f s')
  unfolding pframe_lookup shadow_lookuppage
  lookup_write-missing drop fuel o pagenum f s s' ops missing got =
      let r = resident-none mm.hash_size o pagenum s missing in
      rw (pframe_lookup, ops, shadow_lookuppage, ap (λ x. x.0) r, ap (λ x. x.1) r, got) refl

  first_shadow-here :
      (size o pagenum f source : ℕ) (below : List ℕ) (s s' : Memory mm.Env)
      → first_of size pagenum below s ≡ some source
      → frame_of size o pagenum s' ≡ some f
      → first_shadow size pagenum o below s' ≡ (some f, o)
  first_shadow-here size o pagenum f source [] s s' first here = cc
  first_shadow-here size o pagenum f source (b ∷ rest) s s' first here =
      rw (first_shadow, here) refl

  -- A page that a shadow object has itself is read from it.
  lookup_read-here :
      (drop : Free mm) (fuel o pagenum f : ℕ) (below : List ℕ) (s : Memory mm.Env)
      → (s.objs o).mmo_ops ≡ shadow_mmobj_ops
      → IsChain s o below
      → length below < fuel
      → first_shadow mm.hash_size pagenum o below s ≡ (some f, o)
      → (s' : Memory mm.Env) × (pframe_lookup mm drop (suc fuel) o pagenum false s
          ≡ ok (page f, s'))
        × Touched s s'
  unfolding pframe_lookup shadow_lookuppage read_found
  lookup_read-here drop fuel o pagenum f below s ops chain enough here =
      let (s', walk, touched) = read_walk-first mm fuel o pagenum below s enough chain in
      (s', rw (pframe_lookup, ops, shadow_lookuppage, walk, here) refl, touched)

  -- The frame is the object's copy of the source's page, dirty and pinned once; a lookup for reading
  -- returns it, and no other frame has changed.
  pub record Written (drop : Free mm) (fuel o pagenum f source : ℕ) (s s' : Memory mm.Env)
      : Type 0 where
    pub contents : (s'.frames f).pf_data ≡ (s.frames source).pf_data
    pub dirty : (s'.frames f).pf_dirty ≡ true
    pub pins : (s'.frames f).pf_pincount ≡ 1
    pub idle : (s'.frames f).pf_busy ≡ false
    pub pf_obj : (s'.frames f).pf_obj ≡ some o
    pub ops : (s'.objs o).mmo_ops ≡ shadow_mmobj_ops
    pub others : (j : ℕ) → (j == f) ≡ false → s'.frames j ≡ s.frames j
    pub reads :
        (s'' : Memory mm.Env) × (pframe_lookup mm drop fuel o pagenum false s' ≡ ok (page f, s''))
        × Touched s' s''

  -- Copy on write: `pframe_lookup` for writing, of a page that a shadow object does not have but one of
  -- the objects below it has resident, takes a free frame and makes it the object's page. The frame
  -- holds the data of the first object below that has the page, is dirty and pinned once, and a lookup
  -- for reading that follows returns it; no other frame has changed, so that the objects below keep
  -- their data. The object has a reference and is not below itself, and the fuel exceeds the length of
  -- the chain.
  pub lookup_write-Copied :
      (drop : Free mm) (fuel o pagenum f source : ℕ) (below free : List ℕ) (s : Memory mm.Env)
      → (s.objs o).mmo_ops ≡ shadow_mmobj_ops
      → 0 < (s.objs o).mmo_refcount
      → frame_of mm.hash_size o pagenum s ≡ none
      → IsChain s o below
      → has o below ≡ false
      → first_of mm.hash_size pagenum below s ≡ some source
      → s.free_frames ≡ f ∷ free
      → (s.frames f).pf_obj ≡ none
      → length below < fuel
      → (s' : Memory mm.Env) × (pframe_lookup mm drop (suc fuel) o pagenum true s ≡ ok (page f, s'))
        × Written drop (suc fuel) o pagenum f source s s'
  lookup_write-Copied drop fuel o pagenum f source below free s ops counted missing chain apart
        first left unused enough =
      let size = mm.hash_size in
      let s1 = allocated size o pagenum f free s in
      let taken = pframe_alloc-allocated size o pagenum f free s left counted in
      let (b, holds) = first_of-used size pagenum source below s first in
      let other : (f == source) ≡ false = elim (Bool-cases (f == source)) [
        | inr differ ↦ differ
        | inl same ↦
            let eq : f ≡ source = ground arith in
            absurd (ground (arith, ap (λ x. is_page b pagenum x s) eq))
      ] in
      let chain1 = IsChain-same o below s s1 (λ j. ground arith) chain in
      let busy = set_busy true f s1 in
      let number : (s1.frames f).pf_pagenum ≡ pagenum = ground arith in
      let first1 : first_of size (s1.frames f).pf_pagenum below busy ≡ some source =
        ap (λ p. first_of size p below busy) number
        ∙ first_of-cong size pagenum below s busy (λ j member.
          find_frame-cong j pagenum (s1.pframe_hash (hash_page size j pagenum)) s1 busy
            (λ g. ground arith)
          ∙ frame_of-allocated size o pagenum f j pagenum free s unused
              (not_member o j below apart member))
        ∙ first in
      let look = pframe_lookup mm drop fuel in
      let (s2, filled, copied, idle) =
        fill-Copied mm look fuel o f source below s1 (ground arith) (ground arith) (ground arith)
          other enough chain1 first1 in
      let got =
        pframe_get-new look drop fuel o pagenum f s s1 s2 missing taken
          (get_new-Copied look drop fuel f source s1 s2 filled idle) in
      let s' = set_dirty true f s2 in
      let here : is_page o pagenum f s' ≡ true = ground (arith, copied.pf_obj, copied.pagenum) in
      let h = hash_page size o pagenum in
      let same : (h == h) ≡ true = ground arith in
      let found : frame_of size o pagenum s' ≡ some f =
        ap (λ x. find_frame o pagenum (x h) s') copied.pframe_hash
        ∙ rw same (find_frame-here o pagenum f (s.pframe_hash h) s' here) in
      let ops' : (s'.objs o).mmo_ops ≡ shadow_mmobj_ops =
        ap (λ x. (x o).mmo_ops) copied.objs ∙ ground arith in
      let chain' =
        IsChain-same o below s1 s' (λ j. ap (λ x. (x j).mmo_shadowed) copied.objs) chain1 in
      (
        s',
        lookup_write-missing drop fuel o pagenum f s s2 ops missing got,
        record {
          contents = ground (arith, copied.contents, other);
          dirty = ground arith;
          pins = ground (arith, copied.pins);
          idle = ground (arith, idle);
          pf_obj = ground (arith, copied.pf_obj);
          ops = ops';
          others = λ j differs. rw differs (copied.others j differs ∙ rw differs refl);
          reads =
              lookup_read-here drop fuel o pagenum f below s' ops' chain' enough
                (first_shadow-here size o pagenum f source below s s' first found);
        },
      )
