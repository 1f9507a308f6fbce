-- ===== src/Mm/Frames/Counts.antt =====
-- Every frame in use is on one of the two lists, by its pin count, and the counters are the lengths.
use weenix_kernel_implementa.Common.{
  ℕ, ◌+◌, ◌≡◌, ◌<◌, refl, subst, ◌∙◌, inl, inr, true, false, ◌&&◌, Option, none, some, List, [],
  ◌∷◌, ◌++◌, ◌==◌, ltb, update, ok, Bool-cases, arith,
}
use weenix_kernel_implementa.Proc.Sched.{erase}
use weenix_kernel_implementa.Proc.Sched.Fifo.{
  has, Distinct, has-erase, Distinct-erase, length-erase,
}
use weenix_kernel_implementa.Proc.Kmutex.{points_to}
use weenix_kernel_implementa.Mm.Frames.{
  Memory, Pframe, set_frame, set_obj, is_pinned, touch, pframe_get_resident, obj_ref, alloc_frame,
  pframe_alloc, pframe_pin, pframe_unpin, find_frame, hash_page,
}
use weenix_kernel_implementa.Mm.Frames.Lists.{
  length-snoc, Distinct-snoc, has-snoc, Holds-snoc, Holds-same, not_member, in_use, loose, pinned,
  IsListed,
}
use weenix_kernel_implementa.Mm.Frames.Pins.{pin-IsListed, unpin-IsListed}

module _ {Env : Type 0} where
  -- The state of a frame that was just allocated.
  alloc-IsListed :
      (size o pagenum f : ℕ) (free : List ℕ) (s : Memory Env)
      → IsListed s
      → s.free_frames ≡ f ∷ free
      → 0 < (s.objs o).mmo_refcount
      → (s' : Memory Env) × (pframe_alloc size o pagenum s ≡ ok (some f, s'))
        × IsListed s'
        × ((s'.frames f).pf_obj ≡ some o)
        × ((s'.frames f).pf_pagenum ≡ pagenum)
        × ((s'.objs o).mmo_refcount ≡ (s.objs o).mmo_refcount + 1)
        × ((s'.objs o).mmo_nrespages ≡ (s.objs o).mmo_nrespages + 1)
  unfolding pframe_alloc alloc_frame obj_ref has
  alloc-IsListed size o pagenum f free s i e counted =
      let pf : Pframe = record (s.frames f) {
        pf_obj = some o;
        pf_pagenum = pagenum;
        pf_busy = false;
        pf_dirty = false;
        pf_pincount = 0;
      } in
      let h = hash_page size o pagenum in
      let s1 = set_frame f pf (record s {
        free_frames = free;
        nallocated = s.nallocated + 1;
        alloc_list = s.alloc_list ++ f ∷ [];
        pframe_hash = update s.pframe_hash h (f ∷ s.pframe_hash h);
      }) in
      let s2 = set_obj o (record (s1.objs o) { mmo_refcount = (s1.objs o).mmo_refcount + 1 }) s1 in
      let s3 =
        set_obj o
          (record (s2.objs o) {
            mmo_nrespages = (s2.objs o).mmo_nrespages + 1;
            mmo_respages = f ∷ (s2.objs o).mmo_respages;
          })
          s2 in
      let positive : ltb 0 (s.objs o).mmo_refcount ≡ true = ground arith in
      let first_free : has f s.free_frames ≡ true = rw e (ground arith) in
      let unused : (s.frames f).pf_obj ≡ none = i.free_unused f first_free in
      let d : Distinct (f ∷ free) = subst Distinct e i.free_distinct in
      (
        s3,
        rw (e, alloc_frame, positive) refl,
        record {
          allocated =
              Holds-snoc s.alloc_list s.nallocated f (loose s) (loose s3) i.allocated (ground arith)
                (λ j. ground arith);
          pins =
              Holds-same s.pinned_list s.npinned (pinned s) (pinned s3) i.pins (λ j. ground arith);
          free_distinct = d.1;
          free_unused = λ j member.
              let other : (f == j) ≡ false = not_member f j free d.0 member in
              let before : has j s.free_frames ≡ true = rw e (ground arith) in
              ground (arith, i.free_unused j before);
        },
        ground arith,
        ground arith,
        ground arith,
        ground arith,
      )

  touch-IsListed :
      (r : Option ℕ) (s : Memory Env)
      → IsListed s
      → ((f : ℕ) → r ≡ some f → in_use s f ≡ true)
      → ((touch r s).0 ≡ r) × IsListed (touch r s).1
  unfolding touch
  touch-IsListed none s i used = (refl, i)
  touch-IsListed (some f) s i used = elim (Bool-cases (is_pinned f s)) [
    | inl held ↦ rw held (refl, i)
    | inr free ↦ rw free (
      refl,
      record {
        allocated = record {
          size = omega (
            arith,
            i.allocated.size,
            length-snoc f (erase f s.alloc_list),
            length-erase f s.alloc_list (i.allocated.members f ∙ ground (arith, used f refl)),
          );
          distinct =
              Distinct-snoc f (erase f s.alloc_list)
                (Distinct-erase f s.alloc_list i.allocated.distinct)
                (ground (arith, has-erase f f s.alloc_list i.allocated.distinct));
          members = λ j. ground (
            arith,
            has-snoc j f (erase f s.alloc_list),
            has-erase f j s.alloc_list i.allocated.distinct,
            i.allocated.members j,
            used f refl,
          );
        };
        pins = i.pins;
        free_distinct = i.free_distinct;
        free_unused = i.free_unused;
      },
    )
  ]

  find_frame-in_use :
      (o pagenum f : ℕ) (chain : List ℕ) (s : Memory Env)
      → find_frame o pagenum chain s ≡ some f
      → ((s.frames f).pf_obj ≡ some o) × ((s.frames f).pf_pagenum ≡ pagenum)
  unfolding find_frame
  find_frame-in_use o pagenum f [] s e = cc
  find_frame-in_use o pagenum f (x ∷ xs) s e =
      elim (Bool-cases (points_to (s.frames x).pf_obj o && (pagenum == (s.frames x).pf_pagenum))) [
        | inl here ↦ let same : x ≡ f = ground arith in rw (← same) (ground arith, ground arith)
        | inr later ↦ find_frame-in_use o pagenum f xs s (ground arith)
      ]

  -- The lists of frames stay in order: the allocated list holds the frames in use that are not pinned,
  -- the pinned list those that are, each once, and `nallocated` and `npinned` are their lengths. This
  -- holds after `pframe_get_resident`, after `pframe_pin` of a frame in use, which raises its pin count
  -- by one, after `pframe_unpin` of a pinned frame, which lowers it by one, and after `pframe_alloc` for
  -- an object with a reference, which gets one more reference and one more resident page.
  pub frames-IsListed :
      (s : Memory Env)
      → IsListed s
      → ((size o pagenum : ℕ) → IsListed (pframe_get_resident size o pagenum s).1)
        × ((f : ℕ)
            → in_use s f ≡ true
            → (s' : Memory Env) × (pframe_pin f s ≡ ok s')
              × IsListed s'
              × ((s'.frames f).pf_pincount ≡ (s.frames f).pf_pincount + 1))
        × ((f : ℕ)
            → pinned s f ≡ true
            → (s' : Memory Env) × (pframe_unpin f s ≡ ok s')
              × IsListed s'
              × ((s'.frames f).pf_pincount + 1 ≡ (s.frames f).pf_pincount))
        × ((size o pagenum f : ℕ) (free : List ℕ)
            → s.free_frames ≡ f ∷ free
            → 0 < (s.objs o).mmo_refcount
            → (s' : Memory Env) × (pframe_alloc size o pagenum s ≡ ok (some f, s'))
              × IsListed s'
              × ((s'.frames f).pf_obj ≡ some o)
              × ((s'.frames f).pf_pagenum ≡ pagenum)
              × ((s'.objs o).mmo_refcount ≡ (s.objs o).mmo_refcount + 1)
              × ((s'.objs o).mmo_nrespages ≡ (s.objs o).mmo_nrespages + 1))
  unfolding pframe_get_resident
  frames-IsListed s i = (
    λ size o pagenum.
        (touch-IsListed (find_frame o pagenum (s.pframe_hash (hash_page size o pagenum)) s) s i
          (λ f e.
            let found =
              find_frame-in_use o pagenum f (s.pframe_hash (hash_page size o pagenum)) s e in
            ground (arith, found))).1,
    λ f used. pin-IsListed f s i used,
    λ f held. unpin-IsListed f s i held,
    λ size o pagenum f free e counted. alloc-IsListed size o pagenum f free s i e counted,
  )
