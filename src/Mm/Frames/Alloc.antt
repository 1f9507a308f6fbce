-- ===== src/Mm/Frames/Alloc.antt =====
-- `pframe_pin` and `pframe_alloc`: the states that they end in, and what the table finds there.
use weenix_kernel_implementa.Common.{
  not, ℕ, ◌+◌, ◌-◌, ◌<◌, ◌≡◌, refl, sym, ap, ◌∙◌, inl, inr, true, false, none, some, List, [], ◌∷◌,
  ◌++◌, ◌==◌, ltb, update, ok, Bool-cases, arith,
}
use weenix_kernel_implementa.Proc.Sched.{erase, is_none}
use weenix_kernel_implementa.Mm.Frames.{
  Memory, Pframe, find_frame, set_frame, set_obj, is_pinned, hash_page, pframe_pin, pframe_unpin,
  pframe_alloc, alloc_frame, obj_ref,
}
use weenix_kernel_implementa.Mm.Frames.Resident.{
  frame_of, is_page, find_frame-cong, find_frame-other, find_frame-here,
}

abbrev pub new_frame : ℕ → ℕ → Pframe → Pframe
new_frame o pagenum pf = record pf {
  pf_obj = some o;
  pf_pagenum = pagenum;
  pf_busy = false;
  pf_dirty = false;
  pf_pincount = 0;
}

pub update_same : {A : Type 0} (h : ℕ → A) (i : ℕ) (a : A) → update h i a i ≡ a
update_same h i a = let same : (i == i) ≡ true = ground arith in rw same refl

module _ {Env : Type 0} where
  pub pin-frames :
      (f o : ℕ) (s : Memory Env)
      → (s.frames f).pf_obj ≡ some o
      → (s' : Memory Env) × (pframe_pin f s ≡ ok s')
        × (s'.frames
            ≡ update s.frames f
                (record (s.frames f) { pf_pincount = (s.frames f).pf_pincount + 1 }))
        × (s'.pframe_hash ≡ s.pframe_hash)
        × (s'.objs ≡ s.objs)
  unfolding pframe_pin
  pin-frames f o s used =
      let pf = s.frames f in
      let pinned : Pframe = record pf { pf_pincount = pf.pf_pincount + 1 } in
      elim (Bool-cases (is_pinned f s)) [
        | inl held ↦ (set_frame f pinned s, rw (used, held) refl, refl, refl, refl)
        | inr loose ↦ (
          set_frame f pinned (record s {
            alloc_list = erase f s.alloc_list;
            pinned_list = s.pinned_list ++ f ∷ [];
            nallocated = s.nallocated - 1;
            npinned = s.npinned + 1;
          }),
          rw (used, loose) refl,
          refl,
          refl,
          refl,
        )
      ]

  pub unpin-frames :
      (f o : ℕ) (s : Memory Env)
      → (s.frames f).pf_obj ≡ some o
      → is_pinned f s ≡ true
      → (s' : Memory Env) × (pframe_unpin f s ≡ ok s')
        × (s'.frames
            ≡ update s.frames f
                (record (s.frames f) { pf_pincount = (s.frames f).pf_pincount - 1 }))
  unfolding pframe_unpin
  unpin-frames f o s used held =
      let pf = s.frames f in
      let s1 = set_frame f (record pf { pf_pincount = pf.pf_pincount - 1 }) s in
      let in_use : not (is_none pf.pf_obj) ≡ true = ground arith in
      elim (Bool-cases (is_pinned f s1)) [
        | inl still ↦ (s1, rw (in_use, held, still) refl, refl)
        | inr loose ↦ (
          record s1 {
            pinned_list = erase f s1.pinned_list;
            alloc_list = s1.alloc_list ++ f ∷ [];
            nallocated = s1.nallocated + 1;
            npinned = s1.npinned - 1;
          },
          rw (in_use, held, loose) refl,
          refl,
        )
      ]

  -- The state after `pframe_alloc` took the frame `f` from the allocators.
  abbrev pub allocated : ℕ → ℕ → ℕ → ℕ → List ℕ → Memory Env → Memory Env
  allocated size o pagenum f free s =
      let h = hash_page size o pagenum in
      let s1 = set_frame f (new_frame o pagenum (s.frames f)) (record s {
        free_frames = free;
        nallocated = s.nallocated + 1;
        alloc_list = s.alloc_list ++ f ∷ [];
        pframe_hash = update s.pframe_hash h (f ∷ s.pframe_hash h);
      }) in
      let s2 = set_obj o (record (s1.objs o) { mmo_refcount = (s1.objs o).mmo_refcount + 1 }) s1 in
      set_obj o
        (record (s2.objs o) {
          mmo_nrespages = (s2.objs o).mmo_nrespages + 1;
          mmo_respages = f ∷ (s2.objs o).mmo_respages;
        })
        s2

  pub pframe_alloc-allocated :
      (size o pagenum f : ℕ) (free : List ℕ) (s : Memory Env)
      → s.free_frames ≡ f ∷ free
      → 0 < (s.objs o).mmo_refcount
      → pframe_alloc size o pagenum s ≡ ok (some f, allocated size o pagenum f free s)
  unfolding pframe_alloc alloc_frame obj_ref
  pframe_alloc-allocated size o pagenum f free s e counted =
      let positive : ltb 0 (s.objs o).mmo_refcount ≡ true = ground arith in
      rw (e, alloc_frame, positive) refl

  -- The pages of other objects are found as before, if the frame was free.
  pub frame_of-allocated :
      (size o pagenum f b p : ℕ) (free : List ℕ) (s : Memory Env)
      → (s.frames f).pf_obj ≡ none
      → (o == b) ≡ false
      → frame_of size b p (allocated size o pagenum f free s) ≡ frame_of size b p s
  frame_of-allocated size o pagenum f b p free s unused other =
      let s' = allocated size o pagenum f free s in
      let chain = s.pframe_hash (hash_page size b p) in
      let same : (g : ℕ) → is_page b p g s' ≡ is_page b p g s = λ g. ground arith in
      elim (Bool-cases (hash_page size b p == hash_page size o pagenum)) [
        | inr apart ↦ rw apart (find_frame-cong b p chain s s' same)
        | inl together ↦
            let eq : hash_page size b p ≡ hash_page size o pagenum = ground arith in
            let front = s.pframe_hash (hash_page size o pagenum) in
            let passed : is_page b p f s' ≡ false = ground arith in
            rw together (
              find_frame-other b p f front s' passed
              ∙ find_frame-cong b p front s s' same
              ∙ ap (λ h. find_frame b p (s.pframe_hash h) s) (sym eq))
      ]

  -- The new page is found.
  pub frame_of-new :
      (size o pagenum f : ℕ) (free : List ℕ) (s : Memory Env)
      → frame_of size o pagenum (allocated size o pagenum f free s) ≡ some f
  frame_of-new size o pagenum f free s =
      let s' = allocated size o pagenum f free s in
      let h = hash_page size o pagenum in
      let here : is_page o pagenum f s' ≡ true = ground arith in
      let same : (h == h) ≡ true = ground arith in
      rw same (find_frame-here o pagenum f (s.pframe_hash h) s' here)
