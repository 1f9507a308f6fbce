-- ===== src/Mm/Copying/Single.antt =====
-- A store into the frame of a page.
use weenix_kernel_implementa.Common.{
  ℕ, suc, ◌≡◌, refl, ap, ◌∙◌, inl, inr, true, false, some, ◌==◌, add32, sub32, ok, Bool-cases,
  Option-cases, arith,
}
use weenix_kernel_implementa.Mm.Frames.{Memory, set_data, hash_page}
use weenix_kernel_implementa.Mm.Frames.Same.{update-field, frame_of-cong}
use weenix_kernel_implementa.Mm.Frames.Resident.{frame_of, is_page, find_frame-is_page, Touched}
use weenix_kernel_implementa.Mm.Frames.Alloc.{update_same}
use weenix_kernel_implementa.Mm.Lookup.{MmEnv, page, Free}
use weenix_kernel_implementa.Mm.Put.Same.{pframe_dirty-SamePages}
use weenix_kernel_implementa.Mm.Lookup.Present.{lookup_resident}
use weenix_kernel_implementa.Vm.Layout.{Layout}
use weenix_kernel_implementa.Vm.Vmmap.{Vmarea, Vmmap, vmmap_lookup}
use weenix_kernel_implementa.Mm.Copying.{memcpy, user_frame, store}

module _ {Env : Type 0} where
  -- A store of `d` in the frame, which then is idle.
  pub record Stored (f : ℕ) (d : ℕ → ℕ) (s s' : Memory Env) : Type 0 where
    pub contents : (s'.frames f).pf_data ≡ d
    pub idle : (s'.frames f).pf_busy ≡ false
    pub others : (j : ℕ) → (j == f) ≡ false → s'.frames j ≡ s.frames j
    pub pages : (size o p : ℕ) → frame_of size o p s' ≡ frame_of size o p s
    pub objs : s'.objs ≡ s.objs

  pub frame_of-Touched :
      (size o p : ℕ) (s s' : Memory Env) → Touched s s' → frame_of size o p s' ≡ frame_of size o p s
  frame_of-Touched size o p s s' t =
      frame_of-cong size o p s s' t.pframe_hash (λ j. ap (λ g. (g j).pf_obj) t.frames)
        (λ j. ap (λ g. (g j).pf_pagenum) t.frames)

module _ (mm : MmEnv) (page_offset : ℕ → ℕ) (l : Layout) (drop : Free mm) (fuel : ℕ)
    (m : Vmmap) where
  -- The area of a page, its object, and the frame in which the page is resident, which is not busy.
  pub record Present (pn f : ℕ) (s : Memory mm.Env) : Type 0 where
    pub area : Vmarea
    pub object : ℕ
    pub covered : vmmap_lookup m pn ≡ some area
    pub vma_obj : area.vma_obj ≡ some object
    pub resident :
        frame_of mm.hash_size object (add32 (sub32 pn area.vma_start) area.vma_off) s ≡ some f
    pub idle : (s.frames f).pf_busy ≡ false

  pub user_frame-Present :
      (pn f : ℕ) (s : Memory mm.Env)
      → Present pn f s
      → (s' : Memory mm.Env) × (user_frame mm page_offset l drop (suc fuel) m pn s
          ≡ ok (page f, s'))
        × Touched s s'
  unfolding user_frame
  user_frame-Present pn f s p =
      let pagenum = add32 (sub32 pn p.area.vma_start) p.area.vma_off in
      let (s', got, t) = lookup_resident mm drop fuel p.object pagenum f s p.resident p.idle in
      (s', rw (p.covered, p.vma_obj) got, t)

  is_page-owner :
      (o p f : ℕ) (s : Memory mm.Env) → is_page o p f s ≡ true → (s.frames f).pf_obj ≡ some o
  is_page-owner o p f s e = elim (Option-cases (s.frames f).pf_obj) [
    | inl none_ ↦ ground arith
    | inr (x, some_) ↦ ground arith
  ]

  pub store-Stored :
      (at : ℕ) (buf : ℕ → ℕ) (from n pn f : ℕ) (s : Memory mm.Env)
      → Present pn f s
      → (s' : Memory mm.Env) × (store mm page_offset l drop (suc fuel) m at buf from n f s ≡ ok s')
        × Stored f (memcpy (s.frames f).pf_data at buf from n) s s'
  unfolding store
  store-Stored at buf from n pn f s p =
      let pagenum = add32 (sub32 pn p.area.vma_start) p.area.vma_off in
      let owner : (s.frames f).pf_obj ≡ some p.object = is_page-owner p.object pagenum f s (
        find_frame-is_page p.object pagenum f
          (s.pframe_hash (hash_page mm.hash_size p.object pagenum)) s p.resident) in
      let d = memcpy (s.frames f).pf_data at buf from n in
      let s1 = set_data d f s in
      let at1 : s1.frames f ≡ record (s.frames f) { pf_data = d } = update_same s.frames f _ in
      let (r, dirty, same, idle, others) =
        pframe_dirty-SamePages mm f p.object s1 (ap (λ x. x.pf_obj) at1 ∙ owner)
          (ap (λ x. x.pf_busy) at1 ∙ p.idle) in
      (
        r.1,
        rw dirty refl,
        record {
          contents = same.contents f ∙ ap (λ x. x.pf_data) at1;
          idle = idle;
          others = λ j differs. others j differs ∙ rw differs refl;
          pages = λ size o q.
              frame_of-cong size o q s r.1 same.pframe_hash
                (λ j.
                  same.owner j
                  ∙ update-field (λ x. x.pf_obj) s.frames f (record (s.frames f) { pf_data = d })
                      refl j)
                (λ j.
                  same.pagenum j
                  ∙ update-field (λ x. x.pf_pagenum) s.frames f
                      (record (s.frames f) { pf_data = d }) refl j);
          objs = same.objs;
        },
      )

  pub Present-Touched :
      (pn f : ℕ) (s s' : Memory mm.Env) → Touched s s' → Present pn f s → Present pn f s'
  Present-Touched pn f s s' t p =
      let pagenum = add32 (sub32 pn p.area.vma_start) p.area.vma_off in
      record {
        area = p.area;
        object = p.object;
        covered = p.covered;
        vma_obj = p.vma_obj;
        resident = frame_of-Touched mm.hash_size p.object pagenum s s' t ∙ p.resident;
        idle = ap (λ g. (g f).pf_busy) t.frames ∙ p.idle;
      }

  pub Present-Stored :
      (pn f g : ℕ) (d : ℕ → ℕ) (s s' : Memory mm.Env)
      → Stored g d s s'
      → Present pn f s
      → Present pn f s'
  Present-Stored pn f g d s s' t p =
      let pagenum = add32 (sub32 pn p.area.vma_start) p.area.vma_off in
      record {
        area = p.area;
        object = p.object;
        covered = p.covered;
        vma_obj = p.vma_obj;
        resident = t.pages mm.hash_size p.object pagenum ∙ p.resident;
        idle = elim (Bool-cases (f == g)) [
          | inl here ↦ let same : f ≡ g = ground arith in rw same t.idle
          | inr there ↦ ap (λ x. x.pf_busy) (t.others f there) ∙ p.idle
        ];
      }
