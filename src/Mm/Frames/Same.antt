-- ===== src/Mm/Frames/Same.antt =====
-- States whose frames hold the same data for the same pages.
use weenix_kernel_implementa.Common.{
  ℕ, ◌≡◌, refl, ap, ◌∙◌, sym, ◌⊎◌, inl, inr, ◌&&◌, ◌==◌, if◌then◌else◌, Bool-cases, arith,
}
use weenix_kernel_implementa.Proc.Kmutex.{points_to}
use weenix_kernel_implementa.Mm.Frames.{
  MmobjOps, anon_mmobj_ops, shadow_mmobj_ops, vnode_mmobj_ops, Memory, Pframe, find_frame,
  set_frame, with_env, hash_page,
}
use weenix_kernel_implementa.Mm.Frames.Resident.{frame_of, find_frame-cong}

pub ops-cases :
    (x : MmobjOps) → (x ≡ anon_mmobj_ops) ⊎ ((x ≡ shadow_mmobj_ops) ⊎ (x ≡ vnode_mmobj_ops))
ops-cases anon_mmobj_ops = inl refl
ops-cases shadow_mmobj_ops = inr (inl refl)
ops-cases vnode_mmobj_ops = inr (inr refl)

pub update-field :
    {A : Type 0} (get : Pframe → A) (frames : ℕ → Pframe) (f : ℕ) (pf : Pframe)
    → get pf ≡ get (frames f)
    → (j : ℕ) → get (if j == f then pf else frames j) ≡ get (frames j)
update-field get frames f pf e j = elim (Bool-cases (j == f)) [
  | inl here ↦ let same : j ≡ f = ground arith in rw here (e ∙ ap (λ x. get (frames x)) (sym same))
  | inr there ↦ rw there refl
]

module _ {Env : Type 0} where
  -- The frames hold the same data for the same pages.
  pub record SamePages (s s' : Memory Env) : Type 0 where
    pub contents : (j : ℕ) → (s'.frames j).pf_data ≡ (s.frames j).pf_data
    pub owner : (j : ℕ) → (s'.frames j).pf_obj ≡ (s.frames j).pf_obj
    pub pagenum : (j : ℕ) → (s'.frames j).pf_pagenum ≡ (s.frames j).pf_pagenum
    pub pframe_hash : s'.pframe_hash ≡ s.pframe_hash
    pub objs : s'.objs ≡ s.objs

  abbrev pub SamePages-trans : (a b c : Memory Env) → SamePages a b → SamePages b c → SamePages a c
  SamePages-trans a b c ab bc = record {
    contents = λ j. bc.contents j ∙ ab.contents j;
    owner = λ j. bc.owner j ∙ ab.owner j;
    pagenum = λ j. bc.pagenum j ∙ ab.pagenum j;
    pframe_hash = bc.pframe_hash ∙ ab.pframe_hash;
    objs = bc.objs ∙ ab.objs;
  }

  pub set_frame-SamePages :
      (f : ℕ) (pf : Pframe) (s : Memory Env)
      → pf.pf_data ≡ (s.frames f).pf_data
      → pf.pf_obj ≡ (s.frames f).pf_obj
      → pf.pf_pagenum ≡ (s.frames f).pf_pagenum
      → SamePages s (set_frame f pf s)
  set_frame-SamePages f pf s d o p = record {
    contents = update-field (λ x. x.pf_data) s.frames f pf d;
    owner = update-field (λ x. x.pf_obj) s.frames f pf o;
    pagenum = update-field (λ x. x.pf_pagenum) s.frames f pf p;
    pframe_hash = refl;
    objs = refl;
  }

  pub env-SamePages : (g : Env → Env) (s : Memory Env) → SamePages s (with_env g s)
  env-SamePages g s = record {
    contents = λ j. refl;
    owner = λ j. refl;
    pagenum = λ j. refl;
    pframe_hash = refl;
    objs = refl;
  }

  pub frame_of-cong :
      (size o p : ℕ) (s s' : Memory Env)
      → s'.pframe_hash ≡ s.pframe_hash
      → ((j : ℕ) → (s'.frames j).pf_obj ≡ (s.frames j).pf_obj)
      → ((j : ℕ) → (s'.frames j).pf_pagenum ≡ (s.frames j).pf_pagenum)
      → frame_of size o p s' ≡ frame_of size o p s
  frame_of-cong size o p s s' hash owner pagenum =
      let same : find_frame o p (s'.pframe_hash (hash_page size o p)) s'
          ≡ find_frame o p (s'.pframe_hash (hash_page size o p)) s =
        find_frame-cong o p (s'.pframe_hash (hash_page size o p)) s s' (λ j.
          ap (λ x. points_to x o && (p == (s'.frames j).pf_pagenum)) (owner j)
          ∙ ap (λ x. points_to (s.frames j).pf_obj o && (p == x)) (pagenum j)) in
      same ∙ ap (λ h. find_frame o p (h (hash_page size o p)) s) hash
