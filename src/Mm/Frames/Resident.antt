-- ===== src/Mm/Frames/Resident.antt =====
-- `pframe_get_resident`: what it finds, and what it changes.
use weenix_kernel_implementa.Common.{
  ℕ, ◌≡◌, refl, ap, ◌∙◌, inl, inr, Bool, true, false, ◌&&◌, Option, none, some, List, [], ◌∷◌, ◌==◌,
  Bool-cases, arith,
}
use weenix_kernel_implementa.Proc.Kmutex.{points_to}
use weenix_kernel_implementa.Mm.Frames.{
  Memory, find_frame, touch, pframe_get_resident, hash_page, is_pinned,
}

module _ {Env : Type 0} where
  -- The frame that holds a page of an object, by the table.
  abbrev pub frame_of : ℕ → ℕ → ℕ → Memory Env → Option ℕ
  frame_of size o pagenum s = find_frame o pagenum (s.pframe_hash (hash_page size o pagenum)) s

  -- Only the order of the allocated list may change.
  pub record Touched (s s' : Memory Env) : Type 0 where
    pub objs : s'.objs ≡ s.objs
    pub frames : s'.frames ≡ s.frames
    pub pframe_hash : s'.pframe_hash ≡ s.pframe_hash
    pub free_frames : s'.free_frames ≡ s.free_frames

  pub Touched-refl : (s : Memory Env) → Touched s s
  Touched-refl s = record { objs = refl; frames = refl; pframe_hash = refl; free_frames = refl }

  touch-Touched : (r : Option ℕ) (s : Memory Env) → ((touch r s).0 ≡ r) × Touched s (touch r s).1
  unfolding touch
  touch-Touched none s = (refl, Touched-refl s)
  touch-Touched (some f) s = elim (Bool-cases (is_pinned f s)) [
    | inl held ↦
        rw held
          (refl, record { objs = refl; frames = refl; pframe_hash = refl; free_frames = refl })
    | inr free ↦
        rw free
          (refl, record { objs = refl; frames = refl; pframe_hash = refl; free_frames = refl })
  ]

  pub resident-none :
      (size o pagenum : ℕ) (s : Memory Env)
      → frame_of size o pagenum s ≡ none
      → pframe_get_resident size o pagenum s ≡ (none, s)
  unfolding pframe_get_resident touch
  resident-none size o pagenum s e = rw e refl

  pub resident-some :
      (size o pagenum f : ℕ) (s : Memory Env)
      → frame_of size o pagenum s ≡ some f
      → (s' : Memory Env) × (pframe_get_resident size o pagenum s ≡ (some f, s')) × Touched s s'
  unfolding pframe_get_resident
  resident-some size o pagenum f s e =
      let (same, touched) = touch-Touched (some f) s in
      ((touch (some f) s).1, rw e (ap (λ r. (r, (touch (some f) s).1)) same), touched)

  -- Whether a frame holds the page.
  abbrev pub is_page : ℕ → ℕ → ℕ → Memory Env → Bool
  is_page o pagenum f s = points_to (s.frames f).pf_obj o && (pagenum == (s.frames f).pf_pagenum)

  pub find_frame-cong :
      (o pagenum : ℕ) (chain : List ℕ) (s s' : Memory Env)
      → ((f : ℕ) → is_page o pagenum f s' ≡ is_page o pagenum f s)
      → find_frame o pagenum chain s' ≡ find_frame o pagenum chain s
  unfolding find_frame
  find_frame-cong o pagenum [] s s' same = refl
  find_frame-cong o pagenum (f ∷ fs) s s' same = elim (Bool-cases (is_page o pagenum f s)) [
    | inl here ↦ rw (here, same f ∙ here) refl
    | inr there ↦ rw (there, same f ∙ there) (find_frame-cong o pagenum fs s s' same)
  ]

  -- A frame in front that holds another page is passed over.
  pub find_frame-other :
      (o pagenum f : ℕ) (chain : List ℕ) (s : Memory Env)
      → is_page o pagenum f s ≡ false
      → find_frame o pagenum (f ∷ chain) s ≡ find_frame o pagenum chain s
  unfolding find_frame
  find_frame-other o pagenum f chain s other = rw other refl

  pub find_frame-here :
      (o pagenum f : ℕ) (chain : List ℕ) (s : Memory Env)
      → is_page o pagenum f s ≡ true
      → find_frame o pagenum (f ∷ chain) s ≡ some f
  unfolding find_frame
  find_frame-here o pagenum f chain s here = rw here refl

  pub find_frame-is_page :
      (o pagenum f : ℕ) (chain : List ℕ) (s : Memory Env)
      → find_frame o pagenum chain s ≡ some f
      → is_page o pagenum f s ≡ true
  unfolding find_frame
  find_frame-is_page o pagenum f [] s e = cc
  find_frame-is_page o pagenum f (x ∷ xs) s e = elim (Bool-cases (is_page o pagenum x s)) [
    | inl here ↦ let same : x ≡ f = ground arith in rw (← same) here
    | inr later ↦ find_frame-is_page o pagenum f xs s (ground arith)
  ]
