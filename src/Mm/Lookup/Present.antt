-- ===== src/Mm/Lookup/Present.antt =====
-- The lookup for writing of a page that is resident, for each kind of object.
use weenix_kernel_implementa.Common.{ℕ, suc, ◌≡◌, refl, ap, ◌∙◌, inl, inr, true, false, some, ok}
use weenix_kernel_implementa.Mm.Frames.{Memory}
use weenix_kernel_implementa.Mm.Frames.Same.{ops-cases}
use weenix_kernel_implementa.Mm.Frames.Resident.{frame_of, Touched, resident-some}
use weenix_kernel_implementa.Mm.Lookup.{
  MmEnv, page, Free, pframe_get, shadow_lookuppage, pframe_lookup,
}

module _ (mm : MmEnv) where
  pub lookup_resident :
      (drop : Free mm) (fuel o p f : ℕ) (s : Memory mm.Env)
      → frame_of mm.hash_size o p s ≡ some f
      → (s.frames f).pf_busy ≡ false
      → (s' : Memory mm.Env) × (pframe_lookup mm drop (suc fuel) o p true s ≡ ok (page f, s'))
        × Touched s s'
  unfolding pframe_lookup shadow_lookuppage pframe_get
  lookup_resident drop fuel o p f s there idle =
      let (s1, r, t) = resident-some mm.hash_size o p f s there in
      let idle1 : (s1.frames f).pf_busy ≡ false = ap (λ g. (g f).pf_busy) t.frames ∙ idle in
      elim (ops-cases (s.objs o).mmo_ops) [
        | inl anon ↦ (
          s1,
          rw (pframe_lookup, anon, pframe_get, ap (λ x. x.0) r, ap (λ x. x.1) r, idle1) refl,
          t,
        )
        | inr (inl shadow) ↦ (
          s1,
          rw (pframe_lookup, shadow, shadow_lookuppage, ap (λ x. x.0) r, ap (λ x. x.1) r) refl,
          t,
        )
        | inr (inr vnode) ↦ (
          s1,
          rw (pframe_lookup, vnode, pframe_get, ap (λ x. x.0) r, ap (λ x. x.1) r, idle1) refl,
          t,
        )
      ]
