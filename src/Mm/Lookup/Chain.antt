-- ===== src/Mm/Lookup/Chain.antt =====
-- The loops over a chain of shadow objects: the first object with the page resident.
use weenix_kernel_implementa.Common.{
  ℕ, zero, suc, ◌<◌, ◌≡◌, refl, ap, ◌∙◌, inl, inr, Option, none, some, List, [], ◌∷◌, length, ok,
  Option-cases, arith,
}
use weenix_kernel_implementa.Mm.Frames.{Memory}
use weenix_kernel_implementa.Mm.Frames.Resident.{
  frame_of, Touched, Touched-refl, resident-none, resident-some,
}
use weenix_kernel_implementa.Mm.Lookup.{MmEnv, resident, fill_walk, read_walk}

abbrev pub or_else {ℓ} : {A : Type ℓ} → Option A → Option A → Option A
or_else none b = b
or_else (some a) b = some a

module _ {Env : Type 0} where
  -- The objects below `o`, by `mmo_shadowed`.
  abbrev pub IsChain : Memory Env → ℕ → List ℕ → Type 0
  IsChain s o [] = (s.objs o).mmo_shadowed ≡ none
  IsChain s o (below ∷ rest) = ((s.objs o).mmo_shadowed ≡ some below) × IsChain s below rest

  -- The frame of the first of the objects that has the page.
  abbrev pub first_of : ℕ → ℕ → List ℕ → Memory Env → Option ℕ
  first_of size pagenum [] s = none
  first_of size pagenum (o ∷ os) s =
      or_else (frame_of size o pagenum s) (first_of size pagenum os s)

  -- What a read looks at: the objects from `o` on but the last one, which is returned with the frame.
  abbrev pub first_shadow : ℕ → ℕ → ℕ → List ℕ → Memory Env → Option ℕ × ℕ
  first_shadow size pagenum o [] s = (none, o)
  first_shadow size pagenum o (below ∷ rest) s = elim (frame_of size o pagenum s) [
    | some f ↦ (some f, o)
    | none ↦ first_shadow size pagenum below rest s
  ]

module _ (mm : MmEnv) where
  fill_walk-missing :
      (fuel o b pagenum : ℕ) (s : Memory mm.Env)
      → (s.objs o).mmo_shadowed ≡ some b
      → frame_of mm.hash_size b pagenum s ≡ none
      → fill_walk mm (suc fuel) o pagenum s ≡ fill_walk mm fuel b pagenum s
  unfolding fill_walk
  fill_walk-missing fuel o b pagenum s below missing =
      let r : resident mm b pagenum s ≡ (none, s) =
        resident-none mm.hash_size b pagenum s missing in
      rw (below, fill_walk, ap (λ x. x.0) r, ap (λ x. x.1) r) refl

  fill_walk-found :
      (fuel o b pagenum f : ℕ) (s s' : Memory mm.Env)
      → (s.objs o).mmo_shadowed ≡ some b
      → resident mm b pagenum s ≡ (some f, s')
      → fill_walk mm (suc fuel) o pagenum s ≡ ok (some f, s')
  unfolding fill_walk
  fill_walk-found fuel o b pagenum f s s' below r =
      rw (below, fill_walk, ap (λ x. x.0) r, ap (λ x. x.1) r) refl

  pub fill_walk-first :
      (fuel o pagenum : ℕ) (below : List ℕ) (s : Memory mm.Env)
      → length below < fuel
      → IsChain s o below
      → (s' : Memory mm.Env) × (fill_walk mm fuel o pagenum s
          ≡ ok (first_of mm.hash_size pagenum below s, s'))
        × Touched s s'
  unfolding fill_walk
  fill_walk-first zero o pagenum below s lt chain = absurd (omega arith)
  fill_walk-first (suc fuel) o pagenum [] s lt chain =
      (s, rw (chain, fill_walk) refl, Touched-refl s)
  fill_walk-first (suc fuel) o pagenum (b ∷ rest) s lt chain =
      elim (Option-cases (frame_of mm.hash_size b pagenum s)) [
        | inl missing ↦
            let (s', e, touched) = fill_walk-first fuel b pagenum rest s (ground arith) chain.1 in
            (s', fill_walk-missing fuel o b pagenum s chain.0 missing ∙ rw missing e, touched)
        | inr (f, found) ↦
            let (s', e, touched) = resident-some mm.hash_size b pagenum f s found in
            (s', fill_walk-found fuel o b pagenum f s s' chain.0 e ∙ rw found refl, touched)
      ]

  read_walk-missing :
      (fuel o b pagenum : ℕ) (s : Memory mm.Env)
      → (s.objs o).mmo_shadowed ≡ some b
      → frame_of mm.hash_size o pagenum s ≡ none
      → read_walk mm (suc fuel) o pagenum s ≡ read_walk mm fuel b pagenum s
  unfolding read_walk
  read_walk-missing fuel o b pagenum s below missing =
      let r : resident mm o pagenum s ≡ (none, s) =
        resident-none mm.hash_size o pagenum s missing in
      rw (below, read_walk, ap (λ x. x.0) r, ap (λ x. x.1) r) refl

  read_walk-found :
      (fuel o b pagenum f : ℕ) (s s' : Memory mm.Env)
      → (s.objs o).mmo_shadowed ≡ some b
      → resident mm o pagenum s ≡ (some f, s')
      → read_walk mm (suc fuel) o pagenum s ≡ ok ((some f, o), s')
  unfolding read_walk
  read_walk-found fuel o b pagenum f s s' below r =
      rw (below, read_walk, ap (λ x. x.0) r, ap (λ x. x.1) r) refl

  -- The loop of `shadow_lookuppage` for reading, on a chain of objects shorter than the fuel, ends with
  -- the frame of the first object from `o` on that has the page, the last one excepted, or with that
  -- last one; nothing but the order of the allocated list changes.
  pub read_walk-first :
      (fuel o pagenum : ℕ) (below : List ℕ) (s : Memory mm.Env)
      → length below < fuel
      → IsChain s o below
      → (s' : Memory mm.Env) × (read_walk mm fuel o pagenum s
          ≡ ok (first_shadow mm.hash_size pagenum o below s, s'))
        × Touched s s'
  unfolding read_walk
  read_walk-first zero o pagenum below s lt chain = absurd (omega arith)
  read_walk-first (suc fuel) o pagenum [] s lt chain =
      (s, rw (chain, read_walk) refl, Touched-refl s)
  read_walk-first (suc fuel) o pagenum (b ∷ rest) s lt chain =
      elim (Option-cases (frame_of mm.hash_size o pagenum s)) [
        | inl missing ↦
            let (s', e, touched) = read_walk-first fuel b pagenum rest s (ground arith) chain.1 in
            (
              s',
              read_walk-missing fuel o b pagenum s chain.0 missing ∙ rw (first_shadow, missing) e,
              touched,
            )
        | inr (f, found) ↦
            let (s', e, touched) = resident-some mm.hash_size o pagenum f s found in
            (
              s',
              read_walk-found fuel o b pagenum f s s' chain.0 e ∙ rw (first_shadow, found) refl,
              touched,
            )
      ]
