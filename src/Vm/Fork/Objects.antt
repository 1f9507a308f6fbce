-- ===== src/Vm/Fork/Objects.antt =====
-- What `do_fork` relies on of memory objects, and what a new shadow object is.
use weenix_kernel_implementa.Common.{
  ℕ, ◌+◌, ◌≡◌, refl, sym, ap, ◌∙◌, inl, inr, Bool, true, false, Option, none, some, List, [], ◌∷◌,
  ◌==◌, if◌then◌else◌, Bool-cases, All, arith,
}
use weenix_kernel_implementa.Vm.Mmobj.{MmobjOps}
use weenix_kernel_implementa.Vm.Vmmap.{Vmarea}
use weenix_kernel_implementa.Vm.Fork.{shadow_over}

abbrev pub one_if : Bool → ℕ
one_if b = if b then 1 else 0

-- 1 if the object of an area is `x`, and the number of areas of which it is.
abbrev pub has_object : ℕ → Option ℕ → ℕ
has_object x none = 0
has_object x (some o) = one_if (o == x)

unfoldable pub references : ℕ → List Vmarea → ℕ
references x [] = 0
references x (a ∷ rest) = has_object x a.vma_obj + references x rest

-- What is relied on of memory objects: `known` are those that exist, `shadowed` is mmo_shadowed,
-- `refcount` is mmo_refcount, and `listed o v` says that the area `v` is on mmobj_bottom_vmas(o). A
-- new object was not there before and has one reference. Of the objects that exist, the writes of
-- mmo_shadowed and of the bottom object change the one that they write, `ref` the reference count of
-- one, by 1, and nothing else is changed, but that an area is put on a list. The member of mmo_un
-- that holds the bottom object is relied on for shadow objects only: in another it is the list.
pub record ObjectLaws (mm : MmobjOps) : Type 0 where
  pub known : ℕ → mm.Store → Bool
  pub shadowed : ℕ → mm.Store → Option ℕ
  pub refcount : ℕ → mm.Store → ℕ
  pub listed : ℕ → ℕ → mm.Store → Bool
  pub create_new : (st : mm.Store) → known (mm.shadow_create st).0 st ≡ false
  pub create_known : (st : mm.Store) → known (mm.shadow_create st).0 (mm.shadow_create st).1 ≡ true
  pub create_one : (st : mm.Store) → refcount (mm.shadow_create st).0 (mm.shadow_create st).1 ≡ 1
  pub create_keeps :
      (o : ℕ) (st : mm.Store)
      → known o st ≡ true
      → (known o (mm.shadow_create st).1 ≡ true)
        × (shadowed o (mm.shadow_create st).1 ≡ shadowed o st)
        × (refcount o (mm.shadow_create st).1 ≡ refcount o st)
        × (mm.un_bottom_obj o (mm.shadow_create st).1 ≡ mm.un_bottom_obj o st)
        × ((v : ℕ) → listed o v st ≡ true → listed o v (mm.shadow_create st).1 ≡ true)
  pub set_keeps :
      (o b x : ℕ) (st : mm.Store)
      → (known x (mm.set_shadowed o b st) ≡ known x st)
        × (refcount x (mm.set_shadowed o b st) ≡ refcount x st)
        × (mm.un_bottom_obj x (mm.set_shadowed o b st) ≡ mm.un_bottom_obj x st)
  pub set_here : (o b : ℕ) (st : mm.Store) → shadowed o (mm.set_shadowed o b st) ≡ some b
  pub set_others :
      (o b x : ℕ) (st : mm.Store)
      → (x == o) ≡ false
      → (shadowed x (mm.set_shadowed o b st) ≡ shadowed x st)
        × ((v : ℕ) → listed x v st ≡ true → listed x v (mm.set_shadowed o b st) ≡ true)
  pub ref_keeps :
      (o x : ℕ) (st : mm.Store)
      → (known x (mm.ref o st) ≡ known x st)
        × (shadowed x (mm.ref o st) ≡ shadowed x st)
        × (mm.un_bottom_obj x (mm.ref o st) ≡ mm.un_bottom_obj x st)
        × ((v : ℕ) → listed x v st ≡ true → listed x v (mm.ref o st) ≡ true)
  pub ref_count :
      (o x : ℕ) (st : mm.Store) → refcount x (mm.ref o st) ≡ refcount x st + one_if (o == x)
  pub bottom_keeps :
      (o b x : ℕ) (st : mm.Store)
      → (known x (mm.set_bottom o b st) ≡ known x st)
        × (shadowed x (mm.set_bottom o b st) ≡ shadowed x st)
        × (refcount x (mm.set_bottom o b st) ≡ refcount x st)
  pub bottom_here : (o b : ℕ) (st : mm.Store) → mm.un_bottom_obj o (mm.set_bottom o b st) ≡ b
  pub bottom_others :
      (o b x y : ℕ) (st : mm.Store)
      → (x == o) ≡ false
      → shadowed o st ≡ some y
      → (mm.un_bottom_obj x (mm.set_bottom o b st) ≡ mm.un_bottom_obj x st)
        × ((v : ℕ) → listed x v st ≡ true → listed x v (mm.set_bottom o b st) ≡ true)
  pub tail_keeps :
      (o v x : ℕ) (st : mm.Store)
      → (known x (mm.bottom_vmas_insert_tail o v st) ≡ known x st)
        × (shadowed x (mm.bottom_vmas_insert_tail o v st) ≡ shadowed x st)
        × (refcount x (mm.bottom_vmas_insert_tail o v st) ≡ refcount x st)
        × ((y : ℕ)
            → shadowed x st ≡ some y
            → mm.un_bottom_obj x (mm.bottom_vmas_insert_tail o v st) ≡ mm.un_bottom_obj x st)
        × ((w : ℕ) → listed x w st ≡ true → listed x w (mm.bottom_vmas_insert_tail o v st) ≡ true)
  pub tail_here : (o v : ℕ) (st : mm.Store) → listed o v (mm.bottom_vmas_insert_tail o v st) ≡ true

module _ (mm : MmobjOps) (laws : ObjectLaws mm) where
  -- Every object that was there still is, shadows the same one, has, if it shadows one, the same bottom
  -- object, has the areas it had on its list, and has `more` references more.
  abbrev pub Keeps : (ℕ → ℕ) → mm.Store → mm.Store → Type 0
  Keeps more st st' =
      (x : ℕ)
      → laws.known x st ≡ true
      → (laws.known x st' ≡ true)
        × (laws.shadowed x st' ≡ laws.shadowed x st)
        × (laws.refcount x st' ≡ laws.refcount x st + more x)
        × ((y : ℕ) → laws.shadowed x st ≡ some y → mm.un_bottom_obj x st' ≡ mm.un_bottom_obj x st)
        × ((v : ℕ) → laws.listed x v st ≡ true → laws.listed x v st' ≡ true)

  pub Keeps-refl : (st : mm.Store) → Keeps (λ x. 0) st st
  Keeps-refl st x k = (k, refl, omega arith, λ y over. refl, λ v on. on)

  pub Keeps-trans :
      (f g h : ℕ → ℕ) (a b c : mm.Store)
      → ((x : ℕ) → h x ≡ f x + g x)
      → Keeps f a b
      → Keeps g b c
      → Keeps h a c
  Keeps-trans f g h a b c sum ab bc x k =
      let (k1, s1, n1, b1, l1) = ab x k in
      let (k2, s2, n2, b2, l2) = bc x k1 in
      (
        k2,
        s2 ∙ s1,
        omega (arith, n1, n2, sum x),
        λ y over. b2 y (s1 ∙ over) ∙ b1 y over,
        λ v on. l2 v (l1 v on),
      )

  -- The objects `o` and `old` exist, and `o` shadows `old`, has one reference and, if `old` is a shadow
  -- object, its bottom object.
  abbrev pub Over : ℕ → ℕ → mm.Store → Type 0
  Over o old st =
      (laws.known o st ≡ true)
      × (laws.known old st ≡ true)
      × (laws.shadowed o st ≡ some old)
      × ((y : ℕ) → laws.shadowed old st ≡ some y → mm.un_bottom_obj o st ≡ mm.un_bottom_obj old st)
      × (laws.refcount o st ≡ 1)

  pub Over-Keeps :
      (more : ℕ → ℕ) (o old : ℕ) (a b : mm.Store)
      → Keeps more a b
      → more o ≡ 0
      → Over o old a
      → Over o old b
  Over-Keeps more o old a b ab none_more (k, below, s, bottom, one) =
      let (k1, s1, n1, b1, _) = ab o k in
      let (k2, s2, _, b2, _) = ab old below in
      (
        k1,
        k2,
        s1 ∙ s,
        λ y over. let over_a = sym s2 ∙ over in b1 old s ∙ bottom y over_a ∙ sym (b2 y over_a),
        omega (arith, n1, one, none_more),
      )

  pub ref-Keeps : (o : ℕ) (st : mm.Store) → Keeps (λ x. one_if (o == x)) st (mm.ref o st)
  ref-Keeps o st x k =
      let (a, b, c, d) = laws.ref_keeps o x st in (a ∙ k, b, laws.ref_count o x st, λ y over. c, d)

  pub tail-Keeps : (o v : ℕ) (st : mm.Store) → Keeps (λ x. 0) st (mm.bottom_vmas_insert_tail o v st)
  tail-Keeps o v st x k =
      let (a, b, n, c, d) = laws.tail_keeps o v x st in (a ∙ k, b, omega (arith, n), c, d)

  -- An object that exists is not one that does not.
  pub known-apart :
      (x o : ℕ) (st : mm.Store)
      → laws.known x st ≡ true
      → laws.known o st ≡ false
      → (x == o) ≡ false
  known-apart x o st there missing = elim (Bool-cases (x == o)) [
    | inl same ↦
        let eq : x ≡ o = ground arith in absurd (let e = ap (λ y. laws.known y st) eq in cc)
    | inr differs ↦ differs
  ]

  -- An object that does not exist did not before.
  pub known-before :
      (more : ℕ → ℕ) (o : ℕ) (a b : mm.Store)
      → Keeps more a b
      → laws.known o b ≡ false
      → laws.known o a ≡ false
  known-before more o a b ab missing = elim (Bool-cases (laws.known o a)) [
    | inl there ↦ absurd (let (k, _, _, _, _) = ab o there in cc)
    | inr not_there ↦ not_there
  ]

  -- An area with an object that exists.
  abbrev pub Exists : mm.Store → Vmarea → Type 0
  Exists st a = (o : ℕ) × (a.vma_obj ≡ some o) × (laws.known o st ≡ true)

  -- An object that does not exist is that of no area.
  pub references-none :
      (st : mm.Store) (areas : List Vmarea) (x : ℕ)
      → All (Exists st) areas
      → laws.known x st ≡ false
      → references x areas ≡ 0
  unfolding references
  references-none st [] x all_exist missing = refl
  references-none st (a ∷ rest) x ((o, obj, there), all_exist) missing =
      let apart = known-apart o x st there missing in
      rw (obj, apart) (omega (arith, references-none st rest x all_exist missing))

  pub shadow_over-Over :
      (old : ℕ) (st : mm.Store)
      → laws.known old st ≡ true
      → let (o, st') = shadow_over mm old st in
        Over o old st' × Keeps (λ x. 0) st st' × (laws.known o st ≡ false)
  unfolding shadow_over
  shadow_over-Over old st there =
      let o = (mm.shadow_create st).0 in
      let st1 = (mm.shadow_create st).1 in
      let st2 = mm.set_shadowed o old st1 in
      let b = mm.un_bottom_obj old st2 in
      let st3 = mm.set_bottom o b st2 in
      let known_in : (x : ℕ) → laws.known x st3 ≡ laws.known x st1 =
        λ x. (laws.bottom_keeps o b x st2).0 ∙ (laws.set_keeps o old x st1).0 in
      let count_in : (x : ℕ) → laws.refcount x st3 ≡ laws.refcount x st1 =
        λ x. (laws.bottom_keeps o b x st2).2 ∙ (laws.set_keeps o old x st1).1 in
      let other : (x : ℕ) → laws.known x st ≡ true → (x == o) ≡ false =
        λ x k. known-apart x o st k (laws.create_new st) in
      let here : laws.shadowed o st2 ≡ some old = laws.set_here o old st1 in
      (
        (
          known_in o ∙ laws.create_known st,
          known_in old ∙ (laws.create_keeps old st there).0,
          (laws.bottom_keeps o b o st2).1 ∙ here,
          λ y over.
              laws.bottom_here o b st2
              ∙ sym (laws.bottom_others o b old old st2 (other old there) here).0,
          count_in o ∙ laws.create_one st,
        ),
        λ x k.
            let (k1, s1, n1, b1, l1) = laws.create_keeps x st k in
            let (s2, l2) = laws.set_others o old x st1 (other x k) in
            let (b3, l3) = laws.bottom_others o b x old st2 (other x k) here in
            (
              known_in x ∙ k1,
              (laws.bottom_keeps o b x st2).1 ∙ s2 ∙ s1,
              omega (arith, count_in x, n1),
              λ y over. b3 ∙ (laws.set_keeps o old x st1).2 ∙ b1,
              λ v on. l3 v (l2 v (l1 v on)),
            ),
        laws.create_new st,
      )
