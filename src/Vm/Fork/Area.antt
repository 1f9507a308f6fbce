-- ===== src/Vm/Fork/Area.antt =====
-- What one round of the loop of `do_fork` does to an area and its object.
use weenix_kernel_implementa.Common.{
  ℕ, ◌<◌, ◌≡◌, ◌⊎◌, refl, sym, ap, ◌∙◌, inl, inr, Bool, true, false, none, some, List, [], ◌∷◌,
  ◌++◌, ◌==◌, ok, Bool-cases, deref-some, arith,
}
use weenix_kernel_implementa.Vm.Mmobj.{MmobjOps}
use weenix_kernel_implementa.Vm.Vmmap.{Vmarea}
use weenix_kernel_implementa.Vm.Fork.{shadow_over, fork_object, fork_area}
use weenix_kernel_implementa.Vm.Fork.Found.{Below, lookup_area-behind, set_area_obj-behind}
use weenix_kernel_implementa.Vm.Fork.Objects.{
  ObjectLaws, has_object, Keeps, Keeps-trans, Over, Over-Keeps, ref-Keeps, tail-Keeps, known-apart,
  known-before, shadow_over-Over,
}

module _ (mm : MmobjOps) (laws : ObjectLaws mm) where
  -- What becomes of an area `a` of the parent: `a'` in the parent and `c` in the child, where the
  -- objects were as in `st0` at first and are as in `st` now. Both are as before but for the object
  -- and, in the child, the owner; a private area gets two objects over the one it had that did not
  -- exist at first, and another keeps its object in both. The area of the child is on the list of the
  -- bottom object of that of the parent.
  pub record Forked (st0 st : mm.Store) (a a' c : Vmarea) : Type 0 where
    pub parent : a' ≡ record a { vma_obj = a'.vma_obj }
    pub range :
        (c.vma_start ≡ a.vma_start)
        × (c.vma_end ≡ a.vma_end)
        × (c.vma_off ≡ a.vma_off)
        × (c.vma_prot ≡ a.vma_prot)
        × (c.vma_flags ≡ a.vma_flags)
    pub objects :
        ((a.vma_flags.private ≡ false) × (a'.vma_obj ≡ a.vma_obj) × (c.vma_obj ≡ a.vma_obj))
        ⊎ ((a.vma_flags.private ≡ true)
            × ((o : ℕ) × (p : ℕ) × (q : ℕ) × (a.vma_obj ≡ some o)
                × (a'.vma_obj ≡ some p)
                × (c.vma_obj ≡ some q)
                × ((p == q) ≡ false)
                × (laws.known p st0 ≡ false)
                × (laws.known q st0 ≡ false)
                × Over mm laws p o st
                × Over mm laws q o st))
    pub listed :
        (x : ℕ) × (a'.vma_obj ≡ some x)
        × (laws.known x st ≡ true)
        × (laws.listed x c.vma_addr st ≡ true)

  pub data AllForked (st0 st : mm.Store) : List Vmarea → List Vmarea → List Vmarea → Type 0 where
    all_done : AllForked st0 st [] [] []
    one_more :
        {a a' c : Vmarea} {old parent child : List Vmarea}
        → Forked st0 st a a' c
        → AllForked st0 st old parent child
        → AllForked st0 st (a ∷ old) (a' ∷ parent) (c ∷ child)

  pub Forked-Keeps :
      (more : ℕ → ℕ) (st0 st st' : mm.Store) (a a' c : Vmarea)
      → Keeps mm laws more st st'
      → ((x : ℕ) → laws.known x st0 ≡ false → more x ≡ 0)
      → Forked st0 st a a' c
      → Forked st0 st' a a' c
  Forked-Keeps more st0 st st' a a' c keeps none_new f = record {
    parent = f.parent;
    range = f.range;
    objects = elim f.objects [
      | inl shared ↦ inl shared
      | inr (private, (o, p, q, ao, ap_, aq, apart, new_p, new_q, over_p, over_q)) ↦ inr (
        private,
        (
          o,
          p,
          q,
          ao,
          ap_,
          aq,
          apart,
          new_p,
          new_q,
          Over-Keeps mm laws more p o st st' keeps (none_new p new_p) over_p,
          Over-Keeps mm laws more q o st st' keeps (none_new q new_q) over_q,
        ),
      )
    ];
    listed =
        let (x, obj, there, on) = f.listed in
        let (still, _, _, _, lists) = keeps x there in (x, obj, still, lists c.vma_addr on);
  }

  -- The clone of an area, before its object is set.
  abbrev pub cloned : ℕ → ℕ → Vmarea → Vmarea
  cloned addr map a = record a { vma_addr = addr; vma_vmmap = some map; vma_obj = none }

  module _ (pre rest : List Vmarea) (a : Vmarea) (addr map o : ℕ) (st : mm.Store)
      (below : Below a.vma_start pre) (filled : a.vma_start < a.vma_end)
      (obj : a.vma_obj ≡ some o) where
    fork_area-called :
        (private : Bool)
        → a.vma_flags.private ≡ private
        → fork_area mm (pre ++ a ∷ rest) (cloned addr map a) st
          ≡ ok (fork_object mm private o (pre ++ a ∷ rest) (cloned addr map a) st)
    unfolding fork_area
    fork_area-called private e =
        rw (fork_area, lookup_area-behind pre rest a below filled)
          (deref-some a.vma_obj o
            (λ old.
              ok (fork_object mm a.vma_flags.private old (pre ++ a ∷ rest) (cloned addr map a) st))
            obj)
        ∙ ap (λ b. ok (fork_object mm b o (pre ++ a ∷ rest) (cloned addr map a) st)) e

    -- One reference more to the object of the area, and what comes after it.
    with_ref :
        (st' : mm.Store)
        → Keeps mm laws (λ x. 0) (mm.ref o st) st'
        → Keeps mm laws (λ x. has_object x a.vma_obj) st st'
    with_ref st' later =
        Keeps-trans mm laws (λ x. has_object x (some o)) (λ x. 0) (λ x. has_object x a.vma_obj) st
          (mm.ref o st) st' (λ x. ap (has_object x) obj ∙ omega arith) (ref-Keeps mm laws o st)
          later

    module _ (before : ℕ → ℕ) (st0 : mm.Store) (kept : Keeps mm laws before st0 st)
        (there : laws.known o st ≡ true) where
      fork_area-private :
          a.vma_flags.private ≡ true
          → (a' : Vmarea) × (c : Vmarea) × (st' : mm.Store) × (fork_area mm
                (pre ++ a ∷ rest)
                (cloned addr map a)
                st
              ≡ ok (pre ++ a' ∷ rest, c, st'))
            × Forked st0 st' a a' c
            × Keeps mm laws (λ x. has_object x a.vma_obj) st st'
      unfolding fork_object
      fork_area-private private =
          let st1 = mm.ref o st in
          let zero_more : ℕ → ℕ = λ x. 0 in
          let r1 = shadow_over mm o st1 in
          let there1 : laws.known o st1 ≡ true = (laws.ref_keeps o o st).0 ∙ there in
          let (over1, keeps1, new1) = shadow_over-Over mm laws o st1 there1 in
          let r2 = shadow_over mm o r1.1 in
          let (over2, keeps2, new2) = shadow_over-Over mm laws o r1.1 over1.1 in
          let st' = mm.bottom_vmas_insert_tail r1.0 addr r2.1 in
          let keeps3 : Keeps mm laws zero_more r2.1 st' = tail-Keeps mm laws r1.0 addr r2.1 in
          let later : Keeps mm laws zero_more r1.1 st' =
            Keeps-trans mm laws zero_more zero_more zero_more r1.1 r2.1 st' (λ x. refl) keeps2
              keeps3 in
          let until_ref =
            Keeps-trans mm laws before (λ x. has_object x (some o)) _ st0 st st1 (λ x. refl) kept
              (ref-Keeps mm laws o st) in
          let until_r1 =
            Keeps-trans mm laws _ zero_more _ st0 st1 r1.1 (λ x. refl) until_ref keeps1 in
          let child : Vmarea = record a {
            vma_addr = addr;
            vma_vmmap = some map;
            vma_obj = some r2.0;
          } in
          (
            record a { vma_obj = some r1.0 },
            child,
            st',
            fork_area-called true private
                ∙ ap (λ x. ok (x, child, st')) (set_area_obj-behind pre rest a r1.0 below filled),
            record {
              parent = refl;
              range = (refl, refl, refl, refl, refl);
              objects = inr (
                private,
                (
                  o,
                  r1.0,
                  r2.0,
                  obj,
                  refl,
                  refl,
                  known-apart mm laws r1.0 r2.0 r1.1 over1.0 new2,
                  known-before mm laws _ r1.0 st0 st1 until_ref new1,
                  known-before mm laws _ r2.0 st0 r1.1 until_r1 new2,
                  Over-Keeps mm laws zero_more r1.0 o r1.1 st' later refl over1,
                  Over-Keeps mm laws zero_more r2.0 o r2.1 st' keeps3 refl over2,
                ),
              );
              listed = (r1.0, refl, (later r1.0 over1.0).0, laws.tail_here r1.0 addr r2.1);
            },
            with_ref st' (
                Keeps-trans mm laws zero_more zero_more zero_more st1 r1.1 st' (λ x. refl) keeps1
                  later),
          )

      pub fork_area-Forked :
          (a' : Vmarea) × (c : Vmarea) × (st' : mm.Store) × (fork_area mm
              (pre ++ a ∷ rest)
              (cloned addr map a)
              st
            ≡ ok (pre ++ a' ∷ rest, c, st'))
          × Forked st0 st' a a' c
          × Keeps mm laws (λ x. has_object x a.vma_obj) st st'
      unfolding fork_object
      fork_area-Forked = elim (Bool-cases a.vma_flags.private) [
        | inl private ↦ fork_area-private private
        | inr shared ↦ (
          a,
          record a { vma_addr = addr; vma_vmmap = some map; vma_obj = some o },
          mm.bottom_vmas_insert_tail o addr (mm.ref o st),
          fork_area-called false shared,
          record {
            parent = refl;
            range = (refl, refl, refl, refl, refl);
            objects = inl (shared, refl, sym obj);
            listed = (
              o,
              obj,
              (laws.tail_keeps o addr o (mm.ref o st)).0 ∙ (laws.ref_keeps o o st).0 ∙ there,
              laws.tail_here o addr (mm.ref o st),
            );
          },
          with_ref (mm.bottom_vmas_insert_tail o addr (mm.ref o st))
              (tail-Keeps mm laws o addr (mm.ref o st)),
        )
      ]
