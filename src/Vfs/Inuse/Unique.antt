-- ===== src/Vfs/Inuse/Unique.antt =====
-- `vget`: one vnode for each number in a file system.
use weenix_kernel_implementa.Common.{
  ℕ, ◌+◌, ◌<◌, ◌≡◌, refl, ap, ◌∙◌, subst, inl, inr, true, false, Option, none, some, List, [], ◌∷◌,
  ◌==◌, ltb, if◌then◌else◌, ok, Bool-cases, arith,
}
use weenix_kernel_implementa.Proc.Sched.Fifo.{has, Distinct}
use weenix_kernel_implementa.Mm.Frames.Lists.{not_member}
use weenix_kernel_implementa.Vfs.Inuse.{
  Vnode, Vnodes, FsOps, Got, got, sleeps, retries, set_vnode, has_number, find_vnode, bring_in,
  vref, vget_found, vget,
}

module _ {Env : Type 0} where
  -- Two vnodes in use with the same file system and number are one, each in use has a reference
  -- unless it is busy, and a free one is not in use.
  pub record IsUnique (s : Vnodes Env) : Type 0 where
    pub unique :
        (v w : ℕ)
        → has v s.vnode_inuse_list ≡ true
        → has w s.vnode_inuse_list ≡ true
        → (s.vnodes v).vn_fs ≡ (s.vnodes w).vn_fs
        → (s.vnodes v).vn_vno ≡ (s.vnodes w).vn_vno
        → v ≡ w
    pub counted :
        (v : ℕ)
        → has v s.vnode_inuse_list ≡ true
        → (s.vnodes v).vn_busy ≡ false
        → 0 < (s.vnodes v).vn_refcount
    pub unused : (v : ℕ) → has v s.free_vnodes ≡ true → has v s.vnode_inuse_list ≡ false
    pub distinct : Distinct s.free_vnodes

  find_vnode-none :
      (fs vno w : ℕ) (l : List ℕ) (s : Vnodes Env)
      → find_vnode fs vno l s ≡ none
      → has w l ≡ true
      → has_number fs vno w s ≡ false
  unfolding find_vnode has
  find_vnode-none fs vno w [] s e member = cc
  find_vnode-none fs vno w (x ∷ xs) s e member = elim (Bool-cases (x == w)) [
    | inl same ↦
        let eq : x ≡ w = ground arith in
        subst (λ y. has_number fs vno y s ≡ false) eq (ground arith)
    | inr other ↦ find_vnode-none fs vno w xs s (ground arith) (ground arith)
  ]

  find_vnode-some :
      (fs vno v : ℕ) (l : List ℕ) (s : Vnodes Env)
      → find_vnode fs vno l s ≡ some v
      → (has v l ≡ true) × (has_number fs vno v s ≡ true)
  unfolding find_vnode has
  find_vnode-some fs vno v [] s e = cc
  find_vnode-some fs vno v (x ∷ xs) s e = elim (Bool-cases (has_number fs vno x s)) [
    | inl here ↦
        let eq : x ≡ v = ground arith in
        (ground (arith, eq), subst (λ y. has_number fs vno y s ≡ true) eq here)
    | inr later ↦
        let (member, page) = find_vnode-some fs vno v xs s (ground arith) in
        (ground (arith, member), page)
  ]

  -- What a call leaves: the vnode that was asked for, in use and with one more reference or brought in
  -- with its first, while the others have kept theirs; or a busy vnode; or no memory.
  pub Finds : ℕ → ℕ → Vnodes Env → Got Env → Type 0
  Finds fs vno s (got v s') =
      IsUnique s'
      × (has v s'.vnode_inuse_list ≡ true)
      × ((s'.vnodes v).vn_fs ≡ fs)
      × ((s'.vnodes v).vn_vno ≡ vno)
      × ((s'.vnodes v).vn_refcount
          ≡ (if has v s.vnode_inuse_list then (s.vnodes v).vn_refcount + 1 else 1))
      × ((w : ℕ) → (w == v) ≡ false → s'.vnodes w ≡ s.vnodes w)
  Finds fs vno s (sleeps v s') = (s' ≡ s) × ((s.vnodes v).vn_busy ≡ true)
  Finds fs vno s (retries s') = (s' ≡ s) × (s.free_vnodes ≡ [])

module _ {Env : Type 0} (ops : FsOps Env) where
  bring_in-Finds :
      (fs vno : ℕ) (free : List ℕ) (s : Vnodes Env)
      → IsUnique s
      → s.free_vnodes ≡ free
      → find_vnode fs vno s.vnode_inuse_list s ≡ none
      → Finds fs vno s (bring_in ops fs vno free s)
  unfolding bring_in Finds has
  bring_in-Finds fs vno [] s i e none_there = (refl, e)
  bring_in-Finds fs vno (v ∷ free) s i e none_there =
      let out : has v s.vnode_inuse_list ≡ false =
        i.unused v (ap (λ l. has v l) e ∙ ground arith) in
      let d : Distinct (v ∷ free) = subst Distinct e i.distinct in
      let absent : (w : ℕ) → has w s.vnode_inuse_list ≡ true → has_number fs vno w s ≡ false =
        λ w. find_vnode-none fs vno w s.vnode_inuse_list s none_there in
      (
        record {
          unique = λ x y x_in y_in same_fs same_vno. elim (Bool-cases (x == v)) [
            | inl x_new ↦ elim (Bool-cases (y == v)) [
              | inl y_new ↦ ground arith
              | inr y_old ↦ absurd (ground (arith, absent y))
            ]
            | inr x_old ↦ elim (Bool-cases (y == v)) [
              | inl y_new ↦ absurd (ground (arith, absent x))
              | inr y_old ↦ i.unique x y (ground arith) (ground arith) (ground arith) (ground arith)
            ]
          ];
          counted = λ x x_in idle. ground (arith, i.counted x);
          unused = λ x x_free.
              let old = i.unused x (ap (λ l. has x l) e ∙ ground (arith, x_free)) in
              ground (arith, old, not_member v x free d.0 x_free);
          distinct = d.1;
        },
        ground arith,
        ground arith,
        ground arith,
        ground (arith, out),
        λ w differs. rw differs refl,
      )

  vget_found-Finds :
      (fs vno : ℕ) (r : Option ℕ) (s : Vnodes Env)
      → IsUnique s
      → find_vnode fs vno s.vnode_inuse_list s ≡ r
      → (x : Got Env) × (vget_found ops fs vno r s ≡ ok x) × Finds fs vno s x
  unfolding vget_found vref Finds
  vget_found-Finds fs vno none s i e =
      (bring_in ops fs vno s.free_vnodes s, refl, bring_in-Finds fs vno s.free_vnodes s i refl e)
  vget_found-Finds fs vno (some v) s i e =
      let (member, it) = find_vnode-some fs vno v s.vnode_inuse_list s e in
      elim (Bool-cases (s.vnodes v).vn_busy) [
        | inl busy ↦ (sleeps v s, rw busy refl, (refl, busy))
        | inr idle ↦
            let some_left : ltb 0 (s.vnodes v).vn_refcount ≡ true =
              ground (arith, i.counted v member idle) in
            let more : Vnode = record (s.vnodes v) { vn_refcount = (s.vnodes v).vn_refcount + 1 } in
            (
              got v (set_vnode v more s),
              rw (idle, vref, some_left) refl,
              (
                record {
                  unique = λ x y x_in y_in same_fs same_vno.
                      i.unique x y x_in y_in (ground arith) (ground arith);
                  counted = λ x x_in x_idle. ground (arith, i.counted x x_in);
                  unused = i.unused;
                  distinct = i.distinct;
                },
                member,
                ground (arith, it),
                ground (arith, it),
                ground (arith, member),
                λ w differs. rw differs refl,
              ),
            )
      ]

  -- One vnode for each number: while two vnodes in use with the same file system and number are one,
  -- each that is not busy has a reference and no free vnode is in use, `vget` keeps this so. It returns
  -- the vnode in use with that number with one more reference, or brings in one with its first
  -- reference, and leaves the other vnodes alone; or it sleeps, having changed nothing, since the vnode
  -- is busy, or gives way, having changed nothing, since there is no memory.
  pub vget-Finds :
      (fs vno : ℕ) (s : Vnodes Env)
      → IsUnique s
      → (x : Got Env) × (vget ops fs vno s ≡ ok x) × Finds fs vno s x
  unfolding vget
  vget-Finds fs vno s i = vget_found-Finds fs vno (find_vnode fs vno s.vnode_inuse_list s) s i refl
