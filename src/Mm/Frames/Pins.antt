-- ===== src/Mm/Frames/Pins.antt =====
-- Pinning and unpinning keep the lists of frames in order.
use weenix_kernel_implementa.Common.{
  ℕ, ◌+◌, ◌-◌, ◌≡◌, refl, inl, inr, true, [], ◌∷◌, ◌++◌, ok, Bool-cases, arith,
}
use weenix_kernel_implementa.Proc.Sched.{erase}
use weenix_kernel_implementa.Mm.Frames.{Memory, set_frame, is_pinned, pframe_pin, pframe_unpin}
use weenix_kernel_implementa.Mm.Frames.Lists.{
  Holds-snoc, Holds-erase, Holds-same, in_use, loose, pinned, IsListed,
}

module _ {Env : Type 0} where
  pub pin-IsListed :
      (f : ℕ) (s : Memory Env)
      → IsListed s
      → in_use s f ≡ true
      → (s' : Memory Env) × (pframe_pin f s ≡ ok s')
        × IsListed s'
        × ((s'.frames f).pf_pincount ≡ (s.frames f).pf_pincount + 1)
  unfolding pframe_pin
  pin-IsListed f s i used = elim (Bool-cases (is_pinned f s)) [
    | inl already ↦
        let s' =
          set_frame f (record (s.frames f) { pf_pincount = (s.frames f).pf_pincount + 1 }) s in
        (
          s',
          rw (used, already) refl,
          record {
            allocated =
                Holds-same s.alloc_list s.nallocated (loose s) (loose s') i.allocated
                  (λ j. ground arith);
            pins =
                Holds-same s.pinned_list s.npinned (pinned s) (pinned s') i.pins
                  (λ j. ground arith);
            free_distinct = i.free_distinct;
            free_unused = λ j e. ground (arith, i.free_unused j e, i.free_unused f);
          },
          ground arith,
        )
    | inr first ↦
        let s1 : Memory Env = record s {
          alloc_list = erase f s.alloc_list;
          pinned_list = s.pinned_list ++ f ∷ [];
          nallocated = s.nallocated - 1;
          npinned = s.npinned + 1;
        } in
        let s' =
          set_frame f (record (s.frames f) { pf_pincount = (s.frames f).pf_pincount + 1 }) s1 in
        (
          s',
          rw (used, first) refl,
          record {
            allocated =
                Holds-erase s.alloc_list s.nallocated f (loose s) (loose s') i.allocated
                  (ground arith) (λ j. ground arith);
            pins =
                Holds-snoc s.pinned_list s.npinned f (pinned s) (pinned s') i.pins (ground arith)
                  (λ j. ground arith);
            free_distinct = i.free_distinct;
            free_unused = λ j e. ground (arith, i.free_unused j e, i.free_unused f);
          },
          ground arith,
        )
  ]

  pub unpin-IsListed :
      (f : ℕ) (s : Memory Env)
      → IsListed s
      → pinned s f ≡ true
      → (s' : Memory Env) × (pframe_unpin f s ≡ ok s')
        × IsListed s'
        × ((s'.frames f).pf_pincount + 1 ≡ (s.frames f).pf_pincount)
  unfolding pframe_unpin
  unpin-IsListed f s i held =
      let used : in_use s f ≡ true = ground arith in
      let some_pin : is_pinned f s ≡ true = ground arith in
      let s1 = set_frame f (record (s.frames f) { pf_pincount = (s.frames f).pf_pincount - 1 }) s in
      elim (Bool-cases (is_pinned f s1)) [
        | inl still ↦ (
          s1,
          rw (used, some_pin, still) refl,
          record {
            allocated =
                Holds-same s.alloc_list s.nallocated (loose s) (loose s1) i.allocated
                  (λ j. ground arith);
            pins =
                Holds-same s.pinned_list s.npinned (pinned s) (pinned s1) i.pins
                  (λ j. ground arith);
            free_distinct = i.free_distinct;
            free_unused = λ j e. ground (arith, i.free_unused j e, i.free_unused f);
          },
          ground arith,
        )
        | inr last ↦
            let s' : Memory Env = record s1 {
              pinned_list = erase f s1.pinned_list;
              alloc_list = s1.alloc_list ++ f ∷ [];
              nallocated = s1.nallocated + 1;
              npinned = s1.npinned - 1;
            } in
            (
              s',
              rw (used, some_pin, last) refl,
              record {
                allocated =
                    Holds-snoc s.alloc_list s.nallocated f (loose s) (loose s') i.allocated
                      (ground arith) (λ j. ground arith);
                pins =
                    Holds-erase s.pinned_list s.npinned f (pinned s) (pinned s') i.pins
                      (ground arith) (λ j. ground arith);
                free_distinct = i.free_distinct;
                free_unused = λ j e. ground (arith, i.free_unused j e, i.free_unused f);
              },
              ground arith,
            )
      ]
