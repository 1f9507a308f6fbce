-- ===== src/Mm/Frames/Lists.antt =====
-- The lists of frames: each frame in use is on one of the two, by its pin count.
use weenix_kernel_implementa.Common.{
  ℕ, ◌+◌, ◌-◌, ◌≡◌, refl, sym, ap, ◌∙◌, inl, inr, Bool, true, false, not, ◌&&◌, ◌||◌, none, List,
  [], ◌∷◌, ◌++◌, ◌==◌, if◌then◌else◌, length, Bool-cases, arith,
}
use weenix_kernel_implementa.Proc.Sched.{erase, is_none}
use weenix_kernel_implementa.Proc.Sched.Fifo.{
  has, Distinct, has-erase, Distinct-erase, length-erase, has-append,
}
use weenix_kernel_implementa.Mm.Frames.{Memory, is_pinned}

pub length-snoc : (f : ℕ) (l : List ℕ) → length (l ++ f ∷ []) ≡ length l + 1
length-snoc f [] = refl
length-snoc f (x ∷ xs) = ground (arith, length-snoc f xs)

pub Distinct-snoc : (f : ℕ) (l : List ℕ) → Distinct l → has f l ≡ false → Distinct (l ++ f ∷ [])
unfolding has
Distinct-snoc f [] d out = (refl, tt)
Distinct-snoc f (x ∷ xs) d out =
    (ground (arith, has-append x xs (f ∷ [])), Distinct-snoc f xs d.1 (ground arith))

pub has-snoc : (j f : ℕ) (l : List ℕ) → has j (l ++ f ∷ []) ≡ (has j l || f == j)
unfolding has
has-snoc j f l = ground (arith, has-append j l (f ∷ []))

-- A list with the number of its elements, which are those that a test accepts.
pub record Holds (l : List ℕ) (n : ℕ) (test : ℕ → Bool) : Type 0 where
  pub size : n ≡ length l
  pub distinct : Distinct l
  pub members : (f : ℕ) → has f l ≡ test f

pub Holds-snoc :
    (l : List ℕ) (n f : ℕ) (test test' : ℕ → Bool)
    → Holds l n test
    → test f ≡ false
    → ((j : ℕ) → test' j ≡ (test j || f == j))
    → Holds (l ++ f ∷ []) (n + 1) test'
Holds-snoc l n f test test' h out same = record {
  size = omega (arith, h.size, length-snoc f l);
  distinct = Distinct-snoc f l h.distinct (h.members f ∙ out);
  members = λ j. ground (arith, has-snoc j f l, h.members j, same j);
}

pub Holds-erase :
    (l : List ℕ) (n f : ℕ) (test test' : ℕ → Bool)
    → Holds l n test
    → test f ≡ true
    → ((j : ℕ) → test' j ≡ (if j == f then false else test j))
    → Holds (erase f l) (n - 1) test'
Holds-erase l n f test test' h member same = record {
  size = omega (arith, h.size, length-erase f l (h.members f ∙ member));
  distinct = Distinct-erase f l h.distinct;
  members = λ j. ground (arith, has-erase f j l h.distinct, h.members j, same j);
}

pub Holds-same :
    (l : List ℕ) (n : ℕ) (test test' : ℕ → Bool)
    → Holds l n test
    → ((j : ℕ) → test' j ≡ test j)
    → Holds l n test'
Holds-same l n test test' h same = record {
  size = h.size;
  distinct = h.distinct;
  members = λ j. h.members j ∙ sym (same j);
}

pub not_member : (f j : ℕ) (l : List ℕ) → has f l ≡ false → has j l ≡ true → (f == j) ≡ false
not_member f j l out member = elim (Bool-cases (f == j)) [
  | inr other ↦ other
  | inl same ↦ let eq : f ≡ j = ground arith in absurd (ground (arith, ap (λ x. has x l) eq))
]

module _ {Env : Type 0} where
  abbrev pub in_use : Memory Env → ℕ → Bool
  in_use s f = not (is_none (s.frames f).pf_obj)

  -- The frames of the allocated list, and those of the pinned list.
  abbrev pub loose : Memory Env → ℕ → Bool
  loose s f = in_use s f && not (is_pinned f s)

  abbrev pub pinned : Memory Env → ℕ → Bool
  pinned s f = in_use s f && is_pinned f s

  pub record IsListed (s : Memory Env) : Type 0 where
    pub allocated : Holds s.alloc_list s.nallocated (loose s)
    pub pins : Holds s.pinned_list s.npinned (pinned s)
    pub free_distinct : Distinct s.free_frames
    pub free_unused : (f : ℕ) → has f s.free_frames ≡ true → (s.frames f).pf_obj ≡ none
