-- ===== src/Proc/Sched/Fifo.antt =====
-- The list of a queue: what it holds, and in which order it is served.
use weenix_kernel_implementa.Common.{
  ℕ, suc, ◌≡◌, refl, ap, ◌∙◌, Bool, true, false, ◌||◌, List, [], ◌∷◌, ◌++◌, ◌==◌, if◌then◌else◌,
  length, split_last, reverse_onto, Bool-cases, inl, inr, arith,
}
use weenix_kernel_implementa.Proc.Kernel.{Kernel}
use weenix_kernel_implementa.Proc.Sched.{erase}

-- The threads of a queue, the one that waits longest first.
abbrev pub fifo : ℕ → Kernel → List ℕ
fifo q k = reverse_onto (k.queues q).tq_list []

unfoldable pub has : ℕ → List ℕ → Bool
has t [] = false
has t (x ∷ xs) = x == t || has t xs

abbrev pub Distinct : List ℕ → Type 0
Distinct [] = Unit {0}
Distinct (x ∷ xs) = (has x xs ≡ false) × Distinct xs

pub has-split_last :
    (t x : ℕ) (xs : List ℕ)
    → has t (x ∷ xs) ≡ (has t (split_last x xs).0 || (split_last x xs).1 == t)
unfolding has
has-split_last t x [] = ground arith
has-split_last t x (y ∷ ys) = ground (arith, has-split_last t y ys)

pub Distinct-split_last :
    (x : ℕ) (xs : List ℕ)
    → Distinct (x ∷ xs)
    → Distinct (split_last x xs).0 × (has (split_last x xs).1 (split_last x xs).0 ≡ false)
unfolding has
Distinct-split_last x [] d = (tt, refl)
Distinct-split_last x (y ∷ ys) d =
    let rest = Distinct-split_last y ys d.1 in
    ((ground (arith, has-split_last x y ys), rest.0), ground (arith, has-split_last x y ys, rest.1))

pub has-erase :
    (t j : ℕ) (xs : List ℕ)
    → Distinct xs
    → has j (erase t xs) ≡ (if j == t then false else has j xs)
unfolding has erase
has-erase t j [] d = ground arith
has-erase t j (x ∷ xs) d = ground (arith, has-erase t j xs d.1)

pub Distinct-erase : (t : ℕ) (xs : List ℕ) → Distinct xs → Distinct (erase t xs)
unfolding has erase
Distinct-erase t [] d = tt
Distinct-erase t (x ∷ xs) d = ground (arith, has-erase t x xs d.1, Distinct-erase t xs d.1)

pub length-erase : (t : ℕ) (xs : List ℕ) → has t xs ≡ true → suc (length (erase t xs)) ≡ length xs
unfolding has erase
length-erase t [] h = cc
length-erase t (x ∷ xs) h = ground (arith, length-erase t xs)

has-reverse_onto : (t : ℕ) (xs acc : List ℕ) → has t (reverse_onto xs acc) ≡ (has t xs || has t acc)
unfolding has
has-reverse_onto t [] acc = refl
has-reverse_onto t (x ∷ xs) acc = ground (arith, has-reverse_onto t xs (x ∷ acc))

pub has-fifo : (t q : ℕ) (k : Kernel) → has t (fifo q k) ≡ has t (k.queues q).tq_list
unfolding has
has-fifo t q k = ground (arith, has-reverse_onto t (k.queues q).tq_list [])

pub has-append : (t : ℕ) (xs ys : List ℕ) → has t (xs ++ ys) ≡ (has t xs || has t ys)
unfolding has
has-append t [] ys = refl
has-append t (x ∷ xs) ys = ground (arith, has-append t xs ys)

pub erase-head : (t : ℕ) (xs : List ℕ) → erase t (t ∷ xs) ≡ xs
unfolding erase
erase-head t xs = let same : (t == t) ≡ true = ground arith in rw same refl

-- The two first items, the one behind erased first.
pub erase-both : (p q : ℕ) (xs : List ℕ) → erase q (erase p (q ∷ p ∷ xs)) ≡ xs
unfolding erase
erase-both p q xs = elim (Bool-cases (q == p)) [
  | inl here ↦
      let same : q ≡ p = ground arith in rw here (ap (λ x. erase x (p ∷ xs)) same ∙ erase-head p xs)
  | inr there ↦ rw (there, erase-head p xs) (erase-head q xs)
]
