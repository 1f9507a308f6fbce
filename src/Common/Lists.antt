-- ===== src/Common/Lists.antt =====
-- Lists measured by native numbers, predicates over lists, and reversal with an accumulator.
use Prim.Native.Nat.{ℕ, zero, suc, ◌+◌}
use mathlib.Core.Path.{◌≡◌, refl, ap}
use mathlib.Core.List.{List, [], ◌∷◌, ◌++◌, append_assoc}
use mathlib.Core.Option.{Option, none, some}
use native.Mathlib.Omega.{arith}

module _ {ℓ} {A : Type ℓ} where
  abbrev pub length : List A → ℕ
  length [] = 0
  length (x ∷ xs) = suc (length xs)

  abbrev pub get_elem? : List A → ℕ → Option A
  get_elem? [] i = none
  get_elem? (x ∷ xs) zero = some x
  get_elem? (x ∷ xs) (suc i) = get_elem? xs i

  -- A write out of bounds changes nothing.
  abbrev pub set : List A → ℕ → A → List A
  set [] i v = []
  set (x ∷ xs) zero v = v ∷ xs
  set (x ∷ xs) (suc i) v = x ∷ set xs i v

  -- The list from its last item to its first, in front of `acc`.
  abbrev pub reverse_onto : List A → List A → List A
  reverse_onto [] acc = acc
  reverse_onto (x ∷ xs) acc = reverse_onto xs (x ∷ acc)

  pub length-append : (xs ys : List A) → length (xs ++ ys) ≡ length xs + length ys
  length-append [] ys = omega arith
  length-append (x ∷ xs) ys = omega (arith, length-append xs ys)

-- `P` holds of every item; it computes to a tuple.
abbrev pub All {ℓ κ} : {A : Type ℓ} → (A → Type κ) → List A → Type κ
All P [] = Unit
All P (x ∷ xs) = P x × All P xs

pub All-append {ℓ κ} :
    {A : Type ℓ} (P : A → Type κ) (xs ys : List A) → All P xs → All P ys → All P (xs ++ ys)
All-append P [] ys hx hy = hy
All-append P (x ∷ xs) ys hx hy = (hx.0, All-append P xs ys hx.1 hy)

module _ {ℓ κ} {A : Type ℓ} (P : A → Type κ) where
  pub All-reverse_onto : (xs acc : List A) → All P xs → All P acc → All P (reverse_onto xs acc)
  All-reverse_onto [] acc hx ha = ha
  All-reverse_onto (x ∷ xs) acc hx ha = All-reverse_onto xs (x ∷ acc) hx.1 (hx.0, ha)

  pub All_of_reverse_onto : (xs acc : List A) → All P (reverse_onto xs acc) → All P xs × All P acc
  All_of_reverse_onto [] acc h = (tt, h)
  All_of_reverse_onto (x ∷ xs) acc h =
      let (front, back) = All_of_reverse_onto xs (x ∷ acc) h in ((back.0, front), back.1)

-- The items but the last one, and the last one.
abbrev pub split_last {ℓ} : {A : Type ℓ} → A → List A → List A × A
split_last x [] = ([], x)
split_last x (y ∷ ys) = let (front, last) = split_last y ys in (x ∷ front, last)

module _ {ℓ} {A : Type ℓ} where
  pub reverse_onto-append : (xs acc : List A) → reverse_onto xs acc ≡ reverse_onto xs [] ++ acc
  reverse_onto-append [] acc = refl
  reverse_onto-append (x ∷ xs) acc =
      rw (reverse_onto-append xs (x ∷ acc), reverse_onto-append xs (x ∷ [])) (simp append_assoc)

  -- The last item comes first in the reversed list.
  pub reverse_onto-split_last :
      (x : A) (xs acc : List A)
      → reverse_onto (x ∷ xs) acc ≡ (split_last x xs).1 ∷ reverse_onto (split_last x xs).0 acc
  reverse_onto-split_last x [] acc = refl
  reverse_onto-split_last x (y ∷ ys) acc = reverse_onto-split_last y ys (x ∷ acc)

  pub length-split_last : (x : A) (xs : List A) → length (x ∷ xs) ≡ suc (length (split_last x xs).0)
  length-split_last x [] = refl
  length-split_last x (y ∷ ys) = ap suc (length-split_last y ys)
