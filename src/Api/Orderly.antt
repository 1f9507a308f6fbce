-- ===== src/Api/Orderly.antt =====
-- What each system call does with the buffers and with kt_errno. `live` is compared with a given list,
-- so that the steps of a call follow each other.
use weenix_kernel_implementa.Common.{ℕ, suc, ◌<◌, ◌≡◌, refl, ap, ◌∙◌, List, ◌∷◌, arith}
use weenix_kernel_implementa.Proc.Sched.{erase}
use weenix_kernel_implementa.Proc.Sched.Fifo.{erase-head}
use weenix_kernel_implementa.Api.Calls.{
  Answer, val, err, Struct, Calls, State, UserResult, value, minus_one, fail, finish, finish_zero,
  on_value, on_value_or, load_args, free,
}

-- The errors that the wrappers name are positive numbers.
pub record ErrnoLaws {W : Type 0} (c : Calls W) : Type 0 where
  pub efault : 0 < c.efault
  pub einval : 0 < c.einval
  pub enosys : 0 < c.enosys
  pub enodev : 0 < c.enodev

module _ {W : Type 0} where
  -- Of the buffers there are those of `live` left, and a result of -1 comes with an error.
  pub record Orderly (live : List ℕ) (r : UserResult × State W) : Type 0 where
    pub kept : r.1.live ≡ live
    pub reported : r.0 ≡ minus_one → 0 < r.1.kt_errno

  pub value-Orderly :
      (live : List ℕ) (n : ℕ) (s : State W) → s.live ≡ live → Orderly live (value n, s)
  value-Orderly live n s e = record { kept = e; reported = λ h. cc }

  pub fail-Orderly :
      (live : List ℕ) (e : ℕ) (s : State W) → 0 < e → s.live ≡ live → Orderly live (fail e s)
  fail-Orderly live e s positive kept = record { kept = kept; reported = λ h. positive }

  pub finish-Orderly :
      (live : List ℕ) (r : Answer ℕ) (s : State W) → s.live ≡ live → Orderly live (finish (r, s))
  finish-Orderly live (val n) s e = value-Orderly live n s e
  finish-Orderly live (err n) s e = fail-Orderly live (suc n) s (omega arith) e

  pub finish_zero-Orderly :
      {A : Type 0} (live : List ℕ) (r : Answer A) (s : State W)
      → s.live ≡ live
      → Orderly live (finish_zero (r, s))
  finish_zero-Orderly live (val n) s e = value-Orderly live 0 s e
  finish_zero-Orderly live (err n) s e = fail-Orderly live (suc n) s (omega arith) e

  abbrev pub Continues :
      {A : Type 0} → List ℕ → List ℕ → (A → State W → UserResult × State W) → Type 0
  Continues {A} before live k = (a : A) (s : State W) → s.live ≡ before → Orderly live (k a s)

  pub on_value-Orderly :
      {A : Type 0} (live : List ℕ) (k : A → State W → UserResult × State W) (r : Answer A)
      (s : State W)
      → Continues live live k
      → s.live ≡ live
      → Orderly live (on_value k (r, s))
  on_value-Orderly live k (val a) s next e = next a s e
  on_value-Orderly live k (err n) s next e = fail-Orderly live (suc n) s (omega arith) e

  pub on_value_or-Orderly :
      {A : Type 0} (live : List ℕ) (error : ℕ) (k : A → State W → UserResult × State W)
      (r : Answer A) (s : State W)
      → 0 < error
      → Continues live live k
      → s.live ≡ live
      → Orderly live (on_value_or error k (r, s))
  on_value_or-Orderly live error k (val a) s positive next e = next a s e
  on_value_or-Orderly live error k (err n) s positive next e = fail-Orderly live error s positive e

module _ {W : Type 0} (c : Calls W) where
  pub free-live :
      (give_back : ℕ → W → W) (p : ℕ) (live : List ℕ) (s : State W)
      → s.live ≡ p ∷ live
      → (free c give_back p s).live ≡ live
  free-live give_back p live s e = ap (erase p) e ∙ erase-head p live

  pub load-Orderly :
      {A : Type 0} (t : Struct A) (arg : ℕ) (k : A → State W → UserResult × State W) (s : State W)
      → Continues s.live s.live k
      → Orderly s.live (on_value k (load_args c t arg s))
  load-Orderly t arg k s next =
      on_value-Orderly s.live k (load_args c t arg s).0 (load_args c t arg s).1 next refl

  pub load_or-Orderly :
      {A : Type 0} (error : ℕ) (t : Struct A) (arg : ℕ) (k : A → State W → UserResult × State W)
      (s : State W)
      → 0 < error
      → Continues s.live s.live k
      → Orderly s.live (on_value_or error k (load_args c t arg s))
  load_or-Orderly error t arg k s positive next =
      on_value_or-Orderly s.live error k (load_args c t arg s).0 (load_args c t arg s).1 positive
        next refl
