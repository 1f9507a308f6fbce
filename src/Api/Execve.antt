-- ===== src/Api/Execve.antt =====
-- `user_vecdup` of K3/access.c, and `free_vector` and `sys_execve` of K3/syscall.c. A vector is a
-- buffer of pointers, where 0 is NULL; a walk to its NULL has fuel, and to run out of it counts as
-- `panic`.
use weenix_kernel_implementa.Common.{
  ℕ, zero, suc, ◌+◌, ◌*◌, ◌%◌, true, false, Option, none, some, ◌==◌, add32, u32_mod, update, Exec,
  ok, panic, ◌>>=◌,
}
use weenix_kernel_implementa.Api.Calls.{
  Answer, val, err, Argvec, ExecveArgs, Calls, State, UserResult, value, minus_one, call, load_args,
  free, hold, write_buffer,
}
use weenix_kernel_implementa.Api.Paths.{user_strdup}

module _ {W : Type 0} (c : Calls W) where
  abbrev pub kfree : ℕ → State W → State W
  kfree = free c c.kfree

  pub free_strings : ℕ → ℕ → ℕ → State W → Exec (State W)
  free_strings zero vect i s = panic
  free_strings (suc fuel) vect i s = elim (s.contents vect i == 0) [
    | true ↦ ok s
    | false ↦ free_strings fuel vect (i + 1) (kfree (s.contents vect i) s)
  ]

  pub free_vector : ℕ → ℕ → State W → Exec (State W)
  unfolding free_strings
  free_vector fuel vect s = free_strings fuel vect 0 s >>= λ s1. ok (kfree vect s1)

  -- The label `fail` of `user_vecdup`, with the error.
  pub vecdup_failed : ℕ → ℕ → Option ℕ → ℕ → State W → Exec (Option ℕ × State W)
  unfolding free_vector
  vecdup_failed fuel temp_kvec none e s = ok (none, record (kfree temp_kvec s) { kt_errno = e })
  vecdup_failed fuel temp_kvec (some kvec) e s =
      free_vector fuel kvec s >>= λ s1. ok (none, record (kfree temp_kvec s1) { kt_errno = e })

  -- The loop with `n` strings left, from string `i` on, and what follows it.
  pub vecdup_loop : ℕ → ℕ → ℕ → ℕ → ℕ → State W → Exec (Option ℕ × State W)
  unfolding vecdup_failed
  vecdup_loop fuel temp_kvec kvec zero i s =
      let s1 = write_buffer c kvec (update (s.contents kvec) i 0) s in
      ok (some kvec, kfree temp_kvec s1)
  vecdup_loop fuel temp_kvec kvec (suc n) i s =
      let ustr = c.argstr.load (λ j. s.contents temp_kvec (i * c.argstr.size + j)) in
      let (p, s1) = user_strdup c ustr s in
      elim p [
        | none ↦ vecdup_failed fuel temp_kvec (some kvec) s1.kt_errno s1
        | some kstr ↦
            vecdup_loop fuel temp_kvec kvec n (i + 1)
              (write_buffer c kvec (update (s1.contents kvec) i kstr) s1)
      ]

  abbrev pub vecdup_copied : ℕ → ℕ → ℕ → ℕ → Answer (ℕ → ℕ) × State W → Exec (Option ℕ × State W)
  vecdup_copied fuel temp_kvec kvec n (val d, s) =
      vecdup_loop fuel temp_kvec kvec n 0 (write_buffer c temp_kvec d s)
  vecdup_copied fuel temp_kvec kvec n (err e, s) =
      vecdup_failed fuel temp_kvec (some kvec) (suc e) s

  pub vecdup_with : ℕ → ℕ → Argvec → State W → Exec (Option ℕ × State W)
  unfolding vecdup_loop vecdup_failed
  vecdup_with fuel temp_kvec uvec s =
      let (room, w) = c.kmalloc (add32 uvec.av_len 1 * 4 % u32_mod) s.world in
      let bytes = add32 uvec.av_len 1 * c.argstr.size % u32_mod in
      elim room [
        | none ↦ vecdup_failed fuel temp_kvec none c.enomem (record s { world = w })
        | some kvec ↦
            vecdup_copied fuel temp_kvec kvec uvec.av_len
              (call (c.copy_from_user uvec.av_vec bytes) (hold c kvec w s))
      ]

  pub user_vecdup : ℕ → Argvec → State W → Exec (Option ℕ × State W)
  unfolding vecdup_with
  user_vecdup fuel uvec s =
      let (room, w) = c.kmalloc (add32 uvec.av_len 1 * c.argstr.size % u32_mod) s.world in
      elim room [
        | none ↦ vecdup_failed fuel 0 none c.enomem (record s { world = w })
        | some temp_kvec ↦ vecdup_with fuel temp_kvec uvec (hold c temp_kvec w s)
      ]

  abbrev pub free_if : (ℕ → State W → Exec (State W)) → Option ℕ → State W → Exec (State W)
  free_if give_back none s = ok s
  free_if give_back (some p) s = give_back p s

  -- The label `cleanup` of `sys_execve`.
  pub cleanup : ℕ → Option ℕ → Option ℕ → Option ℕ → State W → Exec (UserResult × State W)
  unfolding free_vector
  cleanup fuel filename argv envp s = free_if (λ p s1. ok (kfree p s1)) filename s >>= λ s1.
      free_if (free_vector fuel) argv s1 >>= λ s2. free_if (free_vector fuel) envp s2 >>= λ s3.
      ok ((elim (s3.kt_errno == 0) [ true ↦ value 0 | false ↦ minus_one ]), s3)

  -- A vector that is given is copied; `failed` follows a result of NULL.
  pub copy_vector :
      ℕ
      → Argvec
      → (State W → Exec (UserResult × State W))
      → (Option ℕ → State W → Exec (UserResult × State W))
      → State W
      → Exec (UserResult × State W)
  unfolding user_vecdup
  copy_vector fuel uvec failed k s = elim (uvec.av_vec == 0) [
    | true ↦ k none s
    | false ↦
        user_vecdup fuel uvec s >>= λ r. elim r.0 [ none ↦ failed r.1 | some v ↦ k (some v) r.1 ]
  ]

  pub execve_called :
      ℕ → ℕ → Option ℕ → Option ℕ → Answer (Unit {0}) × State W → Exec (UserResult × State W)
  unfolding cleanup
  execve_called fuel filename argv envp (val _, s) =
      cleanup fuel (some filename) argv envp (record s { kt_errno = 0 })
  execve_called fuel filename argv envp (err e, s) =
      cleanup fuel (some filename) argv envp (record s { kt_errno = suc e })

  pub execve_named : ℕ → ExecveArgs → Option ℕ × State W → Exec (UserResult × State W)
  unfolding copy_vector execve_called
  execve_named fuel a (none, s) = cleanup fuel none none none s
  execve_named fuel a (some filename, s) =
      copy_vector fuel a.argv (cleanup fuel (some filename) none none)
        (λ argv. copy_vector fuel a.envp (cleanup fuel (some filename) argv none) (λ envp s1.
          execve_called fuel filename argv envp
            (call (c.do_execve (s1.contents filename) argv envp s1.contents) s1)))
        s

  abbrev pub execve_loaded : ℕ → Answer ExecveArgs × State W → Exec (UserResult × State W)
  execve_loaded fuel (val a, s) = execve_named fuel a (user_strdup c a.filename s)
  execve_loaded fuel (err e, s) = cleanup fuel none none none (record s { kt_errno = suc e })

  pub sys_execve : ℕ → ℕ → State W → Exec (UserResult × State W)
  unfolding execve_named cleanup
  sys_execve fuel arg s = execve_loaded fuel (load_args c c.execve_args arg s)
