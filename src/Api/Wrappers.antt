-- ===== src/Api/Wrappers.antt =====
-- The system calls of K3/syscall.c on open files, memory and processes, but for `sys_execve`, and
-- without those that only a kernel with __MOUNTING__ has.
pub mod Orderly
use weenix_kernel_implementa.Common.{
  ℕ, zero, suc, ◌+◌, ◌*◌, ◌/◌, Bool, true, false, Option, none, some, List, [], ◌∷◌, ◌==◌,
  if◌then◌else◌, add32,
}
use weenix_kernel_implementa.Api.Calls.{
  Answer, val, err, Struct, ReadArgs, GetdentsArgs, Dup2Args, LseekArgs, MunmapArgs, WaitpidArgs,
  Text, Calls, State, UserResult, value, minus_one, call, fail, finish, finish_zero, on_value,
  on_value_or, load_args, free, hold, write_buffer,
}

module _ {W : Type 0} (c : Calls W) where
  -- The ends of `sys_read` and `sys_write`: the page is given back on each way.
  abbrev pub page_failed : ℕ → ℕ → State W → UserResult × State W
  page_failed buf e s = (minus_one, free c c.page_free buf (record s { kt_errno = suc e }))

  abbrev pub page_done : {A : Type 0} → ℕ → ℕ → Answer A × State W → UserResult × State W
  page_done buf n (val _, s) = (value n, free c c.page_free buf s)
  page_done buf n (err e, s) = page_failed buf e s

  abbrev pub read_done : ℕ → ℕ → Answer (ℕ × (ℕ → ℕ)) × State W → UserResult × State W
  read_done arg buf (val (n, d), s) =
      let s1 = write_buffer c buf d s in
      page_done buf n (call (c.copy_to_user (c.user_buf arg s1.world) (s1.contents buf) n) s1)
  read_done arg buf (err e, s) = page_failed buf e s

  pub sys_read : ℕ → State W → UserResult × State W
  sys_read arg s =
      on_value
        (λ a s1.
          let (buf, w) = c.page_alloc s1.world in
          read_done arg buf (call (c.do_read a.fd a.nbytes) (hold c buf w s1)))
        (load_args c c.read_args arg s)

  abbrev pub written : ℕ → Answer ℕ × State W → UserResult × State W
  written buf (val n, s) = page_done buf n (val n, s)
  written buf (err e, s) = page_failed buf e s

  abbrev pub write_copied : ℕ → ReadArgs → Answer (ℕ → ℕ) × State W → UserResult × State W
  write_copied buf a (val d, s) =
      let s1 = write_buffer c buf d s in
      written buf (call (c.do_write a.fd (s1.contents buf) a.nbytes) s1)
  write_copied buf a (err e, s) = page_failed buf e s

  pub sys_write : ℕ → State W → UserResult × State W
  sys_write arg s =
      on_value
        (λ a s1.
          let (buf, w) = c.page_alloc s1.world in
          write_copied buf a (call (c.copy_from_user a.buf a.nbytes) (hold c buf w s1)))
        (load_args c c.write_args arg s)

  -- The loop of `sys_getdents` with `n` rounds left, from round `i` on.
  pub getdents_loop : ℕ → ℕ → ℕ → GetdentsArgs → State W → UserResult × State W
  getdents_loop zero i total a s = (value total, s)
  getdents_loop (suc n) i total a s =
      on_value
        (λ got s1. elim (got.0 == 0) [
          | true ↦ (value total, record s1 { kt_errno = 0 })
          | false ↦
              on_value (λ _. getdents_loop n (i + 1) (total + got.0) a)
                (call (c.copy_to_user (add32 a.dirp (i * c.dirent_size)) got.1 got.0) s1)
        ])
        (call (c.do_getdent a.fd) s)

  pub sys_getdents : ℕ → State W → UserResult × State W
  unfolding getdents_loop
  sys_getdents arg s =
      on_value (λ a. getdents_loop (a.count / c.dirent_size) 0 0 a)
        (load_args c c.getdents_args arg s)

  pub sys_close : ℕ → State W → UserResult × State W
  sys_close fd s = finish (call (c.do_close fd) s)

  pub sys_dup : ℕ → State W → UserResult × State W
  sys_dup fd s = finish (call (c.do_dup fd) s)

  pub sys_dup2 : ℕ → State W → UserResult × State W
  sys_dup2 arg s =
      on_value (λ a s1. finish (call (c.do_dup2 a.ofd a.nfd) s1)) (load_args c c.dup2_args arg s)

  pub sys_lseek : ℕ → State W → UserResult × State W
  sys_lseek arg s =
      on_value (λ a s1. finish (call (c.do_lseek a.fd a.offset a.whence) s1))
        (load_args c c.lseek_args arg s)

  pub sys_munmap : ℕ → State W → UserResult × State W
  sys_munmap arg s =
      on_value_or c.efault (λ a s1. finish_zero (call (c.do_munmap a.addr a.len) s1))
        (load_args c c.munmap_args arg s)

  pub sys_mmap : ℕ → State W → UserResult × State W
  sys_mmap arg s =
      on_value_or c.efault (λ a s1. finish (call (c.do_mmap a) s1)) (load_args c c.mmap_args arg s)

  -- The number `p` of the child, and its status for the user if a place is given.
  pub waited : ℕ → ℕ → (ℕ → ℕ) → State W → UserResult × State W
  waited place p status s =
      if place == 0
      then (value p, s)
      else on_value_or c.efault (λ _ s1. (value p, s1))
          (call (c.copy_to_user place status c.int_size) s)

  pub sys_waitpid : ℕ → State W → UserResult × State W
  unfolding waited
  sys_waitpid arg s =
      on_value_or c.efault
        (λ a s1.
          on_value (λ got. waited a.wpa_status got.0 got.1)
            (call (c.do_waitpid a.wpa_pid a.wpa_options) s1))
        (load_args c c.waitpid_args arg s)

  pub sys_brk : ℕ → State W → UserResult × State W
  sys_brk addr s = finish (call (c.do_brk addr) s)

  pub sys_pipe : ℕ → State W → UserResult × State W
  sys_pipe arg s =
      on_value (λ ends s1. finish_zero (call (c.copy_to_user arg ends c.pipe_size) s1))
        (call c.do_pipe s)

  pub uname_fields : ℕ → List Text → State W → UserResult × State W
  uname_fields arg [] s = (value 0, s)
  uname_fields arg (t ∷ ts) s =
      on_value (λ _. uname_fields arg ts)
        (call (c.copy_to_user (add32 arg t.place) t.bytes t.size) s)

  pub sys_uname : ℕ → State W → UserResult × State W
  unfolding uname_fields
  sys_uname arg =
      uname_fields arg
        (c.un_sysname ∷ c.un_release ∷ c.un_version ∷ c.un_nodename ∷ c.un_machine ∷ [])

  pub sys_fork : State W → UserResult × State W
  sys_fork s = finish (call c.do_fork s)

  -- The loop of `sys_kshell`, with fuel: how it ended, or `none` if the shell still runs. `next` is
  -- the rest of the loop.
  abbrev pub kshell_next :
      (State W → Option (Answer (Unit {0})) × State W)
      → Answer ℕ × State W
      → Option (Answer (Unit {0})) × State W
  kshell_next next (val n, s) = elim (n == 0) [ true ↦ (some (val tt), s) | false ↦ next s ]
  kshell_next next (err e, s) = (some (err e), s)

  pub kshell_loop : ℕ → ℕ → State W → Option (Answer (Unit {0})) × State W
  kshell_loop zero ksh s = (none, s)
  kshell_loop (suc fuel) ksh s =
      kshell_next (kshell_loop fuel ksh) (call (c.kshell_execute_next ksh) s)

  abbrev pub kshell_ended : ℕ → Option (Answer (Unit {0})) × State W → Option UserResult × State W
  kshell_ended ksh (none, s) = (none, s)
  kshell_ended ksh (some r, s) =
      let (result, s1) = finish_zero (r, record s { world = c.kshell_destroy ksh s.world }) in
      (some result, s1)

  abbrev pub kshell_run : ℕ → Option ℕ × State W → Option UserResult × State W
  kshell_run fuel (none, s) = let (result, s1) = fail c.enodev s in (some result, s1)
  kshell_run fuel (some ksh, s) = kshell_ended ksh (kshell_loop fuel ksh s)

  pub sys_kshell : ℕ → ℕ → State W → Option UserResult × State W
  unfolding kshell_loop
  sys_kshell fuel ttyid s = kshell_run fuel (call (c.kshell_create ttyid) s)
