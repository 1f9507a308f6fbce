-- ===== src/Api/Wrappers/Orderly.antt =====
-- The other system calls give back their buffers, and report each failure.
use weenix_kernel_implementa.Common.{
  ℕ, zero, suc, ◌+◌, ◌*◌, ◌/◌, ◌≡◌, refl, ap, inl, inr, Option, none, some, List, [], ◌∷◌, ◌==◌,
  add32, Bool-cases, arith,
}
use weenix_kernel_implementa.Api.Calls.{
  Answer, val, err, ReadArgs, GetdentsArgs, Text, Calls, State, UserResult, value, free, hold,
  write_buffer,
}
use weenix_kernel_implementa.Api.Orderly.{
  ErrnoLaws, Orderly, value-Orderly, fail-Orderly, finish-Orderly, finish_zero-Orderly,
  on_value-Orderly, on_value_or-Orderly, free-live, load-Orderly, load_or-Orderly,
}
use weenix_kernel_implementa.Api.Wrappers.{
  page_failed, page_done, read_done, sys_read, written, write_copied, sys_write, getdents_loop,
  sys_getdents, sys_close, sys_dup, sys_dup2, sys_lseek, sys_munmap, sys_mmap, waited, sys_waitpid,
  sys_brk, sys_pipe, uname_fields, sys_uname, sys_fork, kshell_next, kshell_loop, kshell_ended,
  kshell_run, sys_kshell,
}

module _ {W : Type 0} (c : Calls W) (laws : ErrnoLaws c) where
  page_failed-Orderly :
      (live : List ℕ) (buf e : ℕ) (s : State W)
      → s.live ≡ buf ∷ live
      → Orderly live (page_failed c buf e s)
  page_failed-Orderly live buf e s h = record {
    kept = free-live c c.page_free buf live (record s { kt_errno = suc e }) h;
    reported = λ _. omega arith;
  }

  page_done-Orderly :
      {A : Type 0} (live : List ℕ) (buf n : ℕ) (r : Answer A) (s : State W)
      → s.live ≡ buf ∷ live
      → Orderly live (page_done c buf n (r, s))
  page_done-Orderly live buf n (val a) s h =
      value-Orderly live n (free c c.page_free buf s) (free-live c c.page_free buf live s h)
  page_done-Orderly live buf n (err e) s h = page_failed-Orderly live buf e s h

  read_done-Orderly :
      (live : List ℕ) (arg buf : ℕ) (r : Answer (ℕ × (ℕ → ℕ))) (s : State W)
      → s.live ≡ buf ∷ live
      → Orderly live (read_done c arg buf (r, s))
  read_done-Orderly live arg buf (val (n, d)) s h =
      let s1 = write_buffer c buf d s in
      let (r, w) = c.copy_to_user (c.user_buf arg s1.world) (s1.contents buf) n s1.world in
      page_done-Orderly live buf n r (record s1 { world = w }) h
  read_done-Orderly live arg buf (err e) s h = page_failed-Orderly live buf e s h

  pub sys_read-Orderly : (arg : ℕ) (s : State W) → Orderly s.live (sys_read c arg s)
  unfolding sys_read
  sys_read-Orderly arg s = load-Orderly c c.read_args arg _ s (λ a s1 e.
      let (buf, w) = c.page_alloc s1.world in
      let (r, w2) = c.do_read a.fd a.nbytes w in
      read_done-Orderly s.live arg buf r (record (hold c buf w s1) { world = w2 })
        (ap (λ x. buf ∷ x) e))

  written-Orderly :
      (live : List ℕ) (buf : ℕ) (r : Answer ℕ) (s : State W)
      → s.live ≡ buf ∷ live
      → Orderly live (written c buf (r, s))
  written-Orderly live buf (val n) s h = page_done-Orderly live buf n (val n) s h
  written-Orderly live buf (err e) s h = page_failed-Orderly live buf e s h

  write_copied-Orderly :
      (live : List ℕ) (buf : ℕ) (a : ReadArgs) (r : Answer (ℕ → ℕ)) (s : State W)
      → s.live ≡ buf ∷ live
      → Orderly live (write_copied c buf a (r, s))
  write_copied-Orderly live buf a (val d) s h =
      let s1 = write_buffer c buf d s in
      let (r, w) = c.do_write a.fd (s1.contents buf) a.nbytes s1.world in
      written-Orderly live buf r (record s1 { world = w }) h
  write_copied-Orderly live buf a (err e) s h = page_failed-Orderly live buf e s h

  pub sys_write-Orderly : (arg : ℕ) (s : State W) → Orderly s.live (sys_write c arg s)
  unfolding sys_write
  sys_write-Orderly arg s = load-Orderly c c.write_args arg _ s (λ a s1 e.
      let (buf, w) = c.page_alloc s1.world in
      let (r, w2) = c.copy_from_user a.buf a.nbytes w in
      write_copied-Orderly s.live buf a r (record (hold c buf w s1) { world = w2 })
        (ap (λ x. buf ∷ x) e))

  getdents_loop-Orderly :
      (live : List ℕ) (n i total : ℕ) (a : GetdentsArgs) (s : State W)
      → s.live ≡ live
      → Orderly live (getdents_loop c n i total a s)
  unfolding getdents_loop
  getdents_loop-Orderly live zero i total a s e = value-Orderly live total s e
  getdents_loop-Orderly live (suc n) i total a s e =
      let (r, w) = c.do_getdent a.fd s.world in
      on_value-Orderly live _ r (record s { world = w })
        (λ got s1 e1. elim (Bool-cases (got.0 == 0)) [
          | inl ended ↦ rw ended (value-Orderly live total (record s1 { kt_errno = 0 }) e1)
          | inr more ↦
              let (r2, w2) =
                c.copy_to_user (add32 a.dirp (i * c.dirent_size)) got.1 got.0 s1.world in
              rw more (
                on_value-Orderly live (λ _. getdents_loop c n (i + 1) (total + got.0) a) r2
                  (record s1 { world = w2 })
                  (λ _ s2 e2. getdents_loop-Orderly live n (i + 1) (total + got.0) a s2 e2) e1)
        ])
        e

  pub sys_getdents-Orderly : (arg : ℕ) (s : State W) → Orderly s.live (sys_getdents c arg s)
  unfolding sys_getdents
  sys_getdents-Orderly arg s =
      load-Orderly c c.getdents_args arg _ s
        (λ a s1 e. getdents_loop-Orderly s.live (a.count / c.dirent_size) 0 0 a s1 e)

  pub sys_close-Orderly : (arg : ℕ) (s : State W) → Orderly s.live (sys_close c arg s)
  unfolding sys_close
  sys_close-Orderly arg s =
      let (r, w) = c.do_close arg s.world in finish-Orderly s.live r (record s { world = w }) refl

  pub sys_dup-Orderly : (arg : ℕ) (s : State W) → Orderly s.live (sys_dup c arg s)
  unfolding sys_dup
  sys_dup-Orderly arg s =
      let (r, w) = c.do_dup arg s.world in finish-Orderly s.live r (record s { world = w }) refl

  pub sys_brk-Orderly : (arg : ℕ) (s : State W) → Orderly s.live (sys_brk c arg s)
  unfolding sys_brk
  sys_brk-Orderly arg s =
      let (r, w) = c.do_brk arg s.world in finish-Orderly s.live r (record s { world = w }) refl

  pub sys_dup2-Orderly : (arg : ℕ) (s : State W) → Orderly s.live (sys_dup2 c arg s)
  unfolding sys_dup2
  sys_dup2-Orderly arg s = load-Orderly c c.dup2_args arg _ s (λ a s1 e.
      let (r, w) = c.do_dup2 a.ofd a.nfd s1.world in
      finish-Orderly s.live r (record s1 { world = w }) e)

  pub sys_lseek-Orderly : (arg : ℕ) (s : State W) → Orderly s.live (sys_lseek c arg s)
  unfolding sys_lseek
  sys_lseek-Orderly arg s = load-Orderly c c.lseek_args arg _ s (λ a s1 e.
      let (r, w) = c.do_lseek a.fd a.offset a.whence s1.world in
      finish-Orderly s.live r (record s1 { world = w }) e)

  pub sys_munmap-Orderly : (arg : ℕ) (s : State W) → Orderly s.live (sys_munmap c arg s)
  unfolding sys_munmap
  sys_munmap-Orderly arg s = load_or-Orderly c c.efault c.munmap_args arg _ s laws.efault (λ a s1 e.
      let (r, w) = c.do_munmap a.addr a.len s1.world in
      finish_zero-Orderly s.live r (record s1 { world = w }) e)

  pub sys_mmap-Orderly : (arg : ℕ) (s : State W) → Orderly s.live (sys_mmap c arg s)
  unfolding sys_mmap
  sys_mmap-Orderly arg s = load_or-Orderly c c.efault c.mmap_args arg _ s laws.efault (λ a s1 e.
      let (r, w) = c.do_mmap a s1.world in finish-Orderly s.live r (record s1 { world = w }) e)

  waited-Orderly :
      (live : List ℕ) (place p : ℕ) (status : ℕ → ℕ) (s : State W)
      → s.live ≡ live
      → Orderly live (waited c place p status s)
  unfolding waited
  waited-Orderly live place p status s e = elim (Bool-cases (place == 0)) [
    | inl null ↦ rw null (value-Orderly live p s e)
    | inr given ↦
        let (r, w) = c.copy_to_user place status c.int_size s.world in
        rw given (
          on_value_or-Orderly live c.efault (λ _ s1. (value p, s1)) r (record s { world = w })
            laws.efault (λ _ s1 e1. value-Orderly live p s1 e1) e)
  ]

  pub sys_waitpid-Orderly : (arg : ℕ) (s : State W) → Orderly s.live (sys_waitpid c arg s)
  unfolding sys_waitpid
  sys_waitpid-Orderly arg s =
      load_or-Orderly c c.efault c.waitpid_args arg _ s laws.efault (λ a s1 e.
        let (r, w) = c.do_waitpid a.wpa_pid a.wpa_options s1.world in
        on_value-Orderly s.live _ r (record s1 { world = w })
          (λ got s2 e2. waited-Orderly s.live a.wpa_status got.0 got.1 s2 e2) e)

  pub sys_pipe-Orderly : (arg : ℕ) (s : State W) → Orderly s.live (sys_pipe c arg s)
  unfolding sys_pipe
  sys_pipe-Orderly arg s =
      let (r, w) = c.do_pipe s.world in
      on_value-Orderly s.live _ r (record s { world = w })
        (λ got s1 e.
          let (r1, w1) = c.copy_to_user arg got c.pipe_size s1.world in
          finish_zero-Orderly s.live r1 (record s1 { world = w1 }) e)
        refl

  uname_fields-Orderly :
      (live : List ℕ) (arg : ℕ) (ts : List Text) (s : State W)
      → s.live ≡ live
      → Orderly live (uname_fields c arg ts s)
  unfolding uname_fields
  uname_fields-Orderly live arg [] s e = value-Orderly live 0 s e
  uname_fields-Orderly live arg (t ∷ ts) s e =
      let (r, w) = c.copy_to_user (add32 arg t.place) t.bytes t.size s.world in
      on_value-Orderly live _ r (record s { world = w })
        (λ _ s1 e1. uname_fields-Orderly live arg ts s1 e1) e

  pub sys_uname-Orderly : (arg : ℕ) (s : State W) → Orderly s.live (sys_uname c arg s)
  unfolding sys_uname
  sys_uname-Orderly arg s =
      uname_fields-Orderly s.live arg
        (c.un_sysname ∷ c.un_release ∷ c.un_version ∷ c.un_nodename ∷ c.un_machine ∷ []) s refl

  pub sys_fork-Orderly : (s : State W) → Orderly s.live (sys_fork c s)
  unfolding sys_fork
  sys_fork-Orderly s =
      let (r, w) = c.do_fork s.world in finish-Orderly s.live r (record s { world = w }) refl

  -- As long as the shell runs, no buffer is added.
  abbrev pub ShellOrderly : List ℕ → Option UserResult × State W → Type 0
  ShellOrderly live (none, s) = s.live ≡ live
  ShellOrderly live (some r, s) = Orderly live (r, s)

  kshell_next-live :
      (live : List ℕ) (next : State W → Option (Answer (Unit {0})) × State W) (r : Answer ℕ)
      (s : State W)
      → ((s1 : State W) → s1.live ≡ live → (next s1).1.live ≡ live)
      → s.live ≡ live
      → (kshell_next c next (r, s)).1.live ≡ live
  kshell_next-live live next (err n) s kept e = e
  kshell_next-live live next (val n) s kept e = elim (Bool-cases (n == 0)) [
    | inl ended ↦ rw (kshell_next, ended) e
    | inr more ↦ rw (kshell_next, more) (kept s e)
  ]

  kshell_loop-live :
      (live : List ℕ) (fuel ksh : ℕ) (s : State W)
      → s.live ≡ live
      → (kshell_loop c fuel ksh s).1.live ≡ live
  unfolding kshell_loop
  kshell_loop-live live zero ksh s e = e
  kshell_loop-live live (suc fuel) ksh s e =
      let (r, w) = c.kshell_execute_next ksh s.world in
      kshell_next-live live (kshell_loop c fuel ksh) r (record s { world = w })
        (λ s1 e1. kshell_loop-live live fuel ksh s1 e1) e

  kshell_ended-Orderly :
      (live : List ℕ) (ksh : ℕ) (r : Option (Answer (Unit {0}))) (s : State W)
      → s.live ≡ live
      → ShellOrderly live (kshell_ended c ksh (r, s))
  kshell_ended-Orderly live ksh none s e = e
  kshell_ended-Orderly live ksh (some r) s e =
      finish_zero-Orderly live r (record s { world = c.kshell_destroy ksh s.world }) e

  kshell_run-Orderly :
      (live : List ℕ) (fuel : ℕ) (r : Option ℕ) (s : State W)
      → s.live ≡ live
      → ShellOrderly live (kshell_run c fuel (r, s))
  kshell_run-Orderly live fuel none s e = fail-Orderly live c.enodev s laws.enodev e
  kshell_run-Orderly live fuel (some ksh) s e =
      let (r, s1) = kshell_loop c fuel ksh s in
      kshell_ended-Orderly live ksh r s1 (kshell_loop-live live fuel ksh s e)

  pub sys_kshell-Orderly :
      (fuel ttyid : ℕ) (s : State W) → ShellOrderly s.live (sys_kshell c fuel ttyid s)
  unfolding sys_kshell
  sys_kshell-Orderly fuel ttyid s =
      let (r, w) = c.kshell_create ttyid s.world in
      kshell_run-Orderly s.live fuel r (record s { world = w }) refl
