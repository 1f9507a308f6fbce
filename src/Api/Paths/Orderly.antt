-- ===== src/Api/Paths/Orderly.antt =====
-- The system calls on paths give back their buffers, and report each failure.
use weenix_kernel_implementa.Common.{
  ℕ, suc, ◌≡◌, refl, sym, subst, ap, ◌∙◌, ◌⊎◌, inl, inr, Option, none, some, List, ◌∷◌, add32,
  Option-cases, arith,
}
use weenix_kernel_implementa.Proc.Sched.{erase}
use weenix_kernel_implementa.Proc.Sched.Fifo.{erase-both}
use weenix_kernel_implementa.Api.Calls.{Answer, val, err, Argstr, Calls, State, UserResult, free}
use weenix_kernel_implementa.Api.Orderly.{
  ErrnoLaws, Orderly, Continues, value-Orderly, fail-Orderly, finish-Orderly, free-live,
  load-Orderly, load_or-Orderly,
}
use weenix_kernel_implementa.Api.Paths.{
  strdup_copied, user_strdup, got_path, with_path, path_call, two_paths, sys_mkdir, sys_rmdir,
  sys_unlink, sys_chdir, sys_open, sys_link, sys_rename, stat_done, stat_copy, sys_stat,
  debug_message, sys_debug,
}

module _ {W : Type 0} where
  -- Either there is no copy, and no buffer more than before; or there is a buffer more.
  abbrev Duplicated : List ℕ → Option ℕ × State W → Type 0
  Duplicated live r =
      ((r.0 ≡ none) × (r.1.live ≡ live)) ⊎ ((p : ℕ) × (r.0 ≡ some p) × (r.1.live ≡ p ∷ live))

module _ {W : Type 0} (c : Calls W) where
  strdup_copied-Duplicated :
      (p : ℕ) (live : List ℕ) (r : Answer (ℕ → ℕ)) (s : State W)
      → s.live ≡ p ∷ live
      → Duplicated live (strdup_copied c p (r, s))
  strdup_copied-Duplicated p live (val d) s e = inr (p, refl, e)
  strdup_copied-Duplicated p live (err n) s e = inl (refl, free-live c c.kfree p live s e)

  user_strdup-Duplicated : (a : Argstr) (s : State W) → Duplicated s.live (user_strdup c a s)
  unfolding user_strdup
  user_strdup-Duplicated a s =
      let (room, w) = c.kmalloc (add32 a.as_len 1) s.world in
      elim (Option-cases (c.kmalloc (add32 a.as_len 1) s.world).0) [
        | inl full ↦ rw (user_strdup, full) (inl (refl, refl))
        | inr (p, found) ↦
            rw (user_strdup, found)
              (strdup_copied-Duplicated p s.live _
                (record s {
                  world = (c.copy_from_user a.as_str (add32 a.as_len 1) w).1;
                  live = p ∷ s.live;
                })
                refl)
      ]

module _ {W : Type 0} (c : Calls W) (laws : ErrnoLaws c) where
  got_path-Orderly :
      (before live : List ℕ) (undo : State W → State W) (k : ℕ → State W → UserResult × State W)
      (r : Option ℕ) (s : State W)
      → Duplicated before (r, s)
      → ((s' : State W) → s'.live ≡ before → (undo s').live ≡ live)
      → ((p : ℕ) (s' : State W) → s'.live ≡ p ∷ before → Orderly live (k p s'))
      → Orderly live (got_path c undo k (r, s))
  unfolding got_path
  got_path-Orderly before live undo k none s (inl (_, e)) undone next =
      fail-Orderly live c.einval (undo s) laws.einval (undone s e)
  got_path-Orderly before live undo k none s (inr (p, absent, e)) undone next = absurd cc
  got_path-Orderly before live undo k (some p) s (inl (absent, e)) undone next = absurd cc
  got_path-Orderly before live undo k (some p) s (inr (q, same, e)) undone next =
      let same : p ≡ q = cc in next p s (e ∙ ap (λ x. x ∷ before) (sym same))

  with_path-Orderly :
      (live : List ℕ) (k : ℕ → State W → UserResult × State W)
      → ((p : ℕ) (s' : State W) → s'.live ≡ p ∷ live → Orderly live (k p s'))
      → Continues live live (with_path c k)
  with_path-Orderly live k next a s e =
      let d : Duplicated live (user_strdup c a s) =
        subst (λ x. Duplicated x (user_strdup c a s)) e (user_strdup-Duplicated c a s) in
      got_path-Orderly live live (λ s1. s1) k (user_strdup c a s).0 (user_strdup c a s).1 d
        (λ s' e1. e1) next

  path_call-Orderly :
      (live : List ℕ) (f : (ℕ → ℕ) → W → Answer ℕ × W) (p : ℕ) (s : State W)
      → s.live ≡ p ∷ live
      → Orderly live (path_call c f p s)
  unfolding path_call
  path_call-Orderly live f p s e =
      finish-Orderly live (f (s.contents p) s.world).0
        (free c c.kfree p (record s { world = (f (s.contents p) s.world).1 }))
        (free-live c c.kfree p live (record s { world = (f (s.contents p) s.world).1 }) e)

  pub sys_mkdir-Orderly : (arg : ℕ) (s : State W) → Orderly s.live (sys_mkdir c arg s)
  unfolding sys_mkdir
  sys_mkdir-Orderly arg s =
      load-Orderly c c.mkdir_args arg (with_path c (path_call c c.do_mkdir)) s
        (with_path-Orderly s.live (path_call c c.do_mkdir) (path_call-Orderly s.live c.do_mkdir))

  pub sys_rmdir-Orderly : (arg : ℕ) (s : State W) → Orderly s.live (sys_rmdir c arg s)
  unfolding sys_rmdir
  sys_rmdir-Orderly arg s =
      load-Orderly c c.argstr arg (with_path c (path_call c c.do_rmdir)) s
        (with_path-Orderly s.live (path_call c c.do_rmdir) (path_call-Orderly s.live c.do_rmdir))

  pub sys_unlink-Orderly : (arg : ℕ) (s : State W) → Orderly s.live (sys_unlink c arg s)
  unfolding sys_unlink
  sys_unlink-Orderly arg s =
      load-Orderly c c.argstr arg (with_path c (path_call c c.do_unlink)) s
        (with_path-Orderly s.live (path_call c c.do_unlink) (path_call-Orderly s.live c.do_unlink))

  pub sys_chdir-Orderly : (arg : ℕ) (s : State W) → Orderly s.live (sys_chdir c arg s)
  unfolding sys_chdir
  sys_chdir-Orderly arg s =
      load-Orderly c c.argstr arg (with_path c (path_call c c.do_chdir)) s
        (with_path-Orderly s.live (path_call c c.do_chdir) (path_call-Orderly s.live c.do_chdir))

  pub sys_open-Orderly : (arg : ℕ) (s : State W) → Orderly s.live (sys_open c arg s)
  unfolding sys_open
  sys_open-Orderly arg s =
      load-Orderly c c.open_args arg
        (λ a. with_path c (path_call c (λ path. c.do_open path a.flags)) a.filename) s
        (λ a.
          with_path-Orderly s.live (path_call c (λ path. c.do_open path a.flags))
            (path_call-Orderly s.live (λ path. c.do_open path a.flags)) a.filename)

  two_paths-Orderly :
      (live : List ℕ) (f : (ℕ → ℕ) → (ℕ → ℕ) → W → Answer ℕ × W) (order : ℕ → ℕ → State W → State W)
      (first second : Argstr) (s : State W)
      → ((p q : ℕ) (s' : State W) → s'.live ≡ q ∷ p ∷ live → (order p q s').live ≡ live)
      → s.live ≡ live
      → Orderly live (two_paths c f order first second s)
  unfolding two_paths
  two_paths-Orderly live f order first second s ordered e =
      with_path-Orderly live _
        (λ p s1 e1.
          got_path-Orderly (p ∷ live) live (free c c.kfree p) _ (user_strdup c second s1).0
            (user_strdup c second s1).1
            (subst (λ x. Duplicated x (user_strdup c second s1)) e1
              (user_strdup-Duplicated c second s1))
            (λ s2 e2. free-live c c.kfree p live s2 e2)
            (λ q s2 e2.
              let (r, w) = f (s2.contents p) (s2.contents q) s2.world in
              let s3 : State W = record s2 { world = w } in
              finish-Orderly live r (order p q s3) (ordered p q s3 e2)))
        first s e

  pub sys_link-Orderly : (arg : ℕ) (s : State W) → Orderly s.live (sys_link c arg s)
  unfolding sys_link
  sys_link-Orderly arg s = load-Orderly c c.link_args arg _ s (λ a s1 e.
      two_paths-Orderly s.live (λ to from. c.do_link from to)
        (λ to from s1. free c c.kfree from (free c c.kfree to s1)) a.to a.from s1
        (λ p q s' h. ap (λ x. erase q (erase p x)) h ∙ erase-both p q s.live) e)

  pub sys_rename-Orderly : (arg : ℕ) (s : State W) → Orderly s.live (sys_rename c arg s)
  unfolding sys_rename
  sys_rename-Orderly arg s = load-Orderly c c.rename_args arg _ s (λ a s1 e.
      two_paths-Orderly s.live c.do_rename
        (λ oldname newname s1. free c c.kfree oldname (free c c.kfree newname s1)) a.oldname
        a.newname s1
        (λ p q s' h.
          free-live c c.kfree p s.live (free c c.kfree q s')
            (free-live c c.kfree q (p ∷ s.live) s' h))
        e)

  stat_done-Orderly :
      (live : List ℕ) (p : ℕ) (r : Answer (Unit {0})) (s : State W)
      → s.live ≡ p ∷ live
      → Orderly live (stat_done c p (r, s))
  stat_done-Orderly live p (val tt) s e =
      value-Orderly live 0 (free c c.kfree p s) (free-live c c.kfree p live s e)
  stat_done-Orderly live p (err n) s e =
      fail-Orderly live (suc n) (free c c.kfree p s) (omega arith) (free-live c c.kfree p live s e)

  stat_copy-Orderly :
      (live : List ℕ) (buf p : ℕ) (r : Answer (ℕ → ℕ)) (s : State W)
      → s.live ≡ p ∷ live
      → Orderly live (stat_copy c buf p (r, s))
  stat_copy-Orderly live buf p (val st) s e =
      let (r, w) = c.copy_to_user buf st c.stat_size s.world in
      stat_done-Orderly live p r (record s { world = w }) e
  stat_copy-Orderly live buf p (err n) s e = stat_done-Orderly live p (err n) s e

  pub sys_stat-Orderly : (arg : ℕ) (s : State W) → Orderly s.live (sys_stat c arg s)
  unfolding sys_stat
  sys_stat-Orderly arg s = load_or-Orderly c c.efault c.stat_args arg _ s laws.efault (λ a.
      with_path-Orderly s.live _
        (λ p s1 e.
          let (r, w) = c.do_stat (s1.contents p) s1.world in
          stat_copy-Orderly s.live a.buf p r (record s1 { world = w }) e)
        a.path)

  debug_message-Orderly :
      (live : List ℕ) (r : Option ℕ) (s : State W)
      → Duplicated live (r, s)
      → Orderly live (debug_message c (r, s))
  unfolding debug_message
  debug_message-Orderly live none s (inl (_, e)) = value-Orderly live 0 _ e
  debug_message-Orderly live none s (inr (p, absent, e)) = absurd cc
  debug_message-Orderly live (some p) s (inl (absent, e)) = absurd cc
  debug_message-Orderly live (some p) s (inr (q, same, e)) =
      let here : p ≡ q = cc in
      let s1 : State W = record s { world = c.dbg (some (s.contents p)) s.world } in
      value-Orderly live 0 (free c c.kfree p s1)
        (free-live c c.kfree p live s1 (e ∙ ap (λ x. x ∷ live) (sym here)))

  pub sys_debug-Orderly : (arg : ℕ) (s : State W) → Orderly s.live (sys_debug c arg s)
  unfolding sys_debug
  sys_debug-Orderly arg s = load-Orderly c c.argstr arg _ s (λ a s1 e.
      debug_message-Orderly s.live (user_strdup c a s1).0 (user_strdup c a s1).1
        (subst (λ x. Duplicated x (user_strdup c a s1)) e (user_strdup-Duplicated c a s1)))
