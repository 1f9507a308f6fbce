-- ===== src/Mm/Put.antt =====
-- `pframe_dirty`, `pframe_clean`, `pframe_free` and `pframe_migrate` of K3/pframe.c, with the
-- operations of K3/anon.c and K3/shadow.c on dirty pages and on the last reference to an object. The
-- circle through `mmo_ops` is closed with fuel, as for lookups.
pub mod Dirty
pub mod Same
use weenix_kernel_implementa.Common.{
  ℕ, zero, suc, ◌+◌, ◌-◌, Bool, true, false, not, ◌&&◌, none, some, List, [], ◌∷◌, ◌==◌, ltb,
  if◌then◌else◌, update, Exec, ok, panic, ◌>>=◌, ◌>>◌, kassert, deref,
}
use weenix_kernel_implementa.Proc.Sched.{erase, is_none}
use weenix_kernel_implementa.Mm.Frames.{
  MmobjOps, anon_mmobj_ops, shadow_mmobj_ops, vnode_mmobj_ops, Memory, set_frame, set_obj, with_env,
  set_busy, set_dirty, set_data, is_pinned, hash_page, obj_ref, pframe_unpin,
}
use weenix_kernel_implementa.Mm.Lookup.{
  MmEnv, PageResult, page, Lookup, Free, resident, pframe_lookup,
}

module _ (mm : MmEnv) where
  open mm use {
    Env, hash_size, wake, tlb_flush, remove_from_pts, vnode_dirty, vnode_clean, vnode_put,
  }

  -- pf->pf_obj->mmo_ops->dirtypage(pf->pf_obj, pf); true for a result of 0.
  pub dirtypage : ℕ → ℕ → Memory Env → Bool × Memory Env
  dirtypage o f s = elim (s.objs o).mmo_ops [
    | anon_mmobj_ops ↦ (false, set_dirty true f s)
    | shadow_mmobj_ops ↦ (true, set_dirty true f s)
    | vnode_mmobj_ops ↦
        let (done, env) = vnode_dirty o (s.frames f).pf_pagenum s.env in
        (done, record s { env = env })
  ]

  pub pframe_dirty : ℕ → Memory Env → Exec (Bool × Memory Env)
  unfolding dirtypage
  pframe_dirty f s = do
    kassert (not (s.frames f).pf_busy)
    o ← deref (s.frames f).pf_obj
    let (done, s1) = dirtypage o f (set_busy true f s)
    let s2 = (if done then set_dirty true f s1 else s1)
    ok (done, with_env (wake f) (set_busy false f s2))

  -- `shadow_cleanpage` copies the page to the one that is looked up for writing, which is its own.
  pub clean_copy : ℕ → PageResult × Memory Env → Exec (Bool × Memory Env)
  clean_copy f (page g, s) = ok (true, set_dirty false g (set_data (s.frames f).pf_data g s))
  clean_copy f (r, s) = panic

  -- pf->pf_obj->mmo_ops->cleanpage(pf->pf_obj, pf); false for a negative result.
  pub cleanpage : Lookup mm → ℕ → ℕ → Memory Env → Exec (Bool × Memory Env)
  unfolding clean_copy
  cleanpage look o f s = elim (s.objs o).mmo_ops [
    | anon_mmobj_ops ↦ ok (true, set_dirty false f s)
    | shadow_mmobj_ops ↦ look o (s.frames f).pf_pagenum true s >>= clean_copy f
    | vnode_mmobj_ops ↦
        let (done, env) = vnode_clean o (s.frames f).pf_pagenum (s.frames f).pf_data s.env in
        ok (done, record s { env = env })
  ]

  pub pframe_clean : Lookup mm → ℕ → Memory Env → Exec (Bool × Memory Env)
  unfolding cleanpage
  pframe_clean look f s = do
    kassert (s.frames f).pf_dirty
    kassert (not (is_pinned f s))
    o ← deref (s.frames f).pf_obj
    let s1 = with_env (λ e. remove_from_pts o f (tlb_flush f e)) (set_dirty false f s)
    (done, s2) ← cleanpage look o f (set_busy true f s1)
    let s3 = (if done then s2 else set_dirty true f s2)
    ok (done, with_env (wake f) (set_busy false f s3))

  -- pframe_free, with `put` for o->mmo_ops->put(o).
  pub pframe_free : (ℕ → Memory Env → Exec (Memory Env)) → ℕ → Memory Env → Exec (Memory Env)
  pframe_free put f s = do
    let pf = s.frames f
    kassert (not (is_pinned f s))
    kassert (not pf.pf_busy)
    o ← deref pf.pf_obj
    let h = hash_page hash_size o pf.pf_pagenum
    let s1 = with_env (λ e. remove_from_pts o f (tlb_flush f e)) s
    let s2 : Memory Env = record s1 {
      pframe_hash = update s1.pframe_hash h (erase f (s1.pframe_hash h));
      nallocated = s1.nallocated - 1;
      alloc_list = erase f s1.alloc_list;
      free_frames = f ∷ s1.free_frames;
    }
    let obj = s2.objs o
    let s3 =
        set_obj o
          (record obj {
            mmo_nrespages = obj.mmo_nrespages - 1;
            mmo_respages = erase f obj.mmo_respages;
          })
          (set_frame f (record pf { pf_obj = none }) s2)
    put o s3

  -- The loops of `anon_put` and `shadow_put`; `clean` is `pframe_clean`.
  pub free_anon :
      (ℕ → Memory Env → Exec (Bool × Memory Env))
      → Free mm
      → List ℕ
      → Memory Env
      → Exec (Memory Env)
  free_anon clean free [] s = ok s
  free_anon clean free (f ∷ fs) s = do
    s1 ← (if (s.frames f).pf_dirty then (clean f s >>= λ r. ok r.1) else ok s)
    s2 ← free f s1
    free_anon clean free fs s2

  pub free_shadow :
      (ℕ → Memory Env → Exec (Bool × Memory Env))
      → Free mm
      → List ℕ
      → Memory Env
      → Exec (Memory Env)
  free_shadow clean free [] s = ok s
  free_shadow clean free (f ∷ fs) s = do
    s1 ← pframe_unpin f s
    (done, s2) ← clean f s1
    s3 ← free f s2
    free_shadow clean free fs s3

  abbrev pub drop_ref : ℕ → Memory Env → Memory Env
  drop_ref o s = set_obj o (record (s.objs o) { mmo_refcount = (s.objs o).mmo_refcount - 1 }) s

  -- The last reference but those of the resident pages; the object's memory is given back before the
  -- count is lowered.
  pub put_last :
      (ℕ → Memory Env → Exec (Bool × Memory Env))
      → Free mm
      → (ℕ → Memory Env → Exec (Memory Env))
      → ℕ
      → Memory Env
      → Exec (Memory Env)
  unfolding free_anon free_shadow
  put_last clean free put o s = elim (s.objs o).mmo_ops [
    | anon_mmobj_ops ↦ free_anon clean free (s.objs o).mmo_respages s >>= λ s1. ok (drop_ref o s1)
    | shadow_mmobj_ops ↦ free_shadow clean free (s.objs o).mmo_respages s >>= λ s1.
        deref (s1.objs o).mmo_shadowed >>= λ below. put below s1 >>= λ s2. ok (drop_ref o s2)
    | vnode_mmobj_ops ↦ ok (with_env (vnode_put o) (drop_ref o s))
  ]

  abbrev pub is_vnode : MmobjOps → Bool
  is_vnode vnode_mmobj_ops = true
  is_vnode _ = false

  -- o->mmo_ops->put(o): `anon_put`, `shadow_put`, or that of a vnode.
  pub obj_put : ℕ → ℕ → Memory Env → Exec (Memory Env)
  unfolding put_last
  obj_put zero o s = panic
  obj_put (suc fuel) o s =
      let free = pframe_free (obj_put fuel) in
      let clean = pframe_clean (pframe_lookup mm free fuel) in
      let obj = s.objs o in
      kassert (ltb 0 obj.mmo_refcount) >>= λ _.
      elim (not (is_vnode obj.mmo_ops) && not (obj.mmo_refcount == obj.mmo_nrespages + 1)) [
        | true ↦ ok (drop_ref o s)
        | false ↦ put_last clean free (obj_put fuel) o s
      ]

  pub pframe_migrate : ℕ → ℕ → ℕ → Memory Env → Exec (Memory Env)
  pframe_migrate fuel f dest s = do
    kassert (not (s.frames f).pf_busy)
    let pagenum = (s.frames f).pf_pagenum
    let free = pframe_free (obj_put fuel)
    let (newer, s1) = resident mm dest pagenum s
    if not (is_none newer)
        then (do
          s2 ← pframe_unpin f s1
          (done, s3) ← pframe_clean (pframe_lookup mm free fuel) f s2
          free f s3)
        else (do
          src ← deref (s1.frames f).pf_obj
          let h = hash_page hash_size src pagenum
          let from = s1.objs src
          let s2 : Memory Env =
              record (set_frame f (record (s1.frames f) { pf_obj = some dest }) s1) {
                pframe_hash = update s1.pframe_hash h (erase f (s1.pframe_hash h));
              }
          s3 ← obj_put fuel src (
              set_obj src
                (record from {
                  mmo_nrespages = from.mmo_nrespages - 1;
                  mmo_respages = erase f from.mmo_respages;
                })
                s2)
          let d = hash_page hash_size dest pagenum
          let to = s3.objs dest
          obj_ref dest (
              set_obj dest
                (record to {
                  mmo_nrespages = to.mmo_nrespages + 1;
                  mmo_respages = f ∷ to.mmo_respages;
                })
                (record s3 { pframe_hash = update s3.pframe_hash d (f ∷ s3.pframe_hash d) })))
