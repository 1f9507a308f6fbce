-- ===== src/Vfs/Inuse.antt =====
-- K3/vnode.c: the vnodes in use and their reference counts. Vnodes are named by numbers that stand
-- for their addresses; a file system is a number too. A call that sleeps and begins anew ends here in
-- a result of its own. `read_vnode` and `delete_vnode` of the file system are single steps.
pub mod Unique
mod Examples
use weenix_kernel_implementa.Common.{
  ℕ, ◌+◌, ◌-◌, Bool, true, false, not, ◌&&◌, ◌||◌, Option, none, some, List, [], ◌∷◌, ◌==◌, ltb,
  leb, if◌then◌else◌, update, Exec, ok, ◌>>=◌, ◌>>◌, kassert,
}
use weenix_kernel_implementa.Proc.Sched.{erase}

-- vnode_t, with VN_BUSY of vn_flags; `vn_special` says whether vn_mode is one of a device.
pub record Vnode : Type 0 where
  pub vn_fs : ℕ
  pub vn_vno : ℕ
  pub vn_refcount : ℕ
  pub vn_nrespages : ℕ
  pub vn_respages : List ℕ
  pub vn_busy : Bool
  pub vn_special : Bool

-- `free_vnodes` are the addresses that the allocator still has.
pub record Vnodes (Env : Type 0) : Type 0 where
  pub vnodes : ℕ → Vnode
  pub vnode_inuse_list : List ℕ
  pub free_vnodes : List ℕ
  pub env : Env

-- The operations of file systems, `init_special_vnode`, `pframe_free` of a page, and the wake-up of
-- those who wait for a vnode.
pub record FsOps (Env : Type 0) : Type 0 where
  pub fs_root : ℕ → ℕ
  pub read_vnode : ℕ → ℕ → Env → Bool × Env
  pub query_vnode : ℕ → Env → Bool
  pub delete_vnode : ℕ → Env → Env
  pub init_special_vnode : ℕ → Env → Env
  pub pframe_free : ℕ → Vnodes Env → Exec (Vnodes Env)
  pub broadcast : ℕ → Env → Env

-- The vnode, a sleep until it is not busy, or another attempt when there is memory.
pub data Got (Env : Type 0) : Type 0 where
  got : ℕ → Vnodes Env → Got Env
  sleeps : ℕ → Vnodes Env → Got Env
  retries : Vnodes Env → Got Env

module _ {Env : Type 0} where
  abbrev pub set_vnode : ℕ → Vnode → Vnodes Env → Vnodes Env
  set_vnode v vn s = record s { vnodes = update s.vnodes v vn }

  pub vref : ℕ → Vnodes Env → Exec (Vnodes Env)
  vref v s = do
    let vn = s.vnodes v
    kassert (ltb 0 vn.vn_refcount)
    ok (set_vnode v (record vn { vn_refcount = vn.vn_refcount + 1 }) s)

  abbrev pub has_number : ℕ → ℕ → ℕ → Vnodes Env → Bool
  has_number fs vno v s = (s.vnodes v).vn_fs == fs && (s.vnodes v).vn_vno == vno

  -- The loop of `vget`.
  pub find_vnode : ℕ → ℕ → List ℕ → Vnodes Env → Option ℕ
  find_vnode fs vno [] s = none
  find_vnode fs vno (v ∷ vs) s = if has_number fs vno v s then some v else find_vnode fs vno vs s

module _ {Env : Type 0} (ops : FsOps Env) where
  abbrev pub brought_in : ℕ → ℕ → Bool → Vnode
  brought_in fs vno special = record {
    vn_fs = fs;
    vn_vno = vno;
    vn_refcount = 1;
    vn_nrespages = 0;
    vn_respages = [];
    vn_busy = false;
    vn_special = special;
  }

  -- A vnode that was not in use.
  pub bring_in : ℕ → ℕ → List ℕ → Vnodes Env → Got Env
  bring_in fs vno [] s = retries s
  bring_in fs vno (v ∷ free) s =
      let (special, env) = ops.read_vnode fs vno s.env in
      got v (record s {
        vnodes = update s.vnodes v (brought_in fs vno special);
        vnode_inuse_list = v ∷ s.vnode_inuse_list;
        free_vnodes = free;
        env = if special then ops.init_special_vnode v env else env;
      })

  pub vget_found : ℕ → ℕ → Option ℕ → Vnodes Env → Exec (Got Env)
  unfolding vref bring_in
  vget_found fs vno none s = ok (bring_in fs vno s.free_vnodes s)
  vget_found fs vno (some v) s =
      if (s.vnodes v).vn_busy then ok (sleeps v s) else (vref v s >>= λ s1. ok (got v s1))

  pub vget : ℕ → ℕ → Vnodes Env → Exec (Got Env)
  unfolding find_vnode vget_found
  vget fs vno s = vget_found fs vno (find_vnode fs vno s.vnode_inuse_list s) s

  -- The loop of `vput` over the resident pages; to wait for a busy one is part of its release.
  pub free_pages : List ℕ → Vnodes Env → Exec (Vnodes Env)
  free_pages [] s = ok s
  free_pages (f ∷ fs) s = ops.pframe_free f s >>= free_pages fs

  -- No active reference and no link is left: the resident pages are freed.
  pub drop_pages : ℕ → Vnodes Env → Exec (Vnodes Env)
  unfolding free_pages
  drop_pages v s =
      elim ((s.vnodes v).vn_nrespages + 1 == (s.vnodes v).vn_refcount
        && not (ops.query_vnode v s.env)) [
          | false ↦ ok s
          | true ↦ free_pages (s.vnodes v).vn_respages s >>= λ s1.
              kassert ((s1.vnodes v).vn_nrespages == 0) >>= λ _.
              kassert ((s1.vnodes v).vn_refcount == 1) >>= λ _. ok s1
        ]

  -- The last reference is gone.
  pub free_vnode : ℕ → Vnodes Env → Exec (Vnodes Env)
  free_vnode v s = do
    kassert ((s.vnodes v).vn_nrespages == 0)
    ok (record (set_vnode v (record (s.vnodes v) { vn_busy = true }) s) {
      vnode_inuse_list = erase v s.vnode_inuse_list;
      free_vnodes = v ∷ s.free_vnodes;
      env = ops.broadcast v (ops.delete_vnode v s.env);
    })

  pub vput : ℕ → Vnodes Env → Exec (Vnodes Env)
  unfolding drop_pages free_vnode
  vput v s = kassert (ltb (s.vnodes v).vn_nrespages (s.vnodes v).vn_refcount) >>= λ _.
      kassert (not (s.vnodes v).vn_busy) >>= λ _. drop_pages v s >>= λ s1.
      let left = (s1.vnodes v).vn_refcount - 1 in
      let s2 = set_vnode v (record (s1.vnodes v) { vn_refcount = left }) s1 in
      if ltb 0 left then ok s2 else free_vnode v s2

  -- The loop of `vfs_is_in_use`; true for -EBUSY.
  pub in_use_loop : ℕ → List ℕ → Bool → Vnodes Env → Exec Bool
  in_use_loop fs [] ret s = ok ret
  in_use_loop fs (v ∷ vs) ret s =
      let vn = s.vnodes v in
      let refs = vn.vn_refcount - vn.vn_nrespages in
      let is_root = ops.fs_root vn.vn_fs == v in
      kassert (leb vn.vn_nrespages vn.vn_refcount) >>= λ _. elim (fs == vn.vn_fs) [
        | false ↦ in_use_loop fs vs ret s
        | true ↦ kassert (not is_root || leb 1 refs) >>= λ _.
            in_use_loop fs vs (ret || (if is_root then ltb 1 refs else ltb 0 refs)) s
      ]

  pub vfs_is_in_use : ℕ → Vnodes Env → Exec Bool
  unfolding in_use_loop
  vfs_is_in_use fs s = in_use_loop fs s.vnode_inuse_list false s
