-- ===== src/Mm/Frames.antt =====
-- K3/pframe.c, the part that works on the frames alone. Frames and objects are named by numbers that
-- stand for their addresses. A frame is free if its `pf_obj` is NULL.
pub mod Resident
pub mod Alloc
pub mod Lists
pub mod Pins
pub mod Counts
pub mod Same
use weenix_kernel_implementa.Common.{
  ℕ, ◌+◌, ◌-◌, ◌%◌, Bool, true, false, not, ◌&&◌, Option, none, some, List, [], ◌∷◌, ◌++◌, ◌==◌,
  ltb, if◌then◌else◌, add32, update, Exec, ok, ◌>>=◌, ◌>>◌, kassert,
}
use weenix_kernel_implementa.Proc.Sched.{erase, is_none}
use weenix_kernel_implementa.Proc.Kmutex.{points_to}

-- Which operations an object has: those of K3/anon.c, of K3/shadow.c, or those of a vnode.
pub data MmobjOps : Type 0 where
  anon_mmobj_ops shadow_mmobj_ops vnode_mmobj_ops : MmobjOps

-- mmobj_t
pub record Mmobj : Type 0 where
  pub mmo_ops : MmobjOps
  pub mmo_refcount : ℕ
  pub mmo_nrespages : ℕ
  pub mmo_respages : List ℕ
  pub mmo_shadowed : Option ℕ
  pub mmo_bottom_obj : ℕ

-- pframe_t, with the bits of pf_flags; `pf_data` is the page at pf_addr.
pub record Pframe : Type 0 where
  pub pf_obj : Option ℕ
  pub pf_pagenum : ℕ
  pub pf_busy : Bool
  pub pf_dirty : Bool
  pub pf_pincount : ℕ
  pub pf_data : ℕ → ℕ

-- The variables of K3/pframe.c and the objects. `free_frames` are the addresses that the allocators
-- still have, `env` is what other parts of the kernel keep.
pub record Memory (Env : Type 0) : Type 0 where
  pub objs : ℕ → Mmobj
  pub frames : ℕ → Pframe
  pub pframe_hash : ℕ → List ℕ
  pub alloc_list : List ℕ
  pub pinned_list : List ℕ
  pub nallocated : ℕ
  pub npinned : ℕ
  pub free_frames : List ℕ
  pub env : Env

-- hash_page(obj, pagenum)
abbrev pub hash_page : ℕ → ℕ → ℕ → ℕ
hash_page size o pagenum = add32 o pagenum % size

module _ {Env : Type 0} where
  abbrev pub set_frame : ℕ → Pframe → Memory Env → Memory Env
  set_frame f pf s = record s { frames = update s.frames f pf }

  abbrev pub set_obj : ℕ → Mmobj → Memory Env → Memory Env
  set_obj o obj s = record s { objs = update s.objs o obj }

  abbrev pub is_pinned : ℕ → Memory Env → Bool
  is_pinned f s = ltb 0 (s.frames f).pf_pincount

  abbrev pub with_env : (Env → Env) → Memory Env → Memory Env
  with_env g s = record s { env = g s.env }

  abbrev pub set_busy : Bool → ℕ → Memory Env → Memory Env
  set_busy b f s = set_frame f (record (s.frames f) { pf_busy = b }) s

  abbrev pub set_dirty : Bool → ℕ → Memory Env → Memory Env
  set_dirty b f s = set_frame f (record (s.frames f) { pf_dirty = b }) s

  -- memcpy(pf->pf_addr, ..., PAGE_SIZE)
  abbrev pub set_data : (ℕ → ℕ) → ℕ → Memory Env → Memory Env
  set_data d f s = set_frame f (record (s.frames f) { pf_data = d }) s

  -- The loop of `pframe_get_resident` over a chain of the table.
  unfoldable pub find_frame : ℕ → ℕ → List ℕ → Memory Env → Option ℕ
  find_frame o pagenum [] s = none
  find_frame o pagenum (f ∷ fs) s =
      if points_to (s.frames f).pf_obj o && (pagenum == (s.frames f).pf_pagenum)
      then some f
      else find_frame o pagenum fs s

  -- An unpinned frame that is asked for goes to the back of the allocated list.
  pub touch : Option ℕ → Memory Env → Option ℕ × Memory Env
  touch none s = (none, s)
  touch (some f) s =
      if is_pinned f s
      then (some f, s)
      else (some f, record s { alloc_list = erase f s.alloc_list ++ f ∷ [] })

  pub pframe_get_resident : ℕ → ℕ → ℕ → Memory Env → Option ℕ × Memory Env
  unfolding find_frame touch
  pframe_get_resident size o pagenum s =
      touch (find_frame o pagenum (s.pframe_hash (hash_page size o pagenum)) s) s

  -- o->mmo_ops->ref(o), which is the same for all kinds of objects.
  pub obj_ref : ℕ → Memory Env → Exec (Memory Env)
  obj_ref o s = do
    kassert (ltb 0 (s.objs o).mmo_refcount)
    ok (set_obj o (record (s.objs o) { mmo_refcount = (s.objs o).mmo_refcount + 1 }) s)

  -- The new frame, or NULL.
  pub alloc_frame : ℕ → ℕ → ℕ → List ℕ → Memory Env → Exec (Option ℕ × Memory Env)
  unfolding obj_ref
  alloc_frame size o pagenum [] s = ok (none, s)
  alloc_frame size o pagenum (f ∷ free) s = do
    let pf : Pframe = record (s.frames f) {
      pf_obj = some o;
      pf_pagenum = pagenum;
      pf_busy = false;
      pf_dirty = false;
      pf_pincount = 0;
    }
    let h = hash_page size o pagenum
    let s1 = set_frame f pf (record s {
      free_frames = free;
      nallocated = s.nallocated + 1;
      alloc_list = s.alloc_list ++ f ∷ [];
      pframe_hash = update s.pframe_hash h (f ∷ s.pframe_hash h);
    })
    s2 ← obj_ref o s1
    let obj = s2.objs o
    let s3 =
        set_obj o
          (record obj {
            mmo_nrespages = obj.mmo_nrespages + 1;
            mmo_respages = f ∷ obj.mmo_respages;
          })
          s2
    ok (some f, s3)

  pub pframe_alloc : ℕ → ℕ → ℕ → Memory Env → Exec (Option ℕ × Memory Env)
  unfolding alloc_frame
  pframe_alloc size o pagenum s = alloc_frame size o pagenum s.free_frames s

  pub pframe_pin : ℕ → Memory Env → Exec (Memory Env)
  pframe_pin f s = do
    let pf = s.frames f
    kassert (not (is_none pf.pf_obj))
    let s1 =
        (if is_pinned f s then s else record s {
          alloc_list = erase f s.alloc_list;
          pinned_list = s.pinned_list ++ f ∷ [];
          nallocated = s.nallocated - 1;
          npinned = s.npinned + 1;
        })
    ok (set_frame f (record pf { pf_pincount = pf.pf_pincount + 1 }) s1)

  pub pframe_unpin : ℕ → Memory Env → Exec (Memory Env)
  pframe_unpin f s = do
    let pf = s.frames f
    kassert (not (is_none pf.pf_obj))
    kassert (is_pinned f s)
    let s1 = set_frame f (record pf { pf_pincount = pf.pf_pincount - 1 }) s
    ok (
        if is_pinned f s1 then s1 else record s1 {
          pinned_list = erase f s1.pinned_list;
          alloc_list = s1.alloc_list ++ f ∷ [];
          nallocated = s1.nallocated + 1;
          npinned = s1.npinned - 1;
        })
