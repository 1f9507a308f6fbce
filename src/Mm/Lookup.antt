-- ===== src/Mm/Lookup.antt =====
-- `pframe_get` and `pframe_lookup` of K3/pframe.c, with the operations of K3/anon.c and K3/shadow.c
-- that look up and fill a page. These call each other in a circle through `mmo_ops`; a function that
-- needs another takes it as an argument (`look` for `pframe_lookup`, `free` for `pframe_free`), and
-- the circle is closed with fuel, which bounds the depth of the calls. To run out of fuel counts as
-- `panic`.
pub mod Chain
pub mod Filled
pub mod Copy
pub mod Present
use weenix_kernel_implementa.Common.{
  ℕ, zero, suc, ◌+◌, ◌-◌, Bool, true, false, not, ◌&&◌, ◌||◌, Option, none, some, List, [], ◌∷◌,
  ◌==◌, ltb, if◌then◌else◌, update, Exec, ok, panic, ◌>>=◌, ◌>>◌, kassert, deref,
}
use weenix_kernel_implementa.Proc.Sched.{erase, is_none}
use weenix_kernel_implementa.Mm.Frames.{
  MmobjOps, anon_mmobj_ops, shadow_mmobj_ops, vnode_mmobj_ops, Mmobj, Pframe, Memory, set_frame,
  with_env, set_busy, set_dirty, set_data, is_pinned, pframe_get_resident, pframe_alloc, pframe_pin,
  pframe_unpin,
}

-- PF_HASH_SIZE, and what other parts of the kernel do: the wake-up of those who wait for a frame,
-- the TLB and the page tables, and the operations of a vnode's object, which may fail.
pub record MmEnv : Type 1 where
  pub Env : Type 0
  pub hash_size : ℕ
  pub wake : ℕ → Env → Env
  pub tlb_flush : ℕ → Env → Env
  pub remove_from_pts : ℕ → ℕ → Env → Env
  pub vnode_fill : ℕ → ℕ → Env → Option (ℕ → ℕ) × Env
  pub vnode_dirty : ℕ → ℕ → Env → Bool × Env
  pub vnode_clean : ℕ → ℕ → (ℕ → ℕ) → Env → Bool × Env
  pub vnode_put : ℕ → Env → Env

-- The outcome of a lookup: a frame, a failure, or a sleep until a busy frame is ready.
pub data PageResult : Type 0 where
  page : ℕ → PageResult
  fault : PageResult
  waits : ℕ → PageResult

module _ (mm : MmEnv) where
  open mm use {
    Env, hash_size, wake, tlb_flush, remove_from_pts, vnode_fill, vnode_dirty, vnode_clean,
    vnode_put,
  }

  -- pframe_lookup(o, pagenum, forwrite, &pf), and pframe_free(pf)
  abbrev pub Lookup : Type 0
  Lookup = ℕ → ℕ → Bool → Memory Env → Exec (PageResult × Memory Env)

  abbrev pub Free : Type 0
  Free = ℕ → Memory Env → Exec (Memory Env)

  abbrev pub resident : ℕ → ℕ → Memory Env → Option ℕ × Memory Env
  resident = pframe_get_resident hash_size

  abbrev pub is_idle_frame : ℕ → Memory Env → Bool
  is_idle_frame f s = (s.frames f).pf_busy && not (is_pinned f s)

  pub anon_fillpage : ℕ → Memory Env → Exec (Bool × Memory Env)
  anon_fillpage f s = do
    kassert (is_idle_frame f s)
    s1 ← pframe_pin f s
    s2 ← pframe_unpin f (set_data (λ i. 0) f s1)
    ok (true, s2)

  -- The loop of `shadow_fillpage` from object `o` on: a resident page of an object below it.
  pub fill_walk : ℕ → ℕ → ℕ → Memory Env → Exec (Option ℕ × Memory Env)
  fill_walk zero o pagenum s = panic
  fill_walk (suc fuel) o pagenum s = elim (s.objs o).mmo_shadowed [
    | none ↦ ok (none, s)
    | some below ↦
        let r = resident below pagenum s in
        elim r.0 [ none ↦ fill_walk fuel below pagenum r.1 | some f ↦ ok (some f, r.1) ]
  ]

  abbrev pub copy_from : ℕ → ℕ → Memory Env → Exec (Bool × Memory Env)
  copy_from source f s = do s1 ← pframe_pin f s; ok (true, set_data (s1.frames source).pf_data f s1)

  -- The page that `pframe_lookup` found in the bottom object. A sleep there, within a fill, is outside
  -- the model, as running out of fuel is.
  pub fill_bottom : ℕ → PageResult × Memory Env → Exec (Bool × Memory Env)
  fill_bottom f (page source, s) = copy_from source f s
  fill_bottom f (fault, s) = ok (false, s)
  fill_bottom f (waits g, s) = panic

  pub fill_found : Lookup → ℕ → ℕ → Option ℕ × Memory Env → Exec (Bool × Memory Env)
  unfolding fill_bottom
  fill_found look o f (some source, s) = copy_from source f s
  fill_found look o f (none, s) = do
    found ← look (s.objs o).mmo_bottom_obj (s.frames f).pf_pagenum false s
    fill_bottom f found

  pub shadow_fillpage : ℕ → Lookup → ℕ → ℕ → Memory Env → Exec (Bool × Memory Env)
  unfolding fill_walk fill_found
  shadow_fillpage fuel look o f s = do
    kassert (is_idle_frame f s)
    found ← fill_walk fuel o (s.frames f).pf_pagenum s
    fill_found look o f found

  abbrev pub vnode_filled : ℕ → Option (ℕ → ℕ) × Env → Memory Env → Bool × Memory Env
  vnode_filled f (none, env) s = (false, record s { env = env })
  vnode_filled f (some d, env) s = (true, set_data d f (record s { env = env }))

  -- pf->pf_obj->mmo_ops->fillpage(pf->pf_obj, pf); false for a negative result.
  pub fillpage : ℕ → Lookup → ℕ → ℕ → Memory Env → Exec (Bool × Memory Env)
  unfolding anon_fillpage shadow_fillpage
  fillpage fuel look o f s = elim (s.objs o).mmo_ops [
    | anon_mmobj_ops ↦ anon_fillpage f s
    | shadow_mmobj_ops ↦ shadow_fillpage fuel look o f s
    | vnode_mmobj_ops ↦ ok (vnode_filled f (vnode_fill o (s.frames f).pf_pagenum s.env) s)
  ]

  pub pframe_fill : ℕ → Lookup → ℕ → Memory Env → Exec (Bool × Memory Env)
  unfolding fillpage
  pframe_fill fuel look f s = do
    o ← deref (s.frames f).pf_obj
    (filled, s1) ← fillpage fuel look o f (set_busy true f s)
    ok (filled, with_env (wake f) (set_busy false f s1))

  -- What `pframe_get` does with a new frame; without one its assertion fails.
  pub get_new : ℕ → Lookup → Free → Option ℕ × Memory Env → Exec (PageResult × Memory Env)
  unfolding pframe_fill
  get_new fuel look free (none, s) = panic
  get_new fuel look free (some f, s) = do
    (filled, s1) ← pframe_fill fuel look f s
    if filled
        then (do kassert (not (s1.frames f).pf_busy); ok (page f, s1))
        else (do s2 ← free f s1; kassert (not (s2.frames f).pf_busy); ok (fault, s2))

  pub pframe_get : ℕ → Lookup → Free → ℕ → ℕ → Memory Env → Exec (PageResult × Memory Env)
  unfolding get_new
  pframe_get fuel look free o pagenum s =
      let r = resident o pagenum s in
      elim r.0 [
        | some f ↦ ok ((if (r.1.frames f).pf_busy then waits f else page f), r.1)
        | none ↦ pframe_alloc hash_size o pagenum r.1 >>= get_new fuel look free
      ]

  -- The loop of `shadow_lookuppage`: a resident page of an object above the last one, or the last one.
  pub read_walk : ℕ → ℕ → ℕ → Memory Env → Exec ((Option ℕ × ℕ) × Memory Env)
  read_walk zero o pagenum s = panic
  read_walk (suc fuel) o pagenum s = elim (s.objs o).mmo_shadowed [
    | none ↦ ok ((none, o), s)
    | some below ↦
        let r = resident o pagenum s in
        elim r.0 [ none ↦ read_walk fuel below pagenum r.1 | some f ↦ ok ((some f, o), r.1) ]
  ]

  abbrev pub checked : ℕ → PageResult × Memory Env → Exec (PageResult × Memory Env)
  checked pagenum (page f, s) = do
    kassert (pagenum == (s.frames f).pf_pagenum && not (s.frames f).pf_busy)
    ok (page f, s)
  checked pagenum (r, s) = ok (r, s)

  pub read_found : Lookup → ℕ → (Option ℕ × ℕ) × Memory Env → Exec (PageResult × Memory Env)
  read_found look pagenum ((some f, o), s) = ok (page f, s)
  read_found look pagenum ((none, o), s) = look o pagenum false s >>= checked pagenum

  abbrev pub dirtied : PageResult × Memory Env → PageResult × Memory Env
  dirtied (page f, s) = (page f, set_dirty true f s)
  dirtied (r, s) = (r, s)

  pub shadow_lookuppage :
      ℕ → Lookup → Free → ℕ → ℕ → Bool → Memory Env → Exec (PageResult × Memory Env)
  unfolding read_walk read_found pframe_get
  shadow_lookuppage fuel look free o pagenum forwrite s = elim forwrite [
    | false ↦ read_walk fuel o pagenum s >>= read_found look pagenum
    | true ↦
        let r = resident o pagenum s in
        elim r.0 [
          | some f ↦ ok (page f, r.1)
          | none ↦ pframe_get fuel look free o pagenum r.1 >>= λ got. ok (dirtied got)
        ]
  ]

  -- pframe_lookup: `anon_lookuppage`, `shadow_lookuppage`, or that of a vnode, which is `pframe_get`.
  pub pframe_lookup : Free → ℕ → ℕ → ℕ → Bool → Memory Env → Exec (PageResult × Memory Env)
  unfolding shadow_lookuppage
  pframe_lookup free zero o pagenum forwrite s = panic
  pframe_lookup free (suc fuel) o pagenum forwrite s = elim (s.objs o).mmo_ops [
    | shadow_mmobj_ops ↦ shadow_lookuppage fuel (pframe_lookup free fuel) free o pagenum forwrite s
    | anon_mmobj_ops ↦ pframe_get fuel (pframe_lookup free fuel) free o pagenum s
    | vnode_mmobj_ops ↦ pframe_get fuel (pframe_lookup free fuel) free o pagenum s
  ]
