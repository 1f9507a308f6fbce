-- ===== src/Mm/Copying.antt =====
-- `vmmap_read` and `vmmap_write` of K3/vmmap.c, and `copy_from_user` and `copy_to_user` of
-- K3/access.c. They copy between a buffer of the kernel and the pages of an address space, page by
-- page. The functions ignore the result of `pframe_lookup` and use the frame at once, so that a page
-- without an area or a frame is a use of NULL.
pub mod Single
pub mod Pages
pub mod User
use weenix_kernel_implementa.Common.{
  ℕ, zero, suc, ◌+◌, ◌-◌, Bool, true, false, ◌&&◌, Option, none, some, ◌==◌, ltb, leb,
  if◌then◌else◌, add32, sub32, Exec, ok, panic, ◌>>=◌, deref,
}
use weenix_kernel_implementa.Vm.Layout.{Layout, Prot}
use weenix_kernel_implementa.Vm.Vmmap.{Vmmap, vmmap_lookup}
use weenix_kernel_implementa.Vm.Access.{range_perm}
use weenix_kernel_implementa.Mm.Frames.{Memory, set_data, with_env}
use weenix_kernel_implementa.Mm.Lookup.{MmEnv, PageResult, page, fault, waits, Free, pframe_lookup}
use weenix_kernel_implementa.Mm.Put.{pframe_dirty}

-- The call is through with a value, it failed with EFAULT, or it sleeps until a busy frame is ready.
pub data Transfer (Env A : Type 0) : Type 0 where
  finished : A → Memory Env → Transfer Env A
  efault : Memory Env → Transfer Env A
  asleep : ℕ → Memory Env → Transfer Env A

-- memcpy(dst + at, src + from, n)
abbrev pub memcpy : (ℕ → ℕ) → ℕ → (ℕ → ℕ) → ℕ → ℕ → ℕ → ℕ
memcpy dst at src from n i = if leb at i && ltb i (at + n) then src (from + i - at) else dst i

-- `page_offset` is PAGE_OFFSET, `fuel` bounds the depth of `pframe_lookup`, and `free` is `pframe_free`. The loop of `range_perm`
-- gets one step more than the range has bytes.
module _ (mm : MmEnv) (page_offset : ℕ → ℕ) (l : Layout) (free : Free mm) (fuel : ℕ)
    (m : Vmmap) where
  -- vmmap_lookup(map, pn), and pframe_lookup of the page of its object, for writing.
  pub user_frame : ℕ → Memory mm.Env → Exec (PageResult × Memory mm.Env)
  user_frame pn s = deref (vmmap_lookup m pn) >>= λ vma. deref vma.vma_obj >>= λ o.
      pframe_lookup mm free fuel o (add32 (sub32 pn vma.vma_start) vma.vma_off) true s

  pub with_frame :
      {A : Type 0}
      → (ℕ → Memory mm.Env → Exec (Transfer mm.Env A))
      → PageResult × Memory mm.Env
      → Exec (Transfer mm.Env A)
  with_frame use_frame (page f, s) = use_frame f s
  with_frame use_frame (fault, s) = panic
  with_frame use_frame (waits f, s) = ok (asleep f s)

  -- The loop of `vmmap_read` over the `n` pages from `pn` on; `size` is PAGE_OFFSET(vaddr + count).
  pub read_pages : ℕ → ℕ → ℕ → ℕ → (ℕ → ℕ) → Memory mm.Env → Exec (Transfer mm.Env (ℕ → ℕ))
  unfolding user_frame with_frame
  read_pages zero pn size at buf s = ok (finished buf s)
  read_pages (suc n) pn size at buf s =
      user_frame pn s
      >>= with_frame (λ f s1.
        read_pages n (pn + 1) size (at + size) (memcpy buf at (s1.frames f).pf_data 0 size) s1)

  pub vmmap_read : ℕ → (ℕ → ℕ) → ℕ → Memory mm.Env → Exec (Transfer mm.Env (ℕ → ℕ))
  unfolding read_pages
  vmmap_read vaddr buf count s =
      let first = l.addr_to_pn vaddr in
      let last = l.addr_to_pn (add32 vaddr count) in
      let at = page_offset vaddr in
      let head = l.page_size - at in
      if first == last
      then user_frame first s
        >>= with_frame (λ f s1. ok (finished (memcpy buf 0 (s1.frames f).pf_data at count) s1))
      else (if leb first last
          then user_frame first s
            >>= with_frame (λ f s1.
              read_pages (last - first) (first + 1) (page_offset (add32 vaddr count)) head
                (memcpy buf 0 (s1.frames f).pf_data at head) s1)
          else ok (finished buf s))

  -- memcpy into the frame at `at`, from the buffer at `from`, and pframe_dirty.
  pub store : ℕ → (ℕ → ℕ) → ℕ → ℕ → ℕ → Memory mm.Env → Exec (Memory mm.Env)
  store at buf from n f s =
      pframe_dirty mm f (set_data (memcpy (s.frames f).pf_data at buf from n) f s) >>= λ r. ok r.1

  -- The loop of `vmmap_write`; `size` is PAGE_OFFSET(vaddr - 1 + count).
  pub write_pages : ℕ → ℕ → ℕ → ℕ → (ℕ → ℕ) → Memory mm.Env → Exec (Transfer mm.Env (Unit {0}))
  unfolding user_frame with_frame store
  write_pages zero pn size from buf s = ok (finished tt s)
  write_pages (suc n) pn size from buf s =
      user_frame pn s
      >>= with_frame
          (λ f s1. store 0 buf from size f s1 >>= write_pages n (pn + 1) size (from + size) buf)

  pub vmmap_write : ℕ → (ℕ → ℕ) → ℕ → Memory mm.Env → Exec (Transfer mm.Env (Unit {0}))
  unfolding write_pages
  vmmap_write vaddr buf count s =
      let first = l.addr_to_pn vaddr in
      let end = add32 (sub32 vaddr 1) count in
      let last = l.addr_to_pn end in
      let at = page_offset vaddr in
      let head = l.page_size - at in
      if first == last
      then user_frame first s
        >>= with_frame (λ f s1. store at buf 0 count f s1 >>= λ s2. ok (finished tt s2))
      else (if leb first last
          then user_frame first s
            >>= with_frame (λ f s1.
              store at buf 0 head f s1
              >>= write_pages (last - first) (first + 1) (page_offset end) head buf)
          else ok (finished tt s))

  pub copy_from_user : (ℕ → ℕ) → ℕ → ℕ → Memory mm.Env → Exec (Transfer mm.Env (ℕ → ℕ))
  unfolding vmmap_read
  copy_from_user kaddr uaddr nbytes s =
      deref (
        range_perm l m (nbytes + 1) uaddr nbytes
          record { read = true; write = false; exec = false })
      >>= λ granted. if granted then vmmap_read uaddr kaddr nbytes s else ok (efault s)

  pub copy_to_user : ℕ → (ℕ → ℕ) → ℕ → Memory mm.Env → Exec (Transfer mm.Env (Unit {0}))
  unfolding vmmap_write
  copy_to_user uaddr kaddr nbytes s =
      deref (
        range_perm l m (nbytes + 1) uaddr nbytes
          record { read = false; write = true; exec = false })
      >>= λ granted. if granted then vmmap_write uaddr kaddr nbytes s else ok (efault s)
