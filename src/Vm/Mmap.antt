-- ===== src/Vm/Mmap.antt =====
-- `do_mmap` and `do_munmap` of K3/mmap.c. The file descriptors are a parameter: `fget` and `fput` of
-- fs/file.c on a file with its vnode's operation `mmap`.
pub mod Laws
use weenix_kernel_implementa.Common.{
  ℕ, ◌+◌, ◌/◌, Bool, true, false, not, ◌&&◌, ◌||◌, Option, none, some, ltb, leb, ◌==◌, ◌^◌,
  if◌then◌else◌, add32, sub32, Exec, ok, ◌>>=◌,
}
use weenix_kernel_implementa.Vm.Layout.{Layout, Prot, MapFlags}
use weenix_kernel_implementa.Vm.Mmobj.{MmobjOps}
use weenix_kernel_implementa.Vm.Vmmap.{Vmarea, Vmmap, hilo}
use weenix_kernel_implementa.Vm.Vmmap.Remove.{vmmap_remove}
use weenix_kernel_implementa.Vm.Vmmap.Map.{Mmap, vmmap_map}

-- A return of 0 with `*ret`, of -1, of -EINVAL or of -EBADF.
pub data MmapResult : Type 0 where
  mapped_at : ℕ → MmapResult
  no_room einval ebadf : MmapResult

-- A file as `do_mmap` uses it; `read_only` says that f_mode is FMODE_READ.
pub record MappedFile (mm : MmobjOps) (l : Layout) : Type 0 where
  pub f_addr : ℕ
  pub read_only : Bool
  pub f_mmap : Mmap mm l

pub record FileTable (mm : MmobjOps) (l : Layout) : Type 0 where
  pub nfiles : ℕ
  pub fget : ℕ → mm.Store → Option (MappedFile mm l) × mm.Store
  pub fput : ℕ → mm.Store → mm.Store
  pub tlb_flush_range : ℕ → ℕ → mm.Store → mm.Store

-- (len-1)/PAGE_SIZE + 1
unfoldable pub page_count : Layout → ℕ → ℕ
page_count l len = sub32 len 1 / l.page_size + 1

unfoldable pub bad_length : Layout → ℕ → Bool
bad_length l len = ltb (sub32 l.user_mem_high l.user_mem_low) len || len == 0

module _ (mm : MmobjOps) (l : Layout) where
  -- The page table and the TLB after a mapping was made.
  pub flush_area : FileTable mm l → ℕ → Option Vmarea → mm.Store → MmapResult × mm.Store
  flush_area ft len none st = (no_room, st)
  flush_area ft len (some area) st =
      let start = l.pn_to_addr area.vma_start in
      let st1 = mm.pt_unmap_range start (add32 start (l.page_align_up len)) st in
      (mapped_at start, ft.tlb_flush_range start (l.page_align_up len / l.page_size) st1)

  pub map_file :
      FileTable mm l
      → Vmmap
      → ℕ
      → ℕ
      → Prot
      → MapFlags
      → ℕ
      → Option (MappedFile mm l) × mm.Store
      → Exec (MmapResult × Vmmap × mm.Store)
  unfolding flush_area
  map_file ft m addr_var len prot flags off (none, st) = ok (ebadf, m, st)
  map_file ft m addr_var len prot flags off (some file, st) =
      if flags.shared && (prot.write && file.read_only)
      then ok (einval, m, ft.fput file.f_addr st)
      else (do
        (area, m', st1) ←
            vmmap_map mm l m (some file.f_mmap) addr_var (page_count l len) prot flags off hilo st
        let (r, st2) = flush_area ft len area (ft.fput file.f_addr st1)
        ok (r, m', st2))

  -- What follows the tests of the flags, the length, the offset and a fixed address.
  pub map_at :
      FileTable mm l
      → Vmmap
      → ℕ
      → ℕ
      → Prot
      → MapFlags
      → ℕ
      → ℕ
      → mm.Store
      → Exec (MmapResult × Vmmap × mm.Store)
  unfolding map_file
  map_at ft m addr_var len prot flags fd off st =
      if flags.anon
      then (do
        (area, m', st1) ← vmmap_map mm l m none addr_var (page_count l len) prot flags off hilo st
        let (r, st2) = flush_area ft len area st1
        ok (r, m', st2))
      else if leb (2 ^ 31) fd || ltb ft.nfiles fd
      then ok (ebadf, m, st)
      else map_file ft m addr_var len prot flags off (ft.fget fd st)

  pub do_mmap :
      FileTable mm l
      → Vmmap
      → ℕ
      → ℕ
      → Prot
      → MapFlags
      → ℕ
      → ℕ
      → mm.Store
      → Exec (MmapResult × Vmmap × mm.Store)
  unfolding map_at
  do_mmap ft m addr len prot flags fd off st =
      if not flags.shared && not flags.private
      then ok (einval, m, st)
      else if flags.shared && flags.private
      then ok (einval, m, st)
      else if bad_length l len
      then ok (einval, m, st)
      else if not (l.page_aligned off)
      then ok (einval, m, st)
      else if not flags.fixed
      then map_at ft m 0 len prot flags fd off st
      else if ltb l.user_mem_high (add32 addr len)
      then ok (einval, m, st)
      else if ltb addr l.user_mem_low
      then ok (einval, m, st)
      else map_at ft m (l.addr_to_pn addr) len prot flags fd off st

  -- `none` for 0, `some einval` for an error.
  pub do_munmap : Vmmap → ℕ → ℕ → mm.Store → Exec (Option MmapResult × Vmmap × mm.Store)
  do_munmap m addr len st =
      if bad_length l len || (ltb l.user_mem_high (add32 addr len) || ltb addr l.user_mem_low)
      then ok (some einval, m, st)
      else (do
        (m', st1) ← vmmap_remove mm l m (l.addr_to_pn addr) (page_count l len) st
        ok (none, m', mm.tlb_flush_all st1))
