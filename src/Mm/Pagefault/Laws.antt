-- ===== src/Mm/Pagefault/Laws.antt =====
-- Page faults: who is killed, and what a write to a private page does.
use weenix_kernel_implementa.Common.{
  ℕ, suc, ◌<◌, ◌≡◌, refl, ◌∙◌, true, false, none, some, List, ◌∷◌, ◌==◌, add32, sub32, length, ok,
  arith,
}
use weenix_kernel_implementa.Proc.Sched.Fifo.{has}
use weenix_kernel_implementa.Vm.Layout.{Layout}
use weenix_kernel_implementa.Vm.Vmmap.{Vmarea, Vmmap, vmmap_lookup}
use weenix_kernel_implementa.Mm.Frames.{Memory, shadow_mmobj_ops, with_env}
use weenix_kernel_implementa.Mm.Frames.Resident.{frame_of}
use weenix_kernel_implementa.Mm.Lookup.{MmEnv, Free}
use weenix_kernel_implementa.Mm.Lookup.Chain.{IsChain, first_of}
use weenix_kernel_implementa.Mm.Lookup.Copy.{lookup_write-Copied}
use weenix_kernel_implementa.Mm.Put.Dirty.{Dirtied, pinned_dirty}
use weenix_kernel_implementa.Mm.Pagefault.{
  Cause, PageTable, mapped, refused, prepare, map_found, fault_in, fault_area, handle_pagefault,
}

module _ (mm : MmEnv) (pt : PageTable mm.Env) where
  prepare-Dirtied :
      (f o : ℕ) (s : Memory mm.Env)
      → (s.frames f).pf_obj ≡ some o
      → (s.frames f).pf_busy ≡ false
      → (s.objs o).mmo_ops ≡ shadow_mmobj_ops
      → (s' : Memory mm.Env) × (prepare mm pt true f s ≡ ok s') × Dirtied f s s'
  unfolding prepare
  prepare-Dirtied f o s used idle ops =
      let (s1, s2, s', pinned, dirty, unpinned, same) = pinned_dirty mm f o s used idle ops in
      (s', rw (pinned, dirty) unpinned, same)

  -- The page of the object at an address of an area.
  abbrev pub page_of : Layout → ℕ → Vmarea → ℕ
  page_of l vaddr vma = add32 (sub32 (l.addr_to_pn vaddr) vma.vma_start) vma.vma_off

  -- A write to an address whose area may be written and whose object is a shadow object without the
  -- page, while an object below it has the page resident, a frame is free and the fuel exceeds the
  -- length of the chain: the page fault maps a new frame, for writing. The frame holds the data of the
  -- first object below that has the page and is dirty, its pin count is one, and no other frame has
  -- changed, so that those who share the objects below keep their data.
  pub write_fault-Copied :
      (l : Layout) (drop : Free mm) (fuel vaddr o f source : ℕ) (map : Vmmap) (cause : Cause)
      (vma : Vmarea) (below free : List ℕ) (s : Memory mm.Env)
      → vmmap_lookup map (l.addr_to_pn vaddr) ≡ some vma
      → cause.write ≡ true
      → vma.vma_prot.write ≡ true
      → vma.vma_obj ≡ some o
      → (s.objs o).mmo_ops ≡ shadow_mmobj_ops
      → 0 < (s.objs o).mmo_refcount
      → frame_of mm.hash_size o (page_of l vaddr vma) s ≡ none
      → IsChain s o below
      → has o below ≡ false
      → first_of mm.hash_size (page_of l vaddr vma) below s ≡ some source
      → s.free_frames ≡ f ∷ free
      → (s.frames f).pf_obj ≡ none
      → length below < fuel
      → (s' : Memory mm.Env) × (env : mm.Env) × (handle_pagefault mm pt l drop
            (suc fuel)
            map
            vaddr
            cause
            s
          ≡ ok (mapped f s'))
        × (s'.env
            ≡ pt.tlb_flush
                (pt.page_align_down vaddr)
                (pt.pt_map (pt.page_align_down vaddr) f true env))
        × ((s'.frames f).pf_data ≡ (s.frames source).pf_data)
        × ((s'.frames f).pf_dirty ≡ true)
        × ((s'.frames f).pf_pincount ≡ 1)
        × ((j : ℕ) → (j == f) ≡ false → s'.frames j ≡ s.frames j)
  unfolding handle_pagefault fault_area fault_in map_found refused
  write_fault-Copied l drop fuel vaddr o f source map cause vma below free s there writes may obj
        ops counted missing chain apart first left unused enough =
      let p = page_of l vaddr vma in
      let (s1, got, w) =
        lookup_write-Copied mm drop fuel o p f source below free s ops counted missing chain apart
          first left unused enough in
      let (s2, ready, d) = prepare-Dirtied f o s1 w.pf_obj w.idle w.ops in
      let granted : refused vma.vma_prot cause ≡ false = ground arith in
      let base = pt.page_align_down vaddr in
      (
        with_env (λ e. pt.tlb_flush base (pt.pt_map base f true e)) s2,
        s2.env,
        rw (there, fault_area, granted, fault_in, obj, writes, got, map_found, writes, ready) refl,
        refl,
        d.contents ∙ w.contents,
        d.dirty,
        d.pins ∙ w.pins,
        λ j differs. d.others j differs ∙ w.others j differs,
      )
