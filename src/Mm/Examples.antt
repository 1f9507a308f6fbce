-- ===== src/Mm/Examples.antt =====
-- The theorems on page frames where object 1 shadows the anonymous object 2, whose page 3 is in frame
-- 10; frames 11 and 12 are free.
use weenix_kernel_implementa.Common.{
  ◌*◌, ◌/◌, ◌%◌, ℕ, ◌+◌, ◌≡◌, refl, true, false, none, some, [], ◌∷◌, ◌==◌, if◌then◌else◌, ok,
  arith,
}
use weenix_kernel_implementa.Vm.Layout.{Layout}
use weenix_kernel_implementa.Vm.Vmmap.{Vmarea, Vmmap, lookup_area, vmmap_lookup}
use weenix_kernel_implementa.Mm.Pagefault.{Cause, PageTable, mapped, handle_pagefault}
use weenix_kernel_implementa.Mm.Pagefault.Laws.{write_fault-Copied}
use weenix_kernel_implementa.Proc.Sched.Fifo.{has}
use weenix_kernel_implementa.Mm.Frames.{
  Mmobj, Pframe, Memory, anon_mmobj_ops, shadow_mmobj_ops, find_frame, pframe_get_resident,
}
use weenix_kernel_implementa.Mm.Frames.Lists.{IsListed}
use weenix_kernel_implementa.Mm.Frames.Counts.{frames-IsListed}
use weenix_kernel_implementa.Mm.Lookup.{MmEnv, page, pframe_lookup}
use weenix_kernel_implementa.Mm.Lookup.Copy.{Written, lookup_write-Copied}

abbrev pub mm_env : MmEnv
mm_env = record {
  Env = ℕ;
  hash_size = 4;
  wake = λ f e. e + 1;
  tlb_flush = λ f e. e;
  remove_from_pts = λ o f e. e;
  vnode_fill = λ o p e. (none, e);
  vnode_dirty = λ o p e. (true, e);
  vnode_clean = λ o p d e. (true, e);
  vnode_put = λ o e. e;
}

abbrev shadow_obj : Mmobj
shadow_obj = record {
  mmo_ops = shadow_mmobj_ops;
  mmo_refcount = 1;
  mmo_nrespages = 0;
  mmo_respages = [];
  mmo_shadowed = some 2;
  mmo_bottom_obj = 2;
}

abbrev anon_obj : Mmobj
anon_obj = record {
  mmo_ops = anon_mmobj_ops;
  mmo_refcount = 2;
  mmo_nrespages = 1;
  mmo_respages = 10 ∷ [];
  mmo_shadowed = none;
  mmo_bottom_obj = 2;
}

abbrev frame_at : ℕ → Pframe
frame_at f = record {
  pf_obj = if f == 10 then some 2 else none;
  pf_pagenum = 3;
  pf_busy = false;
  pf_dirty = false;
  pf_pincount = 0;
  pf_data = λ i. f + i;
}

abbrev memory : Memory ℕ
memory = record {
  objs = λ o. if o == 1 then shadow_obj else anon_obj;
  frames = frame_at;
  pframe_hash = λ h. if h == 1 then 10 ∷ [] else [];
  alloc_list = 10 ∷ [];
  pinned_list = [];
  nallocated = 1;
  npinned = 0;
  free_frames = 11 ∷ 12 ∷ [];
  env = 0;
}

memory-IsListed : IsListed memory
unfolding has
memory-IsListed = record {
  allocated = record { size = refl; distinct = (refl, tt); members = λ f. ground arith };
  pins = record { size = refl; distinct = tt; members = λ f. ground arith };
  free_distinct = (refl, (refl, tt));
  free_unused = λ f e. ground arith;
}

frames-IsListed_example : IsListed (pframe_get_resident 4 2 3 memory).1
frames-IsListed_example = (frames-IsListed memory memory-IsListed).0 4 2 3

lookup_write-Copied_example :
    (s' : Memory ℕ) × (pframe_lookup mm_env (λ f s. ok s) 4 1 3 true memory ≡ ok (page 11, s'))
    × Written mm_env (λ f s. ok s) 4 1 3 11 10 memory s'
unfolding find_frame has
lookup_write-Copied_example =
    lookup_write-Copied mm_env (λ f s. ok s) 3 1 3 11 10 (2 ∷ []) (12 ∷ []) memory refl
      (omega arith) refl (refl, refl) refl refl refl refl (omega arith)

-- Page 12 of the address space is page 3 of object 1.
abbrev pub l : Layout
l = record {
  user_mem_low = 40960;
  user_mem_high = 409600;
  page_size = 4096;
  addr_to_pn = λ a. a / 4096;
  pn_to_addr = λ n. n * 4096;
  page_aligned = λ a. a % 4096 == 0;
  page_align_up = λ a. (a + 4095) / 4096 * 4096;
}

abbrev private_area : Vmarea
private_area = record {
  vma_addr = 7;
  vma_start = 10;
  vma_end = 20;
  vma_off = 1;
  vma_prot = record { read = true; write = true; exec = false };
  vma_flags = record { shared = false; private = true; fixed = false; anon = true };
  vma_vmmap = some 1;
  vma_obj = some 1;
}

abbrev map : Vmmap
map = record { vmm_addr = 1; vmm_list = private_area ∷ []; vmm_proc = some 9 }

abbrev page_table : PageTable ℕ
page_table = record {
  page_align_down = λ a. a / 4096 * 4096;
  pt_map = λ a f w e. e + f;
  tlb_flush = λ a e. e;
}

abbrev write_cause : Cause
write_cause = record { write = true; exec = false }

write_fault-Copied_example :
    (s' : Memory ℕ) × (env : ℕ) × (handle_pagefault mm_env page_table l
        (λ f s. ok s)
        4
        map
        49200
        write_cause
        memory
      ≡ ok (mapped 11 s'))
    × (s'.env ≡ env + 11)
    × ((s'.frames 11).pf_data ≡ (frame_at 10).pf_data)
    × ((s'.frames 11).pf_dirty ≡ true)
    × ((s'.frames 11).pf_pincount ≡ 1)
    × ((j : ℕ) → (j == 11) ≡ false → s'.frames j ≡ frame_at j)
unfolding find_frame has vmmap_lookup lookup_area
write_fault-Copied_example =
    write_fault-Copied mm_env page_table l (λ f s. ok s) 3 49200 1 11 10 map write_cause
      private_area (2 ∷ []) (12 ∷ []) memory refl refl refl refl refl (omega arith) refl
      (refl, refl) refl refl refl refl (omega arith)
