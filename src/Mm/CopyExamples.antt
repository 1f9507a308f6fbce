-- ===== src/Mm/CopyExamples.antt =====
-- The theorems on copies between the kernel and user memory where pages 10 to 12 or 10 to 14 of the
-- address space are the pages of an anonymous object from 1 on, with two of them resident.
use weenix_kernel_implementa.Common.{
  ℕ, ◌+◌, ◌*◌, ◌%◌, ◌<◌, ◌≤◌, ◌≡◌, ◌⊎◌, refl, true, false, none, some, [], ◌∷◌, ◌==◌, ltb,
  if◌then◌else◌, ok, panic, arith,
}
use weenix_kernel_implementa.Vm.Vmmap.{Vmarea, Vmmap, lookup_area, vmmap_lookup}
use weenix_kernel_implementa.Mm.Frames.{Mmobj, Memory, anon_mmobj_ops, find_frame}
use weenix_kernel_implementa.Mm.Frames.Resident.{Touched}
use weenix_kernel_implementa.Mm.Examples.{mm_env, l}
use weenix_kernel_implementa.Mm.Copying.{finished, vmmap_write, copy_from_user, copy_to_user}
use weenix_kernel_implementa.Mm.Copying.Single.{Present}
use weenix_kernel_implementa.Mm.Copying.Pages.{vmmap_write-last_byte}
use weenix_kernel_implementa.Mm.Copying.User.{
  PageLaws, copy_to_user-copy_from_user, copy_from_user-panics,
}

-- PAGE_OFFSET
abbrev page_offset : ℕ → ℕ
page_offset a = a % 4096

page_laws : PageLaws page_offset l
page_laws = record { within = λ a n inside. omega arith }

abbrev anon_obj : Mmobj
anon_obj = record {
  mmo_ops = anon_mmobj_ops;
  mmo_refcount = 3;
  mmo_nrespages = 2;
  mmo_respages = 11 ∷ 10 ∷ [];
  mmo_shadowed = none;
  mmo_bottom_obj = 2;
}

-- Frame 10 holds page 3 of the object, and frame 11 page 4.
abbrev memory : Memory ℕ
memory = record {
  objs = λ o. anon_obj;
  frames = λ f. record {
    pf_obj = some 2;
    pf_pagenum = if f == 10 then 3 else 4;
    pf_busy = false;
    pf_dirty = false;
    pf_pincount = 0;
    pf_data = λ i. f + i;
  };
  pframe_hash = λ h. if h == 1 then 10 ∷ [] else 11 ∷ [];
  alloc_list = 10 ∷ 11 ∷ [];
  pinned_list = [];
  nallocated = 2;
  npinned = 0;
  free_frames = [];
  env = 0;
}

abbrev area_up_to : ℕ → Vmarea
area_up_to end = record {
  vma_addr = 7;
  vma_start = 10;
  vma_end = end;
  vma_off = 1;
  vma_prot = record { read = true; write = true; exec = false };
  vma_flags = record { shared = true; private = false; fixed = false; anon = true };
  vma_vmmap = some 1;
  vma_obj = some 2;
}

abbrev map_up_to : ℕ → Vmmap
map_up_to end = record { vmm_addr = 1; vmm_list = area_up_to end ∷ []; vmm_proc = some 9 }

present_12 : Present mm_env page_offset l (λ f s. ok s) 3 (map_up_to 15) 12 10 memory
unfolding find_frame vmmap_lookup lookup_area
present_12 = record {
  area = area_up_to 15;
  object = 2;
  covered = refl;
  vma_obj = refl;
  resident = refl;
  idle = refl;
}

present_13 : Present mm_env page_offset l (λ f s. ok s) 3 (map_up_to 15) 13 11 memory
unfolding find_frame vmmap_lookup lookup_area
present_13 = record {
  area = area_up_to 15;
  object = 2;
  covered = refl;
  vma_obj = refl;
  resident = refl;
  idle = refl;
}

present_last : Present mm_env page_offset l (λ f s. ok s) 3 (map_up_to 13) 12 10 memory
unfolding find_frame vmmap_lookup lookup_area
present_last = record {
  area = area_up_to 13;
  object = 2;
  covered = refl;
  vma_obj = refl;
  resident = refl;
  idle = refl;
}

copy_to_user-copy_from_user_example :
    (s1 : Memory ℕ) × (s2 : Memory ℕ) × (back : ℕ → ℕ) × (copy_to_user mm_env page_offset l
        (λ f s. ok s)
        4
        (map_up_to 15)
        49200
        (λ i. i * 7)
        5
        memory
      ≡ ok (finished tt s1))
    × (copy_from_user mm_env page_offset l (λ f s. ok s) 4 (map_up_to 15) (λ i. 1) 49200 5 s1
        ≡ ok (finished back s2))
    × ((i : ℕ) → back i ≡ (if ltb i 5 then i * 7 else 1))
    × ((i : ℕ) → (i < 48) ⊎ (53 ≤ i) → (s1.frames 10).pf_data i ≡ 10 + i)
    × ((j : ℕ) → (j == 10) ≡ false → s1.frames j ≡ memory.frames j)
    × (s1.objs ≡ memory.objs)
    × Touched s1 s2
unfolding present_12
copy_to_user-copy_from_user_example =
    copy_to_user-copy_from_user mm_env page_offset l (λ f s. ok s) 3 (map_up_to 15) 49200 5 10
      (λ i. i * 7) (λ i. 1) memory page_laws present_12 refl refl (omega arith) (omega arith)
      (omega arith)

vmmap_write-last_byte_example :
    (s' : Memory ℕ) × (vmmap_write mm_env page_offset l
        (λ f s. ok s)
        4
        (map_up_to 15)
        53240
        (λ i. i * 7)
        20
        memory
      ≡ ok (finished tt s'))
    × ((i : ℕ) → 4088 + i < 4096 → (s'.frames 10).pf_data (4088 + i) ≡ i * 7)
    × ((i : ℕ) → i < 11 → (s'.frames 11).pf_data i ≡ (8 + i) * 7)
    × ((s'.frames 11).pf_data 11 ≡ 22)
    × ((j : ℕ) → (j == 10) ≡ false → (j == 11) ≡ false → s'.frames j ≡ memory.frames j)
vmmap_write-last_byte_example =
    vmmap_write-last_byte mm_env page_offset l (λ f s. ok s) 3 (map_up_to 15) 53240 (λ i. i * 7) 20
      10 11 memory refl present_12 present_13 refl

copy_from_user-panics_example :
    copy_from_user mm_env page_offset l (λ f s. ok s) 4 (map_up_to 13) (λ i. 1) 53243 5 memory
    ≡ panic
unfolding present_last vmmap_lookup lookup_area
copy_from_user-panics_example =
    copy_from_user-panics mm_env page_offset l (λ f s. ok s) 3 (map_up_to 13) 53243 5 10 (λ i. 1)
      memory present_last refl (omega arith) (omega arith) (omega arith) refl refl
