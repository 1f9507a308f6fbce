-- ===== src/Vm/Mmobj.antt =====
-- What K3/vmmap.c uses of memory objects: the constructors of K3/shadow.c and K3/anon.c, the calls
-- through `mmo_ops`, the field writes, and the lists of areas by which an object is mapped. An
-- object and an area are named by numbers that stand for their addresses. The page table and the TLB (mm/pagetable.h,
-- mm/tlb.h), which the same calls change, are part of the state.
use weenix_kernel_implementa.Common.{ℕ}

pub record MmobjOps : Type 1 where
  pub Store : Type 0
  pub vmarea_alloc : Store → ℕ × Store
  pub shadow_create : Store → ℕ × Store
  pub anon_create : Store → ℕ × Store
  -- o->mmo_ops->ref(o), o->mmo_ops->put(o)
  pub ref : ℕ → Store → Store
  pub put : ℕ → Store → Store
  -- o->mmo_shadowed = s, o->mmo_un.mmo_bottom_obj = b
  pub set_shadowed : ℕ → ℕ → Store → Store
  pub set_bottom : ℕ → ℕ → Store → Store
  -- o->mmo_un.mmo_bottom_obj, and mmobj_bottom_obj(o)
  pub un_bottom_obj : ℕ → Store → ℕ
  pub bottom_obj : ℕ → Store → ℕ
  -- list_insert_head(&o->mmo_un.mmo_vmas, &vma->vma_olink)
  pub vmas_insert_head : ℕ → ℕ → Store → Store
  -- list_insert_tail(mmobj_bottom_vmas(o), &vma->vma_olink)
  pub bottom_vmas_insert_tail : ℕ → ℕ → Store → Store
  -- list_remove(&vma->vma_olink)
  pub vmas_remove : ℕ → Store → Store
  -- pt_unmap_range(curproc->p_pagedir, low, high), tlb_flush_all()
  pub pt_unmap_range : ℕ → ℕ → Store → Store
  pub tlb_flush_all : Store → Store
