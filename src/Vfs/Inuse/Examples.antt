-- ===== src/Vfs/Inuse/Examples.antt =====
-- The theorem on `vget` where vnode 5 is number 2 of file system 1 and vnode 6 is free.
use weenix_kernel_implementa.Common.{ℕ, ◌+◌, ◌≡◌, refl, true, false, [], ◌∷◌, ok, arith}
use weenix_kernel_implementa.Proc.Sched.Fifo.{has}
use weenix_kernel_implementa.Vfs.Inuse.{Vnode, Vnodes, FsOps, Got, vget}
use weenix_kernel_implementa.Vfs.Inuse.Unique.{IsUnique, Finds, vget-Finds}

abbrev ops : FsOps ℕ
ops = record {
  fs_root = λ fs. 5;
  read_vnode = λ fs vno e. (false, e + 1);
  query_vnode = λ v e. true;
  delete_vnode = λ v e. e;
  init_special_vnode = λ v e. e;
  pframe_free = λ f s. ok s;
  broadcast = λ v e. e;
}

abbrev vnode : Vnode
vnode = record {
  vn_fs = 1;
  vn_vno = 2;
  vn_refcount = 1;
  vn_nrespages = 0;
  vn_respages = [];
  vn_busy = false;
  vn_special = false;
}

abbrev s : Vnodes ℕ
s = record { vnodes = λ v. vnode; vnode_inuse_list = 5 ∷ []; free_vnodes = 6 ∷ []; env = 0 }

s-IsUnique : IsUnique s
unfolding has
s-IsUnique = record {
  unique = λ v w v_in w_in same_fs same_vno. ground arith;
  counted = λ v v_in idle. ground arith;
  unused = λ v free. ground arith;
  distinct = (refl, tt);
}

vget-Finds_example : (x : Got ℕ) × (vget ops 1 3 s ≡ ok x) × Finds 1 3 s x
vget-Finds_example = vget-Finds ops 1 3 s s-IsUnique
