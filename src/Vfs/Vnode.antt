-- ===== src/Vfs/Vnode.antt =====
-- What K2/namev.c and the calls of K2/vfs_syscall.c on paths use of vnodes: reference counting
-- (`vref`, `vput`), the type of a vnode, and the operations of a file system, of which a vnode may
-- lack some. A vnode is named by a number that stands for its address, a name is a list of
-- characters. The process's `p_cwd` is kept apart from the rest.
use weenix_kernel_implementa.Common.{ℕ, Bool, List, ◌≡◌, refl, ◌⊎◌, inl, inr}

-- The negative error codes that the layer tells apart, and those of a file system.
pub data Errno : Type 0 where
  enoent enotdir einval eexist eisdir enametoolong enotempty eperm emfile enomem : Errno
  other_errno : ℕ → Errno

pub data Result {ℓ} (A : Type ℓ) : Type ℓ where
  success : A → Result A
  error : Errno → Result A

pub record VnodeOps : Type 1 where
  pub Store : Type 0
  pub vfs_root_vn : ℕ
  -- NAME_LEN, MAXPATHLEN
  pub name_len : ℕ
  pub max_path_len : ℕ
  pub vref : ℕ → Store → Store
  pub vput : ℕ → Store → Store
  pub is_dir : ℕ → Bool
  pub has_lookup : ℕ → Bool
  pub has_create : ℕ → Bool
  pub has_mknod : ℕ → Bool
  pub has_mkdir : ℕ → Bool
  pub has_rmdir : ℕ → Bool
  pub has_unlink : ℕ → Bool
  pub has_link : ℕ → Bool
  pub has_stat : ℕ → Bool
  pub lookup_op : ℕ → List ℕ → Store → Result ℕ × Store
  pub create_op : ℕ → List ℕ → Store → Result ℕ × Store
  pub mknod_op : ℕ → List ℕ → ℕ → ℕ → Store → Result ℕ × Store
  pub mkdir_op : ℕ → List ℕ → Store → Result ℕ × Store
  pub rmdir_op : ℕ → List ℕ → Store → Result ℕ × Store
  pub unlink_op : ℕ → List ℕ → Store → Result ℕ × Store
  pub link_op : ℕ → ℕ → List ℕ → Store → Result ℕ × Store
  pub stat_op : ℕ → Store → Result ℕ × Store

pub Result-cases :
    {A : Type 0} (r : Result A) → ((e : Errno) × (r ≡ error e)) ⊎ ((a : A) × (r ≡ success a))
Result-cases (success a) = inr (a, refl)
Result-cases (error e) = inl (e, refl)
