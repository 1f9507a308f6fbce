-- ===== src/Vfs/PathExamples.antt =====
-- The theorems on paths in a file system where a vnode below 5 is a directory, whose entry "a" is the
-- next vnode. The store is the table of reference counts; vnode 3 cannot be linked into.
use weenix_kernel_implementa.Common.{
  ℕ, ◌+◌, ◌-◌, ◌≡◌, refl, Bool, true, false, not, none, some, List, [], ◌∷◌, ◌==◌, ltb,
  if◌then◌else◌, update, Exec, ok, panic, arith,
}
use weenix_kernel_implementa.Vfs.Files.{File, Files}
use weenix_kernel_implementa.Vfs.Vnode.{enoent, enotdir, Result, success, error, VnodeOps}
use weenix_kernel_implementa.Vfs.Namev.{
  rdonly, parts, scan, lookup, namev_loop, finish_namev, dir_namev, open_looked_up, open_found,
  open_namev,
}
use weenix_kernel_implementa.Vfs.Namev.Balance.{delta, held, IsVnodeOps, Adds}
use weenix_kernel_implementa.Vfs.Namev.Opened.{AddsHeld, open_namev-Adds}
use weenix_kernel_implementa.Vfs.Paths.{
  do_mknod, do_mkdir, do_rmdir, do_unlink, do_stat, do_chdir, do_link,
}
use weenix_kernel_implementa.Vfs.Paths.Balance.{IsOffered, Same, Keeps}
use weenix_kernel_implementa.Vfs.Paths.Calls.{path_calls-Same}
use weenix_kernel_implementa.Vfs.Paths.Moves.{MovesTo, do_chdir-MovesTo, do_link_leak}
use weenix_kernel_implementa.Vfs.Open.{NewFiles, do_open}
use weenix_kernel_implementa.Vfs.Open.Laws.{IsNewFiles, Opened, do_open-Opened}

abbrev found : ℕ → List ℕ → (ℕ → ℕ) → Result ℕ × (ℕ → ℕ)
found dir [] st = (error enoent, st)
found dir (c ∷ cs) st =
    if c == 97
    then (success (dir + 1), update st (dir + 1) (st (dir + 1) + 1))
    else (error enoent, st)

abbrev ops : VnodeOps
ops = record {
  Store = ℕ → ℕ;
  vfs_root_vn = 1;
  name_len = 28;
  max_path_len = 1024;
  vref = λ v st. update st v (st v + 1);
  vput = λ v st. update st v (st v - 1);
  is_dir = λ v. ltb v 5;
  has_lookup = λ v. ltb v 5;
  has_create = λ v. ltb v 5;
  has_mknod = λ v. ltb v 5;
  has_mkdir = λ v. ltb v 5;
  has_rmdir = λ v. ltb v 5;
  has_unlink = λ v. ltb v 5;
  has_link = λ v. not (v == 3);
  has_stat = λ v. true;
  lookup_op = found;
  create_op = found;
  mknod_op = λ dir name mode devid st. (success 0, st);
  mkdir_op = λ dir name st. (success 0, st);
  rmdir_op = λ dir name st. (success 0, st);
  unlink_op = λ dir name st. (success 0, st);
  link_op = λ from dir name st. (success 0, st);
  stat_op = λ v st. (success 0, st);
}

abbrev refcount : ℕ → (ℕ → ℕ) → ℕ
refcount v st = st v

found-count :
    (dir g : ℕ) (name : List ℕ) (st : ℕ → ℕ)
    → refcount g (found dir name st).1 ≡ refcount g st + held (found dir name st).0 g
found-count dir g [] st = omega arith
found-count dir g (c ∷ cs) st = ground arith

ops-IsVnodeOps : IsVnodeOps ops refcount
ops-IsVnodeOps = record {
  vref_count = λ v g st. ground arith;
  vput_count = λ v g st pos. ground arith;
  lookup_count = found-count;
  lookup_dir = λ v has. has;
  create_count = found-count;
  mknod_count = λ dir g mode devid name st. refl;
  mkdir_count = λ dir g name st. refl;
  rmdir_count = λ dir g name st. refl;
  unlink_count = λ dir g name st. refl;
  link_count = λ v dir g name st. refl;
  stat_count = λ v g st. refl;
}

abbrev counts : ℕ → ℕ
counts v = if v == 1 then 1 else 0

-- "/a/a" and "a/b"
abbrev path_aa : List ℕ
path_aa = 47 ∷ 97 ∷ 47 ∷ 97 ∷ []

abbrev path_ab : List ℕ
path_ab = 97 ∷ 47 ∷ 98 ∷ []

open_namev-Adds_example :
    AddsHeld ops refcount ops-IsVnodeOps counts (open_namev ops path_aa rdonly none 1 counts)
    × (rdonly.o_creat ≡ false
        → (r : Result ℕ) × (st' : ℕ → ℕ) × (open_namev ops path_aa rdonly none 1 counts
            ≡ ok (r, st'))
          × Adds ops refcount ops-IsVnodeOps counts st' (held r))
open_namev-Adds_example = open_namev-Adds ops refcount ops-IsVnodeOps path_aa rdonly none 1 counts

ops-IsOffered : IsOffered ops
ops-IsOffered = record {
  mknod_offered = λ v e. e;
  mkdir_offered = λ v e. e;
  stat_offered = λ v. refl;
}

path_calls-Same_example :
    ((special : Bool) (mode devid : ℕ)
      → Keeps ops refcount ops-IsVnodeOps counts (do_mknod ops special path_ab mode devid 1 counts))
    × Keeps ops refcount ops-IsVnodeOps counts (do_mkdir ops path_ab 1 counts)
    × Same ops refcount ops-IsVnodeOps counts (do_rmdir ops path_ab 1 counts).1
    × Same ops refcount ops-IsVnodeOps counts (do_unlink ops path_ab 1 counts).1
    × Keeps ops refcount ops-IsVnodeOps counts (do_stat ops path_ab 1 counts)
path_calls-Same_example = path_calls-Same ops refcount ops-IsVnodeOps ops-IsOffered path_ab 1 counts

do_chdir-MovesTo_example :
    MovesTo ops refcount ops-IsVnodeOps 1 counts
      (open_namev ops path_aa rdonly none 1 counts)
      (do_chdir ops path_aa 1 counts)
do_chdir-MovesTo_example =
    do_chdir-MovesTo ops refcount ops-IsVnodeOps path_aa 1 counts (omega arith)

-- "/a/a/b"
abbrev path_aab : List ℕ
path_aab = 47 ∷ 97 ∷ 47 ∷ 97 ∷ 47 ∷ 98 ∷ []

abbrev store_of : Exec (Result ℕ × (ℕ → ℕ)) → ℕ → ℕ
store_of panic = counts
store_of (ok (r, st)) = st

abbrev after : ℕ → ℕ
after = store_of (open_namev ops path_aa rdonly none 1 counts)

-- "/a/a" is vnode 3.
do_link_leak_example :
    (ops.has_link 3 ≡ true
      → (r : Result ℕ) × (st' : ℕ → ℕ) × (do_link ops path_aa path_aab 1 counts ≡ ok (r, st'))
        × Same ops refcount ops-IsVnodeOps counts st')
    × (ops.has_link 3 ≡ false
        → (st' : ℕ → ℕ) × (do_link ops path_aa path_aab 1 counts ≡ ok (error enotdir, st'))
          × ((g : ℕ) → st' g ≡ counts g + (delta 3 g + delta 3 g)))
unfolding scan parts lookup finish_namev namev_loop dir_namev open_looked_up open_found open_namev
do_link_leak_example =
    do_link_leak ops refcount ops-IsVnodeOps path_aa path_aab (98 ∷ []) 1 3 3 counts after refl refl
      refl

abbrev new_files : NewFiles (ℕ → ℕ)
new_files = record { nfiles = 4; fget_new = λ s. (some 9, s); fput = λ f s. s }

new_files-IsNewFiles : IsNewFiles new_files
new_files-IsNewFiles = record { fget_table = λ s. refl; fput_table = λ f s. refl }

abbrev file : File
file = record {
  fmode_read = false;
  fmode_write = false;
  fmode_append = false;
  f_pos = 0;
  f_refcount = 0;
  f_vnode = 0;
}

abbrev s : Files (ℕ → ℕ)
s = record { p_files = λ fd. if fd == 0 then some 8 else none; files = λ f. file; store = counts }

do_open-Opened_example :
    Opened 4
      (record rdonly { o_rdwr = true; o_append = true })
      s
      (do_open ops new_files path_aa (record rdonly { o_rdwr = true; o_append = true }) 1 s)
do_open-Opened_example =
    do_open-Opened ops new_files new_files-IsNewFiles path_aa
      (record rdonly { o_rdwr = true; o_append = true }) 1 s
