-- ===== src/Vfs/Examples.antt =====
-- The theorems on file descriptors in a process with four of them: 0 and 1 name file 7, which has
-- two references, 2 is empty, and 3 names file 8.
use weenix_kernel_implementa.Common.{
  ℕ, ◌+◌, ◌-◌, ◌||◌, ◌≡◌, ◌≢◌, ◌⊎◌, refl, true, false, Option, none, some, ◌==◌, if◌then◌else◌,
  arith,
}
use weenix_kernel_implementa.Vfs.Files.{
  Whence, File, Files, VfsOps, ret, ebadf, fd_valid, open_file, do_lseek, do_read, do_getdent,
  do_dup2,
}
use weenix_kernel_implementa.Vfs.Files.Balance.{
  set_refs, IsFileOps, IsCounted, Kept, file_calls-Kept,
}
use weenix_kernel_implementa.Vfs.Files.Descriptors.{count, IsAccounted, Balanced, do_dup2_lem}

abbrev get_at : Option ℕ → Files ℕ → Option ℕ × Files ℕ
get_at none s = (none, s)
get_at (some f) s = (some f, set_refs f ((s.files f).f_refcount + 1) s)

abbrev ops : VfsOps
ops = record {
  Store = ℕ;
  nfiles = 4;
  fget = λ fd s. get_at (s.p_files fd) s;
  fput = λ f s. set_refs f ((s.files f).f_refcount - 1) s;
  is_dir = λ v. v == 2;
  is_chr = λ v. false;
  is_blk = λ v. false;
  is_reg = λ v. true;
  has_read = λ v. true;
  has_write = λ v. true;
  has_readdir = λ v. v == 2;
  vn_len = λ v st. st;
  read = λ v pos n st. (if pos == st then 0 else 1, st);
  write = λ v pos n st. (n, st + n);
  readdir = λ v pos st. (if pos == st then 0 else 1, st);
  sizeof_dirent = 32;
}

ops-IsFileOps : IsFileOps ops
ops-IsFileOps = record {
  fget_open = λ fd f s e. rw e refl;
  fget_closed = λ fd s e. rw e refl;
  fput_shared = λ f s more. refl;
  fput_table = λ f s pos. refl;
  fput_refs = λ f g s pos. ground arith;
}

abbrev table : ℕ → Option ℕ
table fd = if fd == 0 || fd == 1 then some 7 else if fd == 3 then some 8 else none

abbrev files_at : ℕ → File
files_at f = record {
  fmode_read = true;
  fmode_write = true;
  fmode_append = false;
  f_pos = 5;
  f_refcount = if f == 7 then 2 else if f == 8 then 1 else 0;
  f_vnode = if f == 8 then 2 else 1;
}

abbrev s : Files ℕ
s = record { p_files = table; files = files_at; store = 100 }

s-IsCounted : IsCounted s
s-IsCounted fd f e = ground arith

s-IsAccounted : IsAccounted 4 s
unfolding count
s-IsAccounted g = ground arith

file_calls-Kept_example :
    ((fd nbytes : ℕ) → Kept s (do_read ops fd nbytes s).1)
    × ((fd offset : ℕ) (whence : Whence) → Kept s (do_lseek ops fd offset whence s).1)
    × ((fd : ℕ) → Kept s (do_getdent ops fd s).1)
file_calls-Kept_example = file_calls-Kept ops ops-IsFileOps s s-IsCounted

abbrev ofd : ℕ
ofd = 3

abbrev nfd : ℕ
nfd = 1

do_dup2_example :
    ((fd_valid ops 1 ≡ false) ⊎ (open_file ops 3 s ≡ none) → do_dup2 ops 3 1 s ≡ (ebadf, s))
    × ((f : ℕ)
        → open_file ops 3 s ≡ some f
        → fd_valid ops 1 ≡ true
        → ((ofd ≡ nfd) → do_dup2 ops 3 1 s ≡ (ret 3, s))
          × (ofd ≢ nfd
              → (s' : Files ℕ) × (do_dup2 ops 3 1 s ≡ (ret 1, s'))
                × ((x : ℕ) → s'.p_files x ≡ (if x == 1 then some f else s.p_files x))
                × Balanced 4 s s'))
do_dup2_example = do_dup2_lem ops ops-IsFileOps 3 1 s s-IsAccounted
