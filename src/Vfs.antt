-- ===== src/Vfs.antt =====
-- The virtual file system: the calls of K2/vfs_syscall.c and K2/open.c, paths, and the vnodes in use.
pub mod Files
pub mod Vnode
pub mod Namev
pub mod Paths
pub mod Open
pub mod Inuse
mod Examples
mod PathExamples
