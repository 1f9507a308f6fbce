-- ===== src/Api.antt =====
-- System calls: K3/syscall.c, and `user_strdup` of K3/access.c.
pub mod Calls
pub mod Paths
pub mod Wrappers
pub mod Execve
pub mod Dispatch
pub mod Orderly
