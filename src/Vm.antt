-- ===== src/Vm.antt =====
-- The virtual memory layer of the third stage: K3/vmmap.c and the system calls over it.
pub mod Layout
pub mod Mmobj
pub mod Vmmap
pub mod Access
pub mod Brk
pub mod Mmap
pub mod Fork
mod Examples
mod ForkExamples
