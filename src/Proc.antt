-- ===== src/Proc.antt =====
-- Processes and threads, the first stage: K1/sched.c, K1/sched_helper.c, K1/kmutex.c, K1/kthread.c
-- and K1/proc.c.
pub mod Kernel
pub mod Sched
pub mod Kmutex
pub mod Pid
pub mod Process
pub mod Waitpid
mod Examples
