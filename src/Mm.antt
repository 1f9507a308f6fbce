-- ===== src/Mm.antt =====
-- Memory objects and page frames of the third stage: K3/pframe.c, K3/anon.c and K3/shadow.c.
pub mod Frames
pub mod Lookup
pub mod Put
pub mod Pagefault
pub mod Copying
mod Examples
mod CopyExamples
