-- ===== src/Kernel.antt =====
-- Lab6/xv6-semaphores: the parts of the xv6 kernel that the repository holds.
pub mod Sched
pub mod Outcome
pub mod Semaphore
pub mod Args
pub mod Dispatch
pub mod File
pub mod Fd
pub mod Cond
pub mod Fs
