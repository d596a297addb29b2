-- ===== src/Redirector.antt =====
-- dos/src/serdfs.c: the resident redirector.
pub mod Names
pub mod State
pub mod Paths
pub mod Files
pub mod Open
pub mod Find
pub mod Dispatch
