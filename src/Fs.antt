-- ===== src/Fs.antt =====
-- dedupfs.h and dedupfs.cpp: the class DedupFS, the calls that FUSE makes.
pub mod Mount
pub mod Calls
pub mod Service
pub mod Wrap
pub mod Errors
