-- ===== src/System.antt =====
-- The whole program: the states that a mount reaches by the calls of FUSE and the moves of the writer
-- thread.
pub mod Running
