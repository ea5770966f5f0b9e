-- ===== src/Database.antt =====
-- database.h and database.cpp: the class DataBase, in its three parts.
pub mod Pointers
pub mod Blocks
pub mod Effect
pub mod Consistency
pub mod Release
pub mod Rewrite
pub mod Reload
pub mod Atomic
pub mod Files
pub mod Resize
pub mod Opening
pub mod Directory
pub mod Unique
pub mod Keys
pub mod Rename
pub mod Listing
