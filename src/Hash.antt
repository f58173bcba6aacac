-- ===== src/Hash.antt =====
-- src/cn/studease/core/stu_hash.c.
pub mod Key
pub mod Search
pub mod Lookup
pub mod Insert
pub mod Remove
pub mod Reached
mod Tests
pub mod Table
