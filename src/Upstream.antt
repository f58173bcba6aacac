-- ===== src/Upstream.antt =====
-- The upstream servers of stu_upstream.c.
pub mod Balance
pub mod Cycle
mod Tests
