-- ===== src/Time.antt =====
-- The calendar of stu_time.c.
pub mod Gmtime
pub mod Calendar
pub mod Era
pub mod Date
pub mod Clock
mod Tests
