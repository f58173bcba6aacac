-- ===== src/Strings.antt =====
-- The byte-string functions of stu_string.h and stu_string.c.
pub mod Copy
pub mod Find
mod Tests
pub mod Unescape
pub mod Escaped
pub mod Compare
