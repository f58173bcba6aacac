-- ===== src/Channel.antt =====
-- stu_channel.c: the channels and their users.
pub mod Cycle
pub mod Cases
pub mod Safety
pub mod Reached
pub mod Joined
pub mod Left
pub mod Locks
pub mod Progress
pub mod Deadlock
mod Tests
