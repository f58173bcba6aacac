-- ===== src/Session.antt =====
-- stu_websocket_request.c: what the server does with the bytes of a connection that was upgraded.
pub mod Key
pub mod Status
pub mod Item
pub mod Answer
pub mod Granted
pub mod Rate
pub mod Wire
pub mod Process
pub mod Receive
pub mod Serve
pub mod Delivered
pub mod Chat
mod Tests
