-- ===== src/HttpRequest.antt =====
-- stu_http_request.c: the headers of a request and the answer to it.
pub mod Table
pub mod Handlers
pub mod Lines
pub mod Reply
mod Tests
