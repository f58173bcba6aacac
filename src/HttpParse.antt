-- ===== src/HttpParse.antt =====
-- src/cn/studease/core/stu_http_parse.c. Every parser is a step over the shared byte loop of
-- Common/Scan; the buffer lies in flat memory, and a pointer of the request is an address.
pub mod RequestLine
pub mod HeaderLine
pub mod StatusLine
