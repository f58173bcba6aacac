-- ===== src/Websocket.antt =====
-- src/cn/studease/core/stu_websocket_parse.c and the frames of stu_websocket_request.h.
-- `frames_in` is the chain that starts at `&r->frames_in` and goes on by `next`; `r->frame` is a
-- position in it. The buffer is memory with its addresses `last` and `end`.
pub mod Frame
pub mod Parse
pub mod Encode
mod Tests
