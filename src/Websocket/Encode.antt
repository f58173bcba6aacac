-- ===== src/Websocket/Encode.antt =====
-- `stu_websocket_encode_frame` of src/cn/studease/core/stu_websocket_request.c: the header of an
-- outgoing frame, written in front of a payload that stands at `data + 10`.
pub mod Bytes
pub mod Header
pub mod RoundTrip
pub mod Sent
use chatease_server.Common.Memory.{Mem, write}
use chatease_server.Common.{ℕ, ◌+◌, ◌/◌, ◌%◌, ◌^◌, bit_or, ltb, if◌then◌else◌}

-- The returned pointer, `*extened` and the memory written.
pub record Encoded : Type 0 where
  pub start : ℕ
  pub extened : ℕ
  pub mem : Mem

-- A byte stored into a `u_char`.
abbrev pub u8 : ℕ → ℕ
u8 n = n % 2 ^ 8

encode_short : ℕ → ℕ → ℕ → Mem → Encoded
encode_short opcode start size m = record {
  start = start;
  extened = 0;
  mem = write (write m start (bit_or 0x80 opcode)) (start + 1) (u8 size);
}

encode_medium : ℕ → ℕ → ℕ → Mem → Encoded
encode_medium opcode start size m =
    let m1 = write (write m start (bit_or 0x80 opcode)) (start + 1) 0x7E in
    record {
      start = start;
      extened = 2;
      mem = write (write m1 (start + 2) (u8 (size / 2 ^ 8))) (start + 3) (u8 size);
    }

encode_long : ℕ → ℕ → ℕ → Mem → Encoded
encode_long opcode start size m =
    let m1 = write (write m start (bit_or 0x80 opcode)) (start + 1) 0x7F in
    let m2 = write (write m1 (start + 2) (u8 (size / 2 ^ 56))) (start + 3) (u8 (size / 2 ^ 48)) in
    let m3 = write (write m2 (start + 4) (u8 (size / 2 ^ 40))) (start + 5) (u8 (size / 2 ^ 32)) in
    let m4 = write (write m3 (start + 6) (u8 (size / 2 ^ 24))) (start + 7) (u8 (size / 2 ^ 16)) in
    record {
      start = start;
      extened = 8;
      mem = write (write m4 (start + 8) (u8 (size / 2 ^ 8))) (start + 9) (u8 size);
    }

unfoldable pub encode_frame : ℕ → ℕ → ℕ → Mem → Encoded
unfolding encode_short encode_medium encode_long
encode_frame opcode buf size m =
    if ltb size 126
    then encode_short opcode (buf + 8) size m
    else if ltb size 65536
    then encode_medium opcode (buf + 6) size m
    else encode_long opcode buf size m
