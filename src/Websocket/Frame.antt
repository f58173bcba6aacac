-- ===== src/Websocket/Frame.antt =====
-- Frames, requests and their updates.
use chatease_server.Common.Memory.{Mem}
use chatease_server.Common.{ℕ, List, [], ◌∷◌, get_or, set}

-- `stu_buf_t`.
pub record Buf : Type 0 where
  pub start : ℕ
  pub last : ℕ
  pub end : ℕ

-- `stu_websocket_frame_t`, but for `next`.
pub record Frame : Type 0 where
  pub fin : ℕ
  pub rsv1 : ℕ
  pub rsv2 : ℕ
  pub rsv3 : ℕ
  pub opcode : ℕ
  pub mask : ℕ
  pub payload_len : ℕ
  pub extended : ℕ
  pub masking_key : List ℕ
  pub payload_data : Buf

-- What `stu_calloc` gives.
abbrev pub empty_frame : Frame
empty_frame = record {
  fin = 0;
  rsv1 = 0;
  rsv2 = 0;
  rsv3 = 0;
  opcode = 0;
  mask = 0;
  payload_len = 0;
  extended = 0;
  masking_key = 0 ∷ 0 ∷ 0 ∷ 0 ∷ [];
  payload_data = record { start = 0; last = 0; end = 0 };
}

pub data State : Type 0 where
  sw_fin sw_mask sw_extended_2 sw_extended_8 sw_masking_key sw_payload_data : State

-- The parser's part of `stu_websocket_request_t`, and the memory that the buffer lies in.
pub record Request : Type 0 where
  pub frames_in : List Frame
  pub frame : ℕ
  pub state : State
  pub mem : Mem

-- `*r->frame`
abbrev pub current : Request → Frame
current r = get_or r.frames_in r.frame empty_frame

-- An assignment to fields of `*r->frame`, and the next state.
abbrev pub put : Request → Frame → State → Request
put r f st = record r { frames_in = set r.frames_in r.frame f; state = st }

abbrev pub opcode_text : ℕ
opcode_text = 0x1

abbrev pub opcode_binary : ℕ
opcode_binary = 0x2

abbrev pub opcode_close : ℕ
opcode_close = 0x8
