-- ===== src/Websocket/Encode/Sent.antt =====
-- A frame that `stu_websocket_request_handler` sends, read by the same parser.
use chatease_server.Common.Memory.{Mem}
use chatease_server.Common.Scan.{rc_done, Scanned}
use chatease_server.Common.{
  ℕ, ◌+◌, ◌/◌, ◌^◌, ◌<◌, ◌≡◌, inl, inr, refl, bit_or, arith, Bool-cases, ltb→lt, ltb, List, ◌∷◌,
}
use chatease_server.Websocket.Encode.Header.{extended_64-bytes}
use chatease_server.Websocket.Encode.RoundTrip.{read_short, read_medium, read_long, finished}
use chatease_server.Websocket.Encode.{
  Encoded, encode_frame, encode_short, encode_medium, encode_long, u8,
}
use chatease_server.Websocket.Frame.{Frame, sw_fin, Request, current}
use chatease_server.Websocket.Parse.{parse_frame, extended_64}

-- `out` is a final frame with opcode `op` whose payload is the `size` bytes from `buf + 10` on,
-- as they were in memory `m`.
pub record IsReadBack (op size buf : ℕ) (m : Mem) (out : Scanned Request) : Type 0 where
  pub rc_is : out.rc ≡ rc_done
  pub last_is : out.last ≡ buf + 10 + size
  pub fin_is : (current out.state).fin ≡ 1
  pub opcode_is : (current out.state).opcode ≡ op
  pub extended_is : (current out.state).extended ≡ size
  pub start_is : (current out.state).payload_data.start ≡ buf + 10
  pub end_is : (current out.state).payload_data.end ≡ buf + 10 + size
  pub payload_is : (j : ℕ) → out.state.mem (buf + 10 + j) ≡ m (buf + 10 + j)

module _ (op size buf : ℕ) (m : Mem) (f : Frame) (fs : List Frame) (op_fits : op < 16)
    (not_empty : 0 < size) where
  -- A request whose current frame is its first, before the parser has read anything.
  abbrev receiver : Mem → Request
  receiver m' = record { frames_in = f ∷ fs; frame = 0; state = sw_fin; mem = m' }

  abbrev ReadsBack : Encoded → Type 0
  ReadsBack e =
      (e.start + 2 + e.extened ≡ buf + 10)
      × IsReadBack op size buf m (parse_frame (buf + 10 + size) e.start (receiver e.mem))

  IsReadBack-finished :
      (m' : Mem) (p len q : ℕ)
      → q ≡ buf + 10
      → ((j : ℕ) → m' (buf + 10 + j) ≡ m (buf + 10 + j))
      → (opening : m' p ≡ bit_or 0x80 op)
      → IsReadBack op size buf m (record {
        rc = rc_done;
        last = buf + 10 + size;
        state = finished m' p (buf + 10 + size) op size f fs op_fits opening not_empty len q;
      })
  IsReadBack-finished m' p len q e same opening = record {
    rc_is = refl;
    last_is = refl;
    fin_is = refl;
    opcode_is = refl;
    extended_is = refl;
    start_is = e;
    end_is = omega arith;
    payload_is = same;
  }

  short-ReadsBack : size < 126 → ReadsBack (encode_short op (buf + 8) size m)
  unfolding encode_short
  short-ReadsBack h =
      let e = encode_short op (buf + 8) size m in
      let opening : e.mem (buf + 8) ≡ bit_or 0x80 op = ground arith in
      let b1 : e.mem (buf + 8 + 1) ≡ u8 size = ground arith in
      (
        omega arith,
        rw
            (read_short e.mem (buf + 8) (buf + 10 + size) op size f fs op_fits opening not_empty b1
              h (omega arith))
            (IsReadBack-finished e.mem (buf + 8) size (buf + 8 + 2) (omega arith)
              (λ j. ground arith) opening),
      )

  medium-ReadsBack : size < 65536 → ReadsBack (encode_medium op (buf + 6) size m)
  unfolding encode_medium
  medium-ReadsBack h =
      let e = encode_medium op (buf + 6) size m in
      let opening : e.mem (buf + 6) ≡ bit_or 0x80 op = ground arith in
      let b1 : e.mem (buf + 6 + 1) ≡ 0x7E = ground arith in
      let b2 : e.mem (buf + 6 + 2) ≡ u8 (size / 2 ^ 8) = ground arith in
      let b3 : e.mem (buf + 6 + 2 + 1) ≡ u8 size = ground arith in
      (
        omega arith,
        rw
            (read_medium e.mem (buf + 6) (buf + 10 + size) op size f fs op_fits opening not_empty b1
              h b2 b3 (omega arith))
            (IsReadBack-finished e.mem (buf + 6) 126 (buf + 6 + 4) (omega arith) (λ j. ground arith)
              opening),
      )

  extended_64-long : size < 2 ^ 64 → extended_64 (encode_long op buf size m).mem (buf + 2) ≡ size
  unfolding encode_long
  extended_64-long h =
      extended_64-bytes (encode_long op buf size m).mem (buf + 2) size h (ground arith)
        (ground arith) (ground arith) (ground arith) (ground arith) (ground arith) (ground arith)
        (ground arith)

  long-ReadsBack : size < 2 ^ 64 → ReadsBack (encode_long op buf size m)
  unfolding encode_long
  long-ReadsBack h =
      let e = encode_long op buf size m in
      let opening : e.mem buf ≡ bit_or 0x80 op = ground arith in
      let b1 : e.mem (buf + 1) ≡ 0x7F = ground arith in
      (
        omega arith,
        rw
            (read_long e.mem buf (buf + 10 + size) op size f fs op_fits opening not_empty b1
              (extended_64-long h) (omega arith))
            (IsReadBack-finished e.mem buf 127 (buf + 10) refl (λ j. ground arith) opening),
      )

  -- The parser, started at the pointer that `stu_websocket_encode_frame` returns, reads every
  -- frame with a payload back: STU_DONE, final, with the opcode and the size that were encoded,
  -- and with the payload at `buf + 10` untouched; the header ends where the payload starts.
  pub parse_frame-encode_frame : size < 2 ^ 64 → ReadsBack (encode_frame op buf size m)
  unfolding encode_frame
  parse_frame-encode_frame h = elim (Bool-cases (ltb size 126)) [
    | inl short ↦ rw short (short-ReadsBack (ltb→lt size 126 short))
    | inr long ↦ rw long (elim (Bool-cases (ltb size 65536)) [
      | inl medium ↦ rw medium (medium-ReadsBack (ltb→lt size 65536 medium))
      | inr longer ↦ rw longer (long-ReadsBack h)
    ])
  ]
