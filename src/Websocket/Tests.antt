-- ===== src/Websocket/Tests.antt =====
-- A masked frame that carries "Hi", and the theorems at it.
use chatease_server.Common.Memory.{Mem}
use chatease_server.Common.Scan.{rc_done}
use chatease_server.Common.{
  ℕ, zero, suc, ◌+◌, ◌%◌, ◌≤◌, ◌<◌, ◌≡◌, ◌⊎◌, inl, refl, bit_xor, arith, ltb, true, if◌then◌else◌,
  [], ◌∷◌, get_or,
}
use chatease_server.Websocket.Encode.Sent.{IsReadBack, parse_frame-encode_frame}
use chatease_server.Websocket.Encode.{encode_frame}
use chatease_server.Websocket.Frame.{Frame, empty_frame, sw_fin, Request, current}
use chatease_server.Websocket.Parse.Continuation.{
  following, finished, IsUnmasked, parse_frame-following,
}
use chatease_server.Websocket.Parse.Arrives.{Agrees, IsResumed, parse_frame-IsResumed}
use chatease_server.Websocket.Parse.Unmask.{ClientFrame, final_frame, parse_frame-ClientFrame}
use chatease_server.Websocket.Parse.{parse_frame, key_at}

-- 0x81 0x82, the key 1 2 3 4, and `H ^ 1`, `i ^ 2`.
abbrev wire : Mem
wire a = get_or (0x81 ∷ 0x82 ∷ 1 ∷ 2 ∷ 3 ∷ 4 ∷ 0x49 ∷ 0x6B ∷ []) a 0

abbrev text : ℕ → ℕ
text j = get_or (b'H' ∷ b'i' ∷ []) j 0

payload_on_wire :
    (j : ℕ) → j < 2 → wire (0 + 6 + j) ≡ bit_xor (text j) (get_or (key_at wire (0 + 2)) (j % 4) 0)
payload_on_wire zero h = refl
payload_on_wire (suc zero) h = refl
payload_on_wire (suc (suc j)) h = absurd (omega arith)

wire-ClientFrame : ClientFrame wire 0 1 2 text
wire-ClientFrame = record {
  op_is = inl refl;
  len_fits = omega arith;
  not_empty = omega arith;
  opening = refl;
  length_byte = refl;
  payload = payload_on_wire;
}

text_bytes : (j : ℕ) → j < 2 → text j < 256
text_bytes zero h = omega arith
text_bytes (suc zero) h = omega arith
text_bytes (suc (suc j)) h = absurd (omega arith)

key_bytes : (i : ℕ) → i < 4 → get_or (key_at wire (0 + 2)) i 0 < 256
key_bytes zero h = omega arith
key_bytes (suc zero) h = omega arith
key_bytes (suc (suc zero)) h = omega arith
key_bytes (suc (suc (suc zero))) h = omega arith
key_bytes (suc (suc (suc (suc i)))) h = absurd (omega arith)

abbrev fresh : Request
fresh = record { frames_in = empty_frame ∷ []; frame = 0; state = sw_fin; mem = wire }

parse_frame-ClientFrame_example :
    let out = parse_frame 8 0 fresh in
    (out.rc ≡ rc_done)
    × (out.last ≡ 0 + 6 + 2)
    × (current out.state ≡ final_frame wire 0 1 2 text wire-ClientFrame empty_frame [])
    × ((j : ℕ) → j < 2 → out.state.mem (0 + 6 + j) ≡ text j)
    × ((a : ℕ) → (a < 0 + 6) ⊎ (0 + 6 + 2 ≤ a) → out.state.mem a ≡ wire a)
parse_frame-ClientFrame_example =
    parse_frame-ClientFrame wire 0 1 2 text wire-ClientFrame empty_frame [] 8 (omega arith)
      text_bytes key_bytes

-- The first read brings the header and half of the key; zeros stand behind it.
abbrev first_read : Request
first_read = record {
  frames_in = empty_frame ∷ [];
  frame = 0;
  state = sw_fin;
  mem = λ a. if ltb a 4 then wire a else 0;
}

first_read-Agrees : Agrees 4 first_read.mem wire
first_read-Agrees a lt = let inside : ltb a 4 ≡ true = ground (arith, lt) in rw inside refl

parse_frame-IsResumed_example : IsResumed 4 8 0 first_read wire (parse_frame 4 0 first_read)
parse_frame-IsResumed_example =
    parse_frame-IsResumed 4 8 0 first_read wire (omega arith) first_read-Agrees

abbrev outgoing : Mem
outgoing a = 0x20 + a

parse_frame-encode_frame_example :
    let e = encode_frame 1 3 5 outgoing in
    (e.start + 2 + e.extened ≡ 3 + 10)
    × IsReadBack 1 5 3 outgoing (
        parse_frame
          (3 + 10 + 5)
          e.start
          (record { frames_in = empty_frame ∷ []; frame = 0; state = sw_fin; mem = e.mem }))
parse_frame-encode_frame_example =
    parse_frame-encode_frame 1 5 3 outgoing empty_frame [] (omega arith) (omega arith) (omega arith)

abbrev second : Frame
second = record empty_frame { fin = 1; opcode = 1; mask = 1; payload_len = 2; extended = 2 }

parse_frame-following_example :
    (parse_frame 8 2 (following 2 8 0 empty_frame (second ∷ []) wire)
      ≡ record { rc = rc_done; last = 8; state = finished 2 8 0 empty_frame (second ∷ []) wire })
    × IsUnmasked 2 8 0 empty_frame
        (second ∷ [])
        wire
        (finished 2 8 0 empty_frame (second ∷ []) wire).mem
parse_frame-following_example =
    parse_frame-following 2 8 0 empty_frame (second ∷ []) wire (omega arith) (omega arith)
