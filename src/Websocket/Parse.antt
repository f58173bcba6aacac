-- ===== src/Websocket/Parse.antt =====
-- `stu_websocket_parse_frame`.
pub mod Steady
pub mod Arrives
pub mod Unmask
pub mod Continuation
use chatease_server.Common.Memory.{Mem, write}
use chatease_server.Common.Scan.{Rc, rc_ok, rc_done, Verdict, next, more, stop, Scanned, run}
use chatease_server.Common.{
  ℕ, zero, suc, ◌+◌, ◌-◌, ◌*◌, ◌/◌, ◌%◌, ◌^◌, bit_and, bit_or, bit_xor, ◌||◌, ltb, ◌==◌,
  if◌then◌else◌, List, [], ◌∷◌, get_or, set,
}
use chatease_server.Websocket.Frame.{
  Buf, Frame, empty_frame, State, sw_fin, sw_mask, sw_extended_2, sw_extended_8, sw_masking_key,
  sw_payload_data, Request, current, put, opcode_text, opcode_binary,
}

-- `for (i = 0; i < extended; i++) p[i] ^= masking_key[i % 4]`, at `i` with `left` rounds to go.
unfoldable pub unmask : List ℕ → ℕ → ℕ → ℕ → Mem → Mem
unmask key p i zero m = m
unmask key p i (suc left) m =
    unmask key p (i + 1) left (write m (p + i) (bit_xor (m (p + i)) (get_or key (i % 4) 0)))

-- `r->frame->mask ? sw_masking_key : sw_payload_data`
abbrev pub after_length : ℕ → State
after_length mask = if mask == 0 then sw_payload_data else sw_masking_key

step_fin : ℕ → Request → Verdict Request
step_fin p r =
    let b = r.mem p in
    let f = record (current r) {
      fin = bit_and (b / 128) 0x1;
      rsv1 = bit_and (b / 64) 0x1;
      rsv2 = bit_and (b / 32) 0x1;
      rsv3 = bit_and (b / 16) 0x1;
      opcode = bit_and b 0xF;
    } in
    next p (put r f sw_mask)

step_mask : ℕ → Request → Verdict Request
step_mask p r =
    let b = r.mem p in
    let len = bit_and b 0x7F in
    let f = record (current r) { mask = bit_and (b / 128) 0x1; payload_len = len } in
    if len == 126
    then next p (put r f sw_extended_2)
    else if len == 127
    then next p (put r f sw_extended_8)
    else next p (put r (record f { extended = len }) (after_length f.mask))

step_extended_2 : ℕ → ℕ → Request → Verdict Request
step_extended_2 end p r =
    let f = current r in
    if ltb (end - p) 2
    then more
    else next (p + 1) (
        put r (record f { extended = bit_or (r.mem p * 2 ^ 8) (r.mem (p + 1)) })
          (after_length f.mask))

-- `(i = byte) << k` in a `uint64_t`.
abbrev pub shift_64 : ℕ → ℕ → ℕ
shift_64 b k = b * 2 ^ k % 2 ^ 64

-- The eight assignments to `extended`.
abbrev pub extended_64 : Mem → ℕ → ℕ
extended_64 m p =
    let e1 = bit_or (shift_64 (m p) 56) (shift_64 (m (p + 1)) 48) in
    let e2 = bit_or e1 (shift_64 (m (p + 2)) 40) in
    let e3 = bit_or e2 (shift_64 (m (p + 3)) 32) in
    let e4 = bit_or e3 (shift_64 (m (p + 4)) 24) in
    let e5 = bit_or e4 (shift_64 (m (p + 5)) 16) in
    let e6 = bit_or e5 (shift_64 (m (p + 6)) 8) in bit_or e6 (m (p + 7))

step_extended_8 : ℕ → ℕ → Request → Verdict Request
step_extended_8 end p r =
    let f = current r in
    if ltb (end - p) 8
    then more
    else next (p + 7) (put r (record f { extended = extended_64 r.mem p }) (after_length f.mask))

abbrev pub key_at : Mem → ℕ → List ℕ
key_at m p = m p ∷ m (p + 1) ∷ m (p + 2) ∷ m (p + 3) ∷ []

-- `memcpy(r->frames_in.masking_key, p, 4)`: the key goes to the first frame of the chain.
step_masking_key : ℕ → ℕ → Request → Verdict Request
step_masking_key end p r =
    let first = get_or r.frames_in 0 empty_frame in
    if ltb (end - p) 4
    then more
    else next (p + 3) (record r {
      frames_in = set r.frames_in 0 (record first { masking_key = key_at r.mem p });
      state = sw_payload_data;
    })

-- The key that is used is that of `r->frame`.
abbrev pub unmasked : ℕ → Request → Mem
unmasked p r =
    let f = current r in
    if f.opcode == opcode_text || f.opcode == opcode_binary
    then (if f.mask == 0 then r.mem else unmask f.masking_key p 0 f.extended r.mem)
    else r.mem

step_payload_data : ℕ → ℕ → Request → Verdict Request
step_payload_data end p r =
    let f = current r in
    let last = p + f.extended in
    let f' = record f { payload_data = record { start = p; last = p; end = last } } in
    if ltb (end - p) f.extended
    then more
    else stop (if f.fin == 0 then rc_ok else rc_done) last
        (record (put r f' sw_fin) { mem = unmasked p r })

unfoldable pub step_in : State → ℕ → ℕ → Request → Verdict Request
unfolding step_fin step_mask step_extended_2 step_extended_8 step_masking_key step_payload_data
step_in sw_fin end p r = step_fin p r
step_in sw_mask end p r = step_mask p r
step_in sw_extended_2 end p r = step_extended_2 end p r
step_in sw_extended_8 end p r = step_extended_8 end p r
step_in sw_masking_key end p r = step_masking_key end p r
step_in sw_payload_data end p r = step_payload_data end p r

abbrev pub step : ℕ → ℕ → Request → Verdict Request
step end p r = step_in r.state end p r

-- The function on a buffer whose unread bytes are those from `p` up to `end`.
unfoldable pub parse_frame : ℕ → ℕ → Request → Scanned Request
parse_frame end p r = run step end p r
