-- ===== src/Session/Wire/Arrives.antt =====
-- What a client's parser reads in the bytes of a frame that is sent.
use chatease_server.Common.Memory.{Mem, Holds, Holds-get}
use chatease_server.Common.Scan.{rc_done, Scanned}
use chatease_server.Common.{
  ℕ, suc, ◌+◌, ◌-◌, ◌/◌, ◌^◌, ◌≤◌, ◌<◌, ◌≡◌, refl, arith, List, [], ◌∷◌, ◌++◌, length, bit_or, ltb,
  Bool-cases, inl, inr, ltb→lt, ap, All, map, ◌==◌, if◌then◌else◌,
}
use chatease_server.Json.Parse.{tree, parse}
use chatease_server.Json.Print.{Doubles, print_value}
use chatease_server.Json.Printable.{IsPrintable}
use chatease_server.Json.RoundTrip.{parse-print_value}
use chatease_server.Json.Value.{Items, object}
use chatease_server.Session.Status
use chatease_server.Session.Wire.{loaded, frame_bytes, Send, request_handler}
use chatease_server.Websocket.Encode.Bytes.{header, slice-encode_frame}
use chatease_server.Websocket.Encode.RoundTrip.{read_short, read_medium}
use chatease_server.Websocket.Encode.{u8}
use chatease_server.Websocket.Frame.{Frame, sw_fin, Request, current}
use chatease_server.Websocket.Parse.{parse_frame}

frame_bytes-header :
    (op : ℕ) (payload : List ℕ)
    → length payload < 65536
    → frame_bytes op payload ≡ header op (length payload) ++ payload
unfolding frame_bytes
frame_bytes-header op payload h =
    slice-encode_frame op payload (loaded payload)
      (Holds-get (loaded payload) 10 payload (λ j lt. ground arith)) h

-- STU_DONE for a frame with opcode `op` whose payload is what stands right in front of `end`.
pub record IsRead (op end : ℕ) (payload : List ℕ) (m : Mem) (out : Scanned Request) : Type 0 where
  pub rc_is : out.rc ≡ rc_done
  pub last_is : out.last ≡ end
  pub opcode_is : (current out.state).opcode ≡ op
  pub end_is : (current out.state).payload_data.end ≡ end
  pub start_is : (current out.state).payload_data.start + length payload ≡ end
  pub payload_is : Holds m (current out.state).payload_data.start payload
  pub mem_is : out.state.mem ≡ m

-- A client's request before it has read anything of memory `m`.
abbrev pub client : Frame → Mem → Request
client f m = record { frames_in = f ∷ []; frame = 0; state = sw_fin; mem = m }

module _ (op : ℕ) (payload : List ℕ) (op_fits : op < 16) (not_empty : 0 < length payload) (m : Mem)
    (p : ℕ) (f : Frame) where
  short_arrives :
      length payload < 126
      → Holds m p (bit_or 0x80 op ∷ u8 (length payload) ∷ payload)
      → let end = p + suc (suc (length payload)) in
        IsRead op end payload m (parse_frame end p (client f m))
  short_arrives h (h0, (h1, rest)) =
      let end = p + suc (suc (length payload)) in
      let there : p + 2 ≡ p + 1 + 1 = omega arith in
      rw (read_short m p end op (length payload) f [] op_fits h0 not_empty h1 h (omega arith))
        (record {
          rc_is = refl;
          last_is = refl;
          opcode_is = refl;
          end_is = omega arith;
          start_is = omega arith;
          payload_is = rw there rest;
          mem_is = refl;
        })

  medium_arrives :
      length payload < 65536
      → Holds m p
          (bit_or 0x80 op ∷ 0x7E ∷ u8 (length payload / 2 ^ 8) ∷ u8 (length payload) ∷ payload)
      → let end = p + suc (suc (suc (suc (length payload)))) in
        IsRead op end payload m (parse_frame end p (client f m))
  medium_arrives h (h0, (h1, (h2, (h3, rest)))) =
      let end = p + suc (suc (suc (suc (length payload)))) in
      let there : p + 4 ≡ p + 1 + 1 + 1 + 1 = omega arith in
      let two : p + 2 ≡ p + 1 + 1 = omega arith in
      let three : p + 2 + 1 ≡ p + 1 + 1 + 1 = omega arith in
      rw
        (read_medium m p end op (length payload) f [] op_fits h0 not_empty h1 h (rw two h2)
          (rw three h3) (omega arith))
        (record {
          rc_is = refl;
          last_is = refl;
          opcode_is = refl;
          end_is = omega arith;
          start_is = omega arith;
          payload_is = rw there rest;
          mem_is = refl;
        })

  pub frame_arrives :
      length payload < 65536
      → Holds m p (frame_bytes op payload)
      → let end = p + length (frame_bytes op payload) in
        IsRead op end payload m (parse_frame end p (client f m))
  frame_arrives h at =
      rw (frame_bytes-header op payload h) (elim (Bool-cases (ltb (length payload) 126)) [
        | inl short ↦ rw short (
            short_arrives (ltb→lt (length payload) 126 short)
              (rw (frame_bytes-header op payload h, short) at at))
        | inr long ↦ rw long (medium_arrives h (rw (frame_bytes-header op payload h, long) at at))
      ])

-- However the bytes come to a client, its parser finds the whole frame, and the payload that it
-- finds is the printed form of the object.
abbrev pub ReadsAs : Doubles → ℕ → Items → List ℕ → Type 0
ReadsAs doubles op xs bytes =
    (m : Mem) (p fuel : ℕ) (f : Frame)
    → Holds m p bytes
    → m (p + length bytes) ≡ 0
    → 4096 ≤ fuel
    → let out = parse_frame (p + length bytes) p (client f m) in
      let payload = (current out.state).payload_data in
      (out.rc ≡ rc_done)
      × ((current out.state).opcode ≡ op)
      × (parse doubles out.state.mem fuel payload.start (payload.end - payload.start)
          ≡ tree (object xs))

module _ (doubles : Doubles) (op : ℕ) (xs : Items) (op_fits : op < 16)
    (ok : IsPrintable doubles (object xs))
    (room : 10 + length (print_value doubles (object xs)) ≤ 1024) where
  abbrev printed : List ℕ
  printed = print_value doubles (object xs)

  printed_some : 0 < length printed
  unfolding print_value
  printed_some = omega arith

  frame-ReadsAs : ReadsAs doubles op xs (frame_bytes op printed)
  frame-ReadsAs m p fuel f at ends enough =
      let end = p + length (frame_bytes op printed) in
      let out = parse_frame end p (client f m) in
      let r = frame_arrives op printed op_fits printed_some m p f (omega (arith, room)) at in
      let start = (current out.state).payload_data.start in
      let size : end - start ≡ length printed = omega (arith, r.start_is) in
      let zero_behind : m (start + length printed) ≡ 0 = rw r.start_is ends in
      (
        r.rc_is,
        r.opcode_is,
        rw (r.mem_is, r.end_is, size)
            (parse-print_value doubles m (object xs) fuel start (length printed) ok r.payload_is
              zero_behind (omega arith) (omega (arith, room)) (omega (arith, room))),
      )

  to_all :
      (fds : List ℕ)
      → let sends = map {B = Send} (λ fd. record { fd = fd; bytes = frame_bytes op printed }) fds in
        (map (λ s. s.fd) sends ≡ fds) × All (λ s. ReadsAs doubles op xs s.bytes) sends
  to_all [] = (refl, tt)
  to_all (fd ∷ fds) = let ih = to_all fds in (ap (λ r. fd ∷ r) ih.0, (frame-ReadsAs, ih.1))

  -- When an object whose printed form fits the array of 1024 bytes behind ten others, and that the
  -- printer writes so that it can be read back, is sent with a status: with STU_HTTP_OK there is
  -- one frame for each user of the channel, in order, and with any other status there is one for
  -- the sender only. Each of them, wherever a client has its bytes with a zero behind them, is read
  -- by the frame parser as a whole frame with the opcode sent, and its payload by the JSON parser,
  -- with enough fuel, as that object.
  pub request_handler-ReadsAs :
      (status self : ℕ) (fds : List ℕ)
      → let sends = request_handler status self fds (frame_bytes op printed) in
        (map (λ s. s.fd) sends ≡ (if status == Status.ok then fds else self ∷ []))
        × All (λ s. ReadsAs doubles op xs s.bytes) sends
  unfolding request_handler
  request_handler-ReadsAs status self fds = elim (Bool-cases (status == Status.ok)) [
    | inl ok ↦ rw ok (to_all fds)
    | inr refused ↦ rw refused (refl, (frame-ReadsAs, tt))
  ]
