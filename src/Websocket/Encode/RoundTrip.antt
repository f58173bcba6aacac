-- ===== src/Websocket/Encode/RoundTrip.antt =====
-- The parser reads back what the encoder writes.
use chatease_server.Common.Bits.{bit_and_mask, bit_or_fields}
use chatease_server.Common.Memory.{Mem}
use chatease_server.Common.Scan.{rc_done, next, stop, run}
use chatease_server.Common.Scan.Resume.{run_next, run_stop}
use chatease_server.Common.{
  ℕ, ◌+◌, ◌-◌, ◌/◌, ◌%◌, ◌^◌, ◌≤◌, ◌<◌, ◌≡◌, ap, ◌∙◌, bit_or, false, arith, ltb, List, ◌∷◌,
}
use chatease_server.Websocket.Encode.{u8}
use chatease_server.Websocket.Frame.{
  Frame, State, sw_fin, sw_mask, sw_extended_2, sw_extended_8, sw_payload_data, Request,
}
use chatease_server.Websocket.Parse.Steady.{step-IsSteady}
use chatease_server.Websocket.Parse.{step_in, step, parse_frame, extended_64}

-- One frame in memory `m` from `p` up to `end`, unmasked, final, with opcode `op`.
module _ (m : Mem) (p end op size : ℕ) (f : Frame) (fs : List Frame) (op_fits : op < 16)
    (opening : m p ≡ bit_or 0x80 op) (not_empty : 0 < size) where
  abbrev at_state : ℕ → ℕ → ℕ → State → Request
  at_state masked len ext st = record {
    frames_in =
        record f {
          fin = 1;
          rsv1 = 0;
          rsv2 = 0;
          rsv3 = 0;
          opcode = op;
          mask = masked;
          payload_len = len;
          extended = ext;
        }
        ∷ fs;
    frame = 0;
    state = st;
    mem = m;
  }

  abbrev pub fresh : Request
  fresh = record { frames_in = f ∷ fs; frame = 0; state = sw_fin; mem = m }

  -- What is left when the payload stands at `q`.
  abbrev pub finished : ℕ → ℕ → Request
  finished len q = record {
    frames_in =
        record f {
          fin = 1;
          rsv1 = 0;
          rsv2 = 0;
          rsv3 = 0;
          opcode = op;
          mask = 0;
          payload_len = len;
          extended = size;
          payload_data = record { start = q; last = q; end = q + size };
        }
        ∷ fs;
    frame = 0;
    state = sw_fin;
    mem = m;
  }

  step-fresh : step end p fresh ≡ next p (at_state f.mask f.payload_len f.extended sw_mask)
  unfolding step_in
  step-fresh = ground (
    arith,
    bit_or_fields 7 1 op,
    bit_and_mask 1 (m p / 128),
    bit_and_mask 1 (m p / 64),
    bit_and_mask 1 (m p / 32),
    bit_and_mask 1 (m p / 16),
    bit_and_mask 4 (m p),
  )

  step-short :
      m (p + 1) ≡ u8 size
      → size < 126
      → step end (p + 1) (at_state f.mask f.payload_len f.extended sw_mask)
        ≡ next (p + 1) (at_state 0 size size sw_payload_data)
  unfolding step_in
  step-short e h = ground (arith, bit_and_mask 1 (m (p + 1) / 128), bit_and_mask 7 (m (p + 1)))

  step-medium :
      m (p + 1) ≡ 0x7E
      → step end (p + 1) (at_state f.mask f.payload_len f.extended sw_mask)
        ≡ next (p + 1) (at_state 0 126 f.extended sw_extended_2)
  unfolding step_in
  step-medium e = rw e

  step-long :
      m (p + 1) ≡ 0x7F
      → step end (p + 1) (at_state f.mask f.payload_len f.extended sw_mask)
        ≡ next (p + 1) (at_state 0 127 f.extended sw_extended_8)
  unfolding step_in
  step-long e = rw e

  step-extended_2 :
      p + 4 ≤ end
      → size < 65536
      → m (p + 2) ≡ u8 (size / 2 ^ 8)
      → m (p + 2 + 1) ≡ u8 size
      → step end (p + 2) (at_state 0 126 f.extended sw_extended_2)
        ≡ next (p + 2 + 1) (at_state 0 126 size sw_payload_data)
  unfolding step_in
  step-extended_2 room h e0 e1 = ground (arith, bit_or_fields 8 (size / 2 ^ 8) (size % 2 ^ 8))

  step-extended_8 :
      p + 10 ≤ end
      → extended_64 m (p + 2) ≡ size
      → step end (p + 2) (at_state 0 127 f.extended sw_extended_8)
        ≡ next (p + 2 + 7) (at_state 0 127 size sw_payload_data)
  unfolding step_in
  step-extended_8 room e =
      let enough : ltb (end - (p + 2)) 8 ≡ false = ground arith in rw (enough, e)

  step-payload :
      (q len : ℕ)
      → q + size ≤ end
      → step end q (at_state 0 len size sw_payload_data) ≡ stop rc_done (q + size) (finished len q)
  unfolding step_in
  step-payload q len h = ground arith

  read_payload :
      (q len : ℕ)
      → q + size ≡ end
      → run step end q (at_state 0 len size sw_payload_data)
        ≡ record { rc = rc_done; last = end; state = finished len q }
  read_payload q len e =
      run_stop step step-IsSteady end q _ _ _ _ (omega arith) (step-payload q len (omega arith))
      ∙ ap (λ x. record { rc = rc_done; last = x; state = finished len q }) e

  pub read_short :
      m (p + 1) ≡ u8 size
      → size < 126
      → p + 2 + size ≡ end
      → parse_frame end p fresh ≡ record { rc = rc_done; last = end; state = finished size (p + 2) }
  unfolding parse_frame
  read_short e h room =
      run_next step step-IsSteady end p fresh _ _ (omega arith) step-fresh
      ∙ run_next step step-IsSteady end (p + 1) _ _ _ (omega arith) (step-short e h)
      ∙ ap (λ q. run step end q (at_state 0 size size sw_payload_data)) (omega arith)
      ∙ read_payload (p + 2) size room

  pub read_medium :
      m (p + 1) ≡ 0x7E
      → size < 65536
      → m (p + 2) ≡ u8 (size / 2 ^ 8)
      → m (p + 2 + 1) ≡ u8 size
      → p + 4 + size ≡ end
      → parse_frame end p fresh ≡ record { rc = rc_done; last = end; state = finished 126 (p + 4) }
  unfolding parse_frame
  read_medium e h e0 e1 room =
      run_next step step-IsSteady end p fresh _ _ (omega arith) step-fresh
      ∙ run_next step step-IsSteady end (p + 1) _ _ _ (omega arith) (step-medium e)
      ∙ ap (λ q. run step end q (at_state 0 126 f.extended sw_extended_2)) (omega arith)
      ∙ run_next step step-IsSteady end (p + 2) _ _ _ (omega arith)
          (step-extended_2 (omega arith) h e0 e1)
      ∙ ap (λ q. run step end q (at_state 0 126 size sw_payload_data)) (omega arith)
      ∙ read_payload (p + 4) 126 room

  pub read_long :
      m (p + 1) ≡ 0x7F
      → extended_64 m (p + 2) ≡ size
      → p + 10 + size ≡ end
      → parse_frame end p fresh ≡ record { rc = rc_done; last = end; state = finished 127 (p + 10) }
  unfolding parse_frame
  read_long e e0 room =
      run_next step step-IsSteady end p fresh _ _ (omega arith) step-fresh
      ∙ run_next step step-IsSteady end (p + 1) _ _ _ (omega arith) (step-long e)
      ∙ ap (λ q. run step end q (at_state 0 127 f.extended sw_extended_8)) (omega arith)
      ∙ run_next step step-IsSteady end (p + 2) _ _ _ (omega arith)
          (step-extended_8 (omega arith) e0)
      ∙ ap (λ q. run step end q (at_state 0 127 size sw_payload_data)) (omega arith)
      ∙ read_payload (p + 10) 127 room
