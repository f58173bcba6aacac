-- ===== src/Websocket/Parse/Unmask.antt =====
-- What unmasking does to memory, and a whole client frame.
use chatease_server.Common.Bits.{bit_and_mask, bit_xor_twice}
use chatease_server.Common.Memory.{Mem}
use chatease_server.Common.Scan.{rc_done, next, stop, run}
use chatease_server.Common.Scan.Resume.{run_next, run_stop}
use chatease_server.Common.{
  ℕ, zero, suc, ◌+◌, ◌/◌, ◌%◌, ◌≤◌, ◌<◌, ◌≡◌, ◌⊎◌, inl, inr, refl, ap, ◌∙◌, bit_xor, List, ◌∷◌,
  arith, get_or,
}
use chatease_server.Websocket.Frame.{
  Frame, sw_fin, sw_mask, sw_masking_key, sw_payload_data, Request, current, opcode_text,
  opcode_binary,
}
use chatease_server.Websocket.Parse.{unmask, step_in, step, parse_frame, key_at}
use chatease_server.Websocket.Parse.Steady.{step-IsSteady}

pub unmask_outside :
    (key : List ℕ) (p i left : ℕ) (m : Mem) (a : ℕ)
    → (a < p + i) ⊎ (p + i + left ≤ a)
    → unmask key p i left m a ≡ m a
unfolding unmask
unmask_outside key p i zero m a h = refl
unmask_outside key p i (suc left) m a h =
    unmask_outside key p (i + 1) left _ a (omega arith) ∙ ground arith

eq_or_lt : (i j : ℕ) → i ≤ j → (i ≡ j) ⊎ (i + 1 ≤ j)
eq_or_lt i j h = omega arith

pub unmask_inside :
    (key : List ℕ) (p i left : ℕ) (m : Mem) (j : ℕ)
    → i ≤ j
    → j < i + left
    → unmask key p i left m (p + j) ≡ bit_xor (m (p + j)) (get_or key (j % 4) 0)
unfolding unmask
unmask_inside key p i zero m j lo hi = absurd (omega arith)
unmask_inside key p i (suc left) m j lo hi = elim (eq_or_lt i j lo) [
  | inl same ↦
      rw (← same) (unmask_outside key p (i + 1) left _ (p + i) (inl (omega arith)) ∙ ground arith)
  | inr later ↦ unmask_inside key p (i + 1) left _ j later (omega arith) ∙ ground arith
]

-- A masked frame of a client in memory: a final text or binary frame of `len` bytes, 1 to 125,
-- under the key that stands behind the header.
pub record ClientFrame (m : Mem) (p op len : ℕ) (text : ℕ → ℕ) : Type 0 where
  pub op_is : (op ≡ opcode_text) ⊎ (op ≡ opcode_binary)
  pub len_fits : len < 126
  pub not_empty : 0 < len
  pub opening : m p ≡ 0x80 + op
  pub length_byte : m (p + 1) ≡ 0x80 + len
  pub payload :
      (j : ℕ) → j < len → m (p + 6 + j) ≡ bit_xor (text j) (get_or (key_at m (p + 2)) (j % 4) 0)

module _ (m : Mem) (p op len : ℕ) (text : ℕ → ℕ) (c : ClientFrame m p op len text) (f : Frame)
    (fs : List Frame) where
  abbrev pub request : Request
  request = record { frames_in = f ∷ fs; frame = 0; state = sw_fin; mem = m }

  abbrev pub final_frame : Frame
  final_frame = record {
    fin = 1;
    rsv1 = 0;
    rsv2 = 0;
    rsv3 = 0;
    opcode = op;
    mask = 1;
    payload_len = len;
    extended = len;
    masking_key = key_at m (p + 2);
    payload_data = record { start = p + 6; last = p + 6; end = p + 6 + len };
  }

  abbrev pub final_request : Request
  final_request = record {
    frames_in = final_frame ∷ fs;
    frame = 0;
    state = sw_fin;
    mem = unmask (key_at m (p + 2)) (p + 6) 0 len m;
  }

  abbrev opened : Request
  opened = record request {
    frames_in = record f { fin = 1; rsv1 = 0; rsv2 = 0; rsv3 = 0; opcode = op } ∷ fs;
    state = sw_mask;
  }

  abbrev sized : Request
  sized = record opened {
    frames_in =
        record f {
          fin = 1;
          rsv1 = 0;
          rsv2 = 0;
          rsv3 = 0;
          opcode = op;
          mask = 1;
          payload_len = len;
          extended = len;
        }
        ∷ fs;
    state = sw_masking_key;
  }

  abbrev keyed : Request
  keyed = record sized {
    frames_in =
        record f {
          fin = 1;
          rsv1 = 0;
          rsv2 = 0;
          rsv3 = 0;
          opcode = op;
          mask = 1;
          payload_len = len;
          extended = len;
          masking_key = key_at m (p + 2);
        }
        ∷ fs;
    state = sw_payload_data;
  }

  step-request : (end : ℕ) → step end p request ≡ next p opened
  unfolding step_in
  step-request end = ground (
    arith,
    c.opening,
    c.op_is,
    bit_and_mask 1 (m p / 128),
    bit_and_mask 1 (m p / 64),
    bit_and_mask 1 (m p / 32),
    bit_and_mask 1 (m p / 16),
    bit_and_mask 4 (m p),
  )

  step-opened : (end : ℕ) → step end (p + 1) opened ≡ next (p + 1) sized
  unfolding step_in
  step-opened end = ground (
    arith,
    c.length_byte,
    c.len_fits,
    bit_and_mask 1 (m (p + 1) / 128),
    bit_and_mask 7 (m (p + 1)),
  )

  step-sized : (end : ℕ) → p + 6 ≤ end → step end (p + 2) sized ≡ next (p + 2 + 3) keyed
  unfolding step_in
  step-sized end h = ground arith

  step-keyed :
      (end : ℕ)
      → p + 6 + len ≤ end
      → step end (p + 6) keyed ≡ stop rc_done (p + 6 + len) final_request
  unfolding step_in
  step-keyed end h = ground (arith, c.op_is)

  pub parse_frame-request :
      (end : ℕ)
      → p + 6 + len ≤ end
      → parse_frame end p request
        ≡ record { rc = rc_done; last = p + 6 + len; state = final_request }
  unfolding parse_frame
  parse_frame-request end h =
      run_next step step-IsSteady end p request _ _ (omega arith) (step-request end)
      ∙ run_next step step-IsSteady end (p + 1) opened _ _ (omega arith) (step-opened end)
      ∙ ap (λ q. run step end q sized) (omega arith)
      ∙ run_next step step-IsSteady end (p + 2) sized _ _ (omega arith)
          (step-sized end (omega arith))
      ∙ ap (λ q. run step end q keyed) (omega arith)
      ∙ run_stop step step-IsSteady end (p + 6) keyed _ _ _ (omega (arith, c.not_empty))
          (step-keyed end h)

  -- When the parser is at the first frame of a chain of any length and expects a new frame, a final
  -- masked text or binary frame of 1 to 125 bytes that lies whole in the buffer is read in one call:
  -- STU_DONE, the position behind it, the frame's fields, the client's text unmasked in place, and
  -- no other byte of memory changed.
  pub parse_frame-ClientFrame :
      (end : ℕ)
      → p + 6 + len ≤ end
      → ((j : ℕ) → j < len → text j < 256)
      → ((i : ℕ) → i < 4 → get_or (key_at m (p + 2)) i 0 < 256)
      → let out = parse_frame end p request in
        (out.rc ≡ rc_done)
        × (out.last ≡ p + 6 + len)
        × (current out.state ≡ final_frame)
        × ((j : ℕ) → j < len → out.state.mem (p + 6 + j) ≡ text j)
        × ((a : ℕ) → (a < p + 6) ⊎ (p + 6 + len ≤ a) → out.state.mem a ≡ m a)
  parse_frame-ClientFrame end h bytes keys = rw (parse_frame-request end h) (
    refl,
    refl,
    refl,
    λ j lt.
        unmask_inside (key_at m (p + 2)) (p + 6) 0 len m j (omega arith) (omega arith)
        ∙ rw (c.payload j lt) (bit_xor_twice (text j) _ (bytes j lt) (keys (j % 4) (omega arith))),
    λ a out. unmask_outside (key_at m (p + 2)) (p + 6) 0 len m a (omega arith),
  )
