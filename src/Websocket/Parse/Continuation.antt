-- ===== src/Websocket/Parse/Continuation.antt =====
-- The masking key of a frame after the first of a message.
use chatease_server.Common.Memory.{Mem}
use chatease_server.Common.Scan.{rc_ok, rc_done, next, stop, run}
use chatease_server.Common.Scan.Resume.{run_next, run_stop}
use chatease_server.Common.{
  ℕ, suc, ◌+◌, ◌-◌, ◌≤◌, ◌<◌, ◌≡◌, ap, ◌∙◌, refl, ◌⊎◌, inl, inr, ◌%◌, ◌||◌, bit_xor, Bool,
  Bool-cases, true, false, List, ◌∷◌, arith, ltb, ◌==◌, if◌then◌else◌, get_or, set,
}
use chatease_server.Websocket.Frame.{
  Frame, empty_frame, sw_fin, sw_masking_key, sw_payload_data, Request, opcode_text, opcode_binary,
}
use chatease_server.Websocket.Parse.{step_in, step, parse_frame, unmasked, key_at}
use chatease_server.Websocket.Parse.Steady.{step-IsSteady}
use chatease_server.Websocket.Parse.Unmask.{unmask_inside, unmask_outside}

-- A parser that is about to read the masking key of the frame at position `k + 1`.
module _ (p end k : ℕ) (f : Frame) (rest : List Frame) (m : Mem) where
  abbrev pub following : Request
  following = record { frames_in = f ∷ rest; frame = suc k; state = sw_masking_key; mem = m }

  -- That frame.
  abbrev pub this : Frame
  this = get_or rest k empty_frame

  abbrev keyed : Request
  keyed = record following {
    frames_in = record f { masking_key = key_at m p } ∷ rest;
    state = sw_payload_data;
  }

  abbrev pub finished : Request
  finished = record {
    frames_in =
        record f { masking_key = key_at m p }
        ∷ set rest k (record this {
          payload_data = record { start = p + 4; last = p + 4; end = p + 4 + this.extended };
        });
    frame = suc k;
    state = sw_fin;
    mem = unmasked (p + 4) following;
  }

  step-following : p + 4 ≤ end → step end p following ≡ next (p + 3) keyed
  unfolding step_in
  step-following h = ground arith

  step-keyed :
      p + 4 + this.extended ≤ end
      → step end (p + 4) keyed
        ≡ stop (if this.fin == 0 then rc_ok else rc_done) (p + 4 + this.extended) finished
  unfolding step_in
  step-keyed h = let enough : ltb (end - (p + 4)) this.extended ≡ false = ground arith in rw enough

  parse_frame-finished :
      p + 4 + this.extended ≤ end
      → 0 < this.extended
      → parse_frame end p following ≡ record {
        rc = if this.fin == 0 then rc_ok else rc_done;
        last = p + 4 + this.extended;
        state = finished;
      }
  unfolding parse_frame
  parse_frame-finished h not_empty =
      run_next step step-IsSteady end p following _ _ (omega arith) (step-following (omega arith))
      ∙ ap (λ q. run step end q keyed) (omega arith)
      ∙ run_stop step step-IsSteady end (p + 4) keyed _ _ _ (omega arith) (step-keyed h)

  abbrev pub is_message : Bool
  is_message = this.opcode == opcode_text || this.opcode == opcode_binary

  -- A masked text or binary frame is unmasked with the key that it held before, and nothing else is
  -- changed; of any other frame, as of a continuation frame, nothing is changed at all.
  abbrev pub IsUnmasked : Mem → Type 0
  IsUnmasked m' =
      ((is_message ≡ true)
        × ((this.mask == 0) ≡ false)
        × ((j : ℕ)
            → j < this.extended
            → m' (p + 4 + j) ≡ bit_xor (m (p + 4 + j)) (get_or this.masking_key (j % 4) 0))
        × ((a : ℕ) → (a < p + 4) ⊎ (p + 4 + this.extended ≤ a) → m' a ≡ m a))
      ⊎ (((is_message ≡ false) ⊎ ((this.mask == 0) ≡ true)) × (m' ≡ m))

  finished-IsUnmasked : IsUnmasked finished.mem
  finished-IsUnmasked = elim (Bool-cases is_message) [
    | inr other ↦ inr (inl other, rw other refl)
    | inl message ↦ elim (Bool-cases (this.mask == 0)) [
      | inl plain ↦ inr (inr plain, rw (message, plain) refl)
      | inr masked ↦ inl (
        message,
        masked,
        λ j lt.
            rw (message, masked)
              (unmask_inside this.masking_key (p + 4) 0 this.extended m j (omega arith)
                (omega arith)),
        λ a out.
            rw (message, masked)
              (unmask_outside this.masking_key (p + 4) 0 this.extended m a (omega arith)),
      )
    ]
  ]

  -- When the parser is about to read the key of a frame that is not the first of its chain, and the
  -- key and the whole payload, of one byte at least, lie in the buffer: the key is stored in the
  -- first frame, the payload's place in the frame itself, and the call returns behind the payload,
  -- STU_OK or STU_DONE as fin says. The payload of a masked text or binary frame is unmasked with
  -- the key that the frame held before, not with the one that was just read; that of any other
  -- frame, as of a continuation frame, is not unmasked.
  pub parse_frame-following :
      p + 4 + this.extended ≤ end
      → 0 < this.extended
      → (parse_frame end p following ≡ record {
        rc = if this.fin == 0 then rc_ok else rc_done;
        last = p + 4 + this.extended;
        state = finished;
      })
        × IsUnmasked finished.mem
  parse_frame-following h not_empty = (parse_frame-finished h not_empty, finished-IsUnmasked)
