-- ===== src/Session/Process/Ends.antt =====
-- The loop over the frames of a buffer ends.
use chatease_server.Common.Scan.Resume.{le_or_lt, run_next}
use chatease_server.Common.Scan.{
  Rc, rc_ok, rc_again, rc_done, next, stop, Scanned, scan, run, Verdict-cases, scan_next, scan_stop,
  scan_more, scan_at_end,
}
use chatease_server.Common.{
  ℕ, zero, suc, ◌+◌, ◌-◌, ◌≤◌, ◌<◌, ◌≡◌, ◌⊎◌, refl, Bool, true, false, Option, none, some, arith,
  ltb, ◌==◌, Bool-cases, inl, inr, length, List, [], ◌∷◌, ◌∙◌,
}
use chatease_server.Session.Process.{
  Handlers, Stream, Gathered, Outcome, again, waits, Ended, after_text, gathered, complete,
  next_frame, parsed, analyzed, first_opcode, copied, default_size, waiting, dispatch, frame_round,
  frame_rounds, process_request,
}
use chatease_server.Websocket.Frame.{State, sw_fin, sw_payload_data, Request}
use chatease_server.Websocket.Parse.Steady.{step-IsSteady}
use chatease_server.Websocket.Parse.{step_in, step, parse_frame}

-- A step that stops is one on the payload, and the next frame is expected.
step_in-stops :
    (st : State) (end p : ℕ) (r : Request) (rc : Rc) (q : ℕ) (t : Request)
    → step_in st end p r ≡ stop rc q t
    → (p ≤ q) × (t.state ≡ sw_fin)
unfolding step_in
step_in-stops sw_payload_data end p r rc q t e = ground (arith, e)
step_in-stops _ end p r rc q t e = ground (arith, e)

-- The parser answers STU_AGAIN, or had bytes to read, is at `q` or behind it and waits for the
-- next frame.
Behind : ℕ → ℕ → ℕ → Scanned Request → Type 0
Behind end p q out = (out.rc ≡ rc_again) ⊎ ((p < end) × (q ≤ out.last) × (out.state.state ≡ sw_fin))

scan-Behind : (fuel end p : ℕ) (r : Request) → Behind end p p (scan step fuel end p r)
unfolding Behind scan
scan-Behind zero end p r = inl refl
scan-Behind (suc fuel) end p r = elim (le_or_lt p end) [
  | inl done ↦ rw (scan_at_end step (suc fuel) end p r done) (inl refl)
  | inr room ↦ elim (Verdict-cases (step end p r)) [
    | inl e ↦ rw (scan_more step (suc fuel) end p r e) (inl refl)
    | inr (inl (q, t, e)) ↦
        let ahead = step-IsSteady.ahead end p r q t e in
        rw (scan_next step fuel end p r q t room e) (elim (scan-Behind fuel end (q + 1) t) [
          | inl waits' ↦ inl waits'
          | inr (inside, le, st) ↦ inr (room, omega arith, st)
        ])
    | inr (inr (rc, q, t, e)) ↦
        rw (scan_stop step fuel end p r rc q t room e)
          (let s = step_in-stops r.state end p r rc q t e in inr (room, s.0, s.1))
  ]
]

parse_frame-Behind : (end p : ℕ) (r : Request) → Behind end p p (parse_frame end p r)
unfolding parse_frame run
parse_frame-Behind end p r = scan-Behind (end - p) end p r

step_fin_next : (end p : ℕ) (r : Request) → (t : Request) × (step_in sw_fin end p r ≡ next p t)
unfolding step_in
step_fin_next end p r = (_, refl)

-- A frame that begins here takes a byte at least.
parse_frame-Behind_next :
    (end p : ℕ) (r : Request) → r.state ≡ sw_fin → Behind end p (p + 1) (parse_frame end p r)
unfolding parse_frame Behind run step_in step_fin_next
parse_frame-Behind_next end p r st = elim (le_or_lt p end) [
  | inl done ↦ rw (scan_at_end step (end - p) end p r done) (inl refl)
  | inr room ↦
      let (t, e) = step_fin_next end p r in
      let taken : step end p r ≡ next p t = rw st e in
      rw (run_next step step-IsSteady end p r p t room taken)
        (elim (parse_frame-Behind end (p + 1) t) [
          | inl h ↦ inl h
          | inr (inside, le, at) ↦ inr (room, le, at)
        ])
]

module _ {S : Type 0} (handlers : Handlers S) (granted : ℕ → Bool) where
  -- The analysis of a text read what it must not.
  abbrev pub IsMisread : Type 0
  IsMisread = (op : ℕ) × (text : List ℕ) × (s : S) × (handlers.analyze op text s ≡ none)

  -- The loop ended by waiting for more bytes, with a return, behind the end of `temp`, or in an
  -- analysis that read what it must not.
  unfoldable pub IsOver : Ended S → Type 0
  IsOver (waiting st) = Unit
  IsOver (Ended.closed s) = Unit
  IsOver (Ended.refused s) = Unit
  IsOver Ended.overrun = Unit
  IsOver Ended.undefined = IsMisread
  IsOver Ended.spent = ⊥

  -- A round that goes on leaves the buffer's end, how far it was read and the parser's state.
  Follows : Stream S → Outcome S → Type 0
  Follows st (again st') =
      (st'.end ≡ st.end) × (st'.last ≡ st.last) × (st'.request.state ≡ st.request.state)
  Follows st Outcome.undefined = IsMisread
  Follows st _ = Unit

  after_text-Follows :
      (st : Stream S) (s : Option S)
      → (s ≡ none → IsMisread)
      → Follows st (after_text handlers granted st s)
  unfolding Follows after_text
  after_text-Follows st none bad = bad refl
  after_text-Follows st (some s) bad = elim (Bool-cases (st.last == st.end)) [
    | inl all ↦ rw (Follows, all) tt
    | inr part ↦ rw (Follows, part) (refl, refl, refl)
  ]

  analyzed-IsMisread :
      (op : ℕ) (text : List ℕ) (s : S) → analyzed handlers granted op text s ≡ none → IsMisread
  analyzed-IsMisread op [] s h = absurd (cc h)
  analyzed-IsMisread op (c ∷ cs) s h = (op, c ∷ cs, s, h)

  gathered-Follows :
      (st : Stream S) (g : Option Gathered) → Follows st (gathered handlers granted st g)
  unfolding Follows
  gathered-Follows st none = tt
  gathered-Follows st (some g) =
      after_text-Follows _ _ (analyzed-IsMisread (first_opcode st.request) g.text st.rest)

  next_frame-Follows : (st : Stream S) → Follows st (next_frame handlers granted st)
  unfolding Follows next_frame
  next_frame-Follows st =
      elim (Bool-cases (ltb (st.request.frame + 1) (length st.request.frames_in))) [
        | inl more' ↦ rw (Follows, more') (refl, refl, refl)
        | inr last' ↦ elim (Bool-cases (granted st.calls)) [
          | inl given ↦ rw (Follows, last', given) (refl, refl, refl)
          | inr refused ↦ rw (Follows, last', refused) tt
        ]
      ]

  -- A round goes on only when the parser has read up to `q` or more.
  Goes : ℕ → Stream S → Outcome S → Type 0
  Goes q st (again st') =
      (st.last < st.end) × (st'.end ≡ st.end) × (q ≤ st'.last) × (st'.request.state ≡ sw_fin)
  Goes q st Outcome.undefined = IsMisread
  Goes q st _ = Unit

  Follows-Goes :
      (q : ℕ) (st : Stream S) (out : Outcome S)
      → st.last < st.end
      → q ≤ (parsed handlers granted st).last
      → (parsed handlers granted st).request.state ≡ sw_fin
      → Follows (parsed handlers granted st) out
      → Goes q st out
  unfolding Follows Goes
  Follows-Goes q st (again st') room le at (h, h', h'') = (room, h, rw h' le, h'' ∙ at)
  Follows-Goes q st Outcome.undefined room le at h = h
  Follows-Goes q st _ room le at h = tt

  dispatch-Follows : (rc : Rc) (st : Stream S) → Follows st (dispatch handlers granted rc st)
  unfolding Follows dispatch complete
  dispatch-Follows rc_done st = elim (Bool-cases (ltb default_size (copied st.request.frames_in))) [
    | inl over ↦ rw (Follows, over) tt
    | inr fits ↦ rw (Follows, fits) (gathered-Follows st _)
  ]
  dispatch-Follows rc_ok st = next_frame-Follows st
  dispatch-Follows _ st = tt

  frame_round-Goes :
      (q : ℕ) (st : Stream S)
      → Behind st.end st.last q (parse_frame st.end st.last st.request)
      → Goes q st (frame_round handlers granted st)
  unfolding Behind frame_round dispatch Goes
  frame_round-Goes q st (inl h) = rw h tt
  frame_round-Goes q st (inr (room, le, at)) =
      Follows-Goes q st _ room le at (dispatch-Follows _ (parsed handlers granted st))

  -- Any round that goes on leaves enough fuel for the next.
  module _ (fuel : ℕ)
      (enough : (st : Stream S)
        → st.request.state ≡ sw_fin
        → st.end - st.last < fuel
        → IsOver (frame_rounds handlers granted fuel st)) where
    run_after :
        (q : ℕ) (st : Stream S) (out : Outcome S)
        → (st.last < st.end → st.end - q < fuel)
        → Goes q st out
        → frame_round handlers granted st ≡ out
        → IsOver (frame_rounds handlers granted (suc fuel) st)
    unfolding Goes frame_rounds IsOver
    run_after q st (again st') h (room, same, le, at) e =
        rw (frame_rounds, e) (enough st' at (rw same (omega (arith, h room))))
    run_after q st (waits st') h goes e = rw (frame_rounds, e, IsOver) tt
    run_after q st (Outcome.closed s) h goes e = rw (frame_rounds, e, IsOver) tt
    run_after q st (Outcome.refused s) h goes e = rw (frame_rounds, e, IsOver) tt
    run_after q st Outcome.overrun h goes e = rw (frame_rounds, e, IsOver) tt
    run_after q st Outcome.undefined h goes e = rw (frame_rounds, e, IsOver) goes

  next_run :
      (fuel : ℕ) (st : Stream S)
      → st.request.state ≡ sw_fin
      → st.end - st.last < fuel
      → IsOver (frame_rounds handlers granted fuel st)
  next_run zero st at h = absurd (omega arith)
  next_run (suc n) st at h =
      run_after n (λ st' at' h'. next_run n st' at' h') (st.last + 1) st _ (λ room. omega arith)
        (frame_round-Goes (st.last + 1) st (parse_frame-Behind_next st.end st.last st.request at))
        refl

  -- Wherever the parser stood in a frame when the bytes came, the loop over the frames of a buffer
  -- ends: by waiting for more bytes, with a return after closing or after an error, with a text that
  -- does not fit `temp`, or because the analysis of a text read what it must not. Two rounds more
  -- than there are bytes to read are enough.
  pub process_request_ends :
      (has_channel : Bool) (st : Stream S)
      → IsOver (process_request handlers granted has_channel st)
  unfolding process_request IsOver
  process_request_ends false st = tt
  process_request_ends true st =
      let there : st.end - st.last + 2 ≡ suc (st.end - st.last + 1) = omega arith in
      rw there (
        run_after (st.end - st.last + 1) (λ st' at h. next_run _ st' at h) st.last st _
          (λ room. omega arith)
          (frame_round-Goes st.last st (parse_frame-Behind st.end st.last st.request)) refl)
