-- ===== src/HttpRequest/Lines/Ends.antt =====
-- The loop over the header lines ends.
use chatease_server.Common.Memory.{Mem}
use chatease_server.Common.Scan.Call.{call, finish}
use chatease_server.Common.Scan.Resume.{le_or_lt}
use chatease_server.Common.Scan.{
  Rc, rc_ok, rc_again, rc_done, stop, scan, run, Verdict-cases, scan_next, scan_stop, scan_more,
  scan_at_end,
}
use chatease_server.Common.{
  ℕ, zero, suc, ◌+◌, ◌-◌, ◌<◌, ◌≡◌, ◌≢◌, refl, Bool, true, Option, none, some, arith, inl, inr,
  false, if◌then◌else◌,
}
use chatease_server.HttpParse.HeaderLine.Steady.{step-IsSteady}
use chatease_server.HttpParse.HeaderLine.{
  State, sw_start, Request, step_in, step, parse_header_line,
}
use chatease_server.HttpRequest.Handlers.{Library, Handled, Code, ok, again, http}
use chatease_server.HttpRequest.Lines.{
  Reader, Outcome, Ended, on_result, after_dispatch, line_mem, process_line, on_code, read_line,
  line_round, line_rounds, process_request_headers,
}

module _ (m : Mem) (underscores : Bool) where
  step_in-stops :
      (st : State) (p : ℕ) (r : Request) (q : ℕ) (t : Request)
      → step_in m underscores st p r ≡ stop rc_ok q t
      → p < q
  unfolding step_in
  step_in-stops sw_start p r q t e = ground arith
  step_in-stops _ p r q t e = ground arith

  -- STU_OK is only answered behind a byte that was there.
  scan_moves :
      (fuel end p : ℕ) (r : Request)
      → (scan (step m underscores) fuel end p r).rc ≡ rc_ok
      → (p < end) × (p < (scan (step m underscores) fuel end p r).last)
  unfolding scan
  scan_moves zero end p r e = ground (arith, e)
  scan_moves (suc fuel) end p r e = elim (le_or_lt p end) [
    | inl done ↦ absurd (
        let h = rw (scan_at_end (step m underscores) (suc fuel) end p r done) at e in
        ground (arith, h))
    | inr room ↦ elim (Verdict-cases (step m underscores end p r)) [
      | inl h ↦ absurd (
          let h' = rw (scan_more (step m underscores) (suc fuel) end p r h) at e in
          ground (arith, h'))
      | inr (inl (q, t, h)) ↦
          let ahead = (step-IsSteady m underscores).ahead end p r q t h in
          let one = scan_next (step m underscores) fuel end p r q t room h in
          let rest = scan_moves fuel end (q + 1) t (rw one at e) in
          rw one (room, omega (arith, ahead, rest.1))
      | inr (inr (rc, q, t, h)) ↦
          let one = scan_stop (step m underscores) fuel end p r rc q t room h in
          let is_ok : rc ≡ rc_ok = rw one at e in
          rw one (room, step_in-stops r.state p r q t (rw is_ok at h))
    ]
  ]

  parse_moves :
      (end p : ℕ) (r : Request)
      → (parse_header_line m underscores end p r).rc ≡ rc_ok
      → (p < end) × (p < (parse_header_line m underscores end p r).last)
  unfolding parse_header_line call finish run
  parse_moves end p r e = let moved = scan_moves (end - p) end p r e in rw e moved

module _ (library : Library) where
  -- What a round that goes on has read.
  MovesOn : ℕ → ℕ → Outcome → Type 0
  MovesOn end p (Outcome.next s) = (p < end) × (p < s.last)
  MovesOn end p _ = Unit

  on_result-MovesOn :
      (end p : ℕ) (s : Reader) (c : Code)
      → p < end
      → p < s.last
      → MovesOn end p (on_result library c s)
  unfolding MovesOn on_result
  on_result-MovesOn end p s ok room moved = (room, moved)
  on_result-MovesOn end p s again room moved = tt
  on_result-MovesOn end p s (http status) room moved = tt

  after_dispatch-MovesOn :
      (end p : ℕ) (s : Reader) (h : Option Handled)
      → p < end
      → p < s.last
      → MovesOn end p (after_dispatch library s h)
  unfolding MovesOn after_dispatch
  after_dispatch-MovesOn end p s none room moved = tt
  after_dispatch-MovesOn end p s (some r) room moved =
      on_result-MovesOn end p (record s { headers = r.headers }) r.code room moved

  either-MovesOn :
      (end p : ℕ) (b : Bool) (x y : Outcome)
      → MovesOn end p x
      → MovesOn end p y
      → MovesOn end p (if b then x else y)
  either-MovesOn end p true x y hx hy = hx
  either-MovesOn end p false x y hx hy = hy

  on_code-MovesOn :
      (end p : ℕ) (rc : Rc) (s : Reader)
      → (rc ≡ rc_ok → (p < end) × (p < s.last))
      → MovesOn end p (on_code library rc s)
  unfolding MovesOn on_code process_line
  on_code-MovesOn end p rc_ok s h = either-MovesOn end p s.parser.invalid_header _ _ tt (
      after_dispatch-MovesOn end p (record s { mem = line_mem s.mem s.parser }) _ (h refl).0
        (h refl).1)
  on_code-MovesOn end p rc_done s h = tt
  on_code-MovesOn end p rc_again s h = tt
  on_code-MovesOn end p _ s h = tt

  line_round-MovesOn : (end : ℕ) (s : Reader) → MovesOn end s.last (line_round library end s)
  unfolding line_round
  line_round-MovesOn end s =
      on_code-MovesOn end s.last _ (read_line library end s)
        (λ e. parse_moves s.mem true end s.last s.parser e)

  module _ (fuel end : ℕ)
      (enough : (s : Reader)
        → end - s.last < fuel
        → line_rounds library fuel end s ≢ Ended.spent) where
    after_round :
        (s : Reader) (out : Outcome)
        → end - s.last < suc fuel
        → MovesOn end s.last out
        → line_round library end s ≡ out
        → line_rounds library (suc fuel) end s ≢ Ended.spent
    unfolding MovesOn line_rounds
    after_round s (Outcome.next s') h moves e =
        rw (line_rounds, e) (enough s' (omega (arith, moves.0, moves.1)))
    after_round s (Outcome.left c s') h moves e = rw (line_rounds, e) (ground arith)
    after_round s Outcome.undefined h moves e = rw (line_rounds, e) (ground arith)

  line_rounds_end :
      (fuel end : ℕ) (s : Reader)
      → end - s.last < fuel
      → line_rounds library fuel end s ≢ Ended.spent
  line_rounds_end zero end s h = absurd (omega arith)
  line_rounds_end (suc fuel) end s h =
      after_round fuel end (λ s' h'. line_rounds_end fuel end s' h') s _ h
        (line_round-MovesOn end s) refl

  -- Whatever the bytes of the headers are, and wherever the parser stood when they came, the loop
  -- over the header lines of a buffer returns, unless a header function divides by zero or writes
  -- behind an array: one round more than there are bytes to read is enough.
  pub process_request_headers_end :
      (end : ℕ) (s : Reader) → process_request_headers library end s ≢ Ended.spent
  unfolding process_request_headers
  process_request_headers_end end s = line_rounds_end (end - s.last + 1) end s (omega arith)
