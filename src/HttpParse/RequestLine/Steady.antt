-- ===== src/HttpParse/RequestLine/Steady.antt =====
-- A request line may arrive in pieces, unless a piece ends inside the version.
use chatease_server.Common.Memory.{Mem}
use chatease_server.Common.Scan.{Rc, rc_error, rc_again, next, stop, run, IsSteady}
use chatease_server.Common.Scan.Call.{GoesOn, Agrees, call_twice}
use chatease_server.Common.{ℕ, ◌≤◌, ◌≡◌, ◌≢◌, inr, refl, ap, arith, none, some}
use chatease_server.HttpParse.RequestLine.{
  State, sw_start, sw_version, Request, step_in, step, forget, leave, parse_request_line,
}

module _ (m : Mem) where
  step_in-ahead :
      (st : State) (p : ℕ) (r : Request) (q : ℕ) (t : Request) → step_in m st p r ≡ next q t → p ≤ q
  unfolding step_in
  step_in-ahead sw_start p r q t e = ground arith
  step_in-ahead (sw_version none) p r q t e = ground arith
  step_in-ahead (sw_version (some v)) p r q t e = ground arith
  step_in-ahead _ p r q t e = ground arith

  step_in-final :
      (st : State) (p : ℕ) (r : Request) (rc : Rc) (q : ℕ) (t : Request)
      → step_in m st p r ≡ stop rc q t
      → rc ≢ rc_again
  unfolding step_in
  step_in-final sw_start p r rc q t e = ground arith
  step_in-final (sw_version none) p r rc q t e = ground arith
  step_in-final (sw_version (some v)) p r rc q t e = ground arith
  step_in-final _ p r rc q t e = ground arith

  pub step-IsSteady : IsSteady (step m)
  step-IsSteady = record {
    ahead = λ end p r q t e. step_in-ahead r.state p r q t e;
    stays = λ end end' p r h le. inr refl;
    stop_final = λ end p r rc q t e. step_in-final r.state p r rc q t e;
  }

-- The parser is not in the middle of the version.
abbrev pub NotInVersion : State → Type 0
NotInVersion (sw_version v) = ⊥
NotInVersion _ = Unit

forget_lem : (st : State) → NotInVersion st → forget st ≡ st
unfolding forget
forget_lem sw_start h = refl
forget_lem (sw_version v) h = absurd h
forget_lem _ h = refl

leave_entry : (rc : Rc) (s t u : Request) → GoesOn rc → leave rc s u ≡ leave rc t u
leave_entry rc_error s t u h = ground arith
leave_entry _ s t u h = refl

-- When the first piece of a request line ends outside the version, and the parser answered
-- STU_AGAIN to it, a second call returns the code that one call on everything returns; unless
-- that is STU_ERROR it leaves the same position, and on STU_OK and STU_AGAIN the same request.
pub parse_request_line_twice :
    (m : Mem) (end end' p : ℕ) (r : Request)
    → end ≤ end'
    → (run (step m) end p r).rc ≡ rc_again
    → NotInVersion (run (step m) end p r).state.state
    → let first = parse_request_line m end p r in
      Agrees (parse_request_line m end' first.last first.state) (parse_request_line m end' p r)
unfolding parse_request_line
parse_request_line_twice m end end' p r le again outside =
    call_twice (step m) leave (step-IsSteady m) leave_entry end end' p r le again
      (ap (λ st. record (run (step m) end p r).state { state = st }) (forget_lem _ outside))
