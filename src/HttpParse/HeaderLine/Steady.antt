-- ===== src/HttpParse/HeaderLine/Steady.antt =====
-- A header may arrive in pieces, and the lower-case copy of its name stays in its array.
use chatease_server.Common.Memory.{Mem}
use chatease_server.Common.Scan.{Rc, rc_error, rc_again, rc_done, next, stop, run, IsSteady}
use chatease_server.Common.Scan.Call.{GoesOn, Agrees, call_twice}
use chatease_server.Common.{ℕ, ◌≤◌, ◌<◌, ◌≡◌, ◌≢◌, inr, refl, arith, Bool, length}
use chatease_server.HttpParse.HeaderLine.{
  State, sw_start, Request, step_in, step, leave, parse_header_line,
}

module _ (m : Mem) (underscores : Bool) where
  step_in-ahead :
      (st : State) (p : ℕ) (r : Request) (q : ℕ) (t : Request)
      → step_in m underscores st p r ≡ next q t
      → p ≤ q
  unfolding step_in
  step_in-ahead sw_start p r q t e = ground arith
  step_in-ahead _ p r q t e = ground arith

  step_in-final :
      (st : State) (p : ℕ) (r : Request) (rc : Rc) (q : ℕ) (t : Request)
      → step_in m underscores st p r ≡ stop rc q t
      → rc ≢ rc_again
  unfolding step_in
  step_in-final sw_start p r rc q t e = ground arith
  step_in-final _ p r rc q t e = ground arith

  pub step-IsSteady : IsSteady (step m underscores)
  step-IsSteady = record {
    ahead = λ end p r q t e. step_in-ahead r.state p r q t e;
    stays = λ end end' p r h le. inr refl;
    stop_final = λ end p r rc q t e. step_in-final r.state p r rc q t e;
  }

leave_entry : (rc : Rc) (s t u : Request) → GoesOn rc → leave rc s u ≡ leave rc t u
leave_entry rc_error s t u h = ground arith
leave_entry rc_done s t u h = ground arith
leave_entry _ s t u h = refl

-- When the parser answers STU_AGAIN to a first piece of the headers, wherever it ends, a second
-- call returns the code that one call on everything returns; unless that is STU_ERROR it leaves
-- the same position, and on STU_OK and STU_AGAIN the same request.
pub parse_header_line_twice :
    (m : Mem) (underscores : Bool) (end end' p : ℕ) (r : Request)
    → end ≤ end'
    → (run (step m underscores) end p r).rc ≡ rc_again
    → let first = parse_header_line m underscores end p r in
      Agrees
        (parse_header_line m underscores end' first.last first.state)
        (parse_header_line m underscores end' p r)
unfolding parse_header_line
parse_header_line_twice m underscores end end' p r le again =
    call_twice (step m underscores) leave (step-IsSteady m underscores) leave_entry end end' p r le
      again refl

-- The next write into `lowcase_header` is inside the array.
pub record IsInside (r : Request) : Type 0 where
  pub index_lt : r.lowcase_index < 32
  pub array_size : length r.lowcase_header ≡ 32
