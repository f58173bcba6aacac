-- ===== src/HttpParse/StatusLine/Steady.antt =====
-- A status line may arrive in pieces, unless a piece ends inside the version or the status.
use chatease_server.Common.Memory.{Mem}
use chatease_server.Common.Scan.{Rc, rc_error, rc_again, next, stop, run, IsSteady}
use chatease_server.Common.Scan.Call.{GoesOn, Agrees, call_twice}
use chatease_server.Common.{ℕ, ◌≤◌, ◌≡◌, ◌≢◌, inr, refl, ap, arith, none, some}
use chatease_server.HttpParse.StatusLine.{
  State, sw_start, sw_version, sw_status, Request, step_in, step, forget, leave, parse_status_line,
}

module _ (atol : Mem → ℕ → ℕ) (m : Mem) where
  moves_on :
      (st : State) (p : ℕ) (r : Request) (q : ℕ) (t : Request)
      → step_in atol m st p r ≡ next q t
      → p ≤ q
  unfolding step_in
  moves_on sw_start p r q t e = ground arith
  moves_on (sw_version none) p r q t e = ground arith
  moves_on (sw_version (some v)) p r q t e = ground arith
  moves_on (sw_status none) p r q t e = ground arith
  moves_on (sw_status (some s)) p r q t e = ground arith
  moves_on _ p r q t e = ground arith

  never_waits :
      (st : State) (p : ℕ) (r : Request) (rc : Rc) (q : ℕ) (t : Request)
      → step_in atol m st p r ≡ stop rc q t
      → rc ≢ rc_again
  unfolding step_in
  never_waits sw_start p r rc q t e = ground arith
  never_waits (sw_version none) p r rc q t e = ground arith
  never_waits (sw_version (some v)) p r rc q t e = ground arith
  never_waits (sw_status none) p r rc q t e = ground arith
  never_waits (sw_status (some s)) p r rc q t e = ground arith
  never_waits _ p r rc q t e = ground arith

  pub step-IsSteady : IsSteady (step atol m)
  step-IsSteady = record {
    ahead = λ end p r q t e. moves_on r.state p r q t e;
    stays = λ end end' p r h le. inr refl;
    stop_final = λ end p r rc q t e. never_waits r.state p r rc q t e;
  }

-- The parser needs no local variable to go on.
abbrev pub HasNoLocal : State → Type 0
HasNoLocal (sw_version v) = ⊥
HasNoLocal (sw_status s) = ⊥
HasNoLocal _ = Unit

forget_lem : (st : State) → HasNoLocal st → forget st ≡ st
unfolding forget
forget_lem sw_start h = refl
forget_lem (sw_version v) h = absurd h
forget_lem (sw_status s) h = absurd h
forget_lem _ h = refl

leave_entry : (rc : Rc) (s t u : Request) → GoesOn rc → leave rc s u ≡ leave rc t u
leave_entry rc_error s t u h = ground arith
leave_entry _ s t u h = refl

-- When the first piece of a status line ends outside the version and outside the status, and the
-- parser answered STU_AGAIN to it, a second call returns the code that one call on everything
-- returns; unless that is STU_ERROR it leaves the same position, and on STU_OK and STU_AGAIN the
-- same request.
pub parse_status_line_twice :
    (atol : Mem → ℕ → ℕ) (m : Mem) (end end' p : ℕ) (r : Request)
    → end ≤ end'
    → (run (step atol m) end p r).rc ≡ rc_again
    → HasNoLocal (run (step atol m) end p r).state.state
    → let first = parse_status_line atol m end p r in
      Agrees
        (parse_status_line atol m end' first.last first.state)
        (parse_status_line atol m end' p r)
unfolding parse_status_line
parse_status_line_twice atol m end end' p r le again outside =
    call_twice (step atol m) leave (step-IsSteady atol m) leave_entry end end' p r le again
      (ap (λ st. record (run (step atol m) end p r).state { state = st }) (forget_lem _ outside))
